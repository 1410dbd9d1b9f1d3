-- ===== src/Adapters/Database/Books/Contract.antt =====
-- What library/domains/services/book.py promises of the table when it runs on BookStorage
-- (library/adapters/database/storages/book.py): for each method, a relation between the rows before
-- and after it, and what it returns.
use example_litestar_service.Prelude.{
  ℕ, ◌≡◌, ◌≢◌, refl, ap, ◌∙◌, sym, true, false, Option, none, some, List, [], ◌∷◌, ◌++◌, map,
  select, length, take, drop, prefix, arith, All, inl, inr, Bool-cases, Option-cases, eq_iff,
}
use example_litestar_service.Domains.Entities.Book.{
  Book, BookId, BookPaginationParams, BookPagination, CreateBook, UpdateBook, Datetime,
}
use example_litestar_service.Domains.Services
use example_litestar_service.Application.Result.{Result, ok, ok-injective}
use example_litestar_service.Adapters.Database.Books.{
  BookRow, BookSession, book_storage, row_to_book, values_of, exists_book_by_id, create_book,
  delete_book_by_id, id_is, not_deleted, set_deleted_at,
}
use example_litestar_service.Adapters.Database.Books.Engine.{
  IsBookDatabase, matches, is_taken, fits, fits_integer, sort_by_id,
}
use example_litestar_service.Adapters.Database.Books.Reading.{
  find_live, is_some, fetch_book_by_id_lem, exists-fetch_book_by_id, fetch_book_list_lem,
  count_books_lem,
}
use example_litestar_service.Adapters.Database.Books.Writing.{
  fits-values_of, find_live-append_new, marked, find_live-marked_self, find_live-marked_ne,
}
use example_litestar_service.Adapters.Database.Books.Updating.{or_kept, cut_or_kept}

-- The books that are not deleted, in the order of their identifiers.
abbrev pub live_books : List BookRow → List Book
live_books rows = map row_to_book (sort_by_id (select (matches (not_deleted ∷ [])) rows))

abbrev pub SameElsewhere : BookId → List BookRow → List BookRow → Type 0
SameElsewhere id rows rows' =
    (other : BookId) → other ≢ id → find_live other rows' ≡ find_live other rows

abbrev pub Fetched : BookId → Book → List BookRow → List BookRow → Type 0
Fetched id book rows rows' = (find_live id rows ≡ some book) × (rows' ≡ rows)

abbrev pub Listed : BookPaginationParams → BookPagination → List BookRow → List BookRow → Type 0
Listed params page rows rows' =
    (page.total ≡ length (live_books rows))
    × (page.items ≡ take params.limit (drop params.offset (live_books rows)))
    × (rows' ≡ rows)

abbrev pub Created : CreateBook → Book → List BookRow → List BookRow → Type 0
Created book created rows rows' =
    (is_taken (values_of book) rows ≡ false)
    × (created.title ≡ prefix 255 book.title)
    × (created.year ≡ book.year)
    × (created.author ≡ prefix 255 book.author)
    × (find_live created.id rows ≡ none)
    × (find_live created.id rows' ≡ some created)
    × SameElsewhere created.id rows rows'

abbrev pub Deleted : BookId → List BookRow → List BookRow → Type 0
Deleted id rows rows' =
    (is_some (find_live id rows) ≡ true) × (find_live id rows' ≡ none) × SameElsewhere id rows rows'

abbrev pub Updated : UpdateBook → Book → List BookRow → List BookRow → Type 0
Updated u book rows rows' =
    (old : Book) × (find_live u.id rows ≡ some old)
    × (find_live u.id rows' ≡ some book)
    × (book.title ≡ cut_or_kept u.title old.title)
    × (book.year ≡ or_kept u.year old.year)
    × (book.author ≡ cut_or_kept u.author old.author)
    × (book.created_at ≡ old.created_at)
    × SameElsewhere u.id rows rows'

find_live-append_other :
    (row : BookRow) (id : BookId) (rows : List BookRow)
    → id ≢ row.id
    → find_live id (rows ++ row ∷ []) ≡ find_live id rows
find_live-append_other row id [] ne = ground (arith, eq_iff row.id id)
find_live-append_other row id (r ∷ rows) ne = ground (arith, find_live-append_other row id rows ne)

find_live-fresh :
    (id : BookId) (rows : List BookRow) → All (λ r. r.id ≢ id) rows → find_live id rows ≡ none
find_live-fresh id [] fresh = refl
find_live-fresh id (r ∷ rows) (other, fresh) =
    ground (arith, eq_iff r.id id, find_live-fresh id rows fresh)

module _ {X : Type 0} (session : BookSession X) (rows : X → List BookRow) (now : ℕ)
    (db : IsBookDatabase session rows) where
  pub fetch_book_by_id-Fetched :
      (id : BookId) (x : X) (book : Book)
      → (Services.fetch_book_by_id (book_storage session now) id x).0 ≡ ok book
      → Fetched id book
          (rows x)
          (rows (Services.fetch_book_by_id (book_storage session now) id x).1)
  unfolding Services.fetch_book_by_id
  fetch_book_by_id-Fetched id x book = rw (fetch_book_by_id_lem session rows now db id x) λ e.
      elim (Option-cases (find_live id (rows x))) [
        | inl absent ↦ absurd (ground (arith, rw absent at e))
        | inr (found, there) ↦ (ground (arith, there), ground (arith, there))
      ]

  pub fetch_book_list-Listed :
      (params : BookPaginationParams) (x : X) (page : BookPagination)
      → (Services.fetch_book_list (book_storage session now) params x).0 ≡ ok page
      → Listed params page
          (rows x)
          (rows (Services.fetch_book_list (book_storage session now) params x).1)
  unfolding Services.fetch_book_list
  fetch_book_list-Listed params x page =
      rw
        (
          count_books_lem session rows now db params x,
          fetch_book_list_lem session rows now db params.limit params.offset x,
        )
        λ e.
          let same = ok-injective e in
          (
            ap (λ (p : BookPagination). p.total) (sym same),
            ap (λ (p : BookPagination). p.items) (sym same),
            refl,
          )

  -- A creation that returned is one that inserted a row.
  insert_succeeded :
      (book : CreateBook) (x : X) (created : Book)
      → (create_book session now book x).0 ≡ ok created
      → (fits (values_of book) ≡ true) × (is_taken (values_of book) (rows x) ≡ false)
  unfolding create_book
  insert_succeeded book x created e = elim (Bool-cases (fits (values_of book))) [
    | inl small ↦ elim (Bool-cases (is_taken (values_of book) (rows x))) [
      | inl taken ↦
          absurd (ground (arith, rw (db.insert_taken (values_of book) x small taken) at e))
      | inr free ↦ (small, free)
    ]
    | inr big ↦ elim (Bool-cases (fits_integer book.year)) [
      | inl small ↦ absurd (ground (arith, big, fits-values_of book small))
      | inr big_year ↦
          let (detail, refused) = db.insert_too_big (values_of book) x big_year in
          absurd (ground (arith, rw refused at e))
    ]
  ]

  pub create_book-Created :
      (book : CreateBook) (x : X) (created : Book)
      → (Services.create_book (book_storage session now) book x).0 ≡ ok created
      → Created book created
          (rows x)
          (rows (Services.create_book (book_storage session now) book x).1)
  unfolding Services.create_book create_book
  create_book-Created book x created e =
      let (small, free) = insert_succeeded book x created e in
      let (row, inserted, key, live, fresh, after) = db.insert_lem (values_of book) x small free in
      let same : created ≡ row_to_book row = ground (arith, inserted) in
      let after' : rows (create_book session now book x).1 ≡ rows x ++ row ∷ [] =
        ground (arith, inserted, after) in
      rw (same, after')
        (
          free,
          ap (λ (k : CreateBook). k.title) key,
          ap (λ (k : CreateBook). k.year) key,
          ap (λ (k : CreateBook). k.author) key,
          find_live-fresh row.id (rows x) fresh,
          find_live-append_new row (rows x) live fresh,
          λ other ne. find_live-append_other row other (rows x) ne,
        )

  pub exists_lem :
      (id : BookId) (x : X)
      → exists_book_by_id session now id x ≡ (ok (is_some (find_live id (rows x))), x)
  exists_lem id x =
      let (found, fetched, exists) = exists-fetch_book_by_id session rows now db id x in
      let same : found ≡ find_live id (rows x) = ok-injective (
        ap (λ (p : Result (Option Book) × X). p.0)
          (sym fetched ∙ fetch_book_by_id_lem session rows now db id x)) in
      exists ∙ ap (λ (o : Option Book). (ok (is_some o), x)) same

  delete_rows :
      (id : BookId) (x : X)
      → (t : Datetime) × (rows (delete_book_by_id session now id x).1 ≡ marked t now id (rows x))
  unfolding delete_book_by_id
  delete_rows id x =
      let (returned, succeeded) = db.update_deleted (id_is id ∷ []) now x in
      let (t, _, after) =
        db.update_lem (id_is id ∷ []) (set_deleted_at now ∷ []) x returned refl succeeded in
      (t, ground (arith, succeeded, after))

  pub delete_book_by_id-Deleted :
      (id : BookId) (x : X)
      → (Services.delete_book_by_id (book_storage session now) id x).0 ≡ ok tt
      → Deleted id (rows x) (rows (Services.delete_book_by_id (book_storage session now) id x).1)
  unfolding Services.delete_book_by_id
  delete_book_by_id-Deleted id x = rw (exists_lem id x) λ e.
      elim (Bool-cases (is_some (find_live id (rows x)))) [
        | inl there ↦
            let (t, after) = delete_rows id x in
            (
              there,
              rw (there, after) (find_live-marked_self t now id (rows x)),
              λ other ne. rw (there, after) (find_live-marked_ne t now id other (rows x) ne),
            )
        | inr absent ↦ absurd (ground (arith, rw absent at e))
      ]

-- ===== src/Adapters/Database/Books/Reading.antt =====
-- The queries of BookStorage (library/adapters/database/storages/book.py): what is found, and
-- that the pages of the list make up the table.
use mathlib.Core.Option
use example_litestar_service.Prelude.{
  eq_iff, ℕ, zero, suc, ◌+◌, ◌*◌, ◌≤◌, ◌≡◌, ◌≢◌, refl, ap, ◌∙◌, sym, Bool, true, false, Option,
  none, some, List, [], ◌∷◌, ◌++◌, map, any, select, head?, length, take, drop, arith, All, inl,
  inr, ◌⊎◌, Bool-cases, length-map, map-take, map-drop, take-add, drop-drop, take_of_long,
  length-sort_by,
}
use example_litestar_service.Domains.Entities.Book.{Book, BookId, BookPaginationParams}
use example_litestar_service.Application.Result.{Result, ok, ok-injective, Action, pure, ◌>>=◌}
use example_litestar_service.Adapters.Database.Books.{
  fetch_book_by_id, exists_book_by_id, count_books, fetch_book_list, row_to_book, BookRow,
  BookSession, id_is, not_deleted,
}
use example_litestar_service.Adapters.Database.Books.Engine.{IsBookDatabase, matches, sort_by_id}

abbrev pub live_id : BookId → BookRow → Bool
live_id id = matches (id_is id ∷ not_deleted ∷ [])

-- The live row of an identifier, as the storage hands it out.
abbrev pub find_live : BookId → List BookRow → Option Book
find_live id rows = Option.map row_to_book (head? (select (live_id id) rows))

abbrev pub is_some : {A : Type 0} → Option A → Bool
is_some none = false
is_some (some _) = true

any-eq-is_some :
    (id : BookId) (rows : List BookRow) → any (live_id id) rows ≡ is_some (find_live id rows)
any-eq-is_some id [] = refl
any-eq-is_some id (row ∷ rows) = elim (Bool-cases (live_id id row)) [
  | inl found ↦ rw found refl
  | inr other ↦ rw other (any-eq-is_some id rows)
]

-- A row of the list that has the identifier and is not deleted.
abbrev pub IsFound : BookId → Book → List BookRow → Type 0
IsFound id book [] = ⊥
IsFound id book (row ∷ rows) =
    ((row.id ≡ id) × (row.deleted_at ≡ none) × (book ≡ row_to_book row)) ⊎ IsFound id book rows

find_live-IsFound :
    (id : BookId) (rows : List BookRow) (book : Book)
    → find_live id rows ≡ some book
    → IsFound id book rows
find_live-IsFound id [] book e = cc
find_live-IsFound id (row ∷ rows) book e = elim (Bool-cases (live_id id row)) [
  | inl found ↦
      inl ((eq_iff row.id id).0 (ground arith), ground arith, ground (arith, rw found at e))
  | inr other ↦ inr (find_live-IsFound id rows book (rw other at e))
]

find_live-none :
    (id : BookId) (rows : List BookRow)
    → find_live id rows ≡ none
    → All (λ row. row.id ≡ id → row.deleted_at ≢ none) rows
find_live-none id [] e = tt
find_live-none id (row ∷ rows) e = elim (Bool-cases (live_id id row)) [
  | inl found ↦ absurd (ground (arith, rw found at e))
  | inr other ↦ (
    λ same live. ground (arith, (eq_iff row.id id).1 same),
    find_live-none id rows (rw other at e),
  )
]

module _ {X : Type 0} (session : BookSession X) (rows : X → List BookRow) (now : ℕ)
    (db : IsBookDatabase session rows) where
  pub fetch_book_by_id_lem :
      (id : BookId) (x : X) → fetch_book_by_id session now id x ≡ (ok (find_live id (rows x)), x)
  unfolding fetch_book_by_id
  fetch_book_by_id_lem id x = rw (db.select_lem (id_is id ∷ not_deleted ∷ []) x) refl

  -- A lookup changes nothing. It returns a book only if the table has a row with that identifier
  -- that is not deleted, with the fields of that row, and `None` only if it has no such row.
  pub fetch_book_by_id_sound :
      (id : BookId) (x : X)
      → ((book : Book)
          → (fetch_book_by_id session now id x).0 ≡ ok (some book)
          → IsFound id book (rows x))
        × ((fetch_book_by_id session now id x).0 ≡ ok none
            → All (λ row. row.id ≡ id → row.deleted_at ≢ none) (rows x))
        × ((fetch_book_by_id session now id x).1 ≡ x)
  fetch_book_by_id_sound id x = rw (fetch_book_by_id_lem id x) (
    λ book e. find_live-IsFound id (rows x) book (cc),
    λ e. find_live-none id (rows x) (cc),
    refl,
  )

  -- `exists_book_by_id` says true exactly where `fetch_book_by_id` finds a book, and changes
  -- nothing either.
  pub exists-fetch_book_by_id :
      (id : BookId) (x : X)
      → (found : Option Book) × (fetch_book_by_id session now id x ≡ (ok found, x))
        × (exists_book_by_id session now id x ≡ (ok (is_some found), x))
  unfolding exists_book_by_id
  exists-fetch_book_by_id id x = (
    find_live id (rows x),
    fetch_book_by_id_lem id x,
    rw (db.exists_lem (id_is id ∷ not_deleted ∷ []) x, any-eq-is_some id (rows x)) refl,
  )

  -- A client that asks for `n` pages of `limit` books, one behind the other.
  abbrev pub read_pages : ℕ → (limit offset : ℕ) → Action X (List Book)
  read_pages zero limit offset = pure []
  read_pages (suc n) limit offset = do
    page ← fetch_book_list session now (record { limit = limit; offset = offset })
    rest ← read_pages n limit (offset + limit)
    pure (page ++ rest)

  abbrev pub all_books : X → List Book
  all_books x = map row_to_book (sort_by_id (select (matches (not_deleted ∷ [])) (rows x)))

  pub fetch_book_list_lem :
      (limit offset : ℕ) (x : X)
      → fetch_book_list session now (record { limit = limit; offset = offset }) x
        ≡ (ok (take limit (drop offset (all_books x))), x)
  unfolding fetch_book_list
  fetch_book_list_lem limit offset x =
      rw
        (
          db.select_page_by_id_lem (not_deleted ∷ []) limit offset x,
          map-take row_to_book limit,
          map-drop row_to_book offset,
        )
        refl

  pub count_books_lem :
      (params : BookPaginationParams) (x : X)
      → count_books session now params x ≡ (ok (length (all_books x)), x)
  unfolding count_books
  count_books_lem params x =
      rw
        (
          db.count_lem (not_deleted ∷ []) x,
          length-map row_to_book,
          length-sort_by (λ (row : BookRow). row.id),
        )
        refl

  read_pages_lem :
      (n limit offset : ℕ) (x : X)
      → read_pages n limit offset x ≡ (ok (take (n * limit) (drop offset (all_books x))), x)
  read_pages_lem zero limit offset x = let nothing : 0 * limit ≡ 0 = omega arith in rw nothing refl
  read_pages_lem (suc n) limit offset x =
      rw (fetch_book_list_lem limit offset x, read_pages_lem n limit (offset + limit) x)
        (let first : suc n * limit ≡ limit + n * limit = omega arith in
          rw (first, take-add limit (n * limit) (drop offset (all_books x)), drop-drop offset limit)
            refl)

  -- A client that asks for pages one behind the other, until the pages can hold as many books as
  -- `count_books` says there are, gets every book that is not deleted, each once, in the order of
  -- the identifiers; nothing is changed.
  pub read_pages-all_books :
      (n limit total : ℕ) (params : BookPaginationParams) (x : X)
      → (count_books session now params x).0 ≡ ok total
      → total ≤ n * limit
      → read_pages n limit 0 x ≡ (ok (all_books x), x)
  read_pages-all_books n limit total params x counted enough =
      let size : length (all_books x) ≡ total =
        ok-injective (ap (λ (p : Result ℕ × X). p.0) (sym (count_books_lem params x)) ∙ counted) in
      rw (read_pages_lem n limit 0 x, take_of_long (n * limit) (all_books x) (omega arith)) refl

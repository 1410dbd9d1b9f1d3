-- ===== src/Adapters/Database/Books/Writing.antt =====
-- The writes of BookStorage (library/adapters/database/storages/book.py), with their errors.
use example_litestar_service.Prelude.{
  eq_iff, eq_refl, eq_ℤ_iff, ◌∙◌, sym, subst, ℕ, ◌≡◌, ◌≢◌, refl, ap, true, false, none, some, List,
  [], ◌∷◌, ◌++◌, arith, All, prefix, text_len-prefix-le,
}
use example_litestar_service.Domains.Entities.Book.{Book, BookId, CreateBook, Datetime}
use example_litestar_service.Application.Exceptions.{entity_already_exists}
use example_litestar_service.Application.Result.{ok, raise}
use example_litestar_service.Adapters.Database.Books.{
  fetch_book_by_id, create_book, delete_book_by_id, row_to_book, values_of, BookRow, BookSession,
  id_is, set_deleted_at,
}
use example_litestar_service.Adapters.Database.Books.Engine.{
  IsBookDatabase, is_taken, key_of, fits, fits_integer, changed_where,
}
use example_litestar_service.Adapters.Database.Books.Reading.{find_live, fetch_book_by_id_lem}

-- Cutting both texts makes a book fit, whatever their length.
pub fits-values_of :
    (book : CreateBook) → fits_integer book.year ≡ true → fits (values_of book) ≡ true
fits-values_of book h =
    ground (arith, text_len-prefix-le 255 book.title, text_len-prefix-le 255 book.author)

-- A new row at the end is the one that is found by its identifier.
pub find_live-append_new :
    (row : BookRow) (rows : List BookRow)
    → row.deleted_at ≡ none
    → All (λ r. r.id ≢ row.id) rows
    → find_live row.id (rows ++ row ∷ []) ≡ some (row_to_book row)
find_live-append_new row [] live fresh = ground (arith, eq_iff row.id row.id)
find_live-append_new row (r ∷ rows) live (other, fresh) =
    ground (arith, eq_iff r.id row.id, find_live-append_new row rows live fresh)

find_live-absent :
    (id : BookId) (rows : List BookRow) → All (λ r. r.id ≢ id) rows → find_live id rows ≡ none
find_live-absent id [] fresh = refl
find_live-absent id (r ∷ rows) (other, fresh) =
    ground (arith, eq_iff r.id id, find_live-absent id rows fresh)

find_live-append_ne :
    (row : BookRow) (rows : List BookRow) (other : BookId)
    → other ≢ row.id
    → find_live other (rows ++ row ∷ []) ≡ find_live other rows
find_live-append_ne row [] other ne = ground (arith, eq_iff row.id other)
find_live-append_ne row (r ∷ rows) other ne = ground (arith, find_live-append_ne row rows other ne)

-- A live row takes its own key.
is_taken-append :
    (row : BookRow) (rows : List BookRow)
    → row.deleted_at ≡ none
    → is_taken (key_of row) (rows ++ row ∷ []) ≡ true
is_taken-append row [] live =
    ground (arith, eq_refl row.title, eq_ℤ_iff row.year row.year, eq_refl row.author)
is_taken-append row (r ∷ rows) live = ground (arith, is_taken-append row rows live)

abbrev pub marked : Datetime → Datetime → BookId → List BookRow → List BookRow
marked t now id = changed_where (id_is id ∷ []) t (set_deleted_at now ∷ [])

pub find_live-marked_self :
    (t now : Datetime) (id : BookId) (rows : List BookRow)
    → find_live id (marked t now id rows) ≡ none
find_live-marked_self t now id [] = refl
find_live-marked_self t now id (row ∷ rows) =
    ground (arith, eq_iff row.id id, find_live-marked_self t now id rows)

pub find_live-marked_ne :
    (t now : Datetime) (id other : BookId) (rows : List BookRow)
    → other ≢ id
    → find_live other (marked t now id rows) ≡ find_live other rows
find_live-marked_ne t now id other [] ne = refl
find_live-marked_ne t now id other (row ∷ rows) ne =
    ground
      (arith, eq_iff row.id id, eq_iff row.id other, find_live-marked_ne t now id other rows ne)

module _ {X : Type 0} (session : BookSession X) (rows : X → List BookRow) (now : ℕ)
    (db : IsBookDatabase session rows) where
  -- A book whose cut title, year and cut author no live row has yet, with a year of 32 bits, is
  -- created: it is returned with those values, under an identifier that no lookup found before, the
  -- next lookup by this identifier finds it, and lookups by other identifiers find what they found
  -- before. Creating a book with the same cut values once more is refused as existing.
  pub create_book_new :
      (book : CreateBook) (x : X)
      → fits_integer book.year ≡ true
      → is_taken (values_of book) (rows x) ≡ false
      → (created : Book) × ((create_book session now book x).0 ≡ ok created)
        × (created.title ≡ prefix 255 book.title)
        × (created.year ≡ book.year)
        × (created.author ≡ prefix 255 book.author)
        × ((fetch_book_by_id session now created.id (create_book session now book x).1).0
            ≡ ok (some created))
        × ((fetch_book_by_id session now created.id x).0 ≡ ok none)
        × ((other : BookId)
            → other ≢ created.id
            → (fetch_book_by_id session now other (create_book session now book x).1).0
              ≡ (fetch_book_by_id session now other x).0)
        × ((again : CreateBook)
            → values_of again ≡ values_of book
            → (create_book session now again (create_book session now book x).1).0
              ≡ raise (entity_already_exists "Book already exists"))
  unfolding create_book
  create_book_new book x small free =
      let (row, inserted, key, live, fresh, after) =
        db.insert_lem (values_of book) x (fits-values_of book small) free in
      let x' = (create_book session now book x).1 in
      let same : x' ≡ (session.insert (values_of book) x).1 = ground arith in
      let after' : rows x' ≡ rows x ++ row ∷ [] = ap rows same ∙ after in
      (
        row_to_book row,
        ground arith,
        ap (λ (k : CreateBook). k.title) key,
        ap (λ (k : CreateBook). k.year) key,
        ap (λ (k : CreateBook). k.author) key,
        rw
            (
              fetch_book_by_id_lem session rows now db row.id x',
              after',
              find_live-append_new row (rows x) live fresh,
            )
            refl,
        rw
            (
              fetch_book_by_id_lem session rows now db row.id x,
              find_live-absent row.id (rows x) fresh,
            )
            refl,
        λ other ne.
            rw
              (
                fetch_book_by_id_lem session rows now db other x',
                fetch_book_by_id_lem session rows now db other x,
                after',
                find_live-append_ne row (rows x) other ne,
              )
              refl,
        λ again alike.
            let taken : is_taken (values_of again) (rows x') ≡ true =
              subst (λ k. is_taken k (rows x') ≡ true) (key ∙ sym alike)
                (subst (λ l. is_taken (key_of row) l ≡ true) (sym after')
                  (is_taken-append row (rows x) live)) in
            let fit : fits (values_of again) ≡ true =
              subst (λ k. fits k ≡ true) (sym alike) (fits-values_of book small) in
            rw (db.insert_taken (values_of again) x' fit taken) refl,
      )

  -- A book that a live row already has, after its texts are cut, is refused as existing, and the
  -- table is left alone.
  pub create_book_taken :
      (book : CreateBook) (x : X)
      → fits_integer book.year ≡ true
      → is_taken (values_of book) (rows x) ≡ true
      → create_book session now book x ≡ (raise (entity_already_exists "Book already exists"), x)
  unfolding create_book
  create_book_taken book x small taken =
      rw (db.insert_taken (values_of book) x (fits-values_of book small) taken) refl

  -- After a book has been deleted no lookup finds it, whether it was there before or not; every
  -- other identifier is looked up as before.
  pub delete_book_by_id_lem :
      (id : BookId) (x : X)
      → ((delete_book_by_id session now id x).0 ≡ ok tt)
        × ((fetch_book_by_id session now id (delete_book_by_id session now id x).1).0 ≡ ok none)
        × ((other : BookId)
            → other ≢ id
            → (fetch_book_by_id session now other (delete_book_by_id session now id x).1).0
              ≡ (fetch_book_by_id session now other x).0)
  unfolding delete_book_by_id
  delete_book_by_id_lem id x =
      let conditions = id_is id ∷ [] in
      let assignments = set_deleted_at now ∷ [] in
      let (returned, succeeded) = db.update_deleted conditions now x in
      let (t, _, after) = db.update_lem conditions assignments x returned refl succeeded in
      let x' = (delete_book_by_id session now id x).1 in
      let same : x' ≡ (session.update conditions assignments x).1 = ground arith in
      (
        ground arith,
        rw
            (
              fetch_book_by_id_lem session rows now db id x',
              same,
              after,
              find_live-marked_self t now id (rows x),
            )
            refl,
        λ other ne.
            rw
              (
                fetch_book_by_id_lem session rows now db other x',
                fetch_book_by_id_lem session rows now db other x,
                same,
                after,
                find_live-marked_ne t now id other (rows x) ne,
              )
              refl,
      )

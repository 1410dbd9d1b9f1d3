-- ===== src/Adapters/Database/Books/Engine.antt =====
-- What BookStorage (library/adapters/database/storages/book.py) relies on of PostgreSQL, on the
-- table of library/adapters/database/tables.py: documented behaviour, as hypotheses.
use example_litestar_service.Prelude.{
  str_eq, ℕ, ◌≡◌, ◌≢◌, String, ℤ, pos, negsuc, eq_ℤ, Bool, true, false, ◌&&◌, none, some, List, [],
  ◌∷◌, ◌++◌, map, all, any, select, length, take, drop, leb, ltb, text_len, prefix, All,
  if◌then◌else◌, sort_by,
}
use example_litestar_service.Domains.Entities.Book.{
  Datetime, CreateBook, Value, none_value, text, int,
}
use example_litestar_service.Application.Exceptions.{Exception, integrity_error, database_error}
use example_litestar_service.Application.Result.{ok, raise}
use example_litestar_service.Adapters.Database.Books.Table.{
  BookRow, Condition, id_is, not_deleted, Assignment, set_column, set_deleted_at, BookSession,
}

abbrev pub is_live : BookRow → Bool
is_live row = elim row.deleted_at [ none ↦ true | some _ ↦ false ]

abbrev pub holds : BookRow → Condition → Bool
holds row (id_is id) = str_eq row.id id
holds row not_deleted = is_live row

-- The conjunction of a `where(…)`.
abbrev pub matches : List Condition → BookRow → Bool
matches conditions row = all (holds row) conditions

-- The columns of the unique index of live rows.
abbrev pub same_key : CreateBook → CreateBook → Bool
same_key a b = str_eq a.title b.title && (eq_ℤ a.year b.year && str_eq a.author b.author)

abbrev pub key_of : BookRow → CreateBook
key_of row = record { title = row.title; year = row.year; author = row.author }

abbrev pub is_taken : CreateBook → List BookRow → Bool
is_taken book rows = any (λ row. is_live row && same_key book (key_of row)) rows

-- The value fits `String(255)`.
abbrev pub fits_text : String → Bool
fits_text s = leb (text_len s) 255

-- The value fits `Integer`, which has 32 bits.
abbrev pub fits_integer : ℤ → Bool
fits_integer (pos n) = ltb n 2147483648
fits_integer (negsuc n) = ltb n 2147483648

abbrev pub fits : CreateBook → Bool
fits book = fits_text book.title && (fits_integer book.year && fits_text book.author)

-- A text that is longer than 255 is refused, unless all that exceeds is spaces: then it is cut.
abbrev pub assign_column : String → Value → BookRow → BookRow
assign_column name none_value row = row
assign_column name (text s) row =
    if str_eq name "title"
    then record row { title = prefix 255 s }
    else if str_eq name "author"
    then record row { author = prefix 255 s }
    else row
assign_column name (int n) row = if str_eq name "year" then record row { year = n } else row

abbrev pub assign : Assignment → BookRow → BookRow
assign (set_column (name, value)) row = assign_column name value row
assign (set_deleted_at t) row = record row { deleted_at = some t }

abbrev pub assign_all : List Assignment → BookRow → BookRow
assign_all [] row = row
assign_all (a ∷ assignments) row = assign_all assignments (assign a row)

-- A row after an update at the instant `t`, which `onupdate` writes to `updated_at`.
abbrev pub changed : Datetime → List Assignment → BookRow → BookRow
changed t assignments row = record (assign_all assignments row) { updated_at = t }

abbrev pub changed_where : List Condition → Datetime → List Assignment → List BookRow → List BookRow
changed_where conditions t assignments rows =
    map (λ row. if matches conditions row then changed t assignments row else row) rows

abbrev pub is_null : Assignment → Bool
is_null (set_column (_, none_value)) = true
is_null (set_column (_, text _)) = false
is_null (set_column (_, int _)) = false
is_null (set_deleted_at _) = false

-- The books of a bulk insert that no live row and no earlier book of it already has.
abbrev pub novel : List CreateBook → List CreateBook → List CreateBook
novel seen [] = []
novel seen (book ∷ books) =
    if any (same_key book) seen then novel seen books else book ∷ novel (book ∷ seen) books

abbrev pub live_keys : List BookRow → List CreateBook
live_keys rows = map key_of (select is_live rows)

abbrev pub sort_by_id : List BookRow → List BookRow
sort_by_id rows = sort_by (λ row. row.id) rows

-- `rows` are the rows of the table that the state shows, in the order of a scan.
pub record IsBookDatabase {X : Type 0} (session : BookSession X) (rows : X → List BookRow)
    : Type 0 where
  pub select_lem :
      (conditions : List Condition) (x : X)
      → session.select conditions x ≡ (ok (select (matches conditions) (rows x)), x)
  pub select_page_by_id_lem :
      (conditions : List Condition) (limit offset : ℕ) (x : X)
      → session.select_page_by_id conditions limit offset x
        ≡ (ok (take limit (drop offset (sort_by_id (select (matches conditions) (rows x))))), x)
  pub exists_lem :
      (conditions : List Condition) (x : X)
      → session.exists conditions x ≡ (ok (some (any (matches conditions) (rows x))), x)
  pub count_lem :
      (conditions : List Condition) (x : X)
      → session.count conditions x ≡ (ok (some (length (select (matches conditions) (rows x)))), x)
  -- A year that is no 32-bit integer is refused.
  pub insert_too_big :
      (book : CreateBook) (x : X)
      → fits_integer book.year ≡ false
      → (detail : String) × (session.insert book x ≡ (raise (database_error detail), x))
  pub insert_taken :
      (book : CreateBook) (x : X)
      → fits book ≡ true
      → is_taken book (rows x) ≡ true
      → session.insert book x ≡ (raise (integrity_error (some "ix__books__title_year_author")), x)
  -- Any other book becomes a row with a new identifier.
  pub insert_lem :
      (book : CreateBook) (x : X)
      → fits book ≡ true
      → is_taken book (rows x) ≡ false
      → (row : BookRow) × ((session.insert book x).0 ≡ ok row)
        × (key_of row ≡ book)
        × (row.deleted_at ≡ none)
        × All (λ r. r.id ≢ row.id) (rows x)
        × (rows (session.insert book x).1 ≡ rows x ++ row ∷ [])
  -- No column is nullable: an update that sets one of a row to NULL is refused.
  pub update_null :
      (conditions : List Condition) (assignments : List Assignment) (x : X)
      → any (matches conditions) (rows x) ≡ true
      → any is_null assignments ≡ true
      → (e : Exception) × (session.update conditions assignments x ≡ (raise e, x))
  -- An update that succeeds changes the rows that match, and returns them as they are then.
  pub update_lem :
      (conditions : List Condition) (assignments : List Assignment) (x : X)
      (returned : List BookRow)
      → any is_null assignments ≡ false
      → (session.update conditions assignments x).0 ≡ ok returned
      → (t : Datetime) × (returned
          ≡ map (changed t assignments) (select (matches conditions) (rows x)))
        × (rows (session.update conditions assignments x).1
            ≡ changed_where conditions t assignments (rows x))
  -- Rows that are marked as deleted leave the index: that is always allowed.
  pub update_deleted :
      (conditions : List Condition) (t : Datetime) (x : X)
      → (returned : List BookRow) × ((session.update conditions (set_deleted_at t ∷ []) x).0
          ≡ ok returned)
  -- `ON CONFLICT DO NOTHING` leaves out what is there already. (For no books at all sqlalchemy
  -- would insert a row of defaults.)
  pub insert_or_ignore_lem :
      (book : CreateBook) (books : List CreateBook) (x : X)
      → all fits (book ∷ books) ≡ true
      → (added : List BookRow) × ((session.insert_or_ignore (book ∷ books) x).0 ≡ ok tt)
        × (rows (session.insert_or_ignore (book ∷ books) x).1 ≡ rows x ++ added)
        × (map key_of added ≡ novel (live_keys (rows x)) (book ∷ books))
        × All (λ row. row.deleted_at ≡ none) added

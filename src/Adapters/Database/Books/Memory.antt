-- ===== src/Adapters/Database/Books/Memory.antt =====
-- A table `books` in memory (library/adapters/database/tables.py), for the tests.
use example_litestar_service.Prelude.{
  ◌≡◌, refl, ap, String, Bool, false, none, some, List, [], ◌∷◌, ◌++◌, map, any, select, length,
  take, drop, arith, All, if◌then◌else◌, Bool-cases, inl, inr,
}
use example_litestar_service.Prelude.Fresh.{fresh_id, fresh_id-fresh}
use example_litestar_service.Domains.Entities.Book.{CreateBook, Datetime}
use example_litestar_service.Application.Exceptions.{integrity_error, database_error}
use example_litestar_service.Application.Result.{Result, ok, raise}
use example_litestar_service.Adapters.Database.Books.{
  BookRow, BookSession, Condition, Assignment, set_deleted_at,
}
use example_litestar_service.Adapters.Database.Books.Engine.{
  IsBookDatabase, matches, key_of, is_taken, fits, fits_integer, changed, changed_where, is_null,
  novel, live_keys, sort_by_id,
}

-- The rows in the order of a scan.
abbrev pub Rows : Type 0
Rows = List BookRow

abbrev id_of : BookRow → String
id_of row = row.id

abbrev row_of : String → CreateBook → BookRow
row_of id book = record {
  id = id;
  title = book.title;
  year = book.year;
  author = book.author;
  created_at = 0;
  updated_at = 0;
  deleted_at = none;
}

abbrev insert : CreateBook → Rows → Result BookRow × Rows
insert book x =
    if fits book
    then if is_taken book x
      then (raise (integrity_error (some "ix__books__title_year_author")), x)
      else (ok (row_of (fresh_id id_of x) book), x ++ row_of (fresh_id id_of x) book ∷ [])
    else (raise (database_error "value too long"), x)

abbrev update : List Condition → List Assignment → Rows → Result Rows × Rows
update conditions assignments x =
    if any (matches conditions) x
    then if any is_null assignments then (raise (integrity_error none), x) else (
      ok (map (changed 1 assignments) (select (matches conditions) x)),
      changed_where conditions 1 assignments x,
    )
    else (ok [], x)

abbrev added_rows : List CreateBook → Rows → Rows
added_rows books x = map (row_of (fresh_id id_of x)) (novel (live_keys x) books)

abbrev pub memory : BookSession Rows
memory = record {
  select = λ conditions x. (ok (select (matches conditions) x), x);
  select_page_by_id = λ conditions limit offset x.
      (ok (take limit (drop offset (sort_by_id (select (matches conditions) x)))), x);
  exists = λ conditions x. (ok (some (any (matches conditions) x)), x);
  count = λ conditions x. (ok (some (length (select (matches conditions) x))), x);
  insert = insert;
  update = update;
  insert_or_ignore = λ books x. (ok tt, x ++ added_rows books x);
}

select-none : (test : BookRow → Bool) (x : Rows) → any test x ≡ false → select test x ≡ []
select-none test [] h = refl
select-none test (row ∷ x) h = ground (arith, select-none test x)

changed_where-none :
    (conditions : List Condition) (assignments : List Assignment) (x : Rows)
    → any (matches conditions) x ≡ false
    → changed_where conditions 1 assignments x ≡ x
changed_where-none conditions assignments [] h = refl
changed_where-none conditions assignments (row ∷ x) h =
    ground (arith, changed_where-none conditions assignments x)

update_lem :
    (conditions : List Condition) (assignments : List Assignment) (x returned : Rows)
    → any is_null assignments ≡ false
    → (update conditions assignments x).0 ≡ ok returned
    → (returned ≡ map (changed 1 assignments) (select (matches conditions) x))
      × ((update conditions assignments x).1 ≡ changed_where conditions 1 assignments x)
update_lem conditions assignments x returned no_null e =
    elim (Bool-cases (any (matches conditions) x)) [
      | inl there ↦ ground arith
      | inr absent ↦ ground (
        arith,
        select-none (matches conditions) x absent,
        changed_where-none conditions assignments x absent,
      )
    ]

keys_of_rows : (id : String) (books : List CreateBook) → map key_of (map (row_of id) books) ≡ books
keys_of_rows id [] = refl
keys_of_rows id (book ∷ books) = ap (λ (l : List CreateBook). book ∷ l) (keys_of_rows id books)

rows_live :
    (id : String) (books : List CreateBook)
    → All (λ row. row.deleted_at ≡ none) (map (row_of id) books)
rows_live id [] = tt
rows_live id (book ∷ books) = (refl, rows_live id books)

update_deleted :
    (conditions : List Condition) (t : Datetime) (x : Rows)
    → (returned : Rows) × ((update conditions (set_deleted_at t ∷ []) x).0 ≡ ok returned)
update_deleted conditions t x = elim (Bool-cases (any (matches conditions) x)) [
  | inl there ↦
      (map (changed 1 (set_deleted_at t ∷ [])) (select (matches conditions) x), rw there refl)
  | inr absent ↦ ([], rw absent refl)
]

not-fits : (book : CreateBook) → fits_integer book.year ≡ false → fits book ≡ false
not-fits book h = ground (arith, h)

pub memory-IsBookDatabase : IsBookDatabase memory (λ x. x)
memory-IsBookDatabase = record {
  select_lem = λ conditions x. refl;
  select_page_by_id_lem = λ conditions limit offset x. refl;
  exists_lem = λ conditions x. refl;
  count_lem = λ conditions x. refl;
  insert_too_big = λ book x h. ("value too long", rw (not-fits book h) refl);
  insert_taken = λ book x small taken. rw (small, taken) refl;
  insert_lem = λ book x small free. (
    row_of (fresh_id id_of x) book,
    rw (small, free) refl,
    refl,
    refl,
    fresh_id-fresh id_of x,
    rw (small, free) refl,
  );
  update_null =
      λ conditions assignments x there has_null. (integrity_error none, rw (there, has_null) refl);
  update_lem = λ conditions assignments x returned no_null e.
      let (listed, after) = update_lem conditions assignments x returned no_null e in
      (1, listed, after);
  update_deleted = update_deleted;
  insert_or_ignore_lem = λ book books x fit. (
    added_rows (book ∷ books) x,
    refl,
    refl,
    keys_of_rows (fresh_id id_of x) (novel (live_keys x) (book ∷ books)),
    rows_live (fresh_id id_of x) (novel (live_keys x) (book ∷ books)),
  );
}

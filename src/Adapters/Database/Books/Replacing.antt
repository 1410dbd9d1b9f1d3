-- ===== src/Adapters/Database/Books/Replacing.antt =====
-- The contract of `update_book_by_id` of library/domains/services/book.py on BookStorage
-- (library/adapters/database/storages/book.py).
use mathlib.Core.Option
use example_litestar_service.Prelude.{
  ℕ, ◌≡◌, ◌≢◌, refl, ap, ◌∙◌, sym, subst, Bool, true, false, some, List, [], ◌∷◌, map, any, select,
  head?, arith, inl, inr, Bool-cases, eq_iff,
}
use example_litestar_service.Domains.Entities.Book.{
  Book, BookId, UpdateBook, Datetime, book_to_dict,
}
use example_litestar_service.Domains.Services
use example_litestar_service.Application.Result.{ok, continue}
use example_litestar_service.Adapters.Database.Books.{
  BookRow, BookSession, book_storage, row_to_book, update_book_by_id, id_is,
}
use example_litestar_service.Adapters.Database.Books.Engine.{
  IsBookDatabase, matches, is_live, changed, changed_where,
}
use example_litestar_service.Adapters.Database.Books.Reading.{live_id, find_live, is_some}
use example_litestar_service.Adapters.Database.Books.Updating.{
  gives_null, columns, is_null-columns, changed-columns, update_succeeded,
}
use example_litestar_service.Adapters.Database.Books.Contract.{Updated, exists_lem}

abbrev by_id : BookId → BookRow → Bool
by_id id = matches (id_is id ∷ [])

select-live_id :
    (id : BookId) (rows : List BookRow)
    → select (live_id id) rows ≡ select is_live (select (by_id id) rows)
select-live_id id [] = refl
select-live_id id (row ∷ rows) = ground (arith, select-live_id id rows)

-- Where one row has the identifier, and it is found, that row is the one.
one_live :
    (id : BookId) (rows : List BookRow) (row : BookRow)
    → select (by_id id) rows ≡ row ∷ []
    → is_some (find_live id rows) ≡ true
    → head? (select (live_id id) rows) ≡ some row
one_live id rows row one = rw (select-live_id id rows, one) λ e. ground (arith, e)

any-find_live :
    (id : BookId) (rows : List BookRow)
    → is_some (find_live id rows) ≡ true
    → any (by_id id) rows ≡ true
any-find_live id [] e = absurd (ground (arith, e))
any-find_live id (row ∷ rows) e = elim (Bool-cases (by_id id row)) [
  | inl this ↦ rw this refl
  | inr other ↦ ground (arith, any-find_live id rows)
]

columns_keep :
    (u : UpdateBook) (t : Datetime) (row : BookRow)
    → ((changed t (columns u) row).id ≡ row.id)
      × ((changed t (columns u) row).deleted_at ≡ row.deleted_at)
unfolding book_to_dict
columns_keep u t row = ground arith

abbrev replaced : UpdateBook → Datetime → List BookRow → List BookRow
replaced u t = changed_where (id_is u.id ∷ []) t (columns u)

live_id-changed :
    (u : UpdateBook) (t : Datetime) (id : BookId) (row : BookRow)
    → live_id id (changed t (columns u) row) ≡ live_id id row
live_id-changed u t id row = let (same, live) = columns_keep u t row in rw (same, live) refl

find_live-replaced_self :
    (u : UpdateBook) (t : Datetime) (rows : List BookRow)
    → find_live u.id (replaced u t rows)
      ≡ Option.map
          (λ row. row_to_book (changed t (columns u) row))
          (head? (select (live_id u.id) rows))
find_live-replaced_self u t [] = refl
find_live-replaced_self u t (row ∷ rows) =
    ground (arith, live_id-changed u t u.id row, find_live-replaced_self u t rows)

find_live-replaced_ne :
    (u : UpdateBook) (t : Datetime) (other : BookId) (rows : List BookRow)
    → other ≢ u.id
    → find_live other (replaced u t rows) ≡ find_live other rows
find_live-replaced_ne u t other [] ne = refl
find_live-replaced_ne u t other (row ∷ rows) ne = ground (
  arith,
  eq_iff row.id u.id,
  eq_iff row.id other,
  live_id-changed u t other row,
  find_live-replaced_ne u t other rows ne,
)

one_of_map :
    (f : BookRow → BookRow) (l : List BookRow) (new : BookRow)
    → map f l ≡ new ∷ []
    → (row : BookRow) × (l ≡ row ∷ []) × (new ≡ f row)
one_of_map f [] new e = absurd (ground (arith, e))
one_of_map f (row ∷ []) new e = (row, refl, ground (arith, e))
one_of_map f (_ ∷ _ ∷ _) new e = absurd (ground (arith, e))

module _ {X : Type 0} (session : BookSession X) (rows : X → List BookRow) (now : ℕ)
    (db : IsBookDatabase session rows) where
  update_one :
      (u : UpdateBook) (x : X) (book : Book) (returned : List BookRow)
      → (session.update (id_is u.id ∷ []) (columns u) x).0 ≡ ok returned
      → (update_book_by_id session now u x).0 ≡ ok book
      → (row : BookRow) × (returned ≡ row ∷ [])
        × (book ≡ row_to_book row)
        × ((update_book_by_id session now u x).1
            ≡ (session.update (id_is u.id ∷ []) (columns u) x).1)
  unfolding update_book_by_id
  update_one u x book [] succeeded e = absurd (ground (arith, succeeded, e))
  update_one u x book (row ∷ []) succeeded e =
      (row, refl, ground (arith, succeeded), ground (arith, succeeded))
  update_one u x book (_ ∷ _ ∷ _) succeeded e = absurd (ground (arith, succeeded, e))

  update_no_null :
      (u : UpdateBook) (x : X) (book : Book)
      → any (by_id u.id) (rows x) ≡ true
      → (update_book_by_id session now u x).0 ≡ ok book
      → gives_null u ≡ false
  unfolding update_book_by_id
  update_no_null u x book there e = elim (Bool-cases (gives_null u)) [
    | inr no_null ↦ no_null
    | inl has_null ↦
        let (error, refused) =
          db.update_null (id_is u.id ∷ []) (columns u) x there (is_null-columns u ∙ has_null) in
        absurd (ground (arith, refused, e))
  ]

  update_replaces :
      (u : UpdateBook) (x : X) (book : Book)
      → is_some (find_live u.id (rows x)) ≡ true
      → (update_book_by_id session now u x).0 ≡ ok book
      → Updated u book (rows x) (rows (update_book_by_id session now u x).1)
  update_replaces u x book there e =
      let no_null = update_no_null u x book (any-find_live u.id (rows x) there) e in
      let (returned, succeeded) = update_succeeded session rows now db u x book e in
      let (t, listed, after) =
        db.update_lem (id_is u.id ∷ []) (columns u) x returned (is_null-columns u ∙ no_null)
          succeeded in
      let (new, only, same_book, same_state) = update_one u x book returned succeeded e in
      let (row, one, is_changed) =
        one_of_map (changed t (columns u)) (select (by_id u.id) (rows x)) new (sym listed ∙ only) in
      let live = one_live u.id (rows x) row one there in
      let (_, title, year, author, created_at) = changed-columns u t row in
      let found : book ≡ row_to_book (changed t (columns u) row) =
        same_book ∙ ap row_to_book is_changed in
      let after' : rows (update_book_by_id session now u x).1 ≡ replaced u t (rows x) =
        ap rows same_state ∙ after in
      rw (found, after')
        (
          row_to_book row,
          ap (Option.map row_to_book) live,
          find_live-replaced_self u t (rows x)
              ∙ ap (Option.map (λ r. row_to_book (changed t (columns u) r))) live,
          title,
          year,
          author,
          created_at,
          λ other ne. find_live-replaced_ne u t other (rows x) ne,
        )

  pub update_book_by_id-Updated :
      (u : UpdateBook) (x : X) (book : Book)
      → (Services.update_book_by_id (book_storage session now) u x).0 ≡ ok book
      → Updated u book (rows x) (rows (Services.update_book_by_id (book_storage session now) u x).1)
  unfolding Services.update_book_by_id
  update_book_by_id-Updated u x book = rw (exists_lem session rows now db u.id x) λ e.
      elim (Bool-cases (is_some (find_live u.id (rows x)))) [
        | inl there ↦
            subst
              (λ b.
                (continue (λ _. update_book_by_id session now u)
                    (Services.check_exists "Book" u.id b x)).0
                  ≡ ok book
                → Updated u book (rows x) (
                    rows
                      (continue (λ _. update_book_by_id session now u)
                        (Services.check_exists "Book" u.id b x)).1))
              (sym there) (update_replaces u x book there) e
        | inr absent ↦ absurd (ground (arith, rw absent at e))
      ]

-- ===== src/Adapters/Database/Books/Updating.antt =====
-- Updates of BookStorage (library/adapters/database/storages/book.py): what they change.
use example_litestar_service.Prelude.{
  String, prefix, ℕ, ◌≡◌, ap, ◌∙◌, sym, Bool, true, false, List, [], ◌∷◌, map, any, select, arith,
  inl, inr, ◌||◌,
}
use example_litestar_service.Domains.Entities.Book.{
  Book, UpdateBook, Datetime, Given, unset, null, given, book_to_dict,
}
use example_litestar_service.Application.Result.{ok, ok-injective, Result-cases}
use example_litestar_service.Adapters.Database.Books.{
  update_book_by_id, row_to_book, BookRow, BookSession, id_is, Assignment, set_column,
}
use example_litestar_service.Adapters.Database.Books.Engine.{
  IsBookDatabase, matches, changed, is_null,
}

-- The value of a field after a partial update.
abbrev pub or_kept : {A : Type 0} → Given A → A → A
or_kept unset old = old
or_kept null old = old
or_kept (given a) old = a

-- The same for a text, of which the column takes 255 characters.
abbrev pub cut_or_kept : Given String → String → String
cut_or_kept unset old = old
cut_or_kept null old = old
cut_or_kept (given s) old = prefix 255 s

abbrev pub is_given_null : {A : Type 0} → Given A → Bool
is_given_null unset = false
is_given_null null = true
is_given_null (given _) = false

abbrev pub gives_null : UpdateBook → Bool
gives_null u = is_given_null u.title || (is_given_null u.year || is_given_null u.author)

abbrev pub columns : UpdateBook → List Assignment
columns u = map set_column (book_to_dict u)

pub is_null-columns : (u : UpdateBook) → any is_null (columns u) ≡ gives_null u
unfolding book_to_dict
is_null-columns u = ground arith

pub changed-columns :
    (u : UpdateBook) (t : Datetime) (row : BookRow)
    → let new = changed t (columns u) row in
      (new.id ≡ row.id)
      × (new.title ≡ cut_or_kept u.title row.title)
      × (new.year ≡ or_kept u.year row.year)
      × (new.author ≡ cut_or_kept u.author row.author)
      × (new.created_at ≡ row.created_at)
unfolding book_to_dict
changed-columns u t row = ground arith

module _ {X : Type 0} (session : BookSession X) (rows : X → List BookRow) (now : ℕ)
    (db : IsBookDatabase session rows) where
  -- An update returns a book only where its statement succeeded.
  pub update_succeeded :
      (u : UpdateBook) (x : X) (book : Book)
      → (update_book_by_id session now u x).0 ≡ ok book
      → (returned : List BookRow) × ((session.update (id_is u.id ∷ []) (columns u) x).0
          ≡ ok returned)
  unfolding update_book_by_id
  update_succeeded u x book e =
      elim (Result-cases (session.update (id_is u.id ∷ []) (columns u) x).0) [
        | inl returned ↦ returned
        | inr (error, failed) ↦ absurd (ground (arith, failed))
      ]

  pub update_of_one :
      (u : UpdateBook) (x : X) (row : BookRow)
      → (session.update (id_is u.id ∷ []) (columns u) x).0 ≡ ok (row ∷ [])
      → (update_book_by_id session now u x).0 ≡ ok (row_to_book row)
  unfolding update_book_by_id
  update_of_one u x row one = ground (arith, one)

  -- An update that returns a book replaces the fields that were given, and keeps the others of the
  -- one row with the identifier, its creation time included.
  pub update_book_by_id_returned :
      (u : UpdateBook) (x : X) (row : BookRow) (book : Book)
      → select (matches (id_is u.id ∷ [])) (rows x) ≡ row ∷ []
      → gives_null u ≡ false
      → (update_book_by_id session now u x).0 ≡ ok book
      → (book.id ≡ row.id)
        × (book.title ≡ cut_or_kept u.title row.title)
        × (book.year ≡ or_kept u.year row.year)
        × (book.author ≡ cut_or_kept u.author row.author)
        × (book.created_at ≡ row.created_at)
  unfolding update_book_by_id
  update_book_by_id_returned u x row book one no_null e =
      let (returned, succeeded) = update_succeeded u x book e in
      let (t, listed, _) =
        db.update_lem (id_is u.id ∷ []) (columns u) x returned (is_null-columns u ∙ no_null)
          succeeded in
      let only : returned ≡ changed t (columns u) row ∷ [] =
        listed ∙ ap (map (changed t (columns u))) one in
      let same : book ≡ row_to_book (changed t (columns u) row) =
        ok-injective
          (sym e ∙ update_of_one u x (changed t (columns u) row) (succeeded ∙ ap ok only)) in
      rw same (changed-columns u t row)

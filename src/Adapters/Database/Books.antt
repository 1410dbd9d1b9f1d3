-- ===== src/Adapters/Database/Books.antt =====
-- library/adapters/database/storages/book.py: `BookStorage`. The statements are data; the session
-- that runs them is a parameter, over a state `X`.
mod Table
pub mod Engine
pub mod Reading
pub mod Writing
pub mod Updating
pub mod Bulk
pub mod Session
pub mod Contract
pub mod Replacing
pub mod Saving
pub mod Memory
pub mod Lifted
mod Tests
unfoldable pub use Table.*
use mathlib.Core.Option
use example_litestar_service.Prelude.{
  str_eq, ℕ, String, Bool, true, false, Option, none, some, List, [], ◌∷◌, map, head?, prefix,
  if◌then◌else◌,
}
use example_litestar_service.Domains.Entities.Book.{
  Book, BookId, BookPaginationParams, CreateBook, UpdateBook, book_to_dict,
}
use example_litestar_service.Domains.Storages.{IBookStorage}
use example_litestar_service.Application.Exceptions.{
  Exception, entity_not_found, entity_already_exists, library_error, integrity_error, other_error,
}
use example_litestar_service.Application.Result.{
  Result, ok, raise, Action, pure, throw, ◌>>=◌, ◌>>◌,
}

-- `Book(id=…, …)` of a row.
abbrev pub row_to_book : BookRow → Book
row_to_book row = record {
  id = row.id;
  title = row.title;
  year = row.year;
  author = row.author;
  created_at = row.created_at;
  updated_at = row.updated_at;
}

-- The values that are inserted for a book.
abbrev pub values_of : CreateBook → CreateBook
values_of book = record {
  title = prefix 255 book.title;
  year = book.year;
  author = prefix 255 book.author;
}

-- `_raise_error`, on the name of the constraint.
unfoldable pub raise_error : Option String → Exception
raise_error none = library_error "Unknown error"
raise_error (some constraint) =
    if str_eq constraint "ix__books__title_year_author"
    then entity_already_exists "Book already exists"
    else library_error "Unknown error"

-- `except IntegrityError as e: self._raise_error(e)`
abbrev pub convert : {A : Type 0} → Result A → Result A
convert (raise (integrity_error constraint)) = raise (raise_error constraint)
convert (raise e) = raise e
convert (ok a) = ok a

abbrev pub catch_integrity : {X A : Type 0} → Action X A → Action X A
catch_integrity action x = let (r, x') = action x in (convert r, x')

-- `.one()` of an update, with `except NoResultFound`.
abbrev pub one_or_not_found : {X : Type 0} → BookId → List BookRow → Action X BookRow
one_or_not_found id [] = throw (entity_not_found "Book" id)
one_or_not_found id (row ∷ []) = pure row
one_or_not_found id (_ ∷ _ ∷ _) = throw (other_error "MultipleResultsFound")

-- `result or 0`
abbrev or_zero : Option ℕ → ℕ
or_zero none = 0
or_zero (some n) = n

-- `bool(result)`
abbrev truth_of : Option Bool → Bool
truth_of none = false
truth_of (some b) = b

-- `BookStorage`: its session, and the clock of `datetime.now(tz=UTC)`.
module _ {X : Type 0} (session : BookSession X) (now : ℕ) where
  unfoldable pub fetch_book_by_id : BookId → Action X (Option Book)
  fetch_book_by_id book_id = do
    rows ← session.select (id_is book_id ∷ not_deleted ∷ [])
    pure (Option.map row_to_book (head? rows))

  unfoldable pub exists_book_by_id : BookId → Action X Bool
  exists_book_by_id book_id = do
    found ← session.exists (id_is book_id ∷ not_deleted ∷ [])
    pure (truth_of found)

  unfoldable pub count_books : BookPaginationParams → Action X ℕ
  count_books params = do result ← session.count (not_deleted ∷ []); pure (or_zero result)

  unfoldable pub fetch_book_list : BookPaginationParams → Action X (List Book)
  fetch_book_list params = do
    result ← session.select_page_by_id (not_deleted ∷ []) params.limit params.offset
    pure (map row_to_book result)

  unfoldable pub create_book : CreateBook → Action X Book
  unfolding raise_error
  create_book book = do
    row ← catch_integrity (session.insert (values_of book))
    pure (row_to_book row)

  unfoldable pub delete_book_by_id : BookId → Action X (Unit {0})
  delete_book_by_id book_id =
      session.update (id_is book_id ∷ []) (set_deleted_at now ∷ []) >> pure tt

  unfoldable pub update_book_by_id : UpdateBook → Action X Book
  unfolding raise_error book_to_dict
  update_book_by_id update_book = do
    row ← catch_integrity do
      rows ← session.update (id_is update_book.id ∷ []) (map set_column (book_to_dict update_book))
      one_or_not_found update_book.id rows
    pure (row_to_book row)

  unfoldable pub save_bulk_books : List CreateBook → Action X (Unit {0})
  save_bulk_books books = session.insert_or_ignore (map values_of books)

  abbrev pub book_storage : IBookStorage X
  book_storage = record {
    fetch_book_by_id = fetch_book_by_id;
    count_books = count_books;
    fetch_book_list = fetch_book_list;
    create_book = create_book;
    delete_book_by_id = delete_book_by_id;
    update_book_by_id = update_book_by_id;
    exists_book_by_id = exists_book_by_id;
    save_bulk_books = save_bulk_books;
  }

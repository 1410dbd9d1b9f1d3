-- ===== src/Presentors/Rest/Books.antt =====
-- library/presentors/rest/routers/api/v1/endpoints/books.py and schemas/books.py.
use example_litestar_service.Prelude.{ℕ, ℤ, String, Bool, true, false, not, ◌&&◌, Option, List, map}
use example_litestar_service.Domains.Entities.Book.{
  Book, BookId, BookPagination, Datetime, Given, unset, null, given,
}
use example_litestar_service.Domains.Storages.{IBookStorage}
use example_litestar_service.Domains.Uow.{AbstractUow}
use example_litestar_service.Domains.UseCases.{
  create_book_command, delete_book_by_id_command, update_book_by_id_command, fetch_book_by_id_query,
  fetch_book_list_query,
}
use example_litestar_service.Application.Exceptions.{empty_payload, validation_error}
use example_litestar_service.Application.Result.{Action, pure, require, lift, ◌>>=◌, ◌>>◌}
use example_litestar_service.Presentors.Rest.Params.{check_window, is_positive}

pub record BookSchema : Type 0 where
  pub id : BookId
  pub title : String
  pub year : ℤ
  pub author : String
  pub created_at : Datetime
  pub updated_at : Datetime

pub record BookPaginationSchema : Type 0 where
  pub total : ℕ
  pub items : List BookSchema

-- As sent: pydantic then asks for a positive year.
pub record CreateBookSchema : Type 0 where
  pub title : String
  pub year : ℤ
  pub author : String

-- Each field is left out, null or a value; `model_fields_set` is what is not `unset`.
pub record UpdateBookSchema : Type 0 where
  pub title : Given String
  pub year : Given ℤ
  pub author : Given String

-- `BookSchema.model_validate`
abbrev pub book_schema : Book → BookSchema
book_schema book = record {
  id = book.id;
  title = book.title;
  year = book.year;
  author = book.author;
  created_at = book.created_at;
  updated_at = book.updated_at;
}

abbrev pub book_pagination_schema : BookPagination → BookPaginationSchema
book_pagination_schema page = record { total = page.total; items = map book_schema page.items }

abbrev pub is_unset : {A : Type 0} → Given A → Bool
is_unset unset = true
is_unset null = false
is_unset (given _) = false

-- `not data.model_dump(exclude_unset=True)`
abbrev pub gives_nothing : UpdateBookSchema → Bool
gives_nothing payload = is_unset payload.title && (is_unset payload.year && is_unset payload.author)

-- `BooksController`
module _ {S : Type 0} (uow : AbstractUow S) (storage : IBookStorage S) (detail : String) where
  unfoldable pub fetch_books : (limit offset : Option ℤ) → Action S BookPaginationSchema
  unfolding check_window fetch_book_list_query
  fetch_books limit offset = do
    (l, o) ← lift (check_window detail limit offset)
    books ← fetch_book_list_query uow storage (record { limit = l; offset = o })
    pure (book_pagination_schema books)

  unfoldable pub create_book : CreateBookSchema → Action S BookSchema
  unfolding create_book_command
  create_book payload = do
    require (is_positive payload.year) (validation_error detail)
    book ←
        create_book_command uow storage
          (record { title = payload.title; year = payload.year; author = payload.author })
    pure (book_schema book)

  unfoldable pub fetch_book : BookId → Action S BookSchema
  unfolding fetch_book_by_id_query
  fetch_book book_id = do book ← fetch_book_by_id_query uow storage book_id; pure (book_schema book)

  unfoldable pub update_book_by_id : BookId → UpdateBookSchema → Action S BookSchema
  unfolding update_book_by_id_command
  update_book_by_id book_id payload = do
    require (not (gives_nothing payload)) (empty_payload "No values to update")
    book ← update_book_by_id_command uow storage (record {
      id = book_id;
      title = payload.title;
      year = payload.year;
      author = payload.author;
    })
    pure (book_schema book)

  unfoldable pub delete_book_by_id : BookId → Action S (Unit {0})
  unfolding delete_book_by_id_command
  delete_book_by_id book_id = delete_book_by_id_command uow storage book_id

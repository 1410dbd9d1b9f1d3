-- ===== src/Presentors/Rest/Requests.antt =====
-- Whole requests to the routes of `BooksController`
-- (library/presentors/rest/routers/api/v1/endpoints/books.py), each with a unit of work and a
-- storage of its own, as the providers of library/adapters/database/di.py make them.
pub mod Contract
pub mod Refinement
pub mod Lasting
pub mod Absent
mod Tests
use example_litestar_service.Prelude.{ℕ, ℤ, String, Option, List, [], ◌∷◌}
use example_litestar_service.Domains.Entities.Book.{BookId}
use example_litestar_service.Domains.Storages.{IBookStorage}
use example_litestar_service.Application.Result.{Result, Action, pure, ◌>>=◌, ◌>>◌}
use example_litestar_service.Adapters.Database.Uow.{SessionApi, State, closed, sqlalchemy_uow}
use example_litestar_service.Adapters.Database.Books.{BookSession, book_storage}
use example_litestar_service.Adapters.Database.Books.Session.{session_of_uow}
use example_litestar_service.Presentors.Rest.Books.{
  BookSchema, BookPaginationSchema, CreateBookSchema, UpdateBookSchema, fetch_books, create_book,
  fetch_book, update_book_by_id, delete_book_by_id,
}

-- The routes, each with what litestar has parsed.
pub data BookRequest : Type 0 where
  get_books : (limit offset : Option ℤ) → BookRequest
  post_book : CreateBookSchema → BookRequest
  get_book : BookId → BookRequest
  patch_book : BookId → UpdateBookSchema → BookRequest
  delete_book : BookId → BookRequest

pub data BookResponse : Type 0 where
  page : BookPaginationSchema → BookResponse
  book : BookSchema → BookResponse
  no_content : BookResponse

module _ {W Session Transaction : Type 0} (api : SessionApi W Session Transaction)
    (sql : Session → BookSession W) (now : ℕ) (detail : String) where
  abbrev storage : IBookStorage (State api)
  storage = book_storage (session_of_uow api sql) now

  unfoldable pub dispatch : BookRequest → Action (State api) BookResponse
  unfolding fetch_books create_book fetch_book update_book_by_id delete_book_by_id
  dispatch (get_books limit offset) = do
    schema ← fetch_books (sqlalchemy_uow api) storage detail limit offset
    pure (page schema)
  dispatch (post_book payload) = do
    schema ← create_book (sqlalchemy_uow api) storage detail payload
    pure (book schema)
  dispatch (get_book book_id) = do
    schema ← fetch_book (sqlalchemy_uow api) storage detail book_id
    pure (book schema)
  dispatch (patch_book book_id payload) = do
    schema ← update_book_by_id (sqlalchemy_uow api) storage detail book_id payload
    pure (book schema)
  dispatch (delete_book book_id) = do
    delete_book_by_id (sqlalchemy_uow api) storage detail book_id
    pure no_content

  -- A request on a new unit of work, which is dropped with it.
  abbrev pub answer : BookRequest → Action W BookResponse
  answer request w = let (r, (_, w')) = dispatch request (closed, w) in (r, w')

  -- Requests one after the other.
  unfoldable pub serve : List BookRequest → W → List (Result BookResponse) × W
  serve [] w = ([], w)
  serve (request ∷ requests) w =
      let (r, w') = answer request w in let (rest, w'') = serve requests w' in (r ∷ rest, w'')

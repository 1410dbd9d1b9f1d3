-- ===== src/Domains/Services.antt =====
-- library/domains/services: the services over the storages.
use example_litestar_service.Prelude.{String, Bool, Option, none, some, List, not, if◌then◌else◌}
use example_litestar_service.Domains.Entities.Book.{
  Book, BookId, BookPaginationParams, BookPagination, CreateBook, UpdateBook,
}
use example_litestar_service.Domains.Entities.User.{
  User, UserId, UserPaginationParams, UserPagination, CreateUser, UpdateUser,
}
use example_litestar_service.Domains.Storages.{IBookStorage, IUserStorage}
use example_litestar_service.Application.Exceptions.{entity_not_found}
use example_litestar_service.Application.Result.{Action, pure, throw, ◌>>=◌, ◌>>◌}

-- `if value is None: raise EntityNotFoundException(...)`
abbrev pub or_not_found : {S A : Type 0} → String → String → Option A → Action S A
or_not_found entity id none = throw (entity_not_found entity id)
or_not_found entity id (some a) = pure a

-- `if not exists: raise EntityNotFoundException(...)`
abbrev pub check_exists : {S : Type 0} → String → String → Bool → Action S (Unit {0})
check_exists entity id exists = if not exists then throw (entity_not_found entity id) else pure tt

-- `BookService`
module _ {S : Type 0} (storage : IBookStorage S) where
  unfoldable pub fetch_book_by_id : BookId → Action S Book
  fetch_book_by_id book_id = do
    book ← storage.fetch_book_by_id book_id
    or_not_found "Book" book_id book

  unfoldable pub fetch_book_list : BookPaginationParams → Action S BookPagination
  fetch_book_list params = do
    total ← storage.count_books params
    items ← storage.fetch_book_list params
    pure (record { total = total; items = items })

  unfoldable pub create_book : CreateBook → Action S Book
  create_book book = storage.create_book book

  unfoldable pub delete_book_by_id : BookId → Action S (Unit {0})
  delete_book_by_id book_id = do
    exists ← storage.exists_book_by_id book_id
    check_exists "Book" book_id exists
    storage.delete_book_by_id book_id

  unfoldable pub update_book_by_id : UpdateBook → Action S Book
  update_book_by_id update_book = do
    exists ← storage.exists_book_by_id update_book.id
    check_exists "Book" update_book.id exists
    storage.update_book_by_id update_book

  unfoldable pub save_bulk_books : List CreateBook → Action S (Unit {0})
  save_bulk_books books = storage.save_bulk_books books

-- `UserService`
module _ {S : Type 0} (storage : IUserStorage S) where
  unfoldable pub fetch_user_by_id : UserId → Action S User
  fetch_user_by_id user_id = do
    user ← storage.fetch_user_by_id user_id
    or_not_found "User" user_id user

  unfoldable pub fetch_user_list : UserPaginationParams → Action S UserPagination
  fetch_user_list params = do
    total ← storage.count_users params
    items ← storage.fetch_user_list params
    pure (record { total = total; items = items })

  unfoldable pub create_user : CreateUser → Action S User
  create_user user = storage.create_user user

  unfoldable pub delete_user_by_id : UserId → Action S (Unit {0})
  delete_user_by_id user_id = do
    exists ← storage.exists_user_by_id user_id
    check_exists "User" user_id exists
    storage.delete_user_by_id user_id

  unfoldable pub update_user_by_id : UpdateUser → Action S User
  update_user_by_id update_user = do
    exists ← storage.exists_user_by_id update_user.id
    check_exists "User" update_user.id exists
    storage.update_user_by_id update_user

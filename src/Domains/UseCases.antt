-- ===== src/Domains/UseCases.antt =====
-- library/domains/use_cases and application/use_case.py: a use case is a service call inside
-- `async with uow`; the search of OpenLibrary is a call of the client.
pub mod Auth
pub mod Upload
use example_litestar_service.Domains.Entities.Book.{
  Book, BookId, BookPaginationParams, BookPagination, CreateBook, UpdateBook,
}
use example_litestar_service.Domains.Entities.User.{
  User, UserId, UserPaginationParams, UserPagination, CreateUser, UpdateUser,
}
use example_litestar_service.Domains.Entities.OpenLibrary.{
  OpenLibrarySearchParams, OpenLibrarySearchResult,
}
use example_litestar_service.Domains.Services.{
  fetch_book_by_id, fetch_book_list, create_book, delete_book_by_id, update_book_by_id,
  fetch_user_by_id, fetch_user_list, create_user, delete_user_by_id, update_user_by_id,
}
use example_litestar_service.Domains.Storages.{IBookStorage, IUserStorage}
use example_litestar_service.Domains.Uow.{AbstractUow, with_uow}
use example_litestar_service.Domains.UseCases.Upload.{Search}
use example_litestar_service.Application.Result.{Action}

module _ {S : Type 0} (uow : AbstractUow S) (storage : IBookStorage S) where
  unfoldable pub create_book_command : CreateBook → Action S Book
  unfolding with_uow create_book
  create_book_command input_dto = with_uow uow (create_book storage input_dto)

  unfoldable pub delete_book_by_id_command : BookId → Action S (Unit {0})
  unfolding with_uow delete_book_by_id
  delete_book_by_id_command input_dto = with_uow uow (delete_book_by_id storage input_dto)

  unfoldable pub update_book_by_id_command : UpdateBook → Action S Book
  unfolding with_uow update_book_by_id
  update_book_by_id_command input_dto = with_uow uow (update_book_by_id storage input_dto)

  unfoldable pub fetch_book_by_id_query : BookId → Action S Book
  unfolding with_uow fetch_book_by_id
  fetch_book_by_id_query input_dto = with_uow uow (fetch_book_by_id storage input_dto)

  unfoldable pub fetch_book_list_query : BookPaginationParams → Action S BookPagination
  unfolding with_uow fetch_book_list
  fetch_book_list_query input_dto = with_uow uow (fetch_book_list storage input_dto)

module _ {S : Type 0} (uow : AbstractUow S) (storage : IUserStorage S) where
  unfoldable pub create_user_command : CreateUser → Action S User
  unfolding with_uow create_user
  create_user_command input_dto = with_uow uow (create_user storage input_dto)

  unfoldable pub delete_user_by_id_command : UserId → Action S (Unit {0})
  unfolding with_uow delete_user_by_id
  delete_user_by_id_command input_dto = with_uow uow (delete_user_by_id storage input_dto)

  unfoldable pub update_user_by_id_command : UpdateUser → Action S User
  unfolding with_uow update_user_by_id
  update_user_by_id_command input_dto = with_uow uow (update_user_by_id storage input_dto)

  unfoldable pub fetch_user_by_id_query : UserId → Action S User
  unfolding with_uow fetch_user_by_id
  fetch_user_by_id_query input_dto = with_uow uow (fetch_user_by_id storage input_dto)

  unfoldable pub fetch_user_list_query : UserPaginationParams → Action S UserPagination
  unfolding with_uow fetch_user_list
  fetch_user_list_query input_dto = with_uow uow (fetch_user_list storage input_dto)

-- `OpenLibrarySearchQuery.execute`
unfoldable pub open_library_search_query :
    {S : Type 0} → Search S → OpenLibrarySearchParams → Action S OpenLibrarySearchResult
open_library_search_query search input_dto = search input_dto.query input_dto.limit input_dto.offset

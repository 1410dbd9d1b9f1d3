-- ===== src/Domains/Storages.antt =====
-- library/domains/interfaces: what the services ask of the storages, over a state `S`.
use example_litestar_service.Prelude.{ℕ, Bool, Option, List, String}
use example_litestar_service.Domains.Entities.Book.{
  Book, BookId, BookPaginationParams, CreateBook, UpdateBook,
}
use example_litestar_service.Domains.Entities.User.{
  User, UserCredentials, UserId, UserPaginationParams, CreateUser, UpdateUser,
}
use example_litestar_service.Application.Result.{Action}

pub record IBookStorage (S : Type 0) : Type 0 where
  pub fetch_book_by_id : BookId → Action S (Option Book)
  pub count_books : BookPaginationParams → Action S ℕ
  pub fetch_book_list : BookPaginationParams → Action S (List Book)
  pub create_book : CreateBook → Action S Book
  pub delete_book_by_id : BookId → Action S (Unit {0})
  pub update_book_by_id : UpdateBook → Action S Book
  pub exists_book_by_id : BookId → Action S Bool
  pub save_bulk_books : List CreateBook → Action S (Unit {0})

pub record IUserStorage (S : Type 0) : Type 0 where
  pub fetch_user_by_id : UserId → Action S (Option User)
  pub fetch_user_credentials_by_username : String → Action S (Option UserCredentials)
  pub count_users : UserPaginationParams → Action S ℕ
  pub fetch_user_list : UserPaginationParams → Action S (List User)
  pub create_user : CreateUser → Action S User
  pub delete_user_by_id : UserId → Action S (Unit {0})
  pub update_user_by_id : UpdateUser → Action S User
  pub exists_user_by_id : UserId → Action S Bool

-- ===== src/Adapters/Database/Tables/Tests.antt =====
-- A constraint of library/adapters/database/tables.py.
use example_litestar_service.Prelude.{str_eq, ◌≡◌, ◌↔◌, true, false, some, any}
use example_litestar_service.Application.Exceptions.{entity_already_exists, library_error}
use example_litestar_service.Adapters.Database.Books
use example_litestar_service.Adapters.Database.Users
use example_litestar_service.Adapters.Database.Tables.{book_table, user_table}
use example_litestar_service.Adapters.Database.Tables.Names.{unique_names, raise_error_iff}

raise_error_iff_example :
    ((Books.raise_error (some "uq__users__email") ≡ entity_already_exists "Book already exists")
      ↔ (any (str_eq "uq__users__email") (unique_names book_table) ≡ true))
    × ((Users.raise_error (some "uq__users__email") ≡ entity_already_exists "User already exists")
        ↔ (any (str_eq "uq__users__email") (unique_names user_table) ≡ true))
    × (any (str_eq "uq__users__email") (unique_names book_table) ≡ false
        → Books.raise_error (some "uq__users__email") ≡ library_error "Unknown error")
    × (any (str_eq "uq__users__email") (unique_names user_table) ≡ false
        → Users.raise_error (some "uq__users__email") ≡ library_error "Unknown error")
    × (any (str_eq book_table.primary_key.name) (unique_names book_table) ≡ false)
    × (any (str_eq user_table.primary_key.name) (unique_names user_table) ≡ false)
raise_error_iff_example = raise_error_iff "uq__users__email"

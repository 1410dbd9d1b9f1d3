-- ===== src/Adapters/Database/Tables/Names.antt =====
-- The names of the constraints of library/adapters/database/tables.py, against those that
-- `_raise_error` of the storages (library/adapters/database/storages) compares with.
use example_litestar_service.Prelude.{
  str_eq, refl, ◌≡◌, ◌↔◌, String, true, some, List, ◌++◌, map, any, select, false, arith,
}
use example_litestar_service.Application.Exceptions.{entity_already_exists, library_error}
use example_litestar_service.Adapters.Database.Tables.{
  Constraint, Index, Table, book_table, user_table, ix_name, uq_name, pk_name,
}
use example_litestar_service.Adapters.Database.Books
use example_litestar_service.Adapters.Database.Users

-- The names under which PostgreSQL reports a value that is there already, but for the key.
abbrev pub unique_names : Table → List String
unique_names table =
    map (λ (c : Constraint). c.name) table.unique_constraints
    ++ map (λ (i : Index). i.index.name) (select (λ (i : Index). i.unique) table.indexes)

-- The book storage says that a book already exists exactly for the names that the naming convention
-- gives to the unique columns and the unique indexes of the class `BookTable`, and the user storage
-- that a user already exists exactly for those of `UserTable`. For every other name, that of the
-- primary key among them, both say "Unknown error".
pub raise_error_iff :
    (constraint : String)
    → ((Books.raise_error (some constraint) ≡ entity_already_exists "Book already exists")
        ↔ (any (str_eq constraint) (unique_names book_table) ≡ true))
      × ((Users.raise_error (some constraint) ≡ entity_already_exists "User already exists")
          ↔ (any (str_eq constraint) (unique_names user_table) ≡ true))
      × (any (str_eq constraint) (unique_names book_table) ≡ false
          → Books.raise_error (some constraint) ≡ library_error "Unknown error")
      × (any (str_eq constraint) (unique_names user_table) ≡ false
          → Users.raise_error (some constraint) ≡ library_error "Unknown error")
      × (any (str_eq book_table.primary_key.name) (unique_names book_table) ≡ false)
      × (any (str_eq user_table.primary_key.name) (unique_names user_table) ≡ false)
unfolding Books.raise_error Users.raise_error book_table user_table ix_name uq_name pk_name
raise_error_iff constraint = (
  ground arith,
  ground arith,
  λ other. ground (arith, other),
  λ other. ground (arith, other),
  refl,
  refl,
)

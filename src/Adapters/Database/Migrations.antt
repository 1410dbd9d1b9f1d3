-- ===== src/Adapters/Database/Migrations.antt =====
-- library/adapters/database/migrations/versions: the two migrations. The operations of alembic
-- are a parameter, over a state that holds the schema.
pub mod Effects
pub mod Head
mod Tests
use example_litestar_service.Prelude.{String, true, false, some, List, [], ◌∷◌}
use example_litestar_service.Application.Result.{Action, ◌>>=◌, ◌>>◌}
use example_litestar_service.Adapters.Database.Tables.{
  Column, Constraint, Index, Table, column, column_with_default, string, integer, boolean, json,
  uuid, date_time,
}

-- What the migrations call of `alembic.op`.
pub record Operations (S : Type 0) : Type 0 where
  pub create_table : Table → Action S (Unit {0})
  pub create_index : String → Index → Action S (Unit {0})
  pub add_column : String → Column → Action S (Unit {0})
  pub drop_table : String → Action S (Unit {0})
  -- The name of the index and that of its table.
  pub drop_index : String → String → Action S (Unit {0})
  -- The names of the table and of the column.
  pub drop_column : String → String → Action S (Unit {0})

-- The arguments of the two `op.create_table`.
abbrev pub created_books : Table
created_books = record {
  name = "books";
  columns =
      column "title" (string 255) false
      ∷ column "year" integer false
      ∷ column "author" (string 255) false
      ∷ column_with_default "created_at" (date_time true) "TIMEZONE('utc', now())"
      ∷ column_with_default "updated_at" (date_time true) "TIMEZONE('utc', now())"
      ∷ column "deleted_at" (date_time true) true
      ∷ column "id" uuid false
      ∷ [];
  primary_key = record { name = "pk__books"; columns = "id" ∷ [] };
  unique_constraints = [];
  indexes = [];
}

abbrev pub created_index : Index
created_index =
    let index : Constraint = record {
      name = "ix__books__title_year_author";
      columns = "title" ∷ "year" ∷ "author" ∷ [];
    } in
    record { index = index; unique = true; postgresql_where = some "deleted_at IS NULL" }

abbrev pub created_users : Table
created_users =
    let email : Constraint = record { name = "uq__users__email"; columns = "email" ∷ [] } in
    let username : Constraint = record {
      name = "uq__users__username";
      columns = "username" ∷ [];
    } in
    record {
      name = "users";
      columns =
          column "username" (string 255) false
          ∷ column "email" (string 255) false
          ∷ column_with_default "created_at" (date_time true) "TIMEZONE('utc', now())"
          ∷ column_with_default "updated_at" (date_time true) "TIMEZONE('utc', now())"
          ∷ column "deleted_at" (date_time true) true
          ∷ column "id" uuid false
          ∷ [];
      primary_key = record { name = "pk__users"; columns = "id" ∷ [] };
      unique_constraints = email ∷ username ∷ [];
      indexes = [];
    }

-- `upgrade` and `downgrade` of the initial migration, and of the one that adds the password fields.
module _ {S : Type 0} (op : Operations S) where
  unfoldable pub upgrade_initial : Action S (Unit {0})
  upgrade_initial = do
    op.create_table created_books
    op.create_index "books" created_index
    op.create_table created_users

  unfoldable pub downgrade_initial : Action S (Unit {0})
  downgrade_initial = do
    op.drop_table "users"
    op.drop_index "ix__books__title_year_author" "books"
    op.drop_table "books"

  unfoldable pub upgrade_password_fields : Action S (Unit {0})
  upgrade_password_fields = do
    op.add_column "users" (column "password_hash" (string 255) true)
    op.add_column "users" (column_with_default "is_superuser" boolean "false")
    op.add_column "users" (column_with_default "permissions" json "'[]'::json")

  unfoldable pub downgrade_password_fields : Action S (Unit {0})
  downgrade_password_fields = do
    op.drop_column "users" "permissions"
    op.drop_column "users" "is_superuser"
    op.drop_column "users" "password_hash"

  -- Both, in the order of their `down_revision`.
  abbrev pub upgrade_head : Action S (Unit {0})
  upgrade_head = do upgrade_initial; upgrade_password_fields

  abbrev pub downgrade_base : Action S (Unit {0})
  downgrade_base = do downgrade_password_fields; downgrade_initial

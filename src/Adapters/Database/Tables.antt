-- ===== src/Adapters/Database/Tables.antt =====
-- library/adapters/database/base.py and library/adapters/database/tables.py: the tables that the
-- classes declare, with the names that the naming convention gives their constraints.
pub mod Names
mod Tests
use example_litestar_service.Prelude.{
  ℕ, String, Bool, true, false, Option, none, some, List, [], ◌∷◌, ◌++◌, join,
}
use Prim.Native.String

-- sqlalchemy's column types that the tables use.
pub data ColumnType : Type 0 where
  string : (length : ℕ) → ColumnType
  integer boolean json uuid : ColumnType
  date_time : (timezone : Bool) → ColumnType

pub record Column : Type 0 where
  pub name : String
  pub column_type : ColumnType
  pub nullable : Bool
  pub server_default : Option String

-- A primary key, a unique constraint or an index: its name and its columns.
pub record Constraint : Type 0 where
  pub name : String
  pub columns : List String

pub record Index : Type 0 where
  pub index : Constraint
  pub unique : Bool
  pub postgresql_where : Option String

pub record Table : Type 0 where
  pub name : String
  pub columns : List Column
  pub primary_key : Constraint
  pub unique_constraints : List Constraint
  pub indexes : List Index

infixr 66 ◌+++◌
abbrev ◌+++◌ : String → String → String
a +++ b = String.◌++◌ a b

-- `"all_column_names"` of the convention.
abbrev all_column_names : List String → String
all_column_names columns = join "_" columns

-- `"ix"`, `"uq"` and `"pk"` of the convention.
unfoldable pub ix_name : String → List String → String
unfolding join
ix_name table_name columns = "ix__" +++ table_name +++ "__" +++ all_column_names columns

unfoldable pub uq_name : String → List String → String
unfolding join
uq_name table_name columns = "uq__" +++ table_name +++ "__" +++ all_column_names columns

unfoldable pub pk_name : String → String
pk_name table_name = "pk__" +++ table_name

-- `mapped_column(…, nullable=…)` without and with a default of the server.
abbrev pub column : String → ColumnType → Bool → Column
column name column_type nullable = record {
  name = name;
  column_type = column_type;
  nullable = nullable;
  server_default = none;
}

abbrev pub column_with_default : String → ColumnType → String → Column
column_with_default name column_type default = record {
  name = name;
  column_type = column_type;
  nullable = false;
  server_default = some default;
}

-- `TimestampedMixin`
abbrev timestamped_columns : List Column
timestamped_columns =
    column_with_default "created_at" (date_time true) "TIMEZONE('utc', now())"
    ∷ column_with_default "updated_at" (date_time true) "TIMEZONE('utc', now())"
    ∷ column "deleted_at" (date_time true) true
    ∷ []

-- `IdentifableMixin`, whose column is the primary key.
abbrev identifable_columns : List Column
identifable_columns = column "id" uuid false ∷ []

abbrev identifable_key : String → Constraint
unfolding pk_name
identifable_key table_name = record { name = pk_name table_name; columns = "id" ∷ [] }

-- A column that is declared with `unique=True`.
abbrev unique_column : String → String → Constraint
unfolding uq_name
unique_column table_name name = record {
  name = uq_name table_name (name ∷ []);
  columns = name ∷ [];
}

-- `Index(None, …, unique=True, postgresql_where=…)`
abbrev unique_index : String → List String → String → Index
unfolding ix_name
unique_index table_name columns where_clause =
    let index : Constraint = record { name = ix_name table_name columns; columns = columns } in
    record { index = index; unique = true; postgresql_where = some where_clause }

-- `BookTable`
unfoldable pub book_table : Table
unfolding ix_name pk_name
book_table = record {
  name = "books";
  columns =
      (column "title" (string 255) false
        ∷ column "year" integer false
        ∷ column "author" (string 255) false
        ∷ [])
      ++ timestamped_columns
      ++ identifable_columns;
  primary_key = identifable_key "books";
  unique_constraints = [];
  indexes = unique_index "books" ("title" ∷ "year" ∷ "author" ∷ []) "deleted_at IS NULL" ∷ [];
}

-- `UserTable`
unfoldable pub user_table : Table
unfolding uq_name pk_name
user_table = record {
  name = "users";
  columns =
      (column "username" (string 255) false
        ∷ column "email" (string 255) false
        ∷ column "password_hash" (string 255) true
        ∷ column_with_default "is_superuser" boolean "false"
        ∷ column_with_default "permissions" json "'[]'::json"
        ∷ [])
      ++ timestamped_columns
      ++ identifable_columns;
  primary_key = identifable_key "users";
  unique_constraints = unique_column "users" "username" ∷ unique_column "users" "email" ∷ [];
  indexes = [];
}

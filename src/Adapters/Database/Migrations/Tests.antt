-- ===== src/Adapters/Database/Migrations/Tests.antt =====
-- Tests of the migrations (library/adapters/database/migrations/versions), on a schema that is
-- the map of its tables.
use mathlib.Core.Option
use example_litestar_service.Prelude.{
  str_eq, ◌≡◌, ◌≢◌, refl, String, true, false, Option, none, some, [], ◌∷◌,
}
use example_litestar_service.Application.Exceptions.{database_error}
use example_litestar_service.Application.Result.{Result, Action, ok, raise}
use example_litestar_service.Adapters.Database.Tables.{
  Constraint, Table, book_table, user_table, column, integer,
}
use example_litestar_service.Adapters.Database.Migrations.{Operations, upgrade_head, downgrade_base}
use example_litestar_service.Adapters.Database.Migrations.Effects.{
  Tables, Effect, table_created, table_dropped, column_added, column_dropped, index_created,
  index_dropped, Does, IsSchema,
}
use example_litestar_service.Adapters.Database.Migrations.Head.{
  by_names, upgrade_head_lem, downgrade_base-upgrade_head,
}

abbrev settle : Option Tables → Tables → Result (Unit {0}) × Tables
settle none tables = (raise (database_error "ProgrammingError"), tables)
settle (some tables') tables = (ok tt, tables')

abbrev perform : Effect → Action Tables (Unit {0})
perform f tables = settle (f tables) tables

perform-Does : (f : Effect) → Does (λ tables. tables) (perform f) f
perform-Does f = record { runs = λ s t h. rw h (refl, refl) }

abbrev memory : Operations Tables
memory = record {
  create_table = λ table. perform (table_created table);
  create_index = λ name index. perform (index_created name index);
  add_column = λ name column. perform (column_added name column);
  drop_table = λ name. perform (table_dropped name);
  drop_index = λ index name. perform (index_dropped index name);
  drop_column = λ name column. perform (column_dropped name column);
}

memory-IsSchema : IsSchema memory (λ tables. tables)
memory-IsSchema = record {
  create_table_lem = λ table. perform-Does (table_created table);
  create_index_lem = λ name index. perform-Does (index_created name index);
  add_column_lem = λ name column. perform-Does (column_added name column);
  drop_table_lem = λ name. perform-Does (table_dropped name);
  drop_index_lem = λ index name. perform-Does (index_dropped index name);
  drop_column_lem = λ name column. perform-Does (column_dropped name column);
}

-- A schema with the table in which alembic keeps the revision.
abbrev version_table : Table
version_table =
    let key : Constraint = record { name = "alembic_version_pkc"; columns = "version_num" ∷ [] } in
    record {
      name = "alembic_version";
      columns = column "version_num" integer false ∷ [];
      primary_key = key;
      unique_constraints = [];
      indexes = [];
    }

abbrev initial : Tables
initial name = elim (str_eq "alembic_version" name) [ true ↦ some version_table | false ↦ none ]

upgrade_head_lem_example :
    ((upgrade_head memory initial).0 ≡ ok tt)
    × (Option.map by_names ((upgrade_head memory initial).1 "books") ≡ some (by_names book_table))
    × (Option.map by_names ((upgrade_head memory initial).1 "users") ≡ some (by_names user_table))
    × ((name : String)
        → name ≢ "books"
        → name ≢ "users"
        → (upgrade_head memory initial).1 name ≡ initial name)
upgrade_head_lem_example =
    upgrade_head_lem memory (λ tables. tables) memory-IsSchema initial refl refl

downgrade_base-upgrade_head_example :
    ((downgrade_base memory (upgrade_head memory initial).1).0 ≡ ok tt)
    × ((downgrade_base memory (upgrade_head memory initial).1).1 ≡ initial)
downgrade_base-upgrade_head_example =
    downgrade_base-upgrade_head memory (λ tables. tables) memory-IsSchema initial refl refl

-- ===== src/Adapters/Database/Migrations/Head.antt =====
-- The schema that library/adapters/database/migrations/versions make, against the tables that
-- library/adapters/database/tables.py declares.
use mathlib.Core.Option
use example_litestar_service.Prelude.{
  ◌≡◌, ◌≢◌, refl, String, true, none, some, List, [], ◌∷◌, ◌++◌, fun_ext, ap, ◌∙◌, arith, sort_by,
  if◌then◌else◌, eq_iff,
}
use example_litestar_service.Application.Result.{ok}
use example_litestar_service.Adapters.Database.Tables.{
  Column, Constraint, Index, Table, book_table, user_table, column, column_with_default, string,
  boolean, json, ix_name, uq_name, pk_name,
}
use example_litestar_service.Adapters.Database.Migrations.{
  Operations, created_books, created_index, created_users, upgrade_initial, downgrade_initial,
  upgrade_password_fields, downgrade_password_fields, upgrade_head, downgrade_base,
}
use example_litestar_service.Adapters.Database.Migrations.Effects.{
  Tables, set_table, Effect, ◌then◌, then_effect, table_created, table_dropped, column_added,
  column_dropped, index_created, index_dropped, Does, Does-then, IsSchema,
}

-- A table with its columns, constraints and indexes in the order of their names.
unfoldable pub by_names : Table → Table
unfolding sort_by
by_names table = record table {
  columns = sort_by (λ (c : Column). c.name) table.columns;
  unique_constraints = sort_by (λ (c : Constraint). c.name) table.unique_constraints;
  indexes = sort_by (λ (i : Index). i.index.name) table.indexes;
}

abbrev upgrade_initial_effect : Effect
upgrade_initial_effect =
    table_created created_books
    then (index_created "books" created_index then table_created created_users)

abbrev upgrade_password_fields_effect : Effect
upgrade_password_fields_effect =
    column_added "users" (column "password_hash" (string 255) true)
    then (column_added "users" (column_with_default "is_superuser" boolean "false")
        then column_added "users" (column_with_default "permissions" json "'[]'::json"))

abbrev downgrade_password_fields_effect : Effect
downgrade_password_fields_effect =
    column_dropped "users" "permissions"
    then (column_dropped "users" "is_superuser" then column_dropped "users" "password_hash")

abbrev downgrade_initial_effect : Effect
downgrade_initial_effect =
    table_dropped "users"
    then (index_dropped "ix__books__title_year_author" "books" then table_dropped "books")

abbrev indexed_books : Table
indexed_books = record created_books { indexes = created_index ∷ [] }

abbrev with_columns : List Column → Table
with_columns added = record created_users { columns = created_users.columns ++ added }

abbrev initial_tables : Tables → Tables
initial_tables tables =
    set_table "users" (some created_users)
      (set_table "books" (some indexed_books) (set_table "books" (some created_books) tables))

abbrev head_tables : Tables → Tables
head_tables tables =
    let hash = column "password_hash" (string 255) true in
    let superuser = column_with_default "is_superuser" boolean "false" in
    let permissions = column_with_default "permissions" json "'[]'::json" in
    set_table "users" (some (with_columns (hash ∷ superuser ∷ permissions ∷ []))) (
      set_table "users" (some (with_columns (hash ∷ superuser ∷ [])))
        (set_table "users" (some (with_columns (hash ∷ []))) (initial_tables tables)))

table_created_absent :
    (table : Table) (tables : Tables)
    → tables table.name ≡ none
    → table_created table tables ≡ some (set_table table.name (some table) tables)
table_created_absent table tables absent = ground (arith, absent)

upgrade_initial_effect_lem :
    (tables : Tables)
    → tables "books" ≡ none
    → tables "users" ≡ none
    → upgrade_initial_effect tables ≡ some (initial_tables tables)
upgrade_initial_effect_lem tables no_books no_users =
    let after =
      set_table "books" (some indexed_books) (set_table "books" (some created_books) tables) in
    ap (λ o. then_effect o (index_created "books" created_index then table_created created_users))
      (table_created_absent created_books tables no_books)
    ∙ table_created_absent created_users after no_users

upgrade_password_fields_effect_lem :
    (tables : Tables)
    → upgrade_password_fields_effect (initial_tables tables) ≡ some (head_tables tables)
upgrade_password_fields_effect_lem tables = refl

downgrade_effect_lem :
    (tables : Tables)
    → tables "books" ≡ none
    → tables "users" ≡ none
    → (t : Tables) × ((downgrade_password_fields_effect then downgrade_initial_effect)
          (head_tables tables)
        ≡ some t)
      × ((name : String) → t name ≡ tables name)
downgrade_effect_lem tables no_books no_users =
    (_, refl, λ name. ground (arith, eq_iff "books" name, eq_iff "users" name))

module _ {S : Type 0} (op : Operations S) (tables : S → Tables) (schema : IsSchema op tables) where
  upgrade_head-Does :
      Does tables (upgrade_head op) (upgrade_initial_effect then upgrade_password_fields_effect)
  unfolding upgrade_initial upgrade_password_fields
  upgrade_head-Does =
      Does-then
        (Does-then (schema.create_table_lem created_books) (
          Does-then (schema.create_index_lem "books" created_index)
            (schema.create_table_lem created_users)))
        (Does-then (schema.add_column_lem "users" (column "password_hash" (string 255) true)) (
          Does-then
            (schema.add_column_lem "users" (column_with_default "is_superuser" boolean "false"))
            (schema.add_column_lem "users" (column_with_default "permissions" json "'[]'::json"))))

  downgrade_base-Does :
      Does tables
        (downgrade_base op)
        (downgrade_password_fields_effect then downgrade_initial_effect)
  unfolding downgrade_initial downgrade_password_fields
  downgrade_base-Does =
      Does-then
        (Does-then (schema.drop_column_lem "users" "permissions") (
          Does-then (schema.drop_column_lem "users" "is_superuser")
            (schema.drop_column_lem "users" "password_hash")))
        (Does-then (schema.drop_table_lem "users") (
          Does-then (schema.drop_index_lem "ix__books__title_year_author" "books")
            (schema.drop_table_lem "books")))

  upgraded :
      (s : S)
      → tables s "books" ≡ none
      → tables s "users" ≡ none
      → ((upgrade_head op s).0 ≡ ok tt) × (tables (upgrade_head op s).1 ≡ head_tables (tables s))
  upgraded s no_books no_users = upgrade_head-Does.runs s (head_tables (tables s)) (
      ap (λ o. then_effect o upgrade_password_fields_effect)
        (upgrade_initial_effect_lem (tables s) no_books no_users)
      ∙ upgrade_password_fields_effect_lem (tables s))

  -- On a schema without the tables `books` and `users`, both migrations run without an error, and
  -- leave the two tables as the classes `BookTable` and `UserTable` declare them: the same columns
  -- with types, nullability and defaults, keys, unique constraints and indexes, under the names of
  -- the naming convention, up to the order of these. No other table changes.
  pub upgrade_head_lem :
      (s : S)
      → tables s "books" ≡ none
      → tables s "users" ≡ none
      → ((upgrade_head op s).0 ≡ ok tt)
        × (Option.map by_names (tables (upgrade_head op s).1 "books") ≡ some (by_names book_table))
        × (Option.map by_names (tables (upgrade_head op s).1 "users") ≡ some (by_names user_table))
        × ((name : String)
            → name ≢ "books"
            → name ≢ "users"
            → tables (upgrade_head op s).1 name ≡ tables s name)
  unfolding book_table user_table ix_name uq_name pk_name by_names
  upgrade_head_lem s no_books no_users =
      let (returns, now) = upgraded s no_books no_users in
      (
        returns,
        rw now refl,
        rw now refl,
        λ name not_books not_users.
            rw now (ground (arith, eq_iff "books" name, eq_iff "users" name)),
      )

  -- Downgrading both migrations after upgrading both runs without an error, and gives back the
  -- tables that were there, where `books` and `users` were not among them.
  pub downgrade_base-upgrade_head :
      (s : S)
      → tables s "books" ≡ none
      → tables s "users" ≡ none
      → ((downgrade_base op (upgrade_head op s).1).0 ≡ ok tt)
        × (tables (downgrade_base op (upgrade_head op s).1).1 ≡ tables s)
  downgrade_base-upgrade_head s no_books no_users =
      let (returns, now) = upgraded s no_books no_users in
      let (t, e, same) = downgrade_effect_lem (tables s) no_books no_users in
      let (returns', now') = downgrade_base-Does.runs (upgrade_head op s).1 t (rw now e) in
      (returns', now' ∙ fun_ext same)

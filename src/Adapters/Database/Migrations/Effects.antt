-- ===== src/Adapters/Database/Migrations/Effects.antt =====
-- What the migrations (library/adapters/database/migrations/versions) rely on of alembic and
-- PostgreSQL: the effect of each operation on the tables, by name, as hypotheses.
use example_litestar_service.Prelude.{
  str_eq, ◌≡◌, sym, subst, String, Bool, not, Option, none, some, [], ◌∷◌, ◌++◌, any, select,
  if◌then◌else◌, Option-cases, inl, inr, arith,
}
use example_litestar_service.Application.Result.{Action, ok, continue, ◌>>◌}
use example_litestar_service.Adapters.Database.Tables.{Column, Index, Table}
use example_litestar_service.Adapters.Database.Migrations.{Operations}

-- The tables of a schema by their names.
abbrev pub Tables : Type 0
Tables = String → Option Table

abbrev pub set_table : String → Option Table → Tables → Tables
set_table name table tables other = if str_eq name other then table else tables other

-- An operation as a change of the tables, which says `none` where it is refused.
abbrev pub Effect : Type 0
Effect = Tables → Option Tables

abbrev pub then_effect : Option Tables → Effect → Option Tables
then_effect none g = none
then_effect (some tables) g = g tables

infixl 5 ◌then◌
abbrev pub ◌then◌ : Effect → Effect → Effect
◌then◌ f g tables = then_effect (f tables) g

abbrev pub changing : String → (Table → Option (Option Table)) → Effect
changing name f tables = elim (tables name) [
  | none ↦ none
  | some table ↦ elim (f table) [ none ↦ none | some table' ↦ some (set_table name table' tables) ]
]

abbrev pub table_created : Table → Effect
table_created table tables = elim (tables table.name) [
  | none ↦ some (set_table table.name (some table) tables)
  | some _ ↦ none
]

abbrev pub table_dropped : String → Effect
table_dropped name = changing name (λ _. some none)

abbrev is_column : String → Column → Bool
is_column name column = str_eq column.name name

abbrev pub column_added : String → Column → Effect
column_added name column = changing name λ table.
    if any (is_column column.name) table.columns
    then none
    else some (some (record table { columns = table.columns ++ column ∷ [] }))

abbrev pub column_dropped : String → String → Effect
column_dropped name column = changing name λ table.
    if any (is_column column) table.columns
    then some
        (some (record table { columns = select (λ c. not (is_column column c)) table.columns }))
    else none

abbrev is_index : String → Index → Bool
is_index name index = str_eq index.index.name name

abbrev pub index_created : String → Index → Effect
index_created name index = changing name λ table.
    if any (is_index index.index.name) table.indexes
    then none
    else some (some (record table { indexes = table.indexes ++ index ∷ [] }))

abbrev pub index_dropped : String → String → Effect
index_dropped index name = changing name λ table.
    if any (is_index index) table.indexes
    then some (some (record table { indexes = select (λ i. not (is_index index i)) table.indexes }))
    else none

-- Where the effect is not refused, the operation returns and has that effect.
pub record Does {S : Type 0} (tables : S → Tables) (action : Action S (Unit {0})) (f : Effect)
    : Type 0 where
  pub runs :
      (s : S) (t : Tables)
      → f (tables s) ≡ some t
      → ((action s).0 ≡ ok tt) × (tables (action s).1 ≡ t)

pub record IsSchema {S : Type 0} (op : Operations S) (tables : S → Tables) : Type 0 where
  pub create_table_lem : (table : Table) → Does tables (op.create_table table) (table_created table)
  pub create_index_lem :
      (name : String) (index : Index)
      → Does tables (op.create_index name index) (index_created name index)
  pub add_column_lem :
      (name : String) (column : Column)
      → Does tables (op.add_column name column) (column_added name column)
  pub drop_table_lem : (name : String) → Does tables (op.drop_table name) (table_dropped name)
  pub drop_index_lem :
      (index name : String) → Does tables (op.drop_index index name) (index_dropped index name)
  pub drop_column_lem :
      (name column : String) → Does tables (op.drop_column name column) (column_dropped name column)

-- The effect of two actions in sequence.
pub Does-then :
    {S : Type 0} {tables : S → Tables} {a b : Action S (Unit {0})} {f g : Effect}
    → Does tables a f
    → Does tables b g
    → Does tables (a >> b) (f then g)
Does-then {tables} {a} {b} {f} {g} does_a does_b = record {
  runs = λ s t h. elim (Option-cases (f (tables s))) [
    | inl refused ↦ absurd (ground (arith, rw refused at h))
    | inr (t', e) ↦
        let (returns, now) = does_a.runs s t' e in
        let (returns', now') = does_b.runs (a s).1 t (rw now (rw e at h)) in
        (
          subst (λ r. (continue (λ _. b) (r, (a s).1)).0 ≡ ok tt) (sym returns) returns',
          subst (λ r. tables (continue (λ _. b) (r, (a s).1)).1 ≡ t) (sym returns) now',
        )
  ];
}

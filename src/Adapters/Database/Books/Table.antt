-- ===== src/Adapters/Database/Books/Table.antt =====
-- The table `books` of library/adapters/database/tables.py and base.py, and the statements that
-- the storage builds on it.
use example_litestar_service.Prelude.{ℕ, String, ℤ, Bool, Option, List}
use example_litestar_service.Domains.Entities.Book.{BookId, Datetime, CreateBook, Value}
use example_litestar_service.Application.Result.{Action}

pub record BookRow : Type 0 where
  pub id : BookId
  pub title : String
  pub year : ℤ
  pub author : String
  pub created_at : Datetime
  pub updated_at : Datetime
  pub deleted_at : Option Datetime

-- A conjunct of `where(…)`.
pub data Condition : Type 0 where
  id_is : BookId → Condition
  not_deleted : Condition

-- An entry of `values(…)` of an update.
pub data Assignment : Type 0 where
  set_column : String × Value → Assignment
  set_deleted_at : Datetime → Assignment

-- What the storage runs on its `AsyncSession`.
pub record BookSession (X : Type 0) : Type 0 where
  -- `select(BookTable).where(…)`
  pub select : List Condition → Action X (List BookRow)
  -- `select(…).where(…).limit(…).offset(…).order_by(BookTable.id)`
  pub select_page_by_id : List Condition → (limit offset : ℕ) → Action X (List BookRow)
  -- `select(exists().where(…))`, as a scalar
  pub exists : List Condition → Action X (Option Bool)
  -- `select(func.count()).select_from(BookTable).where(…)`, as a scalar
  pub count : List Condition → Action X (Option ℕ)
  -- `insert(BookTable).values(…).returning(…)`, its one row
  pub insert : CreateBook → Action X BookRow
  -- `update(BookTable).where(…).values(…)`, the rows of `returning(…)`
  pub update : List Condition → List Assignment → Action X (List BookRow)
  -- `pg_insert(BookTable).values([…]).on_conflict_do_nothing(…)` on the unique index of the table
  pub insert_or_ignore : List CreateBook → Action X (Unit {0})

-- ===== src/Adapters/Database/Users/Memory.antt =====
-- A table in memory for the storage of library/adapters/database/storages/user.py.
use example_litestar_service.Prelude.{
  refl, ap, ◌&&◌, Option, String, true, none, some, List, [], ◌∷◌, ◌++◌, any, select, take, drop,
  length, if◌then◌else◌, str_eq,
}
use example_litestar_service.Prelude.Fresh.{fresh_id, fresh_id-fresh}
use example_litestar_service.Application.Exceptions.{integrity_error, database_error}
use example_litestar_service.Application.Result.{Result, ok, raise}
use example_litestar_service.Adapters.Database.Users.{
  UserRow, UserValues, UserSession, Condition, Assignment, id_is, set_column,
}
use example_litestar_service.Adapters.Database.Users.Engine.{
  IsUserDatabase, matches, fits, held_by_other, username_taken, email_taken,
}
use example_litestar_service.Domains.Entities.Book.{text}
use example_litestar_service.Adapters.Database.Uow.InMemory
use example_litestar_service.Adapters.Database.Users.Session.{KeepsDurable}

abbrev pub Rows : Type 0
Rows = List UserRow

abbrev pub id_of : UserRow → String
id_of row = row.id

abbrev pub row_of : String → UserValues → UserRow
row_of id values = record {
  id = id;
  username = values.username;
  email = values.email;
  password_hash = values.password_hash;
  is_superuser = values.is_superuser;
  permissions = values.permissions;
  created_at = 0;
  updated_at = 0;
  deleted_at = none;
}

abbrev pub insert : UserValues → Rows → Result UserRow × Rows
insert values x =
    if fits values
    then if username_taken values.username x
      then (raise (integrity_error (some "uq__users__username")), x)
      else if email_taken values.email x
      then (raise (integrity_error (some "uq__users__email")), x)
      else (ok (row_of (fresh_id id_of x) values), x ++ row_of (fresh_id id_of x) values ∷ [])
    else (raise (database_error "value too long"), x)

-- The name that an update assigns.
abbrev pub new_name : List Assignment → Option String
new_name (set_column (column, text s) ∷ _) = if str_eq column "username" then some s else none
new_name _ = none

-- Updates of one user that assign the name of another are refused; others change no rows here.
abbrev pub update : List Condition → List Assignment → Rows → Result Rows × Rows
update (id_is id ∷ _) assignments x = elim (new_name assignments) [
  | none ↦ (ok (select (matches (id_is id ∷ [])) x), x)
  | some name ↦
      if any (matches (id_is id ∷ [])) x && held_by_other id name x
      then (raise (integrity_error (some "uq__users__username")), x)
      else (ok (select (matches (id_is id ∷ [])) x), x)
]
update conditions assignments x = (ok (select (matches conditions) x), x)

abbrev pub memory : UserSession Rows
memory = record {
  select = λ conditions x. (ok (select (matches conditions) x), x);
  select_page = λ conditions limit offset x.
      (ok (take limit (drop offset (select (matches conditions) x))), x);
  exists = λ conditions x. (ok (some (any (matches conditions) x)), x);
  count = λ conditions x. (ok (some (length (select (matches conditions) x))), x);
  insert = insert;
  update = update;
}

pub memory-IsUserDatabase : IsUserDatabase memory (λ x. x)
memory-IsUserDatabase = record {
  select_lem = λ conditions x. refl;
  exists_lem = λ conditions x. refl;
  update_taken_username = λ id username x small there other. rw (there, other) refl;
  insert_lem = λ values x small free free_email. (
    row_of (fresh_id id_of x) values,
    rw (small, free, free_email) refl,
    refl,
    refl,
    fresh_id-fresh id_of x,
    rw (small, free, free_email) refl,
  );
  insert_taken_username = λ values x small taken. rw (small, taken) refl;
  insert_taken_email = λ values x small free taken. rw (small, free, taken) refl;
}

-- The same table, beside the rows that are committed.
abbrev pub World : Type 0
World = InMemory.World Rows

abbrev pub lifted : Unit {0} → UserSession World
lifted s = record {
  select = λ conditions w. InMemory.beside Rows w.0 (memory.select conditions w.1);
  select_page = λ conditions limit offset w.
      InMemory.beside Rows w.0 (memory.select_page conditions limit offset w.1);
  exists = λ conditions w. InMemory.beside Rows w.0 (memory.exists conditions w.1);
  count = λ conditions w. InMemory.beside Rows w.0 (memory.count conditions w.1);
  insert = λ values w. InMemory.beside Rows w.0 (memory.insert values w.1);
  update = λ conditions assignments w.
      InMemory.beside Rows w.0 (memory.update conditions assignments w.1);
}

pub lifted-KeepsDurable : (s : Unit {0}) → KeepsDurable (lifted s) (InMemory.durable Rows)
lifted-KeepsDurable s = record {
  select_keeps = λ conditions w. refl;
  exists_keeps = λ conditions w. refl;
  insert_keeps = λ values w. refl;
  update_keeps = λ conditions assignments w. refl;
}

pub lifted-IsUserDatabase : (s : Unit {0}) → IsUserDatabase (lifted s) (InMemory.view Rows s)
lifted-IsUserDatabase s =
    let db = memory-IsUserDatabase in
    record {
      select_lem = λ conditions w. refl;
      exists_lem = λ conditions w. refl;
      update_taken_username = λ id username w small there other.
          ap (InMemory.beside Rows w.0)
            (db.update_taken_username id username w.1 small there other);
      insert_lem = λ values w small free free_email. db.insert_lem values w.1 small free free_email;
      insert_taken_username = λ values w small taken.
          ap (InMemory.beside Rows w.0) (db.insert_taken_username values w.1 small taken);
      insert_taken_email = λ values w small free taken.
          ap (InMemory.beside Rows w.0) (db.insert_taken_email values w.1 small free taken);
    }

-- A deleted user, who still has the name and the address.
abbrev pub former : UserRow
former = record {
  id = "u0";
  username = "jane";
  email = "jane@example.org";
  password_hash = none;
  is_superuser = true;
  permissions = "manage_books" ∷ [];
  created_at = 1;
  updated_at = 1;
  deleted_at = some 2;
}

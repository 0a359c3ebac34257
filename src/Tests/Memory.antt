-- ===== src/Tests/Memory.antt =====
-- A database in memory with the behaviour that the repository relies on: the users, and those of the
-- time when the transaction began. `commits` says whether `COMMIT` succeeds.
use ccmeeting.Common.{
  ℕ, ◌+◌, ◌≡◌, refl, Bool, true, false, Option, none, some, List, [], ◌∷◌, ◌==◌, if◌then◌else◌,
  length, Bytes, bytes_eq, bytes_eq_self,
}
use ccmeeting.Accounts.Sqlite.{Sqlite, IsSqlite, Step, UserRow, row, finished}

pub record Users : Type 0 where
  pub present : List UserRow
  pub saved : List UserRow

abbrev has_name : Bytes → Option Bytes → Bool
has_name name none = false
has_name name (some n) = bytes_eq n name

abbrev find : Bytes → List UserRow → Step UserRow
find name [] = finished
find name (r ∷ rows) = let rest = find name rows in if has_name name r.username then row r else rest

abbrev has_id : ℕ → List UserRow → Step ℕ
has_id id [] = finished
has_id id (r ∷ rows) = let rest = has_id id rows in if r.user_id == id then row id else rest

abbrev new_row : Bytes → Bytes → Users → UserRow
new_row name hash db = record {
  user_id = length db.present + 1;
  username = some name;
  password_hash = some hash;
  status = 1;
}

abbrev pub memory : (commits : Bool) → Sqlite
memory commits = record {
  Db = Users;
  select_credential = λ name db. find name db.present;
  select_profile = λ id db. finished;
  select_user = λ id db. has_id id db.present;
  insert_login_log = λ id ip device status db. (finished, db);
  begin_immediate = λ db. (true, record db { saved = db.present });
  commit = λ db. (commits, db);
  rollback = λ db. record db { present = db.saved };
  insert_user =
      λ name hash db. (finished, record db { present = new_row name hash db ∷ db.present });
  insert_profile = λ id name avatar db. (finished, db);
  update_avatar = λ avatar id db. (finished, db);
  update_profile = λ profile id db. (finished, db);
  last_insert_rowid = λ db. length db.present;
  changes = λ db. 1;
}

pub memory-IsSqlite : (commits : Bool) → IsSqlite (memory commits)
memory-IsSqlite commits = record {
  Tables = List UserRow;
  tables = λ db. db.present;
  Within = λ before db. db.saved ≡ before.present;
  begin_failed = λ db e. refl;
  begin-Within = λ db e. refl;
  insert_user-Within = λ before db u h w. w;
  insert_profile-Within = λ before db i n a w. w;
  commit-Within = λ before db w e. w;
  rollback-Within = λ before db w. w;
  select-insert_user = λ u h db e. (length db.present + 1, rw (bytes_eq_self u) refl);
  select-insert_profile = λ u i n a db e. refl;
  select-commit = λ u db e. refl;
}

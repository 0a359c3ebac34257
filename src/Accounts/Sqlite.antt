-- ===== src/Accounts/Sqlite.antt =====
-- What the repository uses of SQLite: one call for each of its statements. A parameter of the model.
use ccmeeting.Common.{ℕ, ◌≡◌, Bool, true, false, Option, some, Bytes}
use ccmeeting.Accounts.Model.{Profile}

-- How a statement ends: with a row, with `SQLITE_DONE`, with another code, or it is not prepared.
pub data Step (A : Type 0) : Type 0 where
  row : A → Step A
  finished failed unprepared : Step A

-- A row of the users: a text that is NULL is `none`.
pub record UserRow : Type 0 where
  pub user_id : ℕ
  pub username : Option Bytes
  pub password_hash : Option Bytes
  pub status : ℕ

-- A row of the users joined with the profiles.
pub record ProfileRow : Type 0 where
  pub username : Option Bytes
  pub nickname : Option Bytes
  pub avatar_url : Option Bytes
  pub info : Option Bytes
  pub gender : Option Bytes
  pub birthday : Option Bytes
  pub address : Option Bytes
  pub phone : Option Bytes
  pub email : Option Bytes
  pub extra_json : Option Bytes

-- The connection, with the database behind it. A result `true` is `SQLITE_OK`.
pub record Sqlite : Type 1 where
  pub Db : Type 0
  pub select_credential : Bytes → Db → Step UserRow
  pub select_profile : ℕ → Db → Step ProfileRow
  pub select_user : ℕ → Db → Step ℕ
  pub insert_login_log : (user_id : ℕ) (ip device : Bytes) (status : ℕ) → Db → Step Unit × Db
  pub begin_immediate : Db → Bool × Db
  pub commit : Db → Bool × Db
  pub rollback : Db → Db
  pub insert_user : (username password_hash : Bytes) → Db → Step Unit × Db
  pub insert_profile : (user_id : ℕ) (nickname avatar_url : Bytes) → Db → Step Unit × Db
  pub update_avatar : (avatar_url : Bytes) (user_id : ℕ) → Db → Step Unit × Db
  pub update_profile : Profile → (user_id : ℕ) → Db → Step Unit × Db
  pub last_insert_rowid : Db → ℕ
  pub changes : Db → ℕ

-- Its documented behaviour, as far as the theorems rely on it.
pub record IsSqlite (sql : Sqlite) : Type 1 where
  -- The content of the database.
  pub Tables : Type 0
  pub tables : sql.Db → Tables
  -- `Within before db`: `db` is in a transaction that began at `before`.
  pub Within : sql.Db → sql.Db → Type 0
  pub begin_failed :
      (db : sql.Db)
      → (sql.begin_immediate db).0 ≡ false
      → tables (sql.begin_immediate db).1 ≡ tables db
  pub begin-Within :
      (db : sql.Db) → (sql.begin_immediate db).0 ≡ true → Within db (sql.begin_immediate db).1
  pub insert_user-Within :
      (before db : sql.Db) (u h : Bytes)
      → Within before db
      → Within before (sql.insert_user u h db).1
  pub insert_profile-Within :
      (before db : sql.Db) (i : ℕ) (n a : Bytes)
      → Within before db
      → Within before (sql.insert_profile i n a db).1
  pub commit-Within :
      (before db : sql.Db)
      → Within before db
      → (sql.commit db).0 ≡ false
      → Within before (sql.commit db).1
  pub rollback-Within :
      (before db : sql.Db) → Within before db → tables (sql.rollback db) ≡ tables before
  -- A user that is inserted is found under its name, and stays so.
  pub select-insert_user :
      (u h : Bytes) (db : sql.Db)
      → (sql.insert_user u h db).0 ≡ finished
      → (id : ℕ) × (sql.select_credential u (sql.insert_user u h db).1
          ≡ row (record { user_id = id; username = some u; password_hash = some h; status = 1 }))
  pub select-insert_profile :
      (u : Bytes) (i : ℕ) (n a : Bytes) (db : sql.Db)
      → (sql.insert_profile i n a db).0 ≡ finished
      → sql.select_credential u (sql.insert_profile i n a db).1 ≡ sql.select_credential u db
  pub select-commit :
      (u : Bytes) (db : sql.Db)
      → (sql.commit db).0 ≡ true
      → sql.select_credential u (sql.commit db).1 ≡ sql.select_credential u db

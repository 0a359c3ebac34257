-- ===== src/Accounts/Repository.antt =====
-- `UserRepository` of data_server/src/repository/user_repository.cpp. A call takes the connection and
-- gives it back; `none` is an exception. Text is bound as a C string.
pub mod Atomic
pub mod Stored
use ccmeeting.Common.{
  ℕ, Bool, true, false, Option, none, some, [], ◌∷◌, ltb, ◌==◌, if◌then◌else◌, Bytes, codes,
  c_string,
}
use ccmeeting.Accounts.Model.{UserInfo, Profile, no_user}
use ccmeeting.Accounts.Sqlite.{Sqlite, Step, UserRow, ProfileRow}

-- `UserCredential`
pub record UserCredential : Type 0 where
  pub user_id : ℕ
  pub username : Bytes
  pub password_hash : Bytes
  pub status : ℕ

-- `column_text`
unfoldable pub column_text : Option Bytes → Bytes
column_text none = []
column_text (some text) = c_string text

abbrev pub credential_of : UserRow → UserCredential
credential_of r = record {
  user_id = r.user_id;
  username = column_text r.username;
  password_hash = column_text r.password_hash;
  status = r.status;
}

-- What is not empty replaces the fallback.
abbrev or_fallback : Bytes → Bytes → Bytes
or_fallback [] fallback = fallback
or_fallback (c ∷ s) fallback = c ∷ s

-- A user of whom nothing but the id and a name is known.
abbrev pub bare_user : ℕ → Bytes → UserInfo
bare_user user_id fallback_name = record no_user {
  id = user_id;
  username = fallback_name;
  name = fallback_name;
}

abbrev pub user_of : ℕ → Bytes → ProfileRow → UserInfo
user_of user_id fallback_name r = record {
  id = user_id;
  username = or_fallback (column_text r.username) fallback_name;
  name = or_fallback (column_text r.nickname) fallback_name;
  avatar = column_text r.avatar_url;
  info = column_text r.info;
  gender = column_text r.gender;
  birthday = column_text r.birthday;
  address = column_text r.address;
  phone = column_text r.phone;
  email = column_text r.email;
  extra_json = column_text r.extra_json;
}

-- `profile` with each text cut to a C string.
abbrev pub bound : Profile → Profile
bound p = record {
  nickname = c_string p.nickname;
  info = c_string p.info;
  gender = c_string p.gender;
  birthday = c_string p.birthday;
  address = c_string p.address;
  phone = c_string p.phone;
  email = c_string p.email;
  extra_json = c_string p.extra_json;
}

module _ (sql : Sqlite) where
  unfoldable pub find_credential_by_username : Bytes → sql.Db → Option (Option UserCredential)
  find_credential_by_username username db = elim (sql.select_credential (c_string username) db) [
    | Step.row r ↦ some (some (credential_of r))
    | Step.finished ↦ some none
    | Step.failed ↦ none
    | Step.unprepared ↦ none
  ]

  unfoldable pub load_user_info : ℕ → Bytes → sql.Db → Option UserInfo
  load_user_info user_id fallback_name db = elim (sql.select_profile user_id db) [
    | Step.row r ↦ some (user_of user_id fallback_name r)
    | Step.finished ↦ some (bare_user user_id fallback_name)
    | Step.failed ↦ some (bare_user user_id fallback_name)
    | Step.unprepared ↦ none
  ]

  -- A failure is only logged.
  unfoldable pub insert_login_log : ℕ → Bytes → Bytes → Bool → sql.Db → sql.Db
  insert_login_log user_id login_ip device_info success db =
      if user_id == 0
      then db
      else (sql.insert_login_log user_id (c_string (or_fallback login_ip (codes "unknown")))
          (c_string device_info) (if success then 1 else 0) db).1

  -- A statement that ends with anything but `SQLITE_DONE` throws; the transaction is rolled back.
  unfoldable pub or_rollback : Step Unit × sql.Db → (sql.Db → Option ℕ × sql.Db) → Option ℕ × sql.Db
  or_rollback (Step.finished, db) next = next db
  or_rollback (_, db) next = (none, sql.rollback db)

  abbrev pub committed : ℕ → Bool × sql.Db → Option ℕ × sql.Db
  committed user_id (true, db) = (some user_id, db)
  committed user_id (false, db) = (none, sql.rollback db)

  -- The profile of a user that has been inserted, and `COMMIT`.
  unfoldable pub insert_profile_row : Bytes → Bytes → sql.Db → Option ℕ × sql.Db
  unfolding or_rollback
  insert_profile_row username avatar_url db =
      or_rollback
        (sql.insert_profile (sql.last_insert_rowid db) (c_string username) (c_string avatar_url) db)
        (λ db2. committed (sql.last_insert_rowid db) (sql.commit db2))

  -- `create_user` behind `BEGIN`
  unfoldable pub insert_both : Bytes → Bytes → Bytes → sql.Db → Option ℕ × sql.Db
  unfolding insert_profile_row
  insert_both username password_hash avatar_url db =
      or_rollback (sql.insert_user (c_string username) (c_string password_hash) db)
        (insert_profile_row username avatar_url)

  abbrev pub begun : Bytes → Bytes → Bytes → Bool × sql.Db → Option ℕ × sql.Db
  begun username password_hash avatar_url (false, db) = (none, db)
  begun username password_hash avatar_url (true, db) =
      insert_both username password_hash avatar_url db

  -- `create_user`: the outer `none` is an exception.
  unfoldable pub create_user : Bytes → Bytes → Bytes → sql.Db → Option (Option ℕ × sql.Db)
  unfolding insert_both
  create_user username password_hash avatar_url db =
      elim (find_credential_by_username username db) [
        | none ↦ none
        | some (some c) ↦ some (none, db)
        | some none ↦ some (begun username password_hash avatar_url (sql.begin_immediate db))
      ]

  -- `sqlite3_changes(db) > 0`, where the statement is done.
  abbrev pub changed : Step Unit × sql.Db → Bool × sql.Db
  changed (Step.finished, db) = (ltb 0 (sql.changes db), db)
  changed (_, db) = (false, db)

  unfoldable pub update_avatar_url : ℕ → Bytes → sql.Db → Bool × sql.Db
  update_avatar_url user_id avatar_url db =
      if user_id == 0
      then (false, db)
      else changed (sql.update_avatar (c_string avatar_url) user_id db)

  unfoldable pub update_profile : ℕ → Profile → sql.Db → Bool × sql.Db
  update_profile user_id profile db =
      if user_id == 0 then (false, db) else changed (sql.update_profile (bound profile) user_id db)

  unfoldable pub user_exists : ℕ → sql.Db → Bool
  user_exists user_id db = if user_id == 0 then false else elim (sql.select_user user_id db) [
    | Step.row r ↦ true
    | Step.finished ↦ false
    | Step.failed ↦ false
    | Step.unprepared ↦ false
  ]

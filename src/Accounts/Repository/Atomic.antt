-- ===== src/Accounts/Repository/Atomic.antt =====
-- `create_user` writes both rows or none.
use ccmeeting.Common.{
  ℕ, ◌≡◌, refl, sym, ap, ◌∙◌, inl, inr, Bool, true, false, Option, none, some, Option-cases,
  some_inj, none-ne-some, Bytes, c_string,
}
use ccmeeting.Accounts.Sqlite.{Sqlite, IsSqlite, Step}
use ccmeeting.Accounts.Repository.{
  find_credential_by_username, or_rollback, committed, insert_profile_row, insert_both, begun,
  create_user,
}

module _ (sql : Sqlite) (law : IsSqlite sql) where
  -- A call that ends without a result leaves the tables as they were.
  abbrev pub Undone : sql.Db → Option ℕ × sql.Db → Type 0
  Undone before r = r.0 ≡ none → law.tables r.1 ≡ law.tables before

  or_rollback-Undone :
      (before : sql.Db) (r : Step Unit × sql.Db) (next : sql.Db → Option ℕ × sql.Db)
      → law.Within before r.1
      → Undone before (next r.1)
      → Undone before (or_rollback sql r next)
  unfolding or_rollback
  or_rollback-Undone before (Step.finished, db) next w u = u
  or_rollback-Undone before (Step.row t, db) next w u = λ e. law.rollback-Within before db w
  or_rollback-Undone before (Step.failed, db) next w u = λ e. law.rollback-Within before db w
  or_rollback-Undone before (Step.unprepared, db) next w u = λ e. law.rollback-Within before db w

  committed-Undone :
      (before : sql.Db) (user_id : ℕ) (r : Bool × sql.Db)
      → (r.0 ≡ false → law.Within before r.1)
      → Undone before (committed sql user_id r)
  committed-Undone before user_id (true, db) w = λ e. cc
  committed-Undone before user_id (false, db) w = λ e. law.rollback-Within before db (w refl)

  insert_profile_row-Undone :
      (before : sql.Db) (username avatar_url : Bytes) (db : sql.Db)
      → law.Within before db
      → Undone before (insert_profile_row sql username avatar_url db)
  unfolding insert_profile_row
  insert_profile_row-Undone before username avatar_url db w =
      let id : ℕ = sql.last_insert_rowid db in
      let r : Step Unit × sql.Db =
        sql.insert_profile id (c_string username) (c_string avatar_url) db in
      let v : law.Within before r.1 =
        law.insert_profile-Within before db id (c_string username) (c_string avatar_url) w in
      or_rollback-Undone before r (λ db2. committed sql id (sql.commit db2)) v
        (committed-Undone before id (sql.commit r.1) (law.commit-Within before r.1 v))

  insert_both-Undone :
      (before : sql.Db) (username password_hash avatar_url : Bytes) (db : sql.Db)
      → law.Within before db
      → Undone before (insert_both sql username password_hash avatar_url db)
  unfolding insert_both
  insert_both-Undone before username password_hash avatar_url db w =
      let r : Step Unit × sql.Db =
        sql.insert_user (c_string username) (c_string password_hash) db in
      let v : law.Within before r.1 =
        law.insert_user-Within before db (c_string username) (c_string password_hash) w in
      or_rollback-Undone before r (insert_profile_row sql username avatar_url) v
        (insert_profile_row-Undone before username avatar_url r.1 v)

  begun-Undone :
      (before : sql.Db) (username password_hash avatar_url : Bytes) (r : Bool × sql.Db)
      → (r.0 ≡ true → law.Within before r.1)
      → (r.0 ≡ false → law.tables r.1 ≡ law.tables before)
      → Undone before (begun sql username password_hash avatar_url r)
  begun-Undone before username password_hash avatar_url (true, db) w t =
      insert_both-Undone before username password_hash avatar_url db (w refl)
  begun-Undone before username password_hash avatar_url (false, db) w t = λ e. t refl

  -- Over a SQLite with the documented behaviour, a create_user that returns no user leaves the
  -- tables as they were, whichever of its statements failed.
  pub create_user-Undone :
      (username password_hash avatar_url : Bytes) (db after : sql.Db)
      → create_user sql username password_hash avatar_url db ≡ some (none, after)
      → law.tables after ≡ law.tables db
  unfolding create_user
  create_user-Undone username password_hash avatar_url db after e =
      elim (Option-cases (find_credential_by_username sql username db)) [
        | inl f ↦ absurd (none-ne-some (rw (f, create_user) at e))
        | inr (o, f) ↦ elim (Option-cases o) [
          | inr (c, g) ↦ known (rw (f ∙ ap some g, create_user) at e)
          | inl g ↦ fresh (rw (f ∙ ap some g, create_user) at e)
        ]
      ]
    where
      known :
          ◌≡◌ {A = Option (Option ℕ × sql.Db)} (some (none, db)) (some (none, after))
          → law.tables after ≡ law.tables db
      known e = ap (λ (r : Option ℕ × sql.Db). law.tables r.1) (sym (some_inj e))

      fresh :
          ◌≡◌ {A = Option (Option ℕ × sql.Db)}
            (some (begun sql username password_hash avatar_url (sql.begin_immediate db)))
            (some (none, after))
          → law.tables after ≡ law.tables db
      fresh e =
          let r = some_inj e in
          ap (λ (r : Option ℕ × sql.Db). law.tables r.1) (sym r)
          ∙ begun-Undone db username password_hash avatar_url (sql.begin_immediate db)
              (law.begin-Within db) (law.begin_failed db) (ap (λ (r : Option ℕ × sql.Db). r.0) r)

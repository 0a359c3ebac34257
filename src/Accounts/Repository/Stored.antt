-- ===== src/Accounts/Repository/Stored.antt =====
-- A user that `create_user` returns is found under its name.
use ccmeeting.Common.{
  ℕ, ◌≡◌, refl, ap, ◌∙◌, inl, inr, Bool, true, false, Option, none, some, Option-cases, some_inj,
  none-ne-some, subst, Bytes, c_string,
}
use ccmeeting.Accounts.Sqlite.{Sqlite, IsSqlite, Step, row, finished}
use ccmeeting.Accounts.Repository.{
  find_credential_by_username, or_rollback, committed, insert_profile_row, insert_both, begun,
  create_user,
}

module _ (sql : Sqlite) (law : IsSqlite sql) (username password_hash avatar_url : Bytes) where
  -- The user is found with this hash, and active.
  abbrev pub IsStored : sql.Db → Type 0
  IsStored db =
      (id : ℕ) × (sql.select_credential (c_string username) db
        ≡ row (record {
          user_id = id;
          username = some (c_string username);
          password_hash = some (c_string password_hash);
          status = 1;
        }))

  abbrev StoredIf : Option ℕ × sql.Db → Type 0
  StoredIf r = (id : ℕ) → r.0 ≡ some id → IsStored r.1

  or_rollback-StoredIf :
      (r : Step Unit × sql.Db) (next : sql.Db → Option ℕ × sql.Db)
      → (r.0 ≡ finished → StoredIf (next r.1))
      → StoredIf (or_rollback sql r next)
  unfolding or_rollback
  or_rollback-StoredIf (Step.finished, db) next h = h refl
  or_rollback-StoredIf (Step.row t, db) next h = λ id e. absurd (none-ne-some e)
  or_rollback-StoredIf (Step.failed, db) next h = λ id e. absurd (none-ne-some e)
  or_rollback-StoredIf (Step.unprepared, db) next h = λ id e. absurd (none-ne-some e)

  committed-StoredIf :
      (user_id : ℕ) (r : Bool × sql.Db)
      → (r.0 ≡ true → IsStored r.1)
      → StoredIf (committed sql user_id r)
  committed-StoredIf user_id (true, db) h = λ id e. h refl
  committed-StoredIf user_id (false, db) h = λ id e. absurd (none-ne-some e)

  insert_profile_row-StoredIf :
      (db : sql.Db) → IsStored db → StoredIf (insert_profile_row sql username avatar_url db)
  unfolding insert_profile_row
  insert_profile_row-StoredIf db (n, s) =
      let id : ℕ = sql.last_insert_rowid db in
      let r : Step Unit × sql.Db =
        sql.insert_profile id (c_string username) (c_string avatar_url) db in
      or_rollback-StoredIf r (λ db2. committed sql id (sql.commit db2))
        λ done. committed-StoredIf id (sql.commit r.1) λ ok. (
          n,
          law.select-commit (c_string username) r.1 ok
              ∙ law.select-insert_profile (c_string username) id (c_string username)
                  (c_string avatar_url) db done
              ∙ s,
        )

  begun-StoredIf : (r : Bool × sql.Db) → StoredIf (begun sql username password_hash avatar_url r)
  unfolding insert_both
  begun-StoredIf (false, db) = λ id e. absurd (none-ne-some e)
  begun-StoredIf (true, db) =
      or_rollback-StoredIf (sql.insert_user (c_string username) (c_string password_hash) db)
        (insert_profile_row sql username avatar_url)
        λ done.
          insert_profile_row-StoredIf
            (sql.insert_user (c_string username) (c_string password_hash) db).1
            (law.select-insert_user (c_string username) (c_string password_hash) db done)

  pub create_user-IsStored :
      (db after : sql.Db) (id : ℕ)
      → create_user sql username password_hash avatar_url db ≡ some (some id, after)
      → IsStored after
  unfolding create_user
  create_user-IsStored db after id e =
      elim (Option-cases (find_credential_by_username sql username db)) [
        | inl f ↦ absurd (none-ne-some (rw (f, create_user) at e))
        | inr (o, f) ↦ elim (Option-cases o) [
          | inr (c, g) ↦ known (rw (f ∙ ap some g, create_user) at e)
          | inl g ↦ fresh (rw (f ∙ ap some g, create_user) at e)
        ]
      ]
    where
      known :
          ◌≡◌ {A = Option (Option ℕ × sql.Db)} (some (none, db)) (some (some id, after))
          → IsStored after
      known e = absurd (none-ne-some (ap (λ (r : Option ℕ × sql.Db). r.0) (some_inj e)))

      fresh :
          ◌≡◌ {A = Option (Option ℕ × sql.Db)}
            (some (begun sql username password_hash avatar_url (sql.begin_immediate db)))
            (some (some id, after))
          → IsStored after
      fresh e =
          subst (λ (r : Option ℕ × sql.Db). IsStored r.1) (some_inj e)
            (begun-StoredIf (sql.begin_immediate db) id
              (ap (λ (r : Option ℕ × sql.Db). r.0) (some_inj e)))

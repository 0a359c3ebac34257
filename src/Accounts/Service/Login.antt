-- ===== src/Accounts/Service/Login.antt =====
-- When `login` lets a user in.
use ccmeeting.Common.{
  ◌≡◌, refl, sym, ap, ◌∙◌, ◌↔◌, inl, inr, true, false, ◌||◌, not, none, some, arith, ◌==◌, ==_iff,
  Bool-cases, Option-cases, Bytes, bytes_eq, bytes_eq→eq, bytes_eq_self, if_true, if_false,
}
use ccmeeting.Accounts.Model.{UserInfo, LoginResult}
use ccmeeting.Accounts.Sqlite.{Sqlite}
use ccmeeting.Accounts.Repository.{UserCredential, find_credential_by_username, load_user_info}
use ccmeeting.Accounts.Service.{
  Platform, is_empty, loaded, sha256_hex, verify_password, check_credential, login,
}

module _ (platform : Platform) (sql : Sqlite) where
  -- The account is found and active, its hash is that of the password, and its user is loaded.
  pub record Accepts (username password : Bytes) (db : sql.Db) : Type 0 where
    pub named : is_empty username || is_empty password ≡ false
    pub credential : UserCredential
    pub found : find_credential_by_username sql username db ≡ some (some credential)
    pub active : credential.status ≡ 1
    pub matching : sha256_hex platform password ≡ credential.password_hash
    pub user : UserInfo
    pub loading : load_user_info sql credential.user_id credential.username db ≡ some user

  module _ (username password client_ip device_info : Bytes) (db : sql.Db) where
    abbrev answer : LoginResult
    answer = (login platform sql username password client_ip device_info db).0

    abbrev checked : UserCredential → LoginResult
    checked c = (check_credential platform sql c password client_ip device_info db).0

    login-refused : is_empty username || is_empty password ≡ true → answer.code ≡ 400
    unfolding login
    login-refused e = rw (e, answer, login) refl

    login-thrown :
        is_empty username || is_empty password ≡ false
        → find_credential_by_username sql username db ≡ none
        → answer.code ≡ 500
    unfolding login
    login-thrown e f = rw (e, f, answer, login) refl

    login-unknown :
        is_empty username || is_empty password ≡ false
        → find_credential_by_username sql username db ≡ some none
        → answer.code ≡ 401
    unfolding login
    login-unknown e f = rw (e, f, answer, login) refl

    pub login-found :
        (c : UserCredential)
        → is_empty username || is_empty password ≡ false
        → find_credential_by_username sql username db ≡ some (some c)
        → answer ≡ checked c
    unfolding login
    login-found c e f = rw (e, f, answer, login) refl

    checked-inactive : (c : UserCredential) → (c.status == 1) ≡ false → (checked c).code ≡ 403
    unfolding check_credential
    checked-inactive c e = ap (λ (r : LoginResult × sql.Db). r.0.code) (if_true (ap not e) _ _)

    checked-wrong :
        (c : UserCredential)
        → (c.status == 1) ≡ true
        → verify_password platform password c.password_hash ≡ false
        → (checked c).code ≡ 401
    unfolding check_credential
    checked-wrong c e f =
        ap (λ (r : LoginResult × sql.Db). r.0.code)
          (if_false (ap not e) _ _ ∙ if_true (ap not f) _ _)

    pub checked-right :
        (c : UserCredential)
        → (c.status == 1) ≡ true
        → verify_password platform password c.password_hash ≡ true
        → checked c ≡ loaded platform sql (load_user_info sql c.user_id c.username db)
    unfolding check_credential
    checked-right c e f =
        ap (λ (r : LoginResult × sql.Db). r.0) (if_false (ap not e) _ _ ∙ if_false (ap not f) _ _)

    accept :
        (c : UserCredential) (u : UserInfo)
        → (is_empty username || is_empty password) ≡ false
        → find_credential_by_username sql username db ≡ some (some c)
        → (c.status == 1) ≡ true
        → verify_password platform password c.password_hash ≡ true
        → load_user_info sql c.user_id c.username db ≡ some u
        → Accepts username password db
    unfolding verify_password
    accept c u n f a v l = record {
      named = n;
      credential = c;
      found = f;
      active = (==_iff c.status 1).0 a;
      matching = bytes_eq→eq _ _ v;
      user = u;
      loading = l;
    }

    by_loading :
        (c : UserCredential)
        → (is_empty username || is_empty password) ≡ false
        → find_credential_by_username sql username db ≡ some (some c)
        → (c.status == 1) ≡ true
        → verify_password platform password c.password_hash ≡ true
        → answer.code ≡ 0
        → Accepts username password db
    by_loading c n f a v z = elim (Option-cases (load_user_info sql c.user_id c.username db)) [
      | inl l ↦ absurd (
          omega (
            arith,
            z,
            ap (λ (r : LoginResult). r.code)
                (login-found c n f ∙ checked-right c a v ∙ ap (loaded platform sql) l),
          ))
      | inr (u, l) ↦ accept c u n f a v l
    ]

    by_account :
        (c : UserCredential)
        → (is_empty username || is_empty password) ≡ false
        → find_credential_by_username sql username db ≡ some (some c)
        → answer.code ≡ 0
        → Accepts username password db
    by_account c n f z = elim (Bool-cases (c.status == 1)) [
      | inr a ↦ absurd (
          omega
            (arith, z, ap (λ (r : LoginResult). r.code) (login-found c n f), checked-inactive c a))
      | inl a ↦ elim (Bool-cases (verify_password platform password c.password_hash)) [
        | inr v ↦ absurd (
            omega
              (arith, z, ap (λ (r : LoginResult). r.code) (login-found c n f), checked-wrong c a v))
        | inl v ↦ by_loading c n f a v z
      ]
    ]

    by_lookup :
        (is_empty username || is_empty password) ≡ false
        → answer.code ≡ 0
        → Accepts username password db
    by_lookup n z = elim (Option-cases (find_credential_by_username sql username db)) [
      | inl f ↦ absurd (omega (arith, z, login-thrown n f))
      | inr (o, f) ↦ elim (Option-cases o) [
        | inl g ↦ absurd (omega (arith, z, login-unknown n (f ∙ ap some g)))
        | inr (c, g) ↦ by_account c n (f ∙ ap some g) z
      ]
    ]

    accepted : Accepts username password db → answer.code ≡ 0
    unfolding verify_password
    accepted a =
        ap (λ (r : LoginResult). r.code)
          (login-found a.credential a.named a.found
            ∙ checked-right a.credential ((==_iff a.credential.status 1).1 a.active) (
                ap (bytes_eq (sha256_hex platform password)) (sym a.matching)
                ∙ bytes_eq_self (sha256_hex platform password))
            ∙ ap (loaded platform sql) a.loading)

    -- A login ends with code 0 if and only if the name and the password are not empty, the account
    -- is found and its status is 1, the stored hash is that of the password, and its user is
    -- loaded.
    pub login-Accepts :
        ((login platform sql username password client_ip device_info db).0.code ≡ 0)
        ↔ Accepts username password db
    login-Accepts = (
      λ z. elim (Bool-cases (is_empty username || is_empty password)) [
        | inl e ↦ absurd (omega (arith, z, login-refused e))
        | inr n ↦ by_lookup n z
      ],
      accepted,
    )

-- ===== src/Accounts/Service/Registration.antt =====
-- Who registers can log in.
use ccmeeting.Common.{
  ℕ, zero, suc, ◌/◌, ◌%◌, ◌^◌, ◌<◌, ◌≡◌, refl, sym, ap, ◌∙◌, inl, inr, Bool, true, false, ◌||◌,
  Option, none, some, [], ◌∷◌, arith, ltb, ◌==◌, ==_iff, ==_ne, Bool-cases, Option-cases,
  true-ne-false, subst, length, get_or, All, Bytes, codes, bytes_eq, bytes_eq_self, c_string,
  if_true, if_false,
}
use ccmeeting.Accounts.Model.{LoginResult, UserInfo, AssetsConfig, default_avatar_url}
use ccmeeting.Accounts.Sqlite.{Sqlite, IsSqlite}
use ccmeeting.Accounts.Repository.{
  column_text, UserCredential, credential_of, find_credential_by_username, create_user,
}
use ccmeeting.Accounts.Service.{
  refused, Platform, is_empty, hex_digit, hex, loaded, sha256_hex, verify_password, login,
  registered, register_user,
}
use ccmeeting.Accounts.Repository.Stored.{IsStored, create_user-IsStored}
use ccmeeting.Accounts.Service.Login.{login-found, checked-right}

-- A hexadecimal text has no NUL.
get_or_positive :
    (xs : Bytes) (i : ℕ) → All (λ c. 0 < c) xs → i < length xs → (get_or xs i 0 == 0) ≡ false
get_or_positive [] i h l = absurd (omega arith)
get_or_positive (x ∷ xs) zero h l = ==_ne x 0 (λ e. omega (arith, h.0, e))
get_or_positive (x ∷ xs) (suc i) h l = get_or_positive xs i h.1 (omega arith)

hex_digit_positive : (i : ℕ) → i < 16 → (hex_digit i == 0) ≡ false
unfolding hex_digit
hex_digit_positive i h = get_or_positive (codes "0123456789abcdef") i (omega arith) h

c_string-hex : (bytes : Bytes) → c_string (hex bytes) ≡ hex bytes
unfolding c_string hex
c_string-hex [] = refl
c_string-hex (b ∷ bytes) =
    rw
      (
        hex_digit_positive (b / 2 ^ 4 % 16) (omega arith),
        hex_digit_positive (b % 16) (omega arith),
        c_string-hex bytes,
      )
      refl

c_string-c_string : (s : Bytes) → c_string (c_string s) ≡ c_string s
unfolding c_string
c_string-c_string [] = refl
c_string-c_string (c ∷ s) = elim (Bool-cases (c == 0)) [
  | inl e ↦ rw (e, c_string) refl
  | inr e ↦ rw (e, c_string, e) (ap (λ t. c ∷ t) (c_string-c_string s))
]

module _ (platform : Platform) (sql : Sqlite) (law : IsSqlite sql) (assets : AssetsConfig)
    (username password : Bytes) where
  abbrev registration : sql.Db → LoginResult × sql.Db
  registration db = register_user platform sql assets username password db

  abbrev creation : sql.Db → Option (Option ℕ × sql.Db)
  creation db =
      create_user sql username (sha256_hex platform password) (default_avatar_url assets) db

  -- A registration that succeeds has created the user.
  abbrev Created : sql.Db → Option (Option ℕ × sql.Db) → LoginResult × sql.Db → Type 0
  Created db o r = (id : ℕ) × (o ≡ some (some id, r.1))

  registered-Created :
      (db : sql.Db) (o : Option (Option ℕ × sql.Db))
      → (registered platform sql username o db).0.success ≡ true
      → Created db o (registered platform sql username o db)
  unfolding registered
  registered-Created db none e = absurd (true-ne-false (sym e))
  registered-Created db (some (none, after)) e = absurd (true-ne-false (sym e))
  registered-Created db (some (some id, after)) e = (id, refl)

  refused_name :
      (db : sql.Db)
      → (is_empty username || is_empty password) ≡ true
      → (registration db).0.success ≡ false
  unfolding register_user
  refused_name db e = ap (λ (r : LoginResult × sql.Db). r.0.success) (if_true e _ _)

  refused_length :
      (db : sql.Db)
      → (is_empty username || is_empty password) ≡ false
      → ltb 50 (length username) ≡ true
      → (registration db).0.success ≡ false
  unfolding register_user
  refused_length db e f =
      ap (λ (r : LoginResult × sql.Db). r.0.success) (if_false e _ _ ∙ if_true f _ _)

  looked_up :
      (db : sql.Db) (o : Option (Option UserCredential))
      → (is_empty username || is_empty password) ≡ false
      → ltb 50 (length username) ≡ false
      → find_credential_by_username sql username db ≡ o
      → registration db ≡ elim o [
        | none ↦ (refused 500 (codes "internal server error"), db)
        | some (some c) ↦ (refused 409 (codes "username already exists"), db)
        | some none ↦ registered platform sql username (creation db) db
      ]
  unfolding register_user
  looked_up db o e f g = if_false e _ _ ∙ if_false f _ _ ∙ rw g refl

  success : LoginResult × sql.Db → Bool
  success r = r.0.success

  registration-Created :
      (db : sql.Db)
      → (registration db).0.success ≡ true
      → ((is_empty username || is_empty password) ≡ false)
        × Created db (creation db) (registration db)
  unfolding success
  registration-Created db s = elim (Bool-cases (is_empty username || is_empty password)) [
    | inl e ↦ absurd (true-ne-false (sym s ∙ refused_name db e))
    | inr e ↦ (
      e,
      elim (Bool-cases (ltb 50 (length username))) [
        | inl f ↦ absurd (true-ne-false (sym s ∙ refused_length db e f))
        | inr f ↦ elim (Option-cases (find_credential_by_username sql username db)) [
          | inl g ↦ absurd (true-ne-false (sym s ∙ ap success (looked_up db _ e f g)))
          | inr (o, g) ↦ elim (Option-cases o) [
            | inr (c, h) ↦
                absurd (true-ne-false (sym s ∙ ap success (looked_up db _ e f (g ∙ ap some h))))
            | inl h ↦
                let at : registration db ≡ registered platform sql username (creation db) db =
                  looked_up db _ e f (g ∙ ap some h) in
                subst (Created db (creation db)) (sym at)
                  (registered-Created db (creation db) (sym (ap success at) ∙ s))
          ]
        ]
      ],
    )
  ]

  loaded-success : (o : Option UserInfo) → (loaded platform sql o).success ≡ true
  loaded-success none = refl
  loaded-success (some user) = refl

  found_after :
      (db : sql.Db)
      → IsStored sql law username (sha256_hex platform password) (default_avatar_url assets) db
      → (c : UserCredential) × (find_credential_by_username sql username db ≡ some (some c))
        × (c.status ≡ 1)
        × (c.password_hash ≡ c_string (c_string (sha256_hex platform password)))
  unfolding find_credential_by_username column_text
  found_after db (id, e) = (
    credential_of (record {
      user_id = id;
      username = some (c_string username);
      password_hash = some (c_string (sha256_hex platform password));
      status = 1;
    }),
    rw (e, find_credential_by_username) refl,
    refl,
    refl,
  )

  -- Over a SQLite with the documented behaviour, after a registration that reports success a login
  -- with the same name and password on the database that it leaves reports success, whatever the
  -- address and the device are.
  pub login-register_user :
      (client_ip device_info : Bytes) (db : sql.Db)
      → (register_user platform sql assets username password db).0.success ≡ true
      → (login platform sql username password client_ip device_info
          (register_user platform sql assets username password db).1).0.success
        ≡ true
  unfolding verify_password sha256_hex
  login-register_user client_ip device_info db s =
      let created = registration-Created db s in
      let (c, f, active, hash) = found_after (registration db).1 (
        create_user-IsStored sql law username (sha256_hex platform password)
          (default_avatar_url assets) db (registration db).1 created.1.0 created.1.1) in
      ap (λ (r : LoginResult). r.success)
        (login-found platform sql username password client_ip device_info (registration db).1 c
            created.0 f
          ∙ checked-right platform sql username password client_ip device_info (registration db).1 c
              ((==_iff c.status 1).1 active) (right c.password_hash hash))
      ∙ loaded-success _
    where
      right :
          (hash : Bytes)
          → hash ≡ c_string (c_string (sha256_hex platform password))
          → verify_password platform password hash ≡ true
      right hash e =
          ap (bytes_eq (hex (platform.sha256 password))) (
            e
            ∙ c_string-c_string (hex (platform.sha256 password))
            ∙ c_string-hex (platform.sha256 password))
          ∙ bytes_eq_self (hex (platform.sha256 password))

-- ===== src/Accounts/Http/Login.antt =====
-- Which login requests are answered with status 200.
use ccmeeting.Common.{
  if_both, ◌≡◌, refl, sym, ap, ◌∙◌, ◌↔◌, inl, inr, Bool, true, false, ◌||◌, not, Option, none, some,
  [], ◌==◌, ==_iff, Bool-cases, Option-cases, true-ne-false, Bytes, codes, bytes_eq, bytes_eq→eq,
  bytes_eq_self, if_true, if_false,
}
use ccmeeting.Accounts.Model.{UserInfo, LoginResult, AssetsConfig}
use ccmeeting.Accounts.Sqlite.{Sqlite}
use ccmeeting.Accounts.Repository.{UserCredential, find_credential_by_username}
use ccmeeting.Accounts.Service.{
  Platform, is_empty, loaded, sha256_hex, verify_password, check_credential, login,
}
use ccmeeting.Accounts.Service.Login.{login-found, checked-right}
use ccmeeting.Accounts.Json.{Json, Credentials, login_response, parse_login_request}
use ccmeeting.Accounts.Files.{FileSystem}
use ccmeeting.Accounts.Http.{
  Answer, Status, Request, Response, make_json_response, login_status, answer, handle_login,
  handle_post, handle_request, or_default,
}
use ccmeeting.Accounts.Http

module _ (platform : Platform) (sql : Sqlite) where
  -- The account is found and active, and its hash is that of the password.
  pub record Admits (username password : Bytes) (db : sql.Db) : Type 0 where
    pub named : is_empty username || is_empty password ≡ false
    pub credential : UserCredential
    pub found : find_credential_by_username sql username db ≡ some (some credential)
    pub active : credential.status ≡ 1
    pub matching : sha256_hex platform password ≡ credential.password_hash

  loaded-success : (o : Option UserInfo) → (loaded platform sql o).success ≡ true
  loaded-success none = refl
  loaded-success (some user) = refl

  module _ (username password client_ip device_info : Bytes) (db : sql.Db) where
    abbrev result : LoginResult
    result = (login platform sql username password client_ip device_info db).0

    abbrev checked : UserCredential → LoginResult
    checked c = (check_credential platform sql c password client_ip device_info db).0

    unnamed-success : is_empty username || is_empty password ≡ true → result.success ≡ false
    unfolding login
    unnamed-success e = rw (e, result, login) refl

    thrown-success :
        is_empty username || is_empty password ≡ false
        → find_credential_by_username sql username db ≡ none
        → result.success ≡ false
    unfolding login
    thrown-success e f = rw (e, f, result, login) refl

    unknown-success :
        is_empty username || is_empty password ≡ false
        → find_credential_by_username sql username db ≡ some none
        → result.success ≡ false
    unfolding login
    unknown-success e f = rw (e, f, result, login) refl

    inactive-success : (c : UserCredential) → (c.status == 1) ≡ false → (checked c).success ≡ false
    unfolding check_credential
    inactive-success c e = ap (λ (r : LoginResult × sql.Db). r.0.success) (if_true (ap not e) _ _)

    wrong-success :
        (c : UserCredential)
        → (c.status == 1) ≡ true
        → verify_password platform password c.password_hash ≡ false
        → (checked c).success ≡ false
    unfolding check_credential
    wrong-success c e f =
        ap (λ (r : LoginResult × sql.Db). r.0.success)
          (if_false (ap not e) _ _ ∙ if_true (ap not f) _ _)

    right-success :
        (c : UserCredential)
        → (c.status == 1) ≡ true
        → verify_password platform password c.password_hash ≡ true
        → (checked c).success ≡ true
    right-success c e f =
        ap (λ (r : LoginResult). r.success)
          (checked-right platform sql username password client_ip device_info db c e f)
        ∙ loaded-success _

    found-success :
        (c : UserCredential)
        → is_empty username || is_empty password ≡ false
        → find_credential_by_username sql username db ≡ some (some c)
        → result.success ≡ (checked c).success
    found-success c e f =
        ap (λ (r : LoginResult). r.success)
          (login-found platform sql username password client_ip device_info db c e f)

    refuted : {A : Type 0} → result.success ≡ false → result.success ≡ true → A
    refuted f t = absurd (true-ne-false (sym t ∙ f))

    admitted :
        (c : UserCredential)
        → is_empty username || is_empty password ≡ false
        → find_credential_by_username sql username db ≡ some (some c)
        → result.success ≡ true
        → Admits username password db
    unfolding verify_password
    admitted c n f s = elim (Bool-cases (c.status == 1)) [
      | inr a ↦ refuted (found-success c n f ∙ inactive-success c a) s
      | inl a ↦ elim (Bool-cases (verify_password platform password c.password_hash)) [
        | inr v ↦ refuted (found-success c n f ∙ wrong-success c a v) s
        | inl v ↦ record {
          named = n;
          credential = c;
          found = f;
          active = (==_iff c.status 1).0 a;
          matching = bytes_eq→eq _ _ v;
        }
      ]
    ]

    looked_up :
        is_empty username || is_empty password ≡ false
        → result.success ≡ true
        → Admits username password db
    looked_up n s = elim (Option-cases (find_credential_by_username sql username db)) [
      | inl f ↦ refuted (thrown-success n f) s
      | inr (none, f) ↦ refuted (unknown-success n f) s
      | inr (some c, f) ↦ admitted c n f s
    ]

    success-Admits : (result.success ≡ true) ↔ Admits username password db
    unfolding verify_password
    success-Admits = (
      λ s. elim (Bool-cases (is_empty username || is_empty password)) [
        | inl e ↦ refuted (unnamed-success e) s
        | inr n ↦ looked_up n s
      ],
      λ a.
          found-success a.credential a.named a.found
          ∙ right-success a.credential ((==_iff a.credential.status 1).1 a.active) (
              ap (bytes_eq (sha256_hex platform password)) (sym a.matching)
              ∙ bytes_eq_self (sha256_hex platform password)),
    )

-- Status 200
abbrev pub is_ok : Status → Bool
is_ok Http.status_ok = true
is_ok _ = false

is_ok-login_status : (r : LoginResult) → is_ok (login_status r) ≡ r.success
unfolding login_status
is_ok-login_status r = if_both says r.success _ _ sym λ e.
    if_both says (r.code == 400) _ _ (λ t. sym e)
      λ t.
        if_both says (r.code == 403) _ _ (λ t. sym e)
          λ t. if_both says (r.code == 500) _ _ (λ t. sym e) (λ t. sym e)
  where
    says : Status → Type 0
    says status = is_ok status ≡ r.success

module _ (j : Json) (fs : FileSystem) (platform : Platform) (sql : Sqlite) (req : Request)
    (c : Credentials) (db : sql.Db) where
  -- What `login` says of the request.
  abbrev pub outcome : LoginResult
  outcome =
      (login platform sql c.username c.password (or_default (codes "unknown") req.remote_address)
        (or_default [] req.user_agent) db).0

  handle_login_parsed :
      parse_login_request j req.body ≡ some c
      → (handle_login j fs platform sql req db).0
        ≡ answer j fs platform sql req (login_status outcome) (login_response outcome)
  unfolding handle_login
  handle_login_parsed e = rw (e, handle_login) refl

  request-login :
      (assets : AssetsConfig)
      → req.method ≡ Http.post
      → req.target ≡ codes "/api/login"
      → (handle_request j fs platform sql assets req db).0
        ≡ (handle_login j fs platform sql req db).0
  unfolding handle_request handle_post handle_login answer
  request-login assets m t =
      rw (m, handle_request)
        (ap (λ (a : Answer sql.Db). a.0)
          (if_true
            (ap (λ x. bytes_eq x (codes "/api/login")) t ∙ bytes_eq_self (codes "/api/login")) _ _))

  -- If a POST to /api/login has a body that parses to a name and a password, and the result of the
  -- login can be written as JSON, then it is answered, with that JSON, keeping the connection open
  -- or not as the request asks, and with status 200 if and only if name and password are not empty
  -- and the account is found, has status 1 and holds the password's hash, whether or not its user
  -- can be loaded.
  pub handle_request-Admits :
      (assets : AssetsConfig) (body : Bytes)
      → req.method ≡ Http.post
      → req.target ≡ codes "/api/login"
      → parse_login_request j req.body ≡ some c
      → j.dump (login_response outcome) ≡ some body
      → (r : Response) × ((handle_request j fs platform sql assets req db).0 ≡ some r)
        × (r.body ≡ body)
        × (r.keep_alive ≡ req.keep_alive)
        × ((is_ok r.status ≡ true) ↔ Admits platform sql c.username c.password db)
  unfolding answer make_json_response
  handle_request-Admits assets body m t e d =
      let admits =
        success-Admits platform sql c.username c.password
          (or_default (codes "unknown") req.remote_address) (or_default [] req.user_agent) db in
      (
        make_json_response (login_status outcome) body req.keep_alive,
        request-login assets m t ∙ handle_login_parsed e ∙ rw (d, answer) refl,
        refl,
        refl,
        (
          λ ok. admits.0 (sym (is_ok-login_status outcome) ∙ ok),
          λ a. is_ok-login_status outcome ∙ admits.1 a,
        ),
      )

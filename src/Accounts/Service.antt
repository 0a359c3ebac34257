-- ===== src/Accounts/Service.antt =====
-- `AuthService` of data_server/src/service/auth_service.cpp, and the hashes of
-- data_server/src/util/password_hasher.cpp.
pub mod Login
pub mod Registration
pub mod Limits
use ccmeeting.Common.{
  ℕ, zero, suc, ◌+◌, ◌/◌, ◌%◌, ◌^◌, Bool, true, false, ◌&&◌, ◌||◌, not, Option, none, some, [], ◌∷◌,
  ◌++◌, ltb, ◌==◌, if◌then◌else◌, length, get_or, Bytes, codes, bytes_eq,
}
use ccmeeting.Accounts.Model.{
  UserInfo, Profile, LoginResult, AvatarUploadResult, ProfileUpdateResult, AssetsConfig, no_user,
  no_profile, default_avatar_url, join_public_url,
}
use ccmeeting.Accounts.Sqlite.{Sqlite}
use ccmeeting.Accounts.Repository
use ccmeeting.Accounts.Repository.{
  UserCredential, find_credential_by_username, load_user_info, insert_login_log, create_user,
  update_avatar_url, user_exists,
}

-- What became of writing a file: its stream did not open, or a call threw.
pub data Saved : Type 0 where
  written not_opened threw : Saved

-- OpenSSL and the file system.
pub record Platform : Type 0 where
  -- `SHA256`: 32 bytes
  pub sha256 : Bytes → Bytes
  -- `util::base64_decode`, which is OpenSSL's decoder
  pub base64_decode : Bytes → Option Bytes
  -- A file of a user's directory below the upload root.
  pub save : (directory file_name content : Bytes) → Saved

-- `kHex[i]`, for i below 16
unfoldable pub hex_digit : ℕ → ℕ
hex_digit i = get_or (codes "0123456789abcdef") i 0

-- Two hexadecimal digits for each byte.
unfoldable pub hex : Bytes → Bytes
unfolding hex_digit
hex [] = []
hex (b ∷ bytes) = hex_digit (b / 2 ^ 4 % 16) ∷ hex_digit (b % 16) ∷ hex bytes

-- `random_hex`; `none` is a failure of `RAND_bytes`.
unfoldable pub random_hex : Option Bytes → Bytes
unfolding hex
random_hex none = codes "fallback"
random_hex (some bytes) = hex bytes

unfoldable pub extension_for_mime : Bytes → Bytes
extension_for_mime mime =
    if bytes_eq mime (codes "image/png")
    then codes ".png"
    else if bytes_eq mime (codes "image/jpeg") || bytes_eq mime (codes "image/jpg")
    then codes ".jpg"
    else if bytes_eq mime (codes "image/webp")
    then codes ".webp"
    else []

-- `std::to_string`: twenty digits hold every 64-bit number.
unfoldable pub decimal_loop : ℕ → ℕ → Bytes → Bytes
decimal_loop zero n acc = acc
decimal_loop (suc fuel) n acc =
    let rest = decimal_loop fuel (n / 10) ((48 + n % 10) ∷ acc) in
    if ltb n 10 then (48 + n) ∷ acc else rest

abbrev pub decimal : ℕ → Bytes
decimal n = decimal_loop 20 n []

abbrev pub is_empty : Bytes → Bool
is_empty [] = true
is_empty (c ∷ s) = false

-- A result without success.
abbrev pub refused : ℕ → Bytes → LoginResult
refused code message = record { success = false; code = code; message = message; user = no_user }

abbrev pub granted : UserInfo → LoginResult
granted user = record { success = true; code = 0; message = codes "ok"; user = user }

-- What the `catch` leaves when `load_user_info` throws: `success` has been set before.
abbrev pub interrupted : LoginResult
interrupted = record (refused 500 (codes "internal server error")) { success = true }

abbrev pub avatar_refused : ℕ → Bytes → AvatarUploadResult
avatar_refused code message = record {
  success = false;
  code = code;
  message = message;
  avatar_url = [];
}

abbrev pub profile_refused : ℕ → Bytes → ProfileUpdateResult
profile_refused code message = record {
  success = false;
  code = code;
  message = message;
  profile = no_profile;
}

-- `birthday.size() != 10 || birthday[4] != '-' || birthday[7] != '-'`, unless it is empty.
unfoldable pub bad_birthday : Bytes → Bool
bad_birthday birthday =
    not (length birthday == 0)
    && (not (length birthday == 10)
        || (not (get_or birthday 4 0 == b'-') || not (get_or birthday 7 0 == b'-')))

unfoldable pub known_gender : Bytes → Bool
known_gender gender =
    (length gender == 0)
    || (bytes_eq gender (codes "male")
        || (bytes_eq gender (codes "female") || bytes_eq gender (codes "other")))

-- The checks of `update_profile` in their order: the message of the first that fails.
unfoldable pub profile_error : ℕ → Profile → Option Bytes
profile_error user_id p =
    if user_id == 0
    then some (codes "user_id is required")
    else if length p.nickname == 0
    then some (codes "nickname is required")
    else if ltb 64 (length p.nickname)
    then some (codes "nickname too long")
    else if ltb 512 (length p.info)
    then some (codes "info too long")
    else if not (known_gender p.gender)
    then some (codes "invalid gender")
    else if bad_birthday p.birthday
    then some (codes "invalid birthday")
    else if ltb 256 (length p.address)
        || (ltb 32 (length p.phone) || (ltb 128 (length p.email) || ltb 2048 (length p.extra_json)))
    then some (codes "field too long")
    else none

module _ (platform : Platform) where
  unfoldable pub sha256_hex : Bytes → Bytes
  sha256_hex plain = hex (platform.sha256 plain)

  unfoldable pub verify_password : Bytes → Bytes → Bool
  unfolding sha256_hex
  verify_password plain expected_hash = bytes_eq (sha256_hex plain) expected_hash

module _ (platform : Platform) (sql : Sqlite) where
  abbrev pub loaded : Option UserInfo → LoginResult
  loaded none = interrupted
  loaded (some user) = granted user

  -- The log entry is written behind the loading of the user, so not if that throws.
  abbrev pub log_loaded : ℕ → Bytes → Bytes → Option UserInfo → sql.Db → sql.Db
  log_loaded user_id client_ip device_info none db = db
  log_loaded user_id client_ip device_info (some user) db =
      insert_login_log sql user_id client_ip device_info true db

  -- `login` behind the lookup of the account.
  unfoldable pub check_credential :
      UserCredential → (password client_ip device_info : Bytes) → sql.Db → LoginResult × sql.Db
  check_credential credential password client_ip device_info db =
      if not (credential.status == 1)
      then (
        refused 403 (codes "account disabled or locked"),
        insert_login_log sql credential.user_id client_ip device_info false db,
      )
      else if not (verify_password platform password credential.password_hash)
      then (
        refused 401 (codes "invalid username or password"),
        insert_login_log sql credential.user_id client_ip device_info false db,
      )
      else (let user = load_user_info sql credential.user_id credential.username db in
          (loaded user, log_loaded credential.user_id client_ip device_info user db))

  unfoldable pub login :
      (username password client_ip device_info : Bytes) → sql.Db → LoginResult × sql.Db
  login username password client_ip device_info db =
      if is_empty username || is_empty password
      then (refused 400 (codes "username and password are required"), db)
      else elim (find_credential_by_username sql username db) [
        | none ↦ (refused 500 (codes "internal server error"), db)
        | some none ↦ (refused 401 (codes "invalid username or password"), db)
        | some (some credential) ↦ check_credential credential password client_ip device_info db
      ]

  -- `register_user` behind `create_user`.
  unfoldable pub registered : Bytes → Option (Option ℕ × sql.Db) → sql.Db → LoginResult × sql.Db
  registered username none db = (refused 500 (codes "internal server error"), db)
  registered username (some (none, db')) db = (refused 500 (codes "failed to create user"), db')
  registered username (some (some user_id, db')) db =
      (loaded (load_user_info sql user_id username db'), db')

  unfoldable pub register_user :
      AssetsConfig → (username password : Bytes) → sql.Db → LoginResult × sql.Db
  register_user assets username password db =
      if is_empty username || is_empty password
      then (refused 400 (codes "username and password are required"), db)
      else if ltb 50 (length username)
      then (refused 400 (codes "username too long"), db)
      else elim (find_credential_by_username sql username db) [
        | none ↦ (refused 500 (codes "internal server error"), db)
        | some (some c) ↦ (refused 409 (codes "username already exists"), db)
        | some none ↦
            registered username
              (create_user sql username (sha256_hex platform password) (default_avatar_url assets)
                db)
              db
      ]

  abbrev updated_avatar : Bytes → Bool × sql.Db → AvatarUploadResult × sql.Db
  updated_avatar avatar_url (true, db) =
      (record { success = true; code = 0; message = codes "ok"; avatar_url = avatar_url }, db)
  updated_avatar avatar_url (false, db) =
      (avatar_refused 500 (codes "failed to update profile"), db)

  -- `upload_avatar` behind the checks; `random` is what `RAND_bytes` gives.
  unfoldable pub store_avatar :
      AssetsConfig
      → Option Bytes
      → ℕ
      → (extension content : Bytes) → sql.Db
      → AvatarUploadResult × sql.Db
  store_avatar assets random user_id extension content db =
      let file_name = random_hex random ++ extension in
      elim (platform.save (decimal user_id) file_name content) [
        | threw ↦ (avatar_refused 500 (codes "internal server error"), db)
        | not_opened ↦ (avatar_refused 500 (codes "failed to save avatar"), db)
        | written ↦
            let avatar_url =
              join_public_url assets
                (codes "/uploads/avatars/" ++ (decimal user_id ++ (b'/' ∷ file_name))) in
            updated_avatar avatar_url (update_avatar_url sql user_id avatar_url db)
      ]

  unfoldable pub upload_avatar :
      AssetsConfig
      → Option Bytes
      → ℕ
      → (mime data_base64 : Bytes) → sql.Db
      → AvatarUploadResult × sql.Db
  upload_avatar assets random user_id mime data_base64 db =
      if user_id == 0
      then (avatar_refused 400 (codes "user_id is required"), db)
      else if is_empty (extension_for_mime mime)
      then (avatar_refused 400 (codes "unsupported mime type"), db)
      else if not (user_exists sql user_id db)
      then (avatar_refused 404 (codes "user not found"), db)
      else elim (platform.base64_decode data_base64) [
        | none ↦ (avatar_refused 400 (codes "invalid base64 data"), db)
        | some decoded ↦
            if ltb assets.max_avatar_bytes (length decoded)
            then (avatar_refused 413 (codes "avatar too large"), db)
            else store_avatar assets random user_id (extension_for_mime mime) decoded db
      ]

  abbrev pub updated_profile : Profile → Bool × sql.Db → ProfileUpdateResult × sql.Db
  updated_profile profile (true, db) =
      (record { success = true; code = 0; message = codes "ok"; profile = profile }, db)
  updated_profile profile (false, db) = (profile_refused 500 (codes "failed to update profile"), db)

  unfoldable pub update_profile : ℕ → Profile → sql.Db → ProfileUpdateResult × sql.Db
  update_profile user_id profile db = elim (profile_error user_id profile) [
    | some message ↦ (profile_refused 400 message, db)
    | none ↦
        if not (user_exists sql user_id db)
        then (profile_refused 404 (codes "user not found"), db)
        else updated_profile profile (Repository.update_profile sql user_id profile db)
  ]

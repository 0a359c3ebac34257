-- ===== src/Accounts/Json.antt =====
-- data_server/src/util/json_helper.cpp: the bodies of the requests and of the responses.
use ccmeeting.Common.{
  ℕ, Bool, true, false, ◌&&◌, not, Option, none, some, [], ◌∷◌, ◌==◌, if◌then◌else◌, Bytes, codes,
}
use ccmeeting.Accounts.Model.{
  UserInfo, Profile, LoginResult, AvatarUploadResult, ProfileUpdateResult,
}

-- A value that is written: a number, a text, or an object of members.
mutual
  pub data Value : Type 0 where
    number : ℕ → Value
    text : Bytes → Value
    object : Members → Value

  pub data Members : Type 0 where
    nil : Members
    cons : Bytes → Value → Members → Members

-- What the helpers use of nlohmann/json: a parameter of the model.
pub record Json : Type 1 where
  pub Doc : Type 0
  -- `json::parse`; `none` is an exception.
  pub parse : Bytes → Option Doc
  pub is_object : Doc → Bool
  pub contains : Doc → Bytes → Bool
  -- `at(key).get<std::string>()` where `at(key).is_string()`
  pub string_at : Doc → Bytes → Option Bytes
  -- `at(key).get<std::uint64_t>()` where `at(key).is_number_integer()`
  pub integer_at : Doc → Bytes → Option ℕ
  -- `dump()`; `none` is an exception.
  pub dump : Value → Option Bytes

-- `fill_profile_fields`
unfoldable pub fill_profile_fields : UserInfo → Members
fill_profile_fields user = cons (codes "id") (number user.id) (
    cons (codes "username") (text user.username) (
      cons (codes "name") (text user.name) (
        cons (codes "avatar") (text user.avatar) (
          cons (codes "info") (text user.info) (
            cons (codes "gender") (text user.gender) (
              cons (codes "birthday") (text user.birthday) (
                cons (codes "address") (text user.address) (
                  cons (codes "phone") (text user.phone) (
                    cons (codes "email") (text user.email)
                      (cons (codes "extra_json") (text user.extra_json) nil))))))))))

-- The members `code`, `message` and, of a success, `data`.
abbrev pub response : Bool → ℕ → Bytes → Members → Value
response success code message members = object (
    cons (codes "code") (number code) (
      cons (codes "message") (text message)
        (if success then cons (codes "data") (object members) nil else nil)))

-- `to_login_response_json` before `dump`
unfoldable pub login_response : LoginResult → Value
login_response r = response r.success r.code r.message (fill_profile_fields r.user)

-- `to_avatar_upload_response_json` before `dump`
unfoldable pub avatar_response : AvatarUploadResult → Value
avatar_response r =
    response r.success r.code r.message (cons (codes "avatar") (text r.avatar_url) nil)

-- `to_profile_update_response_json` before `dump`
unfoldable pub profile_response : ProfileUpdateResult → Value
profile_response r = response r.success r.code r.message (
    cons (codes "name") (text r.profile.nickname) (
      cons (codes "info") (text r.profile.info) (
        cons (codes "gender") (text r.profile.gender) (
          cons (codes "birthday") (text r.profile.birthday) (
            cons (codes "address") (text r.profile.address) (
              cons (codes "phone") (text r.profile.phone) (
                cons (codes "email") (text r.profile.email)
                  (cons (codes "extra_json") (text r.profile.extra_json) nil))))))))

-- The requests that the parsers give back; `none` is `false`.
pub record Credentials : Type 0 where
  pub username : Bytes
  pub password : Bytes

pub record AvatarRequest : Type 0 where
  pub user_id : ℕ
  pub mime : Bytes
  pub data_base64 : Bytes

pub record ProfileRequest : Type 0 where
  pub user_id : ℕ
  pub profile : Profile

abbrev is_empty : Bytes → Bool
is_empty [] = true
is_empty (c ∷ s) = false

abbrev guard : Bool → Option (Unit {0})
guard true = some tt
guard false = none

infixl 5 ◌>>=◌
abbrev ◌>>=◌ {ℓ κ} : {A : Type ℓ} {B : Type κ} → Option A → (A → Option B) → Option B
none >>= f = none
some a >>= f = f a

module _ (j : Json) where
  unfoldable pub optional_string : j.Doc → Bytes → Bytes
  optional_string obj key = elim (j.string_at obj key) [ none ↦ [] | some s ↦ s ]

  -- The document of a body, if it is an object.
  abbrev parse_object : Bytes → Option j.Doc
  parse_object body = do root ← j.parse body; _ ← guard (j.is_object root); some root

  unfoldable pub parse_login_request : Bytes → Option Credentials
  parse_login_request body = do
    root ← parse_object body
    username ← j.string_at root (codes "username")
    password ← j.string_at root (codes "password")
    _ ← guard (not (is_empty username))
    some (record { username = username; password = password })

  unfoldable pub parse_upload_avatar_request : Bytes → Option AvatarRequest
  parse_upload_avatar_request body = do
    root ← parse_object body
    mime ← j.string_at root (codes "mime")
    data_base64 ← j.string_at root (codes "data_base64")
    user_id ← j.integer_at root (codes "user_id")
    _ ← guard (not (user_id == 0) && (not (is_empty mime) && not (is_empty data_base64)))
    some (record { user_id = user_id; mime = mime; data_base64 = data_base64 })

  unfoldable pub parse_update_profile_request : Bytes → Option ProfileRequest
  unfolding optional_string
  parse_update_profile_request body = do
    root ← parse_object body
    nickname ← j.string_at root (codes "nickname")
    user_id ← j.integer_at root (codes "user_id")
    _ ← guard (not (user_id == 0))
    some (record {
      user_id = user_id;
      profile = record {
        nickname = nickname;
        info = optional_string root (codes "info");
        gender = optional_string root (codes "gender");
        birthday = optional_string root (codes "birthday");
        address = optional_string root (codes "address");
        phone = optional_string root (codes "phone");
        email = optional_string root (codes "email");
        extra_json = optional_string root (codes "extra_json");
      };
    })

-- ===== src/Accounts/Model.antt =====
-- data_server/include/model and data_server/include/config/auth_server_config.h, and the addresses of
-- the files.
pub mod Address
use ccmeeting.Common.{
  ℕ, ◌-◌, Bool, true, false, ◌&&◌, not, [], ◌∷◌, ◌++◌, ◌==◌, if◌then◌else◌, length, take, Bytes,
}

-- `UserInfo`
pub record UserInfo : Type 0 where
  pub id : ℕ
  pub username : Bytes
  pub name : Bytes
  pub avatar : Bytes
  pub info : Bytes
  pub gender : Bytes
  pub birthday : Bytes
  pub address : Bytes
  pub phone : Bytes
  pub email : Bytes
  pub extra_json : Bytes

-- The members that a profile update writes.
pub record Profile : Type 0 where
  pub nickname : Bytes
  pub info : Bytes
  pub gender : Bytes
  pub birthday : Bytes
  pub address : Bytes
  pub phone : Bytes
  pub email : Bytes
  pub extra_json : Bytes

abbrev pub no_profile : Profile
no_profile = record {
  nickname = [];
  info = [];
  gender = [];
  birthday = [];
  address = [];
  phone = [];
  email = [];
  extra_json = [];
}

abbrev pub no_user : UserInfo
no_user = record {
  id = 0;
  username = [];
  name = [];
  avatar = [];
  info = [];
  gender = [];
  birthday = [];
  address = [];
  phone = [];
  email = [];
  extra_json = [];
}

-- `LoginResult`
pub record LoginResult : Type 0 where
  pub success : Bool
  pub code : ℕ
  pub message : Bytes
  pub user : UserInfo

-- `AvatarUploadResult`
pub record AvatarUploadResult : Type 0 where
  pub success : Bool
  pub code : ℕ
  pub message : Bytes
  pub avatar_url : Bytes

-- `ProfileUpdateResult`, whose `name` is the nickname.
pub record ProfileUpdateResult : Type 0 where
  pub success : Bool
  pub code : ℕ
  pub message : Bytes
  pub profile : Profile

-- `AssetsConfig`, of `AuthServerConfig`; the rest of that only `main` uses.
pub record AssetsConfig : Type 0 where
  pub public_base_url : Bytes
  pub static_root : Bytes
  pub upload_root : Bytes
  pub default_avatar_path : Bytes
  pub max_avatar_bytes : ℕ

abbrev is_empty : Bytes → Bool
is_empty [] = true
is_empty (c ∷ s) = false

-- `!s.empty() && s.front() == '/'`
unfoldable pub starts_with_slash : Bytes → Bool
starts_with_slash [] = false
starts_with_slash (c ∷ s) = c == b'/'

-- `!s.empty() && s.back() == '/'`
unfoldable pub ends_with_slash : Bytes → Bool
ends_with_slash [] = false
ends_with_slash (c ∷ []) = c == b'/'
ends_with_slash (c ∷ d ∷ s) = ends_with_slash (d ∷ s)

-- `s.substr(0, s.size() - 1)`
abbrev without_last : Bytes → Bytes
without_last s = take (length s - 1) s

-- `AuthServerConfig::default_avatar_url`; its last two cases are the same.
unfoldable pub default_avatar_url : AssetsConfig → Bytes
default_avatar_url assets =
    if is_empty assets.public_base_url
    then assets.default_avatar_path
    else if ends_with_slash assets.public_base_url && starts_with_slash assets.default_avatar_path
    then without_last assets.public_base_url ++ assets.default_avatar_path
    else assets.public_base_url ++ assets.default_avatar_path

-- `join_public_url` of data_server/src/service/auth_service.cpp
unfoldable pub join_public_url : AssetsConfig → Bytes → Bytes
join_public_url assets relative_path =
    let base = assets.public_base_url in
    if is_empty base
    then relative_path
    else if starts_with_slash relative_path
    then (if ends_with_slash base
        then without_last base ++ relative_path
        else base ++ relative_path)
    else if not (ends_with_slash base)
    then base ++ (b'/' ∷ relative_path)
    else base ++ relative_path

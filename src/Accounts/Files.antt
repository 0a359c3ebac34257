-- ===== src/Accounts/Files.antt =====
-- `try_serve_static_file` of data_server/src/http/static_file.cpp. The paths of `std::filesystem`
-- are a parameter.
pub mod Below
use ccmeeting.Common.{
  Bool, true, false, ◌&&◌, ◌||◌, not, Option, none, some, List, [], ◌∷◌, ◌==◌, if◌then◌else◌, drop,
  Bytes, codes, bytes_eq,
}
use ccmeeting.Accounts.Model.{AssetsConfig}

-- Paths are their generic strings; `none` is an exception.
pub record FileSystem : Type 0 where
  pub executable_dir : Bytes
  pub is_relative : Bytes → Bool
  -- `operator/`
  pub join : Bytes → Bytes → Bytes
  pub lexically_normal : Bytes → Bytes
  pub weakly_canonical : Bytes → Option Bytes
  -- The parts that an iteration over a path gives.
  pub parts : Bytes → List Bytes
  pub extension : Bytes → Bytes
  -- The content of a regular file that exists and opens, if it is one; `exists` and `is_regular_file`
  -- may throw.
  pub read : Bytes → Option (Option Bytes)

-- `StaticFileResponse`, whose status is `ok`.
pub record StaticFile : Type 0 where
  pub content_type : Bytes
  pub cache_control : Bytes
  pub body : Bytes

-- `text.rfind(prefix, 0) == 0`
unfoldable pub starts_with : (prefix text : Bytes) → Bool
starts_with [] text = true
starts_with (c ∷ prefix) [] = false
starts_with (c ∷ prefix) (d ∷ text) = (c == d) && starts_with prefix text

unfoldable pub is_safe_relative : List Bytes → Bool
is_safe_relative [] = true
is_safe_relative (part ∷ parts) = not (bytes_eq part (codes "..")) && is_safe_relative parts

abbrev pub mime_type_of : Bytes → Bytes
mime_type_of ext =
    if bytes_eq ext (codes ".png")
    then codes "image/png"
    else if bytes_eq ext (codes ".jpg") || bytes_eq ext (codes ".jpeg")
    then codes "image/jpeg"
    else if bytes_eq ext (codes ".webp")
    then codes "image/webp"
    else if bytes_eq ext (codes ".gif")
    then codes "image/gif"
    else codes "application/octet-stream"

unfoldable pub cache_control_for_target : Bytes → Bytes
unfolding starts_with
cache_control_for_target target =
    if bytes_eq target (codes "/static/avatar/default.png")
    then codes "public, max-age=86400"
    else if starts_with (codes "/uploads/avatars/") target
    then codes "public, max-age=31536000, immutable"
    else if starts_with (codes "/static/") target
    then codes "public, max-age=86400"
    else codes "public, max-age=3600"

-- What a call that may throw and may find nothing comes to.
pub data Served : Type 0 where
  file : StaticFile → Served
  nothing threw : Served

module _ (fs : FileSystem) where
  unfoldable pub mime_type_for_path : Bytes → Bytes
  mime_type_for_path path = mime_type_of (fs.extension path)

  -- `resolve_root`
  unfoldable pub resolve_root : Bytes → Option Bytes
  resolve_root relative =
      fs.weakly_canonical
        (if fs.is_relative relative then fs.join fs.executable_dir relative else relative)

  unfoldable pub read_file_response : Bytes → Bytes → Served
  unfolding mime_type_for_path
  read_file_response file_path target = elim (fs.read file_path) [
    | none ↦ threw
    | some none ↦ nothing
    | some (some body) ↦ file (record {
      content_type = mime_type_for_path file_path;
      cache_control = cache_control_for_target target;
      body = body;
    })
  ]

  abbrev pub or_threw : Option Bytes → (Bytes → Served) → Served
  or_threw none k = threw
  or_threw (some path) k = k path

  -- From the canonical paths on: the file must be below the root.
  unfoldable pub serve_canonical : (target canonical_root canonical_file : Bytes) → Served
  serve_canonical target canonical_root canonical_file =
      if starts_with canonical_root canonical_file
      then read_file_response canonical_file target
      else nothing

  -- Below one of the roots.
  unfoldable pub serve_below : (target root relative : Bytes) → Served
  unfolding serve_canonical
  serve_below target root relative = or_threw (resolve_root root) λ resolved.
      if is_safe_relative (fs.parts relative)
      then or_threw (fs.weakly_canonical resolved) (λ canonical_root.
        or_threw (fs.weakly_canonical (fs.join resolved relative))
          (λ canonical_file. serve_canonical target canonical_root canonical_file))
      else nothing

  unfoldable pub try_serve_static_file : Bytes → AssetsConfig → Served
  unfolding serve_below
  try_serve_static_file target assets =
      if starts_with (codes "/") target
      then (let normalized = fs.lexically_normal target in
          if starts_with (codes "/static/") normalized
          then serve_below normalized assets.static_root (drop 8 normalized)
          else if starts_with (codes "/uploads/") normalized
          then serve_below normalized assets.upload_root (drop 9 normalized)
          else nothing)
      else nothing

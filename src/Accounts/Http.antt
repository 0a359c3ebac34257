-- ===== src/Accounts/Http.antt =====
-- `HttpSession` of data_server/src/http/http_session.cpp. A request is answered by one response, or an
-- exception leaves the handler.
pub mod Login
use ccmeeting.Common.{
  Bool, ◌||◌, Option, none, some, [], ◌==◌, if◌then◌else◌, Bytes, codes, bytes_eq,
}
use ccmeeting.Accounts.Model.{AssetsConfig, LoginResult, AvatarUploadResult, ProfileUpdateResult}
use ccmeeting.Accounts.Sqlite.{Sqlite}
use ccmeeting.Accounts.Service.{
  Platform, refused, avatar_refused, profile_refused, login, register_user, upload_avatar,
  update_profile,
}
use ccmeeting.Accounts.Json.{
  Json, Value, login_response, avatar_response, profile_response, parse_login_request,
  parse_upload_avatar_request, parse_update_profile_request,
}
use ccmeeting.Accounts.Files.{FileSystem, StaticFile, Served, try_serve_static_file}
use ccmeeting.Accounts.Files

pub data Method : Type 0 where
  options get post other : Method

-- A request, with what else the handler asks for: the address of the peer (`none` throws, which is
-- caught), the header `User-Agent`, and what `RAND_bytes` gives.
pub record Request : Type 0 where
  pub method : Method
  pub target : Bytes
  pub body : Bytes
  pub keep_alive : Bool
  pub remote_address : Option Bytes
  pub user_agent : Option Bytes
  pub random : Option Bytes

pub data Status : Type 0 where
  status_ok no_content bad_request unauthorized forbidden not_found : Status
  conflict payload_too_large internal_server_error : Status

-- A response; `cache_control` is set on files only.
pub record Response : Type 0 where
  pub status : Status
  pub content_type : Bytes
  pub cache_control : Option Bytes
  pub keep_alive : Bool
  pub body : Bytes

-- `send_binary_response`
abbrev pub file_response : Bool → StaticFile → Response
file_response keep_alive f = record {
  status = status_ok;
  content_type = f.content_type;
  cache_control = some f.cache_control;
  keep_alive = keep_alive;
  body = f.body;
}

unfoldable pub make_json_response : Status → Bytes → Bool → Response
make_json_response status body keep_alive = record {
  status = status;
  content_type = codes "application/json; charset=utf-8";
  cache_control = none;
  keep_alive = keep_alive;
  body = body;
}

-- The status of each result, by handler.
unfoldable pub login_status : LoginResult → Status
login_status r =
    if r.success
    then status_ok
    else if r.code == 400
    then bad_request
    else if r.code == 403
    then forbidden
    else if r.code == 500
    then internal_server_error
    else unauthorized

unfoldable pub register_status : LoginResult → Status
register_status r =
    if r.success
    then status_ok
    else if r.code == 409
    then conflict
    else if r.code == 500
    then internal_server_error
    else bad_request

unfoldable pub avatar_status : AvatarUploadResult → Status
avatar_status r =
    if r.success
    then status_ok
    else if r.code == 404
    then not_found
    else if r.code == 413
    then payload_too_large
    else if r.code == 500
    then internal_server_error
    else bad_request

unfoldable pub profile_status : ProfileUpdateResult → Status
profile_status r =
    if r.success
    then status_ok
    else if r.code == 404
    then not_found
    else if r.code == 500
    then internal_server_error
    else bad_request

abbrev invalid_body : Bytes
invalid_body = codes "invalid json body"

abbrev pub or_default : Bytes → Option Bytes → Bytes
or_default d none = d
or_default d (some s) = s

-- The response, or `none` for an exception, and the database behind the request.
abbrev pub Answer : Type 0 → Type 0
Answer Db = Option Response × Db

module _ (j : Json) (fs : FileSystem) (platform : Platform) (sql : Sqlite) where
  -- `dump` may throw.
  unfoldable pub answer : Request → Status → Value → Option Response
  answer req status value = elim (j.dump value) [
    | none ↦ none
    | some body ↦ some (make_json_response status body req.keep_alive)
  ]

  abbrev pub answer_login : Request → LoginResult × sql.Db → Answer sql.Db
  answer_login req (r, db) = (answer req (login_status r) (login_response r), db)

  unfoldable pub handle_login : Request → sql.Db → Answer sql.Db
  handle_login req db = elim (parse_login_request j req.body) [
    | none ↦ (answer req bad_request (login_response (refused 400 invalid_body)), db)
    | some c ↦ answer_login req (
        login platform sql c.username c.password (or_default (codes "unknown") req.remote_address)
          (or_default [] req.user_agent) db)
  ]

  abbrev pub answer_register : Request → LoginResult × sql.Db → Answer sql.Db
  answer_register req (r, db) = (answer req (register_status r) (login_response r), db)

  unfoldable pub handle_register : AssetsConfig → Request → sql.Db → Answer sql.Db
  handle_register assets req db = elim (parse_login_request j req.body) [
    | none ↦ (answer req bad_request (login_response (refused 400 invalid_body)), db)
    | some c ↦ answer_register req (register_user platform sql assets c.username c.password db)
  ]

  abbrev pub answer_avatar : Request → AvatarUploadResult × sql.Db → Answer sql.Db
  answer_avatar req (r, db) = (answer req (avatar_status r) (avatar_response r), db)

  unfoldable pub handle_upload_avatar : AssetsConfig → Request → sql.Db → Answer sql.Db
  handle_upload_avatar assets req db = elim (parse_upload_avatar_request j req.body) [
    | none ↦ (answer req bad_request (avatar_response (avatar_refused 400 invalid_body)), db)
    | some a ↦
        answer_avatar req
          (upload_avatar platform sql assets req.random a.user_id a.mime a.data_base64 db)
  ]

  abbrev pub answer_profile : Request → ProfileUpdateResult × sql.Db → Answer sql.Db
  answer_profile req (r, db) = (answer req (profile_status r) (profile_response r), db)

  unfoldable pub handle_update_profile : Request → sql.Db → Answer sql.Db
  handle_update_profile req db = elim (parse_update_profile_request j req.body) [
    | none ↦ (answer req bad_request (profile_response (profile_refused 400 invalid_body)), db)
    | some p ↦ answer_profile req (update_profile platform sql p.user_id p.profile db)
  ]

  unfoldable pub answer_not_found : Request → Option Response
  answer_not_found req = answer req not_found (login_response (refused 404 (codes "not found")))

  abbrev pub answer_file : Request → Served → Option Response
  answer_file req (Files.file f) = some (file_response req.keep_alive f)
  answer_file req Files.nothing = answer_not_found req
  answer_file req Files.threw = none

  unfoldable pub handle_get : AssetsConfig → Request → Option Response
  handle_get assets req =
      if bytes_eq req.target (codes "/health") || bytes_eq req.target (codes "/api/health")
      then some
          (make_json_response status_ok (codes "{\"code\":0,\"message\":\"ok\"}") req.keep_alive)
      else answer_file req (try_serve_static_file fs req.target assets)

  unfoldable pub handle_post : AssetsConfig → Request → sql.Db → Answer sql.Db
  handle_post assets req db =
      if bytes_eq req.target (codes "/api/login")
      then handle_login req db
      else if bytes_eq req.target (codes "/api/register")
      then handle_register assets req db
      else if bytes_eq req.target (codes "/api/upload-avatar")
      then handle_upload_avatar assets req db
      else if bytes_eq req.target (codes "/api/update-profile")
      then handle_update_profile req db
      else (answer_not_found req, db)

  -- `handle_request`
  unfoldable pub handle_request : AssetsConfig → Request → sql.Db → Answer sql.Db
  handle_request assets req db = elim req.method [
    | options ↦ (some (make_json_response no_content [] req.keep_alive), db)
    | get ↦ (handle_get assets req, db)
    | post ↦ handle_post assets req db
    | other ↦ (answer_not_found req, db)
  ]

-- ===== src/Tests/Accounts.antt =====
-- The accounts' server.
use ccmeeting.Common.{
  ◌≡◌, refl, ◌↔◌, ◌⊎◌, true, false, none, some, [], ◌∷◌, ◌++◌, codes, bytes_eq, c_string,
}
use ccmeeting.Accounts.Model.{Profile, AssetsConfig, no_profile}
use ccmeeting.Accounts.Sqlite.{UserRow}
use ccmeeting.Accounts.Repository
use ccmeeting.Accounts.Repository.{create_user, user_exists}
use ccmeeting.Accounts.Repository.Atomic.{create_user-Undone}
use ccmeeting.Accounts.Service
use ccmeeting.Accounts.Service.{Platform, written, login, register_user, update_profile}
use ccmeeting.Accounts.Service.Login.{Accepts, login-Accepts}
use ccmeeting.Accounts.Service.Registration.{login-register_user}
use ccmeeting.Accounts.Service.Limits.{IsAcceptable, update_profile-IsAcceptable}
use ccmeeting.Accounts.Json.{Json, Credentials, parse_login_request}
use ccmeeting.Accounts.Http.{Request, Response, handle_request}
use ccmeeting.Accounts.Http
use ccmeeting.Accounts.Http.Login.{Admits, is_ok, handle_request-Admits}
use ccmeeting.Accounts.Files.{FileSystem, StaticFile, try_serve_static_file, starts_with}
use ccmeeting.Accounts.Files
use ccmeeting.Accounts.Files.Below.{IsBelow, try_serve_static_file-IsBelow}
use ccmeeting.Tests.Memory.{Users, memory, memory-IsSqlite}

abbrev plain : Platform
plain = record {
  sha256 = λ b. b;
  base64_decode = some;
  save = λ directory file_name content. written;
}

abbrev bob : UserRow
bob = record {
  user_id = 1;
  username = some (codes "bob");
  password_hash = some (codes "7077");
  status = 1;
}

abbrev users : Users
users = record { present = bob ∷ []; saved = [] }

abbrev assets : AssetsConfig
assets = record {
  public_base_url = codes "http://host/";
  static_root = codes "/srv/static";
  upload_root = codes "/srv/uploads";
  default_avatar_path = codes "/static/avatar/default.png";
  max_avatar_bytes = 100;
}

login-Accepts_example :
    ((login plain (memory true) (codes "bob") (codes "pw") [] [] users).0.code ≡ 0)
    ↔ Accepts plain (memory true) (codes "bob") (codes "pw") users
login-Accepts_example = login-Accepts plain (memory true) (codes "bob") (codes "pw") [] [] users

-- `COMMIT` fails, and both rows are taken back.
create_ann :
    create_user (memory false) (codes "ann") (codes "00") [] users
    ≡ some (none, record { present = bob ∷ []; saved = bob ∷ [] })
unfolding create_user c_string bytes_eq Repository.find_credential_by_username
create_ann = refl

create_user-Undone_example :
    (memory-IsSqlite false).tables (record { present = bob ∷ []; saved = bob ∷ [] })
    ≡ (memory-IsSqlite false).tables users
create_user-Undone_example =
    create_user-Undone (memory false) (memory-IsSqlite false) (codes "ann") (codes "00") [] users
      (record { present = bob ∷ []; saved = bob ∷ [] }) create_ann

register_ann :
    (register_user plain (memory true) assets (codes "ann") (codes "pw") users).0.success ≡ true
unfolding register_user c_string bytes_eq Repository.find_credential_by_username Service.registered
    create_user Repository.load_user_info
register_ann = refl

login-register_user_example :
    (login plain
      (memory true)
      (codes "ann")
      (codes "pw")
      (codes "::1")
      []
      (register_user plain (memory true) assets (codes "ann") (codes "pw") users).1).0.success
    ≡ true
login-register_user_example =
    login-register_user plain (memory true) (memory-IsSqlite true) assets (codes "ann") (codes "pw")
      (codes "::1") [] users register_ann

abbrev bobs_profile : Profile
bobs_profile = record no_profile { nickname = codes "Bob"; birthday = codes "2000-01-02" }

update_profile-IsAcceptable_example :
    ((update_profile plain (memory true) 1 bobs_profile users).0.success ≡ true) ↔ (
      IsAcceptable 1 bobs_profile
      × (user_exists (memory true) 1 users ≡ true)
      × ((Repository.update_profile (memory true) 1 bobs_profile users).0 ≡ true))
update_profile-IsAcceptable_example =
    update_profile-IsAcceptable plain (memory true) 1 bobs_profile users

abbrev flat_files : FileSystem
flat_files = record {
  executable_dir = codes "/srv";
  is_relative = λ p. false;
  join = λ a b. a ++ (b'/' ∷ b);
  lexically_normal = λ p. p;
  weakly_canonical = some;
  parts = λ p. p ∷ [];
  extension = λ p. codes ".png";
  read = λ p. some (some (codes "image"));
}

abbrev image : StaticFile
image = record {
  content_type = codes "image/png";
  cache_control = codes "public, max-age=86400";
  body = codes "image";
}

serve_image : try_serve_static_file flat_files (codes "/static/a.png") assets ≡ Files.file image
unfolding try_serve_static_file bytes_eq Files.starts_with Files.resolve_root Files.is_safe_relative
    Files.read_file_response Files.cache_control_for_target
serve_image = refl

try_serve_static_file-IsBelow_example :
    IsBelow flat_files (codes "/srv/static") image ⊎ IsBelow flat_files (codes "/srv/uploads") image
try_serve_static_file-IsBelow_example =
    try_serve_static_file-IsBelow flat_files (codes "/static/a.png") assets image serve_image

-- Every body holds the text `bob` under every key.
abbrev one_json : Json
one_json = record {
  Doc = Unit {0};
  parse = λ b. some tt;
  is_object = λ d. true;
  contains = λ d k. true;
  string_at = λ d k. some (codes "bob");
  integer_at = λ d k. some 1;
  dump = λ v. some (codes "{}");
}

abbrev login_request : Request
login_request = record {
  method = Http.post;
  target = codes "/api/login";
  body = codes "{}";
  keep_alive = true;
  remote_address = none;
  user_agent = none;
  random = none;
}

abbrev bob_bob : Credentials
bob_bob = record { username = codes "bob"; password = codes "bob" }

parse-login_request : parse_login_request one_json (codes "{}") ≡ some bob_bob
unfolding parse_login_request
parse-login_request = refl

handle_request-Admits_example :
    (r : Response) × ((handle_request one_json flat_files plain
        (memory true)
        assets
        login_request
        users).0
      ≡ some r)
    × (r.body ≡ codes "{}")
    × (r.keep_alive ≡ true)
    × ((is_ok r.status ≡ true) ↔ Admits plain (memory true) (codes "bob") (codes "bob") users)
handle_request-Admits_example =
    handle_request-Admits one_json flat_files plain (memory true) login_request bob_bob users assets
      (codes "{}") refl refl parse-login_request refl

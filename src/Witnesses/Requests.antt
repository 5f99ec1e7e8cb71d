-- ===== src/Witnesses/Requests.antt =====
-- Examples for requests of the API.
use agenthub_server.Base.{
  Text, str, ◌==◌, ◌≡◌, refl, false, none, some, [], ◌∷◌, ◌++◌, find, has, update,
}
use agenthub_server.Base.Int.{pos}
use agenthub_server.Schema.{Status, DeviceRow, AgentSessionRow, BlobRow, Database}
use agenthub_server.Strings.{strip_prefix, trim, trim_space}
use agenthub_server.World.{World, world_of, query_row, exec, exec_update, ok}
use agenthub_server.Auth.ApiTokens.{touch_api_token, lookup_api_token, live_api_token}
use agenthub_server.Auth.Middleware.{Identity, token_identity, require_auth_or_token, serve}
use agenthub_server.Blobs.{blob_of, get_blob_by_id}
use agenthub_server.Blobs.Store.{FileBlobOptions, Disk, get_file, file_blob}
use agenthub_server.Api.{with_auth_or_token, write_json, write_header}
use agenthub_server.Api.Devices.{device_routes, delete}
use agenthub_server.Api.Devices.Isolation.{DevicesIsolated, device_routes_isolate}
use agenthub_server.Api.Sessions.{session_routes, end_at}
use agenthub_server.Api.Sessions.Isolation.{SessionsIsolated, session_routes_isolate}
use agenthub_server.Api.Tokens.{revoke_token_route}
use agenthub_server.Api.Tokens.Revoke.{revoke_token_crosses}
use agenthub_server.Api.Blobs.{Download, upload_route, download_blob_handler, download_route}
use agenthub_server.Api.Blobs.Access.{IsEntitled, download_sound, download-upload}
use agenthub_server.Witnesses.Fixtures.{env, signer, api_token, db, start}

-- A device, and a session on it, of an account
abbrev device_in : Text → Text → DeviceRow
device_in account_id id = record {
  id = id;
  account_id = account_id;
  user_id = str "u";
  name = str "laptop";
  platform = str "linux";
  app_version = str "1";
  tailscale_node_id = none;
  last_seen_at = none;
  created_at = 20;
  deleted_at = none;
}

abbrev session_on : Text → Text → Text → AgentSessionRow
session_on account_id device_id id = record {
  id = id;
  account_id = account_id;
  device_id = device_id;
  label = [];
  status = Status.running;
  cwd = [];
  started_at = 30;
  ended_at = none;
  last_activity_at = 30;
}

abbrev notes : BlobRow
notes = record {
  id = str "n";
  account_id = str "a";
  key = str "n";
  content_type = str "text/plain";
  size_bytes = pos 5;
  sha256 = [];
  created_by_user_id = str "u";
  created_at = 40;
}

-- Two accounts with a device and a session each; the token is bound to the first device.
abbrev shared_db : Database
shared_db = record db {
  devices = device_in (str "a") (str "d") ∷ device_in (str "b") (str "e") ∷ [];
  agent_sessions =
      session_on (str "a") (str "d") (str "s") ∷ session_on (str "b") (str "e") (str "r") ∷ [];
  api_tokens = record api_token { device_id = some (str "d") } ∷ [];
  blobs = notes ∷ [];
}

abbrev shared : World
shared = record start { db = shared_db }

-- The header of the token, and whom it lets in
abbrev header : Text
header = str "Token ahs_raw"

abbrev caller : Identity
caller = record {
  user_id = str "u";
  account_id = str "a";
  session_id = str "api-token:k";
  device_id = str "d";
  is_operator = false;
}

abbrev admitted : World
admitted = world_of (require_auth_or_token env signer header shared)

admits : require_auth_or_token env signer header shared ≡ ok (serve caller) admitted
unfolding require_auth_or_token token_identity lookup_api_token touch_api_token query_row
    exec_update exec strip_prefix trim trim_space find update ◌==◌
admits = refl

device_routes_isolate_example :
    DevicesIsolated shared
      (require_auth_or_token env signer header shared)
      (device_routes env signer header (delete (str "d")) shared)
device_routes_isolate_example = device_routes_isolate env signer header (delete (str "d")) shared

session_routes_isolate_example :
    SessionsIsolated shared
      (require_auth_or_token env signer header shared)
      (session_routes env signer header (end_at (str "s")) shared)
session_routes_isolate_example = session_routes_isolate env signer header (end_at (str "s")) shared

revoke_token_crosses_example :
    ((revoke_token_route env signer header (str "other") shared).reply ≡ write_header 204)
    × (has
          (live_api_token (str "other"))
          (revoke_token_route env signer header (str "other") shared).world.db.api_tokens
        ≡ false)
unfolding require_auth_or_token token_identity lookup_api_token touch_api_token query_row
    exec_update exec strip_prefix trim trim_space find update ◌==◌
revoke_token_crosses_example =
    revoke_token_crosses env signer header (str "other") caller shared admitted admits refl refl

-- A store with the bytes of the object, under joined paths
abbrev slash : Text → Text → Text
slash base key = base ++ (b'/' ∷ key)

abbrev blob_options : FileBlobOptions
blob_options = record { base_path = str "/blobs"; base_url = str "https://x/api/blobs" }

abbrev disk : Disk
disk = record {
  files = record { path = str "/blobs/n"; content = str "hello" } ∷ [];
  refuses = λ path. false;
  hides = λ path. false;
  stops_at = λ path. none;
  locks = λ path. false;
  reads_to = λ path. none;
}

abbrev hello : Download
hello = record { content_type = some (str "text/plain"); content = str "hello" }

downloads :
    (download_route (file_blob slash blob_options) env signer header (str "n") shared disk).reply
    ≡ write_json 200 hello
unfolding download_route with_auth_or_token download_blob_handler get_blob_by_id file_blob get_file
    require_auth_or_token token_identity lookup_api_token touch_api_token query_row exec_update exec
    strip_prefix trim trim_space find update ◌==◌
downloads = refl

download_sound_example :
    IsEntitled
      (file_blob slash blob_options)
      (str "n")
      disk
      shared
      (require_auth_or_token env signer header shared)
      hello
download_sound_example =
    download_sound (file_blob slash blob_options) env signer header (str "n") shared disk downloads

-- A token of another account
abbrev foreign : World
foreign = record start {
  db = record shared_db { api_tokens = record api_token { account_id = str "b" } ∷ [] };
}

abbrev stranger : Identity
stranger = record caller { account_id = str "b"; device_id = [] }

abbrev stranger_in : World
stranger_in = world_of (require_auth_or_token env signer header foreign)

admits_stranger : require_auth_or_token env signer header foreign ≡ ok (serve stranger) stranger_in
unfolding require_auth_or_token token_identity lookup_api_token touch_api_token query_row
    exec_update exec strip_prefix trim trim_space find update ◌==◌
admits_stranger = refl

row_of_a : find (blob_of (str "a") (str "n")) shared_db.blobs ≡ some notes
unfolding find ◌==◌
row_of_a = refl

download-upload_example :
    ((upload_route
        (file_blob slash blob_options)
        env
        signer
        header
        (str "n")
        (str "bye")
        foreign
        disk).served.reply
      ≡ write_header 204)
    × ((download_blob_handler
          (file_blob slash blob_options)
          (str "n")
          (upload_route
            (file_blob slash blob_options)
            env
            signer
            header
            (str "n")
            (str "bye")
            foreign
            disk).store
          caller
          shared).reply
        ≡ write_json 200 (record { content_type = some (str "text/plain"); content = str "bye" }))
download-upload_example =
    download-upload slash blob_options env signer header (str "n") (str "bye") stranger caller
      foreign stranger_in shared disk notes admits_stranger refl refl refl refl row_of_a refl

-- ===== src/Headscale.antt =====
-- internal/headscale: bridge.go, service.go and client.go, which mint the keys that a claim hands out.
pub mod Links
pub mod Config
pub mod Supervisor
use agenthub_server.Base.{
  Text, str, ◌==◌, is_empty, ℕ, ◌+◌, Bool, not, ◌&&◌, ◌||◌, Option, none, some, List, ◌++◌, eqb,
  find, if◌then◌else◌,
}
use agenthub_server.Schema.{LinkRow}
use agenthub_server.Schema.Inserts.{insert_link}
use agenthub_server.World.{
  World, M, pure, ◌>>=◌, ◌>>◌, found_or, remote, require, seconds_now, query_row, exec, bad_input,
  ok,
}
use agenthub_server.Devices.{PreAuthKeyInput, PreAuthKey}

-- A row of headscale_user_links
pub record Link : Type 0 where
  pub account_id : Text
  pub user_id : Text
  pub headscale_user_id : ℕ
  pub headscale_user_name : Text

abbrev pub link_row : Link → World → LinkRow
link_row l w = record {
  account_id = l.account_id;
  user_id = l.user_id;
  headscale_user_id = l.headscale_user_id;
  headscale_user_name = l.headscale_user_name;
  created_at = seconds_now w;
}

unfoldable pub create_link : Link → M (Unit {0})
unfolding exec
create_link l = do
  require
      (not (
        is_empty l.account_id
        || is_empty l.user_id
        || eqb l.headscale_user_id 0
        || is_empty l.headscale_user_name))
      bad_input
  exec (λ w. insert_link w.db (link_row l w))

-- WHERE account_id = ? AND user_id = ?
abbrev pub link_of : Text → Text → LinkRow → Bool
link_of account_id user_id r = r.account_id == account_id && r.user_id == user_id

abbrev pub scan_link : LinkRow → Link
scan_link r = record {
  account_id = r.account_id;
  user_id = r.user_id;
  headscale_user_id = r.headscale_user_id;
  headscale_user_name = r.headscale_user_name;
}

abbrev pub scanned_link : Option LinkRow → Option Link
scanned_link none = none
scanned_link (some r) = some (scan_link r)

unfoldable pub get_link : Text → Text → M Link
unfolding query_row
get_link account_id user_id =
    query_row (λ w. scanned_link (find (link_of account_id user_id) w.db.headscale_user_links))

-- v1.User
pub record HeadscaleUser : Type 0 where
  pub id : ℕ
  pub name : Text

-- The calls of the generated gRPC client that the package makes, at a time: ListUsers of a name,
-- CreateUser and CreatePreAuthKey of a user, with the time of expiry. `none` is an error.
pub record Rpc : Type 0 where
  pub list_users : ℕ → Text → Option (List HeadscaleUser)
  pub create_user : ℕ → Text → Option HeadscaleUser
  pub create_pre_auth_key : ℕ → ℕ → ℕ → Option Text

abbrev pub named : Text → HeadscaleUser → Bool
named name u = u.name == name

-- FindUserByName: the first user of the name, if there is one
unfoldable pub find_user_by_name : Rpc → Text → M (Option HeadscaleUser)
find_user_by_name rpc name = do
  users ← λ w. remote (rpc.list_users w.now name) w
  pure (find (named name) users)

unfoldable pub create_user : Rpc → Text → M HeadscaleUser
create_user rpc name w = remote (rpc.create_user w.now name) w

-- CreatePreAuthKey, whose key expires at time.Now().Add(ttl)
unfoldable pub create_pre_auth_key : Rpc → ℕ → ℕ → M Text
create_pre_auth_key rpc user_id ttl w =
    remote (rpc.create_pre_auth_key w.now user_id (w.now + ttl)) w

-- Service; the database is the world's.
pub record Service : Type 0 where
  pub client : Rpc
  pub server_url : Text
  pub user_prefix : Text
  pub derp_map_json : Text

-- if found != nil
abbrev pub or_create : Rpc → Text → Option HeadscaleUser → M HeadscaleUser
or_create rpc name none = create_user rpc name
or_create rpc name (some u) = pure u

abbrev pub new_link : Text → Text → HeadscaleUser → Link
new_link account_id user_id u = record {
  account_id = account_id;
  user_id = user_id;
  headscale_user_id = u.id;
  headscale_user_name = u.name;
}

-- ensureLink where there is no link yet
unfoldable pub add_link : Service → Text → Text → M Link
add_link s account_id user_id = do
  existing ← find_user_by_name s.client (s.user_prefix ++ user_id)
  user ← or_create s.client (s.user_prefix ++ user_id) existing
  create_link (new_link account_id user_id user)
  pure (new_link account_id user_id user)

unfoldable pub ensure_link : Service → Text → Text → M Link
ensure_link s account_id user_id =
    found_or (get_link account_id user_id) pure (add_link s account_id user_id)

abbrev pub or_stub_map : Text → Text
or_stub_map json = if is_empty json then str "{\"Regions\":{}}" else json

abbrev pub minted : Service → PreAuthKeyInput → Text → M PreAuthKey
minted s i key w =
    ok
      (record {
        key = key;
        control_url = s.server_url;
        derp_map_json = or_stub_map s.derp_map_json;
        expires_at = w.now + i.ttl;
      })
      w

unfoldable pub mint_pre_auth_key : Service → PreAuthKeyInput → M PreAuthKey
mint_pre_auth_key s i = do
  link ← ensure_link s i.account_id i.user_id
  key ← create_pre_auth_key s.client link.headscale_user_id i.ttl
  minted s i key

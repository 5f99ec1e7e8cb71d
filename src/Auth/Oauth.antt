-- ===== src/Auth/Oauth.antt =====
-- internal/auth/oauth_service.go: the login that an OAuth provider vouches for.
pub mod Upsert
pub mod Again
pub mod Login
use agenthub_server.Base.{
  Text, str, ◌==◌, is_empty, ℕ, Bool, true, false, not, ◌&&◌, ◌||◌, Option, none, some, List, [],
  ◌∷◌, ltb, find, has, if◌then◌else◌,
}
use agenthub_server.Schema.{
  Provider, provider_eq, UserRow, AccountRow, MembershipRow, OauthIdentityRow, google, github,
}
use agenthub_server.Schema.Inserts.{
  insert_user, insert_account, insert_membership, insert_oauth_identity,
}
use agenthub_server.Strings.{to_lower}
use agenthub_server.Tenancy.{User, get_user_by_email, is_operator, membership_row, first_account}
use agenthub_server.World.{
  World, Env, M, pure, ◌>>=◌, ◌>>◌, found_or, remote, require, second, seconds_now, query_row, exec,
  new_id, in_tx, bad_input, remote_failed,
}
use agenthub_server.Auth.Sessions.{SessionInput, create_session}
use agenthub_server.Auth.Jwt.{sign}
use agenthub_server.Auth.Slug.{slugify}
use agenthub_server.Auth.Service.{Config, owner_membership, session_claims}

-- A value of the decoded reply: a string, a number with the text that fmt.Sprintf("%d", int64(v))
-- gives of it, or anything else.
pub data Json : Type 0 where
  text number : Text → Json
  other : Json

-- map[string]any
abbrev pub JsonObject : Type 0
JsonObject = Text → Option Json

-- What http.Client.Do returns without an error: the status, and what json.Decode makes of the body.
pub record Response : Type 0 where
  pub status : ℕ
  pub body : Option JsonObject

-- OAuthServiceConfig. `exchange` is oauth2.Config.Exchange of a code, and `get` the GET of a URL
-- with a bearer token; both are calls of another server, made at a time, and `none` is their error.
pub record OauthServiceConfig : Type 0 where
  pub provider : Provider
  pub user_info_url : Text
  pub exchange : ℕ → Text → Option Text
  pub get : ℕ → Text → Text → Option Response

pub record FinishLoginInput : Type 0 where
  pub code : Text
  pub user_agent : Text
  pub ip : Text

pub record FinishLoginOutput : Type 0 where
  pub token : Text
  pub session_id : Text
  pub user_id : Text
  pub account_id : Text
  pub email : Text
  pub created : Bool

pub record UserInfo : Type 0 where
  pub provider_user_id : Text
  pub email : Text
  pub name : Text

-- s, _ := v.(string)
abbrev pub as_string : Option Json → Text
as_string (some (text s)) = s
as_string _ = []

-- switch v := raw["id"].(type)
abbrev pub id_text : Option Json → Text
id_text (some (text s)) = s
id_text (some (number s)) = s
id_text _ = []

unfoldable pub parse_google_user_info : JsonObject → UserInfo
parse_google_user_info raw = record {
  provider_user_id = as_string (raw (str "sub"));
  email = as_string (raw (str "email"));
  name = as_string (raw (str "name"));
}

unfoldable pub parse_git_hub_user_info : JsonObject → UserInfo
parse_git_hub_user_info raw = record {
  provider_user_id = id_text (raw (str "id"));
  email = as_string (raw (str "email"));
  name = as_string (raw (str "name"));
}

-- switch o.cfg.Provider
abbrev pub parse_user_info : Provider → JsonObject → UserInfo
parse_user_info google raw = parse_google_user_info raw
parse_user_info github raw = parse_git_hub_user_info raw

unfoldable pub fetch_user_info : OauthServiceConfig → Text → M UserInfo
fetch_user_info cfg access_token = do
  response ← λ w. remote (cfg.get w.now cfg.user_info_url access_token) w
  require (ltb response.status 400) remote_failed
  raw ← remote response.body
  pure (parse_user_info cfg.provider raw)

pub record Upserted : Type 0 where
  pub user_id : Text
  pub account_id : Text
  pub created : Bool

-- WHERE provider = ? AND provider_user_id = ?
abbrev pub identity_of : Provider → Text → OauthIdentityRow → Bool
identity_of p i r = provider_eq r.provider p && r.provider_user_id == i

abbrev pub user_of : Option OauthIdentityRow → Option Text
user_of none = none
user_of (some r) = some r.user_id

abbrev pub identity_row : Env → Text → Text → Provider → UserInfo → World → OauthIdentityRow
identity_row env i user_id p ui w = record {
  id = i;
  user_id = user_id;
  provider = p;
  provider_user_id = ui.provider_user_id;
  email = to_lower env ui.email;
  created_at = seconds_now w;
}

unfoldable pub add_identity : Env → Text → Text → Provider → UserInfo → M (Unit {0})
unfolding exec
add_identity env i user_id p ui =
    exec (λ w. insert_oauth_identity w.db (identity_row env i user_id p ui w))

-- The user whom the identity names, in the first of the user's accounts.
unfoldable pub existing_identity : Text → M Upserted
existing_identity user_id = do
  account_id ← first_account user_id
  pure (record { user_id = user_id; account_id = account_id; created = false })

-- The identity is linked to the user of the same e-mail.
unfoldable pub link_identity : Env → Provider → UserInfo → User → M Upserted
unfolding new_id
link_identity env p ui u = do
  identity_id ← new_id env
  add_identity env identity_id u.id p ui
  account_id ← first_account u.id
  pure (record { user_id = u.id; account_id = account_id; created = false })

-- firstNonEmpty
unfoldable pub first_non_empty : List Text → Text
first_non_empty [] = []
first_non_empty (s ∷ ss) = if is_empty s then first_non_empty ss else s

abbrev pub oauth_user_row : Env → Text → UserInfo → World → UserRow
oauth_user_row env user_id ui w = record {
  id = user_id;
  email = to_lower env ui.email;
  password_hash = none;
  email_verified_at = some (seconds_now w);
  name = ui.name;
  avatar_url = [];
  created_at = seconds_now w;
  deleted_at = none;
  is_operator = 0;
}

abbrev pub oauth_account_row : Env → Text → UserInfo → World → AccountRow
oauth_account_row env account_id ui w = record {
  id = account_id;
  slug = slugify env ui.name account_id;
  name = first_non_empty (ui.name ∷ str "Personal" ∷ []);
  plan = str "self_hosted";
  created_at = seconds_now w;
  deleted_at = none;
}

abbrev pub owner_row : Text → Text → Text → World → MembershipRow
owner_row membership_id account_id user_id w =
    membership_row (owner_membership membership_id account_id user_id) w

-- The statements between BeginTx and Commit.
unfoldable pub create_identity_statements :
    Env → Provider → UserInfo → Text → Text → Text → Text → M (Unit {0})
unfolding exec
create_identity_statements env p ui user_id account_id membership_id identity_id = do
  exec (λ w. insert_user w.db (oauth_user_row env user_id ui w))
  exec (λ w. insert_account w.db (oauth_account_row env account_id ui w))
  exec (λ w. insert_membership w.db (owner_row membership_id account_id user_id w))
  add_identity env identity_id user_id p ui

-- A new user with an account of its own.
unfoldable pub create_identity : Env → Provider → UserInfo → M Upserted
unfolding new_id
create_identity env p ui = do
  user_id ← new_id env
  account_id ← new_id env
  membership_id ← new_id env
  identity_id ← new_id env
  in_tx (create_identity_statements env p ui user_id account_id membership_id identity_id)
  pure (record { user_id = user_id; account_id = account_id; created = true })

-- upsertIdentity from the second lookup on
unfoldable pub upsert_by_email : Env → Provider → UserInfo → M Upserted
upsert_by_email env p ui =
    found_or (get_user_by_email env ui.email) (link_identity env p ui) (create_identity env p ui)

unfoldable pub upsert_identity : Env → Provider → UserInfo → M Upserted
unfolding query_row
upsert_identity env p ui =
    found_or
      (query_row (λ w. user_of (find (identity_of p ui.provider_user_id) w.db.oauth_identities)))
      existing_identity (upsert_by_email env p ui)

abbrev pub oauth_session : Config → FinishLoginInput → Text → Upserted → SessionInput
oauth_session cfg i session_id u = record {
  id = session_id;
  user_id = u.user_id;
  account_id = u.account_id;
  user_agent = i.user_agent;
  ip = i.ip;
  ttl = cfg.session_ttl;
}

-- FinishLogin once the provider has said who it is
unfoldable pub finish_session :
    Env → Config → FinishLoginInput → UserInfo → Upserted → M FinishLoginOutput
unfolding new_id
finish_session env cfg i ui u = do
  session_id ← new_id env
  session ← create_session (oauth_session cfg i session_id u)
  token ← sign env cfg.signer (session_claims cfg session_id u.user_id u.account_id)
  pure (record {
    token = token;
    session_id = session_id;
    user_id = u.user_id;
    account_id = u.account_id;
    email = ui.email;
    created = u.created;
  })

-- FinishLogin up to the userinfo that it goes on with
unfoldable pub vouched : OauthServiceConfig → Text → M UserInfo
vouched cfg code = do
  access_token ← λ w. remote (cfg.exchange w.now code) w
  ui ← fetch_user_info cfg access_token
  require (not (is_empty ui.email || is_empty ui.provider_user_id)) bad_input
  pure ui

unfoldable pub finish_login :
    Env → Config → OauthServiceConfig → FinishLoginInput → M FinishLoginOutput
finish_login env cfg o i = do
  ui ← vouched o i.code
  u ← upsert_identity env o.provider ui
  finish_session env cfg i ui u

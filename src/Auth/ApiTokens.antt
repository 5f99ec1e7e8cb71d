-- ===== src/Auth/ApiTokens.antt =====
-- internal/auth/apitokens.go: long-lived ahs_ tokens.
pub mod RoundTrip
pub mod Revocation
use agenthub_server.Base.{
  Text, str, ◌==◌, is_empty, ℕ, ◌/◌, ◌*◌, Bool, true, false, ◌&&◌, ◌||◌, not, Option, none, some,
  List, [], ◌∷◌, ◌++◌, map, find, where_rows, order_desc, update, if◌then◌else◌,
}
use agenthub_server.Schema.{Database, ApiTokenRow}
use agenthub_server.Schema.Inserts.{insert_api_token}
use agenthub_server.Tenancy.{is_null, null_if_empty, coalesce}
use agenthub_server.World.{
  Env, M, World, Outcome, ok, err, Err, no_rows, bad_input, token_not_found, token_expired, pure,
  fail, on_err, require, ◌>>=◌, ◌>>◌, query, query_row, exec, exec_update, seconds_now, is_after,
  second,
}
use agenthub_server.Auth.Hash.{sha256_hex, random_token}
use agenthub_server.Auth.Tokens.{no_rows_is_not_found, require_fresh}

abbrev pub api_token_prefix : Text
api_token_prefix = str "ahs_"

-- `expires_at` is a time in nanoseconds, or nil.
pub record ApiTokenInput : Type 0 where
  pub id : Text
  pub account_id : Text
  pub user_id : Text
  pub device_id : Text
  pub name : Text
  pub scope : List Text
  pub expires_at : Option ℕ

-- Times in nanoseconds; `none` is the zero time.
pub record ApiToken : Type 0 where
  pub id : Text
  pub account_id : Text
  pub user_id : Text
  pub device_id : Text
  pub name : Text
  pub created_at : Option ℕ
  pub last_used_at : Option ℕ
  pub expires_at : Option ℕ

-- The text that the raw token is: GenerateAPITokenRaw.
unfoldable pub generate_api_token_raw : Env → M Text
unfolding random_token
generate_api_token_raw env = do token ← random_token env; pure (api_token_prefix ++ token)

-- HashAPIToken
abbrev pub hash_api_token : Env → Text → Text
hash_api_token env raw = sha256_hex env raw

-- strings.Join(parts, ",")
unfoldable pub join_comma : List Text → Text
join_comma [] = []
join_comma (part ∷ []) = part
join_comma (part ∷ next ∷ parts) = part ++ (str "," ++ join_comma (next ∷ parts))

unfoldable pub scope_json : Env → List Text → Text
unfolding join_comma
scope_json env [] = str "[]"
scope_json env (s ∷ scope) = str "[" ++ (join_comma (map env.quote (s ∷ scope)) ++ str "]")

-- Format("2006-01-02 15:04:05") of a time: its seconds.
abbrev pub to_seconds : Option ℕ → Option ℕ
to_seconds none = none
to_seconds (some t) = some (t / second)

-- time.Parse of a stored time, if there is one
abbrev pub from_seconds : Option ℕ → Option ℕ
from_seconds none = none
from_seconds (some t) = some (t * second)

abbrev pub api_token_row : Env → ApiTokenInput → Text → World → ApiTokenRow
api_token_row env i hash w = record {
  id = i.id;
  account_id = i.account_id;
  user_id = i.user_id;
  device_id = null_if_empty i.device_id;
  name = i.name;
  token_hash = hash;
  scope = scope_json env i.scope;
  last_used_at = none;
  created_at = seconds_now w;
  expires_at = to_seconds i.expires_at;
  revoked_at = none;
}

abbrev pub api_token_of : ApiTokenInput → ApiToken
api_token_of i = record {
  id = i.id;
  account_id = i.account_id;
  user_id = i.user_id;
  device_id = i.device_id;
  name = i.name;
  created_at = none;
  last_used_at = none;
  expires_at = i.expires_at;
}

unfoldable pub create_api_token : Env → ApiTokenInput → M (Text × ApiToken)
unfolding generate_api_token_raw exec
create_api_token env i = do
  require (not (is_empty i.id || is_empty i.account_id || is_empty i.user_id)) bad_input
  raw ← generate_api_token_raw env
  exec (λ w. insert_api_token w.db (api_token_row env i (hash_api_token env raw) w))
  pure (raw, api_token_of i)

abbrev pub api_token_with : Text → ApiTokenRow → Bool
api_token_with i r = r.id == i

abbrev pub hashed_as : Text → ApiTokenRow → Bool
hashed_as hash r = r.token_hash == hash

abbrev pub scan_api_token : ApiTokenRow → ApiToken
scan_api_token r = record {
  id = r.id;
  account_id = r.account_id;
  user_id = r.user_id;
  device_id = coalesce r.device_id;
  name = r.name;
  created_at = some (r.created_at * second);
  last_used_at = from_seconds r.last_used_at;
  expires_at = from_seconds r.expires_at;
}

-- if expiresAt != "" { ... time.Now().After(t) ... }
abbrev pub require_not_expired : Option ℕ → M (Unit {0})
require_not_expired none w = ok tt w
require_not_expired (some t) w = require_fresh t w

abbrev pub stamp_used : World → ApiTokenRow → ApiTokenRow
stamp_used w r = record r { last_used_at = some (seconds_now w) }

-- `_, _ = db.ExecContext(...)`: an error of the UPDATE is dropped.
abbrev pub ignore_err : Err → M (Unit {0})
ignore_err e w = ok tt w

unfoldable pub touch_api_token : Text → M (Unit {0})
unfolding exec_update
touch_api_token i =
    on_err
      (exec_update (λ w. record (w.db) {
        api_tokens = update (api_token_with i) (stamp_used w) w.db.api_tokens;
      }))
      ignore_err

unfoldable pub lookup_api_token : Env → Text → M ApiToken
unfolding query_row touch_api_token
lookup_api_token env raw = do
  row ←
      on_err (query_row (λ w. find (hashed_as (sha256_hex env raw)) w.db.api_tokens))
        no_rows_is_not_found
  require (is_null row.revoked_at) token_not_found
  require_not_expired row.expires_at
  touch_api_token row.id
  pure (scan_api_token row)

-- WHERE id = ? AND revoked_at IS NULL
abbrev pub live_api_token : Text → ApiTokenRow → Bool
live_api_token i r = r.id == i && is_null r.revoked_at

abbrev pub stamp_token_revoked : World → ApiTokenRow → ApiTokenRow
stamp_token_revoked w r = record r { revoked_at = some (seconds_now w) }

unfoldable pub revoke_api_token : Text → M (Unit {0})
unfolding exec_update
revoke_api_token i = exec_update (λ w. record (w.db) {
  api_tokens = update (live_api_token i) (stamp_token_revoked w) w.db.api_tokens;
})

-- WHERE account_id = ? AND user_id = ? AND revoked_at IS NULL
abbrev pub listed : Text → Text → ApiTokenRow → Bool
listed account_id user_id r =
    r.account_id == account_id && r.user_id == user_id && is_null r.revoked_at

unfoldable pub list_api_tokens : Text → Text → M (List ApiToken)
unfolding query
list_api_tokens account_id user_id = query (λ w.
    map scan_api_token
      (order_desc (λ r. r.created_at) (where_rows (listed account_id user_id) w.db.api_tokens)))

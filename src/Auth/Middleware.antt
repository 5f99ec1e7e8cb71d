-- ===== src/Auth/Middleware.antt =====
-- internal/auth/middleware.go and tokenauth_middleware.go: who a request is let in as.
pub mod Gates
use agenthub_server.Base.{
  Text, str, ◌==◌, is_empty, ℕ, Bool, true, false, Option, none, some, List, [], ◌∷◌, ◌++◌,
  if◌then◌else◌,
}
use agenthub_server.Strings.{strip_prefix, strip_prefix_fold, trim_space}
use agenthub_server.Tenancy.{is_operator}
use agenthub_server.World.{Env, M, World, Outcome, ok, err, Err, bad_token, pure, fail, ◌>>=◌, ◌>>◌}
use agenthub_server.Auth.Jwt.{JwtSigner, ParsedClaims, parse}
use agenthub_server.Auth.Sessions.{check_session_active}
use agenthub_server.Auth.ApiTokens.{ApiToken, api_token_prefix, lookup_api_token}

-- The values that the middleware puts into the request context; a missing one reads as empty.
pub record Identity : Type 0 where
  pub user_id : Text
  pub account_id : Text
  pub session_id : Text
  pub device_id : Text
  pub is_operator : Bool

abbrev pub anonymous : Identity
anonymous = record {
  user_id = [];
  account_id = [];
  session_id = [];
  device_id = [];
  is_operator = false;
}

-- next.ServeHTTP with the identity, or http.Error with a status.
pub data Gate : Type 0 where
  serve : Identity → Gate
  reject : ℕ → Gate

abbrev pub unauthorized : Gate
unauthorized = reject 401

-- Every error of the checks is answered by one status.
abbrev pub gate_of : Outcome Identity → Outcome Gate
gate_of (ok c w) = ok (serve c) w
gate_of (err e w) = ok unauthorized w

abbrev pub trimmed : Option Text → Option Text
trimmed none = none
trimmed (some []) = none
trimmed (some (c ∷ s)) = some (trim_space (c ∷ s))

-- bearerToken: the scheme in any case, and at least one character behind it.
unfoldable pub bearer_token : Text → Option Text
bearer_token header = trimmed (strip_prefix_fold (str "Bearer ") header)

abbrev pub identity_of : ParsedClaims → Identity
identity_of c = record {
  user_id = c.user_id;
  account_id = c.account_id;
  session_id = c.session_id;
  device_id = [];
  is_operator = false;
}

-- signer.Parse, CheckSessionActive, and the context
unfoldable pub session_identity : Env → JwtSigner → Text → M Identity
session_identity env signer token = do
  claims ← parse env signer token
  check_session_active claims.session_id
  pure (identity_of claims)

abbrev pub or_reject : Option Text → (Text → M Identity) → M Gate
or_reject none check w = ok unauthorized w
or_reject (some token) check w = gate_of (check token w)

unfoldable pub require_auth : Env → JwtSigner → Text → M Gate
require_auth env signer header = or_reject (bearer_token header) (session_identity env signer)

abbrev pub token_identity_of : ApiToken → Identity
token_identity_of t = record {
  user_id = t.user_id;
  account_id = t.account_id;
  session_id = str "api-token:" ++ t.id;
  device_id = t.device_id;
  is_operator = false;
}

abbrev pub check_prefix : Option Text → M (Unit {0})
check_prefix none w = err bad_token w
check_prefix (some rest) w = ok tt w

unfoldable pub token_identity : Env → Text → M Identity
token_identity env token = do
  check_prefix (strip_prefix api_token_prefix token)
  t ← lookup_api_token env token
  pure (token_identity_of t)

-- The cases of the switch on the Authorization header.
abbrev pub by_scheme : Env → JwtSigner → Option Text → Option Text → M Gate
by_scheme env signer (some bearer) token w =
    gate_of (session_identity env signer (trim_space bearer) w)
by_scheme env signer none (some token) w = gate_of (token_identity env (trim_space token) w)
by_scheme env signer none none w = ok unauthorized w

unfoldable pub require_auth_or_token : Env → JwtSigner → Text → M Gate
require_auth_or_token env signer header =
    by_scheme env signer (strip_prefix (str "Bearer ") header) (strip_prefix (str "Token ") header)

abbrev pub operator_gate : Identity → Outcome Bool → Outcome Gate
operator_gate c (ok true w) = ok (serve (record c { is_operator = true })) w
operator_gate c (ok false w) = ok (reject 403) w
operator_gate c (err e w) = ok (reject 500) w

-- RequireOperator, behind one of the gates above
unfoldable pub require_operator : Identity → M Gate
require_operator c w =
    if is_empty c.user_id then ok unauthorized w else operator_gate c (is_operator c.user_id w)

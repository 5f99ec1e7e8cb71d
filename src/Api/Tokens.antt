-- ===== src/Api/Tokens.antt =====
-- internal/api/tokens.go: the endpoints under /api/tokens.
pub mod Revoke
use agenthub_server.Base.{
  Text, str, is_empty, ◌/◌, not, Option, none, some, List, [], if◌then◌else◌,
}
use agenthub_server.Strings.{trim_space}
use agenthub_server.World.{World, Env, M, ◌>>=◌, ◌>>◌, new_id}
use agenthub_server.Auth.Jwt.{JwtSigner}
use agenthub_server.Auth.ApiTokens.{
  ApiTokenInput, ApiToken, create_api_token, revoke_api_token, list_api_tokens,
}
use agenthub_server.Auth.Middleware.{Identity}
use agenthub_server.Api.{
  Served, send_reply, handle, fails_with, with_auth_or_token, write_json, write_error, write_header,
}

-- The token's record, and its raw text
pub record CreatedToken : Type 0 where
  pub id : Text
  pub token : Text
  pub name : Text

abbrev pub token_input : Identity → Text → Text → ApiTokenInput
token_input c token_id name = record {
  id = token_id;
  account_id = c.account_id;
  user_id = c.user_id;
  device_id = [];
  name = trim_space name;
  scope = [];
  expires_at = none;
}

-- A body that does not decode leaves the name empty.
abbrev pub name_or_empty : Option Text → Text
name_or_empty none = []
name_or_empty (some name) = name

-- ids.New and auth.CreateAPIToken
unfoldable pub new_token : Env → Identity → Text → M (Text × ApiToken)
unfolding new_id
new_token env c name = do token_id ← new_id env; create_api_token env (token_input c token_id name)

unfoldable pub create_token_handler : Env → Identity → Option Text → World → Served CreatedToken
create_token_handler env c body w =
    handle (new_token env c (name_or_empty body) w)
      (λ (p : Text × ApiToken).
        send_reply (write_json 200 (record { id = p.1.id; token = p.0; name = p.1.name })))
      (fails_with 500 (str "create_failed"))

unfoldable pub list_tokens_handler : Identity → World → Served (List ApiToken)
list_tokens_handler c w =
    handle (list_api_tokens c.account_id c.user_id w) (λ ts. send_reply (write_json 200 ts))
      (fails_with 500 (str "list_failed"))

-- RevokeAPIToken, once there is an id
unfoldable pub revoke_token : Text → World → Served (Unit {0})
revoke_token id w =
    handle (revoke_api_token id w) (λ t. send_reply (write_header 204))
      (fails_with 500 (str "revoke_failed"))

-- The handler reads the path parameter and not the caller.
unfoldable pub revoke_token_handler : Text → Identity → World → Served (Unit {0})
revoke_token_handler id c w =
    if is_empty id then send_reply (write_error 400 (str "missing_id")) w else revoke_token id w

-- DELETE /{id} of APITokenRoutes
unfoldable pub revoke_token_route : Env → JwtSigner → Text → Text → World → Served (Unit {0})
revoke_token_route env signer header id =
    with_auth_or_token env signer header (revoke_token_handler id)

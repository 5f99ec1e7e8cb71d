-- ===== src/Api/Tokens/Revoke.antt =====
-- Who may revoke an API token.
use agenthub_server.Base.{Text, is_empty, ◌≡◌, false, [], arith, has, has-update_gone}
use agenthub_server.World.{World, Env, exec, exec_update, ok}
use agenthub_server.Auth.Jwt.{JwtSigner}
use agenthub_server.Auth.ApiTokens.{live_api_token, stamp_token_revoked, revoke_api_token}
use agenthub_server.Auth.Middleware.{Identity, require_auth_or_token, serve}
use agenthub_server.Api.{with_auth_or_token, write_header}
use agenthub_server.Api.Tokens.{revoke_token, revoke_token_handler, revoke_token_route}

-- Where nothing fails, the handler answers 204 and leaves no live token of the id.
revoke_lem :
    (c : Identity) (id : Text) (w : World)
    → is_empty id ≡ false
    → w.faults ≡ []
    → ((revoke_token_handler id c w).reply ≡ write_header 204)
      × (has (live_api_token id) (revoke_token_handler id c w).world.db.api_tokens ≡ false)
unfolding revoke_token_handler revoke_token revoke_api_token exec_update exec
revoke_lem c id w given calm = (
  ground (arith, given, calm),
  ground (
    arith,
    given,
    calm,
    has-update_gone (live_api_token id) (stamp_token_revoked w) w.db.api_tokens
        (λ r h. ground arith),
  ),
)

-- DELETE /api/tokens/{id} asks only for a caller who is let in: whoever that is, and whoever owns the
-- token, if the database then does not fail the reply is 204 and no token of the id is live any more.
pub revoke_token_crosses :
    (env : Env) (signer : JwtSigner) (header id : Text) (c : Identity) (w v : World)
    → require_auth_or_token env signer header w ≡ ok (serve c) v
    → is_empty id ≡ false
    → v.faults ≡ []
    → ((revoke_token_route env signer header id w).reply ≡ write_header 204)
      × (has (live_api_token id) (revoke_token_route env signer header id w).world.db.api_tokens
          ≡ false)
unfolding revoke_token_route with_auth_or_token
revoke_token_crosses env signer header id c w v let_in given calm =
    let done = revoke_lem c id v given calm in
    (ground (arith, let_in, done.0), ground (arith, let_in, done.1))

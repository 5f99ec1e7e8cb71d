-- ===== src/Witnesses/Tokens.antt =====
-- Examples for the verification tokens, the sessions and the API tokens.
use agenthub_server.Base.{
  Text, str, ◌==◌, ◌*◌, ◌≡◌, ◌≢◌, refl, none, some, [], ◌++◌, inl, find, has, update,
}
use agenthub_server.Schema.{password_reset}
use agenthub_server.Schema.Inserts.{
  user_exists, account_exists, verification_token_clash, insert_verification_token, api_token_clash,
  insert_api_token,
}
use agenthub_server.World.{
  World, world_of, result_of, second, query_row, exec, exec_update, bytes_of, random_bytes, in_tx,
  ok,
}
use agenthub_server.Auth.Hash.{random_token}
use agenthub_server.Auth.Tokens.{
  VerificationTokenInput, create_verification_token, scan_token, consume_statements,
  consume_verification_token,
}
use agenthub_server.Auth.Tokens.SingleUse.{IsRefused, consume_once, here}
use agenthub_server.Auth.Tokens.RoundTrip.{consume-create}
use agenthub_server.Auth.Sessions.{check_session_active, revoke_session}
use agenthub_server.Auth.Sessions.Lifecycle.{SessionSteps, SaysRevoked, revoke_session_final}
use agenthub_server.Auth.ApiTokens.{
  ApiTokenInput, generate_api_token_raw, scope_json, api_token_of, create_api_token, scan_api_token,
  touch_api_token, lookup_api_token, revoke_api_token,
}
use agenthub_server.Auth.ApiTokens.RoundTrip.{lookup-create}
use agenthub_server.Auth.ApiTokens.Revocation.{revoke_api_token_final, unmoved}
use agenthub_server.Witnesses.Fixtures.{env, reset_token, api_token, start}

abbrev raw : Text
raw = str "raw"

-- The world after the reset token is consumed.
abbrev consumed : World
consumed = world_of (consume_verification_token env raw password_reset start)

consumes :
    consume_verification_token env raw password_reset start ≡ ok (scan_token reset_token) consumed
unfolding consume_verification_token consume_statements in_tx query_row exec_update find ◌==◌
consumes = refl

consume_once_example : IsRefused (consume_verification_token env raw password_reset consumed)
consume_once_example = consume_once env raw password_reset start consumes here

abbrev token_input : VerificationTokenInput
token_input = record {
  id = str "n";
  purpose = password_reset;
  user_id = str "u";
  email = str "u@x";
  ttl = 100 * second;
}

abbrev created : World
created = world_of (create_verification_token env token_input start)

abbrev drawn : Text
drawn = bytes_of (env.random_byte 0) 32

creates : create_verification_token env token_input start ≡ ok drawn created
unfolding create_verification_token random_token random_bytes bytes_of exec
    insert_verification_token verification_token_clash user_exists has ◌==◌
creates = refl

no_faults_created : created.faults ≡ []
unfolding create_verification_token random_token random_bytes bytes_of exec
    insert_verification_token verification_token_clash user_exists has ◌==◌
no_faults_created = refl

consume-create_example :
    result_of (consume_verification_token env drawn password_reset created)
    ≡ inl (record { id = str "n"; purpose = password_reset; user_id = str "u"; email = str "u@x" })
unfolding create_verification_token random_token random_bytes bytes_of exec
    insert_verification_token verification_token_clash user_exists has ◌==◌
consume-create_example =
    consume-create env token_input password_reset start created created drawn creates refl
      no_faults_created

abbrev revoked : World
revoked = world_of (revoke_session (str "s") start)

revokes : revoke_session (str "s") start ≡ ok tt revoked
unfolding revoke_session exec_update exec
revokes = refl

revoke_session_final_example : SaysRevoked (check_session_active (str "s") revoked)
revoke_session_final_example =
    revoke_session_final (str "s") start revoked revoked revokes SessionSteps.here

abbrev api_input : ApiTokenInput
api_input = record {
  id = str "n";
  account_id = str "a";
  user_id = str "u";
  device_id = [];
  name = str "laptop";
  scope = [];
  expires_at = none;
}

abbrev minted : World
minted = world_of (create_api_token env api_input start)

abbrev minted_raw : Text
minted_raw = str "ahs_" ++ drawn

mints : create_api_token env api_input start ≡ ok (minted_raw, api_token_of api_input) minted
unfolding create_api_token generate_api_token_raw scope_json random_token random_bytes bytes_of exec
    insert_api_token api_token_clash user_exists account_exists has ◌==◌
mints = refl

no_faults_minted : minted.faults ≡ []
unfolding create_api_token generate_api_token_raw scope_json random_token random_bytes bytes_of exec
    insert_api_token api_token_clash user_exists account_exists has ◌==◌
no_faults_minted = refl

lookup-create_example :
    result_of (lookup_api_token env minted_raw minted)
    ≡ inl (record {
      id = str "n";
      account_id = str "a";
      user_id = str "u";
      device_id = [];
      name = str "laptop";
      created_at = some (1000 * second);
      last_used_at = none;
      expires_at = none;
    })
lookup-create_example =
    lookup-create env api_input start minted minted minted_raw (api_token_of api_input) mints refl
      no_faults_minted

abbrev known_raw : Text
known_raw = str "ahs_raw"

abbrev looked_at : World
looked_at = world_of (lookup_api_token env known_raw start)

looks : lookup_api_token env known_raw start ≡ ok (scan_api_token api_token) looked_at
unfolding lookup_api_token query_row touch_api_token exec_update exec find ◌==◌
looks = refl

-- Another token is revoked, and the known one still works.
abbrev other_revoked : World
other_revoked = world_of (revoke_api_token (str "other") start)

revokes_other : revoke_api_token (str "other") start ≡ ok tt other_revoked
unfolding revoke_api_token exec_update exec
revokes_other = refl

abbrev looked_at_then : World
looked_at_then = world_of (lookup_api_token env known_raw other_revoked)

looks_then :
    lookup_api_token env known_raw other_revoked ≡ ok (scan_api_token api_token) looked_at_then
unfolding lookup_api_token query_row touch_api_token revoke_api_token exec_update exec find update
    ◌==◌
looks_then = refl

revoke_api_token_final_example : (scan_api_token api_token).id ≢ str "other"
revoke_api_token_final_example =
    revoke_api_token_final env (str "other") known_raw start other_revoked other_revoked
      looked_at_then (scan_api_token api_token) revokes_other unmoved looks_then

-- ===== src/Witnesses/Access.antt =====
-- Examples for login and the gates.
use agenthub_server.Base.{
  Text, str, ◌==◌, is_empty, ◌*◌, ◌≤◌, ◌≡◌, ◌≢◌, refl, subst, true, false, Option, none, some, [],
  ◌∷◌, ◌++◌, ◌⊎◌, inl, inr, find, has, update,
}
use agenthub_server.Schema.{UserRow, AuthSessionRow}
use agenthub_server.Schema.Inserts.{
  user_exists, account_exists, auth_session_clash, insert_auth_session,
}
use agenthub_server.World.{
  World, JwtClaims, world_of, result_of, second, query_row, exec, exec_update, new_id, bytes_of,
  invalid_credentials, ok,
}
use agenthub_server.Strings.{to_lower, strip_prefix, strip_prefix_fold, trim, trim_space, split}
use agenthub_server.Tenancy.{
  coalesce, is_null, live_email, get_user_by_email, is_operator, account_of, first_account,
}
use agenthub_server.Auth.Password.{
  encode, digits_value, scan_number, scan_version, scan_params, verify_password,
}
use agenthub_server.Auth.Jwt.{registered_claims, sign, claims_of, parse}
use agenthub_server.Auth.Sessions.{
  session_row, create_session, session_with, check_session_active, revoke_session,
}
use agenthub_server.Auth.Sessions.Lifecycle.{here}
use agenthub_server.Auth.ApiTokens.{touch_api_token, lookup_api_token}
use agenthub_server.Auth.Service.{
  LoginInput, LoginOutput, accepted, login_session, session_claims, login, logout,
}
use agenthub_server.Auth.Service.Login.{MayLogin, login_sound, login_uniform}
use agenthub_server.Auth.Service.Complete.{granted, login_complete}
use agenthub_server.Auth.Middleware.{
  Identity, bearer_token, identity_of, session_identity, require_auth, token_identity,
  require_auth_or_token, require_operator, serve,
}
use agenthub_server.Auth.Middleware.Gates.{
  require_auth_sound, logout_locks_out, BySession, ByToken, require_auth_or_token_sound,
}
use agenthub_server.Witnesses.Fixtures.{env, signer, config, stored_hash, user, db, start}

abbrev login_input : Text → LoginInput
login_input password = record { email = str "U@x"; password = password; user_agent = []; ip = [] }

abbrev logged_in : World
logged_in = world_of (login env config (login_input (str "pw")) start)

abbrev login_out : LoginOutput
login_out = record {
  token = 0 ∷ [];
  session_id = 0 ∷ [];
  expires_at = 1100 * second;
  user_id = str "u";
  account_id = str "a";
}

logs_in : login env config (login_input (str "pw")) start ≡ ok login_out logged_in
unfolding login get_user_by_email to_lower first_account create_session sign new_id query_row exec
    insert_auth_session auth_session_clash user_exists account_exists has find verify_password split
    strip_prefix scan_number digits_value scan_version scan_params encode bytes_of ◌==◌
logs_in = refl

login_sound_example :
    MayLogin env (login_input (str "pw")) db (str "u") (str "a")
    × (logged_in.db ≡ record db {
      auth_sessions =
          db.auth_sessions
          ++ session_row
              (login_session config (login_input (str "pw")) (0 ∷ []) (str "u") (str "a"))
              start
            ∷ [];
    })
    × (login_out.token
        ≡ env.jwt_sign
            (str "key")
            (str "agenthub")
            (registered_claims (session_claims config (0 ∷ []) (str "u") (str "a")) start))
login_sound_example = login_sound env config (login_input (str "pw")) start logs_in

account_there : account_exists db (str "a") ≡ true
unfolding account_exists has ◌==◌
account_there = refl

user_there : user_exists db (str "u") ≡ true
unfolding user_exists has ◌==◌
user_there = refl

session_new :
    auth_session_clash db (
      session_row
        (login_session config (login_input (str "pw")) (0 ∷ []) (str "u") (str "a"))
        start)
    ≡ false
unfolding auth_session_clash has ◌==◌
session_new = refl

accepts_pw : verify_password env (str "pw") stored_hash ≡ some true
unfolding verify_password split strip_prefix scan_number digits_value scan_version scan_params
    encode bytes_of ◌==◌
accepts_pw = refl

selects_user : find (live_email (to_lower env (str "U@x"))) db.users ≡ some user
unfolding find to_lower ◌==◌
selects_user = refl

first_is_a : account_of (find (λ m. m.user_id == str "u") db.memberships) ≡ some (str "a")
unfolding find ◌==◌
first_is_a = refl

hash_there : is_empty stored_hash ≡ false
unfolding encode
hash_there = refl

login_complete_example :
    result_of (login env config (login_input (str "pw")) start)
    ≡ inl (granted env config start (str "u") (str "a"))
login_complete_example =
    login_complete env config (login_input (str "pw")) start user (str "a") refl selects_user
      hash_there accepts_pw refl first_is_a refl user_there account_there session_new refl refl refl

hash_of : Option UserRow → Text
hash_of none = []
hash_of (some u) = coalesce u.password_hash

-- The password "wrong" is not the one of the user.
refuses :
    (u : UserRow)
    → find (live_email (to_lower env (str "U@x"))) db.users ≡ some u
    → accepted (verify_password env (str "wrong") (coalesce u.password_hash)) ≡ false
unfolding find to_lower hash_of verify_password split strip_prefix scan_number digits_value
    scan_version scan_params encode bytes_of ◌==◌
refuses u e = subst (λ o. accepted (verify_password env (str "wrong") (hash_of o)) ≡ false) e refl

login_uniform_example :
    (result_of (login env config (login_input (str "wrong")) start) ≡ inr invalid_credentials)
    × ((world_of (login env config (login_input (str "wrong")) start)).db ≡ db)
login_uniform_example = login_uniform env config (login_input (str "wrong")) start refl refuses

abbrev header : Text
header = str "bearer s"

abbrev served_as : Identity
served_as = record {
  user_id = str "u";
  account_id = str "a";
  session_id = str "s";
  device_id = [];
  is_operator = false;
}

abbrev after_gate : World
after_gate = world_of (require_auth env signer header start)

serves : require_auth env signer header start ≡ ok (serve served_as) after_gate
unfolding require_auth bearer_token strip_prefix_fold session_identity parse check_session_active
    query_row find trim_space trim ◌==◌
serves = refl

require_auth_sound_example :
    (token : Text) × (claims : JwtClaims) × (r : AuthSessionRow) × (bearer_token header
      ≡ some token)
    × (env.jwt_parse (str "key") (str "agenthub") 1000 token ≡ some claims)
    × (served_as ≡ identity_of (claims_of claims))
    × (find (session_with (str "s")) db.auth_sessions ≡ some r)
    × (is_null r.revoked_at ≡ true)
    × (1000 * second ≤ r.expires_at * second)
    × (after_gate.db ≡ db)
require_auth_sound_example = require_auth_sound env signer header start serves

-- Another session logs out, and this one is still served.
abbrev other_gone : World
other_gone = world_of (logout (str "other") start)

logs_out : logout (str "other") start ≡ ok tt other_gone
unfolding logout revoke_session exec_update exec
logs_out = refl

abbrev served_then : World
served_then = world_of (require_auth env signer header other_gone)

serves_then : require_auth env signer header other_gone ≡ ok (serve served_as) served_then
unfolding logout revoke_session exec_update exec require_auth bearer_token strip_prefix_fold
    session_identity parse check_session_active query_row find update trim_space trim ◌==◌
serves_then = refl

logout_locks_out_example : served_as.session_id ≢ str "other"
logout_locks_out_example =
    logout_locks_out env signer header (str "other") start other_gone other_gone served_then
      served_as logs_out here serves_then

abbrev token_header : Text
token_header = str "Token ahs_raw"

abbrev served_token : Identity
served_token = record {
  user_id = str "u";
  account_id = str "a";
  session_id = str "api-token:k";
  device_id = [];
  is_operator = false;
}

abbrev after_token : World
after_token = world_of (require_auth_or_token env signer token_header start)

serves_token :
    require_auth_or_token env signer token_header start ≡ ok (serve served_token) after_token
unfolding require_auth_or_token strip_prefix token_identity lookup_api_token touch_api_token
    exec_update exec query_row find trim_space trim ◌==◌
serves_token = refl

require_auth_or_token_sound_example :
    BySession env signer token_header start served_token
    ⊎ ByToken env token_header start served_token
require_auth_or_token_sound_example =
    require_auth_or_token_sound env signer token_header start serves_token

abbrev operator : Identity
operator = record served_as { is_operator = true }

abbrev after_operator : World
after_operator = world_of (require_operator served_as start)

serves_operator : require_operator served_as start ≡ ok (serve operator) after_operator
unfolding require_operator is_operator query_row find ◌==◌
serves_operator = refl

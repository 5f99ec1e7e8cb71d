-- ===== src/Witnesses/SignIns.antt =====
-- Examples for the OAuth sign-in and the signing key.
use agenthub_server.Base.{
  Text, str, ◌==◌, ℕ, ◌*◌, ◌≤◌, ◌≡◌, refl, true, false, none, some, List, [], ◌∷◌, ◌++◌, inl,
  length, find, has, update, if◌then◌else◌,
}
use agenthub_server.Schema.{Database, google}
use agenthub_server.Schema.Inserts.{
  user_exists, account_exists, user_clash, insert_user, account_clash, insert_account,
  membership_clash, insert_membership, auth_session_clash, insert_auth_session, oauth_state_clash,
  insert_oauth_state, oauth_identity_clash, insert_oauth_identity, insert_meta,
}
use agenthub_server.Strings.{to_lower, trim}
use agenthub_server.Tenancy.{get_user_by_email}
use agenthub_server.World.{
  World, world_of, result_of, second, query_row, exec, exec_update, new_id, bytes_of, random_bytes,
  in_tx, ok,
}
use agenthub_server.Auth.Hash.{random_token}
use agenthub_server.Auth.Sessions.{session_row, create_session}
use agenthub_server.Auth.Jwt.{sign}
use agenthub_server.Auth.Slug.{slug_loop, slug_of_name, or_account, with_suffix, slugify}
use agenthub_server.Auth.OauthState.{
  OauthStateInput, create_oauth_state, consume_state_statements, consume_oauth_state,
}
use agenthub_server.Auth.OauthState.Pending.{
  Pending, view, put, event, after, created, create, consume,
}
use agenthub_server.Auth.OauthState.Refines.{Trace, oauth_states_implement, done, call}
use agenthub_server.Auth.Oauth.{
  JsonObject, OauthServiceConfig, FinishLoginOutput, UserInfo, parse_google_user_info,
  fetch_user_info, Upserted, add_identity, first_non_empty, create_identity_statements,
  create_identity, upsert_by_email, upsert_identity, oauth_session, finish_session, vouched,
  finish_login, text,
}
use agenthub_server.Auth.Oauth.Upsert.{Upserts, upsert_sound}
use agenthub_server.Auth.Oauth.Again.{MembershipsJoinUsers, upsert-upsert}
use agenthub_server.Auth.Oauth.Login.{Vouches}
use agenthub_server.Auth.Keys.{new_key, load_or_create_jwt_key}
use agenthub_server.Auth.Keys.Stable.{load-load}
use agenthub_server.Api.{Served, write_json}
use agenthub_server.Api.Oauth.{CallbackInput, finish_input, finish_callback, oauth_callback_handler}
use agenthub_server.Api.Oauth.Callback.{callback_sound}
use agenthub_server.Witnesses.Fixtures.{env, config, db, start}

abbrev state_input : OauthStateInput
state_input = record { provider = google; redirect_uri = str "/home"; ttl = 600 * second }

-- The state that the first draw gives
abbrev first_state : Text
first_state = bytes_of (env.random_byte 0) 32

abbrev started : World
started = after env (create state_input) start

abbrev taken_once : World
taken_once = after env (consume first_state) started

abbrev waiting : Pending
waiting = record {
  state = record { provider = google; redirect_uri = str "/home" };
  expires_at = 1600;
}

first_event : event env (create state_input) start ≡ created first_state waiting
unfolding event create_oauth_state random_token random_bytes exec insert_oauth_state
    oauth_state_clash has bytes_of
first_event = refl

oauth_states_implement_example :
    Trace
      (view db)
      ((1000 * second, event env (consume first_state) started)
        ∷ (1000 * second, event env (create state_input) start)
        ∷ [])
      (view taken_once.db)
unfolding after create_oauth_state random_token random_bytes exec insert_oauth_state
    oauth_state_clash has bytes_of
oauth_states_implement_example =
    oauth_states_implement env {w = start}
      (call (consume first_state) (call (create state_input) done))

-- A user whom the server does not know
abbrev newcomer : UserInfo
newcomer = record { provider_user_id = str "77"; email = str "N@x"; name = str "Nia" }

abbrev welcomed : World
welcomed = world_of (upsert_identity env google newcomer start)

abbrev newcomer_ids : Upserted
newcomer_ids = record { user_id = 0 ∷ []; account_id = 1 ∷ []; created = true }

upserts : upsert_identity env google newcomer start ≡ ok newcomer_ids welcomed
unfolding upsert_identity upsert_by_email get_user_by_email create_identity
    create_identity_statements add_identity new_id query_row exec in_tx insert_user insert_account
    insert_membership insert_oauth_identity user_clash account_clash membership_clash
    oauth_identity_clash user_exists account_exists has find to_lower slugify slug_of_name slug_loop
    trim or_account with_suffix first_non_empty ◌==◌
upserts = refl

upsert_sound_example : Upserts env google newcomer start newcomer_ids welcomed.db
upsert_sound_example = upsert_sound env google newcomer start upserts

-- The same subject under another name and e-mail, later
abbrev renamed : UserInfo
renamed = record { provider_user_id = str "77"; email = str "u@x"; name = str "N." }

abbrev later : World
later = record welcomed { now = 2000 * second; faults = [] }

members_known : MembershipsJoinUsers db
unfolding has ◌==◌
members_known = (refl, tt)

upsert-upsert_example :
    (result_of (upsert_identity env google renamed later)
      ≡ inl (record { user_id = 0 ∷ []; account_id = 1 ∷ []; created = false }))
    × ((world_of (upsert_identity env google renamed later)).db ≡ welcomed.db)
upsert-upsert_example =
    upsert-upsert env google newcomer renamed start welcomed later newcomer_ids upserts
      members_known refl refl refl

-- A provider that vouches for the newcomer
abbrev profile : JsonObject
profile key =
    if key == str "sub"
    then some (text (str "77"))
    else if key == str "email"
    then some (text (str "N@x"))
    else if key == str "name"
    then some (text (str "Nia"))
    else none

abbrev provider : OauthServiceConfig
provider = record {
  provider = google;
  user_info_url = str "https://idp/userinfo";
  exchange = λ now code. some (str "at");
  get = λ now url token. some (record { status = 200; body = some profile });
}

abbrev callback : CallbackInput
callback = record { state = first_state; code = str "code"; user_agent = str "ua"; ip = str "ip" }

abbrev signed_in : Served FinishLoginOutput
signed_in = oauth_callback_handler env config provider callback started

abbrev sign_in_output : FinishLoginOutput
sign_in_output = record {
  token = 5 ∷ [];
  session_id = 5 ∷ [];
  user_id = 1 ∷ [];
  account_id = 2 ∷ [];
  email = str "N@x";
  created = true;
}

signs_in : signed_in.reply ≡ write_json 200 sign_in_output
unfolding after create_oauth_state random_token random_bytes insert_oauth_state oauth_state_clash
    oauth_callback_handler consume_oauth_state consume_state_statements exec_update update
    finish_callback finish_login vouched fetch_user_info parse_google_user_info upsert_identity
    upsert_by_email get_user_by_email create_identity create_identity_statements add_identity new_id
    query_row exec in_tx insert_user insert_account insert_membership insert_oauth_identity
    user_clash account_clash membership_clash oauth_identity_clash user_exists account_exists has
    find to_lower slugify slug_of_name slug_loop trim or_account with_suffix first_non_empty
    finish_session create_session insert_auth_session auth_session_clash sign bytes_of ◌==◌
signs_in = refl

callback_sound_example :
    (p : Pending) × (ui : UserInfo) × (u : Upserted) × (v : World) × (d : Database) × (view
        started.db first_state
      ≡ some p)
    × (started.now ≤ p.expires_at * second)
    × (view signed_in.world.db ≡ put (view started.db) first_state none)
    × (v.db ≡ record (started.db) { oauth_states = v.db.oauth_states })
    × Vouches provider started.now (str "code") ui
    × Upserts env google ui v u d
    × (1 ∷ [] ≡ u.user_id)
    × (2 ∷ [] ≡ u.account_id)
    × (signed_in.world.db ≡ record d {
      auth_sessions =
          d.auth_sessions
          ++ session_row (oauth_session config (finish_input callback) (5 ∷ []) u) started ∷ [];
    })
callback_sound_example = callback_sound env config provider callback started signs_in

-- The first start of a server
abbrev first_key : List ℕ
first_key = bytes_of (env.random_byte 0) 32

abbrev keyed : World
keyed = world_of (load_or_create_jwt_key env start)

makes_key : load_or_create_jwt_key env start ≡ ok first_key keyed
unfolding load_or_create_jwt_key new_key query_row random_bytes exec insert_meta find has
makes_key = refl

reads_back : env.decode_base64_std (env.base64_std first_key) ≡ some first_key
unfolding bytes_of
reads_back = refl

load-load_example :
    (result_of (load_or_create_jwt_key env keyed) ≡ inl first_key)
    × ((world_of (load_or_create_jwt_key env keyed)).db ≡ keyed.db)
    × (length first_key ≡ 32)
unfolding load_or_create_jwt_key new_key query_row random_bytes exec insert_meta find has
load-load_example = load-load env start keyed keyed first_key reads_back makes_key refl refl

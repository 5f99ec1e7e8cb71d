-- ===== src/Auth/Service/Complete.antt =====
-- Who may log in does.
use agenthub_server.Base.{
  Text, ◌==◌, ◌≡◌, true, false, some, [], inl, arith, find, is_empty, ltb, ◌+◌,
}
use agenthub_server.Schema.{UserRow}
use agenthub_server.Schema.Inserts.{
  insert_auth_session, user_exists, account_exists, auth_session_clash,
}
use agenthub_server.Strings.{to_lower}
use agenthub_server.Tenancy.{live_email, coalesce, account_of, get_user_by_email, first_account}
use agenthub_server.World.{Env, World, result_of, query_row, exec, new_id}
use agenthub_server.Auth.Password.{verify_password}
use agenthub_server.Auth.Sessions.{session_row, create_session}
use agenthub_server.Auth.Jwt.{sign, registered_claims}
use agenthub_server.Auth.Service.{
  Config, LoginInput, LoginOutput, login, login_session, session_claims, is_set,
}

-- What the answer of a login at `w` names.
abbrev pub granted : Env → Config → World → Text → Text → LoginOutput
granted env cfg w user_id account_id = record {
  token =
      env.jwt_sign cfg.signer.key cfg.signer.issuer
        (registered_claims (session_claims cfg (env.new_id w.fresh) user_id account_id) w);
  session_id = env.new_id w.fresh;
  expires_at = w.now + cfg.session_ttl;
  user_id = user_id;
  account_id = account_id;
}

-- A live user with a verified e-mail and the right password, who is a member of an account, is let
-- in: where nothing fails, the session's lifetime is positive, the user and the account have rows,
-- the ids are not empty and the new session's is not taken, Login succeeds, and the answer has the
-- session's id, the user, the first account, the expiry and the JWT signed over them.
pub login_complete :
    (env : Env) (cfg : Config) (i : LoginInput) (w : World) (u : UserRow) (account_id : Text)
    → w.faults ≡ []
    → find (live_email (to_lower env i.email)) w.db.users ≡ some u
    → is_empty (coalesce u.password_hash) ≡ false
    → verify_password env i.password (coalesce u.password_hash) ≡ some true
    → is_set u.email_verified_at ≡ true
    → account_of (find (λ m. m.user_id == u.id) w.db.memberships) ≡ some account_id
    → ltb 0 cfg.session_ttl ≡ true
    → user_exists w.db u.id ≡ true
    → account_exists w.db account_id ≡ true
    → auth_session_clash w.db
        (session_row (login_session cfg i (env.new_id w.fresh) u.id account_id) w)
      ≡ false
    → is_empty (env.new_id w.fresh) ≡ false
    → is_empty u.id ≡ false
    → is_empty account_id ≡ false
    → result_of (login env cfg i w) ≡ inl (granted env cfg w u.id account_id)
unfolding login get_user_by_email query_row first_account new_id create_session exec
    insert_auth_session sign
login_complete env cfg i w u account_id calm at hashed accepts verified member lasts user account
      new named user_named account_named =
    ground arith

-- ===== src/Auth/Sessions.antt =====
-- internal/auth/sessions.go: the auth_sessions row behind each JWT.
pub mod Lifecycle
use agenthub_server.Base.{
  Text, ◌==◌, ℕ, ◌+◌, Bool, true, false, ◌&&◌, not, Option, none, some, List, [], ◌∷◌, eqb, find,
  update, ltb, if◌then◌else◌,
}
use agenthub_server.Schema.{Database, AuthSessionRow}
use agenthub_server.Schema.Inserts.{insert_auth_session}
use agenthub_server.Tenancy.{is_null}
use agenthub_server.World.{
  Env, M, World, Outcome, ok, err, Err, no_rows, bad_input, session_revoked, session_expired, pure,
  fail, on_err, require, ◌>>=◌, ◌>>◌, query_row, exec, exec_update, seconds_now, seconds_after,
  is_after,
}

pub record SessionInput : Type 0 where
  pub id : Text
  pub user_id : Text
  pub account_id : Text
  pub user_agent : Text
  pub ip : Text
  pub ttl : ℕ

-- `expires_at` is time.Now().Add(ttl), in nanoseconds.
pub record Session : Type 0 where
  pub id : Text
  pub user_id : Text
  pub account_id : Text
  pub expires_at : ℕ

abbrev pub session_row : SessionInput → World → AuthSessionRow
session_row i w = record {
  id = i.id;
  user_id = i.user_id;
  account_id = i.account_id;
  user_agent = i.user_agent;
  ip = i.ip;
  issued_at = seconds_now w;
  expires_at = seconds_after w i.ttl;
  revoked_at = none;
}

abbrev pub new_session : SessionInput → M Session
new_session i w =
    ok
      (record {
        id = i.id;
        user_id = i.user_id;
        account_id = i.account_id;
        expires_at = w.now + i.ttl;
      })
      w

unfoldable pub create_session : SessionInput → M Session
unfolding exec
create_session i = do
  require (ltb 0 i.ttl) bad_input
  exec (λ w. insert_auth_session w.db (session_row i w))
  new_session i

abbrev pub session_with : Text → AuthSessionRow → Bool
session_with i r = r.id == i

abbrev pub no_rows_is_revoked {ℓ} : {A : Type ℓ} → Err → M A
no_rows_is_revoked no_rows w = err session_revoked w
no_rows_is_revoked e w = err e w

abbrev pub require_unexpired : ℕ → M (Unit {0})
require_unexpired t w = require (not (is_after w t)) session_expired w

unfoldable pub check_session_active : Text → M (Unit {0})
unfolding query_row
check_session_active i = do
  row ← on_err (query_row (λ w. find (session_with i) w.db.auth_sessions)) no_rows_is_revoked
  require (is_null row.revoked_at) session_revoked
  require_unexpired row.expires_at

-- WHERE id = ? AND revoked_at IS NULL
abbrev pub unrevoked : Text → AuthSessionRow → Bool
unrevoked i r = r.id == i && is_null r.revoked_at

abbrev pub stamp_revoked : World → AuthSessionRow → AuthSessionRow
stamp_revoked w r = record r { revoked_at = some (seconds_now w) }

unfoldable pub revoke_session : Text → M (Unit {0})
unfolding exec_update
revoke_session i = exec_update (λ w. record (w.db) {
  auth_sessions = update (unrevoked i) (stamp_revoked w) w.db.auth_sessions;
})

-- ===== src/Api/Sessions/Isolation.antt =====
-- The session endpoints leave what is another account or device alone.
use agenthub_server.Base.{Text, ◌≡◌, refl, sym, arith}
use agenthub_server.World.{World, Env, Outcome, world_of, query_row, exec, exec_update, ok, err}
use agenthub_server.Auth.Jwt.{JwtSigner, parse}
use agenthub_server.Auth.Sessions.{check_session_active}
use agenthub_server.Auth.ApiTokens.{touch_api_token, lookup_api_token}
use agenthub_server.Auth.Middleware.{
  Gate, session_identity, token_identity, require_auth_or_token, serve, reject,
}
use agenthub_server.Api.{Served, behind, with_auth_or_token, http_error}
use agenthub_server.Api.Sessions.{SessionRequest, SessionBody, session_group, session_routes}
use agenthub_server.Api.Sessions.Own.{IsOwnReply, group-IsOwn}
use agenthub_server.Api.Sessions.Rows.{Keeps}
use agenthub_server.Api.Sessions.Keeps.{group-Keeps}

gate-sessions :
    (env : Env) (signer : JwtSigner) (header : Text) (w : World)
    → (world_of (require_auth_or_token env signer header w)).db.agent_sessions ≡ w.db.agent_sessions
unfolding require_auth_or_token session_identity token_identity parse check_session_active
    lookup_api_token touch_api_token query_row exec_update exec
gate-sessions env signer header w = ground arith

-- What the routes answer and leave, by what the middleware said.
abbrev pub SessionsIsolated : World → Outcome Gate → Served SessionBody → Type 0
SessionsIsolated w (ok (serve c) v) s =
    IsOwnReply c.account_id s.reply × Keeps c w.db.agent_sessions s.world.db.agent_sessions
SessionsIsolated w (ok (reject status) v) s =
    (s.reply ≡ http_error status) × (s.world.db.agent_sessions ≡ w.db.agent_sessions)
SessionsIsolated w (err e v) s = s.world.db.agent_sessions ≡ w.db.agent_sessions

-- Every request under /api/sessions: if RequireAuthOrToken lets it in, the reply lists only agent
-- sessions of the caller's account, the session of every other account or device is as it was, and
-- every session that is new or changed is of the caller's account and device; if it does not, the
-- reply is its status and no agent session changes.
pub session_routes_isolate :
    (env : Env) (signer : JwtSigner) (header : Text) (r : SessionRequest) (w : World)
    → SessionsIsolated w
        (require_auth_or_token env signer header w)
        (session_routes env signer header r w)
unfolding session_routes with_auth_or_token
session_routes_isolate env signer header r w =
    by_gate (require_auth_or_token env signer header w) (gate-sessions env signer header w)
  where
    by_gate :
        (o : Outcome Gate)
        → (world_of o).db.agent_sessions ≡ w.db.agent_sessions
        → SessionsIsolated w o (behind o (session_group env r))
    by_gate (ok (serve c) v) same = (group-IsOwn env r c v, rw (sym same) (group-Keeps env r c v))
    by_gate (ok (reject status) v) same = (refl, same)
    by_gate (err e v) same = same

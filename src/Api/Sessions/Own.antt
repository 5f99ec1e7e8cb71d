-- ===== src/Api/Sessions/Own.antt =====
-- The session endpoints keep to the account and the device of the caller.
use agenthub_server.Base.{
  Text, ◌==◌, ◌≡◌, sym, subst, true, List, [], ◌∷◌, map, arith, where_rows, order_desc, All, ==_iff,
  All-order_desc, All-where_rows,
}
use agenthub_server.Schema.{AgentSessionRow}
use agenthub_server.World.{World, Env, query, ok}
use agenthub_server.AgentSessions.{AgentSession, scan_agent_session, list_agent_sessions}
use agenthub_server.Auth.Middleware.{Identity}
use agenthub_server.Api.{
  Reply, map_reply, map_served, handle_lem, write_json, write_error, write_header, http_error,
  redirect,
}
use agenthub_server.Api.Sessions.{
  CreatedSession, create_session_handler, list_sessions_handler, touch_session_handler,
  end_session_handler, SessionRequest, SessionBody, session_group, list, create, touch, end_at,
  sessions, started, empty,
}

abbrev pub IsOwnBody : Text → SessionBody → Type 0
IsOwnBody account_id (sessions ss) = All (λ (s : AgentSession). s.account_id ≡ account_id) ss
IsOwnBody account_id (started s) = Unit
IsOwnBody account_id empty = Unit

abbrev pub IsOwnReply : Text → Reply SessionBody → Type 0
IsOwnReply account_id (write_json status b) = IsOwnBody account_id b
IsOwnReply account_id r = Unit

owned_rows :
    (account_id : Text) (rows : List AgentSessionRow)
    → All (λ (r : AgentSessionRow). (r.account_id == account_id) ≡ true) rows
    → All (λ (s : AgentSession). s.account_id ≡ account_id) (map scan_agent_session rows)
owned_rows account_id [] h = tt
owned_rows account_id (r ∷ rows) h =
    ((==_iff r.account_id account_id).0 h.0, owned_rows account_id rows h.1)

listed_lem :
    (account_id : Text) (w : World) {ss : List AgentSession} {v : World}
    → list_agent_sessions account_id w ≡ ok ss v
    → All (λ (s : AgentSession). s.account_id ≡ account_id) ss
listed_lem account_id w {ss} h =
    subst (All (λ (s : AgentSession). s.account_id ≡ account_id)) (sym rows) (
      owned_rows account_id _ (
        All-order_desc (λ (r : AgentSessionRow). (r.account_id == account_id) ≡ true)
          (λ (r : AgentSessionRow). r.started_at) _
          (All-where_rows (λ r. r.account_id == account_id) w.db.agent_sessions)))
  where
    rows :
        ss
        ≡ map scan_agent_session (
            order_desc
              (λ (r : AgentSessionRow). r.started_at)
              (where_rows (λ r. r.account_id == account_id) w.db.agent_sessions))
    rows = unfold list_agent_sessions query in ground arith

list-IsOwn :
    (c : Identity) (w : World)
    → IsOwnReply c.account_id (map_served sessions (list_sessions_handler c w)).reply
unfolding list_sessions_handler
list-IsOwn c w =
    handle_lem (λ s. IsOwnReply c.account_id (map_served sessions s).reply)
      (list_agent_sessions c.account_id w) _ _ (λ ss v h. listed_lem c.account_id w h) (λ e v h. tt)

started-own :
    (account_id : Text) (r : Reply CreatedSession) → IsOwnReply account_id (map_reply started r)
started-own account_id (write_json status a) = tt
started-own account_id (write_error status s) = tt
started-own account_id (write_header status) = tt
started-own account_id (http_error status) = tt
started-own account_id (redirect url) = tt

empty-own :
    (account_id : Text) (r : Reply (Unit {0})) → IsOwnReply account_id (map_reply (λ t. empty) r)
empty-own account_id (write_json status a) = tt
empty-own account_id (write_error status s) = tt
empty-own account_id (write_header status) = tt
empty-own account_id (http_error status) = tt
empty-own account_id (redirect url) = tt

pub group-IsOwn :
    (env : Env) (r : SessionRequest) (c : Identity) (w : World)
    → IsOwnReply c.account_id (session_group env r c w).reply
unfolding session_group
group-IsOwn env list c w = list-IsOwn c w
group-IsOwn env (create body) c w =
    started-own c.account_id (create_session_handler env c body w).reply
group-IsOwn env (touch i) c w = empty-own c.account_id (touch_session_handler c i w).reply
group-IsOwn env (end_at i) c w = empty-own c.account_id (end_session_handler c i w).reply

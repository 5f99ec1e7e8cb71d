-- ===== src/Api/Sessions.antt =====
-- internal/api/sessions.go: the endpoints under /api/sessions.
pub mod Own
pub mod Rows
pub mod Keeps
pub mod Isolation
use agenthub_server.Base.{
  Text, str, ◌==◌, is_empty, Bool, true, false, ◌&&◌, ◌||◌, Option, none, List,
}
use agenthub_server.Schema.{Status, running}
use agenthub_server.World.{World, Env, M, pure, ◌>>=◌, ◌>>◌, new_id}
use agenthub_server.Auth.Jwt.{JwtSigner}
use agenthub_server.AgentSessions.{
  AgentSession, create_agent_session, get_agent_session, list_agent_sessions, touch_activity,
  end_agent_session,
}
use agenthub_server.Auth.Middleware.{Identity}
use agenthub_server.Api.{
  Served, send_reply, map_served, handle, fails_with, decoded, with_auth_or_token, write_json,
  write_error, write_header,
}

pub record CreateSessionReq : Type 0 where
  pub label : Text
  pub cwd : Text

pub record CreatedSession : Type 0 where
  pub id : Text
  pub status : Status

abbrev pub session_input : Identity → Text → CreateSessionReq → AgentSession
session_input c session_id i = record {
  id = session_id;
  account_id = c.account_id;
  device_id = c.device_id;
  label = i.label;
  status = running;
  cwd = i.cwd;
  started_at = 0;
  ended_at = none;
  last_activity_at = 0;
}

-- ids.New and sessions.Create
unfoldable pub start_session : Env → Identity → CreateSessionReq → M Text
unfolding new_id
start_session env c i = do
  session_id ← new_id env
  create_agent_session (session_input c session_id i)
  pure session_id

abbrev pub needs_device {ℓ} : {B : Type ℓ} → Identity → (World → Served B) → World → Served B
needs_device c h w = elim (is_empty c.device_id) [
  | true ↦ send_reply (write_error 403 (str "device_token_required")) w
  | false ↦ h w
]

unfoldable pub create_session_handler :
    Env → Identity → Option CreateSessionReq → World → Served CreatedSession
create_session_handler env c body = needs_device c (
    decoded body (λ i w.
      handle (start_session env c i w)
        (λ id. send_reply (write_json 200 (record { id = id; status = running })))
        (fails_with 500 (str "create_failed"))))

unfoldable pub list_sessions_handler : Identity → World → Served (List AgentSession)
list_sessions_handler c w =
    handle (list_agent_sessions c.account_id w) (λ ss. send_reply (write_json 200 ss))
      (fails_with 500 (str "list_failed"))

-- s.AccountID != auth.AccountID(r.Context()) || s.DeviceID != auth.DeviceID(r.Context())
abbrev pub is_own_session : Identity → AgentSession → Bool
is_own_session c s = s.account_id == c.account_id && s.device_id == c.device_id

abbrev pub session_not_found {ℓ} : {B : Type ℓ} → World → Served B
session_not_found w = send_reply (write_error 404 (str "not_found")) w

-- The part that the two handlers share: the caller is a device, and the session is its own.
abbrev pub own_session {ℓ} : {B : Type ℓ} → Identity → Text → (World → Served B) → World → Served B
own_session c id h = needs_device c (λ w.
    handle (get_agent_session id w)
      (λ s v. elim (is_own_session c s) [ true ↦ h v | false ↦ session_not_found v ])
      (λ e. session_not_found))

unfoldable pub touch_session : Text → World → Served (Unit {0})
touch_session id w =
    handle (touch_activity id w) (λ t. send_reply (write_header 204))
      (fails_with 500 (str "activity_failed"))

unfoldable pub touch_session_handler : Identity → Text → World → Served (Unit {0})
touch_session_handler c id = own_session c id (touch_session id)

unfoldable pub end_session : Text → World → Served (Unit {0})
end_session id w =
    handle (end_agent_session id w) (λ t. send_reply (write_header 204))
      (fails_with 500 (str "end_failed"))

unfoldable pub end_session_handler : Identity → Text → World → Served (Unit {0})
end_session_handler c id = own_session c id (end_session id)

-- The requests under /api/sessions, with their path parameter and body.
pub data SessionRequest : Type 0 where
  list : SessionRequest
  create : Option CreateSessionReq → SessionRequest
  touch end_at : Text → SessionRequest

pub data SessionBody : Type 0 where
  sessions : List AgentSession → SessionBody
  started : CreatedSession → SessionBody
  empty : SessionBody

unfoldable pub session_group : Env → SessionRequest → Identity → World → Served SessionBody
session_group env list c w = map_served sessions (list_sessions_handler c w)
session_group env (create body) c w = map_served started (create_session_handler env c body w)
session_group env (touch id) c w = map_served (λ t. empty) (touch_session_handler c id w)
session_group env (end_at id) c w = map_served (λ t. empty) (end_session_handler c id w)

unfoldable pub session_routes : Env → JwtSigner → Text → SessionRequest → World → Served SessionBody
session_routes env signer header r = with_auth_or_token env signer header (session_group env r)

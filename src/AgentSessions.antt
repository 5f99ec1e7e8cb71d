-- ===== src/AgentSessions.antt =====
-- internal/sessions: the metadata rows of the terminal sessions on the devices.
pub mod Ended
use agenthub_server.Base.{
  Text, ◌==◌, is_empty, ℕ, ◌*◌, Bool, true, false, not, ◌&&◌, ◌||◌, Option, none, some, List, map,
  find, where_rows, order_desc, update,
}
use agenthub_server.Schema.{Database, AgentSessionRow, Status, running, stopped}
use agenthub_server.Schema.Inserts.{insert_agent_session}
use agenthub_server.World.{
  M, World, Outcome, ok, err, bad_input, require, ◌>>=◌, ◌>>◌, query, query_row, exec, exec_update,
  seconds_now,
}

-- Times in seconds; `none` is the zero time.
pub record AgentSession : Type 0 where
  pub id : Text
  pub account_id : Text
  pub device_id : Text
  pub label : Text
  pub status : Status
  pub cwd : Text
  pub started_at : ℕ
  pub ended_at : Option ℕ
  pub last_activity_at : ℕ

-- The columns that Create gives, and the defaults of the others.
abbrev pub agent_session_row : AgentSession → World → AgentSessionRow
agent_session_row s w = record {
  id = s.id;
  account_id = s.account_id;
  device_id = s.device_id;
  label = s.label;
  status = running;
  cwd = s.cwd;
  started_at = seconds_now w;
  ended_at = none;
  last_activity_at = seconds_now w;
}

-- Create
unfoldable pub create_agent_session : AgentSession → M (Unit {0})
unfolding exec
create_agent_session s = do
  require (not (is_empty s.id || is_empty s.account_id || is_empty s.device_id)) bad_input
  exec (λ w. insert_agent_session w.db (agent_session_row s w))

abbrev pub scan_agent_session : AgentSessionRow → AgentSession
scan_agent_session r = record {
  id = r.id;
  account_id = r.account_id;
  device_id = r.device_id;
  label = r.label;
  status = r.status;
  cwd = r.cwd;
  started_at = r.started_at;
  ended_at = r.ended_at;
  last_activity_at = r.last_activity_at;
}

abbrev pub agent_session_with : Text → AgentSessionRow → Bool
agent_session_with i r = r.id == i

abbrev pub scanned_session : Option AgentSessionRow → Option AgentSession
scanned_session none = none
scanned_session (some r) = some (scan_agent_session r)

-- GetByID
unfoldable pub get_agent_session : Text → M AgentSession
unfolding query_row
get_agent_session i =
    query_row (λ w. scanned_session (find (agent_session_with i) w.db.agent_sessions))

-- ListForAccount
unfoldable pub list_agent_sessions : Text → M (List AgentSession)
unfolding query
list_agent_sessions account_id = query (λ w. map scan_agent_session (
    order_desc (λ r. r.started_at)
      (where_rows (λ r. r.account_id == account_id) w.db.agent_sessions)))

abbrev pub stamp_activity : World → AgentSessionRow → AgentSessionRow
stamp_activity w r = record r { last_activity_at = seconds_now w }

unfoldable pub touch_activity : Text → M (Unit {0})
unfolding exec_update
touch_activity i = exec_update (λ w. record (w.db) {
  agent_sessions = update (agent_session_with i) (stamp_activity w) w.db.agent_sessions;
})

abbrev pub is_running : Status → Bool
is_running running = true
is_running stopped = false

-- WHERE id = ? AND status = 'running'
abbrev pub running_with : Text → AgentSessionRow → Bool
running_with i r = r.id == i && is_running r.status

abbrev pub stamp_ended : World → AgentSessionRow → AgentSessionRow
stamp_ended w r = record r { status = stopped; ended_at = some (seconds_now w) }

-- End
unfoldable pub end_agent_session : Text → M (Unit {0})
unfolding exec_update
end_agent_session i = exec_update (λ w. record (w.db) {
  agent_sessions = update (running_with i) (stamp_ended w) w.db.agent_sessions;
})

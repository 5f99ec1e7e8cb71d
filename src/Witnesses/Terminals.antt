-- ===== src/Witnesses/Terminals.antt =====
-- An example for the agent sessions.
use agenthub_server.Base.{str, ◌==◌, ◌≡◌, refl, none, some, [], ◌∷◌, find, update}
use agenthub_server.Schema.{AgentSessionRow, running, stopped}
use agenthub_server.World.{World, world_of, query_row, exec, exec_update, ok}
use agenthub_server.AgentSessions.{
  AgentSession, scan_agent_session, get_agent_session, end_agent_session,
}
use agenthub_server.AgentSessions.Ended.{AgentSteps, AgentSteps, end_final}
use agenthub_server.Witnesses.Fixtures.{db, start}

abbrev terminal : AgentSessionRow
terminal = record {
  id = str "t";
  account_id = str "a";
  device_id = str "d";
  label = str "build";
  status = running;
  cwd = str "/src";
  started_at = 900;
  ended_at = none;
  last_activity_at = 950;
}

abbrev working : World
working = record start { db = record db { agent_sessions = terminal ∷ [] } }

abbrev finished : World
finished = world_of (end_agent_session (str "t") working)

ends : end_agent_session (str "t") working ≡ ok tt finished
unfolding end_agent_session exec_update exec
ends = refl

abbrev got : World
got = world_of (get_agent_session (str "t") finished)

abbrev ended_terminal : AgentSession
ended_terminal = scan_agent_session (record terminal { status = stopped; ended_at = some 1000 })

gets : get_agent_session (str "t") finished ≡ ok ended_terminal got
unfolding end_agent_session exec_update exec get_agent_session query_row find update ◌==◌
gets = refl

end_final_example : ended_terminal.status ≡ stopped
end_final_example =
    end_final (str "t") working finished finished got ended_terminal ends AgentSteps.start gets

-- ===== src/AgentSessions/Ended.antt =====
-- A session that has ended does not run again.
use agenthub_server.Base.{
  Text, ◌==◌, ◌≡◌, ◌∙◌, ap, true, false, some, [], ◌∷◌, ◌++◌, ◌⊎◌, inl, inr, arith, find, has,
  find_test, find-has-false, has-append, has-update-false, has-update_gone, update,
}
use agenthub_server.Schema.{Database, AgentSessionRow, stopped}
use agenthub_server.Schema.Inserts.{insert_agent_session}
use agenthub_server.World.{World, ok, world_of, query_row, exec, exec_update}
use agenthub_server.AgentSessions.{
  AgentSession, agent_session_row, create_agent_session, scan_agent_session, agent_session_with,
  get_agent_session, stamp_activity, touch_activity, running_with, stamp_ended, end_agent_session,
}

-- No session of this id runs.
abbrev pub IsEnded : Text → Database → Type 0
IsEnded i d = has (running_with i) d.agent_sessions ≡ false

-- A call of the package that writes, or another call, which leaves the table alone. A session that
-- is created has another id: ids are drawn once (uuid.NewV7).
pub data AgentStep (i : Text) (w : World) : World → Type 0 where
  creating :
      (s : AgentSession) → (s.id == i) ≡ false → AgentStep i w (world_of (create_agent_session s w))
  touching : (j : Text) → AgentStep i w (world_of (touch_activity j w))
  ending : (j : Text) → AgentStep i w (world_of (end_agent_session j w))
  elsewhere : (v : World) → v.db.agent_sessions ≡ w.db.agent_sessions → AgentStep i w v

pub data AgentSteps (i : Text) (w : World) : World → Type 0 where
  start : AgentSteps i w w
  after : {u v : World} → AgentSteps i w u → AgentStep i u v → AgentSteps i w v

create-rows :
    (s : AgentSession) (w : World)
    → ((world_of (create_agent_session s w)).db.agent_sessions ≡ w.db.agent_sessions)
      ⊎ ((world_of (create_agent_session s w)).db.agent_sessions
          ≡ w.db.agent_sessions ++ agent_session_row s w ∷ [])
unfolding create_agent_session exec insert_agent_session
create-rows s w = ground arith

create-IsEnded :
    (i : Text) (s : AgentSession) (w : World)
    → (s.id == i) ≡ false
    → IsEnded i w.db
    → IsEnded i (world_of (create_agent_session s w)).db
unfolding has
create-IsEnded i s w other h = elim (create-rows s w) [
  | inl same ↦ ap (has (running_with i)) same ∙ h
  | inr grown ↦
      ap (has (running_with i)) grown
      ∙ (has-append (running_with i) w.db.agent_sessions (agent_session_row s w ∷ [])
          ∙ ground arith)
]

touch-rows :
    (j : Text) (w : World)
    → ((world_of (touch_activity j w)).db.agent_sessions ≡ w.db.agent_sessions)
      ⊎ ((world_of (touch_activity j w)).db.agent_sessions
          ≡ update (agent_session_with j) (stamp_activity w) w.db.agent_sessions)
unfolding touch_activity exec_update exec
touch-rows j w = ground arith

touch-IsEnded :
    (i j : Text) (w : World) → IsEnded i w.db → IsEnded i (world_of (touch_activity j w)).db
touch-IsEnded i j w h = elim (touch-rows j w) [
  | inl same ↦ ap (has (running_with i)) same ∙ h
  | inr stamped ↦
      ap (has (running_with i)) stamped
      ∙ has-update-false (running_with i) (agent_session_with j) (stamp_activity w)
          w.db.agent_sessions (λ r k. k) h
]

end-rows :
    (j : Text) (w : World)
    → ((world_of (end_agent_session j w)).db.agent_sessions ≡ w.db.agent_sessions)
      ⊎ ((world_of (end_agent_session j w)).db.agent_sessions
          ≡ update (running_with j) (stamp_ended w) w.db.agent_sessions)
unfolding end_agent_session exec_update exec
end-rows j w = ground arith

end-keeps-IsEnded :
    (i j : Text) (w : World) → IsEnded i w.db → IsEnded i (world_of (end_agent_session j w)).db
end-keeps-IsEnded i j w h = elim (end-rows j w) [
  | inl same ↦ ap (has (running_with i)) same ∙ h
  | inr stamped ↦
      ap (has (running_with i)) stamped
      ∙ has-update-false (running_with i) (running_with j) (stamp_ended w) w.db.agent_sessions
          (λ r k. ground arith) h
]

step-IsEnded : {i : Text} {w v : World} → AgentStep i w v → IsEnded i w.db → IsEnded i v.db
step-IsEnded {i} {w} (creating s other) h = create-IsEnded i s w other h
step-IsEnded {i} {w} (touching j) h = touch-IsEnded i j w h
step-IsEnded {i} {w} (ending j) h = end-keeps-IsEnded i j w h
step-IsEnded {i} {w} (elsewhere v same) h = ap (has (running_with i)) same ∙ h

steps-IsEnded : {i : Text} {w v : World} → IsEnded i w.db → AgentSteps i w v → IsEnded i v.db
steps-IsEnded h start = h
steps-IsEnded h (after steps step) = step-IsEnded step (steps-IsEnded h steps)

end-IsEnded :
    (i : Text) (w : World) {w' : World} → end_agent_session i w ≡ ok tt w' → IsEnded i w'.db
unfolding end_agent_session exec_update exec
end-IsEnded i w h = ground (
  arith,
  has-update_gone (running_with i) (stamp_ended w) w.db.agent_sessions (λ r k. ground arith),
)

got-row :
    (i : Text) (w : World) {s : AgentSession} {w' : World}
    → get_agent_session i w ≡ ok s w'
    → (r : AgentSessionRow) × (find (agent_session_with i) w.db.agent_sessions ≡ some r)
      × (s ≡ scan_agent_session r)
unfolding get_agent_session query_row
got-row i w h = ground arith

-- After a successful End, and any sequence of the package's writes and of calls that leave the table
-- alone, whatever fails meanwhile, where no session is created under the same id, GetByID of the id
-- never returns a session that runs: its status is stopped.
pub end_final :
    (i : Text) (w w₁ w₂ w₃ : World) (s : AgentSession)
    → end_agent_session i w ≡ ok tt w₁
    → AgentSteps i w₁ w₂
    → get_agent_session i w₂ ≡ ok s w₃
    → s.status ≡ stopped
end_final i w w₁ w₂ w₃ s ended steps got =
    let (r, at, scanned) = got-row i w₂ got in
    let idle =
      find-has-false (running_with i) (agent_session_with i) w₂.db.agent_sessions at
        (steps-IsEnded (end-IsEnded i w ended) steps) in
    ap (λ (x : AgentSession). x.status) scanned
    ∙ stopped_row i r (find_test (agent_session_with i) w₂.db.agent_sessions at) idle
  where
    stopped_row :
        (i : Text) (r : AgentSessionRow)
        → (r.id == i) ≡ true
        → running_with i r ≡ false
        → r.status ≡ stopped
    stopped_row i r same idle = ground arith

-- ===== src/Api/Sessions/Keeps.antt =====
-- What each session endpoint does to the rows.
use agenthub_server.Base.{
  Text, ◌≡◌, refl, sym, subst, Bool, true, Option, none, some, List, [], ◌∷◌, ◌++◌, ◌⊎◌, inl, inr,
  arith, find, update, find-append-some, find-append-none, ◌∙◌, ==_refl,
}
use agenthub_server.Schema.{AgentSessionRow}
use agenthub_server.Schema.Inserts.{insert_agent_session}
use agenthub_server.World.{World, Env, query, query_row, exec, exec_update}
use agenthub_server.AgentSessions.{
  agent_session_row, create_agent_session, agent_session_with, get_agent_session,
  list_agent_sessions, stamp_activity, touch_activity, running_with, stamp_ended, end_agent_session,
}
use agenthub_server.Auth.Middleware.{Identity}
use agenthub_server.Api.Sessions.{
  CreateSessionReq, session_input, start_session, create_session_handler, list_sessions_handler,
  touch_session, touch_session_handler, end_session, end_session_handler, SessionRequest,
  session_group, list, create, touch, end_at,
}
use agenthub_server.Api.Sessions.Rows.{is_own_row, AddsOwn, Keeps, others_same, update-Keeps}

-- The two updates
abbrev touched_rows : Text → World → List AgentSessionRow
touched_rows id w = update (agent_session_with id) (stamp_activity w) w.db.agent_sessions

abbrev ended_rows : Text → World → List AgentSessionRow
ended_rows id w = update (running_with id) (stamp_ended w) w.db.agent_sessions

touch_own :
    (c : Identity) (id : Text) (w : World) (own : AgentSessionRow)
    → find (agent_session_with id) w.db.agent_sessions ≡ some own
    → ((touch_session_handler c id w).world.db.agent_sessions ≡ w.db.agent_sessions)
      ⊎ ((is_own_row c own ≡ true)
          × ((touch_session_handler c id w).world.db.agent_sessions ≡ touched_rows id w))
unfolding touch_session_handler touch_session touch_activity get_agent_session exec_update exec
    query_row
touch_own c id w own there = ground (arith, there)

touch_missing :
    (c : Identity) (id : Text) (w : World)
    → find (agent_session_with id) w.db.agent_sessions ≡ none
    → (touch_session_handler c id w).world.db.agent_sessions ≡ w.db.agent_sessions
unfolding touch_session_handler get_agent_session query_row
touch_missing c id w missing = ground (arith, missing)

end_own :
    (c : Identity) (id : Text) (w : World) (own : AgentSessionRow)
    → find (agent_session_with id) w.db.agent_sessions ≡ some own
    → ((end_session_handler c id w).world.db.agent_sessions ≡ w.db.agent_sessions)
      ⊎ ((is_own_row c own ≡ true)
          × ((end_session_handler c id w).world.db.agent_sessions ≡ ended_rows id w))
unfolding end_session_handler end_session end_agent_session get_agent_session exec_update exec
    query_row
end_own c id w own there = ground (arith, there)

end_missing :
    (c : Identity) (id : Text) (w : World)
    → find (agent_session_with id) w.db.agent_sessions ≡ none
    → (end_session_handler c id w).world.db.agent_sessions ≡ w.db.agent_sessions
unfolding end_session_handler get_agent_session query_row
end_missing c id w missing = ground (arith, missing)

touch-Keeps :
    (c : Identity) (id : Text) (w : World) (o : Option AgentSessionRow)
    → find (agent_session_with id) w.db.agent_sessions ≡ o
    → Keeps c w.db.agent_sessions (touch_session_handler c id w).world.db.agent_sessions
touch-Keeps c id w none missing = others_same c w.db.agent_sessions _ (touch_missing c id w missing)
touch-Keeps c id w (some own) there =
    update-Keeps c w (agent_session_with id) (stamp_activity w) id _ own (λ x. refl) (λ x. refl)
      (λ x e. e) there (touch_own c id w own there)

end-Keeps :
    (c : Identity) (id : Text) (w : World) (o : Option AgentSessionRow)
    → find (agent_session_with id) w.db.agent_sessions ≡ o
    → Keeps c w.db.agent_sessions (end_session_handler c id w).world.db.agent_sessions
end-Keeps c id w none missing = others_same c w.db.agent_sessions _ (end_missing c id w missing)
end-Keeps c id w (some own) there =
    update-Keeps c w (running_with id) (stamp_ended w) id _ own (λ x. refl) (λ x. refl)
      (λ x e. ground arith) there (end_own c id w own there)

-- A creation adds a row at the end, or nothing.
create_rows :
    (env : Env) (c : Identity) (b : CreateSessionReq) (w : World)
    → ((create_session_handler env c (some b) w).world.db.agent_sessions ≡ w.db.agent_sessions)
      ⊎ ((create_session_handler env c (some b) w).world.db.agent_sessions
          ≡ w.db.agent_sessions
            ++ agent_session_row (session_input c (env.new_id w.fresh) b) w ∷ [])
unfolding create_session_handler start_session create_agent_session insert_agent_session
create_rows env c b w = ground arith

create_undecoded :
    (env : Env) (c : Identity) (w : World)
    → (create_session_handler env c none w).world.db.agent_sessions ≡ w.db.agent_sessions
unfolding create_session_handler
create_undecoded env c w = ground arith

sole :
    (t : AgentSessionRow → Bool) (x : AgentSessionRow) {r : AgentSessionRow}
    → find t (x ∷ []) ≡ some r
    → x ≡ r
unfolding find
sole t x h = ground arith

-- The created row is the caller's.
created-AddsOwn :
    (env : Env) (c : Identity) (b : CreateSessionReq) (w : World) (rows : List AgentSessionRow)
    → AddsOwn c rows (rows ++ agent_session_row (session_input c (env.new_id w.fresh) b) w ∷ [])
created-AddsOwn env c b w rows i r there = by_old (find (agent_session_with i) rows) refl
  where
    new : AgentSessionRow
    new = agent_session_row (session_input c (env.new_id w.fresh) b) w

    by_old :
        (o : Option AgentSessionRow)
        → find (agent_session_with i) rows ≡ o
        → (find (agent_session_with i) rows ≡ some r) ⊎ (is_own_row c r ≡ true)
    by_old (some x) e =
        let old = find-append-some (agent_session_with i) rows (new ∷ []) e in
        inl (e ∙ sym old ∙ there)
    by_old none e =
        let last : find (agent_session_with i) (new ∷ []) ≡ some r =
          sym (find-append-none (agent_session_with i) rows (new ∷ []) e) ∙ there in
        inr (last_own last)
      where
        last_own : find (agent_session_with i) (new ∷ []) ≡ some r → is_own_row c r ≡ true
        last_own h =
            let made : new ≡ r = sole (agent_session_with i) new h in
            subst (λ z. is_own_row c z ≡ true) made
              (ground (arith, ==_refl c.account_id, ==_refl c.device_id))

create-Keeps :
    (env : Env) (c : Identity) (body : Option CreateSessionReq) (w : World)
    → Keeps c w.db.agent_sessions (create_session_handler env c body w).world.db.agent_sessions
create-Keeps env c none w = others_same c w.db.agent_sessions _ (create_undecoded env c w)
create-Keeps env c (some b) w = elim (create_rows env c b w) [
  | inl same ↦ others_same c w.db.agent_sessions _ same
  | inr grown ↦ (
    (λ i r there other.
        rw grown (find-append-some (agent_session_with i) w.db.agent_sessions _ there)),
    subst (AddsOwn c w.db.agent_sessions) (sym grown)
        (created-AddsOwn env c b w w.db.agent_sessions),
  )
]

list_rows :
    (c : Identity) (w : World)
    → (list_sessions_handler c w).world.db.agent_sessions ≡ w.db.agent_sessions
unfolding list_sessions_handler list_agent_sessions query
list_rows c w = ground arith

pub group-Keeps :
    (env : Env) (r : SessionRequest) (c : Identity) (w : World)
    → Keeps c w.db.agent_sessions (session_group env r c w).world.db.agent_sessions
unfolding session_group
group-Keeps env list c w = others_same c w.db.agent_sessions _ (list_rows c w)
group-Keeps env (create body) c w = create-Keeps env c body w
group-Keeps env (touch i) c w =
    touch-Keeps c i w (find (agent_session_with i) w.db.agent_sessions) refl
group-Keeps env (end_at i) c w =
    end-Keeps c i w (find (agent_session_with i) w.db.agent_sessions) refl

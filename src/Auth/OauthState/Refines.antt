-- ===== src/Auth/OauthState/Refines.antt =====
-- The table of OAuth states is a map of pending sign-ins from which each entry is taken at most once.
use agenthub_server.Base.{
  Text, ◌==◌, ==_iff, ◌≡◌, refl, sym, ap, fun_ext, ℕ, ◌≤◌, ◌<◌, ◌*◌, false, none, some, List, [],
  ◌∷◌, ◌++◌, arith, find, has, update, if◌then◌else◌,
}
use agenthub_server.Schema.{Database, OauthStateRow}
use agenthub_server.Schema.Inserts.{insert_oauth_state, oauth_state_clash}
use agenthub_server.World.{
  Env, World, Outcome, ok, err, Err, token_not_found, token_expired, world_of, in_tx, second,
}
use agenthub_server.World.Laws.{in_tx-err-db}
use agenthub_server.Auth.OauthState.{
  OauthStateInput, OauthState, state_row, create_oauth_state, consume_oauth_state,
  consume_state_statements, state_with, consume_state_row, scan_state,
}
use agenthub_server.Auth.OauthState.Pending.{
  View, pending_row, pending_of, view, put, Event, Allows, Call, created_event, taken_event, event,
  after, create, consume,
}

-- Inserting a row whose state is new
insert-view :
    (s : Text) (i : OauthStateInput) (w : World) (rows : List OauthStateRow) (t : Text)
    → has (λ r. r.state == s) rows ≡ false
    → pending_of (find (state_with t) (rows ++ state_row i s w ∷ []))
      ≡ (if s == t then pending_row (state_row i s w) else pending_of (find (state_with t) rows))
unfolding has find
insert-view s i w [] t new = ground arith
insert-view s i w (r ∷ rows) t new =
    ground (arith, ==_iff r.state s, ==_iff r.state t, ==_iff s t, insert-view s i w rows t)

none_under :
    (s : Text) (rows : List OauthStateRow)
    → has (λ r. r.state == s) rows ≡ false
    → pending_of (find (state_with s) rows) ≡ none
unfolding has find
none_under s [] new = refl
none_under s (r ∷ rows) new = ground (arith, none_under s rows)

-- Marking the rows of a state
consume-view :
    (s : Text) (w : World) (rows : List OauthStateRow) (t : Text)
    → pending_of (find (state_with t) (update (state_with s) (consume_state_row w) rows))
      ≡ (if s == t then none else pending_of (find (state_with t) rows))
unfolding update find
consume-view s w [] t = ground arith
consume-view s w (r ∷ rows) t =
    ground (arith, ==_iff r.state s, ==_iff r.state t, ==_iff s t, consume-view s w rows t)

stored_lem :
    (env : Env) (i : OauthStateInput) (w : World) {s : Text} {v : World}
    → create_oauth_state env i w ≡ ok s v
    → (oauth_state_clash w.db (state_row i s w) ≡ false)
      × (v.db.oauth_states ≡ w.db.oauth_states ++ state_row i s w ∷ [])
unfolding create_oauth_state insert_oauth_state oauth_state_clash
stored_lem env i w h = ground arith

create-err-db :
    (env : Env) (i : OauthStateInput) (w : World) {e : Err} {v : World}
    → create_oauth_state env i w ≡ err e v
    → v.db ≡ w.db
unfolding create_oauth_state insert_oauth_state
create-err-db env i w h = ground arith

view-insert :
    (s : Text) (i : OauthStateInput) (w : World) (d : Database)
    → oauth_state_clash w.db (state_row i s w) ≡ false
    → d.oauth_states ≡ w.db.oauth_states ++ state_row i s w ∷ []
    → (view w.db s ≡ none) × (view d ≡ put (view w.db) s (pending_row (state_row i s w)))
unfolding view oauth_state_clash
view-insert s i w d new rows = (
  none_under s w.db.oauth_states new,
  fun_ext λ t. rw rows (insert-view s i w w.db.oauth_states t new),
)

create-Allows :
    (env : Env) (i : OauthStateInput) (w : World)
    → Allows w.now (view w.db) (event env (create i) w) (view (after env (create i) w).db)
unfolding event after
create-Allows env i w = by_outcome (create_oauth_state env i w) refl
  where
    by_outcome :
        (o : Outcome Text)
        → create_oauth_state env i w ≡ o
        → Allows w.now (view w.db) (created_event i w o) (view (world_of o).db)
    by_outcome (ok s v) h =
        let (new, rows) = stored_lem env i w h in view-insert s i w v.db new rows
    by_outcome (err e v) h = ap view (create-err-db env i w h)

-- What a consumption found
taken_lem :
    (s : Text) (w : World) {g : OauthState} {v : World}
    → consume_oauth_state s w ≡ ok g v
    → (r : OauthStateRow) × (find (state_with s) w.db.oauth_states ≡ some r)
      × (r.consumed_at ≡ none)
      × (w.now ≤ r.expires_at * second)
      × (g ≡ scan_state r)
      × (v.db.oauth_states ≡ update (state_with s) (consume_state_row w) w.db.oauth_states)
unfolding consume_oauth_state consume_state_statements in_tx
taken_lem s w h = ground arith

consume-err-db :
    (s : Text) (w : World) {e : Err} {v : World} → consume_oauth_state s w ≡ err e v → v.db ≡ w.db
unfolding consume_oauth_state
consume-err-db s w h = in_tx-err-db (consume_state_statements s) w h

unknown_lem :
    (s : Text) (w : World) {v : World}
    → consume_oauth_state s w ≡ err token_not_found v
    → view w.db s ≡ none
unfolding consume_oauth_state consume_state_statements in_tx view
unknown_lem s w h = ground arith

expired_lem :
    (s : Text) (w : World) {v : World}
    → consume_oauth_state s w ≡ err token_expired v
    → (r : OauthStateRow) × (find (state_with s) w.db.oauth_states ≡ some r)
      × (r.consumed_at ≡ none)
      × (r.expires_at * second < w.now)
unfolding consume_oauth_state consume_state_statements in_tx
expired_lem s w h = ground arith

view-found :
    (s : Text) (w : World) (r : OauthStateRow)
    → find (state_with s) w.db.oauth_states ≡ some r
    → r.consumed_at ≡ none
    → view w.db s ≡ some (record { state = scan_state r; expires_at = r.expires_at })
unfolding view
view-found s w r found live = ground (arith, found, live)

view-consume :
    (s : Text) (w : World) (d : Database)
    → d.oauth_states ≡ update (state_with s) (consume_state_row w) w.db.oauth_states
    → view d ≡ put (view w.db) s none
unfolding view
view-consume s w d rows = fun_ext λ t. rw rows (consume-view s w w.db.oauth_states t)

pub consume-Allows :
    (env : Env) (s : Text) (w : World)
    → Allows w.now (view w.db) (event env (consume s) w) (view (after env (consume s) w).db)
unfolding event after
consume-Allows env s w = by_outcome (consume_oauth_state s w) refl
  where
    by_outcome :
        (o : Outcome OauthState)
        → consume_oauth_state s w ≡ o
        → Allows w.now (view w.db) (taken_event s o) (view (world_of o).db)
    by_outcome (ok g v) h =
        let (r, found, live, soon, e, rows) = taken_lem s w h in
        (
          record { state = scan_state r; expires_at = r.expires_at },
          view-found s w r found live,
          sym e,
          soon,
          view-consume s w v.db rows,
        )
    by_outcome (err token_not_found v) h = (unknown_lem s w h, ap view (consume-err-db s w h))
    by_outcome (err token_expired v) h =
        let (r, found, live, late) = expired_lem s w h in
        (
          record { state = scan_state r; expires_at = r.expires_at },
          view-found s w r found live,
          late,
          ap view (consume-err-db s w h),
        )
    by_outcome (err e v) h = ap view (consume-err-db s w h)

-- Calls one after another; between two of them the clock, the failures to come and the other tables
-- may change. What each told its caller is listed with the time of the call.
pub data Run (env : Env) (w : World) : List (ℕ × Event) → World → Type 0 where
  done : Run env w [] w
  call :
      {es : List (ℕ × Event)} {v : World} (c : Call)
      → Run env w es v
      → Run env w ((v.now, event env c v) ∷ es) (after env c v)
  elsewhere :
      {es : List (ℕ × Event)} {v : World} (u : World)
      → u.db.oauth_states ≡ v.db.oauth_states
      → Run env w es v
      → Run env w es u

-- The specification allows the events, the last one first, and takes the view to another.
pub data Trace (v : View) : List (ℕ × Event) → View → Type 0 where
  done : Trace v [] v
  step :
      {es : List (ℕ × Event)} {u : View} {now : ℕ} (e : Event) (u' : View)
      → Trace v es u
      → Allows now u e u'
      → Trace v ((now, e) ∷ es) u'

call-Allows :
    (env : Env) (c : Call) (w : World)
    → Allows w.now (view w.db) (event env c w) (view (after env c w).db)
call-Allows env (create i) w = create-Allows env i w
call-Allows env (consume s) w = consume-Allows env s w

pub same_view : (d d' : Database) → d'.oauth_states ≡ d.oauth_states → view d' ≡ view d
unfolding view
same_view d d' e = fun_ext λ t. rw e refl

-- Whatever is called in whatever order, with any failures and at any times, what the callers are
-- told and the pending sign-ins that are left are those of the specification: a map from states to
-- sign-ins, in which a creation adds an entry under a new state, a consumption before the expiry
-- takes the entry out and returns its provider and redirect, one of an absent or taken state is
-- told that there is no such token, one past the expiry that it expired, and every other error
-- leaves the map as it was.
pub oauth_states_implement :
    (env : Env) {w v : World} {es : List (ℕ × Event)}
    → Run env w es v
    → Trace (view w.db) es (view v.db)
oauth_states_implement env done = done
oauth_states_implement env (call {v = v} c r) =
    step (event env c v) (view (after env c v).db) (oauth_states_implement env r)
      (call-Allows env c v)
oauth_states_implement env (elsewhere {v = v} u e r) =
    rw (same_view v.db u.db e) (oauth_states_implement env r)

-- ===== src/Auth/Sessions/Lifecycle.antt =====
-- A session is active from its creation until it expires or is revoked, and never again after that.
use agenthub_server.Base.{
  Text, ◌==◌, ==_refl, ◌≡◌, refl, ◌∙◌, false, none, some, List, [], ◌∷◌, ◌++◌, inl, inr, ◌⊎◌, find,
  find-append-none, find-append_miss, find_test, Option-cases, find-none_of_has, find-update,
  update, update-update, arith, if◌then◌else◌,
}
use agenthub_server.Schema.{Database, AuthSessionRow}
use agenthub_server.Schema.Inserts.{insert_auth_session, auth_session_clash}
use agenthub_server.Tenancy.{is_null}
use agenthub_server.World.{
  World, Outcome, ok, err, io, session_revoked, session_expired, result_of, world_of, is_after,
  seconds_after,
}
use agenthub_server.World.Laws.{exec_update-db}
use agenthub_server.Auth.Sessions.{
  SessionInput, Session, session_row, create_session, session_with, check_session_active,
  revoke_session, unrevoked, stamp_revoked,
}

pub create_session_lem :
    (i : SessionInput) (w : World) {s : Session} {w' : World}
    → create_session i w ≡ ok s w'
    → (auth_session_clash w.db (session_row i w) ≡ false)
      × (w'.db ≡ record (w.db) { auth_sessions = w.db.auth_sessions ++ session_row i w ∷ [] })
      × (s.id ≡ i.id)
unfolding create_session insert_auth_session auth_session_clash
create_session_lem i w h = ground arith

pub found_session :
    (i : SessionInput) (w : World)
    → auth_session_clash w.db (session_row i w) ≡ false
    → find (session_with i.id) (w.db.auth_sessions ++ session_row i w ∷ []) ≡ some (session_row i w)
unfolding auth_session_clash find
found_session i w h =
    let older =
      find-none_of_has (session_with i.id) (session_with i.id) w.db.auth_sessions (λ x e. e) h in
    find-append-none (session_with i.id) w.db.auth_sessions (session_row i w ∷ []) older
    ∙ ground (arith, ==_refl i.id)

-- After a successful CreateSession, where the auth_sessions table is as it left it and the database
-- does not fail, CheckSessionActive of its id succeeds exactly while the clock is not past the
-- expiry of datetime('now') + TTL, and returns ErrSessionExpired from then on.
pub check-create :
    (i : SessionInput) (w w₁ w₂ : World) (s : Session)
    → create_session i w ≡ ok s w₁
    → w₂.db.auth_sessions ≡ w₁.db.auth_sessions
    → w₂.faults ≡ []
    → result_of (check_session_active i.id w₂)
      ≡ (if is_after w₂ (seconds_after w i.ttl) then inr session_expired else inl tt)
unfolding check_session_active
check-create i w w₁ w₂ s h same calm =
    let (new, db, _) = create_session_lem i w h in ground (arith, found_session i w new)

-- The session has been revoked, or was never there.
pub record IsDead (i : Text) (d : Database) : Type 0 where
  pub dead :
      (find (session_with i) d.auth_sessions ≡ none)
      ⊎ ((r : AuthSessionRow) × (find (session_with i) d.auth_sessions ≡ some r)
          × (is_null r.revoked_at ≡ false))

-- A call of the package on the table, or another call, which leaves it alone. A session that is
-- created has another id: ids are drawn once (uuid.NewV7).
pub data SessionStep (i : Text) (w : World) : World → Type 0 where
  create :
      (s : SessionInput) → (s.id == i) ≡ false → SessionStep i w (world_of (create_session s w))
  check : (j : Text) → SessionStep i w (world_of (check_session_active j w))
  revoke : (j : Text) → SessionStep i w (world_of (revoke_session j w))
  other : (v : World) → v.db.auth_sessions ≡ w.db.auth_sessions → SessionStep i w v

pub data SessionSteps (i : Text) (w : World) : World → Type 0 where
  here : SessionSteps i w w
  next : {u v : World} → SessionSteps i w u → SessionStep i u v → SessionSteps i w v

find-created :
    (i : Text) (s : SessionInput) (w : World)
    → (s.id == i) ≡ false
    → find (session_with i) (world_of (create_session s w)).db.auth_sessions
      ≡ find (session_with i) w.db.auth_sessions
unfolding create_session insert_auth_session
find-created i s w h =
    ground (arith, find-append_miss (session_with i) w.db.auth_sessions (session_row s w) h)

-- The table after RevokeSession at `w`.
abbrev revoked_at_w : Text → World → List AuthSessionRow
revoked_at_w j w = update (unrevoked j) (stamp_revoked w) w.db.auth_sessions

found_in_revoked :
    (i j : Text) (w : World)
    → find (session_with i) (revoked_at_w j w) ≡ (elim (find (session_with i) w.db.auth_sessions) [
      | none ↦ none
      | some r ↦ some (if unrevoked j r then stamp_revoked w r else r)
    ])
found_in_revoked i j w =
    find-update (unrevoked j) (session_with i) (stamp_revoked w) w.db.auth_sessions (λ r. refl)

revoked-IsDead :
    (i j : Text) (w : World)
    → IsDead i w.db
    → IsDead i (record (w.db) { auth_sessions = revoked_at_w j w })
revoked-IsDead i j w h = record {
  dead = elim h.dead [
    | inl gone ↦ inl (rw (found_in_revoked i j w, gone))
    | inr (r, at, spent) ↦ inr (
      if unrevoked j r then stamp_revoked w r else r,
      rw (found_in_revoked i j w, at),
      ground arith,
    )
  ];
}

revoke-keeps :
    (i j : Text) (w : World) → IsDead i w.db → IsDead i (world_of (revoke_session j w)).db
unfolding revoke_session
revoke-keeps i j w h =
    elim (exec_update-db (λ v. record (v.db) { auth_sessions = revoked_at_w j v }) w) [
      | inl same ↦ rw same h
      | inr made ↦ rw made (revoked-IsDead i j w h)
    ]

revoke-db :
    (i : Text) (w : World) {w' : World}
    → revoke_session i w ≡ ok tt w'
    → w'.db ≡ record (w.db) { auth_sessions = revoked_at_w i w }
unfolding revoke_session
revoke-db i w h = ground arith

-- RevokeSession that succeeds leaves the session dead.
revoke-IsDead : (i : Text) (w : World) {w' : World} → revoke_session i w ≡ ok tt w' → IsDead i w'.db
revoke-IsDead i w h =
    rw (revoke-db i w h) (elim (Option-cases (find (session_with i) w.db.auth_sessions)) [
      | inl gone ↦ record { dead = inl (rw (found_in_revoked i i w, gone)) }
      | inr (r, at) ↦ record {
        dead = inr (
          if unrevoked i r then stamp_revoked w r else r,
          rw (found_in_revoked i i w, at),
          ground (arith, find_test (session_with i) w.db.auth_sessions at),
        );
      }
    ])

check-db : (j : Text) (w : World) → (world_of (check_session_active j w)).db ≡ w.db
unfolding check_session_active
check-db j w = ground arith

step-IsDead : {i : Text} {w v : World} → SessionStep i w v → IsDead i w.db → IsDead i v.db
step-IsDead {i} {w} (create s other_id) h = record {
  dead = rw (find-created i s w other_id) h.dead;
}
step-IsDead {i} {w} (check j) h = rw (check-db j w) h
step-IsDead {i} {w} (revoke j) h = revoke-keeps i j w h
step-IsDead (other v e) h = record { dead = rw e h.dead }

steps-IsDead : {i : Text} {w v : World} → IsDead i w.db → SessionSteps i w v → IsDead i v.db
steps-IsDead h here = h
steps-IsDead h (next r st) = step-IsDead st (steps-IsDead h r)

-- The call says that the session is revoked, or that the database failed.
abbrev pub SaysRevoked {ℓ} : {A : Type ℓ} → Outcome A → Type 0
SaysRevoked (ok a v) = ⊥
SaysRevoked (err e v) = (e ≡ session_revoked) ⊎ (e ≡ io)

check-dead : (i : Text) (w : World) → IsDead i w.db → SaysRevoked (check_session_active i w)
unfolding check_session_active
check-dead i w h = ground (arith, h.dead)

-- After a successful RevokeSession, and any sequence of the package's calls on auth_sessions and of
-- calls that leave the table alone, where no session is created under the same id,
-- CheckSessionActive of the id never succeeds: it returns ErrSessionRevoked or a database error.
pub revoke_session_final :
    (i : Text) (w w₁ w₂ : World)
    → revoke_session i w ≡ ok tt w₁
    → SessionSteps i w₁ w₂
    → SaysRevoked (check_session_active i w₂)
revoke_session_final i w w₁ w₂ h steps = check-dead i w₂ (steps-IsDead (revoke-IsDead i w h) steps)

-- A second RevokeSession keeps the stamp of the first, whenever it comes and whether it fails.
pub revoke_idempotent :
    (i : Text) (w w₁ w₂ : World)
    → revoke_session i w ≡ ok tt w₁
    → w₂.db ≡ w₁.db
    → (world_of (revoke_session i w₂)).db ≡ w₁.db
unfolding revoke_session
revoke_idempotent i w w₁ w₂ h same =
    let once = revoke-db i w h in
    let twice =
      update-update (unrevoked i) (stamp_revoked w) (stamp_revoked w₂) w.db.auth_sessions
        (λ r e. ground arith) in
    elim (exec_update-db (λ v. record (v.db) { auth_sessions = revoked_at_w i v }) w₂) [
      | inl kept ↦ kept ∙ same
      | inr made ↦ ground (arith, once, twice)
    ]

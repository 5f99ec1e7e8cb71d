-- ===== src/Httpmw/Stale.antt =====
-- Keys whose row no longer serves: they are never cached again.
use agenthub_server.Base.{
  ltb, Text, ◌==◌, ==_iff, sym, ◌≡◌, refl, subst, ◌∙◌, is_empty, ℕ, ◌≤◌, Bool, true, false, none,
  List, [], ◌∷◌, ◌++◌, ◌⊎◌, inl, inr, arith, find, has, Bool-cases, has-append, find-append-none,
  ◌&&◌,
}
use agenthub_server.Schema.{IdempotencyRow}
use agenthub_server.Schema.Inserts.{insert_idempotency_key, idempotency_clash}
use agenthub_server.World.{Env, World, query_row, exec, seconds_now, spend}
use agenthub_server.Httpmw.{
  Request, Response, Handler, HostOf, scope_of, is_cached, cache_row, store_response, run_and_store,
  idempotent,
}
use agenthub_server.Httpmw.Replay.{knows}

-- A handler that leaves the table of keys alone, and does not turn the clock back.
abbrev pub LeavesKeys : Handler → Type 0
LeavesKeys next =
    (r : Request) (w : World)
    → ((next r w).1.db.idempotency_keys ≡ w.db.idempotency_keys) × (w.now ≤ (next r w).1.now)

-- What may happen after w: requests of any kind to any such handlers, and calls, or waiting, that
-- leave the table alone.
pub data CacheSteps (env : Env) (host_of : HostOf) (ttl : ℕ) (w : World) : World → Type 0 where
  at_first : CacheSteps env host_of ttl w w
  requested :
      {u : World} (next : Handler) (r : Request)
      → LeavesKeys next
      → CacheSteps env host_of ttl w u
      → CacheSteps env host_of ttl w (idempotent env host_of ttl next r u).1
  passed :
      {u v : World}
      → v.db.idempotency_keys ≡ u.db.idempotency_keys
      → u.now ≤ v.now
      → CacheSteps env host_of ttl w u
      → CacheSteps env host_of ttl w v

-- The key has a row, and none that serves the request.
abbrev IsStale : Env → HostOf → Request → World → Type 0
IsStale env host_of r w =
    (knows host_of r w ≡ true)
    × (find (is_cached r.key (scope_of host_of r) (env.sha256_hex r.body) w) w.db.idempotency_keys
        ≡ none)

-- A row that does not serve a request does not serve it later.
later_missed :
    (key scope hash : Text) (w v : World) (ks : List IdempotencyRow)
    → w.now ≤ v.now
    → find (is_cached key scope hash w) ks ≡ none
    → find (is_cached key scope hash v) ks ≡ none
unfolding find
later_missed key scope hash w v [] later h = refl
later_missed key scope hash w v (k ∷ ks) later h =
    let seconds : seconds_now w ≤ seconds_now v = omega (arith, later) in
    ground (arith, seconds, later_missed key scope hash w v ks later)

-- The test of a row for the key and client of a request
abbrev is_for : HostOf → Request → IdempotencyRow → Bool
is_for host_of r k = k.key == r.key && k.scope == scope_of host_of r

-- What is stored: no row, or one for a key and client that had none.
stored_rows :
    (env : Env) (host_of : HostOf) (ttl : ℕ) (r : Request) (resp : Response) (v : World)
    → ((store_response env host_of ttl r resp v).now ≡ v.now)
      × (((store_response env host_of ttl r resp v).db.idempotency_keys ≡ v.db.idempotency_keys)
          ⊎ ((has (is_for host_of r) v.db.idempotency_keys ≡ false)
              × ((store_response env host_of ttl r resp v).db.idempotency_keys
                  ≡ v.db.idempotency_keys ++ cache_row env host_of ttl r resp v ∷ [])))
unfolding store_response exec insert_idempotency_key idempotency_clash
stored_rows env host_of ttl r resp v = (ground arith, ground arith)

request_rows :
    (env : Env) (host_of : HostOf) (ttl : ℕ) (next : Handler) (r : Request) (u : World)
    → LeavesKeys next
    → (u.now ≤ (idempotent env host_of ttl next r u).1.now)
      × (((idempotent env host_of ttl next r u).1.db.idempotency_keys ≡ u.db.idempotency_keys)
          ⊎ ((has (is_for host_of r) u.db.idempotency_keys ≡ false)
              × ((idempotent env host_of ttl next r u).1.db.idempotency_keys
                  ≡ u.db.idempotency_keys
                    ++ cache_row env host_of ttl r (next r (spend u)).0 (next r (spend u)).1 ∷ [])))
unfolding idempotent run_and_store query_row
request_rows env host_of ttl next r u leaves =
    let stored = stored_rows env host_of ttl r (next r (spend u)).0 (next r (spend u)).1 in
    let plain = leaves r u in
    let behind = leaves r (spend u) in
    (ground (arith, stored, plain, behind), ground (arith, stored, plain, behind))

-- A row for a key that had none is not one for a key that had one.
other_row :
    (host_of : HostOf) (r r' : Request) (hash : Text) (u : World) (k : IdempotencyRow)
    (ks : List IdempotencyRow)
    → k.key ≡ r'.key
    → k.scope ≡ scope_of host_of r'
    → has (is_for host_of r') ks ≡ false
    → has (is_for host_of r) ks ≡ true
    → is_cached r.key (scope_of host_of r) hash u k ≡ false
other_row host_of r r' hash u k ks key scope new known =
    elim (Bool-cases (is_cached r.key (scope_of host_of r) hash u k)) [
      | inr other ↦ other
      | inl same ↦
          (let same_key : r'.key ≡ r.key =
              sym key ∙ (==_iff k.key r.key).0 (ground (arith, same)) in
            let same_scope : scope_of host_of r' ≡ scope_of host_of r =
              sym scope ∙ (==_iff k.scope (scope_of host_of r)).0 (ground (arith, same)) in
            let clash : has (is_for host_of r) ks ≡ false =
              subst (λ n. has (λ x. x.key == n && x.scope == scope_of host_of r) ks ≡ false)
                same_key
                (subst (λ n. has (λ x. x.key == r'.key && x.scope == n) ks ≡ false) same_scope
                  new) in
            ground (arith, clash, known))
    ]

-- Later, with the same rows or with one more for a new key, a stale key is stale.
same_rows :
    (env : Env) (host_of : HostOf) (r : Request) (u v : World)
    → v.db.idempotency_keys ≡ u.db.idempotency_keys
    → u.now ≤ v.now
    → IsStale env host_of r u
    → IsStale env host_of r v
same_rows env host_of r u v same later (known, missed) = (
  subst (λ ks. has (is_for host_of r) ks ≡ true) (sym same) known,
  subst (λ ks. find (is_cached r.key (scope_of host_of r) (env.sha256_hex r.body) v) ks ≡ none)
      (sym same)
      (later_missed r.key (scope_of host_of r) (env.sha256_hex r.body) u v u.db.idempotency_keys
        later missed),
)

grown_rows :
    (env : Env) (host_of : HostOf) (r r' : Request) (u v : World) (k : IdempotencyRow)
    → k.key ≡ r'.key
    → k.scope ≡ scope_of host_of r'
    → has (is_for host_of r') u.db.idempotency_keys ≡ false
    → v.db.idempotency_keys ≡ u.db.idempotency_keys ++ k ∷ []
    → u.now ≤ v.now
    → IsStale env host_of r u
    → IsStale env host_of r v
unfolding find
grown_rows env host_of r r' u v k key scope new grown later (known, missed) =
    let hash = env.sha256_hex r.body in
    let still =
      later_missed r.key (scope_of host_of r) hash u v u.db.idempotency_keys later missed in
    let other = other_row host_of r r' hash v k u.db.idempotency_keys key scope new known in
    (
      subst (λ ks. has (is_for host_of r) ks ≡ true) (sym grown)
          (ground (arith, known, has-append (is_for host_of r) u.db.idempotency_keys (k ∷ []))),
      subst (λ ks. find (is_cached r.key (scope_of host_of r) hash v) ks ≡ none) (sym grown)
          (find-append-none (is_cached r.key (scope_of host_of r) hash v) u.db.idempotency_keys
              (k ∷ []) still
            ∙ ground (arith, other)),
    )

request-IsStale :
    (env : Env) (host_of : HostOf) (ttl : ℕ) (next : Handler) (r r' : Request) (u : World)
    → LeavesKeys next
    → IsStale env host_of r u
    → IsStale env host_of r (idempotent env host_of ttl next r' u).1
request-IsStale env host_of ttl next r r' u leaves (known, missed) =
    let (later, rows) = request_rows env host_of ttl next r' u leaves in by_rows later rows
  where
    by_rows :
        u.now ≤ (idempotent env host_of ttl next r' u).1.now
        → ((idempotent env host_of ttl next r' u).1.db.idempotency_keys ≡ u.db.idempotency_keys)
          ⊎ ((has (is_for host_of r') u.db.idempotency_keys ≡ false)
              × ((idempotent env host_of ttl next r' u).1.db.idempotency_keys
                  ≡ u.db.idempotency_keys
                    ++ cache_row env host_of ttl r' (next r' (spend u)).0 (next r' (spend u)).1
                      ∷ []))
        → IsStale env host_of r (idempotent env host_of ttl next r' u).1
    by_rows later (inl same) =
        same_rows env host_of r u (idempotent env host_of ttl next r' u).1 same later
          (known, missed)
    by_rows later (inr (new, grown)) =
        grown_rows env host_of r r' u (idempotent env host_of ttl next r' u).1
          (cache_row env host_of ttl r' (next r' (spend u)).0 (next r' (spend u)).1) refl refl new
          grown later (known, missed)

steps-IsStale :
    (env : Env) (host_of : HostOf) (ttl : ℕ) (r : Request) (w : World)
    → IsStale env host_of r w
    → {u : World} → CacheSteps env host_of ttl w u
    → IsStale env host_of r u
steps-IsStale env host_of ttl r w stale at_first = stale
steps-IsStale env host_of ttl r w stale (requested {u} next r' leaves steps) =
    request-IsStale env host_of ttl next r r' u leaves
      (steps-IsStale env host_of ttl r w stale steps)
steps-IsStale env host_of ttl r w stale (passed {u} {v} same later steps) =
    same_rows env host_of r u v same later (steps-IsStale env host_of ttl r w stale steps)

missed_runs :
    (env : Env) (host_of : HostOf) (ttl : ℕ) (next : Handler) (r : Request) (u : World)
    → is_empty r.key ≡ false
    → IsStale env host_of r u
    → (idempotent env host_of ttl next r u).0 ≡ (next r (spend u)).0
unfolding idempotent run_and_store query_row
missed_runs env host_of ttl next r u keyed (known, missed) = ground (arith, keyed, missed)

-- Once a key has a row for the client which does not serve a request, because it has expired or
-- stands for another body, no response to the request is ever cached again: after any number of
-- requests, of this key or others, to handlers that leave the table of keys as it is and do not turn
-- back the clock, and any passing of time, the request runs the handler that it is sent to, and is
-- answered by it.
pub stale_key_stays :
    (env : Env) (host_of : HostOf) (ttl : ℕ) (next : Handler) (r : Request) (w u : World)
    → is_empty r.key ≡ false
    → knows host_of r w ≡ true
    → find
        (λ (k : IdempotencyRow).
          k.key == r.key
          && k.scope == scope_of host_of r
          && k.request_hash == env.sha256_hex r.body
          && ltb (seconds_now w) k.expires_at)
        w.db.idempotency_keys
      ≡ none
    → CacheSteps env host_of ttl w u
    → (idempotent env host_of ttl next r u).0 ≡ (next r (spend u)).0
stale_key_stays env host_of ttl next r w u keyed known missed steps =
    missed_runs env host_of ttl next r u keyed
      (steps-IsStale env host_of ttl r w (known, missed) steps)

-- ===== src/Httpmw/Replay.antt =====
-- What the idempotency cache replays, and what it never caches.
use agenthub_server.Base.{
  ◌≤◌, ◌<◌, Text, ◌==◌, ==_iff, sym, ap, ◌≡◌, refl, subst, ◌∙◌, is_empty, ℕ, Bool, true, false,
  none, some, List, [], ◌∷◌, ◌++◌, arith, find, has, ltb, ◌&&◌,
}
use agenthub_server.Schema.{IdempotencyRow}
use agenthub_server.Schema.Inserts.{insert_idempotency_key, idempotency_clash}
use agenthub_server.World.{Env, World, query_row, exec, seconds_now, seconds_after, spend}
use agenthub_server.Httpmw.{
  Request, Response, Handler, HostOf, scope_of, effective_ttl, is_cached, cached_response,
  is_success, cache_row, store_response, run_and_store, idempotent,
}

-- The table has a row for the request's key and scope.
abbrev pub knows : HostOf → Request → World → Bool
knows host_of r w = has (λ k. k.key == r.key && k.scope == scope_of host_of r) w.db.idempotency_keys

-- Without a row for the key there is none to replay.
unknown_missed :
    (host_of : HostOf) (r : Request) (hash : Text) (w : World) (ks : List IdempotencyRow)
    → has (λ k. k.key == r.key && k.scope == scope_of host_of r) ks ≡ false
    → find (is_cached r.key (scope_of host_of r) hash w) ks ≡ none
unfolding has find
unknown_missed host_of r hash w [] h = refl
unknown_missed host_of r hash w (k ∷ ks) h = ground (arith, unknown_missed host_of r hash w ks)

-- Any request that agrees with the stored one finds its row.
found_stored :
    (env : Env) (host_of : HostOf) (ttl : ℕ) (r r' : Request) (resp : Response) (v w : World)
    (ks : List IdempotencyRow)
    → has (λ k. k.key == r.key && k.scope == scope_of host_of r) ks ≡ false
    → r'.key ≡ r.key
    → r'.body ≡ r.body
    → scope_of host_of r' ≡ scope_of host_of r
    → ltb (seconds_now w) (seconds_after v (effective_ttl ttl)) ≡ true
    → find
        (is_cached r'.key (scope_of host_of r') (env.sha256_hex r'.body) w)
        (ks ++ cache_row env host_of ttl r resp v ∷ [])
      ≡ some (cache_row env host_of ttl r resp v)
unfolding find has
found_stored env host_of ttl r r' resp v w [] h key body scope fresh = ground (
  arith,
  (==_iff r.key r'.key).1 (sym key),
  (==_iff (scope_of host_of r) (scope_of host_of r')).1 (sym scope),
  (==_iff (env.sha256_hex r.body) (env.sha256_hex r'.body)).1 (ap env.sha256_hex (sym body)),
)
found_stored env host_of ttl r r' resp v w (k ∷ ks) h key body scope fresh =
    let missed = unknown_missed host_of r' (env.sha256_hex r'.body) w (k ∷ ks) (
      subst (λ n. has (λ k. k.key == n && k.scope == scope_of host_of r') (k ∷ ks) ≡ false)
        (sym key)
        (subst (λ n. has (λ k. k.key == r.key && k.scope == n) (k ∷ ks) ≡ false) (sym scope) h)) in
    ground (arith, missed, found_stored env host_of ttl r r' resp v w ks)

-- A row that serves the request is replayed, and no handler is run.
hit :
    (env : Env) (host_of : HostOf) (ttl : ℕ) (next : Handler) (r : Request) (w : World)
    (k : IdempotencyRow)
    → is_empty r.key ≡ false
    → w.faults ≡ []
    → find (is_cached r.key (scope_of host_of r) (env.sha256_hex r.body) w) w.db.idempotency_keys
      ≡ some k
    → idempotent env host_of ttl next r w ≡ (cached_response k, spend w)
unfolding idempotent query_row
hit env host_of ttl next r w k keyed calm at = ground arith

-- A request whose key and scope are new is run, and its successful response is stored.
stored_rows :
    (env : Env) (host_of : HostOf) (ttl : ℕ) (next : Handler) (r : Request) (w : World)
    → is_empty r.key ≡ false
    → w.faults ≡ []
    → knows host_of r w ≡ false
    → (next r (spend w)).1.faults ≡ []
    → (next r (spend w)).1.db.idempotency_keys ≡ w.db.idempotency_keys
    → is_success (next r (spend w)).0.code ≡ true
    → is_empty (next r (spend w)).0.body ≡ false
    → ((idempotent env host_of ttl next r w).0 ≡ (next r (spend w)).0)
      × ((idempotent env host_of ttl next r w).1.db.idempotency_keys
          ≡ w.db.idempotency_keys
            ++ cache_row env host_of ttl r (next r (spend w)).0 (next r (spend w)).1 ∷ [])
unfolding idempotent run_and_store store_response query_row exec insert_idempotency_key
    idempotency_clash
stored_rows env host_of ttl next r w keyed calm new calm_after kept success full =
    let missed = unknown_missed host_of r (env.sha256_hex r.body) w w.db.idempotency_keys new in
    (ground arith, ground arith)

-- A handler's first successful response under a key, if it has a body, is replayed: where the handler and the
-- database do not fail and the handler leaves the table alone, a later request with the same key,
-- client address and body, of whatever method and path and to whatever handler, gets the same code
-- and body, and no handler is run, as long as the table is as it was left and the TTL (24 hours if
-- it is 0) since the first response has not passed.
pub replay_first :
    (env : Env) (host_of : HostOf) (ttl : ℕ) (next next' : Handler) (r r' : Request) (w w₂ : World)
    → is_empty r.key ≡ false
    → w.faults ≡ []
    → knows host_of r w ≡ false
    → (next r (spend w)).1.faults ≡ []
    → (next r (spend w)).1.db.idempotency_keys ≡ w.db.idempotency_keys
    → 200 ≤ (next r (spend w)).0.code
    → (next r (spend w)).0.code < 300
    → is_empty (next r (spend w)).0.body ≡ false
    → r'.key ≡ r.key
    → r'.body ≡ r.body
    → scope_of host_of r' ≡ scope_of host_of r
    → w₂.db.idempotency_keys ≡ (idempotent env host_of ttl next r w).1.db.idempotency_keys
    → w₂.faults ≡ []
    → ltb (seconds_now w₂) (seconds_after (next r (spend w)).1 (effective_ttl ttl)) ≡ true
    → idempotent env host_of ttl next' r' w₂ ≡ ((idempotent env host_of ttl next r w).0, spend w₂)
replay_first env host_of ttl next next' r r' w w₂ keyed calm new calm_after kept from_200 below_300
      full key body scope same calm₂ fresh =
    let (answer, rows) =
      stored_rows env host_of ttl next r w keyed calm new calm_after kept (ground arith) full in
    hit env host_of ttl next' r' w₂ _ (ap is_empty key ∙ keyed) calm₂ (
      subst
        (λ ks.
          find (is_cached r'.key (scope_of host_of r') (env.sha256_hex r'.body) w₂) ks
          ≡ some (cache_row env host_of ttl r (next r (spend w)).0 (next r (spend w)).1))
        (sym (same ∙ rows))
        (found_stored env host_of ttl r r' (next r (spend w)).0 (next r (spend w)).1 w₂
          w.db.idempotency_keys new key body scope fresh))
    ∙ ap (λ a. (a, spend w₂)) (sym answer)

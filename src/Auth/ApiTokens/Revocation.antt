-- ===== src/Auth/ApiTokens/Revocation.antt =====
-- A revoked ahs_ token is never accepted again.
use agenthub_server.Base.{
  Text, ◌==◌, ◌≡◌, ◌≢◌, refl, false, [], ◌∷◌, inl, inr, has, has-append, has-update-false,
  has-update_gone, find-has-false, arith, update, ==_iff,
}
use agenthub_server.Schema.{Database}
use agenthub_server.Schema.Inserts.{insert_api_token}
use agenthub_server.World.{Env, World, Outcome, ok, err, world_of}
use agenthub_server.World.Laws.{exec_update-db}
use agenthub_server.Auth.ApiTokens.{
  ApiTokenInput, ApiToken, create_api_token, lookup_api_token, revoke_api_token, live_api_token,
  hashed_as, stamp_token_revoked, stamp_used, api_token_with,
}
use agenthub_server.Auth.ApiTokens.RoundTrip.{created_token, lookup_sound, lookup-err-db}

-- No row of the id is unrevoked.
abbrev pub IsRevoked : Text → Database → Type 0
IsRevoked i d = has (live_api_token i) d.api_tokens ≡ false

-- A call of the package on the table, or another call, which leaves it alone. A token that is
-- created has another id: ids are drawn once (uuid.NewV7).
pub data TokenStep (env : Env) (i : Text) (w : World) : World → Type 0 where
  create :
      (t : ApiTokenInput)
      → (t.id == i) ≡ false
      → TokenStep env i w (world_of (create_api_token env t w))
  lookup : (raw : Text) → TokenStep env i w (world_of (lookup_api_token env raw w))
  revoke : (j : Text) → TokenStep env i w (world_of (revoke_api_token j w))
  other : (v : World) → v.db.api_tokens ≡ w.db.api_tokens → TokenStep env i w v

pub data TokenSteps (env : Env) (i : Text) (w : World) : World → Type 0 where
  unmoved : TokenSteps env i w w
  next : {u v : World} → TokenSteps env i w u → TokenStep env i u v → TokenSteps env i w v

create-IsRevoked :
    (env : Env) (i : Text) (t : ApiTokenInput) (w : World)
    → (t.id == i) ≡ false
    → IsRevoked i w.db
    → IsRevoked i (world_of (create_api_token env t w)).db
unfolding create_api_token insert_api_token has
create-IsRevoked env i t w differs h =
    ground (arith, has-append (live_api_token i) w.db.api_tokens (created_token env t w ∷ []))

used-IsRevoked :
    (i j : Text) (w : World)
    → IsRevoked i w.db
    → IsRevoked i
        (record (w.db) { api_tokens = update (api_token_with j) (stamp_used w) w.db.api_tokens })
used-IsRevoked i j w h =
    has-update-false (live_api_token i) (api_token_with j) (stamp_used w) w.db.api_tokens (λ r e. e)
      h

lookup-IsRevoked :
    (env : Env) (i raw : Text) (w : World)
    → IsRevoked i w.db
    → IsRevoked i (world_of (lookup_api_token env raw w)).db
lookup-IsRevoked env i raw w h = by_outcome (lookup_api_token env raw w) refl
  where
    by_outcome :
        (o : Outcome ApiToken) → lookup_api_token env raw w ≡ o → IsRevoked i (world_of o).db
    by_outcome (err e v) at = rw (lookup-err-db env raw w at) h
    by_outcome (ok t v) at = elim (lookup_sound env raw w at).5 [
      | inl same ↦ rw same h
      | inr used ↦ rw used (used-IsRevoked i (lookup_sound env raw w at).0.id w h)
    ]

revoke-IsRevoked :
    (i j : Text) (w : World) → IsRevoked i w.db → IsRevoked i (world_of (revoke_api_token j w)).db
unfolding revoke_api_token
revoke-IsRevoked i j w h =
    elim (exec_update-db
      (λ v. record (v.db) {
        api_tokens = update (live_api_token j) (stamp_token_revoked v) v.db.api_tokens;
      })
      w) [
        | inl same ↦ rw same h
        | inr made ↦ rw made (
            has-update-false (live_api_token i) (live_api_token j) (stamp_token_revoked w)
              w.db.api_tokens (λ r e. ground arith) h)
      ]

mark-IsRevoked :
    (i : Text) (w : World) {w' : World} → revoke_api_token i w ≡ ok tt w' → IsRevoked i w'.db
unfolding revoke_api_token
mark-IsRevoked i w h = ground (
  arith,
  has-update_gone (live_api_token i) (stamp_token_revoked w) w.db.api_tokens (λ r e. ground arith),
)

steps-IsRevoked :
    (env : Env) (i : Text) {w v : World}
    → IsRevoked i w.db
    → TokenSteps env i w v
    → IsRevoked i v.db
steps-IsRevoked env i h unmoved = h
steps-IsRevoked env i h (next r st) = one_step st (steps-IsRevoked env i h r)
  where
    one_step : {u v : World} → TokenStep env i u v → IsRevoked i u.db → IsRevoked i v.db
    one_step {u} (create t differs) k = create-IsRevoked env i t u differs k
    one_step {u} (lookup raw) k = lookup-IsRevoked env i raw u k
    one_step {u} (revoke j) k = revoke-IsRevoked i j u k
    one_step (other v e) k = rw e k

-- After a successful RevokeAPIToken of an id, and any sequence of creations under other ids,
-- lookups, revocations and calls that leave the table alone, whatever fails meanwhile, no
-- LookupAPIToken, of whatever raw token, returns a token of that id.
pub revoke_api_token_final :
    (env : Env) (i raw : Text) (w w₁ w₂ w₃ : World) (t : ApiToken)
    → revoke_api_token i w ≡ ok tt w₁
    → TokenSteps env i w₁ w₂
    → lookup_api_token env raw w₂ ≡ ok t w₃
    → t.id ≢ i
revoke_api_token_final env i raw w w₁ w₂ w₃ t h steps found same =
    let (r, at, live, _, scanned, _) = lookup_sound env raw w₂ found in
    let dead =
      find-has-false (live_api_token i) (hashed_as (env.sha256_hex raw)) w₂.db.api_tokens at
        (steps-IsRevoked env i (mark-IsRevoked i w h) steps) in
    ground (arith, ==_iff r.id i)

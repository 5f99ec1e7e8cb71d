-- ===== src/World/Laws.antt =====
-- What holds of every transaction, whatever its statements do.
use agenthub_server.Base.{ℕ, zero, suc, refl, length, length-append, [], ◌∷◌, ◌⊎◌, ◌≡◌, arith}
use agenthub_server.Schema.{Database}
use agenthub_server.World.{bytes_of, M, World, ok, err, Err, world_of, in_tx, exec_update, spend}

-- A transaction that returns an error leaves the database as it was.
pub in_tx-err-db {ℓ} :
    {A : Type ℓ} (body : M A) (w : World) {e : Err} {w' : World}
    → in_tx body w ≡ err e w'
    → w'.db ≡ w.db
unfolding in_tx
in_tx-err-db body w h = ground arith

-- A transaction that returns a result has the result and the database of its statements.
pub in_tx-ok {ℓ} :
    {A : Type ℓ} (body : M A) (w : World) {a : A} {w' : World}
    → in_tx body w ≡ ok a w'
    → (v : World) × (body (spend w) ≡ ok a v) × (w' ≡ spend v)
unfolding in_tx
in_tx-ok body w h = ground arith

pub bind-ok {ℓ κ} :
    {A : Type ℓ} {B : Type κ} (m : M A) (f : A → M B) (w : World) {b : B} {w' : World}
    → (elim (m w) [ ok a v ↦ f a v | err e v ↦ err e v ]) ≡ ok b w'
    → (a : A) × (v : World) × (m w ≡ ok a v) × (f a v ≡ ok b w')
bind-ok m f w h = ground arith

-- An UPDATE is made, or fails and changes nothing.
pub exec_update-db :
    (f : World → Database) (w : World)
    → ((world_of (exec_update f w)).db ≡ w.db) ⊎ ((world_of (exec_update f w)).db ≡ f w)
unfolding exec_update
exec_update-db f w = ground arith

pub length-bytes_of : (b : ℕ → ℕ) (n : ℕ) → length (bytes_of b n) ≡ n
unfolding bytes_of
length-bytes_of b zero = refl
length-bytes_of b (suc n) =
    omega (arith, length-append (bytes_of b n) (b n ∷ []), length-bytes_of b n)

-- ===== src/Devices/Once.antt =====
-- A pair code is redeemed at most once.
use agenthub_server.Base.{
  ap, Text, ◌==◌, ==_iff, ◌≡◌, refl, subst, ◌∙◌, map, true, false, none, some, [], ◌∷◌, ◌++◌, ◌⊎◌,
  inl, inr, arith, find, has, has-append, has-find, has-wider, has-update_same, has-update-false,
  has-update_gone, find-eq-none,
}
use agenthub_server.Schema.{Database, PairCodeRow}
use agenthub_server.Schema.Inserts.{insert_pair_code, pair_code_clash}
use agenthub_server.World.{
  Env, World, Outcome, ok, err, io, pair_code_invalid, world_of, in_tx, bytes_of,
}
use agenthub_server.Devices.{
  OnlyLinks, PairCodeInput, ClaimInput, ClaimOutput, Headscaler, issue_pair_code, claim_device,
  claim_statements, open_code, consume_code, pair_code_row, letter,
}
use agenthub_server.Devices.Claim.{Claims, claim_atomic, claimed_db}

-- The code was issued, and no row of it is open.
pub record IsUsed (code : Text) (d : Database) : Type 0 where
  pub known : has (λ r. r.code == code) d.pair_codes ≡ true
  pub closed : has (open_code code) d.pair_codes ≡ false

-- A call of the package on the pair codes, with any Headscaler, or another call, which leaves them
-- alone.
pub data CodeStep (env : Env) (w : World) : World → Type 0 where
  issue : (i : PairCodeInput) → CodeStep env w (world_of (issue_pair_code env i w))
  claim : (hs : Headscaler) (i : ClaimInput) → CodeStep env w (world_of (claim_device env hs i w))
  other : (v : World) → v.db.pair_codes ≡ w.db.pair_codes → CodeStep env w v

pub data CodeSteps (env : Env) (w : World) : World → Type 0 where
  here : CodeSteps env w w
  next : {u v : World} → CodeSteps env w u → CodeStep env u v → CodeSteps env w v

-- A code that is issued again is refused by the primary key, so an insertion opens no used code.
insert-IsUsed :
    (code : Text) (r : PairCodeRow) (d : Database)
    → IsUsed code d
    → pair_code_clash d r ≡ false
    → IsUsed code (record d { pair_codes = d.pair_codes ++ r ∷ [] })
unfolding pair_code_clash has
insert-IsUsed code r d s new = record {
  known = ground (arith, has-append (λ p. p.code == code) d.pair_codes (r ∷ []), s.known);
  closed = ground (
    arith,
    has-append (open_code code) d.pair_codes (r ∷ []),
    s.closed,
    s.known,
    ==_iff r.code code,
  );
}

-- The row that IssuePairCode inserts at `w`.
abbrev issued_row : Env → PairCodeInput → World → PairCodeRow
issued_row env i w = pair_code_row i (map letter (bytes_of (env.random_byte w.fresh) 10)) w

issue-db :
    (env : Env) (i : PairCodeInput) (w : World)
    → ((world_of (issue_pair_code env i w)).db ≡ w.db)
      ⊎ ((pair_code_clash w.db (issued_row env i w) ≡ false)
          × ((world_of (issue_pair_code env i w)).db
              ≡ record (w.db) { pair_codes = w.db.pair_codes ++ issued_row env i w ∷ [] }))
unfolding issue_pair_code insert_pair_code pair_code_clash
issue-db env i w = ground arith

-- A claim of any code opens none.
claimed-IsUsed :
    (env : Env) (code : Text) (i : ClaimInput) (w : World) (r : PairCodeRow)
    → IsUsed code w.db
    → IsUsed code (claimed_db env i w r)
claimed-IsUsed env code i w r s = record {
  known =
      has-update_same (λ p. p.code == code) (open_code i.code) (consume_code (env.new_id w.fresh) w)
        w.db.pair_codes (λ p. refl)
      ∙ s.known;
  closed =
      has-update-false (open_code code) (open_code i.code) (consume_code (env.new_id w.fresh) w)
        w.db.pair_codes (λ p e. ground arith) s.closed;
}

links-IsUsed : (code : Text) (d d' : Database) → OnlyLinks d d' → IsUsed code d → IsUsed code d'
links-IsUsed code d d' e s = record {
  known = ap (λ (x : Database). has (λ r. r.code == code) x.pair_codes) e ∙ s.known;
  closed = ap (λ (x : Database). has (open_code code) x.pair_codes) e ∙ s.closed;
}

keep-IsUsed :
    (env : Env) (code : Text) (i : ClaimInput) (w : World) (o : Outcome ClaimOutput)
    → Claims env i w o
    → IsUsed code w.db
    → IsUsed code (world_of o).db
keep-IsUsed env code i w (ok out v) (r, _, _, _, _, db, _) s =
    links-IsUsed code (claimed_db env i w r) v.db db (claimed-IsUsed env code i w r s)
keep-IsUsed env code i w (err e v) (inl same) s = rw same s
keep-IsUsed env code i w (err e v) (inr (r, _, db)) s =
    links-IsUsed code (claimed_db env i w r) v.db db (claimed-IsUsed env code i w r s)

step-IsUsed :
    (env : Env) (code : Text) {w v : World} → CodeStep env w v → IsUsed code w.db → IsUsed code v.db
step-IsUsed env code {w} (issue i) s = elim (issue-db env i w) [
  | inl same ↦ rw same s
  | inr (new, db) ↦ rw db (insert-IsUsed code (issued_row env i w) w.db s new)
]
step-IsUsed env code {w} (claim hs i) s =
    keep-IsUsed env code i w (claim_device env hs i w) (claim_atomic env hs i w) s
step-IsUsed env code (other v e) s = record { known = rw e s.known; closed = rw e s.closed }

steps-IsUsed :
    (env : Env) (code : Text) {w v : World}
    → IsUsed code w.db
    → CodeSteps env w v
    → IsUsed code v.db
steps-IsUsed env code s here = s
steps-IsUsed env code s (next r st) = step-IsUsed env code st (steps-IsUsed env code s r)

made-IsUsed :
    (env : Env) (i : ClaimInput) (w : World) (r : PairCodeRow)
    → find (open_code i.code) w.db.pair_codes ≡ some r
    → IsUsed i.code (claimed_db env i w r)
made-IsUsed env i w r at = record {
  known =
      has-update_same (λ p. p.code == i.code) (open_code i.code)
        (consume_code (env.new_id w.fresh) w) w.db.pair_codes (λ p. refl)
      ∙ has-wider (open_code i.code) (λ p. p.code == i.code) w.db.pair_codes (λ p e. ground arith)
          (has-find (open_code i.code) w.db.pair_codes at);
  closed =
      has-update_gone (open_code i.code) (consume_code (env.new_id w.fresh) w) w.db.pair_codes
        (λ p e. ground arith);
}

-- The call says that the code is invalid or expired, or that the database failed.
abbrev pub IsRefused {ℓ} : {A : Type ℓ} → Outcome A → Type 0
IsRefused (ok a v) = ⊥
IsRefused (err e v) = (e ≡ pair_code_invalid) ⊎ (e ≡ io)

closed-IsRefused :
    (env : Env) (hs : Headscaler) (i : ClaimInput) (w : World)
    → find (open_code i.code) w.db.pair_codes ≡ none
    → IsRefused (claim_device env hs i w)
unfolding claim_device in_tx claim_statements
closed-IsRefused env hs i w closed = ground arith

-- A pair code is good once: after a successful ClaimDevice, and any sequence of issues (whatever
-- codes they draw), claims (of whatever codes, by whatever Headscaler) and calls that leave the pair
-- codes alone, whatever fails meanwhile, a claim with the same code is refused with
-- ErrPairCodeInvalid or an error of the database.
pub claim_once :
    (env : Env) (hs hs' : Headscaler) (i j : ClaimInput) (w w₁ w₂ : World) (out : ClaimOutput)
    → claim_device env hs i w ≡ ok out w₁
    → CodeSteps env w₁ w₂
    → j.code ≡ i.code
    → IsRefused (claim_device env hs' j w₂)
claim_once env hs hs' i j w w₁ w₂ out h steps same =
    let (r, at, _, _, _, db, _) = subst (λ o. Claims env i w o) h (claim_atomic env hs i w) in
    let used = links-IsUsed i.code (claimed_db env i w r) w₁.db db (made-IsUsed env i w r at) in
    closed-IsRefused env hs' j w₂ (
      rw same (
        find-eq-none (open_code i.code) w₂.db.pair_codes
          (steps-IsUsed env i.code used steps).closed))

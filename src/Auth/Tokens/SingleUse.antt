-- ===== src/Auth/Tokens/SingleUse.antt =====
-- A verification token is good once, for its own purpose, until it expires.
use agenthub_server.Base.{
  Text, ==_refl, ℕ, ◌*◌, ◌≤◌, ◌≡◌, refl, Bool, none, some, [], ◌∷◌, find-append-some, find,
  find-update, update, arith, inl, inr, if◌then◌else◌, ◌⊎◌,
}
use agenthub_server.Schema.{Database, VerificationTokenRow, Purpose}
use agenthub_server.Schema.Inserts.{insert_verification_token}
use agenthub_server.World.{
  Env, World, Outcome, ok, err, Err, io, token_not_found, world_of, in_tx, seconds_now, second,
}
use agenthub_server.Auth.Tokens.Created.{created_row}
use agenthub_server.World.Laws.{in_tx-err-db}
use agenthub_server.Auth.Tokens.{
  VerificationToken, VerificationTokenInput, consume_verification_token, consume_statements,
  create_verification_token, token_matches, scan_token, with_id, consume_row,
}

-- If a token is consumed, the row that the hash and the purpose select was not consumed before and
-- has not expired, and its columns are what is returned; exactly the rows of its id are marked.
pub consume_lem :
    (env : Env) (raw : Text) (p : Purpose) (w : World) {t : VerificationToken} {w' : World}
    → consume_verification_token env raw p w ≡ ok t w'
    → (r : VerificationTokenRow) × (find
          (token_matches (env.sha256_hex raw) p)
          w.db.verification_tokens
        ≡ some r)
      × (r.consumed_at ≡ none)
      × (w.now ≤ r.expires_at * second)
      × (t ≡ scan_token r)
      × (w'.db ≡ record (w.db) {
        verification_tokens = update (with_id r.id) (consume_row w) w.db.verification_tokens;
      })
unfolding consume_verification_token consume_statements in_tx
consume_lem env raw p w h = ground arith

-- The row that the hash and the purpose select has been consumed.
pub record IsSpent (hash : Text) (p : Purpose) (d : Database) : Type 0 where
  pub row : VerificationTokenRow
  pub at : ℕ
  pub selected : find (token_matches hash p) d.verification_tokens ≡ some row
  pub spent : row.consumed_at ≡ some at

-- A call of the package on the table, or another call, which leaves the table alone; the clock and
-- the failures to come may change between two calls.
pub data TokenStep (env : Env) (w : World) : World → Type 0 where
  create :
      (i : VerificationTokenInput) → TokenStep env w (world_of (create_verification_token env i w))
  consume :
      (raw : Text) (p : Purpose)
      → TokenStep env w (world_of (consume_verification_token env raw p w))
  other : (v : World) → v.db.verification_tokens ≡ w.db.verification_tokens → TokenStep env w v

pub data TokenSteps (env : Env) (w : World) : World → Type 0 where
  here : TokenSteps env w w
  next : {u v : World} → TokenSteps env w u → TokenStep env u v → TokenSteps env w v

keeps_columns :
    (hash : Text) (p : Purpose) (w : World) (r : VerificationTokenRow)
    → token_matches hash p (consume_row w r) ≡ token_matches hash p r
keeps_columns hash p w r = refl

mark-IsSpent :
    (hash i : Text) (p : Purpose) (w : World)
    → IsSpent hash p w.db
    → IsSpent hash p (record (w.db) {
      verification_tokens = update (with_id i) (consume_row w) w.db.verification_tokens;
    })
mark-IsSpent hash i p w s = record {
  row = if with_id i s.row then consume_row w s.row else s.row;
  at = if with_id i s.row then seconds_now w else s.at;
  selected = rw (
    find-update (with_id i) (token_matches hash p) (consume_row w) w.db.verification_tokens
        (keeps_columns hash p w),
    s.selected,
  );
  spent = ground (arith, s.spent);
}

create-keeps_found :
    (env : Env) (i : VerificationTokenInput) (w : World) (q : VerificationTokenRow → Bool)
    {r : VerificationTokenRow}
    → find q w.db.verification_tokens ≡ some r
    → find q (world_of (create_verification_token env i w)).db.verification_tokens ≡ some r
unfolding create_verification_token insert_verification_token
create-keeps_found env i w q {r} h =
    ground (arith, find-append-some q w.db.verification_tokens (created_row env i w ∷ []) {x = r})

-- A consumption that returns an error leaves the database as it was.
pub consume-err-db :
    (env : Env) (raw : Text) (p : Purpose) (w : World) {e : Err} {w' : World}
    → consume_verification_token env raw p w ≡ err e w'
    → w'.db ≡ w.db
unfolding consume_verification_token
consume-err-db env raw p w h = in_tx-err-db (consume_statements env raw p) w h

-- A consumption marks the rows of one id, or changes nothing.
consume-marks :
    (env : Env) (raw : Text) (p : Purpose) (w : World)
    → ((world_of (consume_verification_token env raw p w)).db ≡ w.db)
      ⊎ ((i : Text) × ((world_of (consume_verification_token env raw p w)).db ≡ record (w.db) {
        verification_tokens = update (with_id i) (consume_row w) w.db.verification_tokens;
      }))
consume-marks env raw p w = by_outcome (consume_verification_token env raw p w) refl
  where
    by_outcome :
        (o : Outcome VerificationToken)
        → consume_verification_token env raw p w ≡ o
        → ((world_of o).db ≡ w.db)
          ⊎ ((i : Text) × ((world_of o).db ≡ record (w.db) {
            verification_tokens = update (with_id i) (consume_row w) w.db.verification_tokens;
          }))
    by_outcome (ok t v) h = let c = consume_lem env raw p w h in inr (c.0.id, c.5)
    by_outcome (err e v) h = inl (consume-err-db env raw p w h)

step-IsSpent :
    (env : Env) (hash : Text) (p : Purpose) {w v : World}
    → TokenStep env w v
    → IsSpent hash p w.db
    → IsSpent hash p v.db
step-IsSpent env hash p {w} (create i) s = record {
  row = s.row;
  at = s.at;
  selected = create-keeps_found env i w (token_matches hash p) s.selected;
  spent = s.spent;
}
step-IsSpent env hash p {w} (consume raw p') s = elim (consume-marks env raw p' w) [
  | inl same ↦ rw same s
  | inr (i, e) ↦ rw e (mark-IsSpent hash i p w s)
]
step-IsSpent env hash p (other v e) s = record {
  row = s.row;
  at = s.at;
  selected = rw e s.selected;
  spent = s.spent;
}

steps-IsSpent :
    (env : Env) (hash : Text) (p : Purpose) {w v : World}
    → IsSpent hash p w.db
    → TokenSteps env w v
    → IsSpent hash p v.db
steps-IsSpent env hash p s here = s
steps-IsSpent env hash p s (next r st) = step-IsSpent env hash p st (steps-IsSpent env hash p s r)

-- The call reports that there is no such token, or an error of the database.
abbrev pub IsRefused {ℓ} : {A : Type ℓ} → Outcome A → Type 0
IsRefused (ok a v) = ⊥
IsRefused (err e v) = (e ≡ token_not_found) ⊎ (e ≡ io)

refused :
    (env : Env) (raw : Text) (p : Purpose) (w : World)
    → IsSpent (env.sha256_hex raw) p w.db
    → IsRefused (consume_verification_token env raw p w)
unfolding consume_verification_token consume_statements in_tx
refused env raw p w s = ground (arith, s.selected, s.spent)

consumed-IsSpent :
    (env : Env) (raw : Text) (p : Purpose) (w : World) {t : VerificationToken} {w' : World}
    → consume_verification_token env raw p w ≡ ok t w'
    → IsSpent (env.sha256_hex raw) p w'.db
consumed-IsSpent env raw p w h =
    let (r, at, fresh, soon, e, db) = consume_lem env raw p w h in
    rw db (record {
      row = consume_row w r;
      at = seconds_now w;
      selected =
          rw
            (
              find-update (with_id r.id) (token_matches (env.sha256_hex raw) p) (consume_row w)
                  w.db.verification_tokens (keeps_columns (env.sha256_hex raw) p w),
              at,
            )
            (ground (arith, ==_refl r.id));
      spent = refl;
    })

-- A verification token is good once: after a successful ConsumeVerificationToken, and any sequence
-- of creations, consumptions and calls that leave the table alone, whatever fails meanwhile, the
-- same raw token for the same purpose is refused with ErrTokenNotFound or an error of the database.
pub consume_once :
    (env : Env) (raw : Text) (p : Purpose) (w : World) {t : VerificationToken} {w₁ w₂ : World}
    → consume_verification_token env raw p w ≡ ok t w₁
    → TokenSteps env w₁ w₂
    → IsRefused (consume_verification_token env raw p w₂)
consume_once env raw p w {w₂ = w₂} h steps =
    refused env raw p w₂
      (steps-IsSpent env (env.sha256_hex raw) p (consumed-IsSpent env raw p w h) steps)

-- ===== src/Devices/Claim.antt =====
-- What a claim has done, when it succeeds and when it fails.
use agenthub_server.Base.{
  Text, str, ◌==◌, ==_refl, ◌≡◌, refl, ap, subst, ◌∙◌, suc, ◌≤◌, ◌*◌, false, ◌||◌, none, some, [],
  ◌∷◌, ◌++◌, ◌⊎◌, inl, inr, arith, find, find-none_of_has, find-append-none, update,
}
use agenthub_server.Schema.{Database, PairCodeRow, ApiTokenRow}
use agenthub_server.Schema.Inserts.{insert_device, insert_api_token, api_token_clash}
use agenthub_server.World.{
  Env, World, Outcome, ok, err, second, in_tx, spend, bytes_of, result_of, seconds_now,
}
use agenthub_server.World.Laws.{in_tx-ok, in_tx-err-db}
use agenthub_server.Auth.ApiTokens.{api_token_prefix, lookup_api_token, hashed_as}
use agenthub_server.Devices.{
  ClaimInput, ClaimOutput, Claimed, Device, PreAuthKey, Headscaler, OnlyLinks, claim_statements,
  claim_device, claimed_device, device_row, device_token_row, open_code, consume_code, mint_input,
}

-- The raw token that the statements of a claim draw at `w`.
abbrev pub drawn_api_token : Env → World → Text
drawn_api_token env w =
    api_token_prefix ++ env.base64_url (bytes_of (env.random_byte (suc (suc w.fresh))) 32)

-- The device, and the row of its token, that a claim at `w` of the code's row makes.
abbrev pub new_device : Env → ClaimInput → World → PairCodeRow → Device
new_device env i w r = claimed_device i (env.new_id w.fresh) r.account_id r.user_id

abbrev pub new_token : Env → ClaimInput → World → PairCodeRow → ApiTokenRow
new_token env i w r =
    device_token_row (new_device env i w r) (env.new_id (suc w.fresh))
      (env.sha256_hex (drawn_api_token env w)) w

-- The database after a claim at `w`: the code is consumed by the new device, and the device and its
-- token are there.
abbrev pub claimed_db : Env → ClaimInput → World → PairCodeRow → Database
claimed_db env i w r = record (w.db) {
  pair_codes = update (open_code i.code) (consume_code (env.new_id w.fresh) w) w.db.pair_codes;
  devices = w.db.devices ++ device_row (new_device env i w r) w ∷ [];
  api_tokens = w.db.api_tokens ++ new_token env i w r ∷ [];
}

statements_lem :
    (env : Env) (i : ClaimInput) (w : World) {c : Claimed} {w' : World}
    → claim_statements env i w ≡ ok c w'
    → (r : PairCodeRow) × (find (open_code i.code) w.db.pair_codes ≡ some r)
      × (w.now ≤ r.expires_at * second)
      × (c ≡ record {
        device = new_device env i w r;
        api_token = drawn_api_token env w;
        api_token_id = env.new_id (suc w.fresh);
      })
      × (w'.db ≡ claimed_db env i w r)
      × (api_token_clash w.db (new_token env i w r) ≡ false)
unfolding claim_statements insert_device insert_api_token api_token_clash
statements_lem env i w h = ground arith

-- The transaction, if it commits, has made a claim at `w`.
pub committed_lem :
    (env : Env) (i : ClaimInput) (w : World) {c : Claimed} {w' : World}
    → in_tx (claim_statements env i) w ≡ ok c w'
    → (r : PairCodeRow) × (find (open_code i.code) w.db.pair_codes ≡ some r)
      × (w.now ≤ r.expires_at * second)
      × (c ≡ record {
        device = new_device env i w r;
        api_token = drawn_api_token env w;
        api_token_id = env.new_id (suc w.fresh);
      })
      × (w'.db ≡ claimed_db env i w r)
      × (api_token_clash w.db (new_token env i w r) ≡ false)
committed_lem env i w h =
    let (v, body, spent) = in_tx-ok (claim_statements env i) w h in
    let (r, at, open_still, made, db, new) = statements_lem env i (spend w) body in
    (r, at, open_still, made, ap (λ (u : World). u.db) spent ∙ db, new)

-- What a call of ClaimDevice at `w` has done.
abbrev pub Claims : Env → ClaimInput → World → Outcome ClaimOutput → Type 0
Claims env i w (ok out v) =
    (r : PairCodeRow) × (find (open_code i.code) w.db.pair_codes ≡ some r)
    × (w.now ≤ r.expires_at * second)
    × (out.device ≡ new_device env i w r)
    × (out.api_token ≡ drawn_api_token env w)
    × OnlyLinks (claimed_db env i w r) v.db
    × (api_token_clash w.db (new_token env i w r) ≡ false)
Claims env i w (err e v) =
    (v.db ≡ w.db)
    ⊎ ((r : PairCodeRow) × (find (open_code i.code) w.db.pair_codes ≡ some r)
        × OnlyLinks (claimed_db env i w r) v.db)

-- Whatever fails and whenever, a claim is whole or absent. If ClaimDevice succeeds, the code was
-- open and had not expired, the code is consumed by the new device, and the device and an API token
-- bound to it stand in the account and under the user that issued the code, not the claimer's; the
-- answer has that device and that raw token. If it returns an error, either the database is as it
-- was, or all of that is there and minting the pre-auth key failed after the commit. Besides that,
-- only the links that the Headscaler keeps may change.
pub claim_atomic :
    (env : Env) (hs : Headscaler) (i : ClaimInput) (w : World)
    → Claims env i w (claim_device env hs i w)
unfolding claim_device
claim_atomic env hs i w = by_tx (in_tx (claim_statements env i) w) refl
  where
    by_mint :
        (c : Claimed) (u : World) (r : PairCodeRow)
        → find (open_code i.code) w.db.pair_codes ≡ some r
        → w.now ≤ r.expires_at * second
        → c ≡ record {
          device = new_device env i w r;
          api_token = drawn_api_token env w;
          api_token_id = env.new_id (suc w.fresh);
        }
        → u.db ≡ claimed_db env i w r
        → api_token_clash w.db (new_token env i w r) ≡ false
        → (o : Outcome PreAuthKey) → hs.mint (mint_input c.device) u ≡ o
        → Claims env i w (elim o [
          | ok key v ↦
              ok
                (record {
                  device = c.device;
                  api_token = c.api_token;
                  api_token_id = c.api_token_id;
                  pre_auth_key = key;
                })
                v
          | err e v ↦ err e v
        ])
    by_mint c u r at open_still made db new (ok key v) m = (
      r,
      at,
      open_still,
      ap (λ (d : Claimed). d.device) made,
      ap (λ (d : Claimed). d.api_token) made,
      ground (arith, hs.mint-db (mint_input c.device) u m, db),
      new,
    )
    by_mint c u r at open_still made db new (err e v) m =
        inr (r, at, ground (arith, hs.mint-err-db (mint_input c.device) u m, db))

    by_tx :
        (o : Outcome Claimed)
        → in_tx (claim_statements env i) w ≡ o
        → Claims env i w (elim o [
          | ok c u ↦ (elim (hs.mint (mint_input c.device) u) [
            | ok key v ↦
                ok
                  (record {
                    device = c.device;
                    api_token = c.api_token;
                    api_token_id = c.api_token_id;
                    pre_auth_key = key;
                  })
                  v
            | err e v ↦ err e v
          ])
          | err e v ↦ err e v
        ])
    by_tx (ok c u) h =
        let (r, at, open_still, made, db, new) = committed_lem env i w h in
        by_mint c u r at open_still made db new (hs.mint (mint_input c.device) u) refl
    by_tx (err e v) h = inl (in_tx-err-db (claim_statements env i) w h)

found_new_token :
    (env : Env) (i : ClaimInput) (w : World) (r : PairCodeRow)
    → api_token_clash w.db (new_token env i w r) ≡ false
    → find (hashed_as (env.sha256_hex (drawn_api_token env w))) (claimed_db env i w r).api_tokens
      ≡ some (new_token env i w r)
unfolding api_token_clash find
found_new_token env i w r h =
    let hash = env.sha256_hex (drawn_api_token env w) in
    let older =
      find-none_of_has (λ t. t.id == env.new_id (suc w.fresh) || t.token_hash == hash)
        (hashed_as hash) w.db.api_tokens (λ x e. ground arith) h in
    find-append-none (hashed_as hash) w.db.api_tokens (new_token env i w r ∷ []) older
    ∙ ground (arith, ==_refl hash)

-- The token that a claim hands out works: where the api_tokens table is as the claim left it and the
-- database does not fail, LookupAPIToken of it succeeds with the claim's account, user and device.
pub claim-lookup :
    (env : Env) (hs : Headscaler) (i : ClaimInput) (w w₁ w₂ : World) (out : ClaimOutput)
    → claim_device env hs i w ≡ ok out w₁
    → w₂.db.api_tokens ≡ w₁.db.api_tokens
    → w₂.faults ≡ []
    → result_of (lookup_api_token env out.api_token w₂)
      ≡ inl (record {
        id = env.new_id (suc w.fresh);
        account_id = out.device.account_id;
        user_id = out.device.user_id;
        device_id = out.device.id;
        name = str "device:" ++ i.name;
        created_at = some (seconds_now w * second);
        last_used_at = none;
        expires_at = none;
      })
unfolding lookup_api_token
claim-lookup env hs i w w₁ w₂ out h same calm =
    let (r, at, _, device, token, db, new) =
      subst (λ o. Claims env i w o) h (claim_atomic env hs i w) in
    ground (arith, found_new_token env i w r new, ap (λ (d : Database). d.api_tokens) db)

-- ===== src/Devices/Complete.antt =====
-- An open code is redeemed.
use agenthub_server.Base.{◌==◌, ◌&&◌, ◌≡◌, suc, true, false, some, [], inl, arith, ap, ◌∙◌, find}
use agenthub_server.Schema.{PairCodeRow}
use agenthub_server.Tenancy.{is_null}
use agenthub_server.Schema.Inserts.{
  insert_device, insert_api_token, user_exists, account_exists, device_clash, api_token_clash,
}
use agenthub_server.World.{
  Env, World, Outcome, ok, err, world_of, result_of, query_row, exec, exec_update, new_id, in_tx,
  is_after, random_bytes,
}
use agenthub_server.Auth.Hash.{random_token}
use agenthub_server.Auth.ApiTokens.{generate_api_token_raw}
use agenthub_server.Devices.{
  Headscaler, ClaimInput, ClaimOutput, Claimed, PreAuthKey, claim_device, claim_statements,
  open_code, device_row, mint_input,
}
use agenthub_server.Devices.Claim.{new_device, new_token, drawn_api_token}

-- What the transaction of a claim hands on.
abbrev committed : Env → ClaimInput → World → PairCodeRow → Claimed
committed env i w r = record {
  device = new_device env i w r;
  api_token = drawn_api_token env w;
  api_token_id = env.new_id (suc w.fresh);
}

commits :
    (env : Env) (i : ClaimInput) (w : World) (r : PairCodeRow)
    → w.faults ≡ []
    → find (open_code i.code) w.db.pair_codes ≡ some r
    → is_after w r.expires_at ≡ false
    → account_exists w.db r.account_id ≡ true
    → user_exists w.db r.user_id ≡ true
    → device_clash w.db (device_row (new_device env i w r) w) ≡ false
    → api_token_clash w.db (new_token env i w r) ≡ false
    → result_of (in_tx (claim_statements env i) w) ≡ inl (committed env i w r)
unfolding in_tx claim_statements query_row exec_update exec new_id insert_device insert_api_token
    generate_api_token_raw random_token random_bytes user_exists account_exists device_clash
    api_token_clash
commits env i w r calm at fresh account user new_dev new_tok = ground arith

-- The key is minted for what was committed.
abbrev minted : Headscaler → Outcome Claimed → Outcome ClaimOutput
minted hs o = elim o [
  | ok c u ↦ (elim (hs.mint (mint_input c.device) u) [
    | ok k v ↦
        ok
          (record {
            device = c.device;
            api_token = c.api_token;
            api_token_id = c.api_token_id;
            pre_auth_key = k;
          })
          v
    | err e v ↦ err e v
  ])
  | err e v ↦ err e v
]

-- The world in which the key is minted: the claim is committed.
abbrev pub at_mint : Env → ClaimInput → World → World
at_mint env i w = world_of (in_tx (claim_statements env i) w)

-- A code that was issued, not yet claimed and has not expired is redeemed: where nothing fails, the
-- account and the user of the code have rows, the ids and the token's hash are not taken, and the
-- Headscaler, asked for a key for the new device once the claim is committed, gives one, ClaimDevice
-- succeeds, with the new device, its token and that key.
pub claim_complete :
    (env : Env) (hs : Headscaler) (i : ClaimInput) (w v : World) (r : PairCodeRow)
    (key : PreAuthKey)
    → w.faults ≡ []
    → find (λ (c : PairCodeRow). c.code == i.code && is_null c.consumed_at) w.db.pair_codes ≡ some r
    → is_after w r.expires_at ≡ false
    → account_exists w.db r.account_id ≡ true
    → user_exists w.db r.user_id ≡ true
    → device_clash w.db (device_row (new_device env i w r) w) ≡ false
    → api_token_clash w.db (new_token env i w r) ≡ false
    → hs.mint (mint_input (new_device env i w r)) (at_mint env i w) ≡ ok key v
    → result_of (claim_device env hs i w)
      ≡ inl (record {
        device = new_device env i w r;
        api_token = drawn_api_token env w;
        api_token_id = env.new_id (suc w.fresh);
        pre_auth_key = key;
      })
unfolding claim_device
claim_complete env hs i w v r key calm at fresh account user new_dev new_tok mints =
    by_outcome (in_tx (claim_statements env i) w)
      (commits env i w r calm at fresh account user new_dev new_tok) mints
  where
    by_outcome :
        (o : Outcome Claimed)
        → result_of o ≡ inl (committed env i w r)
        → hs.mint (mint_input (new_device env i w r)) (world_of o) ≡ ok key v
        → result_of (minted hs o)
          ≡ inl (record {
            device = new_device env i w r;
            api_token = drawn_api_token env w;
            api_token_id = env.new_id (suc w.fresh);
            pre_auth_key = key;
          })
    by_outcome (ok c u) e gives =
        let same : c ≡ committed env i w r = ground arith in
        let key_minted : hs.mint (mint_input c.device) u ≡ ok key v =
          ap (λ (d : Claimed). hs.mint (mint_input d.device) u) same ∙ gives in
        ground (arith, key_minted, same)
    by_outcome (err e x) h gives = ground arith

-- ===== src/Devices.antt =====
-- internal/devices: the device registry, and pair codes with the claim that redeems them.
pub mod Letters
pub mod Claim
pub mod Once
pub mod Complete
pub mod Registry
use agenthub_server.Base.{
  length, Text, str, ◌==◌, ◌≡◌, is_empty, ℕ, zero, suc, ◌+◌, ◌*◌, ◌/◌, ◌%◌, Bool, true, false, ◌&&◌,
  ◌||◌, not, Option, none, some, List, [], ◌∷◌, ◌++◌, map, eqb, find, where_rows, order_desc,
  update, if◌then◌else◌,
}
use agenthub_server.Schema.{Database, DeviceRow, PairCodeRow, ApiTokenRow}
use agenthub_server.Schema.Inserts.{insert_device, insert_pair_code, insert_api_token}
use agenthub_server.Tenancy.{is_null, coalesce}
use agenthub_server.World.{
  Env, M, World, Outcome, ok, err, Err, no_rows, bad_input, pair_code_invalid, mint_failed, pure,
  fail, on_err, require, ◌>>=◌, ◌>>◌, query, query_row, exec, exec_update, in_tx, new_id,
  random_bytes, seconds_now, is_after, second,
}
use agenthub_server.Auth.ApiTokens.{generate_api_token_raw, hash_api_token}

pub record Device : Type 0 where
  pub id : Text
  pub account_id : Text
  pub user_id : Text
  pub name : Text
  pub platform : Text
  pub app_version : Text
  pub tailscale_node_id : Text
  pub last_seen_at : Option ℕ
  pub created_at : Option ℕ

-- `expires_at` in nanoseconds
pub record PairCode : Type 0 where
  pub code : Text
  pub account_id : Text
  pub user_id : Text
  pub expires_at : ℕ

pub record PairCodeInput : Type 0 where
  pub account_id : Text
  pub user_id : Text
  pub ttl : ℕ

pub record ClaimInput : Type 0 where
  pub code : Text
  pub name : Text
  pub platform : Text
  pub app_version : Text

pub record PreAuthKeyInput : Type 0 where
  pub account_id : Text
  pub user_id : Text
  pub device_id : Text
  pub ttl : ℕ

pub record PreAuthKey : Type 0 where
  pub key : Text
  pub control_url : Text
  pub derp_map_json : Text
  pub expires_at : ℕ

pub record ClaimOutput : Type 0 where
  pub device : Device
  pub api_token : Text
  pub api_token_id : Text
  pub pre_auth_key : PreAuthKey

-- What a Headscaler may change: the table of its links.
abbrev pub OnlyLinks : Database → Database → Type 0
OnlyLinks d d' = d' ≡ record d { headscale_user_links = d'.headscale_user_links }

-- The Headscaler interface: minting answers with a key or an error.
pub record Headscaler : Type 0 where
  pub mint : PreAuthKeyInput → M PreAuthKey
  pub mint-db :
      (i : PreAuthKeyInput) (w : World) {k : PreAuthKey} {w' : World}
      → mint i w ≡ ok k w'
      → OnlyLinks w.db w'.db
  pub mint-err-db :
      (i : PreAuthKeyInput) (w : World) {e : Err} {w' : World}
      → mint i w ≡ err e w'
      → OnlyLinks w.db w'.db

abbrev pub pair_code_len : ℕ
pair_code_len = 10

abbrev pub pair_code_alphabet : Text
pair_code_alphabet = str "ABCDEFGHJKLMNPQRSTUVWXYZ23456789"

-- 5 * time.Minute
abbrev pub pre_auth_key_ttl : ℕ
pre_auth_key_ttl = 300 * second

-- s[i] for an index in range
abbrev pub char_at : Text → ℕ → ℕ
char_at [] i = 0
char_at (c ∷ s) zero = c
char_at (c ∷ s) (suc i) = char_at s i

-- pairCodeAlphabet[int(buf[i]) % len(pairCodeAlphabet)]
unfoldable pub letter : ℕ → ℕ
letter b = char_at pair_code_alphabet (b % length pair_code_alphabet)

unfoldable pub random_pair_code : Env → M Text
unfolding random_bytes
random_pair_code env = do buf ← random_bytes env pair_code_len; pure (map letter buf)

abbrev pub effective_ttl : ℕ → ℕ
effective_ttl ttl = if eqb ttl 0 then pre_auth_key_ttl else ttl

abbrev pub pair_code_row : PairCodeInput → Text → World → PairCodeRow
pair_code_row i code w = record {
  code = code;
  account_id = i.account_id;
  user_id = i.user_id;
  created_at = seconds_now w;
  expires_at = (w.now + effective_ttl i.ttl) / second;
  consumed_at = none;
  consumed_by_device_id = none;
}

abbrev pub issued : PairCodeInput → Text → M PairCode
issued i code w =
    ok
      (record {
        code = code;
        account_id = i.account_id;
        user_id = i.user_id;
        expires_at = w.now + effective_ttl i.ttl;
      })
      w

unfoldable pub issue_pair_code : Env → PairCodeInput → M PairCode
unfolding random_pair_code exec
issue_pair_code env i = do
  require (not (is_empty i.account_id || is_empty i.user_id)) bad_input
  code ← random_pair_code env
  exec (λ w. insert_pair_code w.db (pair_code_row i code w))
  issued i code

-- WHERE code = ? AND consumed_at IS NULL
abbrev pub open_code : Text → PairCodeRow → Bool
open_code code r = r.code == code && is_null r.consumed_at

abbrev pub no_rows_is_invalid {ℓ} : {A : Type ℓ} → Err → M A
no_rows_is_invalid no_rows w = err pair_code_invalid w
no_rows_is_invalid e w = err e w

abbrev pub require_open : ℕ → M (Unit {0})
require_open t w = require (not (is_after w t)) pair_code_invalid w

abbrev pub consume_code : Text → World → PairCodeRow → PairCodeRow
consume_code device_id w r = record r {
  consumed_at = some (seconds_now w);
  consumed_by_device_id = some device_id;
}

abbrev pub device_row : Device → World → DeviceRow
device_row d w = record {
  id = d.id;
  account_id = d.account_id;
  user_id = d.user_id;
  name = d.name;
  platform = d.platform;
  app_version = d.app_version;
  tailscale_node_id = none;
  last_seen_at = none;
  created_at = seconds_now w;
  deleted_at = none;
}

abbrev pub claimed_device : ClaimInput → Text → Text → Text → Device
claimed_device i device_id account_id user_id = record {
  id = device_id;
  account_id = account_id;
  user_id = user_id;
  name = i.name;
  platform = i.platform;
  app_version = i.app_version;
  tailscale_node_id = [];
  last_seen_at = none;
  created_at = none;
}

abbrev pub device_token_row : Device → Text → Text → World → ApiTokenRow
device_token_row d token_id hash w = record {
  id = token_id;
  account_id = d.account_id;
  user_id = d.user_id;
  device_id = some d.id;
  name = str "device:" ++ d.name;
  token_hash = hash;
  scope = str "[]";
  last_used_at = none;
  created_at = seconds_now w;
  expires_at = none;
  revoked_at = none;
}

-- What the transaction of a claim hands on.
pub record Claimed : Type 0 where
  pub device : Device
  pub api_token : Text
  pub api_token_id : Text

-- The statements between BeginTx and Commit.
unfoldable pub claim_statements : Env → ClaimInput → M Claimed
unfolding query_row exec exec_update new_id generate_api_token_raw
claim_statements env i = do
  code ← on_err (query_row (λ w. find (open_code i.code) w.db.pair_codes)) no_rows_is_invalid
  require_open code.expires_at
  device_id ← new_id env
  exec_update (λ w. record (w.db) {
    pair_codes = update (open_code i.code) (consume_code device_id w) w.db.pair_codes;
  })
  exec (λ w.
      insert_device w.db (device_row (claimed_device i device_id code.account_id code.user_id) w))
  token_id ← new_id env
  raw ← generate_api_token_raw env
  exec (λ w. insert_api_token w.db (
      device_token_row (claimed_device i device_id code.account_id code.user_id) token_id
        (hash_api_token env raw) w))
  pure (record {
    device = claimed_device i device_id code.account_id code.user_id;
    api_token = raw;
    api_token_id = token_id;
  })

abbrev pub mint_input : Device → PreAuthKeyInput
mint_input d = record {
  account_id = d.account_id;
  user_id = d.user_id;
  device_id = d.id;
  ttl = pre_auth_key_ttl;
}

-- The key is minted after the commit.
unfoldable pub claim_device : Env → Headscaler → ClaimInput → M ClaimOutput
claim_device env hs i = do
  c ← in_tx (claim_statements env i)
  key ← hs.mint (mint_input c.device)
  pure (record {
    device = c.device;
    api_token = c.api_token;
    api_token_id = c.api_token_id;
    pre_auth_key = key;
  })

unfoldable pub create_device : Device → M (Unit {0})
unfolding exec
create_device d = do
  require (not (is_empty d.id || is_empty d.account_id || is_empty d.user_id)) bad_input
  exec (λ w. insert_device w.db (device_row d w))

abbrev pub scan_device : DeviceRow → Device
scan_device r = record {
  id = r.id;
  account_id = r.account_id;
  user_id = r.user_id;
  name = r.name;
  platform = r.platform;
  app_version = r.app_version;
  tailscale_node_id = coalesce r.tailscale_node_id;
  last_seen_at = r.last_seen_at;
  created_at = some r.created_at;
}

-- WHERE id = ? AND deleted_at IS NULL
abbrev pub live_device : Text → DeviceRow → Bool
live_device i r = r.id == i && is_null r.deleted_at

abbrev pub scanned_device : Option DeviceRow → Option Device
scanned_device none = none
scanned_device (some r) = some (scan_device r)

unfoldable pub get_device_by_id : Text → M Device
unfolding query_row
get_device_by_id i = query_row (λ w. scanned_device (find (live_device i) w.db.devices))

-- WHERE account_id = ? AND deleted_at IS NULL ORDER BY created_at DESC
unfoldable pub list_devices_for_account : Text → M (List Device)
unfolding query
list_devices_for_account account_id = query (λ w. map scan_device (
    order_desc (λ r. r.created_at)
      (where_rows (λ r. r.account_id == account_id && is_null r.deleted_at) w.db.devices)))

unfoldable pub soft_delete_device : Text → M (Unit {0})
unfolding exec_update
soft_delete_device i = exec_update (λ w. record (w.db) {
  devices =
      update (live_device i) (λ r. record r { deleted_at = some (seconds_now w) }) w.db.devices;
})

unfoldable pub update_tailscale_info : Text → Text → M (Unit {0})
unfolding exec_update
update_tailscale_info i node_id = exec_update (λ w. record (w.db) {
  devices =
      update (live_device i)
        (λ r. record r { tailscale_node_id = some node_id; last_seen_at = some (seconds_now w) })
        w.db.devices;
})

abbrev pub stub_key : Env → PreAuthKeyInput → List ℕ → M PreAuthKey
stub_key env i buf w =
    ok
      (record {
        key = str "stub-" ++ env.base64_url buf;
        control_url = str "https://stub.invalid/headscale";
        derp_map_json = str "{\"Regions\":{}}";
        expires_at = w.now + i.ttl;
      })
      w

-- MintPreAuthKey of StubHeadscaler
unfoldable pub stub_mint : Env → PreAuthKeyInput → M PreAuthKey
unfolding random_bytes
stub_mint env i = do buf ← random_bytes env 16; stub_key env i buf

-- ===== src/Witnesses/Pairing.antt =====
-- Examples for the pair codes.
use agenthub_server.Base.{
  Text, str, ◌==◌, ◌+◌, ◌*◌, ◌≡◌, refl, true, false, none, some, [], ◌∷◌, ◌++◌, inl, inr, arith,
  length, find, has, where_rows, order_desc, update, All, map, ℕ,
}
use agenthub_server.Schema.Inserts.{
  user_exists, account_exists, api_token_clash, insert_api_token, device_clash, insert_device,
}
use agenthub_server.World.{
  Err, World, M, world_of, result_of, second, query, query_row, exec, exec_update, new_id, bytes_of,
  random_bytes, in_tx, no_rows, ok, err,
}
use agenthub_server.Auth.Hash.{random_token}
use agenthub_server.Auth.ApiTokens.{generate_api_token_raw, lookup_api_token}
use agenthub_server.Devices.{
  OnlyLinks, ClaimInput, PreAuthKeyInput, PreAuthKey, ClaimOutput, Headscaler, letter,
  random_pair_code, open_code, device_row, claimed_device, claim_statements, claim_device,
  stub_mint, mint_input, get_device_by_id, list_devices_for_account, soft_delete_device,
}
use agenthub_server.Devices.Letters.{is_plain, hits, pair_code_letters}
use agenthub_server.Devices.Claim.{
  drawn_api_token, new_device, new_token, Claims, claim_atomic, claim-lookup,
}
use agenthub_server.Devices.Complete.{at_mint, claim_complete}
use agenthub_server.Devices.Once.{IsRefused, claim_once, here}
use agenthub_server.Devices.Registry.{IsOther, delete_hides}
use agenthub_server.Witnesses.Fixtures.{env, pair_code, db, start, laws}

abbrev mint_key : PreAuthKeyInput → M PreAuthKey
mint_key i w =
    ok
      (record {
        key = str "nodekey";
        control_url = [];
        derp_map_json = [];
        expires_at = w.now + i.ttl;
      })
      w

mint_key-db :
    (i : PreAuthKeyInput) (w : World) {k : PreAuthKey} {w' : World}
    → mint_key i w ≡ ok k w'
    → OnlyLinks w.db w'.db
mint_key-db i w h = ground arith

mint_key-err-db :
    (i : PreAuthKeyInput) (w : World) {e : Err} {w' : World}
    → mint_key i w ≡ err e w'
    → OnlyLinks w.db w'.db
mint_key-err-db i w h = ground arith

-- A Headscale that always mints.
abbrev headscaler : Headscaler
headscaler = record {
  mint = mint_key;
  mint-db = λ i w {k} {w'} h. mint_key-db i w h;
  mint-err-db = λ i w {e} {w'} h. mint_key-err-db i w h;
}

abbrev claim_input : ClaimInput
claim_input = record {
  code = str "ABCD";
  name = str "phone";
  platform = str "ios";
  app_version = str "1.0";
}

claim_atomic_example : Claims env claim_input start (claim_device env headscaler claim_input start)
claim_atomic_example = claim_atomic env headscaler claim_input start

finds_open : find (open_code (str "ABCD")) db.pair_codes ≡ some pair_code
unfolding find ◌==◌
finds_open = refl

account_there : account_exists db (str "a") ≡ true
unfolding account_exists has ◌==◌
account_there = refl

user_there : user_exists db (str "u") ≡ true
unfolding user_exists has ◌==◌
user_there = refl

device_new : device_clash db (device_row (new_device env claim_input start pair_code) start) ≡ false
unfolding device_clash has
device_new = refl

token_new : api_token_clash db (new_token env claim_input start pair_code) ≡ false
unfolding api_token_clash has bytes_of ◌==◌
token_new = refl

-- The stub of the program
stub-db :
    (i : PreAuthKeyInput) (w : World) {k : PreAuthKey} {w' : World}
    → stub_mint env i w ≡ ok k w'
    → OnlyLinks w.db w'.db
unfolding stub_mint random_bytes
stub-db i w h = ground arith

stub-err-db :
    (i : PreAuthKeyInput) (w : World) {e : Err} {w' : World}
    → stub_mint env i w ≡ err e w'
    → OnlyLinks w.db w'.db
unfolding stub_mint random_bytes
stub-err-db i w h = ground arith

abbrev stub : Headscaler
stub = record {
  mint = stub_mint env;
  mint-db = λ i w {k} {w'} h. stub-db i w h;
  mint-err-db = λ i w {e} {w'} h. stub-err-db i w h;
}

abbrev stub_made : PreAuthKey
stub_made = record {
  key = str "stub-" ++ env.base64_url (bytes_of (env.random_byte 3) 16);
  control_url = str "https://stub.invalid/headscale";
  derp_map_json = str "{\"Regions\":{}}";
  expires_at = 1300 * second;
}

abbrev stub_minted : World
stub_minted = world_of (
    stub_mint env (mint_input (new_device env claim_input start pair_code))
      (at_mint env claim_input start))

stub_mints :
    stub.mint
      (mint_input (new_device env claim_input start pair_code))
      (at_mint env claim_input start)
    ≡ ok stub_made stub_minted
unfolding stub_mint claim_statements in_tx query_row exec exec_update new_id generate_api_token_raw
    random_token random_bytes bytes_of insert_device device_clash insert_api_token api_token_clash
    user_exists account_exists has find ◌==◌
stub_mints = refl

claim_complete_example :
    result_of (claim_device env stub claim_input start)
    ≡ inl (record {
      device = new_device env claim_input start pair_code;
      api_token = drawn_api_token env start;
      api_token_id = 1 ∷ [];
      pre_auth_key = stub_made;
    })
claim_complete_example =
    claim_complete env stub claim_input start stub_minted pair_code stub_made refl finds_open refl
      account_there user_there device_new token_new stub_mints

abbrev claimed : World
claimed = world_of (claim_device env headscaler claim_input start)

abbrev claim_out : ClaimOutput
claim_out = record {
  device = claimed_device claim_input (0 ∷ []) (str "a") (str "u");
  api_token = str "ahs_" ++ bytes_of (env.random_byte 2) 32;
  api_token_id = 1 ∷ [];
  pre_auth_key = record {
    key = str "nodekey";
    control_url = [];
    derp_map_json = [];
    expires_at = 1300 * second;
  };
}

claims : claim_device env headscaler claim_input start ≡ ok claim_out claimed
unfolding claim_device claim_statements in_tx query_row exec exec_update new_id
    generate_api_token_raw random_token random_bytes bytes_of insert_device device_clash
    insert_api_token api_token_clash user_exists account_exists has find ◌==◌
claims = refl

no_faults_claimed : claimed.faults ≡ []
unfolding claim_device claim_statements in_tx query_row exec exec_update new_id
    generate_api_token_raw random_token random_bytes bytes_of insert_device device_clash
    insert_api_token api_token_clash user_exists account_exists has find ◌==◌
no_faults_claimed = refl

claim_once_example : IsRefused (claim_device env headscaler claim_input claimed)
claim_once_example =
    claim_once env headscaler headscaler claim_input claim_input start claimed claimed claim_out
      claims here refl

claim-lookup_example :
    result_of (lookup_api_token env claim_out.api_token claimed)
    ≡ inl (record {
      id = 1 ∷ [];
      account_id = str "a";
      user_id = str "u";
      device_id = 0 ∷ [];
      name = str "device:phone";
      created_at = some (1000 * second);
      last_used_at = none;
      expires_at = none;
    })
claim-lookup_example =
    claim-lookup env headscaler claim_input start claimed claimed claim_out claims refl
      no_faults_claimed

abbrev paired_gone : World
paired_gone = world_of (soft_delete_device (0 ∷ []) claimed)

deletes : soft_delete_device (0 ∷ []) claimed ≡ ok tt paired_gone
unfolding soft_delete_device claim_device claim_statements in_tx query_row exec exec_update new_id
    generate_api_token_raw random_token random_bytes bytes_of insert_device device_clash
    insert_api_token api_token_clash user_exists account_exists has find ◌==◌
deletes = refl

no_faults_gone : paired_gone.faults ≡ []
unfolding soft_delete_device claim_device claim_statements in_tx query_row exec exec_update new_id
    generate_api_token_raw random_token random_bytes bytes_of insert_device device_clash
    insert_api_token api_token_clash user_exists account_exists has find ◌==◌
no_faults_gone = refl

abbrev listed_then : World
listed_then = world_of (list_devices_for_account (str "a") paired_gone)

lists_none : list_devices_for_account (str "a") paired_gone ≡ ok [] listed_then
unfolding list_devices_for_account query where_rows order_desc update soft_delete_device
    claim_device claim_statements in_tx query_row exec exec_update new_id generate_api_token_raw
    random_token random_bytes bytes_of insert_device device_clash insert_api_token api_token_clash
    user_exists account_exists has find ◌==◌
lists_none = refl

delete_hides_example :
    (result_of (get_device_by_id (0 ∷ []) paired_gone) ≡ inr no_rows)
    × All (IsOther (str "a") (0 ∷ [])) []
delete_hides_example =
    delete_hides (0 ∷ []) (str "a") claimed paired_gone paired_gone listed_then [] deletes refl
      no_faults_gone lists_none

abbrev code_drawn : World
code_drawn = world_of (random_pair_code env start)

abbrev drawn_letters : Text
drawn_letters = str "ABCDEFGHJK"

draws : random_pair_code env start ≡ ok drawn_letters code_drawn
unfolding random_pair_code random_bytes bytes_of letter
draws = refl

pair_code_letters_example :
    (length drawn_letters ≡ 10)
    × All (λ c. is_plain c ≡ true) drawn_letters
    × (drawn_letters ≡ map letter (bytes_of (env.random_byte 0) 10))
    × ((c : ℕ) → is_plain c ≡ true → hits 256 c ≡ 8)
pair_code_letters_example = pair_code_letters env laws start code_drawn drawn_letters draws

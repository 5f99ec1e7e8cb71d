-- ===== src/Witnesses/Fixtures.antt =====
-- The concrete environment and database that the examples run on.
use agenthub_server.Base.{
  Text, str, ℕ, ◌+◌, ◌-◌, ◌*◌, ◌%◌, ◌<◌, ◌≡◌, refl, ap, Option, none, some, List, [], ◌∷◌, map,
  length, arith,
}
use agenthub_server.Strings.{Lacks}
use agenthub_server.Schema.{
  Database, empty_db, UserRow, AuthSessionRow, VerificationTokenRow, ApiTokenRow, PairCodeRow,
  owner, password_reset,
}
use agenthub_server.World.{Env, World, bytes_of, second}
use agenthub_server.Auth.Jwt.{JwtSigner}
use agenthub_server.Auth.Password.{dollar, encode}
use agenthub_server.Auth.Password.RoundTrip.{HashLaws, bytes_of-IsBytes}
use agenthub_server.Auth.Service.{Config}
use agenthub_server.World.Laws.{length-bytes_of}

-- A code for bytes that leaves out the characters below 128.
abbrev pub shift : List ℕ → Text
shift bytes = map (λ b. b + 128) bytes

abbrev pub unshift : Text → Option (List ℕ)
unshift s = some (map (λ c. c - 128) s)

abbrev pub env : Env
env = record {
  sha256_hex = λ s. b'#' ∷ s;
  new_id = λ n. n ∷ [];
  random_byte = λ draw i. (draw + i) % 256;
  base64_url = λ bytes. bytes;
  base64_raw_std = shift;
  decode_base64_raw_std = unshift;
  base64_std = shift;
  decode_base64_std = unshift;
  argon2_id_key = λ pw salt t m p n. bytes_of (λ i. length pw % 256) n;
  wide_to_lower = λ c. c;
  query_escape = λ s. s;
  quote = λ s. s;
  jwt_sign = λ key issuer c. c.id;
  jwt_parse = λ key issuer now token. some (record {
    id = token;
    subject = str "u";
    account_id = str "a";
    issued_at = 0;
    expires_at = 5000;
  });
}

abbrev pub signer : JwtSigner
signer = record { key = str "key"; issuer = str "agenthub" }

abbrev pub config : Config
config = record {
  signer = signer;
  session_ttl = 100 * second;
  email_verify_ttl = 100 * second;
  password_reset_ttl = 100 * second;
  verify_url_prefix = str "/verify";
  reset_url_prefix = str "/reset";
}

-- The hash of the password "pw".
abbrev pub stored_hash : Text
stored_hash = encode (shift (1 ∷ 2 ∷ [])) (shift (2 ∷ 2 ∷ []))

abbrev pub user : UserRow
user = record {
  id = str "u";
  email = str "u@x";
  password_hash = some stored_hash;
  email_verified_at = some 7;
  name = [];
  avatar_url = [];
  created_at = 5;
  deleted_at = none;
  is_operator = 1;
}

abbrev pub session : AuthSessionRow
session = record {
  id = str "s";
  user_id = str "u";
  account_id = str "a";
  user_agent = [];
  ip = [];
  issued_at = 10;
  expires_at = 2000;
  revoked_at = none;
}

abbrev pub reset_token : VerificationTokenRow
reset_token = record {
  id = str "t";
  purpose = password_reset;
  user_id = some (str "u");
  email = str "u@x";
  token_hash = str "#raw";
  created_at = 10;
  expires_at = 2000;
  consumed_at = none;
}

abbrev pub api_token : ApiTokenRow
api_token = record {
  id = str "k";
  account_id = str "a";
  user_id = str "u";
  device_id = none;
  name = str "ci";
  token_hash = str "#ahs_raw";
  scope = str "[]";
  last_used_at = none;
  created_at = 10;
  expires_at = none;
  revoked_at = none;
}

abbrev pub pair_code : PairCodeRow
pair_code = record {
  code = str "ABCD";
  account_id = str "a";
  user_id = str "u";
  created_at = 10;
  expires_at = 2000;
  consumed_at = none;
  consumed_by_device_id = none;
}

abbrev pub db : Database
db = record (empty_db) {
  users = user ∷ [];
  accounts =
      record {
        id = str "a";
        slug = str "a-slug";
        name = str "A";
        plan = str "self_hosted";
        created_at = 5;
        deleted_at = none;
      }
      ∷ [];
  memberships =
      record { id = str "m"; account_id = str "a"; user_id = str "u"; role = owner; created_at = 5 }
      ∷ [];
  auth_sessions = session ∷ [];
  verification_tokens = reset_token ∷ [];
  api_tokens = api_token ∷ [];
  pair_codes = pair_code ∷ [];
}

-- A thousand seconds in, with nothing failing.
abbrev pub start : World
start = record { db = db; now = 1000 * second; fresh = 0; faults = []; outbox = [] }

below : (n : ℕ) → n % 256 < 256
below n = omega arith

shift-unshift : (bytes : List ℕ) → unshift (shift bytes) ≡ some bytes
shift-unshift bytes = ap (λ s. some s) (back bytes)
  where
    back : (bytes : List ℕ) → map (λ c. c - 128) (map (λ b. b + 128) bytes) ≡ bytes
    back [] = refl
    back (b ∷ bytes) = rw (back bytes) (ap (λ n. n ∷ bytes) (omega arith))

shift-Lacks : (bytes : List ℕ) → Lacks dollar (shift bytes)
shift-Lacks [] = tt
shift-Lacks (b ∷ bytes) = (ground arith, shift-Lacks bytes)

pub laws : HashLaws env
laws = record {
  random_byte-lt = λ draw i. below (draw + i);
  decode-encode = λ bytes h. shift-unshift bytes;
  no_dollar = λ bytes h. shift-Lacks bytes;
  key_bytes = λ pw salt. bytes_of-IsBytes (λ i. length pw % 256) 32 (λ i. below (length pw));
  key_length = λ pw salt. length-bytes_of (λ i. length pw % 256) 32;
}

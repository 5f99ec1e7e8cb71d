-- ===== src/Auth/Password.antt =====
-- internal/auth/password.go: argon2id hashes in their encoded form.
pub mod RoundTrip
use agenthub_server.Base.{
  Text, str, ◌==◌, is_empty, ℕ, ◌+◌, ◌-◌, ◌*◌, ◌^◌, Bool, true, false, ◌&&◌, ◌||◌, not, Option,
  none, some, List, [], ◌∷◌, ◌++◌, ltb, leb, eqb, length, if◌then◌else◌,
}
use agenthub_server.Strings.{split, strip_prefix}
use agenthub_server.World.{
  Env, M, World, Outcome, ok, err, bad_input, pure, fail, require, ◌>>=◌, ◌>>◌, random_bytes,
}

abbrev pub argon_memory : ℕ
argon_memory = 64 * 1024

abbrev pub argon_iterations : ℕ
argon_iterations = 3

abbrev pub argon_parallelism : ℕ
argon_parallelism = 4

abbrev pub argon_salt_len : ℕ
argon_salt_len = 16

abbrev pub argon_key_len : ℕ
argon_key_len = 32

-- argon2.Version is 0x13.
abbrev pub argon_version : ℕ
argon_version = 19

abbrev pub dollar : ℕ
dollar = b'$'

-- The constants of the file as %d prints them.
abbrev pub version_part : Text
version_part = str "v=19"

abbrev pub params_part : Text
params_part = str "m=65536,t=3,p=4"

-- fmt.Sprintf("$argon2id$v=%d$m=%d,t=%d,p=%d$%s$%s", ...)
unfoldable pub encode : Text → Text → Text
encode salt key =
    dollar
    ∷ (str "argon2id"
        ++ (dollar
            ∷ (version_part ++ (dollar ∷ (params_part ++ (dollar ∷ (salt ++ (dollar ∷ key))))))))

abbrev pub derived_key : Env → Text → List ℕ → List ℕ
derived_key env pw salt =
    env.argon2_id_key pw salt argon_iterations argon_memory argon_parallelism argon_key_len

unfoldable pub hash_password : Env → Text → M Text
unfolding random_bytes encode
hash_password env pw = do
  require (not (is_empty pw)) bad_input
  salt ← random_bytes env argon_salt_len
  pure (encode (env.base64_raw_std salt) (env.base64_raw_std (derived_key env pw salt)))

-- The digits at the front of a text, and the rest.
abbrev pub is_digit : ℕ → Bool
is_digit c = leb b'0' c && leb c b'9'

unfoldable pub digits_value : ℕ → Text → ℕ × Text
digits_value acc [] = (acc, [])
digits_value acc (c ∷ s) =
    let rest = digits_value (acc * 10 + (c - b'0')) s in if is_digit c then rest else (acc, c ∷ s)

-- %d of fmt.Sscanf on an unsigned number below a bound: at least one digit, and no overflow. Blanks
-- and a sign before the digits, which Sscanf reads over, are refused here; HashPassword writes none.
unfoldable pub scan_number : ℕ → Text → Option (ℕ × Text)
unfolding digits_value
scan_number bound [] = none
scan_number bound (c ∷ s) =
    let (n, rest) = digits_value 0 (c ∷ s) in
    if is_digit c && ltb n bound then some (n, rest) else none

infixl 5 ◌>>?◌
abbrev pub ◌>>?◌ {ℓ κ} : {A : Type ℓ} {B : Type κ} → Option A → (A → Option B) → Option B
none >>? f = none
some a >>? f = f a

-- Sscanf(part, "v=%d", &version): what follows the number is not looked at.
unfoldable pub scan_version : Text → Option ℕ
unfolding strip_prefix scan_number
scan_version part =
    strip_prefix (str "v=") part >>? λ r. scan_number (2 ^ 63) r >>? λ (n, _). some n

pub record Params : Type 0 where
  pub memory : ℕ
  pub iterations : ℕ
  pub parallelism : ℕ

-- Sscanf(part, "m=%d,t=%d,p=%d", &memory, &iterations, &parallelism): uint32, uint32 and uint8
unfoldable pub scan_params : Text → Option Params
unfolding strip_prefix scan_number
scan_params part = strip_prefix (str "m=") part >>? λ a. scan_number (2 ^ 32) a >>? λ (m, b).
    strip_prefix (str ",t=") b >>? λ c. scan_number (2 ^ 32) c >>? λ (t, d).
    strip_prefix (str ",p=") d >>? λ e. scan_number (2 ^ 8) e >>? λ (p, _).
    some (record { memory = m; iterations = t; parallelism = p })

abbrev pub test_option : Bool → Option (Unit {0})
test_option true = some tt
test_option false = none

-- subtle.ConstantTimeCompare(got, expected) == 1
abbrev pub same_bytes : List ℕ → List ℕ → Bool
same_bytes a b = a == b

abbrev pub check_parts : Env → Text → Text → Text → Text → Text → Option Bool
check_parts env pw version params salt hash = scan_version version >>? λ v.
    test_option (eqb v argon_version) >>? λ _. scan_params params >>? λ p.
    env.decode_base64_raw_std salt >>? λ s. env.decode_base64_raw_std hash >>? λ expected. some (
      same_bytes (env.argon2_id_key pw s p.iterations p.memory p.parallelism (length expected))
        expected)

-- len(parts) != 6 || parts[1] != "argon2id"
abbrev pub verify_parts : Env → Text → List Text → Option Bool
verify_parts env pw (_ ∷ scheme ∷ version ∷ params ∷ salt ∷ hash ∷ []) =
    test_option (scheme == str "argon2id") >>? λ _. check_parts env pw version params salt hash
verify_parts env pw _ = none

-- `none` is the error of a malformed hash.
unfoldable pub verify_password : Env → Text → Text → Option Bool
verify_password env pw encoded = verify_parts env pw (split dollar encoded)

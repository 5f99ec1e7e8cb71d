-- ===== src/Auth/Password/RoundTrip.antt =====
-- A password verifies against its own hash, and the derived key decides for any other.
use agenthub_server.Base.{
  Text, str, ◌==◌, ==_refl, ℕ, ◌≡◌, refl, ap, ◌∙◌, true, some, List, [], ◌∷◌, ◌++◌, length, arith,
  All, ◌<◌, zero, suc,
}
use agenthub_server.Strings.{split, split-append, split-last, Lacks}
use agenthub_server.World.{Env, World, ok, bytes_of}
use agenthub_server.Auth.Password.{
  hash_password, verify_password, encode, dollar, derived_key, argon_key_len, version_part,
  params_part, scan_version, scan_params, argon_salt_len,
}

abbrev pub IsBytes : List ℕ → Type 0
IsBytes = All (λ b. b < 256)

-- What crypto/rand, encoding/base64 and argon2 promise.
pub record HashLaws (env : Env) : Type 0 where
  pub random_byte-lt : (draw i : ℕ) → env.random_byte draw i < 256
  pub decode-encode :
      (bytes : List ℕ)
      → IsBytes bytes
      → env.decode_base64_raw_std (env.base64_raw_std bytes) ≡ some bytes
  pub no_dollar : (bytes : List ℕ) → IsBytes bytes → Lacks dollar (env.base64_raw_std bytes)
  pub key_bytes : (pw : Text) (salt : List ℕ) → IsBytes (derived_key env pw salt)
  pub key_length : (pw : Text) (salt : List ℕ) → length (derived_key env pw salt) ≡ argon_key_len

split_encoded :
    (salt key : Text)
    → Lacks dollar salt
    → Lacks dollar key
    → split dollar (encode salt key)
      ≡ [] ∷ str "argon2id" ∷ version_part ∷ params_part ∷ salt ∷ key ∷ []
unfolding encode split
split_encoded salt key hs hk =
    ap (λ r. [] ∷ str "argon2id" ∷ version_part ∷ params_part ∷ r)
      (split-append dollar salt key hs ∙ ap (λ r. salt ∷ r) (split-last dollar key hk))

-- the constants that the encoder writes are read back
read_version : scan_version version_part ≡ some 19
unfolding scan_version
read_version = refl

read_params :
    scan_params params_part ≡ some (record { memory = 65536; iterations = 3; parallelism = 4 })
unfolding scan_params
read_params = refl

-- The salt that a call at `w` draws.
abbrev pub drawn_salt : Env → World → List ℕ
drawn_salt env w = bytes_of (env.random_byte w.fresh) argon_salt_len

hash_password_lem :
    (env : Env) (pw : Text) (w : World) {encoded : Text} {w' : World}
    → hash_password env pw w ≡ ok encoded w'
    → encoded
      ≡ encode
          (env.base64_raw_std (drawn_salt env w))
          (env.base64_raw_std (derived_key env pw (drawn_salt env w)))
unfolding hash_password encode
hash_password_lem env pw w h = ground arith

All-append : (xs ys : List ℕ) → IsBytes xs → IsBytes ys → IsBytes (xs ++ ys)
All-append [] ys hx hy = hy
All-append (x ∷ xs) ys hx hy = (hx.0, All-append xs ys hx.1 hy)

pub bytes_of-IsBytes : (b : ℕ → ℕ) (n : ℕ) → ((i : ℕ) → b i < 256) → IsBytes (bytes_of b n)
unfolding bytes_of
bytes_of-IsBytes b zero h = tt
bytes_of-IsBytes b (suc n) h =
    All-append (bytes_of b n) (b n ∷ []) (bytes_of-IsBytes b n h) (h n, tt)

drawn-IsBytes : (env : Env) → HashLaws env → (w : World) → IsBytes (drawn_salt env w)
drawn-IsBytes env laws w =
    bytes_of-IsBytes (env.random_byte w.fresh) 16 (laws.random_byte-lt w.fresh)

verify_encoded :
    (env : Env)
    → HashLaws env
    → (pw : Text) (salt key : List ℕ) → IsBytes salt
    → IsBytes key
    → length key ≡ argon_key_len
    → verify_password env pw (encode (env.base64_raw_std salt) (env.base64_raw_std key))
      ≡ some (derived_key env pw salt == key)
unfolding verify_password ◌==◌
verify_encoded env laws pw salt key hs hk long =
    let parts =
      split_encoded (env.base64_raw_std salt) (env.base64_raw_std key) (laws.no_dollar salt hs)
        (laws.no_dollar key hk) in
    rw (parts, read_version, read_params)
      (ground (arith, laws.decode-encode salt hs, laws.decode-encode key hk))

-- With base64 decoding what it encodes and argon2 returning keys of the length asked for: a hash
-- that HashPassword made of one password is well formed for VerifyPassword, which accepts a
-- password exactly if argon2 derives from it, with the salt of the hash, the key of the first one;
-- so it accepts the password itself.
pub verify-hash :
    (env : Env) (laws : HashLaws env) (pw guess : Text) (w w' : World) (encoded : Text)
    → hash_password env pw w ≡ ok encoded w'
    → (verify_password env guess encoded
        ≡ some (derived_key env guess (drawn_salt env w) == derived_key env pw (drawn_salt env w)))
      × (verify_password env pw encoded ≡ some true)
verify-hash env laws pw guess w w' encoded h = (
  verifies guess,
  verifies pw ∙ ap (λ b. some b) (==_refl (derived_key env pw (drawn_salt env w))),
)
  where
    salt : List ℕ
    salt = drawn_salt env w

    key : List ℕ
    key = derived_key env pw salt

    verifies : (g : Text) → verify_password env g encoded ≡ some (derived_key env g salt == key)
    verifies g = rw (hash_password_lem env pw w h) (
        verify_encoded env laws g salt key (drawn-IsBytes env laws w) (laws.key_bytes pw salt)
          (laws.key_length pw salt))

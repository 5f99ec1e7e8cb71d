-- ===== src/World.antt =====
-- What the handlers run in: the database, the clock, the random draws, the mail that was sent, and
-- the failures that the outside chooses, with a monad for code that may return an error.
--
-- `now` counts nanoseconds, as Go's time.Time does; datetime('now') is the seconds of it. The clock
-- stands still within one call. `faults` says, for each call of the database, of crypto/rand and of
-- the mailer in turn, whether it fails; past its end nothing fails.
pub mod Laws
use agenthub_server.Base.{
  Text, ℕ, suc, ◌*◌, ◌/◌, ◌+◌, Bool, true, false, Option, none, some, List, [], ◌∷◌, ◌++◌, ltb,
  drop, ◌⊎◌, inl, inr,
}
use agenthub_server.Schema.{Database}

pub data Err : Type 0 where
  io constraint no_rows rand_failed : Err
  -- errors.New and fmt.Errorf of a package's own checks on its arguments
  bad_input : Err
  -- internal/auth/errors.go
  invalid_credentials email_not_verified token_not_found token_expired session_revoked
        session_expired :
      Err
  -- devices.ErrPairCodeInvalid, and an error of the Headscaler
  pair_code_invalid mint_failed : Err
  -- an error of the JWT library, or of password hashing
  bad_token bad_hash : Err
  -- a call of another server, or of the file system
  remote_failed : Err

pub record Mail : Type 0 where
  pub to : Text
  pub subject : Text
  pub text : Text

pub record World : Type 0 where
  pub db : Database
  pub now : ℕ
  pub fresh : ℕ
  pub faults : List Bool
  pub outbox : List Mail

-- The claims of a JWT as the library hands them over: jti, sub, aid, iat and exp in seconds.
pub record JwtClaims : Type 0 where
  pub id : Text
  pub subject : Text
  pub account_id : Text
  pub issued_at : ℕ
  pub expires_at : ℕ

-- Code that is not in the repository. `random_byte d i` is the i-th byte of the d-th draw.
pub record Env : Type 0 where
  pub sha256_hex : Text → Text
  pub new_id : ℕ → Text
  pub random_byte : ℕ → ℕ → ℕ
  -- RawURLEncoding, RawStdEncoding and StdEncoding of encoding/base64
  pub base64_url : List ℕ → Text
  pub base64_raw_std : List ℕ → Text
  pub decode_base64_raw_std : Text → Option (List ℕ)
  pub base64_std : List ℕ → Text
  pub decode_base64_std : Text → Option (List ℕ)
  -- argon2.IDKey password salt time memory threads keyLen
  pub argon2_id_key : Text → List ℕ → ℕ → ℕ → ℕ → ℕ → List ℕ
  -- unicode.ToLower of a code point past ASCII
  pub wide_to_lower : ℕ → ℕ
  pub query_escape : Text → Text
  -- strconv.Quote, the %q of fmt
  pub quote : Text → Text
  -- jwt.SignedString and jwt.ParseWithClaims: key, issuer; the parser is given the time in seconds
  pub jwt_sign : Text → Text → JwtClaims → Text
  pub jwt_parse : Text → Text → ℕ → Text → Option JwtClaims

pub data Outcome {ℓ} (A : Type ℓ) : Type ℓ where
  ok : A → World → Outcome A
  err : Err → World → Outcome A

abbrev pub M {ℓ} : Type ℓ → Type ℓ
M A = World → Outcome A

abbrev pub pure {ℓ} : {A : Type ℓ} → A → M A
pure a w = ok a w

abbrev pub fail {ℓ} : {A : Type ℓ} → Err → M A
fail e w = err e w

infixl 5 ◌>>=◌ ◌>>◌
abbrev pub ◌>>=◌ {ℓ κ} : {A : Type ℓ} {B : Type κ} → M A → (A → M B) → M B
◌>>=◌ m f w = elim (m w) [ ok a w' ↦ f a w' | err e w' ↦ err e w' ]

abbrev pub ◌>>◌ {ℓ} : {B : Type ℓ} → M (Unit {0}) → M B → M B
m >> k = m >>= λ _. k

-- if err != nil { ... }: go on from the state in which the call failed.
abbrev pub on_err {ℓ} : {A : Type ℓ} → M A → (Err → M A) → M A
on_err m f w = elim (m w) [ ok a w' ↦ ok a w' | err e w' ↦ f e w' ]

-- if err == nil { return f }; if !errors.Is(err, sql.ErrNoRows) { return err }; k
abbrev pub if_no_rows {ℓ} : {B : Type ℓ} → M B → Err → M B
if_no_rows k no_rows = k
if_no_rows k e = fail e

abbrev pub found_or {ℓ κ} : {A : Type ℓ} {B : Type κ} → M A → (A → M B) → M B → M B
found_or m f k w = elim (m w) [ ok a w' ↦ f a w' | err e w' ↦ if_no_rows k e w' ]

-- A call of another server, whose error is passed on.
abbrev pub remote {ℓ} : {A : Type ℓ} → Option A → M A
remote none w = err remote_failed w
remote (some a) w = ok a w

-- if !ok { return err }
abbrev pub require : Bool → Err → M (Unit {0})
require true e w = ok tt w
require false e w = err e w

abbrev pub world_of {ℓ} : {A : Type ℓ} → Outcome A → World
world_of (ok a w) = w
world_of (err e w) = w

-- What the caller gets: the result, or the error.
abbrev pub result_of {ℓ} : {A : Type ℓ} → Outcome A → A ⊎ Err
result_of (ok a w) = inl a
result_of (err e w) = inr e

abbrev pub second : ℕ
second = 1000000000

-- datetime('now')
abbrev pub seconds_now : World → ℕ
seconds_now w = w.now / second

-- datetime('now', '+N seconds') with N = int(ttl.Seconds())
abbrev pub seconds_after : World → ℕ → ℕ
seconds_after w ttl = seconds_now w + ttl / second

-- time.Now().After(t), where t was parsed from a stored time
abbrev pub is_after : World → ℕ → Bool
is_after w t = ltb (t * second) w.now

abbrev pub next_fault : List Bool → Bool
next_fault [] = false
next_fault (b ∷ bs) = b

abbrev pub faulty : World → Bool
faulty w = next_fault w.faults

abbrev pub spend : World → World
spend w = record w { faults = drop 1 w.faults }

-- db.QueryContext
unfoldable pub query {ℓ} : {A : Type ℓ} → (World → A) → M A
query f w = elim (faulty w) [ true ↦ err io (spend w) | false ↦ ok (f w) (spend w) ]

abbrev pub found {ℓ} : {A : Type ℓ} → Option A → M A
found none w = err no_rows w
found (some a) w = ok a w

-- db.QueryRowContext(...).Scan
unfoldable pub query_row {ℓ} : {A : Type ℓ} → (World → Option A) → M A
query_row f w = elim (faulty w) [ true ↦ err io (spend w) | false ↦ found (f w) (spend w) ]

abbrev pub stored : Option Database → M (Unit {0})
stored none w = err constraint w
stored (some d) w = ok tt (record w { db = d })

-- db.ExecContext: a refused statement changes nothing.
unfoldable pub exec : (World → Option Database) → M (Unit {0})
exec f w = elim (faulty w) [ true ↦ err io (spend w) | false ↦ stored (f w) (spend w) ]

-- An UPDATE or DELETE that breaks no constraint.
unfoldable pub exec_update : (World → Database) → M (Unit {0})
unfolding exec
exec_update f = exec (λ w. some (f w))

-- ids.New, which panics if the random source fails
unfoldable pub new_id : Env → M Text
new_id env w = ok (env.new_id w.fresh) (record w { fresh = suc w.fresh })

-- The first n bytes of a draw.
unfoldable pub bytes_of : (ℕ → ℕ) → ℕ → List ℕ
bytes_of b ℕ.zero = []
bytes_of b (suc n) = bytes_of b n ++ b n ∷ []

-- rand.Read(make([]byte, n))
unfoldable pub random_bytes : Env → ℕ → M (List ℕ)
random_bytes env n w = elim (faulty w) [
  | true ↦ err rand_failed (spend w)
  | false ↦
      ok (bytes_of (env.random_byte w.fresh) n)
        (record w { fresh = suc w.fresh; faults = drop 1 w.faults })
]

-- Mailer.Send, whose error the callers only log
unfoldable pub send : Mail → M (Unit {0})
send m w = ok tt (record w {
  faults = drop 1 w.faults;
  outbox = elim (faulty w) [ true ↦ w.outbox | false ↦ w.outbox ++ m ∷ [] ];
})

-- defer tx.Rollback()
abbrev pub roll_back : Database → World → World
roll_back d w = record w { db = d }

abbrev pub commit {ℓ} : {A : Type ℓ} → Database → A → World → Outcome A
commit d a w = elim (faulty w) [ true ↦ err io (roll_back d (spend w)) | false ↦ ok a (spend w) ]

-- db.BeginTx, the statements, tx.Commit: whatever fails, the database is as it was.
unfoldable pub in_tx {ℓ} : {A : Type ℓ} → M A → M A
in_tx body w = elim (faulty w) [
  | true ↦ err io (spend w)
  | false ↦ elim (body (spend w)) [
    | ok a w' ↦ commit w.db a w'
    | err e w' ↦ err e (roll_back w.db w')
  ]
]

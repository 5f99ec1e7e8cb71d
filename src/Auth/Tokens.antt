-- ===== src/Auth/Tokens.antt =====
-- internal/auth/tokens.go: single-use e-mail verification and password reset tokens.
pub mod Created
pub mod SingleUse
pub mod RoundTrip
use agenthub_server.Base.{
  Text, ◌==◌, is_empty, ℕ, Bool, true, false, ◌&&◌, ◌||◌, not, Option, none, some, List, [], ◌∷◌,
  find, update, if◌then◌else◌,
}
use agenthub_server.Schema.{Database, VerificationTokenRow, Purpose, purpose_eq}
use agenthub_server.Schema.Inserts.{insert_verification_token}
use agenthub_server.Tenancy.{null_if_empty, coalesce, is_null}
use agenthub_server.World.{
  Env, M, World, Outcome, ok, err, Err, no_rows, bad_input, token_not_found, token_expired, pure,
  fail, on_err, require, ◌>>=◌, ◌>>◌, query_row, exec, exec_update, in_tx, seconds_now,
  seconds_after, is_after,
}
use agenthub_server.Auth.Hash.{sha256_hex, random_token}

pub record VerificationTokenInput : Type 0 where
  pub id : Text
  pub purpose : Purpose
  pub user_id : Text
  pub email : Text
  pub ttl : ℕ

pub record VerificationToken : Type 0 where
  pub id : Text
  pub purpose : Purpose
  pub user_id : Text
  pub email : Text

abbrev pub token_row : VerificationTokenInput → Text → World → VerificationTokenRow
token_row i hash w = record {
  id = i.id;
  purpose = i.purpose;
  user_id = null_if_empty i.user_id;
  email = i.email;
  token_hash = hash;
  created_at = seconds_now w;
  expires_at = seconds_after w i.ttl;
  consumed_at = none;
}

unfoldable pub create_verification_token : Env → VerificationTokenInput → M Text
unfolding random_token exec
create_verification_token env i = do
  require (not (is_empty i.id || is_empty i.email)) bad_input
  raw ← random_token env
  exec (λ w. insert_verification_token w.db (token_row i (sha256_hex env raw) w))
  pure raw

-- WHERE token_hash = ? AND purpose = ?
abbrev pub token_matches : Text → Purpose → VerificationTokenRow → Bool
token_matches hash p r = r.token_hash == hash && purpose_eq r.purpose p

abbrev pub no_rows_is_not_found {ℓ} : {A : Type ℓ} → Err → M A
no_rows_is_not_found no_rows w = err token_not_found w
no_rows_is_not_found e w = err e w

abbrev pub with_id : Text → VerificationTokenRow → Bool
with_id i r = r.id == i

abbrev pub consume_row : World → VerificationTokenRow → VerificationTokenRow
consume_row w r = record r { consumed_at = some (seconds_now w) }

abbrev pub scan_token : VerificationTokenRow → VerificationToken
scan_token r = record {
  id = r.id;
  purpose = r.purpose;
  user_id = coalesce r.user_id;
  email = r.email;
}

-- if time.Now().After(t) { return ErrTokenExpired }
abbrev pub require_fresh : ℕ → M (Unit {0})
require_fresh t w = require (not (is_after w t)) token_expired w

-- The statements between BeginTx and Commit.
unfoldable pub consume_statements : Env → Text → Purpose → M VerificationToken
unfolding query_row exec_update
consume_statements env raw p = do
  row ←
      on_err (query_row (λ w. find (token_matches (sha256_hex env raw) p) w.db.verification_tokens))
        no_rows_is_not_found
  require (is_null row.consumed_at) token_not_found
  require_fresh row.expires_at
  exec_update (λ w. record (w.db) {
    verification_tokens = update (with_id row.id) (consume_row w) w.db.verification_tokens;
  })
  pure (scan_token row)

unfoldable pub consume_verification_token : Env → Text → Purpose → M VerificationToken
consume_verification_token env raw p = in_tx (consume_statements env raw p)

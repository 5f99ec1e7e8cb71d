-- ===== src/Auth/Tokens/RoundTrip.antt =====
-- CreateVerificationToken, then ConsumeVerificationToken.
use agenthub_server.Base.{
  Text, ◌==◌, ==_refl, ◌≡◌, ◌∙◌, false, ◌||◌, some, none, [], ◌∷◌, ◌++◌, inl, inr, find,
  find-append-none, find-none_of_has, arith, if◌then◌else◌,
}
use agenthub_server.Schema.{Purpose, purpose_eq}
use agenthub_server.Schema.Inserts.{verification_token_clash}
use agenthub_server.Tenancy.Users.{coalesce-null_if_empty}
use agenthub_server.World.{
  Env, World, ok, token_not_found, token_expired, result_of, is_after, seconds_after, in_tx,
}
use agenthub_server.Auth.Tokens.{
  VerificationTokenInput, VerificationToken, create_verification_token, consume_verification_token,
  consume_statements, token_matches,
}
use agenthub_server.Auth.Tokens.Created.{created_row, drawn_token, create_lem}

abbrev handed_over : VerificationTokenInput → VerificationToken
handed_over i = record { id = i.id; purpose = i.purpose; user_id = i.user_id; email = i.email }

found_created :
    (env : Env) (i : VerificationTokenInput) (p : Purpose) (w : World)
    → verification_token_clash w.db (created_row env i w) ≡ false
    → find
        (token_matches (env.sha256_hex (drawn_token env w)) p)
        (w.db.verification_tokens ++ created_row env i w ∷ [])
      ≡ (if purpose_eq i.purpose p then some (created_row env i w) else none)
unfolding verification_token_clash find
found_created env i p w h =
    let hash = env.sha256_hex (drawn_token env w) in
    let older =
      find-none_of_has (λ t. t.id == i.id || t.token_hash == hash) (token_matches hash p)
        w.db.verification_tokens (λ x e. ground arith) h in
    find-append-none (token_matches hash p) w.db.verification_tokens (created_row env i w ∷ [])
      older
    ∙ ground (arith, ==_refl hash)

-- After a successful CreateVerificationToken, where the database is as it left it and does not
-- fail, ConsumeVerificationToken of the raw token returns the id, purpose, user and e-mail that
-- went in if the purpose is the same and the clock is not past the expiry of
-- datetime('now') + TTL; with the same purpose and a later clock it returns ErrTokenExpired, and
-- with the other purpose ErrTokenNotFound.
pub consume-create :
    (env : Env) (i : VerificationTokenInput) (p : Purpose) (w w₁ w₂ : World) (raw : Text)
    → create_verification_token env i w ≡ ok raw w₁
    → w₂.db ≡ w₁.db
    → w₂.faults ≡ []
    → result_of (consume_verification_token env raw p w₂) ≡ (
        if purpose_eq i.purpose p
        then if is_after w₂ (seconds_after w i.ttl) then inr token_expired else inl (handed_over i)
        else inr token_not_found)
unfolding consume_verification_token consume_statements in_tx
consume-create env i p w w₁ w₂ raw h same calm =
    let (drawn, new, db) = create_lem env i w h in
    ground (arith, found_created env i p w new, coalesce-null_if_empty i.user_id)

-- ===== src/Auth/ApiTokens/RoundTrip.antt =====
-- CreateAPIToken, then LookupAPIToken.
use agenthub_server.Base.{
  Text, ◌==◌, ==_refl, ◌≡◌, ◌∙◌, ℕ, ◌*◌, Bool, true, false, ◌||◌, some, none, [], ◌∷◌, ◌++◌, inl,
  inr, find, Option, ◌⊎◌, find-append-none, find-none_of_has, arith, if◌then◌else◌, update,
}
use agenthub_server.Schema.{ApiTokenRow}
use agenthub_server.Schema.Inserts.{api_token_clash, insert_api_token}
use agenthub_server.Tenancy.{is_null}
use agenthub_server.Tenancy.Users.{coalesce-null_if_empty}
use agenthub_server.World.{
  Env, World, ok, err, Err, token_expired, result_of, is_after, second, bytes_of, seconds_now,
}
use agenthub_server.Auth.ApiTokens.{
  ApiTokenInput, ApiToken, api_token_prefix, api_token_row, create_api_token, lookup_api_token,
  hashed_as, scan_api_token, to_seconds, from_seconds, stamp_used, api_token_with,
}

-- The raw token that a creation at `w` draws.
abbrev pub drawn_raw : Env → World → Text
drawn_raw env w = api_token_prefix ++ env.base64_url (bytes_of (env.random_byte w.fresh) 32)

abbrev pub created_token : Env → ApiTokenInput → World → ApiTokenRow
created_token env i w = api_token_row env i (env.sha256_hex (drawn_raw env w)) w

pub create_api_token_lem :
    (env : Env) (i : ApiTokenInput) (w : World) {raw : Text} {t : ApiToken} {w' : World}
    → create_api_token env i w ≡ ok (raw, t) w'
    → (raw ≡ drawn_raw env w)
      × (api_token_clash w.db (created_token env i w) ≡ false)
      × (w'.db ≡ record (w.db) { api_tokens = w.db.api_tokens ++ created_token env i w ∷ [] })
unfolding create_api_token insert_api_token api_token_clash
create_api_token_lem env i w h = ground arith

found_token :
    (env : Env) (i : ApiTokenInput) (w : World)
    → api_token_clash w.db (created_token env i w) ≡ false
    → find
        (hashed_as (env.sha256_hex (drawn_raw env w)))
        (w.db.api_tokens ++ created_token env i w ∷ [])
      ≡ some (created_token env i w)
unfolding api_token_clash find
found_token env i w h =
    let hash = env.sha256_hex (drawn_raw env w) in
    let older =
      find-none_of_has (λ t. t.id == i.id || t.token_hash == hash) (hashed_as hash) w.db.api_tokens
        (λ x e. ground arith) h in
    find-append-none (hashed_as hash) w.db.api_tokens (created_token env i w ∷ []) older
    ∙ ground (arith, ==_refl hash)

-- Has the time, if there is one, passed?
abbrev pub is_past : World → Option ℕ → Bool
is_past w none = false
is_past w (some t) = is_after w t

-- The record that a lookup of a token made at `w` returns.
abbrev looked_up : ApiTokenInput → World → ApiToken
looked_up i w = record {
  id = i.id;
  account_id = i.account_id;
  user_id = i.user_id;
  device_id = i.device_id;
  name = i.name;
  created_at = some (seconds_now w * second);
  last_used_at = none;
  expires_at = from_seconds (to_seconds i.expires_at);
}

-- After a successful CreateAPIToken, where the api_tokens table is as it left it and the database
-- does not fail, LookupAPIToken of the raw token returns the id, account, user, device and name
-- that went in, with the times at whole seconds; if an expiry was given and the clock is past it,
-- it returns ErrTokenExpired instead.
pub lookup-create :
    (env : Env) (i : ApiTokenInput) (w w₁ w₂ : World) (raw : Text) (t : ApiToken)
    → create_api_token env i w ≡ ok (raw, t) w₁
    → w₂.db.api_tokens ≡ w₁.db.api_tokens
    → w₂.faults ≡ []
    → result_of (lookup_api_token env raw w₂)
      ≡ (if is_past w₂ (to_seconds i.expires_at) then inr token_expired else inl (looked_up i w))
unfolding lookup_api_token
lookup-create env i w w₁ w₂ raw t h same calm =
    let (drawn, new, db) = create_api_token_lem env i w h in
    ground (arith, found_token env i w new, coalesce-null_if_empty i.device_id)

-- If LookupAPIToken succeeds, the row that the hash selects is not revoked and not expired, and is
-- what is returned; of the database only last_used_at of the rows of its id has changed, or
-- nothing, where that last UPDATE failed.
pub lookup_sound :
    (env : Env) (raw : Text) (w : World) {t : ApiToken} {w' : World}
    → lookup_api_token env raw w ≡ ok t w'
    → (r : ApiTokenRow) × (find (hashed_as (env.sha256_hex raw)) w.db.api_tokens ≡ some r)
      × (is_null r.revoked_at ≡ true)
      × (is_past w r.expires_at ≡ false)
      × (t ≡ scan_api_token r)
      × ((w'.db ≡ w.db)
          ⊎ (w'.db ≡ record (w.db) {
            api_tokens = update (api_token_with r.id) (stamp_used w) w.db.api_tokens;
          }))
unfolding lookup_api_token
lookup_sound env raw w h = ground arith

pub lookup-err-db :
    (env : Env) (raw : Text) (w : World) {e : Err} {w' : World}
    → lookup_api_token env raw w ≡ err e w'
    → w'.db ≡ w.db
unfolding lookup_api_token
lookup-err-db env raw w h = ground arith

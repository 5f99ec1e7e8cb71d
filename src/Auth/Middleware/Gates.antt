-- ===== src/Auth/Middleware/Gates.antt =====
-- What the gates let through.
use agenthub_server.Base.{
  str, false, Text, ◌≡◌, ◌≢◌, refl, ◌≤◌, ◌*◌, true, Option, none, some, arith, find, ◌⊎◌, inl, inr,
  ◌∙◌, ap,
}
use agenthub_server.Schema.{AuthSessionRow, UserRow}
use agenthub_server.Tenancy.{is_null, live_id, is_operator}
use agenthub_server.World.{Env, M, World, Outcome, ok, err, pure, ◌>>=◌, ◌>>◌, second, seconds_now}
use agenthub_server.Auth.Jwt.{JwtSigner, parse, claims_of, or_bad_token}
use agenthub_server.World.{JwtClaims}
use agenthub_server.Auth.Sessions.{session_with, check_session_active}
use agenthub_server.Auth.Sessions.Lifecycle.{SessionSteps, revoke_session_final}
use agenthub_server.Auth.ApiTokens.{ApiToken, lookup_api_token, hashed_as, scan_api_token}
use agenthub_server.Auth.ApiTokens.RoundTrip.{is_past, lookup_sound}
use agenthub_server.Strings.{trim_space, strip_prefix}
use agenthub_server.Schema.{ApiTokenRow}
use agenthub_server.Auth.Service.{logout}
use agenthub_server.Auth.Middleware.{
  Identity, serve, bearer_token, session_identity, require_auth, require_operator, identity_of,
  gate_of, or_reject, token_identity, by_scheme, require_auth_or_token, token_identity_of,
}

gate_serves :
    (o : Outcome Identity) {c : Identity} {w' : World} → gate_of o ≡ ok (serve c) w' → o ≡ ok c w'
gate_serves (ok d v) h = ground arith
gate_serves (err e v) h = ground arith

bearer_serves :
    (o : Option Text) (check : Text → M Identity) (w : World) {c : Identity} {w' : World}
    → or_reject o check w ≡ ok (serve c) w'
    → (token : Text) × (o ≡ some token) × (check token w ≡ ok c w')
bearer_serves none check w h = ground arith
bearer_serves (some token) check w h = (token, refl, gate_serves (check token w) h)

check_sound :
    (i : Text) (w : World) {w' : World}
    → check_session_active i w ≡ ok tt w'
    → (r : AuthSessionRow) × (find (session_with i) w.db.auth_sessions ≡ some r)
      × (is_null r.revoked_at ≡ true)
      × (w.now ≤ r.expires_at * second)
      × (w'.db ≡ w.db)
unfolding check_session_active
check_sound i w h = ground arith

-- The claims that a token is accepted with, and the session check that it passes.
identity_sound :
    (env : Env) (signer : JwtSigner) (token : Text) (w : World) {c : Identity} {w' : World}
    → session_identity env signer token w ≡ ok c w'
    → (claims : JwtClaims) × (env.jwt_parse signer.key signer.issuer (seconds_now w) token
        ≡ some claims)
      × (c ≡ identity_of (claims_of claims))
      × (check_session_active c.session_id w ≡ ok tt w')
unfolding session_identity parse
identity_sound env signer token w {c} {w'} h =
    by_claims (env.jwt_parse signer.key signer.issuer (seconds_now w) token) h
  where
    by_claims :
        (o : Option JwtClaims)
        → (or_bad_token o >>= λ claims.
              check_session_active claims.session_id >> pure (identity_of claims))
            w
          ≡ ok c w'
        → (claims : JwtClaims) × (o ≡ some claims)
          × (c ≡ identity_of (claims_of claims))
          × (check_session_active c.session_id w ≡ ok tt w')
    by_claims none e = ground arith
    by_claims (some claims) e = (claims, refl, ground arith, ground arith)

-- RequireAuth serves a request only as the session, user and account of a JWT that the library
-- accepts with the server's key and issuer, and only if the session's row is there, is not revoked
-- and has not expired; and it changes nothing in the database.
pub require_auth_sound :
    (env : Env) (signer : JwtSigner) (header : Text) (w : World) {c : Identity} {w' : World}
    → require_auth env signer header w ≡ ok (serve c) w'
    → (token : Text) × (claims : JwtClaims) × (r : AuthSessionRow) × (bearer_token header
        ≡ some token)
      × (env.jwt_parse signer.key signer.issuer (seconds_now w) token ≡ some claims)
      × (c ≡ identity_of (claims_of claims))
      × (find (session_with c.session_id) w.db.auth_sessions ≡ some r)
      × (is_null r.revoked_at ≡ true)
      × (w.now ≤ r.expires_at * second)
      × (w'.db ≡ w.db)
unfolding require_auth
require_auth_sound env signer header w h =
    let (token, bearer, passed) =
      bearer_serves (bearer_token header) (session_identity env signer) w h in
    let (claims, parsed, named, active) = identity_sound env signer token w passed in
    let (r, at, live, fresh, same) = check_sound _ w active in
    (token, claims, r, bearer, parsed, named, at, live, fresh, same)

-- After a successful Logout of a session, and any sequence of the package's calls on auth_sessions
-- and of calls that leave the table alone, where no session is made under the same id, RequireAuth
-- serves no request as that session, whatever token it carries.
pub logout_locks_out :
    (env : Env) (signer : JwtSigner) (header session_id : Text) (w w₁ w₂ w₃ : World) (c : Identity)
    → logout session_id w ≡ ok tt w₁
    → SessionSteps session_id w₁ w₂
    → require_auth env signer header w₂ ≡ ok (serve c) w₃
    → c.session_id ≢ session_id
unfolding logout require_auth
logout_locks_out env signer header session_id w w₁ w₂ w₃ c h steps served same =
    let (token, _, passed) =
      bearer_serves (bearer_token header) (session_identity env signer) w₂ served in
    let (_, _, _, active) = identity_sound env signer token w₂ passed in
    ground (arith, active, same, revoke_session_final session_id w w₁ w₂ h steps)

-- RequireOperator serves a request only for a live user whose operator flag is 1, with the identity
-- it came with marked as operator, and changes nothing in the database.
pub operator_gate_lem :
    (c : Identity) (w : World) {o : Identity} {w' : World}
    → require_operator c w ≡ ok (serve o) w'
    → (u : UserRow) × (find (live_id c.user_id) w.db.users ≡ some u)
      × (u.is_operator ≡ 1)
      × (o ≡ record c { is_operator = true })
      × (w'.db ≡ w.db)
unfolding require_operator is_operator
operator_gate_lem c w h = ground arith

token_identity_sound :
    (env : Env) (token : Text) (w : World) {c : Identity} {w' : World}
    → token_identity env token w ≡ ok c w'
    → (t : ApiToken) × (lookup_api_token env token w ≡ ok t w') × (c ≡ token_identity_of t)
unfolding token_identity
token_identity_sound env token w h = ground arith

-- What a switch case that serves has checked, by the two strips of the header.
abbrev IsLetIn : Env → JwtSigner → Option Text → Option Text → World → Identity → World → Type 0
IsLetIn env signer (some b) token w c w' =
    (claims : JwtClaims) × (env.jwt_parse signer.key signer.issuer (seconds_now w) (trim_space b)
      ≡ some claims)
    × (c ≡ identity_of (claims_of claims))
    × (check_session_active c.session_id w ≡ ok tt w')
IsLetIn env signer none (some t) w c w' =
    (a : ApiToken) × (lookup_api_token env (trim_space t) w ≡ ok a w') × (c ≡ token_identity_of a)
IsLetIn env signer none none w c w' = ⊥

scheme_sound :
    (env : Env) (signer : JwtSigner) (bearer token : Option Text) (w : World) {c : Identity}
    {w' : World}
    → by_scheme env signer bearer token w ≡ ok (serve c) w'
    → IsLetIn env signer bearer token w c w'
scheme_sound env signer (some b) token w h =
    identity_sound env signer (trim_space b) w
      (gate_serves (session_identity env signer (trim_space b) w) h)
scheme_sound env signer none (some t) w h =
    token_identity_sound env (trim_space t) w (gate_serves (token_identity env (trim_space t) w) h)
scheme_sound env signer none none w h = ground arith

-- As whom a JWT lets in
pub record BySession (env : Env) (signer : JwtSigner) (header : Text) (w : World) (c : Identity)
    : Type 0 where
  pub bearer : Text
  pub claims : JwtClaims
  pub row : AuthSessionRow
  pub sent : strip_prefix (str "Bearer ") header ≡ some bearer
  pub parsed :
      env.jwt_parse signer.key signer.issuer (seconds_now w) (trim_space bearer) ≡ some claims
  pub named : c ≡ identity_of (claims_of claims)
  pub there : find (session_with c.session_id) w.db.auth_sessions ≡ some row
  pub live : is_null row.revoked_at ≡ true
  pub fresh : w.now ≤ row.expires_at * second

-- As whom an API token lets in
pub record ByToken (env : Env) (header : Text) (w : World) (c : Identity) : Type 0 where
  pub token : Text
  pub row : ApiTokenRow
  pub sent : strip_prefix (str "Token ") header ≡ some token
  pub there : find (hashed_as (env.sha256_hex (trim_space token))) w.db.api_tokens ≡ some row
  pub live : is_null row.revoked_at ≡ true
  pub fresh : is_past w row.expires_at ≡ false
  pub named : c ≡ token_identity_of (scan_api_token row)

-- RequireAuthOrToken serves a request either as the session, user and account of the JWT behind
-- "Bearer " in its header, which the library accepts with the server's key and issuer, and whose
-- session's row is there, is not revoked and has not expired; or as the user, account and device of
-- the API token behind "Token " in its header, whose hash selects a row that is not revoked and has
-- not expired.
pub require_auth_or_token_sound :
    (env : Env) (signer : JwtSigner) (header : Text) (w : World) {c : Identity} {w' : World}
    → require_auth_or_token env signer header w ≡ ok (serve c) w'
    → BySession env signer header w c ⊎ ByToken env header w c
unfolding require_auth_or_token
require_auth_or_token_sound env signer header w {c} {w'} h =
    by_case (strip_prefix (str "Bearer ") header) refl (strip_prefix (str "Token ") header) refl h
  where
    by_case :
        (b : Option Text)
        → strip_prefix (str "Bearer ") header ≡ b
        → (t : Option Text) → strip_prefix (str "Token ") header ≡ t
        → by_scheme env signer b t w ≡ ok (serve c) w'
        → BySession env signer header w c ⊎ ByToken env header w c
    by_case (some b) e t e' k =
        let (claims, parsed, named, active) = scheme_sound env signer (some b) t w k in
        let (r, at, live, fresh, _) = check_sound c.session_id w active in
        inl (record {
          bearer = b;
          claims = claims;
          row = r;
          sent = e;
          parsed = parsed;
          named = named;
          there = at;
          live = live;
          fresh = fresh;
        })
    by_case none e (some t) e' k =
        let (a, looked_up, named) = scheme_sound env signer none (some t) w k in
        let (r, at, live, fresh, scanned, _) = lookup_sound env (trim_space t) w looked_up in
        inr (record {
          token = t;
          row = r;
          sent = e';
          there = at;
          live = live;
          fresh = fresh;
          named = named ∙ ap token_identity_of scanned;
        })
    by_case none e none e' k = absurd (scheme_sound env signer none none w k)

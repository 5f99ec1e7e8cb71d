-- ===== src/Schema/Inserts.antt =====
-- INSERT into each table: `none` where SQLite refuses the row because of a constraint of
-- internal/db/migrations/sqlite. A CHECK on an enumeration holds by the column's type.
use agenthub_server.Base.{
  is_empty, if◌then◌else◌, Text, ◌==◌, eqb, Bool, true, false, ◌&&◌, ◌||◌, not, Option, none, some,
  [], ◌∷◌, ◌++◌, has,
}
use agenthub_server.Schema.{
  Database, OauthStateRow, OauthIdentityRow, provider_eq, UserRow, AccountRow, MembershipRow,
  AuthSessionRow, VerificationTokenRow, ApiTokenRow, DeviceRow, PairCodeRow, IdempotencyRow,
  AgentSessionRow, BlobRow, LinkRow, MetaRow,
}

-- REFERENCES users(id), accounts(id)
unfoldable pub user_exists : Database → Text → Bool
user_exists d i = has (λ u. u.id == i) d.users

unfoldable pub account_exists : Database → Text → Bool
account_exists d i = has (λ a. a.id == i) d.accounts

-- A nullable reference: NULL refers to nothing.
abbrev pub refers : (Text → Bool) → Option Text → Bool
refers test none = true
refers test (some i) = test i

-- A refused row leaves no database.
abbrev pub accept : Bool → Database → Option Database
accept true d = some d
accept false d = none

unfoldable pub user_clash : Database → UserRow → Bool
user_clash d r = has (λ u. u.id == r.id || u.email == r.email) d.users

unfoldable pub insert_user : Database → UserRow → Option Database
insert_user d r = accept (not (user_clash d r)) (record d { users = d.users ++ r ∷ [] })

unfoldable pub account_clash : Database → AccountRow → Bool
account_clash d r = has (λ a. a.id == r.id || a.slug == r.slug) d.accounts

unfoldable pub insert_account : Database → AccountRow → Option Database
insert_account d r = accept (not (account_clash d r)) (record d { accounts = d.accounts ++ r ∷ [] })

unfoldable pub membership_clash : Database → MembershipRow → Bool
membership_clash d r =
    has (λ m. m.id == r.id || (m.account_id == r.account_id && m.user_id == r.user_id))
      d.memberships

unfoldable pub insert_membership : Database → MembershipRow → Option Database
insert_membership d r =
    accept (account_exists d r.account_id && user_exists d r.user_id && not (membership_clash d r))
      (record d { memberships = d.memberships ++ r ∷ [] })

unfoldable pub auth_session_clash : Database → AuthSessionRow → Bool
auth_session_clash d r = has (λ s. s.id == r.id) d.auth_sessions

unfoldable pub insert_auth_session : Database → AuthSessionRow → Option Database
insert_auth_session d r =
    accept
      (user_exists d r.user_id && account_exists d r.account_id && not (auth_session_clash d r))
      (record d { auth_sessions = d.auth_sessions ++ r ∷ [] })

unfoldable pub verification_token_clash : Database → VerificationTokenRow → Bool
verification_token_clash d r =
    has (λ t. t.id == r.id || t.token_hash == r.token_hash) d.verification_tokens

unfoldable pub insert_verification_token : Database → VerificationTokenRow → Option Database
insert_verification_token d r =
    accept (refers (user_exists d) r.user_id && not (verification_token_clash d r))
      (record d { verification_tokens = d.verification_tokens ++ r ∷ [] })

unfoldable pub api_token_clash : Database → ApiTokenRow → Bool
api_token_clash d r = has (λ t. t.id == r.id || t.token_hash == r.token_hash) d.api_tokens

unfoldable pub insert_api_token : Database → ApiTokenRow → Option Database
insert_api_token d r =
    accept (account_exists d r.account_id && user_exists d r.user_id && not (api_token_clash d r))
      (record d { api_tokens = d.api_tokens ++ r ∷ [] })

unfoldable pub device_clash : Database → DeviceRow → Bool
device_clash d r = has (λ v. v.id == r.id) d.devices

unfoldable pub insert_device : Database → DeviceRow → Option Database
insert_device d r =
    accept (account_exists d r.account_id && user_exists d r.user_id && not (device_clash d r))
      (record d { devices = d.devices ++ r ∷ [] })

unfoldable pub pair_code_clash : Database → PairCodeRow → Bool
pair_code_clash d r = has (λ p. p.code == r.code) d.pair_codes

unfoldable pub insert_pair_code : Database → PairCodeRow → Option Database
insert_pair_code d r =
    accept (account_exists d r.account_id && user_exists d r.user_id && not (pair_code_clash d r))
      (record d { pair_codes = d.pair_codes ++ r ∷ [] })

unfoldable pub oauth_state_clash : Database → OauthStateRow → Bool
oauth_state_clash d r = has (λ s. s.state == r.state) d.oauth_states

unfoldable pub insert_oauth_state : Database → OauthStateRow → Option Database
insert_oauth_state d r =
    accept (not (oauth_state_clash d r)) (record d { oauth_states = d.oauth_states ++ r ∷ [] })

unfoldable pub oauth_identity_clash : Database → OauthIdentityRow → Bool
oauth_identity_clash d r =
    has
      (λ o.
        o.id == r.id
        || (provider_eq o.provider r.provider && o.provider_user_id == r.provider_user_id))
      d.oauth_identities

unfoldable pub insert_oauth_identity : Database → OauthIdentityRow → Option Database
insert_oauth_identity d r =
    accept (user_exists d r.user_id && not (oauth_identity_clash d r))
      (record d { oauth_identities = d.oauth_identities ++ r ∷ [] })

-- REFERENCES devices(id)
unfoldable pub device_exists : Database → Text → Bool
device_exists d i = has (λ v. v.id == i) d.devices

unfoldable pub agent_session_clash : Database → AgentSessionRow → Bool
agent_session_clash d r = has (λ s. s.id == r.id) d.agent_sessions

unfoldable pub insert_agent_session : Database → AgentSessionRow → Option Database
insert_agent_session d r =
    accept
      (account_exists d r.account_id
        && device_exists d r.device_id
        && not (agent_session_clash d r))
      (record d { agent_sessions = d.agent_sessions ++ r ∷ [] })

-- PRIMARY KEY (key, scope)
unfoldable pub idempotency_clash : Database → IdempotencyRow → Bool
idempotency_clash d r = has (λ k. k.key == r.key && k.scope == r.scope) d.idempotency_keys

-- INSERT ... ON CONFLICT(key, scope) DO NOTHING. response_body is NOT NULL, and a body to which
-- nothing was written is a nil []byte, which is bound as NULL.
unfoldable pub insert_idempotency_key : Database → IdempotencyRow → Option Database
insert_idempotency_key d r =
    if is_empty r.response_body
    then none
    else if idempotency_clash d r
    then some d
    else some (record d { idempotency_keys = d.idempotency_keys ++ r ∷ [] })

-- PRIMARY KEY (id), UNIQUE (account_id, key)
unfoldable pub blob_clash : Database → BlobRow → Bool
blob_clash d r = has (λ b. b.id == r.id || (b.account_id == r.account_id && b.key == r.key)) d.blobs

unfoldable pub insert_blob : Database → BlobRow → Option Database
insert_blob d r =
    accept
      (account_exists d r.account_id && user_exists d r.created_by_user_id && not (blob_clash d r))
      (record d { blobs = d.blobs ++ r ∷ [] })

-- PRIMARY KEY (account_id, user_id), UNIQUE (headscale_user_id)
unfoldable pub link_clash : Database → LinkRow → Bool
link_clash d r =
    has
      (λ l.
        (l.account_id == r.account_id && l.user_id == r.user_id)
        || eqb l.headscale_user_id r.headscale_user_id)
      d.headscale_user_links

unfoldable pub insert_link : Database → LinkRow → Option Database
insert_link d r =
    accept (account_exists d r.account_id && user_exists d r.user_id && not (link_clash d r))
      (record d { headscale_user_links = d.headscale_user_links ++ r ∷ [] })

unfoldable pub insert_meta : Database → MetaRow → Option Database
insert_meta d r =
    accept (not (has (λ m. m.key == r.key) d.app_meta))
      (record d { app_meta = d.app_meta ++ r ∷ [] })

-- ===== src/Schema.antt =====
-- The SQLite schema of internal/db/migrations/sqlite: a record for each table's row, the database as
-- the lists of rows in insertion order, and INSERT with the table's PRIMARY KEY, UNIQUE, CHECK and
-- REFERENCES constraints (internal/db/sqlite/sqlite.go turns foreign keys on). A TEXT column that
-- holds a time is the number of seconds since the epoch; NULL is `none`.
pub mod Inserts
use agenthub_server.Base.{Text, ℕ, Bool, true, false, Option, List, []}
use agenthub_server.Base.Int.{ℤ}

pub data Role : Type 0 where
  owner admin member : Role

pub data Purpose : Type 0 where
  email_verify password_reset : Purpose

pub data Provider : Type 0 where
  google github : Provider

pub data Status : Type 0 where
  running stopped : Status

abbrev pub purpose_eq : Purpose → Purpose → Bool
purpose_eq email_verify email_verify = true
purpose_eq password_reset password_reset = true
purpose_eq _ _ = false

abbrev pub provider_eq : Provider → Provider → Bool
provider_eq google google = true
provider_eq github github = true
provider_eq _ _ = false

pub record UserRow : Type 0 where
  pub id : Text
  pub email : Text
  pub password_hash : Option Text
  pub email_verified_at : Option ℕ
  pub name : Text
  pub avatar_url : Text
  pub created_at : ℕ
  pub deleted_at : Option ℕ
  pub is_operator : ℕ

pub record AccountRow : Type 0 where
  pub id : Text
  pub slug : Text
  pub name : Text
  pub plan : Text
  pub created_at : ℕ
  pub deleted_at : Option ℕ

pub record MembershipRow : Type 0 where
  pub id : Text
  pub account_id : Text
  pub user_id : Text
  pub role : Role
  pub created_at : ℕ

pub record AuthSessionRow : Type 0 where
  pub id : Text
  pub user_id : Text
  pub account_id : Text
  pub user_agent : Text
  pub ip : Text
  pub issued_at : ℕ
  pub expires_at : ℕ
  pub revoked_at : Option ℕ

pub record VerificationTokenRow : Type 0 where
  pub id : Text
  pub purpose : Purpose
  pub user_id : Option Text
  pub email : Text
  pub token_hash : Text
  pub created_at : ℕ
  pub expires_at : ℕ
  pub consumed_at : Option ℕ

pub record OauthStateRow : Type 0 where
  pub state : Text
  pub provider : Provider
  pub redirect_uri : Text
  pub created_at : ℕ
  pub expires_at : ℕ
  pub consumed_at : Option ℕ

pub record OauthIdentityRow : Type 0 where
  pub id : Text
  pub user_id : Text
  pub provider : Provider
  pub provider_user_id : Text
  pub email : Text
  pub created_at : ℕ

pub record ApiTokenRow : Type 0 where
  pub id : Text
  pub account_id : Text
  pub user_id : Text
  pub device_id : Option Text
  pub name : Text
  pub token_hash : Text
  pub scope : Text
  pub last_used_at : Option ℕ
  pub created_at : ℕ
  pub expires_at : Option ℕ
  pub revoked_at : Option ℕ

pub record IdempotencyRow : Type 0 where
  pub key : Text
  pub scope : Text
  pub method : Text
  pub path : Text
  pub request_hash : Text
  pub response_code : ℕ
  pub response_body : Text
  pub created_at : ℕ
  pub expires_at : ℕ

pub record DeviceRow : Type 0 where
  pub id : Text
  pub account_id : Text
  pub user_id : Text
  pub name : Text
  pub platform : Text
  pub app_version : Text
  pub tailscale_node_id : Option Text
  pub last_seen_at : Option ℕ
  pub created_at : ℕ
  pub deleted_at : Option ℕ

pub record PairCodeRow : Type 0 where
  pub code : Text
  pub account_id : Text
  pub user_id : Text
  pub created_at : ℕ
  pub expires_at : ℕ
  pub consumed_at : Option ℕ
  pub consumed_by_device_id : Option Text

pub record AgentSessionRow : Type 0 where
  pub id : Text
  pub account_id : Text
  pub device_id : Text
  pub label : Text
  pub status : Status
  pub cwd : Text
  pub started_at : ℕ
  pub ended_at : Option ℕ
  pub last_activity_at : ℕ

pub record BlobRow : Type 0 where
  pub id : Text
  pub account_id : Text
  pub key : Text
  pub content_type : Text
  pub size_bytes : ℤ
  pub sha256 : Text
  pub created_by_user_id : Text
  pub created_at : ℕ

pub record LinkRow : Type 0 where
  pub account_id : Text
  pub user_id : Text
  pub headscale_user_id : ℕ
  pub headscale_user_name : Text
  pub created_at : ℕ

pub record MetaRow : Type 0 where
  pub key : Text
  pub value : Text

pub record Database : Type 0 where
  pub users : List UserRow
  pub accounts : List AccountRow
  pub memberships : List MembershipRow
  pub auth_sessions : List AuthSessionRow
  pub verification_tokens : List VerificationTokenRow
  pub oauth_states : List OauthStateRow
  pub oauth_identities : List OauthIdentityRow
  pub api_tokens : List ApiTokenRow
  pub idempotency_keys : List IdempotencyRow
  pub devices : List DeviceRow
  pub pair_codes : List PairCodeRow
  pub agent_sessions : List AgentSessionRow
  pub blobs : List BlobRow
  pub headscale_user_links : List LinkRow
  pub app_meta : List MetaRow

-- The database after the migrations, with no domain rows.
abbrev pub empty_db : Database
empty_db = record {
  users = [];
  accounts = [];
  memberships = [];
  auth_sessions = [];
  verification_tokens = [];
  oauth_states = [];
  oauth_identities = [];
  api_tokens = [];
  idempotency_keys = [];
  devices = [];
  pair_codes = [];
  agent_sessions = [];
  blobs = [];
  headscale_user_links = [];
  app_meta = [];
}

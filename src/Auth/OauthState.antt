-- ===== src/Auth/OauthState.antt =====
-- internal/auth/oauth.go: the single-use states of an OAuth sign-in.
pub mod Pending
pub mod Refines
use agenthub_server.Base.{Text, ◌==◌, ℕ, Bool, true, false, Option, none, some, ltb, find, update}
use agenthub_server.Schema.{Database, OauthStateRow, Provider}
use agenthub_server.Schema.Inserts.{insert_oauth_state}
use agenthub_server.Tenancy.{is_null}
use agenthub_server.World.{
  Env, M, World, Outcome, ok, err, bad_input, token_not_found, pure, on_err, require, ◌>>=◌, ◌>>◌,
  query_row, exec, exec_update, in_tx, seconds_now, seconds_after,
}
use agenthub_server.Auth.Hash.{random_token}
use agenthub_server.Auth.Tokens.{no_rows_is_not_found, require_fresh}

pub record OauthStateInput : Type 0 where
  pub provider : Provider
  pub redirect_uri : Text
  pub ttl : ℕ

pub record OauthState : Type 0 where
  pub provider : Provider
  pub redirect_uri : Text

abbrev pub state_row : OauthStateInput → Text → World → OauthStateRow
state_row i state w = record {
  state = state;
  provider = i.provider;
  redirect_uri = i.redirect_uri;
  created_at = seconds_now w;
  expires_at = seconds_after w i.ttl;
  consumed_at = none;
}

unfoldable pub create_oauth_state : Env → OauthStateInput → M Text
unfolding random_token exec
create_oauth_state env i = do
  require (ltb 0 i.ttl) bad_input
  state ← random_token env
  exec (λ w. insert_oauth_state w.db (state_row i state w))
  pure state

-- WHERE state = ?
abbrev pub state_with : Text → OauthStateRow → Bool
state_with s r = r.state == s

abbrev pub consume_state_row : World → OauthStateRow → OauthStateRow
consume_state_row w r = record r { consumed_at = some (seconds_now w) }

abbrev pub scan_state : OauthStateRow → OauthState
scan_state r = record { provider = r.provider; redirect_uri = r.redirect_uri }

-- The statements between BeginTx and Commit.
unfoldable pub consume_state_statements : Text → M OauthState
unfolding query_row exec_update
consume_state_statements raw = do
  row ← on_err (query_row (λ w. find (state_with raw) w.db.oauth_states)) no_rows_is_not_found
  require (is_null row.consumed_at) token_not_found
  require_fresh row.expires_at
  exec_update (λ w. record (w.db) {
    oauth_states = update (state_with raw) (consume_state_row w) w.db.oauth_states;
  })
  pure (scan_state row)

unfoldable pub consume_oauth_state : Text → M OauthState
consume_oauth_state raw = in_tx (consume_state_statements raw)

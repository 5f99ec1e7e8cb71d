-- ===== src/Api/Oauth.antt =====
-- internal/api/oauth.go: the start and the callback of an OAuth sign-in.
pub mod Callback
use agenthub_server.Base.{Text, str, is_empty, ℕ, ◌*◌, true, false, not, ◌||◌}
use agenthub_server.Schema.{Provider}
use agenthub_server.World.{Err, World, Env, second, token_not_found, token_expired}
use agenthub_server.Auth.Service.{Config}
use agenthub_server.Auth.OauthState.{create_oauth_state, consume_oauth_state}
use agenthub_server.Auth.Oauth.{
  OauthServiceConfig, FinishLoginInput, FinishLoginOutput, finish_login,
}
use agenthub_server.Api.{Served, send_reply, handle, fails_with, write_json, write_error, redirect}

-- 10*time.Minute
abbrev pub oauth_state_ttl : ℕ
oauth_state_ttl = 600 * second

-- The wiring's provider, its AuthCodeURL, and the query's redirect_uri
unfoldable pub oauth_start_handler :
    Env → Provider → (Text → Text) → Text → World → Served (Unit {0})
oauth_start_handler env provider auth_code_url redirect_uri w =
    handle
      (create_oauth_state env
        (record { provider = provider; redirect_uri = redirect_uri; ttl = oauth_state_ttl }) w)
      (λ state. send_reply (redirect (auth_code_url state)))
      (fails_with 500 (str "oauth_start_failed"))

pub record CallbackInput : Type 0 where
  pub state : Text
  pub code : Text
  pub user_agent : Text
  pub ip : Text

abbrev pub state_failed : Err → World → Served FinishLoginOutput
state_failed token_not_found w = send_reply (write_error 400 (str "oauth_state_invalid")) w
state_failed token_expired w = send_reply (write_error 400 (str "oauth_state_invalid")) w
state_failed e w = send_reply (write_error 500 (str "oauth_state_lookup_failed")) w

abbrev pub finish_input : CallbackInput → FinishLoginInput
finish_input i = record { code = i.code; user_agent = i.user_agent; ip = i.ip }

-- The part after ConsumeOAuthState, whose result is not looked at.
unfoldable pub finish_callback :
    Env → Config → OauthServiceConfig → CallbackInput → World → Served FinishLoginOutput
finish_callback env cfg o i w =
    handle (finish_login env cfg o (finish_input i) w) (λ out. send_reply (write_json 200 out))
      (fails_with 500 (str "oauth_finish_failed"))

unfoldable pub oauth_callback_handler :
    Env → Config → OauthServiceConfig → CallbackInput → World → Served FinishLoginOutput
oauth_callback_handler env cfg o i w = elim (is_empty i.state || is_empty i.code) [
  | true ↦ send_reply (write_error 400 (str "oauth_callback_bad_params")) w
  | false ↦ handle (consume_oauth_state i.state w) (λ s. finish_callback env cfg o i) state_failed
]

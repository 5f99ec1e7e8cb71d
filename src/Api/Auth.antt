-- ===== src/Api/Auth.antt =====
-- internal/api/auth.go: the endpoints under /api/auth.
use agenthub_server.Base.{Text, str, is_empty, ℕ, Option, if◌then◌else◌}
use agenthub_server.World.{
  Err, World, Env, invalid_credentials, email_not_verified, token_not_found, token_expired,
}
use agenthub_server.Auth.Jwt.{JwtSigner}
use agenthub_server.Auth.Service.{
  Config, SignupInput, SignupOutput, signup, verify_email, LoginInput, LoginOutput, login, logout,
  request_password_reset, reset_password,
}
use agenthub_server.Auth.Middleware.{Identity}
use agenthub_server.Api.{
  Served, send_reply, handle, fails_with, decoded, with_auth, write_json, write_error, write_header,
}

unfoldable pub signup_handler : Env → Config → Option SignupInput → World → Served SignupOutput
signup_handler env cfg body = decoded body (λ i w.
    handle (signup env cfg i w) (λ out. send_reply (write_json 200 out))
      (fails_with 400 (str "signup_failed")))

-- errors.Is(err, auth.ErrTokenNotFound), errors.Is(err, auth.ErrTokenExpired)
abbrev pub token_failure : Err → ℕ
token_failure token_not_found = 400
token_failure token_expired = 400
token_failure e = 500

-- The body is {"status": ...} with the text.
unfoldable pub verify_handler : Env → Option Text → World → Served Text
verify_handler env body = decoded body (λ token w.
    handle (verify_email env token w) (λ t. send_reply (write_json 200 (str "verified")))
      (λ e. send_reply (write_error (token_failure e) (str "verify_failed"))))

pub record LoginReq : Type 0 where
  pub email : Text
  pub password : Text

abbrev pub login_failed : Err → World → Served LoginOutput
login_failed invalid_credentials w = send_reply (write_error 401 (str "invalid_credentials")) w
login_failed email_not_verified w = send_reply (write_error 403 (str "email_not_verified")) w
login_failed e w = send_reply (write_error 500 (str "login_failed")) w

abbrev pub login_input : Text → Text → LoginReq → LoginInput
login_input user_agent ip i = record {
  email = i.email;
  password = i.password;
  user_agent = user_agent;
  ip = ip;
}

-- r.UserAgent(), r.RemoteAddr and the body
unfoldable pub login_handler :
    Env → Config → Text → Text → Option LoginReq → World → Served LoginOutput
login_handler env cfg user_agent ip body = decoded body (λ i w.
    handle (login env cfg (login_input user_agent ip i) w) (λ out. send_reply (write_json 200 out))
      login_failed)

-- Logout, once there is a session
unfoldable pub end_login : Text → World → Served (Unit {0})
end_login session_id w =
    handle (logout session_id w) (λ t. send_reply (write_header 204))
      (fails_with 500 (str "logout_failed"))

unfoldable pub logout_handler : Identity → World → Served (Unit {0})
logout_handler c w =
    if is_empty c.session_id
    then send_reply (write_error 401 (str "unauthorized")) w
    else end_login c.session_id w

unfoldable pub logout_route : Env → JwtSigner → Text → World → Served (Unit {0})
logout_route env signer header = with_auth env signer header logout_handler

unfoldable pub reset_request_handler : Env → Config → Option Text → World → Served Text
reset_request_handler env cfg body = decoded body (λ email w.
    handle (request_password_reset env cfg email w) (λ t. send_reply (write_json 200 (str "ok")))
      (fails_with 500 (str "reset_request_failed")))

pub record ResetReq : Type 0 where
  pub token : Text
  pub password : Text

unfoldable pub reset_handler : Env → Option ResetReq → World → Served Text
reset_handler env body = decoded body (λ (i : ResetReq) w.
    handle (reset_password env i.token i.password w) (λ t. send_reply (write_json 200 (str "ok")))
      (λ e. send_reply (write_error (token_failure e) (str "reset_failed"))))

-- ===== src/Auth/Service.antt =====
-- internal/auth/service.go: sign-up, e-mail verification, login, logout and password reset.
pub mod Signup
pub mod Login
pub mod Complete
pub mod Reset
use agenthub_server.Base.{
  Text, str, is_empty, ℕ, ◌+◌, Bool, true, false, ◌||◌, not, Option, none, some, List, [], ◌∷◌,
  ◌++◌, if◌then◌else◌,
}
use agenthub_server.Schema.{Database, Role, owner, Purpose, email_verify, password_reset}
use agenthub_server.Schema.Inserts.{insert_user, insert_account, insert_membership}
use agenthub_server.Strings.{to_lower}
use agenthub_server.Tenancy.{
  User, Account, Membership, user_row, account_row, membership_row, get_user_by_email,
  mark_email_verified, update_password_hash, first_account,
}
use agenthub_server.World.{
  Env, Mail, M, World, Outcome, ok, err, Err, no_rows, bad_input, invalid_credentials,
  email_not_verified, pure, fail, on_err, require, ◌>>=◌, ◌>>◌, exec, in_tx, new_id, send,
}
use agenthub_server.Auth.Tokens.{
  VerificationToken, VerificationTokenInput, create_verification_token, consume_verification_token,
}
use agenthub_server.Auth.Sessions.{Session, SessionInput, create_session, revoke_session}
use agenthub_server.Auth.Password.{hash_password, verify_password}
use agenthub_server.Auth.Slug.{slugify}
use agenthub_server.Auth.Jwt.{JwtSigner, Claims, sign}

-- Config with its Lifetimes; the database, the mailer and the log are the world's.
pub record Config : Type 0 where
  pub signer : JwtSigner
  pub session_ttl : ℕ
  pub email_verify_ttl : ℕ
  pub password_reset_ttl : ℕ
  pub verify_url_prefix : Text
  pub reset_url_prefix : Text

pub record SignupInput : Type 0 where
  pub email : Text
  pub password : Text
  pub account_name : Text

pub record SignupOutput : Type 0 where
  pub user_id : Text
  pub account_id : Text

unfoldable pub create_user_tx : Env → User → M (Unit {0})
unfolding exec
create_user_tx env u = exec (λ w. insert_user w.db (user_row env u w))

unfoldable pub create_account_tx : Account → M (Unit {0})
unfolding exec
create_account_tx a = exec (λ w. insert_account w.db (account_row a w))

unfoldable pub add_membership_tx : Membership → M (Unit {0})
unfolding exec
add_membership_tx m = exec (λ w. insert_membership w.db (membership_row m w))

abbrev pub new_user : Text → Text → SignupInput → User
new_user user_id hash i = record {
  id = user_id;
  email = i.email;
  name = [];
  avatar_url = [];
  password_hash = hash;
  email_verified_at = none;
  created_at = 0;
}

abbrev pub new_account : Env → Text → SignupInput → Account
new_account env account_id i = record {
  id = account_id;
  slug = slugify env i.account_name account_id;
  name = i.account_name;
  plan = str "self_hosted";
}

abbrev pub owner_membership : Text → Text → Text → Membership
owner_membership membership_id account_id user_id = record {
  id = membership_id;
  account_id = account_id;
  user_id = user_id;
  role = owner;
}

-- The statements between BeginTx and Commit.
unfoldable pub signup_statements : Env → User → Account → Membership → M (Unit {0})
unfolding create_user_tx create_account_tx add_membership_tx
signup_statements env u a m = do create_user_tx env u; create_account_tx a; add_membership_tx m

abbrev pub token_url : Env → Text → Text → Text
token_url env prefix raw = prefix ++ (str "?token=" ++ env.query_escape raw)

abbrev pub verify_mail : Env → Config → Text → Text → Mail
verify_mail env cfg to raw = record {
  to = to;
  subject = str "Verify your AgentHub email";
  text = str "Click to verify your email: " ++ token_url env cfg.verify_url_prefix raw;
}

abbrev pub verify_input : Env → Config → Text → Text → SignupInput → VerificationTokenInput
verify_input env cfg token_id user_id i = record {
  id = token_id;
  purpose = email_verify;
  user_id = user_id;
  email = to_lower env i.email;
  ttl = cfg.email_verify_ttl;
}

-- The ids that Signup has drawn when its transaction is committed.
pub record Registered : Type 0 where
  pub user_id : Text
  pub account_id : Text
  pub token_id : Text

-- The ids, and the transaction.
unfoldable pub register_with : Env → SignupInput → Text → M Registered
unfolding new_id
register_with env i hash = do
  user_id ← new_id env
  account_id ← new_id env
  membership_id ← new_id env
  token_id ← new_id env
  in_tx (
      signup_statements env (new_user user_id hash i) (new_account env account_id i)
        (owner_membership membership_id account_id user_id))
  pure (record { user_id = user_id; account_id = account_id; token_id = token_id })

-- Signup up to tx.Commit
unfoldable pub register : Env → SignupInput → M Registered
register env i = do
  require (not (is_empty i.email || is_empty i.password)) bad_input
  hash ← hash_password env i.password
  register_with env i hash

unfoldable pub signup : Env → Config → SignupInput → M SignupOutput
unfolding send
signup env cfg i = do
  r ← register env i
  raw ← create_verification_token env (verify_input env cfg r.token_id r.user_id i)
  send (verify_mail env cfg (to_lower env i.email) raw)
  pure (record { user_id = r.user_id; account_id = r.account_id })

unfoldable pub verify_email : Env → Text → M (Unit {0})
verify_email env raw = do
  token ← consume_verification_token env raw email_verify
  mark_email_verified token.user_id

pub record LoginInput : Type 0 where
  pub email : Text
  pub password : Text
  pub user_agent : Text
  pub ip : Text

pub record LoginOutput : Type 0 where
  pub token : Text
  pub session_id : Text
  pub expires_at : ℕ
  pub user_id : Text
  pub account_id : Text

abbrev pub no_rows_is_invalid {ℓ} : {A : Type ℓ} → Err → M A
no_rows_is_invalid no_rows w = err invalid_credentials w
no_rows_is_invalid e w = err e w

-- if err != nil || !ok { return ErrInvalidCredentials }
abbrev pub accepted : Option Bool → Bool
accepted none = false
accepted (some b) = b

abbrev pub is_set : Option ℕ → Bool
is_set none = false
is_set (some t) = true

abbrev pub login_session : Config → LoginInput → Text → Text → Text → SessionInput
login_session cfg i session_id user_id account_id = record {
  id = session_id;
  user_id = user_id;
  account_id = account_id;
  user_agent = i.user_agent;
  ip = i.ip;
  ttl = cfg.session_ttl;
}

abbrev pub session_claims : Config → Text → Text → Text → Claims
session_claims cfg session_id user_id account_id = record {
  session_id = session_id;
  user_id = user_id;
  account_id = account_id;
  ttl = cfg.session_ttl;
}

abbrev pub login_output : Config → Text → Text → Text → Text → M LoginOutput
login_output cfg token session_id user_id account_id w =
    ok
      (record {
        token = token;
        session_id = session_id;
        expires_at = w.now + cfg.session_ttl;
        user_id = user_id;
        account_id = account_id;
      })
      w

unfoldable pub login : Env → Config → LoginInput → M LoginOutput
unfolding new_id
login env cfg i = do
  u ← on_err (get_user_by_email env i.email) no_rows_is_invalid
  require (not (is_empty u.password_hash)) invalid_credentials
  require (accepted (verify_password env i.password u.password_hash)) invalid_credentials
  require (is_set u.email_verified_at) email_not_verified
  account_id ← first_account u.id
  session_id ← new_id env
  session ← create_session (login_session cfg i session_id u.id account_id)
  token ← sign env cfg.signer (session_claims cfg session_id u.id account_id)
  login_output cfg token session_id u.id account_id

unfoldable pub logout : Text → M (Unit {0})
logout session_id = revoke_session session_id

abbrev pub reset_mail : Env → Config → Text → Text → Mail
reset_mail env cfg to raw = record {
  to = to;
  subject = str "Reset your AgentHub password";
  text = str "Click to reset: " ++ token_url env cfg.reset_url_prefix raw;
}

-- The part of RequestPasswordReset after the user is found.
unfoldable pub send_reset : Env → Config → User → M (Unit {0})
unfolding new_id send
send_reset env cfg u = do
  token_id ← new_id env
  raw ← create_verification_token env (record {
    id = token_id;
    purpose = password_reset;
    user_id = u.id;
    email = u.email;
    ttl = cfg.password_reset_ttl;
  })
  send (reset_mail env cfg u.email raw)

abbrev pub reset_lookup : Env → Config → Outcome User → Outcome (Unit {0})
reset_lookup env cfg (ok u w) = send_reset env cfg u w
reset_lookup env cfg (err no_rows w) = ok tt w
reset_lookup env cfg (err e w) = err e w

unfoldable pub request_password_reset : Env → Config → Text → M (Unit {0})
request_password_reset env cfg email w = reset_lookup env cfg (get_user_by_email env email w)

-- ResetPassword after its token is consumed.
unfoldable pub store_hash : Env → Text → VerificationToken → M (Unit {0})
store_hash env password token = do
  hash ← hash_password env password
  update_password_hash token.user_id hash

unfoldable pub reset_password : Env → Text → Text → M (Unit {0})
reset_password env raw password = do
  require (not (is_empty password)) bad_input
  token ← consume_verification_token env raw password_reset
  store_hash env password token

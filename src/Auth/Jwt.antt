-- ===== src/Auth/Jwt.antt =====
-- internal/auth/jwt.go. The signature and its checks are the JWT library's.
use agenthub_server.Base.{Text, is_empty, ℕ, ◌+◌, ◌*◌, ◌/◌, ltb, not, ◌||◌, Option, none, some}
use agenthub_server.World.{
  Env, JwtClaims, M, World, ok, err, bad_input, bad_token, require, ◌>>◌, seconds_now, second,
}

-- What Sign reads of a Claims.
pub record Claims : Type 0 where
  pub session_id : Text
  pub user_id : Text
  pub account_id : Text
  pub ttl : ℕ

-- What Parse returns: times in nanoseconds.
pub record ParsedClaims : Type 0 where
  pub session_id : Text
  pub user_id : Text
  pub account_id : Text
  pub expires_at : ℕ
  pub issued_at : ℕ

pub record JwtSigner : Type 0 where
  pub key : Text
  pub issuer : Text

-- jwt.NewNumericDate keeps whole seconds.
abbrev pub registered_claims : Claims → World → JwtClaims
registered_claims c w = record {
  id = c.session_id;
  subject = c.user_id;
  account_id = c.account_id;
  issued_at = seconds_now w;
  expires_at = (w.now + c.ttl) / second;
}

abbrev pub signed_string : Env → JwtSigner → Claims → M Text
signed_string env s c w = ok (env.jwt_sign s.key s.issuer (registered_claims c w)) w

unfoldable pub sign : Env → JwtSigner → Claims → M Text
sign env s c = do
  require (not (is_empty c.session_id || is_empty c.user_id || is_empty c.account_id)) bad_input
  require (ltb 0 c.ttl) bad_input
  signed_string env s c

abbrev pub claims_of : JwtClaims → ParsedClaims
claims_of c = record {
  session_id = c.id;
  user_id = c.subject;
  account_id = c.account_id;
  expires_at = c.expires_at * second;
  issued_at = c.issued_at * second;
}

abbrev pub or_bad_token : Option JwtClaims → M ParsedClaims
or_bad_token none w = err bad_token w
or_bad_token (some c) w = ok (claims_of c) w

unfoldable pub parse : Env → JwtSigner → Text → M ParsedClaims
parse env s token w = or_bad_token (env.jwt_parse s.key s.issuer (seconds_now w) token) w

-- ===== src/Api.antt =====
-- internal/api: the HTTP handlers, and what they send (errors.go).
-- A handler is given the caller's identity, the path parameter and what json.Decode makes of the
-- body (`none` is its error); its JSON object has the fields of the record that it sends.
pub mod Devices
pub mod Tokens
pub mod Sessions
pub mod Auth
pub mod Oauth
pub mod Ws
pub mod Admin
pub mod Blobs
use agenthub_server.Base.{Text, str, ℕ, ◌≡◌, refl, Option, none, some, List, [], has}
use agenthub_server.Base.Int.{ℤ}
use agenthub_server.World.{Err, World, Env, Outcome, ok, err}
use agenthub_server.Auth.Jwt.{JwtSigner}
use agenthub_server.Devices.{Device}
use agenthub_server.Auth.Middleware.{
  Identity, Gate, require_auth, require_auth_or_token, serve, reject,
}

-- WriteJSON with its body, WriteError with its code (its message is for humans), w.WriteHeader
-- alone, http.Error of the middleware, and http.Redirect.
pub data Reply {ℓ} (A : Type ℓ) : Type ℓ where
  write_json : ℕ → A → Reply A
  write_error : ℕ → Text → Reply A
  write_header http_error : ℕ → Reply A
  redirect : Text → Reply A

-- The data of a realtime.Event
pub data Event : Type 0 where
  device_created : Device → Event
  blob_created : (id content_type : Text) (size_bytes : ℤ) (sha256 : Text) → Event

-- A call of pub.Publish
pub record Published : Type 0 where
  pub account_id : Text
  pub event : Event

-- What a handler has done when it returns.
pub record Served {ℓ} (A : Type ℓ) : Type ℓ where
  pub reply : Reply A
  pub published : List Published
  pub world : World

abbrev pub send_reply {ℓ} : {A : Type ℓ} → Reply A → World → Served A
send_reply r w = record { reply = r; published = []; world = w }

abbrev pub map_reply {ℓ κ} : {A : Type ℓ} {B : Type κ} → (A → B) → Reply A → Reply B
map_reply f (write_json status a) = write_json status (f a)
map_reply f (write_error status c) = write_error status c
map_reply f (write_header status) = write_header status
map_reply f (http_error status) = http_error status
map_reply f (redirect url) = redirect url

abbrev pub map_served {ℓ κ} : {A : Type ℓ} {B : Type κ} → (A → B) → Served A → Served B
map_served f s = record { reply = map_reply f s.reply; published = s.published; world = s.world }

-- if err != nil { g; return }; f
abbrev pub handle {ℓ κ} :
    {A : Type ℓ} {B : Type κ}
    → Outcome A
    → (A → World → Served B)
    → (Err → World → Served B)
    → Served B
handle (ok a w) f g = f a w
handle (err e w) f g = g e w

-- What holds of both ways that a call returns holds of what is done after it.
pub handle_lem {ℓ κ ℓp} :
    {A : Type ℓ} {B : Type κ} (P : Served B → Type ℓp) (o : Outcome A) (f : A → World → Served B)
    (g : Err → World → Served B)
    → ((a : A) (v : World) → o ≡ ok a v → P (f a v))
    → ((e : Err) (v : World) → o ≡ err e v → P (g e v))
    → P (handle o f g)
handle_lem P (ok a v) f g h k = h a v refl
handle_lem P (err e v) f g h k = k e v refl

-- Any error is answered by one status and code.
abbrev pub fails_with {ℓ} : {B : Type ℓ} → ℕ → Text → Err → World → Served B
fails_with status code e w = send_reply (write_error status code) w

abbrev pub decoded {ℓ κ} :
    {A : Type ℓ} {B : Type κ} → Option A → (A → World → Served B) → World → Served B
decoded none f w = send_reply (write_error 400 (str "invalid_json")) w
decoded (some a) f w = f a w

-- A handler behind the middleware that let the request in or answered it.
abbrev pub behind {ℓ} : {B : Type ℓ} → Outcome Gate → (Identity → World → Served B) → Served B
behind (ok (serve c) w) h = h c w
behind (ok (reject status) w) h = send_reply (http_error status) w
behind (err e w) h = send_reply (http_error 500) w

-- RequireAuthOrTokenFromService and RequireAuthFromService
unfoldable pub with_auth_or_token {ℓ} :
    {B : Type ℓ} → Env → JwtSigner → Text → (Identity → World → Served B) → World → Served B
with_auth_or_token env signer header h w = behind (require_auth_or_token env signer header w) h

unfoldable pub with_auth {ℓ} :
    {B : Type ℓ} → Env → JwtSigner → Text → (Identity → World → Served B) → World → Served B
with_auth env signer header h w = behind (require_auth env signer header w) h

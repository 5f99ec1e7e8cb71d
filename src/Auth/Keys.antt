-- ===== src/Auth/Keys.antt =====
-- internal/auth/keys.go: the key that signs the JWTs, made once and kept in app_meta.
pub mod Stable
use agenthub_server.Base.{Text, str, ◌==◌, ℕ, Bool, Option, none, some, List, eqb, length, find}
use agenthub_server.Schema.{MetaRow}
use agenthub_server.Schema.Inserts.{insert_meta}
use agenthub_server.World.{
  Env, M, pure, fail, ◌>>=◌, ◌>>◌, found_or, require, query_row, exec, random_bytes, bad_input,
}

abbrev pub jwt_key_meta_name : Text
jwt_key_meta_name = str "jwt_signing_key_v1"

abbrev pub value_of : Option MetaRow → Option Text
value_of none = none
value_of (some r) = some r.value

-- WHERE key = ?
abbrev pub meta_with : Text → MetaRow → Bool
meta_with key r = r.key == key

-- base64.StdEncoding.DecodeString, and the check of the length
abbrev pub decoded_key : Option (List ℕ) → M (List ℕ)
decoded_key none = fail bad_input
decoded_key (some b) = require (eqb (length b) 32) bad_input >> pure b

unfoldable pub stored_key : Env → Text → M (List ℕ)
stored_key env encoded = decoded_key (env.decode_base64_std encoded)

unfoldable pub new_key : Env → M (List ℕ)
unfolding random_bytes exec
new_key env = do
  key ← random_bytes env 32
  exec (λ w. insert_meta w.db (record { key = jwt_key_meta_name; value = env.base64_std key }))
  pure key

unfoldable pub load_or_create_jwt_key : Env → M (List ℕ)
unfolding query_row
load_or_create_jwt_key env =
    found_or (query_row (λ w. value_of (find (meta_with jwt_key_meta_name) w.db.app_meta)))
      (stored_key env) (new_key env)

-- ===== src/Auth/Keys/Stable.antt =====
-- One signing key over all restarts.
use agenthub_server.Base.{
  Text, ℕ, ◌≡◌, refl, ap, false, Option, none, some, List, [], ◌∷◌, ◌++◌, inl, arith, length, find,
  has, ◌∙◌, ==_refl, find-append-none, find-eq-none,
}
use agenthub_server.Schema.{Database}
use agenthub_server.Schema.Inserts.{insert_meta}
use agenthub_server.World.{World, Env, world_of, result_of, bytes_of, ok}
use agenthub_server.Auth.Keys.{
  jwt_key_meta_name, value_of, meta_with, stored_key, new_key, load_or_create_jwt_key,
}
use agenthub_server.World.Laws.{length-bytes_of}

-- The key is stored, and reads back as itself.
pub record IsStored (env : Env) (key : List ℕ) (d : Database) : Type 0 where
  pub encoded : Text
  pub there : value_of (find (meta_with jwt_key_meta_name) d.app_meta) ≡ some encoded
  pub decodes : env.decode_base64_std encoded ≡ some key
  pub long : length key ≡ 32

loaded_lem :
    (env : Env) (w : World) (encoded : Text) {key : List ℕ} {v : World}
    → value_of (find (meta_with jwt_key_meta_name) w.db.app_meta) ≡ some encoded
    → load_or_create_jwt_key env w ≡ ok key v
    → (env.decode_base64_std encoded ≡ some key) × (length key ≡ 32) × (v.db ≡ w.db)
unfolding load_or_create_jwt_key stored_key
loaded_lem env w encoded there h =
    (ground (arith, there), ground (arith, there), ground (arith, there))

made_lem :
    (env : Env) (w : World) {key : List ℕ} {v : World}
    → value_of (find (meta_with jwt_key_meta_name) w.db.app_meta) ≡ none
    → load_or_create_jwt_key env w ≡ ok key v
    → (key ≡ bytes_of (env.random_byte w.fresh) 32)
      × (has (meta_with jwt_key_meta_name) w.db.app_meta ≡ false)
      × (v.db ≡ record (w.db) {
        app_meta =
            w.db.app_meta ++ record { key = jwt_key_meta_name; value = env.base64_std key } ∷ [];
      })
unfolding load_or_create_jwt_key new_key insert_meta
made_lem env w missing h =
    (ground (arith, missing), ground (arith, missing), ground (arith, missing))

made-IsStored :
    (env : Env) (w : World) {key : List ℕ} {v : World}
    → env.decode_base64_std (env.base64_std key) ≡ some key
    → value_of (find (meta_with jwt_key_meta_name) w.db.app_meta) ≡ none
    → load_or_create_jwt_key env w ≡ ok key v
    → IsStored env key v.db
unfolding find
made-IsStored env w {key} decode-encode missing h =
    let (drawn, new, db) = made_lem env w missing h in
    rw db (record {
      encoded = env.base64_std key;
      there =
          ap value_of (
            find-append-none (meta_with jwt_key_meta_name) w.db.app_meta _
              (find-eq-none (meta_with jwt_key_meta_name) w.db.app_meta new))
          ∙ ground (arith, ==_refl jwt_key_meta_name);
      decodes = decode-encode;
      long = ap length drawn ∙ length-bytes_of (env.random_byte w.fresh) 32;
    })

first-IsStored :
    (env : Env) (w : World) (o : Option Text) {key : List ℕ} {v : World}
    → env.decode_base64_std (env.base64_std key) ≡ some key
    → value_of (find (meta_with jwt_key_meta_name) w.db.app_meta) ≡ o
    → load_or_create_jwt_key env w ≡ ok key v
    → IsStored env key v.db
first-IsStored env w none decode-encode missing h = made-IsStored env w decode-encode missing h
first-IsStored env w (some encoded) decode-encode there h =
    let (decodes, long, same) = loaded_lem env w encoded there h in
    rw same (record { encoded = encoded; there = there; decodes = decodes; long = long })

stored-load :
    (env : Env) (w : World) (key : List ℕ)
    → IsStored env key w.db
    → w.faults ≡ []
    → (result_of (load_or_create_jwt_key env w) ≡ inl key)
      × ((world_of (load_or_create_jwt_key env w)).db ≡ w.db)
unfolding load_or_create_jwt_key stored_key
stored-load env w key s calm = (
  ground (arith, s.there, s.decodes, s.long, calm),
  ground (arith, s.there, s.decodes, s.long, calm),
)

-- Where decoding gives back the key that was encoded: after a LoadOrCreateJWTKey that returned a
-- key, whether it found or made it, and on a database whose app_meta is as it left it, a call that
-- meets no failure returns the same key and changes nothing; the key has 32 bytes. So the tokens that
-- were signed before a restart are checked with the key that signed them.
pub load-load :
    (env : Env) (w v w₂ : World) (key : List ℕ)
    → env.decode_base64_std (env.base64_std key) ≡ some key
    → load_or_create_jwt_key env w ≡ ok key v
    → w₂.db.app_meta ≡ v.db.app_meta
    → w₂.faults ≡ []
    → (result_of (load_or_create_jwt_key env w₂) ≡ inl key)
      × ((world_of (load_or_create_jwt_key env w₂)).db ≡ w₂.db)
      × (length key ≡ 32)
load-load env w v w₂ key decode-encode h same calm =
    let s =
      first-IsStored env w (value_of (find (meta_with jwt_key_meta_name) w.db.app_meta))
        decode-encode refl h in
    let (result, db) =
      stored-load env w₂ key
        (record {
          encoded = s.encoded;
          there = rw same s.there;
          decodes = s.decodes;
          long = s.long;
        })
        calm in
    (result, db, s.long)

-- ===== src/Auth/Service/Reset.antt =====
-- Password reset: what is mailed to whom, and what a reset changes.
use agenthub_server.Base.{
  Text, ◌≡◌, suc, Bool, false, drop, ◌≤◌, ◌*◌, true, none, some, [], ◌∷◌, ◌++◌, ◌⊎◌, inl, arith,
  find, update,
}
use agenthub_server.Schema.{UserRow, VerificationTokenRow, password_reset}
use agenthub_server.Schema.Inserts.{insert_verification_token}
use agenthub_server.Strings.{to_lower}
use agenthub_server.Tenancy.{live_email, live_id, coalesce, get_user_by_email, update_password_hash}
use agenthub_server.World.{
  Env, World, ok, world_of, second, result_of, bytes_of, next_fault, random_bytes, send,
}
use agenthub_server.Auth.Hash.{random_token}
use agenthub_server.Auth.Password.{hash_password, verify_password}
use agenthub_server.Auth.Password.RoundTrip.{HashLaws, verify-hash}
use agenthub_server.Auth.Tokens.{
  VerificationToken, VerificationTokenInput, token_row, create_verification_token,
  consume_verification_token, token_matches, with_id, consume_row,
}
use agenthub_server.Auth.Tokens.SingleUse.{consume_lem}
use agenthub_server.Auth.Service.{
  Config, request_password_reset, send_reset, reset_password, store_hash, reset_mail,
}
use agenthub_server.Auth.Service.Signup.{hashed-db}

-- The parts of a reset that succeeds.
consumed_first :
    (env : Env) (raw password : Text) (w : World) {w' : World}
    → reset_password env raw password w ≡ ok tt w'
    → (t : VerificationToken) × (v : World) × (consume_verification_token env raw password_reset w
        ≡ ok t v)
      × (store_hash env password t v ≡ ok tt w')
unfolding reset_password store_hash
consumed_first env raw password w h = ground arith

hashed_second :
    (env : Env) (password : Text) (t : VerificationToken) (v : World) {w' : World}
    → store_hash env password t v ≡ ok tt w'
    → (hash : Text) × (u : World) × (hash_password env password v ≡ ok hash u)
      × (update_password_hash t.user_id hash u ≡ ok tt w')
unfolding store_hash
hashed_second env password t v h = ground arith

stored_db :
    (i hash : Text) (u : World) {w' : World}
    → update_password_hash i hash u ≡ ok tt w'
    → w'.db ≡ record (u.db) {
      users = update (live_id i) (λ r. record r { password_hash = some hash }) u.db.users;
    }
unfolding update_password_hash
stored_db i hash u e = ground arith

-- A reset that succeeds had a token of purpose password_reset that was not consumed and has not
-- expired; it leaves the token consumed, and of the users it changes only the password hash of the
-- token's live user, to a hash that accepts the new password.
pub reset_sound :
    (env : Env) (laws : HashLaws env) (raw password : Text) (w w' : World)
    → reset_password env raw password w ≡ ok tt w'
    → (r : VerificationTokenRow) × (hash : Text) × (find
          (token_matches (env.sha256_hex raw) password_reset)
          w.db.verification_tokens
        ≡ some r)
      × (r.consumed_at ≡ none)
      × (w.now ≤ r.expires_at * second)
      × (verify_password env password hash ≡ some true)
      × (w'.db ≡ record (w.db) {
        verification_tokens = update (with_id r.id) (consume_row w) w.db.verification_tokens;
        users =
            update
              (live_id (coalesce r.user_id))
              (λ u. record u { password_hash = some hash })
              w.db.users;
      })
reset_sound env laws raw password w w' h =
    let (t, v, consumed, rest) = consumed_first env raw password w h in
    let (hash, u, hashed, stored) = hashed_second env password t v rest in
    let (r, at, unused, fresh, scanned, db) = consume_lem env raw password_reset w consumed in
    (
      r,
      hash,
      at,
      unused,
      fresh,
      (verify-hash env laws password password v u hash hashed).1,
      ground (arith, hashed-db env password v hashed, stored_db t.user_id hash u stored),
    )

-- The row and the mail of a reset that is requested at `w` for a user.
abbrev pub reset_input : Env → Config → World → UserRow → VerificationTokenInput
reset_input env cfg w u = record {
  id = env.new_id w.fresh;
  purpose = password_reset;
  user_id = u.id;
  email = u.email;
  ttl = cfg.password_reset_ttl;
}

abbrev pub drawn_reset : Env → World → Text
drawn_reset env w = env.base64_url (bytes_of (env.random_byte (suc w.fresh)) 32)

-- The mailer is the fourth call, after the lookup, the draw and the INSERT.
abbrev pub mail_fails : World → Bool
mail_fails w = next_fault (drop 3 w.faults)

-- RequestPasswordReset that succeeds is silent about an unknown e-mail: it has stored and sent
-- nothing. For a live user it has stored the hash of a fresh token, of purpose password_reset and
-- for that user, and has sent one mail with that token, to the address on record; only where the
-- mailer itself fails is there no mail.
pub request_sound :
    (env : Env) (cfg : Config) (email : Text) (w w' : World)
    → request_password_reset env cfg email w ≡ ok tt w'
    → ((find (live_email (to_lower env email)) w.db.users ≡ none)
        × (w'.db ≡ w.db)
        × (w'.outbox ≡ w.outbox))
      ⊎ ((u : UserRow) × (find (live_email (to_lower env email)) w.db.users ≡ some u)
          × (w'.db ≡ record (w.db) {
            verification_tokens =
                w.db.verification_tokens
                ++ token_row (reset_input env cfg w u) (env.sha256_hex (drawn_reset env w)) w ∷ [];
          })
          × (((mail_fails w ≡ true) × (w'.outbox ≡ w.outbox))
              ⊎ ((mail_fails w ≡ false)
                  × (w'.outbox ≡ w.outbox ++ reset_mail env cfg u.email (drawn_reset env w) ∷ []))))
unfolding request_password_reset get_user_by_email send_reset create_verification_token
    insert_verification_token random_token random_bytes send
request_sound env cfg email w w' h = ground arith

-- The answer does not tell whether the e-mail is known: for an unknown one the call succeeds too,
-- unless the database fails.
pub request_unknown :
    (env : Env) (cfg : Config) (email : Text) (w : World)
    → find (live_email (to_lower env email)) w.db.users ≡ none
    → w.faults ≡ []
    → (result_of (request_password_reset env cfg email w) ≡ inl tt)
      × ((world_of (request_password_reset env cfg email w)).db ≡ w.db)
unfolding request_password_reset get_user_by_email
request_unknown env cfg email w none_such calm = ground arith

-- ===== src/Witnesses/Accounts.antt =====
-- Examples for sign-up, password reset, slugs and password hashes.
use agenthub_server.Base.{
  false, Text, str, ◌==◌, ◌*◌, ◌≤◌, ◌≡◌, refl, true, none, some, [], ◌∷◌, ◌++◌, ◌⊎◌, find, has,
  update,
}
use agenthub_server.Schema.{UserRow, VerificationTokenRow, password_reset}
use agenthub_server.Schema.Inserts.{
  user_exists, verification_token_clash, insert_verification_token,
}
use agenthub_server.World.{
  World, world_of, second, query_row, exec, exec_update, new_id, bytes_of, random_bytes, send,
  in_tx, ok,
}
use agenthub_server.Strings.{to_lower}
use agenthub_server.Tenancy.{coalesce, live_email, live_id, get_user_by_email, update_password_hash}
use agenthub_server.Auth.Hash.{random_token}
use agenthub_server.Auth.Password.{encode, derived_key, hash_password, verify_password}
use agenthub_server.Auth.Password.RoundTrip.{drawn_salt, verify-hash}
use agenthub_server.Auth.Tokens.{
  token_row, create_verification_token, token_matches, with_id, consume_row, consume_statements,
  consume_verification_token,
}
use agenthub_server.Auth.Service.{
  SignupInput, signup, reset_mail, send_reset, request_password_reset, store_hash, reset_password,
}
use agenthub_server.Auth.Service.Signup.{SignsUp, signup_atomic}
use agenthub_server.Auth.Service.Reset.{
  reset_sound, reset_input, drawn_reset, mail_fails, request_sound,
}
use agenthub_server.Witnesses.Fixtures.{shift, env, config, db, start, laws}

abbrev signup_input : SignupInput
signup_input = record {
  email = str "New@x";
  password = str "secret";
  account_name = str "New Team";
}

signup_atomic_example : SignsUp env signup_input db (signup env config signup_input start)
signup_atomic_example = signup_atomic env config signup_input start

abbrev reset_done : World
reset_done = world_of (reset_password env (str "raw") (str "new") start)

resets : reset_password env (str "raw") (str "new") start ≡ ok tt reset_done
unfolding reset_password consume_verification_token consume_statements store_hash hash_password
    update_password_hash in_tx query_row exec_update exec random_bytes find bytes_of encode ◌==◌
resets = refl

reset_sound_example :
    (r : VerificationTokenRow) × (hash : Text) × (find
        (token_matches (str "#raw") password_reset)
        db.verification_tokens
      ≡ some r)
    × (r.consumed_at ≡ none)
    × (1000 * second ≤ r.expires_at * second)
    × (verify_password env (str "new") hash ≡ some true)
    × (reset_done.db ≡ record db {
      verification_tokens = update (with_id r.id) (consume_row start) db.verification_tokens;
      users =
          update
            (live_id (coalesce r.user_id))
            (λ u. record u { password_hash = some hash })
            db.users;
    })
reset_sound_example = reset_sound env laws (str "raw") (str "new") start reset_done resets

abbrev requested : World
requested = world_of (request_password_reset env config (str "U@x") start)

requests : request_password_reset env config (str "U@x") start ≡ ok tt requested
unfolding request_password_reset get_user_by_email to_lower send_reset create_verification_token
    random_token random_bytes bytes_of new_id send query_row exec insert_verification_token
    verification_token_clash user_exists has find ◌==◌
requests = refl

request_sound_example :
    ((find (live_email (to_lower env (str "U@x"))) db.users ≡ none)
      × (requested.db ≡ db)
      × (requested.outbox ≡ []))
    ⊎ ((u : UserRow) × (find (live_email (to_lower env (str "U@x"))) db.users ≡ some u)
        × (requested.db ≡ record db {
          verification_tokens =
              db.verification_tokens
              ++ token_row (reset_input env config start u) (b'#' ∷ drawn_reset env start) start
                ∷ [];
        })
        × (((mail_fails start ≡ true) × (requested.outbox ≡ []))
            ⊎ ((mail_fails start ≡ false)
                × (requested.outbox ≡ reset_mail env config u.email (drawn_reset env start) ∷ []))))
request_sound_example = request_sound env config (str "U@x") start requested requests

abbrev hashed : World
hashed = world_of (hash_password env (str "pw") start)

abbrev drawn_hash : Text
drawn_hash =
    encode (shift (drawn_salt env start))
      (shift (derived_key env (str "pw") (drawn_salt env start)))

hashes : hash_password env (str "pw") start ≡ ok drawn_hash hashed
unfolding hash_password random_bytes encode bytes_of
hashes = refl

verify-hash_example :
    (verify_password env (str "longer") drawn_hash
      ≡ some (
          derived_key env (str "longer") (drawn_salt env start)
          == derived_key env (str "pw") (drawn_salt env start)))
    × (verify_password env (str "pw") drawn_hash ≡ some true)
verify-hash_example = verify-hash env laws (str "pw") (str "longer") start hashed drawn_hash hashes

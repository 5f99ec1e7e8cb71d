-- ===== src/Auth/Tokens/Created.antt =====
-- What a successful CreateVerificationToken has stored.
use agenthub_server.Base.{Text, ◌≡◌, false, [], ◌∷◌, ◌++◌, arith}
use agenthub_server.Schema.{VerificationTokenRow}
use agenthub_server.Schema.Inserts.{verification_token_clash, insert_verification_token}
use agenthub_server.World.{Env, World, ok, bytes_of}
use agenthub_server.Auth.Tokens.{VerificationTokenInput, token_row, create_verification_token}

-- The raw token that a creation at `w` draws.
abbrev pub drawn_token : Env → World → Text
drawn_token env w = env.base64_url (bytes_of (env.random_byte w.fresh) 32)

-- The row that a creation at `w` inserts.
abbrev pub created_row : Env → VerificationTokenInput → World → VerificationTokenRow
created_row env i w = token_row i (env.sha256_hex (drawn_token env w)) w

pub create_lem :
    (env : Env) (i : VerificationTokenInput) (w : World) {raw : Text} {w' : World}
    → create_verification_token env i w ≡ ok raw w'
    → (raw ≡ drawn_token env w)
      × (verification_token_clash w.db (created_row env i w) ≡ false)
      × (w'.db ≡ record (w.db) {
        verification_tokens = w.db.verification_tokens ++ created_row env i w ∷ [];
      })
unfolding create_verification_token insert_verification_token verification_token_clash
create_lem env i w h = ground arith

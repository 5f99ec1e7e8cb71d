-- ===== src/Auth/Hash.antt =====
-- sha256Hex of internal/auth/tokens.go, and the random tokens that the package mints.
use agenthub_server.Base.{Text}
use agenthub_server.World.{Env, M, pure, ◌>>=◌, random_bytes}

abbrev pub sha256_hex : Env → Text → Text
sha256_hex env s = env.sha256_hex s

-- 32 random bytes in base64.RawURLEncoding
unfoldable pub random_token : Env → M Text
unfolding random_bytes
random_token env = do raw ← random_bytes env 32; pure (env.base64_url raw)

-- ===== src/Auth/Slug.antt =====
-- slugify of internal/auth/service.go.
pub mod Shape
pub mod Collision
use agenthub_server.Base.{
  Text, str, is_empty, ℕ, ◌+◌, Bool, true, false, ◌&&◌, ◌||◌, not, List, [], ◌∷◌, ◌++◌, leb, eqb,
  length, take, if◌then◌else◌,
}
use agenthub_server.Strings.{to_lower, trim}
use agenthub_server.World.{Env}

-- case r >= 'a' && r <= 'z', r >= '0' && r <= '9'
abbrev pub is_alnum : ℕ → Bool
is_alnum c = (leb b'a' c && leb c b'z') || (leb b'0' c && leb c b'9')

-- case r == ' ' || r == '-' || r == '_'
abbrev pub is_separator : ℕ → Bool
is_separator c = eqb c b' ' || eqb c b'-' || eqb c b'_'

abbrev pub dash : ℕ
dash = b'-'

-- What one round of the loop writes to the builder.
abbrev pub written : ℕ → ℕ → Text
written prev c =
    if is_alnum c then c ∷ [] else if is_separator c && not (eqb prev dash) then dash ∷ [] else []

-- The variable `prev` after one round.
abbrev pub next_prev : ℕ → ℕ → ℕ
next_prev prev c = if is_alnum c then c else if is_separator c then dash else prev

unfoldable pub slug_loop : ℕ → Text → Text
slug_loop prev [] = []
slug_loop prev (c ∷ s) = written prev c ++ slug_loop (next_prev prev c) s

abbrev pub is_dash : ℕ → Bool
is_dash c = eqb c dash

-- The builder's text with the dashes at its ends trimmed.
unfoldable pub slug_of_name : Env → Text → Text
unfolding slug_loop to_lower trim
slug_of_name env name = trim is_dash (slug_loop dash (to_lower env name))

unfoldable pub or_account : Text → Text → Text
or_account slug account_id =
    if is_empty slug && leb 8 (length account_id) then str "acct-" ++ take 8 account_id else slug

unfoldable pub with_suffix : Text → Text → Text
with_suffix slug account_id =
    if leb 6 (length account_id) then slug ++ (dash ∷ take 6 account_id) else slug

unfoldable pub slugify : Env → Text → Text → Text
unfolding slug_of_name or_account with_suffix
slugify env name account_id = with_suffix (or_account (slug_of_name env name) account_id) account_id

-- ===== src/Strings.antt =====
-- What the program uses of Go's package strings, over code points.
use mathlib.Core.List.{reverse}
use agenthub_server.Base.{
  Text, ℕ, ◌+◌, ◌≡◌, refl, Bool, false, ◌&&◌, ◌||◌, Option, none, some, List, [], ◌∷◌, ◌++◌, map,
  ltb, leb, eqb, if◌then◌else◌, arith,
}
use agenthub_server.World.{Env}

abbrev pub is_upper : ℕ → Bool
is_upper c = leb b'A' c && leb c b'Z'

-- unicode.ToLower; the table past ASCII is the environment's.
unfoldable pub lower : Env → ℕ → ℕ
lower env c = if is_upper c then c + 32 else if ltb c 128 then c else env.wide_to_lower c

unfoldable pub to_lower : Env → Text → Text
unfolding lower
to_lower env s = map (lower env) s

-- strings.HasPrefix, with what follows the prefix
unfoldable pub strip_prefix : Text → Text → Option Text
strip_prefix [] s = some s
strip_prefix (p ∷ ps) [] = none
strip_prefix (p ∷ ps) (c ∷ s) = if eqb p c then strip_prefix ps s else none

-- The ASCII part of strings.EqualFold, on one character.
abbrev pub fold : ℕ → ℕ
fold c = if is_upper c then c + 32 else c

unfoldable pub strip_prefix_fold : Text → Text → Option Text
strip_prefix_fold [] s = some s
strip_prefix_fold (p ∷ ps) [] = none
strip_prefix_fold (p ∷ ps) (c ∷ s) = if eqb (fold p) (fold c) then strip_prefix_fold ps s else none

-- unicode.IsSpace
unfoldable pub is_space : ℕ → Bool
is_space c =
    (leb 9 c && leb c 13)
    || eqb c 32
    || eqb c 0x85
    || eqb c 0xA0
    || eqb c 0x1680
    || (leb 0x2000 c && leb c 0x200a)
    || eqb c 0x2028
    || eqb c 0x2029
    || eqb c 0x202f
    || eqb c 0x205f
    || eqb c 0x3000

unfoldable pub trim_left : (ℕ → Bool) → Text → Text
trim_left p [] = []
trim_left p (c ∷ s) = if p c then trim_left p s else c ∷ s

unfoldable pub trim : (ℕ → Bool) → Text → Text
unfolding trim_left
trim p s = reverse (trim_left p (reverse (trim_left p s)))

-- strings.TrimSpace
unfoldable pub trim_space : Text → Text
unfolding trim is_space
trim_space = trim is_space

-- strings.Split at one character
abbrev pub push_front : ℕ → List Text → List Text
push_front c [] = (c ∷ []) ∷ []
push_front c (part ∷ parts) = (c ∷ part) ∷ parts

unfoldable pub split : ℕ → Text → List Text
split sep [] = [] ∷ []
split sep (c ∷ s) = if eqb c sep then [] ∷ split sep s else push_front c (split sep s)

-- No character of the text is c.
abbrev pub Lacks : ℕ → Text → Type 0
Lacks c [] = Unit {0}
Lacks c (d ∷ s) = (eqb d c ≡ false) × Lacks c s

-- A part without the separator, and what follows the separator.
pub split-append :
    (sep : ℕ) (part rest : Text)
    → Lacks sep part
    → split sep (part ++ sep ∷ rest) ≡ part ∷ split sep rest
unfolding split
split-append sep [] rest h = ground arith
split-append sep (c ∷ part) rest h = ground (arith, split-append sep part rest)

pub split-last : (sep : ℕ) (part : Text) → Lacks sep part → split sep part ≡ part ∷ []
unfolding split
split-last sep [] h = refl
split-last sep (c ∷ part) h = ground (arith, split-last sep part)

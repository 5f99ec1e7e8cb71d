-- ===== src/Base/Strings.antt =====
-- Go strings as lists of code points, and their comparison.
use Prim.Native.Nat.{ℕ}
use Prim.Native.Char.{code}
use Prim.Native.String.{String}
use mathlib.Core.Path.{◌≡◌, refl}
use mathlib.Core.Logic.{◌↔◌}
use mathlib.Core.Bool.{Bool, true, false, ◌&&◌}
use mathlib.Core.List.{List, [], ◌∷◌}
use native.Mathlib.Omega.{arith}
use agenthub_server.Base.Tests.{eqb}

abbrev pub Text : Type 0
Text = List ℕ

-- A literal of the source.
abbrev pub str : String → Text
str String.[] = []
str (String.◌∷◌ c s) = code c ∷ str s

infix 50 ◌==◌
unfoldable pub ◌==◌ : Text → Text → Bool
[] == [] = true
[] == (d ∷ t) = false
(c ∷ s) == [] = false
(c ∷ s) == (d ∷ t) = eqb c d && s == t

abbrev pub is_empty : Text → Bool
is_empty [] = true
is_empty (c ∷ s) = false

==_sound : (s t : Text) → (s == t) ≡ true → s ≡ t
unfolding ◌==◌
==_sound [] [] h = refl
==_sound [] (d ∷ t) h = ground arith
==_sound (c ∷ s) [] h = ground arith
==_sound (c ∷ s) (d ∷ t) h = ground (arith, ==_sound s t)

pub ==_refl : (s : Text) → (s == s) ≡ true
unfolding ◌==◌
==_refl [] = refl
==_refl (c ∷ s) = ground (arith, ==_refl s)

pub ==_iff : (s t : Text) → ((s == t) ≡ true) ↔ (s ≡ t)
==_iff s t = (==_sound s t, λ p. ground (arith, ==_refl s))

pub ==_symm : (s t : Text) → (s == t) ≡ (t == s)
==_symm s t = ground (arith, ==_iff s t, ==_iff t s)

pub text_of_is_empty : (s : Text) → is_empty s ≡ true → s ≡ []
text_of_is_empty [] h = refl
text_of_is_empty (c ∷ s) h = ground arith

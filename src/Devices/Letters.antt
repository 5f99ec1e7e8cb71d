-- ===== src/Devices/Letters.antt =====
-- Pair codes: their letters, and how evenly they are drawn.
use agenthub_server.Base.{
  Text, ℕ, zero, suc, ◌<◌, ◌≡◌, refl, Bool, true, false, ◌||◌, List, [], ◌∷◌, map, length, eqb, All,
  arith, if◌then◌else◌, ap, ◌&&◌, subst, sym, not, leb, Bool-cases, inl, inr, ◌∙◌,
}
use agenthub_server.World.{Env, World, ok, bytes_of}
use agenthub_server.World.Laws.{length-bytes_of}
use agenthub_server.Auth.Password.RoundTrip.{HashLaws, bytes_of-IsBytes}
use agenthub_server.Devices.{letter, pair_code_alphabet, random_pair_code}

unfoldable pub occurs : ℕ → Text → Bool
occurs c [] = false
occurs c (d ∷ s) = eqb d c || occurs c s

-- Is this one of the alphabet's letters?
abbrev pub is_letter : ℕ → Bool
is_letter c = occurs c pair_code_alphabet

-- The capital letters but I and O, and the digits but 0 and 1
abbrev pub is_plain : ℕ → Bool
is_plain c =
    (leb b'A' c && leb c b'Z' && not (eqb c b'I') && not (eqb c b'O')) || (leb b'2' c && leb c b'9')

-- How many of the bytes below n give the letter c?
pub hits : ℕ → ℕ → ℕ
hits zero c = 0
hits (suc n) c = if eqb (letter n) c then suc (hits n c) else hits n c

-- Do all the bytes below n give plain characters?
lettered : ℕ → Bool
lettered zero = true
lettered (suc n) = is_plain (letter n) && lettered n

lettered_below : (n b : ℕ) → b < n → lettered n ≡ true → is_plain (letter b) ≡ true
unfolding lettered
lettered_below zero b lt h = absurd (omega arith)
lettered_below (suc n) b lt h = elim (Bool-cases (eqb b n)) [
  | inl last ↦ ground arith
  | inr before ↦ ground (arith, lettered_below n b)
]

every_byte : lettered 256 ≡ true
unfolding lettered letter
every_byte = refl

letter-is_plain : (b : ℕ) → b < 256 → is_plain (letter b) ≡ true
letter-is_plain b h = lettered_below 256 b h every_byte

-- Letters that differ from the table's are not in it.
hits_of_alphabet :
    (c : ℕ) (s : Text) → All (λ d. hits 256 d ≡ 8) s → occurs c s ≡ true → hits 256 c ≡ 8
unfolding occurs
hits_of_alphabet c [] table h = ground arith
hits_of_alphabet c (d ∷ s) table h = elim (Bool-cases (eqb d c)) [
  | inl same ↦ subst (λ k. hits 256 k ≡ 8) (same_number d c same) table.0
  | inr other ↦ hits_of_alphabet c s table.1 (ground arith)
]
  where
    same_number : (d c : ℕ) → eqb d c ≡ true → d ≡ c
    same_number d c e = ground arith

-- Does every letter of the text have 8 bytes?
all_hit : Text → Bool
all_hit [] = true
all_hit (c ∷ s) = eqb (hits 256 c) 8 && all_hit s

all_hit_sound : (s : Text) → all_hit s ≡ true → All (λ c. hits 256 c ≡ 8) s
unfolding all_hit
all_hit_sound [] h = tt
all_hit_sound (c ∷ s) h = (ground arith, all_hit_sound s (ground arith))

hits_table : all_hit pair_code_alphabet ≡ true
unfolding all_hit hits letter
hits_table = refl

-- Each letter of the alphabet is given by 8 of the 256 values of a byte: the modulus introduces no
-- bias towards any letter.
pub letter_uniform : (c : ℕ) → is_letter c ≡ true → hits 256 c ≡ 8
letter_uniform c h =
    hits_of_alphabet c pair_code_alphabet (all_hit_sound pair_code_alphabet hits_table) h

All-map-letter :
    (bytes : List ℕ) → All (λ b. b < 256) bytes → All (λ c. is_plain c ≡ true) (map letter bytes)
All-map-letter [] h = tt
All-map-letter (b ∷ bytes) h = (letter-is_plain b h.0, All-map-letter bytes h.1)

length-map-letter : (bytes : List ℕ) → length (map letter bytes) ≡ length bytes
length-map-letter [] = refl
length-map-letter (b ∷ bytes) = ap suc (length-map-letter bytes)

drawn_code :
    (env : Env) (w : World) {code : Text} {w' : World}
    → random_pair_code env w ≡ ok code w'
    → code ≡ map letter (bytes_of (env.random_byte w.fresh) 10)
unfolding random_pair_code
drawn_code env w h = ground arith

-- Are all the plain characters below n in the alphabet?
listed : ℕ → Bool
listed zero = true
listed (suc n) = (not (is_plain n) || is_letter n) && listed n

listed_below : (n c : ℕ) → c < n → listed n ≡ true → is_plain c ≡ true → is_letter c ≡ true
unfolding listed
listed_below zero c lt h plain = absurd (omega arith)
listed_below (suc n) c lt h plain = elim (Bool-cases (eqb c n)) [
  | inl last ↦
      (let same : c ≡ n = ground arith in
        let both : is_plain n ≡ true = subst (λ k. is_plain k ≡ true) same plain in
        subst (λ k. is_letter k ≡ true) (sym same) (ground (arith, both)))
  | inr before ↦ listed_below n c (ground arith) (ground arith) plain
]

every_plain : listed 91 ≡ true
unfolding listed occurs
every_plain = refl

plain_bound : (c : ℕ) → is_plain c ≡ true → c < 91
plain_bound c h = ground arith

-- Whatever bytes the random source gives, a pair code has ten characters, each a capital letter or
-- a digit and none of I, O, 0 and 1: for each byte the character that the byte stands for; and each
-- of those characters is the one of exactly 8 of the 256 values of a byte.
pub pair_code_letters :
    (env : Env) (laws : HashLaws env) (w w' : World) (code : Text)
    → random_pair_code env w ≡ ok code w'
    → (length code ≡ 10)
      × All (λ c. is_plain c ≡ true) code
      × (code ≡ map letter (bytes_of (env.random_byte w.fresh) 10))
      × ((c : ℕ) → is_plain c ≡ true → hits 256 c ≡ 8)
pair_code_letters env laws w w' code h =
    let bytes = bytes_of (env.random_byte w.fresh) 10 in
    let drawn = drawn_code env w h in
    (
      ap length drawn ∙ length-map-letter bytes ∙ length-bytes_of (env.random_byte w.fresh) 10,
      subst (All (λ c. is_plain c ≡ true)) (sym drawn) (
          All-map-letter bytes
            (bytes_of-IsBytes (env.random_byte w.fresh) 10 (laws.random_byte-lt w.fresh))),
      drawn,
      λ c plain. letter_uniform c (listed_below 91 c (plain_bound c plain) every_plain plain),
    )

-- ===== src/Auth/Slug/Shape.antt =====
-- The characters of a slug.
use mathlib.Core.List.{reverse, reverse-cons}
use agenthub_server.Base.{
  Text, str, is_empty, ℕ, suc, ◌≡◌, refl, Bool, true, ◌&&◌, ◌||◌, not, [], ◌∷◌, ◌++◌, leb, eqb,
  length, take, arith, All, Bool-cases, inl, inr,
}
use agenthub_server.Strings.{to_lower, trim, trim_left}
use agenthub_server.World.{Env}
use agenthub_server.Auth.Slug.{
  is_alnum, is_separator, dash, is_dash, written, next_prev, slug_loop, slug_of_name, or_account,
  slugify,
}

-- a-z, 0-9 and the dash
abbrev pub is_slug_char : ℕ → Bool
is_slug_char c = is_alnum c || is_dash c

abbrev pub IsSlugText : Text → Type 0
IsSlugText = All (λ c. is_slug_char c ≡ true)

All-append : (s t : Text) → IsSlugText s → IsSlugText t → IsSlugText (s ++ t)
All-append [] t hs ht = ht
All-append (c ∷ s) t hs ht = (hs.0, All-append s t hs.1 ht)

loop-IsSlugText : (prev : ℕ) (s : Text) → IsSlugText (slug_loop prev s)
unfolding slug_loop
loop-IsSlugText prev [] = tt
loop-IsSlugText prev (c ∷ s) =
    All-append (written prev c) (slug_loop (next_prev prev c) s) (of_written prev c)
      (loop-IsSlugText (next_prev prev c) s)
  where
    of_written : (prev c : ℕ) → IsSlugText (written prev c)
    of_written prev c = elim (Bool-cases (is_alnum c)) [
      | inl alnum ↦ rw alnum (ground arith, tt)
      | inr other ↦ rw other (elim (Bool-cases (is_separator c && not (eqb prev dash))) [
        | inl sep ↦ rw sep (refl, tt)
        | inr none_written ↦ rw none_written tt
      ])
    ]

trim_left-IsSlugText : (s : Text) → IsSlugText s → IsSlugText (trim_left is_dash s)
unfolding trim_left
trim_left-IsSlugText [] h = tt
trim_left-IsSlugText (c ∷ s) h = elim (Bool-cases (is_dash c)) [
  | inl at_end ↦ rw at_end (trim_left-IsSlugText s h.1)
  | inr kept ↦ rw kept h
]

reverse-IsSlugText : (s : Text) → IsSlugText s → IsSlugText (reverse s)
reverse-IsSlugText [] h = tt
reverse-IsSlugText (c ∷ s) h =
    rw reverse-cons (All-append (reverse s) (c ∷ []) (reverse-IsSlugText s h.1) (h.0, tt))

take-IsSlugText : (n : ℕ) (s : Text) → IsSlugText s → IsSlugText (take n s)
take-IsSlugText ℕ.zero s h = tt
take-IsSlugText (suc n) [] h = tt
take-IsSlugText (suc n) (c ∷ s) h = (h.0, take-IsSlugText n s h.1)

name-IsSlugText : (env : Env) (name : Text) → IsSlugText (slug_of_name env name)
unfolding slug_of_name trim
name-IsSlugText env name = reverse-IsSlugText (trim_left is_dash (reverse kept)) (
    trim_left-IsSlugText (reverse kept) (
      reverse-IsSlugText kept
        (trim_left-IsSlugText built (loop-IsSlugText dash (to_lower env name)))))
  where
    built : Text
    built = slug_loop dash (to_lower env name)

    kept : Text
    kept = trim_left is_dash built

or_account-IsSlugText :
    (slug account_id : Text)
    → IsSlugText slug
    → IsSlugText account_id
    → IsSlugText (or_account slug account_id)
unfolding or_account
or_account-IsSlugText slug account_id h k =
    elim (Bool-cases (is_empty slug && leb 8 (length account_id))) [
      | inl fallback ↦ rw fallback (
          All-append (str "acct-") (take 8 account_id) (refl, (refl, (refl, (refl, (refl, tt)))))
            (take-IsSlugText 8 account_id k))
      | inr named ↦ rw named h
    ]

-- Whatever the account's name, of which language and length, the slug has only the characters a-z,
-- 0-9 and the dash, provided that the account id has (a UUID does).
pub slugify-IsSlugText :
    (env : Env) (name account_id : Text)
    → IsSlugText account_id
    → IsSlugText (slugify env name account_id)
unfolding slugify
slugify-IsSlugText env name account_id k = elim (Bool-cases (leb 6 (length account_id))) [
  | inl long ↦
      rw long
        (All-append slug (dash ∷ take 6 account_id) fine (refl, take-IsSlugText 6 account_id k))
  | inr short ↦ rw short fine
]
  where
    slug : Text
    slug = or_account (slug_of_name env name) account_id

    fine : IsSlugText slug
    fine = or_account-IsSlugText (slug_of_name env name) account_id (name-IsSlugText env name) k

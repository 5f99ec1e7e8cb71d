-- ===== src/Base/Lists.antt =====
-- Lists measured by native numbers, and the searches that SQL statements make.
use Prim.Native.Nat.{ℕ, zero, suc, ◌+◌}
use mathlib.Core.Path.{◌≡◌, refl, ap}
use mathlib.Core.Bool.{Bool, true, false, ◌||◌}
use mathlib.Core.Option.{Option, none, some}
use mathlib.Core.Logic.{inl, inr}
use mathlib.Core.List.{List, [], ◌∷◌, ◌++◌}
use native.Mathlib.Omega.{arith}
use agenthub_server.Base.Tests.{if◌then◌else◌, leb, Bool-cases}

module _ {ℓ} {A : Type ℓ} where
  abbrev pub length : List A → ℕ
  length [] = 0
  length (x ∷ xs) = suc (length xs)

  abbrev pub take : ℕ → List A → List A
  take zero xs = []
  take (suc n) [] = []
  take (suc n) (x ∷ xs) = x ∷ take n xs

  abbrev pub drop : ℕ → List A → List A
  drop zero xs = xs
  drop (suc n) [] = []
  drop (suc n) (x ∷ xs) = drop n xs

  pub length-append : (xs ys : List A) → length (xs ++ ys) ≡ length xs + length ys
  length-append [] ys = omega arith
  length-append (x ∷ xs) ys = omega (arith, length-append xs ys)

  -- SELECT ... WHERE p LIMIT 1, in insertion order.
  unfoldable pub find : (A → Bool) → List A → Option A
  find p [] = none
  find p (x ∷ xs) = if p x then some x else find p xs

  -- Is there a row WHERE p?
  unfoldable pub has : (A → Bool) → List A → Bool
  has p [] = false
  has p (x ∷ xs) = p x || has p xs

  -- SELECT ... WHERE p, in insertion order.
  unfoldable pub where_rows : (A → Bool) → List A → List A
  where_rows p [] = []
  where_rows p (x ∷ xs) = if p x then x ∷ where_rows p xs else where_rows p xs

  -- UPDATE ... SET f WHERE p.
  unfoldable pub update : (A → Bool) → (A → A) → List A → List A
  update p f [] = []
  update p f (x ∷ xs) = (if p x then f x else x) ∷ update p f xs

  -- Each element satisfies P.
  abbrev pub All {κ} : (A → Type κ) → List A → Type κ
  All P [] = Unit
  All P (x ∷ xs) = P x × All P xs

  -- The row that was found is one that was looked for.
  pub find_test : (p : A → Bool) (xs : List A) {x : A} → find p xs ≡ some x → p x ≡ true
  unfolding find
  find_test p [] h = ground arith
  find_test p (y ∷ xs) {x} h = ground (arith, find_test p xs {x = x})

  pub find-append-none :
      (p : A → Bool) (xs ys : List A) → find p xs ≡ none → find p (xs ++ ys) ≡ find p ys
  unfolding find
  find-append-none p [] ys h = refl
  find-append-none p (x ∷ xs) ys h = ground (arith, find-append-none p xs ys)

  pub find-append-some :
      (p : A → Bool) (xs ys : List A) {x : A} → find p xs ≡ some x → find p (xs ++ ys) ≡ some x
  unfolding find
  find-append-some p [] ys h = ground arith
  find-append-some p (z ∷ xs) ys {x} h = ground (arith, find-append-some p xs ys {x = x})

  pub find-eq-none : (p : A → Bool) (xs : List A) → has p xs ≡ false → find p xs ≡ none
  unfolding find has
  find-eq-none p [] h = refl
  find-eq-none p (x ∷ xs) h = ground (arith, find-eq-none p xs)

  pub has-find : (p : A → Bool) (xs : List A) {x : A} → find p xs ≡ some x → has p xs ≡ true
  unfolding find has
  has-find p [] h = ground arith
  has-find p (z ∷ xs) {x} h = ground (arith, has-find p xs {x = x})

  pub has-append : (p : A → Bool) (xs ys : List A) → has p (xs ++ ys) ≡ (has p xs || has p ys)
  unfolding has
  has-append p [] ys = refl
  has-append p (x ∷ xs) ys = ground (arith, has-append p xs ys)

  pub length-update : (p : A → Bool) (f : A → A) (xs : List A) → length (update p f xs) ≡ length xs
  unfolding update
  length-update p f [] = refl
  length-update p f (x ∷ xs) = ap suc (length-update p f xs)

  -- An update that leaves the looked-up columns alone changes only the row that is found.
  pub find-update :
      (p q : A → Bool) (f : A → A) (xs : List A)
      → ((x : A) → q (f x) ≡ q x)
      → find q (update p f xs)
        ≡ (elim (find q xs) [ none ↦ none | some x ↦ some (if p x then f x else x) ])
  unfolding find update
  find-update p q f [] keep = refl
  find-update p q f (x ∷ xs) keep = ground (arith, keep x, find-update p q f xs keep)

  -- Rows that the test does not reach are not found by it.
  pub find-update-none :
      (p q : A → Bool) (f : A → A) (xs : List A)
      → ((x : A) → q (if p x then f x else x) ≡ true → q x ≡ true)
      → find q xs ≡ none
      → find q (update p f xs) ≡ none
  unfolding find update
  find-update-none p q f [] keep h = refl
  find-update-none p q f (x ∷ xs) keep h = ground (arith, keep x, find-update-none p q f xs keep)

  -- Where no row meets p, none is found by a narrower test.
  pub find-none_of_has :
      (p q : A → Bool) (xs : List A)
      → ((x : A) → q x ≡ true → p x ≡ true)
      → has p xs ≡ false
      → find q xs ≡ none
  unfolding find has
  find-none_of_has p q [] narrow h = refl
  find-none_of_has p q (x ∷ xs) narrow h = ground (arith, narrow x, find-none_of_has p q xs narrow)

  -- A row that the test passes over does not change what is found.
  pub find-append_miss :
      (p : A → Bool) (xs : List A) (x : A) → p x ≡ false → find p (xs ++ x ∷ []) ≡ find p xs
  unfolding find
  find-append_miss p [] x h = ground arith
  find-append_miss p (y ∷ xs) x h = ground (arith, find-append_miss p xs x)

  -- A second update finds no row where the first one leaves none.
  pub update-update :
      (p : A → Bool) (f g : A → A) (xs : List A)
      → ((x : A) → p x ≡ true → p (f x) ≡ false)
      → update p g (update p f xs) ≡ update p f xs
  unfolding update
  update-update p f g [] done = refl
  update-update p f g (x ∷ xs) done = ground (arith, done x, update-update p f g xs done)

  -- ORDER BY key DESC; rows with one key stay in the order of insertion.
  unfoldable pub insert_desc : (A → ℕ) → A → List A → List A
  insert_desc key x [] = x ∷ []
  insert_desc key x (y ∷ ys) = if leb (key y) (key x) then x ∷ y ∷ ys else y ∷ insert_desc key x ys

  unfoldable pub order_desc : (A → ℕ) → List A → List A
  unfolding insert_desc
  order_desc key [] = []
  order_desc key (x ∷ xs) = insert_desc key x (order_desc key xs)

  pub All-insert_desc {κ} :
      (P : A → Type κ) (key : A → ℕ) (x : A) (xs : List A)
      → P x
      → All P xs
      → All P (insert_desc key x xs)
  unfolding insert_desc
  All-insert_desc P key x [] h hs = (h, hs)
  All-insert_desc P key x (y ∷ ys) h hs = elim (Bool-cases (leb (key y) (key x))) [
    | inl first ↦ rw first (h, hs)
    | inr later ↦ rw later (hs.0, All-insert_desc P key x ys h hs.1)
  ]

  -- Ordering brings in no row that was not selected.
  pub All-order_desc {κ} :
      (P : A → Type κ) (key : A → ℕ) (xs : List A) → All P xs → All P (order_desc key xs)
  unfolding order_desc
  All-order_desc P key [] h = tt
  All-order_desc P key (x ∷ xs) h =
      All-insert_desc P key x (order_desc key xs) h.0 (All-order_desc P key xs h.1)

  pub All-where_rows : (p : A → Bool) (xs : List A) → All (λ x. p x ≡ true) (where_rows p xs)
  unfolding where_rows
  All-where_rows p [] = tt
  All-where_rows p (x ∷ xs) = elim (Bool-cases (p x)) [
    | inl kept ↦ rw kept (kept, All-where_rows p xs)
    | inr left ↦ rw left (All-where_rows p xs)
  ]

  pub has-update-false :
      (p q : A → Bool) (f : A → A) (xs : List A)
      → ((x : A) → p (f x) ≡ true → p x ≡ true)
      → has p xs ≡ false
      → has p (update q f xs) ≡ false
  unfolding has update
  has-update-false p q f [] keep h = refl
  has-update-false p q f (x ∷ xs) keep h = ground (arith, keep x, has-update-false p q f xs keep)

  -- After UPDATE ... WHERE p, no row meets p if the new columns do not.
  pub has-update_gone :
      (p : A → Bool) (f : A → A) (xs : List A)
      → ((x : A) → p x ≡ true → p (f x) ≡ false)
      → has p (update p f xs) ≡ false
  unfolding has update
  has-update_gone p f [] gone = refl
  has-update_gone p f (x ∷ xs) gone = ground (arith, gone x, has-update_gone p f xs gone)

  pub find-has-false :
      (p q : A → Bool) (xs : List A) {x : A} → find q xs ≡ some x → has p xs ≡ false → p x ≡ false
  unfolding has find
  find-has-false p q [] h none_such = ground arith
  find-has-false p q (y ∷ xs) {x} h none_such = ground (arith, find-has-false p q xs {x = x})

  pub has-update_same :
      (p q : A → Bool) (f : A → A) (xs : List A)
      → ((x : A) → p (f x) ≡ p x)
      → has p (update q f xs) ≡ has p xs
  unfolding has update
  has-update_same p q f [] same = refl
  has-update_same p q f (x ∷ xs) same = ground (arith, same x, has-update_same p q f xs same)

  pub has-wider :
      (p q : A → Bool) (xs : List A)
      → ((x : A) → p x ≡ true → q x ≡ true)
      → has p xs ≡ true
      → has q xs ≡ true
  unfolding has
  has-wider p q [] wider h = ground arith
  has-wider p q (x ∷ xs) wider h = ground (arith, wider x, has-wider p q xs wider)

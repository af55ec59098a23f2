-- ===== src/Common/Lists.antt =====
-- Lists over the native numbers, and predicates on lists by recursion.
use Prim.Native.Nat.{ℕ, suc, ◌+◌, ◌≤◌}
use mathlib.Core.Path.{◌≡◌, refl}
use mathlib.Core.Bool.{Bool, true, false, not}
use mathlib.Core.Option.{Option, none, some}
use mathlib.Core.List.{List, [], ◌∷◌, ◌++◌, Memᴰ}
use native.Mathlib.Omega.{arith}
use cja.Common.Tests.{if◌then◌else◌}

module _ {ℓ} {A : Type ℓ} where
  abbrev pub length : List A → ℕ
  length [] = 0
  length (x ∷ xs) = suc (length xs)

  abbrev pub All {κ} : (A → Type κ) → List A → Type κ
  All P [] = Unit
  All P (x ∷ xs) = P x × All P xs

  -- The elements that pass a test, in order.
  unfoldable pub keep : (A → Bool) → List A → List A
  keep p [] = []
  keep p (x ∷ xs) = let rest = keep p xs in if p x then x ∷ rest else rest

  -- The first element that passes a test.
  unfoldable pub find : (A → Bool) → List A → Option A
  find p [] = none
  find p (x ∷ xs) = let rest = find p xs in if p x then some x else rest

  -- How many elements pass a test.
  unfoldable pub count : (A → Bool) → List A → ℕ
  count p [] = 0
  count p (x ∷ xs) = let rest = count p xs in if p x then suc rest else rest

  -- What an UPDATE does: the elements that pass a test are replaced.
  unfoldable pub modify : (A → Bool) → (A → A) → List A → List A
  modify p f [] = []
  modify p f (x ∷ xs) = (if p x then f x else x) ∷ modify p f xs

  pub length-append : (xs ys : List A) → length (xs ++ ys) ≡ length xs + length ys
  length-append [] ys = omega arith
  length-append (x ∷ xs) ys = omega (arith, length-append xs ys)

  -- An update of no element changes nothing.
  pub modify_none : (p : A → Bool) (f : A → A) (xs : List A) → count p xs ≡ 0 → modify p f xs ≡ xs
  unfolding count modify
  modify_none p f [] h = refl
  modify_none p f (x ∷ xs) h = ground (arith, modify_none p f xs)

  pub count-le-length : (p : A → Bool) (xs : List A) → count p xs ≤ length xs
  unfolding count
  count-le-length p [] = omega arith
  count-le-length p (x ∷ xs) = ground (arith, count-le-length p xs)

  pub find-some : (p : A → Bool) (xs : List A) (x : A) → find p xs ≡ some x → p x ≡ true
  unfolding find
  find-some p [] x h = ground arith
  find-some p (y ∷ xs) x h = ground (arith, find-some p xs x)

  pub All-map {κ μ} :
      {P : A → Type κ} {Q : A → Type μ} (xs : List A) → ((x : A) → P x → Q x) → All P xs → All Q xs
  All-map [] f a = tt
  All-map (x ∷ xs) f a = (f x a.0, All-map xs f a.1)

  pub All-append {κ} : (P : A → Type κ) (xs ys : List A) → All P xs → All P ys → All P (xs ++ ys)
  All-append P [] ys h k = k
  All-append P (x ∷ xs) ys h k = (h.0, All-append P xs ys h.1 k)

  All-if {κ} :
      (Q : A → Type κ) (x : A) (rest : List A) (b : Bool)
      → (b ≡ true → Q x)
      → All Q rest
      → All Q (if b then x ∷ rest else rest)
  All-if Q x rest true h a = (h refl, a)
  All-if Q x rest false h a = a

  pub keep-passes : (p : A → Bool) (xs : List A) → All (λ x. p x ≡ true) (keep p xs)
  unfolding keep
  keep-passes p [] = tt
  keep-passes p (x ∷ xs) = All-if (λ y. p y ≡ true) x (keep p xs) (p x) (λ e. e) (keep-passes p xs)

  pub All-keep {κ} : (Q : A → Type κ) (p : A → Bool) (xs : List A) → All Q xs → All Q (keep p xs)
  unfolding keep
  All-keep Q p [] a = tt
  All-keep Q p (x ∷ xs) a = All-if Q x (keep p xs) (p x) (λ e. a.0) (All-keep Q p xs a.1)

  pub Memᴰ-keep : (p : A → Bool) (xs : List A) → All (λ x. Memᴰ x xs) (keep p xs)
  unfolding keep
  Memᴰ-keep p [] = tt
  Memᴰ-keep p (x ∷ xs) =
      All-if (λ y. Memᴰ y (x ∷ xs)) x (keep p xs) (p x) (λ e. Memᴰ.head refl)
        (All-map (keep p xs) (λ y m. Memᴰ.tail m) (Memᴰ-keep p xs))

  All-of_if {κ} :
      (Q : A → Type κ) (x : A) (rest : List A) (b : Bool)
      → All Q (if b then x ∷ rest else rest)
      → (b ≡ true → Q x) × All Q rest
  All-of_if Q x rest true a = (λ e. a.0, a.1)
  All-of_if Q x rest false a = (λ e. absurd (cc), a)

  pub All-of_keep {κ} :
      (Q : A → Type κ) (p : A → Bool) (xs : List A)
      → All Q (keep p xs)
      → All (λ x. p x ≡ true → Q x) xs
  unfolding keep
  All-of_keep Q p [] a = tt
  All-of_keep Q p (x ∷ xs) a =
      let h = All-of_if Q x (keep p xs) (p x) a in (h.0, All-of_keep Q p xs h.1)

  keep_nil-head :
      (x : A) (rest : List A) (b : Bool)
      → (if b then x ∷ rest else rest) ≡ []
      → (b ≡ false) × (rest ≡ [])
  keep_nil-head x rest true e = absurd (cc)
  keep_nil-head x rest false e = (refl, e)

  pub keep_nil : (p : A → Bool) (xs : List A) → keep p xs ≡ [] → All (λ x. p x ≡ false) xs
  unfolding keep
  keep_nil p [] e = tt
  keep_nil p (x ∷ xs) e = let h = keep_nil-head x (keep p xs) (p x) e in (h.0, keep_nil p xs h.1)

  -- A DELETE of no element changes nothing.
  pub keep_all : (p : A → Bool) (xs : List A) → count p xs ≡ 0 → keep (λ x. not (p x)) xs ≡ xs
  unfolding count keep
  keep_all p [] h = refl
  keep_all p (x ∷ xs) h = ground (arith, keep_all p xs)

  -- A narrower test counts no more.
  pub count_mono :
      (p q : A → Bool) (xs : List A) → ((x : A) → p x ≡ true → q x ≡ true) → count p xs ≤ count q xs
  unfolding count
  count_mono p q [] h = omega arith
  count_mono p q (x ∷ xs) h = ground (arith, h x, count_mono p q xs h)

  -- What a test that is kept finds.
  pub find-keep :
      (p q : A → Bool) (xs : List A)
      → ((x : A) → p x ≡ true → q x ≡ true)
      → find p (keep q xs) ≡ find p xs
  unfolding find keep
  find-keep p q [] h = refl
  find-keep p q (x ∷ xs) h = ground (arith, h x, find-keep p q xs h)

  pub count-keep : (p q : A → Bool) (xs : List A) → count p (keep q xs) ≤ count p xs
  unfolding count keep
  count-keep p q [] = omega arith
  count-keep p q (x ∷ xs) = ground (arith, count-keep p q xs)

  pub count-keep_none :
      (p q : A → Bool) (xs : List A)
      → ((x : A) → p x ≡ true → q x ≡ false)
      → count p (keep q xs) ≡ 0
  unfolding count keep
  count-keep_none p q [] h = refl
  count-keep_none p q (x ∷ xs) h = ground (arith, h x, count-keep_none p q xs h)

  pub count-append : (p : A → Bool) (xs ys : List A) → count p (xs ++ ys) ≡ count p xs + count p ys
  unfolding count
  count-append p [] ys = omega arith
  count-append p (x ∷ xs) ys = ground (arith, count-append p xs ys)

  pub count-keep_same :
      (p q : A → Bool) (xs : List A)
      → ((x : A) → p x ≡ true → q x ≡ true)
      → count p (keep q xs) ≡ count p xs
  unfolding count keep
  count-keep_same p q [] h = refl
  count-keep_same p q (x ∷ xs) h = ground (arith, h x, count-keep_same p q xs h)

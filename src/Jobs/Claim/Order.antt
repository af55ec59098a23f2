-- ===== src/Jobs/Claim/Order.antt =====
-- The order in which jobs are claimed.
use cja.Common.{
  ◌≡◌, refl, Option, none, some, List, [], ◌∷◌, Bool, true, false, arith, inl, inr, Bool-cases, All,
  if◌then◌else◌,
}
use cja.Common.Int.{ℤ, pos, negsuc, lt_ℤ}
use cja.Jobs.Tables.{JobRow}
use cja.Jobs.Claim.{precedes, precedes_in_time, earlier, first_row}

lt_ℤ_neg_trans : (a b c : ℤ) → lt_ℤ a b ≡ false → lt_ℤ b c ≡ false → lt_ℤ a c ≡ false
unfolding lt_ℤ
lt_ℤ_neg_trans (pos a) (pos b) (pos c) h k = ground arith
lt_ℤ_neg_trans (pos a) (pos b) (negsuc c) h k = refl
lt_ℤ_neg_trans (pos a) (negsuc b) (pos c) h k = ground arith
lt_ℤ_neg_trans (pos a) (negsuc b) (negsuc c) h k = refl
lt_ℤ_neg_trans (negsuc a) (pos b) (pos c) h k = ground arith
lt_ℤ_neg_trans (negsuc a) (pos b) (negsuc c) h k = ground arith
lt_ℤ_neg_trans (negsuc a) (negsuc b) (pos c) h k = ground arith
lt_ℤ_neg_trans (negsuc a) (negsuc b) (negsuc c) h k = ground arith

lt_ℤ_asym : (a b : ℤ) → lt_ℤ a b ≡ true → lt_ℤ b a ≡ false
unfolding lt_ℤ
lt_ℤ_asym (pos a) (pos b) h = ground arith
lt_ℤ_asym (pos a) (negsuc b) h = ground arith
lt_ℤ_asym (negsuc a) (pos b) h = refl
lt_ℤ_asym (negsuc a) (negsuc b) h = ground arith

precedes_in_time_neg_trans :
    (a b c : JobRow)
    → precedes_in_time a b ≡ false
    → precedes_in_time b c ≡ false
    → precedes_in_time a c ≡ false
unfolding precedes_in_time
precedes_in_time_neg_trans a b c h k = ground arith

-- What does not come before one that does not come before a third does not come before that.
pub precedes_neg_trans :
    (a b c : JobRow) → precedes a b ≡ false → precedes b c ≡ false → precedes a c ≡ false
unfolding precedes
precedes_neg_trans a b c h k = ground (
  arith,
  precedes_in_time_neg_trans a b c,
  lt_ℤ_neg_trans c.priority b.priority a.priority,
  lt_ℤ_neg_trans a.priority c.priority b.priority,
  lt_ℤ_neg_trans b.priority a.priority c.priority,
  lt_ℤ_neg_trans b.priority c.priority a.priority,
  lt_ℤ_asym a.priority b.priority,
  lt_ℤ_asym b.priority c.priority,
  lt_ℤ_asym a.priority c.priority,
)

pub precedes_asym : (a b : JobRow) → precedes a b ≡ true → precedes b a ≡ false
unfolding precedes precedes_in_time
precedes_asym a b h =
    ground (arith, lt_ℤ_asym a.priority b.priority, lt_ℤ_asym b.priority a.priority)

pub precedes_irrefl : (a : JobRow) → precedes a a ≡ false
precedes_irrefl a = elim (Bool-cases (precedes a a)) [ inl h ↦ precedes_asym a a h | inr h ↦ h ]

-- The row does not come behind any row of the list.
abbrev pub IsFirst : JobRow → List JobRow → Type 0
IsFirst r = All (λ x. precedes x r ≡ false)

IsFirst-trans :
    (r s : JobRow) (xs : List JobRow) → precedes s r ≡ false → IsFirst s xs → IsFirst r xs
IsFirst-trans r s [] h a = tt
IsFirst-trans r s (x ∷ xs) h a = (precedes_neg_trans x s r a.0 h, IsFirst-trans r s xs h a.1)

-- What `ORDER BY … LIMIT 1` finds in a list: nothing in the empty one, and else a first row.
abbrev pub FirstOf : Option JobRow → List JobRow → Type 0
FirstOf none xs = xs ≡ []
FirstOf (some r) xs = IsFirst r xs

choice-IsFirst :
    (x s : JobRow) (xs : List JobRow) (b : Bool)
    → precedes s x ≡ b
    → IsFirst s xs
    → IsFirst (if b then s else x) (x ∷ xs)
choice-IsFirst x s xs true e h = (precedes_asym s x e, h)
choice-IsFirst x s xs false e h = (precedes_irrefl x, IsFirst-trans x s xs e h)

earlier-IsFirst :
    (x : JobRow) (xs : List JobRow) (o : Option JobRow)
    → FirstOf o xs
    → IsFirst (earlier x o) (x ∷ xs)
earlier-IsFirst x xs none h = rw h (precedes_irrefl x, tt)
earlier-IsFirst x xs (some s) h = choice-IsFirst x s xs (precedes s x) refl h

pub first_row-FirstOf : (xs : List JobRow) → FirstOf (first_row xs) xs
unfolding first_row
first_row-FirstOf [] = refl
first_row-FirstOf (x ∷ xs) = earlier-IsFirst x xs (first_row xs) (first_row-FirstOf xs)

-- A row that is found has what every row of the list has.
choice_has {ℓ} :
    (P : JobRow → Type ℓ) (x s : JobRow) (b : Bool) → P x → P s → P (if b then s else x)
choice_has P x s true h k = k
choice_has P x s false h k = h

abbrev pub Found {ℓ} : (JobRow → Type ℓ) → Option JobRow → Type ℓ
Found P none = Unit
Found P (some r) = P r

earlier_has {ℓ} :
    (P : JobRow → Type ℓ) (x : JobRow) (o : Option JobRow) → P x → Found P o → P (earlier x o)
earlier_has P x none h f = h
earlier_has P x (some s) h f = choice_has P x s (precedes s x) h f

pub first_row-Found {ℓ} :
    (P : JobRow → Type ℓ) (xs : List JobRow) → All P xs → Found P (first_row xs)
unfolding first_row
first_row-Found P [] a = tt
first_row-Found P (x ∷ xs) a = earlier_has P x (first_row xs) a.0 (first_row-Found P xs a.1)

-- ===== src/Jobs/Claim/Candidate.antt =====
-- Which row the claim statement of crates/cja/src/jobs/worker.rs picks.
use cja.Common.{
  ℕ, ◌≡◌, Option, none, some, List, Bool, true, false, ◌&&◌, not, All, keep, Memᴰ, keep-passes,
  Memᴰ-keep, All-of_keep, keep_nil, All-map, refl, ltb, ◌+◌, ◌<◌, ◌≤◌, ◌⊎◌, inl, inr, arith,
  is_some, ◌||◌,
}
use cja.Common.Int.{ℤ, pos, negsuc, lt_ℤ}
use cja.Jobs.Tables.{JobRow, max_error_count}
use cja.Jobs.Claim.{claimable, lease_ran_out, precedes, precedes_in_time, first_row, candidate}
use cja.Jobs.Claim.Order.{FirstOf, first_row-FirstOf, Found, first_row-Found}

-- May be claimed: the WHERE clause holds, and no other transaction holds the row.
abbrev pub is_open : (ℕ → Bool) → ℕ → ℕ → JobRow → Bool
is_open row_locked now window r = claimable now window r && not (row_locked r.job_id)

-- The first row in the order of the code: nothing if no row is open; else an open row of the table
-- that no open row precedes.
abbrev pub IsFirst : (ℕ → Bool) → ℕ → ℕ → List JobRow → Option JobRow → Type 0
IsFirst row_locked now window jobs none = All (λ x. is_open row_locked now window x ≡ false) jobs
IsFirst row_locked now window jobs (some r) =
    (is_open row_locked now window r ≡ true)
    × Memᴰ r jobs
    × All (λ x. is_open row_locked now window x ≡ true → precedes x r ≡ false) jobs

Found-IsFirst :
    (row_locked : ℕ → Bool) (now window : ℕ) (jobs : List JobRow) (o : Option JobRow)
    → FirstOf o (keep (is_open row_locked now window) jobs)
    → Found (λ x. is_open row_locked now window x ≡ true) o
    → Found (λ x. Memᴰ x jobs) o
    → IsFirst row_locked now window jobs o
Found-IsFirst row_locked now window jobs none f h m =
    keep_nil (is_open row_locked now window) jobs f
Found-IsFirst row_locked now window jobs (some r) f h m =
    (h, m, All-of_keep (λ x. precedes x r ≡ false) (is_open row_locked now window) jobs f)

pub candidate-IsFirst :
    (row_locked : ℕ → Bool) (now window : ℕ) (jobs : List JobRow)
    → IsFirst row_locked now window jobs (candidate row_locked now window jobs)
unfolding candidate
candidate-IsFirst row_locked now window jobs =
    let p = is_open row_locked now window in
    Found-IsFirst row_locked now window jobs (first_row (keep p jobs))
      (first_row-FirstOf (keep p jobs))
      (first_row-Found (λ x. p x ≡ true) (keep p jobs) (keep-passes p jobs))
      (first_row-Found (λ x. Memᴰ x jobs) (keep p jobs) (Memᴰ-keep p jobs))

-- A row that a worker may take: its time has come; it is free, or its lease is longer past than the
-- window and it can be counted once more; and no other transaction holds it.
pub record IsClaimable (row_locked : ℕ → Bool) (now window : ℕ) (r : JobRow) : Type 0 where
  pub due : r.run_at ≤ now
  pub free :
      (r.locked_by ≡ none)
      ⊎ ((at : ℕ) × (r.locked_at ≡ some at)
          × (at + window < now)
          × (r.error_count < max_error_count))
  pub unheld : row_locked r.job_id ≡ false

-- The order of claims: the greater priority, then the earlier due time, then the older row.
pub data Before (a b : JobRow) : Type 0 where
  by_priority : lt_ℤ b.priority a.priority ≡ true → Before a b
  by_due_time : a.priority ≡ b.priority → a.run_at < b.run_at → Before a b
  by_age : a.priority ≡ b.priority → a.run_at ≡ b.run_at → a.created_at < b.created_at → Before a b

-- The row to claim next: nothing if no row is claimable; else a claimable row of the table that no
-- claimable row comes before.
abbrev pub IsNext : (ℕ → Bool) → ℕ → ℕ → List JobRow → Option JobRow → Type 0
IsNext row_locked now window jobs none = All (λ x. ¬ IsClaimable row_locked now window x) jobs
IsNext row_locked now window jobs (some r) =
    IsClaimable row_locked now window r
    × Memᴰ r jobs
    × All (λ x. IsClaimable row_locked now window x → ¬ Before x r) jobs

lt_ℤ_irrefl : (a : ℤ) → lt_ℤ a a ≡ false
unfolding lt_ℤ
lt_ℤ_irrefl (pos n) = ground arith
lt_ℤ_irrefl (negsuc n) = ground arith

Before-precedes : (a b : JobRow) → Before a b → precedes a b ≡ true
unfolding precedes precedes_in_time
Before-precedes a b (by_priority h) = rw h refl
Before-precedes a b (by_due_time e h) = rw e (rw (lt_ℤ_irrefl b.priority) (ground (arith, h)))
Before-precedes a b (by_age e f h) = rw e (rw (lt_ℤ_irrefl b.priority) (ground (arith, f, h)))

module _ (row_locked : ℕ → Bool) (now window : ℕ) where
  -- Free, by the columns of the lease.
  abbrev IsFree : Option ℕ → Option ℕ → ℕ → Type 0
  IsFree owner at errors =
      (owner ≡ none) ⊎ ((t : ℕ) × (at ≡ some t) × (t + window < now) × (errors < max_error_count))

  abbrev is_free : Option ℕ → Option ℕ → ℕ → Bool
  is_free owner at errors =
      (not (is_some owner) || lease_ran_out now window at)
      && (not (is_some owner) || ltb errors max_error_count)

  freed :
      (owner at : Option ℕ) (errors : ℕ) → is_free owner at errors ≡ true → IsFree owner at errors
  freed none at errors h = inl refl
  freed (some k) none errors h = absurd (cc)
  freed (some k) (some t) errors h = inr (t, refl, ground arith, ground arith)

  freed_by :
      (owner at : Option ℕ) (errors : ℕ) → IsFree owner at errors → is_free owner at errors ≡ true
  freed_by owner at errors (inl e) = rw e refl
  freed_by owner at errors (inr (t, e, w, m)) = rw e (ground (arith, w, m))

  opened :
      (r : JobRow) → is_open row_locked now window r ≡ true → IsClaimable row_locked now window r
  unfolding claimable
  opened r h = record {
    due = ground arith;
    free = freed r.locked_by r.locked_at r.error_count (ground arith);
    unheld = ground arith;
  }

  closed :
      (r : JobRow) → IsClaimable row_locked now window r → is_open row_locked now window r ≡ true
  unfolding claimable
  closed r h =
      let f = freed_by r.locked_by r.locked_at r.error_count h.free in
      ground (arith, h.due, h.unheld, f)

  IsFirst-IsNext :
      (jobs : List JobRow) (o : Option JobRow)
      → IsFirst row_locked now window jobs o
      → IsNext row_locked now window jobs o
  IsFirst-IsNext jobs none f = All-map jobs (λ x e c. absurd (differ x e c)) f
    where
      differ :
          (x : JobRow)
          → is_open row_locked now window x ≡ false
          → IsClaimable row_locked now window x
          → ⊥
      differ x e c = let k = closed x c in cc
  IsFirst-IsNext jobs (some r) f =
      (opened r f.0, f.1, All-map jobs (λ x h c b. apart x (h (closed x c)) b) f.2)
    where
      apart : (x : JobRow) → precedes x r ≡ false → Before x r → ⊥
      apart x e b = let k = Before-precedes x r b in cc

-- The claim statement picks the next row: nothing exactly if no row is claimable, and else a
-- claimable row of the table that no claimable row comes before. A row is claimable if it is due,
-- it has no owner or a lease that is past by more than the window and an error count below the
-- limit, and no other transaction holds it; rows are ordered by greater priority, earlier due time
-- and earlier creation.
pub candidate-IsNext :
    (row_locked : ℕ → Bool) (now window : ℕ) (jobs : List JobRow)
    → IsNext row_locked now window jobs (candidate row_locked now window jobs)
candidate-IsNext row_locked now window jobs =
    IsFirst-IsNext row_locked now window jobs (candidate row_locked now window jobs)
      (candidate-IsFirst row_locked now window jobs)

-- ===== src/Secrets/Boot.antt =====
-- The boot fetch of a secret (`fetch_at_boot` of crates/cja-secret/src/lib.rs).
use cja.Common.{
  ℕ, zero, suc, ◌+◌, ◌*◌, ◌≤◌, ◌<◌, ◌≡◌, refl, sym, subst, ◌⊎◌, inl, inr, min, String, Option, none,
  some, true, false, leb, Bool-cases, arith,
}
use cja.Common.Sql.{Result, ok, err}
use cja.Secrets.{
  SetecError, is_retryable, SecretValue, setec, boot_timeout, parse_failed, initial_retry_wait,
  max_retry_wait, Attempt, Fetched, fetched, fetch_failed, retrying, retry_or_give_up,
  after_attempt, fetch_from, fetch_at_boot,
}

module _ (name : String) (attempts : ℕ → Attempt) (start timeout : ℕ) where
  -- An attempt failed in a way that may pass.
  abbrev pub MayPass : ℕ → Type 0
  MayPass n = (e : SetecError) × ((attempts n).answer ≡ some (err e)) × (is_retryable e ≡ true)

  -- Every attempt before `n` may pass, and `n` initial waits fit into the timeout.
  abbrev pub Retried : ℕ → Type 0
  Retried n = ((m : ℕ) → m < n → MayPass m) × (n * initial_retry_wait ≤ timeout)

  -- What the fetch returns is what its last attempt, the `n`th from 0, calls for.
  abbrev pub IsLast : ℕ → Fetched → Type 0
  IsLast n (fetched v) = (attempts n).answer ≡ some (ok v)
  IsLast n (fetch_failed (setec who e)) =
      (who ≡ name) × ((attempts n).answer ≡ some (err e)) × (is_retryable e ≡ false)
  IsLast n (fetch_failed (boot_timeout who none)) = (who ≡ name) × ((attempts n).answer ≡ none)
  IsLast n (fetch_failed (boot_timeout who (some e))) =
      (who ≡ name) × ((attempts n).answer ≡ some (err e)) × (is_retryable e ≡ true)
  IsLast n (fetch_failed (parse_failed who v)) = ⊥
  IsLast n retrying = ⊥

  abbrev pub IsFetched : Fetched → Type 0
  IsFetched r = (n : ℕ) × Retried n × IsLast n r

  extended : (n : ℕ) → ((m : ℕ) → m < n → MayPass m) → MayPass n → (m : ℕ) → m < suc n → MayPass m
  extended n before here m h = elim (split m n h) [
    | inl l ↦ before m l
    | inr e ↦ subst MayPass (sym e) here
  ]
    where
      split : (a b : ℕ) → a < suc b → (a < b) ⊎ (a ≡ b)
      split a b h = ground arith

  given_up :
      (n now wait : ℕ) (e : SetecError) (more : Fetched)
      → (attempts n).answer ≡ some (err e)
      → is_retryable e ≡ true
      → Retried n
      → (now + wait < start + timeout → IsFetched more)
      → IsFetched (retry_or_give_up name (start + timeout) now wait e more)
  given_up n now wait e more a t r k = elim (Bool-cases (leb (start + timeout) (now + wait))) [
    | inl h ↦ rw h (n, r, (refl, a, t))
    | inr h ↦ rw h (k (ground arith))
  ]

  attempted :
      (n now wait : ℕ) (answer : Option (Result SetecError SecretValue)) (more : Fetched)
      → (attempts n).answer ≡ answer
      → Retried n
      → (MayPass n → now + wait < start + timeout → IsFetched more)
      → IsFetched (after_attempt name (start + timeout) now wait answer more)
  attempted n now wait none more a r k = (n, r, (refl, a))
  attempted n now wait (some (ok v)) more a r k = (n, r, a)
  attempted n now wait (some (err e)) more a r k = elim (Bool-cases (is_retryable e)) [
    | inl t ↦ rw t (given_up n now wait e more a t r (k (e, a, t)))
    | inr f ↦ rw f (n, r, (refl, a, f))
  ]

  fetch_from-IsFetched :
      (fuel n now wait : ℕ)
      → Retried n
      → start + n * initial_retry_wait ≤ now
      → initial_retry_wait ≤ wait
      → 0 < fuel
      → (start + timeout) + initial_retry_wait ≤ now + fuel * initial_retry_wait
      → IsFetched (fetch_from name attempts (start + timeout) fuel n now wait)
  unfolding fetch_from
  fetch_from-IsFetched zero n now wait r t w p f = absurd (omega arith)
  fetch_from-IsFetched (suc fuel) n now wait r t w p f =
      let later = now + (attempts n).took in
      attempted n later wait (attempts n).answer _ refl r (λ q l.
        fetch_from-IsFetched fuel (suc n) (later + wait + (attempts n).overslept)
          (min (wait * 2) max_retry_wait) (extended n r.0 q, omega arith) (omega arith)
          (ground arith) (omega arith) (omega arith))

-- With any attempts, and fuel for one more than the initial waits that fit into the boot timeout, the
-- boot fetch ends. It returns the value that its last attempt answered; the error of an attempt that
-- cannot pass; or a boot timeout, because the last attempt was cut off by the deadline or failed in
-- a way that may pass. Every attempt before failed in a way that may pass, and there are at most as
-- many of these as initial waits fit into the timeout.
pub fetch_at_boot-IsFetched :
    (name : String) (attempts : ℕ → Attempt) (start timeout fuel : ℕ)
    → timeout + initial_retry_wait ≤ fuel * initial_retry_wait
    → IsFetched name attempts start timeout (fetch_at_boot name attempts timeout start fuel)
unfolding fetch_at_boot
fetch_at_boot-IsFetched name attempts start timeout fuel f =
    fetch_from-IsFetched name attempts start timeout fuel 0 start initial_retry_wait
      ((λ m h. absurd (omega arith)), omega arith) (omega arith) (omega arith) (omega arith)
      (omega arith)

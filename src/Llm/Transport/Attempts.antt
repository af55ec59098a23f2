-- ===== src/Llm/Transport/Attempts.antt =====
-- The attempts that `run_loop` of crates/cja-llm/src/transport.rs makes.
use cja.Common.{
  ℕ, zero, suc, ◌≤◌, ◌<◌, ◌≡◌, ◌≢◌, refl, subst, max, Option, none, some, Bool, true, false, ◌&&◌,
  ◌||◌, not, ltb, leb, List, [], ◌∷◌, All, count, length, arith, if◌then◌else◌,
}
use cja.Common.Sql.{Result, ok, err}
use cja.Llm.Transport.{
  HttpError, Wire, answered, AttemptResult, done, retry, terminal, run_attempt, retryable_delay,
  Turn, Made, Request, Answer, after_attempt, error_of, stale_of, after_of, attempts_from, run_loop,
  error_or_timeout,
}
use cja.Llm.Transport.Classes.{
  is_resendable, is_stale_retry, run_attempt-resendable, run_attempt-done, run_attempt-stale,
}

-- Each attempt that is followed by another may be made again.
abbrev pub Resent : List Made → Type 0
Resent [] = Unit
Resent (m ∷ []) = Unit
Resent (m ∷ n ∷ rest) = (is_resendable m.wire ≡ true) × Resent (n ∷ rest)

-- A request that succeeds was answered in its last attempt.
abbrev pub Succeeded : Answer → Type 0
Succeeded (r, []) = r ≢ ok tt
Succeeded (r, m ∷ []) = r ≡ ok tt → m.wire ≡ answered
Succeeded (r, m ∷ n ∷ rest) = Succeeded (r, n ∷ rest)

pub record IsBounded (deadline left : ℕ) (used : Bool) (a : Answer) : Type 0 where
  pub few : length a.1 ≤ left
  pub in_time : All (λ m. m.starts_at < deadline) a.1
  pub stale_once : count (λ m. is_stale_retry m.result) a.1 ≤ (if used then 0 else 1)
  pub resent : Resent a.1
  pub succeeded : Succeeded a

module _ (deadline left : ℕ) (used : Bool) (start : ℕ) (w : Wire) (early : start < deadline) where
  abbrev made_as : AttemptResult → Made
  made_as result = record { starts_at = start; wire = w; result = result }

  one_stale :
      (b : Bool) (n : ℕ) (u : Bool)
      → (b ≡ true → u ≡ false)
      → n ≤ (if b || u then 0 else 1)
      → (if b then suc n else n) ≤ (if u then 0 else 1)
  one_stale true n true h k = absurd (ground (arith, h refl))
  one_stale true n false h k = omega (arith, k)
  one_stale false n u h k = k

  last_one :
      (result : AttemptResult) (r : Result HttpError (Unit {0}))
      → (is_stale_retry result ≡ true → used ≡ false)
      → (r ≡ ok tt → w ≡ answered)
      → IsBounded deadline (suc left) used (r, made_as result ∷ [])
  unfolding count
  last_one result r h k = record {
    few = omega arith;
    in_time = (early, tt);
    stale_once = one_stale (is_stale_retry result) 0 used h (omega arith);
    resent = tt;
    succeeded = k;
  }

  followed_on :
      (result : AttemptResult) (rest : List Made)
      → is_resendable w ≡ true
      → Resent rest
      → Resent (made_as result ∷ rest)
  followed_on result [] u r = tt
  followed_on result (m ∷ rest) u r = (u, r)

  ended_later :
      (result : AttemptResult) (r : Result HttpError (Unit {0})) (rest : List Made)
      → Succeeded (r, rest)
      → Succeeded (r, made_as result ∷ rest)
  ended_later result r [] s = λ h. absurd (s h)
  ended_later result r (m ∷ rest) s = s

  one_more :
      (e : HttpError) (retry_after : Option ℕ) (stale : Bool) (rest : Answer)
      → (stale ≡ true → used ≡ false)
      → is_resendable w ≡ true
      → IsBounded deadline left (stale || used) rest
      → IsBounded deadline (suc left) used (rest.0, made_as (retry e retry_after stale) ∷ rest.1)
  unfolding count
  one_more e a stale rest h u b = record {
    few = let f = b.few in omega (arith, f);
    in_time = (early, b.in_time);
    stale_once = one_stale stale (count (λ m. is_stale_retry m.result) rest.1) used h b.stale_once;
    resent = followed_on (retry e a stale) rest.1 u b.resent;
    succeeded = ended_later (retry e a stale) rest.0 rest.1 b.succeeded;
  }

  unused : (available : Bool) → (not used && available) ≡ true → used ≡ false
  unused available h = ground (arith, h)

  step :
      (available : Bool) (result : AttemptResult) (delay : Option ℕ) (rest : Answer)
      → run_attempt w (not used && available) ≡ result
      → IsBounded deadline left (stale_of result used) rest
      → IsBounded deadline (suc left) used (after_attempt result delay (made_as result) rest)
  step available done delay rest e b =
      last_one done (ok tt) (λ h. absurd (cc)) (λ _. run_attempt-done w (not used && available) e)
  step available (terminal x) delay rest e b =
      last_one (terminal x) (err x) (λ h. absurd (cc)) (λ h. absurd (cc))
  step available (retry x a s) none rest e b =
      last_one (retry x a s) (err x)
        (λ h. unused available (
          run_attempt-stale w (not used && available) x a
            (subst (λ t. run_attempt w (not used && available) ≡ retry x a t) h e)))
        (λ h. absurd (cc))
  step available (retry x a s) (some delay) rest e b =
      one_more x a s rest
        (λ h. unused available (
          run_attempt-stale w (not used && available) x a
            (subst (λ t. run_attempt w (not used && available) ≡ retry x a t) h e)))
        (run_attempt-resendable w (not used && available) x a s e) b

no_attempts :
    (deadline left : ℕ) (used : Bool) (e : HttpError) → IsBounded deadline left used (err e, [])
unfolding count
no_attempts deadline left used e = record {
  few = omega arith;
  in_time = tt;
  stale_once = omega arith;
  resent = tt;
  succeeded = λ h. cc;
}

timely :
    (deadline left start : ℕ) (used late : Bool) (e : HttpError) (a : Answer)
    → leb deadline start ≡ late
    → (start < deadline → IsBounded deadline left used a)
    → IsBounded deadline left used (if late then (err e, []) else a)
timely deadline left start used true e a h k = no_attempts deadline left used e
timely deadline left start used false e a h k = k (ground (arith, h))

attempts_from-IsBounded :
    (r : Request) (turns : ℕ → Turn) (left attempt : ℕ) (used : Bool) (last : Option HttpError)
    → IsBounded r.deadline left used (attempts_from r turns left attempt used last)
unfolding attempts_from
attempts_from-IsBounded r turns zero attempt used last =
    no_attempts r.deadline 0 used (error_or_timeout last)
attempts_from-IsBounded r turns (suc left) attempt used last =
    let turn = turns attempt in
    let result = run_attempt turn.wire (not used && ltb 0 left) in
    let delay =
      retryable_delay r.policy attempt (after_of result) r.deadline turn.ends_at turn.jitter in
    let rest =
      attempts_from r turns left (suc attempt) (stale_of result used) (error_of result last) in
    timely r.deadline (suc left) turn.starts_at used (leb r.deadline turn.starts_at)
      (error_or_timeout last)
      (after_attempt result delay
        (record { starts_at = turn.starts_at; wire = turn.wire; result = result }) rest)
      refl
      (λ early.
        step r.deadline left used turn.starts_at turn.wire early (ltb 0 left) result delay rest refl
          (attempts_from-IsBounded r turns left (suc attempt) (stale_of result used)
            (error_of result last)))

-- Whatever the network does: a request makes at most `max_attempts` attempts, or one if that is 0;
-- each starts before the deadline; a stale key is retried at most once; an attempt is followed by
-- another only if nothing of it was sent, or if it was answered with 429, a server error or a stale
-- key; and a request succeeds only if its last attempt was answered with success.
pub run_loop-IsBounded :
    (r : Request) (turns : ℕ → Turn)
    → IsBounded r.deadline (max r.policy.max_attempts 1) false (run_loop r turns)
unfolding run_loop
run_loop-IsBounded r turns =
    attempts_from-IsBounded r turns (max r.policy.max_attempts 1) 1 false none

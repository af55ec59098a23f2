-- ===== src/Jobs/Finalize/Effects.antt =====
-- What the end of a job does to the tables: `run_next_job` after the body has ended.
use cja.Common.{
  ℕ, ◌+◌, ◌≤◌, ◌≡◌, refl, String, Option, none, some, List, Bool, true, false, arith, not, ◌==◌,
  keep, count, modify, modify_none, keep_all, count_mono, ap, suc, zero, if◌then◌else◌, leb, ltb,
}
use cja.Common.Sql.{
  Fault, deliver, refuse, lost, Result, ok, err, World, query, settle, next_fault, rest_faults,
  resume, pure,
}
use cja.Jobs.Tables.{report, JobFromDb, JobRow, Tables, owned_by, has_id, max_error_count}
use cja.Jobs.Claim.{Claimer, dead_letter_owned, delete_owned, TickError, sql, error_count_overflow}
use cja.Jobs.Claim.Burial.{Burial, buried, Owns, dead_letter_owned-Burial}
use cja.Jobs.Copies.{IsKeyed}
use cja.Jobs.Finalize.{
  RunJobOutcome, RunJobResult, completed, lease_lost, run_job_success, job_error, finalize, bury,
  retry, complete, schedule_retry, retryable, retry_statement, checked_count, if_owned,
}

abbrev pub retried : Claimer → ℕ → JobFromDb → String → Tables → Tables
retried worker now job error t = record t {
  jobs = modify (retryable job.job_id worker.owner_token) (schedule_retry now error) t.jobs;
}

-- The tables after a failure, which was the last one allowed (`true`) or not.
abbrev pub after_failure : Claimer → ℕ → JobFromDb → String → Bool → Tables → Tables
after_failure worker now job error true t =
    buried worker.owner_token job (job.error_count + 1) (report error) t
after_failure worker now job error false t = retried worker now job error t

-- The tables after one end of a job, by what the body did.
abbrev pub ended : Claimer → ℕ → JobFromDb → Option String → Tables → Tables
ended worker now job none t = record t {
  jobs = keep (λ r. not (owned_by job.job_id worker.owner_token r)) t.jobs;
}
ended worker now job (some error) t =
    after_failure worker now job error (leb worker.max_retries job.error_count) t

abbrev pub result_of : JobFromDb → Option String → RunJobResult
result_of job none = run_job_success job
result_of job (some error) = job_error job error

-- The tables after the end of a job with the result `r`: as they were, or `target`, which they
-- become only if this worker held the row.
pub data Ending (Owned : Type 0) (job : JobFromDb) (result : Option String)
    (before after target : Tables) : Result TickError RunJobOutcome → Type 0 where
  finished :
      Owned
      → after ≡ target
      → Ending Owned job result before after target (ok (completed (result_of job result)))
  not_owned :
      after ≡ before → Ending Owned job result before after target (ok (lease_lost job.job_id))
  failed : (e : TickError) → after ≡ before → Ending Owned job result before after target (err e)
  reply_lost :
      (e : TickError) → Owned → after ≡ target → Ending Owned job result before after target (err e)

owned-le-keyed :
    (id owner : ℕ) (t : Tables) → count (owned_by id owner) t.jobs ≤ count (has_id id) t.jobs
owned-le-keyed id owner t = count_mono (owned_by id owner) (has_id id) t.jobs λ r h. ground arith

retryable-le-owned :
    (id owner : ℕ) (t : Tables)
    → count (retryable id owner) t.jobs ≤ count (owned_by id owner) t.jobs
retryable-le-owned id owner t =
    count_mono (retryable id owner) (owned_by id owner) t.jobs λ r h. ground arith

module _ {Owned : Type 0} (job : JobFromDb) (result : Option String) (before target : Tables) where
  -- One guarded statement that hits `n` rows.
  statement-Ending :
      (f : Fault) (n : ℕ) (w : World Tables)
      → n ≤ 1
      → (n ≡ 1 → Owned)
      → (n ≡ 0 → target ≡ before)
      → let (r, after) = settle sql f (n, target) before in
        let (r', w') =
          resume {B = RunJobOutcome} r
            (λ affected. pure (if_owned job (result_of job result) (affected == 1)))
            (record w { db = after }) in
        Ending Owned job result before w'.db target r'
  statement-Ending deliver (suc zero) w h o u = Ending.finished (o refl) refl
  statement-Ending deliver zero w h o u = Ending.not_owned (u refl)
  statement-Ending deliver (suc (suc n)) w h o u = absurd (omega arith)
  statement-Ending (refuse e) n w h o u = Ending.failed (sql e) refl
  statement-Ending (lost e) (suc zero) w h o u = Ending.reply_lost (sql e) (o refl) refl
  statement-Ending (lost e) zero w h o u = Ending.failed (sql e) (u refl)
  statement-Ending (lost e) (suc (suc n)) w h o u = absurd (omega arith)

  bury-Ending :
      (r : Result TickError Bool) (w : World Tables)
      → Burial Owned before w.db target r
      → let (r', w') =
          resume {B = RunJobOutcome} r
            (λ owned. pure (if_owned job (result_of job result) owned))
            w in
        Ending Owned job result before w'.db target r'
  bury-Ending r w (Burial.not_owned e) = Ending.not_owned e
  bury-Ending r w (Burial.failed x e) = Ending.failed x e
  bury-Ending r w (Burial.moved o e) = Ending.finished o e
  bury-Ending r w (Burial.reply_lost x o e) = Ending.reply_lost x o e

module _ (worker : Claimer) (now : ℕ) (job : JobFromDb) (w : World Tables) where
  abbrev Held : Type 0
  Held = Owns job.job_id worker.owner_token w.db

  abbrev Ends : Option String → Tables → Result TickError RunJobOutcome × World Tables → Type 0
  Ends result target (r, w') = Ending Held job result w.db w'.db target r

  complete-Ends :
      IsKeyed job.job_id w.db → Ends none (ended worker now job none w.db) (complete worker job w)
  unfolding complete query delete_owned
  complete-Ends k =
      statement-Ending job none w.db (ended worker now job none w.db) (next_fault w.faults)
        (count (owned_by job.job_id worker.owner_token) w.db.jobs)
        (record w { faults = rest_faults w.faults })
        (omega (arith, owned-le-keyed job.job_id worker.owner_token w.db)) (λ e. e)
        (λ e.
          ap (λ (l : List JobRow). record w.db { jobs = l })
            (keep_all (owned_by job.job_id worker.owner_token) w.db.jobs e))

  retry-Ends :
      (error : String)
      → IsKeyed job.job_id w.db
      → Ends (some error) (retried worker now job error w.db) (retry worker now job error w)
  unfolding retry query retry_statement
  retry-Ends error k =
      statement-Ending job (some error) w.db (retried worker now job error w.db)
        (next_fault w.faults) (count (retryable job.job_id worker.owner_token) w.db.jobs)
        (record w { faults = rest_faults w.faults })
        (omega (
          arith,
          owned-le-keyed job.job_id worker.owner_token w.db,
          retryable-le-owned job.job_id worker.owner_token w.db,
        ))
        (λ e. omega (
          arith,
          owned-le-keyed job.job_id worker.owner_token w.db,
          retryable-le-owned job.job_id worker.owner_token w.db,
        ))
        (λ e.
          ap (λ (l : List JobRow). record w.db { jobs = l })
            (modify_none (retryable job.job_id worker.owner_token) (schedule_retry now error)
              w.db.jobs e))

  bury-Ends :
      (error : String) (b : Bool)
      → ltb job.error_count max_error_count ≡ b
      → Ends
          (some error)
          (buried worker.owner_token job (job.error_count + 1) (report error) w.db)
          (bury worker job error
            (if b then ok (job.error_count + 1) else err error_count_overflow)
            w)
  unfolding bury
  bury-Ends error true e =
      let m = dead_letter_owned worker.owner_token job (job.error_count + 1) (report error) w in
      bury-Ending job (some error) w.db
        (buried worker.owner_token job (job.error_count + 1) (report error) w.db) m.0 m.1
        (dead_letter_owned-Burial worker.owner_token job (job.error_count + 1) (report error) w)
  bury-Ends error false e = Ending.failed error_count_overflow refl

  failure-Ends :
      (error : String) (b : Bool)
      → IsKeyed job.job_id w.db
      → Ends (some error) (after_failure worker now job error b w.db) (
          (if b
              then bury worker job error (checked_count job.error_count)
              else retry worker now job error)
            w)
  failure-Ends error true k = bury-Ends error (ltb job.error_count max_error_count) refl
  failure-Ends error false k = retry-Ends error k

  -- However the statements fare, the end of a job leaves the tables as they were or makes the one
  -- change that the result of the body calls for: the row is deleted after a success, scheduled
  -- again with one more error counted after a failure with attempts left, and turned into a dead
  -- letter after the last failure. The change is made only if the worker still held the row, it
  -- is made if the outcome is reported as completed, and it is not if the lease is reported as
  -- lost.
  pub finalize-Ending :
      (result : Option String)
      → IsKeyed job.job_id w.db
      → let (r, w') = finalize worker now job result w in
        Ending
          (Owns job.job_id worker.owner_token w.db)
          job
          result
          w.db
          w'.db
          (ended worker now job result w.db)
          r
  unfolding finalize
  finalize-Ending none k = complete-Ends k
  finalize-Ending (some error) k = failure-Ends error (leb worker.max_retries job.error_count) k

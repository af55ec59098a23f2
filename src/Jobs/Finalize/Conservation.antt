-- ===== src/Jobs/Finalize/Conservation.antt =====
-- No job is lost, and no other job is touched, when a job of
-- crates/cja/src/jobs/worker.rs ends.
use cja.Common.{
  ℕ, ◌+◌, ◌≡◌, ◌≢◌, refl, ap, sym, subst, String, Option, none, some, List, [], ◌∷◌, Bool, true,
  false, arith, not, keep, count, find, modify, leb,
}
use cja.Common.Sql.{Result, World}
use cja.Jobs.Tables.{report, JobFromDb, JobRow, Tables, owned_by, has_id}
use cja.Jobs.Claim.{Claimer, TickError}
use cja.Jobs.Claim.Burial.{Owns}
use cja.Jobs.Copies.{copies, is_letter_of, IsKeyed, count-modify, copies-buried}
use cja.Jobs.Finalize.{RunJobOutcome, finalize, schedule_retry, retryable}
use cja.Jobs.Finalize.Effects.{Ending, ended, retried, after_failure, finalize-Ending}

find-modify_ne :
    (j id owner : ℕ) (p : JobRow → Bool) (f : JobRow → JobRow) (xs : List JobRow)
    → j ≢ id
    → ((r : JobRow) → p r ≡ true → r.job_id ≡ id)
    → ((r : JobRow) → (f r).job_id ≡ r.job_id)
    → find (has_id j) (modify p f xs) ≡ find (has_id j) xs
unfolding find modify
find-modify_ne j id owner p f [] n h k = refl
find-modify_ne j id owner p f (x ∷ xs) n h k =
    ground (arith, h x, k x, find-modify_ne j id owner p f xs n h k)

find-delete_ne :
    (j id owner : ℕ) (xs : List JobRow)
    → j ≢ id
    → find (has_id j) (keep (λ r. not (owned_by id owner r)) xs) ≡ find (has_id j) xs
unfolding find keep
find-delete_ne j id owner [] h = refl
find-delete_ne j id owner (x ∷ xs) h = ground (arith, find-delete_ne j id owner xs h)

pub schedule_retry-id :
    (now : ℕ) (error : String) (r : JobRow) → (schedule_retry now error r).job_id ≡ r.job_id
unfolding schedule_retry
schedule_retry-id now error r = refl

module _ (worker : Claimer) (now : ℕ) (job : JobFromDb) (t : Tables) where
  abbrev owner : ℕ
  owner = worker.owner_token

  copies-retried :
      (id : ℕ) (error : String) → copies id (retried worker now job error t) ≡ copies id t
  unfolding copies
  copies-retried id error =
      ap (λ (n : ℕ). n + count (is_letter_of id) t.dead_letter_jobs)
        (count-modify id (retryable job.job_id owner) (schedule_retry now error) t.jobs
          (schedule_retry-id now error))

  copies-after_failure :
      (id : ℕ) (error : String) (b : Bool)
      → Owns job.job_id owner t
      → copies id (after_failure worker now job error b t) ≡ copies id t
  copies-after_failure id error true o =
      copies-buried owner job t id (job.error_count + 1) (report error) o
  copies-after_failure id error false o = copies-retried id error

  after_failure_frame :
      (j : ℕ) (error : String) (b : Bool)
      → j ≢ job.job_id
      → find (has_id j) (after_failure worker now job error b t).jobs ≡ find (has_id j) t.jobs
  after_failure_frame j error true n = find-delete_ne j job.job_id owner t.jobs n
  after_failure_frame j error false n =
      find-modify_ne j job.job_id owner (retryable job.job_id owner) (schedule_retry now error)
        t.jobs n (λ r h. ground arith) (schedule_retry-id now error)

  ended_frame :
      (j : ℕ) (result : Option String)
      → j ≢ job.job_id
      → find (has_id j) (ended worker now job result t).jobs ≡ find (has_id j) t.jobs
  ended_frame j none n = find-delete_ne j job.job_id owner t.jobs n
  ended_frame j (some error) n =
      after_failure_frame j error (leb worker.max_retries job.error_count) n

module _ {Owned : Type 0} {job : JobFromDb} {result : Option String}
    {before after target : Tables} where
  -- What holds of the tables before, and of the change if it is allowed, holds after.
  pub Ending-rule :
      {r : Result TickError RunJobOutcome}
      → Ending Owned job result before after target r
      → (P : Tables → Type 0) → P before
      → (Owned → P target)
      → P after
  Ending-rule (Ending.finished o e) P b t = subst P (sym e) (t o)
  Ending-rule (Ending.not_owned e) P b t = subst P (sym e) b
  Ending-rule (Ending.failed x e) P b t = subst P (sym e) b
  Ending-rule (Ending.reply_lost x o e) P b t = subst P (sym e) (t o)

-- A failed job is never lost, and never doubled: however the statements fare, every job stands in
-- the two tables, taken together, as often as before.
pub finalize-conserves :
    (worker : Claimer) (now : ℕ) (job : JobFromDb) (w : World Tables) (error : String) (id : ℕ)
    → IsKeyed job.job_id w.db
    → copies id (finalize worker now job (some error) w).1.db ≡ copies id w.db
finalize-conserves worker now job w error id k =
    Ending-rule (finalize-Ending worker now job w (some error) k)
      (λ t. copies id t ≡ copies id w.db) refl
      (copies-after_failure worker now job w.db id error (leb worker.max_retries job.error_count))

-- The end of one job leaves the row of every other job as it was, whatever its result and however
-- the statements fare.
pub finalize_frame :
    (worker : Claimer) (now : ℕ) (job : JobFromDb) (w : World Tables) (result : Option String)
    (j : ℕ)
    → IsKeyed job.job_id w.db
    → j ≢ job.job_id
    → find (has_id j) (finalize worker now job result w).1.db.jobs ≡ find (has_id j) w.db.jobs
finalize_frame worker now job w result j k n =
    Ending-rule (finalize-Ending worker now job w result k)
      (λ t. find (has_id j) t.jobs ≡ find (has_id j) w.db.jobs) refl
      (λ o. ended_frame worker now job w.db j result n)

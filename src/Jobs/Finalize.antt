-- ===== src/Jobs/Finalize.antt =====
-- What `run_next_job` of crates/cja/src/jobs/worker.rs does once the body of a job has ended,
-- and `cleanup_worker_locks`.
pub mod Effects
pub mod Conservation
use cja.Common.{
  ℕ, ◌+◌, ◌*◌, ◌^◌, String, Option, none, some, List, Bool, true, false, ◌&&◌, not, ◌==◌, holds,
  ltb, leb, if◌then◌else◌, count, modify, is_some, find,
}
use cja.Common.Sql.{Result, ok, err, Action, pure, raise, query, ◌>>=◌}
use cja.Jobs.Tables.{report, JobRow, Tables, JobFromDb, owned_by, max_error_count}
use cja.Jobs.Claim.{TickError, sql, error_count_overflow, Claimer, delete_owned, dead_letter_owned}

pub data RunJobResult : Type 0 where
  run_job_success : JobFromDb → RunJobResult
  job_error : JobFromDb → String → RunJobResult

pub data RunJobOutcome : Type 0 where
  completed : RunJobResult → RunJobOutcome
  lease_lost : ℕ → RunJobOutcome

-- The SET clause of a failed attempt: `run_at = NOW() + POWER(2, error_count + 1) * 1 second`.
unfoldable pub schedule_retry : ℕ → String → JobRow → JobRow
schedule_retry now error r = record r {
  run_at = now + 2 ^ (r.error_count + 1) * 1000000;
  locked_by = none;
  locked_at = none;
  error_count = r.error_count + 1;
  last_error_message = some (report error);
  last_failed_at = some now;
}

-- Its WHERE clause.
abbrev pub retryable : ℕ → ℕ → JobRow → Bool
retryable id owner r = owned_by id owner r && ltb r.error_count max_error_count

unfoldable pub retry_statement : ℕ → ℕ → ℕ → String → Tables → ℕ × Tables
retry_statement id owner now error t = (
  count (retryable id owner) t.jobs,
  record t { jobs = modify (retryable id owner) (schedule_retry now error) t.jobs },
)

abbrev pub if_owned : JobFromDb → RunJobResult → Bool → RunJobOutcome
if_owned job result true = completed result
if_owned job result false = lease_lost job.job_id

-- `error_count.checked_add(1)` on an `i32`
abbrev pub checked_count : ℕ → Result TickError ℕ
checked_count n = if ltb n max_error_count then ok (n + 1) else err error_count_overflow

bury : Claimer → JobFromDb → String → Result TickError ℕ → Action Tables TickError RunJobOutcome
bury worker job error (err e) = raise e
bury worker job error (ok total) = do
  owned ← dead_letter_owned worker.owner_token job total (report error)
  pure (if_owned job (job_error job error) owned)

retry : Claimer → ℕ → JobFromDb → String → Action Tables TickError RunJobOutcome
retry worker now job error = do
  affected ← query sql (retry_statement job.job_id worker.owner_token now error)
  pure (if_owned job (job_error job error) (affected == 1))

complete : Claimer → JobFromDb → Action Tables TickError RunJobOutcome
complete worker job = do
  affected ← query sql (delete_owned job.job_id worker.owner_token)
  pure (if_owned job (run_job_success job) (affected == 1))

-- `none`: the body returned; `some error`: it failed or panicked with that report.
unfoldable pub finalize :
    Claimer → ℕ → JobFromDb → Option String → Action Tables TickError RunJobOutcome
unfolding bury retry complete
finalize worker now job none = complete worker job
finalize worker now job (some error) =
    if leb worker.max_retries job.error_count
    then bury worker job error (checked_count job.error_count)
    else retry worker now job error

-- The UPDATE of a heartbeat.
unfoldable pub heartbeat_statement : ℕ → ℕ → ℕ → Tables → ℕ × Tables
heartbeat_statement id owner now t = (
  count (owned_by id owner) t.jobs,
  record t { jobs = modify (owned_by id owner) (λ r. record r { locked_at = some now }) t.jobs },
)

-- `panic_message`: the payloads that carry text, and the rest.
pub data Payload : Type 0 where
  owned_text static_text : String → Payload
  non_string : Payload

unfoldable pub panic_message : Payload → String
panic_message (owned_text s) = s
panic_message (static_text s) = s
panic_message non_string = "non-string payload"

-- NOT (job_id = ANY($2))
abbrev pub is_abandoned : ℕ → List ℕ → Bool
is_abandoned id abandoned = is_some (find (λ j. j == id) abandoned)

abbrev pub releasable : ℕ → List ℕ → JobRow → Bool
releasable owner abandoned r = holds r.locked_by owner && not (is_abandoned r.job_id abandoned)

abbrev pub release : JobRow → JobRow
release r = record r { locked_by = none; locked_at = none }

unfoldable pub cleanup_worker_locks : ℕ → List ℕ → Action Tables TickError ℕ
cleanup_worker_locks owner abandoned = query sql λ t. (
  count (releasable owner abandoned) t.jobs,
  record t { jobs = modify (releasable owner abandoned) release t.jobs },
)

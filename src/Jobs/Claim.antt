-- ===== src/Jobs/Claim.antt =====
-- The claim of the next job: `fetch_next_job` and `dead_letter_owned` of
-- crates/cja/src/jobs/worker.rs, statement by statement.
pub mod Order
pub mod Candidate
pub mod Burial
pub mod Effects
use cja.Common.{
  ℕ, suc, ◌+◌, ◌<◌, ◌≡◌, String, Option, none, some, is_some, List, [], ◌∷◌, Bool, true, false,
  ◌&&◌, ◌||◌, not, ◌==◌, ltb, leb, if◌then◌else◌, keep, find, count, modify,
}
use cja.Common.Int.{lt_ℤ}
use cja.Common.Sql.{
  SqlError, Result, ok, err, World, Action, pure, raise, query, resume, ◌>>=◌, ◌>>◌,
}
use cja.Jobs.Tables.{
  Message, lease_expired_by, lease_expired, JobRow, DeadLetter, Tables, JobFromDb, has_id, owned_by,
  max_error_count,
}

-- What a tick of the worker may fail with.
pub data TickError : Type 0 where
  sql : SqlError → TickError
  error_count_overflow : TickError
  dead_letter_delete_missed : TickError

pub record ClaimedJob : Type 0 where
  pub job : JobFromDb
  pub claim_sent_at : ℕ
  pub previous_locked_by : Option ℕ
  pub previous_error_count : ℕ

-- locked_at < NOW() - $2 * interval '1 microsecond', which is not true of a NULL.
abbrev pub lease_ran_out : ℕ → ℕ → Option ℕ → Bool
lease_ran_out now window none = false
lease_ran_out now window (some at) = ltb (at + window) now

-- The WHERE clause of `candidate`.
unfoldable pub claimable : ℕ → ℕ → JobRow → Bool
claimable now window r =
    leb r.run_at now
    && ((not (is_some r.locked_by) || lease_ran_out now window r.locked_at)
        && (not (is_some r.locked_by) || ltb r.error_count max_error_count))

-- One key of an ORDER BY: decided by the two comparisons, or left to the keys behind it.
abbrev pub by_key : Bool → Bool → Bool → Bool
by_key before after rest = if before then true else if after then false else rest

-- … run_at ASC, created_at ASC
unfoldable pub precedes_in_time : JobRow → JobRow → Bool
precedes_in_time a b =
    by_key (ltb a.run_at b.run_at) (ltb b.run_at a.run_at) (ltb a.created_at b.created_at)

-- ORDER BY priority DESC, run_at ASC, created_at ASC: `a` comes strictly before `b`.
unfoldable pub precedes : JobRow → JobRow → Bool
precedes a b =
    by_key (lt_ℤ b.priority a.priority) (lt_ℤ a.priority b.priority) (precedes_in_time a b)

-- The earlier of a row and the first row of the rest.
abbrev pub earlier : JobRow → Option JobRow → JobRow
earlier r none = r
earlier r (some s) = if precedes s r then s else r

-- ORDER BY … LIMIT 1: the first row in the order (the earlier in the table of two that tie).
unfoldable pub first_row : List JobRow → Option JobRow
first_row [] = none
first_row (r ∷ rs) = some (earlier r (first_row rs))

-- `candidate`: rows that another transaction holds locked are skipped (SKIP LOCKED).
unfoldable pub candidate : (ℕ → Bool) → ℕ → ℕ → List JobRow → Option JobRow
candidate row_locked now window jobs =
    first_row (keep (λ r. claimable now window r && not (row_locked r.job_id)) jobs)

-- The SET clause of `updated`.
unfoldable pub take_lease : ℕ → ℕ → JobRow → JobRow
take_lease owner now r = elim r.locked_by [
  | none ↦ record r { locked_by = some owner; locked_at = some now }
  | some previous ↦ record r {
    locked_by = some owner;
    locked_at = some now;
    error_count = r.error_count + 1;
    last_error_message = some (lease_expired_by previous);
    last_failed_at = some now;
  }
]

unfoldable pub from_row : JobRow → JobFromDb
from_row r = record {
  job_id = r.job_id;
  name = r.name;
  payload = r.payload;
  priority = r.priority;
  run_at = r.run_at;
  created_at = r.created_at;
  context = r.context;
  error_count = r.error_count;
  last_error_message = r.last_error_message;
  last_failed_at = r.last_failed_at;
}

abbrev pub claimed_of : ℕ → ℕ → ℕ → JobRow → ClaimedJob
claimed_of sent_at owner now r = record {
  job = from_row (take_lease owner now r);
  claim_sent_at = sent_at;
  previous_locked_by = r.locked_by;
  previous_error_count = r.error_count;
}

abbrev pub claim_row : ℕ → ℕ → ℕ → Tables → Option JobRow → Option ClaimedJob × Tables
claim_row sent_at owner now t none = (none, t)
claim_row sent_at owner now t (some r) = (
  some (claimed_of sent_at owner now r),
  record t { jobs = modify (has_id r.job_id) (take_lease owner now) t.jobs },
)

-- The statement of `fetch_next_job`: `candidate`, `updated` and their join.
unfoldable pub claim_statement : ℕ → (ℕ → Bool) → ℕ → ℕ → ℕ → Tables → Option ClaimedJob × Tables
unfolding candidate
claim_statement sent_at row_locked owner window now t =
    claim_row sent_at owner now t (candidate row_locked now window t.jobs)

unfoldable pub dead_letter_of : JobFromDb → ℕ → Message → DeadLetter
dead_letter_of job total message = record {
  original_job_id = job.job_id;
  name = job.name;
  payload = job.payload;
  context = job.context;
  priority = job.priority;
  error_count = total;
  last_error_message = message;
  created_at = job.created_at;
}

-- SELECT EXISTS(… FOR UPDATE)
abbrev pub owned_exists : ℕ → ℕ → Tables → Bool × Tables
owned_exists id owner t = (is_some (find (owned_by id owner) t.jobs), t)

abbrev pub insert_dead_letter : DeadLetter → Tables → Unit {0} × Tables
insert_dead_letter d t = (tt, record t { dead_letter_jobs = d ∷ t.dead_letter_jobs })

-- DELETE FROM jobs WHERE job_id = $1 AND locked_by = $2, with `rows_affected()`
unfoldable pub delete_owned : ℕ → ℕ → Tables → ℕ × Tables
delete_owned id owner t = (
  count (owned_by id owner) t.jobs,
  record t { jobs = keep (λ r. not (owned_by id owner r)) t.jobs },
)

-- A transaction: `body` says whether it goes on to COMMIT. One that is dropped, or whose
-- statements fail, is rolled back.
abbrev pub finish_transaction :
    Tables → Result TickError Bool → World Tables → Result TickError Bool × World Tables
finish_transaction before (err e) w = (err e, record w { db = before })
finish_transaction before (ok false) w = (ok false, record w { db = before })
finish_transaction before (ok true) w = query sql (λ _. (true, w.db)) (record w { db = before })

abbrev pub transaction : Action Tables TickError Bool → Action Tables TickError Bool
transaction body w =
    let (begun, w1) = query {S = Tables} sql (λ t. (tt, t)) w in
    resume begun (λ _ w2. let (done, w3) = body w2 in finish_transaction w2.db done w3) w1

delete_dead : ℕ → Action Tables TickError Bool
delete_dead deleted = if deleted == 1 then pure true else raise dead_letter_delete_missed

dead_letter_body : ℕ → JobFromDb → ℕ → Message → Bool → Action Tables TickError Bool
unfolding delete_dead
dead_letter_body owner job total message false = pure false
dead_letter_body owner job total message true = do
  query sql (insert_dead_letter (dead_letter_of job total message))
  deleted ← query sql (delete_owned job.job_id owner)
  delete_dead deleted

dead_letter_statements : ℕ → JobFromDb → ℕ → Message → Action Tables TickError Bool
unfolding dead_letter_body
dead_letter_statements owner job total message = do
  owned ← query sql (owned_exists job.job_id owner)
  dead_letter_body owner job total message owned

-- `true`: this worker owned the row, and the job is now a dead letter.
unfoldable pub dead_letter_owned : ℕ → JobFromDb → ℕ → Message → Action Tables TickError Bool
unfolding dead_letter_statements
dead_letter_owned owner job total message =
    transaction (dead_letter_statements owner job total message)

-- The settings of a worker that its statements bind.
pub record Claimer : Type 0 where
  pub owner_token : ℕ
  pub max_retries : ℕ
  pub reclaim_window_micros : ℕ

abbrev pub message_or : Option Message → Message
message_or none = lease_expired
message_or (some m) = m

-- A lease that ran out on the last attempt: the job is dead, and there is nothing to run.
unfoldable pub after_claim :
    Claimer → Option ClaimedJob → Action Tables TickError (Option ClaimedJob)
after_claim worker none = pure none
after_claim worker (some c) =
    if is_some c.previous_locked_by && leb worker.max_retries c.previous_error_count
    then (do
      dead_letter_owned worker.owner_token c.job c.job.error_count
          (message_or c.job.last_error_message)
      pure none)
    else pure (some c)

-- `abandoned_jobs.remove`, which a claim makes whatever follows it.
unfoldable pub forget_claimed : Result TickError (Option ClaimedJob) → List ℕ → List ℕ
forget_claimed (ok (some c)) abandoned = keep (λ id. not (id == c.job.job_id)) abandoned
forget_claimed _ abandoned = abandoned

-- `fetch_next_job` at the instant `sent_at`, `now` on the database's clock; the last component
-- is `abandoned_jobs`.
unfoldable pub fetch_next_job :
    Claimer
    → ℕ
    → (ℕ → Bool)
    → ℕ
    → List ℕ
    → World Tables
    → Result TickError (Option ClaimedJob) × World Tables × List ℕ
unfolding after_claim forget_claimed
fetch_next_job worker sent_at row_locked now abandoned w =
    let (claim, w1) =
      query sql
        (claim_statement sent_at row_locked worker.owner_token worker.reclaim_window_micros now)
        w in
    let (r, w2) = resume claim (after_claim worker) w1 in (r, w2, forget_claimed claim abandoned)

-- ===== src/Jobs/Tables.antt =====
-- The tables `jobs` and `dead_letter_jobs` (crates/cja/migrations) and the rows that the worker
-- reads and writes. A UUID is the number that it spells; `locked_by` holds the text of the
-- owner's UUID, which the model keeps as that UUID. Timestamps are microseconds.
use cja.Common.{ℕ, String, Option, List, Bool, ◌&&◌, ◌==◌, holds, find}
use cja.Common.Int.{ℤ}

-- The texts that the worker stores in `last_error_message`.
pub data Message : Type 0 where
  -- `format!("{error:#}")` of the error of a job's body
  report : String → Message
  -- 'Job lease expired (previous worker: ' || previous || ')'
  lease_expired_by : ℕ → Message
  -- the fallback of `unwrap_or`
  lease_expired : Message

pub record JobRow : Type 0 where
  pub job_id : ℕ
  pub name : String
  pub payload : String
  pub priority : ℤ
  pub run_at : ℕ
  pub created_at : ℕ
  pub context : String
  pub locked_by : Option ℕ
  pub locked_at : Option ℕ
  pub error_count : ℕ
  pub last_error_message : Option Message
  pub last_failed_at : Option ℕ

pub record DeadLetter : Type 0 where
  pub original_job_id : ℕ
  pub name : String
  pub payload : String
  pub context : String
  pub priority : ℤ
  pub error_count : ℕ
  pub last_error_message : Message
  pub created_at : ℕ

pub record Tables : Type 0 where
  pub jobs : List JobRow
  pub dead_letter_jobs : List DeadLetter

-- What the worker keeps of a claimed row.
pub record JobFromDb : Type 0 where
  pub job_id : ℕ
  pub name : String
  pub payload : String
  pub priority : ℤ
  pub run_at : ℕ
  pub created_at : ℕ
  pub context : String
  pub error_count : ℕ
  pub last_error_message : Option Message
  pub last_failed_at : Option ℕ

-- WHERE job_id = $1
abbrev pub has_id : ℕ → JobRow → Bool
has_id id r = r.job_id == id

-- WHERE job_id = $1 AND locked_by = $2
abbrev pub owned_by : ℕ → ℕ → JobRow → Bool
owned_by id owner r = r.job_id == id && holds r.locked_by owner

-- `i32::MAX`, the bound that the statements put on `error_count`.
abbrev pub max_error_count : ℕ
max_error_count = 2147483647

-- The row of a job, and whether it is queued or dead.
abbrev pub row_of : ℕ → List JobRow → Option JobRow
row_of id = find (has_id id)

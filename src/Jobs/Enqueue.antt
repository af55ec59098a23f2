-- ===== src/Jobs/Enqueue.antt =====
-- How a job enters the queue: `enqueue`, `enqueue_on`, `enqueue_core` and `enqueue_on_connection` of
-- crates/cja/src/jobs/mod.rs. The pool's answer, the id and the clock are inputs.
pub mod Effects
mod Tests
use cja.Common.{ℕ, String, Option, none, some, List, [], ◌∷◌, ◌++◌}
use cja.Common.Int.{ℤ, pos}
use cja.Common.Sql.{SqlError, Result, ok, err, World, Action, raise, query}
use cja.Jobs.Tables.{JobRow, Tables}

-- A job to enqueue: its name, and its payload or the error of its serialization.
pub record EnqueueJob : Type 0 where
  pub job_name : String
  pub payload : Result String String

abbrev pub priority_or_default : Option ℤ → ℤ
priority_or_default none = pos 0
priority_or_default (some p) = p

-- The row of the INSERT; the columns that it leaves out have their defaults.
unfoldable pub new_row : String → String → String → Option ℤ → ℕ → ℕ → JobRow
new_row name payload context priority created_at id = record {
  job_id = id;
  name = name;
  payload = payload;
  priority = priority_or_default priority;
  run_at = created_at;
  created_at = created_at;
  context = context;
  locked_by = none;
  locked_at = none;
  error_count = 0;
  last_error_message = none;
  last_failed_at = none;
}

pub data EnqueueError : Type 0 where
  sqlx_error : SqlError → EnqueueError
  serde_json_error : String → EnqueueError

abbrev pub insert_row : JobRow → Tables → ℕ × Tables
insert_row r t = (r.job_id, record t { jobs = r ∷ t.jobs })

-- The INSERT with the payload, if its serialization gave one.
unfoldable pub insert_serialized :
    Result String String → String → String → Option ℤ → ℕ → ℕ → Action Tables EnqueueError ℕ
insert_serialized (err e) name context priority created_at job_id w = (err (serde_json_error e), w)
insert_serialized (ok payload) name context priority created_at job_id w =
    query sqlx_error (insert_row (new_row name payload context priority created_at job_id)) w

-- `enqueue_on_connection`: the payload is serialized before the statement is sent.
unfoldable pub enqueue_on_connection :
    EnqueueJob → String → Option ℤ → ℕ → ℕ → Action Tables EnqueueError ℕ
enqueue_on_connection j context priority created_at job_id =
    insert_serialized j.payload j.job_name context priority created_at job_id

-- The receipts and the call of `AppState::job_enqueued`, in order.
pub data EnqueueEvent : Type 0 where
  enqueue_receipt : ℕ → EnqueueEvent
  enqueue_failure : ℕ → EnqueueError → EnqueueEvent
  job_enqueued : EnqueueEvent

abbrev pub receipt_of : ℕ → Result EnqueueError ℕ → EnqueueEvent
receipt_of job_id (ok id) = enqueue_receipt id
receipt_of job_id (err e) = enqueue_failure job_id e

-- `enqueue_core`
unfoldable pub enqueue_core :
    EnqueueJob
    → String
    → Option ℤ
    → ℕ
    → ℕ
    → World Tables
    → Result EnqueueError ℕ × List EnqueueEvent × World Tables
enqueue_core j context priority created_at job_id w =
    let (r, w') = enqueue_on_connection j context priority created_at job_id w in
    (r, receipt_of job_id r ∷ [], w')

-- `enqueue_on`
unfoldable pub enqueue_on :
    EnqueueJob
    → String
    → Option ℤ
    → ℕ
    → ℕ
    → World Tables
    → Result EnqueueError ℕ × List EnqueueEvent × World Tables
enqueue_on j context priority created_at job_id w =
    enqueue_core j context priority created_at job_id w

abbrev pub woken :
    Result EnqueueError ℕ × List EnqueueEvent × World Tables
    → Result EnqueueError (Unit {0}) × List EnqueueEvent × World Tables
woken (ok _, events, w) = (ok tt, events ++ (job_enqueued ∷ []), w)
woken (err e, events, w) = (err e, events, w)

-- `enqueue`, given what the pool answers to `acquire`.
unfoldable pub enqueue :
    Result SqlError (Unit {0})
    → EnqueueJob
    → String
    → Option ℤ
    → ℕ
    → ℕ
    → World Tables
    → Result EnqueueError (Unit {0}) × List EnqueueEvent × World Tables
enqueue (err e) j context priority created_at job_id w =
    let error = sqlx_error e in (err error, enqueue_failure job_id error ∷ [], w)
enqueue (ok _) j context priority created_at job_id w =
    woken (enqueue_core j context priority created_at job_id w)

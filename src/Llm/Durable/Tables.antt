-- ===== src/Llm/Durable/Tables.antt =====
-- The tables `agent_runs` and `agent_messages` (crates/cja-llm/migrations) beside the job queue. A
-- run's row is found by its primary key, so the table is a map of ids; the CHECK on `status` keeps
-- its texts to those of the six statuses, which stand for them. An owner is the number of its fresh
-- UUID, and JSON is its text; a question is
-- the list of its code points. Timestamps are microseconds.
use cja.Common.{ℕ, String, Option, some, Bool, true, false, ◌&&◌, ◌==◌, holds, List, if◌then◌else◌}
use cja.Jobs.Tables.{Tables}
use cja.Llm.Durable.Nuls.{Text}
use cja.Llm.Durable.Status.{RunStatus, queued, running, waiting, FailReason}

pub data ErrorText : Type 0 where
  -- "cancelled by request"
  cancelled_by_request : ErrorText
  run_content_cannot_be_stored : String → ErrorText
  unknown_agent_kind : String → ErrorText
  run_state_failed_to_deserialize : ErrorText
  terminal_message : String → ErrorText

pub record RunRow : Type 0 where
  pub kind : String
  pub status : RunStatus
  pub input : String
  pub output : Option String
  pub error : Option ErrorText
  pub fail_reason : Option FailReason
  pub model : String
  pub app : String
  pub turns : ℕ
  pub input_tokens : ℕ
  pub output_tokens : ℕ
  pub run_state : String
  pub pending_call_id : Option String
  pub pending_question : Option Text
  pub cancel_requested : Bool
  pub locked_by : Option ℕ
  pub locked_at : Option ℕ
  pub created_at : ℕ
  pub started_at : Option ℕ
  pub finished_at : Option ℕ

pub data Role : Type 0 where
  system user assistant : Role

pub record MessageRow : Type 0 where
  pub seq : ℕ
  pub role : Role
  pub message : String

pub record RunDb : Type 0 where
  pub runs : ℕ → Option RunRow
  pub messages : ℕ → List MessageRow
  pub queue : Tables

abbrev pub is_status : RunStatus → RunStatus → Bool
is_status queued queued = true
is_status running running = true
is_status waiting waiting = true
is_status RunStatus.succeeded RunStatus.succeeded = true
is_status RunStatus.failed RunStatus.failed = true
is_status RunStatus.cancelled RunStatus.cancelled = true
is_status _ _ = false

-- WHERE locked_by = $2 AND status = 'running'
abbrev pub is_owned : ℕ → RunRow → Bool
is_owned me r = holds r.locked_by me && is_status r.status running

abbrev pub set_run : ℕ → RunRow → RunDb → RunDb
set_run id r d = record d { runs = λ k. if k == id then some r else d.runs k }

abbrev pub set_messages : ℕ → List MessageRow → RunDb → RunDb
set_messages id ms d = record d { messages = λ k. if k == id then ms else d.messages k }

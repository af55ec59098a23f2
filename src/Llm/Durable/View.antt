-- ===== src/Llm/Durable/View.antt =====
-- `RunView` and `get_run` of crates/cja-llm/src/durable/mod.rs.
use cja.Common.{ℕ, String, Option, none, some}
use cja.Common.Sql.{SqlError, Result, ok, err}
use cja.Llm.Durable.Nuls.{Text}
use cja.Llm.Durable.Status.{
  RunStatus, FailReason, ParseError, parse_status, parse_reason, status_text, reason_text,
}
use cja.Llm.Durable.Tables.{ErrorText, RunRow, RunDb}
use cja.Llm.Durable.Start.{RunError, storage, not_found, PendingAsk}

-- The pending columns as `RunView` decodes them.
abbrev pub pending_ask : Option String → Option Text → Result RunError (Option PendingAsk)
pending_ask (some call_id) (some question) =
    ok (some (record { call_id = call_id; question = question }))
pending_ask none none = ok none
pending_ask (some call_id) none = err (storage SqlError.other)
pending_ask none (some question) = err (storage SqlError.other)

-- What `RunView` shows of a row.
pub record RunView : Type 0 where
  pub kind : String
  pub status : RunStatus
  pub model : String
  pub app : String
  pub turns : ℕ
  pub input_tokens : ℕ
  pub output_tokens : ℕ
  pub output : Option String
  pub fail_reason : Option FailReason
  pub error : Option ErrorText
  pub pending_ask : Option PendingAsk
  pub created_at : ℕ
  pub started_at : Option ℕ
  pub finished_at : Option ℕ

-- The columns that the SELECT of `get_run` reads: a status and a reason are texts.
pub record RunColumns : Type 0 where
  pub kind : String
  pub status : String
  pub model : String
  pub app : String
  pub turns : ℕ
  pub input_tokens : ℕ
  pub output_tokens : ℕ
  pub output : Option String
  pub fail_reason : Option String
  pub error : Option ErrorText
  pub pending_call_id : Option String
  pub pending_question : Option Text
  pub created_at : ℕ
  pub started_at : Option ℕ
  pub finished_at : Option ℕ

abbrev pub read_reason : Result ParseError FailReason → Result ParseError (Option FailReason)
read_reason (ok reason) = ok (some reason)
read_reason (err e) = err e

-- The `fail_reason` column as `RunView` decodes it.
abbrev pub decoded_reason : Option String → Result ParseError (Option FailReason)
decoded_reason none = ok none
decoded_reason (some raw) = read_reason (parse_reason raw)

abbrev pub view_with :
    RunColumns
    → Result ParseError RunStatus
    → Result ParseError (Option FailReason)
    → Result RunError (Option PendingAsk)
    → Result RunError RunView
view_with c (err e) reason pending = err (storage SqlError.other)
view_with c (ok status) (err e) pending = err (storage SqlError.other)
view_with c (ok status) (ok fail_reason) (err e) = err e
view_with c (ok status) (ok fail_reason) (ok pending) = ok (record {
  kind = c.kind;
  status = status;
  model = c.model;
  app = c.app;
  turns = c.turns;
  input_tokens = c.input_tokens;
  output_tokens = c.output_tokens;
  output = c.output;
  fail_reason = fail_reason;
  error = c.error;
  pending_ask = pending;
  created_at = c.created_at;
  started_at = c.started_at;
  finished_at = c.finished_at;
})

-- `RunView::from_row`
unfoldable pub from_row : RunColumns → Result RunError RunView
from_row c =
    view_with c (parse_status c.status) (decoded_reason c.fail_reason)
      (pending_ask c.pending_call_id c.pending_question)

abbrev pub stored_reason : Option FailReason → Option String
stored_reason none = none
stored_reason (some reason) = some (reason_text reason)

-- The columns of a row as the table holds them, with the texts that `as_str` writes.
abbrev pub columns_of : RunRow → RunColumns
columns_of r = record {
  kind = r.kind;
  status = status_text r.status;
  model = r.model;
  app = r.app;
  turns = r.turns;
  input_tokens = r.input_tokens;
  output_tokens = r.output_tokens;
  output = r.output;
  fail_reason = stored_reason r.fail_reason;
  error = r.error;
  pending_call_id = r.pending_call_id;
  pending_question = r.pending_question;
  created_at = r.created_at;
  started_at = r.started_at;
  finished_at = r.finished_at;
}

abbrev pub view_found : ℕ → Option RunRow → Result RunError RunView
view_found id none = err (not_found id)
view_found id (some r) = from_row (columns_of r)

-- `get_run`, on the tables as its SELECT finds them
unfoldable pub get_run : ℕ → RunDb → Result RunError RunView
get_run id d = view_found id (d.runs id)

-- ===== src/Llm/Durable/Worker.antt =====
-- One attempt to advance a run: crates/cja-llm/src/durable/worker.rs. The texts of error reports and
-- tracing are left out. What the model and the tools return, how many heartbeats fall within a step
-- and when a shutdown is seen are inputs.
use cja.Common.{
  ℕ, zero, suc, String, Option, none, some, Bool, true, false, ◌||◌, ◌==◌, leb, List, [], ◌∷◌, find,
}
use cja.Common.Sql.{SqlError, database, str_is, Result, ok, err}
use cja.Llm.Durable.Status.{RunStatus, succeeded, cancelled, FailReason, turn_budget, protocol}
use cja.Llm.Durable.Tables.{MessageRow, Role, ErrorText, cancelled_by_request}
use cja.Llm.Durable.Db.{Snapshot, Ending, unstorable, finish, fail_unstorable}
use cja.Llm.Durable.Rig.{
  PromptError, prompt_cancelled, unknown_tool_call, provider, report, memory, other_prompt_error,
}
use cja.Llm.Durable.Site.{Site, statement}

-- An error report, without its text.
abbrev pub Report : Type 0
Report = Unit {0}

pub data StepOutcome : Type 0 where
  continue done retry : StepOutcome
  -- the inputs end within the step
  unfinished : StepOutcome

pub record AgentKind : Type 0 where
  pub name : String
  pub model : String
  pub max_turns : ℕ
  pub max_total_tokens : ℕ
  pub has_output_schema : Bool

-- `lease_takeover` is in microseconds.
pub record Durable : Type 0 where
  pub app_name : String
  pub kinds : List AgentKind
  pub lease_takeover : ℕ

-- `kind_named`
unfoldable pub kind_named : String → Durable → Option AgentKind
kind_named name d = find (λ k. str_is k.name name) d.kinds

-- `sanitize_prompt_error`
unfoldable pub sanitize_prompt_error : PromptError → FailReason × String
sanitize_prompt_error PromptError.max_turns = (turn_budget, "turn budget exhausted")
sanitize_prompt_error prompt_cancelled = (protocol, "run cancelled")
sanitize_prompt_error unknown_tool_call = (protocol, "model called an unknown or disallowed tool")
sanitize_prompt_error provider = (protocol, "provider rejected the turn")
sanitize_prompt_error report = (protocol, "structured effect failure")
sanitize_prompt_error memory = (protocol, "conversation memory failure")
sanitize_prompt_error other_prompt_error = (protocol, "run failed")

-- The errors of the transport that `is_retryable` tells apart, with their display.
pub data GatewayError : Type 0 where
  connect : String → GatewayError
  upstream : ℕ → String → GatewayError
  other_error : String → GatewayError

-- `is_retryable`
unfoldable pub is_retryable : GatewayError → Bool
is_retryable (connect _) = true
is_retryable (upstream status _) = status == 429 || leb 500 status
is_retryable (other_error _) = false

abbrev pub display : GatewayError → String
display (connect t) = t
display (upstream _ t) = t
display (other_error t) = t

abbrev pub number_from : ℕ → List (Role × Option String) → Option (List MessageRow)
number_from seq [] = some []
number_from seq ((role, none) ∷ rest) = none
number_from seq ((role, some body) ∷ rest) = elim (number_from (suc seq) rest) [
  | none ↦ none
  | some rows ↦ some (record { seq = seq; role = role; message = body } ∷ rows)
]

abbrev pub skip {ℓ} : {A : Type ℓ} → ℕ → List A → List A
skip zero xs = xs
skip (suc n) [] = []
skip (suc n) (x ∷ xs) = skip n xs

-- `project_rows`
unfoldable pub project_rows : ℕ → List (Role × Option String) → Option (List MessageRow)
project_rows written messages = number_from written (skip written messages)

-- What the environment decides of a guarded step: how many heartbeats are sent before it ends, and
-- how it ends.
pub data GuardEnd (A : Type 0) : Type 0 where
  completes : A → GuardEnd A
  shut_down never : GuardEnd A

pub record Guard (A : Type 0) : Type 0 where
  pub beats : ℕ
  pub ending : GuardEnd A

pub data Guarded (A : Type 0) : Type 0 where
  completed : A → Guarded A
  stop failed still_running : Guarded A

-- Whose attempt it is.
pub record Owner : Type 0 where
  pub run_id : ℕ
  pub me : ℕ

abbrev pub code_of : SqlError → String
code_of (database (some code)) = code
code_of _ = "unknown"

abbrev pub is_ok : {A : Type 0} → Result SqlError A × Site → Bool × Site
is_ok (ok _, s) = (true, s)
is_ok (err _, s) = (false, s)

-- `fail_unstorable` of the engine: `true` is `Ok`.
unfoldable pub store_failure : Owner → SqlError → Site → Bool × Site
store_failure o e s = is_ok (statement (fail_unstorable o.run_id o.me (code_of e)) s)

-- The end of a write that reported an error: an unstorable payload fails the run.
abbrev pub after_refusal : Owner → SqlError → Bool → Site → Bool × Site
after_refusal o e true s = store_failure o e s
after_refusal o e false s = (false, s)

abbrev pub after_finish : Owner → Result SqlError (Option (Unit {0})) × Site → Bool × Site
after_finish o (ok _, s) = (true, s)
after_finish o (err e, s) = after_refusal o e (unstorable e) s

unfoldable pub finish_with : Owner → Ending → Snapshot → List MessageRow → Site → Bool × Site
finish_with o e snap new s = after_finish o (statement (finish o.run_id o.me e snap new) s)

abbrev pub cancelled_ending : Ending
cancelled_ending = record {
  status = cancelled;
  fail_reason = none;
  output = none;
  error = some cancelled_by_request;
}

abbrev pub failed_ending : FailReason → ErrorText → Ending
failed_ending reason e = record {
  status = RunStatus.failed;
  fail_reason = some reason;
  output = none;
  error = some e;
}

abbrev pub succeeded_ending : String → Ending
succeeded_ending output = record {
  status = succeeded;
  fail_reason = none;
  output = some output;
  error = none;
}

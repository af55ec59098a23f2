-- ===== src/Llm/Durable/Start.antt =====
-- `start`, `answer` and `cancel` of crates/cja-llm/src/durable/mod.rs. The transaction of each is
-- one statement, which is rolled back if the code returns an error from inside it; the fresh ids of
-- the run and of its job are inputs.
pub mod Effects
use Prim.Native.String.{◌++◌ as ◌<>◌}
use cja.Common.{
  ℕ, String, Option, none, some, is_some, Bool, true, false, ◌==◌, not, List, [], ◌∷◌, ◌++◌,
  if◌then◌else◌,
}
use cja.Common.Sql.{SqlError, Result, ok, err, str_is}
use cja.Jobs.Tables.{JobRow}
use cja.Llm.Durable.Nuls.{Text, replace_nuls}
use cja.Llm.Durable.Status.{
  RunStatus, FailReason, ParseError, parse_status, parse_reason, status_text, reason_text, queued,
  running, waiting, cancelled,
}
use cja.Llm.Durable.Tables.{ErrorText, RunRow, RunDb, MessageRow, is_status, set_run}
use cja.Llm.Durable.Db.{
  CancelOutcome, cancel_now, requested, already_cancelled, terminal, answer_waiting,
  insert_messages, next_after, cancel_run,
}
use cja.Llm.Durable.Rig.{
  Rig, PromptError, AgentStep, call_model, call_tools, finished, ToolCall, ask, execute, malformed,
  unsupported, ToolAnswer, human_answer,
}
use cja.Llm.Durable.Site.{Site, statement}
use cja.Llm.Durable.Worker.{AgentKind, Durable, kind_named, project_rows}
use cja.Llm.Durable.Advance.{advance_job, enqueue_on_tx}

-- What `RunError::Corrupt` tells.
pub data Corrupt : Type 0 where
  run_state_failed_to_serialize no_pending_call_id bad_run_state not_executable : Corrupt
  not_waiting_on_tool_calls not_an_ask_call answer_rejected ask_not_open : Corrupt
  message_failed_to_serialize : Corrupt

pub data RunError : Type 0 where
  unknown_kind : String → RunError
  unsupported_kind : RunError
  duplicate_kind : String → RunError
  not_found : ℕ → RunError
  not_waiting : ℕ → RunStatus → RunError
  invalid_transition : ℕ → RunStatus → RunStatus → RunError
  corrupt : Corrupt → RunError
  storage : SqlError → RunError

pub record PendingAsk : Type 0 where
  pub call_id : String
  pub question : Text

-- `Durable::kind`
unfoldable pub kind : AgentKind → Durable → Result RunError Durable
kind k d =
    if is_some (kind_named k.name d)
    then err (duplicate_kind k.name)
    else ok (record d { kinds = d.kinds ++ (k ∷ []) })

-- The ids and the time that a call draws.
pub record Draw : Type 0 where
  pub run_id : ℕ
  pub job_id : ℕ
  pub created_at : ℕ

-- A transaction that returned an error is dropped; its COMMIT wakes the worker.
abbrev pub settled :
    {A : Type 0} → Result SqlError (Result RunError A) × Site → Result RunError A × Site
settled (err e, s) = (err (storage e), s)
settled (ok (err e), s) = (err e, s)
settled (ok (ok a), s) = (ok a, record s { wakes = ℕ.suc s.wakes })

-- `cancel`
abbrev pub cancel_result :
    ℕ → Result SqlError (Option CancelOutcome) × Site → Result RunError (Unit {0}) × Site
cancel_result run (err e, s) = (err (storage e), s)
cancel_result run (ok none, s) = (err (not_found run), s)
cancel_result run (ok (some cancel_now), s) = (ok tt, s)
cancel_result run (ok (some requested), s) = (ok tt, s)
cancel_result run (ok (some already_cancelled), s) = (ok tt, s)
cancel_result run (ok (some (terminal from)), s) = (err (invalid_transition run from cancelled), s)

unfoldable pub cancel : Durable → ℕ → Site → Result RunError (Unit {0}) × Site
cancel d run s = cancel_result run (statement (cancel_run run d.lease_takeover) s)

module _ (rig : Rig) where
  abbrev pub new_run : Durable → AgentKind → String → String → ℕ → RunRow
  new_run d k prompt state now = record {
    kind = k.name;
    status = queued;
    input = prompt;
    output = none;
    error = none;
    fail_reason = none;
    model = k.model;
    app = d.app_name;
    turns = 0;
    input_tokens = 0;
    output_tokens = 0;
    run_state = state;
    pending_call_id = none;
    pending_question = none;
    cancel_requested = false;
    locked_by = none;
    locked_at = none;
    created_at = now;
    started_at = none;
    finished_at = none;
  }

  -- INSERT INTO agent_runs and the job; a second row with an id is a unique violation.
  unfoldable pub insert_run : ℕ → RunRow → JobRow → RunDb → Result RunError ℕ × RunDb
  insert_run id r j d =
      if is_some (d.runs id)
      then (err (storage (SqlError.database (some "23505"))), d)
      else (ok id, enqueue_on_tx j (set_run id r d))

  abbrev pub start_run :
      Durable → AgentKind → String → Draw → Option String → Site → Result RunError ℕ × Site
  start_run d k prompt w none s = (err (corrupt run_state_failed_to_serialize), s)
  start_run d k prompt w (some state) s = settled (
      statement
        (λ now.
          insert_run w.run_id (new_run d k prompt state now)
            (advance_job rig.payload w.run_id ("agent-run:" <> k.name) w.created_at w.job_id))
        s)

  -- `from_spec` makes the fresh run of a kind from the prompt.
  abbrev pub start_kind :
      (AgentKind → String → rig.Run)
      → Durable
      → String
      → String
      → Draw
      → Site
      → Option AgentKind
      → Result RunError ℕ × Site
  start_kind from_spec d kind prompt w s none = (err (unknown_kind kind), s)
  start_kind from_spec d kind prompt w s (some k) =
      if k.has_output_schema
      then (err unsupported_kind, s)
      else start_run d k prompt w (rig.to_value (from_spec k prompt)) s

  -- `start`
  unfoldable pub start :
      (AgentKind → String → rig.Run)
      → Durable
      → String
      → String
      → Draw
      → Site
      → Result RunError ℕ × Site
  start from_spec d kind prompt w s = start_kind from_spec d kind prompt w s (kind_named kind d)

  abbrev pub answered_run : Result PromptError (Unit {0}) × rig.Run → Result RunError rig.Run
  answered_run (err _, run) = err (corrupt answer_rejected)
  answered_run (ok _, run) = ok run

  -- The loop over the open calls.
  unfoldable pub resolve_ask : String → Text → List ToolCall → rig.Run → Result RunError rig.Run
  resolve_ask call_id answer [] run = err (corrupt ask_not_open)
  resolve_ask call_id answer (ask id question ∷ rest) run =
      let others = resolve_ask call_id answer rest run in
      if str_is id call_id then answered_run (rig.answer run id (human_answer answer)) else others
  resolve_ask call_id answer (execute id ∷ rest) run =
      let others = resolve_ask call_id answer rest run in
      if str_is id call_id then err (corrupt not_an_ask_call) else others
  resolve_ask call_id answer (malformed id ∷ rest) run = resolve_ask call_id answer rest run
  resolve_ask call_id answer (unsupported ∷ rest) run = resolve_ask call_id answer rest run

  abbrev pub resolve_step :
      String → Text → Result PromptError AgentStep × rig.Run → Result RunError rig.Run
  resolve_step call_id answer (err _, run) = err (corrupt not_executable)
  resolve_step call_id answer (ok call_model, run) = err (corrupt not_waiting_on_tool_calls)
  resolve_step call_id answer (ok (finished _), run) = err (corrupt not_waiting_on_tool_calls)
  resolve_step call_id answer (ok (call_tools calls), run) = resolve_ask call_id answer calls run

  abbrev pub resolve_state : String → Text → Option rig.Run → Result RunError rig.Run
  resolve_state call_id answer none = err (corrupt bad_run_state)
  resolve_state call_id answer (some run) = resolve_step call_id answer (rig.next_step run)

  -- The run as the row's pending ask is answered, or what is wrong with the row.
  abbrev pub resolve_pending : Text → RunRow → Option String → Result RunError rig.Run
  resolve_pending answer r none = err (corrupt no_pending_call_id)
  resolve_pending answer r (some call_id) =
      resolve_state call_id (replace_nuls answer) (rig.from_value r.run_state)

  unfoldable pub resolve_row : ℕ → Text → RunRow → Result RunError rig.Run
  resolve_row id answer r =
      if not (is_status r.status waiting)
      then err (not_waiting id r.status)
      else resolve_pending answer r r.pending_call_id

  abbrev pub with_job :
      ℕ
      → List MessageRow
      → JobRow
      → RunDb
      → Option (Unit {0}) × RunDb
      → Result RunError (Unit {0}) × RunDb
  with_job id new j d (none, d') = (err (not_waiting id running), d)
  with_job id new j d (some _, d') = (ok tt, enqueue_on_tx j (insert_messages id new d'))

  abbrev pub write_answer :
      ℕ
      → JobRow
      → RunDb
      → Option String
      → Option (List MessageRow)
      → Result RunError (Unit {0}) × RunDb
  write_answer id j d none rows = (err (corrupt run_state_failed_to_serialize), d)
  write_answer id j d (some state) none = (err (corrupt message_failed_to_serialize), d)
  write_answer id j d (some state) (some new) = with_job id new j d (answer_waiting id state d)

  abbrev pub answer_resolved :
      ℕ → JobRow → RunDb → Result RunError rig.Run → Result RunError (Unit {0}) × RunDb
  answer_resolved id j d (err e) = (err e, d)
  answer_resolved id j d (ok run) =
      write_answer id j d (rig.to_value run)
        (project_rows (next_after 0 (d.messages id)) (rig.messages run))

  abbrev pub answer_found :
      ℕ → Text → (String → JobRow) → RunDb → Option RunRow → Result RunError (Unit {0}) × RunDb
  answer_found id text job d none = (err (not_found id), d)
  answer_found id text job d (some r) =
      answer_resolved id (job ("agent-run:" <> r.kind)) d (resolve_row id text r)

  -- The transaction of `answer`, with the job for a context.
  unfoldable pub answer_run :
      ℕ → Text → (String → JobRow) → RunDb → Result RunError (Unit {0}) × RunDb
  answer_run id text job d = answer_found id text job d (d.runs id)

  -- `answer`
  unfoldable pub answer : Text → Draw → Site → Result RunError (Unit {0}) × Site
  answer text w s = settled (
      statement
        (λ now.
          answer_run w.run_id text
            (λ context. advance_job rig.payload w.run_id context w.created_at w.job_id))
        s)

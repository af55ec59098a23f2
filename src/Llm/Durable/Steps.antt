-- ===== src/Llm/Durable/Steps.antt =====
-- The steps of an attempt, over the agent library: `persist`, `with_lease_guards`, `ask_step`,
-- `call_tools_step`, `call_model_step` and `done_step` of crates/cja-llm/src/durable/worker.rs.
use Prim.Native.String.{◌++◌ as ◌<>◌}
use cja.Common.{
  ℕ, zero, suc, ◌+◌, ◌%◌, min, String, Option, none, some, Bool, true, false, ◌||◌, ltb, List, [],
  ◌∷◌, if◌then◌else◌,
}
use cja.Common.Sql.{SqlError, Result, ok, err}
use cja.Llm.Durable.Nuls.{Text, replace_nuls, ToolOutput, sanitize_tool_result}
use cja.Llm.Durable.Status.{FailReason, token_budget, gateway, protocol}
use cja.Llm.Durable.Tables.{MessageRow, terminal_message}
use cja.Llm.Durable.Db.{
  Snapshot, Ending, unstorable, release_lease, heartbeat, persist_step, set_waiting,
  next_message_seq,
}
use cja.Llm.Durable.Rig.{
  Rig, PromptError, ToolCall, ask, execute, malformed, unsupported, ToolAnswer, tool_result,
  invalid_args, corrective_feedback,
}
use cja.Llm.Durable.Site.{Site, statement}
use cja.Llm.Durable.Worker.{
  StepOutcome, continue, done, retry, unfinished, sanitize_prompt_error, GatewayError, is_retryable,
  display, project_rows, GuardEnd, completes, shut_down, never, Guard, Guarded, completed, stop,
  failed, still_running, Owner, after_refusal, finish_with, cancelled_ending, failed_ending,
  succeeded_ending,
}

module _ (rig : Rig) where
  -- The run in memory, whether the attempt has made progress, and the database.
  pub record State : Type 0 where
    pub run : rig.Run
    pub progress : Bool
    pub site : Site

  abbrev pub at_site : State → Site → State
  at_site s x = record s { site = x }

  -- A step, and the next if it goes on.
  abbrev pub and_then : StepOutcome × State → (State → StepOutcome × State) → StepOutcome × State
  and_then (continue, s) f = f s
  and_then (done, s) f = (done, s)
  and_then (retry, s) f = (retry, s)
  and_then (unfinished, s) f = (unfinished, s)

  abbrev pub done_or_retry : Bool → StepOutcome
  done_or_retry true = done
  done_or_retry false = retry

  abbrev pub snapshot_with : rig.Run → Option String → Option Snapshot
  snapshot_with run none = none
  snapshot_with run (some state) = some (record {
    run_state = state;
    turns = min (rig.turn run) 2147483647;
    input_tokens = min (rig.input_tokens run) 9223372036854775807;
    output_tokens = min (rig.output_tokens run) 9223372036854775807;
  })

  -- `RunSnapshot::of`
  unfoldable pub snapshot_of : rig.Run → Option Snapshot
  snapshot_of run = snapshot_with run (rig.to_value run)

  abbrev pub rows_or_error : rig.Run → Result SqlError ℕ × Site → Option (List MessageRow) × Site
  rows_or_error run (err e, s) = (none, s)
  rows_or_error run (ok written, s) = (project_rows written (rig.messages run), s)

  -- `project_messages`
  unfoldable pub project_messages : Owner → rig.Run → Site → Option (List MessageRow) × Site
  project_messages o run s = rows_or_error run (statement (next_message_seq o.run_id) s)

  abbrev pub finish_projected :
      Owner → Ending → Snapshot → Option (List MessageRow) × Site → Bool × Site
  finish_projected o e snap (none, s) = (false, s)
  finish_projected o e snap (some new, s) = finish_with o e snap new s

  -- `finish_run` with the run's messages: `true` is `Ok`.
  unfoldable pub finish_run : Owner → Ending → Snapshot → rig.Run → Site → Bool × Site
  finish_run o e snap run s = finish_projected o e snap (project_messages o run s)

  abbrev pub ended_by : State → Bool × Site → StepOutcome × State
  ended_by s (wrote, x) = (done_or_retry wrote, at_site s x)

  abbrev pub end_with : Owner → Ending → State → Option Snapshot → StepOutcome × State
  end_with o e s none = (retry, s)
  end_with o e s (some snap) = ended_by s (finish_run o e snap s.run s.site)

  -- `fail_terminal`
  unfoldable pub fail_terminal : Owner → FailReason → String → State → StepOutcome × State
  fail_terminal o reason message s =
      end_with o (failed_ending reason (terminal_message message)) s (snapshot_of s.run)

  abbrev pub fail_prompt : Owner → PromptError → State → StepOutcome × State
  fail_prompt o e s =
      let (reason, message) = sanitize_prompt_error e in fail_terminal o reason message s

  abbrev pub progressed : Bool → State → State
  progressed advanced s = record s { progress = s.progress || advanced }

  abbrev pub after_persist :
      Owner → Bool → Snapshot → State → Result SqlError (Option Bool) × Site → StepOutcome × State
  after_persist o advanced snap s (err e, x) = ended_by s (after_refusal o e (unstorable e) x)
  after_persist o advanced snap s (ok none, x) = (done, at_site s x)
  after_persist o advanced snap s (ok (some false), x) =
      (continue, progressed advanced (at_site s x))
  after_persist o advanced snap s (ok (some true), x) =
      let s' = progressed advanced (at_site s x) in
      ended_by s' (finish_run o cancelled_ending snap s'.run s'.site)

  abbrev pub persist_rows :
      Owner → Bool → Snapshot → State → Option (List MessageRow) × Site → StepOutcome × State
  persist_rows o advanced snap s (none, x) = (retry, at_site s x)
  persist_rows o advanced snap s (some new, x) =
      after_persist o advanced snap s (statement (persist_step o.run_id o.me snap new) x)

  abbrev pub persist_snapshot : Owner → Bool → State → Option Snapshot → StepOutcome × State
  persist_snapshot o advanced s none = (retry, s)
  persist_snapshot o advanced s (some snap) =
      persist_rows o advanced snap s (project_messages o s.run s.site)

  -- `persist`
  unfoldable pub persist : Owner → Bool → State → StepOutcome × State
  persist o advanced s = persist_snapshot o advanced s (snapshot_of s.run)

  -- `done_step`
  unfoldable pub done_step : Owner → String → State → StepOutcome × State
  done_step o output s =
      and_then (persist o false s)
        λ s'. end_with o (succeeded_ending output) s' (snapshot_of s'.run)

  module _ {A : Type 0} where
    abbrev pub stopped_by : Bool × Site → Guarded A × Site
    stopped_by (true, x) = (stop, x)
    stopped_by (false, x) = (failed, x)

    abbrev pub stop_cancelled : Owner → rig.Run → Site → Option Snapshot → Guarded A × Site
    stop_cancelled o run x none = (failed, x)
    stop_cancelled o run x (some snap) = stopped_by (finish_run o cancelled_ending snap run x)

    -- What a heartbeat that was answered decides; `more` is the rest of the guard.
    abbrev pub after_heartbeat :
        Owner
        → rig.Run
        → (Site → Guarded A × Site)
        → Result SqlError (Option Bool) × Site
        → Guarded A × Site
    after_heartbeat o run more (err e, x) = (failed, x)
    after_heartbeat o run more (ok none, x) = (stop, x)
    after_heartbeat o run more (ok (some true), x) = stop_cancelled o run x (snapshot_of run)
    after_heartbeat o run more (ok (some false), x) = more x

    abbrev pub guard_end : Owner → GuardEnd A → Site → Guarded A × Site
    guard_end o (completes a) x = (completed a, x)
    guard_end o shut_down x =
        let (_, x') = statement (release_lease o.run_id o.me) x in (failed, x')
    guard_end o never x = (still_running, x)

    unfoldable pub guard_loop : Owner → rig.Run → GuardEnd A → ℕ → Site → Guarded A × Site
    guard_loop o run end zero x = guard_end o end x
    guard_loop o run end (suc n) x =
        after_heartbeat o run (λ y. guard_loop o run end n y)
          (statement (heartbeat o.run_id o.me) x)

    -- `with_lease_guards`
    abbrev pub with_lease_guards : Owner → rig.Run → Guard A → Site → Guarded A × Site
    with_lease_guards o run g x = guard_loop o run g.ending g.beats x

    -- What a guarded step comes to, and what follows its result.
    abbrev pub guarded_step :
        State → (A → State → StepOutcome × State) → Guarded A × Site → StepOutcome × State
    guarded_step s f (completed a, x) = f a (at_site s x)
    guarded_step s f (stop, x) = (done, at_site s x)
    guarded_step s f (failed, x) = (retry, at_site s x)
    guarded_step s f (still_running, x) = (unfinished, at_site s x)

  -- An answer to the run, which is then persisted.
  abbrev pub persist_answered :
      Owner → State → Result PromptError (Unit {0}) × rig.Run → StepOutcome × State
  persist_answered o s (err e, run) = fail_prompt o e (record s { run = run })
  persist_answered o s (ok _, run) = persist o true (record s { run = run })

  unfoldable pub answer_call : Owner → String → ToolAnswer → State → StepOutcome × State
  answer_call o id a s = persist_answered o s (rig.answer s.run id a)

  abbrev pub after_suspension :
      Owner → State → Result SqlError (Option Bool) × Site → StepOutcome × State
  after_suspension o s (err e, x) = ended_by s (after_refusal o e (unstorable e) x)
  after_suspension o s (ok _, x) = (done, at_site s x)

  abbrev pub suspend_rows :
      Owner
      → String
      → Text
      → Snapshot
      → State
      → Option (List MessageRow) × Site
      → StepOutcome × State
  suspend_rows o id question snap s (none, x) = (retry, at_site s x)
  suspend_rows o id question snap s (some new, x) =
      after_suspension o s
        (statement (set_waiting o.run_id o.me snap.run_state id (replace_nuls question) new) x)

  abbrev pub suspend : Owner → String → Text → State → Option Snapshot → StepOutcome × State
  suspend o id question s none = (retry, s)
  suspend o id question s (some snap) =
      suspend_rows o id question snap s (project_messages o s.run s.site)

  -- `ask_step`
  unfoldable pub ask_step : Owner → String → Option Text → State → StepOutcome × State
  ask_step o id none s = answer_call o id invalid_args s
  ask_step o id (some question) s = suspend o id question s (snapshot_of s.run)

  -- `call_tools_step`: an ask ends the loop; `tools` guards the execution of each other call.
  unfoldable pub call_tools_step :
      Owner → (String → Guard ToolOutput) → List ToolCall → State → StepOutcome × State
  call_tools_step o tools [] s = (continue, s)
  call_tools_step o tools (ask id question ∷ rest) s = ask_step o id question s
  call_tools_step o tools (execute id ∷ rest) s =
      and_then
        (guarded_step s
          (λ output s'. answer_call o id (tool_result (sanitize_tool_result output)) s')
          (with_lease_guards o s.run (tools id) s.site))
        λ s'. call_tools_step o tools rest s'
  call_tools_step o tools (malformed id ∷ rest) s =
      and_then (answer_call o id corrective_feedback s) λ s'. call_tools_step o tools rest s'
  call_tools_step o tools (unsupported ∷ rest) s = (retry, s)

  -- `total_tokens`, on a u64
  abbrev pub total_tokens : rig.Run → ℕ
  total_tokens run = (rig.input_tokens run + rig.output_tokens run) % 18446744073709551616

  abbrev pub check_budget : Owner → ℕ → State → StepOutcome × State
  check_budget o max_total_tokens s =
      if ltb max_total_tokens (total_tokens s.run)
      then fail_terminal o token_budget "token budget exceeded" s
      else (continue, s)

  -- The invalid tool calls of a turn are resolved one by one; `left` bounds how many there are.
  unfoldable pub resolve_turn :
      Owner
      → ℕ
      → (State → StepOutcome × State)
      → State
      → Result PromptError Bool × rig.Run
      → StepOutcome × State
  resolve_turn o left k s (err e, run) = fail_prompt o e (record s { run = run })
  resolve_turn o left k s (ok false, run) = k (record s { run = run })
  resolve_turn o zero k s (ok true, run) = (unfinished, record s { run = run })
  resolve_turn o (suc left) k s (ok true, run) =
      resolve_turn o left k s (rig.resolve_unhandled_invalid_tool_call run)

  abbrev pub turn_committed : Owner → ℕ → State → StepOutcome × State
  turn_committed o max_total_tokens s =
      and_then (persist o true s) (check_budget o max_total_tokens)

  -- What the model returned.
  abbrev pub after_model : Owner → ℕ → ℕ → Result GatewayError String → State → StepOutcome × State
  after_model o max_total_tokens left (err e) s =
      if is_retryable e then (retry, s) else fail_terminal o gateway (display e) s
  after_model o max_total_tokens left (ok response) s =
      resolve_turn o left (turn_committed o max_total_tokens) s (rig.model_response s.run response)

  abbrev pub call_prepared :
      Owner → ℕ → ℕ → Guard (Result GatewayError String) → State → StepOutcome × State
  call_prepared o max_total_tokens left model s = and_then (persist o false s) λ s'.
      guarded_step s' (after_model o max_total_tokens left)
        (with_lease_guards o s'.run model s'.site)

  abbrev pub prepared_step :
      Owner
      → ℕ
      → ℕ
      → Guard (Result GatewayError String)
      → State
      → Result String rig.Run
      → StepOutcome × State
  prepared_step o max_total_tokens left model s (err message) =
      fail_terminal o protocol ("request preparation failed: " <> message) s
  prepared_step o max_total_tokens left model s (ok run) =
      call_prepared o max_total_tokens left model (record s { run = run })

  -- `call_model_step`
  unfoldable pub call_model_step :
      Owner → ℕ → ℕ → Guard (Result GatewayError String) → State → StepOutcome × State
  call_model_step o max_total_tokens left model s =
      prepared_step o max_total_tokens left model s (rig.prepare s.run)

-- ===== src/Llm/Durable/Advance/Turns.antt =====
-- What the steps that call tools or the model (crates/cja-llm/src/durable/worker.rs) leave: the run
-- held, or covered when the step is done.
use cja.Common.{
  ℕ, zero, suc, String, Option, none, some, Bool, true, false, ltb, List, [], ◌∷◌, Bool-cases, inl,
  inr,
}
use cja.Common.Sql.{SqlError, Result, ok, err}
use cja.Llm.Durable.Nuls.{Text, replace_nuls, ToolOutput, sanitize_tool_result}
use cja.Llm.Durable.Status.{token_budget, gateway, protocol}
use cja.Llm.Durable.Tables.{MessageRow}
use cja.Llm.Durable.Db.{Snapshot, unstorable}
use cja.Llm.Durable.Rig.{
  Rig, PromptError, ToolCall, ask, execute, malformed, unsupported, ToolAnswer, tool_result,
  invalid_args, corrective_feedback,
}
use cja.Llm.Durable.Site.{Site}
use cja.Llm.Durable.Worker.{StepOutcome, GatewayError, is_retryable, Guard, Owner}
use cja.Llm.Durable.Steps.{
  State, persist_answered, answer_call, after_suspension, suspend_rows, suspend, ask_step,
  call_tools_step, check_budget, resolve_turn, turn_committed, after_model, prepared_step,
  call_model_step, total_tokens,
}
use cja.Llm.Durable.Advance.Cover.{set_waiting-Ended}
use cja.Llm.Durable.Advance.Held.{EndedEnd, statement-EndedEnd, after_refusal-WriteEnd}
use cja.Llm.Durable.Advance.Ends.{
  Kept, StepEnd, and_then-StepEnd, ended_by-StepEnd, fail_terminal-StepEnd, fail_prompt-StepEnd,
  persist-StepEnd, guarded_step-StepEnd, guard_loop-GuardedEnd, project_messages-Kept,
}

module _ (rig : Rig) (o : Owner) (own_job : ℕ) where
  persist_answered-StepEnd :
      (s : State rig) (r : Result PromptError (Unit {0}) × rig.Run)
      → Kept rig o own_job s.site
      → StepEnd rig o own_job (persist_answered rig o s r)
  persist_answered-StepEnd s (err e, run) g =
      fail_prompt-StepEnd rig o own_job e (record s { run = run }) g
  persist_answered-StepEnd s (ok a, run) g =
      persist-StepEnd rig o own_job true (record s { run = run }) g

  answer_call-StepEnd :
      (id : String) (a : ToolAnswer) (s : State rig)
      → Kept rig o own_job s.site
      → StepEnd rig o own_job (answer_call rig o id a s)
  unfolding answer_call
  answer_call-StepEnd id a s g = persist_answered-StepEnd s _ g

  after_suspension-StepEnd :
      (s : State rig) (r : Result SqlError (Option Bool) × Site)
      → EndedEnd rig.payload o own_job r
      → StepEnd rig o own_job (after_suspension rig o s r)
  after_suspension-StepEnd s (err e, x) h =
      ended_by-StepEnd rig o own_job s _
        (after_refusal-WriteEnd rig.payload o own_job e (unstorable e) x h)
  after_suspension-StepEnd s (ok a, x) h = h

  suspend_rows-StepEnd :
      (id : String) (question : Text) (snap : Snapshot) (s : State rig)
      (r : Option (List MessageRow) × Site)
      → Kept rig o own_job r.1
      → StepEnd rig o own_job (suspend_rows rig o id question snap s r)
  suspend_rows-StepEnd id question snap s (none, x) h = tt
  suspend_rows-StepEnd id question snap s (some new, x) h = after_suspension-StepEnd s _ (
      statement-EndedEnd rig.payload o own_job _ x h (λ now d k.
        set_waiting-Ended rig.payload o own_job snap.run_state id (replace_nuls question) new now d
          k))

  suspend-StepEnd :
      (id : String) (question : Text) (s : State rig) (snap : Option Snapshot)
      → Kept rig o own_job s.site
      → StepEnd rig o own_job (suspend rig o id question s snap)
  suspend-StepEnd id question s none g = tt
  suspend-StepEnd id question s (some snap) g =
      suspend_rows-StepEnd id question snap s _ (project_messages-Kept rig o own_job s.run s.site g)

  ask_step-StepEnd :
      (id : String) (question : Option Text) (s : State rig)
      → Kept rig o own_job s.site
      → StepEnd rig o own_job (ask_step rig o id question s)
  unfolding ask_step
  ask_step-StepEnd id none s g = answer_call-StepEnd id invalid_args s g
  ask_step-StepEnd id (some question) s g = suspend-StepEnd id question s _ g

  pub call_tools_step-StepEnd :
      (tools : String → Guard ToolOutput) (calls : List ToolCall) (s : State rig)
      → Kept rig o own_job s.site
      → StepEnd rig o own_job (call_tools_step rig o tools calls s)
  unfolding call_tools_step
  call_tools_step-StepEnd tools [] s g = g
  call_tools_step-StepEnd tools (ask id question ∷ rest) s g = ask_step-StepEnd id question s g
  call_tools_step-StepEnd tools (execute id ∷ rest) s g =
      and_then-StepEnd rig o own_job _ _
        (guarded_step-StepEnd rig o own_job ToolOutput s _ _
          (guard_loop-GuardedEnd rig o own_job ToolOutput s.run (tools id).ending (tools id).beats
            s.site g)
          (λ output s' h. answer_call-StepEnd id (tool_result (sanitize_tool_result output)) s' h))
        (λ s' h. call_tools_step-StepEnd tools rest s' h)
  call_tools_step-StepEnd tools (malformed id ∷ rest) s g =
      and_then-StepEnd rig o own_job _ _ (answer_call-StepEnd id corrective_feedback s g)
        (λ s' h. call_tools_step-StepEnd tools rest s' h)
  call_tools_step-StepEnd tools (unsupported ∷ rest) s g = tt

  check_budget-StepEnd :
      (max_total_tokens : ℕ) (s : State rig)
      → Kept rig o own_job s.site
      → StepEnd rig o own_job (check_budget rig o max_total_tokens s)
  check_budget-StepEnd max_total_tokens s g =
      elim (Bool-cases (ltb max_total_tokens (total_tokens rig s.run))) [
        | inl e ↦ rw e (fail_terminal-StepEnd rig o own_job token_budget _ s g)
        | inr e ↦ rw e g
      ]

  resolve_turn-StepEnd :
      (left : ℕ) (k : State rig → StepOutcome × State rig) (s : State rig)
      (r : Result PromptError Bool × rig.Run)
      → Kept rig o own_job s.site
      → ((s' : State rig) → Kept rig o own_job s'.site → StepEnd rig o own_job (k s'))
      → StepEnd rig o own_job (resolve_turn rig o left k s r)
  unfolding resolve_turn
  resolve_turn-StepEnd left k s (err e, run) g h =
      fail_prompt-StepEnd rig o own_job e (record s { run = run }) g
  resolve_turn-StepEnd left k s (ok false, run) g h = h (record s { run = run }) g
  resolve_turn-StepEnd zero k s (ok true, run) g h = tt
  resolve_turn-StepEnd (suc left) k s (ok true, run) g h = resolve_turn-StepEnd left k s _ g h

  turn_committed-StepEnd :
      (max_total_tokens : ℕ) (s : State rig)
      → Kept rig o own_job s.site
      → StepEnd rig o own_job (turn_committed rig o max_total_tokens s)
  turn_committed-StepEnd max_total_tokens s g =
      and_then-StepEnd rig o own_job _ _ (persist-StepEnd rig o own_job true s g)
        (λ s' h. check_budget-StepEnd max_total_tokens s' h)

  after_model-StepEnd :
      (max_total_tokens left : ℕ) (r : Result GatewayError String) (s : State rig)
      → Kept rig o own_job s.site
      → StepEnd rig o own_job (after_model rig o max_total_tokens left r s)
  after_model-StepEnd max_total_tokens left (err e) s g = elim (Bool-cases (is_retryable e)) [
    | inl t ↦ rw t tt
    | inr f ↦ rw f (fail_terminal-StepEnd rig o own_job gateway _ s g)
  ]
  after_model-StepEnd max_total_tokens left (ok response) s g =
      resolve_turn-StepEnd left _ s _ g (λ s' h. turn_committed-StepEnd max_total_tokens s' h)

  prepared_step-StepEnd :
      (max_total_tokens left : ℕ) (model : Guard (Result GatewayError String)) (s : State rig)
      (r : Result String rig.Run)
      → Kept rig o own_job s.site
      → StepEnd rig o own_job (prepared_step rig o max_total_tokens left model s r)
  prepared_step-StepEnd max_total_tokens left model s (err message) g =
      fail_terminal-StepEnd rig o own_job protocol _ s g
  prepared_step-StepEnd max_total_tokens left model s (ok run) g =
      and_then-StepEnd rig o own_job _ _
        (persist-StepEnd rig o own_job false (record s { run = run }) g)
        (λ s' h.
          guarded_step-StepEnd rig o own_job _ s' _ _
            (guard_loop-GuardedEnd rig o own_job _ s'.run model.ending model.beats s'.site h)
            (λ r s'' k. after_model-StepEnd max_total_tokens left r s'' k))

  pub call_model_step-StepEnd :
      (max_total_tokens left : ℕ) (model : Guard (Result GatewayError String)) (s : State rig)
      → Kept rig o own_job s.site
      → StepEnd rig o own_job (call_model_step rig o max_total_tokens left model s)
  unfolding call_model_step
  call_model_step-StepEnd max_total_tokens left model s g =
      prepared_step-StepEnd max_total_tokens left model s _ g

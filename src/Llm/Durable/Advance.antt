-- ===== src/Llm/Durable/Advance.antt =====
-- `claim_and_validate`, `advance_run`, `retry_or_requeue`, `requeue_with_fresh_job` and
-- `fail_retryable` of crates/cja-llm/src/durable/worker.rs, and `enqueue_on_tx` of mod.rs.
pub mod Cover
pub mod Held
pub mod Ends
pub mod Turns
pub mod Claimed
pub mod Orphan
use cja.Common.{
  ℕ, zero, suc, String, Option, none, some, Bool, true, false, ◌&&◌, List, [], ◌∷◌, if◌then◌else◌,
}
use cja.Common.Sql.{SqlError, Result, ok, err}
use cja.Jobs.Tables.{JobRow, Tables}
use cja.Jobs.Enqueue.{new_row}
use cja.Llm.Durable.Nuls.{ToolOutput}
use cja.Llm.Durable.Status.{RunStatus, running, unknown_kind, corrupt_state}
use cja.Llm.Durable.Tables.{
  RunDb, ErrorText, unknown_agent_kind, run_state_failed_to_deserialize, is_status,
}
use cja.Llm.Durable.Db.{ClaimedRun, Snapshot, Ending, try_claim, current_status, release_lease}
use cja.Llm.Durable.Rig.{Rig, PromptError, AgentStep, call_model, call_tools, finished}
use cja.Llm.Durable.Site.{Site, statement}
use cja.Llm.Durable.Worker.{
  StepOutcome, continue, done, retry, unfinished, AgentKind, Durable, kind_named, GatewayError,
  Guard, Owner, finish_with, cancelled_ending, failed_ending,
}
use cja.Llm.Durable.Steps.{State, at_site, fail_prompt, done_step, call_model_step, call_tools_step}

abbrev pub advance_job : (ℕ → String) → ℕ → String → ℕ → ℕ → JobRow
advance_job payload run_id context created_at job_id =
    new_row "AdvanceRunJob" (payload run_id) context none created_at job_id

-- `enqueue_on_tx`
abbrev pub enqueue_on_tx : JobRow → RunDb → RunDb
enqueue_on_tx j d = record d { queue = record d.queue { jobs = j ∷ d.queue.jobs } }

abbrev pub requeue : Owner → JobRow → ℕ → RunDb → Unit {0} × RunDb
requeue o j now d = let (_, d') = release_lease o.run_id o.me now d in (tt, enqueue_on_tx j d')

abbrev pub woken : Result SqlError (Unit {0}) × Site → Bool × Site
woken (ok _, s) = (true, record s { wakes = suc s.wakes })
woken (err _, s) = (false, s)

-- `requeue_with_fresh_job`, one transaction
unfoldable pub requeue_with_fresh_job : Owner → JobRow → Site → Bool × Site
requeue_with_fresh_job o j s = woken (statement (requeue o j) s)

-- What the job returns: `Ok`, `Err`, or nothing yet.
pub data JobEnd : Type 0 where
  returns_ok returns_err runs_on : JobEnd

-- `fail_retryable`
unfoldable pub fail_retryable : Owner → Site → JobEnd × Site
fail_retryable o s = let (_, s') = statement (release_lease o.run_id o.me) s in (returns_err, s')

abbrev pub or_fail : Owner → Bool × Site → JobEnd × Site
or_fail o (true, s) = (returns_ok, s)
or_fail o (false, s) = fail_retryable o s

-- `retry_or_requeue`, with the fresh job's row
unfoldable pub retry_or_requeue : Owner → JobRow → Bool → Site → JobEnd × Site
retry_or_requeue o j true s = or_fail o (requeue_with_fresh_job o j s)
retry_or_requeue o j false s = fail_retryable o s

abbrev pub row_snapshot : ClaimedRun → Snapshot
row_snapshot r = record {
  run_state = r.run_state;
  turns = r.turns;
  input_tokens = r.input_tokens;
  output_tokens = r.output_tokens;
}

-- What the environment decides in one round of `advance_run`.
pub record Round : Type 0 where
  pub shutdown : Bool
  pub model : Guard (Result GatewayError String)
  pub tools : String → Guard ToolOutput
  pub resolutions : ℕ

module _ (rig : Rig) where
  -- `Claim`; an error of the claim or of a terminal write in it is `claim_failed`.
  pub data Claim : Type 0 where
    nothing : Bool → Claim
    ready : ClaimedRun → rig.Run → AgentKind → Claim
    claim_failed : Claim

  abbrev pub ended_claim : Bool × Site → Claim × Site
  ended_claim (true, s) = (nothing false, s)
  ended_claim (false, s) = (claim_failed, s)

  -- A terminal write that advances nothing.
  abbrev pub end_claimed : Owner → ClaimedRun → Ending → Site → Claim × Site
  end_claimed o r e s = ended_claim (finish_with o e (row_snapshot r) [] s)

  abbrev pub check_state : Owner → ClaimedRun → AgentKind → Site → Option rig.Run → Claim × Site
  check_state o r k s none =
      end_claimed o r (failed_ending corrupt_state run_state_failed_to_deserialize) s
  check_state o r k s (some run) = (ready r run k, s)

  abbrev pub check_kind : Owner → ClaimedRun → Site → Option AgentKind → Claim × Site
  check_kind o r s none = end_claimed o r (failed_ending unknown_kind (unknown_agent_kind r.kind)) s
  check_kind o r s (some k) = check_state o r k s (rig.from_value r.run_state)

  abbrev pub check_cancel : Durable → Owner → ClaimedRun → Site → Bool → Claim × Site
  check_cancel d o r s true = end_claimed o r cancelled_ending s
  check_cancel d o r s false = check_kind o r s (kind_named r.kind d)

  abbrev pub is_running : Option RunStatus → Bool
  is_running none = false
  is_running (some status) = is_status status running

  abbrev pub leased_by_other : Result SqlError (Option RunStatus) × Site → Claim × Site
  leased_by_other (err e, s) = (claim_failed, s)
  leased_by_other (ok status, s) = (nothing (is_running status), s)

  abbrev pub after_claim :
      Durable → Owner → Result SqlError (Option ClaimedRun) × Site → Claim × Site
  after_claim d o (err e, s) = (claim_failed, s)
  after_claim d o (ok none, s) = leased_by_other (statement (current_status o.run_id) s)
  after_claim d o (ok (some r), s) = check_cancel d o r s r.cancel_requested

  -- `claim_and_validate`
  unfoldable pub claim_and_validate : Durable → Owner → Site → Claim × Site
  claim_and_validate d o s =
      after_claim d o (statement (try_claim o.run_id o.me d.lease_takeover) s)

  abbrev pub take_step :
      Owner
      → AgentKind
      → Round
      → Result PromptError AgentStep × rig.Run
      → State rig
      → StepOutcome × State rig
  take_step o k p (err e, run) s = fail_prompt rig o e (record s { run = run })
  take_step o k p (ok call_model, run) s =
      call_model_step rig o k.max_total_tokens p.resolutions p.model (record s { run = run })
  take_step o k p (ok (call_tools calls), run) s =
      call_tools_step rig o p.tools calls (record s { run = run })
  take_step o k p (ok (finished output), run) s = done_step rig o output (record s { run = run })

  -- The error of a run's own step releases the lease without a fresh job.
  abbrev pub after_step :
      Owner → JobRow → Bool → (State rig → JobEnd × Site) → StepOutcome × State rig → JobEnd × Site
  after_step o j prompt_failed more (continue, s) = more s
  after_step o j prompt_failed more (done, s) = (returns_ok, s.site)
  after_step o j true more (retry, s) = fail_retryable o s.site
  after_step o j false more (retry, s) = retry_or_requeue o j s.progress s.site
  after_step o j prompt_failed more (unfinished, s) = (runs_on, s.site)

  abbrev pub is_err : Result PromptError AgentStep → Bool
  is_err (err _) = true
  is_err (ok _) = false

  -- The loop of `advance_run`, over its rounds.
  unfoldable pub rounds : Owner → AgentKind → JobRow → List Round → State rig → JobEnd × Site
  rounds o k j [] s = (runs_on, s.site)
  rounds o k j (p ∷ rest) s =
      let step = rig.next_step s.run in
      let next =
        after_step o j (is_err step.0) (λ s'. rounds o k j rest s') (take_step o k p step s) in
      if p.shutdown then retry_or_requeue o j s.progress s.site else next

  abbrev pub advance_claimed : Owner → JobRow → List Round → Claim × Site → JobEnd × Site
  advance_claimed o j rs (nothing true, s) = (returns_err, s)
  advance_claimed o j rs (nothing false, s) = (returns_ok, s)
  advance_claimed o j rs (claim_failed, s) = fail_retryable o s
  advance_claimed o j rs (ready r run k, s) =
      rounds o k j rs (record { run = run; progress = false; site = s })

  -- `advance_run`, with the row of the job that a requeue would add
  unfoldable pub advance_run : Durable → Owner → JobRow → List Round → Site → JobEnd × Site
  advance_run d o j rs s = advance_claimed o j rs (claim_and_validate d o s)

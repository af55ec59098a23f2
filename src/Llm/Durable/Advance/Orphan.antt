-- ===== src/Llm/Durable/Advance/Orphan.antt =====
-- No attempt that ends its own job leaves an active run without a job
-- (`advance_run` of crates/cja-llm/src/durable/worker.rs).
use cja.Common.{
  ℕ, ◌≡◌, refl, String, Option, none, some, Bool, true, false, ◌==◌, count, List, [], ◌∷◌,
  if◌then◌else◌, arith,
}
use cja.Common.Sql.{SqlError, Fault, deliver, refuse, lost, Result, ok, err, settle, str_is_refl}
use cja.Jobs.Tables.{JobRow, Tables}
use cja.Jobs.Enqueue.{new_row}
use cja.Llm.Durable.Tables.{RunRow, RunDb}
use cja.Llm.Durable.Db.{release_lease}
use cja.Llm.Durable.Rig.{Rig, PromptError, AgentStep, call_model, call_tools, finished}
use cja.Llm.Durable.Site.{Site, statement, next_moment, rest_moments}
use cja.Llm.Durable.Worker.{
  StepOutcome, continue, done, retry, unfinished, AgentKind, Durable, Owner,
}
use cja.Llm.Durable.Steps.{State}
use cja.Llm.Durable.Advance.{
  advance_job, enqueue_on_tx, requeue, woken, requeue_with_fresh_job, JobEnd, returns_ok,
  returns_err, runs_on, fail_retryable, or_fail, retry_or_requeue, Round, Claim, nothing, ready,
  claim_failed, take_step, after_step, rounds, advance_claimed, advance_run,
}
use cja.Llm.Durable.Advance.Cover.{is_backed, covered, row_covered}
use cja.Llm.Durable.Advance.Held.{AllPolite, Covered}
use cja.Llm.Durable.Advance.Claimed.{ClaimEnd, claim_and_validate-ClaimEnd}
use cja.Llm.Durable.Advance.Ends.{Kept, StepEnd, fail_prompt-StepEnd, done_step-StepEnd}
use cja.Llm.Durable.Advance.Turns.{call_model_step-StepEnd, call_tools_step-StepEnd}

module _ (rig : Rig) (o : Owner) (own_job : ℕ) where
  -- What the end of the job leaves.
  abbrev pub JobLeaves : JobEnd × Site → Type 0
  JobLeaves (returns_ok, s) = Covered rig.payload o own_job s
  JobLeaves (returns_err, s) = Unit
  JobLeaves (runs_on, s) = Unit

  module _ (context : String) (created_at fresh : ℕ) (ne : (fresh == own_job) ≡ false) where
    abbrev fresh_job : JobRow
    fresh_job = advance_job rig.payload o.run_id context created_at fresh

    fresh-backs :
        (q : Tables)
        → is_backed rig.payload o own_job (record q { jobs = fresh_job ∷ q.jobs }) ≡ true
    unfolding new_row count
    fresh-backs q =
        rw (str_is_refl "AdvanceRunJob", str_is_refl (rig.payload o.run_id), ne) (ground arith)

    backed-covered :
        (d : RunDb)
        → is_backed rig.payload o own_job d.queue ≡ true
        → covered rig.payload o own_job d ≡ true
    backed-covered d h = row (d.runs o.run_id)
      where
        row :
            (found : Option RunRow)
            → row_covered rig.payload o own_job (is_backed rig.payload o own_job d.queue) found
              ≡ true
        row none = refl
        row (some r) = rw h (ground arith)

    requeue-covered :
        (now : ℕ) (d : RunDb) → covered rig.payload o own_job (requeue o fresh_job now d).1 ≡ true
    requeue-covered now d =
        let d' = (release_lease o.run_id o.me now d).1 in
        backed-covered (enqueue_on_tx fresh_job d') (fresh-backs d'.queue)

    requeue_with_fresh_job-Covered :
        (s : Site)
        → (requeue_with_fresh_job o fresh_job s).0 ≡ true
        → Covered rig.payload o own_job (requeue_with_fresh_job o fresh_job s).1
    unfolding requeue_with_fresh_job statement
    requeue_with_fresh_job-Covered s =
        let m = next_moment s.moments in
        reply m.fault (requeue o fresh_job m.now (m.others s.db)) (m.others s.db)
          (requeue-covered m.now (m.others s.db))
      where
        reply :
            (f : Fault) (w : Unit {0} × RunDb) (d : RunDb)
            → covered rig.payload o own_job w.1 ≡ true
            → (woken (
              (settle (λ e. e) f w d).0,
              record s {
                db = (settle {E = SqlError} (λ e. e) f w d).1;
                moments = rest_moments s.moments;
              },
            )).0
              ≡ true
            → Covered rig.payload o own_job
                (woken (
                  (settle (λ e. e) f w d).0,
                  record s {
                    db = (settle {E = SqlError} (λ e. e) f w d).1;
                    moments = rest_moments s.moments;
                  },
                )).1
        reply deliver w d h e = h
        reply (refuse x) w d h e = cc
        reply (lost x) w d h e = cc

    or_fail-JobLeaves :
        (w : Bool × Site)
        → (w.0 ≡ true → Covered rig.payload o own_job w.1)
        → JobLeaves (or_fail o w)
    unfolding fail_retryable
    or_fail-JobLeaves (true, s) h = h refl
    or_fail-JobLeaves (false, s) h = tt

    retry_or_requeue-JobLeaves :
        (progress : Bool) (s : Site) → JobLeaves (retry_or_requeue o fresh_job progress s)
    unfolding retry_or_requeue fail_retryable
    retry_or_requeue-JobLeaves true s = or_fail-JobLeaves _ (requeue_with_fresh_job-Covered s)
    retry_or_requeue-JobLeaves false s = tt

    take_step-StepEnd :
        (k : AgentKind) (p : Round) (r : Result PromptError AgentStep × rig.Run) (s : State rig)
        → Kept rig o own_job s.site
        → StepEnd rig o own_job (take_step rig o k p r s)
    take_step-StepEnd k p (err e, run) s g =
        fail_prompt-StepEnd rig o own_job e (record s { run = run }) g
    take_step-StepEnd k p (ok call_model, run) s g =
        call_model_step-StepEnd rig o own_job k.max_total_tokens p.resolutions p.model
          (record s { run = run }) g
    take_step-StepEnd k p (ok (call_tools calls), run) s g =
        call_tools_step-StepEnd rig o own_job p.tools calls (record s { run = run }) g
    take_step-StepEnd k p (ok (finished output), run) s g =
        done_step-StepEnd rig o own_job output (record s { run = run }) g

    after_step-JobLeaves :
        (prompt_failed : Bool) (more : State rig → JobEnd × Site) (r : StepOutcome × State rig)
        → StepEnd rig o own_job r
        → ((s : State rig) → Kept rig o own_job s.site → JobLeaves (more s))
        → JobLeaves (after_step rig o fresh_job prompt_failed more r)
    unfolding fail_retryable
    after_step-JobLeaves b more (continue, s) h k = k s h
    after_step-JobLeaves b more (done, s) h k = h
    after_step-JobLeaves true more (retry, s) h k = tt
    after_step-JobLeaves false more (retry, s) h k = retry_or_requeue-JobLeaves s.progress s.site
    after_step-JobLeaves true more (unfinished, s) h k = tt
    after_step-JobLeaves false more (unfinished, s) h k = tt

    either :
        (b : Bool) (x y : JobEnd × Site)
        → JobLeaves x
        → JobLeaves y
        → JobLeaves (if b then x else y)
    either true x y h k = h
    either false x y h k = k

    rounds-JobLeaves :
        (k : AgentKind) (rs : List Round) (s : State rig)
        → Kept rig o own_job s.site
        → JobLeaves (rounds rig o k fresh_job rs s)
    unfolding rounds
    rounds-JobLeaves k [] s g = tt
    rounds-JobLeaves k (p ∷ rest) s g =
        either p.shutdown _ _ (retry_or_requeue-JobLeaves s.progress s.site) (
          after_step-JobLeaves _ _ _ (take_step-StepEnd k p _ s g)
            (λ s' h. rounds-JobLeaves k rest s' h))

    advance_claimed-JobLeaves :
        (rs : List Round) (c : Claim rig × Site)
        → ClaimEnd rig o own_job c
        → JobLeaves (advance_claimed rig o fresh_job rs c)
    unfolding fail_retryable
    advance_claimed-JobLeaves rs (nothing true, s) h = tt
    advance_claimed-JobLeaves rs (nothing false, s) h = h
    advance_claimed-JobLeaves rs (claim_failed, s) h = tt
    advance_claimed-JobLeaves rs (ready r run k, s) h = rounds-JobLeaves k rs _ h

    advance_run-JobLeaves :
        (d : Durable) (rs : List Round) (s : Site)
        → AllPolite rig.payload o own_job s.moments
        → JobLeaves (advance_run rig d o fresh_job rs s)
    unfolding advance_run
    advance_run-JobLeaves d rs s p =
        advance_claimed-JobLeaves rs _ (claim_and_validate-ClaimEnd rig o own_job d s p)

left-Covered :
    (rig : Rig) (o : Owner) (own_job : ℕ) (r : JobEnd × Site)
    → JobLeaves rig o own_job r
    → r.0 ≡ returns_ok
    → Covered rig.payload o own_job r.1
left-Covered rig o own_job (returns_ok, s) h e = h
left-Covered rig o own_job (returns_err, s) h e = cc
left-Covered rig o own_job (runs_on, s) h e = cc

-- For any agent library, configuration, rounds and site: if between the statements of the attempt
-- the other workers keep the run leased to it or covered, and none of them queues it, and a fresh
-- job would have another id than this job, then an attempt of `advance_run` that returns `Ok` (after
-- which its job is deleted) leaves the run's row absent, inactive, or with an `AdvanceRunJob` of the
-- run in the queue that is not this job. Any statement may be refused, or lose its reply.
pub advance_run-covered :
    (rig : Rig) (d : Durable) (o : Owner) (own_job fresh : ℕ) (context : String) (created_at : ℕ)
    (rs : List Round) (s : Site)
    → AllPolite rig.payload o own_job s.moments
    → (fresh == own_job) ≡ false
    → (advance_run rig d o (advance_job rig.payload o.run_id context created_at fresh) rs s).0
      ≡ returns_ok
    → covered rig.payload o own_job
        (advance_run rig d o (advance_job rig.payload o.run_id context created_at fresh) rs s).1.db
      ≡ true
advance_run-covered rig d o own_job fresh context created_at rs s p ne e =
    left-Covered rig o own_job _
      (advance_run-JobLeaves rig o own_job context created_at fresh ne d rs s p) e

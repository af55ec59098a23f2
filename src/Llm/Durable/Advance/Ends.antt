-- ===== src/Llm/Durable/Advance/Ends.antt =====
-- What the writes and guards of an attempt (crates/cja-llm/src/durable/worker.rs) leave: the run held,
-- or covered when the step is done.
use cja.Common.{ℕ, zero, suc, ◌≡◌, refl, String, Option, none, some, Bool, true, false, List}
use cja.Common.Sql.{SqlError, Result, ok, err}
use cja.Llm.Durable.Status.{FailReason}
use cja.Llm.Durable.Tables.{MessageRow}
use cja.Llm.Durable.Db.{Snapshot, Ending, unstorable, next_message_seq}
use cja.Llm.Durable.Rig.{Rig, PromptError}
use cja.Llm.Durable.Site.{Site}
use cja.Llm.Durable.Worker.{
  StepOutcome, continue, done, retry, unfinished, GuardEnd, completes, shut_down, never, Guarded,
  completed, stop, failed, still_running, Owner, cancelled_ending,
}
use cja.Llm.Durable.Steps.{
  State, and_then, at_site, progressed, ended_by, project_messages, rows_or_error, finish_run,
  finish_projected, end_with, fail_terminal, fail_prompt, after_persist, persist_rows,
  persist_snapshot, persist, done_step, stop_cancelled, stopped_by, after_heartbeat, guard_end,
  guard_loop, guarded_step,
}
use cja.Llm.Durable.Advance.Cover.{is_active_status, heartbeat-Leased, persist_step-Leased}
use cja.Llm.Durable.Advance.Held.{
  Held, Covered, LeasedEnd, WriteEnd, statement-LeasedEnd, statement-Held, after_refusal-WriteEnd,
  finish_with-WriteEnd,
}

module _ (rig : Rig) (o : Owner) (own_job : ℕ) where
  abbrev pub Kept : Site → Type 0
  Kept = Held rig.payload o own_job

  abbrev pub StepEnd : StepOutcome × State rig → Type 0
  StepEnd (continue, s) = Kept s.site
  StepEnd (done, s) = Covered rig.payload o own_job s.site
  StepEnd (retry, s) = Unit
  StepEnd (unfinished, s) = Unit

  abbrev pub Written : Bool × Site → Type 0
  Written = WriteEnd rig.payload o own_job

  pub and_then-StepEnd :
      (r : StepOutcome × State rig) (f : State rig → StepOutcome × State rig)
      → StepEnd r
      → ((s : State rig) → Kept s.site → StepEnd (f s))
      → StepEnd (and_then rig r f)
  and_then-StepEnd (continue, s) f h k = k s h
  and_then-StepEnd (done, s) f h k = h
  and_then-StepEnd (retry, s) f h k = tt
  and_then-StepEnd (unfinished, s) f h k = tt

  pub ended_by-StepEnd : (s : State rig) (w : Bool × Site) → Written w → StepEnd (ended_by rig s w)
  ended_by-StepEnd s (true, x) h = h
  ended_by-StepEnd s (false, x) h = tt

  pub project_messages-Kept :
      (run : rig.Run) (s : Site) → Kept s → Kept (project_messages rig o run s).1
  unfolding project_messages next_message_seq
  project_messages-Kept run s g = reply _ (statement-Held rig.payload o own_job _ s g)
    where
      reply : (r : Result SqlError ℕ × Site) → Kept r.1 → Kept (rows_or_error rig run r).1
      reply (ok n, x) h = h
      reply (err e, x) h = h

  finish_run-Written :
      (e : Ending) (snap : Snapshot) (run : rig.Run) (s : Site)
      → is_active_status e.status ≡ false
      → Kept s
      → Written (finish_run rig o e snap run s)
  unfolding finish_run
  finish_run-Written e snap run s i g = reply _ (project_messages-Kept run s g)
    where
      reply :
          (r : Option (List MessageRow) × Site)
          → Kept r.1
          → Written (finish_projected rig o e snap r)
      reply (none, x) h = tt
      reply (some new, x) h = finish_with-WriteEnd rig.payload o own_job e snap new x i h

  end_with-StepEnd :
      (e : Ending) (s : State rig) (snap : Option Snapshot)
      → is_active_status e.status ≡ false
      → Kept s.site
      → StepEnd (end_with rig o e s snap)
  end_with-StepEnd e s none i g = tt
  end_with-StepEnd e s (some snap) i g =
      ended_by-StepEnd s _ (finish_run-Written e snap s.run s.site i g)

  pub fail_terminal-StepEnd :
      (reason : FailReason) (message : String) (s : State rig)
      → Kept s.site
      → StepEnd (fail_terminal rig o reason message s)
  unfolding fail_terminal
  fail_terminal-StepEnd reason message s g = end_with-StepEnd _ s _ refl g

  pub fail_prompt-StepEnd :
      (e : PromptError) (s : State rig) → Kept s.site → StepEnd (fail_prompt rig o e s)
  fail_prompt-StepEnd e s g = fail_terminal-StepEnd _ _ s g

  after_persist-StepEnd :
      (advanced : Bool) (snap : Snapshot) (s : State rig) (r : Result SqlError (Option Bool) × Site)
      → LeasedEnd rig.payload o own_job r
      → StepEnd (after_persist rig o advanced snap s r)
  after_persist-StepEnd advanced snap s (err e, x) h =
      ended_by-StepEnd s _ (after_refusal-WriteEnd rig.payload o own_job e (unstorable e) x h)
  after_persist-StepEnd advanced snap s (ok none, x) h = h
  after_persist-StepEnd advanced snap s (ok (some false), x) h = h
  after_persist-StepEnd advanced snap s (ok (some true), x) h =
      ended_by-StepEnd (progressed rig advanced (at_site rig s x)) _
        (finish_run-Written cancelled_ending snap s.run x refl h)

  persist_rows-StepEnd :
      (advanced : Bool) (snap : Snapshot) (s : State rig) (r : Option (List MessageRow) × Site)
      → Kept r.1
      → StepEnd (persist_rows rig o advanced snap s r)
  persist_rows-StepEnd advanced snap s (none, x) h = tt
  persist_rows-StepEnd advanced snap s (some new, x) h = after_persist-StepEnd advanced snap s _ (
      statement-LeasedEnd rig.payload o own_job _ x h
        (λ now d k. persist_step-Leased rig.payload o own_job snap new now d k))

  persist_snapshot-StepEnd :
      (advanced : Bool) (s : State rig) (snap : Option Snapshot)
      → Kept s.site
      → StepEnd (persist_snapshot rig o advanced s snap)
  persist_snapshot-StepEnd advanced s none g = tt
  persist_snapshot-StepEnd advanced s (some snap) g =
      persist_rows-StepEnd advanced snap s _ (project_messages-Kept s.run s.site g)

  pub persist-StepEnd :
      (advanced : Bool) (s : State rig) → Kept s.site → StepEnd (persist rig o advanced s)
  unfolding persist
  persist-StepEnd advanced s g = persist_snapshot-StepEnd advanced s _ g

  pub done_step-StepEnd :
      (output : String) (s : State rig) → Kept s.site → StepEnd (done_step rig o output s)
  unfolding done_step
  done_step-StepEnd output s g =
      and_then-StepEnd _ _ (persist-StepEnd false s g) (λ s' h. end_with-StepEnd _ s' _ refl h)

  module _ (A : Type 0) where
    abbrev pub GuardedEnd : Guarded A × Site → Type 0
    GuardedEnd (completed a, x) = Kept x
    GuardedEnd (stop, x) = Covered rig.payload o own_job x
    GuardedEnd (failed, x) = Unit
    GuardedEnd (still_running, x) = Unit

    stop_cancelled-GuardedEnd :
        (run : rig.Run) (x : Site) (snap : Option Snapshot)
        → Kept x
        → GuardedEnd (stop_cancelled rig {A = A} o run x snap)
    stop_cancelled-GuardedEnd run x none g = tt
    stop_cancelled-GuardedEnd run x (some snap) g =
        wrote _ (finish_run-Written cancelled_ending snap run x refl g)
      where
        wrote : (w : Bool × Site) → Written w → GuardedEnd (stopped_by rig {A = A} w)
        wrote (true, y) h = h
        wrote (false, y) h = tt

    after_heartbeat-GuardedEnd :
        (run : rig.Run) (more : Site → Guarded A × Site) (r : Result SqlError (Option Bool) × Site)
        → LeasedEnd rig.payload o own_job r
        → ((x : Site) → Kept x → GuardedEnd (more x))
        → GuardedEnd (after_heartbeat rig o run more r)
    after_heartbeat-GuardedEnd run more (err e, x) h k = tt
    after_heartbeat-GuardedEnd run more (ok none, x) h k = h
    after_heartbeat-GuardedEnd run more (ok (some true), x) h k =
        stop_cancelled-GuardedEnd run x _ h
    after_heartbeat-GuardedEnd run more (ok (some false), x) h k = k x h

    guard_end-GuardedEnd : (e : GuardEnd A) (x : Site) → Kept x → GuardedEnd (guard_end rig o e x)
    guard_end-GuardedEnd (completes a) x g = g
    guard_end-GuardedEnd shut_down x g = tt
    guard_end-GuardedEnd never x g = tt

    pub guard_loop-GuardedEnd :
        (run : rig.Run) (e : GuardEnd A) (n : ℕ) (x : Site)
        → Kept x
        → GuardedEnd (guard_loop rig o run e n x)
    unfolding guard_loop
    guard_loop-GuardedEnd run e zero x g = guard_end-GuardedEnd e x g
    guard_loop-GuardedEnd run e (suc n) x g =
        after_heartbeat-GuardedEnd run _ _
          (statement-LeasedEnd rig.payload o own_job _ x g
            (λ now d k. heartbeat-Leased rig.payload o own_job now d k))
          (λ y h. guard_loop-GuardedEnd run e n y h)

    pub guarded_step-StepEnd :
        (s : State rig) (f : A → State rig → StepOutcome × State rig) (r : Guarded A × Site)
        → GuardedEnd r
        → ((a : A) (s' : State rig) → Kept s'.site → StepEnd (f a s'))
        → StepEnd (guarded_step rig s f r)
    guarded_step-StepEnd s f (completed a, x) h k = k a (at_site rig s x) h
    guarded_step-StepEnd s f (stop, x) h k = h
    guarded_step-StepEnd s f (failed, x) h k = tt
    guarded_step-StepEnd s f (still_running, x) h k = tt

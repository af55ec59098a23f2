-- ===== src/Llm/Durable/Start/Effects.antt =====
-- What `start`, `answer` and `cancel` of crates/cja-llm/src/durable/mod.rs leave, errors included.
use Prim.Native.String.{◌++◌ as ◌<>◌}
use cja.Common.{
  ℕ, ◌≡◌, refl, sym, subst, ==_refl, String, Option, none, some, Bool, true, false, ◌&&◌, ◌||◌, not,
  List, if◌then◌else◌,
}
use cja.Common.Sql.{SqlError, deliver, Result, ok, err}
use cja.Jobs.Tables.{JobRow}
use cja.Llm.Durable.Nuls.{Text}
use cja.Llm.Durable.Status.{RunStatus, queued, running, waiting, succeeded, failed, cancelled}
use cja.Llm.Durable.Tables.{RunRow, RunDb, MessageRow, is_status, set_run}
use cja.Llm.Durable.Db.{
  answer_waiting, insert_messages, update_run, next_after, cancel_run, cancel_action, CancelOutcome,
  cancel_now, requested, already_cancelled, terminal, unleased, cancel_row, lease_is_dead,
  update_found,
}
use cja.Llm.Durable.Rig.{Rig}
use cja.Llm.Durable.Site.{Site, statement, next_moment, rest_moments}
use cja.Llm.Durable.Worker.{Durable, project_rows}
use cja.Llm.Durable.Advance.{enqueue_on_tx}
use cja.Llm.Durable.Lifecycle.{status_is}
use cja.Llm.Durable.Start.{
  RunError, not_found, invalid_transition, cancel_result, cancel, not_waiting, resolve_row,
  with_job, write_answer, answer_resolved, answer_found, answer_run,
}

module _ (rig : Rig) (id : ℕ) (text : Text) (job : String → JobRow) (d : RunDb) where
  -- The row after an answer.
  abbrev pub resumed : String → RunRow → RunRow
  resumed state r = record (unleased r) {
    status = running;
    run_state = state;
    pending_call_id = none;
    pending_question = none;
  }

  -- The tables after an answer: the run goes on with the answered state, its new messages are
  -- inserted, and its job is in the queue.
  abbrev pub resumed_db : RunRow → String → List MessageRow → RunDb
  resumed_db r state new =
      enqueue_on_tx (job ("agent-run:" <> r.kind))
        (insert_messages id new (set_run id (resumed state r) d))

  -- What the transaction comes to.
  abbrev pub Answered : Result RunError (Unit {0}) × RunDb → Type 0
  Answered (err e, d') = d' ≡ d
  Answered (ok _, d') =
      (r : RunRow) × (run : rig.Run) × (state : String) × (new : List MessageRow) × (d.runs id
        ≡ some r)
      × (r.status ≡ waiting)
      × (resolve_row rig id text r ≡ ok run)
      × (rig.to_value run ≡ some state)
      × (project_rows (next_after 0 (d.messages id)) (rig.messages run) ≡ some new)
      × (d' ≡ resumed_db r state new)

  module _ (r : RunRow) (found : d.runs id ≡ some r) where
    resolve_row-waiting :
        (b : Bool) (run : rig.Run) (rest : Result RunError rig.Run)
        → (if not b then err (not_waiting id r.status) else rest) ≡ ok run
        → b ≡ true
    resolve_row-waiting true run rest h = refl
    resolve_row-waiting false run rest h = cc

    answer_waiting-found :
        (state : String)
        → is_status r.status waiting ≡ true
        → answer_waiting id state d ≡ (some tt, set_run id (resumed state r) d)
    unfolding answer_waiting update_run
    answer_waiting-found state h = rw (found, h) refl

    with_job-Answered :
        (run : rig.Run) (state : String) (new : List MessageRow)
        → resolve_row rig id text r ≡ ok run
        → rig.to_value run ≡ some state
        → project_rows (next_after 0 (d.messages id)) (rig.messages run) ≡ some new
        → Answered
            (with_job rig id new (job ("agent-run:" <> r.kind)) d (answer_waiting id state d))
    unfolding resolve_row
    with_job-Answered run state new a b c =
        let w = resolve_row-waiting (is_status r.status waiting) run _ a in
        subst (λ x. Answered (with_job rig id new (job ("agent-run:" <> r.kind)) d x))
          (sym (answer_waiting-found state w))
          (r, run, state, new, found, status_is r.status waiting w, a, b, c, refl)

    write_answer-Answered :
        (run : rig.Run) (state : Option String) (new : Option (List MessageRow))
        → resolve_row rig id text r ≡ ok run
        → rig.to_value run ≡ state
        → project_rows (next_after 0 (d.messages id)) (rig.messages run) ≡ new
        → Answered (write_answer rig id (job ("agent-run:" <> r.kind)) d state new)
    write_answer-Answered run none new a b c = refl
    write_answer-Answered run (some state) none a b c = refl
    write_answer-Answered run (some state) (some new) a b c = with_job-Answered run state new a b c

    answer_resolved-Answered :
        (x : Result RunError rig.Run)
        → resolve_row rig id text r ≡ x
        → Answered (answer_resolved rig id (job ("agent-run:" <> r.kind)) d x)
    answer_resolved-Answered (err e) a = refl
    answer_resolved-Answered (ok run) a = write_answer-Answered run _ _ a refl refl

  answer_found-Answered :
      (row : Option RunRow) → d.runs id ≡ row → Answered (answer_found rig id text job d row)
  answer_found-Answered none e = refl
  answer_found-Answered (some r) e = answer_resolved-Answered r e _ refl

-- For any agent library, run, text and tables: if the transaction of `answer` reports an error, no
-- table has changed. If it succeeds, the run was waiting and its recorded ask was open, and exactly
-- this is written: the run is running without a lease or a pending ask, in the answered state, the
-- messages after the highest stored number are inserted, and one job of the run is added.
pub answer_run-Answered :
    (rig : Rig) (id : ℕ) (text : Text) (job : String → JobRow) (d : RunDb)
    → Answered rig id text job d (answer_run rig id text job d)
unfolding answer_run
answer_run-Answered rig id text job d = answer_found-Answered rig id text job d (d.runs id) refl

-- A cancelled run: no lease and no pending ask.
abbrev pub cancelled_row : ℕ → RunRow → RunRow
cancelled_row now r = record (unleased r) {
  status = cancelled;
  pending_call_id = none;
  pending_question = none;
  finished_at = some now;
}

-- What cancelling a run in a status reports, and the row that it leaves; `dead` if no lease is live.
abbrev pub IsCancel :
    ℕ → ℕ → RunRow → Bool → RunStatus → Result RunError (Unit {0}) → Option RunRow → Type 0
IsCancel id now r dead queued x row = (x ≡ ok tt) × (row ≡ some (cancelled_row now r))
IsCancel id now r dead waiting x row = (x ≡ ok tt) × (row ≡ some (cancelled_row now r))
IsCancel id now r true running x row = (x ≡ ok tt) × (row ≡ some (cancelled_row now r))
IsCancel id now r false running x row =
    (x ≡ ok tt) × (row ≡ some (record r { cancel_requested = true }))
IsCancel id now r dead cancelled x row = (x ≡ ok tt) × (row ≡ some r)
IsCancel id now r dead succeeded x row =
    (x ≡ err (invalid_transition id succeeded cancelled)) × (row ≡ some r)
IsCancel id now r dead failed x row =
    (x ≡ err (invalid_transition id failed cancelled)) × (row ≡ some r)

abbrev pub CancelOf :
    ℕ → ℕ → ℕ → Option RunRow → Result RunError (Unit {0}) → Option RunRow → Type 0
CancelOf id now takeover none x row = (x ≡ err (not_found id)) × (row ≡ none)
CancelOf id now takeover (some r) x row =
    IsCancel id now r (lease_is_dead now takeover r) r.status x row

module _ (id now takeover : ℕ) (s : Site) where
  acted : RunRow → RunStatus → Bool → CancelOutcome
  acted r q dead =
      if is_status q queued || is_status q waiting
      then cancel_now
      else if is_status q running && dead
      then cancel_now
      else if is_status q running
      then requested
      else if is_status q cancelled
      then already_cancelled
      else terminal q

  action-IsCancel :
      (r : RunRow) (q : RunStatus) (dead : Bool)
      → IsCancel id now r dead q
          (cancel_result id (ok (some (acted r q dead)), s)).0
          (some (cancel_row now (acted r q dead) r))
  unfolding acted
  action-IsCancel r queued dead = (refl, refl)
  action-IsCancel r waiting dead = (refl, refl)
  action-IsCancel r running true = (refl, refl)
  action-IsCancel r running false = (refl, refl)
  action-IsCancel r cancelled dead = (refl, refl)
  action-IsCancel r succeeded dead = (refl, refl)
  action-IsCancel r failed dead = (refl, refl)

  found-CancelOf :
      (d : RunDb) (row : Option RunRow)
      → d.runs id ≡ row
      → (let w =
            update_found id
              (λ _. true)
              (λ r. cancel_row now (cancel_action now takeover r) r)
              (cancel_action now takeover)
              d
              row in
          CancelOf id now takeover row (cancel_result id (ok w.0, s)).0 (w.1.runs id))
  unfolding cancel_action
  found-CancelOf d none e = (refl, e)
  found-CancelOf d (some r) e =
      rw (==_refl id) (unfold acted in action-IsCancel r r.status (lease_is_dead now takeover r))

cancel_result-same :
    (id : ℕ) (w : Result SqlError (Option CancelOutcome) × Site) → (cancel_result id w).1 ≡ w.1
cancel_result-same id (err e, s) = refl
cancel_result-same id (ok none, s) = refl
cancel_result-same id (ok (some cancel_now), s) = refl
cancel_result-same id (ok (some requested), s) = refl
cancel_result-same id (ok (some already_cancelled), s) = refl
cancel_result-same id (ok (some (terminal q)), s) = refl

statement-delivered :
    {A : Type 0} (f : ℕ → RunDb → A × RunDb) (s : Site)
    → (next_moment s.moments).fault ≡ deliver
    → (let m = next_moment s.moments in
        let w = f m.now (m.others s.db) in
        statement f s ≡ (ok w.0, record s { db = w.1; moments = rest_moments s.moments }))
unfolding statement
statement-delivered f s e = rw e refl

-- If the statement of `cancel` is carried out, its result and the row that it leaves are those of
-- the run's status at that time: not found without a row; Ok and cancelled, without a lease or a
-- pending ask, if queued, waiting or running without a live lease; Ok and flagged if running under a
-- live lease; Ok and unchanged if already cancelled; an invalid transition and unchanged if succeeded
-- or failed.
pub cancel-CancelOf :
    (c : Durable) (id : ℕ) (s : Site)
    → (next_moment s.moments).fault ≡ deliver
    → (let m = next_moment s.moments in
        let x = cancel c id s in
        CancelOf id m.now c.lease_takeover ((m.others s.db).runs id) x.0 (x.1.db.runs id))
unfolding cancel cancel_run update_run
cancel-CancelOf c id s e =
    let m = next_moment s.moments in
    let d = m.others s.db in
    let w = cancel_run id c.lease_takeover m.now d in
    let after : Site = record s { db = w.1; moments = rest_moments s.moments } in
    subst
      (λ w.
        let x = cancel_result id w in
        CancelOf id m.now c.lease_takeover (d.runs id) x.0 (x.1.db.runs id))
      (sym (statement-delivered (cancel_run id c.lease_takeover) s e))
      (kept id m.now c.lease_takeover (d.runs id) (ok w.0, after)
        (found-CancelOf id m.now c.lease_takeover after d (d.runs id) refl))
  where
    kept :
        (run now takeover : ℕ) (row : Option RunRow)
        (w : Result SqlError (Option CancelOutcome) × Site)
        → CancelOf run now takeover row (cancel_result run w).0 (w.1.db.runs run)
        → CancelOf run now takeover row
            (cancel_result run w).0
            ((cancel_result run w).1.db.runs run)
    kept run now takeover row w h =
        subst (λ x. CancelOf run now takeover row (cancel_result run w).0 (x.db.runs run))
          (sym (cancel_result-same run w)) h

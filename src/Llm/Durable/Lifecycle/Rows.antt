-- ===== src/Llm/Durable/Lifecycle/Rows.antt =====
-- Each statement of crates/cja-llm/src/durable/db.rs, but those of `cancel`, as a step of a row.
use cja.Common.{
  ℕ, ◌≡◌, refl, sym, ◌∙◌, ap, String, Option, none, some, is_some, Bool, true, false, ◌&&◌,
  if◌then◌else◌, holds, arith, Bool-cases, inl, inr,
}
use cja.Llm.Durable.Nuls.{Text}
use cja.Llm.Durable.Status.{
  RunStatus, FailReason, queued, running, waiting, succeeded, failed, cancelled, unstorable_content,
}
use cja.Llm.Durable.Worker.{cancelled_ending, failed_ending, succeeded_ending}
use cja.Llm.Durable.Tables.{ErrorText, RunRow, is_status, is_owned, run_content_cannot_be_stored}
use cja.Llm.Durable.Db.{
  run_claimable, lease_to, unleased, stored, Snapshot, parked, cancelled_with, Ending, finished,
  lease_is_dead, cancel_action, cancel_row, CancelOutcome, cancel_now, requested, already_cancelled,
  terminal,
}
use cja.Llm.Durable.Lifecycle.{
  may_become, is_terminal, IsStorable, RowStep, status_is, owned-running, moved-RowStep,
}

-- What a storable row with a known status has.
pub parts :
    (r : RunRow) (s : RunStatus)
    → r.status ≡ s
    → IsStorable r
    → (is_some r.pending_call_id ≡ is_status s waiting)
      × (is_some r.pending_question ≡ is_status s waiting)
      × (is_some r.finished_at ≡ is_terminal s)
      × (is_some r.fail_reason ≡ is_status s failed)
      × (is_some r.output ≡ is_status s succeeded)
parts r s e w = (
  w.asks ∙ ap (λ a. is_status a waiting) e,
  w.questions ∙ ap (λ a. is_status a waiting) e,
  w.ends ∙ ap is_terminal e,
  w.fails ∙ ap (λ a. is_status a failed) e,
  w.succeeds ∙ ap (λ a. is_status a succeeded) e,
)

-- A row without a lease, by its parts.
pub unleased-IsStorable :
    (r : RunRow) (s : RunStatus)
    → r.status ≡ s
    → (is_some r.pending_call_id ≡ is_status s waiting)
      × (is_some r.pending_question ≡ is_status s waiting)
      × (is_some r.finished_at ≡ is_terminal s)
      × (is_some r.fail_reason ≡ is_status s failed)
      × (is_some r.output ≡ is_status s succeeded)
    → IsStorable (unleased r)
unleased-IsStorable r s e p = record {
  asks = p.0 ∙ ap (λ a. is_status a waiting) (sym e);
  questions = p.1 ∙ ap (λ a. is_status a waiting) (sym e);
  ends = p.2 ∙ ap is_terminal (sym e);
  fails = p.3 ∙ ap (λ a. is_status a failed) (sym e);
  succeeds = p.4 ∙ ap (λ a. is_status a succeeded) (sym e);
  leased = λ h. absurd (cc);
  dated = refl;
}

-- A running row with a lease.
leased-IsStorable :
    (r : RunRow) (me now : ℕ)
    → (is_some r.pending_call_id ≡ false)
      × (is_some r.pending_question ≡ false)
      × (is_some r.finished_at ≡ false)
      × (is_some r.fail_reason ≡ false)
      × (is_some r.output ≡ false)
    → IsStorable (record r { status = running; locked_by = some me; locked_at = some now })
leased-IsStorable r me now p = record {
  asks = p.0;
  questions = p.1;
  ends = p.2;
  fails = p.3;
  succeeds = p.4;
  leased = λ h. refl;
  dated = refl;
}

claim_row-RowStep :
    (me now : ℕ) (r : RunRow) (s : RunStatus)
    → r.status ≡ s
    → may_become s running ≡ true
    → is_terminal s ≡ false
    → is_status s waiting ≡ false
    → is_status s failed ≡ false
    → is_status s succeeded ≡ false
    → RowStep r (lease_to me now r)
unfolding lease_to
claim_row-RowStep me now r s e m t w f u = moved-RowStep r _ s running e refl m t (λ k.
    let p = parts r s e k in
    leased-IsStorable (record r { started_at = cja.Llm.Durable.Db.or_now r.started_at now }) me now
      (p.0 ∙ w, p.1 ∙ w, p.2 ∙ t, p.3 ∙ f, p.4 ∙ u))

pub try_claim-RowStep :
    (me takeover now : ℕ) (r : RunRow)
    → run_claimable now takeover r ≡ true
    → RowStep r (lease_to me now r)
unfolding run_claimable
try_claim-RowStep me takeover now r h = elim (Bool-cases (is_status r.status queued)) [
  | inl q ↦ claim_row-RowStep me now r queued (status_is r.status queued q) refl refl refl refl refl
  | inr q ↦
      claim_row-RowStep me now r running (status_is r.status running (ground arith)) refl refl refl
        refl refl
]

pub release_lease-RowStep : (me : ℕ) (r : RunRow) → is_owned me r ≡ true → RowStep r (unleased r)
release_lease-RowStep me r h =
    let e = owned-running me r h in
    moved-RowStep r _ running running e e refl refl
      (λ k. unleased-IsStorable r running e (parts r running e k))

holds-is_some : (o : Option ℕ) (me : ℕ) (b : Bool) → (holds o me && b) ≡ true → is_some o ≡ true
holds-is_some none me b h = cc
holds-is_some (some k) me b h = refl

-- A write that keeps the row leased and running, and no other column of the invariant.
pub beat-RowStep :
    (me now : ℕ) (r : RunRow) → is_owned me r ≡ true → RowStep r (record r { locked_at = some now })
beat-RowStep me now r h =
    let e = owned-running me r h in
    moved-RowStep r _ running running e e refl refl (λ k. record {
      asks = k.asks;
      questions = k.questions;
      ends = k.ends;
      fails = k.fails;
      succeeds = k.succeeds;
      leased = k.leased;
      dated = sym (holds-is_some r.locked_by me (is_status r.status running) h);
    })

pub persist-RowStep :
    (me now : ℕ) (snap : Snapshot) (r : RunRow)
    → is_owned me r ≡ true
    → RowStep r (record (stored snap r) { locked_at = some now })
persist-RowStep me now snap r h =
    let e = owned-running me r h in
    moved-RowStep r _ running running e e refl refl (λ k. record {
      asks = k.asks;
      questions = k.questions;
      ends = k.ends;
      fails = k.fails;
      succeeds = k.succeeds;
      leased = k.leased;
      dated = sym (holds-is_some r.locked_by me (is_status r.status running) h);
    })

-- A terminal status with the columns that go with it.
pub record IsEnding (e : Ending) : Type 0 where
  pub over : is_terminal e.status ≡ true
  pub reason : is_some e.fail_reason ≡ is_status e.status failed
  pub result : is_some e.output ≡ is_status e.status succeeded

-- The endings that the worker writes: of a cancelled run, of a failure with its reason and error, and
-- of a success with its output.
pub data Written : Ending → Type 0 where
  cancels : Written cancelled_ending
  fails : (reason : FailReason) (e : ErrorText) → Written (failed_ending reason e)
  succeeds : (output : String) → Written (succeeded_ending output)

pub Written-IsEnding : (e : Ending) → Written e → IsEnding e
Written-IsEnding _ cancels = record { over = refl; reason = refl; result = refl }
Written-IsEnding _ (fails reason e) = record { over = refl; reason = refl; result = refl }
Written-IsEnding _ (succeeds output) = record { over = refl; reason = refl; result = refl }

over-may_become : (s : RunStatus) → is_terminal s ≡ true → may_become running s ≡ true
over-may_become queued h = cc
over-may_become running h = cc
over-may_become waiting h = cc
over-may_become succeeded h = refl
over-may_become failed h = refl
over-may_become cancelled h = refl

over-unasked : (s : RunStatus) → is_terminal s ≡ true → is_status s waiting ≡ false
over-unasked queued h = cc
over-unasked running h = cc
over-unasked waiting h = cc
over-unasked succeeded h = refl
over-unasked failed h = refl
over-unasked cancelled h = refl

pub finish-RowStep :
    (me now : ℕ) (e : Ending) (snap : Snapshot) (r : RunRow)
    → IsEnding e
    → is_owned me r ≡ true
    → RowStep r (finished e snap now r)
finish-RowStep me now e snap r i h =
    let q = owned-running me r h in
    moved-RowStep r _ running e.status q refl (over-may_become e.status i.over) refl (λ k.
      let p = parts r running q k in
      unleased-IsStorable (finished e snap now r) e.status refl (
        p.0 ∙ sym (over-unasked e.status i.over),
        p.1 ∙ sym (over-unasked e.status i.over),
        sym i.over,
        i.reason,
        i.result,
      ))

pub park-RowStep :
    (me now : ℕ) (state call_id : String) (question : Text) (r : RunRow) (b : Bool)
    → is_owned me r ≡ true
    → RowStep r (if b then cancelled_with state now r else parked state call_id question r)
park-RowStep me now state call_id question r true h =
    let q = owned-running me r h in
    moved-RowStep r _ running cancelled q refl refl refl (λ k.
      let p = parts r running q k in
      unleased-IsStorable (cancelled_with state now r) cancelled refl (refl, refl, refl, p.3, p.4))
park-RowStep me now state call_id question r false h =
    let q = owned-running me r h in
    moved-RowStep r _ running waiting q refl refl refl (λ k.
      let p = parts r running q k in
      unleased-IsStorable (parked state call_id question r) waiting refl
        (refl, refl, p.2, p.3, p.4))

pub fail_unstorable-RowStep :
    (me now : ℕ) (code : String) (r : RunRow)
    → is_owned me r ≡ true
    → RowStep r (record (unleased r) {
      status = RunStatus.failed;
      fail_reason = some unstorable_content;
      error = some (run_content_cannot_be_stored code);
      finished_at = some now;
    })
fail_unstorable-RowStep me now code r h =
    let q = owned-running me r h in
    moved-RowStep r _ running failed q refl refl refl (λ k.
      let p = parts r running q k in
      unleased-IsStorable
        (record (unleased r) {
          status = RunStatus.failed;
          fail_reason = some unstorable_content;
          error = some (run_content_cannot_be_stored code);
          finished_at = some now;
        })
        failed refl (p.0, p.1, refl, refl, p.4))

pub answer-RowStep :
    (state : String) (r : RunRow)
    → is_status r.status waiting ≡ true
    → RowStep r (record (unleased r) {
      status = running;
      run_state = state;
      pending_call_id = none;
      pending_question = none;
    })
answer-RowStep state r h =
    let q = status_is r.status waiting h in
    moved-RowStep r _ waiting running q refl refl refl (λ k.
      let p = parts r waiting q k in
      unleased-IsStorable
        (record (unleased r) {
          status = running;
          run_state = state;
          pending_call_id = none;
          pending_question = none;
        })
        running refl (refl, refl, p.2, p.3, p.4))

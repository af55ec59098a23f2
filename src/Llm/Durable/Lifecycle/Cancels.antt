-- ===== src/Llm/Durable/Lifecycle/Cancels.antt =====
-- The statements of `cancel` in crates/cja-llm/src/durable/db.rs as a step of a row.
use cja.Common.{ℕ, ◌≡◌, refl, ◌∙◌, Bool, true, false, ◌&&◌, ◌||◌, if◌then◌else◌}
use cja.Llm.Durable.Status.{RunStatus, queued, running, waiting, succeeded, failed, cancelled}
use cja.Llm.Durable.Tables.{RunRow, is_status}
use cja.Llm.Durable.Db.{
  lease_is_dead, cancel_action, cancel_row, CancelOutcome, cancel_now, requested, already_cancelled,
  terminal,
}
use cja.Llm.Durable.Lifecycle.{may_become, is_terminal, RowStep, still-RowStep, moved-RowStep}
use cja.Llm.Durable.Lifecycle.Rows.{parts, unleased-IsStorable}

cancel_now-RowStep :
    (now : ℕ) (r : RunRow) (s : RunStatus)
    → r.status ≡ s
    → may_become s cancelled ≡ true
    → is_terminal s ≡ false
    → is_status s failed ≡ false
    → is_status s succeeded ≡ false
    → RowStep r (cancel_row now cancel_now r)
cancel_now-RowStep now r s e m t f u = moved-RowStep r _ s cancelled e refl m t (λ k.
    let p = parts r s e k in
    unleased-IsStorable (cancel_row now cancel_now r) cancelled refl
      (refl, refl, refl, p.3 ∙ f, p.4 ∙ u))

requested-RowStep :
    (r : RunRow) → r.status ≡ running → RowStep r (record r { cancel_requested = true })
requested-RowStep r e = moved-RowStep r _ running running e e refl refl (λ k. record {
  asks = k.asks;
  questions = k.questions;
  ends = k.ends;
  fails = k.fails;
  succeeds = k.succeeds;
  leased = k.leased;
  dated = k.dated;
})

-- The action for a status, and whether the lease is dead.
abbrev action : RunStatus → Bool → CancelOutcome
action s dead =
    if is_status s queued || is_status s waiting
    then cancel_now
    else if is_status s running && dead
    then cancel_now
    else if is_status s running
    then requested
    else if is_status s cancelled
    then already_cancelled
    else terminal s

action-RowStep :
    (now : ℕ) (r : RunRow) (s : RunStatus) (dead : Bool)
    → r.status ≡ s
    → RowStep r (cancel_row now (action s dead) r)
action-RowStep now r queued dead e = cancel_now-RowStep now r queued e refl refl refl refl
action-RowStep now r waiting dead e = cancel_now-RowStep now r waiting e refl refl refl refl
action-RowStep now r running true e = cancel_now-RowStep now r running e refl refl refl refl
action-RowStep now r running false e = requested-RowStep r e
action-RowStep now r succeeded dead e = still-RowStep r
action-RowStep now r failed dead e = still-RowStep r
action-RowStep now r cancelled dead e = still-RowStep r

pub cancel-RowStep :
    (now takeover : ℕ) (r : RunRow) → RowStep r (cancel_row now (cancel_action now takeover r) r)
unfolding cancel_action
cancel-RowStep now takeover r = action-RowStep now r r.status (lease_is_dead now takeover r) refl

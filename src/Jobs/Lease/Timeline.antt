-- ===== src/Jobs/Lease/Timeline.antt =====
-- One claimed job of crates/cja/src/jobs/worker.rs on one time axis: its worker's polls, the
-- updates that the database carries out, and the claims of other workers, in any order. The
-- worker's clock and the database's are taken to run alike, `locked_at` in microseconds and the
-- worker's instants in nanoseconds.
use cja.Common.{ℕ, ◌+◌, ◌-◌, ◌/◌, ◌≤◌, ◌<◌, ◌≡◌, some, Bool, true, false, arith, ◌&&◌}
use cja.Jobs.Lease.Loop.{poll_continues}
use cja.Jobs.Config.{JobWorkerConfig, IsUsable, deadline}
use cja.Jobs.Claim.{lease_ran_out}
use cja.Jobs.Lease.{LoopState, Poll, continue, poll, deadline_of, rows_affected, initial}

-- `carried_out`: the update in flight has been; `taken`: another worker has claimed the row.
pub record System : Type 0 where
  pub time : ℕ
  pub loop : LoopState
  pub carried_out : Bool
  pub locked_at : ℕ
  pub taken : Bool

module _ (config : JobWorkerConfig) where
  pub data Step : System → System → Type 0 where
    wait : (y : System) (n : ℕ) → Step y (record y { time = y.time + n })
    -- the update in flight is carried out
    update :
        (y : System)
        → y.loop.heartbeat ≡ true
        → y.taken ≡ false
        → Step y (record y { locked_at = y.time / 1000; carried_out = true })
    -- an earlier update, on which the worker has given up, is carried out
    late_update : (y : System) → y.taken ≡ false → Step y (record y { locked_at = y.time / 1000 })
    -- a poll at which the loop goes on; a row is reported only for an update carried out
    polled :
        (y : System) (p : Poll) (s' : LoopState)
        → p.now ≡ y.time
        → (p.reply ≡ some (rows_affected 1) → y.carried_out ≡ true)
        → poll config y.loop p ≡ continue s'
        → Step y (record y { loop = s'; carried_out = y.carried_out && y.loop.heartbeat })
    -- another worker's claim finds the lease run out
    claimed_away :
        (y : System)
        → lease_ran_out (y.time / 1000) (config.reclaim_window / 1000) (some y.locked_at) ≡ true
        → Step y (record y { taken = true })

  pub data Reach (y : System) : System → Type 0 where
    here : Reach y y
    next : {z u : System} → Reach y z → Step z u → Reach y u

  pub record Inv (y : System) : Type 0 where
    pub refresh_held : y.loop.last_refresh_sent / 1000 ≤ y.locked_at
    pub update_held : y.carried_out ≡ true → y.loop.heartbeat_sent_at / 1000 ≤ y.locked_at
    pub sent_past : y.loop.heartbeat_sent_at ≤ y.time
    pub held_past : y.locked_at ≤ y.time / 1000
    pub taken_late : y.taken ≡ true → deadline_of config y.loop ≤ y.time

  -- The state after a claim that was sent at `sent` and stamped the row at `at`.
  abbrev pub claimed : ℕ → ℕ → ℕ → System
  claimed sent at time = record {
    time = time;
    loop = initial config sent;
    carried_out = false;
    locked_at = at;
    taken = false;
  }

  claimed-Inv :
      (sent at time : ℕ)
      → sent / 1000 ≤ at
      → at ≤ time / 1000
      → sent ≤ time
      → Inv (claimed sent at time)
  unfolding initial
  claimed-Inv sent at time h k l = ground arith

  -- A lease that has run out has passed the watchdog's deadline.
  ran_out_late :
      (refresh at time : ℕ)
      → 2000 ≤ config.heartbeat_interval
      → IsUsable config
      → refresh / 1000 ≤ at
      → at + config.reclaim_window / 1000 < time / 1000
      → refresh + config.reclaim_window - config.heartbeat_interval / 2 ≤ time
  ran_out_late refresh at time i u h k = omega arith

  module _ (i : 2000 ≤ config.heartbeat_interval) (u : IsUsable config) where
    polled-Inv :
        (y : System) (p : Poll) (s' : LoopState)
        → p.now ≡ y.time
        → (p.reply ≡ some (rows_affected 1) → y.carried_out ≡ true)
        → poll config y.loop p ≡ continue s'
        → Inv y
        → Inv (record y { loop = s'; carried_out = y.carried_out && y.loop.heartbeat })
    unfolding poll deadline
    polled-Inv y p s' n r e v = ground arith

    Step-Inv : {y z : System} → Step y z → Inv y → Inv z
    unfolding deadline
    Step-Inv (wait y n) v = ground arith
    Step-Inv (update y h k) v = ground arith
    Step-Inv (late_update y k) v = ground arith
    Step-Inv (polled y p s' n r e) v = polled-Inv y p s' n r e v
    Step-Inv (claimed_away y e) v = record {
      refresh_held = v.refresh_held;
      update_held = v.update_held;
      sent_past = v.sent_past;
      held_past = v.held_past;
      taken_late = λ t.
          ran_out_late y.loop.last_refresh_sent y.locked_at y.time i u v.refresh_held
            (ground arith);
    }

    Reach-Inv : {y z : System} → Inv y → Reach y z → Inv z
    Reach-Inv v here = v
    Reach-Inv v (next r s) = Step-Inv s (Reach-Inv v r)

-- While a job's body is left running, no other worker has claimed the job: from a claim that was
-- sent at `sent` and stamped the row at `at`, however polls, updates, lost or late replies and the
-- claims of others follow one another, a poll at which the loop goes on finds the row untaken.
-- The settings are usable, and the heartbeat interval is at least two microseconds.
pub body_never_taken :
    (config : JobWorkerConfig) (sent at time : ℕ)
    → IsUsable config
    → 2000 ≤ config.heartbeat_interval
    → sent / 1000 ≤ at
    → at ≤ time / 1000
    → sent ≤ time
    → {y : System} (p : Poll) (s' : LoopState) → Reach config (claimed config sent at time) y
    → p.now ≡ y.time
    → poll config y.loop p ≡ continue s'
    → y.taken ≡ false
body_never_taken config sent at time u i h k l {y} p s' r n e =
    let v = Reach-Inv config i u (claimed-Inv config sent at time h k l) r in
    let c = poll_continues config y.loop s' p e in ground arith

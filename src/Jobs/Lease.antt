-- ===== src/Jobs/Lease.antt =====
-- The race of a job's body with its heartbeats and its watchdog: `run_next_job` of
-- crates/cja/src/jobs/worker.rs. The runtime is a list of polls, each with what is ready at it.
pub mod Loop
pub mod Timeline
use cja.Common.{
  ℕ, ◌+◌, ◌/◌, String, Option, none, some, List, [], ◌∷◌, Bool, true, false, ◌==◌, leb,
  if◌then◌else◌,
}
use cja.Common.Sql.{Result, ok, World}
use cja.Jobs.Tables.{Tables}
use cja.Jobs.Config.{JobWorkerConfig, LeaseTracker, deadline}
use cja.Jobs.Claim.{Claimer, ClaimedJob, TickError}
use cja.Jobs.Finalize.{RunJobOutcome, lease_lost, finalize}

-- How the UPDATE of a heartbeat answers.
pub data HeartbeatReply : Type 0 where
  rows_affected : ℕ → HeartbeatReply
  update_failed : HeartbeatReply

-- The variables of the loop. `heartbeat` says whether an update is in flight.
pub record LoopState : Type 0 where
  pub last_refresh_sent : ℕ
  pub next_tick : ℕ
  pub heartbeat : Bool
  pub heartbeat_sent_at : ℕ

-- One poll of the `select!`: the time, the result of the body if it has ended (`none` for
-- `Ok(())`), and the reply to the update in flight if it has come.
pub record Poll : Type 0 where
  pub now : ℕ
  pub body : Option (Option String)
  pub reply : Option HeartbeatReply

pub data Turn : Type 0 where
  continue : LoopState → Turn
  body_ended : Option String → Turn
  watchdog_expired ownership_lost : Turn

module _ (config : JobWorkerConfig) where
  abbrev pub tracker : ℕ → LeaseTracker
  tracker sent = record {
    last_refresh_sent = sent;
    heartbeat_interval = config.heartbeat_interval;
    reclaim_window = config.reclaim_window;
  }

  abbrev pub deadline_of : LoopState → ℕ
  deadline_of s = deadline (tracker s.last_refresh_sent)

  -- The branch of the heartbeat: a reply, or the timeout of a third of the interval.
  unfoldable pub hear : LoopState → ℕ → Option HeartbeatReply → Turn
  hear s now (some (rows_affected n)) =
      if n == 1
      then continue (record s { last_refresh_sent = s.heartbeat_sent_at; heartbeat = false })
      else ownership_lost
  hear s now (some update_failed) = continue (record s { heartbeat = false })
  hear s now none =
      if leb (s.heartbeat_sent_at + config.heartbeat_interval / 3) now
      then continue (record s { heartbeat = false })
      else continue s

  -- The branch of the tick: the next update is sent.
  unfoldable pub beat : LoopState → ℕ → Turn
  beat s now =
      if leb s.next_tick now
      then continue (record s {
        next_tick = now + config.heartbeat_interval;
        heartbeat = true;
        heartbeat_sent_at = now;
      })
      else continue s

  -- The `biased` select: body, watchdog, heartbeat, tick.
  unfoldable pub poll : LoopState → Poll → Turn
  unfolding hear beat
  poll s p = elim p.body [
    | some result ↦ body_ended result
    | none ↦
        if leb (deadline_of s) p.now
        then watchdog_expired
        else if s.heartbeat
        then hear s p.now p.reply
        else beat s p.now
  ]

  -- The loop over the polls; a loop that is still running has its state.
  unfoldable pub run_loop : LoopState → List Poll → Turn
  run_loop s [] = continue s
  run_loop s (p ∷ ps) = elim (poll s p) [
    | continue s' ↦ run_loop s' ps
    | body_ended result ↦ body_ended result
    | watchdog_expired ↦ watchdog_expired
    | ownership_lost ↦ ownership_lost
  ]

  unfoldable pub initial : ℕ → LoopState
  initial claim_sent_at = record {
    last_refresh_sent = claim_sent_at;
    next_tick = claim_sent_at + config.heartbeat_interval;
    heartbeat = false;
    heartbeat_sent_at = claim_sent_at;
  }

  -- The start of `run_next_job`, at the instant `started`.
  unfoldable pub race : ℕ → ℕ → List Poll → Turn
  unfolding initial
  race claim_sent_at started polls =
      if leb (deadline (tracker claim_sent_at)) started
      then watchdog_expired
      else run_loop (initial claim_sent_at) polls

  abbrev pub conclude :
      Claimer
      → ℕ
      → ClaimedJob
      → List ℕ
      → World Tables
      → Turn
      → Option (Result TickError RunJobOutcome) × World Tables × List ℕ
  conclude worker now claimed abandoned w (continue s) = (none, w, abandoned)
  conclude worker now claimed abandoned w (body_ended result) =
      let (r, w') = finalize worker now claimed.job result w in (some r, w', abandoned)
  conclude worker now claimed abandoned w watchdog_expired =
      (some (ok (lease_lost claimed.job.job_id)), w, claimed.job.job_id ∷ abandoned)
  conclude worker now claimed abandoned w ownership_lost =
      (some (ok (lease_lost claimed.job.job_id)), w, abandoned)

  -- `run_next_job`: `w` is the database when the race has ended, and `now` its clock; `none` while
  -- the race goes on. The last component is `abandoned_jobs`.
  unfoldable pub run_next_job :
      Claimer
      → ClaimedJob
      → ℕ
      → List Poll
      → ℕ
      → List ℕ
      → World Tables
      → Option (Result TickError RunJobOutcome) × World Tables × List ℕ
  unfolding race
  run_next_job worker claimed started polls now abandoned w =
      conclude worker now claimed abandoned w (race claimed.claim_sent_at started polls)

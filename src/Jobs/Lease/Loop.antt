-- ===== src/Jobs/Lease/Loop.antt =====
-- What bounds the run of a job's body in crates/cja/src/jobs/worker.rs.
use cja.Common.{
  ℕ, ◌+◌, ◌≤◌, ◌<◌, ◌≡◌, ◌≢◌, refl, none, some, List, [], ◌∷◌, true, arith, ◌⊎◌, All, ◌++◌,
}
use cja.Jobs.Config.{JobWorkerConfig}
use cja.Jobs.Lease.{
  LoopState, Poll, Turn, continue, body_ended, watchdog_expired, ownership_lost, poll, run_loop,
  deadline_of, rows_affected,
}

module _ (config : JobWorkerConfig) where
  -- No heartbeat is counted that was not sent before the present.
  pub record IsTimely (now : ℕ) (s : LoopState) : Type 0 where
    pub refresh_past : s.last_refresh_sent ≤ now
    pub sent_past : s.heartbeat_sent_at ≤ now
    pub tick_near : s.next_tick ≤ now + config.heartbeat_interval

  -- A poll at which the loop goes on comes before the deadline that held before it, with the body
  -- still pending, and leaves a state whose refresh time is the old one or that of the update
  -- which was answered.
  pub poll_continues :
      (s s' : LoopState) (p : Poll)
      → poll config s p ≡ continue s'
      → (p.body ≡ none)
        × (p.now < deadline_of config s)
        × ((s'.last_refresh_sent ≡ s.last_refresh_sent)
            ⊎ ((s'.last_refresh_sent ≡ s.heartbeat_sent_at) × (s.heartbeat ≡ true)))
  unfolding poll
  poll_continues s s' p h = ground arith

  poll-IsTimely :
      (now : ℕ) (s s' : LoopState) (p : Poll)
      → now ≤ p.now
      → IsTimely now s
      → poll config s p ≡ continue s'
      → IsTimely p.now s'
  unfolding poll
  poll-IsTimely now s s' p h t e = ground arith

  -- A poll that hears of no refresh leaves the deadline.
  poll_silent :
      (s s' : LoopState) (p : Poll)
      → p.reply ≢ some (rows_affected 1)
      → poll config s p ≡ continue s'
      → s'.last_refresh_sent ≡ s.last_refresh_sent
  unfolding poll
  poll_silent s s' p n h = ground arith

  poll_late :
      (s s' : LoopState) (p : Poll) → deadline_of config s ≤ p.now → poll config s p ≢ continue s'
  unfolding poll
  poll_late s s' p d h = ground arith

  unfoldable pub resumed : Turn → List Poll → Turn
  resumed (continue s') ps = run_loop config s' ps
  resumed (body_ended r) ps = body_ended r
  resumed watchdog_expired ps = watchdog_expired
  resumed ownership_lost ps = ownership_lost

  -- A loop ends if it ends after every state that its first poll can leave.
  resumed-stops :
      (s s' : LoopState) (p : Poll) (rest : List Poll) (t : Turn)
      → poll config s p ≡ t
      → ((s1 : LoopState) → poll config s p ≡ continue s1 → run_loop config s1 rest ≢ continue s')
      → resumed t rest ≢ continue s'
  unfolding resumed
  resumed-stops s s' p rest (continue s1) e f h = f s1 e h
  resumed-stops s s' p rest (body_ended r) e f h = cc
  resumed-stops s s' p rest watchdog_expired e f h = cc
  resumed-stops s s' p rest ownership_lost e f h = cc

  pub run_loop-cons :
      (s : LoopState) (p : Poll) (ps : List Poll)
      → run_loop config s (p ∷ ps) ≡ resumed (poll config s p) ps
  unfolding run_loop resumed
  run_loop-cons s p ps = ground arith

  -- A job whose heartbeats are never acknowledged does not outlive its first deadline: if no poll
  -- but perhaps the last hears that a row was refreshed, and the last one comes at the deadline
  -- or later, the loop has ended by then.
  pub run_loop-silent :
      (s s' : LoopState) (ps : List Poll) (q : Poll)
      → All (λ p. p.reply ≢ some (rows_affected 1)) ps
      → deadline_of config s ≤ q.now
      → run_loop config s (ps ++ q ∷ []) ≢ continue s'
  run_loop-silent s s' [] q a d =
      rw run_loop-cons
        (resumed-stops s s' q [] (poll config s q) refl λ s1 e _. poll_late s s1 q d e)
  run_loop-silent s s' (p ∷ ps) q a d = rw run_loop-cons (
      resumed-stops s s' p (ps ++ q ∷ []) (poll config s p) refl
        λ s1 e. run_loop-silent s1 s' ps q a.1 (rw (poll_silent s s1 p a.0 e) d))

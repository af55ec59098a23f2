-- ===== src/Jobs/Worker/Invariant.antt =====
-- The rule for invariants of the loop of crates/cja/src/jobs/worker.rs: what every part of a pass
-- keeps, a whole run keeps.
use cja.Common.{
  ◌*◌, ◌≡◌, refl, Bool, true, false, Option, none, some, List, [], ◌∷◌, All, min, subst, sym, arith,
  not, ◌&&◌, if◌then◌else◌,
}
use cja.Common.Sql.{Result, ok, err}
use cja.Jobs.Claim.{TickError, ClaimedJob}
use cja.Jobs.Worker.{
  Worker, WorkerState, Pass, Flow, again, leave, Admitted, ClaimKind, claim, stop, parked,
  admit_claim, settle_pass, run_claimed_job, fetched, fetch_pass, fetch_now, claim_unheard, ran,
  raced, admitted, pass_loop, run_passes, FetchEnd, answers, dropped_unsent, dropped_claimed,
  dropped_done, tick_error_backoff_base, tick_error_backoff_max,
}

-- The state in which a flow goes on or ends.
abbrev pub Throughout : (WorkerState → Type 0) → Flow → Type 0
Throughout P (again s) = P s
Throughout P (leave s) = P s

-- Each change of the state in a pass that `Q` allows.
pub record Maintains (worker : Worker) (Q : Pass → Type 0) (P : WorkerState → Type 0) : Type 0 where
  pub succeeds :
      (s : WorkerState) → P s → P (record s { tick_error_backoff = tick_error_backoff_base })
  pub gives_up : (s : WorkerState) → P s → P (record s { permit = false; after_job = false })
  pub backs_off :
      (s : WorkerState)
      → P s
      → P (record s { tick_error_backoff = min (s.tick_error_backoff * 2) tick_error_backoff_max })
  pub idles : (s : WorkerState) → P s → P (record s { after_job = false })
  pub admits :
      (s : WorkerState) (pass : Pass) (kind : ClaimKind) (permit : Bool)
      → worker.config.idle_poll_gate ≡ true
      → admit_claim s.permit s.after_job pass.admission ≡ claim kind permit
      → P s
      → P (record s { permit = permit })
  pub fetches :
      (s : WorkerState) (pass : Pass)
      → Q pass
      → P s
      → let (r, w, abandoned) = fetch_now worker pass s in
        P (record s { world = w; abandoned_jobs = abandoned })
  pub claims :
      (s : WorkerState) (pass : Pass)
      → Q pass
      → P s
      → P (record s { world = claim_unheard worker pass s.world })
  pub runs :
      (s : WorkerState) (pass : Pass) (claimed : ClaimedJob)
      → Q pass
      → P s
      → let (r, w, abandoned) = run_claimed_job worker pass claimed s.abandoned_jobs s.world in
        P (record s {
          permit = false;
          after_job = worker.config.idle_poll_gate;
          abandoned_jobs = abandoned;
          world = w;
        })

Throughout-if :
    (P : WorkerState → Type 0) (b : Bool) (f g : Flow)
    → Throughout P f
    → Throughout P g
    → Throughout P (if b then f else g)
Throughout-if P true f g h k = h
Throughout-if P false f g h k = k

unfoldable pub onward : Worker → Flow → List Pass → Flow
onward worker (again s) ps = run_passes worker s ps
onward worker (leave s) ps = leave s

pub run_passes-cons :
    (worker : Worker) (s : WorkerState) (p : Pass) (ps : List Pass)
    → run_passes worker s (p ∷ ps) ≡ onward worker (pass_loop worker s p) ps
unfolding run_passes onward
run_passes-cons worker s p ps = ground arith

module _ {worker : Worker} {Q : Pass → Type 0} {P : WorkerState → Type 0}
    (m : Maintains worker Q P) where
  settle_pass-keeps :
      (pass : Pass) (s : WorkerState) (r : Result TickError (Unit {0}))
      → P s
      → Throughout P (settle_pass pass s r)
  unfolding settle_pass
  settle_pass-keeps pass s (ok x) h = m.succeeds s h
  settle_pass-keeps pass s (err e) h =
      let s' : WorkerState = record s { permit = false; after_job = false } in
      Throughout-if P pass.backoff_cancelled (leave s')
        (again (record s' {
          tick_error_backoff = min (s.tick_error_backoff * 2) tick_error_backoff_max;
        }))
        (m.gives_up s h) (m.backs_off s' (m.gives_up s h))

  ran-keeps :
      (pass : Pass) (s : WorkerState) (r : Option (Result TickError (Unit {0})))
      → P s
      → Throughout P (ran pass s r)
  unfolding ran
  ran-keeps pass s none h = h
  ran-keeps pass s (some r) h = settle_pass-keeps pass s r h

  fetched-keeps :
      (pass : Pass) (s : WorkerState) (r : Result TickError (Option ClaimedJob))
      → Q pass
      → P s
      → Throughout P (fetched worker pass s r)
  unfolding fetched
  fetched-keeps pass s (err e) q h = settle_pass-keeps pass s (err e) h
  fetched-keeps pass s (ok none) q h =
      let s' : WorkerState = record s { after_job = false } in
      let f = settle_pass pass s' (ok tt) in
      let k = settle_pass-keeps pass s' (ok tt) (m.idles s h) in
      Throughout-if P (worker.config.idle_poll_gate && not s.permit) f
        (if pass.sleep_cancelled then leave s' else f) k
        (Throughout-if P pass.sleep_cancelled (leave s') f (m.idles s h) k)
  fetched-keeps pass s (ok (some claimed)) q h =
      let t = run_claimed_job worker pass claimed s.abandoned_jobs s.world in
      ran-keeps pass
        (record s {
          permit = false;
          after_job = worker.config.idle_poll_gate;
          abandoned_jobs = t.2;
          world = t.1;
        })
        t.0 (m.runs s pass claimed q h)

  raced-keeps :
      (pass : Pass) (s : WorkerState) (e : FetchEnd)
      → Q pass
      → P s
      → Throughout P (raced worker pass s e)
  raced-keeps pass s answers q h =
      let t = fetch_now worker pass s in
      fetched-keeps pass (record s { world = t.1; abandoned_jobs = t.2 }) t.0 q
        (m.fetches s pass q h)
  raced-keeps pass s dropped_unsent q h = h
  raced-keeps pass s dropped_claimed q h = m.claims s pass q h
  raced-keeps pass s dropped_done q h = m.fetches s pass q h

  fetch_pass-keeps :
      (pass : Pass) (s : WorkerState) → Q pass → P s → Throughout P (fetch_pass worker pass s)
  unfolding fetch_pass
  fetch_pass-keeps pass s q h = raced-keeps pass s pass.fetch_end q h

  admitted-keeps :
      (pass : Pass) (s : WorkerState) (a : Admitted)
      → worker.config.idle_poll_gate ≡ true
      → admit_claim s.permit s.after_job pass.admission ≡ a
      → Q pass
      → P s
      → Throughout P (admitted worker pass s a)
  admitted-keeps pass s stop g e q h = h
  admitted-keeps pass s parked g e q h = h
  admitted-keeps pass s (claim kind permit) g e q h =
      fetch_pass-keeps pass (record s { permit = permit }) q (m.admits s pass kind permit g e h)

  gate_keeps :
      (pass : Pass) (s : WorkerState) (b : Bool)
      → worker.config.idle_poll_gate ≡ b
      → Q pass
      → P s
      → Throughout P (
          if b
          then admitted worker pass s (admit_claim s.permit s.after_job pass.admission)
          else fetch_pass worker pass s)
  gate_keeps pass s true g q h =
      admitted-keeps pass s (admit_claim s.permit s.after_job pass.admission) g refl q h
  gate_keeps pass s false g q h = fetch_pass-keeps pass s q h

  pass_loop-keeps :
      (s : WorkerState) (pass : Pass) → Q pass → P s → Throughout P (pass_loop worker s pass)
  unfolding pass_loop
  pass_loop-keeps s pass q h = gate_keeps pass s worker.config.idle_poll_gate refl q h

  onward-keeps :
      (f : Flow) (ps : List Pass)
      → Throughout P f
      → ((s : WorkerState) → P s → Throughout P (run_passes worker s ps))
      → Throughout P (onward worker f ps)
  unfolding onward
  onward-keeps (again s) ps h k = k s h
  onward-keeps (leave s) ps h k = h

  -- An invariant of each part of a pass is an invariant of every run.
  pub run_passes-keeps :
      (s : WorkerState) (ps : List Pass) → All Q ps → P s → Throughout P (run_passes worker s ps)
  unfolding run_passes
  run_passes-keeps s [] q h = h
  run_passes-keeps s (p ∷ ps) q h = subst (Throughout P) (sym (run_passes-cons worker s p ps)) (
      onward-keeps (pass_loop worker s p) ps (pass_loop-keeps s p q.0 h)
        λ s' h'. run_passes-keeps s' ps q.1 h')

-- ===== src/Jobs/Worker/Gate.antt =====
-- The permits of the idle poll gate in the loop of crates/cja/src/jobs/worker.rs.
use cja.Common.{◌≡◌, Bool, true, false, arith, List, [], ◌∷◌, All}
use cja.Jobs.Worker.{Worker, WorkerState, Pass, ClaimKind, claim, admit_claim, run_passes}
use cja.Jobs.Worker.Invariant.{Maintains, Throughout, run_passes-keeps}

-- Without a gate nothing is held; with one, a claim right after a job is made without a permit.
pub record IsGated (worker : Worker) (s : WorkerState) : Type 0 where
  pub ungated : worker.config.idle_poll_gate ≡ false → (s.permit ≡ false) × (s.after_job ≡ false)
  pub free_after_job : s.after_job ≡ true → s.permit ≡ false

abbrev pub AnyPass : Pass → Type 0
AnyPass p = Unit

admits-IsGated :
    (worker : Worker) (s : WorkerState) (pass : Pass) (kind : ClaimKind) (permit : Bool)
    → worker.config.idle_poll_gate ≡ true
    → admit_claim s.permit s.after_job pass.admission ≡ claim kind permit
    → IsGated worker s
    → IsGated worker (record s { permit = permit })
unfolding admit_claim
admits-IsGated worker s pass kind permit g e h = ground arith

Maintains-IsGated : (worker : Worker) → Maintains worker AnyPass (IsGated worker)
Maintains-IsGated worker = record {
  succeeds = λ s h. ground arith;
  gives_up = λ s h. ground arith;
  backs_off = λ s h. ground arith;
  idles = λ s h. ground arith;
  admits = admits-IsGated worker;
  fetches = λ s pass q h. ground arith;
  claims = λ s pass q h. ground arith;
  runs = λ s pass c q h. ground arith;
}

pub All-AnyPass : (ps : List Pass) → All AnyPass ps
All-AnyPass [] = tt
All-AnyPass (p ∷ ps) = (tt, All-AnyPass ps)

-- Whatever the environment does, a worker without a gate never holds a permit, and one with a gate
-- holds none when it claims right after a job.
pub run_passes-IsGated :
    (worker : Worker) (s : WorkerState) (ps : List Pass)
    → IsGated worker s
    → Throughout (IsGated worker) (run_passes worker s ps)
run_passes-IsGated worker s ps = run_passes-keeps (Maintains-IsGated worker) s ps (All-AnyPass ps)

-- ===== src/Jobs/Worker/Backoff.antt =====
-- The backoff after failed ticks in the loop of crates/cja/src/jobs/worker.rs.
use native.Mathlib.Nat.{pow-suc, add-zero}
use cja.Common.{
  ℕ, suc, ◌+◌, ◌*◌, ◌^◌, ◌≤◌, ◌≡◌, refl, false, arith, List, [], ◌∷◌, All, min, length, subst, sym,
}
use cja.Common.Sql.{SqlError, Fault, refuse, query}
use cja.Jobs.Tables.{Tables}
use cja.Jobs.Claim.{fetch_next_job}
use cja.Jobs.Worker.{
  Worker, WorkerState, Pass, Flow, again, leave, answers, pass_loop, run_passes,
  tick_error_backoff_max, settle_pass,
}
use cja.Jobs.Worker.Gate.{AnyPass, All-AnyPass}
use cja.Jobs.Worker.Invariant.{Maintains, Throughout, run_passes-keeps, run_passes-cons, onward}

-- One second at least, and the cap at most.
abbrev pub IsBackoff : WorkerState → Type 0
IsBackoff s = (1 ≤ s.tick_error_backoff) × (s.tick_error_backoff ≤ tick_error_backoff_max)

Maintains-IsBackoff : (worker : Worker) → Maintains worker AnyPass IsBackoff
Maintains-IsBackoff worker = record {
  succeeds = λ s h. omega arith;
  gives_up = λ s h. h;
  backs_off = λ s h. omega arith;
  idles = λ s h. h;
  admits = λ s pass kind permit g e h. h;
  fetches = λ s pass q h. h;
  claims = λ s pass q h. h;
  runs = λ s pass c q h. h;
}

-- Whatever fails, the wait after a failed tick stays between one second and thirty.
pub run_passes-IsBackoff :
    (worker : Worker) (s : WorkerState) (ps : List Pass)
    → IsBackoff s
    → Throughout IsBackoff (run_passes worker s ps)
run_passes-IsBackoff worker s ps =
    run_passes-keeps (Maintains-IsBackoff worker) s ps (All-AnyPass ps)

-- The wait after `k` failures in a row.
abbrev pub backoff_after : ℕ → ℕ
backoff_after k = min (2 ^ k) tick_error_backoff_max

backoff_after-suc :
    (k : ℕ) → min (backoff_after k * 2) tick_error_backoff_max ≡ backoff_after (suc k)
backoff_after-suc k = omega (arith, pow-suc 2 k)

-- The next statements are refused, one for each pass.
abbrev pub refusals : SqlError → List Pass → List Fault → List Fault
refusals e [] rest = rest
refusals e (p ∷ ps) rest = refuse e ∷ refusals e ps rest

-- A pass whose fetch is awaited and whose wait is not cut short.
abbrev pub IsSteady : Pass → Type 0
IsSteady p = (p.fetch_end ≡ answers) × (p.backoff_cancelled ≡ false)

-- Still running after `k` failures in a row, with the tables as given.
abbrev pub HasBackedOff : ℕ → Tables → List Fault → Flow → Type 0
HasBackedOff k db faults (again s) =
    (s.tick_error_backoff ≡ backoff_after k) × (s.world.db ≡ db) × (s.world.faults ≡ faults)
HasBackedOff k db faults (leave s) = ⊥

refused_pass :
    (worker : Worker) (s : WorkerState) (p : Pass) (e : SqlError) (rest : List Fault) (k : ℕ)
    → worker.config.idle_poll_gate ≡ false
    → IsSteady p
    → s.world.faults ≡ refuse e ∷ rest
    → s.tick_error_backoff ≡ backoff_after k
    → HasBackedOff (suc k) s.world.db rest (pass_loop worker s p)
unfolding pass_loop fetch_next_job query settle_pass
refused_pass worker s p e rest k g h f b = ground (arith, backoff_after-suc k)

onward_refused :
    (worker : Worker) (f : Flow) (ps : List Pass) (k n : ℕ) (db : Tables) (faults rest : List Fault)
    → HasBackedOff k db faults f
    → ((s : WorkerState)
        → s.tick_error_backoff ≡ backoff_after k
        → s.world.faults ≡ faults
        → HasBackedOff n s.world.db rest (run_passes worker s ps))
    → HasBackedOff n db rest (onward worker f ps)
unfolding onward
onward_refused worker (again s) ps k n db faults rest h go =
    subst (λ d. HasBackedOff n d rest (run_passes worker s ps)) h.1 (go s h.0 h.2)
onward_refused worker (leave s) ps k n db faults rest h go = absurd h

-- While the database refuses every claim, a worker without a gate goes on: after `n` refusals in a
-- row it still runs, has changed nothing in the tables, and waits min(2 ^ (k + n), 30) seconds,
-- where `k` refusals came before. Its fetches are awaited and its waits are not cut short.
pub run_passes-refused :
    (worker : Worker) (s : WorkerState) (ps : List Pass) (e : SqlError) (rest : List Fault) (k : ℕ)
    → worker.config.idle_poll_gate ≡ false
    → All IsSteady ps
    → s.world.faults ≡ refusals e ps rest
    → s.tick_error_backoff ≡ backoff_after k
    → HasBackedOff (k + length ps) s.world.db rest (run_passes worker s ps)
unfolding run_passes
run_passes-refused worker s [] e rest k g a f b = (rw add-zero b, refl, f)
run_passes-refused worker s (p ∷ ps) e rest k g a f b =
    subst (HasBackedOff (k + length (p ∷ ps)) s.world.db rest) (sym (run_passes-cons worker s p ps))
      (onward_refused worker (pass_loop worker s p) ps (suc k) (k + length (p ∷ ps)) s.world.db
        (refusals e ps rest) rest (refused_pass worker s p e (refusals e ps rest) k g a.0 f b)
        λ s' b' f'.
          subst (λ (n : ℕ). HasBackedOff n s'.world.db rest (run_passes worker s' ps)) (omega arith)
            (run_passes-refused worker s' ps e rest (suc k) g a.1 f' b'))

-- ===== src/Jobs/Worker/Queue.antt =====
-- No job is lost by a worker of crates/cja/src/jobs/worker.rs, over all its passes.
use cja.Common.{ℕ, ◌≡◌, refl, Option, List, All, modify, count}
use cja.Common.Int.{ℤ, pos, negsuc}
use cja.Common.Sql.{
  SqlError, Fault, deliver, refuse, lost, Result, ok, err, World, query, settle, next_fault,
}
use cja.Jobs.Tables.{Tables}
use cja.Jobs.Config.{JobWorkerConfig, ConfigError, validate}
use cja.Jobs.Claim.{Claimer, ClaimedJob, TickError, sql, claim_statement, claim_row, candidate}
use cja.Jobs.Claim.Effects.{Keeps-Stands, Stands, fetch_keeps}
use cja.Jobs.Copies.{copies, IsKeyed}
use cja.Jobs.Finalize.{cleanup_worker_locks, releasable, release}
use cja.Jobs.Worker.{
  Worker, WorkerState, WorkerError, Pass, Flow, again, leave, claim_unheard, fetch_now, run_passes,
  Outcome, running, returned, finished, start_state, cleaned, after_schema, verify_jobs_schema,
  after_validate, job_worker,
}
use cja.Jobs.Worker.Stands.{NoSuccess, modify-Stands, run_claimed_job-Stands}
use cja.Jobs.Worker.Invariant.{Maintains, Throughout, run_passes-keeps}

-- A job stands `n` times in the tables, and every id is a key.
abbrev pub IsSound : ℕ → ℕ → Tables → Type 0
IsSound id n t = (copies id t ≡ n) × ((j : ℕ) → IsKeyed j t)

-- What keeps `Stands` for every job keeps `IsSound`.
IsSound-lift :
    (id n : ℕ) (t t' : Tables)
    → ((j m : ℕ) → Stands j m t → Stands j m t')
    → IsSound id n t
    → IsSound id n t'
IsSound-lift id n t t' f h = ((f id n (h.0, h.1 id)).0, λ j. (f j (copies j t) (refl, h.1 j)).1)

module _ (worker : Worker) (id n : ℕ) where
  abbrev Kept : WorkerState → Type 0
  Kept s = IsSound id n s.world.db

  claim_faults-Stands :
      (j m : ℕ) (f : Fault) (o : Option ClaimedJob) (before after : Tables)
      → Stands j m before
      → Stands j m after
      → Stands j m (settle {E = TickError} sql f (o, after) before).1
  claim_faults-Stands j m deliver o before after h k = k
  claim_faults-Stands j m (refuse e) o before after h k = h
  claim_faults-Stands j m (lost e) o before after h k = k

  claim_unheard-Stands :
      (pass : Pass) (w : World Tables) (j m : ℕ)
      → Stands j m w.db
      → Stands j m (claim_unheard worker pass w).db
  unfolding query claim_statement
  claim_unheard-Stands pass w j m h =
      let o =
        candidate pass.row_locked pass.claimed_at worker.claimer.reclaim_window_micros w.db.jobs in
      let c = claim_row pass.claim_sent_at worker.claimer.owner_token pass.claimed_at w.db o in
      claim_faults-Stands j m (next_fault w.faults) c.0 w.db c.1 h (
        (Keeps-Stands j m).claims pass.claim_sent_at worker.claimer.owner_token pass.claimed_at w.db
          o h)

  Maintains-Kept : Maintains worker (NoSuccess id) Kept
  Maintains-Kept = record {
    succeeds = λ s h. h;
    gives_up = λ s h. h;
    backs_off = λ s h. h;
    idles = λ s h. h;
    admits = λ s pass kind permit g e h. h;
    fetches = λ s pass q h.
        IsSound-lift id n s.world.db (fetch_now worker pass s).1.db
          (λ j m.
            fetch_keeps (Stands j m) (Keeps-Stands j m) worker.claimer pass.claim_sent_at
              pass.row_locked pass.claimed_at s.abandoned_jobs s.world)
          h;
    claims = λ s pass q h.
        IsSound-lift id n s.world.db (claim_unheard worker pass s.world).db
          (claim_unheard-Stands pass s.world) h;
    runs = λ s pass c q h.
        run_claimed_job-Stands worker id n pass c s.abandoned_jobs s.world q h.1 h.0;
  }

cleanup_faults-Stands :
    (id n m : ℕ) (f : Fault) (before after : Tables)
    → Stands id n before
    → Stands id n after
    → Stands id n (settle {E = TickError} sql f (m, after) before).1
cleanup_faults-Stands id n m deliver before after h k = k
cleanup_faults-Stands id n m (refuse e) before after h k = h
cleanup_faults-Stands id n m (lost e) before after h k = k

cleanup-Stands :
    (id n owner : ℕ) (abandoned : List ℕ) (w : World Tables)
    → Stands id n w.db
    → Stands id n (cleanup_worker_locks owner abandoned w).1.db
unfolding cleanup_worker_locks query
cleanup-Stands id n owner abandoned w h =
    cleanup_faults-Stands id n (count (releasable owner abandoned) w.db.jobs) (next_fault w.faults)
      w.db (record w.db { jobs = modify (releasable owner abandoned) release w.db.jobs }) h
      (modify-Stands id n (releasable owner abandoned) release w.db (λ r. refl) h)

-- The tables that a call of `job_worker` has come to.
abbrev pub tables_of : Outcome → Tables
tables_of (running s) = s.world.db
tables_of (returned r w) = w.db

cleaned-IsSound :
    (id n : ℕ) (r : Result TickError ℕ) (w : World Tables)
    → IsSound id n w.db
    → IsSound id n (tables_of (cleaned (r, w)))
cleaned-IsSound id n (ok m) w h = h
cleaned-IsSound id n (err e) w h = h

finished-IsSound :
    (worker : Worker) (id n : ℕ) (f : Flow)
    → Throughout (λ s. IsSound id n s.world.db) f
    → IsSound id n (tables_of (finished worker f))
finished-IsSound worker id n (again s) h = h
finished-IsSound worker id n (leave s) h =
    let c = cleanup_worker_locks worker.claimer.owner_token s.abandoned_jobs s.world in
    cleaned-IsSound id n c.0 c.1 (
      IsSound-lift id n s.world.db c.1.db
        (λ j m. cleanup-Stands j m worker.claimer.owner_token s.abandoned_jobs s.world) h)

after_schema-IsSound :
    (worker : Worker) (id n : ℕ) (w : World Tables) (ps : List Pass)
    (r : Result WorkerError (Unit {0}))
    → All (NoSuccess id) ps
    → IsSound id n w.db
    → IsSound id n (tables_of (after_schema worker w ps r))
after_schema-IsSound worker id n w ps (err e) a h = h
after_schema-IsSound worker id n w ps (ok x) a h =
    finished-IsSound worker id n (run_passes worker (start_state w) ps)
      (run_passes-keeps (Maintains-Kept worker id n) (start_state w) ps a h)

after_validate-IsSound :
    (owner retries id n : ℕ) (config : JobWorkerConfig) (checks : List (Option SqlError))
    (w : World Tables) (ps : List Pass) (r : Result ConfigError ℕ)
    → All (NoSuccess id) ps
    → IsSound id n w.db
    → IsSound id n (tables_of (after_validate owner retries config checks w ps r))
after_validate-IsSound owner retries id n config checks w ps (err e) a h = h
after_validate-IsSound owner retries id n config checks w ps (ok window) a h =
    let claimer : Claimer = record {
      owner_token = owner;
      max_retries = retries;
      reclaim_window_micros = window;
    } in
    after_schema-IsSound (record { config = config; claimer = claimer }) id n w ps
      (verify_jobs_schema checks) a h

-- A whole run of `job_worker` neither loses nor doubles a job: from tables in which ids are keys,
-- whatever its settings, however its statements fare and its polls and cancellations fall, and
-- whatever other jobs succeed or fail, if the body of a job does not return successfully then that
-- job stands in the two tables, taken together, as often as before, and ids are still keys.
pub job_worker-conserves :
    (owner : ℕ) (retries : ℤ) (config : JobWorkerConfig) (checks : List (Option SqlError))
    (w : World Tables) (ps : List Pass) (id : ℕ)
    → All (NoSuccess id) ps
    → ((j : ℕ) → IsKeyed j w.db)
    → IsSound id (copies id w.db) (tables_of (job_worker owner retries config checks w ps))
unfolding job_worker
job_worker-conserves owner (negsuc x) config checks w ps id a k = (refl, k)
job_worker-conserves owner (pos x) config checks w ps id a k =
    after_validate-IsSound owner x id (copies id w.db) config checks w ps (validate config) a
      (refl, k)

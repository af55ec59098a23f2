-- ===== src/Jobs/Worker.antt =====
-- The loop of a job worker: `job_worker`, `admit_claim`, `run_claimed_job` and
-- `verify_jobs_schema` of crates/cja/src/jobs/worker.rs. What the environment decides in one pass
-- of the loop is a record: which branch of each `select!` is ready, what the statements meet, and
-- how the body of a claimed job fares.
pub mod Invariant
pub mod Backoff
pub mod Gate
pub mod Stands
pub mod Queue
use cja.Common.{
  ℕ, ◌*◌, String, Option, none, some, is_some, List, [], ◌∷◌, Bool, true, false, ◌&&◌, ◌||◌, not,
  min, if◌then◌else◌,
}
use cja.Common.Int.{ℤ, pos, negsuc}
use cja.Common.Sql.{SqlError, database, Result, ok, err, World, query, str_is}
use cja.Jobs.Tables.{Tables}
use cja.Jobs.Config.{JobWorkerConfig, ConfigError, validate}
use cja.Jobs.Claim.{Claimer, ClaimedJob, TickError, sql, claim_statement, fetch_next_job}
use cja.Jobs.Lease.{Poll, run_next_job}
use cja.Jobs.Finalize.{RunJobOutcome, heartbeat_statement, cleanup_worker_locks}

pub data ClaimKind : Type 0 where
  periodic notified after_job : ClaimKind

-- What is ready when the `biased` select of `admit_claim` resolves.
pub record Admission : Type 0 where
  pub cancelled : Bool
  pub permit_free : Bool
  pub woken : Bool

-- The answer of `admit_claim`, with the permit it leaves; `parked` while nothing is ready.
pub data Admitted : Type 0 where
  claim : ClaimKind → Bool → Admitted
  stop parked : Admitted

unfoldable pub admit_claim : Bool → Bool → Admission → Admitted
admit_claim permit after a =
    if after
    then claim after_job permit
    else if permit
    then claim periodic true
    else if a.cancelled
    then stop
    else if a.permit_free
    then claim periodic true
    else if a.woken
    then claim notified false
    else parked

-- The end of a job's run as `run_claimed_job` awaits it: it ends by itself or within the drain, or
-- is dropped when the drain is over, before its last statements or while it awaits their replies.
pub data Drain : Type 0 where
  ends dropped_before dropped_after : Drain

-- The end of a fetch that is raced with the cancellation: it ends by itself, or is dropped before
-- its claim is carried out, after it, or after all its statements.
pub data FetchEnd : Type 0 where
  answers dropped_unsent dropped_claimed dropped_done : FetchEnd

-- One pass of the loop, as the environment decides it.
pub record Pass : Type 0 where
  pub admission : Admission
  pub fetch_end : FetchEnd
  pub claim_sent_at : ℕ
  pub row_locked : ℕ → Bool
  pub claimed_at : ℕ
  pub started : ℕ
  -- how the body of a claimed job fares, by the job
  pub polls : ℕ → List Poll
  -- the database's time at each heartbeat that it carries out
  pub heartbeats : List ℕ
  pub ended_at : ℕ
  pub drain : Drain
  pub sleep_cancelled : Bool
  pub backoff_cancelled : Bool

-- `tick_error_backoff` is in seconds.
pub record WorkerState : Type 0 where
  pub tick_error_backoff : ℕ
  pub permit : Bool
  pub after_job : Bool
  pub abandoned_jobs : List ℕ
  pub world : World Tables

abbrev pub tick_error_backoff_base : ℕ
tick_error_backoff_base = 1

abbrev pub tick_error_backoff_max : ℕ
tick_error_backoff_max = 30

pub record Worker : Type 0 where
  pub config : JobWorkerConfig
  pub claimer : Claimer

-- The loop goes on, or is left.
pub data Flow : Type 0 where
  again leave : WorkerState → Flow

unfoldable pub beats : ℕ → ℕ → List ℕ → Tables → Tables
beats id owner [] t = t
beats id owner (now ∷ rest) t = beats id owner rest (heartbeat_statement id owner now t).1

-- What `run_claimed_job` makes of the outcome: each kind of outcome is logged and is no error.
abbrev pub folded : Result TickError RunJobOutcome → Result TickError (Unit {0})
folded (ok outcome) = ok tt
folded (err e) = err e

abbrev pub awaited :
    Drain
    → List ℕ
    → World Tables
    → Option (Result TickError RunJobOutcome) × World Tables × List ℕ
    → Option (Result TickError (Unit {0})) × World Tables × List ℕ
awaited ends abandoned w (none, w', abandoned') = (none, w', abandoned')
awaited ends abandoned w (some r, w', abandoned') = (some (folded r), w', abandoned')
awaited dropped_before abandoned w _ = (none, w, abandoned)
awaited dropped_after abandoned w (r, w', abandoned') = (none, w', abandoned')

-- `run_claimed_job`; `none`: the drain was over first.
unfoldable pub run_claimed_job :
    Worker
    → Pass
    → ClaimedJob
    → List ℕ
    → World Tables
    → Option (Result TickError (Unit {0})) × World Tables × List ℕ
unfolding beats
run_claimed_job worker pass claimed abandoned w =
    let w1 : World Tables = record w {
      db = beats claimed.job.job_id worker.claimer.owner_token pass.heartbeats w.db;
    } in
    awaited pass.drain abandoned w1 (
      run_next_job worker.config worker.claimer claimed pass.started (pass.polls claimed.job.job_id)
        pass.ended_at abandoned w1)

-- The last part of a pass: a success resets the backoff, an error waits it out and doubles it.
unfoldable pub settle_pass : Pass → WorkerState → Result TickError (Unit {0}) → Flow
settle_pass pass s (ok _) = again (record s { tick_error_backoff = tick_error_backoff_base })
settle_pass pass s (err e) =
    let s' : WorkerState = record s { permit = false; after_job = false } in
    if pass.backoff_cancelled
    then leave s'
    else again
        (record s' { tick_error_backoff = min (s.tick_error_backoff * 2) tick_error_backoff_max })

-- After a job has been claimed.
ran : Pass → WorkerState → Option (Result TickError (Unit {0})) → Flow
unfolding settle_pass
ran pass s none = leave s
ran pass s (some r) = settle_pass pass s r

-- After the fetch.
unfoldable pub fetched : Worker → Pass → WorkerState → Result TickError (Option ClaimedJob) → Flow
unfolding ran
fetched worker pass s (err e) = settle_pass pass s (err e)
fetched worker pass s (ok none) =
    let s' : WorkerState = record s { after_job = false } in
    if worker.config.idle_poll_gate && not s.permit
    then settle_pass pass s' (ok tt)
    else if pass.sleep_cancelled
    then leave s'
    else settle_pass pass s' (ok tt)
fetched worker pass s (ok (some claimed)) =
    let (r, w, abandoned) = run_claimed_job worker pass claimed s.abandoned_jobs s.world in
    ran pass
      (record s {
        permit = false;
        after_job = worker.config.idle_poll_gate;
        abandoned_jobs = abandoned;
        world = w;
      })
      r

-- The claim of a fetch that is dropped before it is answered.
abbrev pub claim_unheard : Worker → Pass → World Tables → World Tables
claim_unheard worker pass w =
    (query sql
      (claim_statement pass.claim_sent_at pass.row_locked worker.claimer.owner_token
        worker.claimer.reclaim_window_micros pass.claimed_at)
      w).1

abbrev pub fetch_now :
    Worker → Pass → WorkerState → Result TickError (Option ClaimedJob) × World Tables × List ℕ
fetch_now worker pass s =
    fetch_next_job worker.claimer pass.claim_sent_at pass.row_locked pass.claimed_at
      s.abandoned_jobs s.world

abbrev pub raced : Worker → Pass → WorkerState → FetchEnd → Flow
raced worker pass s answers =
    let (r, w, abandoned) = fetch_now worker pass s in
    fetched worker pass (record s { world = w; abandoned_jobs = abandoned }) r
raced worker pass s dropped_unsent = leave s
raced worker pass s dropped_claimed = leave (record s { world = claim_unheard worker pass s.world })
raced worker pass s dropped_done =
    let (r, w, abandoned) = fetch_now worker pass s in
    leave (record s { world = w; abandoned_jobs = abandoned })

-- The fetch of a pass that was admitted, raced with the cancellation.
unfoldable pub fetch_pass : Worker → Pass → WorkerState → Flow
unfolding fetched
fetch_pass worker pass s = raced worker pass s pass.fetch_end

abbrev pub admitted : Worker → Pass → WorkerState → Admitted → Flow
admitted worker pass s stop = leave s
admitted worker pass s parked = again s
admitted worker pass s (claim kind permit) = fetch_pass worker pass (record s { permit = permit })

-- One pass of the loop of `job_worker`.
unfoldable pub pass_loop : Worker → WorkerState → Pass → Flow
unfolding fetch_pass
pass_loop worker s pass =
    if worker.config.idle_poll_gate
    then admitted worker pass s (admit_claim s.permit s.after_job pass.admission)
    else fetch_pass worker pass s

-- The loop, over the passes that the environment decides.
unfoldable pub run_passes : Worker → WorkerState → List Pass → Flow
run_passes worker s [] = again s
run_passes worker s (p ∷ ps) = elim (pass_loop worker s p) [
  | again s' ↦ run_passes worker s' ps
  | leave s' ↦ leave s'
]

pub data WorkerError : Type 0 where
  negative_max_retries schema_mismatch : WorkerError
  config_error : ConfigError → WorkerError
  cleanup_failed : TickError → WorkerError

abbrev pub undefined_schema : SqlError → Bool
undefined_schema (database (some code)) = str_is code "42703" || str_is code "42P01"
undefined_schema _ = false

-- `verify_jobs_schema`, over the replies to its checks (`none` for a success).
unfoldable pub verify_jobs_schema : List (Option SqlError) → Result WorkerError (Unit {0})
verify_jobs_schema [] = ok tt
verify_jobs_schema (none ∷ checks) = verify_jobs_schema checks
verify_jobs_schema (some e ∷ checks) = if undefined_schema e then err schema_mismatch else ok tt

abbrev pub start_state : World Tables → WorkerState
start_state w = record {
  tick_error_backoff = tick_error_backoff_base;
  permit = false;
  after_job = false;
  abandoned_jobs = [];
  world = w;
}

-- What a call of `job_worker` has come to: still running, or returned.
pub data Outcome : Type 0 where
  running : WorkerState → Outcome
  returned : Result WorkerError (Unit {0}) → World Tables → Outcome

abbrev pub cleaned : Result TickError ℕ × World Tables → Outcome
cleaned (ok n, w) = returned (ok tt) w
cleaned (err e, w) = returned (err (cleanup_failed e)) w

abbrev pub finished : Worker → Flow → Outcome
finished worker (again s) = running s
finished worker (leave s) =
    cleaned (cleanup_worker_locks worker.claimer.owner_token s.abandoned_jobs s.world)

abbrev pub after_schema :
    Worker → World Tables → List Pass → Result WorkerError (Unit {0}) → Outcome
after_schema worker w passes (err e) = returned (err e) w
after_schema worker w passes (ok _) = finished worker (run_passes worker (start_state w) passes)

abbrev pub after_validate :
    ℕ
    → ℕ
    → JobWorkerConfig
    → List (Option SqlError)
    → World Tables
    → List Pass
    → Result ConfigError ℕ
    → Outcome
after_validate id retries config checks w passes (err e) = returned (err (config_error e)) w
after_validate id retries config checks w passes (ok window) =
    let claimer : Claimer = record {
      owner_token = id;
      max_retries = retries;
      reclaim_window_micros = window;
    } in
    after_schema (record { config = config; claimer = claimer }) w passes
      (verify_jobs_schema checks)

-- `job_worker`, whose worker draws the UUID `id`.
unfoldable pub job_worker :
    ℕ → ℤ → JobWorkerConfig → List (Option SqlError) → World Tables → List Pass → Outcome
job_worker id (negsuc n) config checks w passes = returned (err negative_max_retries) w
job_worker id (pos retries) config checks w passes =
    after_validate id retries config checks w passes (validate config)

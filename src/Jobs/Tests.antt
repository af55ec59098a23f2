-- ===== src/Jobs/Tests.antt =====
-- The theorems on the job queue at concrete inputs, and runs of its code.
use cja.Common.{
  ℕ, ◌≡◌, ◌≢◌, refl, Bool, true, false, Option, none, some, [], ◌∷◌, arith, find, count, keep, ◌↔◌,
  ◌/◌, if◌then◌else◌, ◌==◌,
}
use cja.Common.Int.{pos, lt_ℤ}
use cja.Common.Sql.{io, refuse, lost, deliver, World, ok}
use cja.Jobs.Tables.{JobRow, Tables, JobFromDb, report, has_id}
use cja.Jobs.Config.{JobWorkerConfig, IsUsable, default_config, validate, validate_iff, deadline}
use cja.Jobs.Claim.{
  Claimer, candidate, claimable, precedes, precedes_in_time, first_row, from_row, fetch_next_job,
  dead_letter_owned,
}
use cja.Jobs.Claim.Candidate.{IsNext, candidate-IsNext}
use cja.Jobs.Claim.Burial.{Burial, buried, Owns, dead_letter_owned-Burial}
use cja.Jobs.Claim.Effects.{Stands, fetch_next_job-conserves}
use cja.Jobs.Copies.{copies, IsKeyed}
use cja.Jobs.Finalize.{finalize}
use cja.Jobs.Finalize.Effects.{Ending, ended, finalize-Ending}
use cja.Jobs.Finalize.Conservation.{finalize-conserves, finalize_frame}
use cja.Jobs.Lease.{LoopState, Poll, continue, poll, run_loop, initial}
use cja.Jobs.Lease.Loop.{run_loop-silent}
use cja.Jobs.Lease.Timeline.{System, Step, Reach, claimed, body_never_taken}
use cja.Jobs.Worker.{Worker, Pass, answers, ends, start_state, run_passes, job_worker}
use cja.Jobs.Worker.Invariant.{Throughout}
use cja.Jobs.Worker.Gate.{IsGated, run_passes-IsGated}
use cja.Jobs.Worker.Backoff.{IsBackoff, run_passes-IsBackoff, HasBackedOff, run_passes-refused}
use cja.Jobs.Worker.Queue.{IsSound, tables_of, job_worker-conserves}

abbrev row : ℕ → ℕ → Option ℕ → ℕ → JobRow
row id priority owner errors = record {
  job_id = id;
  name = "SendEmailJob";
  payload = "{}";
  priority = pos priority;
  run_at = 1000000;
  created_at = 1000000;
  context = "user-signup";
  locked_by = owner;
  locked_at = elim owner [ none ↦ none | some o ↦ some 2000000 ];
  error_count = errors;
  last_error_message = none;
  last_failed_at = none;
}

abbrev tables : Tables
tables = record {
  jobs = row 1 0 none 0 ∷ row 2 10 none 0 ∷ row 3 20 (some 77) 20 ∷ [];
  dead_letter_jobs = [];
}

abbrev world : World Tables
world = record { db = tables; faults = [] }

abbrev faulty : World Tables
faulty = record { db = tables; faults = deliver ∷ lost io ∷ [] }

abbrev claimer : Claimer
claimer = record { owner_token = 77; max_retries = 20; reclaim_window_micros = 120000000 }

abbrev unlocked : ℕ → Bool
unlocked id = false

-- The job of the highest priority that is free is claimed.
candidate_example : candidate unlocked 3000000 120000000 tables.jobs ≡ some (row 2 10 none 0)
unfolding candidate claimable precedes precedes_in_time first_row keep lt_ℤ
candidate_example = refl

candidate-IsNext_example :
    IsNext unlocked 3000000 120000000 tables.jobs (candidate unlocked 3000000 120000000 tables.jobs)
candidate-IsNext_example = candidate-IsNext unlocked 3000000 120000000 tables.jobs

dead_letter_owned-Burial_example :
    Burial
      (Owns 3 77 tables)
      tables
      (dead_letter_owned 77 (from_row (row 3 20 (some 77) 20)) 21 (report "boom") faulty).1.db
      (buried 77 (from_row (row 3 20 (some 77) 20)) 21 (report "boom") tables)
      (dead_letter_owned 77 (from_row (row 3 20 (some 77) 20)) 21 (report "boom") faulty).0
unfolding from_row
dead_letter_owned-Burial_example =
    dead_letter_owned-Burial 77 (from_row (row 3 20 (some 77) 20)) 21 (report "boom") faulty

keyed : (j : ℕ) → IsKeyed j tables
unfolding count
keyed j = ground arith

fetch_next_job-conserves_example :
    Stands 2 (copies 2 tables) (fetch_next_job claimer 0 unlocked 3000000 [] faulty).1.db
fetch_next_job-conserves_example =
    fetch_next_job-conserves claimer 0 unlocked 3000000 [] faulty 2 (keyed 2)

validate_iff_example : (validate (default_config 2000000000) ≡ ok 120000000) ↔ (
    IsUsable (default_config 2000000000)
    × (120000000 ≡ (default_config 2000000000).reclaim_window / 1000))
unfolding default_config
validate_iff_example = validate_iff (default_config 2000000000) 120000000 (omega arith)

abbrev dying : JobFromDb
dying = record {
  job_id = 3;
  name = "SendEmailJob";
  payload = "{}";
  priority = pos 20;
  run_at = 1000000;
  created_at = 1000000;
  context = "user-signup";
  error_count = 20;
  last_error_message = none;
  last_failed_at = none;
}

finalize-Ending_example :
    Ending
      (Owns 3 77 tables)
      dying
      (some "boom")
      tables
      (finalize claimer 5000000 dying (some "boom") faulty).1.db
      (ended claimer 5000000 dying (some "boom") tables)
      (finalize claimer 5000000 dying (some "boom") faulty).0
finalize-Ending_example = finalize-Ending claimer 5000000 dying faulty (some "boom") (keyed 3)

finalize-conserves_example :
    copies 3 (finalize claimer 5000000 dying (some "boom") faulty).1.db ≡ copies 3 tables
finalize-conserves_example = finalize-conserves claimer 5000000 dying faulty "boom" 3 (keyed 3)

finalize_frame_example :
    find (has_id 1) (finalize claimer 5000000 dying none world).1.db.jobs
    ≡ find (has_id 1) tables.jobs
finalize_frame_example =
    finalize_frame claimer 5000000 dying world none 1 (keyed 3) (λ e. absurd (omega arith))

abbrev settings : JobWorkerConfig
settings = record {
  heartbeat_interval = 30000000000;
  reclaim_window = 120000000000;
  shutdown_drain_timeout = 2000000000;
  idle_poll_gate = false;
}

settings-IsUsable : IsUsable settings
settings-IsUsable = omega arith

abbrev quiet : ℕ → Poll
quiet now = record { now = now; body = none; reply = none }

run_loop-silent_example :
    run_loop settings
      (initial settings 0)
      (quiet 30000000000 ∷ quiet 60000000000 ∷ quiet 105000000000 ∷ [])
    ≢ continue (initial settings 0)
unfolding initial deadline
run_loop-silent_example =
    run_loop-silent settings (initial settings 0) (initial settings 0)
      (quiet 30000000000 ∷ quiet 60000000000 ∷ []) (quiet 105000000000) (λ e. cc, (λ e. cc, tt))
      (omega arith)

abbrev sent_loop : LoopState
sent_loop = record {
  last_refresh_sent = 0;
  next_tick = 60000000000;
  heartbeat = true;
  heartbeat_sent_at = 30000000000;
}

poll_sends : poll settings (initial settings 0) (quiet 30000000000) ≡ continue sent_loop
unfolding poll initial deadline
poll_sends = refl

abbrev at_beat : System
at_beat = record (claimed settings 0 0 0) { time = 30000000000 }

-- A poll that sends a heartbeat, thirty seconds after the claim.
body_never_taken_example : at_beat.taken ≡ false
body_never_taken_example =
    body_never_taken settings 0 0 0 settings-IsUsable (omega arith) (omega arith) (omega arith)
      (omega arith) {y = at_beat} (quiet 30000000000) sent_loop
      (Reach.next Reach.here (Step.wait (claimed settings 0 0 0) 30000000000)) refl poll_sends

abbrev crew : Worker
crew = record { config = settings; claimer = claimer }

abbrev calm : Pass
calm = record {
  admission = record { cancelled = false; permit_free = true; woken = false };
  fetch_end = answers;
  claim_sent_at = 0;
  row_locked = unlocked;
  claimed_at = 3000000;
  started = 1;
  polls = λ id.
      quiet 1
      ∷ record { now = 2; body = some (if id == 2 then some "boom" else none); reply = none }
      ∷ [];
  heartbeats = [];
  ended_at = 5000000;
  drain = ends;
  sleep_cancelled = false;
  backoff_cancelled = false;
}

abbrev down : World Tables
down = record { db = tables; faults = refuse io ∷ refuse io ∷ [] }

run_passes-IsGated_example :
    Throughout (IsGated crew) (run_passes crew (start_state world) (calm ∷ calm ∷ []))
run_passes-IsGated_example =
    run_passes-IsGated crew (start_state world) (calm ∷ calm ∷ [])
      (record { ungated = λ e. (refl, refl); free_after_job = λ e. refl })

run_passes-IsBackoff_example :
    Throughout IsBackoff (run_passes crew (start_state down) (calm ∷ calm ∷ []))
run_passes-IsBackoff_example =
    run_passes-IsBackoff crew (start_state down) (calm ∷ calm ∷ []) (omega arith)

run_passes-refused_example :
    HasBackedOff 2 tables [] (run_passes crew (start_state down) (calm ∷ calm ∷ []))
run_passes-refused_example =
    run_passes-refused crew (start_state down) (calm ∷ calm ∷ []) io [] 0 refl
      ((refl, refl), ((refl, refl), tt)) refl refl

job_worker-conserves_example :
    IsSound 2
      (copies 2 tables)
      (tables_of (job_worker 77 (pos 20) settings (none ∷ none ∷ []) world (calm ∷ calm ∷ [])))
job_worker-conserves_example =
    job_worker-conserves 77 (pos 20) settings (none ∷ none ∷ []) world (calm ∷ calm ∷ []) 2
      ((λ e. cc, (λ e. cc, tt)), ((λ e. cc, (λ e. cc, tt)), tt)) keyed

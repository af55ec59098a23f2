-- ===== src/Cron/Tests.antt =====
-- The theorems on the cron scheduler at concrete inputs, and runs of its code.
use cja.Common.{
  ℕ, ◌≡◌, ◌↔◌, refl, true, false, none, some, List, [], ◌∷◌, find, count, modify, length, arith,
}
use cja.Common.Sql.{io, lost, deliver, World, ok, err, query}
use cja.Cron.Schedule.{
  interval, HasCome, should_run, interval_should_run, next_run, should_run-next_run,
}
use cja.Cron.Tables.{CronDb, last_run_at}
use cja.Cron.Claim.{transaction, claim_due, rowed, timed, if_due, find_row, stamp, recoverable}
use cja.Cron.Tick.{
  CronJob, callback, job, TickEnv, tick_claimed, after_commit, in_claim, insert, claim_and_act,
  enqueuing_task,
}
use cja.Cron.Tick.Atomic.{Ticked, tick_claimed-Ticked}
use cja.Cron.Tick.Times.{AreApart, receipt_times}
use cja.Cron.Tick.Spacing.{Attempt, Spaced, ticks, ticks-Spaced}
use cja.Cron.Registry.{IsMap, Registering, job_at_interval, register_by, register_by-Registering}
use cja.Cron.Worker.{Worker, Pass, run}
use cja.Cron.Worker.Spacing.{Apart, run-Apart}

abbrev report_job : CronJob
report_job = record {
  name = "Report";
  description = none;
  action = job (record { job_name = "Report"; payload = ok "{}" });
  schedule = interval 300;
}

abbrev hello : CronJob
hello = record { name = "Hello"; description = none; action = callback; schedule = interval 60 }

abbrev env : ℕ → TickEnv
env now = record {
  now = now;
  claim = record { row_unseen = false; inserted_at = now; claim_time = now };
  job_id = now;
  callback_result = ok tt;
}

abbrev db : CronDb
db = record {
  crons = record { name = "Report"; last_run_at = 1000 } ∷ [];
  queue = record { jobs = []; dead_letter_jobs = [] };
}

abbrev world : World CronDb
world = record { db = db; faults = [] }

-- The reply to the COMMIT, the eighth statement after BEGIN, is lost.
abbrev losing : World CronDb
losing = record {
  db = db;
  faults =
      deliver ∷ deliver ∷ deliver ∷ deliver ∷ deliver ∷ deliver ∷ deliver ∷ deliver ∷ lost io ∷ [];
}

tick_fires :
    (tick_claimed report_job "Cron@1" 0 0 (env 1400) world).1
    ≡ enqueuing_task "Report" (some 1000) 1400 ∷ []
unfolding tick_claimed claim_and_act transaction claim_due rowed timed if_due find_row in_claim
    insert after_commit query last_run_at find stamp should_run interval_should_run
tick_fires = refl

-- The job is in the queue, and the scheduler does not know.
tick_unheard :
    let t = tick_claimed report_job "Cron@1" 0 0 (env 1400) losing in
    (t.1 ≡ []) × (length t.2.db.queue.jobs ≡ 1)
unfolding tick_claimed claim_and_act transaction claim_due rowed timed if_due find_row in_claim
    insert after_commit query last_run_at find stamp should_run interval_should_run modify
    recoverable
tick_unheard = (refl, refl)

tick_claimed-Ticked_example :
    let t = tick_claimed report_job "Cron@1" 0 0 (env 1400) losing in
    Ticked report_job "Cron@1" 0 0 (env 1400) db t.2.db t.1
tick_claimed-Ticked_example = tick_claimed-Ticked report_job "Cron@1" 0 0 (env 1400) losing

abbrev attempt : ℕ → Attempt
attempt now = record {
  context = "Cron@1";
  last_enqueue = some 1000;
  worker_started_at = 0;
  timezone = 0;
  env = env now;
}

abbrev attempts : List Attempt
attempts = attempt 1400 ∷ attempt 1401 ∷ attempt 1750 ∷ []

last_run_found : last_run_at "Report" db ≡ some 1000
unfolding last_run_at find
last_run_found = refl

ticks-Spaced_example :
    let t = ticks report_job attempts losing in Spaced report_job 300 1000 attempts db t.1.db t.0
ticks-Spaced_example = ticks-Spaced report_job 300 attempts 1000 losing refl last_run_found

abbrev worker : Worker
worker = record {
  context = "Cron@1";
  registry = report_job ∷ hello ∷ [];
  started_at = 900;
  timezone = 0;
}

abbrev pass : ℕ → Pass
pass now = record { cancelled = false; envs = λ _. env now; sleep_cancelled = false }

abbrev passes : List Pass
passes = pass 1400 ∷ pass 1460 ∷ pass 1761 ∷ []

run-Apart_example :
    let t = run worker passes world in
    AreApart 300 1000 (receipt_times "Report" t.1) × Apart "Report" 300 1000 t.2.db t.1
run-Apart_example =
    run-Apart "Report" 300 worker passes 1000 world ((λ _. refl), ((λ h. absurd (cc)), tt))
      last_run_found

hello-IsMap : IsMap (hello ∷ [])
unfolding count
hello-IsMap = record { single = λ name. ground arith }

register_by-Outcome_example :
    let r = job_at_interval (record { job_name = "Report"; payload = ok "{}" }) none 300 in
    let (result, after) = register_by (λ _. err "no cron expression") r (hello ∷ []) in
    Registering (λ _. err "no cron expression") r (hello ∷ []) after result
register_by-Outcome_example =
    register_by-Registering (λ _. err "no cron expression")
      (job_at_interval (record { job_name = "Report"; payload = ok "{}" }) none 300) (hello ∷ [])
      hello-IsMap

should_run-next_run_example : (should_run (interval 300) (some 1000) 1400 0 0 ≡ true) ↔ (
    (n : ℕ) × (next_run (interval 300) (some 1000) 1400 0 ≡ some n) × HasCome (interval 300) n 1400)
should_run-next_run_example = should_run-next_run (interval 300) 1000 1400 0 0

-- An interval cron is not yet due at its announced next run.
next_run_not_due :
    (next_run (interval 300) (some 1000) 1300 0 ≡ some 1300)
    × (should_run (interval 300) (some 1000) 1300 0 0 ≡ false)
unfolding next_run should_run interval_should_run
next_run_not_due = (refl, refl)

-- ===== src/Cron/Tick.antt =====
-- One tick of a cron: `tick`, `tick_claimed` and `fire` of crates/cja/src/cron/registry.rs.
pub mod Atomic
pub mod Times
pub mod Spacing
use cja.Common.{ℕ, String, Option, none, some, List, [], ◌∷◌, Bool, true, false, if◌then◌else◌}
use cja.Common.Int.{ℤ, pos}
use cja.Common.Sql.{SqlError, Result, ok, err, World}
use cja.Jobs.Tables.{JobRow, Tables}
use cja.Jobs.Enqueue.{EnqueueJob, new_row}
use cja.Cron.Schedule.{Schedule, should_run}
use cja.Cron.Tables.{CronDb}
use cja.Cron.Claim.{
  TickError, job_error, Part, got, skipped, failed, Try, ◌>>=◌, ◌>>◌, statement, give, ClaimEnv,
  Claim, claim_due, stamped, transaction,
}

-- What a cron does when it fires. The result of a callback's run is an input.
pub data CronAction : Type 0 where
  callback : CronAction
  job : EnqueueJob → CronAction

pub record CronJob : Type 0 where
  pub name : String
  pub description : Option String
  pub action : CronAction
  pub schedule : Schedule

-- What the environment decides in a tick.
pub record TickEnv : Type 0 where
  pub now : ℕ
  pub claim : ClaimEnv
  pub job_id : ℕ
  pub callback_result : Result String (Unit {0})

abbrev pub push_job : JobRow → CronDb → CronDb
push_job r d = record d { queue = record d.queue { jobs = r ∷ d.queue.jobs } }

-- `job.insert`: the payload is serialized before the statement is sent.
unfoldable pub insert : String → ℕ → ℕ → String → Result String String → Try (Unit {0})
insert name at id context (err e) w = (failed (job_error e), w)
insert name at id context (ok payload) w =
    statement (λ d. (tt, push_job (new_row name payload context none at id) d)) w

-- What is done in the claim's transaction before its COMMIT.
unfoldable pub in_claim : CronAction → String → String → TickEnv → Claim → Try Claim
in_claim callback name context env c = do stamped name c.at; give c
in_claim (job j) name context env c = do
  insert j.job_name c.at env.job_id context j.payload
  stamped name c.at
  give c

-- The fire receipt, with the name and the last run that it reports, and the run of a callback. The
-- model adds the database's time in the claim's transaction to the receipt, to tell receipts apart.
pub data Event : Type 0 where
  enqueuing_task : String → Option ℕ → ℕ → Event
  callback_ran : Event

abbrev pub callback_error : Result String (Unit {0}) → Result TickError (Unit {0})
callback_error (ok _) = ok tt
callback_error (err e) = err (job_error e)

-- After the COMMIT: the receipt, and then the callback.
unfoldable pub after_commit :
    CronAction → String → TickEnv → Part Claim → Result TickError (Unit {0}) × List Event
after_commit callback name env (got c) = (
  callback_error env.callback_result,
  enqueuing_task name c.last_run env.claim.claim_time ∷ callback_ran ∷ [],
)
after_commit (job j) name env (got c) =
    (ok tt, enqueuing_task name c.last_run env.claim.claim_time ∷ [])
after_commit a name env skipped = (ok tt, [])
after_commit a name env (failed e) = (err e, [])

unfoldable pub claim_and_act : CronJob → String → ℕ → ℕ → TickEnv → Try Claim
claim_and_act c context worker_started_at timezone env = do
  claim ← claim_due c.name c.schedule worker_started_at timezone env.claim
  in_claim c.action c.name context env claim

-- `tick_claimed`, with the events of the tick in order.
unfoldable pub tick_claimed :
    CronJob
    → String
    → ℕ
    → ℕ
    → TickEnv
    → World CronDb
    → Result TickError (Unit {0}) × List Event × World CronDb
tick_claimed c context worker_started_at timezone env w =
    let (r, w') = transaction (claim_and_act c context worker_started_at timezone env) w in
    let (result, events) = after_commit c.action c.name env r in (result, events, w')

-- `tick`, given the cron's entry in the map of last runs.
unfoldable pub tick :
    CronJob
    → String
    → Option ℕ
    → ℕ
    → ℕ
    → TickEnv
    → World CronDb
    → Result TickError (Unit {0}) × List Event × World CronDb
tick c context last_enqueue worker_started_at timezone env w =
    if should_run c.schedule last_enqueue env.now worker_started_at timezone
    then tick_claimed c context worker_started_at timezone env w
    else (ok tt, [], w)

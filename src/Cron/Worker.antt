-- ===== src/Cron/Worker.antt =====
-- `Worker` of crates/cja/src/cron/worker.rs. What the environment decides in a pass is an input.
pub mod Spacing
use cja.Common.{
  ℕ, ◌≡◌, refl, Bool, true, false, Option, none, some, List, [], ◌∷◌, ◌++◌, String, if◌then◌else◌,
}
use cja.Common.Sql.{SqlError, Result, ok, err, World, query}
use cja.Cron.Tables.{CronDb, last_run_at}
use cja.Cron.Claim.{TickError, sqlx_error}
use cja.Cron.Registry.{CronRegistry}
use cja.Cron.Tick.{CronJob, TickEnv, Event, tick}

-- `context` is that of the crons' ticks, made from the version of the app.
pub record Worker : Type 0 where
  pub context : String
  pub registry : CronRegistry
  pub started_at : ℕ
  pub timezone : ℕ

-- `last_enqueue_map`: the map is the function of its lookups; a name has one row.
unfoldable pub last_enqueue_map : World CronDb → Result TickError (String → Option ℕ) × World CronDb
last_enqueue_map w = query sqlx_error (λ d. ((λ name. last_run_at name d), d)) w

-- The crons tick in the order of the map's values; the first error ends the worker's tick.
unfoldable pub tick_jobs :
    Worker
    → (String → TickEnv)
    → (String → Option ℕ)
    → CronRegistry
    → World CronDb
    → Result TickError (Unit {0}) × List Event × World CronDb
tick_jobs worker envs last_runs [] w = (ok tt, [], w)
tick_jobs worker envs last_runs (c ∷ rest) w =
    let (r, events, w') =
      tick c worker.context (last_runs c.name) worker.started_at worker.timezone (envs c.name) w in
    let (r', more, w'') = tick_jobs worker envs last_runs rest w' in
    elim r [ ok _ ↦ (r', events ++ more, w'') | err e ↦ (err e, events, w') ]

-- `tick`
unfoldable pub worker_tick :
    Worker
    → (String → TickEnv)
    → World CronDb
    → Result TickError (Unit {0}) × List Event × World CronDb
worker_tick worker envs w =
    let (r, w') = last_enqueue_map w in
    elim r [
      | ok last_runs ↦ tick_jobs worker envs last_runs worker.registry w'
      | err e ↦ (err e, [], w')
    ]

-- A pass of the loop: whether the token is cancelled at its start, the environment of each tick,
-- and whether the token is cancelled in the sleep.
pub record Pass : Type 0 where
  pub cancelled : Bool
  pub envs : String → TickEnv
  pub sleep_cancelled : Bool

-- `run`; `none`: it is still running after these passes.
unfoldable pub run :
    Worker
    → List Pass
    → World CronDb
    → Option (Result TickError (Unit {0})) × List Event × World CronDb
run worker [] w = (none, [], w)
run worker (p ∷ rest) w =
    let (r, events, w') = worker_tick worker p.envs w in
    let (r', more, w'') = run worker rest w' in
    if p.cancelled then (some (ok tt), [], w) else elim r [
      | ok _ ↦ if p.sleep_cancelled then (some (ok tt), events, w') else (r', events ++ more, w'')
      | err e ↦ (some (err e), events, w')
    ]

-- ===== src/Cron/Tables.antt =====
-- The table `crons` (crates/cja/migrations/20240228040146_AddCrons.up.sql) beside the job queue.
use cja.Common.{ℕ, String, Option, none, some, List, Bool, find}
use cja.Common.Sql.{str_is}
use cja.Jobs.Tables.{Tables}

-- A name is unique; `cron_id` and the stamps other than `last_run_at` are read by nothing.
pub record CronRow : Type 0 where
  pub name : String
  pub last_run_at : ℕ

pub record CronDb : Type 0 where
  pub crons : List CronRow
  pub queue : Tables

abbrev pub named : String → CronRow → Bool
named name r = str_is r.name name

abbrev pub run_of : Option CronRow → Option ℕ
run_of none = none
run_of (some r) = some r.last_run_at

-- SELECT last_run_at FROM crons WHERE name = $1
unfoldable pub last_run_at : String → CronDb → Option ℕ
last_run_at name d = run_of (find (named name) d.crons)

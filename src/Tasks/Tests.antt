-- ===== src/Tasks/Tests.antt =====
-- The theorems on the supervisor at concrete inputs, and runs of its code.
use cja.Common.{◌≡◌, refl, [], ◌∷◌, count, find, keep, List}
use cja.Common.Sql.{ok}
use cja.Tasks.{
  Supervisor, new, spawn, default_budget, returned, panicked, Join, First, task_ended, run_until,
  first_exit, drain, outcome, deadline,
}
use cja.Tasks.Names.{IsNamed, spawn-IsNamed, new-IsNamed}
use cja.Tasks.Shutdown.{IsStopped, run_until-IsStopped}

abbrev supervisor : Supervisor
supervisor = spawn 3 "cron" (spawn 2 "server" (spawn 1 "jobs" (new default_budget)))

abbrev crash : First
crash = task_ended (record { at = 0; id = 1; exit = panicked "boom" })

abbrev joins : List Join
joins =
    record { at = 1000000000; id = 3; exit = returned (ok tt) }
    ∷ record { at = 9000000000; id = 2; exit = returned (ok tt) }
    ∷ []

-- The cron worker stops in time, and the server is aborted.
server_aborted : (run_until crash joins supervisor).ended ≡ "jobs" ∷ "cron" ∷ []
unfolding run_until first_exit drain outcome spawn new deadline find keep
server_aborted = refl

supervisor-IsNamed : IsNamed supervisor
unfolding spawn new count
supervisor-IsNamed =
    spawn-IsNamed 3 "cron" (spawn 2 "server" (spawn 1 "jobs" (new default_budget))) refl (
      spawn-IsNamed 2 "server" (spawn 1 "jobs" (new default_budget)) refl
        (spawn-IsNamed 1 "jobs" (new default_budget) refl (new-IsNamed default_budget)))

run_until-IsStopped_example : IsStopped crash supervisor (run_until crash joins supervisor)
unfolding spawn new count keep
run_until-IsStopped_example =
    run_until-IsStopped crash joins supervisor (λ e. cc) supervisor-IsNamed
      (refl, (refl, (refl, tt)))

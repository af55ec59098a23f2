-- ===== src/Tasks.antt =====
-- The supervisor of an app's long-lived tasks: crates/cja/src/tasks.rs. A task is its id in the
-- JoinSet; when and how tasks end, and whether a signal comes first, are inputs. Times are
-- nanoseconds since the shutdown began.
pub mod Names
pub mod Shutdown
mod Tests
use cja.Common.{
  ℕ, ◌+◌, String, Option, none, some, Bool, true, false, not, ◌==◌, ltb, List, [], ◌∷◌, ◌++◌, ◌*◌,
  find, keep, if◌then◌else◌,
}
use cja.Common.Sql.{Result, ok, err}

-- How a task ends: its future returns, with or without an error, or it panics.
pub data Exit : Type 0 where
  returned : Result String (Unit {0}) → Exit
  panicked : String → Exit

pub data TaskError : Type 0 where
  exited_unexpectedly : String → TaskError
  task_failed task_panicked : String → String → TaskError
  -- the error of the task itself
  task_error : String → TaskError

-- `wait_for_first_error`, given the name of the first task that ends and how; `none` without tasks.
unfoldable pub wait_for_first_error : Option (String × Exit) → Result TaskError (Unit {0})
wait_for_first_error none = ok tt
wait_for_first_error (some (name, returned (ok _))) = err (exited_unexpectedly name)
wait_for_first_error (some (name, returned (err e))) = err (task_error e)
wait_for_first_error (some (name, panicked e)) = err (task_panicked name e)

pub record ShutdownBudget : Type 0 where
  pub job_drain : ℕ
  pub exit_grace : ℕ

abbrev pub default_budget : ShutdownBudget
default_budget = record { job_drain = 2000000000; exit_grace = 2000000000 }

abbrev pub or_default : Option ℕ → ℕ → ℕ
or_default none d = d
or_default (some seconds) d = seconds * 1000000000

-- `from_env`, given the numbers of seconds that the two variables parse to.
unfoldable pub from_env : Option ℕ → Option ℕ → ShutdownBudget
from_env drain_secs grace_secs = record {
  job_drain = or_default drain_secs default_budget.job_drain;
  exit_grace = or_default grace_secs default_budget.exit_grace;
}

unfoldable pub deadline : ShutdownBudget → ℕ
deadline b = b.job_drain + b.exit_grace

pub record Supervisor : Type 0 where
  pub tasks : List ℕ
  pub names : List (ℕ × String)
  pub cancelled : Bool
  pub budget : ShutdownBudget

unfoldable pub new : ShutdownBudget → Supervisor
new budget = record { tasks = []; names = []; cancelled = false; budget = budget }

abbrev pub is_id : ℕ → ℕ → Bool
is_id id x = x == id

abbrev pub has_key : ℕ → ℕ × String → Bool
has_key id e = e.0 == id

abbrev pub without : ℕ → List (ℕ × String) → List (ℕ × String)
without id names = keep (λ e. not (has_key id e)) names

-- `spawn`, with the id that the runtime gives the task.
unfoldable pub spawn : ℕ → String → Supervisor → Supervisor
spawn id name s = record s { tasks = id ∷ s.tasks; names = (id, name) ∷ without id s.names }

-- A task that ended, as `join_next_with_id` reports it, and when.
pub record Join : Type 0 where
  pub at : ℕ
  pub id : ℕ
  pub exit : Exit

abbrev pub joined : ℕ → Supervisor → Supervisor
joined id s = record s { tasks = keep (λ x. not (is_id id x)) s.tasks; names = without id s.names }

abbrev pub name_or_unknown : Option (ℕ × String) → String
name_or_unknown none = "unknown"
name_or_unknown (some e) = e.1

abbrev pub wrapped : String → Exit → Result TaskError (Unit {0})
wrapped name (returned (ok _)) = ok tt
wrapped name (returned (err e)) = err (task_failed name e)
wrapped name (panicked e) = err (task_panicked name e)

-- `outcome`: the name and the result of a task that ended; its name is removed.
unfoldable pub outcome : Join → Supervisor → (String × Result TaskError (Unit {0})) × Supervisor
outcome j s =
    let name = name_or_unknown (find (has_key j.id) s.names) in
    ((name, wrapped name j.exit), joined j.id s)

-- What ends the first select: a signal, or a task.
pub data First : Type 0 where
  signal : First
  task_ended : Join → First

abbrev pub ended_result : String × Result TaskError (Unit {0}) → Result TaskError (Unit {0})
ended_result (name, ok _) = err (exited_unexpectedly name)
ended_result (name, err e) = err e

-- The first select, with the tasks that have ended.
unfoldable pub first_exit :
    First → Supervisor → Result TaskError (Unit {0}) × List String × Supervisor
unfolding outcome
first_exit signal s = (ok tt, [], s)
first_exit (task_ended j) s = let (o, s') = outcome j s in (ended_result o, o.0 ∷ [], s')

abbrev pub is_empty : List ℕ → Bool
is_empty [] = true
is_empty (_ ∷ _) = false

-- The drain under its timeout: `true` if no task is left; the names of the tasks that ended.
unfoldable pub drain : ℕ → List Join → Supervisor → Bool × List String × Supervisor
unfolding outcome
drain limit [] s = (is_empty s.tasks, [], s)
drain limit (j ∷ rest) s =
    let (o, s1) = outcome j s in
    let (drained, ended, s2) = drain limit rest s1 in
    if is_empty s.tasks
    then (true, [], s)
    else if ltb limit j.at
    then (false, [], s)
    else (drained, o.0 ∷ ended, s2)

abbrev pub values : List (ℕ × String) → List String
values [] = []
values ((_, name) ∷ rest) = name ∷ values rest

-- The end of `run_until`, with the tasks that ended and those that were aborted.
pub record Stopped : Type 0 where
  pub result : Result TaskError (Unit {0})
  pub ended : List String
  pub stragglers : List String
  pub supervisor : Supervisor

abbrev pub stop :
    Result TaskError (Unit {0}) → List String → Bool × List String × Supervisor → Stopped
stop result first (true, ended, s) = record {
  result = result;
  ended = first ++ ended;
  stragglers = [];
  supervisor = s;
}
stop result first (false, ended, s) = record {
  result = result;
  ended = first ++ ended;
  stragglers = values s.names;
  supervisor = record s { tasks = [] };
}

-- `run_until`
unfoldable pub run_until : First → List Join → Supervisor → Stopped
unfolding first_exit drain
run_until first joins s =
    if is_empty s.tasks
    then record { result = ok tt; ended = []; stragglers = []; supervisor = s }
    else let (result, ended, s1) = first_exit first s in
      stop result ended (drain (deadline s1.budget) joins (record s1 { cancelled = true }))

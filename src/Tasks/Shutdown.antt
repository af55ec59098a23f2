-- ===== src/Tasks/Shutdown.antt =====
-- How a supervisor of crates/cja/src/tasks.rs ends.
use cja.Common.{
  ℕ, suc, ◌+◌, ◌≡◌, ◌≢◌, refl, ◌∙◌, ap, String, some, Bool, true, false, ◌==◌, ==→≡, ltb, List, [],
  ◌∷◌, find, count, count-append, Bool-cases, inl, inr, arith, if◌then◌else◌,
}
use cja.Common.Sql.{Result, ok, err, str_is}
use cja.Tasks.{
  Exit, returned, panicked, TaskError, Supervisor, is_id, has_key, Join, joined, name_or_unknown,
  wrapped, First, signal, task_ended, ended_result, first_exit, is_empty, drain, values, Stopped,
  stop, run_until, deadline,
}
use cja.Tasks.Names.{IsNamed, Reports, named, joined-IsNamed, taken, nameless}

-- What a drain leaves: each task ended or is still named; and no task is left if it is over.
record Drained (s : Supervisor) (o : Bool × List String × Supervisor) : Type 0 where
  split :
      (name : String) → named name (values s.names) ≡ named name o.1 + named name (values o.2.names)
  over : o.0 ≡ true → o.2.tasks ≡ []
  kept : IsNamed o.2
  cancelled : o.2.cancelled ≡ s.cancelled

empty_tasks : (xs : List ℕ) → is_empty xs ≡ true → xs ≡ []
empty_tasks [] h = refl
empty_tasks (x ∷ xs) h = absurd (cc)

stopped_here :
    (b : Bool) (s : Supervisor) → IsNamed s → (b ≡ true → s.tasks ≡ []) → Drained s (b, [], s)
unfolding count
stopped_here b s n h = record { split = λ name. omega arith; over = h; kept = n; cancelled = refl }

named-cons :
    (name x : String) (xs : List String) → named name (x ∷ xs) ≡ named name (x ∷ []) + named name xs
unfolding count
named-cons name x xs = ground arith

module _ (limit : ℕ) where
  drain_case :
      (e late : Bool) (j : Join) (s : Supervisor) (o : Bool × List String × Supervisor)
      → is_empty s.tasks ≡ e
      → IsNamed s
      → count (is_id j.id) s.tasks ≡ 1
      → Drained (joined j.id s) o
      → Drained s (
          if e
          then (true, [], s)
          else if late
          then (false, [], s)
          else (o.0, name_or_unknown (find (has_key j.id) s.names) ∷ o.1, o.2))
  drain_case true late j s o e n u d = stopped_here true s n (λ _. empty_tasks s.tasks e)
  drain_case false true j s o e n u d = stopped_here false s n (λ h. absurd (cc))
  drain_case false false j s o e n u d =
      let name_of = name_or_unknown (find (has_key j.id) s.names) in
      record {
        split = λ name.
            let t = taken name j.id s.names (n.counts j.id ∙ u) in
            let c = named-cons name name_of o.1 in let r = d.split name in omega (arith, t, c, r);
        over = d.over;
        kept = d.kept;
        cancelled = d.cancelled;
      }

  drain-Drained :
      (joins : List Join) (s : Supervisor)
      → IsNamed s
      → Reports joins s.tasks
      → Drained s (drain limit joins s)
  unfolding drain
  drain-Drained [] s n r = stopped_here (is_empty s.tasks) s n (empty_tasks s.tasks)
  drain-Drained (j ∷ rest) s n r =
      drain_case (is_empty s.tasks) (ltb limit j.at) j s (drain limit rest (joined j.id s)) refl n
        r.0 (drain-Drained rest (joined j.id s) (joined-IsNamed j.id s n) r.1)

-- The reports of the first select, if a task ends it, and of the drain.
abbrev pub all_reports : First → List Join → List Join
all_reports signal joins = joins
all_reports (task_ended j) joins = j ∷ joins

-- A signal is a clean exit; a task that ends the process is an error that has its name.
abbrev pub Verdict : First → List (ℕ × String) → Result TaskError (Unit {0}) → Type 0
Verdict signal names r = r ≡ ok tt
Verdict (task_ended j) names r =
    (name : String) × (find (has_key j.id) names ≡ some (j.id, name))
    × (r ≡ ended_result (name, wrapped name j.exit))
    × (r ≢ ok tt)

pub record IsStopped (first : First) (s : Supervisor) (o : Stopped) : Type 0 where
  pub cancelled : o.supervisor.cancelled ≡ true
  pub none_left : o.supervisor.tasks ≡ []
  pub accounted :
      (name : String) → named name (values s.names) ≡ named name o.ended + named name o.stragglers
  pub verdict : Verdict first s.names o.result

stop-IsStopped :
    (first : First) (s s1 : Supervisor) (result : Result TaskError (Unit {0})) (names : List String)
    (o : Bool × List String × Supervisor)
    → Verdict first s.names result
    → ((name : String)
        → named name (values s.names) ≡ named name names + named name (values s1.names))
    → Drained (record s1 { cancelled = true }) o
    → IsStopped first s (stop result names o)
unfolding count
stop-IsStopped first s s1 result names (true, ended, s2) v a d = record {
  cancelled = d.cancelled;
  none_left = d.over refl;
  accounted = λ name.
      let t = d.split name in
      let h = a name in
      let c = count-append (λ x. str_is x name) names ended in
      let z =
        ap (λ e. named name (values e))
          (nameless s2.names (λ id. d.kept.counts id ∙ ap (count (is_id id)) (d.over refl))) in
      omega (arith, t, h, c, z);
  verdict = v;
}
stop-IsStopped first s s1 result names (false, ended, s2) v a d = record {
  cancelled = d.cancelled;
  none_left = refl;
  accounted = λ name.
      let t = d.split name in
      let h = a name in
      let c = count-append (λ x. str_is x name) names ended in omega (arith, t, h, c);
  verdict = v;
}

found_at :
    (id k : ℕ) (x : String) (rest : List (ℕ × String)) (b : Bool)
    → (k == id) ≡ b
    → (if b then suc (count (has_key id) rest) else count (has_key id) rest) ≡ 1
    → (count (has_key id) rest ≡ 1 → (name : String) × (find (has_key id) rest ≡ some (id, name)))
    → (name : String) × ((if b then some (k, x) else find (has_key id) rest) ≡ some (id, name))
found_at id k x rest true e h later = (x, ap (λ i. some (i, x)) (==→≡ k id e))
found_at id k x rest false e h later = later h

found_key :
    (id : ℕ) (names : List (ℕ × String))
    → count (has_key id) names ≡ 1
    → (name : String) × (find (has_key id) names ≡ some (id, name))
unfolding count find
found_key id [] h = absurd (ground (arith, h))
found_key id ((k, x) ∷ rest) h = found_at id k x rest (k == id) refl h (found_key id rest)

never_ok : (name : String) (e : Exit) → ended_result (name, wrapped name e) ≢ ok tt
never_ok name (returned (ok _)) h = cc
never_ok name (returned (err e)) h = cc
never_ok name (panicked e) h = cc

first_exit-Verdict :
    (first : First) (joins : List Join) (s : Supervisor)
    → IsNamed s
    → Reports (all_reports first joins) s.tasks
    → Verdict first s.names (first_exit first s).0
unfolding first_exit
first_exit-Verdict signal joins s n r = refl
first_exit-Verdict (task_ended j) joins s n r =
    let found = found_key j.id s.names (n.counts j.id ∙ r.0) in
    let e : name_or_unknown (find (has_key j.id) s.names) ≡ found.0 = ap name_or_unknown found.1 in
    (
      found.0,
      found.1,
      ap (λ name. ended_result (name, wrapped name j.exit)) e,
      never_ok (name_or_unknown (find (has_key j.id) s.names)) j.exit,
    )

selected :
    (first : First) (joins : List Join) (s : Supervisor)
    → IsNamed s
    → Reports (all_reports first joins) s.tasks
    → let (result, names, s1) = first_exit first s in
      IsStopped first s
        (stop result names (drain (deadline s1.budget) joins (record s1 { cancelled = true })))
unfolding first_exit count
selected signal joins s n r =
    let s1 : Supervisor = record s { cancelled = true } in
    stop-IsStopped signal s s (ok tt) [] (drain (deadline s.budget) joins s1)
      (first_exit-Verdict signal joins s n r) (λ name. omega arith)
      (drain-Drained (deadline s.budget) joins s1 (record { counts = n.counts }) r)
selected (task_ended j) joins s n r =
    let s1 = joined j.id s in
    let m = joined-IsNamed j.id s n in
    let name_of = name_or_unknown (find (has_key j.id) s.names) in
    let s2 : Supervisor = record s1 { cancelled = true } in
    stop-IsStopped (task_ended j) s s1 (ended_result (name_of, wrapped name_of j.exit))
      (name_of ∷ []) (drain (deadline s.budget) joins s2)
      (first_exit-Verdict (task_ended j) joins s n r)
      (λ name. taken name j.id s.names (n.counts j.id ∙ r.0))
      (drain-Drained (deadline s.budget) joins s2 (record { counts = m.counts }) r.1)

-- A supervisor that has tasks, each with its name, and whose JoinSet reports each task at most
-- once: when its run is over, the token is cancelled and no task is left; each task's name is
-- either among those that ended or among the stragglers that were aborted, as often as it was
-- there. A signal gives `Ok`; a task that ended by itself gives an error under that task's name.
pub run_until-IsStopped :
    (first : First) (joins : List Join) (s : Supervisor)
    → s.tasks ≢ []
    → IsNamed s
    → Reports (all_reports first joins) s.tasks
    → IsStopped first s (run_until first joins s)
unfolding run_until
run_until-IsStopped first joins s busy n r = elim (Bool-cases (is_empty s.tasks)) [
  | inl e ↦ absurd (busy (empty_tasks s.tasks e))
  | inr e ↦ rw e (selected first joins s n r)
]

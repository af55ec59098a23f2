-- ===== src/Tasks/Names.antt =====
-- The names that a supervisor of crates/cja/src/tasks.rs has for its tasks.
use cja.Common.{
  ℕ, suc, ◌+◌, ◌≡◌, ◌≢◌, refl, sym, ◌∙◌, String, some, Bool, true, false, not, ◌==◌, List, [], ◌∷◌,
  find, count, keep, keep_all, count-keep_none, count-keep_same, arith, if◌then◌else◌,
}
use cja.Common.Sql.{str_is}
use cja.Tasks.{
  Supervisor, ShutdownBudget, new, is_id, has_key, without, spawn, Join, joined, name_or_unknown,
  values,
}

-- Each task has its name, and no other id has one.
pub record IsNamed (s : Supervisor) : Type 0 where
  pub counts : (id : ℕ) → count (has_key id) s.names ≡ count (is_id id) s.tasks

-- Tasks that a JoinSet can report one after the other.
abbrev pub Reports : List Join → List ℕ → Type 0
Reports [] tasks = Unit
Reports (j ∷ rest) tasks =
    (count (is_id j.id) tasks ≡ 1) × Reports rest (keep (λ x. not (is_id j.id x)) tasks)

-- How often a name is there.
abbrev pub named : String → List String → ℕ
named name names = count (λ x. str_is x name) names

different : (id k x : ℕ) → (k == id) ≡ false → (x == id) ≡ true → not (x == k) ≡ true
different id k x h e = ground (arith, h, e)

same : (id k x : ℕ) → (k == id) ≡ true → (x == id) ≡ true → not (x == k) ≡ false
same id k x h e = ground (arith, h, e)

joined-counts :
    (id k : ℕ) (b : Bool) (s : Supervisor)
    → (k == id) ≡ b
    → IsNamed s
    → count (has_key id) (without k s.names)
      ≡ count (is_id id) (keep (λ x. not (is_id k x)) s.tasks)
joined-counts id k true s h n =
    count-keep_none (has_key id) (λ e. not (has_key k e)) s.names (λ e. same id k e.0 h)
    ∙ sym (count-keep_none (is_id id) (λ x. not (is_id k x)) s.tasks (λ x. same id k x h))
joined-counts id k false s h n =
    count-keep_same (has_key id) (λ e. not (has_key k e)) s.names (λ e. different id k e.0 h)
    ∙ n.counts id
    ∙ sym (count-keep_same (is_id id) (λ x. not (is_id k x)) s.tasks (λ x. different id k x h))

pub joined-IsNamed : (k : ℕ) (s : Supervisor) → IsNamed s → IsNamed (joined k s)
joined-IsNamed k s n = record { counts = λ id. joined-counts id k (k == id) s refl n }

-- The name that a task had is taken from the names.
module _ (name : String) (id k : ℕ) (x : String) (rest : List (ℕ × String)) where
  taken_here :
      (b : Bool)
      → count (has_key id) rest ≡ 0
      → named name (x ∷ values rest)
        ≡ named name (x ∷ []) + named name (values (keep (λ e. not (has_key id e)) rest))
  unfolding count
  taken_here b h = rw (keep_all (has_key id) rest h) (ground arith)

  taken_later :
      (m n : ℕ)
      → named name (values rest) ≡ m + n
      → named name (x ∷ values rest) ≡ m + (if str_is x name then suc n else n)
  unfolding count
  taken_later m n h = ground (arith, h)

  taken_at :
      (b : Bool)
      → (if b then suc (count (has_key id) rest) else count (has_key id) rest) ≡ 1
      → (count (has_key id) rest ≡ 1
          → named name (values rest)
            ≡ named name (name_or_unknown (find (has_key id) rest) ∷ [])
              + named name (values (without id rest)))
      → named name (x ∷ values rest)
        ≡ named name (name_or_unknown (if b then some (k, x) else find (has_key id) rest) ∷ [])
          + named name (values (if not b then (k, x) ∷ without id rest else without id rest))
  unfolding count
  taken_at true h later = taken_here true (omega (arith, h))
  taken_at false h later =
      taken_later (named name (name_or_unknown (find (has_key id) rest) ∷ []))
        (named name (values (without id rest))) (later h)

pub taken :
    (name : String) (id : ℕ) (names : List (ℕ × String))
    → count (has_key id) names ≡ 1
    → named name (values names)
      ≡ named name (name_or_unknown (find (has_key id) names) ∷ [])
        + named name (values (without id names))
unfolding count find keep
taken name id [] h = ground arith
taken name id ((k, x) ∷ rest) h = taken_at name id k x rest (k == id) h (taken name id rest)

kept :
    (k : ℕ) (rest : List (ℕ × String))
    → (if k == k then suc (count (has_key k) rest) else count (has_key k) rest) ≢ 0
kept k rest h = ground (arith, h)

-- No tasks, no names.
pub nameless : (names : List (ℕ × String)) → ((id : ℕ) → count (has_key id) names ≡ 0) → names ≡ []
unfolding count
nameless [] h = refl
nameless ((k, x) ∷ rest) h = absurd (kept k rest (h k))

-- A supervisor's `spawn` keeps the names, for an id that is not taken.
pub spawn-IsNamed :
    (id : ℕ) (name : String) (s : Supervisor)
    → count (is_id id) s.tasks ≡ 0
    → IsNamed s
    → IsNamed (spawn id name s)
unfolding spawn count
spawn-IsNamed id name s fresh n = record {
  counts = λ k. rw (keep_all (has_key id) s.names (n.counts id ∙ fresh)) (rw (n.counts k) refl);
}

pub new-IsNamed : (budget : ShutdownBudget) → IsNamed (new budget)
unfolding new count
new-IsNamed budget = record { counts = λ id. refl }

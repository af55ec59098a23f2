-- ===== src/Llm/Durable/Foreign.antt =====
-- What writes on the tables leave of a run that is leased to an attempt or backed by another job
-- (crates/cja-llm/src/durable/db.rs and mod.rs).
use Prim.Native.String.{◌++◌ as ◌<>◌}
use cja.Common.Sql.{SqlError, Result, ok, err}
use cja.Jobs.Tables.{JobRow}
use cja.Llm.Durable.Rig.{Rig}
use cja.Llm.Durable.Advance.{advance_job, enqueue_on_tx}
use cja.Llm.Durable.Backing.{
  is_backing, enqueued-is_backed, fresh-is_backed, deleted-is_backed, backed-row_safe,
  row_safe_mono,
}
use cja.Llm.Durable.Start.{
  RunError, answer_run, answer_found, answer_resolved, write_answer, with_job,
}
use cja.Common.{
  keep, not, ◌∷◌, ◌⊎◌, inl, inr, Bool-cases, ℕ, ◌≡◌, refl, subst, ap, ◌∙◌, String, Option, none,
  some, Bool, true, false, ◌==◌, holds, List, if◌then◌else◌, arith,
}
use cja.Llm.Durable.Nuls.{Text}
use cja.Llm.Durable.Tables.{RunRow, RunDb, MessageRow, is_owned, set_run}
use cja.Llm.Durable.Db.{
  update_case, update_found, update_run, with_messages, answer_waiting, insert_messages, cancel_row,
  CancelOutcome, cancel_now, requested, already_cancelled, terminal,
}
use cja.Llm.Durable.Worker.{Owner}
use cja.Llm.Durable.Lifecycle.{equal}
use cja.Llm.Durable.Advance.Cover.{is_backed, row_safe, safe}

module _ (rig : Rig) (o : Owner) (own_job : ℕ) where
  abbrev pub backs : RunDb → Bool
  backs d = is_backed rig.payload o own_job d.queue

  abbrev pub SafeRow : Bool → RunRow → Type 0
  SafeRow b r = row_safe rig.payload o own_job b (some r) ≡ true

  pub backed-SafeRow : (b : Bool) (r : RunRow) → b ≡ true → SafeRow b r
  backed-SafeRow b r h = rw h (ground arith)

  holds_other : (x : Option ℕ) (a b : ℕ) → (a == b) ≡ false → holds x a ≡ true → holds x b ≡ false
  holds_other none a b n h = cc
  holds_other (some j) a b n h = ground arith

  -- A row that another owner runs is safe only if it is backed.
  foreign-backed :
      (me : ℕ) (b : Bool) (r : RunRow)
      → (me == o.me) ≡ false
      → is_owned me r ≡ true
      → SafeRow b r
      → b ≡ true
  foreign-backed me b r n h s =
      let k = holds_other r.locked_by me o.me n (ground arith) in ground arith

  pub cancelled-SafeRow :
      (now : ℕ) (r : RunRow) (b : Bool) (a : CancelOutcome)
      → SafeRow b r
      → SafeRow b (cancel_row now a r)
  cancelled-SafeRow now r b cancel_now s = ground arith
  cancelled-SafeRow now r b requested s = s
  cancelled-SafeRow now r b already_cancelled s = s
  cancelled-SafeRow now r b (terminal q) s = s

  module _ {A : Type 0} (id : ℕ) (p : RunRow → Bool) (f : RunRow → RunRow) (g : RunRow → A)
      (d : RunDb) where
    changed-safe :
        (r : RunRow) (same : Bool)
        → (o.run_id == id) ≡ same
        → d.runs id ≡ some r
        → (SafeRow (backs d) r → SafeRow (backs d) (f r))
        → safe rig.payload o own_job d ≡ true
        → row_safe rig.payload o own_job (backs d) (if same then some (f r) else d.runs o.run_id)
          ≡ true
    changed-safe r true q e k s = k (
        subst (λ row. row_safe rig.payload o own_job (backs d) row ≡ true)
          (ap d.runs (equal o.run_id id q) ∙ e) s)
    changed-safe r false q e k s = s

    pub update_run-safe :
        ((r : RunRow) → p r ≡ true → SafeRow (backs d) r → SafeRow (backs d) (f r))
        → safe rig.payload o own_job d ≡ true
        → safe rig.payload o own_job (update_run id p f g d).1 ≡ true
    unfolding update_run
    update_run-safe k s = found (d.runs id) refl
      where
        cased :
            (r : RunRow) (b : Bool)
            → d.runs id ≡ some r
            → p r ≡ b
            → safe rig.payload o own_job (update_case id f g d r b).1 ≡ true
        cased r true e t = changed-safe r _ refl e (k r t) s
        cased r false e t = s

        found :
            (row : Option RunRow)
            → d.runs id ≡ row
            → safe rig.payload o own_job (update_found id p f g d row).1 ≡ true
        found none e = s
        found (some r) e = cased r (p r) e refl

  with_messages-safe :
      {A : Type 0} (id : ℕ) (new : List MessageRow) (w : Option A × RunDb)
      → safe rig.payload o own_job w.1 ≡ true
      → safe rig.payload o own_job (with_messages id new w).1 ≡ true
  with_messages-safe id new (none, d) s = s
  with_messages-safe id new (some a, d) s = s

  pub foreign-safe :
      {A : Type 0} (id me : ℕ) (f : RunRow → RunRow) (g : RunRow → A) (new : List MessageRow)
      (d : RunDb)
      → (me == o.me) ≡ false
      → safe rig.payload o own_job d ≡ true
      → safe rig.payload o own_job (with_messages id new (update_run id (is_owned me) f g d)).1
        ≡ true
  foreign-safe id me f g new d n s = with_messages-safe id new (update_run id (is_owned me) f g d) (
      update_run-safe id (is_owned me) f g d
        (λ r h k. backed-SafeRow (backs d) (f r) (foreign-backed me (backs d) r n h k)) s)

  pub lone-safe :
      {A : Type 0} (id me : ℕ) (f : RunRow → RunRow) (g : RunRow → A) (d : RunDb)
      → (me == o.me) ≡ false
      → safe rig.payload o own_job d ≡ true
      → safe rig.payload o own_job (update_run id (is_owned me) f g d).1 ≡ true
  lone-safe id me f g d n s =
      update_run-safe id (is_owned me) f g d
        (λ r h k. backed-SafeRow (backs d) (f r) (foreign-backed me (backs d) r n h k)) s

  pub answer_run-rule :
      (P : RunDb → Type 0) (id : ℕ) (text : Text) (job : String → JobRow) (d : RunDb)
      → P d
      → ((context state : String) (new : List MessageRow)
          → P (enqueue_on_tx (job context) (insert_messages id new (answer_waiting id state d).1)))
      → P (answer_run rig id text job d).1
  unfolding answer_run
  answer_run-rule P id text job d h k = found (d.runs id)
    where
      joined :
          (j : JobRow) (new : List MessageRow) (w : Option (Unit {0}) × RunDb)
          → P (enqueue_on_tx j (insert_messages id new w.1))
          → P (with_job rig id new j d w).1
      joined j new (none, d') x = h
      joined j new (some a, d') x = x

      written :
          (context : String) (state : Option String) (rows : Option (List MessageRow))
          → P (write_answer rig id (job context) d state rows).1
      written context none rows = h
      written context (some state) none = h
      written context (some state) (some new) =
          joined (job context) new (answer_waiting id state d) (k context state new)

      resolved :
          (context : String) (x : Result RunError rig.Run)
          → P (answer_resolved rig id (job context) d x).1
      resolved context (err e) = h
      resolved context (ok run) = written context _ _

      found : (row : Option RunRow) → P (answer_found rig id text job d row).1
      found none = h
      found (some r) = resolved ("agent-run:" <> r.kind) _

  -- A statement on another run leaves the row.
  elsewhere :
      {A : Type 0} (id : ℕ) (p : RunRow → Bool) (f : RunRow → RunRow) (g : RunRow → A) (d : RunDb)
      → (o.run_id == id) ≡ false
      → safe rig.payload o own_job d ≡ true
      → safe rig.payload o own_job (update_run id p f g d).1 ≡ true
  unfolding update_run
  elsewhere id p f g d n s = found (d.runs id)
    where
      cased :
          (r : RunRow) (b : Bool) → safe rig.payload o own_job (update_case id f g d r b).1 ≡ true
      cased r true = rw n s
      cased r false = s

      found :
          (row : Option RunRow) → safe rig.payload o own_job (update_found id p f g d row).1 ≡ true
      found none = s
      found (some r) = cased r (p r)

  pub enqueued-safe :
      (j : JobRow) (d : RunDb)
      → safe rig.payload o own_job d ≡ true
      → safe rig.payload o own_job (enqueue_on_tx j d) ≡ true
  enqueued-safe j d s =
      row_safe_mono rig.payload o own_job (backs d) (backs (enqueue_on_tx j d)) (d.runs o.run_id)
        (enqueued-is_backed rig.payload o own_job j d.queue) s

  pub answered-safe :
      (id created_at fresh : ℕ) (context state : String) (new : List MessageRow) (d : RunDb)
      → (fresh == own_job) ≡ false
      → safe rig.payload o own_job d ≡ true
      → safe rig.payload o own_job (
          enqueue_on_tx
            (advance_job rig.payload id context created_at fresh)
            (insert_messages id new (answer_waiting id state d).1))
        ≡ true
  unfolding answer_waiting
  answered-safe id created_at fresh context state new d ne s =
      let w = (answer_waiting id state d).1 in
      elim (Bool-cases (o.run_id == id)) [
        | inl t ↦ backed-row_safe rig.payload o own_job _ (w.runs o.run_id) (
            subst
              (λ n.
                is_backed rig.payload o own_job (record w.queue {
                  jobs = advance_job rig.payload n context created_at fresh ∷ w.queue.jobs;
                })
                ≡ true)
              (equal o.run_id id t)
              (fresh-is_backed rig.payload o own_job context created_at fresh w.queue ne))
        | inr f ↦
            enqueued-safe (advance_job rig.payload id context created_at fresh)
              (insert_messages id new w) (elsewhere id _ _ _ d f s)
      ]

  pub inserted-safe :
      (id : ℕ) (r : RunRow) (j : JobRow) (d : RunDb) (b : Bool)
      → (o.run_id == id) ≡ false
      → safe rig.payload o own_job d ≡ true
      → safe rig.payload o own_job (
          (if◌then◌else◌ {A = Result RunError ℕ × RunDb} b
            (err (RunError.storage (SqlError.database (some "23505"))), d)
            (ok id, enqueue_on_tx j (set_run id r d))).1)
        ≡ true
  inserted-safe id r j d true n s = s
  inserted-safe id r j d false n s = enqueued-safe j (set_run id r d) (rw n s)

  pub deleted-safe :
      (p : JobRow → Bool) (d : RunDb)
      → ((j : JobRow) → p j ≡ true → is_backing rig.payload o own_job j ≡ false)
        ⊎ (row_safe rig.payload o own_job false (d.runs o.run_id) ≡ true)
      → safe rig.payload o own_job d ≡ true
      → safe rig.payload o own_job
          (record d { queue = record d.queue { jobs = keep (λ j. not (p j)) d.queue.jobs } })
        ≡ true
  deleted-safe p d (inl h) s = rw (deleted-is_backed rig.payload o own_job p d.queue h) s
  deleted-safe p d (inr h) s =
      row_safe_mono rig.payload o own_job false _ (d.runs o.run_id) (λ x. absurd (cc)) h

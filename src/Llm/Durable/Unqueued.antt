-- ===== src/Llm/Durable/Unqueued.antt =====
-- What writes on the tables leave of a run that is not queued
-- (crates/cja-llm/src/durable/db.rs and mod.rs).
use cja.Common.Sql.{SqlError, Result, ok, err}
use cja.Jobs.Tables.{JobRow}
use cja.Llm.Durable.Rig.{Rig}
use cja.Llm.Durable.Advance.{enqueue_on_tx}
use cja.Llm.Durable.Start.{RunError}
use cja.Common.{
  ℕ, ◌≡◌, refl, subst, ap, ◌∙◌, Option, none, some, Bool, true, false, ◌==◌, List, if◌then◌else◌,
}
use cja.Llm.Durable.Status.{RunStatus, queued, running, waiting}
use cja.Llm.Durable.Tables.{RunRow, RunDb, MessageRow, is_status, is_owned, set_run}
use cja.Llm.Durable.Db.{update_case, update_found, update_run, with_messages}
use cja.Llm.Durable.Worker.{Owner}
use cja.Llm.Durable.Lifecycle.{equal, may_become, RowStep}
use cja.Llm.Durable.Advance.Held.{is_queued}

module _ (rig : Rig) (o : Owner) (own_job : ℕ) where
  unqueued :
      (s t : RunStatus)
      → may_become s t ≡ true
      → is_status s queued ≡ false
      → is_status t queued ≡ false
  unqueued queued queued m h = h
  unqueued running queued m h = cc
  unqueued waiting queued m h = cc
  unqueued RunStatus.succeeded queued m h = cc
  unqueued RunStatus.failed queued m h = cc
  unqueued RunStatus.cancelled queued m h = cc
  unqueued s running m h = refl
  unqueued s waiting m h = refl
  unqueued s RunStatus.succeeded m h = refl
  unqueued s RunStatus.failed m h = refl
  unqueued s RunStatus.cancelled m h = refl

  module _ {A : Type 0} (id : ℕ) (p : RunRow → Bool) (f : RunRow → RunRow) (g : RunRow → A)
      (d : RunDb) where
    changed-unqueued :
        (r : RunRow) (same : Bool)
        → (o.run_id == id) ≡ same
        → d.runs id ≡ some r
        → RowStep r (f r)
        → is_queued (d.runs o.run_id) ≡ false
        → is_queued (if same then some (f r) else d.runs o.run_id) ≡ false
    changed-unqueued r true q e k s =
        unqueued r.status (f r).status k.lives
          (subst (λ row. is_queued row ≡ false) (ap d.runs (equal o.run_id id q) ∙ e) s)
    changed-unqueued r false q e k s = s

    pub update_run-unqueued :
        ((r : RunRow) → p r ≡ true → RowStep r (f r))
        → is_queued (d.runs o.run_id) ≡ false
        → is_queued ((update_run id p f g d).1.runs o.run_id) ≡ false
    unfolding update_run
    update_run-unqueued k s = found (d.runs id) refl
      where
        cased :
            (r : RunRow) (b : Bool)
            → d.runs id ≡ some r
            → p r ≡ b
            → is_queued ((update_case id f g d r b).1.runs o.run_id) ≡ false
        cased r true e t = changed-unqueued r _ refl e (k r t) s
        cased r false e t = s

        found :
            (row : Option RunRow)
            → d.runs id ≡ row
            → is_queued ((update_found id p f g d row).1.runs o.run_id) ≡ false
        found none e = s
        found (some r) e = cased r (p r) e refl

  with_messages-unqueued :
      {A : Type 0} (id : ℕ) (new : List MessageRow) (w : Option A × RunDb)
      → is_queued (w.1.runs o.run_id) ≡ false
      → is_queued ((with_messages id new w).1.runs o.run_id) ≡ false
  with_messages-unqueued id new (none, d) s = s
  with_messages-unqueued id new (some a, d) s = s

  pub foreign-unqueued :
      {A : Type 0} (id me : ℕ) (f : RunRow → RunRow) (g : RunRow → A) (new : List MessageRow)
      (d : RunDb)
      → ((r : RunRow) → is_owned me r ≡ true → RowStep r (f r))
      → is_queued (d.runs o.run_id) ≡ false
      → is_queued ((with_messages id new (update_run id (is_owned me) f g d)).1.runs o.run_id)
        ≡ false
  foreign-unqueued id me f g new d k s =
      with_messages-unqueued id new (update_run id (is_owned me) f g d)
        (update_run-unqueued id (is_owned me) f g d k s)

  pub inserted-unqueued :
      (id : ℕ) (r : RunRow) (j : JobRow) (d : RunDb) (b : Bool)
      → (o.run_id == id) ≡ false
      → is_queued (d.runs o.run_id) ≡ false
      → is_queued (
          (if◌then◌else◌ {A = Result RunError ℕ × RunDb} b
              (err (RunError.storage (SqlError.database (some "23505"))), d)
              (ok id, enqueue_on_tx j (set_run id r d))).1.runs
            o.run_id)
        ≡ false
  inserted-unqueued id r j d true n s = s
  inserted-unqueued id r j d false n s = rw n s

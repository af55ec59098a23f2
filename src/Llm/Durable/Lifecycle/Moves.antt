-- ===== src/Llm/Durable/Lifecycle/Moves.antt =====
-- Every change that the code makes to the tables of runs, and what it keeps.
use Prim.Native.String.{◌++◌ as ◌<>◌}
use cja.Common.{
  ◌==◌, ◌∙◌, ℕ, ◌≡◌, refl, sym, ap, subst, String, Option, none, some, is_some, true, if◌then◌else◌,
  List,
}
use cja.Common.Sql.{SqlError, Result, ok, err}
use cja.Jobs.Tables.{JobRow, Tables}
use cja.Llm.Durable.Nuls.{Text}
use cja.Llm.Durable.Status.{queued}
use cja.Llm.Durable.Tables.{RunRow, RunDb, MessageRow, is_owned, set_run}
use cja.Llm.Durable.Db.{
  try_claim, release_lease, heartbeat, persist_step, Snapshot, set_waiting, finish, Ending,
  fail_unstorable, answer_waiting, cancel_run, update_run, with_messages,
}
use cja.Llm.Durable.Rig.{Rig}
use cja.Llm.Durable.Worker.{AgentKind, Durable}
use cja.Llm.Durable.Advance.{enqueue_on_tx}
use cja.Llm.Durable.Start.{
  RunError, insert_run, new_run, answer_run, answer_found, answer_resolved, write_answer, with_job,
  resolve_row,
}
use cja.Llm.Durable.Lifecycle.{
  pick-Follows, equal, IsStorable, RowStep, Follows, still-Follows, update_run-Follows,
}
use cja.Llm.Durable.Lifecycle.Cancels.{cancel-RowStep}
use cja.Llm.Durable.Lifecycle.Rows.{
  Written, Written-IsEnding, try_claim-RowStep, release_lease-RowStep, beat-RowStep,
  persist-RowStep, finish-RowStep, park-RowStep, fail_unstorable-RowStep, answer-RowStep,
}

module _ (rig : Rig) where
  -- One statement, or one transaction, of the code; `jobs` is any change of the queue alone.
  pub data Move (d : RunDb) : RunDb → Type 0 where
    claim : (id me takeover now : ℕ) → Move d (try_claim id me takeover now d).1
    release : (id me now : ℕ) → Move d (release_lease id me now d).1
    beat : (id me now : ℕ) → Move d (heartbeat id me now d).1
    persist :
        (id me now : ℕ) (snap : Snapshot) (new : List MessageRow)
        → Move d (persist_step id me snap new now d).1
    suspend :
        (id me now : ℕ) (state call_id : String) (question : Text) (new : List MessageRow)
        → Move d (set_waiting id me state call_id question new now d).1
    end_run :
        (id me now : ℕ) (e : Ending) (snap : Snapshot) (new : List MessageRow)
        → Written e
        → Move d (finish id me e snap new now d).1
    fail_run : (id me now : ℕ) (code : String) → Move d (fail_unstorable id me code now d).1
    cancel : (id takeover now : ℕ) → Move d (cancel_run id takeover now d).1
    start :
        (id now : ℕ) (c : Durable) (k : AgentKind) (prompt state : String) (j : JobRow)
        → Move d (insert_run rig id (new_run rig c k prompt state now) j d).1
    answer :
        (id : ℕ) (text : Text) (job : String → JobRow) → Move d (answer_run rig id text job d).1
    jobs : (q : Tables) → Move d (record d { queue = q })

  with_messages-same :
      {A : Type 0} (id k : ℕ) (new : List MessageRow) (w : Option A × RunDb)
      → (with_messages id new w).1.runs k ≡ w.1.runs k
  with_messages-same id k new (none, d) = refl
  with_messages-same id k new (some a, d) = refl

  new_run-IsStorable :
      (c : Durable) (k : AgentKind) (prompt state : String) (now : ℕ)
      → IsStorable (new_run rig c k prompt state now)
  new_run-IsStorable c k prompt state now = record {
    asks = refl;
    questions = refl;
    ends = refl;
    fails = refl;
    succeeds = refl;
    leased = λ h. cc;
    dated = refl;
  }

  -- A write of this owner with its messages.
  owned-Follows :
      {A : Type 0} (id me k : ℕ) (f : RunRow → RunRow) (g : RunRow → A) (new : List MessageRow)
      (d : RunDb)
      → ((r : RunRow) → is_owned me r ≡ true → RowStep r (f r))
      → Follows (d.runs k) ((with_messages id new (update_run id (is_owned me) f g d)).1.runs k)
  owned-Follows id me k f g new d h =
      subst (λ row. Follows (d.runs k) row)
        (sym (with_messages-same id k new (update_run id (is_owned me) f g d)))
        (update_run-Follows id f g d k (is_owned me) h)

  module _ (id k : ℕ) (d : RunDb) where
    inserted-Follows :
        (r : RunRow) (j : JobRow) (row : Option RunRow)
        → r.status ≡ queued
        → IsStorable r
        → d.runs id ≡ row
        → Follows (d.runs k) (
            (if◌then◌else◌ {A = Result RunError ℕ × RunDb}
                (is_some row)
                (err (RunError.storage (SqlError.database (some "23505"))), d)
                (ok id, enqueue_on_tx j (set_run id r d))).1.runs
              k)
    inserted-Follows r j (some x) q w e = still-Follows (d.runs k)
    inserted-Follows r j none q w e =
        pick-Follows (k == id) (d.runs k) (d.runs k) (some r)
          (λ t. subst (λ row. Follows row (some r)) (sym (ap d.runs (equal k id t) ∙ e)) (q, w))
          (still-Follows (d.runs k))

    with_job-Follows :
        (new : List MessageRow) (j : JobRow) (w : Option (Unit {0}) × RunDb)
        → Follows (d.runs k) (w.1.runs k)
        → Follows (d.runs k) ((with_job rig id new j d w).1.runs k)
    with_job-Follows new j (none, d') h = still-Follows (d.runs k)
    with_job-Follows new j (some a, d') h = h

    write_answer-Follows :
        (j : JobRow) (state : Option String) (rows : Option (List MessageRow))
        → Follows (d.runs k) ((write_answer rig id j d state rows).1.runs k)
    unfolding answer_waiting
    write_answer-Follows j none rows = still-Follows (d.runs k)
    write_answer-Follows j (some state) none = still-Follows (d.runs k)
    write_answer-Follows j (some state) (some new) =
        with_job-Follows new j (answer_waiting id state d)
          (update_run-Follows id _ _ d k _ (λ r h. answer-RowStep state r h))

    answer_found-Follows :
        (text : Text) (job : String → JobRow) (row : Option RunRow)
        → Follows (d.runs k) ((answer_found rig id text job d row).1.runs k)
    answer_found-Follows text job none = still-Follows (d.runs k)
    answer_found-Follows text job (some r) =
        resolved (job ("agent-run:" <> r.kind)) (resolve_row rig id text r)
      where
        resolved :
            (j : JobRow) (x : Result RunError rig.Run)
            → Follows (d.runs k) ((answer_resolved rig id j d x).1.runs k)
        resolved j (err e) = still-Follows (d.runs k)
        resolved j (ok run) = write_answer-Follows j _ _

  pub Move-Follows : (d d' : RunDb) → Move d d' → (k : ℕ) → Follows (d.runs k) (d'.runs k)
  unfolding try_claim release_lease heartbeat persist_step set_waiting finish fail_unstorable
      cancel_run insert_run answer_run
  Move-Follows d _ (claim id me takeover now) k =
      update_run-Follows id _ _ d k _ (λ r h. try_claim-RowStep me takeover now r h)
  Move-Follows d _ (release id me now) k =
      update_run-Follows id _ _ d k _ (λ r h. release_lease-RowStep me r h)
  Move-Follows d _ (beat id me now) k =
      update_run-Follows id _ _ d k _ (λ r h. beat-RowStep me now r h)
  Move-Follows d _ (persist id me now snap new) k =
      owned-Follows id me k _ _ new d (λ r h. persist-RowStep me now snap r h)
  Move-Follows d _ (suspend id me now state call_id question new) k =
      owned-Follows id me k _ _ new d
        (λ r h. park-RowStep me now state call_id question r r.cancel_requested h)
  Move-Follows d _ (end_run id me now e snap new i) k =
      owned-Follows id me k _ _ new d
        (λ r h. finish-RowStep me now e snap r (Written-IsEnding e i) h)
  Move-Follows d _ (fail_run id me now code) k =
      update_run-Follows id _ _ d k _ (λ r h. fail_unstorable-RowStep me now code r h)
  Move-Follows d _ (cancel id takeover now) k =
      update_run-Follows id _ _ d k _ (λ r h. cancel-RowStep now takeover r)
  Move-Follows d _ (start id now c kind prompt state j) k =
      inserted-Follows id k d _ j (d.runs id) refl (new_run-IsStorable c kind prompt state now) refl
  Move-Follows d _ (answer id text job) k = answer_found-Follows id k d text job (d.runs id)
  Move-Follows d _ (jobs q) k = still-Follows (d.runs k)

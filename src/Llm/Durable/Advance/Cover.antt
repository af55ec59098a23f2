-- ===== src/Llm/Durable/Advance/Cover.antt =====
-- Which runs have a job that will advance them, and what each write of an attempt leaves
-- (crates/cja-llm/src/durable/db.rs).
use cja.Common.{
  ℕ, ◌≡◌, refl, subst, ==_refl, String, Option, none, some, Bool, true, false, ◌&&◌, ◌||◌, not,
  ◌==◌, ltb, List, count, if◌then◌else◌, arith,
}
use cja.Common.Sql.{str_is}
use cja.Jobs.Tables.{JobRow, Tables}
use cja.Llm.Durable.Status.{RunStatus, queued, running}
use cja.Llm.Durable.Nuls.{Text}
use cja.Llm.Durable.Tables.{RunRow, RunDb, MessageRow, is_status, is_owned, set_run}
use cja.Llm.Durable.Db.{
  update_run, update_found, update_case, with_messages, Snapshot, Ending, heartbeat, persist_step,
  set_waiting, finish, fail_unstorable, cancelled_with, parked,
}
use cja.Llm.Durable.Worker.{Owner}

-- The job is an `AdvanceRunJob` of the run.
abbrev pub advances : (ℕ → String) → ℕ → JobRow → Bool
advances payload run_id j = str_is j.name "AdvanceRunJob" && str_is j.payload (payload run_id)

abbrev pub is_active_status : RunStatus → Bool
is_active_status status = is_status status queued || is_status status running

abbrev pub is_active : RunRow → Bool
is_active r = is_active_status r.status

module _ (payload : ℕ → String) (o : Owner) (own_job : ℕ) where
  -- There is another job of the run than this attempt's.
  abbrev pub is_backed : Tables → Bool
  is_backed q = ltb 0 (count (λ j. advances payload o.run_id j && not (j.job_id == own_job)) q.jobs)

  abbrev pub row_covered : Bool → Option RunRow → Bool
  row_covered backed none = true
  row_covered backed (some r) = not (is_active r) || backed

  abbrev pub row_safe : Bool → Option RunRow → Bool
  row_safe backed none = true
  row_safe backed (some r) = is_owned o.me r || (not (is_active r) || backed)

  -- Without this attempt's job the run would still be advanced, or needs not be.
  abbrev pub covered : RunDb → Bool
  covered d = row_covered (is_backed d.queue) (d.runs o.run_id)

  -- The run is leased to this attempt, or covered.
  abbrev pub safe : RunDb → Bool
  safe d = row_safe (is_backed d.queue) (d.runs o.run_id)

  uncovered-row :
      (backed : Bool) (r : RunRow)
      → is_owned o.me r ≡ false
      → row_safe backed (some r) ≡ true
      → row_covered backed (some r) ≡ true
  uncovered-row backed r h s = simp h at s

  unowned-covered :
      (d : RunDb) (r : RunRow)
      → d.runs o.run_id ≡ some r
      → is_owned o.me r ≡ false
      → safe d ≡ true
      → covered d ≡ true
  unowned-covered d r e h s = rw e (
      uncovered-row (is_backed d.queue) r h
        (subst (λ row. row_safe (is_backed d.queue) row ≡ true) e s))

  pub covered-safe : (d : RunDb) → covered d ≡ true → safe d ≡ true
  covered-safe d h = row (d.runs o.run_id) h
    where
      row :
          (found : Option RunRow)
          → row_covered (is_backed d.queue) found ≡ true
          → row_safe (is_backed d.queue) found ≡ true
      row none k = refl
      row (some r) k = ground arith

  set-covered :
      (d : RunDb) (r : RunRow) → is_active r ≡ false → covered (set_run o.run_id r d) ≡ true
  set-covered d r h = rw (==_refl o.run_id, h) refl

  pub set-safe :
      (d : RunDb) (r : RunRow) → is_owned o.me r ≡ true → safe (set_run o.run_id r d) ≡ true
  set-safe d r h = rw (==_refl o.run_id, h) refl

  -- What a write that keeps the lease comes to: the run is safe, or no row was found and it is covered.
  abbrev pub Leased : {A : Type 0} → Option A × RunDb → Type 0
  Leased (none, d) = covered d ≡ true
  Leased (some a, d) = safe d ≡ true

  -- A write after which the run is covered.
  abbrev pub Ended : {A : Type 0} → Option A × RunDb → Type 0
  Ended (none, d) = covered d ≡ true
  Ended (some a, d) = covered d ≡ true

  module _ {A : Type 0} (f : RunRow → RunRow) (g : RunRow → A) where
    case-Leased :
        (d : RunDb) (r : RunRow) (b : Bool)
        → d.runs o.run_id ≡ some r
        → is_owned o.me r ≡ b
        → ((x : RunRow) → is_owned o.me x ≡ true → is_owned o.me (f x) ≡ true)
        → safe d ≡ true
        → Leased (update_case o.run_id f g d r b)
    case-Leased d r true e h k s = set-safe d (f r) (k r h)
    case-Leased d r false e h k s = unowned-covered d r e h s

    row-Leased :
        (d : RunDb) (row : Option RunRow)
        → d.runs o.run_id ≡ row
        → ((x : RunRow) → is_owned o.me x ≡ true → is_owned o.me (f x) ≡ true)
        → safe d ≡ true
        → Leased (update_found o.run_id (is_owned o.me) f g d row)
    row-Leased d none e k s = rw e refl
    row-Leased d (some r) e k s = case-Leased d r (is_owned o.me r) e refl k s

    pub update_run-Leased :
        (d : RunDb)
        → ((x : RunRow) → is_owned o.me x ≡ true → is_owned o.me (f x) ≡ true)
        → safe d ≡ true
        → Leased (update_run o.run_id (is_owned o.me) f g d)
    unfolding update_run
    update_run-Leased d k s = row-Leased d (d.runs o.run_id) refl k s

    case-Ended :
        (d : RunDb) (r : RunRow) (b : Bool)
        → d.runs o.run_id ≡ some r
        → is_owned o.me r ≡ b
        → ((x : RunRow) → is_active (f x) ≡ false)
        → safe d ≡ true
        → Ended (update_case o.run_id f g d r b)
    case-Ended d r true e h k s = set-covered d (f r) (k r)
    case-Ended d r false e h k s = unowned-covered d r e h s

    row-Ended :
        (d : RunDb) (row : Option RunRow)
        → d.runs o.run_id ≡ row
        → ((x : RunRow) → is_active (f x) ≡ false)
        → safe d ≡ true
        → Ended (update_found o.run_id (is_owned o.me) f g d row)
    row-Ended d none e k s = rw e refl
    row-Ended d (some r) e k s = case-Ended d r (is_owned o.me r) e refl k s

    pub update_run-Ended :
        (d : RunDb)
        → ((x : RunRow) → is_active (f x) ≡ false)
        → safe d ≡ true
        → Ended (update_run o.run_id (is_owned o.me) f g d)
    unfolding update_run
    update_run-Ended d k s = row-Ended d (d.runs o.run_id) refl k s

  module _ {A : Type 0} (new : List MessageRow) where
    with_messages-Leased : (w : Option A × RunDb) → Leased w → Leased (with_messages o.run_id new w)
    with_messages-Leased (none, d) h = h
    with_messages-Leased (some a, d) h = h

    with_messages-Ended : (w : Option A × RunDb) → Ended w → Ended (with_messages o.run_id new w)
    with_messages-Ended (none, d) h = h
    with_messages-Ended (some a, d) h = h

  pub heartbeat-Leased :
      (now : ℕ) (d : RunDb) → safe d ≡ true → Leased (heartbeat o.run_id o.me now d)
  unfolding heartbeat
  heartbeat-Leased now d s = update_run-Leased _ _ d (λ x h. h) s

  pub persist_step-Leased :
      (snap : Snapshot) (new : List MessageRow) (now : ℕ) (d : RunDb)
      → safe d ≡ true
      → Leased (persist_step o.run_id o.me snap new now d)
  unfolding persist_step
  persist_step-Leased snap new now d s =
      with_messages-Leased new _ (update_run-Leased _ _ d (λ x h. h) s)

  pub finish-Ended :
      (e : Ending) (snap : Snapshot) (new : List MessageRow) (now : ℕ) (d : RunDb)
      → is_active_status e.status ≡ false
      → safe d ≡ true
      → Ended (finish o.run_id o.me e snap new now d)
  unfolding finish
  finish-Ended e snap new now d h s = with_messages-Ended new _ (update_run-Ended _ _ d (λ x. h) s)

  stops :
      (state call_id : String) (question : Text) (now : ℕ) (x : RunRow) (b : Bool)
      → is_active (if b then cancelled_with state now x else parked state call_id question x)
        ≡ false
  stops state call_id question now x true = refl
  stops state call_id question now x false = refl

  pub set_waiting-Ended :
      (state call_id : String) (question : Text) (new : List MessageRow) (now : ℕ) (d : RunDb)
      → safe d ≡ true
      → Ended (set_waiting o.run_id o.me state call_id question new now d)
  unfolding set_waiting
  set_waiting-Ended state call_id question new now d s =
      with_messages-Ended new _
        (update_run-Ended _ _ d (λ x. stops state call_id question now x x.cancel_requested) s)

  pub fail_unstorable-Ended :
      (code : String) (now : ℕ) (d : RunDb)
      → safe d ≡ true
      → Ended (fail_unstorable o.run_id o.me code now d)
  unfolding fail_unstorable
  fail_unstorable-Ended code now d s = update_run-Ended _ _ d (λ x. refl) s

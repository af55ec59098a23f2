-- ===== src/Llm/Durable/Lifecycle.antt =====
-- The life of a run: the statuses that a row goes through, the rows that can be stored, and every
-- way in which the code changes a row (crates/cja-llm/src/durable/db.rs and mod.rs).
pub mod Cancels
pub mod Rows
pub mod Moves
pub mod Reach
use cja.Common.{
  ℕ, ◌≡◌, refl, sym, ◌∙◌, ap, subst, String, Option, none, some, is_some, Bool, true, false, ◌&&◌,
  ◌||◌, not, ◌==◌, ==_refl, if◌then◌else◌, arith, Bool-cases, inl, inr, List,
}
use cja.Llm.Durable.Status.{RunStatus, queued, running, waiting, succeeded, failed, cancelled}
use cja.Llm.Durable.Tables.{RunRow, RunDb, is_status, is_owned, set_run}
use cja.Llm.Durable.Db.{update_run, update_found, update_case, run_claimable, lease_to}

-- The lifecycle: what a status may become in one step.
abbrev pub may_become : RunStatus → RunStatus → Bool
may_become queued running = true
may_become queued cancelled = true
may_become running waiting = true
may_become running succeeded = true
may_become running failed = true
may_become running cancelled = true
may_become waiting running = true
may_become waiting cancelled = true
may_become s t = is_status s t

abbrev pub is_terminal : RunStatus → Bool
is_terminal queued = false
is_terminal running = false
is_terminal waiting = false
is_terminal _ = true

-- A row that the code may store: a question is pending exactly while waiting, the run has an end, a
-- failure reason and an output exactly when terminal, failed and succeeded, and a lease only while
-- running.
pub record IsStorable (r : RunRow) : Type 0 where
  pub asks : is_some r.pending_call_id ≡ is_status r.status waiting
  pub questions : is_some r.pending_question ≡ is_status r.status waiting
  pub ends : is_some r.finished_at ≡ is_terminal r.status
  pub fails : is_some r.fail_reason ≡ is_status r.status failed
  pub succeeds : is_some r.output ≡ is_status r.status succeeded
  pub leased : is_some r.locked_by ≡ true → is_status r.status running ≡ true
  pub dated : is_some r.locked_at ≡ is_some r.locked_by

-- One step of a row: along the lifecycle, nothing if the run has ended, and storable rows stay so.
pub record RowStep (r r' : RunRow) : Type 0 where
  pub lives : may_become r.status r'.status ≡ true
  pub final : is_terminal r.status ≡ true → r' ≡ r
  pub stores : IsStorable r → IsStorable r'

-- What a row, or its absence, may become: a new row is queued.
abbrev pub Follows : Option RunRow → Option RunRow → Type 0
Follows none none = Unit
Follows none (some r) = (r.status ≡ queued) × IsStorable r
Follows (some r) none = ⊥
Follows (some r) (some r') = RowStep r r'

stays : (s : RunStatus) → may_become s s ≡ true
stays queued = refl
stays running = refl
stays waiting = refl
stays succeeded = refl
stays failed = refl
stays cancelled = refl

pub still-RowStep : (r : RunRow) → RowStep r r
still-RowStep r = record { lives = stays r.status; final = λ h. refl; stores = λ h. h }

pub still-Follows : (row : Option RunRow) → Follows row row
still-Follows none = tt
still-Follows (some r) = still-RowStep r

pub status_is : (s t : RunStatus) → is_status s t ≡ true → s ≡ t
status_is queued queued h = refl
status_is running running h = refl
status_is waiting waiting h = refl
status_is succeeded succeeded h = refl
status_is failed failed h = refl
status_is cancelled cancelled h = refl
status_is queued running h = cc
status_is queued waiting h = cc
status_is queued succeeded h = cc
status_is queued failed h = cc
status_is queued cancelled h = cc
status_is running queued h = cc
status_is running waiting h = cc
status_is running succeeded h = cc
status_is running failed h = cc
status_is running cancelled h = cc
status_is waiting queued h = cc
status_is waiting running h = cc
status_is waiting succeeded h = cc
status_is waiting failed h = cc
status_is waiting cancelled h = cc
status_is succeeded queued h = cc
status_is succeeded running h = cc
status_is succeeded waiting h = cc
status_is succeeded failed h = cc
status_is succeeded cancelled h = cc
status_is failed queued h = cc
status_is failed running h = cc
status_is failed waiting h = cc
status_is failed succeeded h = cc
status_is failed cancelled h = cc
status_is cancelled queued h = cc
status_is cancelled running h = cc
status_is cancelled waiting h = cc
status_is cancelled succeeded h = cc
status_is cancelled failed h = cc

-- Of the row with the id, and of another.
pick-Follows :
    (b : Bool) (row other changed : Option RunRow)
    → (b ≡ true → Follows row changed)
    → Follows row other
    → Follows row (if b then changed else other)
pick-Follows true row other changed h k = h refl
pick-Follows false row other changed h k = k

pub equal : (a b : ℕ) → (a == b) ≡ true → a ≡ b
equal a b h = ground arith

module _ {A : Type 0} (id : ℕ) (f : RunRow → RunRow) (g : RunRow → A) (d : RunDb) (k : ℕ) where
  set-Follows :
      (r : RunRow)
      → d.runs id ≡ some r
      → RowStep r (f r)
      → Follows (d.runs k) ((set_run id (f r) d).runs k)
  set-Follows r e h =
      pick-Follows (k == id) (d.runs k) (d.runs k) (some (f r))
        (λ t. subst (λ row. Follows row (some (f r))) (sym (ap d.runs (equal k id t) ∙ e)) h)
        (still-Follows (d.runs k))

  -- An UPDATE of one row whose steps are allowed.
  pub update_run-Follows :
      (p : RunRow → Bool)
      → ((r : RunRow) → p r ≡ true → RowStep r (f r))
      → Follows (d.runs k) ((update_run id p f g d).1.runs k)
  unfolding update_run
  update_run-Follows p h = found (d.runs id) refl
    where
      cased :
          (r : RunRow) (b : Bool)
          → d.runs id ≡ some r
          → p r ≡ b
          → Follows (d.runs k) ((update_case id f g d r b).1.runs k)
      cased r true e t = set-Follows r e (h r t)
      cased r false e t = still-Follows (d.runs k)

      found :
          (row : Option RunRow)
          → d.runs id ≡ row
          → Follows (d.runs k) ((update_found id p f g d row).1.runs k)
      found none e = still-Follows (d.runs k)
      found (some r) e = cased r (p r) e refl

pub owned-running : (me : ℕ) (r : RunRow) → is_owned me r ≡ true → r.status ≡ running
owned-running me r h = status_is r.status running (ground arith)

-- A step between two statuses, the first not terminal.
pub moved-RowStep :
    (r r' : RunRow) (s t : RunStatus)
    → r.status ≡ s
    → r'.status ≡ t
    → may_become s t ≡ true
    → is_terminal s ≡ false
    → (IsStorable r → IsStorable r')
    → RowStep r r'
moved-RowStep r r' s t e e' m n k = record {
  lives =
      subst (λ a. may_become a r'.status ≡ true) (sym e)
        (subst (λ b. may_become s b ≡ true) (sym e') m);
  final = λ h. absurd (differ h);
  stores = k;
}
  where
    differ : is_terminal r.status ≡ true → ⊥
    differ h = cc

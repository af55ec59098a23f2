-- ===== src/Jobs/Claim/Effects.antt =====
-- What a claim does to the tables: `fetch_next_job` of crates/cja/src/jobs/worker.rs.
use cja.Common.{
  ℕ, ◌+◌, ◌≡◌, refl, ap, ◌∙◌, sym, subst, Option, none, some, is_some, List, Bool, true, false,
  arith, ◌&&◌, leb, count, if◌then◌else◌,
}
use cja.Common.Sql.{
  Fault, deliver, refuse, lost, Result, ok, err, World, query, settle, next_fault, rest_faults,
  resume, pure,
}
use cja.Jobs.Tables.{Message, JobFromDb, JobRow, Tables, has_id}
use cja.Jobs.Claim.{
  Claimer, ClaimedJob, TickError, sql, take_lease, claim_row, claim_statement, candidate,
  after_claim, fetch_next_job, dead_letter_owned, message_or,
}
use cja.Jobs.Claim.Burial.{Burial, buried, Owns, dead_letter_owned-Burial}
use cja.Jobs.Copies.{copies, IsKeyed, is_letter_of, count-modify, copies-buried, delete_keyed}

take_lease-id : (owner now : ℕ) (r : JobRow) → (take_lease owner now r).job_id ≡ r.job_id
unfolding take_lease
take_lease-id owner now r = ground arith

-- A predicate of the tables that the queue's own changes keep: to claim a row, and to bury an
-- owned one.
pub record Keeps (P : Tables → Type 0) : Type 0 where
  pub claims :
      (sent owner now : ℕ) (t : Tables) (o : Option JobRow)
      → P t
      → P (claim_row sent owner now t o).1
  pub buries :
      (owner : ℕ) (job : JobFromDb) (total : ℕ) (m : Message) (t : Tables)
      → Owns job.job_id owner t
      → P t
      → P (buried owner job total m t)

pub Burial-rule :
    {Owned : Type 0} {before after dead : Tables} {r : Result TickError Bool} (P : Tables → Type 0)
    → Burial Owned before after dead r
    → P before
    → (Owned → P dead)
    → P after
Burial-rule P (Burial.not_owned e) b d = subst P (sym e) b
Burial-rule P (Burial.failed x e) b d = subst P (sym e) b
Burial-rule P (Burial.moved o e) b d = subst P (sym e) (d o)
Burial-rule P (Burial.reply_lost x o e) b d = subst P (sym e) (d o)

module _ (P : Tables → Type 0) (k : Keeps P) (worker : Claimer) where
  -- The result of a burial is dropped.
  dropped :
      (r : Result TickError Bool) (w : World Tables)
      → P w.db
      → P (resume {B = Option ClaimedJob} r (λ _. pure none) w).1.db
  dropped (ok b) w h = h
  dropped (err e) w h = h

  dead_letter_keeps :
      (job : JobFromDb) (total : ℕ) (m : Message) (w : World Tables)
      → P w.db
      → P (dead_letter_owned worker.owner_token job total m w).1.db
  dead_letter_keeps job total m w h =
      Burial-rule P (dead_letter_owned-Burial worker.owner_token job total m w) h
        (λ o. k.buries worker.owner_token job total m w.db o h)

  after_claim_if :
      (c : ClaimedJob) (w : World Tables) (b : Bool)
      → P w.db
      → P
          ((if b
              then (λ w1.
                  let (r, w2) =
                    dead_letter_owned worker.owner_token c.job c.job.error_count
                      (message_or c.job.last_error_message)
                      w1 in
                  resume r (λ _. pure none) w2)
              else pure (some c))
            w).1.db
  after_claim_if c w true h =
      let m =
        dead_letter_owned worker.owner_token c.job c.job.error_count
          (message_or c.job.last_error_message) w in
      dropped m.0 m.1
        (dead_letter_keeps c.job c.job.error_count (message_or c.job.last_error_message) w h)
  after_claim_if c w false h = h

  after_claim_keeps :
      (o : Option ClaimedJob) (w : World Tables) → P w.db → P (after_claim worker o w).1.db
  unfolding after_claim
  after_claim_keeps none w h = h
  after_claim_keeps (some c) w h =
      after_claim_if c w
        (is_some c.previous_locked_by && leb worker.max_retries c.previous_error_count) h

  claim_keeps :
      (f : Fault) (o : Option ClaimedJob) (before after : Tables) (w : World Tables)
      → P before
      → P after
      → let (r, s) = settle sql f (o, after) before in
        P (resume r (after_claim worker) (record w { db = s })).1.db
  claim_keeps deliver o before after w h g = after_claim_keeps o (record w { db = after }) g
  claim_keeps (refuse e) o before after w h g = h
  claim_keeps (lost e) o before after w h g = g

  -- A fetch keeps what claims and burials keep.
  pub fetch_keeps :
      (sent_at : ℕ) (row_locked : ℕ → Bool) (now : ℕ) (abandoned : List ℕ) (w : World Tables)
      → P w.db
      → P (fetch_next_job worker sent_at row_locked now abandoned w).1.db
  unfolding fetch_next_job query claim_statement
  fetch_keeps sent_at row_locked now abandoned w h =
      let c =
        claim_row sent_at worker.owner_token now w.db
          (candidate row_locked now worker.reclaim_window_micros w.db.jobs) in
      claim_keeps (next_fault w.faults) c.0 w.db c.1 (record w { faults = rest_faults w.faults }) h
        (k.claims sent_at worker.owner_token now w.db
          (candidate row_locked now worker.reclaim_window_micros w.db.jobs) h)

copies-claim_row :
    (id sent owner now : ℕ) (t : Tables) (o : Option JobRow)
    → copies id (claim_row sent owner now t o).1 ≡ copies id t
unfolding copies
copies-claim_row id sent owner now t none = refl
copies-claim_row id sent owner now t (some r) =
    ap (λ (n : ℕ). n + count (is_letter_of id) t.dead_letter_jobs)
      (count-modify id (has_id r.job_id) (take_lease owner now) t.jobs (take_lease-id owner now))

claim_row-IsKeyed :
    (id sent owner now : ℕ) (t : Tables) (o : Option JobRow)
    → IsKeyed id t
    → IsKeyed id (claim_row sent owner now t o).1
claim_row-IsKeyed id sent owner now t none h = h
claim_row-IsKeyed id sent owner now t (some r) h =
    rw (count-modify id (has_id r.job_id) (take_lease owner now) t.jobs (take_lease-id owner now)) h

-- A job stands in the tables `n` times, and its id is a key.
abbrev pub Stands : ℕ → ℕ → Tables → Type 0
Stands id n t = (copies id t ≡ n) × IsKeyed id t

pub Keeps-Stands : (id n : ℕ) → Keeps (Stands id n)
Keeps-Stands id n = record {
  claims = λ sent owner now t o h.
      (copies-claim_row id sent owner now t o ∙ h.0, claim_row-IsKeyed id sent owner now t o h.1);
  buries = λ owner job total m t o h. (
    copies-buried owner job t id total m o ∙ h.0,
    omega (arith, delete_keyed owner job t id, h.1),
  );
}

-- A fetch neither loses nor doubles a job: whatever it finds, and however its statements fare,
-- every job stands in the two tables, taken together, as often as before, and at most once among
-- the queued jobs.
pub fetch_next_job-conserves :
    (worker : Claimer) (sent_at : ℕ) (row_locked : ℕ → Bool) (now : ℕ) (abandoned : List ℕ)
    (w : World Tables) (id : ℕ)
    → IsKeyed id w.db
    → Stands id (copies id w.db) (fetch_next_job worker sent_at row_locked now abandoned w).1.db
fetch_next_job-conserves worker sent_at row_locked now abandoned w id h =
    fetch_keeps (Stands id (copies id w.db)) (Keeps-Stands id (copies id w.db)) worker sent_at
      row_locked now abandoned w (refl, h)

-- ===== src/Jobs/Claim/Burial.antt =====
-- `dead_letter_owned` of crates/cja/src/jobs/worker.rs: all or nothing, whatever fails.
use cja.Common.{ℕ, ◌≡◌, refl, ◌∙◌, ap, sym, ◌∷◌, Bool, true, false, arith, not, keep, count}
use cja.Common.Sql.{
  Fault, deliver, refuse, lost, Result, ok, err, World, query, Action, settle, next_fault,
  rest_faults, resume,
}
use cja.Jobs.Tables.{Message, JobFromDb, Tables, owned_by}
use cja.Jobs.Claim.{
  dead_letter_owned, dead_letter_of, delete_owned, TickError, sql, finish_transaction,
  dead_letter_statements,
}

-- The job's row is gone and the dead letter is there.
abbrev pub buried : ℕ → JobFromDb → ℕ → Message → Tables → Tables
buried owner job total message t = record t {
  jobs = keep (λ r. not (owned_by job.job_id owner r)) t.jobs;
  dead_letter_jobs = dead_letter_of job total message ∷ t.dead_letter_jobs;
}

-- The tables after `dead_letter_owned` with the result `r`: as they were, or with the job dead,
-- which `Owned` must allow.
pub data Burial (Owned : Type 0) (before after dead : Tables) : Result TickError Bool → Type 0 where
  not_owned : after ≡ before → Burial Owned before after dead (ok false)
  failed : (e : TickError) → after ≡ before → Burial Owned before after dead (err e)
  moved : Owned → after ≡ dead → Burial Owned before after dead (ok true)
  reply_lost : (e : TickError) → Owned → after ≡ dead → Burial Owned before after dead (err e)

module _ {Owned : Type 0} (before dead : Tables) where
  commit-Burial :
      (working : Tables) (f : Fault)
      → Owned × (working ≡ dead)
      → let (r, after) = settle {A = Bool} sql f (true, working) before in
        Burial Owned before after dead r
  commit-Burial working deliver h = Burial.moved h.0 h.1
  commit-Burial working (refuse e) h = Burial.failed (sql e) refl
  commit-Burial working (lost e) h = Burial.reply_lost (sql e) h.0 h.1

  finish-Burial :
      (r : Result TickError Bool) (w : World Tables)
      → (r ≡ ok true → Owned × (w.db ≡ dead))
      → let (r', w') = finish_transaction before r w in Burial Owned before w'.db dead r'
  unfolding query
  finish-Burial (err e) w h = Burial.failed e refl
  finish-Burial (ok false) w h = Burial.not_owned refl
  finish-Burial (ok true) w h = commit-Burial w.db (next_fault w.faults) (h refl)

begin-Burial :
    {Owned : Type 0} (body : Action Tables TickError Bool) (dead : Tables) (f : Fault)
    (w w1 : World Tables)
    → ((v : World Tables) → v.db ≡ w.db → (body v).0 ≡ ok true → Owned × ((body v).1.db ≡ dead))
    → let (begun, s) = settle {A = Unit {0}} sql f (tt, w.db) w.db in
      let (r, w') =
        resume begun
          (λ _ w2. let (r2, w3) = body w2 in finish_transaction w2.db r2 w3)
          (record w1 { db = s }) in
      Burial Owned w.db w'.db dead r
begin-Burial body dead deliver w w1 h =
    let v : World Tables = record w1 { db = w.db } in
    finish-Burial w.db dead (body v).0 (body v).1 (h v refl)
begin-Burial body dead (refuse e) w w1 h = Burial.failed (sql e) refl
begin-Burial body dead (lost e) w w1 h = Burial.failed (sql e) refl

-- The worker holds the job's row.
abbrev pub Owns : ℕ → ℕ → Tables → Type 0
Owns id owner t = count (owned_by id owner) t.jobs ≡ 1

statements_done :
    (owner : ℕ) (job : JobFromDb) (total : ℕ) (message : Message) (w : World Tables)
    → (dead_letter_statements owner job total message w).0 ≡ ok true
    → Owns job.job_id owner w.db
      × ((dead_letter_statements owner job total message w).1.db
          ≡ buried owner job total message w.db)
unfolding dead_letter_statements query delete_owned
statements_done owner job total message w h = ground arith

-- Whatever fails, and at whatever statement, the tables are left as they were or have the job's
-- row deleted and its dead letter added, the latter only if this worker held the row. They have
-- if `true` is returned, and are left as they were if `false` is.
pub dead_letter_owned-Burial :
    (owner : ℕ) (job : JobFromDb) (total : ℕ) (message : Message) (w : World Tables)
    → let (r, w') = dead_letter_owned owner job total message w in
      Burial (Owns job.job_id owner w.db) w.db w'.db (buried owner job total message w.db) r
unfolding dead_letter_owned query
dead_letter_owned-Burial owner job total message w =
    begin-Burial (dead_letter_statements owner job total message)
      (buried owner job total message w.db) (next_fault w.faults) w
      (record w { faults = rest_faults w.faults })
      λ v e h.
        let s = statements_done owner job total message v h in
        (
          ap (λ (t : Tables). count (owned_by job.job_id owner) t.jobs) (sym e) ∙ s.0,
          s.1 ∙ ap (buried owner job total message) e,
        )

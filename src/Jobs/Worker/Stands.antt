-- ===== src/Jobs/Worker/Stands.antt =====
-- What the parts of a pass of crates/cja/src/jobs/worker.rs leave of a job in the tables.
use cja.Common.{
  ℕ, ◌+◌, ◌≡◌, ◌≢◌, ◌∙◌, refl, ap, String, Bool, true, false, arith, Option, none, some, List, [],
  ◌∷◌, All, leb, modify, count, keep, not, ◌⊎◌, inl, inr, subst, ℕ_discrete,
}
use cja.Common.Sql.{Result, World}
use cja.Jobs.Tables.{JobFromDb, JobRow, Message, Tables, owned_by, report}
use cja.Jobs.Config.{JobWorkerConfig}
use cja.Jobs.Claim.{ClaimedJob, TickError}
use cja.Jobs.Claim.Effects.{Keeps-Stands, Stands}
use cja.Jobs.Claim.Burial.{Owns, buried}
use cja.Jobs.Copies.{
  copies, IsKeyed, is_letter_of, count-modify, count-delete_ne, count-delete_le, delete_keyed,
}
use cja.Jobs.Finalize.{heartbeat_statement, finalize, RunJobOutcome, schedule_retry, retryable}
use cja.Jobs.Finalize.Effects.{finalize-Ending, after_failure, ended}
use cja.Jobs.Finalize.Conservation.{Ending-rule, schedule_retry-id}
use cja.Jobs.Lease.{
  LoopState, Poll, Turn, continue, body_ended, watchdog_expired, ownership_lost, poll, run_loop,
  race, initial, conclude, run_next_job,
}
use cja.Jobs.Lease.Loop.{resumed, run_loop-cons}
use cja.Jobs.Worker.{
  Worker, Pass, Drain, ends, dropped_before, dropped_after, run_claimed_job, beats, awaited,
}

-- The body of a job does not return successfully in any poll.
abbrev Fails : List Poll → Type 0
Fails ps = All (λ (p : Poll). p.body ≢ some none) ps

-- If the pass claims the job, its body does not return successfully.
abbrev pub NoSuccess : ℕ → Pass → Type 0
NoSuccess id pass = Fails (pass.polls id)

-- What every change of the tables in the run of a job keeps, if only jobs that `A` allows succeed.
pub record Lasts (A : ℕ → Type 0) (P : Tables → Type 0) : Type 0 where
  pub modifies :
      (p : JobRow → Bool) (f : JobRow → JobRow) (t : Tables)
      → ((r : JobRow) → (f r).job_id ≡ r.job_id)
      → P t
      → P (record t { jobs = modify p f t.jobs })
  pub buries :
      (owner : ℕ) (job : JobFromDb) (total : ℕ) (m : Message) (t : Tables)
      → Owns job.job_id owner t
      → P t
      → P (buried owner job total m t)
  pub deletes :
      (id owner : ℕ) (t : Tables)
      → A id
      → P t
      → P (record t { jobs = keep (λ r. not (owned_by id owner r)) t.jobs })

-- Updates that keep ids.
pub modify-Stands :
    (id n : ℕ) (p : JobRow → Bool) (f : JobRow → JobRow) (t : Tables)
    → ((r : JobRow) → (f r).job_id ≡ r.job_id)
    → Stands id n t
    → Stands id n (record t { jobs = modify p f t.jobs })
unfolding copies
modify-Stands id n p f t h s = (
  ap (λ (m : ℕ). m + count (is_letter_of id) t.dead_letter_jobs) (count-modify id p f t.jobs h)
      ∙ s.0,
  rw (count-modify id p f t.jobs h) s.1,
)

-- The other jobs may succeed.
pub Lasts-Stands : (id n : ℕ) → Lasts (λ j. id ≢ j) (Stands id n)
unfolding copies
Lasts-Stands id n = record {
  modifies = λ p f t h s. modify-Stands id n p f t h s;
  buries = (Keeps-Stands id n).buries;
  deletes = λ j owner t a s. (
    ap (λ (m : ℕ). m + count (is_letter_of id) t.dead_letter_jobs)
          (count-delete_ne id j owner t.jobs a)
        ∙ s.0,
    rw (count-delete_ne id j owner t.jobs a) s.1,
  );
}

-- Any job may succeed.
pub Lasts-IsKeyed : (id : ℕ) → Lasts (λ j. Unit) (IsKeyed id)
Lasts-IsKeyed id = record {
  modifies = λ p f t h s. rw (count-modify id p f t.jobs h) s;
  buries = λ owner job total m t o s. omega (arith, delete_keyed owner job t id, s);
  deletes = λ j owner t a s. omega (arith, count-delete_le id j owner t.jobs, s);
}

module _ (config : JobWorkerConfig) where
  -- A loop reports a success only if a poll saw one.
  poll_result :
      (s : LoopState) (p : Poll) (result : Option String)
      → poll config s p ≡ body_ended result
      → p.body ≡ some result
  unfolding poll
  poll_result s p result h = ground arith

  resumed_result :
      (s : LoopState) (p : Poll) (ps : List Poll) (t : Turn)
      → poll config s p ≡ t
      → p.body ≢ some none
      → ((s' : LoopState) → run_loop config s' ps ≢ body_ended none)
      → resumed config t ps ≢ body_ended none
  unfolding resumed
  resumed_result s p ps (continue s') e n k h = k s' h
  resumed_result s p ps (body_ended none) e n k h = n (poll_result s p none e)
  resumed_result s p ps (body_ended (some x)) e n k h = ground arith
  resumed_result s p ps watchdog_expired e n k h = cc
  resumed_result s p ps ownership_lost e n k h = cc

  run_loop_fails :
      (s : LoopState) (ps : List Poll)
      → All (λ p. p.body ≢ some none) ps
      → run_loop config s ps ≢ body_ended none
  unfolding run_loop
  run_loop_fails s [] a = λ h. cc
  run_loop_fails s (p ∷ ps) a =
      rw run_loop-cons
        (resumed_result s p ps (poll config s p) refl a.0 λ s'. run_loop_fails s' ps a.1)

  race_fails :
      (sent started : ℕ) (ps : List Poll)
      → All (λ p. p.body ≢ some none) ps
      → race config sent started ps ≢ body_ended none
  unfolding race
  race_fails sent started ps a = ground (arith, run_loop_fails (initial config sent) ps a)

module _ (worker : Worker) {A : ℕ → Type 0} {P : Tables → Type 0} (l : Lasts A P) where
  beats-keeps : (job owner : ℕ) (times : List ℕ) (t : Tables) → P t → P (beats job owner times t)
  unfolding beats heartbeat_statement
  beats-keeps job owner [] t h = h
  beats-keeps job owner (now ∷ times) t h =
      beats-keeps job owner times (heartbeat_statement job owner now t).1
        (l.modifies (owned_by job owner) (λ r. record r { locked_at = some now }) t (λ r. refl) h)

  after_failure-keeps :
      (now : ℕ) (job : JobFromDb) (error : String) (b : Bool) (t : Tables)
      → Owns job.job_id worker.claimer.owner_token t
      → P t
      → P (after_failure worker.claimer now job error b t)
  after_failure-keeps now job error true t o h =
      l.buries worker.claimer.owner_token job (job.error_count + 1) (report error) t o h
  after_failure-keeps now job error false t o h =
      l.modifies (retryable job.job_id worker.claimer.owner_token) (schedule_retry now error) t
        (schedule_retry-id now error) h

  ended-keeps :
      (now : ℕ) (job : JobFromDb) (result : Option String) (t : Tables)
      → A job.job_id ⊎ (result ≢ none)
      → Owns job.job_id worker.claimer.owner_token t
      → P t
      → P (ended worker.claimer now job result t)
  ended-keeps now job none t (inl a) o h = l.deletes job.job_id worker.claimer.owner_token t a h
  ended-keeps now job none t (inr x) o h = absurd (x refl)
  ended-keeps now job (some error) t x o h =
      after_failure-keeps now job error (leb worker.claimer.max_retries job.error_count) t o h

  finalize-keeps :
      (now : ℕ) (job : JobFromDb) (result : Option String) (w : World Tables)
      → A job.job_id ⊎ (result ≢ none)
      → IsKeyed job.job_id w.db
      → P w.db
      → P (finalize worker.claimer now job result w).1.db
  finalize-keeps now job result w x k h =
      Ending-rule (finalize-Ending worker.claimer now job w result k) P h
        (λ o. ended-keeps now job result w.db x o h)

  conclude-keeps :
      (now : ℕ) (c : ClaimedJob) (abandoned : List ℕ) (w : World Tables) (t : Turn)
      → A c.job.job_id ⊎ (t ≢ body_ended none)
      → IsKeyed c.job.job_id w.db
      → P w.db
      → P (conclude worker.config worker.claimer now c abandoned w t).1.db
  conclude-keeps now c abandoned w (continue s) x k h = h
  conclude-keeps now c abandoned w (body_ended none) (inl a) k h =
      finalize-keeps now c.job none w (inl a) k h
  conclude-keeps now c abandoned w (body_ended none) (inr x) k h = absurd (x refl)
  conclude-keeps now c abandoned w (body_ended (some e)) x k h =
      finalize-keeps now c.job (some e) w (inr (λ q. cc)) k h
  conclude-keeps now c abandoned w watchdog_expired x k h = h
  conclude-keeps now c abandoned w ownership_lost x k h = h

  race_fate :
      (c : ClaimedJob) (started : ℕ) (ps : List Poll)
      → A c.job.job_id ⊎ Fails ps
      → A c.job.job_id ⊎ (race worker.config c.claim_sent_at started ps ≢ body_ended none)
  race_fate c started ps (inl a) = inl a
  race_fate c started ps (inr f) = inr (race_fails worker.config c.claim_sent_at started ps f)

  awaited-keeps :
      (d : Drain) (abandoned : List ℕ) (w : World Tables)
      (r : Option (Result TickError RunJobOutcome)) (w' : World Tables) (abandoned' : List ℕ)
      → P w.db
      → P w'.db
      → P (awaited d abandoned w (r, w', abandoned')).1.db
  awaited-keeps ends abandoned w none w' abandoned' h k = k
  awaited-keeps ends abandoned w (some r) w' abandoned' h k = k
  awaited-keeps dropped_before abandoned w r w' abandoned' h k = h
  awaited-keeps dropped_after abandoned w r w' abandoned' h k = k

  -- The run of a claimed job, which `A` allows to succeed or whose body fails.
  pub run_claimed_job-keeps :
      (pass : Pass) (c : ClaimedJob) (abandoned : List ℕ) (w : World Tables)
      → A c.job.job_id ⊎ NoSuccess c.job.job_id pass
      → IsKeyed c.job.job_id (beats c.job.job_id worker.claimer.owner_token pass.heartbeats w.db)
      → P w.db
      → P (run_claimed_job worker pass c abandoned w).1.db
  unfolding run_claimed_job run_next_job
  run_claimed_job-keeps pass c abandoned w a k h =
      let w1 : World Tables = record w {
        db = beats c.job.job_id worker.claimer.owner_token pass.heartbeats w.db;
      } in
      let m =
        run_next_job worker.config worker.claimer c pass.started (pass.polls c.job.job_id)
          pass.ended_at abandoned w1 in
      let b = beats-keeps c.job.job_id worker.claimer.owner_token pass.heartbeats w.db h in
      awaited-keeps pass.drain abandoned w1 m.0 m.1 m.2 b (
        conclude-keeps pass.ended_at c abandoned w1
          (race worker.config c.claim_sent_at pass.started (pass.polls c.job.job_id))
          (race_fate c pass.started (pass.polls c.job.job_id) a) k b)

-- The run of any job keeps the ids keys, and if the job `id` does not succeed, its copies.
pub run_claimed_job-Stands :
    (worker : Worker) (id n : ℕ) (pass : Pass) (c : ClaimedJob) (abandoned : List ℕ)
    (w : World Tables)
    → NoSuccess id pass
    → ((j : ℕ) → IsKeyed j w.db)
    → copies id w.db ≡ n
    → let t = (run_claimed_job worker pass c abandoned w).1.db in
      (copies id t ≡ n) × ((j : ℕ) → IsKeyed j t)
run_claimed_job-Stands worker id n pass c abandoned w f k h =
    let keyed =
      beats-keeps worker (Lasts-IsKeyed c.job.job_id) c.job.job_id worker.claimer.owner_token
        pass.heartbeats w.db (k c.job.job_id) in
    (
      (run_claimed_job-keeps worker (Lasts-Stands id n) pass c abandoned w fate keyed (h, k id)).0,
      λ j. run_claimed_job-keeps worker (Lasts-IsKeyed j) pass c abandoned w (inl tt) keyed (k j),
    )
  where
    fate : (id ≢ c.job.job_id) ⊎ NoSuccess c.job.job_id pass
    fate = elim (ℕ_discrete id c.job.job_id) [
      | yes e ↦ inr (subst (λ j. NoSuccess j pass) e f)
      | no e ↦ inl e
    ]

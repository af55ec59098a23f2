-- ===== src/Jobs/Enqueue/Effects.antt =====
-- What `enqueue` of crates/cja/src/jobs/mod.rs leaves, and when its job can be claimed.
use cja.Common.{
  ℕ, ◌≤◌, ◌≡◌, ◌≢◌, refl, ap, subst, String, All, Option, none, some, Bool, true, false, List, [],
  ◌∷◌, arith,
}
use cja.Common.Int.{ℤ}
use cja.Common.Sql.{
  SqlError, Fault, deliver, refuse, lost, Result, ok, err, World, query, settle, next_fault,
  rest_faults,
}
use cja.Jobs.Tables.{JobRow, Tables}
use cja.Jobs.Claim.{claimable, candidate}
use cja.Jobs.Claim.Candidate.{IsFirst, is_open, candidate-IsFirst}
use cja.Jobs.Enqueue.{
  EnqueueJob, new_row, EnqueueError, serde_json_error, sqlx_error, EnqueueEvent, enqueue_receipt,
  enqueue_failure, job_enqueued, receipt_of, insert_row, insert_serialized, enqueue_on_connection,
  enqueue_core, enqueue, woken,
}

module _ (j : EnqueueJob) (context : String) (priority : Option ℤ) (created_at job_id : ℕ) where
  -- The queue with the job's row in front.
  abbrev pub Queued : Tables → Tables → Type 0
  Queued t t' =
      (payload : String) × (j.payload ≡ ok payload)
      × (t' ≡ record t {
        jobs = new_row j.job_name payload context priority created_at job_id ∷ t.jobs;
      })

  -- What an enqueue has done.
  pub data Enqueued (before after : Tables)
      : Result EnqueueError (Unit {0}) → List EnqueueEvent → Type 0 where
    sent :
        Queued before after
        → Enqueued before after (ok tt) (enqueue_receipt job_id ∷ job_enqueued ∷ [])
    failed :
        (e : EnqueueError)
        → after ≡ before
        → Enqueued before after (err e) (enqueue_failure job_id e ∷ [])
    unheard :
        (e : SqlError)
        → Queued before after
        → Enqueued before after (err (sqlx_error e)) (enqueue_failure job_id (sqlx_error e) ∷ [])

  settled-Enqueued :
      (f : Fault) (payload : String) (t : Tables) (faults : List Fault)
      → j.payload ≡ ok payload
      → let row = new_row j.job_name payload context priority created_at job_id in
        let (r, t') = settle {E = EnqueueError} sqlx_error f (insert_row row t) t in
        let w' : World Tables = record { db = t'; faults = faults } in
        let (result, events, after) = woken (r, receipt_of job_id r ∷ [], w') in
        Enqueued t after.db result events
  unfolding new_row
  settled-Enqueued deliver payload t faults p = Enqueued.sent (payload, p, refl)
  settled-Enqueued (refuse e) payload t faults p = Enqueued.failed (sqlx_error e) refl
  settled-Enqueued (lost e) payload t faults p = Enqueued.unheard e (payload, p, refl)

  core-Enqueued :
      (r : Result String String) (w : World Tables)
      → j.payload ≡ r
      → let (result, w') = insert_serialized r j.job_name context priority created_at job_id w in
        let (result', events, after) = woken (result, receipt_of job_id result ∷ [], w') in
        Enqueued w.db after.db result' events
  unfolding insert_serialized query
  core-Enqueued (err e) w p = Enqueued.failed (serde_json_error e) refl
  core-Enqueued (ok payload) w p =
      settled-Enqueued (next_fault w.faults) payload w.db (rest_faults w.faults) p

  -- However the pool and the statement fare, an enqueue either puts exactly its row into the
  -- queue, returns `Ok`, and wakes a worker after its receipt; or it returns an error with the
  -- failure event, and the queue is as it was, unless the reply to the INSERT was lost.
  pub enqueue-Enqueued :
      (acquired : Result SqlError (Unit {0})) (w : World Tables)
      → let (result, events, w') = enqueue acquired j context priority created_at job_id w in
        Enqueued w.db w'.db result events
  unfolding enqueue enqueue_core enqueue_on_connection
  enqueue-Enqueued (err e) w = Enqueued.failed (sqlx_error e) refl
  enqueue-Enqueued (ok _) w = core-Enqueued j.payload w refl

  module _ (row_locked : ℕ → Bool) (now window : ℕ) where
    fresh-open :
        (payload : String)
        → created_at ≤ now
        → row_locked job_id ≡ false
        → is_open row_locked now window
            (new_row j.job_name payload context priority created_at job_id)
          ≡ true
    unfolding new_row claimable
    fresh-open payload h l = ground (arith, h, l)

    claimed_next :
        (payload : String) (jobs jobs' : List JobRow) (o : Option JobRow)
        → created_at ≤ now
        → row_locked job_id ≡ false
        → jobs' ≡ new_row j.job_name payload context priority created_at job_id ∷ jobs
        → IsFirst row_locked now window jobs' o
        → o ≢ none
    claimed_next payload jobs jobs' none h l p n e =
        let all = subst (All (λ x. is_open row_locked now window x ≡ false)) p n in
        let open_now = fresh-open payload h l in cc (all.0, open_now)
    claimed_next payload jobs jobs' (some r) h l p n e = cc

    row_of_ok :
        (before after : Tables) (result : Result EnqueueError (Unit {0}))
        (events : List EnqueueEvent)
        → Enqueued before after result events
        → result ≡ ok tt
        → Queued before after
    row_of_ok before after result events (Enqueued.sent q) e = q
    row_of_ok before after result events (Enqueued.failed x q) e = absurd (cc)
    row_of_ok before after result events (Enqueued.unheard x q) e = absurd (cc)

    -- A job whose enqueue returned `Ok` is due at once: once the database's clock has reached the
    -- time of its enqueue, a claim on
    -- the queue that it left finds a job, if no other statement holds its row locked.
    pub enqueue-candidate :
        (acquired : Result SqlError (Unit {0})) (w : World Tables)
        → (enqueue acquired j context priority created_at job_id w).0 ≡ ok tt
        → created_at ≤ now
        → row_locked job_id ≡ false
        → let (result, events, w') = enqueue acquired j context priority created_at job_id w in
          candidate row_locked now window w'.db.jobs ≢ none
    enqueue-candidate acquired w e h l =
        let t = enqueue acquired j context priority created_at job_id w in
        let q = row_of_ok w.db t.2.db t.0 t.1 (enqueue-Enqueued acquired w) e in
        claimed_next q.0 w.db.jobs t.2.db.jobs (candidate row_locked now window t.2.db.jobs) h l
          (ap (λ (x : Tables). x.jobs) q.2) (candidate-IsFirst row_locked now window t.2.db.jobs)

-- ===== src/Llm/Durable/Others.antt =====
-- What an attempt relies on between its statements is what the statements of the others keep
-- (crates/cja-llm/src/durable/db.rs and mod.rs).
use cja.Jobs.Tables.{JobRow, DeadLetter}
use cja.Llm.Durable.Rig.{Rig}
use cja.Llm.Durable.Advance.{advance_job, enqueue_on_tx, requeue}
use cja.Llm.Durable.Backing.{is_backing}
use cja.Llm.Durable.Start.{insert_run, answer_run}
use cja.Common.{keep, modify, not, ◌⊎◌, ℕ, ◌≡◌, String, Bool, true, false, ◌==◌, List}
use cja.Llm.Durable.Nuls.{Text}
use cja.Llm.Durable.Tables.{RunRow, RunDb, MessageRow}
use cja.Llm.Durable.Db.{
  try_claim, release_lease, heartbeat, persist_step, Snapshot, set_waiting, finish, Ending,
  fail_unstorable, cancel_run,
}
use cja.Llm.Durable.Worker.{Owner}
use cja.Llm.Durable.Lifecycle.Rows.{Written}
use cja.Llm.Durable.Advance.Cover.{is_backed, row_safe}

module _ (rig : Rig) (o : Owner) (own_job : ℕ) where
  -- What the code lets others do to the tables between two statements of the attempt: the
  -- statements of an attempt with another owner, a claim only by an attempt whose job is in the
  -- queue, the transactions of start, answer and cancel, and changes of the job queue. A start draws
  -- a fresh id. A job that backs the run may leave the queue only while the run is leased to the
  -- attempt or needs no job.
  pub data Other (d : RunDb) : RunDb → Type 0 where
    claim :
        (id me takeover now : ℕ)
        → is_backed rig.payload o own_job d.queue ≡ true
        → Other d (try_claim id me takeover now d).1
    release : (id me now : ℕ) → (me == o.me) ≡ false → Other d (release_lease id me now d).1
    beat : (id me now : ℕ) → (me == o.me) ≡ false → Other d (heartbeat id me now d).1
    persist :
        (id me now : ℕ) (snap : Snapshot) (new : List MessageRow)
        → (me == o.me) ≡ false
        → Other d (persist_step id me snap new now d).1
    suspend :
        (id me now : ℕ) (state call_id : String) (question : Text) (new : List MessageRow)
        → (me == o.me) ≡ false
        → Other d (set_waiting id me state call_id question new now d).1
    end_run :
        (id me now : ℕ) (e : Ending) (snap : Snapshot) (new : List MessageRow)
        → (me == o.me) ≡ false
        → Written e
        → Other d (finish id me e snap new now d).1
    fail_run :
        (id me now : ℕ) (code : String)
        → (me == o.me) ≡ false
        → Other d (fail_unstorable id me code now d).1
    cancel : (id takeover now : ℕ) → Other d (cancel_run id takeover now d).1
    hand_over :
        (id me now created_at fresh : ℕ) (context : String)
        → (me == o.me) ≡ false
        → Other d
            (requeue
              (record { run_id = id; me = me })
              (advance_job rig.payload id context created_at fresh)
              now
              d).1
    start :
        (id : ℕ) (r : RunRow) (j : JobRow)
        → (o.run_id == id) ≡ false
        → Other d (insert_run rig id r j d).1
    answer :
        (id created_at fresh : ℕ) (text : Text)
        → (fresh == own_job) ≡ false
        → Other d
            (answer_run rig id text
              (λ context. advance_job rig.payload id context created_at fresh)
              d).1
    enqueue : (j : JobRow) → Other d (enqueue_on_tx j d)
    update_jobs :
        (p : JobRow → Bool) (f : JobRow → JobRow)
        → ((j : JobRow) → (f j).name ≡ j.name)
        → ((j : JobRow) → (f j).payload ≡ j.payload)
        → ((j : JobRow) → (f j).job_id ≡ j.job_id)
        → Other d (record d { queue = record d.queue { jobs = modify p f d.queue.jobs } })
    delete_jobs :
        (p : JobRow → Bool)
        → ((j : JobRow) → p j ≡ true → is_backing rig.payload o own_job j ≡ false)
          ⊎ (row_safe rig.payload o own_job false (d.runs o.run_id) ≡ true)
        → Other d
            (record d { queue = record d.queue { jobs = keep (λ j. not (p j)) d.queue.jobs } })
    dead_letters :
        (letters : List DeadLetter)
        → Other d (record d { queue = record d.queue { dead_letter_jobs = letters } })

  -- Any number of them.
  pub data Others (d : RunDb) : RunDb → Type 0 where
    rest : Others d d
    next : (m d' : RunDb) → Others d m → Other m d' → Others d d'

-- ===== src/Jobs/Enqueue/Tests.antt =====
-- The theorems on enqueueing at concrete inputs.
use cja.Common.{ℕ, ◌≢◌, refl, none, Bool, false, [], ◌∷◌, arith}
use cja.Common.Sql.{io, lost, World, ok, query}
use cja.Jobs.Tables.{Tables}
use cja.Jobs.Claim.{candidate}
use cja.Jobs.Enqueue.{EnqueueJob, enqueue, enqueue_core, enqueue_on_connection, insert_serialized}
use cja.Jobs.Enqueue.Effects.{Enqueued, enqueue-Enqueued, enqueue-candidate}

abbrev email : EnqueueJob
email = record { job_name = "SendEmailJob"; payload = ok "{}" }

abbrev empty_queue : World Tables
empty_queue = record { db = record { jobs = []; dead_letter_jobs = [] }; faults = [] }

abbrev losing : World Tables
losing = record { db = record { jobs = []; dead_letter_jobs = [] }; faults = lost io ∷ [] }

enqueue-Enqueued_example :
    let (result, events, w') = enqueue (ok tt) email "user-signup" none 1000 7 losing in
    Enqueued email "user-signup" none 1000 7 losing.db w'.db result events
enqueue-Enqueued_example = enqueue-Enqueued email "user-signup" none 1000 7 (ok tt) losing

abbrev unlocked : ℕ → Bool
unlocked id = false

enqueue-candidate_example :
    let (result, events, w') = enqueue (ok tt) email "user-signup" none 1000 7 empty_queue in
    candidate unlocked 1000 120000000 w'.db.jobs ≢ none
unfolding enqueue enqueue_core enqueue_on_connection insert_serialized query
enqueue-candidate_example =
    enqueue-candidate email "user-signup" none 1000 7 unlocked 1000 120000000 (ok tt) empty_queue
      refl (omega arith) refl

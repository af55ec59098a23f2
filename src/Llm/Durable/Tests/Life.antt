-- ===== src/Llm/Durable/Tests/Life.antt =====
-- The theorems on the life of a run and on `answer` and `cancel`, at concrete rows.
use cja.Common.{◌≡◌, refl, String, some, ◌∷◌, []}
use cja.Common.Sql.{ok}
use cja.Jobs.Tables.{JobRow}
use cja.Llm.Durable.Status.{waiting, cancelled}
use cja.Llm.Durable.Tables.{RunRow, RunDb, cancelled_by_request}
use cja.Llm.Durable.Db.{try_claim, heartbeat}
use cja.Llm.Durable.Rig.{Rig, ask, call_tools}
use cja.Llm.Durable.Advance.{advance_job}
use cja.Llm.Durable.Lifecycle.{IsStorable}
use cja.Llm.Durable.Lifecycle.Moves.{claim, beat}
use cja.Llm.Durable.Lifecycle.Reach.{
  IsLife, earlier, Moves, rest, next, status_of, StorableRow, Readable, Moves-Life, Moves-end,
  Moves-StorableRow, get_run-Readable,
}
use cja.Llm.Durable.Start.{answer_run, cancel}
use cja.Llm.Durable.View.{get_run}
use cja.Llm.Durable.Start.Effects.{Answered, CancelOf, answer_run-Answered, cancel-CancelOf}
use cja.Llm.Durable.Tests.{counter, queued_run, first_site, engine}

abbrev before : RunDb
before = first_site.db

abbrev claimed : RunDb
claimed = (try_claim 1 5 900 2 before).1

abbrev beaten : RunDb
beaten = (heartbeat 1 5 3 claimed).1

-- A claim and a heartbeat.
abbrev two_steps : Moves counter before beaten
two_steps = next claimed beaten (next before claimed rest (claim 1 5 900 2)) (beat 1 5 3)

queued_run-IsStorable : IsStorable queued_run
queued_run-IsStorable = record {
  asks = refl;
  questions = refl;
  ends = refl;
  fails = refl;
  succeeds = refl;
  leased = λ h. absurd (cc);
  dated = refl;
}

Moves-Life_example : IsLife (status_of (beaten.runs 1)) (earlier 1 two_steps)
Moves-Life_example = Moves-Life counter before beaten 1 two_steps

Moves-StorableRow_example : StorableRow (beaten.runs 1)
Moves-StorableRow_example =
    Moves-StorableRow counter before beaten 1 two_steps queued_run-IsStorable

get_run-Readable_example : Readable 1 (beaten.runs 1) (get_run 1 beaten)
get_run-Readable_example = get_run-Readable counter before beaten 1 two_steps queued_run-IsStorable

abbrev cancelled_run : RunRow
cancelled_run = record queued_run {
  status = cancelled;
  error = some cancelled_by_request;
  finished_at = some 4;
}

abbrev over : RunDb
over = record before { runs = λ id. some cancelled_run }

Moves-end_example : (try_claim 1 6 900 5 over).1.runs 1 ≡ some cancelled_run
Moves-end_example =
    Moves-end counter over (try_claim 1 6 900 5 over).1 1 cancelled_run
      (next over (try_claim 1 6 900 5 over).1 rest (claim 1 6 900 5)) refl refl

-- A library whose run waits on one question.
abbrev asker : Rig
asker = record counter { next_step = λ n. (ok (call_tools (ask "call" (some []) ∷ [])), n) }

abbrev waiting_db : RunDb
waiting_db = record before {
  runs = λ id. some (record queued_run {
    status = waiting;
    pending_call_id = some "call";
    pending_question = some [];
  });
}

abbrev job : String → JobRow
job context = advance_job (λ n. "payload") 1 context 3 8

answer_run-Answered_example :
    Answered asker 1 (104 ∷ []) job waiting_db (answer_run asker 1 (104 ∷ []) job waiting_db)
answer_run-Answered_example = answer_run-Answered asker 1 (104 ∷ []) job waiting_db

cancel-CancelOf_example :
    CancelOf 1 2 900000000
      (before.runs 1)
      (cancel engine 1 first_site).0
      ((cancel engine 1 first_site).1.db.runs 1)
cancel-CancelOf_example = cancel-CancelOf engine 1 first_site refl

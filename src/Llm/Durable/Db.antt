-- ===== src/Llm/Durable/Db.antt =====
-- The statements of crates/cja-llm/src/durable/db.rs. One statement, or one transaction with the
-- run's row locked, is a function of the database's time and of the tables.
use cja.Common.{
  ℕ, suc, ◌+◌, max, String, Option, none, some, is_some, Bool, true, false, ◌&&◌, ◌||◌, not, ◌==◌,
  ltb, List, [], ◌∷◌, count, if◌then◌else◌,
}
use cja.Common.Sql.{SqlError, database, str_is}
use cja.Llm.Durable.Nuls.{Text}
use cja.Llm.Durable.Status.{
  RunStatus, queued, running, waiting, cancelled, FailReason, unstorable_content,
}
use cja.Llm.Durable.Tables.{
  RunRow, RunDb, MessageRow, ErrorText, cancelled_by_request, run_content_cannot_be_stored,
  is_status, is_owned, set_run, set_messages,
}

-- `unstorable_content`, on the SQLSTATE
unfoldable pub unstorable : SqlError → Bool
unstorable (database (some code)) =
    str_is code "22P05" || (str_is code "22021" || str_is code "54000")
unstorable _ = false

-- An UPDATE of the run that this owner runs, with what RETURNING gives of the row before it.
abbrev pub update_case :
    {A : Type 0} → ℕ → (RunRow → RunRow) → (RunRow → A) → RunDb → RunRow → Bool → Option A × RunDb
update_case id f g d r true = (some (g r), set_run id (f r) d)
update_case id f g d r false = (none, d)

abbrev pub update_found :
    {A : Type 0}
    → ℕ
    → (RunRow → Bool)
    → (RunRow → RunRow)
    → (RunRow → A)
    → RunDb
    → Option RunRow
    → Option A × RunDb
update_found id p f g d none = (none, d)
update_found id p f g d (some r) = update_case id f g d r (p r)

unfoldable pub update_run :
    {A : Type 0} → ℕ → (RunRow → Bool) → (RunRow → RunRow) → (RunRow → A) → RunDb → Option A × RunDb
update_run id p f g d = update_found id p f g d (d.runs id)

-- The columns that a worker reads of a claimed row, before the claim.
pub record ClaimedRun : Type 0 where
  pub kind : String
  pub model : String
  pub run_state : String
  pub cancel_requested : Bool
  pub turns : ℕ
  pub input_tokens : ℕ
  pub output_tokens : ℕ

abbrev pub claimed_of : RunRow → ClaimedRun
claimed_of r = record {
  kind = r.kind;
  model = r.model;
  run_state = r.run_state;
  cancel_requested = r.cancel_requested;
  turns = r.turns;
  input_tokens = r.input_tokens;
  output_tokens = r.output_tokens;
}

-- locked_at < NOW() - takeover; NULL is not less.
abbrev pub is_older : ℕ → ℕ → Option ℕ → Bool
is_older now takeover none = false
is_older now takeover (some at) = ltb (at + takeover) now

-- The WHERE clause of the claim.
unfoldable pub run_claimable : ℕ → ℕ → RunRow → Bool
run_claimable now takeover r =
    is_status r.status queued
    || (is_status r.status running
        && (not (is_some r.locked_by) || is_older now takeover r.locked_at))

abbrev pub or_now : Option ℕ → ℕ → Option ℕ
or_now none now = some now
or_now (some at) now = some at

unfoldable pub lease_to : ℕ → ℕ → RunRow → RunRow
lease_to me now r = record r {
  status = running;
  locked_by = some me;
  locked_at = some now;
  started_at = or_now r.started_at now;
}

-- `try_claim`, with `takeover` in microseconds
unfoldable pub try_claim : ℕ → ℕ → ℕ → ℕ → RunDb → Option ClaimedRun × RunDb
try_claim id me takeover now =
    update_run id (run_claimable now takeover) (lease_to me now) claimed_of

-- `current_status`
unfoldable pub current_status : ℕ → ℕ → RunDb → Option RunStatus × RunDb
current_status id now d = (elim (d.runs id) [ none ↦ none | some r ↦ some r.status ], d)

abbrev pub unleased : RunRow → RunRow
unleased r = record r { locked_by = none; locked_at = none }

-- `release_lease`
unfoldable pub release_lease : ℕ → ℕ → ℕ → RunDb → Option (Unit {0}) × RunDb
release_lease id me now = update_run id (is_owned me) unleased (λ _. tt)

-- `heartbeat`
unfoldable pub heartbeat : ℕ → ℕ → ℕ → RunDb → Option Bool × RunDb
heartbeat id me now =
    update_run id (is_owned me) (λ r. record r { locked_at = some now }) (λ r. r.cancel_requested)

abbrev pub has_seq : ℕ → MessageRow → Bool
has_seq seq m = m.seq == seq

-- ON CONFLICT (run_id, seq) DO NOTHING
unfoldable pub insert_message : MessageRow → List MessageRow → List MessageRow
insert_message m ms = if ltb 0 (count (has_seq m.seq) ms) then ms else m ∷ ms

unfoldable pub insert_all : List MessageRow → List MessageRow → List MessageRow
insert_all [] ms = ms
insert_all (m ∷ rest) ms = insert_all rest (insert_message m ms)

-- `insert_messages`
abbrev pub insert_messages : ℕ → List MessageRow → RunDb → RunDb
insert_messages id new d = set_messages id (insert_all new (d.messages id)) d

-- The rest of a transaction whose UPDATE may have found no row: it is rolled back, or the messages
-- go in and it commits.
abbrev pub with_messages : {A : Type 0} → ℕ → List MessageRow → Option A × RunDb → Option A × RunDb
with_messages id new (none, d) = (none, d)
with_messages id new (some a, d) = (some a, insert_messages id new d)

-- The state and the counters that a write keeps.
pub record Snapshot : Type 0 where
  pub run_state : String
  pub turns : ℕ
  pub input_tokens : ℕ
  pub output_tokens : ℕ

abbrev pub stored : Snapshot → RunRow → RunRow
stored s r = record r {
  run_state = s.run_state;
  turns = s.turns;
  input_tokens = s.input_tokens;
  output_tokens = s.output_tokens;
}

-- `persist_step`
unfoldable pub persist_step : ℕ → ℕ → Snapshot → List MessageRow → ℕ → RunDb → Option Bool × RunDb
persist_step id me s new now d = with_messages id new (
    update_run id (is_owned me) (λ r. record (stored s r) { locked_at = some now })
      (λ r. r.cancel_requested) d)

abbrev pub parked : String → String → Text → RunRow → RunRow
parked state call_id question r = record (unleased r) {
  status = waiting;
  run_state = state;
  pending_call_id = some call_id;
  pending_question = some question;
}

abbrev pub cancelled_with : String → ℕ → RunRow → RunRow
cancelled_with state now r = record (unleased r) {
  status = cancelled;
  run_state = state;
  pending_call_id = none;
  pending_question = none;
  finished_at = some now;
  error = some cancelled_by_request;
}

-- `set_waiting`: the CASEs on `cancel_requested`
unfoldable pub set_waiting :
    ℕ → ℕ → String → String → Text → List MessageRow → ℕ → RunDb → Option Bool × RunDb
set_waiting id me state call_id question new now d = with_messages id new (
    update_run id (is_owned me)
      (λ r.
        if r.cancel_requested then cancelled_with state now r else parked state call_id question r)
      (λ r. r.cancel_requested) d)

-- What a terminal write records.
pub record Ending : Type 0 where
  pub status : RunStatus
  pub fail_reason : Option FailReason
  pub output : Option String
  pub error : Option ErrorText

abbrev pub finished : Ending → Snapshot → ℕ → RunRow → RunRow
finished e s now r = record (unleased (stored s r)) {
  status = e.status;
  fail_reason = e.fail_reason;
  output = e.output;
  error = e.error;
  finished_at = some now;
}

-- `finish`
unfoldable pub finish :
    ℕ → ℕ → Ending → Snapshot → List MessageRow → ℕ → RunDb → Option (Unit {0}) × RunDb
finish id me e s new now d =
    with_messages id new (update_run id (is_owned me) (finished e s now) (λ _. tt) d)

-- `fail_unstorable`
unfoldable pub fail_unstorable : ℕ → ℕ → String → ℕ → RunDb → Option (Unit {0}) × RunDb
fail_unstorable id me code now =
    update_run id (is_owned me)
      (λ r. record (unleased r) {
        status = RunStatus.failed;
        fail_reason = some unstorable_content;
        error = some (run_content_cannot_be_stored code);
        finished_at = some now;
      })
      (λ _. tt)

-- `answer_waiting`
unfoldable pub answer_waiting : ℕ → String → RunDb → Option (Unit {0}) × RunDb
answer_waiting id state =
    update_run id (λ r. is_status r.status waiting)
      (λ r. record (unleased r) {
        status = running;
        run_state = state;
        pending_call_id = none;
        pending_question = none;
      })
      (λ _. tt)

abbrev pub next_after : ℕ → List MessageRow → ℕ
next_after n [] = n
next_after n (m ∷ ms) = next_after (max n (suc m.seq)) ms

-- `next_message_seq`
unfoldable pub next_message_seq : ℕ → ℕ → RunDb → ℕ × RunDb
next_message_seq id now d = (next_after 0 (d.messages id), d)

-- The decision of `cancel_run`.
pub data CancelOutcome : Type 0 where
  cancel_now requested already_cancelled : CancelOutcome
  terminal : RunStatus → CancelOutcome

abbrev pub lease_is_dead : ℕ → ℕ → RunRow → Bool
lease_is_dead now takeover r =
    not (is_some r.locked_by) || (not (is_some r.locked_at) || is_older now takeover r.locked_at)

unfoldable pub cancel_action : ℕ → ℕ → RunRow → CancelOutcome
cancel_action now takeover r =
    if is_status r.status queued || is_status r.status waiting
    then cancel_now
    else if is_status r.status running && lease_is_dead now takeover r
    then cancel_now
    else if is_status r.status running
    then requested
    else if is_status r.status cancelled
    then already_cancelled
    else terminal r.status

abbrev pub cancel_row : ℕ → CancelOutcome → RunRow → RunRow
cancel_row now cancel_now r = record (unleased r) {
  status = cancelled;
  pending_call_id = none;
  pending_question = none;
  finished_at = some now;
}
cancel_row now requested r = record r { cancel_requested = true }
cancel_row now already_cancelled r = r
cancel_row now (terminal s) r = r

-- `cancel_run`
unfoldable pub cancel_run : ℕ → ℕ → ℕ → RunDb → Option CancelOutcome × RunDb
cancel_run id takeover now =
    update_run id (λ _. true) (λ r. cancel_row now (cancel_action now takeover r) r)
      (cancel_action now takeover)

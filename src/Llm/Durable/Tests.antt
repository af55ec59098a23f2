-- ===== src/Llm/Durable/Tests.antt =====
-- Runs of the durable engine on small inputs.
pub mod Life
mod Rely
use cja.Common.{◌↔◌, ℕ, suc, ◌≡◌, refl, none, some, Bool, true, false, [], ◌∷◌, find}
use cja.Common.Sql.{deliver, ok}
use cja.Llm.Durable.Nuls.{
  string, array, object, item, no_items, field, no_fields, ToolOutput, sanitize_tool_result,
  carries_nul, sanitize_tool_result_clean,
}
use cja.Llm.Durable.Status.{
  RunStatus, queued, status_text, parse_status, FailReason, reason_text, parse_reason, texts_iff,
}
use cja.Llm.Durable.Tables.{RunRow}
use cja.Llm.Durable.Db.{
  try_claim, update_run, run_claimable, lease_to, persist_step, next_message_seq, release_lease,
  heartbeat, insert_all,
}
use cja.Llm.Durable.Rig.{Rig, call_model}
use cja.Llm.Durable.Site.{Moment, Site, statement}
use cja.Llm.Durable.Worker.{Durable, kind_named, completes, never, Owner, project_rows}
use cja.Llm.Durable.Steps.{
  snapshot_of, project_messages, persist, guard_loop, resolve_turn, call_model_step,
}
use cja.Llm.Durable.Advance.{
  advance_job, advance_run, claim_and_validate, rounds, Round, retry_or_requeue,
  requeue_with_fresh_job,
}
use cja.Llm.Durable.Advance.Cover.{covered}
use cja.Llm.Durable.Advance.Held.{Polite}
use cja.Llm.Durable.Advance.Orphan.{advance_run-covered}

-- A library whose run is the number of model turns.
abbrev pub counter : Rig
counter = record {
  Run = ℕ;
  to_value = λ n. some "state";
  from_value = λ t. some 0;
  turn = λ n. n;
  input_tokens = λ n. n;
  output_tokens = λ n. n;
  messages = λ n. [];
  next_step = λ n. (ok call_model, n);
  prepare = λ n. ok n;
  model_response = λ n response. (ok false, suc n);
  resolve_unhandled_invalid_tool_call = λ n. (ok false, n);
  answer = λ n id a. (ok tt, n);
  payload = λ n. "payload";
}

abbrev pub queued_run : RunRow
queued_run = record {
  kind = "writer";
  status = queued;
  input = "input";
  output = none;
  error = none;
  fail_reason = none;
  model = "model";
  app = "app";
  turns = 0;
  input_tokens = 0;
  output_tokens = 0;
  run_state = "state";
  pending_call_id = none;
  pending_question = none;
  cancel_requested = false;
  locked_by = none;
  locked_at = none;
  created_at = 1;
  started_at = none;
  finished_at = none;
}

abbrev pub owner : Owner
owner = record { run_id = 1; me = 5 }

abbrev pub moment_at : ℕ → Moment
moment_at now = record { others = λ d. d; now = now; fault = deliver }

abbrev pub first_site : Site
first_site = record {
  db = record {
    runs = λ id. some queued_run;
    messages = λ id. [];
    queue = record {
      jobs = advance_job (λ n. "payload") 1 "advance" 1 7 ∷ [];
      dead_letter_jobs = [];
    };
  };
  moments = moment_at 2 ∷ [];
  wakes = 0;
}

abbrev pub engine : Durable
engine = record {
  app_name = "app";
  kinds =
      record {
        name = "writer";
        model = "model";
        max_turns = 9;
        max_total_tokens = 100;
        has_output_schema = false;
      }
      ∷ [];
  lease_takeover = 900000000;
}

abbrev model_round : Bool → Round
model_round shutdown = record {
  shutdown = shutdown;
  model = record { beats = 1; ending = completes (ok "response") };
  tools = λ id. record { beats = 0; ending = never };
  resolutions = 1;
}

moment-Polite : Polite (λ n. "payload") owner 7 (moment_at 2)
moment-Polite = record { keeps_safe = λ d h. h; keeps_unqueued = λ d h. h }

-- One turn of the model, then a shutdown: the attempt hands the run over to job 8.
advance_run-covered_example :
    covered
      (λ n. "payload")
      owner
      7
      (advance_run counter engine owner
        (advance_job (λ n. "payload") 1 "handover" 3 8)
        (model_round false ∷ model_round true ∷ [])
        first_site).1.db
    ≡ true
unfolding advance_run claim_and_validate try_claim update_run statement run_claimable lease_to
    kind_named find rounds snapshot_of project_messages next_message_seq project_rows persist
    persist_step guard_loop resolve_turn call_model_step retry_or_requeue requeue_with_fresh_job
    release_lease heartbeat insert_all
advance_run-covered_example =
    advance_run-covered counter engine owner 7 8 "handover" 3
      (model_round false ∷ model_round true ∷ []) first_site (moment-Polite, tt) refl refl

texts_iff_example :
    ((s : RunStatus) → (parse_status "Queued" ≡ ok s) ↔ (status_text s ≡ "Queued"))
    × ((r : FailReason) → (parse_reason "Queued" ≡ ok r) ↔ (reason_text r ≡ "Queued"))
texts_iff_example = texts_iff "Queued"

-- An object whose key and nested text hold a U+0000.
abbrev nul_output : ToolOutput
nul_output =
    ToolOutput.json
      (object (field (97 ∷ 0 ∷ []) (array (item (string (0 ∷ [])) no_items)) no_fields))

sanitize_tool_result_clean_example :
    (carries_nul (sanitize_tool_result nul_output) ≡ false)
    × (carries_nul nul_output ≡ false → sanitize_tool_result nul_output ≡ nul_output)
sanitize_tool_result_clean_example = sanitize_tool_result_clean nul_output

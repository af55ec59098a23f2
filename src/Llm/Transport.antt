-- ===== src/Llm/Transport.antt =====
-- The attempts of a request: `run_loop`, `run_attempt`, `send_and_await`, `finish_success`,
-- `classify_status`, `is_stale_virtual_key` and `retryable_delay` of
-- crates/cja-llm/src/transport.rs, and `RetryPolicy` of crates/cja-llm/src/config.rs. What the
-- network does in an attempt, the clock and the random jitter are inputs. Times are nanoseconds.
pub mod Classes
pub mod Attempts
use cja.Common.{
  ℕ, zero, suc, ◌+◌, ◌-◌, ◌*◌, ◌^◌, min, max, String, Option, none, some, Bool, true, false, ◌&&◌,
  ◌||◌, not, ltb, leb, ◌==◌, List, [], ◌∷◌, if◌then◌else◌,
}
use cja.Common.Sql.{Result, ok, err, str_is}

pub record RetryPolicy : Type 0 where
  pub max_attempts : ℕ
  pub initial_backoff : ℕ
  pub max_backoff : ℕ

pub data HttpError : Type 0 where
  transport : String → HttpError
  timeout : HttpError
  status_error : ℕ → HttpError

-- What the network does with an attempt, up to the end of a buffered body or the start of a
-- streamed one. An error reply has its status, the `type` of its body if it is JSON with one, and
-- its `Retry-After`.
pub data Wire : Type 0 where
  connect_failed request_invalid : HttpError → Wire
  queue_rejected connection_lost : String → Wire
  head_timed_out : Wire
  error_reply : ℕ → Option String → Option ℕ → Wire
  error_reply_timed_out : ℕ → Wire
  body_failed : String → Wire
  body_timed_out : Wire
  answered : Wire

pub data AttemptResult : Type 0 where
  done : AttemptResult
  retry : HttpError → Option ℕ → Bool → AttemptResult
  terminal : HttpError → AttemptResult

abbrev pub stale_type : ℕ → Option String → Bool
stale_type status none = false
stale_type status (some body_type) =
    (status == 401 && str_is body_type "access_not_found")
    || (status == 403 && str_is body_type "access_blocked")

-- `is_stale_virtual_key`
unfoldable pub is_stale_virtual_key : ℕ → Option String → Bool
is_stale_virtual_key status body_type = stale_type status body_type

abbrev pub is_server_error : ℕ → Bool
is_server_error status = leb 500 status && ltb status 600

-- `classify_status`
unfoldable pub classify_status : ℕ → Option String → Option ℕ → Bool → AttemptResult
classify_status status body_type retry_after stale_key_available =
    if status == 429 || is_server_error status
    then retry (status_error status) retry_after false
    else if stale_key_available && is_stale_virtual_key status body_type
    then retry (status_error status) none true
    else terminal (status_error status)

-- `run_attempt`
unfoldable pub run_attempt : Wire → Bool → AttemptResult
run_attempt (connect_failed e) stale_key_available = retry e none false
run_attempt (request_invalid e) stale_key_available = terminal e
run_attempt (queue_rejected e) stale_key_available = retry (transport e) none false
run_attempt (connection_lost e) stale_key_available = terminal (transport e)
run_attempt head_timed_out stale_key_available = terminal timeout
run_attempt (error_reply status body_type retry_after) stale_key_available =
    classify_status status body_type retry_after stale_key_available
run_attempt (error_reply_timed_out status) stale_key_available = terminal timeout
run_attempt (body_failed e) stale_key_available = terminal (transport e)
run_attempt body_timed_out stale_key_available = terminal timeout
run_attempt answered stale_key_available = done

abbrev pub max_u32 : ℕ
max_u32 = 4294967295

-- `Duration::MAX`
abbrev pub max_duration : ℕ
max_duration = 18446744073709551615999999999

-- The exponential backoff with its saturations, from which the jitter is drawn.
unfoldable pub backoff_base : RetryPolicy → ℕ → ℕ
backoff_base policy attempt =
    min (min (policy.initial_backoff * min (2 ^ (attempt - 1)) max_u32) max_duration)
      policy.max_backoff

abbrev pub wanted_delay : RetryPolicy → ℕ → Option ℕ → (ℕ → ℕ) → ℕ
wanted_delay policy attempt (some after) jitter = min after policy.max_backoff
wanted_delay policy attempt none jitter = jitter (backoff_base policy attempt)

-- `retryable_delay` at the instant `now`, with the random share of a backoff.
unfoldable pub retryable_delay : RetryPolicy → ℕ → Option ℕ → ℕ → ℕ → (ℕ → ℕ) → Option ℕ
retryable_delay policy attempt retry_after deadline now jitter =
    let delay = wanted_delay policy attempt retry_after jitter in
    if ltb (now + delay) deadline then some delay else none

-- An attempt as the environment decides it.
pub record Turn : Type 0 where
  pub starts_at : ℕ
  pub wire : Wire
  pub ends_at : ℕ
  pub jitter : ℕ → ℕ

-- An attempt that was made.
pub record Made : Type 0 where
  pub starts_at : ℕ
  pub wire : Wire
  pub result : AttemptResult

abbrev pub error_or_timeout : Option HttpError → HttpError
error_or_timeout none = timeout
error_or_timeout (some e) = e

pub record Request : Type 0 where
  pub policy : RetryPolicy
  pub deadline : ℕ

-- The result of the loop and the attempts made.
abbrev pub Answer : Type 0
Answer = Result HttpError (Unit {0}) × List Made

abbrev pub after_attempt : AttemptResult → Option ℕ → Made → Answer → Answer
after_attempt done delay made rest = (ok tt, made ∷ [])
after_attempt (retry e retry_after stale) none made rest = (err e, made ∷ [])
after_attempt (retry e retry_after stale) (some delay) made rest = (rest.0, made ∷ rest.1)
after_attempt (terminal e) delay made rest = (err e, made ∷ [])

abbrev pub error_of : AttemptResult → Option HttpError → Option HttpError
error_of done last = last
error_of (retry e _ _) last = some e
error_of (terminal e) last = some e

abbrev pub stale_of : AttemptResult → Bool → Bool
stale_of (retry _ _ stale) used = stale || used
stale_of _ used = used

abbrev pub after_of : AttemptResult → Option ℕ
after_of (retry _ retry_after _) = retry_after
after_of _ = none

-- The attempts from one on, with so many left.
unfoldable pub attempts_from : Request → (ℕ → Turn) → ℕ → ℕ → Bool → Option HttpError → Answer
attempts_from r turns zero attempt stale_key_used last_error =
    (err (error_or_timeout last_error), [])
attempts_from r turns (suc left) attempt stale_key_used last_error =
    let turn = turns attempt in
    let result = run_attempt turn.wire (not stale_key_used && ltb 0 left) in
    let made : Made = record { starts_at = turn.starts_at; wire = turn.wire; result = result } in
    let delay =
      retryable_delay r.policy attempt (after_of result) r.deadline turn.ends_at turn.jitter in
    let rest =
      attempts_from r turns left (suc attempt) (stale_of result stale_key_used)
        (error_of result last_error) in
    if leb r.deadline turn.starts_at
    then (err (error_or_timeout last_error), [])
    else after_attempt result delay made rest

-- `run_loop`
unfoldable pub run_loop : Request → (ℕ → Turn) → Answer
unfolding attempts_from
run_loop r turns = attempts_from r turns (max r.policy.max_attempts 1) 1 false none

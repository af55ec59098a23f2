-- ===== src/Llm/Tests.antt =====
-- The theorems on the transport at concrete inputs, and runs of its code.
use cja.Common.{ℕ, ◌*◌, ◌≡◌, refl, none, some, false, ◌==◌, length, if◌then◌else◌}
use cja.Common.Sql.{ok, err}
use cja.Llm.Transport.{
  Request, Turn, Wire, connection_lost, error_reply, answered, transport, run_loop, attempts_from,
  run_attempt, classify_status, is_stale_virtual_key, retryable_delay, backoff_base,
}
use cja.Llm.Transport.Attempts.{IsBounded, run_loop-IsBounded}

abbrev request : Request
request = record {
  policy = record { max_attempts = 3; initial_backoff = 500000000; max_backoff = 10000000000 };
  deadline = 60000000000;
}

abbrev turn : ℕ → Wire → Turn
turn attempt wire = record {
  starts_at = attempt * 2000000000;
  wire = wire;
  ends_at = attempt * 2000000000;
  jitter = λ base. base;
}

-- A stale key, too many requests, and then an answer.
abbrev recovering : ℕ → Turn
recovering attempt = turn attempt (
    if attempt == 1
    then error_reply 401 (some "access_not_found") none
    else if attempt == 2
    then error_reply 429 none (some 1000000000)
    else answered)

third_attempt_answered :
    let (result, made) = run_loop request recovering in (result ≡ ok tt) × (length made ≡ 3)
unfolding run_loop attempts_from run_attempt classify_status is_stale_virtual_key retryable_delay
    backoff_base
third_attempt_answered = (refl, refl)

-- A connection that is lost after the request was queued ends the request.
lost_is_final :
    let (result, made) = run_loop request (λ n. turn n (connection_lost "reset")) in
    (result ≡ err (transport "reset")) × (length made ≡ 1)
unfolding run_loop attempts_from run_attempt classify_status is_stale_virtual_key retryable_delay
    backoff_base
lost_is_final = (refl, refl)

run_loop-IsBounded_example : IsBounded 60000000000 3 false (run_loop request recovering)
run_loop-IsBounded_example = run_loop-IsBounded request recovering

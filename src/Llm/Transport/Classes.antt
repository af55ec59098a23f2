-- ===== src/Llm/Transport/Classes.antt =====
-- Which attempts `run_attempt` of crates/cja-llm/src/transport.rs lets be made again.
use cja.Common.{ℕ, ◌≡◌, ◌≢◌, refl, Option, none, Bool, true, false, ◌&&◌, ◌||◌, ◌==◌, if◌then◌else◌}
use cja.Llm.Transport.{
  HttpError, status_error, Wire, connect_failed, request_invalid, queue_rejected, connection_lost,
  head_timed_out, error_reply, error_reply_timed_out, body_failed, body_timed_out, answered,
  AttemptResult, done, retry, terminal, is_stale_virtual_key, is_server_error, classify_status,
  run_attempt,
}

-- The attempt may be made again: nothing was sent, or the gateway answered with 429, with a server
-- error, or with a stale virtual key.
abbrev pub is_resendable : Wire → Bool
is_resendable (connect_failed _) = true
is_resendable (queue_rejected _) = true
is_resendable (error_reply status body_type _) =
    status == 429 || (is_server_error status || is_stale_virtual_key status body_type)
is_resendable _ = false

abbrev pub is_stale_retry : AttemptResult → Bool
is_stale_retry (retry _ _ stale) = stale
is_stale_retry _ = false

-- `classify_status` on the values of its tests.
module _ (e : HttpError) (after : Option ℕ) where
  abbrev classified : Bool → Bool → Bool → AttemptResult
  classified p q s =
      if p then retry e after false else if q && s then retry e none true else terminal e

  resendable_by :
      (p₁ p₂ q s : Bool) (f : HttpError) (retry_after : Option ℕ) (stale : Bool)
      → classified (p₁ || p₂) q s ≡ retry f retry_after stale
      → p₁ || (p₂ || s) ≡ true
  resendable_by true p₂ q s f a t h = refl
  resendable_by false true q s f a t h = refl
  resendable_by false false true true f a t h = refl
  resendable_by false false true false f a t h = absurd (cc)
  resendable_by false false false s f a t h = absurd (cc)

  never_done : (p q s : Bool) → classified p q s ≢ done
  never_done true q s h = cc
  never_done false true true h = cc
  never_done false true false h = cc
  never_done false false s h = cc

  stale_by :
      (p q s : Bool) (f : HttpError) (retry_after : Option ℕ)
      → classified p q s ≡ retry f retry_after true
      → q ≡ true
  stale_by true q s f a h = absurd (cc)
  stale_by false true s f a h = refl
  stale_by false false s f a h = absurd (cc)

pub run_attempt-resendable :
    (w : Wire) (available : Bool) (e : HttpError) (retry_after : Option ℕ) (stale : Bool)
    → run_attempt w available ≡ retry e retry_after stale
    → is_resendable w ≡ true
unfolding run_attempt classify_status
run_attempt-resendable (connect_failed x) b e a s h = refl
run_attempt-resendable (queue_rejected x) b e a s h = refl
run_attempt-resendable (error_reply status t r) b e a s h =
    resendable_by (status_error status) r (status == 429) (is_server_error status) b
      (is_stale_virtual_key status t) e a s h
run_attempt-resendable (request_invalid x) b e a s h = absurd (cc)
run_attempt-resendable (connection_lost x) b e a s h = absurd (cc)
run_attempt-resendable head_timed_out b e a s h = absurd (cc)
run_attempt-resendable (error_reply_timed_out x) b e a s h = absurd (cc)
run_attempt-resendable (body_failed x) b e a s h = absurd (cc)
run_attempt-resendable body_timed_out b e a s h = absurd (cc)
run_attempt-resendable answered b e a s h = absurd (cc)

pub run_attempt-done : (w : Wire) (available : Bool) → run_attempt w available ≡ done → w ≡ answered
unfolding run_attempt classify_status
run_attempt-done answered b h = refl
run_attempt-done (error_reply status t r) b h = absurd (
    never_done (status_error status) r (status == 429 || is_server_error status) b
      (is_stale_virtual_key status t) h)
run_attempt-done (connect_failed x) b h = absurd (cc)
run_attempt-done (queue_rejected x) b h = absurd (cc)
run_attempt-done (request_invalid x) b h = absurd (cc)
run_attempt-done (connection_lost x) b h = absurd (cc)
run_attempt-done head_timed_out b h = absurd (cc)
run_attempt-done (error_reply_timed_out x) b h = absurd (cc)
run_attempt-done (body_failed x) b h = absurd (cc)
run_attempt-done body_timed_out b h = absurd (cc)

-- A stale key is retried only while its one retry is available.
pub run_attempt-stale :
    (w : Wire) (available : Bool) (e : HttpError) (retry_after : Option ℕ)
    → run_attempt w available ≡ retry e retry_after true
    → available ≡ true
unfolding run_attempt classify_status
run_attempt-stale (error_reply status t r) b e a h =
    stale_by (status_error status) r (status == 429 || is_server_error status) b
      (is_stale_virtual_key status t) e a h
run_attempt-stale (connect_failed x) b e a h = absurd (cc)
run_attempt-stale (queue_rejected x) b e a h = absurd (cc)
run_attempt-stale (request_invalid x) b e a h = absurd (cc)
run_attempt-stale (connection_lost x) b e a h = absurd (cc)
run_attempt-stale head_timed_out b e a h = absurd (cc)
run_attempt-stale (error_reply_timed_out x) b e a h = absurd (cc)
run_attempt-stale (body_failed x) b e a h = absurd (cc)
run_attempt-stale body_timed_out b e a h = absurd (cc)
run_attempt-stale answered b e a h = absurd (cc)

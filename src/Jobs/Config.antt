-- ===== src/Jobs/Config.antt =====
-- `JobWorkerConfig` and `LeaseTracker` of crates/cja/src/jobs/worker.rs. A `Duration` is a number
-- of nanoseconds, and an `Instant` one since the process started.
use cja.Common.{
  ℕ, ◌+◌, ◌*◌, ◌-◌, ◌/◌, ◌^◌, ◌≤◌, ◌<◌, ◌≡◌, ◌↔◌, Bool, true, false, arith, ap, sym, ◌∙◌, ◌||◌,
  ◌==◌, ltb, if◌then◌else◌,
}
use cja.Common.Sql.{Result, ok, err}

pub record JobWorkerConfig : Type 0 where
  pub heartbeat_interval : ℕ
  pub reclaim_window : ℕ
  pub shutdown_drain_timeout : ℕ
  -- whether an idle poll gate is set
  pub idle_poll_gate : Bool

abbrev pub seconds : ℕ → ℕ
seconds n = n * 1000000000

-- `Default for JobWorkerConfig`, given `ShutdownBudget::from_env().job_drain`
unfoldable pub default_config : ℕ → JobWorkerConfig
default_config job_drain = record {
  heartbeat_interval = seconds 30;
  reclaim_window = seconds 120;
  shutdown_drain_timeout = job_drain;
  idle_poll_gate = false;
}

pub data ConfigError : Type 0 where
  interval_not_positive window_too_small interval_out_of_range window_out_of_range
        no_query_timeout :
      ConfigError

-- One above the nanoseconds of `Duration::MAX`, whose seconds are a `u64`.
abbrev pub duration_limit : ℕ
duration_limit = 2 ^ 64 * 1000000000

abbrev pub i64_max : ℕ
i64_max = 2 ^ 63 - 1

-- `checked_mul(3).is_none_or(|minimum| window < minimum)`
abbrev pub below_three_intervals : ℕ → ℕ → Bool
below_three_intervals interval window =
    if ltb (interval * 3) duration_limit then ltb window (interval * 3) else true

-- `JobWorkerConfig::validate`: the reclaim window in microseconds.
unfoldable pub validate : JobWorkerConfig → Result ConfigError ℕ
validate c =
    if c.heartbeat_interval == 0
    then err interval_not_positive
    else if below_three_intervals c.heartbeat_interval c.reclaim_window
    then err window_too_small
    else if ltb i64_max (c.heartbeat_interval / 1000)
    then err interval_out_of_range
    else if ltb i64_max (c.reclaim_window / 1000)
    then err window_out_of_range
    else if c.heartbeat_interval / 1000 == 0
        || (c.reclaim_window / 1000 == 0 || c.heartbeat_interval / 3 == 0)
    then err no_query_timeout
    else ok (c.reclaim_window / 1000)

-- What a worker needs of its settings, its durations being representable.
pub record IsUsable (c : JobWorkerConfig) : Type 0 where
  pub whole_microsecond : 1000 ≤ c.heartbeat_interval
  pub three_intervals : 3 * c.heartbeat_interval ≤ c.reclaim_window
  pub in_range : c.reclaim_window / 1000 ≤ i64_max

validate_sound :
    (c : JobWorkerConfig) (w : ℕ) → validate c ≡ ok w → IsUsable c × (w ≡ c.reclaim_window / 1000)
unfolding validate
validate_sound c w h = ground arith

validate_complete :
    (c : JobWorkerConfig)
    → c.reclaim_window < duration_limit
    → IsUsable c
    → validate c ≡ ok (c.reclaim_window / 1000)
unfolding validate
validate_complete c d u = ground arith

-- Settings are accepted exactly if the heartbeat interval is at least a microsecond, the reclaim
-- window is at least three intervals, and the window's microseconds fit an `i64`; what is returned
-- are those microseconds. The window is any `Duration`.
pub validate_iff :
    (c : JobWorkerConfig) (w : ℕ)
    → c.reclaim_window < duration_limit
    → (validate c ≡ ok w) ↔ (IsUsable c × (w ≡ c.reclaim_window / 1000))
validate_iff c w d = (validate_sound c w, λ u. validate_complete c d u.0 ∙ ap ok (sym u.1))

pub record LeaseTracker : Type 0 where
  pub last_refresh_sent : ℕ
  pub heartbeat_interval : ℕ
  pub reclaim_window : ℕ

-- `LeaseTracker::deadline`
unfoldable pub deadline : LeaseTracker → ℕ
deadline t = t.last_refresh_sent + t.reclaim_window - t.heartbeat_interval / 2

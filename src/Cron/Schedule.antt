-- ===== src/Cron/Schedule.antt =====
-- When a cron is due: `IntervalSchedule`, `CronSchedule` and `Schedule` of
-- crates/cja/src/cron/registry.rs. An instant is a number of microseconds, as the database keeps it,
-- and an interval is its `Duration` rounded down to microseconds, which the time between two such
-- instants exceeds exactly when it exceeds the `Duration`. A change of time zone leaves the instant. The
-- `cron` crate is the function of a parsed expression that gives the first slot after an instant in
-- a zone. Intervals and instants are within the range of chrono.
use cja.Common.{
  ℕ, ◌+◌, ◌-◌, ◌≤◌, ◌<◌, ◌≡◌, ◌↔◌, refl, Option, none, some, Bool, true, false, arith, ltb, leb,
  if◌then◌else◌,
}

pub data Schedule : Type 0 where
  interval : ℕ → Schedule
  cron : (ℕ → ℕ → Option ℕ) → Schedule

abbrev pub or_else : Option ℕ → ℕ → ℕ
or_else none d = d
or_else (some x) d = x

-- `IntervalSchedule::should_run`
unfoldable pub interval_should_run : ℕ → Option ℕ → ℕ → Bool
interval_should_run d none now = true
interval_should_run d (some last_run) now =
    if ltb now last_run then false else ltb d (now - last_run)

abbrev pub slot_reached : Option ℕ → ℕ → Bool
slot_reached none now = false
slot_reached (some next_run) now = leb next_run now

-- `CronSchedule::should_run`
unfoldable pub cron_should_run : (ℕ → ℕ → Option ℕ) → Option ℕ → ℕ → ℕ → ℕ → Bool
cron_should_run after last_run now worker_started_at timezone =
    slot_reached (after timezone (or_else last_run worker_started_at)) now

-- `Schedule::should_run`
unfoldable pub should_run : Schedule → Option ℕ → ℕ → ℕ → ℕ → Bool
unfolding interval_should_run cron_should_run
should_run (interval d) last_run now worker_started_at timezone = interval_should_run d last_run now
should_run (cron after) last_run now worker_started_at timezone =
    cron_should_run after last_run now worker_started_at timezone

-- `Schedule::next_run`; `none` where the source's `unwrap` panics.
unfoldable pub next_run : Schedule → Option ℕ → ℕ → ℕ → Option ℕ
next_run (interval d) last_run now timezone = some (or_else last_run now + d)
next_run (cron after) last_run now timezone = after timezone (or_else last_run now)

-- An announced run has come: an interval has to be exceeded, a slot to be reached.
abbrev pub HasCome : Schedule → ℕ → ℕ → Type 0
HasCome (interval d) next now = next < now
HasCome (cron after) next now = next ≤ now

slot_reached_iff :
    (o : Option ℕ) (now : ℕ) → (slot_reached o now ≡ true) ↔ ((n : ℕ) × (o ≡ some n) × (n ≤ now))
slot_reached_iff none now = (λ h. absurd (cc), λ h. absurd (cc (h.1)))
slot_reached_iff (some n) now = (λ h. (n, refl, ground arith), λ h. ground (arith, h.1, h.2))

-- After a last run, an interval cron is due exactly when the time is strictly past its announced next
-- run, and not yet at it; a cron expression is due exactly from its announced next run on.
pub should_run-next_run :
    (s : Schedule) (last now started timezone : ℕ)
    → (should_run s (some last) now started timezone ≡ true)
      ↔ ((n : ℕ) × (next_run s (some last) now timezone ≡ some n) × HasCome s n now)
unfolding should_run next_run
should_run-next_run (interval d) last now started timezone =
    (λ h. (last + d, refl, ground arith), λ h. ground (arith, h.1, h.2))
should_run-next_run (cron after) last now started timezone =
    slot_reached_iff (after timezone last) now

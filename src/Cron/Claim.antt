-- ===== src/Cron/Claim.antt =====
-- The claim of a due cron: `claim_due` and `commit_claim` of crates/cja/src/cron/registry.rs.
pub mod Holds
pub mod Fires
use text.Mathlib.Text.{starts_with}
use cja.Common.{
  ℕ, String, Option, none, some, List, [], ◌∷◌, ◌++◌, Bool, true, false, ◌||◌, is_some, modify,
  if◌then◌else◌,
}
use cja.Common.Sql.{
  SqlError, database, io, pool_closed, row_not_found, Result, ok, err, World, query, str_is,
}
use cja.Cron.Schedule.{Schedule, should_run}
use cja.Cron.Tables.{CronRow, CronDb, named, last_run_at}

-- `recoverable_sqlstate`
unfoldable pub recoverable_sqlstate : String → Bool
recoverable_sqlstate code =
    str_is code "55P03"
    || (str_is code "57014"
        || (str_is code "25P03" || (str_is code "57P01" || starts_with code "08")))

-- `recoverable`
unfoldable pub recoverable : SqlError → Bool
recoverable (database (some code)) = recoverable_sqlstate code
recoverable io = true
recoverable pool_closed = true
recoverable _ = false

pub data TickError : Type 0 where
  job_error : String → TickError
  sqlx_error : SqlError → TickError

-- A part of a tick: it goes on, ends the tick with `Ok`, or with an error.
pub data Part {ℓ} (A : Type ℓ) : Type ℓ where
  got : A → Part A
  skipped : Part A
  failed : TickError → Part A

abbrev pub Try : Type 0 → Type 0
Try A = World CronDb → Part A × World CronDb

module _ {A B : Type 0} where
  abbrev pub follow : Part A → (A → Try B) → World CronDb → Part B × World CronDb
  follow (got a) f w = f a w
  follow skipped f w = (skipped, w)
  follow (failed e) f w = (failed e, w)

  infixl 5 ◌>>=◌ ◌>>◌
  abbrev pub ◌>>=◌ : Try A → (A → Try B) → Try B
  ◌>>=◌ m f w = let (r, w') = m w in follow r f w'

  abbrev pub ◌>>◌ : Try A → Try B → Try B
  m >> n = m >>= λ _. n

module _ {A : Type 0} where
  -- `skip_recoverable`: an error that passes by itself only skips this tick.
  abbrev pub sorted : Result SqlError A → Part A
  sorted (ok a) = got a
  sorted (err e) = if recoverable e then skipped else failed (sqlx_error e)

  abbrev pub statement : (CronDb → A × CronDb) → Try A
  statement f w = let (r, w') = query (λ e. e) f w in (sorted r, w')

  abbrev pub give : A → Try A
  give a w = (got a, w)

  abbrev pub skip : Try A
  skip w = (skipped, w)

abbrev pub setting : Try (Unit {0})
setting = statement (λ d. (tt, d))

-- What the environment decides in a claim: whether the first SELECT comes just before another
-- scheduler commits the cron's row, and the times of the INSERT and of `clock_timestamp()`.
pub record ClaimEnv : Type 0 where
  pub row_unseen : Bool
  pub inserted_at : ℕ
  pub claim_time : ℕ

abbrev pub first_select : String → Bool → CronDb → Option ℕ
first_select name unseen d = if unseen then none else last_run_at name d

abbrev pub add_row : String → ℕ → CronDb → CronDb
add_row name at d = record d { crons = record { name = name; last_run_at = at } ∷ d.crons }

-- INSERT … ON CONFLICT (name) DO NOTHING RETURNING: `true` if the row went in.
abbrev pub insert_first : String → ℕ → CronDb → Bool × CronDb
insert_first name at d =
    if is_some (last_run_at name d) then (false, d) else (true, add_row name at d)

-- `fetch_one`
abbrev pub fetch_one : Option ℕ → Try (Option ℕ)
fetch_one none w = (failed (sqlx_error row_not_found), w)
fetch_one (some at) w = (got (some at), w)

unfoldable pub reselect : String → Bool → Try (Option ℕ)
reselect name true = give none
reselect name false = statement (λ d. (last_run_at name d, d)) >>= fetch_one

-- The `last_run` of a claim: that of the row, or nothing if the row is new.
unfoldable pub find_row : String → ClaimEnv → Option ℕ → Try (Option ℕ)
find_row name env (some at) = give (some at)
find_row name env none = statement (insert_first name env.inserted_at) >>= reselect name

pub record Claim : Type 0 where
  pub at : ℕ
  pub last_run : Option ℕ

-- Nothing is claimed if the cron is not due at the database's time.
unfoldable pub if_due : Schedule → ℕ → ℕ → ℕ → Option ℕ → Try Claim
if_due schedule worker_started_at timezone at last_run =
    if should_run schedule last_run at worker_started_at timezone
    then give (record { at = at; last_run = last_run })
    else skip

-- SELECT clock_timestamp(), and the test.
unfoldable pub timed : Schedule → ℕ → ℕ → ClaimEnv → Option ℕ → Try Claim
timed schedule worker_started_at timezone env last_run = do
  at ← statement (λ d. (env.claim_time, d))
  if_due schedule worker_started_at timezone at last_run

-- The row, and what follows.
unfoldable pub rowed : String → Schedule → ℕ → ℕ → ClaimEnv → Try Claim
rowed name schedule worker_started_at timezone env = do
  existing ← statement (λ d. (first_select name env.row_unseen d, d))
  last_run ← find_row name env existing
  timed schedule worker_started_at timezone env last_run

-- `claim_due` in its transaction: three settings, the row, the time, the test.
unfoldable pub claim_due : String → Schedule → ℕ → ℕ → ClaimEnv → Try Claim
claim_due name schedule worker_started_at timezone env = do
  setting
  setting
  setting
  rowed name schedule worker_started_at timezone env

-- UPDATE crons SET last_run_at = $1 WHERE name = $2
unfoldable pub stamp : String → ℕ → CronDb → CronDb
stamp name at d = record d {
  crons = modify (named name) (λ r. record r { last_run_at = at }) d.crons;
}

abbrev pub stamped : String → ℕ → Try (Unit {0})
stamped name at = statement (λ d. (tt, stamp name at d))

-- COMMIT of what the transaction has done since `before`.
abbrev pub commit : CronDb → Try (Unit {0})
commit before w = statement (λ _. (tt, w.db)) (record w { db = before })

module _ {A : Type 0} where
  abbrev pub closed : A → Part (Unit {0}) × World CronDb → Part A × World CronDb
  closed a (got _, w) = (got a, w)
  closed a (skipped, w) = (skipped, w)
  closed a (failed e, w) = (failed e, w)

  abbrev pub settled : CronDb → Part A → World CronDb → Part A × World CronDb
  settled before (got a) w = closed a (commit before w)
  settled before skipped w = (skipped, record w { db = before })
  settled before (failed e) w = (failed e, record w { db = before })

  -- A transaction from BEGIN to COMMIT; one that is left early is rolled back.
  unfoldable pub transaction : Try A → Try A
  transaction body w =
      let (begun, w1) = setting w in
      follow begun (λ _ w2. let (r, w3) = body w2 in settled w2.db r w3) w1

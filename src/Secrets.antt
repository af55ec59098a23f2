-- ===== src/Secrets.antt =====
-- Secrets held in memory (crates/cja-secret/src/lib.rs): the boot fetch with its retries, the store,
-- and the refresher. The connection to setec is outside: what it answers, and when, are inputs.
-- Instants and durations are nanoseconds. Entries have one type of values, `T`, which stands for the
-- sum of the application's types, and each its own parser.
pub mod Client
pub mod Boot
pub mod Kept
pub mod Report
mod Tests
use cja.Common.{
  ℕ, zero, suc, ◌+◌, ◌*◌, min, String, Option, none, some, Bool, true, false, not, ◌&&◌, ◌==◌, ltb,
  leb, List, [], ◌∷◌, ◌++◌, if◌then◌else◌,
}
use cja.Common.Sql.{Result, ok, err}

-- `setec::Error`, with the status of a server's error
pub data SetecError : Type 0 where
  not_found access_denied version_claimed invalid_request transport invalid_url decode : SetecError
  server : ℕ → SetecError

-- `is_retryable`
unfoldable pub is_retryable : SetecError → Bool
is_retryable transport = true
is_retryable (server status) = leb 500 status && ltb status 600
is_retryable _ = false

pub record SecretValue : Type 0 where
  pub value : List ℕ
  pub version : ℕ

pub data Error : Type 0 where
  setec : String → SetecError → Error
  boot_timeout : String → Option SetecError → Error
  parse_failed : String → ℕ → Error

abbrev pub initial_retry_wait : ℕ
initial_retry_wait = 250000000

abbrev pub max_retry_wait : ℕ
max_retry_wait = 4000000000

-- One attempt of the boot fetch: the answer, or none where the deadline passes first; how long it
-- takes; and how much later than asked the sleep after it ends.
pub record Attempt : Type 0 where
  pub answer : Option (Result SetecError SecretValue)
  pub took : ℕ
  pub overslept : ℕ

pub data Fetched : Type 0 where
  fetched : SecretValue → Fetched
  fetch_failed : Error → Fetched
  -- more attempts than the fuel
  retrying : Fetched

-- After an error that may pass.
abbrev pub retry_or_give_up : String → ℕ → ℕ → ℕ → SetecError → Fetched → Fetched
retry_or_give_up name deadline now wait e more =
    if leb deadline (now + wait) then fetch_failed (boot_timeout name (some e)) else more

abbrev pub after_attempt :
    String → ℕ → ℕ → ℕ → Option (Result SetecError SecretValue) → Fetched → Fetched
after_attempt name deadline now wait none more = fetch_failed (boot_timeout name none)
after_attempt name deadline now wait (some (ok v)) more = fetched v
after_attempt name deadline now wait (some (err e)) more =
    if is_retryable e
    then retry_or_give_up name deadline now wait e more
    else fetch_failed (setec name e)

-- The loop of `fetch_at_boot`, from attempt `n`.
unfoldable pub fetch_from : String → (ℕ → Attempt) → ℕ → ℕ → ℕ → ℕ → ℕ → Fetched
fetch_from name attempts deadline zero n now wait = retrying
fetch_from name attempts deadline (suc fuel) n now wait =
    let a = attempts n in
    let later = now + a.took in
    after_attempt name deadline later wait a.answer (
      fetch_from name attempts deadline fuel (suc n) (later + wait + a.overslept)
        (min (wait * 2) max_retry_wait))

-- `fetch_at_boot`
unfoldable pub fetch_at_boot : String → (ℕ → Attempt) → ℕ → ℕ → ℕ → Fetched
fetch_at_boot name attempts timeout now fuel =
    fetch_from name attempts (now + timeout) fuel 0 now initial_retry_wait

module _ (T : Type 0) where
  -- `Entry`; `notified` counts the values that its watchers are sent.
  pub record Entry : Type 0 where
    pub name : String
    pub from_secret : List ℕ → Option T
    pub version : ℕ
    pub checked_at : ℕ
    pub current : T
    pub notified : ℕ

  pub record SecretStore : Type 0 where
    pub tracked : List Entry
    pub absent : List String

  abbrev pub tracked_with :
      String
      → (List ℕ → Option T)
      → ℕ
      → SecretValue
      → SecretStore
      → Option T
      → Result Error Entry × SecretStore
  tracked_with name from_secret now v s none = (err (parse_failed name v.version), s)
  tracked_with name from_secret now v s (some t) =
      let e : Entry = record {
        name = name;
        from_secret = from_secret;
        version = v.version;
        checked_at = now;
        current = t;
        notified = 0;
      } in
      (ok e, record s { tracked = s.tracked ++ (e ∷ []) })

  -- `track`
  unfoldable pub track :
      String
      → (List ℕ → Option T)
      → ℕ
      → SecretValue
      → SecretStore
      → Result Error Entry × SecretStore
  track name from_secret now v s = tracked_with name from_secret now v s (from_secret v.value)

  -- `declare`, of what the boot fetch returned; none while it has not
  unfoldable pub declare :
      String
      → (List ℕ → Option T)
      → ℕ
      → Fetched
      → SecretStore
      → Option (Result Error Entry × SecretStore)
  declare name from_secret now (fetched v) s = some (track name from_secret now v s)
  declare name from_secret now (fetch_failed e) s = some (err e, s)
  declare name from_secret now retrying s = none

  abbrev pub present : Result Error Entry × SecretStore → Result Error (Option Entry) × SecretStore
  present (ok e, s) = (ok (some e), s)
  present (err e, s) = (err e, s)

  -- `declare_optional`
  unfoldable pub declare_optional :
      String
      → (List ℕ → Option T)
      → ℕ
      → Fetched
      → SecretStore
      → Option (Result Error (Option Entry) × SecretStore)
  declare_optional name from_secret now (fetched v) s =
      some (present (track name from_secret now v s))
  declare_optional name from_secret now (fetch_failed (setec x not_found)) s =
      some (ok none, record s { absent = s.absent ++ (name ∷ []) })
  declare_optional name from_secret now (fetch_failed e) s = some (err e, s)
  declare_optional name from_secret now retrying s = none

  -- `tx.send_replace`
  abbrev pub send_replace : T → Entry → Entry
  send_replace t e = record e { current = t; notified = suc e.notified }

  -- `version.store`
  abbrev pub store_version : ℕ → Entry → Entry
  store_version version e = record e { version = version }

  -- The writes of an `apply`, in order.
  abbrev pub writes : SecretValue → T → List (Entry → Entry)
  writes v t = send_replace t ∷ store_version v.version ∷ []

  abbrev pub after_writes : List (Entry → Entry) → Entry → Entry
  after_writes [] e = e
  after_writes (f ∷ fs) e = after_writes fs (f e)

  -- What readers may see after each write but the last.
  abbrev pub between_writes : List (Entry → Entry) → Entry → List Entry
  between_writes [] e = []
  between_writes (f ∷ []) e = []
  between_writes (f ∷ g ∷ fs) e = f e ∷ between_writes (g ∷ fs) (f e)

  abbrev pub apply_parsed : Entry → SecretValue → Option T → Result Error Entry
  apply_parsed e v none = err (parse_failed e.name v.version)
  apply_parsed e v (some t) = ok (after_writes (writes v t) e)

  -- `apply`
  unfoldable pub apply : Entry → SecretValue → Result Error Entry
  apply e v = apply_parsed e v (e.from_secret v.value)

  abbrev pub checked : ℕ → Entry → Result Error Entry → Result Error (Unit {0}) × Entry
  checked now e (err x) = (err x, e)
  checked now e (ok e') = (ok tt, record e' { checked_at = now })

  -- `refresh_one`, of what the conditional get answered
  unfoldable pub refresh_one :
      ℕ → Result SetecError (Option SecretValue) → Entry → Result Error (Unit {0}) × Entry
  refresh_one now (err x) e = (err (setec e.name x), e)
  refresh_one now (ok none) e = checked now e (ok e)
  refresh_one now (ok (some v)) e = checked now e (apply e v)

  -- A conditional get, and the instant after it.
  pub record Reply : Type 0 where
    pub answer : Result SetecError (Option SecretValue)
    pub at : ℕ

  abbrev pub failure : Result Error (Unit {0}) → List Error → List Error
  failure (ok _) fs = fs
  failure (err x) fs = x ∷ fs

  -- The loop of `refresh`; the secret at a position is asked for its name and version.
  unfoldable pub refresh_all : (ℕ → String → ℕ → Reply) → ℕ → List Entry → List Error × List Entry
  refresh_all ask i [] = ([], [])
  refresh_all ask i (e ∷ es) =
      let reply = ask i e.name e.version in
      let (r, e') = refresh_one reply.at reply.answer e in
      let (fs, es') = refresh_all ask (suc i) es in (failure r fs, e' ∷ es')

  abbrev pub refreshed : List Error × List Entry → Result (List Error) (Unit {0}) × List Entry
  refreshed ([], es) = (ok tt, es)
  refreshed (f ∷ fs, es) = (err (f ∷ fs), es)

  -- `refresh`
  unfoldable pub refresh :
      (ℕ → String → ℕ → Reply) → List Entry → Result (List Error) (Unit {0}) × List Entry
  refresh ask es = refreshed (refresh_all ask 0 es)

  -- What the select of `run` takes.
  pub data Event : Type 0 where
    tick : (ℕ → String → ℕ → Reply) → Event
    cancelled : Event

  -- `run`: whether it has returned, and the entries
  unfoldable pub run : List Event → List Entry → Bool × List Entry
  run [] es = (false, es)
  run (cancelled ∷ rest) es = (true, es)
  run (tick ask ∷ rest) es = run rest (refresh ask es).1

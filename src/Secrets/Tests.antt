-- ===== src/Secrets/Tests.antt =====
-- The theorems on secrets at concrete inputs.
use cja.Common.{
  All, ℕ, ◌≡◌, refl, String, Option, none, some, ◌==◌, List, [], ◌∷◌, if◌then◌else◌, arith,
}
use cja.Common.Sql.{ok, err}
use cja.Secrets.{
  transport, SecretValue, SecretStore, Entry, Reply, tick, cancelled, Attempt, fetched,
  fetch_at_boot, fetch_from, is_retryable, track, run, refresh,
}
use cja.Secrets.Boot.{IsFetched, fetch_at_boot-IsFetched}
use cja.Secrets.Client.{
  RawSecretValue, replied, get_version, get_if_changed, Agree, get_version-Agree,
}
use cja.Secrets.Kept.{AreCurrent, IsPublished, halfway_run, track-run-AreCurrent}
use cja.Secrets.Report.{IsReport, refresh-IsReport}

abbrev first_value : SecretValue
first_value = record { value = 97 ∷ []; version = 1 }

abbrev second_value : SecretValue
second_value = record { value = 98 ∷ []; version = 2 }

-- Unreachable once, then the value.
abbrev late : ℕ → Attempt
late n = record {
  answer = some (if n == 0 then err transport else ok first_value);
  took = 1000;
  overslept = 7;
}

-- One second of timeout, so five attempts are enough.
fetch_at_boot-IsFetched_example :
    IsFetched "key" late 40 1000000000 (fetch_at_boot "key" late 1000000000 40 5)
fetch_at_boot-IsFetched_example = fetch_at_boot-IsFetched "key" late 40 1000000000 5 (omega arith)

late-fetch_at_boot : fetch_at_boot "key" late 1000000000 40 5 ≡ fetched first_value
unfolding fetch_at_boot fetch_from is_retryable
late-fetch_at_boot = refl

abbrev published : String → ℕ → Option (List ℕ)
published name version = if version == 1 then some (97 ∷ []) else some (98 ∷ [])

-- Values of one byte.
abbrev byte : List ℕ → Option ℕ
byte [] = none
byte (b ∷ _) = some b

abbrev rotated : ℕ → String → ℕ → Reply ℕ
rotated i name known = record { answer = ok (some second_value); at = 90 }

abbrev unreachable : ℕ → String → ℕ → Reply ℕ
unreachable i name known = record { answer = err transport; at = 95 }

abbrev empty_store : SecretStore ℕ
empty_store = record { tracked = []; absent = [] }

track-run-AreCurrent_example :
    let evs = tick rotated ∷ tick unreachable ∷ cancelled ∷ [] in
    let es = (track ℕ "key" byte 50 first_value empty_store).1.tracked in
    AreCurrent ℕ published (run ℕ evs es).1
    × All (IsPublished ℕ published) (halfway_run ℕ published evs es)
track-run-AreCurrent_example =
    track-run-AreCurrent ℕ published "key" byte 50 first_value empty_store
      (tick rotated ∷ tick unreachable ∷ cancelled ∷ []) refl tt
      ((λ i name known. refl), ((λ i name known. tt), tt))

abbrev entry : Entry ℕ
entry = record {
  name = "key";
  from_secret = byte;
  version = 1;
  checked_at = 50;
  current = 97;
  notified = 0;
}

refresh-IsReport_example : IsReport ℕ rotated (entry ∷ []) (refresh ℕ rotated (entry ∷ []))
refresh-IsReport_example = refresh-IsReport ℕ rotated (entry ∷ [])

abbrev read_byte : List ℕ → Option RawSecretValue
read_byte bytes = some (record { value = bytes; version = 1 })

get_version-Agree_example :
    Agree read_byte
      (λ bytes. some bytes)
      (replied 200 (97 ∷ []))
      (get_version read_byte (λ bytes. some bytes) (replied 200 (97 ∷ [])))
      (get_if_changed read_byte (λ bytes. some bytes) (replied 200 (97 ∷ [])))
get_version-Agree_example =
    get_version-Agree read_byte (λ bytes. some bytes) (replied 200 (97 ∷ []))

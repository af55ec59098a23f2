-- ===== src/ToolCache/Tests.antt =====
-- The theorems on the tool cache at concrete inputs.
use cja.Common.{
  List, ℕ, ◌≤◌, ◌≡◌, ◌↔◌, none, some, true, false, ◌==◌, [], ◌∷◌, length, if◌then◌else◌,
}
use cja.ToolCache.{
  ToolSpec, normal, regular, TarEntry, Unpacker, absent, Cache, renamed, Disk, exceeds, read_capped,
  resolve_locked,
}
use cja.ToolCache.Checked.{IsResolved}
use cja.ToolCache.Verified.{resolve_locked-IsResolved}
use cja.ToolCache.Capped.{read_capped_iff}

abbrev spec : ToolSpec
spec = record { digest = "one"; archive_executable = some "package/lib/tsc"; max_bytes = 3 }

abbrev executable : TarEntry
executable = record {
  path = "package/lib/tsc";
  is_absolute = false;
  components = normal "package" ∷ normal "lib" ∷ normal "tsc" ∷ [];
  kind = regular;
  content = 7 ∷ [];
}

abbrev library : TarEntry
library = record {
  path = "package/lib/lib.d.ts";
  is_absolute = false;
  components = normal "package" ∷ normal "lib" ∷ normal "lib.d.ts" ∷ [];
  kind = regular;
  content = [];
}

-- A digest that tells a single byte from anything else.
abbrev unpacker : Unpacker
unpacker = record {
  sha256 = λ bytes. if length bytes == 1 then "one" else "other";
  entries = λ bytes. some executable ∷ some library ∷ [];
}

abbrev disk : Disk
disk = record {
  inspects = true;
  opens = true;
  writes_marker = true;
  moves_stale = true;
  download = some (5 ∷ []);
  stages = true;
  unpacks = true;
  cleans = true;
  renames = renamed;
  modified = some 9;
  removes_stale = true;
}

abbrev empty : Cache
empty = record { entry = absent; verified = none; stale = [] }

resolve_locked-IsResolved_example :
    IsResolved unpacker spec
      (some "package/lib/tsc")
      (resolve_locked unpacker spec disk false empty)
resolve_locked-IsResolved_example =
    resolve_locked-IsResolved unpacker spec disk false empty tt (λ other e v. absurd (cc))

abbrev body : List ℕ
body = 1 ∷ 2 ∷ []

read_capped_iff_example :
    (read_capped spec none (some body) ≡ some body)
    ↔ ((some body ≡ some body) × (length body ≤ 3) × (exceeds 3 none ≡ false))
read_capped_iff_example = read_capped_iff spec none (some body) body

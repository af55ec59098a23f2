-- ===== src/ToolCache.antt =====
-- The verified cache of build tools (crates/cja-build/src/tool_cache.rs): one tool's entry in the
-- cache directory, under its lock. SHA-256 and the reader of archives are outside, so they are a
-- parameter. What each operation of the file system answers is an input, and an error's text is left
-- out. A file is its bytes with its modification time.
pub mod Checked
pub mod Verified
pub mod Capped
mod Tests
use cja.Common.{
  ℕ, zero, suc, ◌+◌, ◌≡◌, String, Option, none, some, is_some, Bool, true, false, not, ◌&&◌, ◌||◌,
  ◌==◌, ltb, List, [], ◌∷◌, ◌++◌, length, if◌then◌else◌,
}
use cja.Common.Sql.{Result, ok, err, str_is}

pub record ToolSpec : Type 0 where
  pub digest : String
  pub archive_executable : Option String
  pub max_bytes : ℕ

pub data Component : Type 0 where
  normal : String → Component
  prefix root_dir cur_dir parent_dir : Component

pub data EntryKind : Type 0 where
  regular directory link special : EntryKind

-- A tar entry.
pub record TarEntry : Type 0 where
  pub path : String
  pub is_absolute : Bool
  pub components : List Component
  pub kind : EntryKind
  pub content : List ℕ

pub record Unpacker : Type 0 where
  pub sha256 : List ℕ → String
  -- the entries of an archive; none for one that cannot be read
  pub entries : List ℕ → List (Option TarEntry)

-- An unpacked archive: the digest that its marker names, the executable and the libraries.
pub record Tree : Type 0 where
  pub files : List TarEntry
  pub marker : Option String

-- What stands at the root of a tool's cache entry.
pub data Entry : Type 0 where
  absent : Entry
  file : List ℕ → Option ℕ → Entry
  tree : Tree → Entry

-- The text of a `.verified` marker: length, modification time and digest.
pub record Stamp : Type 0 where
  pub len : ℕ
  pub modified : ℕ
  pub digest : String

pub record Cache : Type 0 where
  pub entry : Entry
  pub verified : Option Stamp
  pub stale : List Entry

-- Where a rename to the root ends: done, an entry is there already, or another error.
pub data Renamed : Type 0 where
  renamed rename_failed : Renamed
  exists : Entry → Renamed

-- The answers of the file system and of the download.
pub record Disk : Type 0 where
  pub inspects : Bool
  pub opens : Bool
  pub writes_marker : Bool
  pub moves_stale : Bool
  pub download : Option (List ℕ)
  pub stages : Bool
  pub unpacks : Bool
  pub cleans : Bool
  pub renames : Renamed
  pub modified : Option ℕ
  pub removes_stale : Bool

pub data ToolError : Type 0 where
  unavailable_offline invalid_offline download_failed digest_mismatch unsafe_entry : ToolError
  incomplete_archive concurrent_install io_error : ToolError

abbrev pub stamp_is : Stamp → Option Stamp → Bool
stamp_is s none = false
stamp_is s (some t) = s.len == t.len && (s.modified == t.modified && str_is s.digest t.digest)

abbrev pub stamp_of : ToolSpec → List ℕ → Option ℕ → Option Stamp
stamp_of spec bytes none = none
stamp_of spec bytes (some at) =
    some (record { len = length bytes; modified = at; digest = spec.digest })

abbrev pub is_stamped : Option Stamp → Option Stamp → Bool
is_stamped none marker = false
is_stamped (some s) marker = stamp_is s marker

abbrev pub has_path : String → TarEntry → Bool
has_path path e =
    str_is e.path path
    && (elim e.kind [ regular ↦ true | directory ↦ false | link ↦ false | special ↦ false ])

unfoldable pub has_file : String → List TarEntry → Bool
has_file path [] = false
has_file path (e ∷ es) = has_path path e || has_file path es

abbrev pub is_complete : String → List TarEntry → Bool
is_complete executable files = has_file executable files && has_file "package/lib/lib.d.ts" files

abbrev pub marker_is : String → Option String → Bool
marker_is digest none = false
marker_is digest (some m) = str_is m digest

abbrev pub is_normal : Component → Bool
is_normal (normal _) = true
is_normal _ = false

unfoldable pub all_normal : List Component → Bool
all_normal [] = true
all_normal (c ∷ cs) = is_normal c && all_normal cs

abbrev pub is_plain : EntryKind → Bool
is_plain regular = true
is_plain directory = true
is_plain _ = false

abbrev pub is_safe : TarEntry → Bool
is_safe e = not e.is_absolute && (all_normal e.components && is_plain e.kind)

-- The loop of `unpack_archive`: the entries unpacked.
unfoldable pub unpack_entries : Disk → List (Option TarEntry) → Result ToolError (List TarEntry)
unpack_entries disk [] = ok []
unpack_entries disk (none ∷ es) = err io_error
unpack_entries disk (some e ∷ es) =
    let more : Result ToolError (List TarEntry) = elim (unpack_entries disk es) [
      | ok files ↦ ok (e ∷ files)
      | err x ↦ err x
    ] in
    if not (is_safe e) then err unsafe_entry else if disk.unpacks then more else err io_error

-- The first `n` bytes.
unfoldable pub take : ℕ → List ℕ → List ℕ
take zero xs = []
take (suc n) [] = []
take (suc n) (x ∷ xs) = x ∷ take n xs

abbrev pub exceeds : ℕ → Option ℕ → Bool
exceeds limit none = false
exceeds limit (some n) = ltb limit n

abbrev pub capped : ℕ → List ℕ → Option (List ℕ)
capped limit bytes = if ltb limit (length bytes) then none else some bytes

abbrev pub read_body : ℕ → Option (List ℕ) → Option (List ℕ)
read_body limit none = none
read_body limit (some body) = capped limit (take (suc limit) body)

-- `read_capped`, of a body, or none if reading it fails
unfoldable pub read_capped : ToolSpec → Option ℕ → Option (List ℕ) → Option (List ℕ)
read_capped spec content_length body =
    if exceeds spec.max_bytes content_length then none else read_body spec.max_bytes body

abbrev pub is_absent : Entry → Bool
is_absent absent = true
is_absent _ = false

module _ (u : Unpacker) (spec : ToolSpec) (disk : Disk) where
  -- An answer, and the cache after it.
  abbrev pub Step : Type 0 → Type 0
  Step A = Result ToolError A × Cache

  -- The end of `valid_file_cache`: the file's hash has been compared.
  abbrev pub hashed : Bool → Option Stamp → Cache → Step Bool
  hashed false stamp c = (ok false, c)
  hashed true none c = (ok true, c)
  hashed true (some s) c =
      if disk.writes_marker then (ok true, record c { verified = some s }) else (err io_error, c)

  -- `valid_file_cache`
  abbrev pub valid_file_cache : List ℕ → Option ℕ → Cache → Step Bool
  valid_file_cache bytes at c =
      if not disk.inspects
      then (err io_error, c)
      else if is_stamped (stamp_of spec bytes at) c.verified
      then (ok true, c)
      else if not disk.opens
      then (err io_error, c)
      else hashed (str_is (u.sha256 bytes) spec.digest) (stamp_of spec bytes at) c

  abbrev pub valid_entry : Option String → Entry → Cache → Step Bool
  valid_entry x absent c = (ok false, c)
  valid_entry (some executable) (file bytes at) c = (ok false, c)
  valid_entry (some executable) (tree t) c =
      (ok (marker_is spec.digest t.marker && is_complete executable t.files), c)
  valid_entry none (file bytes at) c = valid_file_cache bytes at c
  valid_entry none (tree t) c = (ok false, c)

  -- `valid_cache`
  unfoldable pub valid_cache : Cache → Step Bool
  valid_cache c = valid_entry spec.archive_executable c.entry c

  abbrev pub complete_or_error : String → Result ToolError (List TarEntry) → Result ToolError Tree
  complete_or_error executable (err x) = err x
  complete_or_error executable (ok files) =
      if is_complete executable files
      then ok (record { files = files; marker = some spec.digest })
      else err incomplete_archive

  -- `unpack_archive`
  unfoldable pub unpack_archive : String → List ℕ → Result ToolError Tree
  unpack_archive executable bytes =
      complete_or_error executable (unpack_entries disk (u.entries bytes))

  abbrev pub revalidated : Step Bool → Step (Unit {0})
  revalidated (err x, c) = (err x, c)
  revalidated (ok true, c) = (ok tt, c)
  revalidated (ok false, c) = (err concurrent_install, c)

  abbrev pub rename_tree : Tree → Cache → Renamed → Step (Unit {0})
  rename_tree t c renamed = (ok tt, record c { entry = tree t })
  rename_tree t c rename_failed = (err io_error, c)
  rename_tree t c (exists other) =
      let c' = record c { entry = other } in
      if disk.cleans then revalidated (valid_cache c') else (err io_error, c')

  abbrev pub install_tree : Result ToolError Tree → Cache → Step (Unit {0})
  install_tree (err x) c = (err x, c)
  install_tree (ok t) c = rename_tree t c disk.renames

  -- `install_single_file`, whose rename replaces a file.
  abbrev pub rename_file : List ℕ → Cache → Renamed → Step (Unit {0})
  rename_file bytes c renamed = (ok tt, record c { entry = file bytes disk.modified })
  rename_file bytes c rename_failed = (err io_error, c)
  rename_file bytes c (exists other) = (err io_error, record c { entry = other })

  abbrev pub install_staged : Option String → List ℕ → Cache → Step (Unit {0})
  install_staged (some executable) bytes c = install_tree (unpack_archive executable bytes) c
  install_staged none bytes c = rename_file bytes c disk.renames

  abbrev pub install_bytes : Option (List ℕ) → Cache → Step (Unit {0})
  install_bytes none c = (err download_failed, c)
  install_bytes (some bytes) c =
      if not (str_is (u.sha256 bytes) spec.digest)
      then (err digest_mismatch, c)
      else if not disk.stages
      then (err io_error, c)
      else install_staged spec.archive_executable bytes c

  -- `install`
  unfoldable pub install : Cache → Step (Unit {0})
  install c = install_bytes disk.download c

  abbrev pub drop_stale : Step (Unit {0}) → Step (Unit {0})
  drop_stale (err x, c) = (err x, c)
  drop_stale (ok _, c) =
      if disk.removes_stale then (ok tt, record c { stale = [] }) else (err io_error, c)

  abbrev pub replace_entry : Cache → Step (Unit {0})
  replace_entry c =
      if is_absent c.entry
      then install c
      else if disk.moves_stale
      then drop_stale (install (record c { entry = absent; stale = c.entry ∷ c.stale }))
      else (err io_error, c)

  abbrev pub after_check : Bool → Step Bool → Step (Unit {0})
  after_check offline (err x, c) = (err x, c)
  after_check offline (ok true, c) = (ok tt, c)
  after_check true (ok false, c) =
      (err (if is_absent c.entry then unavailable_offline else invalid_offline), c)
  after_check false (ok false, c) = replace_entry c

  -- `resolve_locked`: `ok` stands for the path of the entry's executable.
  unfoldable pub resolve_locked : Bool → Cache → Step (Unit {0})
  resolve_locked offline c = after_check offline (valid_cache c)

-- ===== src/ToolCache/Verified.antt =====
-- A resolved tool is what its digest names (crates/cja-build/src/tool_cache.rs).
use cja.Common.{
  ℕ, ◌≡◌, refl, subst, String, Option, none, some, Bool, true, false, not, List, ◌∷◌, map,
  if◌then◌else◌,
}
use cja.Common.Sql.{Result, ok, err, str_is}
use cja.ToolCache.{
  ToolSpec, TarEntry, Unpacker, Tree, Entry, absent, Stamp, Cache, Renamed, renamed, rename_failed,
  exists, Disk, ToolError, is_complete, valid_cache, complete_or_error, unpack_archive, revalidated,
  rename_tree, install_tree, rename_file, install_staged, install_bytes, install, is_absent,
  drop_stale, replace_entry, after_check, resolve_locked,
}
use cja.ToolCache.Checked.{
  AllSafe, IsRead, unpack_entries-IsRead, IsDigest, IsUnpacked, IsGenuine, Genuine, IsCheck,
  IsResolved, valid_entry-IsCheck,
}

module _ (u : Unpacker) (spec : ToolSpec) where
  module _ (disk : Disk) where
    abbrev pub x : Option String
    x = spec.archive_executable

    valid_cache-IsCheck :
        (c : Cache) → Genuine u spec c → IsCheck u spec x (valid_cache u spec disk c)
    unfolding valid_cache
    valid_cache-IsCheck c g = valid_entry-IsCheck u spec disk c.verified c.stale x c.entry g

    revalidated-IsResolved :
        (w : Result ToolError Bool × Cache)
        → IsCheck u spec x w
        → IsResolved u spec x (revalidated u spec disk w)
    revalidated-IsResolved (err e, c) h = h
    revalidated-IsResolved (ok true, c) h = h
    revalidated-IsResolved (ok false, c) h = h

    -- What an archive with the digest unpacks to.
    abbrev IsTree : String → Result ToolError Tree → Type 0
    IsTree executable (err e) = Unit
    IsTree executable (ok t) = IsUnpacked u spec t × (is_complete executable t.files ≡ true)

    unpack_archive-IsTree :
        (executable : String) (archive : List ℕ)
        → IsDigest u spec archive
        → IsTree executable (unpack_archive u spec disk executable archive)
    unfolding unpack_archive
    unpack_archive-IsTree executable archive d =
        complete _ (unpack_entries-IsRead disk (u.entries archive))
      where
        taken :
            (files : List TarEntry) (b : Bool)
            → is_complete executable files ≡ b
            → (u.entries archive ≡ map some files) × AllSafe files
            → IsTree executable (
                if b
                then ok (record { files = files; marker = some spec.digest })
                else err ToolError.incomplete_archive)
        taken files true k h = ((archive, d, h.0, h.1), k)
        taken files false k h = tt

        complete :
            (r : Result ToolError (List TarEntry))
            → IsRead (u.entries archive) r
            → IsTree executable (complete_or_error u spec disk executable r)
        complete (err y) h = tt
        complete (ok files) h = taken files _ refl h

    rechecked :
        (y : Option String) (cleans : Bool) (c : Cache)
        → x ≡ y
        → Genuine u spec c
        → IsResolved u spec y (
            if cleans
            then revalidated u spec disk (valid_cache u spec disk c)
            else (err ToolError.io_error, c))
    rechecked y true c e g =
        subst (λ z. IsResolved u spec z (revalidated u spec disk (valid_cache u spec disk c))) e
          (revalidated-IsResolved (valid_cache u spec disk c) (valid_cache-IsCheck c g))
    rechecked y false c e g = g

    rename_tree-IsResolved :
        (executable : String) (t : Tree) (c : Cache) (r : Renamed)
        → x ≡ some executable
        → IsUnpacked u spec t × (is_complete executable t.files ≡ true)
        → Genuine u spec c
        → ((other : Entry) → r ≡ exists other → IsGenuine u spec other c.verified)
        → IsResolved u spec (some executable) (rename_tree u spec disk t c r)
    rename_tree-IsResolved executable t c renamed e h g o = ((λ m. h.0), h)
    rename_tree-IsResolved executable t c rename_failed e h g o = g
    rename_tree-IsResolved executable t c (exists other) e h g o =
        rechecked (some executable) disk.cleans (record c { entry = other }) e (o other refl)

    install_tree-IsResolved :
        (executable : String) (t : Result ToolError Tree) (c : Cache)
        → x ≡ some executable
        → IsTree executable t
        → Genuine u spec c
        → ((other : Entry) → disk.renames ≡ exists other → IsGenuine u spec other c.verified)
        → IsResolved u spec (some executable) (install_tree u spec disk t c)
    install_tree-IsResolved executable (err y) c e h g o = g
    install_tree-IsResolved executable (ok t) c e h g o =
        rename_tree-IsResolved executable t c disk.renames e h g o

    rename_file-IsResolved :
        (bytes : List ℕ) (c : Cache) (r : Renamed)
        → IsDigest u spec bytes
        → Genuine u spec c
        → ((other : Entry) → r ≡ exists other → IsGenuine u spec other c.verified)
        → IsResolved u spec none (rename_file u spec disk bytes c r)
    rename_file-IsResolved bytes c renamed d g o = ((λ m. d), d)
    rename_file-IsResolved bytes c rename_failed d g o = g
    rename_file-IsResolved bytes c (exists other) d g o = o other refl

    install_staged-IsResolved :
        (y : Option String) (bytes : List ℕ) (c : Cache)
        → x ≡ y
        → IsDigest u spec bytes
        → Genuine u spec c
        → ((other : Entry) → disk.renames ≡ exists other → IsGenuine u spec other c.verified)
        → IsResolved u spec y (install_staged u spec disk y bytes c)
    install_staged-IsResolved none bytes c e d g o =
        rename_file-IsResolved bytes c disk.renames d g o
    install_staged-IsResolved (some executable) bytes c e d g o =
        install_tree-IsResolved executable _ c e (unpack_archive-IsTree executable bytes d) g o

    install_bytes-IsResolved :
        (download : Option (List ℕ)) (c : Cache)
        → Genuine u spec c
        → ((other : Entry) → disk.renames ≡ exists other → IsGenuine u spec other c.verified)
        → IsResolved u spec x (install_bytes u spec disk download c)
    install_bytes-IsResolved none c g o = g
    install_bytes-IsResolved (some bytes) c g o = checked _ disk.stages refl
      where
        checked :
            (b stages : Bool)
            → str_is (u.sha256 bytes) spec.digest ≡ b
            → IsResolved u spec x (
                if not b
                then (err ToolError.digest_mismatch, c)
                else if not stages
                then (err ToolError.io_error, c)
                else install_staged u spec disk x bytes c)
        checked false stages e = g
        checked true false e = g
        checked true true e = install_staged-IsResolved x bytes c refl e g o

    drop_stale-IsResolved :
        (w : Result ToolError (Unit {0}) × Cache) (removes : Bool)
        → IsResolved u spec x w
        → disk.removes_stale ≡ removes
        → IsResolved u spec x (drop_stale u spec disk w)
    drop_stale-IsResolved (err y, c) removes h e = h
    drop_stale-IsResolved (ok a, c) true h e = rw e h
    drop_stale-IsResolved (ok a, c) false h e = rw e h.0

    replace_entry-IsResolved :
        (c : Cache)
        → Genuine u spec c
        → ((other : Entry) → disk.renames ≡ exists other → IsGenuine u spec other c.verified)
        → IsResolved u spec x (replace_entry u spec disk c)
    unfolding install
    replace_entry-IsResolved c g o = moved (is_absent c.entry) disk.moves_stale
      where
        moved :
            (b moves : Bool)
            → IsResolved u spec x (
                if b
                then install u spec disk c
                else if moves
                then drop_stale u spec disk
                    (install u spec disk (record c { entry = absent; stale = c.entry ∷ c.stale }))
                else (err ToolError.io_error, c))
        moved true moves = install_bytes-IsResolved disk.download c g o
        moved false true =
            drop_stale-IsResolved
              (install u spec disk (record c { entry = absent; stale = c.entry ∷ c.stale }))
              disk.removes_stale (install_bytes-IsResolved disk.download _ tt o) refl
        moved false false = g

    after_check-IsResolved :
        (offline : Bool) (w : Result ToolError Bool × Cache)
        → IsCheck u spec x w
        → ((other : Entry) → disk.renames ≡ exists other → IsGenuine u spec other w.1.verified)
        → IsResolved u spec x (after_check u spec disk offline w)
    after_check-IsResolved offline (err y, c) h o = h
    after_check-IsResolved offline (ok true, c) h o = h
    after_check-IsResolved true (ok false, c) h o = h
    after_check-IsResolved false (ok false, c) h o = replace_entry-IsResolved c h o

-- For any SHA-256, archive reader, answers of the file system and download: if the markers of the
-- cache are true before, and what another process may have renamed to the entry is the tool, then
-- the markers are true after, error or not. If the tool is resolved, the entry holds it: a file with
-- the specification's digest, or the files of an archive with that digest, complete, and none with an
-- absolute path, a component other than a normal one, or a kind other than file or directory.
pub resolve_locked-IsResolved :
    (u : Unpacker) (spec : ToolSpec) (disk : Disk) (offline : Bool) (c : Cache)
    → Genuine u spec c
    → ((other : Entry)
        → disk.renames ≡ exists other
        → (v : Option Stamp) → IsGenuine u spec other v)
    → IsResolved u spec spec.archive_executable (resolve_locked u spec disk offline c)
unfolding resolve_locked
resolve_locked-IsResolved u spec disk offline c g o =
    let w = valid_cache u spec disk c in
    after_check-IsResolved u spec disk offline w (valid_cache-IsCheck u spec disk c g)
      (λ other e. o other e w.1.verified)

-- ===== src/ToolCache/Checked.antt =====
-- What the markers of a cache entry say, and what a check of it finds
-- (crates/cja-build/src/tool_cache.rs).
use cja.Common.{
  ℕ, ◌≡◌, refl, ap, String, Option, none, some, Bool, true, false, not, ◌&&◌, List, [], ◌∷◌, map,
  if◌then◌else◌, Bool-cases, inl, inr,
}
use cja.Common.Sql.{Result, ok, err, str_is}
use cja.ToolCache.{
  ToolSpec, TarEntry, Unpacker, Tree, Entry, absent, file, tree, Stamp, Cache, Disk, ToolError,
  stamp_of, is_stamped, is_complete, marker_is, is_safe, unpack_entries, hashed, valid_file_cache,
  valid_entry,
}

abbrev pub AllSafe : List TarEntry → Type 0
AllSafe [] = Unit
AllSafe (e ∷ es) = (is_safe e ≡ true) × AllSafe es

-- What an unpacked archive held.
abbrev pub IsRead : List (Option TarEntry) → Result ToolError (List TarEntry) → Type 0
IsRead es (ok files) = (es ≡ map some files) × AllSafe files
IsRead es (err x) = Unit

pub unpack_entries-IsRead :
    (disk : Disk) (es : List (Option TarEntry)) → IsRead es (unpack_entries disk es)
unfolding unpack_entries
unpack_entries-IsRead disk [] = (refl, tt)
unpack_entries-IsRead disk (none ∷ es) = tt
unpack_entries-IsRead disk (some e ∷ es) =
    entry (is_safe e) disk.unpacks refl (unpack_entries disk es) (unpack_entries-IsRead disk es)
  where
    entry :
        (safe unpacked : Bool)
        → is_safe e ≡ safe
        → (more : Result ToolError (List TarEntry)) → IsRead es more
        → IsRead (some e ∷ es) (
            if not safe
            then err ToolError.unsafe_entry
            else if unpacked
            then (elim more [ ok files ↦ ok (e ∷ files) | err x ↦ err x ])
            else err ToolError.io_error)
    entry false unpacked s more h = tt
    entry true false s more h = tt
    entry true true s (err x) h = tt
    entry true true s (ok files) h = (ap (λ r. some e ∷ r) h.0, (s, h.1))

module _ (u : Unpacker) (spec : ToolSpec) where
  abbrev pub IsDigest : List ℕ → Type 0
  IsDigest bytes = str_is (u.sha256 bytes) spec.digest ≡ true

  -- The files are exactly those of an archive with the digest, and each has a safe path and kind.
  abbrev pub IsUnpacked : Tree → Type 0
  IsUnpacked t =
      (archive : List ℕ) × IsDigest archive
      × (u.entries archive ≡ map some t.files)
      × AllSafe t.files

  -- The markers are true: a stamped file and a marked tree are what the digest names.
  abbrev pub IsGenuine : Entry → Option Stamp → Type 0
  IsGenuine absent verified = Unit
  IsGenuine (file bytes at) verified =
      is_stamped (stamp_of spec bytes at) verified ≡ true → IsDigest bytes
  IsGenuine (tree t) verified = marker_is spec.digest t.marker ≡ true → IsUnpacked t

  -- The tool is there.
  abbrev pub IsInstalled : Option String → Entry → Type 0
  IsInstalled x absent = ⊥
  IsInstalled none (file bytes at) = IsDigest bytes
  IsInstalled none (tree t) = ⊥
  IsInstalled (some executable) (file bytes at) = ⊥
  IsInstalled (some executable) (tree t) = IsUnpacked t × (is_complete executable t.files ≡ true)

  abbrev pub Genuine : Cache → Type 0
  Genuine c = IsGenuine c.entry c.verified

  module _ (x : Option String) where
    -- A check of the entry.
    abbrev pub IsCheck : Result ToolError Bool × Cache → Type 0
    IsCheck (ok true, c) = Genuine c × IsInstalled x c.entry
    IsCheck (ok false, c) = Genuine c
    IsCheck (err e, c) = Genuine c

    -- An installation, or a whole resolution.
    abbrev pub IsResolved : Result ToolError (Unit {0}) × Cache → Type 0
    IsResolved (ok _, c) = Genuine c × IsInstalled x c.entry
    IsResolved (err e, c) = Genuine c

  module _ (disk : Disk) (v : Option Stamp) (st : List Entry) where
    abbrev at_entry : Entry → Cache
    at_entry e = record { entry = e; verified = v; stale = st }

    hashed-IsCheck :
        (bytes : List ℕ) (at : Option ℕ) (b : Bool) (s : Option Stamp)
        → str_is (u.sha256 bytes) spec.digest ≡ b
        → IsGenuine (file bytes at) v
        → IsCheck none (hashed u spec disk b s (at_entry (file bytes at)))
    hashed-IsCheck bytes at false s h g = g
    hashed-IsCheck bytes at true none h g = ((λ k. h), h)
    hashed-IsCheck bytes at true (some s) h g = elim (Bool-cases disk.writes_marker) [
      | inl w ↦ rw w ((λ k. h), h)
      | inr w ↦ rw w g
    ]

    file-IsCheck :
        (bytes : List ℕ) (at : Option ℕ)
        → IsGenuine (file bytes at) v
        → IsCheck none (valid_file_cache u spec disk bytes at (at_entry (file bytes at)))
    file-IsCheck bytes at g = inspected disk.inspects disk.opens _ refl
      where
        inspected :
            (inspects opens stamped : Bool)
            → is_stamped (stamp_of spec bytes at) v ≡ stamped
            → IsCheck none (
                if not inspects
                then (err ToolError.io_error, at_entry (file bytes at))
                else if stamped
                then (ok true, at_entry (file bytes at))
                else if not opens
                then (err ToolError.io_error, at_entry (file bytes at))
                else hashed u spec disk
                    (str_is (u.sha256 bytes) spec.digest)
                    (stamp_of spec bytes at)
                    (at_entry (file bytes at)))
        inspected false opens stamped e = g
        inspected true opens true e = (g, g e)
        inspected true false false e = g
        inspected true true false e = hashed-IsCheck bytes at _ _ refl g

    tree-IsCheck :
        (executable : String) (t : Tree) (m k : Bool)
        → marker_is spec.digest t.marker ≡ m
        → is_complete executable t.files ≡ k
        → IsGenuine (tree t) v
        → IsCheck (some executable) (ok (m && k), at_entry (tree t))
    tree-IsCheck executable t true true a b g = (g, (g a, b))
    tree-IsCheck executable t true false a b g = g
    tree-IsCheck executable t false true a b g = g
    tree-IsCheck executable t false false a b g = g

    pub valid_entry-IsCheck :
        (x : Option String) (e : Entry)
        → IsGenuine e v
        → IsCheck x (valid_entry u spec disk x e (at_entry e))
    valid_entry-IsCheck none absent g = g
    valid_entry-IsCheck (some executable) absent g = g
    valid_entry-IsCheck none (file bytes at) g = file-IsCheck bytes at g
    valid_entry-IsCheck (some executable) (file bytes at) g = g
    valid_entry-IsCheck none (tree t) g = g
    valid_entry-IsCheck (some executable) (tree t) g = tree-IsCheck executable t _ _ refl refl g

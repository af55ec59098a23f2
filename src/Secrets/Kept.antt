-- ===== src/Secrets/Kept.antt =====
-- What a refresh keeps (`refresh`, `refresh_one` and `run` of crates/cja-secret/src/lib.rs).
use cja.Common.{
  ℕ, suc, ◌≡◌, refl, sym, subst, ◌++◌, String, Option, none, some, List, [], ◌∷◌, All, All-append,
}
use cja.Common.Sql.{Result, ok, err}
use cja.Secrets.{
  SetecError, SecretValue, SecretStore, Error, Entry, Reply, writes, between_writes, Event, tick,
  cancelled, apply, apply_parsed, checked, refresh_one, refresh_all, refreshed, refresh, run,
  tracked_with, track,
}

module _ (T : Type 0) (published : String → ℕ → Option (List ℕ)) where
  -- The value that a handle shows is the parsed value of the version that it reports.
  pub record IsCurrent (e : Entry T) : Type 0 where
    pub bytes : List ℕ
    pub is_published : published e.name e.version ≡ some bytes
    pub is_parsed : e.from_secret bytes ≡ some e.current

  abbrev pub AreCurrent : List (Entry T) → Type 0
  AreCurrent [] = Unit
  AreCurrent (e ∷ es) = IsCurrent e × AreCurrent es

  -- setec answers a version with the value that was published under it.
  abbrev pub IsHonest : String → Result SetecError (Option SecretValue) → Type 0
  IsHonest name (err x) = Unit
  IsHonest name (ok none) = Unit
  IsHonest name (ok (some v)) = published name v.version ≡ some v.value

  abbrev pub AreHonest : List (Event T) → Type 0
  AreHonest [] = Unit
  AreHonest (cancelled ∷ evs) = AreHonest evs
  AreHonest (tick ask ∷ evs) =
      ((i : ℕ) (name : String) (known : ℕ) → IsHonest name (ask i name known).answer)
      × AreHonest evs

  applied-IsCurrent :
      (at : ℕ) (v : SecretValue) (e : Entry T) (t : Option T)
      → e.from_secret v.value ≡ t
      → published e.name v.version ≡ some v.value
      → IsCurrent e
      → IsCurrent (checked T at e (apply_parsed T e v t)).1
  applied-IsCurrent at v e none p h c = c
  applied-IsCurrent at v e (some t) p h c = record {
    bytes = v.value;
    is_published = h;
    is_parsed = p;
  }

  refresh_one-IsCurrent :
      (at : ℕ) (a : Result SetecError (Option SecretValue)) (e : Entry T)
      → IsHonest e.name a
      → IsCurrent e
      → IsCurrent (refresh_one T at a e).1
  unfolding refresh_one apply
  refresh_one-IsCurrent at (err x) e h c = c
  refresh_one-IsCurrent at (ok none) e h c = record {
    bytes = c.bytes;
    is_published = c.is_published;
    is_parsed = c.is_parsed;
  }
  refresh_one-IsCurrent at (ok (some v)) e h c = applied-IsCurrent at v e _ refl h c

  refresh_all-AreCurrent :
      (ask : ℕ → String → ℕ → Reply T) (i : ℕ) (es : List (Entry T))
      → ((i : ℕ) (name : String) (known : ℕ) → IsHonest name (ask i name known).answer)
      → AreCurrent es
      → AreCurrent (refresh_all T ask i es).1
  unfolding refresh_all
  refresh_all-AreCurrent ask i [] h c = c
  refresh_all-AreCurrent ask i (e ∷ es) h c =
      let reply = ask i e.name e.version in
      (
        refresh_one-IsCurrent reply.at reply.answer e (h i e.name e.version) c.0,
        refresh_all-AreCurrent ask (suc i) es h c.1,
      )

  -- What a reader may see of an entry between the two writes of an `apply`.
  abbrev halfway : SecretValue → Entry T → Option T → List (Entry T)
  halfway v e none = []
  halfway v e (some t) = between_writes T (writes T v t) e

  abbrev pub halfway_refresh : Result SetecError (Option SecretValue) → Entry T → List (Entry T)
  halfway_refresh (ok (some v)) e = halfway v e (e.from_secret v.value)
  halfway_refresh (ok none) e = []
  halfway_refresh (err x) e = []

  abbrev pub halfway_all : (ℕ → String → ℕ → Reply T) → ℕ → List (Entry T) → List (Entry T)
  halfway_all ask i [] = []
  halfway_all ask i (e ∷ es) =
      halfway_refresh (ask i e.name e.version).answer e ++ halfway_all ask (suc i) es

  -- Every entry between two writes in a run of the refresher.
  abbrev pub halfway_run : List (Event T) → List (Entry T) → List (Entry T)
  halfway_run [] es = []
  halfway_run (cancelled ∷ evs) es = []
  halfway_run (tick ask ∷ evs) es = halfway_all ask 0 es ++ halfway_run evs (refresh T ask es).1

  -- The value that a handle shows and the version that it reports were both published and could be
  -- parsed, if not together.
  pub record IsPublished (e : Entry T) : Type 0 where
    pub value_version : ℕ
    pub value_bytes : List ℕ
    pub is_value : published e.name value_version ≡ some value_bytes
    pub is_parsed : e.from_secret value_bytes ≡ some e.current
    pub version_bytes : List ℕ
    pub is_version : published e.name e.version ≡ some version_bytes
    pub was : T
    pub was_parsed : e.from_secret version_bytes ≡ some was

  halfway-IsPublished :
      (v : SecretValue) (e : Entry T) (t : Option T)
      → e.from_secret v.value ≡ t
      → published e.name v.version ≡ some v.value
      → IsCurrent e
      → All IsPublished (halfway v e t)
  halfway-IsPublished v e none p h c = tt
  halfway-IsPublished v e (some t) p h c = (
    record {
      value_version = v.version;
      value_bytes = v.value;
      is_value = h;
      is_parsed = p;
      version_bytes = c.bytes;
      is_version = c.is_published;
      was = e.current;
      was_parsed = c.is_parsed;
    },
    tt,
  )

  halfway_refresh-IsPublished :
      (a : Result SetecError (Option SecretValue)) (e : Entry T)
      → IsHonest e.name a
      → IsCurrent e
      → All IsPublished (halfway_refresh a e)
  halfway_refresh-IsPublished (err x) e h c = tt
  halfway_refresh-IsPublished (ok none) e h c = tt
  halfway_refresh-IsPublished (ok (some v)) e h c = halfway-IsPublished v e _ refl h c

  halfway_all-IsPublished :
      (ask : ℕ → String → ℕ → Reply T) (i : ℕ) (es : List (Entry T))
      → ((i : ℕ) (name : String) (known : ℕ) → IsHonest name (ask i name known).answer)
      → AreCurrent es
      → All IsPublished (halfway_all ask i es)
  halfway_all-IsPublished ask i [] h c = tt
  halfway_all-IsPublished ask i (e ∷ es) h c =
      All-append IsPublished (halfway_refresh (ask i e.name e.version).answer e)
        (halfway_all ask (suc i) es)
        (halfway_refresh-IsPublished (ask i e.name e.version).answer e (h i e.name e.version) c.0)
        (halfway_all-IsPublished ask (suc i) es h c.1)

  refreshed-same : (r : List Error × List (Entry T)) → (refreshed T r).1 ≡ r.1
  refreshed-same ([], es) = refl
  refreshed-same (f ∷ fs, es) = refl

  refresh-AreCurrent :
      (ask : ℕ → String → ℕ → Reply T) (es : List (Entry T))
      → ((i : ℕ) (name : String) (known : ℕ) → IsHonest name (ask i name known).answer)
      → AreCurrent es
      → AreCurrent (refresh T ask es).1
  unfolding refresh
  refresh-AreCurrent ask es h c =
      subst (λ x. AreCurrent x) (sym (refreshed-same (refresh_all T ask 0 es)))
        (refresh_all-AreCurrent ask 0 es h c)

  run-AreCurrent :
      (evs : List (Event T)) (es : List (Entry T))
      → AreHonest evs
      → AreCurrent es
      → AreCurrent (run T evs es).1 × All IsPublished (halfway_run evs es)
  unfolding run
  run-AreCurrent [] es h c = (c, tt)
  run-AreCurrent (cancelled ∷ evs) es h c = (c, tt)
  run-AreCurrent (tick ask ∷ evs) es h c =
      let r = run-AreCurrent evs (refresh T ask es).1 h.1 (refresh-AreCurrent ask es h.0 c) in
      (
        r.0,
        All-append IsPublished (halfway_all ask 0 es) (halfway_run evs (refresh T ask es).1)
            (halfway_all-IsPublished ask 0 es h.0 c) r.1,
      )

  appended-AreCurrent :
      (es : List (Entry T)) (e : Entry T)
      → AreCurrent es
      → IsCurrent e
      → AreCurrent (es ++ (e ∷ []))
  appended-AreCurrent [] e c k = (k, tt)
  appended-AreCurrent (x ∷ es) e c k = (c.0, appended-AreCurrent es e c.1 k)

  tracked-AreCurrent :
      (name : String) (from_secret : List ℕ → Option T) (now : ℕ) (v : SecretValue)
      (s : SecretStore T) (t : Option T)
      → from_secret v.value ≡ t
      → published name v.version ≡ some v.value
      → AreCurrent s.tracked
      → AreCurrent (tracked_with T name from_secret now v s t).1.tracked
  tracked-AreCurrent name from_secret now v s none p h c = c
  tracked-AreCurrent name from_secret now v s (some t) p h c =
      appended-AreCurrent s.tracked _ c
        (record { bytes = v.value; is_published = h; is_parsed = p })

-- If setec answers a version only with the value that was published under it, every handle shows,
-- from its boot on and after any ticks of the refresher, the parsed value of the version that it
-- reports: a value that cannot be parsed, a refused and a lost request leave the last good value
-- with its version. A refresh writes the value before the version; a reader between the two writes
-- sees a value and a version that were both published and could be parsed.
pub track-run-AreCurrent :
    (T : Type 0) (published : String → ℕ → Option (List ℕ)) (name : String)
    (from_secret : List ℕ → Option T) (now : ℕ) (v : SecretValue) (s : SecretStore T)
    (evs : List (Event T))
    → published name v.version ≡ some v.value
    → AreCurrent T published s.tracked
    → AreHonest T published evs
    → let es = (track T name from_secret now v s).1.tracked in
      AreCurrent T published (run T evs es).1
      × All (IsPublished T published) (halfway_run T published evs es)
unfolding track
track-run-AreCurrent T published name from_secret now v s evs h c k =
    run-AreCurrent T published evs _ k
      (tracked-AreCurrent T published name from_secret now v s _ refl h c)

-- ===== src/Secrets/Report.antt =====
-- What `refresh` of crates/cja-secret/src/lib.rs reports.
use cja.Common.{
  ℕ, suc, ◌<◌, ◌≡◌, refl, ◌⊎◌, inl, inr, String, Option, none, some, List, [], ◌∷◌, length, arith,
}
use cja.Common.Sql.{Result, ok, err}
use cja.Secrets.{
  SetecError, SecretValue, Error, Entry, Reply, apply, apply_parsed, checked, refresh_one, failure,
  refresh_all, refreshed, refresh,
}

module _ (T : Type 0) (ask : ℕ → String → ℕ → Reply T) where
  -- The entry was confirmed at its reply's instant: its version was still the active one, or the
  -- answered version has been parsed and has replaced it.
  abbrev pub IsConfirmed : ℕ → Entry T → Entry T → Result SetecError (Option SecretValue) → Type 0
  IsConfirmed at e e' (err x) = ⊥
  IsConfirmed at e e' (ok none) = e' ≡ record e { checked_at = at }
  IsConfirmed at e e' (ok (some v)) =
      (e'.checked_at ≡ at) × (e'.version ≡ v.version) × (e.from_secret v.value ≡ some e'.current)

  -- Each entry is confirmed, or left as it was; `n` are left.
  abbrev pub Left : ℕ → List (Entry T) → List (Entry T) → ℕ → Type 0
  Left i [] [] n = n ≡ 0
  Left i [] (e' ∷ es') n = ⊥
  Left i (e ∷ es) [] n = ⊥
  Left i (e ∷ es) (e' ∷ es') n =
      (let reply = ask i e.name e.version in
        IsConfirmed reply.at e e' reply.answer × Left (suc i) es es' n)
      ⊎ ((e' ≡ e) × ((m : ℕ) × (n ≡ suc m) × Left (suc i) es es' m))

  abbrev pub OneKept :
      ℕ
      → Entry T
      → Result SetecError (Option SecretValue)
      → Result Error (Unit {0}) × Entry T
      → Type 0
  OneKept at e a (ok _, e') = IsConfirmed at e e' a
  OneKept at e a (err _, e') = e' ≡ e

  parsed-OneKept :
      (at : ℕ) (v : SecretValue) (e : Entry T) (t : Option T)
      → e.from_secret v.value ≡ t
      → OneKept at e (ok (some v)) (checked T at e (apply_parsed T e v t))
  parsed-OneKept at v e none p = refl
  parsed-OneKept at v e (some t) p = (refl, refl, p)

  refresh_one-OneKept :
      (at : ℕ) (e : Entry T) (a : Result SetecError (Option SecretValue))
      → OneKept at e a (refresh_one T at a e)
  unfolding refresh_one apply
  refresh_one-OneKept at e (err x) = refl
  refresh_one-OneKept at e (ok none) = refl
  refresh_one-OneKept at e (ok (some v)) = parsed-OneKept at v e _ refl

  joined-Left :
      (i : ℕ) (e : Entry T) (es : List (Entry T)) (r : Result Error (Unit {0}) × Entry T)
      (w : List Error × List (Entry T))
      → (let reply = ask i e.name e.version in OneKept reply.at e reply.answer r)
      → Left (suc i) es w.1 (length w.0)
      → Left i (e ∷ es) (r.1 ∷ w.1) (length (failure T r.0 w.0))
  joined-Left i e es (ok a, e') (fs, es') k l = inl (k, l)
  joined-Left i e es (err x, e') (fs, es') k l = inr (k, (length fs, refl, l))

  refresh_all-Left :
      (i : ℕ) (es : List (Entry T))
      → Left i es (refresh_all T ask i es).1 (length (refresh_all T ask i es).0)
  unfolding refresh_all
  refresh_all-Left i [] = refl
  refresh_all-Left i (e ∷ es) =
      let reply = ask i e.name e.version in
      joined-Left i e es (refresh_one T reply.at reply.answer e) (refresh_all T ask (suc i) es)
        (refresh_one-OneKept reply.at e reply.answer) (refresh_all-Left (suc i) es)

  -- `Ok` if every entry is confirmed; else as many errors as entries are left.
  abbrev pub IsReport : List (Entry T) → Result (List Error) (Unit {0}) × List (Entry T) → Type 0
  IsReport es (ok _, es') = Left 0 es es' 0
  IsReport es (err fs, es') = (0 < length fs) × Left 0 es es' (length fs)

  reported :
      (es : List (Entry T)) (w : List Error × List (Entry T))
      → Left 0 es w.1 (length w.0)
      → IsReport es (refreshed T w)
  reported es ([], es') l = l
  reported es (f ∷ fs, es') l = (omega arith, l)

-- For any entries and answers: `refresh` is Ok only if every secret is confirmed, each as still
-- active or replaced by the parsed answer with its version. Else it reports one error, and at least
-- one, for each secret that it leaves as it was, and all the others are confirmed.
pub refresh-IsReport :
    (T : Type 0) (ask : ℕ → String → ℕ → Reply T) (es : List (Entry T))
    → IsReport T ask es (refresh T ask es)
unfolding refresh
refresh-IsReport T ask es = reported T ask es _ (refresh_all-Left T ask 0 es)

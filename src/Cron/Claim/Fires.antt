-- ===== src/Cron/Claim/Fires.antt =====
-- What a claim of crates/cja/src/cron/registry.rs finds and leaves.
use text.Mathlib.TextPositions.{eq_refl}
use mathlib.Core.Path.{subst₂}
use cja.Common.{
  ℕ, ◌≡◌, refl, ap, ◌∙◌, subst, String, Option, none, some, is_some, Bool, true, false, arith, List,
  [], ◌∷◌, find, modify, if◌then◌else◌,
}
use cja.Common.Sql.{str_is, str_is-same, World}
use cja.Cron.Schedule.{Schedule, should_run}
use cja.Cron.Tables.{CronDb, CronRow, named, run_of, last_run_at}
use cja.Cron.Claim.{
  Try, ◌>>=◌, ◌>>◌, got, give, skip, statement, setting, ClaimEnv, Claim, first_select,
  insert_first, add_row, fetch_one, reselect, find_row, if_due, timed, rowed, claim_due, stamp,
}
use cja.Cron.Claim.Holds.{got_injective, Holds, Holds-give, Holds-statement, Holds-bind}

last_run_at-add_row :
    (name : String) (at : ℕ) (d : CronDb) → last_run_at name (add_row name at d) ≡ some at
unfolding last_run_at find
last_run_at-add_row name at d = rw eq_refl

last_run_at-add_row_other :
    (name other : String) (at : ℕ) (d : CronDb)
    → str_is name other ≡ false
    → last_run_at other (add_row name at d) ≡ last_run_at other d
unfolding last_run_at find
last_run_at-add_row_other name other at d h = rw h refl

find-modify_other :
    (p q : CronRow → Bool) (at : ℕ) (xs : List CronRow)
    → ((r : CronRow) → q (record r { last_run_at = at }) ≡ q r)
    → ((r : CronRow) → p r ≡ true → q r ≡ false)
    → run_of (find q (modify p (λ r. record r { last_run_at = at }) xs)) ≡ run_of (find q xs)
unfolding find modify
find-modify_other p q at [] h k = refl
find-modify_other p q at (x ∷ xs) h k = ground (arith, h x, k x, find-modify_other p q at xs h k)

pub last_run_at-stamp_other :
    (name other : String) (at : ℕ) (d : CronDb)
    → str_is name other ≡ false
    → last_run_at other (stamp name at d) ≡ last_run_at other d
unfolding last_run_at stamp
last_run_at-stamp_other name other at d h =
    find-modify_other (named name) (named other) at d.crons (λ r. refl)
      (λ r k. str_is-same r.name name other k ∙ h)

find-modify_self :
    (p : CronRow → Bool) (at : ℕ) (xs : List CronRow)
    → ((r : CronRow) → p (record r { last_run_at = at }) ≡ p r)
    → is_some (run_of (find p xs)) ≡ true
    → run_of (find p (modify p (λ r. record r { last_run_at = at }) xs)) ≡ some at
unfolding find modify
find-modify_self p at [] h s = cc
find-modify_self p at (x ∷ xs) h s = ground (arith, h x, find-modify_self p at xs h)

pub last_run_at-stamp :
    (name : String) (at : ℕ) (d : CronDb)
    → is_some (last_run_at name d) ≡ true
    → last_run_at name (stamp name at d) ≡ some at
unfolding last_run_at stamp
last_run_at-stamp name at d s = find-modify_self (named name) at d.crons (λ r. refl) s

module _ (name : String) (schedule : Schedule) (started timezone : ℕ) (env : ClaimEnv)
    (d0 : CronDb) where
  -- The cron's row is there, the last run is the one before the claim, and the queue is untouched.
  pub record RowFound (last_run : Option ℕ) (d : CronDb) : Type 0 where
    pub last : last_run ≡ last_run_at name d0
    pub present : is_some (last_run_at name d) ≡ true
    pub queue : d.queue ≡ d0.queue
    pub others : (n : String) → str_is name n ≡ false → last_run_at n d ≡ last_run_at n d0

  -- Besides, the cron is due at the claim's time.
  pub record Due (c : Claim) (d : CronDb) : Type 0 where
    pub time : c.at ≡ env.claim_time
    pub due : should_run schedule (last_run_at name d0) env.claim_time started timezone ≡ true
    pub found : RowFound c.last_run d

  abbrev AtStart : CronDb → Type 0
  AtStart d = d ≡ d0

  present_of : (d : CronDb) (at : ℕ) → d ≡ d0 → some at ≡ last_run_at name d0 → RowFound (some at) d
  present_of d at e h = record {
    last = h;
    present = rw e (rw (← h) refl);
    queue = ap (λ (x : CronDb). x.queue) e;
    others = λ n _. ap (last_run_at n) e;
  }

  abbrev Inserted : Bool → CronDb → Type 0
  Inserted b d = elim b [ true ↦ RowFound none d | false ↦ d ≡ d0 ]

  -- The row that was read, if it was seen.
  abbrev Selected : Option ℕ → CronDb → Type 0
  Selected none d = d ≡ d0
  Selected (some at) d = (d ≡ d0) × (some at ≡ last_run_at name d0)

  selected :
      (b : Bool) (o : Option ℕ) (d : CronDb)
      → d ≡ d0
      → o ≡ last_run_at name d0
      → Selected (if b then none else o) d
  selected true o d e h = e
  selected false none d e h = e
  selected false (some at) d e h = (e, h)

  inserted :
      (o : Option ℕ) (d : CronDb)
      → d ≡ d0
      → o ≡ last_run_at name d0
      → let (b, d') =
          if◌then◌else◌ {A = Bool × CronDb}
            (is_some o)
            (false, d)
            (true, add_row name env.inserted_at d) in
        Inserted b d'
  inserted none d e h = record {
    last = h;
    present = ap is_some (last_run_at-add_row name env.inserted_at d);
    queue = ap (λ (x : CronDb). x.queue) e;
    others = λ n k. last_run_at-add_row_other name n env.inserted_at d k ∙ ap (last_run_at n) e;
  }
  inserted (some at) d e h = e

  fetched_one :
      (o : Option ℕ) → Holds (λ d. (d ≡ d0) × (o ≡ last_run_at name d0)) (fetch_one o) RowFound
  fetched_one none = record { at = λ w p a e. absurd (cc) }
  fetched_one (some at) = Holds-give (some at) (λ d h. present_of d at h.0 h.1)

  Holds-reselect : (b : Bool) → Holds (Inserted b) (reselect name b) RowFound
  unfolding reselect
  Holds-reselect true = Holds-give none (λ d h. h)
  Holds-reselect false =
      Holds-bind (statement (λ d. (last_run_at name d, d))) fetch_one
        (Holds-statement {Q = λ o d. (d ≡ d0) × (o ≡ last_run_at name d0)}
          (λ d. (last_run_at name d, d)) λ d e. (e, ap (last_run_at name) e))
        fetched_one

  Holds-find_row : (o : Option ℕ) → Holds (Selected o) (find_row name env o) RowFound
  unfolding find_row
  Holds-find_row (some at) = Holds-give (some at) (λ d h. present_of d at h.0 h.1)
  Holds-find_row none =
      Holds-bind (statement (insert_first name env.inserted_at)) (reselect name)
        (Holds-statement {Q = Inserted} (insert_first name env.inserted_at)
          λ d e. inserted (last_run_at name d) d e (ap (last_run_at name) e))
        Holds-reselect

  claim_of : ℕ → Option ℕ → Claim
  claim_of at last_run = record { at = at; last_run = last_run }

  claimed_case :
      (last_run : Option ℕ) (at : ℕ) (b : Bool) (w : World CronDb) (a : Claim)
      → at ≡ env.claim_time
      → RowFound last_run w.db
      → should_run schedule last_run at started timezone ≡ b
      → let m : Try Claim = if b then give (claim_of at last_run) else skip in
        (m w).0 ≡ got a → Due a (m w).1.db
  unfolding claim_of
  claimed_case last_run at true w a t f s e =
      subst (λ c. Due c w.db) (got_injective (claim_of at last_run) a e)
        (record {
          time = t;
          due =
              subst₂ (λ (l : Option ℕ) (x : ℕ). should_run schedule l x started timezone ≡ true)
                f.last t s;
          found = f;
        })
  claimed_case last_run at false w a t f s e = absurd (cc)

  Holds-if_due :
      (last_run : Option ℕ) (at : ℕ)
      → Holds
          (λ d. (at ≡ env.claim_time) × RowFound last_run d)
          (if_due schedule started timezone at last_run)
          Due
  unfolding if_due claim_of
  Holds-if_due last_run at = record {
    at = λ w f a e.
        claimed_case last_run at (should_run schedule last_run at started timezone) w a f.0 f.1 refl
          e;
  }

  Holds-timed :
      (last_run : Option ℕ)
      → Holds (RowFound last_run) (timed schedule started timezone env last_run) Due
  unfolding timed
  Holds-timed last_run =
      Holds-bind (statement (λ d. (env.claim_time, d)))
        (λ at. if_due schedule started timezone at last_run)
        (Holds-statement {Q = λ at d. (at ≡ env.claim_time) × RowFound last_run d}
          (λ d. (env.claim_time, d)) λ d f. (refl, f))
        (Holds-if_due last_run)

  Holds-rowed : Holds AtStart (rowed name schedule started timezone env) Due
  unfolding rowed
  Holds-rowed =
      Holds-bind (statement (λ d. (first_select name env.row_unseen d, d)))
        (λ existing. find_row name env existing >>= timed schedule started timezone env)
        (Holds-statement {Q = Selected} (λ d. (first_select name env.row_unseen d, d))
          λ d e. selected env.row_unseen (last_run_at name d) d e (ap (last_run_at name) e))
        λ existing.
          Holds-bind (find_row name env existing) (timed schedule started timezone env)
            (Holds-find_row existing) Holds-timed

  Holds-setting : Holds AtStart setting (λ _. AtStart)
  Holds-setting = Holds-statement (λ d. (tt, d)) (λ d e. e)

  after_setting : (m : Try Claim) → Holds AtStart m Due → Holds AtStart (setting >> m) Due
  after_setting m h = Holds-bind setting (λ _. m) Holds-setting (λ _. h)

  -- A claim is made only of a cron that is due at the database's time by the last run that the
  -- table held before.
  pub Holds-claim_due : Holds AtStart (claim_due name schedule started timezone env) Due
  unfolding claim_due
  Holds-claim_due =
      let r = rowed name schedule started timezone env in
      after_setting (setting >> (setting >> r))
        (after_setting (setting >> r) (after_setting r Holds-rowed))

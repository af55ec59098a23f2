-- ===== src/Cron/Claim/Holds.antt =====
-- What holds of the tables when a part of a tick of crates/cja/src/cron/registry.rs goes on.
use cja.Common.{◌≡◌, refl, Bool, true, false, subst, ◌≢◌, if◌then◌else◌, List}
use cja.Common.Sql.{
  Fault, deliver, refuse, lost, SqlError, World, query, next_fault, rest_faults, settle,
}
use cja.Cron.Tables.{CronDb}
use cja.Cron.Claim.{
  sqlx_error, recoverable, Part, got, skipped, failed, Try, follow, ◌>>=◌, sorted, statement, give,
  transaction, closed, settled,
}

-- From tables with `P`, if the part goes on with `a` then the tables have `Q a`.
pub record Holds {A : Type 0} (P : CronDb → Type 0) (m : Try A) (Q : A → CronDb → Type 0)
    : Type 0 where
  pub at : (w : World CronDb) → P w.db → (a : A) → (m w).0 ≡ got a → Q a (m w).1.db

pub got_injective : {A : Type 0} (a b : A) → got a ≡ got b → a ≡ b
got_injective a b h = cc

-- The errors never go on.
passed_over :
    {A : Type 0} (e : SqlError) (b : Bool) {a : A}
    → (if b then skipped else failed (sqlx_error e)) ≡ got a
    → ⊥
passed_over e true h = cc
passed_over e false h = cc

module _ {A : Type 0} (Q : A → CronDb → Type 0) where
  settle_got :
      (f : Fault) (before : CronDb) (s : A × CronDb) (b : A)
      → Q s.0 s.1
      → sorted (settle {E = SqlError} (λ e. e) f s before).0 ≡ got b
      → Q b (settle {E = SqlError} (λ e. e) f s before).1
  settle_got deliver before s b q h = subst (λ x. Q x s.1) (got_injective s.0 b h) q
  settle_got (refuse e) before s b q h = absurd (passed_over e (recoverable e) h)
  settle_got (lost e) before s b q h = absurd (passed_over e (recoverable e) h)

module _ {A : Type 0} {P : CronDb → Type 0} {Q : A → CronDb → Type 0} where
  pub Holds-give : (a : A) → ((d : CronDb) → P d → Q a d) → Holds P (give a) Q
  Holds-give a h = record { at = λ w p b e. subst (λ x. Q x w.db) (got_injective a b e) (h w.db p) }

  pub Holds-statement :
      (f : CronDb → A × CronDb) → ((d : CronDb) → P d → Q (f d).0 (f d).1) → Holds P (statement f) Q
  unfolding query
  Holds-statement f h = record {
    at = λ w p b e. settle_got Q (next_fault w.faults) w.db (f w.db) b (h w.db p) e;
  }

  pub Holds-weaken :
      {R : CronDb → Type 0} (m : Try A) → ((d : CronDb) → R d → P d) → Holds P m Q → Holds R m Q
  Holds-weaken m f h = record { at = λ w p b e. h.at w (f w.db p) b e }

follow_got :
    {A B : Type 0} (R : A → CronDb → Type 0) (Q : B → CronDb → Type 0) (r : Part A) (f : A → Try B)
    (w : World CronDb) (b : B)
    → ((a : A) → r ≡ got a → R a w.db)
    → ((a : A) → Holds (R a) (f a) Q)
    → (follow r f w).0 ≡ got b
    → Q b (follow r f w).1.db
follow_got R Q (got a) f w b h k e = (k a).at w (h a refl) b e
follow_got R Q skipped f w b h k e = absurd (cc)
follow_got R Q (failed x) f w b h k e = absurd (cc)

module _ {A B : Type 0} {P : CronDb → Type 0} {R : A → CronDb → Type 0}
    {Q : B → CronDb → Type 0} where
  pub Holds-bind :
      (m : Try A) (f : A → Try B)
      → Holds P m R
      → ((a : A) → Holds (R a) (f a) Q)
      → Holds P (m >>= f) Q
  Holds-bind m f h k = record { at = λ w p b e. follow_got R Q (m w).0 f (m w).1 b (h.at w p) k e }

-- What a transaction leaves: the tables as they were, or what the body came to, which it is if the
-- transaction goes on.
pub data Commits {A : Type 0} (Q : A → CronDb → Type 0) (before after : CronDb)
    : Part A → Type 0 where
  unchanged : {r : Part A} → after ≡ before → ((a : A) → r ≢ got a) → Commits Q before after r
  committed :
      (a : A) {r : Part A} → Q a after → ((b : A) → r ≡ got b → a ≡ b) → Commits Q before after r

module _ {A : Type 0} (Q : A → CronDb → Type 0) (before : CronDb) where
  -- A commit that fails, with the tables then.
  closed_unchanged :
      (e : SqlError) (a : A) (b : Bool) (w : World CronDb)
      → w.db ≡ before
      → let (r, w') = closed a (if b then skipped else failed (sqlx_error e), w) in
        Commits Q before w'.db r
  closed_unchanged e a true w h = Commits.unchanged h (λ c e. cc)
  closed_unchanged e a false w h = Commits.unchanged h (λ c e. cc)

  closed_committed :
      (e : SqlError) (a : A) (b : Bool) (w : World CronDb)
      → Q a w.db
      → let (r, w') = closed a (if b then skipped else failed (sqlx_error e), w) in
        Commits Q before w'.db r
  closed_committed e a true w h = Commits.committed a h (λ c e. absurd (cc))
  closed_committed e a false w h = Commits.committed a h (λ c e. absurd (cc))

  commit-Commits :
      (f : Fault) (a : A) (working : CronDb) (w : World CronDb)
      → Q a working
      → let (r, after) = settle {E = SqlError} {A = Unit {0}} (λ e. e) f (tt, working) before in
        let (r', w') = closed a (sorted r, record w { db = after }) in Commits Q before w'.db r'
  commit-Commits deliver a working w q = Commits.committed a q (λ b e. got_injective a b e)
  commit-Commits (refuse e) a working w q =
      closed_unchanged e a (recoverable e) (record w { db = before }) refl
  commit-Commits (lost e) a working w q =
      closed_committed e a (recoverable e) (record w { db = working }) q

  settled-Commits :
      (r : Part A) (w : World CronDb)
      → ((a : A) → r ≡ got a → Q a w.db)
      → let (r', w') = settled before r w in Commits Q before w'.db r'
  unfolding query
  settled-Commits (got a) w h =
      commit-Commits (next_fault w.faults) a w.db (record w { faults = rest_faults w.faults })
        (h a refl)
  settled-Commits skipped w h = Commits.unchanged refl (λ a e. cc)
  settled-Commits (failed e) w h = Commits.unchanged refl (λ a e. cc)

module _ {A : Type 0} (body : Try A) (Q : A → CronDb → Type 0) (d0 : CronDb)
    (h : Holds (λ d. d ≡ d0) body Q) where
  begun_failed :
      (e : SqlError) (b : Bool) (k : Unit {0} → Try A) (w : World CronDb)
      → w.db ≡ d0
      → let (r, w') = follow (if b then skipped else failed (sqlx_error e)) k w in
        Commits Q d0 w'.db r
  begun_failed e true k w p = Commits.unchanged p (λ a e. cc)
  begun_failed e false k w p = Commits.unchanged p (λ a e. cc)

  begin-Commits :
      (f : Fault) (faults : List Fault)
      → let (begun, s) = settle {E = SqlError} {A = Unit {0}} (λ e. e) f (tt, d0) d0 in
        let (r, w') =
          follow
            (sorted begun)
            (λ _ w2. let (r2, w3) = body w2 in settled w2.db r2 w3)
            (record { db = s; faults = faults }) in
        Commits Q d0 w'.db r
  begin-Commits deliver faults =
      let w : World CronDb = record { db = d0; faults = faults } in
      settled-Commits Q d0 (body w).0 (body w).1 (λ a e. h.at w refl a e)
  begin-Commits (refuse e) faults =
      begun_failed e (recoverable e) (λ _ w2. let (r2, w3) = body w2 in settled w2.db r2 w3)
        (record { db = d0; faults = faults }) refl
  begin-Commits (lost e) faults =
      begun_failed e (recoverable e) (λ _ w2. let (r2, w3) = body w2 in settled w2.db r2 w3)
        (record { db = d0; faults = faults }) refl

-- A transaction is all or nothing, whatever fails.
pub transaction-Commits :
    {A : Type 0} (body : Try A) (Q : A → CronDb → Type 0) (w : World CronDb)
    → Holds (λ d. d ≡ w.db) body Q
    → let (r, w') = transaction body w in Commits Q w.db w'.db r
unfolding transaction query
transaction-Commits body Q w h =
    begin-Commits body Q w.db h (next_fault w.faults) (rest_faults w.faults)

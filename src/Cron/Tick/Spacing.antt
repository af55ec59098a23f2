-- ===== src/Cron/Tick/Spacing.antt =====
-- Schedulers that tick one interval cron share its row of `crons`
-- (crates/cja/src/cron/registry.rs).
use cja.Common.{
  ℕ, ◌+◌, ◌≡◌, refl, ◌∙◌, ap, String, Option, some, List, [], ◌∷◌, ◌++◌, length, map, sym, subst,
  ◌<◌, length-append, true, arith,
}
use mathlib.Core.Path.{subst₂}
use cja.Common.Sql.{World, str_is_refl}
use cja.Cron.Schedule.{Schedule, interval, should_run}
use cja.Cron.Tables.{CronDb, last_run_at}
use cja.Cron.Claim.{Claim}
use cja.Cron.Tick.{CronJob, CronAction, callback, job, TickEnv, Event, tick}
use cja.Cron.Tick.Atomic.{Ticked, Fired, Enqueued, fire_events, tick-Ticked}
use cja.Cron.Tick.Times.{
  receipt_times, receipt_times-append, latest, AreApart, Within, Within-append, latest-append,
  AreApart-append,
}

-- A tick of some scheduler: its map's entry, when it started, and its environment.
pub record Attempt : Type 0 where
  pub context : String
  pub last_enqueue : Option ℕ
  pub worker_started_at : ℕ
  pub timezone : ℕ
  pub env : TickEnv

-- Ticks of one cron by any schedulers, one after the other, with their events.
unfoldable pub ticks : CronJob → List Attempt → World CronDb → List Event × World CronDb
ticks c [] w = ([], w)
ticks c (a ∷ rest) w =
    let (_, events, w') = tick c a.context a.last_enqueue a.worker_started_at a.timezone a.env w in
    let (more, w'') = ticks c rest w' in (events ++ more, w'')

-- The rows that so many fires put into the queue.
abbrev pub rows_of : CronAction → ℕ → ℕ
rows_of callback fires = 0
rows_of (job j) fires = fires

module _ (c : CronJob) (d : ℕ) where
  -- From a last run, the times of the fires by the attempts: claim times of attempts, each more than
  -- the interval `d` after the one before. The table's last run is the last of them.
  pub record Spaced (last : ℕ) (attempts : List Attempt) (before after : CronDb)
      (events : List Event) : Type 0 where
    pub fires : List ℕ
    pub claimed : Within fires (map (λ (a : Attempt). a.env.claim.claim_time) attempts)
    pub apart : AreApart d last fires
    pub last_run : last_run_at c.name after ≡ some (latest last fires)
    pub heard : Within (receipt_times c.name events) fires
    pub rows : length after.queue.jobs ≡ rows_of c.action (length fires) + length before.queue.jobs

  waited :
      (l now started timezone : ℕ)
      → should_run (interval d) (some l) now started timezone ≡ true
      → l + d < now
  unfolding should_run
  waited l now started timezone h = ground arith

  one_row :
      (context : String) (started timezone : ℕ) (env : TickEnv) (a : CronAction)
      (before after : CronDb)
      → Enqueued c context started timezone env a before.queue after.queue
      → length after.queue.jobs ≡ rows_of a 1 + length before.queue.jobs
  one_row context started timezone env callback before after e =
      grind (arith, ap (λ q. length q.jobs) e)
  one_row context started timezone env (job j) before after e =
      grind (arith, ap (λ q. length q.jobs) e.2)

  rows_of-zero : (a : CronAction) → rows_of a 0 ≡ 0
  rows_of-zero callback = refl
  rows_of-zero (job j) = refl

  rows_of-add : (a : CronAction) (m n : ℕ) → rows_of a (m + n) ≡ rows_of a m + rows_of a n
  rows_of-add callback m n = omega arith
  rows_of-add (job j) m n = refl

  receipt_times-fire_events :
      (a : CronAction) (last : Option ℕ) (at : ℕ)
      → receipt_times c.name (fire_events c.name a last at) ≡ at ∷ []
  receipt_times-fire_events callback last at = rw (str_is_refl c.name) refl
  receipt_times-fire_events (job j) last at = rw (str_is_refl c.name) refl

  quiet :
      (last : ℕ) (attempts : List Attempt) (before after : CronDb) (events : List Event)
      → Within [] (map (λ (a : Attempt). a.env.claim.claim_time) attempts)
      → after ≡ before
      → events ≡ []
      → last_run_at c.name before ≡ some last
      → Spaced last attempts before after events
  quiet last attempts before after events n e no_events l = record {
    fires = [];
    claimed = n;
    apart = tt;
    last_run = ap (last_run_at c.name) e ∙ l;
    heard = subst (λ x. Within (receipt_times c.name x) []) (sym no_events) Within.none_of;
    rows = grind (arith, rows_of-zero c.action, ap (λ (x : CronDb). length x.queue.jobs) e);
  }

  module _ (a : Attempt) (schedule : c.schedule ≡ interval d) where
    abbrev lone : List Attempt
    lone = a ∷ []

    one_fire :
        (last : ℕ) (before after : CronDb) (events : List Event) (claim : Claim)
        → last_run_at c.name before ≡ some last
        → Fired c a.context a.worker_started_at a.timezone a.env before claim after
        → Within (receipt_times c.name events) (a.env.claim.claim_time ∷ [])
        → Spaced last lone before after events
    one_fire last before after events claim l f h = record {
      fires = a.env.claim.claim_time ∷ [];
      claimed = Within.keeps Within.none_of;
      apart = (
        waited last a.env.claim.claim_time a.worker_started_at a.timezone (
            subst₂
              (λ (s : Schedule) (o : Option ℕ).
                should_run s o a.env.claim.claim_time a.worker_started_at a.timezone ≡ true)
              schedule l f.due),
        tt,
      );
      last_run = f.stamped;
      heard = h;
      rows = one_row a.context a.worker_started_at a.timezone a.env c.action before after f.queue;
    }

    of_Ticked :
        (last : ℕ) (before after : CronDb) (events : List Event)
        → last_run_at c.name before ≡ some last
        → Ticked c a.context a.worker_started_at a.timezone a.env before after events
        → Spaced last lone before after events
    of_Ticked last before after events l (Ticked.idle e none_) =
        quiet last lone before after events (Within.leaves Within.none_of) e none_ l
    of_Ticked last before after events l (Ticked.fired claim f e) =
        one_fire last before after events claim l f (
          subst (λ ts. Within ts (a.env.claim.claim_time ∷ []))
            (sym (
              ap (receipt_times c.name) e
              ∙ receipt_times-fire_events c.action (last_run_at c.name before)
                  a.env.claim.claim_time))
            (Within.keeps Within.none_of))
    of_Ticked last before after events l (Ticked.unheard claim f e) =
        one_fire last before after events claim l f (
          subst (λ x. Within (receipt_times c.name x) (a.env.claim.claim_time ∷ [])) (sym e)
            (Within.leaves Within.none_of))

  pub one_tick :
      (a : Attempt) (last : ℕ) (w : World CronDb)
      → c.schedule ≡ interval d
      → last_run_at c.name w.db ≡ some last
      → let (_, events, w') =
          tick c a.context a.last_enqueue a.worker_started_at a.timezone a.env w in
        Spaced last (a ∷ []) w.db w'.db events
  one_tick a last w s l =
      let t = tick c a.context a.last_enqueue a.worker_started_at a.timezone a.env w in
      of_Ticked a s last w.db t.2.db t.1 l
        (tick-Ticked c a.context a.worker_started_at a.timezone a.env a.last_enqueue w)

  join :
      (last : ℕ) (a : Attempt) (rest : List Attempt) (x y z : CronDb) (e f : List Event)
      (s : Spaced last (a ∷ []) x y e)
      → Spaced (latest last s.fires) rest y z f
      → Spaced last (a ∷ rest) x z (e ++ f)
  join last a rest x y z e f s t = record {
    fires = s.fires ++ t.fires;
    claimed = Within-append s.claimed t.claimed;
    apart = AreApart-append d last s.fires t.fires s.apart t.apart;
    last_run = t.last_run ∙ ap some (sym (latest-append last s.fires t.fires));
    heard =
        subst (λ ts. Within ts (s.fires ++ t.fires)) (sym (receipt_times-append c.name e f))
          (Within-append s.heard t.heard);
    rows = grind (
      arith,
      s.rows,
      t.rows,
      rows_of-add c.action (length s.fires) (length t.fires),
      ap (rows_of c.action) (length-append s.fires t.fires),
    );
  }

  -- However many schedulers tick an interval cron, in whatever order and whatever fails: from a
  -- last run on, its fires happen at claim times of these ticks, by the database's clock, and each
  -- is more than the interval after the one before. The last run of the table is the time of the
  -- last fire, each fire of a job cron puts one row into the queue, and there is at most one
  -- receipt for each fire, with its time.
  pub ticks-Spaced :
      (attempts : List Attempt) (last : ℕ) (w : World CronDb)
      → c.schedule ≡ interval d
      → last_run_at c.name w.db ≡ some last
      → let (events, w') = ticks c attempts w in Spaced last attempts w.db w'.db events
  unfolding ticks
  ticks-Spaced [] last w s l = quiet last [] w.db w.db [] Within.none_of refl refl l
  ticks-Spaced (a ∷ rest) last w s l =
      let t = tick c a.context a.last_enqueue a.worker_started_at a.timezone a.env w in
      let one = one_tick a last w s l in
      join last a rest w.db t.2.db (ticks c rest t.2).1.db t.1 (ticks c rest t.2).0 one
        (ticks-Spaced rest (latest last one.fires) t.2 s one.last_run)

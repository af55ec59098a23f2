-- ===== src/Cron/Worker/Spacing.antt =====
-- The fires of one cron in a whole run of `Worker::run` of crates/cja/src/cron/worker.rs.
use text.Mathlib.TextEquality.{eq_iff}
use cja.Common.{
  ℕ, ◌≡◌, refl, sym, ◌∙◌, ap, subst, Bool, true, false, Option, some, List, [], ◌∷◌, ◌++◌, String,
  All, if◌then◌else◌, Bool-cases, inl, inr,
}
use cja.Common.Sql.{
  Result, ok, err, World, query, str_is, next_fault, rest_faults, settle, Fault, deliver, refuse,
  lost,
}
use cja.Cron.Schedule.{interval}
use cja.Cron.Tables.{CronDb, last_run_at}
use cja.Cron.Claim.{TickError, sqlx_error}
use cja.Cron.Registry.{CronRegistry}
use cja.Cron.Tick.{CronJob, CronAction, callback, job, TickEnv, Event, tick}
use cja.Cron.Tick.Atomic.{Ticked, fire_events, tick-Ticked}
use cja.Cron.Tick.Spacing.{Attempt, one_tick}
use cja.Cron.Tick.Times.{
  receipt_times, receipt_times-append, latest, AreApart, Within, Within-append, latest-append,
  AreApart-append, Within-AreApart,
}
use cja.Cron.Worker.{Worker, last_enqueue_map, tick_jobs, worker_tick, Pass, run}

module _ (name : String) (d : ℕ) where
  -- From a last run, the times of the fires of the crons of the name: each is more than the
  -- interval after the one before, the last run of the table is the last of them, and each receipt
  -- has the time of a fire of its own.
  pub record Apart (last : ℕ) (after : CronDb) (events : List Event) : Type 0 where
    pub fires : List ℕ
    pub apart : AreApart d last fires
    pub last_run : last_run_at name after ≡ some (latest last fires)
    pub heard : Within (receipt_times name events) fires

  -- All crons of the name have the interval.
  abbrev pub HasInterval : CronRegistry → Type 0
  HasInterval jobs = All (λ c. str_is c.name name ≡ true → c.schedule ≡ interval d) jobs

  same : (last : ℕ) (db : CronDb) → last_run_at name db ≡ some last → Apart last db []
  same last db l = record { fires = []; apart = tt; last_run = l; heard = Within.none_of }

  join :
      (last : ℕ) (y z : CronDb) (e f : List Event) (s : Apart last y e)
      → Apart (latest last s.fires) z f
      → Apart last z (e ++ f)
  join last y z e f s t = record {
    fires = s.fires ++ t.fires;
    apart = AreApart-append d last s.fires t.fires s.apart t.apart;
    last_run = t.last_run ∙ ap some (sym (latest-append last s.fires t.fires));
    heard =
        subst (λ ts. Within ts (s.fires ++ t.fires)) (sym (receipt_times-append name e f))
          (Within-append s.heard t.heard);
  }

  unheard_by :
      (n : String) (a : CronAction) (last : Option ℕ) (at : ℕ)
      → str_is n name ≡ false
      → receipt_times name (fire_events n a last at) ≡ []
  unheard_by n callback last at h = rw h refl
  unheard_by n (job j) last at h = rw h refl

  elsewhere :
      (last : ℕ) (before after : CronDb) (events : List Event)
      → last_run_at name before ≡ some last
      → last_run_at name after ≡ last_run_at name before
      → receipt_times name events ≡ []
      → Apart last after events
  elsewhere last before after events l e z = record {
    fires = [];
    apart = tt;
    last_run = e ∙ l;
    heard = subst (λ ts. Within ts []) (sym z) Within.none_of;
  }

  module _ (c : CronJob) (context : String) (started timezone : ℕ) (env : TickEnv) where
    of_other :
        (last : ℕ) (before after : CronDb) (events : List Event)
        → str_is c.name name ≡ false
        → last_run_at name before ≡ some last
        → Ticked c context started timezone env before after events
        → Apart last after events
    of_other last before after events h l (Ticked.idle e q) =
        elsewhere last before after events l (ap (last_run_at name) e) (ap (receipt_times name) q)
    of_other last before after events h l (Ticked.fired claim f q) =
        elsewhere last before after events l (f.others name h) (
          ap (receipt_times name) q
          ∙ unheard_by c.name c.action (last_run_at c.name before) env.claim.claim_time h)
    of_other last before after events h l (Ticked.unheard claim f q) =
        elsewhere last before after events l (f.others name h) (ap (receipt_times name) q)

    of_self :
        (last_enqueue : Option ℕ) (last : ℕ) (w : World CronDb)
        → c.name ≡ name
        → c.schedule ≡ interval d
        → last_run_at name w.db ≡ some last
        → let (_, events, w') = tick c context last_enqueue started timezone env w in
          Apart last w'.db events
    of_self last_enqueue last w n s l =
        let attempt : Attempt = record {
          context = context;
          last_enqueue = last_enqueue;
          worker_started_at = started;
          timezone = timezone;
          env = env;
        } in
        let t = tick c context last_enqueue started timezone env w in
        let x =
          one_tick c d attempt last w s (subst (λ m. last_run_at m w.db ≡ some last) (sym n) l) in
        record {
          fires = x.fires;
          apart = x.apart;
          last_run = subst (λ m. last_run_at m t.2.db ≡ some (latest last x.fires)) n x.last_run;
          heard = subst (λ m. Within (receipt_times m t.1) x.fires) n x.heard;
        }

    tick-Apart :
        (last_enqueue : Option ℕ) (last : ℕ) (w : World CronDb)
        → (str_is c.name name ≡ true → c.schedule ≡ interval d)
        → last_run_at name w.db ≡ some last
        → let (_, events, w') = tick c context last_enqueue started timezone env w in
          Apart last w'.db events
    tick-Apart last_enqueue last w s l = elim (Bool-cases (str_is c.name name)) [
      | inl t ↦ of_self last_enqueue last w ((eq_iff c.name name).0 t) (s t) l
      | inr f ↦
          let t = tick c context last_enqueue started timezone env w in
          of_other last w.db t.2.db t.1 f l
            (tick-Ticked c context started timezone env last_enqueue w)
    ]

  jobs_case :
      (last : ℕ) (r r' : Result TickError (Unit {0})) (events more : List Event)
      (w' w'' : World CronDb)
      → (s : Apart last w'.db events) → Apart (latest last s.fires) w''.db more
      → let o : Result TickError (Unit {0}) × List Event × World CronDb = elim r [
        | ok _ ↦ (r', events ++ more, w'')
        | err e ↦ (err e, events, w')
      ] in
        Apart last o.2.db o.1
  jobs_case last (ok _) r' events more w' w'' s t = join last w'.db w''.db events more s t
  jobs_case last (err e) r' events more w' w'' s t = s

  tick_jobs-Apart :
      (worker : Worker) (envs : String → TickEnv) (last_runs : String → Option ℕ)
      (jobs : CronRegistry) (last : ℕ) (w : World CronDb)
      → HasInterval jobs
      → last_run_at name w.db ≡ some last
      → let (_, events, w') = tick_jobs worker envs last_runs jobs w in Apart last w'.db events
  unfolding tick_jobs
  tick_jobs-Apart worker envs last_runs [] last w h l = same last w.db l
  tick_jobs-Apart worker envs last_runs (c ∷ rest) last w h l =
      let t =
        tick c worker.context (last_runs c.name) worker.started_at worker.timezone (envs c.name)
          w in
      let u = tick_jobs worker envs last_runs rest t.2 in
      let s =
        tick-Apart c worker.context worker.started_at worker.timezone (envs c.name)
          (last_runs c.name) last w h.0 l in
      jobs_case last t.0 u.0 t.1 u.1 t.2 u.2 s
        (tick_jobs-Apart worker envs last_runs rest (latest last s.fires) t.2 h.1 s.last_run)

  -- The map of last runs is read, and nothing else happens.
  mapped :
      (f : Fault) (worker : Worker) (envs : String → TickEnv) (last : ℕ) (w : World CronDb)
      → HasInterval worker.registry
      → last_run_at name w.db ≡ some last
      → let (r, db) =
          settle {E = TickError} {A = String → Option ℕ} sqlx_error f
            ((λ n. last_run_at n w.db), w.db)
            w.db in
        let w' : World CronDb = record { db = db; faults = rest_faults w.faults } in
        let o : Result TickError (Unit {0}) × List Event × World CronDb = elim r [
          | ok last_runs ↦ tick_jobs worker envs last_runs worker.registry w'
          | err e ↦ (err e, [], w')
        ] in
        Apart last o.2.db o.1
  mapped deliver worker envs last w h l =
      tick_jobs-Apart worker envs (λ n. last_run_at n w.db) worker.registry last
        (record { db = w.db; faults = rest_faults w.faults }) h l
  mapped (refuse e) worker envs last w h l = same last w.db l
  mapped (lost e) worker envs last w h l = same last w.db l

  worker_tick-Apart :
      (worker : Worker) (envs : String → TickEnv) (last : ℕ) (w : World CronDb)
      → HasInterval worker.registry
      → last_run_at name w.db ≡ some last
      → let (_, events, w') = worker_tick worker envs w in Apart last w'.db events
  unfolding worker_tick last_enqueue_map query
  worker_tick-Apart worker envs last w h l = mapped (next_fault w.faults) worker envs last w h l

  run_case :
      (cancelled sleep_cancelled : Bool) (last : ℕ) (r : Result TickError (Unit {0}))
      (r' : Option (Result TickError (Unit {0}))) (events more : List Event)
      (w w' w'' : World CronDb)
      → last_run_at name w.db ≡ some last
      → (s : Apart last w'.db events) → Apart (latest last s.fires) w''.db more
      → let o : Option (Result TickError (Unit {0})) × List Event × World CronDb =
          if cancelled then (some (ok tt), [], w) else elim r [
            | ok _ ↦
                if sleep_cancelled then (some (ok tt), events, w') else (r', events ++ more, w'')
            | err e ↦ (some (err e), events, w')
          ] in
        Apart last o.2.db o.1
  run_case true sleep_cancelled last r r' events more w w' w'' l s t = same last w.db l
  run_case false true last (ok _) r' events more w w' w'' l s t = s
  run_case false false last (ok _) r' events more w w' w'' l s t =
      join last w'.db w''.db events more s t
  run_case false sleep_cancelled last (err e) r' events more w w' w'' l s t = s

  run_keeps :
      (worker : Worker) (passes : List Pass) (last : ℕ) (w : World CronDb)
      → HasInterval worker.registry
      → last_run_at name w.db ≡ some last
      → let (_, events, w') = run worker passes w in Apart last w'.db events
  unfolding run
  run_keeps worker [] last w h l = same last w.db l
  run_keeps worker (p ∷ rest) last w h l =
      let t = worker_tick worker p.envs w in
      let u = run worker rest t.2 in
      let s = worker_tick-Apart worker p.envs last w h l in
      run_case p.cancelled p.sleep_cancelled last t.0 u.0 t.1 u.1 w t.2 u.2 l s
        (run_keeps worker rest (latest last s.fires) t.2 h s.last_run)

  -- In any run of a cron worker, with any other crons, environments and failures: if all crons of
  -- a name have one interval, the receipts of that name are each more than the interval after the
  -- one before, and the first after the last run that the table had, by the database's times of
  -- their claims. So are all fires, also those whose commit was not answered, and the table's last
  -- run is the time of the last fire.
  pub run-Apart :
      (worker : Worker) (passes : List Pass) (last : ℕ) (w : World CronDb)
      → HasInterval worker.registry
      → last_run_at name w.db ≡ some last
      → let (_, events, w') = run worker passes w in
        AreApart d last (receipt_times name events) × Apart last w'.db events
  run-Apart worker passes last w h l =
      let s = run_keeps worker passes last w h l in (Within-AreApart d last s.heard s.apart, s)

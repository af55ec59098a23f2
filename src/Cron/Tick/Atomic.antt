-- ===== src/Cron/Tick/Atomic.antt =====
-- A tick of crates/cja/src/cron/registry.rs commits its claim and its enqueue together or not at
-- all, and acts only after the commit.
use cja.Common.{
  ℕ, ◌≡◌, ◌≢◌, refl, ap, ◌∙◌, sym, subst, String, Option, none, some, Bool, true, false, List, [],
  ◌∷◌, if◌then◌else◌, is_some,
}
use cja.Common.Sql.{str_is, Result, ok, err, World}
use cja.Jobs.Enqueue.{EnqueueJob, new_row}
use cja.Jobs.Tables.{Tables}
use cja.Cron.Schedule.{should_run}
use cja.Cron.Tables.{CronDb, last_run_at}
use cja.Cron.Claim.{
  Part, got, skipped, failed, ◌>>◌, give, Claim, claim_due, stamp, stamped, transaction,
}
use cja.Cron.Claim.Holds.{
  Holds, Holds-give, Holds-statement, Holds-bind, Holds-weaken, Commits, transaction-Commits,
}
use cja.Cron.Claim.Fires.{Due, Holds-claim_due, last_run_at-stamp, last_run_at-stamp_other}
use cja.Cron.Tick.{
  CronJob, CronAction, callback, job, TickEnv, Event, enqueuing_task, callback_ran, push_job,
  insert, in_claim, after_commit, claim_and_act, tick_claimed, tick,
}

-- The events of a fire: the receipt, with the last run before it and its time, and then the callback's run.
abbrev pub fire_events : String → CronAction → Option ℕ → ℕ → List Event
fire_events name callback last at = enqueuing_task name last at ∷ callback_ran ∷ []
fire_events name (job j) last at = enqueuing_task name last at ∷ []

module _ (c : CronJob) (context : String) (started timezone : ℕ) (env : TickEnv) where
  -- The queue after a fire: a job cron has put its job there, due at the time of the claim.
  abbrev pub Enqueued : CronAction → Tables → Tables → Type 0
  Enqueued callback q q' = q' ≡ q
  Enqueued (job j) q q' =
      (payload : String) × (j.payload ≡ ok payload)
      × (q' ≡ record q {
        jobs = new_row j.job_name payload context none env.claim.claim_time env.job_id ∷ q.jobs;
      })

  -- A fire: the cron was due at the time of the claim by the last run of the table, that time is
  -- the last run now, and the job is in the queue.
  pub record Fired (before : CronDb) (claim : Claim) (after : CronDb) : Type 0 where
    pub last : claim.last_run ≡ last_run_at c.name before
    pub due :
        should_run c.schedule (last_run_at c.name before) env.claim.claim_time started timezone
        ≡ true
    pub stamped : last_run_at c.name after ≡ some env.claim.claim_time
    pub queue : Enqueued c.action before.queue after.queue
    pub others :
        (name : String)
        → str_is c.name name ≡ false
        → last_run_at name after ≡ last_run_at name before

  module _ (d0 : CronDb) where
    -- The claim is made, and the queue is as the action leaves it.
    record Acted (claim : Claim) (d : CronDb) : Type 0 where
      time : claim.at ≡ env.claim.claim_time
      due :
          should_run c.schedule (last_run_at c.name d0) env.claim.claim_time started timezone ≡ true
      last : claim.last_run ≡ last_run_at c.name d0
      present : is_some (last_run_at c.name d) ≡ true
      queue : Enqueued c.action d0.queue d.queue
      others :
          (name : String) → str_is c.name name ≡ false → last_run_at name d ≡ last_run_at name d0

    Holds-stamped :
        (claim : Claim) → Holds (Acted claim) (stamped c.name claim.at >> give claim) (Fired d0)
    unfolding stamp
    Holds-stamped claim =
        Holds-bind (stamped c.name claim.at) (λ _. give claim)
          (Holds-statement {Q = λ _. Fired d0 claim} (λ d. (tt, stamp c.name claim.at d))
            λ d a. record {
              last = a.last;
              due = a.due;
              stamped = last_run_at-stamp c.name claim.at d a.present ∙ ap some a.time;
              queue = a.queue;
              others = λ name h. last_run_at-stamp_other c.name name claim.at d h ∙ a.others name h;
            })
          (λ _. Holds-give claim (λ d f. f))

    acted :
        (claim : Claim) (d d' : CronDb)
        → Due c.name c.schedule started timezone env.claim d0 claim d
        → d'.crons ≡ d.crons
        → Enqueued c.action d0.queue d'.queue
        → Acted claim d'
    unfolding last_run_at
    acted claim d d' x e q = record {
      time = x.time;
      due = x.due;
      last = x.found.last;
      present = rw e x.found.present;
      queue = q;
      others = λ name h. rw e (x.found.others name h);
    }

    pushed :
        (claim : Claim) (j : EnqueueJob) (payload : String) (d : CronDb)
        → claim.at ≡ env.claim.claim_time
        → d.queue ≡ d0.queue
        → (push_job (new_row j.job_name payload context none claim.at env.job_id) d).queue
          ≡ record d0.queue {
            jobs =
                new_row j.job_name payload context none env.claim.claim_time env.job_id
                ∷ d0.queue.jobs;
          }
    pushed claim j payload d t e = cc (t, e)

    Holds-insert :
        (claim : Claim) (j : EnqueueJob) (r : Result String String)
        → c.action ≡ job j
        → j.payload ≡ r
        → Holds
            (Due c.name c.schedule started timezone env.claim d0 claim)
            (insert j.job_name claim.at env.job_id context r)
            (λ _. Acted claim)
    unfolding insert
    Holds-insert claim j (err x) e p = record { at = λ w h a g. absurd (cc) }
    Holds-insert claim j (ok payload) e p =
        Holds-statement
          (λ d. (tt, push_job (new_row j.job_name payload context none claim.at env.job_id) d))
          λ d x.
            let d' = push_job (new_row j.job_name payload context none claim.at env.job_id) d in
            acted claim d d' x refl (
              subst (λ (a : CronAction). Enqueued a d0.queue d'.queue) (sym e)
                (payload, p, pushed claim j payload d x.time x.found.queue))

    Holds-in_claim :
        (claim : Claim) (a : CronAction)
        → c.action ≡ a
        → Holds
            (Due c.name c.schedule started timezone env.claim d0 claim)
            (in_claim a c.name context env claim)
            (Fired d0)
    unfolding in_claim
    Holds-in_claim claim callback e =
        Holds-weaken (stamped c.name claim.at >> give claim)
          (λ d x.
            acted claim d d x refl
              (subst (λ (a : CronAction). Enqueued a d0.queue d.queue) (sym e) x.found.queue))
          (Holds-stamped claim)
    Holds-in_claim claim (job j) e =
        Holds-bind (insert j.job_name claim.at env.job_id context j.payload)
          (λ _. stamped c.name claim.at >> give claim) (Holds-insert claim j j.payload e refl)
          (λ _. Holds-stamped claim)

    Holds-claim_and_act :
        Holds (λ d. d ≡ d0) (claim_and_act c context started timezone env) (Fired d0)
    unfolding claim_and_act
    Holds-claim_and_act =
        Holds-bind (claim_due c.name c.schedule started timezone env.claim)
          (in_claim c.action c.name context env)
          (Holds-claim_due c.name c.schedule started timezone env.claim d0)
          (λ claim. Holds-in_claim claim c.action refl)

  -- What a tick has done: nothing, in silence; or one fire, with its events, or in silence if the
  -- reply to the COMMIT was lost.
  pub data Ticked (before after : CronDb) (events : List Event) : Type 0 where
    idle : after ≡ before → events ≡ [] → Ticked before after events
    fired :
        (claim : Claim)
        → Fired before claim after
        → events ≡ fire_events c.name c.action (last_run_at c.name before) env.claim.claim_time
        → Ticked before after events
    unheard : (claim : Claim) → Fired before claim after → events ≡ [] → Ticked before after events

  acted_on :
      (a : CronAction) (before after : CronDb) (c1 c2 : Claim)
      → c.action ≡ a
      → c2 ≡ c1
      → Fired before c2 after
      → Ticked before after (after_commit a c.name env (got c1)).1
  unfolding after_commit
  acted_on callback before after c1 c2 e same f = Ticked.fired c2 f (cc (e, same, f.last))
  acted_on (job j) before after c1 c2 e same f = Ticked.fired c2 f (cc (e, same, f.last))

  silent_of :
      (a : CronAction) (r : Part Claim)
      → ((x : Claim) → r ≢ got x)
      → (after_commit a c.name env r).1 ≡ []
  unfolding after_commit
  silent_of a (got x) h = absurd (h x refl)
  silent_of callback skipped h = refl
  silent_of (job j) skipped h = refl
  silent_of callback (failed e) h = refl
  silent_of (job j) (failed e) h = refl

  events_of :
      (a : CronAction) (before after : CronDb) (r : Part Claim)
      → c.action ≡ a
      → Commits (Fired before) before after r
      → Ticked before after (after_commit a c.name env r).1
  events_of a before after r e (Commits.unchanged eq quiet) = Ticked.idle eq (silent_of a r quiet)
  events_of a before after (got x) e (Commits.committed cl f same) =
      acted_on a before after x cl e (same x refl) f
  events_of a before after skipped e (Commits.committed cl f same) =
      Ticked.unheard cl f (silent_of a skipped (λ x. cc))
  events_of a before after (failed x) e (Commits.committed cl f same) =
      Ticked.unheard cl f (silent_of a (failed x) (λ y. cc))

  -- However its statements fare, a tick that passed the first test either changes nothing and
  -- emits nothing, or fires once: the cron was due at the database's time by the last run of the
  -- table, the last run becomes that time, and a job cron's job enters the queue, all in one
  -- commit. The receipt and the callback come only with a fire that was committed; only if the
  -- reply to the COMMIT is lost does a fire go without them.
  pub tick_claimed-Ticked :
      (w : World CronDb)
      → let (result, events, w') = tick_claimed c context started timezone env w in
        Ticked w.db w'.db events
  unfolding tick_claimed
  tick_claimed-Ticked w =
      let t = transaction (claim_and_act c context started timezone env) w in
      events_of c.action w.db t.1.db t.0 refl (
        transaction-Commits (claim_and_act c context started timezone env) (Fired w.db) w
          (Holds-claim_and_act w.db))

  tick_if :
      (b : Bool) (w : World CronDb)
      → let (_, events, w') =
          if b then tick_claimed c context started timezone env w else (ok tt, [], w) in
        Ticked w.db w'.db events
  tick_if true w = tick_claimed-Ticked w
  tick_if false w = Ticked.idle refl refl

  pub tick-Ticked :
      (last_enqueue : Option ℕ) (w : World CronDb)
      → let (_, events, w') = tick c context last_enqueue started timezone env w in
        Ticked w.db w'.db events
  unfolding tick
  tick-Ticked last_enqueue w =
      tick_if (should_run c.schedule last_enqueue env.now started timezone) w

-- ===== src/Llm/Durable/Advance/Held.antt =====
-- What an attempt may rely on between its statements, and what a statement under its lease keeps.
use cja.Common.{ℕ, ◌≡◌, refl, String, Option, none, some, Bool, true, false, List, [], ◌∷◌}
use cja.Common.Sql.{SqlError, Fault, deliver, refuse, lost, Result, ok, err, settle}
use cja.Llm.Durable.Status.{queued}
use cja.Llm.Durable.Tables.{RunRow, RunDb, MessageRow, is_status}
use cja.Llm.Durable.Db.{Snapshot, Ending, unstorable}
use cja.Llm.Durable.Site.{Moment, Site, next_moment, rest_moments, statement}
use cja.Llm.Durable.Worker.{
  Owner, code_of, is_ok, store_failure, after_refusal, after_finish, finish_with,
}
use cja.Llm.Durable.Advance.Cover.{
  safe, covered, covered-safe, is_active_status, Leased, Ended, finish-Ended, fail_unstorable-Ended,
}

abbrev pub is_queued : Option RunRow → Bool
is_queued none = false
is_queued (some r) = is_status r.status queued

module _ (payload : ℕ → String) (o : Owner) (own_job : ℕ) where
  -- The other workers take the run over only with a job of their own, and none of them queues it.
  pub record Polite (m : Moment) : Type 0 where
    pub keeps_safe :
        (d : RunDb) → safe payload o own_job d ≡ true → safe payload o own_job (m.others d) ≡ true
    pub keeps_unqueued :
        (d : RunDb)
        → is_queued (d.runs o.run_id) ≡ false
        → is_queued ((m.others d).runs o.run_id) ≡ false

  abbrev pub AllPolite : List Moment → Type 0
  AllPolite [] = Unit
  AllPolite (m ∷ ms) = Polite m × AllPolite ms

  pub next-Polite : (ms : List Moment) → AllPolite ms → Polite (next_moment ms)
  next-Polite [] p = record { keeps_safe = λ d h. h; keeps_unqueued = λ d h. h }
  next-Polite (m ∷ ms) p = p.0

  pub rest-AllPolite : (ms : List Moment) → AllPolite ms → AllPolite (rest_moments ms)
  rest-AllPolite [] p = p
  rest-AllPolite (m ∷ ms) p = p.1

  -- The run is leased to this attempt or covered, and stays so between the statements.
  abbrev pub Held : Site → Type 0
  Held s = AllPolite s.moments × (safe payload o own_job s.db ≡ true)

  abbrev pub Covered : Site → Type 0
  Covered s = covered payload o own_job s.db ≡ true

  abbrev pub LeasedEnd : {A : Type 0} → Result SqlError (Option A) × Site → Type 0
  LeasedEnd (ok none, s) = Covered s
  LeasedEnd (ok (some a), s) = Held s
  LeasedEnd (err e, s) = Held s

  abbrev pub EndedEnd : {A : Type 0} → Result SqlError (Option A) × Site → Type 0
  EndedEnd (ok a, s) = Covered s
  EndedEnd (err e, s) = Held s

  module _ {A : Type 0} where
    abbrev at_rest : Site → Result SqlError A × RunDb → Result SqlError A × Site
    at_rest s (r, d) = (r, record s { db = d; moments = rest_moments s.moments })

  module _ {A : Type 0} (s : Site) (d : RunDb) (p : AllPolite (rest_moments s.moments))
      (h : safe payload o own_job d ≡ true) where
    settle-LeasedEnd :
        (f : Fault) (w : Option A × RunDb)
        → Leased payload o own_job w
        → LeasedEnd (at_rest s (settle (λ e. e) f w d))
    settle-LeasedEnd deliver (none, d') k = k
    settle-LeasedEnd deliver (some a, d') k = (p, k)
    settle-LeasedEnd (refuse e) w k = (p, h)
    settle-LeasedEnd (lost e) (none, d') k = (p, covered-safe payload o own_job d' k)
    settle-LeasedEnd (lost e) (some a, d') k = (p, k)

    settle-EndedEnd :
        (f : Fault) (w : Option A × RunDb)
        → Ended payload o own_job w
        → EndedEnd (at_rest s (settle (λ e. e) f w d))
    settle-EndedEnd deliver (none, d') k = k
    settle-EndedEnd deliver (some a, d') k = k
    settle-EndedEnd (refuse e) w k = (p, h)
    settle-EndedEnd (lost e) (none, d') k = (p, covered-safe payload o own_job d' k)
    settle-EndedEnd (lost e) (some a, d') k = (p, covered-safe payload o own_job d' k)

  arrives :
      (s : Site) → Held s → safe payload o own_job ((next_moment s.moments).others s.db) ≡ true
  arrives s g = (next-Polite s.moments g.0).keeps_safe s.db g.1

  module _ {A : Type 0} (f : ℕ → RunDb → Option A × RunDb) (s : Site) (g : Held s) where
    pub statement-LeasedEnd :
        ((now : ℕ) (d : RunDb)
          → safe payload o own_job d ≡ true
          → Leased payload o own_job (f now d))
        → LeasedEnd (statement f s)
    unfolding statement
    statement-LeasedEnd k =
        let m = next_moment s.moments in
        settle-LeasedEnd s (m.others s.db) (rest-AllPolite s.moments g.0) (arrives s g) m.fault
          (f m.now (m.others s.db)) (k m.now (m.others s.db) (arrives s g))

    pub statement-EndedEnd :
        ((now : ℕ) (d : RunDb)
          → safe payload o own_job d ≡ true
          → Ended payload o own_job (f now d))
        → EndedEnd (statement f s)
    unfolding statement
    statement-EndedEnd k =
        let m = next_moment s.moments in
        settle-EndedEnd s (m.others s.db) (rest-AllPolite s.moments g.0) (arrives s g) m.fault
          (f m.now (m.others s.db)) (k m.now (m.others s.db) (arrives s g))

  module _ {A : Type 0} where
    settle-unwritten :
        (f : Fault) (a : A) (d : RunDb) → (settle {E = SqlError} (λ e. e) f (a, d) d).1 ≡ d
    settle-unwritten deliver a d = refl
    settle-unwritten (refuse e) a d = refl
    settle-unwritten (lost e) a d = refl

    -- A statement that only reads.
    pub statement-Held :
        (f : ℕ → RunDb → A) (s : Site) → Held s → Held (statement (λ now d. (f now d, d)) s).1
    unfolding statement
    statement-Held f s g =
        let m = next_moment s.moments in
        (
          rest-AllPolite s.moments g.0,
          rw (settle-unwritten m.fault (f m.now (m.others s.db)) (m.others s.db)) (arrives s g),
        )

  -- A terminal write that succeeds leaves the run covered.
  abbrev pub WriteEnd : Bool × Site → Type 0
  WriteEnd (true, s) = Covered s
  WriteEnd (false, s) = Unit

  store_failure-WriteEnd : (e : SqlError) (s : Site) → Held s → WriteEnd (store_failure o e s)
  unfolding store_failure
  store_failure-WriteEnd e s g = reply _ (
      statement-EndedEnd _ s g
        (λ now d h. fail_unstorable-Ended payload o own_job (code_of e) now d h))
    where
      reply : (r : Result SqlError (Option (Unit {0})) × Site) → EndedEnd r → WriteEnd (is_ok r)
      reply (ok a, x) h = h
      reply (err e', x) h = tt

  pub after_refusal-WriteEnd :
      (e : SqlError) (b : Bool) (s : Site) → Held s → WriteEnd (after_refusal o e b s)
  after_refusal-WriteEnd e true s g = store_failure-WriteEnd e s g
  after_refusal-WriteEnd e false s g = tt

  pub finish_with-WriteEnd :
      (e : Ending) (snap : Snapshot) (new : List MessageRow) (s : Site)
      → is_active_status e.status ≡ false
      → Held s
      → WriteEnd (finish_with o e snap new s)
  unfolding finish_with
  finish_with-WriteEnd e snap new s i g =
      reply _
        (statement-EndedEnd _ s g (λ now d h. finish-Ended payload o own_job e snap new now d i h))
    where
      reply :
          (r : Result SqlError (Option (Unit {0})) × Site)
          → EndedEnd r
          → WriteEnd (after_finish o r)
      reply (ok a, x) h = h
      reply (err e', x) h = after_refusal-WriteEnd e' (unstorable e') x h

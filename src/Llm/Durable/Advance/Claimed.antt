-- ===== src/Llm/Durable/Advance/Claimed.antt =====
-- What the claim of a run leaves (`claim_and_validate` of crates/cja-llm/src/durable/worker.rs).
use cja.Common.{ℕ, ◌≡◌, refl, Option, none, some, Bool, true, false, [], ==_refl, arith}
use cja.Common.Sql.{SqlError, Fault, deliver, refuse, lost, Result, ok, err, settle}
use cja.Llm.Durable.Status.{RunStatus, queued}
use cja.Llm.Durable.Tables.{RunRow, RunDb, is_status}
use cja.Llm.Durable.Db.{
  ClaimedRun, Ending, try_claim, current_status, run_claimable, lease_to, claimed_of, update_run,
  update_found, update_case,
}
use cja.Llm.Durable.Rig.{Rig}
use cja.Llm.Durable.Site.{Site, statement, next_moment, rest_moments}
use cja.Llm.Durable.Worker.{AgentKind, Durable, Owner}
use cja.Llm.Durable.Advance.{
  row_snapshot, Claim, nothing, ready, claim_failed, ended_claim, end_claimed, check_state,
  check_kind, check_cancel, leased_by_other, is_running, after_claim, claim_and_validate,
}
use cja.Llm.Durable.Advance.Cover.{is_active_status, safe, row_covered, set-safe}
use cja.Llm.Durable.Advance.Held.{
  AllPolite, next-Polite, rest-AllPolite, is_queued, Covered, WriteEnd, finish_with-WriteEnd,
}
use cja.Llm.Durable.Advance.Ends.{Kept}

module _ (rig : Rig) (o : Owner) (own_job : ℕ) where
  abbrev pub ClaimEnd : Claim rig × Site → Type 0
  ClaimEnd (nothing true, s) = Unit
  ClaimEnd (nothing false, s) = Covered rig.payload o own_job s
  ClaimEnd (ready r run k, s) = Kept rig o own_job s
  ClaimEnd (claim_failed, s) = Unit

  -- A claim leases the run to this attempt, or finds it not queued.
  abbrev Claimed : {A : Type 0} → Option A × RunDb → Type 0
  Claimed (none, d) = is_queued (d.runs o.run_id) ≡ false
  Claimed (some a, d) = safe rig.payload o own_job d ≡ true

  unclaimable-unqueued :
      (now takeover : ℕ) (r : RunRow)
      → run_claimable now takeover r ≡ false
      → is_status r.status queued ≡ false
  unfolding run_claimable
  unclaimable-unqueued now takeover r h = ground arith

  module _ (takeover now : ℕ) (d : RunDb) where
    case-Claimed :
        (r : RunRow) (b : Bool)
        → d.runs o.run_id ≡ some r
        → run_claimable now takeover r ≡ b
        → Claimed (update_case o.run_id (lease_to o.me now) claimed_of d r b)
    unfolding lease_to
    case-Claimed r true e h = set-safe rig.payload o own_job d _ (rw (==_refl o.me) refl)
    case-Claimed r false e h = rw e (unclaimable-unqueued now takeover r h)

    row-Claimed :
        (row : Option RunRow)
        → d.runs o.run_id ≡ row
        → Claimed (
            update_found o.run_id (run_claimable now takeover) (lease_to o.me now) claimed_of d row)
    row-Claimed none e = rw e refl
    row-Claimed (some r) e = case-Claimed r _ e refl

    try_claim-Claimed : Claimed (try_claim o.run_id o.me takeover now d)
    unfolding try_claim update_run
    try_claim-Claimed = row-Claimed _ refl

  end_claimed-ClaimEnd :
      (r : ClaimedRun) (e : Ending) (s : Site)
      → is_active_status e.status ≡ false
      → Kept rig o own_job s
      → ClaimEnd (end_claimed rig o r e s)
  end_claimed-ClaimEnd r e s i g =
      reply _ (finish_with-WriteEnd rig.payload o own_job e (row_snapshot r) [] s i g)
    where
      reply : (w : Bool × Site) → WriteEnd rig.payload o own_job w → ClaimEnd (ended_claim rig w)
      reply (true, x) h = h
      reply (false, x) h = tt

  check_state-ClaimEnd :
      (r : ClaimedRun) (k : AgentKind) (s : Site) (run : Option rig.Run)
      → Kept rig o own_job s
      → ClaimEnd (check_state rig o r k s run)
  check_state-ClaimEnd r k s none g = end_claimed-ClaimEnd r _ s refl g
  check_state-ClaimEnd r k s (some run) g = g

  check_kind-ClaimEnd :
      (r : ClaimedRun) (s : Site) (k : Option AgentKind)
      → Kept rig o own_job s
      → ClaimEnd (check_kind rig o r s k)
  check_kind-ClaimEnd r s none g = end_claimed-ClaimEnd r _ s refl g
  check_kind-ClaimEnd r s (some k) g = check_state-ClaimEnd r k s _ g

  check_cancel-ClaimEnd :
      (d : Durable) (r : ClaimedRun) (s : Site) (b : Bool)
      → Kept rig o own_job s
      → ClaimEnd (check_cancel rig d o r s b)
  check_cancel-ClaimEnd d r s true g = end_claimed-ClaimEnd r _ s refl g
  check_cancel-ClaimEnd d r s false g = check_kind-ClaimEnd r s _ g

  idle-covered :
      (b : Bool) (row : Option RunRow)
      → is_queued row ≡ false
      → is_running rig (elim row [ none ↦ none | some r ↦ some r.status ]) ≡ false
      → row_covered rig.payload o own_job b row ≡ true
  idle-covered b none h k = refl
  idle-covered b (some r) h k = rw (h, k) refl

  abbrev StatusEnd : Result SqlError (Option RunStatus) × Site → Type 0
  StatusEnd (ok status, s) = is_running rig status ≡ false → Covered rig.payload o own_job s
  StatusEnd (err e, s) = Unit

  current_status-StatusEnd :
      (s : Site)
      → AllPolite rig.payload o own_job s.moments
      → is_queued (s.db.runs o.run_id) ≡ false
      → StatusEnd (statement (current_status o.run_id) s)
  unfolding statement current_status
  current_status-StatusEnd s p h =
      let m = next_moment s.moments in
      let d = m.others s.db in
      reply m.fault d ((next-Polite rig.payload o own_job s.moments p).keeps_unqueued s.db h)
    where
      reply :
          (f : Fault) (d : RunDb)
          → is_queued (d.runs o.run_id) ≡ false
          → StatusEnd (
              let w = settle (λ e. e) f (current_status o.run_id 0 d) d in
              (w.0, record s { db = w.1; moments = rest_moments s.moments }))
      reply deliver d k = λ r. idle-covered _ _ k r
      reply (refuse e) d k = tt
      reply (lost e) d k = tt

  status-ClaimEnd :
      (b : Bool) (s : Site)
      → (b ≡ false → Covered rig.payload o own_job s)
      → ClaimEnd (nothing b, s)
  status-ClaimEnd true s h = tt
  status-ClaimEnd false s h = h refl

  leased_by_other-ClaimEnd :
      (r : Result SqlError (Option RunStatus) × Site)
      → StatusEnd r
      → ClaimEnd (leased_by_other rig r)
  leased_by_other-ClaimEnd (err e, s) h = tt
  leased_by_other-ClaimEnd (ok status, s) h = status-ClaimEnd (is_running rig status) s h

  -- What the statement of the claim comes to.
  abbrev TriedEnd : Result SqlError (Option ClaimedRun) × Site → Type 0
  TriedEnd (ok none, s) =
      AllPolite rig.payload o own_job s.moments × (is_queued (s.db.runs o.run_id) ≡ false)
  TriedEnd (ok (some r), s) = Kept rig o own_job s
  TriedEnd (err e, s) = Unit

  try_claim-TriedEnd :
      (takeover : ℕ) (s : Site)
      → AllPolite rig.payload o own_job s.moments
      → TriedEnd (statement (try_claim o.run_id o.me takeover) s)
  unfolding statement
  try_claim-TriedEnd takeover s p =
      let m = next_moment s.moments in
      let d = m.others s.db in
      reply m.fault (try_claim o.run_id o.me takeover m.now d) (try_claim-Claimed takeover m.now d)
    where
      reply :
          (f : Fault) (w : Option ClaimedRun × RunDb)
          → Claimed w
          → TriedEnd (
              let v = settle (λ e. e) f w ((next_moment s.moments).others s.db) in
              (v.0, record s { db = v.1; moments = rest_moments s.moments }))
      reply deliver (none, d) h = (rest-AllPolite rig.payload o own_job s.moments p, h)
      reply deliver (some r, d) h = (rest-AllPolite rig.payload o own_job s.moments p, h)
      reply (refuse e) w h = tt
      reply (lost e) w h = tt

  after_claim-ClaimEnd :
      (d : Durable) (r : Result SqlError (Option ClaimedRun) × Site)
      → TriedEnd r
      → ClaimEnd (after_claim rig d o r)
  after_claim-ClaimEnd d (err e, s) h = tt
  after_claim-ClaimEnd d (ok none, s) h =
      leased_by_other-ClaimEnd _ (current_status-StatusEnd s h.0 h.1)
  after_claim-ClaimEnd d (ok (some r), s) h = check_cancel-ClaimEnd d r s _ h

  pub claim_and_validate-ClaimEnd :
      (d : Durable) (s : Site)
      → AllPolite rig.payload o own_job s.moments
      → ClaimEnd (claim_and_validate rig d o s)
  unfolding claim_and_validate
  claim_and_validate-ClaimEnd d s p =
      after_claim-ClaimEnd d _ (try_claim-TriedEnd d.lease_takeover s p)

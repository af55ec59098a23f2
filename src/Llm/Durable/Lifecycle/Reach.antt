-- ===== src/Llm/Durable/Lifecycle/Reach.antt =====
-- The runs that the code can reach: their statuses, their ends and what `get_run` reads of them.
use cja.Common.{
  ℕ, ◌≡◌, refl, sym, ap, subst, String, Option, none, some, is_some, true, List, [], ◌∷◌, ◌⊎◌, inl,
  inr,
}
use cja.Common.Sql.{Result, ok, err}
use cja.Llm.Durable.Nuls.{Text}
use cja.Llm.Durable.Status.{
  FailReason, ParseError, parse_status, status_text, reason_text, texts_iff, RunStatus, queued,
  running, waiting, succeeded, cancelled,
}
use cja.Llm.Durable.Tables.{RunRow, RunDb, is_status}
use cja.Llm.Durable.Rig.{Rig}
use cja.Llm.Durable.Start.{RunError}
use cja.Llm.Durable.View.{
  RunView, pending_ask, view_with, from_row, view_found, get_run, columns_of, decoded_reason,
  read_reason, stored_reason,
}
use cja.Llm.Durable.Lifecycle.{IsStorable, Follows, may_become, is_terminal, status_is}
use cja.Llm.Durable.Lifecycle.Moves.{Move, Move-Follows}

-- The specification of a run's life, step by step: it stays as it is, it appears as queued, or its
-- status goes one step along the lifecycle.
pub data Turn : Option RunStatus → Option RunStatus → Type 0 where
  same : {s : Option RunStatus} → Turn s s
  born : Turn none (some queued)
  started : Turn (some queued) (some running)
  asked : Turn (some running) (some waiting)
  answered : Turn (some waiting) (some running)
  ended : {t : RunStatus} → (t ≡ succeeded) ⊎ (t ≡ RunStatus.failed) → Turn (some running) (some t)
  cancelled_early : Turn (some queued) (some cancelled)
  cancelled_late : Turn (some running) (some cancelled)
  cancelled_waiting : Turn (some waiting) (some cancelled)

abbrev pub status_of : Option RunRow → Option RunStatus
status_of none = none
status_of (some r) = some r.status

-- Any number of steps of the code.
pub data Moves (rig : Rig) (d : RunDb) : RunDb → Type 0 where
  rest : Moves rig d d
  next : (m d' : RunDb) → Moves rig d m → Move rig m d' → Moves rig d d'

-- The statuses that a run had before each step, the latest first.
abbrev pub earlier : {rig : Rig} {d d' : RunDb} → ℕ → Moves rig d d' → List (Option RunStatus)
earlier id rest = []
earlier id (next m _ ms v) = status_of (m.runs id) ∷ earlier id ms

-- Each status comes from the one before it by a step of the specification.
abbrev pub IsLife : Option RunStatus → List (Option RunStatus) → Type 0
IsLife t [] = Unit
IsLife t (s ∷ ss) = Turn s t × IsLife s ss

over : (s t : RunStatus) → is_status s t ≡ true → Turn (some s) (some t)
over s t h = subst (λ x. Turn (some s) (some x)) (status_is s t h) same

turn : (s t : RunStatus) → may_become s t ≡ true → Turn (some s) (some t)
turn queued queued h = same
turn queued running h = started
turn queued cancelled h = cancelled_early
turn queued waiting h = absurd (cc)
turn queued succeeded h = absurd (cc)
turn queued RunStatus.failed h = absurd (cc)
turn running running h = same
turn running waiting h = asked
turn running succeeded h = ended (inl refl)
turn running RunStatus.failed h = ended (inr refl)
turn running cancelled h = cancelled_late
turn running queued h = absurd (cc)
turn waiting waiting h = same
turn waiting running h = answered
turn waiting cancelled h = cancelled_waiting
turn waiting queued h = absurd (cc)
turn waiting succeeded h = absurd (cc)
turn waiting RunStatus.failed h = absurd (cc)
turn succeeded t h = over succeeded t h
turn RunStatus.failed t h = over RunStatus.failed t h
turn cancelled t h = over cancelled t h

lived : (row row' : Option RunRow) → Follows row row' → Turn (status_of row) (status_of row')
lived none none f = same
lived none (some r) f = subst (λ q. Turn none (some q)) (sym f.0) born
lived (some r) none f = absurd f
lived (some r) (some r') f = turn r.status r'.status f.lives

-- Whatever the code does, in any order and for any owners, each of its statements and transactions
-- takes each run at most one step along its life: the run appears as queued; it goes from queued to
-- running or cancelled, from running to waiting, succeeded, failed or cancelled, and from waiting to
-- running or cancelled; it never leaves an end, and no row disappears.
pub Moves-Life :
    (rig : Rig) (d d' : RunDb) (id : ℕ) (ms : Moves rig d d')
    → IsLife (status_of (d'.runs id)) (earlier id ms)
Moves-Life rig d _ id rest = tt
Moves-Life rig d d' id (next m _ ms v) =
    (lived (m.runs id) (d'.runs id) (Move-Follows rig m d' v id), Moves-Life rig d m id ms)

ended_stays :
    (row : Option RunRow) (r : RunRow) (row' : Option RunRow)
    → row ≡ some r
    → is_terminal r.status ≡ true
    → Follows row row'
    → row' ≡ some r
ended_stays row r row' e t f = stays row' (subst (λ x. Follows x row') e f)
  where
    stays : (x : Option RunRow) → Follows (some r) x → x ≡ some r
    stays none f = absurd f
    stays (some r') f = ap some (f.final t)

-- The row of a run that has ended never changes again: no claim, late write of a former owner,
-- answer or cancel rewrites its result, and no second row takes its id.
pub Moves-end :
    (rig : Rig) (d d' : RunDb) (id : ℕ) (r : RunRow)
    → Moves rig d d'
    → d.runs id ≡ some r
    → is_terminal r.status ≡ true
    → d'.runs id ≡ some r
Moves-end rig d _ id r rest e t = e
Moves-end rig d _ id r (next m d' ms v) e t =
    ended_stays (m.runs id) r (d'.runs id) (Moves-end rig d m id r ms e t) t
      (Move-Follows rig m d' v id)

abbrev pub StorableRow : Option RunRow → Type 0
StorableRow none = Unit
StorableRow (some r) = IsStorable r

stored_stays : (row row' : Option RunRow) → StorableRow row → Follows row row' → StorableRow row'
stored_stays none none w f = tt
stored_stays none (some r) w f = f.1
stored_stays (some r) none w f = absurd f
stored_stays (some r) (some r') w f = f.stores w

-- What the code stores of runs satisfies the table's constraint and more: in each row a question is
-- pending, with its call, exactly while the run is waiting; the run has an end exactly if its
-- status is terminal, a failure reason exactly if it failed, and an output exactly if it succeeded;
-- and a lease has its time and is held only while the run is running.
pub Moves-StorableRow :
    (rig : Rig) (d d' : RunDb) (id : ℕ)
    → Moves rig d d'
    → StorableRow (d.runs id)
    → StorableRow (d'.runs id)
Moves-StorableRow rig d _ id rest w = w
Moves-StorableRow rig d _ id (next m d' ms v) w =
    stored_stays (m.runs id) (d'.runs id) (Moves-StorableRow rig d m id ms w)
      (Move-Follows rig m d' v id)

-- What `get_run` returns of a row, or of none.
abbrev pub Readable : ℕ → Option RunRow → Result RunError RunView → Type 0
Readable id none v = v ≡ err (RunError.not_found id)
Readable id (some r) (err e) = ⊥
Readable id (some r) (ok v) =
    (v.status ≡ r.status)
    × (v.fail_reason ≡ r.fail_reason)
    × (is_some v.pending_ask ≡ is_status r.status waiting)

reason_read : (o : Option FailReason) → decoded_reason (stored_reason o) ≡ ok o
reason_read none = refl
reason_read (some reason) = ap read_reason (((texts_iff (reason_text reason)).1 reason).1 refl)

decoded :
    (id : ℕ) (r : RunRow) (status : Result ParseError RunStatus)
    (reason : Result ParseError (Option FailReason)) (call : Option String) (question : Option Text)
    → status ≡ ok r.status
    → reason ≡ ok r.fail_reason
    → is_some call ≡ is_status r.status waiting
    → is_some question ≡ is_status r.status waiting
    → Readable id (some r) (view_with (columns_of r) status reason (pending_ask call question))
decoded id r (err e) reason call question s f a b = absurd (cc)
decoded id r (ok status) (err e) call question s f a b = absurd (cc)
decoded id r (ok status) (ok reason) none none s f a b = (cc, cc, a)
decoded id r (ok status) (ok reason) (some c) (some q) s f a b = (cc, cc, a)
decoded id r (ok status) (ok reason) none (some q) s f a b = absurd (cc)
decoded id r (ok status) (ok reason) (some c) none s f a b = absurd (cc)

row_read : (id : ℕ) (row : Option RunRow) → StorableRow row → Readable id row (view_found id row)
unfolding from_row
row_read id none w = refl
row_read id (some r) w =
    decoded id r (parse_status (status_text r.status))
      (decoded_reason (stored_reason r.fail_reason)) r.pending_call_id r.pending_question
      (((texts_iff (status_text r.status)).0 r.status).1 refl) (reason_read r.fail_reason) w.asks
      w.questions

-- From tables whose row of a run is absent or storable, after any steps of the code, `get_run` finds
-- no corrupt row: it answers that the run is not found exactly if there is no row, and else a view
-- with the row's status and failure reason, read back from their texts, that shows a pending
-- question exactly while the run is waiting.
pub get_run-Readable :
    (rig : Rig) (d d' : RunDb) (id : ℕ)
    → Moves rig d d'
    → StorableRow (d.runs id)
    → Readable id (d'.runs id) (get_run id d')
unfolding get_run
get_run-Readable rig d d' id ms w = row_read id (d'.runs id) (Moves-StorableRow rig d d' id ms w)

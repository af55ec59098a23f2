-- ===== src/Llm/Durable/Site.antt =====
-- The database as an attempt meets it: before each statement other workers may have acted, the
-- statement has a time, and it ends by a fault of Common/Sql. A timeout is an error without a
-- SQLSTATE, after which the statement may or may not have been carried out.
use cja.Common.{ℕ, List, [], ◌∷◌}
use cja.Common.Sql.{SqlError, Fault, deliver, Result, settle}
use cja.Llm.Durable.Tables.{RunDb}

pub record Moment : Type 0 where
  pub others : RunDb → RunDb
  pub now : ℕ
  pub fault : Fault

-- `wakes` counts the calls of `AppState::job_enqueued`.
pub record Site : Type 0 where
  pub db : RunDb
  pub moments : List Moment
  pub wakes : ℕ

abbrev pub quiet : Moment
quiet = record { others = λ d. d; now = 0; fault = deliver }

abbrev pub next_moment : List Moment → Moment
next_moment [] = quiet
next_moment (m ∷ _) = m

abbrev pub rest_moments : List Moment → List Moment
rest_moments [] = []
rest_moments (_ ∷ ms) = ms

unfoldable pub statement : {A : Type 0} → (ℕ → RunDb → A × RunDb) → Site → Result SqlError A × Site
statement f s =
    let m = next_moment s.moments in
    let d = m.others s.db in
    let (r, d') = settle (λ e. e) m.fault (f m.now d) d in
    (r, record s { db = d'; moments = rest_moments s.moments })

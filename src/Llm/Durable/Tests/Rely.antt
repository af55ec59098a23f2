-- ===== src/Llm/Durable/Tests/Rely.antt =====
-- The theorem on what an attempt relies on, with a handover and a heartbeat of other workers.
use cja.Common.Sql.{deliver}
use cja.Llm.Durable.Tables.{RunDb}
use cja.Llm.Durable.Db.{heartbeat}
use cja.Llm.Durable.Site.{Moment}
use cja.Llm.Durable.Advance.{advance_job, requeue}
use cja.Llm.Durable.Tests.{counter}

abbrev handed_over : RunDb → RunDb
handed_over d =
    (requeue (record { run_id = 1; me = 9 }) (advance_job counter.payload 1 "agent-run:counter" 2 8)
      3 d).1

abbrev busy : Moment
busy = record { others = λ d. (heartbeat 1 6 3 (handed_over d)).1; now = 4; fault = deliver }

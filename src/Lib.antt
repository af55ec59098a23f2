-- ===== src/Lib.antt =====
-- CJA: a Rust framework of background jobs, cron schedules and an HTTP server over PostgreSQL.
--
-- The files and the code that they model:
--   Common         the shared names; Common/Sql is a database whose statements may fail
--   Jobs           the job queue, crates/cja/src/jobs/worker.rs
--     Tables       the rows of jobs and dead_letter_jobs (crates/cja/migrations)
--     Config       JobWorkerConfig, its validation, LeaseTracker
--     Claim        fetch_next_job and dead_letter_owned
--     Finalize     the end of run_next_job, cleanup_worker_locks, panic_message
--     Lease        the select loop of run_next_job: body, watchdog, heartbeats
--     Worker       job_worker, admit_claim, run_claimed_job, verify_jobs_schema
--     Enqueue      enqueue, enqueue_on and their shared core (crates/cja/src/jobs/mod.rs)
--   Cron           the cron scheduler, crates/cja/src/cron
--     Schedule     IntervalSchedule, CronSchedule, Schedule (registry.rs)
--     Tables       the rows of crons, beside the job queue
--     Claim        claim_due, commit_claim and the transaction that they share
--     Tick         CronJob::tick, tick_claimed, fire
--     Registry     CronRegistry
--     Worker       Worker of worker.rs: last_enqueue_map, tick, run
--   Llm            the client of the LLM gateway, crates/cja-llm/src
--     Transport    the attempts of a request (transport.rs): run_loop, run_attempt, classify_status
--     Durable      durable agent runs (durable/mod.rs, db.rs and worker.rs)
--       Status     the texts of RunStatus and FailReason
--       Nuls       replace_nuls, sanitize_tool_result
--       Tables     the rows of agent_runs and agent_messages, beside the job queue
--       Db         the statements of db.rs
--       Rig        what the engine uses of the agent library
--       Site       the database as an attempt meets it, statement by statement
--       Worker     what the steps share; the terminal writes
--       Steps      persist, with_lease_guards, ask_step, call_tools_step, call_model_step, done_step
--       Advance    claim_and_validate, advance_run, retry_or_requeue
--       Start      kind, start, answer, cancel (mod.rs)
--       View       RunView, get_run (mod.rs)
--       Lifecycle  the statements and transactions as moves of the tables
--       Backing    the jobs in the queue that advance a run
--       Foreign    what the writes of others leave of a run that is leased or backed
--       Unqueued   what they leave of a run that is not queued
--       Others     the statements of others, as an attempt meets them
--   Secrets        the boot fetch, the store and the refresher (crates/cja-secret/src/lib.rs)
--     Client       call, get_version, get_if_changed (crates/setec/src/lib.rs)
--   ToolCache      the verified cache of build tools (crates/cja-build/src/tool_cache.rs)
--   Tasks          the supervisor and its budget, crates/cja/src/tasks.rs
--
-- Statements and transactions. A statement is a function on the tables, translated from its SQL, and
-- runs under the next fault of a list: it is carried out, refused, or carried out with its reply
-- lost. The list is arbitrary, and past its end statements are carried out, so a theorem about every
-- world is one about every pattern of failures. A transaction works on the tables and is rolled back
-- unless its COMMIT is carried out. Row locks are what makes a transaction one step for other
-- workers; the rows that others hold locked at a claim are an input (SKIP LOCKED).
--
-- Time and choice. Clocks, what is ready at each poll of a select, which branch of an unbiased select
-- is taken, the results of job bodies, and where a dropped future stood are inputs, as lists of polls
-- and of passes. Loops recur on these lists, so they need no fuel. The boot fetch of a secret takes
-- fuel: one attempt more than initial waits fit into its timeout is enough, since every wait is at
-- least that long. A Duration or an Instant is a number of nanoseconds, a timestamp of the database
-- one of microseconds, and a UUID is its number; in Cron all times are in microseconds.
--
-- Durable runs. The agent library is not part of the repository: Rig is a record of the operations
-- that the engine calls, and a parameter. An attempt meets the database
-- at a list of moments: before a statement other workers may change the tables in any way, it has a
-- time, and it is carried out, refused, or carried out with its reply lost. What other workers may
-- not do is a named hypothesis. How many heartbeats fall within a step, what the model and the tools
-- return and when a shutdown is seen are inputs, one round of the loop each.
--
-- In the tables a status and a failure reason are values of their types; get_run reads the texts that
-- as_str writes for them and decodes them as RunView does.
--
-- Crons. A fire receipt of the model also has the database's time in the claim's transaction, which
-- the source does not report, so that theorems can say how far apart receipts are.
--
-- Secrets. The refresher writes an entry's value before its version, and readers take no lock. The
-- model keeps the two writes apart, and lists what a reader may see between them.
--
-- The tool cache. SHA-256 and the reader of archives are a parameter; what each operation of the file
-- system answers is an input, and so is an entry that another process puts there.
--
-- Not modelled: tracing but for the receipts of enqueues and of cron fires, the bodies of jobs
-- and their registry, JSON payloads (kept as text), the range checks of PostgreSQL's timestamps
-- (a statement that they refuse is a refused statement), and the crates that PROJECT.json lists
-- as not modelled.
pub mod Common
pub mod Jobs
pub mod Cron
pub mod Tasks
pub mod Llm
pub mod Secrets
pub mod ToolCache

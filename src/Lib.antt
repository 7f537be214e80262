-- ===== src/Lib.antt =====
-- AI Badge: a backend that records meetings, transcribes them and distils them into artifacts
-- that are reviewed, published and, on demand, retracted. This library models its core and
-- proves what the parts of it promise.
--
-- A request arrives at a route of backend/app/main.py, is authenticated, and runs in one
-- database transaction. A worker process polls two queues of the same database, the pipeline's
-- jobs and the deletion jobs of retractions, and runs a handler for each. Both act on the
-- sessions' statuses.
--
-- The state is a World (Model/Effects): the nine tables of backend/app/models (Model/Rows) as
-- the open transaction sees them and as committed, the audio folder, the next identifier and the
-- clock. An operation is an Action: World to a result and a World; a raised error leaves its
-- writes in the open transaction, and `request` is get_db of backend/app/db/session.py, which
-- commits or rolls back. Model/Store has the queries and inserts; Model/Validity the invariant
-- of the database; Model/Ledger the abstract view of the tables as append-only records;
-- Model/Keeps and Model/Insert a rule for each way to build an action that keeps both;
-- Model/Pending a rule for each action that does not commit; Model/Settled the jobs that are
-- done with, which the rules of Model/Keeps spare too.
--
-- - Sessions/Machine: TRANSITIONS and can_transition of backend/app/sessions/service.py;
--   Sessions/Service its retract_session; Sessions/Schemas, Sessions/Router and Sessions/Upload
--   the schemas and handlers of backend/app/sessions, under the names of the source, over
--   Storage, which is backend/app/storage/local.py. Sessions/Lifecycle is an independent diagram
--   of the statuses; Requests, StatusChange, Processing, Retraction, Consent, Recording and
--   Listing are about the handlers.
-- - Artifacts/Service and Artifacts/Router: backend/app/artifacts; Artifacts/Review is about
--   them.
-- - Orchestrator/Service and Orchestrator/Worker: backend/app/orchestrator, with the process and
--   its heartbeat thread in Worker/Loop; Jobs, Retries, Worker/Claim, Worker/Outcome,
--   Worker/Finality, Worker/Shutdown, Worker/Outage and Worker/Heartbeat are about them.
-- - Agents: the handlers of backend/app/agents and transcribe_audio of
--   backend/app/capture/service.py; Agents/Registry is JOB_HANDLERS; Agents/Prompts the prompts;
--   Agents/Providers, Agents/OpenAi and Agents/Whisper are backend/app/providers; Erasure,
--   Extraction, Pipeline, Polling, SagaRun, Answers and Structured are about them and the turns
--   of the worker.
-- - Trust: backend/app/trust/redlines.py and policy_engine.py, with Trust/Checks about them, and
--   sensitive_check.py in Trust/Sensitive, with Trust/Findings about it. Audit:
--   backend/app/audit.
-- - Migrations: the revisions of backend/alembic/versions (Initial, WorkflowEvents, DeviceIds)
--   as statements on a catalog (Schema), and the tables that the ORM classes declare (Metadata);
--   Deployment, Agreement, Events, Alter, Constraints, Backfill and DeviceUpgrade are about
--   them.
-- - Auth: backend/app/auth and backend/app/dependencies.py; Auth/Accounts and Auth/Slugs are
--   about them.
-- - System: the routes, authentication, and histories of requests and turns of the worker;
--   System/Validity, System/Ledger, System/Finality and System/Atomicity are about all of them.
-- - Prelude: tests, tables as lists, ORDER BY as a stable sort, decidable equality. Examples:
--   each theorem on a concrete input.
--
-- Conventions. An identifier is a number drawn from a counter (uuid4 never collides); a time is
-- a number of seconds, and one step sees one time; a duration is in milliseconds. An idempotency
-- key is kept as the parts that its text joins. A primary-key lookup takes the first row; other
-- queries ending in scalar_one_or_none raise on a second row. Rows that tie in an ORDER BY keep
-- the order of the table; a limit and an offset are natural numbers. SKIP LOCKED is a predicate
-- on identifiers; what another transaction commits is `elsewhere`. The ORM's own update of
-- updated_at is not modelled, only where the code writes it. Every loop of the code runs over a
-- list: worker_loop over the turns that it takes, its heartbeat thread over its beats. The one
-- use of fuel is the printing of a number in decimal, with one step more than the number, which
-- is more than it has digits. A statement of alembic's `op` has the effect of its SQL on the
-- catalog of PostgreSQL, or is refused as PostgreSQL refuses it.
--
-- Parameters: the transcription service and the language model (Providers), the client of the
-- openai package and json.loads (Client, with the documented promise of strict schemas in
-- IsStrict), bcrypt and jose (Crypto, with their documented laws in IsSound), str.lower, strip,
-- and the printing of a float and of a nested JSON value.
--
-- Not modelled: the set-up of FastAPI, of the engine and of alembic (backend/alembic/env.py),
-- the pydantic validation of bodies and the schemas that pydantic makes of classes, logging,
-- settings and the health check.
pub mod Prelude
pub mod Model
pub mod Storage
pub mod Audit
pub mod Trust
pub mod Orchestrator
pub mod Sessions
pub mod Artifacts
pub mod Agents
pub mod Auth
pub mod System
pub mod Migrations
pub mod Examples

-- ===== src/Lib.antt =====
-- A fraud decisioning platform: agents propose decisions and plans, and deterministic code decides
-- what may happen. This library models that code; the paths below start at fraud_platform/ in the
-- repository.
--
-- Parts. Resilience (common/resilience.py) wraps calls of services in retries and a circuit
-- breaker. Db (db/validators.py, db/schema_contract.py) validates what is written, and
-- db/migrate.py brings the schema up to date. Stream (stream_processing/scoring.py,
-- feature_engine.py) turns each parsed transaction into a feature row, in isolation from the rest
-- of its micro-batch, and hands the rows to the store that the agents read and to the warehouse.
-- Retrieval (retrieval/chunker.py) cuts policy documents into chunks for the agents' searches.
-- Dashboard (bi_dashboard/sql_guard.py) vets the SQL that a language model writes. Observability
-- (observability/metrics.py, redaction.py, audit_logger.py) scores decisions, and stores the trace
-- of each run with the personal data hidden. Governance (governance/policy_framework.py,
-- hitl_handler.py) gives every decision a tier, stores it and lets a human review it once. Agents
-- (agents/multi_agent/orchestrator.py) routes a transaction from specialist to specialist. Workflow
-- (workflow_engine/) checks a proposed plan, keeps workflows, runs and step results in a store,
-- executes plans step by step through a registry of tools, and starts runs from a scheduler and an
-- HTTP API.
--
-- Files.
--   Common: shared names, lists, texts as code points and their words, results, a stable sort,
--     integers, doubles, and JSON-like values.
--   Resilience/Classify, Retry, Breaker: classify_error, retry, CircuitBreaker; Laws beside them.
--   Db/Schema, Validators: ENUMS and the validate_* functions. Db/Migrate: discover_migrations,
--     pending and apply_all; Resume holds their theorem.
--   Stream/Scoring: haversine_distance, geo_hard_rule and the rest of scoring.py; Scoring/Row has
--     build_feature_row, Scoring/Safety its theorems.
--   Stream/Redis, Sinks, Engine: RedisFeatureWriter, S3FeatureWriter with to_snowflake_row, and
--     process_batch of FraudFeatureEngine. Redis/Latest, Engine/Isolation and Engine/Durable hold
--     their theorems; Engine/Steps has the two streaming queries as steps on the shared state.
--   Retrieval/Chunker: DocumentChunker; Markdown finds the headers, Pieces splits long paragraphs,
--     Laws and Document hold the theorems.
--   Dashboard/SqlGuard: SQLValidator; Laws holds its theorem.
--   Observability/Metrics, Redaction: the counts of metrics.py, and TraceRedactor; Laws beside them.
--     JSON inside of a text is followed as many levels deep as the outer text has characters, which
--     the theorem of Redaction/Laws proves enough. Observability/Audit: AgentTraceWriter.write_trace
--     after it; Laws holds its theorem.
--   Agents/Router: FraudOrchestrator._route and the graph around it; Grounded holds its theorem.
--   Governance/Policy: GovernancePolicyFramework.assign_tier. Governance/Hitl: HITLHandler over the
--     table FACT_DECISIONS as a list of rows; Review, Queue and Rows hold its theorems.
--     Governance/Autonomy: the chain of assign_tier and persist_decision in run_demo.main.
--   Workflow/State, Tables, Store: the state machine, the tables and the statements of WorkflowStore.
--   Workflow/Refs, Conditions: references such as $step_2.count, and guards.
--   Workflow/Plan, Registry, Schedule, Feasibility: WorkflowPlan, ToolRegistry, Schedule, check_plan.
--   Workflow/Executor: Executor.execute; Steps and Runs hold its case lemmas, Outcomes, Keys and
--     States its theorems.
--   Workflow/Feasibility/Sound, Attended, Schedule/Runnable: what passes check_plan and the
--     validators, and when check_plan asks for an approval.
--   Workflow/Promotion, Scheduler, Api: promotion.py, SchedulerRuntime, and the handlers of api.py;
--     Api/Reports has the handlers of reports. Scheduler/Fires, Api/Approval, Api/Requests and
--     Api/Reports/Landing (with Published and Sources) hold their theorems; Scheduler/Armed has the states a run starts from.
--   Tests: in each part, concrete runs and the theorems at concrete inputs.
--
-- Conventions. Stateful code takes and returns its state; an exception is an err of Result. Numbers
-- are natural numbers, and so are step numbers and clock readings; doubles are exact integers in
-- units of 2 ^ -1074. A step list, a retry loop and a queue are structural recursions, so no fuel
-- is used there; the routing graph has its number of turns as fuel, and four turns are proved
-- enough; the splitting of a long paragraph has a round for each of its words, which its theorem
-- proves enough. A number of more than 4300 digits, on which int raises, is refused where the
-- source converts it. The clock, generated ids, the outcome of a database connection, the body and
-- the argument schema of a tool, the zone database, the parsing of decimal texts, the printing of
-- times, the next fire time of the cron library, the planner's answers, the router's picks, the
-- arithmetic of doubles, the difference of timestamps, the SQL parser, JSON, digests, the encoding
-- of a result by json.dumps and whether it raises, which calls of a service raise, and the wording
-- of messages are parameters. Keys of the store do not expire in the model.
--
-- Not modelled: log lines and latencies, failures of the workflow store's database other than its
-- unique index, the language models, the services (warehouse, cache, vector store, chat), the user
-- interface and the data generator, which are input, output or third-party code; the dataframe code
-- of the feature engine; and, as yet, replay (db/replay.py), calibration and the evaluation runner
-- (observability), report rendering (workflow_engine/report.py) and the agents' specialists.
pub mod Common
pub mod Resilience
pub mod Db
pub mod Governance
pub mod Workflow
pub mod Retrieval
pub mod Stream
pub mod Dashboard
pub mod Observability
pub mod Agents

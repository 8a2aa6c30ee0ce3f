-- ===== src/Lib.antt =====
-- The durable core of an incident agent: alerts arrive at a webhook, are stored as events, become
-- jobs that workers lease, and an analysis of them is reviewed before anything is published.
--
-- The parts and the files that model them:
--   AlertContract  webhook/alert_contract.py, validate_alert_payload
--   Replay       webhook/replay.py, validate_and_record_nonce
--   Lifecycle    webhook/lifecycle.py, the table of allowed transitions (validate_transition)
--   Registry     webhook/registry.py, the table incident_lifecycle: transition_lifecycle,
--                get_lifecycle, resolve_incident, reopen_incident. Registry/Chain and
--                Registry/Review prove what its histories look like
--   Pending      webhook/registry.py, the table pending_reviews: add_pending, remove_pending,
--                get_pending
--   RateLimit    webhook/rate_limit.py, allow over the table webhook_rate_limits
--   ReviewGate   utils/review_gate.py, analysis_review_state
--   Store        webhook/incident_store.py, the tables of events, jobs, locks and dead letters.
--                Store/Intake: _insert_event, record_event, append_event,
--                record_event_and_enqueue, _assert_queue_capacity; Store/Keys: _job_key;
--                Store/Claim: _claim_next_job_once; Store/Finish: renew_job_lease,
--                _complete_job_once, fail_job; Store/Replay: replay_dead_letter,
--                enqueue_reprocessing. Store/Reach makes them the steps of a relation; the other
--                children hold proofs
--   Worker       webhook/worker.py, process_one and drain; Worker/Settling proves what becomes of a
--                job that is processed
--   Retry        webhook/incident_store.py, the loop of create_revision, claim_next_job and
--                complete_job around one transaction
--   Revisions    webhook/incident_store.py, _create_revision_once
--   Publication  webhook/incident_store.py, begin_publication, complete_publication,
--                mark_publication_uncertain; Publication/Node: graph/nodes/publish.py
--   Identity     webhook/incident_store.py, get_or_create_incident_id
--   Decisions    webhook/incident_store.py, record_review_decision; Decisions/Once, Intact and
--                Approved prove what is decided, and on what
--   Evidence     webhook/incident_store.py, _append_analysis_evidence; Evidence/Analysis:
--                record_analysis_revision, get_analysis_revision, validate_analysis_evidence
--   Drafts       webhook/incident_store.py, record_postmortem_draft
--   Sync         webhook/state_sync.py, sync_registry over Evidence/Analysis and Pending
--   JobHandler   webhook/job_handler.py, run_normalized_alert on the table incident_lifecycle; what
--                the graph and sync_registry come to, and what others write between its
--                transactions, are arguments; JobHandler/Job: run_incident_job, with
--                create_revision of Revisions
--   Investigation  utils/investigation_loop.py: initialize_loop, complete_round, expansion_router;
--                Investigation/Rounds makes them the loop of the graph
--   Tools        utils/tool_budget.py: validate_tool_request, remote_cost; Tools/Session:
--                ToolSession.run and _record; Tools/Limits and Tools/Guards hold proofs
--   ModelUsage   utils/model_usage.py: the entries of a ledger; ModelUsage/Accounting:
--                authorize_model_call, append_usage
--   ModelClient  clients/openai_client.py: create_response with its retries, circuit and budget
--   GraphReview  graph/nodes/human_review.py, publish_review.py, reinvestigate_feedback.py and
--                graph/routing.py
--   Workflow     graph/workflow.py, the nodes and edges, as a step relation over the reviews
--   Pool         utils/mysql.py: the pool of connections, shared by the threads of a process: each
--                of its calls takes what other threads do between its accesses to the pool.
--                Pool/Balance makes the accesses the steps of a relation, of which Pool/Acquiring
--                shows acquire and release to be made
--   Resilience   utils/resilience.py: request with its retries and circuits; Resilience/Breaker
--                specifies the circuit on the history of the calls
--   Common       helpers: Boolean tests, lists, tables as lists of rows, numbered versions
--   Tests        the theorems at concrete inputs
-- The registry validates with Lifecycle, the publish node goes through the publication guard, and
-- the queue, the revisions and the publications share the errors and the environment of Store. The
-- worker processes jobs by the transactions of Store. The reviewers' question restarts the tool
-- session on a loop of Investigation, and the graph's walk goes through the routers of both.
--
-- How the code is read. A table is the list of its rows in the order of insertion, a function takes
-- the tables that it touches and returns them as its transaction leaves them; a rollback returns
-- them unchanged, with the AUTO_INCREMENT counter. A transaction runs alone, because it holds the
-- row locks that it needs; the rows that SKIP LOCKED passes over, and what other processes write
-- between two transactions of one function, are arguments (`locked`, `between`, `meanwhile`). The
-- clock is read once per transaction and is an argument, in microseconds; the sums of times do not
-- overflow. Texts are compared exactly, and row counts are those of matched rows. JSON columns hold
-- the text that the code stores. The hash function and the settings are fields of `Env`; redaction
-- has been applied to what the functions are given. The unique keys whose violation the code meets
-- are written out, the numbers that AUTO_INCREMENT skips are not.
-- The verdict on the evidence is an argument of record_review_decision, for which Decisions/Intact
-- takes validate_analysis_evidence. Loops run over
-- lists, and the retry loops over the rounds of their ranges. The expansion of the graph runs on
-- fuel, for which the rounds that are left of the allowed ones are enough. A redacted text, the size
-- of a result, the bytes of an input and Python's rounding are arguments; durations are whole
-- microseconds and costs whole units of 10^-8 dollars, none of them negative.
--
-- Not modelled: the HTTP API, what the analysis nodes compute from models and connectors,
-- rendering, redaction, evaluation and scripts; and of the store, the queries that only read, worker
-- heartbeats, readiness checks and the schema's migrations.
mod Common
pub mod AlertContract
pub mod Replay
pub mod Sync
pub mod Lifecycle
pub mod Registry
pub mod Pending
pub mod RateLimit
pub mod ReviewGate
pub mod Decisions
pub mod Store
pub mod Worker
pub mod Identity
pub mod JobHandler
pub mod Publication
pub mod Revisions
pub mod Retry
pub mod Drafts
pub mod Evidence
pub mod Investigation
pub mod ModelUsage
pub mod ModelClient
pub mod Tools
pub mod GraphReview
pub mod Workflow
pub mod Resilience
pub mod Pool
mod Tests

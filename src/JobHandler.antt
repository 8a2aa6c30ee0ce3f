-- ===== src/JobHandler.antt =====
-- webhook/job_handler.py: run_normalized_alert, on the table incident_lifecycle. The graph and the
-- registry's other tables are not touched here: `ran` is what graph.ainvoke and sync_registry come
-- to, whether the state awaits a review, or the text of what they raise.
pub mod Outcomes
pub mod Job
pub mod Retried
use incident_agent.Common.{ℕ, String, Bool, true, false, Option, none, some, List, if◌then◌else◌}
use incident_agent.Lifecycle.{
  Status, received, collecting, analyzing, awaiting_analysis_review, completed, resolved,
}
use incident_agent.Registry.{
  Row, Error, Result, ok, err, get_lifecycle, transition_lifecycle, reopen_incident,
}

pub data Ran : Type 0 where
  awaiting_review finished : Ran
  raised : String → Ran

-- What a run meets: what other processes write before each of its transactions, the times of these,
-- and whether the alert has the key "alertname", which the answer reads.
pub record Course : Type 0 where
  pub between : ℕ → List Row → List Row
  pub now : ℕ → ℕ
  pub has_alertname : Bool

pub data HandlerError : Type 0 where
  registry_error : Error → HandlerError
  workflow_error : String → HandlerError
  key_error : String → HandlerError

pub data Handled : Type 0 where
  handled : Ran → Handled
  failed : HandlerError → Handled

-- The next transition, the `k`-th transaction of the run, unless the one before it raised.
abbrev pub then_transition :
    Course → ℕ → Result Row × List Row → String → Status → Option String → Result Row × List Row
then_transition c k (err e, rows) thread_id target reason = (err e, rows)
then_transition c k (ok r, rows) thread_id target reason =
    transition_lifecycle (c.between k rows) thread_id target reason none (c.now k)

-- The branches on the lifecycle; none of them for the other statuses.
abbrev pub start_status : Course → Status → ℕ → List Row → String → Option (Result Row × List Row)
start_status c resolved version rows thread_id = some (
    reopen_incident (c.between 0 rows) thread_id
      (some "new firing observation requires a new analysis revision") (c.now 0))
start_status c awaiting_analysis_review version rows thread_id = some (
    transition_lifecycle (c.between 0 rows) thread_id analyzing
      (some "new observation requires analysis revision") (some version) (c.now 0))
start_status c _ version rows thread_id = none

abbrev pub start_found : Course → Option Row → List Row → String → Option (Result Row × List Row)
start_found c none rows thread_id = some (
    then_transition c 2
      (then_transition c 1
        (transition_lifecycle (c.between 0 rows) thread_id received (some "validated webhook alert")
          none (c.now 0))
        thread_id collecting (some "workflow started"))
      thread_id analyzing (some "evidence collection started"))
start_found c (some r) rows thread_id = start_status c r.status r.version rows thread_id

abbrev pub settled : Course → Ran → Result Row × List Row → Handled × List Row
settled c ran (err e, rows) = (failed (registry_error e), rows)
settled c ran (ok r, rows) =
    (if c.has_alertname then handled ran else failed (key_error "alertname"), rows)

-- From the run of the graph on, during which others write.
abbrev pub settle : Course → Ran → List Row → String → Handled × List Row
settle c (raised e) rows thread_id = (failed (workflow_error e), c.between 3 rows)
settle c awaiting_review rows thread_id = settled c awaiting_review (
    transition_lifecycle (c.between 3 rows) thread_id awaiting_analysis_review
      (some "human review required") none (c.now 3))
settle c finished rows thread_id = settled c finished (
    transition_lifecycle (c.between 3 rows) thread_id completed (some "workflow completed") none
      (c.now 3))

abbrev pub after_start :
    Course → Option (Result Row × List Row) → List Row → Ran → String → Handled × List Row
after_start c none rows ran thread_id = settle c ran rows thread_id
after_start c (some (err e, rows')) rows ran thread_id = (failed (registry_error e), rows')
after_start c (some (ok r, rows')) rows ran thread_id = settle c ran rows' thread_id

unfoldable pub run_normalized_alert : Course → List Row → String → Ran → Handled × List Row
run_normalized_alert c rows thread_id ran =
    after_start c (start_found c (get_lifecycle rows thread_id) rows thread_id) rows ran thread_id

-- ===== src/JobHandler/Job.antt =====
-- webhook/job_handler.py: run_incident_job, over the tables of the revisions and of the lifecycles.
use incident_agent.Common.{ℕ, String, Bool, false, Option, none, some, List, str_eq, if◌then◌else◌}
use incident_agent.Store.{Kind, analyze, reprocess, Error, Result, ok, err}
use incident_agent.Store.Claim.{Claimed}
use incident_agent.Revisions.{RevisionDb, create_revision_once}
use incident_agent.Registry.{Row, Resolution, resolve_incident}
use incident_agent.Registry
use incident_agent.JobHandler.{
  Course, Ran, Handled, HandlerError, handled, failed, registry_error, run_normalized_alert,
}

-- The two databases that a job writes.
pub record Tables : Type 0 where
  pub revisions : RevisionDb
  pub lifecycles : List Row

-- What the job meets: the text of the context that complete_run_context gives, the `status` and
-- the `incident_id` of its payload, the OperationalError that create_revision leaves by, if it does, what others write while
-- the incident is resolved, what the graph and sync_registry come to, and the times of the writes.
pub record JobRun : Type 0 where
  pub complete_run_context : String → String
  pub status_of_payload : String → Option String
  pub incident_of_payload : String → Option String
  pub lock_conflict : Option String
  pub between : List Row → List Row
  pub ran : ℕ → Ran
  pub created_at : ℕ
  pub now : ℕ
  pub course : Course

pub data JobAnswer : Type 0 where
  resolution : ℕ → Resolution → JobAnswer
  finished_run : ℕ → Ran → JobAnswer

pub data JobResult : Type 0 where
  answered : JobAnswer → JobResult
  lock_error : String → JobResult
  revision_error : Error → JobResult
  handler_error : ℕ → HandlerError → JobResult
  key_error : ℕ → JobResult

abbrev pub reason_of : Kind → String
reason_of reprocess = "reprocessing stored event"
reason_of analyze = "new alert observation"

abbrev pub is_resolved_alert : Option String → Bool
is_resolved_alert none = false
is_resolved_alert (some status) = str_eq status "resolved"

abbrev pub resolved_job :
    ℕ → RevisionDb → Registry.Result Resolution × List Row → JobResult × Tables
resolved_job revision db (Registry.ok r, rows) =
    (answered (resolution revision r), record { revisions = db; lifecycles = rows })
resolved_job revision db (Registry.err e, rows) =
    (handler_error revision (registry_error e), record { revisions = db; lifecycles = rows })

abbrev pub analyzed_job : ℕ → RevisionDb → Handled × List Row → JobResult × Tables
analyzed_job revision db (handled r, rows) =
    (answered (finished_run revision r), record { revisions = db; lifecycles = rows })
analyzed_job revision db (failed e, rows) =
    (handler_error revision e, record { revisions = db; lifecycles = rows })

-- `normalized["incident_id"]` is the thread of the run.
abbrev pub analyze_payload : JobRun → ℕ → RevisionDb → List Row → Option String → JobResult × Tables
analyze_payload x revision db rows none =
    (key_error revision, record { revisions = db; lifecycles = rows })
analyze_payload x revision db rows (some thread_id) =
    analyzed_job revision db (run_normalized_alert x.course rows thread_id (x.ran revision))

abbrev pub after_revision : JobRun → Claimed → List Row → Result ℕ × RevisionDb → JobResult × Tables
after_revision x job rows (err e, db) =
    (revision_error e, record { revisions = db; lifecycles = rows })
after_revision x job rows (ok revision, db) =
    if is_resolved_alert (x.status_of_payload job.payload)
    then resolved_job revision db
        (resolve_incident rows job.incident_id (some "resolved alert received") x.between x.now)
    else analyze_payload x revision db rows (x.incident_of_payload job.payload)

abbrev pub job_revision : JobRun → RevisionDb → Claimed → Result ℕ × RevisionDb
job_revision x db job =
    create_revision_once db job.incident_id (reason_of job.kind) none
      (x.complete_run_context job.run_context) (some job.job_id) x.created_at

abbrev unless_locked : Option String → JobRun → Tables → Claimed → JobResult × Tables
unless_locked (some e) x t job = (lock_error e, t)
unless_locked none x t job = after_revision x job t.lifecycles (job_revision x t.revisions job)

unfoldable pub run_incident_job : JobRun → Tables → Claimed → JobResult × Tables
run_incident_job x t job = unless_locked x.lock_conflict x t job

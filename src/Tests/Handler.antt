-- ===== src/Tests/Handler.antt =====
-- A concrete run of webhook/job_handler.py.
use incident_agent.Common.{◌≡◌, ◌+◌, true, refl, none, some, [], ◌∷◌, find}
use incident_agent.Lifecycle.{
  analyzing, awaiting_analysis_review, completed, illegal_transition, validate_transition,
}
use incident_agent.Registry.{
  transition_error, get_lifecycle, status_of, transition_lifecycle, save, advance,
}
use incident_agent.JobHandler.{
  Course, finished, awaiting_review, handled, failed, registry_error, run_normalized_alert,
}
use incident_agent.JobHandler.Outcomes.{run_normalized_alert-new}
use incident_agent.Store.{reprocess}
use incident_agent.Store.Claim.{Claimed}
use incident_agent.Revisions.{
  create_revision_once, ensure_head, max_revision, is_stale, new_revision,
}
use incident_agent.JobHandler.Job.{Tables, JobRun, answered, finished_run, run_incident_job}
use incident_agent.JobHandler.Retried.{Request, revision_of, allocate_all, run_incident_job_again}

abbrev quiet : Course
quiet = record { between = λ k rows. rows; now = λ k. 10 + k; has_alertname = true }

run_normalized_alert-new_example :
    ((run_normalized_alert quiet [] "INC-1" awaiting_review).0 ≡ handled awaiting_review)
    × (status_of (get_lifecycle (run_normalized_alert quiet [] "INC-1" awaiting_review).1 "INC-1")
        ≡ some awaiting_analysis_review)
    × ((run_normalized_alert quiet [] "INC-1" finished).0
        ≡ failed
            (registry_error (transition_error (illegal_transition (some analyzing) completed))))
    × (status_of (get_lifecycle (run_normalized_alert quiet [] "INC-1" finished).1 "INC-1")
        ≡ some analyzing)
run_normalized_alert-new_example =
    run_normalized_alert-new quiet [] "INC-1" (unfold get_lifecycle find in refl) (λ k rs. refl)
      refl

abbrev firing : JobRun
firing = record {
  complete_run_context = λ text. text;
  status_of_payload = λ text. some "firing";
  incident_of_payload = λ text. some "INC-1";
  lock_conflict = none;
  between = λ rows. rows;
  ran = λ revision. awaiting_review;
  created_at = 10;
  now = 11;
  course = quiet;
}

abbrev leased : Claimed
leased = record {
  job_id = 7;
  incident_id = "INC-1";
  event_id = 3;
  kind = reprocess;
  attempt_count = 1;
  payload = "{}";
  run_context = "{}";
}

abbrev no_tables : Tables
no_tables = record { revisions = record { revisions = []; heads = [] }; lifecycles = [] }

abbrev other_writer : Request
other_writer = record {
  incident_id = "INC-1";
  reason = "manual";
  expected_revision = none;
  run_context = "{}";
  job_id = none;
  now = 12;
}

-- The first run of the job answers with revision 1.
first_run : (run_incident_job firing no_tables leased).0 ≡ answered (finished_run 1 awaiting_review)
unfolding run_incident_job run_normalized_alert create_revision_once ensure_head max_revision
    is_stale new_revision find get_lifecycle transition_lifecycle validate_transition save advance
first_run = refl

run_incident_job_again_example :
    let (first, t1) = run_incident_job firing no_tables leased in
    let t2 : Tables = record {
      revisions = allocate_all (other_writer ∷ []) t1.revisions;
      lifecycles = [];
    } in
    let (second, t3) = run_incident_job (record firing { created_at = 20; now = 21 }) t2 leased in
    (revision_of second ≡ revision_of first) × (t3.revisions.revisions ≡ t2.revisions.revisions)
run_incident_job_again_example =
    run_incident_job_again firing (record firing { created_at = 20; now = 21 }) no_tables leased
      (other_writer ∷ []) [] refl refl

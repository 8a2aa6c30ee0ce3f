-- ===== src/Tests/Snapshots.antt =====
-- A snapshot of an analysis that is recorded twice, and approved.
use incident_agent.Common.{◌≡◌, refl, Bool, true, none, some, [], ◌∷◌, find, select}
use incident_agent.Evidence.{EvidenceRecord}
use incident_agent.Evidence.Analysis.{
  Snapshot, AnalysisDb, Recording, recorded, record_analysis_revision, get_analysis_revision,
  snapshot_of, validate_analysis_evidence, list_evidence_records, join_records, all_stored,
  all_expected, all_valid,
}
use incident_agent.Evidence.Snapshots.{record_analysis_revision_again, IsIntact}
use incident_agent.Decisions.{
  DecisionDb, Result, ok, check, new_decision, record_decision, record_review_decision,
}
use incident_agent.Decisions.Intact.{record_review_decision-IsIntact}
use incident_agent.Pending.{add_pending, next_pending, save_pending}
use incident_agent.Registry.{is_stale}
use incident_agent.Sync.{State, SyncDb, sync_registry}
use incident_agent.Sync.Synced.{AfterSync, sync_registry-AfterSync}
use incident_agent.Tests.Documents.{cpu_at, no_evidence, one_version, first_version}
use incident_agent.Tests.Queue.{env}
use incident_agent.Tests.Reviews.{texts, snapshots, waiting, undecided, approval, first_answer}

abbrev before : AnalysisDb
before = record { evidence = no_evidence; snapshots = [] }

abbrev recording : Recording
recording = record {
  incident_id = "INC-1";
  revision = 1;
  event_id = some 1;
  graph_evidence_ids = [];
  evidence_items = cpu_at "90%" ∷ [];
  candidates = "[]";
  summary = "{}";
  run_context = "{}";
}

abbrev snapshot : Snapshot
snapshot = record {
  incident_id = "INC-1";
  revision = 1;
  previous_revision = none;
  event_id = some 1;
  evidence_ids = "cpu" ∷ [];
  candidate_snapshot = "[]";
  state_summary = "{}";
  run_context = "{}";
  created_at = 10;
}

abbrev after : AnalysisDb
after = record { evidence = one_version; snapshots = snapshot ∷ [] }

first_recorded :
    record_analysis_revision before (some none) recording 10 ≡ (recorded snapshot, after)
unfolding record_analysis_revision get_analysis_revision find snapshot_of
first_recorded = rw first_version refl

record_analysis_revision_again_example :
    (get_analysis_revision after "INC-1" 1 ≡ some snapshot)
    × (record_analysis_revision after none (record recording { summary = "other" }) 20
        ≡ (recorded snapshot, after))
record_analysis_revision_again_example =
    record_analysis_revision_again before (some none) recording 10 snapshot after first_recorded
      none (record recording { summary = "other" }) 20 refl refl refl

abbrev any_valid : EvidenceRecord → Bool
any_valid r = true

abbrev approved : Result × DecisionDb
approved =
    record_review_decision env texts (validate_analysis_evidence any_valid after) snapshots waiting
      true undecided approval 20

approval_stands : approved ≡ (ok first_answer, approved.1)
unfolding record_review_decision check find record_decision new_decision add_pending next_pending
    save_pending is_stale validate_analysis_evidence list_evidence_records join_records select
    get_analysis_revision all_stored all_expected all_valid
approval_stands = refl

record_review_decision-IsIntact_example : IsIntact any_valid after "INC-1" 1
record_review_decision-IsIntact_example =
    record_review_decision-IsIntact any_valid after env texts snapshots waiting true undecided
      approval 20 first_answer approved.1 approval_stands refl 1 refl

-- The incident awaits its review, and no evidence has been stored before.
abbrev state : State
state = record {
  thread_id = "INC-1";
  recording = some recording;
  allocated = some none;
  awaits_review = true;
  review = λ db. "review";
  expected_pending_version = none;
}

abbrev unsynced : SyncDb
unsynced = record { analyses = before; pendings = [] }

sync_registry-AfterSync_example :
    AfterSync any_valid state 10 [] (sync_registry any_valid unsynced state 10)
sync_registry-AfterSync_example = sync_registry-AfterSync any_valid state 10 unsynced

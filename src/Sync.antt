-- ===== src/Sync.antt =====
-- webhook/state_sync.py: sync_registry, over the analysis snapshots, the evidence and the pending
-- reviews. The content of the pending review is the text that the caller's state makes.
pub mod Synced
use incident_agent.Common.{
  ℕ, String, Bool, true, false, ◌&&◌, ◌||◌, not, Option, none, some, List, if◌then◌else◌,
}
use incident_agent.Registry.{Result, ok, err}
use incident_agent.Pending.{PendingData, Pending, add_pending, remove_pending}
use incident_agent.Evidence.{EvidenceRecord, Error}
use incident_agent.Evidence.Analysis.{
  Snapshot, AnalysisDb, Recording, Recorded, recorded, membership_differs, integrity_error,
  record_analysis_revision, get_analysis_revision, validate_analysis_evidence,
}

-- What is synced: the snapshot of an analysis revision, if there is one, with the predecessor that
-- was allocated to it, and the review that is awaited or not. `review` may depend on the snapshot,
-- as the difference between the revisions does.
pub record State : Type 0 where
  pub thread_id : String
  pub recording : Option Recording
  pub allocated : Option (Option ℕ)
  pub awaits_review : Bool
  pub review : AnalysisDb → String
  pub expected_pending_version : Option ℕ

pub record SyncDb : Type 0 where
  pub analyses : AnalysisDb
  pub pendings : List Pending

pub data Answer : Type 0 where
  synced : Answer
  membership_error : Answer
  append_error : Error → Answer
  evidence_error : Answer
  registry_error : incident_agent.Registry.Error → Answer

-- The previous snapshot is validated too, where it is there.
abbrev pub previous_valid : (EvidenceRecord → Bool) → AnalysisDb → String → Option ℕ → Bool
previous_valid valid db incident_id none = true
previous_valid valid db incident_id (some n) = elim (get_analysis_revision db incident_id n) [
  | none ↦ true
  | some s ↦ validate_analysis_evidence valid db incident_id n
]

-- What get_analysis_revision_diff validates before it compares.
unfoldable pub diff_passes : (EvidenceRecord → Bool) → AnalysisDb → String → ℕ → Option ℕ → Bool
diff_passes valid db incident_id revision previous =
    validate_analysis_evidence valid db incident_id revision
    && previous_valid valid db incident_id previous

abbrev pub of_pending_result {ℓ} :
    {A : Type ℓ} → AnalysisDb → Result A × List Pending → Answer × SyncDb
of_pending_result analyses (ok a, rows) = (synced, record { analyses = analyses; pendings = rows })
of_pending_result analyses (err e, rows) =
    (registry_error e, record { analyses = analyses; pendings = rows })

abbrev pub sync_awaited : AnalysisDb → List Pending → State → ℕ → Bool → Answer × SyncDb
sync_awaited analyses rows x now true =
    of_pending_result analyses
      (add_pending rows x.thread_id (x.review analyses) x.expected_pending_version now)
sync_awaited analyses rows x now false =
    of_pending_result analyses (remove_pending rows x.thread_id x.expected_pending_version)

unfoldable pub sync_pending : AnalysisDb → List Pending → State → ℕ → Answer × SyncDb
sync_pending analyses rows x now = sync_awaited analyses rows x now x.awaits_review

abbrev pub after_record :
    (EvidenceRecord → Bool)
    → List Pending
    → State
    → Recording
    → ℕ
    → Recorded × AnalysisDb
    → Answer × SyncDb
after_record valid rows x r now (membership_differs, analyses) =
    (membership_error, record { analyses = analyses; pendings = rows })
after_record valid rows x r now (integrity_error e, analyses) =
    (append_error e, record { analyses = analyses; pendings = rows })
after_record valid rows x r now (recorded s, analyses) =
    if diff_passes valid analyses x.thread_id r.revision s.previous_revision
    then sync_pending analyses rows x now
    else (evidence_error, record { analyses = analyses; pendings = rows })

-- The snapshot is that of the incident that is synced.
abbrev pub for_thread : State → Recording → Recording
for_thread x r = record r { incident_id = x.thread_id }

abbrev pub sync_recording :
    (EvidenceRecord → Bool) → SyncDb → State → ℕ → Option Recording → Answer × SyncDb
sync_recording valid db x now none = sync_pending db.analyses db.pendings x now
sync_recording valid db x now (some r) =
    after_record valid db.pendings x r now
      (record_analysis_revision db.analyses x.allocated (for_thread x r) now)

unfoldable pub sync_registry : (EvidenceRecord → Bool) → SyncDb → State → ℕ → Answer × SyncDb
sync_registry valid db x now = sync_recording valid db x now x.recording

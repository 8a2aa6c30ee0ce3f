-- ===== src/Decisions/Intact.antt =====
-- An approval stands on evidence that has been validated.
use incident_agent.Common.{ℕ, ◌≡◌, ap, ◌∙◌, sym, Bool, true, some, List, str_eq}
use incident_agent.Store.{Env}
use incident_agent.Pending.{Pending}
use incident_agent.Evidence.{EvidenceRecord}
use incident_agent.Evidence.Analysis.{AnalysisDb, validate_analysis_evidence}
use incident_agent.Evidence.Snapshots.{IsIntact, validate_analysis_evidence-IsIntact}
use incident_agent.Decisions.{
  Snapshot, Review, Texts, DecisionDb, Answer, ok, has_evidence, record_review_decision,
}
use incident_agent.Decisions.Once.{record_review_decision-approved}

-- An approval of a revision, answered with the evidence of the store validated, is of a revision
-- whose snapshot is there: each of its evidence ids has a valid record that the revision is linked
-- to, and no linked record is unexpected or invalid.
pub record_review_decision-IsIntact :
    (valid : EvidenceRecord → Bool) (evidence : AnalysisDb) (env : Env) (t : Texts)
    (snapshots : List Snapshot) (pendings : List Pending) (enforce_pending : Bool) (db : DecisionDb)
    (r : Review) (now : ℕ) (x : Answer) (db' : DecisionDb)
    → record_review_decision env t
        (validate_analysis_evidence valid evidence)
        snapshots
        pendings
        enforce_pending
        db
        r
        now
      ≡ (ok x, db')
    → str_eq r.decision "approved" ≡ true
    → (n : ℕ) → r.analysis_revision ≡ some n
    → IsIntact valid evidence r.incident_id n
record_review_decision-IsIntact valid evidence env t snapshots pendings enforce db r now x db' h a n
      e =
    let intact = validate_analysis_evidence valid evidence in
    let found =
      record_review_decision-approved env t intact snapshots pendings enforce db r now x db' h a in
    validate_analysis_evidence-IsIntact valid evidence r.incident_id n
      (sym (ap (has_evidence intact r.incident_id) e) ∙ found.0)

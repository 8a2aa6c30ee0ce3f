-- ===== src/Tests/Reviews.antt =====
-- Concrete runs of record_review_decision in webhook/incident_store.py.
use incident_agent.Common.{
  ℕ, String, ◌≡◌, ◌⊎◌, refl, Bool, true, false, none, some, List, [], ◌∷◌, arith, find, count,
}
use incident_agent.Pending.{Pending, add_pending, next_pending, save_pending}
use incident_agent.Registry.{is_stale}
use incident_agent.Decisions.{
  Error, err, Snapshot, Review, Texts, DecisionDb, Answer, Result, ok, check, new_decision,
  record_decision, record_review_decision,
}
use incident_agent.Decisions.Once.{IsDecidedOnce, record_review_decision-IsDecidedOnce}
use incident_agent.Decisions.Approved.{IsGrounded, record_review_decision-IsGrounded}
use incident_agent.Tests.Queue.{env}

abbrev pub texts : Texts
texts = record { strip = λ s. s; dumps = λ r. r.decision }

abbrev intact : String → ℕ → Bool
intact incident_id revision = true

abbrev pub snapshots : List Snapshot
snapshots =
    record {
      incident_id = "INC-1";
      revision = 1;
      evidence_ids = "cpu" ∷ [];
      candidates = "1" ∷ "2" ∷ [];
    }
    ∷ []

abbrev pub approval : Review
approval = record {
  incident_id = "INC-1";
  pending_revision = 1;
  decision = "approved";
  reviewer_identity = "ann";
  rationale = "";
  request_id = none;
  selected_hypothesis = some "2";
  analysis_revision = some 1;
  candidate_snapshot = [];
  displayed_evidence_ids = [];
}

abbrev pub undecided : DecisionDb
undecided = record { decisions = []; next_decision_id = 1 }

abbrev pub waiting : List Pending
waiting = (add_pending [] "INC-1" "review" none 10).1

undecided-IsDecidedOnce : IsDecidedOnce undecided
unfolding IsDecidedOnce
undecided-IsDecidedOnce i v = unfold count in omega arith

record_review_decision-IsDecidedOnce_example :
    IsDecidedOnce
      (record_review_decision env texts intact snapshots waiting true undecided approval 20).1
record_review_decision-IsDecidedOnce_example =
    record_review_decision-IsDecidedOnce env texts intact snapshots waiting undecided approval 20
      undecided-IsDecidedOnce

abbrev approved : Result × DecisionDb
approved = record_review_decision env texts intact snapshots waiting true undecided approval 20

abbrev pub first_answer : Answer
first_answer = record {
  decision_id = 1;
  created_at = 20;
  displayed_evidence_ids = "cpu" ∷ [];
  deduplicated = false;
}

approval_answered : approved ≡ (ok first_answer, approved.1)
unfolding record_review_decision check find record_decision new_decision add_pending next_pending
    save_pending is_stale
approval_answered = refl

record_review_decision-IsGrounded_example :
    ((a : Answer) × (approved.0 ≡ ok a) × IsGrounded intact snapshots approval)
    ⊎ ((e : Error) × (approved.0 ≡ err e) × (approved.1 ≡ undecided))
record_review_decision-IsGrounded_example =
    record_review_decision-IsGrounded env texts intact snapshots waiting true undecided approval 20
      refl

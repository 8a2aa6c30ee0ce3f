-- ===== src/Decisions.antt =====
-- webhook/incident_store.py: record_review_decision, the append-only decisions of reviewers. The
-- function takes the tables that it reads, and returns its result with the table of decisions
-- that its transaction leaves behind.
pub mod Once
pub mod Intact
pub mod Approved
use Prim.Native.String.{slice}
use incident_agent.Common.{
  ℕ, zero, suc, ◌+◌, String, Bool, true, false, ◌&&◌, ◌||◌, not, Option, none, some, List, [], ◌∷◌,
  ◌++◌, str_eq, ◌==◌, find, if◌then◌else◌, is_some,
}
use incident_agent.Store.{Env}
use incident_agent.Pending.{Pending, of_thread}

-- What record_review_decision reads of an analysis revision: its evidence, and str(rank) of each
-- candidate that is a dictionary.
pub record Snapshot : Type 0 where
  pub incident_id : String
  pub revision : ℕ
  pub evidence_ids : List String
  pub candidates : List String

-- The arguments; the lists are None where they are empty.
pub record Review : Type 0 where
  pub incident_id : String
  pub pending_revision : ℕ
  pub decision : String
  pub reviewer_identity : String
  pub rationale : String
  pub request_id : Option String
  pub selected_hypothesis : Option String
  pub analysis_revision : Option ℕ
  pub candidate_snapshot : List String
  pub displayed_evidence_ids : List String

-- `str.strip` and json.dumps of the seven values of the key, of Python's library.
pub record Texts : Type 0 where
  pub strip : String → String
  pub dumps : Review → String

-- incident_review_decisions
pub record Decision : Type 0 where
  pub decision_id : ℕ
  pub decision_key : String
  pub incident_id : String
  pub analysis_revision : Option ℕ
  pub pending_revision : ℕ
  pub reviewer_identity : String
  pub decision : String
  pub selected_hypothesis : Option String
  pub displayed_evidence_ids : List String
  pub rationale : String
  pub request_id : Option String
  pub created_at : ℕ

pub record DecisionDb : Type 0 where
  pub decisions : List Decision
  pub next_decision_id : ℕ

pub data Error : Type 0 where
  value_error : String → Error
  evidence_integrity : Error

pub record Answer : Type 0 where
  pub decision_id : ℕ
  pub created_at : ℕ
  pub displayed_evidence_ids : List String
  pub deduplicated : Bool

pub data Result : Type 0 where
  ok : Answer → Result
  err : Error → Result

abbrev pub is_decision : String → Bool
is_decision d = str_eq d "approved" || (str_eq d "rejected" || str_eq d "request_more_evidence")

abbrev pub snapshot_at : String → ℕ → Snapshot → Bool
snapshot_at incident_id revision s = str_eq s.incident_id incident_id && (s.revision == revision)

-- `get_analysis_revision(...) if analysis_revision else None`
abbrev pub snapshot_of : List Snapshot → String → Option ℕ → Option Snapshot
snapshot_of snapshots incident_id none = none
snapshot_of snapshots incident_id (some zero) = none
snapshot_of snapshots incident_id (some (suc n)) = find (snapshot_at incident_id (suc n)) snapshots

abbrev pub evidence_of : Option Snapshot → Review → List String
evidence_of none r = r.displayed_evidence_ids
evidence_of (some s) r = s.evidence_ids

abbrev pub permitted : Option Snapshot → Review → List String
permitted none r = r.candidate_snapshot
permitted (some s) r = s.candidates

-- `selected and selected in permitted`
abbrev pub is_permitted : Option String → List String → Bool
is_permitted none ranks = false
is_permitted (some s) ranks = not (str_eq s "") && is_some (find (λ x. str_eq x s) ranks)

-- The verdict of validate_analysis_evidence, asked where a revision is given.
abbrev pub has_evidence : (String → ℕ → Bool) → String → Option ℕ → Bool
has_evidence intact incident_id none = true
has_evidence intact incident_id (some revision) = intact incident_id revision

-- The checks before the transaction.
unfoldable pub check : Texts → (String → ℕ → Bool) → List Snapshot → Review → Option Error
check t intact snapshots r =
    let snapshot = snapshot_of snapshots r.incident_id r.analysis_revision in
    if not (is_decision r.decision)
    then some (value_error "invalid review decision")
    else if str_eq r.decision "request_more_evidence" && str_eq (t.strip r.rationale) ""
    then some (value_error "request_more_evidence requires rationale")
    else if str_eq r.decision "approved"
        && not (has_evidence intact r.incident_id r.analysis_revision)
    then some evidence_integrity
    else if str_eq r.decision "approved"
        && not (is_permitted r.selected_hypothesis (permitted snapshot r))
    then some (value_error "selected hypothesis is not present in the reviewed analysis revision")
    else none

abbrev pub stored_request : Option String → Option String
stored_request none = none
stored_request (some s) = if str_eq s "" then none else some (slice s 0 128)

unfoldable pub new_decision : Env → Texts → DecisionDb → Review → List String → ℕ → Decision
new_decision env t db r evidence_ids now = record {
  decision_id = db.next_decision_id;
  decision_key = env.sha256 (t.dumps r);
  incident_id = r.incident_id;
  analysis_revision = r.analysis_revision;
  pending_revision = r.pending_revision;
  reviewer_identity = slice r.reviewer_identity 0 255;
  decision = r.decision;
  selected_hypothesis = r.selected_hypothesis;
  displayed_evidence_ids = evidence_ids;
  rationale = slice r.rationale 0 2000;
  request_id = stored_request r.request_id;
  created_at = now;
}

abbrev pub with_decision_key : String → Decision → Bool
with_decision_key key d = str_eq d.decision_key key

abbrev pub of_pending : String → ℕ → Decision → Bool
of_pending incident_id pending_revision d =
    str_eq d.incident_id incident_id && (d.pending_revision == pending_revision)

abbrev pub answer : Decision → List String → Bool → Result
answer d evidence_ids deduplicated = ok (record {
  decision_id = d.decision_id;
  created_at = d.created_at;
  displayed_evidence_ids = evidence_ids;
  deduplicated = deduplicated;
})

-- INSERT ... ON DUPLICATE KEY UPDATE, and the row of the key.
abbrev pub insert_decision :
    Option Decision → DecisionDb → Decision → List String → Result × DecisionDb
insert_decision (some d) db new evidence_ids = (answer d evidence_ids false, db)
insert_decision none db new evidence_ids = (
  answer new evidence_ids false,
  record { decisions = db.decisions ++ new ∷ []; next_decision_id = suc db.next_decision_id },
)

-- `prior`, the first decision of the pending revision.
abbrev pub after_prior : Option Decision → DecisionDb → Decision → List String → Result × DecisionDb
after_prior (some d) db new evidence_ids =
    if str_eq d.decision_key new.decision_key
    then (answer d evidence_ids true, db)
    else (err (value_error "pending review revision was already decided"), db)
after_prior none db new evidence_ids =
    insert_decision (find (with_decision_key new.decision_key) db.decisions) db new evidence_ids

abbrev pub is_pending_at : ℕ → Option Pending → Bool
is_pending_at version none = false
is_pending_at version (some p) = p.version == version

unfoldable pub record_decision :
    List Pending → Bool → DecisionDb → Decision → List String → Result × DecisionDb
record_decision pendings enforce_pending db new evidence_ids =
    if enforce_pending
    then (if is_pending_at new.pending_revision (find (of_thread new.incident_id) pendings)
        then after_prior (find (of_pending new.incident_id new.pending_revision) db.decisions) db
            new evidence_ids
        else (err (value_error "stale pending-review version"), db))
    else insert_decision (find (with_decision_key new.decision_key) db.decisions) db new
        evidence_ids

abbrev pub after_check : Option Error → Result × DecisionDb → DecisionDb → Result × DecisionDb
after_check (some e) recorded db = (err e, db)
after_check none recorded db = recorded

unfoldable pub record_review_decision :
    Env
    → Texts
    → (String → ℕ → Bool)
    → List Snapshot
    → List Pending
    → Bool
    → DecisionDb
    → Review
    → ℕ
    → Result × DecisionDb
record_review_decision env t intact snapshots pendings enforce_pending db r now =
    let evidence_ids = evidence_of (snapshot_of snapshots r.incident_id r.analysis_revision) r in
    after_check (check t intact snapshots r)
      (record_decision pendings enforce_pending db (new_decision env t db r evidence_ids now)
        evidence_ids)
      db

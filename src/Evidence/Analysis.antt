-- ===== src/Evidence/Analysis.antt =====
-- webhook/incident_store.py: record_analysis_revision, get_analysis_revision, list_evidence_records
-- for a revision and validate_analysis_evidence. The canonical items are given, sorted and without
-- duplicates, as are the texts of the snapshot's columns.
use incident_agent.Common.{
  ℕ, String, Bool, true, false, ◌&&◌, not, Option, none, some, List, [], ◌∷◌, ◌++◌, map, str_eq,
  ◌==◌, ltb, find, select, is_some, if◌then◌else◌,
}
use incident_agent.Investigation.{is_empty}
use incident_agent.Evidence.{
  Item, EvidenceRecord, Link, EvidenceDb, Error, append_analysis_evidence,
}

-- incident_analysis_revisions; the JSON columns but evidence_ids are texts.
pub record Snapshot : Type 0 where
  pub incident_id : String
  pub revision : ℕ
  pub previous_revision : Option ℕ
  pub event_id : Option ℕ
  pub evidence_ids : List String
  pub candidate_snapshot : String
  pub state_summary : String
  pub run_context : String
  pub created_at : ℕ

pub record AnalysisDb : Type 0 where
  pub evidence : EvidenceDb
  pub snapshots : List Snapshot

-- What the function reads of the state, and its other arguments.
pub record Recording : Type 0 where
  pub incident_id : String
  pub revision : ℕ
  pub event_id : Option ℕ
  pub graph_evidence_ids : List String
  pub evidence_items : List Item
  pub candidates : String
  pub summary : String
  pub run_context : String

pub data Recorded : Type 0 where
  recorded : Snapshot → Recorded
  membership_differs : Recorded
  integrity_error : Error → Recorded

abbrev pub of_revision : String → ℕ → Snapshot → Bool
of_revision incident_id revision s = str_eq s.incident_id incident_id && s.revision == revision

unfoldable pub get_analysis_revision : AnalysisDb → String → ℕ → Option Snapshot
get_analysis_revision db incident_id revision = find (of_revision incident_id revision) db.snapshots

unfoldable pub same_ids : List String → List String → Bool
same_ids [] [] = true
same_ids [] (y ∷ ys) = false
same_ids (x ∷ xs) [] = false
same_ids (x ∷ xs) (y ∷ ys) = str_eq x y && same_ids xs ys

abbrev pub ids_of : List Item → List String
ids_of items = map (λ i. i.evidence_id) items

-- `graph_evidence_ids and graph_evidence_ids != evidence_ids`
abbrev pub differs : Recording → Bool
differs x =
    not (is_empty x.graph_evidence_ids)
    && not (same_ids x.graph_evidence_ids (ids_of x.evidence_items))

abbrev pub later_of : ℕ → Option ℕ → ℕ
later_of n none = n
later_of n (some m) = if ltb n m then m else n

-- SELECT revision ... WHERE revision<%s ORDER BY revision DESC LIMIT 1
unfoldable pub last_before : String → ℕ → List Snapshot → Option ℕ
last_before incident_id revision [] = none
last_before incident_id revision (s ∷ ss) =
    let rest = last_before incident_id revision ss in
    if str_eq s.incident_id incident_id && ltb s.revision revision
    then some (later_of s.revision rest)
    else rest

-- The predecessor that was allocated before the analysis, or else the newest earlier snapshot.
abbrev pub previous_of : Option (Option ℕ) → String → ℕ → List Snapshot → Option ℕ
previous_of (some allocated) incident_id revision ss = allocated
previous_of none incident_id revision ss = last_before incident_id revision ss

unfoldable pub snapshot_of : AnalysisDb → Option (Option ℕ) → Recording → ℕ → Snapshot
snapshot_of db allocated x now = record {
  incident_id = x.incident_id;
  revision = x.revision;
  previous_revision = previous_of allocated x.incident_id x.revision db.snapshots;
  event_id = x.event_id;
  evidence_ids = ids_of x.evidence_items;
  candidate_snapshot = x.candidates;
  state_summary = x.summary;
  run_context = x.run_context;
  created_at = now;
}

abbrev pub after_append :
    AnalysisDb → Snapshot → incident_agent.Evidence.Result → Recorded × AnalysisDb
after_append db s (incident_agent.Evidence.err e) = (integrity_error e, db)
after_append db s (incident_agent.Evidence.ok evidence) =
    (recorded s, record { evidence = evidence; snapshots = db.snapshots ++ s ∷ [] })

abbrev pub record_after :
    AnalysisDb → Option (Option ℕ) → Recording → ℕ → Option Snapshot → Recorded × AnalysisDb
record_after db allocated x now (some s) = (recorded s, db)
record_after db allocated x now none =
    after_append db (snapshot_of db allocated x now)
      (append_analysis_evidence db.evidence x.incident_id x.revision x.evidence_items now)

-- `allocated` is the predecessor in the row of incident_revisions, if the row is there.
unfoldable pub record_analysis_revision :
    AnalysisDb → Option (Option ℕ) → Recording → ℕ → Recorded × AnalysisDb
record_analysis_revision db allocated x now =
    if differs x
    then (membership_differs, db)
    else record_after db allocated x now (get_analysis_revision db x.incident_id x.revision)

abbrev pub of_link_revision : String → ℕ → Link → Bool
of_link_revision incident_id revision l =
    str_eq l.incident_id incident_id && l.analysis_revision == revision

abbrev pub has_record_id : ℕ → EvidenceRecord → Bool
has_record_id id r = r.evidence_record_id == id

-- JOIN incident_evidence_records r ON r.evidence_record_id=m.evidence_record_id
unfoldable pub join_records : List Link → List EvidenceRecord → List EvidenceRecord
join_records [] records = []
join_records (l ∷ ls) records =
    select (has_record_id l.evidence_record_id) records ++ join_records ls records

unfoldable pub list_evidence_records : AnalysisDb → String → ℕ → List EvidenceRecord
list_evidence_records db incident_id revision =
    join_records (select (of_link_revision incident_id revision) db.evidence.links)
      db.evidence.records

abbrev pub has_evidence_id : String → EvidenceRecord → Bool
has_evidence_id id r = str_eq r.evidence_id id

abbrev pub is_id : String → String → Bool
is_id id x = str_eq x id

-- `expected <= actual`
unfoldable pub all_stored : List String → List EvidenceRecord → Bool
all_stored [] records = true
all_stored (id ∷ ids) records =
    let rest = all_stored ids records in is_some (find (has_evidence_id id) records) && rest

-- `actual <= expected`
unfoldable pub all_expected : List EvidenceRecord → List String → Bool
all_expected [] ids = true
all_expected (r ∷ rs) ids =
    let rest = all_expected rs ids in is_some (find (is_id r.evidence_id) ids) && rest

-- No record is invalid.
unfoldable pub all_valid : (EvidenceRecord → Bool) → List EvidenceRecord → Bool
all_valid valid [] = true
all_valid valid (r ∷ rs) = let rest = all_valid valid rs in valid r && rest

abbrev pub validate_found : (EvidenceRecord → Bool) → List EvidenceRecord → Option Snapshot → Bool
validate_found valid records none = false
validate_found valid records (some s) =
    all_stored s.evidence_ids records
    && (all_expected records s.evidence_ids && all_valid valid records)

-- Whether the validation passes; it raises an EvidenceIntegrityError where it does not. `valid` is
-- `integrity_valid`: the digest of the payload and its envelope.
unfoldable pub validate_analysis_evidence : (EvidenceRecord → Bool) → AnalysisDb → String → ℕ → Bool
validate_analysis_evidence valid db incident_id revision =
    validate_found valid (list_evidence_records db incident_id revision)
      (get_analysis_revision db incident_id revision)

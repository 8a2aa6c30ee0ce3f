-- ===== src/Evidence.antt =====
-- webhook/incident_store.py: _append_analysis_evidence, the versions of the evidence and their links
-- to analysis revisions. A function takes the two tables with the AUTO_INCREMENT counter, and
-- returns the tables that its statements leave, or the error for which the transaction is rolled
-- back.
pub mod History
pub mod Links
pub mod Analysis
pub mod Snapshots
use mathlib.Core.Option
use incident_agent.Common.{
  ℕ, suc, ◌+◌, String, Bool, true, false, ◌&&◌, ◌||◌, not, Option, none, some, List, [], ◌∷◌, ◌++◌,
  str_eq, ◌==◌, select, count, newest, version_or_zero, if◌then◌else◌,
}

-- An item of _canonical_evidence_items, its payload as the text that _json makes of it.
pub record Item : Type 0 where
  pub evidence_id : String
  pub evidence_type : String
  pub content_sha256 : String
  pub payload : String

-- incident_evidence_records
pub record EvidenceRecord : Type 0 where
  pub evidence_record_id : ℕ
  pub incident_id : String
  pub evidence_id : String
  pub evidence_type : String
  pub version : ℕ
  pub content_sha256 : String
  pub payload : String
  pub supersedes_record_id : Option ℕ
  pub first_analysis_revision : ℕ
  pub created_at : ℕ

-- incident_analysis_evidence
pub record Link : Type 0 where
  pub incident_id : String
  pub analysis_revision : ℕ
  pub evidence_id : String
  pub evidence_record_id : ℕ

pub record EvidenceDb : Type 0 where
  pub records : List EvidenceRecord
  pub links : List Link
  pub next_record_id : ℕ

-- The unique keys whose violation is an IntegrityError.
pub data Error : Type 0 where
  incident_evidence_version incident_evidence_content analysis_evidence_primary : Error

pub data Result : Type 0 where
  ok : EvidenceDb → Result
  err : Error → Result

abbrev pub of_evidence : String → String → EvidenceRecord → Bool
of_evidence incident_id evidence_id r =
    str_eq r.incident_id incident_id && str_eq r.evidence_id evidence_id

abbrev pub versions_of : String → String → EvidenceDb → List EvidenceRecord
versions_of incident_id evidence_id db = select (of_evidence incident_id evidence_id) db.records

abbrev pub newest_record : List EvidenceRecord → Option EvidenceRecord
newest_record = newest (λ r. r.version) (λ r. r.evidence_record_id) (λ r. r.supersedes_record_id)

abbrev pub record_version : Option EvidenceRecord → ℕ
record_version =
    version_or_zero (λ r. r.version) (λ r. r.evidence_record_id) (λ r. r.supersedes_record_id)

-- UNIQUE KEY incident_evidence_version
abbrev pub same_version : EvidenceRecord → EvidenceRecord → Bool
same_version new r = of_evidence new.incident_id new.evidence_id r && r.version == new.version

-- UNIQUE KEY incident_evidence_content
abbrev pub same_content : EvidenceRecord → EvidenceRecord → Bool
same_content new r =
    of_evidence new.incident_id new.evidence_id r && str_eq r.content_sha256 new.content_sha256

-- PRIMARY KEY (incident_id,analysis_revision,evidence_id)
abbrev pub same_link : Link → Link → Bool
same_link new l =
    str_eq l.incident_id new.incident_id
    && (l.analysis_revision == new.analysis_revision && str_eq l.evidence_id new.evidence_id)

unfoldable pub new_record :
    EvidenceDb → String → ℕ → Item → Option EvidenceRecord → ℕ → EvidenceRecord
new_record db incident_id revision item previous now = record {
  evidence_record_id = db.next_record_id;
  incident_id = incident_id;
  evidence_id = item.evidence_id;
  evidence_type = item.evidence_type;
  version = record_version previous + 1;
  content_sha256 = item.content_sha256;
  payload = item.payload;
  supersedes_record_id = Option.map (λ r. r.evidence_record_id) previous;
  first_analysis_revision = revision;
  created_at = now;
}

abbrev pub add_record : EvidenceDb → EvidenceRecord → EvidenceDb
add_record db r = record db {
  records = db.records ++ r ∷ [];
  next_record_id = suc db.next_record_id;
}

unfoldable pub insert_record : EvidenceDb → EvidenceRecord → Result
insert_record db r =
    if not (count (same_version r) db.records == 0)
    then err incident_evidence_version
    else if not (count (same_content r) db.records == 0)
    then err incident_evidence_content
    else ok (add_record db r)

abbrev pub add_link : EvidenceDb → Link → EvidenceDb
add_link db l = record db { links = db.links ++ l ∷ [] }

unfoldable pub insert_link : EvidenceDb → Link → Result
insert_link db l =
    if not (count (same_link l) db.links == 0)
    then err analysis_evidence_primary
    else ok (add_link db l)

abbrev pub link_of : String → ℕ → Item → ℕ → Link
link_of incident_id revision item record_id = record {
  incident_id = incident_id;
  analysis_revision = revision;
  evidence_id = item.evidence_id;
  evidence_record_id = record_id;
}

-- `record_id = cur.lastrowid`, then the link.
abbrev pub then_link : String → ℕ → Item → ℕ → Result → Result
then_link incident_id revision item record_id (err e) = err e
then_link incident_id revision item record_id (ok db) =
    insert_link db (link_of incident_id revision item record_id)

abbrev pub append_after : EvidenceDb → String → ℕ → Item → ℕ → Option EvidenceRecord → Result
append_after db incident_id revision item now none =
    then_link incident_id revision item db.next_record_id
      (insert_record db (new_record db incident_id revision item none now))
append_after db incident_id revision item now (some previous) =
    if str_eq previous.content_sha256 item.content_sha256
    then insert_link db (link_of incident_id revision item previous.evidence_record_id)
    else then_link incident_id revision item db.next_record_id
        (insert_record db (new_record db incident_id revision item (some previous) now))

-- One round of the loop.
unfoldable pub append_item : EvidenceDb → String → ℕ → Item → ℕ → Result
append_item db incident_id revision item now =
    append_after db incident_id revision item now
      (newest_record (versions_of incident_id item.evidence_id db))

unfoldable pub append_analysis_evidence : EvidenceDb → String → ℕ → List Item → ℕ → Result
append_analysis_evidence db incident_id revision [] now = ok db
append_analysis_evidence db incident_id revision (item ∷ items) now =
    elim (append_item db incident_id revision item now) [
      | err e ↦ err e
      | ok db' ↦ append_analysis_evidence db' incident_id revision items now
    ]

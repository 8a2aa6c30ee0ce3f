-- ===== src/Evidence/Links.antt =====
-- What an analysis revision is linked to after its evidence has been appended.
use incident_agent.Common.{ℕ, String, ◌≡◌, Memᴰ}
use incident_agent.Evidence.{Item, EvidenceRecord, EvidenceDb, link_of}

-- The revision is linked to a record of the item's evidence that has the item's content.
pub record IsLinked (db : EvidenceDb) (incident_id : String) (revision : ℕ) (item : Item)
    : Type 0 where
  pub row : EvidenceRecord
  pub stored : Memᴰ row db.records
  pub evidence_id : row.evidence_id ≡ item.evidence_id
  pub content : row.content_sha256 ≡ item.content_sha256
  pub linked : Memᴰ (link_of incident_id revision item row.evidence_record_id) db.links

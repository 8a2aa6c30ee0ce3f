-- ===== src/Tests/Documents.antt =====
-- Concrete runs of the versions of drafts and evidence in webhook/incident_store.py.
use incident_agent.Common.{
  ℕ, String, ◌≡◌, refl, true, Option, none, some, [], ◌∷◌, select, count, newest, Memᴰ,
}
use incident_agent.Drafts.{DraftDb, record_postmortem_draft, drafts_of, new_draft}
use incident_agent.Drafts.History.{
  IsVersioned, IsNewest, IsDigested, record_postmortem_draft-idempotent,
}
use incident_agent.Drafts
use incident_agent.Evidence.{
  Item, EvidenceRecord, EvidenceDb, append_analysis_evidence, append_item, insert_record,
  insert_link, new_record, same_version,
}
use incident_agent.Evidence
use incident_agent.Evidence.History.{append_analysis_evidence-IsVersioned, append_item-reverted}
use incident_agent.Evidence.History
use incident_agent.Tests.Queue.{env}

abbrev no_drafts : DraftDb
no_drafts = record { drafts = []; next_draft_id = 1 }

no_drafts-IsVersioned : IsVersioned no_drafts
unfolding IsVersioned
no_drafts-IsVersioned i = unfold select in tt

record_postmortem_draft-idempotent_example :
    let (x, db) =
      record_postmortem_draft env no_drafts "INC-1" (some "text") none "generated" none 10 in
    (r : Drafts.Recorded) × (x ≡ Drafts.ok r)
    × IsNewest env db "INC-1" "text" r
    × IsDigested env db
    × (record_postmortem_draft env db "INC-1" (some "text") (some 2) "generated" (some "ann") 20 ≡ (
      Drafts.ok (record {
        draft_id = r.draft_id;
        incident_id = "INC-1";
        version = r.version;
        deduplicated = true;
      }),
      db,
    ))
record_postmortem_draft-idempotent_example =
    record_postmortem_draft-idempotent env no_drafts "INC-1" "text" none "generated" none 10 refl
      refl (some 2) (some "ann") 20 tt (unfold select in tt)

abbrev pub cpu_at : String → Item
cpu_at content = record {
  evidence_id = "cpu";
  evidence_type = "metric";
  content_sha256 = content;
  payload = content;
}

abbrev row : ℕ → ℕ → String → Option ℕ → EvidenceRecord
row id version content supersedes = record {
  evidence_record_id = id;
  incident_id = "INC-1";
  evidence_id = "cpu";
  evidence_type = "metric";
  version = version;
  content_sha256 = content;
  payload = content;
  supersedes_record_id = supersedes;
  first_analysis_revision = version;
  created_at = 10;
}

abbrev pub no_evidence : EvidenceDb
no_evidence = record { records = []; links = []; next_record_id = 1 }

abbrev link : ℕ → Evidence.Link
link n = record {
  incident_id = "INC-1";
  analysis_revision = n;
  evidence_id = "cpu";
  evidence_record_id = n;
}

abbrev pub one_version : EvidenceDb
one_version = record { records = row 1 1 "90%" none ∷ []; links = link 1 ∷ []; next_record_id = 2 }

abbrev two_versions : EvidenceDb
two_versions = record {
  records = row 1 1 "90%" none ∷ row 2 2 "20%" (some 1) ∷ [];
  links = link 1 ∷ link 2 ∷ [];
  next_record_id = 3;
}

pub first_version :
    append_analysis_evidence no_evidence "INC-1" 1 (cpu_at "90%" ∷ []) 10 ≡ Evidence.ok one_version
unfolding append_analysis_evidence append_item insert_record insert_link new_record select count
    newest
first_version = refl

no_evidence-IsVersioned : Evidence.History.IsVersioned no_evidence
unfolding Evidence.History.IsVersioned
no_evidence-IsVersioned i e = unfold select in tt

append_analysis_evidence-IsVersioned_example : Evidence.History.IsVersioned one_version
append_analysis_evidence-IsVersioned_example =
    append_analysis_evidence-IsVersioned no_evidence "INC-1" 1 (cpu_at "90%" ∷ []) 10 one_version
      first_version no_evidence-IsVersioned

append_item-reverted_example :
    append_analysis_evidence two_versions "INC-1" 3 (cpu_at "90%" ∷ []) 10
    ≡ Evidence.err Evidence.incident_evidence_content
append_item-reverted_example =
    append_item-reverted two_versions "INC-1" 3 (cpu_at "90%") 10 (row 1 1 "90%" none)
      (row 2 2 "20%" (some 1)) (unfold select newest in refl) refl (Memᴰ.head refl) refl refl refl
      (unfold count new_record in refl) []

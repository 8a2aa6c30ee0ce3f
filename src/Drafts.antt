-- ===== src/Drafts.antt =====
-- webhook/incident_store.py: record_postmortem_draft, the immutable versions of a post-mortem.
-- A function takes the table incident_postmortem_drafts with its AUTO_INCREMENT counter, and
-- returns its result with the table that its transaction leaves behind.
pub mod History
use Prim.Native.String.{slice}
use mathlib.Core.Option
use incident_agent.Common.{
  ℕ, suc, ◌+◌, String, Bool, true, false, ◌&&◌, ◌||◌, not, Option, none, some, List, [], ◌∷◌, ◌++◌,
  str_eq, select, newest, version_or_zero, if◌then◌else◌,
}
use incident_agent.Store.{Env}

pub record Draft : Type 0 where
  pub draft_id : ℕ
  pub incident_id : String
  pub analysis_revision : Option ℕ
  pub version : ℕ
  pub content : String
  pub content_sha256 : String
  pub source : String
  pub editor_identity : Option String
  pub supersedes_draft_id : Option ℕ
  pub created_at : ℕ

pub record DraftDb : Type 0 where
  pub drafts : List Draft
  pub next_draft_id : ℕ

pub data Error : Type 0 where
  value_error : String → Error

pub record Recorded : Type 0 where
  pub draft_id : ℕ
  pub incident_id : String
  pub version : ℕ
  pub deduplicated : Bool

pub data Result : Type 0 where
  ok : Recorded → Result
  err : Error → Result

abbrev pub of_incident : String → Draft → Bool
of_incident incident_id d = str_eq d.incident_id incident_id

-- The drafts of an incident.
abbrev pub drafts_of : String → DraftDb → List Draft
drafts_of incident_id db = select (of_incident incident_id) db.drafts

abbrev pub newest_draft : List Draft → Option Draft
newest_draft = newest (λ d. d.version) (λ d. d.draft_id) (λ d. d.supersedes_draft_id)

abbrev pub draft_version : Option Draft → ℕ
draft_version = version_or_zero (λ d. d.version) (λ d. d.draft_id) (λ d. d.supersedes_draft_id)

-- `str(content or "")`
abbrev pub text_of : Option String → String
text_of none = ""
text_of (some s) = s

-- `str(editor_identity)[:255] if editor_identity else None`
abbrev pub stored_identity : Option String → Option String
stored_identity none = none
stored_identity (some s) = if str_eq s "" then none else some (slice s 0 255)

abbrev pub is_source : String → Bool
is_source source = str_eq source "generated" || str_eq source "edited"

unfoldable pub new_draft :
    Env → DraftDb → String → String → Option ℕ → String → Option String → Option Draft → ℕ → Draft
new_draft env db incident_id text analysis_revision source editor_identity previous now = record {
  draft_id = db.next_draft_id;
  incident_id = incident_id;
  analysis_revision = analysis_revision;
  version = draft_version previous + 1;
  content = text;
  content_sha256 = env.sha256 text;
  source = source;
  editor_identity = stored_identity editor_identity;
  supersedes_draft_id = Option.map (λ d. d.draft_id) previous;
  created_at = now;
}

abbrev pub recorded : String → Draft → Bool → Recorded
recorded incident_id d deduplicated = record {
  draft_id = d.draft_id;
  incident_id = incident_id;
  version = d.version;
  deduplicated = deduplicated;
}

abbrev pub insert_draft : DraftDb → Draft → DraftDb
insert_draft db d = record { drafts = db.drafts ++ d ∷ []; next_draft_id = suc db.next_draft_id }

-- What the transaction does after it has read the newest draft.
abbrev pub record_after : Env → DraftDb → Option Draft → Draft → Result × DraftDb
record_after env db none d = (ok (recorded d.incident_id d false), insert_draft db d)
record_after env db (some p) d =
    if str_eq p.content_sha256 d.content_sha256
    then (ok (recorded d.incident_id p true), db)
    else (ok (recorded d.incident_id d false), insert_draft db d)

unfoldable pub record_postmortem_draft :
    Env
    → DraftDb
    → String
    → Option String
    → Option ℕ
    → String
    → Option String
    → ℕ
    → Result × DraftDb
record_postmortem_draft env db incident_id content analysis_revision source editor_identity now =
    let text = text_of content in
    if not (is_source source)
    then (err (value_error "invalid draft source"), db)
    else if str_eq text ""
    then (err (value_error "postmortem draft must not be empty"), db)
    else (let previous = newest_draft (drafts_of incident_id db) in
        record_after env db previous
          (new_draft env db incident_id text analysis_revision source editor_identity previous now))

-- ===== src/Publication.antt =====
-- webhook/incident_store.py: the guard of external publications, and graph/nodes/publish.py, which
-- calls the providers behind it. A function takes the table incident_publications and the time,
-- and returns its result with the table that its transaction leaves behind.
pub mod Once
pub mod Node
use Prim.Native.String.{◌++◌ as str_append}
use incident_agent.Common.{
  ℕ, String, Bool, true, false, ◌&&◌, Option, none, some, List, [], ◌∷◌, ◌++◌, str_eq, ◌==◌, find,
  update_where, count, if◌then◌else◌,
}
use incident_agent.Store.{Env, Result, ok, err, Error, publication_uncertain}

pub data PublicationStatus : Type 0 where
  started completed uncertain : PublicationStatus

pub record Publication : Type 0 where
  pub publication_key : String
  pub incident_id : String
  pub draft_sha256 : String
  pub status : PublicationStatus
  pub attempt_token : String
  pub issue_url : Option String
  pub diagnostics : Option String
  pub created_at : ℕ
  pub updated_at : ℕ
  pub completed_at : Option ℕ

-- sha256(f"{incident_id}:{draft_sha256}")
unfoldable pub publication_key : Env → String → String → String
publication_key env incident_id draft =
    env.sha256 (str_append incident_id (str_append ":" (env.sha256 draft)))

abbrev pub with_publication_key : String → Publication → Bool
with_publication_key key p = str_eq p.publication_key key

abbrev pub is_completed : PublicationStatus → Bool
is_completed completed = true
is_completed _ = false

abbrev pub is_started : PublicationStatus → Bool
is_started started = true
is_started _ = false

-- `publication["status"]` with the token of a new claim, or the issue of a completed one.
pub data Begun : Type 0 where
  claimed : String → Begun
  deduplicated : String → Begun

-- `issue_url or ""`
abbrev pub url_or_empty : Option String → String
url_or_empty none = ""
url_or_empty (some url) = url

abbrev pub incomplete : Error
incomplete =
    publication_uncertain
      "a previous publication attempt is incomplete or uncertain; reconcile providers before any manual retry"

abbrev begin_found :
    Env
    → Option Publication
    → List Publication
    → String
    → String
    → String
    → ℕ
    → Result Begun × List Publication
begin_found env none rows incident_id draft token now = (
  ok (claimed token),
  rows
      ++ record {
        publication_key = publication_key env incident_id draft;
        incident_id = incident_id;
        draft_sha256 = env.sha256 draft;
        status = started;
        attempt_token = token;
        issue_url = none;
        diagnostics = none;
        created_at = now;
        updated_at = now;
        completed_at = none;
      }
        ∷ [],
)
begin_found env (some p) rows incident_id draft token now =
    if is_completed p.status
    then (ok (deduplicated (url_or_empty p.issue_url)), rows)
    else (err incomplete, rows)

-- The INSERT does nothing where the key is there; `token` is uuid.uuid4().hex.
unfoldable pub begin_publication :
    Env → List Publication → String → String → String → ℕ → Result Begun × List Publication
begin_publication env rows incident_id draft token now =
    begin_found env (find (with_publication_key (publication_key env incident_id draft)) rows) rows
      incident_id draft token now

-- WHERE publication_key=%s AND status='started' AND attempt_token=%s
abbrev pub is_attempt : String → String → Publication → Bool
is_attempt key token p =
    str_eq p.publication_key key && (is_started p.status && str_eq p.attempt_token token)

unfoldable pub completed_publication : Option String → ℕ → Publication → Publication
completed_publication url now p = record p {
  status = completed;
  issue_url = url;
  completed_at = some now;
  updated_at = now;
}

abbrev pub not_claimed : Error
not_claimed = publication_uncertain "publication claim is no longer owned by this attempt"

unfoldable pub complete_publication :
    List Publication → String → String → Option String → ℕ → Result (Unit {0}) × List Publication
complete_publication rows key token url now =
    if count (is_attempt key token) rows == 0
    then (err not_claimed, rows)
    else (ok tt, update_where (is_attempt key token) (completed_publication url now) rows)

unfoldable pub uncertain_publication : String → ℕ → Publication → Publication
uncertain_publication diagnostics now p = record p {
  status = uncertain;
  diagnostics = some diagnostics;
  updated_at = now;
}

unfoldable pub mark_publication_uncertain :
    List Publication → String → String → String → ℕ → List Publication
mark_publication_uncertain rows key token diagnostics now =
    update_where (is_attempt key token) (uncertain_publication diagnostics now) rows

-- ===== src/Revisions.antt =====
-- webhook/incident_store.py: the allocation of incident revisions, one row and one head at a time.
pub mod Numbering
pub mod Jobs
use incident_agent.Common.{
  ℕ, zero, suc, ◌+◌, max, String, Bool, true, false, ◌&&◌, ◌||◌, not, Option, none, some, List, [],
  ◌∷◌, ◌++◌, str_eq, ◌==◌, find, update_where, if◌then◌else◌, is_some,
}
use incident_agent.Store.{Result, ok, err, Error, value_error}

-- incident_revisions; `execution_context` holds the text of the completed run context.
pub record Revision : Type 0 where
  pub incident_id : String
  pub revision : ℕ
  pub previous_revision : Option ℕ
  pub job_id : Option ℕ
  pub reason : String
  pub execution_context : String
  pub created_at : ℕ

-- incident_revision_heads
pub record Head : Type 0 where
  pub incident_id : String
  pub current_revision : ℕ
  pub updated_at : ℕ

pub record RevisionDb : Type 0 where
  pub revisions : List Revision
  pub heads : List Head

abbrev pub head_of : String → Head → Bool
head_of incident_id h = str_eq h.incident_id incident_id

abbrev pub of_incident : String → Revision → Bool
of_incident incident_id r = str_eq r.incident_id incident_id

abbrev pub is_job : Option ℕ → ℕ → Bool
is_job none job_id = false
is_job (some j) job_id = j == job_id

abbrev pub of_job : ℕ → Revision → Bool
of_job job_id r = is_job r.job_id job_id

-- INSERT of a head with revision 0, if the incident has none
unfoldable pub ensure_head : String → ℕ → List Head → List Head
ensure_head incident_id now heads =
    if is_some (find (head_of incident_id) heads)
    then heads
    else heads ++ record { incident_id = incident_id; current_revision = 0; updated_at = now } ∷ []

abbrev pub current_of : Option Head → ℕ
current_of none = 0
current_of (some h) = h.current_revision

-- SELECT COALESCE(MAX(revision),0) ... WHERE incident_id=%s
unfoldable pub max_revision : String → List Revision → ℕ
max_revision incident_id [] = 0
max_revision incident_id (r ∷ rs) =
    let rest = max_revision incident_id rs in
    if of_incident incident_id r then max r.revision rest else rest

-- `current or None`
abbrev pub or_none : ℕ → Option ℕ
or_none zero = none
or_none (suc n) = some (suc n)

-- `expected_revision is not None and current != expected_revision`
unfoldable pub is_stale : Option ℕ → ℕ → Bool
is_stale none current = false
is_stale (some expected) current = not (current == expected)

unfoldable pub new_revision : String → String → String → Option ℕ → ℕ → ℕ → Revision
new_revision incident_id reason run_context job_id now current = record {
  incident_id = incident_id;
  revision = current + 1;
  previous_revision = or_none current;
  job_id = job_id;
  reason = reason;
  execution_context = run_context;
  created_at = now;
}

abbrev of_requested_job : Option ℕ → List Revision → Option Revision
of_requested_job none rs = none
of_requested_job (some job_id) rs = find (of_job job_id) rs

abbrev allocate :
    RevisionDb
    → List Head
    → ℕ
    → String
    → String
    → Option ℕ
    → String
    → Option ℕ
    → ℕ
    → Result ℕ × RevisionDb
allocate db heads current incident_id reason expected run_context job_id now =
    if is_stale expected current then (err (value_error "stale incident revision"), db) else (
      ok (current + 1),
      record {
        revisions =
            db.revisions ++ new_revision incident_id reason run_context job_id now current ∷ [];
        heads =
            update_where (head_of incident_id)
              (λ h. record h { current_revision = current + 1; updated_at = now }) heads;
      },
    )

abbrev create_found :
    Option Revision
    → RevisionDb
    → List Head
    → ℕ
    → String
    → String
    → Option ℕ
    → String
    → Option ℕ
    → ℕ
    → Result ℕ × RevisionDb
create_found (some r) db heads current incident_id reason expected run_context job_id now =
    if of_incident incident_id r
    then (ok r.revision, record db { heads = heads })
    else (err (value_error "job revision belongs to another incident"), db)
create_found none db heads current incident_id reason expected run_context job_id now =
    allocate db heads (max current (max_revision incident_id db.revisions)) incident_id reason
      expected run_context job_id now

unfoldable pub create_revision_once :
    RevisionDb → String → String → Option ℕ → String → Option ℕ → ℕ → Result ℕ × RevisionDb
create_revision_once db incident_id reason expected_revision run_context job_id now =
    let heads = ensure_head incident_id now db.heads in
    create_found (of_requested_job job_id db.revisions) db heads
      (current_of (find (head_of incident_id) heads)) incident_id reason expected_revision
      run_context job_id now

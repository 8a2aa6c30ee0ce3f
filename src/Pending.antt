-- ===== src/Pending.antt =====
-- webhook/registry.py: the table pending_reviews, one row per incident that waits for a reviewer.
-- A function takes the table and the time, and returns its result with the table that its
-- transaction leaves behind.
pub mod Versions
use incident_agent.Common.{
  ℕ, ◌+◌, String, Bool, true, false, ◌&&◌, not, Option, none, some, List, [], ◌∷◌, ◌++◌, str_eq,
  ◌==◌, find, count, delete_where, if◌then◌else◌,
}
use incident_agent.Registry.{Result, ok, err, revision_conflict, is_stale}

-- The JSON column `data`, here `content`: what the caller gave, redacted, and the four fields that are added.
pub record PendingData : Type 0 where
  pub review : String
  pub thread_id : String
  pub created_at : ℕ
  pub updated_at : ℕ
  pub pending_revision : ℕ

pub record Pending : Type 0 where
  pub thread_id : String
  pub content : PendingData
  pub version : ℕ
  pub created_at : ℕ
  pub updated_at : ℕ

abbrev pub of_thread : String → Pending → Bool
of_thread thread_id p = str_eq p.thread_id thread_id

-- `row[1] if row else 0`
abbrev pub version_of : Option Pending → ℕ
version_of none = 0
version_of (some p) = p.version

-- `existing.get("created_at")`, or now
abbrev pub first_created : Option Pending → ℕ → ℕ
first_created none now = now
first_created (some p) now = p.content.created_at

-- `row[2] if row else now`
abbrev pub row_created : Option Pending → ℕ → ℕ
row_created none now = now
row_created (some p) now = p.created_at

unfoldable pub next_pending : Option Pending → String → String → ℕ → Pending
next_pending row thread_id review now = record {
  thread_id = thread_id;
  content = record {
    review = review;
    thread_id = thread_id;
    created_at = first_created row now;
    updated_at = now;
    pending_revision = version_of row + 1;
  };
  version = version_of row + 1;
  created_at = row_created row now;
  updated_at = now;
}

-- INSERT ... ON DUPLICATE KEY UPDATE, on the primary key thread_id
unfoldable pub save_pending : Pending → List Pending → List Pending
save_pending new [] = new ∷ []
save_pending new (p ∷ rows) =
    let rest = save_pending new rows in
    if str_eq p.thread_id new.thread_id then new ∷ rows else p ∷ rest

unfoldable pub add_pending :
    List Pending → String → String → Option ℕ → ℕ → Result PendingData × List Pending
add_pending rows thread_id review expected_version now =
    let row = find (of_thread thread_id) rows in
    let new = next_pending row thread_id review now in
    if is_stale expected_version (version_of row)
    then (err (revision_conflict "stale pending-review version"), rows)
    else (ok new.content, save_pending new rows)

abbrev pub at_version : String → ℕ → Pending → Bool
at_version thread_id version p = str_eq p.thread_id thread_id && (p.version == version)

unfoldable pub remove_pending : List Pending → String → Option ℕ → Result (Unit {0}) × List Pending
remove_pending rows thread_id none = (ok tt, delete_where (of_thread thread_id) rows)
remove_pending rows thread_id (some expected) =
    if count (at_version thread_id expected) rows == 0
    then (err (revision_conflict "stale pending-review version"), rows)
    else (ok tt, delete_where (at_version thread_id expected) rows)

abbrev pub data_of : Option Pending → Option PendingData
data_of none = none
data_of (some p) = some p.content

unfoldable pub get_pending : List Pending → String → Option PendingData
get_pending rows thread_id = data_of (find (of_thread thread_id) rows)

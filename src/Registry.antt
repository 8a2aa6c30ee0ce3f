-- ===== src/Registry.antt =====
-- webhook/registry.py: the table incident_lifecycle. A method takes the table and the time, and
-- returns its result with the table that its transaction leaves behind.
pub mod Chain
pub mod Review
use incident_agent.Common.{
  ℕ, zero, suc, ◌+◌, String, Bool, true, false, not, ◌||◌, Option, none, some, List, [], ◌∷◌, ◌++◌,
  str_eq, ◌==◌, if◌then◌else◌, find, update_where, is_some,
}
use incident_agent.Lifecycle.{
  Status, LifecycleTransitionError, received, collecting, analyzing, resolved, other,
  validate_transition,
}

-- An entry of the JSON column `history`; `schema_version` is one constant.
pub record Entry : Type 0 where
  pub from : Option Status
  pub to : Status
  pub version : ℕ
  pub at : ℕ
  pub reason : Option String

pub record Row : Type 0 where
  pub thread_id : String
  pub status : Status
  pub version : ℕ
  pub history : List Entry
  pub updated_at : ℕ

pub data Error : Type 0 where
  revision_conflict : String → Error
  transition_error : LifecycleTransitionError → Error

pub data Result {ℓ} (A : Type ℓ) : Type ℓ where
  ok : A → Result A
  err : Error → Result A

abbrev pub of_thread : String → Row → Bool
of_thread thread_id r = str_eq r.thread_id thread_id

unfoldable pub get_lifecycle : List Row → String → Option Row
get_lifecycle rows thread_id = find (of_thread thread_id) rows

-- `expected_version is not None and current_version != expected_version`
unfoldable pub is_stale : Option ℕ → ℕ → Bool
is_stale none current = false
is_stale (some expected) current = not (current == expected)

abbrev pub version_of : Option Row → ℕ
version_of none = 0
version_of (some r) = r.version

abbrev pub status_of : Option Row → Option Status
status_of none = none
status_of (some r) = some r.status

abbrev pub history_of : Option Row → List Entry
history_of none = []
history_of (some r) = r.history

-- INSERT ... ON DUPLICATE KEY UPDATE, on the primary key thread_id
unfoldable pub save : Row → List Row → List Row
save new [] = new ∷ []
save new (r ∷ rows) = if str_eq r.thread_id new.thread_id then new ∷ rows else r ∷ save new rows

-- The row after one accepted transition.
unfoldable pub advance : Option Row → String → Status → Option String → ℕ → Row
advance row thread_id target reason now = record {
  thread_id = thread_id;
  status = target;
  version = version_of row + 1;
  history =
      history_of row
      ++ record {
        from = status_of row;
        to = target;
        version = version_of row + 1;
        at = now;
        reason = reason;
      }
        ∷ [];
  updated_at = now;
}

accept : Option LifecycleTransitionError → List Row → Row → Result Row × List Row
accept (some e) rows new = (err (transition_error e), rows)
accept none rows new = (ok new, save new rows)

unfoldable pub transition_lifecycle :
    List Row → String → Status → Option String → Option ℕ → ℕ → Result Row × List Row
unfolding accept is_stale
transition_lifecycle rows thread_id target reason expected_version now =
    let row = get_lifecycle rows thread_id in
    if is_stale expected_version (version_of row)
    then (err (revision_conflict "stale lifecycle version"), rows)
    else accept (validate_transition (status_of row) target) rows
        (advance row thread_id target reason now)

pub data Resolution : Type 0 where
  unknown_incident : Resolution
  already_resolved : Row → Resolution
  newly_resolved : Row → Resolution

abbrev is_resolved : Status → Bool
is_resolved resolved = true
is_resolved _ = false

resolution : Result Row × List Row → Result Resolution × List Row
resolution (ok r, rows) = (ok (newly_resolved r), rows)
resolution (err e, rows) = (err e, rows)

abbrev resolve_found :
    Option Row → List Row → String → Option String → ℕ → Result Resolution × List Row
resolve_found none rows thread_id reason now = (ok unknown_incident, rows)
resolve_found (some current) rows thread_id reason now =
    if is_resolved current.status
    then (ok (already_resolved current), rows)
    else resolution (transition_lifecycle rows thread_id resolved reason (some current.version) now)

-- The row is read in one transaction and the transition is made in another, so the version that
-- was read is handed on: `between` is what others write in the meantime.
unfoldable pub resolve_incident :
    List Row → String → Option String → (List Row → List Row) → ℕ → Result Resolution × List Row
unfolding resolution
resolve_incident rows thread_id reason between now =
    resolve_found (get_lifecycle rows thread_id) (between rows) thread_id reason now

-- One round of the loop over ("received", "collecting", "analyzing").
reopen_step : Result Row → Option String → Status → ℕ → Result Row
reopen_step (err e) reason target now = err e
reopen_step (ok r) reason target now = elim (validate_transition (some r.status) target) [
  | some e ↦ err (transition_error e)
  | none ↦ ok (advance (some r) r.thread_id target reason now)
]

reopen_loop : Result Row → Option String → List Status → ℕ → Result Row
reopen_loop r reason [] now = r
reopen_loop r reason (t ∷ ts) now = reopen_loop (reopen_step r reason t now) reason ts now

store_reopened : Result Row → List Row → String → Result Row × List Row
store_reopened (err e) rows thread_id = (err e, rows)
store_reopened (ok new) rows thread_id =
    (ok new, update_where (of_thread thread_id) (λ _. new) rows)

abbrev reopen_found : Option Row → List Row → String → Option String → ℕ → Result Row × List Row
reopen_found none rows thread_id reason now =
    (err (revision_conflict "only a resolved incident can be reopened"), rows)
reopen_found (some r) rows thread_id reason now =
    if is_resolved r.status
    then store_reopened (reopen_loop (ok r) reason (received ∷ collecting ∷ analyzing ∷ []) now)
        rows thread_id
    else (err (revision_conflict "only a resolved incident can be reopened"), rows)

unfoldable pub reopen_incident : List Row → String → Option String → ℕ → Result Row × List Row
unfolding reopen_step reopen_loop store_reopened
reopen_incident rows thread_id reason now =
    reopen_found (get_lifecycle rows thread_id) rows thread_id reason now

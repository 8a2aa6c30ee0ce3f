-- ===== src/Investigation.antt =====
-- utils/investigation_loop.py: the control state of targeted evidence expansion. Times are in
-- microseconds, and what the state's dictionaries hold is a record of the fields that are read.
pub mod Rounds
use incident_agent.Common.{
  ℕ, zero, suc, ◌+◌, ◌-◌, ◌≤◌, max, String, Bool, true, false, ◌&&◌, ◌||◌, not, Option, none, some,
  List, [], ◌∷◌, ◌++◌, map, take, length, str_eq, leb, if◌then◌else◌,
}

-- MAX_EXPANSION_ROUNDS, MAX_SCOPE_SERVICES, MAX_INVESTIGATION_RESULT_BYTES and
-- MAX_INVESTIGATION_ELAPSED_SECONDS
pub record Limits : Type 0 where
  pub max_rounds : ℕ
  pub max_services : ℕ
  pub max_result_bytes : ℕ
  pub max_elapsed : ℕ

-- `started_at`, as `_parse` reads it.
pub data Stamp : Type 0 where
  at : ℕ → Stamp
  unreadable : Stamp

-- A stored loop: a field that is missing is none.
pub record Stored : Type 0 where
  pub round : Option ℕ
  pub max_rounds : Option ℕ
  pub max_services : Option ℕ
  pub max_result_bytes : Option ℕ
  pub used_result_bytes : Option ℕ
  pub max_elapsed : Option ℕ
  pub started_at : Option Stamp
  pub elapsed : Option ℕ
  pub continue_expansion : Option Bool
  pub stop_reason : Option String
  pub stop_details : Option String

pub record Loop : Type 0 where
  pub round : ℕ
  pub max_rounds : ℕ
  pub max_services : ℕ
  pub max_result_bytes : ℕ
  pub used_result_bytes : ℕ
  pub max_elapsed : ℕ
  pub started_at : Stamp
  pub elapsed : ℕ
  pub continue_expansion : Bool
  pub stop_reason : Option String
  pub stop_details : Option String

abbrev pub get_or {ℓ} : {A : Type ℓ} → Option A → A → A
get_or none d = d
get_or (some a) d = a

abbrev pub second : ℕ
second = 1000000

unfoldable pub initialize_loop : Limits → Stored → ℕ → Loop
initialize_loop limits existing now = record {
  round = get_or existing.round 0;
  max_rounds = max (get_or existing.max_rounds limits.max_rounds) 1;
  max_services = max (get_or existing.max_services limits.max_services) 1;
  max_result_bytes = max (get_or existing.max_result_bytes limits.max_result_bytes) 1;
  used_result_bytes = get_or existing.used_result_bytes 0;
  max_elapsed = max (get_or existing.max_elapsed limits.max_elapsed) second;
  started_at = get_or existing.started_at (at now);
  elapsed = get_or existing.elapsed 0;
  continue_expansion = get_or existing.continue_expansion false;
  stop_reason = existing.stop_reason;
  stop_details = existing.stop_details;
}

-- A loop as it is stored.
abbrev pub stored : Loop → Stored
stored l = record {
  round = some l.round;
  max_rounds = some l.max_rounds;
  max_services = some l.max_services;
  max_result_bytes = some l.max_result_bytes;
  used_result_bytes = some l.used_result_bytes;
  max_elapsed = some l.max_elapsed;
  started_at = some l.started_at;
  elapsed = some l.elapsed;
  continue_expansion = some l.continue_expansion;
  stop_reason = l.stop_reason;
  stop_details = l.stop_details;
}

-- elapsed_seconds
unfoldable pub elapsed_since : Stamp → ℕ → ℕ
elapsed_since unreadable now = 0
elapsed_since (at started) now = now - started

-- A tool's result: a dictionary with `error` and the errors of `services_checked`, or another value.
-- An error is none where it is missing or empty.
pub data ToolResult : Type 0 where
  dictionary : Option String → List (Option String) → Option ℕ → ToolResult
  other_result : ToolResult

abbrev pub all_errors : List (Option String) → Bool
all_errors [] = true
all_errors (none ∷ es) = false
all_errors (some e ∷ es) = all_errors es

abbrev pub is_empty {ℓ} : {A : Type ℓ} → List A → Bool
is_empty [] = true
is_empty (x ∷ xs) = false

unfoldable pub result_failed : ToolResult → Bool
result_failed other_result = false
result_failed (dictionary (some error) checked matched) = true
result_failed (dictionary none checked matched) = not (is_empty checked) && all_errors checked

-- An entry of `semantic_correlation_tool_trace`.
pub record Trace : Type 0 where
  pub tool : String
  pub args : String
  pub result : ToolResult
  pub result_summary : String

pub record Summary : Type 0 where
  pub tool : String
  pub args : String
  pub result_summary : String
  pub failed : Bool
  pub error : Option String
  pub total_matched : Option ℕ

abbrev pub error_of : ToolResult → Option String
error_of other_result = none
error_of (dictionary error checked matched) = error

abbrev pub matched_of : ToolResult → Option ℕ
matched_of other_result = none
matched_of (dictionary error checked matched) = matched

abbrev pub summary : Trace → Summary
summary t = record {
  tool = t.tool;
  args = t.args;
  result_summary = t.result_summary;
  failed = result_failed t.result;
  error = error_of t.result;
  total_matched = matched_of t.result;
}

-- `all(_result_failed(...) for trace in traces)`
unfoldable pub all_failed : List Trace → Bool
all_failed [] = true
all_failed (t ∷ ts) = let rest = all_failed ts in result_failed t.result && rest

pub record Candidate : Type 0 where
  pub id : String
  pub score : ℕ
  pub event_ids : List String

pub record Revision : Type 0 where
  pub revision : ℕ
  pub previous_revision : Option ℕ
  pub round : ℕ
  pub created_at : ℕ
  pub query_ids : List String
  pub tool_results : List Summary
  pub integrated_records : ℕ
  pub candidate_ranking : List Candidate
  pub expansion_recommended : Bool
  pub continues : Bool
  pub stop_reason : Option String

-- The remote units of `investigation_budget`, with its stored loop.
pub record Budget : Type 0 where
  pub max_remote_units : ℕ
  pub used_remote_units : ℕ
  pub expansion_loop : Stored

-- What complete_round reads besides the budget; a count below zero is 0, and a text that is missing
-- or empty is none.
pub record Round : Type 0 where
  pub traces : List Trace
  pub expansion_recommended : Bool
  pub expansion_reason : Option String
  pub candidates : List Candidate
  pub integrated_records : ℕ
  pub targeted_reason : Option String
  pub source_failures : Bool
  pub query_ids : List String

-- `reason` and `details`, or neither.
pub data Decision : Type 0 where
  stop : String → Option String → Decision
  go_on : Decision

unfoldable pub decide : Loop → Budget → Round → Decision
decide l b r =
    if leb l.max_elapsed l.elapsed
    then stop "elapsed_time_budget_exhausted"
        (some "targeted investigation exceeded its elapsed-time limit")
    else if leb l.max_result_bytes l.used_result_bytes
    then stop "result_byte_budget_exhausted"
        (some "targeted tool results reached the retained-byte limit")
    else if not r.expansion_recommended
    then stop "enough_evidence" r.expansion_reason
    else if leb l.max_rounds l.round
    then stop "round_budget_exhausted" (some "maximum targeted expansion rounds reached")
    else if leb b.max_remote_units b.used_remote_units
    then stop "remote_query_budget_exhausted" (some "no remote query units remain")
    else if (not (is_empty r.traces) && all_failed r.traces)
        || (r.source_failures && is_empty r.traces)
    then stop "source_unavailable" (some "targeted evidence sources were unavailable")
    else if leb r.integrated_records 0
    then stop "safe_abstention" (
        some
          (get_or r.targeted_reason "no new evidence was integrated; do not invent a conclusion"))
    else go_on

abbrev pub continues : Decision → Bool
continues go_on = true
continues (stop reason details) = false

abbrev pub reason_of : Decision → Option String
reason_of go_on = none
reason_of (stop reason details) = some reason

abbrev pub details_of : Decision → Option String
details_of go_on = none
details_of (stop reason details) = details

abbrev pub decided : Loop → Decision → Loop
decided l d = record l {
  continue_expansion = continues d;
  stop_reason = reason_of d;
  stop_details = details_of d;
}

-- `revision_number - 1 if revision_number > 1 else None`
abbrev pub previous : ℕ → Option ℕ
previous zero = none
previous (suc n) = some (suc n)

-- What Python's library and redact_data make of values: `sorted(set(...))`, `round(..., 3)`, and
-- the redaction of a summary.
pub record Texts : Type 0 where
  pub sorted_set : List String → List String
  pub round_milliseconds : ℕ → ℕ
  pub redact : Summary → Summary

abbrev pub counted : Texts → Loop → ℕ → Loop
counted t l now = record l {
  round = suc l.round;
  elapsed = t.round_milliseconds (elapsed_since l.started_at now);
}

unfoldable pub new_revision : Texts → List Revision → Loop → Round → Decision → ℕ → Revision
new_revision t revisions l r d now = record {
  revision = suc (length revisions);
  previous_revision = previous (length revisions);
  round = l.round;
  created_at = now;
  query_ids = t.sorted_set r.query_ids;
  tool_results = map (λ x. t.redact (summary x)) r.traces;
  integrated_records = r.integrated_records;
  candidate_ranking = take 3 r.candidates;
  expansion_recommended = r.expansion_recommended;
  continues = continues d;
  stop_reason = reason_of d;
}

pub record Completed : Type 0 where
  pub budget : Budget
  pub loop : Loop
  pub revisions : List Revision

unfoldable pub complete_round : Limits → Texts → Budget → List Revision → Round → ℕ → Completed
complete_round limits t b revisions r now =
    let l = counted t (initialize_loop limits b.expansion_loop now) now in
    let d = decide l b r in
    let l' = decided l d in
    record {
      budget = record b { expansion_loop = stored l' };
      loop = l';
      revisions = revisions ++ new_revision t revisions l' r d now ∷ [];
    }

pub data Next : Type 0 where
  semantic_correlate interpret_incident : Next

-- The loop of `investigation_loop`, which complete_round writes.
unfoldable pub expansion_router : Loop → Next
expansion_router l = if l.continue_expansion then semantic_correlate else interpret_incident

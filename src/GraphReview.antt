-- ===== src/GraphReview.antt =====
-- graph/nodes/human_review.py, publish_review.py, reinvestigate_feedback.py and graph/routing.py: what
-- the graph makes of the reviewers' answers. The answer to an interrupt is an argument; the HTML
-- page and the payload of the interrupt are left out.
pub mod Restart
use Prim.Native.String.{◌++◌ as append_text}
use incident_agent.Common.{
  ℕ, ℤ, pos, negsuc, String, Bool, true, false, ◌&&◌, ◌||◌, not, Option, none, some, List, [], ◌∷◌,
  str_eq, ◌==◌, if◌then◌else◌,
}
use incident_agent.Investigation.{Limits, Stored, get_or, initialize_loop}
use incident_agent.ModelUsage.{prefix}
use incident_agent.Tools.Session.{Budget}

-- The fields of the state that the reviews write or read.
pub record State : Type 0 where
  pub review_status : String
  pub review_feedback : String
  pub chosen_hypothesis : ℕ
  pub postmortem_draft : String
  pub publish_review_status : String
  pub publish_review_feedback : String
  pub approved_draft_sha256 : String

-- A number that int() reads, or a value that it refuses.
pub data Number : Type 0 where
  number : ℤ → Number
  unreadable : Number

-- `Command(resume=...)` of the analysis review; none is a key that is missing.
pub record Resume : Type 0 where
  pub status : Option String
  pub chosen_hypothesis : Option Number
  pub feedback : Option String

abbrev pub known_status : String → String
known_status status =
    if str_eq status "approved"
      || (str_eq status "rejected" || str_eq status "request_more_evidence")
    then status
    else "rejected"

abbrev pub one_to_three : ℤ → ℕ
one_to_three (negsuc n) = 1
one_to_three (pos n) = if (n == 1) || ((n == 2) || (n == 3)) then n else 1

abbrev pub chosen_of : Option Number → ℕ
chosen_of none = 1
chosen_of (some unreadable) = 1
chosen_of (some (number n)) = one_to_three n

unfoldable pub human_review : State → Resume → State
human_review s r = record s {
  review_status = known_status (get_or r.status "rejected");
  review_feedback = get_or r.feedback "";
  chosen_hypothesis = chosen_of r.chosen_hypothesis;
}

pub data AfterReview : Type 0 where
  deep_rca reinvestigate_feedback : AfterReview

unfoldable pub review_router : State → AfterReview
review_router s = if str_eq s.review_status "approved" then deep_rca else reinvestigate_feedback

pub record PublishResume : Type 0 where
  pub status : Option String
  pub draft_sha256 : Option String
  pub feedback : Option String

-- The node's new state, or the ValueError.
pub data PublishReviewed : Type 0 where
  reviewed : State → PublishReviewed
  draft_mismatch : PublishReviewed

abbrev pub publish_status : String → String
publish_status status =
    if str_eq status "approved" || str_eq status "rejected" then status else "rejected"

unfoldable pub publish_review : (String → String) → State → PublishResume → PublishReviewed
publish_review sha256 s r =
    let status = publish_status (get_or r.status "rejected") in
    let draft_sha256 = sha256 s.postmortem_draft in
    if str_eq status "approved" && not (str_eq (get_or r.draft_sha256 "") draft_sha256)
    then draft_mismatch
    else reviewed (record s {
      publish_review_status = status;
      publish_review_feedback = prefix 2000 (get_or r.feedback "");
      approved_draft_sha256 = if str_eq status "approved" then draft_sha256 else "";
    })

pub data AfterPublishReview : Type 0 where
  publish end : AfterPublishReview

unfoldable pub publish_review_router : State → AfterPublishReview
publish_review_router s = if str_eq s.publish_review_status "approved" then publish else end

-- The limits of a stored loop, without what has been consumed.
abbrev pub limits_only : Stored → Stored
limits_only l = record {
  round = none;
  max_rounds = l.max_rounds;
  max_services = l.max_services;
  max_result_bytes = l.max_result_bytes;
  used_result_bytes = none;
  max_elapsed = l.max_elapsed;
  started_at = none;
  elapsed = none;
  continue_expansion = none;
  stop_reason = none;
  stop_details = none;
}

-- `{}`
abbrev pub no_loop : Stored
no_loop = record {
  round = none;
  max_rounds = none;
  max_services = none;
  max_result_bytes = none;
  used_result_bytes = none;
  max_elapsed = none;
  started_at = none;
  elapsed = none;
  continue_expansion = none;
  stop_reason = none;
  stop_details = none;
}

-- `budget.get("expansion_loop") or state.get("investigation_loop") or {}`
abbrev pub previous_loop : Option Stored → Option Stored → Stored
previous_loop (some l) other = l
previous_loop none (some l) = l
previous_loop none none = no_loop

-- The budget of the next attempt, which keeps the limit of remote units.
unfoldable pub restart_budget {ℓ} :
    {R : Type ℓ} → Limits → ℕ → Option Stored → Option Stored → ℕ → Budget R
restart_budget limits max_remote_units of_budget of_state now = record {
  max_remote_units = max_remote_units;
  used_remote_units = 0;
  tool_cache = [];
  tool_history = [];
  expansion_loop = initialize_loop limits (limits_only (previous_loop of_budget of_state)) now;
}

-- `feedback` is stripped already; the status is always set before this node runs.
unfoldable pub investigation_request : String → String → String
investigation_request decision feedback =
    if str_eq decision "request_more_evidence"
    then append_text "Reviewer requested more evidence: " feedback
    else if str_eq feedback ""
    then "Reviewer rejected the interpretation; verify the ranking and missing evidence."
    else feedback

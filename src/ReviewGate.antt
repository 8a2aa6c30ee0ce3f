-- ===== src/ReviewGate.antt =====
-- utils/review_gate.py: analysis_review_state, which says whether an analysis may be approved.
pub mod Approval
use incident_agent.Common.{
  ℕ, min, String, Bool, true, false, ◌&&◌, ◌||◌, not, Option, none, some, List, [], ◌∷◌, str_eq,
  ◌==◌, find, select, length, is_some, if◌then◌else◌,
}

-- An entry of a list of hypotheses or candidates: `int(item.get("rank"))`, or none where that
-- raises or is negative, or an entry that is no dictionary.
pub data Item : Type 0 where
  dictionary : Option ℕ → Item
  not_dictionary : Item

-- An entry of the tool trace: its status, or one that is no dictionary.
pub data Trace : Type 0 where
  status : String → Trace
  untyped : Trace

-- What the function reads of the state. `parsed` and `interpretation_structured` are the
-- hypotheses and the status of the two dictionaries, and `interpretation` is stripped.
pub record Structured : Type 0 where
  pub hypotheses : List Item
  pub status : Option String

pub record Analysis : Type 0 where
  pub interpretation_structured : Structured
  pub candidates : List Item
  pub interpretation : String
  pub interpretation_tool_trace : List Trace
  pub quality_abstained : Bool
  pub quality_passed : Bool
  pub grounding_passed : Bool

pub data Reason : Type 0 where
  analysis_unavailable analysis_abstained no_hypothesis hypothesis_not_in_saved_candidates : Reason
  interpretation_quality_failed claim_grounding_failed approvable : Reason

pub record Gate : Type 0 where
  pub unavailable : Bool
  pub inconclusive : Bool
  pub can_approve : Bool
  pub provider_degraded : Bool
  pub quality_passed : Bool
  pub grounding_passed : Bool
  pub validation_passed : Bool
  pub hypothesis_count : ℕ
  pub approvable_ranks : List ℕ
  pub reason : Reason

-- `parsed if isinstance(parsed, dict) else state.get("interpretation_structured")`
abbrev pub structured_of : Analysis → Option Structured → Structured
structured_of a none = a.interpretation_structured
structured_of a (some parsed) = parsed

abbrev pub is_ranked : ℕ → Item → Bool
is_ranked rank not_dictionary = false
is_ranked rank (dictionary none) = false
is_ranked rank (dictionary (some r)) = r == rank

-- `rank in ranks(items)`, for a rank in (1, 2, 3)
unfoldable pub has_rank : List Item → ℕ → Bool
has_rank items rank = is_some (find (is_ranked rank) items)

-- sorted(hypothesis_ranks & candidate_ranks)
unfoldable pub ranks_of_both : List Item → List Item → List ℕ
ranks_of_both hypotheses candidates =
    select (λ rank. has_rank hypotheses rank && has_rank candidates rank) (1 ∷ 2 ∷ 3 ∷ [])

abbrev pub has_status : String → Trace → Bool
has_status s untyped = false
has_status s (status t) = str_eq t s

-- `any(...)` over the trace
unfoldable pub any_status : String → List Trace → Bool
any_status s trace = is_some (find (has_status s) trace)

abbrev pub is_abstained : Option String → Bool
is_abstained none = false
is_abstained (some s) = str_eq s "abstained"

abbrev pub is_empty {ℓ} : {A : Type ℓ} → List A → Bool
is_empty [] = true
is_empty (x ∷ xs) = false

abbrev pub reason_for : Bool → Bool → List Item → List ℕ → Bool → Bool → Reason
reason_for unavailable inconclusive hypotheses ranks quality grounding =
    if unavailable
    then analysis_unavailable
    else if inconclusive
    then analysis_abstained
    else if is_empty hypotheses
    then no_hypothesis
    else if is_empty ranks
    then hypothesis_not_in_saved_candidates
    else if not quality
    then interpretation_quality_failed
    else if not grounding
    then claim_grounding_failed
    else approvable

unfoldable pub analysis_review_state : Analysis → Option Structured → Gate
analysis_review_state a parsed =
    let s = structured_of a parsed in
    let ranks = ranks_of_both s.hypotheses a.candidates in
    let degraded = any_status "degraded" a.interpretation_tool_trace in
    let abstained =
      a.quality_abstained
      || (is_abstained s.status || any_status "abstained" a.interpretation_tool_trace) in
    let validated = a.quality_passed && a.grounding_passed in
    let unavailable = str_eq a.interpretation "" || (degraded && not validated) in
    let inconclusive = not unavailable && abstained in
    record {
      unavailable = unavailable;
      inconclusive = inconclusive;
      can_approve = not (is_empty ranks) && (validated && (not unavailable && not inconclusive));
      provider_degraded = degraded;
      quality_passed = a.quality_passed;
      grounding_passed = a.grounding_passed;
      validation_passed = validated;
      hypothesis_count = min (length s.hypotheses) 3;
      approvable_ranks = ranks;
      reason =
          reason_for unavailable inconclusive s.hypotheses ranks a.quality_passed
            a.grounding_passed;
    }

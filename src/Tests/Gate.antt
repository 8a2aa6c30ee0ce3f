-- ===== src/Tests/Gate.antt =====
-- Concrete runs of utils/review_gate.py.
use incident_agent.Common.{◌≡◌, true, false, none, some, [], ◌∷◌, All}
use incident_agent.ReviewGate.{
  dictionary, not_dictionary, Analysis, status, analysis_review_state, structured_of, has_rank,
  is_abstained, any_status, is_empty,
}
use incident_agent.ReviewGate.Approval.{can_approve-grounded}

abbrev analysis : Analysis
analysis = record {
  interpretation_structured = record {
    hypotheses = dictionary (some 1) ∷ dictionary (some 7) ∷ not_dictionary ∷ [];
    status = none;
  };
  candidates = dictionary (some 2) ∷ dictionary (some 1) ∷ [];
  interpretation = "the disk is full";
  interpretation_tool_trace = status "executed" ∷ [];
  quality_abstained = false;
  quality_passed = true;
  grounding_passed = true;
}

can_approve-grounded_example :
    let gate = analysis_review_state analysis none in
    let s = structured_of analysis none in
    All
      (λ rank. (has_rank s.hypotheses rank ≡ true) × (has_rank analysis.candidates rank ≡ true))
      gate.approvable_ranks
    × (gate.can_approve ≡ true
        → (true ≡ true)
          × (true ≡ true)
          × (false ≡ false)
          × (is_abstained s.status ≡ false)
          × (any_status "abstained" analysis.interpretation_tool_trace ≡ false)
          × (is_empty gate.approvable_ranks ≡ false))
can_approve-grounded_example = can_approve-grounded analysis none

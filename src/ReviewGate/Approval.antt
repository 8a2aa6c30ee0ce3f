-- ===== src/ReviewGate/Approval.antt =====
-- When the gate lets an analysis be approved, and which ranks may be chosen.
use incident_agent.Common.{
  ℕ, ◌≡◌, ◌↔◌, refl, Bool, true, false, ◌&&◌, ◌||◌, not, Option, List, [], ◌∷◌, All, All-map, find,
  select, select-p, arith, Bool-cases, inl, inr,
}
use incident_agent.ReviewGate.{
  Item, Structured, Analysis, approvable, structured_of, is_empty, has_rank, ranks_of_both,
  any_status, is_abstained, reason_for, analysis_review_state,
}

no_hypotheses : (candidates : List Item) → ranks_of_both [] candidates ≡ []
unfolding ranks_of_both has_rank select find
no_hypotheses candidates = refl

none_of :
    (hypotheses candidates : List Item)
    → is_empty hypotheses ≡ true
    → is_empty (ranks_of_both hypotheses candidates) ≡ true
none_of [] candidates e = rw (no_hypotheses candidates) refl
none_of (x ∷ xs) candidates e = absurd (ground arith)

-- The two conjunctions of tests agree, if the ranks come from hypotheses.
reason-approvable :
    (u i q g : Bool) (hypotheses : List Item) (ranks : List ℕ)
    → (is_empty hypotheses ≡ true → is_empty ranks ≡ true)
    → (not (is_empty ranks) && ((q && g) && (not u && not i)) ≡ true)
      ↔ (reason_for u i hypotheses ranks q g ≡ approvable)
reason-approvable u i q g hypotheses ranks h = elim (Bool-cases (is_empty ranks)) [
  | inl e ↦ elim (Bool-cases (is_empty hypotheses)) [
    | inl f ↦ rw (e, f) (λ c. absurd (ground arith), λ c. absurd (ground arith))
    | inr f ↦ rw (e, f) (λ c. absurd (ground arith), λ c. absurd (ground arith))
  ]
  | inr e ↦ elim (Bool-cases (is_empty hypotheses)) [
    | inl f ↦ absurd (ground (arith, h f))
    | inr f ↦ rw (e, f) (λ c. ground arith, λ c. ground arith)
  ]
]

-- The gate lets an analysis be approved in exactly the cases in which the reason that it gives is
-- `approvable`.
pub can_approve-reason :
    (a : Analysis) (parsed : Option Structured)
    → let gate = analysis_review_state a parsed in
      (gate.can_approve ≡ true) ↔ (gate.reason ≡ approvable)
unfolding analysis_review_state
can_approve-reason a parsed =
    reason-approvable _ _ _ _ (structured_of a parsed).hypotheses _
      (none_of (structured_of a parsed).hypotheses a.candidates)

all_passed :
    (r q g u x y z : Bool)
    → not r && ((q && g) && (not u && not (not u && (x || (y || z))))) ≡ true
    → (q ≡ true) × (g ≡ true) × (x ≡ false) × (y ≡ false) × (z ≡ false) × (r ≡ false)
all_passed r q g u x y z e =
    (ground arith, ground arith, ground arith, ground arith, ground arith, ground arith)

-- Each rank that may be chosen is that of a hypothesis and of a saved candidate. An analysis that
-- may be approved has passed its quality and its grounding, is not abstained in its quality, status
-- or trace, and has a rank to choose.
pub can_approve-grounded :
    (a : Analysis) (parsed : Option Structured)
    → let gate = analysis_review_state a parsed in
      let s = structured_of a parsed in
      All
        (λ rank. (has_rank s.hypotheses rank ≡ true) × (has_rank a.candidates rank ≡ true))
        gate.approvable_ranks
      × (gate.can_approve ≡ true
          → (a.quality_passed ≡ true)
            × (a.grounding_passed ≡ true)
            × (a.quality_abstained ≡ false)
            × (is_abstained s.status ≡ false)
            × (any_status "abstained" a.interpretation_tool_trace ≡ false)
            × (is_empty gate.approvable_ranks ≡ false))
unfolding analysis_review_state ranks_of_both
can_approve-grounded a parsed =
    let s = structured_of a parsed in
    (
      All-map _ _ (λ rank e. (ground arith, ground arith)) (ranks_of_both s.hypotheses a.candidates)
          (select-p (λ rank. has_rank s.hypotheses rank && has_rank a.candidates rank)
            (1 ∷ 2 ∷ 3 ∷ [])),
      λ e. all_passed _ _ _ _ _ _ _ e,
    )

-- ===== src/ModelUsage/Entries.antt =====
-- What an entry of a call uses: no more than its reservation, and what is reported beyond it.
use native.Mathlib.Nat.{mul-le-mul_right}
use incident_agent.Common.{
  ℕ, ◌+◌, ◌≤◌, String, ◌≡◌, refl, ap, ◌∙◌, Option, none, some, arith, Bool-cases, inl, inr,
}
use incident_agent.Investigation.{get_or}
use incident_agent.ModelUsage.{
  Settings, value_or, of_option, Usage, Response, Reservation, Request, prompt_of, completion_of,
  reported_or, is_priced, reservation_cost, cost_or, usage_entry, failed_usage_entry,
}
use incident_agent.ModelUsage.Accounting.{Limits}
use incident_agent.ModelUsage.Totals.{Fits}

-- Python's round is monotone.
abbrev pub IsMonotone : (ℕ → ℕ) → Type 0
IsMonotone f = (m n : ℕ) → m ≤ n → f m ≤ f n

reservation_cost_mono :
    (s : Settings) (i o j p : ℕ)
    → IsMonotone s.round_cost
    → i ≤ j
    → o ≤ p
    → get_or (reservation_cost s i o) 0 ≤ get_or (reservation_cost s j p) 0
unfolding reservation_cost
reservation_cost_mono s i o j p mono a b = elim (Bool-cases (is_priced s)) [
  | inl q ↦
      rw q (
        mono _ _ (omega (arith, mul-le-mul_right s.input_rate a, mul-le-mul_right s.output_rate b)))
  | inr q ↦ rw q (omega arith)
]

known_value : (c : Option ℕ) → value_or (of_option c) (get_or c 0) ≡ get_or c 0
known_value none = refl
known_value (some n) = refl

-- A failed call counts as its reservation.
pub failed_usage_entry-Fits :
    (l : Limits) (s : Settings) (q : Request) (r : Reservation) (latency : ℕ) (error_type : String)
    → r.estimated_cost ≡ reservation_cost s r.input_tokens r.output_tokens
    → Fits l 0 0 r (failed_usage_entry s q r latency error_type)
unfolding failed_usage_entry
failed_usage_entry-Fits l s q r latency error_type e = record {
  input = omega arith;
  output = omega arith;
  money = λ z p. omega (
    arith,
    known_value (reservation_cost s r.input_tokens r.output_tokens),
    ap (λ c. get_or c 0) e,
  );
}

reported_cost :
    (cost booked : Option ℕ) (d : ℕ)
    → (cost ≡ none → booked ≡ none)
    → get_or cost 0 ≤ get_or booked 0
    → d ≡ get_or cost 0
    → value_or (of_option (cost_or cost booked)) d ≤ get_or booked 0
reported_cost (some n) booked d h a b = a
reported_cost none booked d h a b = rw (h refl) (omega arith)

reported_below :
    (u : Option Usage) (used booked more : ℕ)
    → used ≤ booked + more
    → reported_or u booked used ≤ booked + more
reported_below none used booked more h = omega arith
reported_below (some u) used booked more h = h

unpriced :
    (s : Settings) (i o j p : ℕ) → reservation_cost s i o ≡ none → reservation_cost s j p ≡ none
unfolding reservation_cost
unpriced s i o j p e = elim (Bool-cases (is_priced s)) [
  | inl q ↦ absurd (grind (arith, (rw q at e)))
  | inr q ↦ rw q refl
]

-- A response that reports no more than was reserved and the excess, or reports nothing, counts as no
-- more.
pub usage_entry-Fits :
    (l : Limits) (a b : ℕ) (s : Settings) (q : Request) (x : Response) (r : Reservation)
    (latency : ℕ)
    → IsMonotone s.round_cost
    → r.estimated_cost ≡ reservation_cost s r.input_tokens r.output_tokens
    → prompt_of x.usage ≤ r.input_tokens + a
    → completion_of x.usage ≤ r.output_tokens + b
    → Fits l a b r (usage_entry s q x r latency)
unfolding usage_entry
usage_entry-Fits l a b s q x r latency mono e in_excess out_excess =
    let c = reservation_cost s (prompt_of x.usage) (completion_of x.usage) in
    record {
      input = reported_below x.usage _ _ _ in_excess;
      output = reported_below x.usage _ _ _ out_excess;
      money = λ z p.
          reported_cost c r.estimated_cost (get_or c 0) (λ n. e ∙ unpriced s _ _ _ _ n)
            (rw e (
              reservation_cost_mono s _ _ _ _ mono (omega (arith, in_excess, z))
                (omega (arith, out_excess, z))))
            refl;
    }

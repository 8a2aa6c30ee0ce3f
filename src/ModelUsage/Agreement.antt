-- ===== src/ModelUsage/Agreement.antt =====
-- What append_usage says is left, and what authorize_model_call lets pass, agree.
use incident_agent.Common.{ℕ, ◌+◌, ◌≤◌, ◌<◌, ◌≡◌, Option, some, List}
use incident_agent.ModelUsage.{Settings, Entry, Reservation}
use incident_agent.ModelUsage.Accounting.{budget_totals, Remaining, limits_of}
use incident_agent.ModelUsage.Totals.{IsWithin}

-- A call of these tokens and this cost fits what remains; where the cost is limited, it is known.
pub record IsAffordable (m : Remaining) (input_tokens output_tokens : ℕ) (cost : Option ℕ)
    : Type 0 where
  pub call : 0 < m.calls
  pub input : input_tokens ≤ m.input_tokens
  pub output : output_tokens ≤ m.output_tokens
  pub total : input_tokens + output_tokens ≤ m.total_tokens
  pub money : (left : ℕ) → m.cost ≡ some left → (c : ℕ) × (cost ≡ some c) × (c ≤ left)

module _ (s : Settings) (existing entries : List Entry) (input output : ℕ) (cost : Option ℕ)
    (within : IsWithin (limits_of s) 0 0 (budget_totals existing entries)) where
  abbrev asked : Reservation
  asked = record { input_tokens = input; output_tokens = output; estimated_cost = cost }

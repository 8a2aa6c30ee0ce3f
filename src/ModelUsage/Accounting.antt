-- ===== src/ModelUsage/Accounting.antt =====
-- utils/model_usage.py: the totals of the ledger, authorize_model_call and append_usage.
use incident_agent.Common.{
  ℕ, ◌+◌, ◌-◌, ℤ, at_least_zero, String, Bool, true, false, not, Option, none, some, List, [], ◌∷◌,
  ◌++◌, leb, ltb, count, if◌then◌else◌,
}
use incident_agent.Investigation.{get_or, is_empty}
use incident_agent.ModelUsage.{
  CallStatus, CostStatus, Entry, Field, Reservation, Settings, blocked, configured_estimate, failed,
  given, missing, null, pricing_not_configured, reservation_cost, succeeded, value_or,
}

abbrev pub was_made : Entry → Bool
was_made e = get_or e.provider_call_made true

abbrev pub budget_input : Entry → ℕ
budget_input e = value_or e.budget_input_tokens e.input_tokens

abbrev pub budget_output : Entry → ℕ
budget_output e = value_or e.budget_output_tokens e.output_tokens

abbrev pub budget_cost : Entry → ℕ
budget_cost e = value_or e.budget_cost (get_or e.estimated_cost 0)

unfoldable pub sum_of : (Entry → ℕ) → List Entry → ℕ
sum_of f [] = 0
sum_of f (e ∷ es) = f e + sum_of f es

pub record Used : Type 0 where
  pub call_count : ℕ
  pub input_tokens : ℕ
  pub output_tokens : ℕ
  pub cost : ℕ

-- _budget_totals
unfoldable pub budget_totals : List Entry → List Entry → Used
budget_totals existing pending = record {
  call_count = count was_made (existing ++ pending);
  input_tokens = sum_of budget_input (existing ++ pending);
  output_tokens = sum_of budget_output (existing ++ pending);
  cost = sum_of budget_cost (existing ++ pending);
}

-- The setting `budget_limits` of a ledger.
pub record Limits : Type 0 where
  pub max_calls : ℕ
  pub max_input_tokens : ℕ
  pub max_output_tokens : ℕ
  pub max_total_tokens : ℕ
  pub max_cost : ℕ

abbrev pub limits_of : Settings → Limits
limits_of s = record {
  max_calls = at_least_zero s.max_calls;
  max_input_tokens = at_least_zero s.max_input_tokens;
  max_output_tokens = at_least_zero s.max_output_tokens;
  max_total_tokens = at_least_zero s.max_total_tokens;
  max_cost = at_least_zero s.max_cost;
}

-- A reservation, or the reason of a ModelBudgetExceeded.
pub data Authorized : Type 0 where
  reserved : Reservation → Authorized
  exceeded : String → Authorized

abbrev pub within_cost : ℕ → ℕ → Option ℕ → Authorized → Authorized
within_cost limit used none answer = exceeded "model_currency_budget_unenforceable"
within_cost limit used (some cost) answer =
    if ltb limit (used + cost) then exceeded "model_currency_budget_exhausted" else answer

-- `input_bytes` is estimate_input_token_upper_bound of the input: the bytes of its JSON text.
unfoldable pub authorize_model_call : Settings → List Entry → List Entry → ℕ → ℤ → Authorized
authorize_model_call s existing pending input_bytes max_output_tokens =
    let t = budget_totals existing pending in
    let l = limits_of s in
    let output = at_least_zero max_output_tokens in
    let cost = reservation_cost s input_bytes output in
    let answer : Authorized =
      reserved
        (record { input_tokens = input_bytes; output_tokens = output; estimated_cost = cost }) in
    if leb l.max_calls t.call_count
    then exceeded "model_call_budget_exhausted"
    else if ltb l.max_input_tokens (t.input_tokens + input_bytes)
    then exceeded "model_input_token_budget_exhausted"
    else if ltb l.max_output_tokens (t.output_tokens + output)
    then exceeded "model_output_token_budget_exhausted"
    else if ltb l.max_total_tokens ((t.input_tokens + input_bytes) + (t.output_tokens + output))
    then exceeded "model_total_token_budget_exhausted"
    else if ltb 0 l.max_cost
    then within_cost l.max_cost t.cost cost answer
    else answer

-- What is left of the limits; the cost only where it is limited.
pub record Remaining : Type 0 where
  pub calls : ℕ
  pub input_tokens : ℕ
  pub output_tokens : ℕ
  pub total_tokens : ℕ
  pub cost : Option ℕ

pub record Ledger : Type 0 where
  pub calls : List Entry
  pub call_count : ℕ
  pub blocked_call_count : ℕ
  pub failed_call_count : ℕ
  pub usage_reported_calls : ℕ
  pub input_tokens : ℕ
  pub output_tokens : ℕ
  pub total_tokens : ℕ
  pub budget_input_tokens : ℕ
  pub budget_output_tokens : ℕ
  pub budget_total_tokens : ℕ
  pub budget_cost : Option ℕ
  pub budget_limits : Limits
  pub budget_remaining : Remaining
  pub budget_exhausted : Bool
  pub currency_budget_enabled : Bool
  pub stop_reasons : List String
  pub estimated_cost : Option ℕ
  pub cost_status : CostStatus

abbrev pub is_failed : CallStatus → Bool
is_failed succeeded = false
is_failed failed = true
is_failed blocked = false

-- `item.get("budget_cost_usd", item.get("estimated_cost_usd"))`
abbrev pub field_or : Field → Option ℕ → Option ℕ
field_or missing d = d
field_or null d = none
field_or (given n) d = some n

abbrev pub budget_cost_or_none : Entry → Option ℕ
budget_cost_or_none e = field_or e.budget_cost e.estimated_cost

abbrev pub add_known : Option ℕ → Option ℕ → Option ℕ
add_known none rest = rest
add_known (some c) rest = some (c + get_or rest 0)

-- The sum of the values that are not None, or None where there is none.
unfoldable pub sum_known : (Entry → Option ℕ) → List Entry → Option ℕ
sum_known f [] = none
sum_known f (e ∷ es) = add_known (f e) (sum_known f es)

abbrev pub add_reason : Option String → List String → List String
add_reason none reasons = reasons
add_reason (some reason) reasons = reason ∷ reasons

unfoldable pub reasons_of : List Entry → List String
reasons_of [] = []
reasons_of (e ∷ es) = add_reason e.stop_reason (reasons_of es)

unfoldable pub append_usage : Settings → List Entry → List Entry → Ledger
append_usage s existing entries =
    let calls = existing ++ entries in
    let l = limits_of s in
    let made = count was_made calls in
    let input = sum_of budget_input calls in
    let output = sum_of budget_output calls in
    let cost = sum_known budget_cost_or_none calls in
    let known = sum_known (λ e. e.estimated_cost) calls in
    record {
      calls = calls;
      call_count = made;
      blocked_call_count = count (λ e. not (was_made e)) calls;
      failed_call_count = count (λ e. is_failed e.status) calls;
      usage_reported_calls = count (λ e. e.usage_available) calls;
      input_tokens = sum_of (λ e. e.input_tokens) calls;
      output_tokens = sum_of (λ e. e.output_tokens) calls;
      total_tokens = sum_of (λ e. e.input_tokens) calls + sum_of (λ e. e.output_tokens) calls;
      budget_input_tokens = input;
      budget_output_tokens = output;
      budget_total_tokens = input + output;
      budget_cost = cost;
      budget_limits = l;
      budget_remaining = record {
        calls = l.max_calls - made;
        input_tokens = l.max_input_tokens - input;
        output_tokens = l.max_output_tokens - output;
        total_tokens = l.max_total_tokens - (input + output);
        cost = if ltb 0 l.max_cost then some (l.max_cost - get_or cost 0) else none;
      };
      budget_exhausted = not (is_empty (reasons_of calls));
      currency_budget_enabled = ltb 0 l.max_cost;
      stop_reasons = reasons_of calls;
      estimated_cost = known;
      cost_status = elim known [ none ↦ pricing_not_configured | some c ↦ configured_estimate ];
    }

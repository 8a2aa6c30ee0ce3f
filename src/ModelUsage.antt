-- ===== src/ModelUsage.antt =====
-- utils/model_usage.py: the entries of the calls of models, made, failed and blocked. Costs
-- are in units of 10^-8 dollars, to which the code rounds them, times in microseconds.
pub mod Accounting
pub mod Totals
pub mod Entries
pub mod Agreement
use incident_agent.Common.{
  ℕ, zero, suc, ◌+◌, ◌-◌, ◌*◌, max, ℤ, at_least_zero, String, Bool, true, false, ◌&&◌, ◌||◌, not,
  Option, none, some, List, [], ◌∷◌, ◌++◌, leb, ltb, count, if◌then◌else◌,
}
use incident_agent.Investigation.{get_or, is_empty}

-- The settings. The two rates are not negative; `round_cost n` is round(n / 1_000_000, 8).
pub record Settings : Type 0 where
  pub input_rate : ℕ
  pub output_rate : ℕ
  pub round_cost : ℕ → ℕ
  pub max_calls : ℤ
  pub max_input_tokens : ℤ
  pub max_output_tokens : ℤ
  pub max_total_tokens : ℤ
  pub max_cost : ℤ

-- remaining_deadline_seconds is not none and is not positive.
abbrev pub is_past : Option ℕ → ℕ → Bool
is_past none now = false
is_past (some deadline) now = leb deadline now

-- A number that may be missing in a dictionary or an object, or be None there.
pub data Field : Type 0 where
  missing null : Field
  given : ℕ → Field

-- `_field(x, name, d) or 0`
abbrev pub value_or : Field → ℕ → ℕ
value_or missing d = d
value_or null d = 0
value_or (given n) d = n

abbrev pub of_option : Option ℕ → Field
of_option none = null
of_option (some n) = given n

pub record Usage : Type 0 where
  pub input_tokens : Field
  pub prompt_tokens : Field
  pub output_tokens : Field
  pub completion_tokens : Field
  pub total_tokens : Field

-- A response, with the finish reasons of its choices; a text that is empty counts as missing.
pub record Response : Type 0 where
  pub id : Option String
  pub status : Option String
  pub choices : List (Option String)
  pub usage : Option Usage

-- `s[:n]`
unfoldable pub prefix : ℕ → String → String
prefix zero s = ""
prefix (suc n) String.[] = ""
prefix (suc n) (String.◌∷◌ c s) = String.◌∷◌ c (prefix n s)

abbrev pub cut : Option String → Option String
cut none = none
cut (some s) = some (prefix 100 s)

abbrev pub choice_reason : List (Option String) → Option String
choice_reason [] = none
choice_reason (reason ∷ rest) = cut reason

-- _finish_reason
unfoldable pub finish_reason : Response → Option String
finish_reason r = elim r.status [ some status ↦ cut (some status) | none ↦ choice_reason r.choices ]

pub data CallStatus : Type 0 where
  succeeded failed blocked : CallStatus

pub data CostStatus : Type 0 where
  configured_estimate configured_reservation pricing_not_configured not_incurred : CostStatus

-- An entry of the ledger; those of older versions lack some of the fields.
pub record Entry : Type 0 where
  pub stage : String
  pub model : String
  pub provider_request_id : Option String
  pub usage_available : Bool
  pub provider_call_made : Option Bool
  pub status : CallStatus
  pub finish_reason : Option String
  pub latency_ms : Option ℕ
  pub input_tokens : ℕ
  pub output_tokens : ℕ
  pub total_tokens : ℕ
  pub budget_input_tokens : Field
  pub budget_output_tokens : Field
  pub request_parameters : String
  pub estimated_cost : Option ℕ
  pub budget_cost : Field
  pub cost_status : CostStatus
  pub stop_reason : Option String

-- What authorize_model_call answers; the limits are those of the settings.
pub record Reservation : Type 0 where
  pub input_tokens : ℕ
  pub output_tokens : ℕ
  pub estimated_cost : Option ℕ

-- What the entries of a call have in common.
pub record Request : Type 0 where
  pub stage : String
  pub model : String
  pub parameters : String

abbrev pub prompt_of : Option Usage → ℕ
prompt_of none = 0
prompt_of (some u) = value_or u.input_tokens (value_or u.prompt_tokens 0)

abbrev pub completion_of : Option Usage → ℕ
completion_of none = 0
completion_of (some u) = value_or u.output_tokens (value_or u.completion_tokens 0)

-- `x or d`
abbrev pub positive_or : ℕ → ℕ → ℕ
positive_or zero d = d
positive_or (suc n) d = suc n

abbrev pub total_of : Option Usage → ℕ
total_of none = prompt_of none + completion_of none
total_of (some u) =
    let both = prompt_of (some u) + completion_of (some u) in
    positive_or (value_or u.total_tokens both) both

-- `prompt if usage is not None else reservation["input_tokens"]`
abbrev pub reported_or : Option Usage → ℕ → ℕ → ℕ
reported_or none booked used = booked
reported_or (some u) booked used = used

abbrev pub is_priced : Settings → Bool
is_priced s = ltb 0 s.input_rate || ltb 0 s.output_rate

-- _reservation_cost
unfoldable pub reservation_cost : Settings → ℕ → ℕ → Option ℕ
reservation_cost s input output =
    if is_priced s
    then some (s.round_cost (input * s.input_rate + output * s.output_rate))
    else none

-- `estimated_cost if estimated_cost is not None else reservation["estimated_cost_usd"]`
abbrev pub cost_or : Option ℕ → Option ℕ → Option ℕ
cost_or (some cost) booked = some cost
cost_or none booked = booked

unfoldable pub usage_entry : Settings → Request → Response → Reservation → ℕ → Entry
usage_entry s q r reservation latency =
    let prompt = prompt_of r.usage in
    let completion = completion_of r.usage in
    let cost = reservation_cost s prompt completion in
    record {
      stage = q.stage;
      model = q.model;
      provider_request_id = r.id;
      usage_available = elim r.usage [ none ↦ false | some u ↦ true ];
      provider_call_made = some true;
      status = succeeded;
      finish_reason = finish_reason r;
      latency_ms = some latency;
      input_tokens = prompt;
      output_tokens = completion;
      total_tokens = total_of r.usage;
      budget_input_tokens = given (reported_or r.usage reservation.input_tokens prompt);
      budget_output_tokens = given (reported_or r.usage reservation.output_tokens completion);
      request_parameters = q.parameters;
      estimated_cost = cost;
      budget_cost = of_option (cost_or cost reservation.estimated_cost);
      cost_status = if is_priced s then configured_estimate else pricing_not_configured;
      stop_reason = none;
    }

unfoldable pub failed_usage_entry : Settings → Request → Reservation → ℕ → String → Entry
failed_usage_entry s q reservation latency error_type =
    let cost = reservation_cost s reservation.input_tokens reservation.output_tokens in
    record {
      stage = q.stage;
      model = q.model;
      provider_request_id = none;
      usage_available = false;
      provider_call_made = some true;
      status = failed;
      finish_reason = cut (some error_type);
      latency_ms = some latency;
      input_tokens = 0;
      output_tokens = 0;
      total_tokens = 0;
      budget_input_tokens = given reservation.input_tokens;
      budget_output_tokens = given reservation.output_tokens;
      request_parameters = q.parameters;
      estimated_cost = cost;
      budget_cost = of_option cost;
      cost_status = elim cost [ none ↦ pricing_not_configured | some c ↦ configured_reservation ];
      stop_reason = none;
    }

unfoldable pub blocked_usage_entry : Request → String → Entry
blocked_usage_entry q reason = record {
  stage = q.stage;
  model = q.model;
  provider_request_id = none;
  usage_available = false;
  provider_call_made = some false;
  status = blocked;
  finish_reason = none;
  latency_ms = some 0;
  input_tokens = 0;
  output_tokens = 0;
  total_tokens = 0;
  budget_input_tokens = given 0;
  budget_output_tokens = given 0;
  request_parameters = q.parameters;
  estimated_cost = none;
  budget_cost = given 0;
  cost_status = not_incurred;
  stop_reason = some (prefix 160 reason);
}

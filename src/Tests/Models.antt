-- ===== src/Tests/Models.antt =====
-- Concrete requests to the model provider, and their ledger.
use incident_agent.Common.{ℕ, zero, suc, ◌≤◌, pos, refl, ap, count, none, some, [], arith}
use incident_agent.ModelUsage.{
  Settings, given, missing, prompt_of, completion_of, Entry, blocked_usage_entry,
}
use incident_agent.ModelUsage.Accounting.{budget_totals, limits_of, sum_of}
use incident_agent.ModelUsage.Totals.{IsWithin}
use incident_agent.ModelClient.{
  Policy, Asked, Called, responded, raised, World, Client, create_response,
}
use incident_agent.ModelClient.Budget.{ReportsWithin, Kept, create_response-IsWithin}

abbrev settings : Settings
settings = record {
  input_rate = 2;
  output_rate = 8;
  round_cost = λ n. n;
  max_calls = pos 3;
  max_input_tokens = pos 100;
  max_output_tokens = pos 100;
  max_total_tokens = pos 150;
  max_cost = pos 1000;
}

abbrev policy : Policy
policy = record { retry_attempts = 1; timeout = 30; circuit_open = 60 }

abbrev asked : Asked
asked = record {
  stage = "rca";
  model = "m";
  input_bytes = 20;
  max_output_tokens = pos 10;
  deadline_at = none;
  parameters = λ i. "{}";
}

-- The first attempt times out, the second is answered.
abbrev answer : ℕ → Called
answer zero = raised "APITimeoutError"
answer (suc i) = responded (record {
  id = some "resp_1";
  status = some "completed";
  choices = [];
  usage = some (record {
    input_tokens = given 12;
    prompt_tokens = missing;
    output_tokens = given 7;
    completion_tokens = missing;
    total_tokens = given 19;
  });
})

abbrev world : World
world = record {
  wall = λ i. 10;
  call = λ i timeout. answer i;
  latency = λ i. 1;
  started = 5;
  ended = 9;
}

abbrev prompt_called : Called → ℕ
prompt_called (raised e) = 0
prompt_called (responded r) = prompt_of r.usage

abbrev completion_called : Called → ℕ
completion_called (raised e) = 0
completion_called (responded r) = completion_of r.usage

prompts : (i : ℕ) → prompt_called (answer i) ≤ 20
prompts zero = omega arith
prompts (suc i) = omega arith

completions : (i : ℕ) → completion_called (answer i) ≤ 10
completions zero = omega arith
completions (suc i) = omega arith

world-ReportsWithin : ReportsWithin world asked 0 0
world-ReportsWithin i timeout r e = (
  omega (arith, ap prompt_called e, prompts i),
  omega (arith, ap completion_called e, completions i),
)

abbrev client : Client
client = record { opened_until = 0; entries = some [] }

none_used : IsWithin (limits_of settings) 0 0 (budget_totals [] [])
unfolding budget_totals sum_of count
none_used = record {
  calls = omega arith;
  input = omega arith;
  output = omega arith;
  total = omega arith;
  money = λ z p. omega arith;
}

create_response-IsWithin_example :
    Kept settings policy world [] asked 0 0
      (λ m n h. h)
      world-ReportsWithin
      []
      2
      (create_response settings policy world [] asked client).1.entries
create_response-IsWithin_example =
    create_response-IsWithin settings policy world [] asked 0 0 (λ m n h. h) world-ReportsWithin
      client [] refl none_used

abbrev refused : Entry
refused =
    blocked_usage_entry (record { stage = "rca"; model = "m"; parameters = "{}" })
      "model_call_budget_exhausted"

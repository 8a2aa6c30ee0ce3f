-- ===== src/Tests/Agents.antt =====
-- Concrete tool calls, expansion rounds and requests to the model provider.
use incident_agent.Common.{
  ℕ, ◌+◌, String, ◌≡◌, refl, ◌⊎◌, true, false, none, some, List, [], ◌∷◌, arith,
}
use incident_agent.Investigation.{Limits, Loop, initialize_loop, stored, Texts, Budget, Round}
use incident_agent.Investigation.Rounds.{expand, Ended, expand-Ended}
use incident_agent.Tools.{object, text}
use incident_agent.Tools.Session.{Budget as SessionBudget, Context, returned, Dispatched, run}
use incident_agent.Tools.Limits.{Call, IsWithin, run_all, run_all-IsWithin}
use incident_agent.Tools.Guards.{Reaches, run-Reaches}

abbrev pub limits : Limits
limits = record { max_rounds = 3; max_services = 5; max_result_bytes = 100; max_elapsed = 60000000 }

abbrev pub loop : Loop
loop =
    initialize_loop limits
      (record {
        round = none;
        max_rounds = none;
        max_services = none;
        max_result_bytes = none;
        used_result_bytes = none;
        max_elapsed = none;
        started_at = none;
        elapsed = none;
        continue_expansion = none;
        stop_reason = none;
        stop_details = none;
      })
      5

abbrev texts : Texts
texts = record { sorted_set = λ xs. xs; round_milliseconds = λ n. n; redact = λ s. s }

abbrev budget : Budget
budget = record { max_remote_units = 4; used_remote_units = 0; expansion_loop = stored loop }

-- A round that integrates a record and asks for more.
abbrev found : Round
found = record {
  traces = [];
  expansion_recommended = true;
  expansion_reason = none;
  candidates = [];
  integrated_records = 1;
  targeted_reason = none;
  source_failures = false;
  query_ids = "q1" ∷ [];
}

abbrev spend : ℕ → Budget → Budget
spend i b = record b { used_remote_units = b.used_remote_units + 1 }

expand-Ended_example :
    Ended limits texts spend
      (λ i. found)
      (λ i. 10)
      3
      budget
      []
      (expand limits texts spend (λ i. found) (λ i. 10) 3 0 budget [])
unfolding initialize_loop
expand-Ended_example =
    expand-Ended limits texts spend (λ i. found) (λ i. 10) 3 0 budget [] (λ i b. (refl, refl))
      (omega arith) (omega arith)

abbrev pub context : Context ℕ
context = record {
  scope = record { services = "api" ∷ "db" ∷ []; alert_service = some "api" };
  deadline_at = some 50000000;
  lower = λ s. s;
  round_milliseconds = λ n. n;
  cache_key = λ name args. name;
  compact = λ n. n;
  size = λ n. n;
}

abbrev session : SessionBudget ℕ
session = record {
  max_remote_units = 1;
  used_remote_units = 0;
  tool_cache = [];
  tool_history = [];
  expansion_loop = loop;
}

-- A search in the logs of a service that is not the alert's.
abbrev pub search : Call ℕ
search = record {
  name = "search_logs";
  args = object (("service", text "db") ∷ []);
  dispatch = λ args. returned 60;
  now = 10;
}

run_all-IsWithin_example : IsWithin session (run_all context session (search ∷ search ∷ []))
unfolding initialize_loop
run_all-IsWithin_example =
    run_all-IsWithin context session (search ∷ search ∷ []) (omega arith) (omega arith)
      (omega arith) (omega arith)

run-Reaches_example :
    Reaches context session "search_logs" search.args 10
    ⊎ ((d e : List (String × String) → Dispatched ℕ)
        → run context session "search_logs" search.args d 10
          ≡ run context session "search_logs" search.args e 10)
run-Reaches_example = run-Reaches context session "search_logs" search.args 10

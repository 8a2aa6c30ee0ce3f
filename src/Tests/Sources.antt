-- ===== src/Tests/Sources.antt =====
-- Concrete calls of utils/resilience.py.
use incident_agent.Common.{ℕ, ◌+◌, pos, String, ◌≡◌, ◌≤◌, ◌<◌, ◌↔◌, Bool, List, [], ◌∷◌, leb}
use incident_agent.Resilience.{http_error, Policy, Call, request, circuit_open}
use incident_agent.Resilience.Breaker.{
  request_all, history, no_circuits, in_a_row, blocked_until, request-circuit_open,
}

abbrev policies : String → Policy
policies source = record { retry_attempts = pos 2; retry_backoff = 1; circuit_open = 60 }

abbrev is_error : ℕ → Bool
is_error status = leb 400 status

abbrev failing : ℕ → Call
failing now = record {
  source = "loki";
  sent = λ i. http_error "ConnectTimeout";
  now = now;
  ended = now + 5;
}

abbrev failures : List Call
failures = failing 10 ∷ failing 20 ∷ failing 30 ∷ []

request-circuit_open_example :
    let h = history is_error policies "loki" no_circuits [] failures in
    ((request is_error policies (request_all is_error policies no_circuits failures) (failing 50)).0
      ≡ circuit_open)
    ↔ ((3 ≤ in_a_row h) × (50 < blocked_until 60 h))
request-circuit_open_example = request-circuit_open is_error policies failures (failing 50)

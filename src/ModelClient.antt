-- ===== src/ModelClient.antt =====
-- clients/openai_client.py: create_response, the loop around every request to the model provider,
-- with its circuit, its deadline and the budget of utils/model_usage.py. Times are in microseconds.
pub mod Budget
use incident_agent.Common.{
  ℕ, zero, suc, ◌+◌, ◌-◌, ◌*◌, min, max, ℤ, String, Bool, true, false, Option, none, some, List, [],
  ◌∷◌, ◌++◌, ltb, if◌then◌else◌,
}
use incident_agent.ModelUsage.{
  Settings, is_past, Response, Entry, Reservation, Request, usage_entry, failed_usage_entry,
  blocked_usage_entry,
}
use incident_agent.ModelUsage.Accounting.{Authorized, reserved, exceeded, authorize_model_call}

-- LLM_RETRY_ATTEMPTS, LLM_TIMEOUT_SECONDS and LLM_CIRCUIT_OPEN_SECONDS
pub record Policy : Type 0 where
  pub retry_attempts : ℕ
  pub timeout : ℕ
  pub circuit_open : ℕ

-- The keywords of create_response; `input_bytes` are those of `input` alone, and `parameters` is the
-- text of the dictionary of an attempt.
pub record Asked : Type 0 where
  pub stage : String
  pub model : String
  pub input_bytes : ℕ
  pub max_output_tokens : ℤ
  pub deadline_at : Option ℕ
  pub parameters : ℕ → String

-- The provider responds, or an exception of a type is raised.
pub data Called : Type 0 where
  responded : Response → Called
  raised : String → Called

-- The world at the attempts: the wall clock before each, the provider at a timeout, the latencies,
-- and the monotonic clock at the start and at the end.
pub record World : Type 0 where
  pub wall : ℕ → ℕ
  pub call : ℕ → ℕ → Called
  pub latency : ℕ → ℕ
  pub started : ℕ
  pub ended : ℕ

-- A response, an LLMProviderError of an attempt, or the end of the attempts.
pub data Tried : Type 0 where
  response : Response → Tried
  provider_error : String → Tried
  out_of_attempts : Tried

-- The client's state: `_CIRCUIT["opened_until"]`, and the entries that the caller has passed.
pub record Client : Type 0 where
  pub opened_until : ℕ
  pub entries : Option (List Entry)

-- `budget_entries.append(entry)`, where there is a list
abbrev pub note : Option (List Entry) → Entry → Option (List Entry)
note none e = none
note (some es) e = some (es ++ e ∷ [])

-- `list(pending or [])`
abbrev pub noted : Option (List Entry) → List Entry
noted none = []
noted (some es) = es

-- `min(LLM_TIMEOUT_SECONDS, max(remaining, 0.001))`
abbrev pub request_timeout : Policy → Option ℕ → ℕ → ℕ
request_timeout p none now = p.timeout
request_timeout p (some deadline) now = min p.timeout (max (deadline - now) 1000)

abbrev pub request_of : Asked → ℕ → Request
request_of a i = record { stage = a.stage; model = a.model; parameters = a.parameters i }

-- What an attempt comes to: its entry, and the answer or another attempt.
pub data Attempt : Type 0 where
  done : Tried → Entry → Attempt
  again : Entry → Attempt

unfoldable pub called_entry : Settings → Asked → ℕ → ℕ → Reservation → Called → Attempt
called_entry s a i latency reservation (responded r) =
    done (response r) (usage_entry s (request_of a i) r reservation latency)
called_entry s a i latency reservation (raised error_type) =
    again (failed_usage_entry s (request_of a i) reservation latency error_type)

abbrev pub authorized_attempt : Settings → Asked → ℕ → ℕ → Authorized → Called → Attempt
authorized_attempt s a i latency (reserved reservation) called =
    called_entry s a i latency reservation called
authorized_attempt s a i latency (exceeded reason) called =
    done (provider_error reason) (blocked_usage_entry (request_of a i) reason)

-- One attempt that the deadline allows. The provider's answer is only used where it is called.
unfoldable pub attempt :
    Settings → Policy → World → List Entry → Asked → ℕ → Option (List Entry) → Attempt
attempt s p w ledger a i entries =
    authorized_attempt s a i (w.latency i)
      (authorize_model_call s ledger (noted entries) a.input_bytes a.max_output_tokens)
      (w.call i (request_timeout p a.deadline_at (w.wall i)))

-- The attempts from the `i`-th on.
unfoldable pub attempts :
    Settings
    → Policy
    → World
    → List Entry
    → Asked
    → ℕ
    → ℕ
    → Option (List Entry)
    → Tried × Option (List Entry)
attempts s p w ledger a zero i entries = (out_of_attempts, entries)
attempts s p w ledger a (suc left) i entries =
    if is_past a.deadline_at (w.wall i)
    then (provider_error "incident analysis deadline exhausted", entries)
    else elim (attempt s p w ledger a i entries) [
      | done t e ↦ (t, note entries e)
      | again e ↦ attempts s p w ledger a left (suc i) (note entries e)
    ]

-- reset_circuit after a response, and the opened circuit after the last attempt
abbrev pub settle : Policy → World → ℕ → Tried × Option (List Entry) → Tried × Client
settle p w opened (response r, es) = (response r, record { opened_until = 0; entries = es })
settle p w opened (provider_error e, es) =
    (provider_error e, record { opened_until = opened; entries = es })
settle p w opened (out_of_attempts, es) = (
  provider_error "provider request failed",
  record { opened_until = w.ended + p.circuit_open; entries = es },
)

-- The messages stand without the stage in front.
unfoldable pub create_response :
    Settings → Policy → World → List Entry → Asked → Client → Tried × Client
create_response s p w ledger a c =
    if ltb w.started c.opened_until
    then (provider_error "provider circuit is open", c)
    else settle p w c.opened_until (attempts s p w ledger a (suc p.retry_attempts) 0 c.entries)

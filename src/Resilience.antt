-- ===== src/Resilience.antt =====
-- utils/resilience.py: request, the retries and the circuit of every call of an external source. What
-- httpx answers and what the clock shows are arguments. Redaction is left out.
pub mod Breaker
use incident_agent.Common.{
  ℕ, zero, suc, ◌+◌, ◌*◌, max, ℤ, at_least_zero, String, Bool, true, false, ◌&&◌, ◌||◌, not, Option,
  none, some, List, [], ◌∷◌, str_eq, ◌==◌, leb, ltb, if◌then◌else◌,
}

-- httpx.request returns a response, of which the status and the id of the request are read, or
-- raises an HTTPError of a type.
pub data Sent : Type 0 where
  responded : ℕ → Option String → Sent
  http_error : String → Sent

pub data Category : Type 0 where
  forbidden rate_limited invalid_query failed : Category

-- _http_category
unfoldable pub http_category : ℕ → Category
http_category status =
    if status == 401 || status == 403
    then forbidden
    else if status == 429
    then rate_limited
    else if (status == 400 || status == 404) || (status == 405 || status == 422)
    then invalid_query
    else failed

-- What an attempt comes to.
pub data Judged : Type 0 where
  success : ℕ → Judged
  final : Category → ℕ → Option String → Judged
  server_error network_error : String → Judged

abbrev pub judge_category : Category → ℕ → Option String → Judged
judge_category forbidden status id = final forbidden status id
judge_category rate_limited status id = final rate_limited status id
judge_category invalid_query status id = final invalid_query status id
judge_category failed status id = server_error "HTTPStatusError"

-- `raises status` is whether httpx's raise_for_status raises.
unfoldable pub judge : (ℕ → Bool) → Sent → Judged
judge raises (http_error name) = network_error name
judge raises (responded status id) =
    if raises status then judge_category (http_category status) status id else success status

-- The policy of a source; `backoff` is in a unit of time.
pub record Policy : Type 0 where
  pub retry_attempts : ℤ
  pub retry_backoff : ℕ
  pub circuit_open : ℕ

pub data Tried : Type 0 where
  answered : ℕ → Tried
  fatal : Category → ℕ → Option String → Tried
  out_of_attempts : String → Tried

-- `if attempt + 1 < attempts: time.sleep(...)`
abbrev pub slept : ℕ → ℕ → ℕ → List ℕ → List ℕ
slept backoff zero attempt sleeps = sleeps
slept backoff (suc left) attempt sleeps = backoff * suc attempt ∷ sleeps

-- The attempts from the `attempt`-th on, with the sleeps.
unfoldable pub attempts : (ℕ → Bool) → ℕ → (ℕ → Sent) → ℕ → ℕ → String → Tried × List ℕ
attempts raises backoff sent zero attempt last = (out_of_attempts last, [])
attempts raises backoff sent (suc left) attempt last = elim (judge raises (sent attempt)) [
  | success status ↦ (answered status, [])
  | final category status id ↦ (fatal category status id, [])
  | server_error name ↦ attempts raises backoff sent left (suc attempt) name
  | network_error name ↦
      let rest = attempts raises backoff sent left (suc attempt) name in
      (rest.0, slept backoff left attempt rest.1)
]

-- An entry of `_STATE`.
pub record Circuit : Type 0 where
  pub failures : ℕ
  pub open_until : ℕ

-- `_STATE`, as a function of the source.
abbrev pub Circuits : Type 0
Circuits = String → Option Circuit

abbrev pub set : Circuits → String → Option Circuit → Circuits
set cs source c = λ x. if str_eq x source then c else cs x

abbrev pub failures_of : Option Circuit → ℕ
failures_of none = 0
failures_of (some c) = c.failures

abbrev pub open_until_of : Option Circuit → ℕ
open_until_of none = 0
open_until_of (some c) = c.open_until

pub data Requested : Type 0 where
  response : ℕ → Requested
  connector_error : Category → ℕ → Option String → Requested
  circuit_open : Requested
  source_unavailable : ℕ → String → Requested

-- A call: its source, what httpx answers to each attempt, and the clock at its start and its end.
pub record Call : Type 0 where
  pub source : String
  pub sent : ℕ → Sent
  pub now : ℕ
  pub ended : ℕ

-- `max(int(policy["retry_attempts"]), 1)`
abbrev pub attempts_of : Policy → ℕ
attempts_of p = max (at_least_zero p.retry_attempts) 1

abbrev pub counted : Policy → ℕ → Option Circuit → Circuit
counted p ended c = record {
  failures = failures_of c + 1;
  open_until = if leb 3 (failures_of c + 1) then ended + p.circuit_open else 0;
}

abbrev pub settle : Policy → Circuits → Call → Tried → Requested × Circuits
settle p cs x (answered status) = (response status, set cs x.source none)
settle p cs x (fatal category status id) = (connector_error category status id, cs)
settle p cs x (out_of_attempts last) = (
  source_unavailable (attempts_of p) last,
  set cs x.source (some (counted p x.ended (cs x.source))),
)

-- The egress rules have let the URL pass. `policies` is SOURCE_REQUEST_POLICIES with the default
-- for the other sources.
unfoldable pub request : (ℕ → Bool) → (String → Policy) → Circuits → Call → Requested × Circuits
request raises policies cs x =
    let p = policies x.source in
    if ltb x.now (open_until_of (cs x.source))
    then (circuit_open, cs)
    else settle p cs x (attempts raises p.retry_backoff x.sent (attempts_of p) 0 "NoneType").0

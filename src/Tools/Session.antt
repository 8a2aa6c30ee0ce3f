-- ===== src/Tools/Session.antt =====
-- utils/tool_budget.py: ToolSession. A result is any value; compact_result, the size in bytes and
-- the key of the cache are parameters, and so is what a dispatched tool answers.
use incident_agent.Common.{
  ℕ, ◌+◌, ◌-◌, String, Bool, ◌&&◌, not, Option, none, some, List, [], ◌∷◌, ◌++◌, take, length,
  str_eq, ltb, leb, find, if◌then◌else◌,
}
use incident_agent.Investigation.{Loop, elapsed_since, is_empty}
use incident_agent.ModelUsage.{is_past}
use incident_agent.Tools.{
  Arguments, Violation, Validated, normalized, refused, validate_tool_request, Scope, argument,
  remote_cost, is_member,
}

pub data Status : Type 0 where
  policy_blocked blocked cache executed : Status

-- The arguments are redacted when they are stored; redaction is left out.
pub record Entry : Type 0 where
  pub tool : String
  pub args : List (String × String)
  pub remote_units : ℕ
  pub result_bytes : ℕ
  pub status : Status

pub record Cached {ℓ} (R : Type ℓ) : Type ℓ where
  pub key : String
  pub result : R

pub record Budget {ℓ} (R : Type ℓ) : Type ℓ where
  pub max_remote_units : ℕ
  pub used_remote_units : ℕ
  pub tool_cache : List (Cached R)
  pub tool_history : List Entry
  pub expansion_loop : Loop

-- A tool answers, or raises.
pub data Dispatched {ℓ} (R : Type ℓ) : Type ℓ where
  returned : R → Dispatched R
  raised : String → Dispatched R

pub data Answer {ℓ} (R : Type ℓ) : Type ℓ where
  result : R → Answer R
  policy_violation : Violation → Answer R
  deadline_exhausted elapsed_exhausted : Answer R
  loop_stopped : String → Answer R
  remote_exhausted : ℕ → ℕ → Answer R
  outside_scope : String → Answer R
  bytes_exhausted : ℕ → ℕ → Answer R
  propagated : String → Answer R

-- What a session reads of its state, and what Python's library computes.
pub record Context {ℓ} (R : Type ℓ) : Type ℓ where
  pub scope : Scope
  pub deadline_at : Option ℕ
  pub lower : String → String
  pub round_milliseconds : ℕ → ℕ
  pub cache_key : String → List (String × String) → String
  pub compact : R → R
  pub size : R → ℕ

-- `loop.get("stop_reason") and loop.get("round", 0) > 0`
abbrev pub stopped : Loop → Option String
stopped l = elim l.stop_reason [
  | none ↦ none
  | some reason ↦ if not (str_eq reason "") && ltb 0 l.round then some reason else none
]

-- `service and allowed and service not in allowed`, the services cut to those of the loop
unfoldable pub outside : Scope → ℕ → Option String → Option String
outside scope max_services none = none
outside scope max_services (some service) =
    let allowed = take max_services scope.services in
    if not (is_empty allowed) && not (is_member allowed service) then some service else none

abbrev pub args_of : Validated → List (String × String)
args_of (normalized args) = args
args_of (refused v) = []

module _ {ℓ} {R : Type ℓ} where
  abbrev pub with_key : String → Cached R → Bool
  with_key key c = str_eq c.key key

  -- _record
  unfoldable pub record_call :
      Budget R → String → List (String × String) → ℕ → Status → ℕ → Budget R
  record_call b name args units status bytes =
      if ltb (length b.tool_history) 20
      then record b {
        tool_history =
            b.tool_history
            ++ record {
              tool = name;
              args = args;
              remote_units = units;
              result_bytes = bytes;
              status = status;
            }
              ∷ [];
      }
      else b

  abbrev pub charge : Budget R → ℕ → ℕ → Budget R
  charge b cost used_bytes = record b {
    used_remote_units = b.used_remote_units + cost;
    expansion_loop = record b.expansion_loop { used_result_bytes = used_bytes };
  }

  -- `if len(tool_cache) < 16`, the entry of the key is set
  abbrev pub remember : Budget R → String → R → Budget R
  remember b key compact =
      if ltb (length b.tool_cache) 16
      then record b { tool_cache = b.tool_cache ++ record { key = key; result = compact } ∷ [] }
      else b

  -- What is done with the answer of the tool.
  unfoldable pub after_dispatch :
      Context R
      → Budget R
      → String
      → List (String × String)
      → String
      → ℕ
      → Dispatched R
      → Answer R × Budget R
  after_dispatch c b name args key cost (raised e) = (propagated e, b)
  after_dispatch c b name args key cost (returned r) =
      let l = b.expansion_loop in
      let compact = c.compact r in
      let size = c.size compact in
      if ltb l.max_result_bytes (l.used_result_bytes + size)
      then (
        bytes_exhausted size (l.max_result_bytes - l.used_result_bytes),
        record_call (charge b cost l.max_result_bytes) name args cost blocked size,
      )
      else (
        result compact,
        record_call (remember (charge b cost (l.used_result_bytes + size)) key compact) name args
            cost executed size,
      )

  abbrev pub after_scope :
      Context R
      → Budget R
      → String
      → List (String × String)
      → String
      → ℕ
      → Dispatched R
      → Option String
      → Answer R × Budget R
  after_scope c b name args key cost d (some service) =
      (outside_scope service, record_call b name args 0 blocked 0)
  after_scope c b name args key cost d none = after_dispatch c b name args key cost d

  unfoldable pub after_cache :
      Context R
      → Budget R
      → String
      → List (String × String)
      → String
      → Dispatched R
      → Option (Cached R)
      → Answer R × Budget R
  after_cache c b name args key d (some found) =
      (result found.result, record_call b name args 0 cache 0)
  after_cache c b name args key d none =
      let cost = remote_cost c.scope name args in
      if ltb b.max_remote_units (b.used_remote_units + cost)
      then (
        remote_exhausted cost (b.max_remote_units - b.used_remote_units),
        record_call b name args 0 blocked 0,
      )
      else after_scope c b name args key cost d
          (outside c.scope b.expansion_loop.max_services (argument "service" args))

  abbrev pub after_stop :
      Context R
      → Budget R
      → String
      → List (String × String)
      → Dispatched R
      → ℕ
      → Option String
      → Answer R × Budget R
  after_stop c b name args d elapsed (some reason) =
      (loop_stopped reason, record_call b name args 0 blocked 0)
  after_stop c b name args d elapsed none =
      if leb b.expansion_loop.max_elapsed elapsed
      then (elapsed_exhausted, record_call b name args 0 blocked 0)
      else (let key = c.cache_key name args in
          after_cache c b name args key d (find (with_key key) b.tool_cache))

  -- The arguments of a refused request have been replaced by None, so {} is recorded.
  unfoldable pub after_policy :
      Context R → Budget R → String → Dispatched R → ℕ → Validated → Answer R × Budget R
  after_policy c b name d now (refused v) =
      (policy_violation v, record_call b name [] 0 policy_blocked 0)
  after_policy c b name d now (normalized args) =
      if is_past c.deadline_at now
      then (deadline_exhausted, record_call b name args 0 blocked 0)
      else (let elapsed = elapsed_since b.expansion_loop.started_at now in
          let b' = record b {
            expansion_loop = record b.expansion_loop { elapsed = c.round_milliseconds elapsed };
          } in
          after_stop c b' name args d elapsed (stopped b'.expansion_loop))

  -- `dispatch` is only called where every guard lets the request pass.
  unfoldable pub run :
      Context R
      → Budget R
      → String
      → Arguments
      → (List (String × String) → Dispatched R)
      → ℕ
      → Answer R × Budget R
  run c b name args dispatch now =
      let v = validate_tool_request c.lower name args in
      after_policy c b name (dispatch (args_of v)) now v

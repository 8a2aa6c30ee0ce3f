-- ===== src/Tools.antt =====
-- utils/tool_budget.py: what an LLM may ask of the tools, and what it costs.
pub mod Session
pub mod Limits
pub mod Guards
use Prim.Native.String.{count as characters}
use incident_agent.Common.{
  ℕ, zero, suc, ◌+◌, ◌≤◌, min, String, Bool, true, false, ◌&&◌, ◌||◌, not, Option, none, some, List,
  [], ◌∷◌, ◌++◌, str_eq, leb, find, select, length, is_some, if◌then◌else◌,
}

-- A value of a tool's argument.
pub data Value : Type 0 where
  null : Value
  text : String → Value
  other_value : Value

-- `args or {}`: a dictionary, or another value.
pub data Arguments : Type 0 where
  object : List (String × Value) → Arguments
  not_object : Arguments

-- ("string", max_length, allowed)
pub record Rule : Type 0 where
  pub name : String
  pub max_length : ℕ
  pub allowed : Option (List String)

abbrev pub rule : String → ℕ → Rule
rule name max_length = record { name = name; max_length = max_length; allowed = none }

abbrev pub levels : List String
levels = "error" ∷ "warn" ∷ "info" ∷ "debug" ∷ []

-- TOOL_ARGUMENT_POLICY
unfoldable pub policy : String → Option (List Rule)
policy name =
    if str_eq name "discover_related_services"
    then some []
    else if str_eq name "search_logs"
    then some (
        rule "pattern" 240
        ∷ rule "service" 128
        ∷ record { name = "level"; max_length = 16; allowed = some levels }
        ∷ [])
    else if str_eq name "get_trace"
    then some (rule "trace_id" 128 ∷ [])
    else if str_eq name "get_log_context"
    then some (rule "event_id" 255 ∷ [])
    else if str_eq name "get_service_dependencies"
    then some (rule "service" 128 ∷ [])
    else none

-- Why a request is refused; the text names the first three of the unexpected keys, sorted.
pub data Violation : Type 0 where
  not_allowlisted not_an_object : Violation
  unexpected : List String → Violation
  not_a_string too_long outside_enum : String → Violation

pub data Validated : Type 0 where
  normalized : List (String × String) → Validated
  refused : Violation → Validated

abbrev pub is_rule : String → Rule → Bool
is_rule key r = str_eq r.name key

abbrev pub is_member : List String → String → Bool
is_member xs x = is_some (find (λ y. str_eq y x) xs)

-- `set(args) - set(policy)`
unfoldable pub unexpected_keys : List Rule → List (String × Value) → List String
unexpected_keys rules [] = []
unexpected_keys rules ((key, value) ∷ args) =
    let rest = unexpected_keys rules args in
    if is_some (find (is_rule key) rules) then rest else key ∷ rest

abbrev pub in_enum : (String → String) → Option (List String) → String → Bool
in_enum lower none s = true
in_enum lower (some allowed) s = is_member allowed (lower s)

-- `value.lower() if allowed is not None else value`
abbrev pub normal : (String → String) → Option (List String) → String → String
normal lower none s = s
normal lower (some allowed) s = lower s

abbrev pub normalize_text : (String → String) → Rule → String → String → Validated → Validated
normalize_text lower r key s rest =
    if not (leb (characters s) r.max_length)
    then refused (too_long key)
    else if not (in_enum lower r.allowed s)
    then refused (outside_enum key)
    else elim rest [
      | refused v ↦ refused v
      | normalized args ↦ normalized ((key, normal lower r.allowed s) ∷ args)
    ]

abbrev pub normalize_value :
    (String → String) → Option Rule → String → Value → Validated → Validated
normalize_value lower none key value rest = rest
normalize_value lower (some r) key null rest = rest
normalize_value lower (some r) key other_value rest = refused (not_a_string key)
normalize_value lower (some r) key (text s) rest = normalize_text lower r key s rest

-- The loop over the arguments, of which each key has a rule by now. The first refusal counts.
unfoldable pub normalize : (String → String) → List Rule → List (String × Value) → Validated
normalize lower rules [] = normalized []
normalize lower rules ((key, value) ∷ args) =
    normalize_value lower (find (is_rule key) rules) key value (normalize lower rules args)

abbrev pub validate_keys :
    (String → String) → List Rule → List (String × Value) → List String → Validated
validate_keys lower rules args [] = normalize lower rules args
validate_keys lower rules args (key ∷ keys) = refused (unexpected (key ∷ keys))

abbrev pub validate_under : (String → String) → Option (List Rule) → Arguments → Validated
validate_under lower none args = refused not_allowlisted
validate_under lower (some rules) not_object = refused not_an_object
validate_under lower (some rules) (object args) =
    validate_keys lower rules args (unexpected_keys rules args)

-- `lower` is Python's str.lower.
unfoldable pub validate_tool_request : (String → String) → String → Arguments → Validated
validate_tool_request lower name args = validate_under lower (policy name) args

-- `scope_expansion` of the state; an alert service or a service that is missing or empty is none.
pub record Scope : Type 0 where
  pub services : List String
  pub alert_service : Option String

abbrev pub is_service : Option String → String → Bool
is_service none s = false
is_service (some a) s = str_eq a s

-- `args.get(key)`, where an empty text counts as missing
abbrev pub text_or_none : Option (String × String) → Option String
text_or_none none = none
text_or_none (some (k, v)) = if str_eq v "" then none else some v

unfoldable pub argument : String → List (String × String) → Option String
argument key args = text_or_none (find (λ a. str_eq a.0 key) args)

abbrev pub search_cost : Scope → Option String → ℕ
search_cost scope none = 0
search_cost scope (some service) = if is_service scope.alert_service service then 0 else 1

unfoldable pub remote_cost : Scope → String → List (String × String) → ℕ
remote_cost scope name args =
    if str_eq name "discover_related_services"
      || (str_eq name "get_log_context" || str_eq name "get_service_dependencies")
    then 0
    else if str_eq name "get_trace"
    then min (length (select (λ s. not (is_service scope.alert_service s)) scope.services)) 2
    else if str_eq name "search_logs"
    then search_cost scope (argument "service" args)
    else 1

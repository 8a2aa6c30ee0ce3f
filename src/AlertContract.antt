-- ===== src/AlertContract.antt =====
-- webhook/alert_contract.py: the validation of an alert payload. The payload is JSON that has been
-- parsed; of a value only what the validation tells apart is kept. Of an error the code is kept.
pub mod Accepted
use Prim.Native.String.{count as characters}
use incident_agent.Common.{
  ℕ, zero, suc, String, Bool, true, false, ◌&&◌, ◌||◌, not, Option, none, some, List, [], ◌∷◌,
  length, str_eq, leb, ltb, find, if◌then◌else◌,
}
use incident_agent.Tools.{is_member}

-- A value of `labels` or `annotations`.
pub data Item : Type 0 where
  item_text : String → Item
  other_item : Item

-- A value of a field. Lists and objects cannot be looked up in a set; a Python value that is false
-- is null, an empty text, list or object, or `falsy`; of a list the length is kept.
pub data Value : Type 0 where
  null falsy truthy : Value
  array : ℕ → Value
  text : String → Value
  object : List (String × Item) → Value

pub data Alert : Type 0 where
  fields : List (String × Value) → Alert
  not_an_object : Alert

pub data Payload : Type 0 where
  no_object : Payload
  single : List (String × Value) → Payload
  batch : List Alert → Payload
  alerts_no_list : Payload

-- AlertContractError by its code; a TypeError is raised by a lookup of a list or an object.
pub data Fault : Type 0 where
  contract_error : String → Fault
  type_error : Fault

pub data Checked : Type 0 where
  passed : Checked
  refused : Fault → Checked

-- `then_check a b` goes on with b where a has passed.
abbrev pub then_check : Checked → Checked → Checked
then_check passed rest = rest
then_check (refused e) rest = refused e

abbrev pub require : Bool → String → Checked
require b code = if b then passed else refused (contract_error code)

-- The arguments of the validation; `is_iso` is whether fromisoformat reads the text with "Z" as
-- "+00:00", `is_blank` whether strip leaves nothing.
pub record Contract : Type 0 where
  pub max_alerts : ℕ
  pub max_labels : ℕ
  pub max_annotations : ℕ
  pub max_field_length : ℕ
  pub supported_services : Option (List String)
  pub supported_environments : Option (List String)
  pub default_environment : Option String
  pub is_iso : String → Bool
  pub is_blank : String → Bool

abbrev pub of_pair {ℓ} : {A : Type ℓ} → Option (String × A) → Option A
of_pair none = none
of_pair (some (k, v)) = some v

-- `alert.get(field)`
abbrev pub value_of {ℓ} : {A : Type ℓ} → String → List (String × A) → Option A
value_of key xs = of_pair (find (λ x. str_eq x.0 key) xs)

abbrev pub is_short : ℕ → String → Bool
is_short maximum s = leb (characters s) maximum

-- _validate_text
abbrev pub check_text : ℕ → Option Value → Checked
check_text maximum none = passed
check_text maximum (some null) = passed
check_text maximum (some (text s)) = require (is_short maximum s) "field_too_long"
check_text maximum (some _) = refused (contract_error "invalid_field_type")

unfoldable pub check_items : ℕ → List (String × Item) → Checked
check_items maximum [] = passed
check_items maximum ((key, other_item) ∷ xs) = refused (contract_error "invalid_field_type")
check_items maximum ((key, item_text s) ∷ xs) =
    then_check (require (is_short maximum key && is_short maximum s) "field_too_long")
      (check_items maximum xs)

-- _validate_mapping
abbrev pub check_mapping : ℕ → ℕ → Option Value → Checked
check_mapping maximum max_length none = passed
check_mapping maximum max_length (some null) = passed
check_mapping maximum max_length (some (object xs)) =
    then_check (require (leb (length xs) maximum) "too_many_fields") (check_items max_length xs)
check_mapping maximum max_length (some _) = refused (contract_error "invalid_field_type")

abbrev pub item_or_none : Option Item → Option String
item_or_none none = none
item_or_none (some other_item) = none
item_or_none (some (item_text s)) = some s

-- `alert.get("labels") or {}`, which is a dictionary after _validate_mapping
abbrev pub labels_of : Option Value → List (String × Item)
labels_of (some (object xs)) = xs
labels_of _ = []

abbrev pub is_named : Contract → Option String → Bool
is_named c none = false
is_named c (some s) = not (c.is_blank s)

abbrev pub text_of : Option Value → Option String
text_of (some (text s)) = some s
text_of _ = none

-- _has_identity
unfoldable pub has_identity : Contract → List (String × Value) → Bool
has_identity c alert =
    let labels = labels_of (value_of "labels" alert) in
    is_named c (text_of (value_of "alertname" alert))
    || (is_named c (text_of (value_of "service" alert))
        || (is_named c (item_or_none (value_of "alertname" labels))
            || (is_named c (item_or_none (value_of "service" labels))
                || is_named c (item_or_none (value_of "job" labels)))))

abbrev pub check_status : Option Value → Checked
check_status none = passed
check_status (some null) = passed
check_status (some (text s)) = require (str_eq s "firing" || str_eq s "resolved") "invalid_status"
check_status (some (array n)) = refused type_error
check_status (some (object xs)) = refused type_error
check_status (some _) = refused (contract_error "invalid_status")

-- _is_timestamp, where the value is not None
abbrev pub check_time : Contract → Option Value → Checked
check_time c none = passed
check_time c (some null) = passed
check_time c (some (text s)) = require (not (c.is_blank s) && c.is_iso s) "invalid_timestamp"
check_time c (some _) = refused (contract_error "invalid_timestamp")

-- `a or b` on texts that may be missing or empty
abbrev pub or_else : Option String → Option String → Option String
or_else none rest = rest
or_else (some s) rest = if str_eq s "" then rest else some s

-- `x in supported`, of which no name is empty
abbrev pub is_supported : List String → Option String → Bool
is_supported supported none = false
is_supported supported (some s) = is_member supported s

unfoldable pub service_of : List (String × Value) → Option String
service_of alert =
    let labels = labels_of (value_of "labels" alert) in
    or_else (text_of (value_of "service" alert))
      (or_else (item_or_none (value_of "service" labels)) (item_or_none (value_of "job" labels)))

abbrev pub check_service : Option (List String) → Option String → Checked
check_service none service = passed
check_service (some supported) service =
    require (is_supported supported service) "unsupported_service"

unfoldable pub label_environment : Contract → List (String × Value) → Option String
label_environment c alert =
    let labels = labels_of (value_of "labels" alert) in
    or_else (item_or_none (value_of "environment" labels))
      (or_else (item_or_none (value_of "env" labels)) c.default_environment)

-- The field `environment` is not validated: a list or an object that is not empty fails the lookup.
abbrev pub check_environment_in : List String → Option Value → Option String → Checked
check_environment_in supported (some (array zero)) other =
    require (is_supported supported other) "unsupported_environment"
check_environment_in supported (some (array (suc n))) other = refused type_error
check_environment_in supported (some (object [])) other =
    require (is_supported supported other) "unsupported_environment"
check_environment_in supported (some (object (x ∷ xs))) other = refused type_error
check_environment_in supported (some truthy) other =
    refused (contract_error "unsupported_environment")
check_environment_in supported (some (text s)) other =
    require (is_supported supported (or_else (some s) other)) "unsupported_environment"
check_environment_in supported _ other =
    require (is_supported supported other) "unsupported_environment"

abbrev pub check_environment : Option (List String) → Option Value → Option String → Checked
check_environment none value other = passed
check_environment (some supported) value other = check_environment_in supported value other

unfoldable pub check_texts : ℕ → List (String × Value) → List String → Checked
check_texts maximum alert [] = passed
check_texts maximum alert (field ∷ rest) =
    then_check (check_text maximum (value_of field alert)) (check_texts maximum alert rest)

abbrev pub text_fields : List String
text_fields =
    "incident_id" ∷ "service" ∷ "severity" ∷ "alertname" ∷ "message" ∷ "fingerprint"
    ∷ "generatorURL" ∷ []

unfoldable pub validate_fields : Contract → List (String × Value) → Checked
validate_fields c alert = then_check (check_texts c.max_field_length alert text_fields) (
    then_check (check_mapping c.max_labels c.max_field_length (value_of "labels" alert)) (
      then_check (check_mapping c.max_annotations c.max_field_length (value_of "annotations" alert))
        (then_check (check_status (value_of "status" alert)) (
          then_check (check_time c (value_of "startsAt" alert)) (
            then_check (check_time c (value_of "endsAt" alert)) (
              then_check (require (has_identity c alert) "missing_identity") (
                then_check (check_service c.supported_services (service_of alert)) (
                  check_environment c.supported_environments (value_of "environment" alert)
                    (label_environment c alert)))))))))

-- _validate_alert
unfoldable pub validate_alert : Contract → Alert → Checked
validate_alert c not_an_object = refused (contract_error "invalid_alert")
validate_alert c (fields alert) = validate_fields c alert

unfoldable pub validate_all : Contract → List Alert → Checked
validate_all c [] = passed
validate_all c (a ∷ xs) = then_check (validate_alert c a) (validate_all c xs)

pub data Validated : Type 0 where
  alerts : List Alert → Validated
  rejected : Fault → Validated

abbrev pub answer : List Alert → Checked → Validated
answer xs passed = alerts xs
answer xs (refused e) = rejected e

abbrev pub validate_alerts : Contract → List Alert → Validated
validate_alerts c xs =
    answer xs
      (then_check (require (leb (length xs) c.max_alerts) "too_many_alerts") (validate_all c xs))

unfoldable pub validate_alert_payload : Contract → Payload → Validated
validate_alert_payload c no_object = rejected (contract_error "invalid_payload")
validate_alert_payload c alerts_no_list = rejected (contract_error "invalid_alerts")
validate_alert_payload c (batch []) = rejected (contract_error "empty_alerts")
validate_alert_payload c (batch (a ∷ xs)) = validate_alerts c (a ∷ xs)
validate_alert_payload c (single alert) = validate_alerts c (fields alert ∷ [])

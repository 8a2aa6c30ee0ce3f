-- ===== src/Tests/Alerts.antt =====
-- A concrete payload of webhook/alert_contract.py.
use incident_agent.Common.{
  ◌≤◌, String, ◌≡◌, refl, true, false, none, some, List, [], ◌∷◌, All, find,
}
use incident_agent.AlertContract.{
  text, item_text, object, Alert, fields, Payload, single, Contract, alerts, validate_alert_payload,
  validate_alert, validate_fields, validate_all, check_texts, check_items, has_identity, service_of,
  label_environment,
}
use incident_agent.AlertContract.Accepted.{IsAcceptedAlert, validate_alert_payload-All}

abbrev contract : Contract
contract = record {
  max_alerts = 2;
  max_labels = 3;
  max_annotations = 3;
  max_field_length = 20;
  supported_services = some ("api" ∷ "db" ∷ []);
  supported_environments = none;
  default_environment = none;
  is_iso = λ s. true;
  is_blank = λ s. false;
}

abbrev alert : List (String × incident_agent.AlertContract.Value)
alert =
    ("status", text "firing")
    ∷ ("alertname", text "HighLatency")
    ∷ ("labels", object (("service", item_text "api") ∷ []))
    ∷ []

accepted : validate_alert_payload contract (single alert) ≡ alerts (fields alert ∷ [])
unfolding validate_alert_payload validate_all validate_alert validate_fields check_texts check_items
    has_identity service_of find
accepted = refl

validate_alert_payload-All_example :
    ((fields alert ∷ []) ≡ (fields alert ∷ []))
    × (1 ≤ 1)
    × (1 ≤ 2)
    × All (IsAcceptedAlert contract) (fields alert ∷ [])
validate_alert_payload-All_example =
    validate_alert_payload-All contract (single alert) (fields alert ∷ []) accepted

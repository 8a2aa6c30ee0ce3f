-- ===== src/Tests/Identities.antt =====
-- Concrete runs of get_or_create_incident_id in webhook/incident_store.py.
use incident_agent.Common.{ℕ, ◌≡◌, refl, false, some, []}
use incident_agent.Identity.{
  Texts, Alert, IdDb, is_supplied, incident_key, format_id, get_or_create_incident_id,
}
use incident_agent.Identity.Sequence.{IsNumbered, get_or_create_again}
use incident_agent.Store.Keys.{decimal}
use incident_agent.Tests.Queue.{env}

abbrev texts : Texts
texts = record { isdigit = λ s. false; isoformat = λ n. "bucket" }

abbrev alert_at : ℕ → Alert
alert_at epoch = record {
  incident_id = "";
  fingerprint = "f1";
  upstream_incident_id = "";
  alertname = "DiskFull";
  started_at = some epoch;
  started_text = "";
  service = "db";
  tenant_id = "unknown";
}

abbrev no_ids : IdDb
no_ids = record { mappings = []; next_value = some 100001 }

no_ids-IsNumbered : IsNumbered 100001 no_ids
no_ids-IsNumbered = record { consecutive = tt; next = refl }

padded : format_id 42 ≡ "INC-000042"
unfolding format_id decimal
padded = refl

get_or_create_again_example :
    let (answer, db) = get_or_create_incident_id env texts 300 no_ids (alert_at 1000) 10 in
    get_or_create_incident_id env texts 300 db (alert_at 1100) 20 ≡ (answer, db)
get_or_create_again_example =
    get_or_create_again env texts 300 100001 no_ids (alert_at 1000) (alert_at 1100) 10 20
      no_ids-IsNumbered (unfold is_supplied in refl) (unfold is_supplied in refl)
      (unfold incident_key in refl)

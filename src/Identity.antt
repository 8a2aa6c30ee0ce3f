-- ===== src/Identity.antt =====
-- webhook/incident_store.py: get_or_create_incident_id, one incident per fingerprint, service, time
-- bucket and tenant. A function takes the tables incident_id_map and incident_id_sequence, and
-- returns its result with the tables that its transaction leaves behind.
pub mod Sequence
use Prim.Native.String.{slice, len, ◌++◌ as str_append}
use incident_agent.Common.{
  ℕ, zero, suc, ◌+◌, ◌-◌, ◌*◌, ◌%◌, max, String, Bool, true, false, ◌&&◌, not, Option, none, some,
  List, [], ◌∷◌, ◌++◌, str_eq, ◌==◌, leb, find, if◌then◌else◌, is_some,
}
use incident_agent.Store.{Env}
use incident_agent.Store.Keys.{decimal}

-- What Python's library computes: `str.isdigit`, and `isoformat` of the UTC time of an epoch.
pub record Texts : Type 0 where
  pub isdigit : String → Bool
  pub isoformat : ℕ → String

-- The fields that are read of an alert, with their defaults; an empty text is a missing one.
-- `started_at` is the epoch that _mysql_datetime reads, and `started_text` the text as it came.
pub record Alert : Type 0 where
  pub incident_id : String
  pub fingerprint : String
  pub upstream_incident_id : String
  pub alertname : String
  pub started_at : Option ℕ
  pub started_text : String
  pub service : String
  pub tenant_id : String

-- incident_id_map
pub record Mapping : Type 0 where
  pub incident_key : String
  pub incident_id : String
  pub created_at : ℕ

-- incident_id_sequence has one row, or none before it is initialized.
pub record IdDb : Type 0 where
  pub mappings : List Mapping
  pub next_value : Option ℕ

pub data Result : Type 0 where
  ok : String → Result
  not_initialized : Result

-- `supplied.startswith("INC-") and supplied[4:].isdigit() and len(supplied) >= 10`
unfoldable pub is_supplied : Texts → String → Bool
is_supplied t supplied =
    str_eq (slice supplied 0 4) "INC-"
    && (t.isdigit (slice supplied 4 (len supplied)) && leb 10 (len supplied))

abbrev pub or_text : String → String → String
or_text a b = if str_eq a "" then b else a

-- `epoch - (epoch % bucket_seconds)`, or the text of a time that is none
abbrev pub bucket_value : Texts → ℕ → Option ℕ → String → String
bucket_value t bucket_seconds none started = started
bucket_value t bucket_seconds (some epoch) started =
    t.isoformat (epoch - epoch % max bucket_seconds 1)

unfoldable pub incident_key : Env → Texts → ℕ → Alert → String
incident_key env t bucket_seconds a = env.sha256 (
    str_append (or_text a.fingerprint (or_text a.upstream_incident_id a.alertname)) (
      str_append "|" (
        str_append a.service (
          str_append "|" (
            str_append (bucket_value t bucket_seconds a.started_at a.started_text)
              (str_append "|" a.tenant_id))))))

abbrev pub zeros : ℕ → String
zeros zero = ""
zeros (suc n) = str_append "0" (zeros n)

-- f"INC-{value:06d}"
unfoldable pub format_id : ℕ → String
format_id value = let d = decimal value in str_append "INC-" (str_append (zeros (6 - len d)) d)

abbrev pub with_key : String → Mapping → Bool
with_key key m = str_eq m.incident_key key

abbrev pub allocate : Option ℕ → IdDb → String → ℕ → Result × IdDb
allocate none db key now = (not_initialized, db)
allocate (some value) db key now = (
  ok (format_id value),
  record {
    mappings =
        db.mappings
        ++ record { incident_key = key; incident_id = format_id value; created_at = now } ∷ [];
    next_value = some (value + 1);
  },
)

abbrev pub found_or_allocate : Option Mapping → IdDb → String → ℕ → Result × IdDb
found_or_allocate (some m) db key now = (ok m.incident_id, db)
found_or_allocate none db key now = allocate db.next_value db key now

-- The mapping is read again under the lock of the sequence, which decides.
unfoldable pub lookup_or_allocate : IdDb → String → ℕ → Result × IdDb
lookup_or_allocate db key now = found_or_allocate (find (with_key key) db.mappings) db key now

unfoldable pub get_or_create_incident_id : Env → Texts → ℕ → IdDb → Alert → ℕ → Result × IdDb
get_or_create_incident_id env t bucket_seconds db a now =
    if is_supplied t a.incident_id
    then (ok a.incident_id, db)
    else lookup_or_allocate db (incident_key env t bucket_seconds a) now

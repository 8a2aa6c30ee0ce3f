-- ===== src/AlertContract/Accepted.antt =====
-- What is known of an accepted payload, and when the validation itself fails.
use Prim.Native.String.{count as characters}
use incident_agent.Common.{
  ℕ, ◌≤◌, String, ◌≡◌, refl, ◌⊎◌, Bool, true, false, ◌&&◌, Option, none, some, List, [], ◌∷◌, All,
  length, str_eq, eq_iff, leb, arith, Bool-cases, inl, inr,
}
use incident_agent.AlertContract.{
  Item, item_text, other_item, Value, null, text, object, array, falsy, truthy, Alert, fields,
  not_an_object, Payload, no_object, single, batch, alerts_no_list, Checked, passed, refused,
  then_check, require, Contract, value_of, is_short, check_text, check_items, check_mapping,
  has_identity, check_status, check_time, is_supported, service_of, check_service, check_texts,
  text_fields, validate_fields, validate_alert, validate_all, alerts, answer, validate_alerts,
  validate_alert_payload,
}

-- A field that is missing, null, or a text of at most so many characters.
abbrev pub IsShortText : ℕ → Option Value → Type 0
IsShortText maximum none = Unit
IsShortText maximum (some null) = Unit
IsShortText maximum (some (text s)) = characters s ≤ maximum
IsShortText maximum (some _) = ⊥

abbrev pub IsShortItem : ℕ → String × Item → Type 0
IsShortItem maximum (key, item_text s) = (characters key ≤ maximum) × (characters s ≤ maximum)
IsShortItem maximum (key, other_item) = ⊥

-- A field that is missing, null, or an object of at most so many short texts.
abbrev pub IsShortMapping : ℕ → ℕ → Option Value → Type 0
IsShortMapping maximum max_length none = Unit
IsShortMapping maximum max_length (some null) = Unit
IsShortMapping maximum max_length (some (object xs)) =
    (length xs ≤ maximum) × All (IsShortItem max_length) xs
IsShortMapping maximum max_length (some _) = ⊥

abbrev pub IsStatus : Option Value → Type 0
IsStatus none = Unit
IsStatus (some null) = Unit
IsStatus (some (text s)) = (s ≡ "firing") ⊎ (s ≡ "resolved")
IsStatus (some _) = ⊥

abbrev pub IsAmong : Option (List String) → Option String → Type 0
IsAmong none x = Unit
IsAmong (some supported) x = is_supported supported x ≡ true

-- What the rest of the program may rely on of an accepted alert.
pub record IsAccepted (c : Contract) (a : List (String × Value)) : Type 0 where
  pub texts : All (λ field. IsShortText c.max_field_length (value_of field a)) text_fields
  pub labels : IsShortMapping c.max_labels c.max_field_length (value_of "labels" a)
  pub annotations : IsShortMapping c.max_annotations c.max_field_length (value_of "annotations" a)
  pub status : IsStatus (value_of "status" a)
  pub identity : has_identity c a ≡ true
  pub service : IsAmong c.supported_services (service_of a)

abbrev pub IsAcceptedAlert : Contract → Alert → Type 0
IsAcceptedAlert c (fields a) = IsAccepted c a
IsAcceptedAlert c not_an_object = ⊥

both_passed : (a b : Checked) → then_check a b ≡ passed → (a ≡ passed) × (b ≡ passed)
both_passed passed b e = (refl, e)
both_passed (refused f) b e = absurd (grind arith)

required : (b : Bool) (code : String) → require b code ≡ passed → b ≡ true
required true code e = refl
required false code e = absurd (grind arith)

check_text-IsShortText : (m : ℕ) (v : Option Value) → check_text m v ≡ passed → IsShortText m v
check_text-IsShortText m none e = tt
check_text-IsShortText m (some null) e = tt
check_text-IsShortText m (some (text s)) e = ground (arith, required _ _ e)
check_text-IsShortText m (some falsy) e = absurd (grind arith)
check_text-IsShortText m (some truthy) e = absurd (grind arith)
check_text-IsShortText m (some (array n)) e = absurd (grind arith)
check_text-IsShortText m (some (object xs)) e = absurd (grind arith)

check_texts-All :
    (m : ℕ) (a : List (String × Value)) (names : List String)
    → check_texts m a names ≡ passed
    → All (λ field. IsShortText m (value_of field a)) names
unfolding check_texts
check_texts-All m a [] e = tt
check_texts-All m a (x ∷ xs) e =
    let b = both_passed (check_text m (value_of x a)) _ e in
    (check_text-IsShortText m (value_of x a) b.0, check_texts-All m a xs b.1)

check_items-All :
    (m : ℕ) (xs : List (String × Item)) → check_items m xs ≡ passed → All (IsShortItem m) xs
unfolding check_items
check_items-All m [] e = tt
check_items-All m ((key, other_item) ∷ xs) e = absurd (grind arith)
check_items-All m ((key, item_text s) ∷ xs) e =
    let b = both_passed (require (is_short m key && is_short m s) _) _ e in
    let short = required _ _ b.0 in ((ground arith, ground arith), check_items-All m xs b.1)

check_mapping-IsShortMapping :
    (n m : ℕ) (v : Option Value) → check_mapping n m v ≡ passed → IsShortMapping n m v
check_mapping-IsShortMapping n m none e = tt
check_mapping-IsShortMapping n m (some null) e = tt
check_mapping-IsShortMapping n m (some (object xs)) e =
    let b = both_passed (require (leb (length xs) n) _) _ e in
    let few = required _ _ b.0 in (ground arith, check_items-All m xs b.1)
check_mapping-IsShortMapping n m (some falsy) e = absurd (grind arith)
check_mapping-IsShortMapping n m (some truthy) e = absurd (grind arith)
check_mapping-IsShortMapping n m (some (array k)) e = absurd (grind arith)
check_mapping-IsShortMapping n m (some (text s)) e = absurd (grind arith)

check_status-IsStatus : (v : Option Value) → check_status v ≡ passed → IsStatus v
check_status-IsStatus none e = tt
check_status-IsStatus (some null) e = tt
check_status-IsStatus (some (text s)) e = elim (Bool-cases (str_eq s "firing")) [
  | inl q ↦ inl ((eq_iff _ _).0 q)
  | inr q ↦ inr ((eq_iff _ _).0 (let r = required _ _ e in rw q at r))
]
check_status-IsStatus (some falsy) e = absurd (grind arith)
check_status-IsStatus (some truthy) e = absurd (grind arith)
check_status-IsStatus (some (array n)) e = absurd (grind arith)
check_status-IsStatus (some (object xs)) e = absurd (grind arith)

check_service-IsAmong :
    (supported : Option (List String)) (x : Option String)
    → check_service supported x ≡ passed
    → IsAmong supported x
check_service-IsAmong none x e = tt
check_service-IsAmong (some supported) x e = required _ _ e

validate_alert-IsAcceptedAlert :
    (c : Contract) (a : Alert) → validate_alert c a ≡ passed → IsAcceptedAlert c a
unfolding validate_alert validate_fields
validate_alert-IsAcceptedAlert c not_an_object e = absurd (grind arith)
validate_alert-IsAcceptedAlert c (fields a) e =
    let texts = both_passed (check_texts c.max_field_length a text_fields) _ e in
    let labels =
      both_passed (check_mapping c.max_labels c.max_field_length (value_of "labels" a)) _ texts.1 in
    let annotations =
      both_passed (check_mapping c.max_annotations c.max_field_length (value_of "annotations" a)) _
        labels.1 in
    let status = both_passed (check_status (value_of "status" a)) _ annotations.1 in
    let starts = both_passed (check_time c (value_of "startsAt" a)) _ status.1 in
    let ends = both_passed (check_time c (value_of "endsAt" a)) _ starts.1 in
    let identity = both_passed (require (has_identity c a) _) _ ends.1 in
    let service = both_passed (check_service c.supported_services (service_of a)) _ identity.1 in
    record {
      texts = check_texts-All c.max_field_length a text_fields texts.0;
      labels = check_mapping-IsShortMapping _ _ _ labels.0;
      annotations = check_mapping-IsShortMapping _ _ _ annotations.0;
      status = check_status-IsStatus _ status.0;
      identity = required _ _ identity.0;
      service = check_service-IsAmong _ _ service.0;
    }

validate_all-All :
    (c : Contract) (xs : List Alert) → validate_all c xs ≡ passed → All (IsAcceptedAlert c) xs
unfolding validate_all
validate_all-All c [] e = tt
validate_all-All c (a ∷ xs) e =
    let b = both_passed (validate_alert c a) _ e in
    (validate_alert-IsAcceptedAlert c a b.0, validate_all-All c xs b.1)

answered : (xs ys : List Alert) (k : Checked) → answer xs k ≡ alerts ys → (k ≡ passed) × (xs ≡ ys)
answered xs ys passed e = (refl, grind arith)
answered xs ys (refused f) e = absurd (grind arith)

validate_alerts-All :
    (c : Contract) (xs ys : List Alert)
    → validate_alerts c xs ≡ alerts ys
    → (xs ≡ ys) × (length xs ≤ c.max_alerts) × All (IsAcceptedAlert c) xs
validate_alerts-All c xs ys e =
    let a = answered xs ys _ e in
    let b = both_passed (require (leb (length xs) c.max_alerts) _) _ a.0 in
    let few = required _ _ b.0 in (a.1, ground arith, validate_all-All c xs b.1)

-- The alerts that a payload brings.
abbrev pub sent_alerts : Payload → List Alert
sent_alerts (single a) = fields a ∷ []
sent_alerts (batch xs) = xs
sent_alerts no_object = []
sent_alerts alerts_no_list = []

-- The alerts of an accepted payload are those that it brings, at least one and at most max_alerts.
-- Each is an object with short texts, short and small labels and annotations, a known status or
-- none, an identity, and a supported service where services are restricted.
pub validate_alert_payload-All :
    (c : Contract) (p : Payload) (xs : List Alert)
    → validate_alert_payload c p ≡ alerts xs
    → (xs ≡ sent_alerts p)
      × (1 ≤ length xs)
      × (length xs ≤ c.max_alerts)
      × All (IsAcceptedAlert c) xs
unfolding validate_alert_payload
validate_alert_payload-All c no_object xs e = absurd (grind arith)
validate_alert_payload-All c alerts_no_list xs e = absurd (grind arith)
validate_alert_payload-All c (batch []) xs e = absurd (grind arith)
validate_alert_payload-All c (batch (a ∷ rest)) xs e =
    let v = validate_alerts-All c (a ∷ rest) xs e in rw (← v.0) (refl, omega arith, v.1, v.2)
validate_alert_payload-All c (single a) xs e =
    let v = validate_alerts-All c (fields a ∷ []) xs e in rw (← v.0) (refl, omega arith, v.1, v.2)

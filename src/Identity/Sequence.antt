-- ===== src/Identity/Sequence.antt =====
-- The incident ids are those of the sequence, one for each key.
use incident_agent.Common.{
  ℕ, ◌+◌, String, ◌≡◌, refl, ap, ◌∙◌, false, none, some, List, [], ◌∷◌, ◌++◌, length, length-append,
  ◌≢◌, eq_refl, find, find-append, arith, Bool-cases, Option-cases, inl, inr, ◌⊎◌,
}
use incident_agent.Store.{Env}
use incident_agent.Identity.{
  Texts, Alert, Mapping, IdDb, ok, not_initialized, is_supplied, incident_key, format_id, with_key,
  allocate, lookup_or_allocate, get_or_create_incident_id,
}

-- The ids are those of the numbers from `n` on.
abbrev pub IsConsecutive : ℕ → List Mapping → Type 0
IsConsecutive n [] = Unit
IsConsecutive n (m ∷ ms) = (m.incident_id ≡ format_id n) × IsConsecutive (n + 1) ms

-- The ids are those of the numbers from `start` on, and the sequence continues them.
pub record IsNumbered (start : ℕ) (db : IdDb) : Type 0 where
  pub consecutive : IsConsecutive start db.mappings
  pub next : db.next_value ≡ some (start + length db.mappings)

IsConsecutive-append :
    (n : ℕ) (ms : List Mapping) (m : Mapping)
    → IsConsecutive n ms
    → m.incident_id ≡ format_id (n + length ms)
    → IsConsecutive n (ms ++ m ∷ [])
IsConsecutive-append n [] m c e = (e ∙ ap format_id (omega arith), tt)
IsConsecutive-append n (x ∷ ms) m c e =
    (c.0, IsConsecutive-append (n + 1) ms m c.1 (e ∙ ap format_id (omega arith)))

module _ (start : ℕ) (db : IdDb) (key : String) (now : ℕ) (s : IsNumbered start db) where
  -- A lookup finds the mapping, or appends the one of the next number.
  looked_up :
      ((m : Mapping) × (find (with_key key) db.mappings ≡ some m)
        × (lookup_or_allocate db key now ≡ (ok m.incident_id, db)))
      ⊎ ((find (with_key key) db.mappings ≡ none)
          × (lookup_or_allocate db key now
              ≡ allocate (some (start + length db.mappings)) db key now))
  unfolding lookup_or_allocate
  looked_up = elim (Option-cases (find (with_key key) db.mappings)) [
    | inl e ↦ inr (e, rw (e, s.next) refl)
    | inr (m, e) ↦ inl (m, e, rw e refl)
  ]

  allocate-IsNumbered : IsNumbered start (allocate (some (start + length db.mappings)) db key now).1
  allocate-IsNumbered = record {
    consecutive = IsConsecutive-append start db.mappings _ s.consecutive refl;
    next = rw length-append (ap some (omega arith));
  }

  lookup-IsNumbered :
      let (answer, db') = lookup_or_allocate db key now in
      (answer ≢ not_initialized) × IsNumbered start db'
  lookup-IsNumbered = elim looked_up [
    | inl (m, e, q) ↦ rw q ((λ x. grind arith), s)
    | inr (e, q) ↦ rw q ((λ x. grind arith), allocate-IsNumbered)
  ]

-- From tables whose ids are those of consecutive numbers that the sequence continues, a call
-- answers with an id and leaves such tables.
pub get_or_create-IsNumbered :
    (env : Env) (t : Texts) (bucket_seconds start : ℕ) (db : IdDb) (a : Alert) (now : ℕ)
    → IsNumbered start db
    → let (answer, db') = get_or_create_incident_id env t bucket_seconds db a now in
      (answer ≢ not_initialized) × IsNumbered start db'
unfolding get_or_create_incident_id
get_or_create-IsNumbered env t n start db a now s =
    elim (Bool-cases (is_supplied t a.incident_id)) [
      | inl e ↦ rw e ((λ x. grind arith), s)
      | inr e ↦ rw e (lookup-IsNumbered start db (incident_key env t n a) now s)
    ]

-- A later lookup of a key is answered with the same id.
lookup_again :
    (start : ℕ) (db : IdDb) (key : String) (now now' : ℕ) (s : IsNumbered start db)
    → let (answer, db') = lookup_or_allocate db key now in
      lookup_or_allocate db' key now' ≡ (answer, db')
unfolding lookup_or_allocate
lookup_again start db key now now' s = elim (looked_up start db key now s) [
  | inl (m, e, q) ↦ rw q (rw e refl)
  | inr (e, q) ↦ rw q (rw (find-append, e) (unfold find in rw eq_refl refl))
]

-- From such tables, an alert that does not bring an id of its own and has the incident key of the
-- alert that was answered just before it is answered with the same id, and changes nothing.
pub get_or_create_again :
    (env : Env) (t : Texts) (bucket_seconds start : ℕ) (db : IdDb) (a b : Alert) (now now' : ℕ)
    → IsNumbered start db
    → is_supplied t a.incident_id ≡ false
    → is_supplied t b.incident_id ≡ false
    → incident_key env t bucket_seconds b ≡ incident_key env t bucket_seconds a
    → let (answer, db') = get_or_create_incident_id env t bucket_seconds db a now in
      get_or_create_incident_id env t bucket_seconds db' b now' ≡ (answer, db')
unfolding get_or_create_incident_id
get_or_create_again env t n start db a b now now' s x y k =
    rw (x, y, k) (lookup_again start db (incident_key env t n a) now now' s)

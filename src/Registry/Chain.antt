-- ===== src/Registry/Chain.antt =====
-- Every stored history of webhook/registry.py is an unbroken chain of allowed transitions.
use mathlib.Core.List.{foldl, foldl-append}
use incident_agent.Common.{
  ℕ, ◌+◌, String, ◌≡◌, refl, Bool, true, false, Option, none, some, List, [], ◌∷◌, ◌++◌, str_eq,
  find, All, find-All, update_where-All, arith, Bool-cases, Option-cases, inl, inr,
}
use incident_agent.Lifecycle.{
  Status, received, collecting, analyzing, awaiting_analysis_review, drafting_postmortem,
  awaiting_publish_review, completed, resolved, allowed, validate_transition,
}
use incident_agent.Registry.{
  Entry, Row, Result, ok, err, save, advance, is_stale, is_resolved, get_lifecycle,
  transition_lifecycle, resolve_incident, reopen_incident, version_of, status_of, history_of,
  of_thread, reopen_step, reopen_loop, store_reopened, resolution,
}

-- A history from the first entry on, the status that it ends in, and its length.
pub data IsChain : List Entry → Option Status → ℕ → Type 0 where
  start : IsChain [] none 0
  more :
      {h : List Entry} {s : Option Status} {n : ℕ} (e : Entry)
      → IsChain h s n
      → e.from ≡ s
      → allowed s e.to ≡ true
      → e.version ≡ n + 1
      → IsChain (h ++ e ∷ []) (some e.to) (n + 1)

-- A row's history is a chain that ends in its status and has its version as length.
pub record IsAudited (r : Row) : Type 0 where
  pub chain : IsChain r.history (some r.status) r.version

AuditedBefore : (row : Option Row) → Type 0
AuditedBefore none = Unit
AuditedBefore (some r) = IsAudited r

IsChain-before :
    (row : Option Row)
    → AuditedBefore row
    → IsChain (history_of row) (status_of row) (version_of row)
unfolding AuditedBefore
IsChain-before none a = start
IsChain-before (some r) a = a.chain

advance-IsAudited :
    (row : Option Row) (thread_id : String) (t : Status) (reason : Option String) (now : ℕ)
    → AuditedBefore row
    → validate_transition (status_of row) t ≡ none
    → IsAudited (advance row thread_id t reason now)
unfolding advance validate_transition
advance-IsAudited row thread_id t reason now a v = record {
  chain =
      more
        (record {
          from = status_of row;
          to = t;
          version = version_of row + 1;
          at = now;
          reason = reason;
        })
        (IsChain-before row a) refl (ground arith) refl;
}

abbrev pub AllAudited : List Row → Type 0
AllAudited rows = All IsAudited rows

save-AllAudited :
    (new : Row) (rows : List Row) → IsAudited new → AllAudited rows → AllAudited (save new rows)
unfolding save
save-AllAudited new [] a h = (a, tt)
save-AllAudited new (r ∷ rows) a h = elim (Bool-cases (str_eq r.thread_id new.thread_id)) [
  | inl e ↦ rw e (a, h.1)
  | inr e ↦ rw e (h.0, save-AllAudited new rows a h.1)
]

get_lifecycle-audited :
    (rows : List Row) (thread_id : String)
    → AllAudited rows
    → AuditedBefore (get_lifecycle rows thread_id)
unfolding get_lifecycle AuditedBefore
get_lifecycle-audited rows thread_id h = elim (Option-cases (find (of_thread thread_id) rows)) [
  | inl e ↦ rw e tt
  | inr (r, e) ↦ rw e (find-All (of_thread thread_id) IsAudited rows r h e)
]

-- A transition, accepted or refused, leaves every stored history an unbroken chain.
pub transition_lifecycle-AllAudited :
    (rows : List Row) (thread_id : String) (t : Status) (reason : Option String)
    (expected : Option ℕ) (now : ℕ)
    → AllAudited rows
    → AllAudited (transition_lifecycle rows thread_id t reason expected now).1
unfolding transition_lifecycle
transition_lifecycle-AllAudited rows thread_id t reason expected now h =
    let row = get_lifecycle rows thread_id in
    elim (Bool-cases (is_stale expected (version_of row))) [
      | inl e ↦ rw e h
      | inr e ↦ rw e (elim (Option-cases (validate_transition (status_of row) t)) [
        | inl v ↦ rw v (
            save-AllAudited (advance row thread_id t reason now) rows
              (advance-IsAudited row thread_id t reason now (get_lifecycle-audited rows thread_id h)
                v)
              h)
        | inr (x, v) ↦ rw v h
      ])
    ]

AuditedResult : Result Row → Type 0
AuditedResult (ok r) = IsAudited r
AuditedResult (err e) = Unit

reopen_step-Audited :
    (r : Result Row) (reason : Option String) (t : Status) (now : ℕ)
    → AuditedResult r
    → AuditedResult (reopen_step r reason t now)
unfolding AuditedResult reopen_step AuditedBefore
reopen_step-Audited (err e) reason t now a = tt
reopen_step-Audited (ok r) reason t now a =
    elim (Option-cases (validate_transition (some r.status) t)) [
      | inl v ↦ rw (v, reopen_step) (advance-IsAudited (some r) r.thread_id t reason now a v)
      | inr (x, v) ↦ rw (v, reopen_step) tt
    ]

reopen_loop-Audited :
    (r : Result Row) (reason : Option String) (ts : List Status) (now : ℕ)
    → AuditedResult r
    → AuditedResult (reopen_loop r reason ts now)
unfolding reopen_loop
reopen_loop-Audited r reason [] now a = a
reopen_loop-Audited r reason (t ∷ ts) now a =
    reopen_loop-Audited (reopen_step r reason t now) reason ts now
      (reopen_step-Audited r reason t now a)

store_reopened-AllAudited :
    (r : Result Row) (rows : List Row) (thread_id : String)
    → AuditedResult r
    → AllAudited rows
    → AllAudited (store_reopened r rows thread_id).1
unfolding store_reopened AuditedResult
store_reopened-AllAudited (err e) rows thread_id a h = h
store_reopened-AllAudited (ok new) rows thread_id a h =
    update_where-All IsAudited IsAudited (of_thread thread_id) (λ _. new) (λ x p e. a) (λ x p e. p)
      rows h

-- Reopening an incident keeps every stored history an unbroken chain.
pub reopen_incident-AllAudited :
    (rows : List Row) (thread_id : String) (reason : Option String) (now : ℕ)
    → AllAudited rows
    → AllAudited (reopen_incident rows thread_id reason now).1
unfolding reopen_incident AuditedBefore
reopen_incident-AllAudited rows thread_id reason now h =
    elim (Option-cases (get_lifecycle rows thread_id)) [
      | inl e ↦ rw e h
      | inr (r, e) ↦ elim (Bool-cases (is_resolved r.status)) [
        | inl s ↦
            rw (e, s)
              (store_reopened-AllAudited
                (reopen_loop (ok r) reason (received ∷ collecting ∷ analyzing ∷ []) now) rows
                thread_id
                (reopen_loop-Audited (ok r) reason (received ∷ collecting ∷ analyzing ∷ []) now
                  (unfold AuditedResult in (rw e at (get_lifecycle-audited rows thread_id h))))
                h)
        | inr s ↦ rw (e, s) h
      ]
    ]

resolution_rows : (r : Result Row × List Row) → (resolution r).1 ≡ r.1
unfolding resolution
resolution_rows (ok r, rows) = refl
resolution_rows (err e, rows) = refl

-- Resolving an incident keeps every stored history a chain, if what is written in between does.
pub resolve_incident-AllAudited :
    (rows : List Row) (thread_id : String) (reason : Option String) (between : List Row → List Row)
    (now : ℕ)
    → AllAudited (between rows)
    → AllAudited (resolve_incident rows thread_id reason between now).1
unfolding resolve_incident
resolve_incident-AllAudited rows thread_id reason between now h =
    elim (Option-cases (get_lifecycle rows thread_id)) [
      | inl e ↦ rw e h
      | inr (r, e) ↦ elim (Bool-cases (is_resolved r.status)) [
        | inl s ↦ rw (e, s) h
        | inr s ↦
            rw (e, s, resolution_rows)
              (transition_lifecycle-AllAudited (between rows) thread_id resolved reason
                (some r.version) now h)
      ]
    ]

-- Whether a human review was entered since the last intake.
abbrev note : Bool → Entry → Bool
note seen e = elim e.to [ received ↦ false | awaiting_analysis_review ↦ true | _ ↦ seen ]

pub reviewed_since_intake : List Entry → Bool
reviewed_since_intake = foldl note false

abbrev pub after_review : Option Status → Bool
after_review (some awaiting_analysis_review) = true
after_review (some drafting_postmortem) = true
after_review (some awaiting_publish_review) = true
after_review (some completed) = true
after_review _ = false

note_step :
    (s : Option Status) (e : Entry) (seen : Bool)
    → (after_review s ≡ true → seen ≡ true)
    → allowed s e.to ≡ true
    → after_review (some e.to) ≡ true
    → note seen e ≡ true
unfolding allowed
note_step s e seen ih a r = ground arith

reviewed-append :
    (h : List Entry) (e : Entry)
    → reviewed_since_intake (h ++ e ∷ []) ≡ note (reviewed_since_intake h) e
unfolding reviewed_since_intake
reviewed-append h e = rw foldl-append

-- In a chain that ends in drafting, publication review or completion, an analysis review was
-- entered after the last intake.
pub chain_reviewed :
    {h : List Entry} {s : Option Status} {n : ℕ}
    → IsChain h s n
    → after_review s ≡ true
    → reviewed_since_intake h ≡ true
chain_reviewed start r = cc
chain_reviewed (more {h} {s} e c f a v) r =
    rw reviewed-append (note_step s e (reviewed_since_intake h) (λ x. chain_reviewed c x) a r)

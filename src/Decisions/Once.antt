-- ===== src/Decisions/Once.antt =====
-- A pending revision is decided once, and an approval names a hypothesis of the reviewed revision.
use incident_agent.Common.{
  ℕ, ◌≤◌, String, ◌≡◌, refl, ap, Bool, true, Option, none, some, List, [], ◌∷◌, str_eq, eq_iff,
  ==_iff, find, count, count-append, arith, Bool-cases, Option-cases, inl, inr,
}
use incident_agent.Store.{Env}
use incident_agent.Pending.{Pending, of_thread}
use incident_agent.Decisions.{
  Snapshot, Review, Texts, Decision, DecisionDb, Error, Answer, ok, err, snapshot_of, permitted,
  is_permitted, has_evidence, check, of_pending, insert_decision, is_pending_at, record_decision,
  record_review_decision,
}

-- No pending revision of an incident has two decisions.
unfoldable pub IsDecidedOnce : DecisionDb → Type 0
IsDecidedOnce db = (i : String) (v : ℕ) → count (of_pending i v) db.decisions ≤ 1

undecided : (q : Decision → Bool) (ds : List Decision) → find q ds ≡ none → count q ds ≡ 0
unfolding find count
undecided q [] e = refl
undecided q (d ∷ ds) e = ground (arith, undecided q ds)

module _ (db : DecisionDb) (new : Decision) (evidence_ids : List String) where
  insert_decision-IsDecidedOnce :
      (o : Option Decision)
      → find (of_pending new.incident_id new.pending_revision) db.decisions ≡ none
      → IsDecidedOnce db
      → IsDecidedOnce (insert_decision o db new evidence_ids).1
  insert_decision-IsDecidedOnce (some d) f h = h
  insert_decision-IsDecidedOnce none f h =
      unfold IsDecidedOnce in
      λ i v. rw count-append (elim (Bool-cases (of_pending i v new)) [
        | inr e ↦ unfold count in rw e (omega (arith, h i v))
        | inl e ↦
            let incident : new.incident_id ≡ i = (eq_iff _ _).0 (ground arith) in
            let revision : new.pending_revision ≡ v = (==_iff _ _).0 (ground arith) in
            let zero : count (of_pending new.incident_id new.pending_revision) db.decisions ≡ 0 =
              undecided _ db.decisions f in
            let here : count (of_pending i v) db.decisions ≡ 0 = cc in
            unfold count in rw e (omega (arith, here))
      ])

  record_decision-IsDecidedOnce :
      (pendings : List Pending)
      → IsDecidedOnce db
      → IsDecidedOnce (record_decision pendings true db new evidence_ids).1
  unfolding record_decision
  record_decision-IsDecidedOnce pendings h =
      elim (Bool-cases
        (is_pending_at new.pending_revision (find (of_thread new.incident_id) pendings))) [
          | inr e ↦ rw e h
          | inl e ↦
              rw e
                (elim (Option-cases
                  (find (of_pending new.incident_id new.pending_revision) db.decisions)) [
                    | inl f ↦ rw f (insert_decision-IsDecidedOnce _ f h)
                    | inr (d, f) ↦ elim (Bool-cases (str_eq d.decision_key new.decision_key)) [
                      | inl k ↦ rw (f, k) h
                      | inr k ↦ rw (f, k) h
                    ]
                  ])
        ]

-- A call that enforces the pending revision, accepted or refused, keeps every pending revision of
-- every incident at one decision at most.
pub record_review_decision-IsDecidedOnce :
    (env : Env) (t : Texts) (intact : String → ℕ → Bool) (snapshots : List Snapshot)
    (pendings : List Pending) (db : DecisionDb) (r : Review) (now : ℕ)
    → IsDecidedOnce db
    → IsDecidedOnce (record_review_decision env t intact snapshots pendings true db r now).1
unfolding record_review_decision
record_review_decision-IsDecidedOnce env t intact snapshots pendings db r now h =
    elim (Option-cases (check t intact snapshots r)) [
      | inr (e, q) ↦ rw q h
      | inl q ↦ rw q (record_decision-IsDecidedOnce db _ _ pendings h)
    ]

pub check-approved :
    (t : Texts) (intact : String → ℕ → Bool) (snapshots : List Snapshot) (r : Review)
    → check t intact snapshots r ≡ none
    → str_eq r.decision "approved" ≡ true
    → (has_evidence intact r.incident_id r.analysis_revision ≡ true)
      × (is_permitted r.selected_hypothesis
            (permitted (snapshot_of snapshots r.incident_id r.analysis_revision) r)
          ≡ true)
unfolding check
check-approved t intact snapshots r e a = (ground arith, ground arith)

refused : (e : Error) (x : Answer) → err e ≡ ok x → ⊥
refused e x h = grind arith

-- The checks that an answered approval has passed.
pub record_review_decision-approved :
    (env : Env) (t : Texts) (intact : String → ℕ → Bool) (snapshots : List Snapshot)
    (pendings : List Pending) (enforce_pending : Bool) (db : DecisionDb) (r : Review) (now : ℕ)
    (x : Answer) (db' : DecisionDb)
    → record_review_decision env t intact snapshots pendings enforce_pending db r now ≡ (ok x, db')
    → str_eq r.decision "approved" ≡ true
    → (has_evidence intact r.incident_id r.analysis_revision ≡ true)
      × (is_permitted r.selected_hypothesis
            (permitted (snapshot_of snapshots r.incident_id r.analysis_revision) r)
          ≡ true)
unfolding record_review_decision
record_review_decision-approved env t intact snapshots pendings enforce db r now x db' h a =
    elim (Option-cases (check t intact snapshots r)) [
      | inl q ↦ check-approved t intact snapshots r q a
      | inr (e, q) ↦ absurd (refused e x (ap (λ y. y.0) (rw q at h)))
    ]

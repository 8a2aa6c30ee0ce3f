-- ===== src/Decisions/Approved.antt =====
-- What an approval that is answered stands on.
use incident_agent.Common.{
  ℕ, zero, suc, String, ◌≡◌, ◌≢◌, refl, sym, ap, Bool, true, false, Option, none, some, List, [],
  ◌∷◌, str_eq, eq_iff, ==_iff, find, find-p, find-All, All, All-of, All-map, All-Memᴰ, Memᴰ,
  found-Memᴰ, arith, Bool-cases, Option-cases, inl, inr, ◌⊎◌,
}
use incident_agent.Store.{Env}
use incident_agent.Pending.{Pending, of_thread}
use incident_agent.Decisions.{
  Snapshot, Review, Texts, Decision, DecisionDb, Error, Answer, Result, ok, err, snapshot_at,
  snapshot_of, permitted, is_permitted, has_evidence, check, new_decision, evidence_of,
  insert_decision, after_prior, is_pending_at, record_decision, record_review_decision,
}
use incident_agent.Decisions.Once.{check-approved}

-- A snapshot of the reviewed revision of the incident.
abbrev pub IsReviewed : Review → Snapshot → Type 0
IsReviewed r s = (s.incident_id ≡ r.incident_id) × (r.analysis_revision ≡ some s.revision)

-- An approval selects a rank of the candidates of the reviewed revision, or, where no snapshot of
-- it is stored, or its number is 0, of those that the review brings.
pub record IsGrounded (intact : String → ℕ → Bool) (snapshots : List Snapshot) (r : Review)
    : Type 0 where
  pub evidence : (n : ℕ) → r.analysis_revision ≡ some n → intact r.incident_id n ≡ true
  pub rank : String
  pub selected : r.selected_hypothesis ≡ some rank
  pub rank_given : rank ≢ ""
  pub candidate :
      ((s : Snapshot) × Memᴰ s snapshots × IsReviewed r s × Memᴰ rank s.candidates)
      ⊎ (All (λ s. IsReviewed r s → s.revision ≡ 0) snapshots × Memᴰ rank r.candidate_snapshot)

found_evidence :
    (intact : String → ℕ → Bool) (incident_id : String) (revision : Option ℕ)
    → has_evidence intact incident_id revision ≡ true
    → (n : ℕ) → revision ≡ some n
    → intact incident_id n ≡ true
found_evidence intact incident_id none h n e = absurd (grind arith)
found_evidence intact incident_id (some m) h n e = let same : m ≡ n = grind arith in rw (← same) h

is_permitted-Memᴰ :
    (o : Option String) (ranks : List String)
    → is_permitted o ranks ≡ true
    → (rank : String) × (o ≡ some rank) × (rank ≢ "") × Memᴰ rank ranks
is_permitted-Memᴰ none ranks h = absurd (grind arith)
is_permitted-Memᴰ (some s) ranks h = elim (Bool-cases (str_eq s "")) [
  | inl e ↦ absurd (grind (arith, (rw e at h)))
  | inr e ↦ (s, refl, λ q. grind (arith, e, (eq_iff s "").1 q), found-Memᴰ s ranks (ground arith))
]

none_found :
    (p : Snapshot → Bool) (xs : List Snapshot) → find p xs ≡ none → All (λ x. p x ≡ false) xs
unfolding find
none_found p [] e = tt
none_found p (x ∷ xs) e = elim (Bool-cases (p x)) [
  | inl q ↦ absurd (grind (arith, (rw q at e)))
  | inr q ↦ (q, none_found p xs (rw q at e))
]

-- Where the snapshot that is read comes from.
snapshot_of-cases :
    (snapshots : List Snapshot) (incident_id : String) (revision : Option ℕ)
    → ((s : Snapshot) × (snapshot_of snapshots incident_id revision ≡ some s)
        × Memᴰ s snapshots
        × (s.incident_id ≡ incident_id)
        × (revision ≡ some s.revision))
      ⊎ ((snapshot_of snapshots incident_id revision ≡ none)
          × All
              (λ s. (s.incident_id ≡ incident_id) × (revision ≡ some s.revision) → s.revision ≡ 0)
              snapshots)
snapshot_of-cases snapshots incident_id none =
    inr (refl, All-of _ (λ s h. absurd (grind (arith, h.1))) snapshots)
snapshot_of-cases snapshots incident_id (some zero) =
    inr (refl, All-of _ (λ s h. grind (arith, h.1)) snapshots)
snapshot_of-cases snapshots incident_id (some (suc n)) =
    elim (Option-cases (find (snapshot_at incident_id (suc n)) snapshots)) [
      | inr (s, e) ↦
          let here = find-p (snapshot_at incident_id (suc n)) snapshots s e in
          let same : s.incident_id ≡ incident_id = (eq_iff _ _).0 (ground (arith, here)) in
          let number : s.revision ≡ suc n = (==_iff _ _).0 (ground (arith, here)) in
          inl (
            s,
            e,
            find-All (snapshot_at incident_id (suc n)) (λ x. Memᴰ x snapshots) snapshots s
                (All-Memᴰ snapshots) e,
            same,
            ap some (sym number),
          )
      | inl e ↦ inr (
        e,
        All-map _ _
            (λ s f h. absurd (
              grind (
                arith,
                f,
                (eq_iff s.incident_id incident_id).1 h.0,
                (==_iff s.revision (suc n)).1 (sym (some_injective _ _ h.1)),
              )))
            snapshots (none_found _ snapshots e),
      )
    ]
  where
    some_injective : (a b : ℕ) → some a ≡ some b → a ≡ b
    some_injective a b h = grind arith

checked-IsGrounded :
    (intact : String → ℕ → Bool) (snapshots : List Snapshot) (r : Review)
    → has_evidence intact r.incident_id r.analysis_revision ≡ true
    → is_permitted r.selected_hypothesis
        (permitted (snapshot_of snapshots r.incident_id r.analysis_revision) r)
      ≡ true
    → IsGrounded intact snapshots r
checked-IsGrounded intact snapshots r v p =
    let (rank, chosen, given, member) = is_permitted-Memᴰ r.selected_hypothesis _ p in
    record {
      evidence = found_evidence intact r.incident_id r.analysis_revision v;
      rank = rank;
      selected = chosen;
      rank_given = given;
      candidate = elim (snapshot_of-cases snapshots r.incident_id r.analysis_revision) [
        | inl (s, e, m, i, n) ↦ inl (s, m, (i, n), rw e at member)
        | inr (e, a) ↦ inr (a, rw e at member)
      ];
    }

-- A transaction that is answered, or refused without a change.
abbrev IsSettled : DecisionDb → Result × DecisionDb → Type 0
IsSettled db x = ((a : Answer) × (x.0 ≡ ok a)) ⊎ ((e : Error) × (x ≡ (err e, db)))

insert_decision-IsSettled :
    (o : Option Decision) (db : DecisionDb) (new : Decision) (ids : List String)
    → IsSettled db (insert_decision o db new ids)
insert_decision-IsSettled none db new ids = inl (_, refl)
insert_decision-IsSettled (some d) db new ids = inl (_, refl)

after_prior-IsSettled :
    (o : Option Decision) (db : DecisionDb) (new : Decision) (ids : List String)
    → IsSettled db (after_prior o db new ids)
after_prior-IsSettled none db new ids = insert_decision-IsSettled _ db new ids
after_prior-IsSettled (some d) db new ids =
    elim (Bool-cases (str_eq d.decision_key new.decision_key)) [
      | inl e ↦ rw e (inl (_, refl))
      | inr e ↦ rw e (inr (_, refl))
    ]

record_decision-IsSettled :
    (pendings : List Pending) (enforce : Bool) (db : DecisionDb) (new : Decision)
    (ids : List String)
    → IsSettled db (record_decision pendings enforce db new ids)
unfolding record_decision
record_decision-IsSettled pendings false db new ids = insert_decision-IsSettled _ db new ids
record_decision-IsSettled pendings true db new ids =
    elim (Bool-cases
      (is_pending_at new.pending_revision (find (of_thread new.incident_id) pendings))) [
        | inl e ↦ rw e (after_prior-IsSettled _ db new ids)
        | inr e ↦ rw e (inr (_, refl))
      ]

-- An approval, with the pending revision enforced or not, is refused and changes nothing, or is
-- answered; it is answered only where the evidence of the revision that it names, if any, is intact,
-- and where it selects a rank, not empty, that is among the candidates of a stored snapshot of that
-- revision of its incident, or among those that it brings itself where there is no such snapshot or
-- the revision is 0.
pub record_review_decision-IsGrounded :
    (env : Env) (t : Texts) (intact : String → ℕ → Bool) (snapshots : List Snapshot)
    (pendings : List Pending) (enforce_pending : Bool) (db : DecisionDb) (r : Review) (now : ℕ)
    → str_eq r.decision "approved" ≡ true
    → let (x, db') =
        record_review_decision env t intact snapshots pendings enforce_pending db r now in
      ((a : Answer) × (x ≡ ok a) × IsGrounded intact snapshots r)
      ⊎ ((e : Error) × (x ≡ err e) × (db' ≡ db))
unfolding record_review_decision
record_review_decision-IsGrounded env t intact snapshots pendings enforce db r now approved =
    elim (Option-cases (check t intact snapshots r)) [
      | inr (e, q) ↦ rw q (inr (e, refl, refl))
      | inl q ↦
          let c = check-approved t intact snapshots r q approved in
          let ids = evidence_of (snapshot_of snapshots r.incident_id r.analysis_revision) r in
          elim (record_decision-IsSettled pendings enforce db (new_decision env t db r ids now)
            ids) [
              | inl (a, s) ↦ rw q (inl (a, s, checked-IsGrounded intact snapshots r c.0 c.1))
              | inr (e, s) ↦ rw (q, s) (inr (e, refl, refl))
            ]
    ]

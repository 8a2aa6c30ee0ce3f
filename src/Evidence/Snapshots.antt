-- ===== src/Evidence/Snapshots.antt =====
-- What a recorded snapshot is worth: it is never rewritten, and it is only valid with its evidence.
use incident_agent.Common.{
  ℕ, String, ◌≡◌, refl, subst, Bool, true, false, Option, none, some, List, [], ◌∷◌, Memᴰ, All,
  All-Memᴰ, eq_iff, eq_refl, ==_refl, find, find-append, find-All, find-p, arith, Bool-cases,
  Option-cases, inl, inr,
}
use incident_agent.Evidence.{EvidenceRecord, Error, append_analysis_evidence}
use incident_agent.Evidence.Analysis.{
  Snapshot, AnalysisDb, Recording, Recorded, recorded, membership_differs, integrity_error,
  of_revision, get_analysis_revision, differs, snapshot_of, after_append, record_after,
  record_analysis_revision, list_evidence_records, has_evidence_id, is_id, all_stored, all_expected,
  all_valid, validate_found, validate_analysis_evidence,
}

-- What a call that records a snapshot leaves: it is the one that is read.
unfoldable IsRead : AnalysisDb → String → ℕ → Recorded → Type 0
IsRead db i n (recorded s) = get_analysis_revision db i n ≡ some s
IsRead db i n membership_differs = Unit
IsRead db i n (integrity_error e) = Unit

after_append-IsRead :
    (db : AnalysisDb) (s : Snapshot) (o : incident_agent.Evidence.Result)
    → get_analysis_revision db s.incident_id s.revision ≡ none
    → let r = after_append db s o in IsRead r.1 s.incident_id s.revision r.0
unfolding get_analysis_revision find IsRead
after_append-IsRead db s (incident_agent.Evidence.err e) h = tt
after_append-IsRead db s (incident_agent.Evidence.ok evidence) h =
    rw
      (
        find-append (of_revision s.incident_id s.revision) db.snapshots (s ∷ []),
        h,
        eq_refl,
        ==_refl,
      )
      refl

record_after-IsRead :
    (db : AnalysisDb) (allocated : Option (Option ℕ)) (x : Recording) (now : ℕ)
    (o : Option Snapshot)
    → get_analysis_revision db x.incident_id x.revision ≡ o
    → let r = record_after db allocated x now o in IsRead r.1 x.incident_id x.revision r.0
unfolding IsRead snapshot_of
record_after-IsRead db allocated x now (some s) h = h
record_after-IsRead db allocated x now none h =
    after_append-IsRead db (snapshot_of db allocated x now) _ h

record_analysis_revision-IsRead :
    (db : AnalysisDb) (allocated : Option (Option ℕ)) (x : Recording) (now : ℕ)
    → let r = record_analysis_revision db allocated x now in IsRead r.1 x.incident_id x.revision r.0
unfolding record_analysis_revision IsRead
record_analysis_revision-IsRead db allocated x now = elim (Bool-cases (differs x)) [
  | inl q ↦ rw q tt
  | inr q ↦ rw q (record_after-IsRead db allocated x now _ refl)
]

-- A snapshot that a call answers is the one that is read afterwards, and a later call for the same
-- incident and revision answers it again and changes nothing, whatever else it would record, unless
-- its own evidence differs from its graph.
pub record_analysis_revision_again :
    (db : AnalysisDb) (allocated : Option (Option ℕ)) (x : Recording) (now : ℕ) (s : Snapshot)
    (db' : AnalysisDb)
    → record_analysis_revision db allocated x now ≡ (recorded s, db')
    → (other : Option (Option ℕ)) (y : Recording) (later : ℕ) → y.incident_id ≡ x.incident_id
    → y.revision ≡ x.revision
    → differs y ≡ false
    → (get_analysis_revision db' x.incident_id x.revision ≡ some s)
      × (record_analysis_revision db' other y later ≡ (recorded s, db'))
unfolding record_analysis_revision IsRead
record_analysis_revision_again db allocated x now s db' h other y later i n d =
    let r = record_analysis_revision-IsRead db allocated x now in
    let read : get_analysis_revision db' x.incident_id x.revision ≡ some s =
      subst (λ o. IsRead o.1 x.incident_id x.revision o.0) h r in
    (read, rw (d, i, n, read) refl)

module _ (valid : EvidenceRecord → Bool) where
  -- A record of the evidence of a revision that is valid.
  abbrev pub HasValid : List EvidenceRecord → String → Type 0
  HasValid rs id = (r : EvidenceRecord) × Memᴰ r rs × (r.evidence_id ≡ id) × (valid r ≡ true)

  all_valid-All :
      (rs : List EvidenceRecord) → all_valid valid rs ≡ true → All (λ r. valid r ≡ true) rs
  unfolding all_valid
  all_valid-All [] e = tt
  all_valid-All (r ∷ rs) e = (ground arith, all_valid-All rs (ground arith))

  all_stored-All :
      (ids : List String) (rs : List EvidenceRecord)
      → all_stored ids rs ≡ true
      → All (λ r. valid r ≡ true) rs
      → All (HasValid rs) ids
  unfolding all_stored
  all_stored-All [] rs e v = tt
  all_stored-All (id ∷ ids) rs e v = elim (Option-cases (find (has_evidence_id id) rs)) [
    | inl q ↦ absurd (let f = rw q at e in ground arith)
    | inr (r, q) ↦
        let there : Memᴰ r rs =
          find-All (has_evidence_id id) (λ x. Memᴰ x rs) rs r (All-Memᴰ rs) q in
        let good = find-All (has_evidence_id id) (λ x. valid x ≡ true) rs r v q in
        let named = find-p (has_evidence_id id) rs r q in
        ((r, there, (eq_iff _ _).0 named, good), all_stored-All ids rs (ground arith) v)
  ]

  all_expected-All :
      (rs : List EvidenceRecord) (ids : List String)
      → all_expected rs ids ≡ true
      → All (λ r. Memᴰ r.evidence_id ids) rs
  unfolding all_expected
  all_expected-All [] ids e = tt
  all_expected-All (r ∷ rs) ids e = elim (Option-cases (find (is_id r.evidence_id) ids)) [
    | inl q ↦ absurd (let f = rw q at e in ground arith)
    | inr (x, q) ↦
        let there : Memᴰ x ids =
          find-All (is_id r.evidence_id) (λ y. Memᴰ y ids) ids x (All-Memᴰ ids) q in
        let named = (eq_iff x r.evidence_id).0 (find-p (is_id r.evidence_id) ids x q) in
        (subst (λ y. Memᴰ y ids) named there, all_expected-All rs ids (ground arith))
  ]

  -- A revision whose snapshot and evidence agree: the evidence ids of the snapshot are those of the
  -- records that the revision is linked to, and each of these is valid.
  pub record IsIntact (db : AnalysisDb) (incident_id : String) (revision : ℕ) : Type 0 where
    pub snapshot : Snapshot
    pub read : get_analysis_revision db incident_id revision ≡ some snapshot
    pub stored :
        All (HasValid (list_evidence_records db incident_id revision)) snapshot.evidence_ids
    pub expected :
        All
          (λ r. Memᴰ r.evidence_id snapshot.evidence_ids)
          (list_evidence_records db incident_id revision)
    pub unchanged : All (λ r. valid r ≡ true) (list_evidence_records db incident_id revision)

  -- The validation passes only where the snapshot is there, each of its evidence ids has a valid
  -- record that the revision is linked to, and no linked record is unexpected or invalid.
  pub validate_analysis_evidence-IsIntact :
      (db : AnalysisDb) (incident_id : String) (revision : ℕ)
      → validate_analysis_evidence valid db incident_id revision ≡ true
      → IsIntact db incident_id revision
  unfolding validate_analysis_evidence
  validate_analysis_evidence-IsIntact db i n e =
      elim (Option-cases (get_analysis_revision db i n)) [
        | inl q ↦ absurd (let f = rw q at e in ground arith)
        | inr (s, q) ↦
            let rs = list_evidence_records db i n in
            let f : validate_found valid rs (some s) ≡ true = rw q at e in
            let good = all_valid-All rs (ground arith) in
            record {
              snapshot = s;
              read = q;
              stored = all_stored-All s.evidence_ids rs (ground arith) good;
              expected = all_expected-All rs s.evidence_ids (ground arith);
              unchanged = good;
            }
      ]

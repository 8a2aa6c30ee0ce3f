-- ===== src/Sync/Synced.antt =====
-- What is stored when the registry has been synced.
use incident_agent.Common.{
  ℕ, String, ◌≡◌, ◌≢◌, refl, ap, sym, subst, Bool, true, false, Option, none, some, List,
  Bool-cases, find, All, inl, inr, ◌⊎◌, arith,
}
use incident_agent.Registry.{Result, ok, err, is_stale, revision_conflict}
use incident_agent.Pending.{
  PendingData, Pending, of_thread, version_of, add_pending, remove_pending, get_pending,
  next_pending,
}
use incident_agent.Pending.Versions.{add_pending_read, remove_pending_gone, is_removed}
use incident_agent.Evidence.{EvidenceRecord}
use incident_agent.Evidence.Analysis.{
  AnalysisDb, Recording, Recorded, recorded, membership_differs, integrity_error,
  record_analysis_revision, validate_analysis_evidence,
}
use incident_agent.Evidence.Snapshots.{IsIntact, validate_analysis_evidence-IsIntact}
use incident_agent.Sync.{
  State, SyncDb, Answer, synced, diff_passes, previous_valid, of_pending_result, sync_awaited,
  sync_pending, after_record, for_thread, sync_recording, sync_registry,
}

-- The snapshot of the revision that was synced is stored with intact evidence.
abbrev pub IsRecorded : (EvidenceRecord → Bool) → String → AnalysisDb → Option Recording → Type 0
IsRecorded valid thread_id db none = Unit
IsRecorded valid thread_id db (some r) = IsIntact valid db thread_id r.revision

-- What the pending reviews are: the awaited review is the one that is read; where none is awaited
-- no review is left, or none at the version that is expected. A refusal changes none.
pub record IsSynced (x : State) (analyses : AnalysisDb) (before : List Pending)
    (o : Answer × SyncDb) : Type 0 where
  pub awaited :
      o.0 ≡ synced
      → x.awaits_review ≡ true
      → (d : PendingData) × (get_pending o.1.pendings x.thread_id ≡ some d)
        × (d.review ≡ x.review analyses)
  pub removed :
      o.0 ≡ synced
      → x.awaits_review ≡ false
      → All (λ p. is_removed x.thread_id x.expected_pending_version p ≡ false) o.1.pendings
  pub refused : o.0 ≢ synced → o.1.pendings ≡ before
  pub same : o.1.analyses ≡ analyses

add-IsSynced :
    (x : State) (analyses : AnalysisDb) (rows : List Pending) (now : ℕ)
    → x.awaits_review ≡ true
    → IsSynced x analyses rows (
        of_pending_result analyses
          (add_pending rows x.thread_id (x.review analyses) x.expected_pending_version now))
unfolding add_pending next_pending
add-IsSynced x analyses rows now w =
    elim (Bool-cases
      (is_stale x.expected_pending_version (version_of (find (of_thread x.thread_id) rows)))) [
        | inl q ↦ rw q (record {
          awaited = λ e. absurd (grind arith);
          removed = λ e. absurd (grind arith);
          refused = λ e. refl;
          same = refl;
        })
        | inr q ↦
            let (d, answered, read, number, created, others) =
              add_pending_read rows x.thread_id (x.review analyses) x.expected_pending_version now
                q in
            let content =
              next_pending (find (of_thread x.thread_id) rows) x.thread_id (x.review analyses)
                now in
            let is_content : content.content ≡ d = cc (rw q at answered) in
            rw q (record {
              awaited = λ e f. (d, rw q at read, ap (λ c. c.review) (sym is_content));
              removed = λ e f. absurd (ground arith);
              refused = λ e. absurd (e refl);
              same = refl;
            })
      ]

removed-IsSynced :
    (x : State) (analyses : AnalysisDb) (rows : List Pending) (o : Result (Unit {0}) × List Pending)
    (e : incident_agent.Registry.Error)
    → x.awaits_review ≡ false
    → ((o.0 ≡ ok tt) × All (λ p. is_removed x.thread_id x.expected_pending_version p ≡ false) o.1)
      ⊎ ((o.0 ≡ err e) × (o.1 ≡ rows))
    → IsSynced x analyses rows (of_pending_result analyses o)
removed-IsSynced x analyses rows (ok u, left) e w (inr h) = absurd (grind arith)
removed-IsSynced x analyses rows (err f, left) e w (inl h) = absurd (grind arith)
removed-IsSynced x analyses rows (ok u, left) e w (inl h) = record {
  awaited = λ a b. absurd (ground arith);
  removed = λ a b. h.1;
  refused = λ a. absurd (a refl);
  same = refl;
}
removed-IsSynced x analyses rows (err f, left) e w (inr h) = record {
  awaited = λ a. absurd (grind arith);
  removed = λ a. absurd (grind arith);
  refused = λ a. h.1;
  same = refl;
}

sync_awaited-IsSynced :
    (x : State) (analyses : AnalysisDb) (rows : List Pending) (now : ℕ) (awaits : Bool)
    → x.awaits_review ≡ awaits
    → IsSynced x analyses rows (sync_awaited analyses rows x now awaits)
sync_awaited-IsSynced x analyses rows now true w = add-IsSynced x analyses rows now w
sync_awaited-IsSynced x analyses rows now false w =
    removed-IsSynced x analyses rows (remove_pending rows x.thread_id x.expected_pending_version)
      (revision_conflict "stale pending-review version") w
      (elim (remove_pending_gone rows x.thread_id x.expected_pending_version) [
        | inl h ↦ inl h
        | inr h ↦ inr (h.0, h.1)
      ])

sync_pending-IsSynced :
    (x : State) (analyses : AnalysisDb) (rows : List Pending) (now : ℕ)
    → let o = sync_pending analyses rows x now in
      IsSynced x o.1.analyses rows o × (o.1.analyses ≡ analyses)
unfolding sync_pending
sync_pending-IsSynced x analyses rows now =
    let o = sync_pending analyses rows x now in
    let w = sync_awaited-IsSynced x analyses rows now x.awaits_review refl in
    (subst (λ a. IsSynced x a rows o) (sym w.same) w, w.same)

-- A refusal that leaves the pending reviews.
unsynced :
    (x : State) (analyses : AnalysisDb) (rows : List Pending) (a : Answer)
    → a ≢ synced
    → IsSynced x analyses rows (a, record { analyses = analyses; pendings = rows })
unsynced x analyses rows a n = record {
  awaited = λ e. absurd (n e);
  removed = λ e. absurd (n e);
  refused = λ e. refl;
  same = refl;
}

module _ (valid : EvidenceRecord → Bool) (x : State) (now : ℕ) where
  -- After a call: the snapshot, and the pending reviews.
  pub record AfterSync (before : List Pending) (o : Answer × SyncDb) : Type 0 where
    pub stored : o.0 ≡ synced → IsRecorded valid x.thread_id o.1.analyses x.recording
    pub pending : IsSynced x o.1.analyses before o

  after_record-AfterSync :
      (rows : List Pending) (r : Recording) (o : Recorded × AnalysisDb)
      → x.recording ≡ some r
      → AfterSync rows (after_record valid rows x r now o)
  unfolding diff_passes
  after_record-AfterSync rows r (membership_differs, analyses) e = record {
    stored = λ a. absurd (grind arith);
    pending = unsynced x analyses rows _ (λ a. grind arith);
  }
  after_record-AfterSync rows r (integrity_error f, analyses) e = record {
    stored = λ a. absurd (grind arith);
    pending = unsynced x analyses rows _ (λ a. grind arith);
  }
  after_record-AfterSync rows r (recorded s, analyses) e =
      elim (Bool-cases (validate_analysis_evidence valid analyses x.thread_id r.revision)) [
        | inr q ↦ rw q (record {
          stored = λ a. absurd (grind arith);
          pending = unsynced x analyses rows _ (λ a. grind arith);
        })
        | inl q ↦
            elim (Bool-cases (previous_valid valid analyses x.thread_id s.previous_revision)) [
              | inr p ↦
                  rw (q, p)
                    (record {
                      stored = λ a. absurd (grind arith);
                      pending = unsynced x analyses rows _ (λ a. grind arith);
                    })
              | inl p ↦
                  let w = sync_pending-IsSynced x analyses rows now in
                  let intact =
                    validate_analysis_evidence-IsIntact valid analyses x.thread_id r.revision q in
                  rw (q, p)
                    (record {
                      stored = λ a.
                          subst (IsRecorded valid x.thread_id _) (sym e)
                            (subst (λ z. IsRecorded valid x.thread_id z (some r)) (sym w.1) intact);
                      pending = w.0;
                    })
            ]
      ]

  sync_recording-AfterSync :
      (db : SyncDb) (o : Option Recording)
      → x.recording ≡ o
      → AfterSync db.pendings (sync_recording valid db x now o)
  sync_recording-AfterSync db (some r) e =
      after_record-AfterSync db.pendings r
        (record_analysis_revision db.analyses x.allocated (for_thread x r) now) e
  sync_recording-AfterSync db none e = record {
    stored = λ a. subst (IsRecorded valid x.thread_id _) (sym e) tt;
    pending = (sync_pending-IsSynced x db.analyses db.pendings now).0;
  }

  -- A call that succeeds leaves the snapshot of its revision stored with intact evidence, and the
  -- awaited review as the one that is read, or, where none is awaited, no review of the incident,
  -- or none at the expected version. A call that is refused changes no pending review.
  pub sync_registry-AfterSync : (db : SyncDb) → AfterSync db.pendings (sync_registry valid db x now)
  unfolding sync_registry
  sync_registry-AfterSync db = sync_recording-AfterSync db x.recording refl

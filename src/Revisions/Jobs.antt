-- ===== src/Revisions/Jobs.antt =====
-- A job gets one revision, and of two writers that expect the same revision one wins.
use incident_agent.Common.{
  ℕ, ◌+◌, max, String, ◌≡◌, refl, ap, true, false, Option, none, some, [], ◌∷◌, ◌++◌, eq_refl, ◌==◌,
  ==_iff, ◌≢◌, false, ==_refl, find, find-append, length, length-append, arith, Bool-cases,
  Option-cases, inl, inr,
}
use incident_agent.Store.{Result, ok, err, value_error}
use incident_agent.Revisions.{
  Revision, RevisionDb, head_of, of_incident, of_job, ensure_head, current_of, max_revision,
  is_stale, new_revision, of_requested_job, create_revision_once,
}
use incident_agent.Revisions.Numbering.{
  IsSequential, revisions_of, create_revision-IsSequential, current-number, revisions_of-grown,
  grown,
}

-- An accepted call for a job leaves a row of the job and the incident with the answered number.
stored_for_job :
    (db : RevisionDb) (incident_id reason : String) (expected : Option ℕ) (run_context : String)
    (job now n : ℕ) (db' : RevisionDb)
    → create_revision_once db incident_id reason expected run_context (some job) now ≡ (ok n, db')
    → (r : Revision) × (find (of_job job) db'.revisions ≡ some r)
      × (of_incident incident_id r ≡ true)
      × (r.revision ≡ n)
unfolding create_revision_once new_revision
stored_for_job db incident_id reason expected run_context job now n db' h =
    let current =
      max (current_of (find (head_of incident_id) (ensure_head incident_id now db.heads)))
        (max_revision incident_id db.revisions) in
    let new : Revision = new_revision incident_id reason run_context (some job) now current in
    elim (Option-cases (find (of_job job) db.revisions)) [
      | inr (r, e) ↦ elim (Bool-cases (of_incident incident_id r)) [
        | inl o ↦
            let k = rw (e, o) at h in
            let rows : db.revisions ≡ db'.revisions =
              ap (λ (x : Result ℕ × RevisionDb). x.1.revisions) k in
            (r, rw (← rows) e, o, cc k)
        | inr o ↦ cc (rw (e, o) at h)
      ]
      | inl e ↦ elim (Bool-cases (is_stale expected current)) [
        | inl o ↦ cc (rw (e, o) at h)
        | inr o ↦
            let k = rw (e, o) at h in
            let rows : db.revisions ++ new ∷ [] ≡ db'.revisions =
              ap (λ (x : Result ℕ × RevisionDb). x.1.revisions) k in
            (
              new,
              rw (← rows, find-append, e) (unfold find in rw (==_refl job)),
              eq_refl incident_id,
              cc k,
            )
      ]
    ]

-- After a revision was answered for a job, the next call for the job and its incident answers the
-- same revision and allocates none.
create_revision_job_idempotent :
    (db : RevisionDb) (incident_id reason reason' : String) (expected expected' : Option ℕ)
    (run_context run_context' : String) (job now now' n : ℕ) (db' : RevisionDb)
    → create_revision_once db incident_id reason expected run_context (some job) now ≡ (ok n, db')
    → let (x, after) =
        create_revision_once db' incident_id reason' expected' run_context' (some job) now' in
      (x ≡ ok n) × (after.revisions ≡ db'.revisions)
unfolding create_revision_once
create_revision_job_idempotent db incident_id reason reason' expected expected' run_context
      run_context' job now now' n db' h =
    let (r, found, incident, number) =
      stored_for_job db incident_id reason expected run_context job now n db' h in
    rw (found, incident, number) (refl, refl)

-- A call of a job that has no revision yet is accepted with the next number where it expects the
-- number of the rows, and else refused as stale.
create_revision-cases :
    (db : RevisionDb) (incident_id reason : String) (e : ℕ) (run_context : String)
    (job_id : Option ℕ) (now : ℕ)
    → IsSequential db
    → of_requested_job job_id db.revisions ≡ none
    → let n = length (revisions_of incident_id db) in
      (n ≡ e
        → create_revision_once db incident_id reason (some e) run_context job_id now
          ≡ (ok (n + 1), grown db incident_id reason run_context job_id now))
      × (n ≢ e
          → create_revision_once db incident_id reason (some e) run_context job_id now
            ≡ (err (value_error "stale incident revision"), db))
unfolding create_revision_once is_stale
create_revision-cases db incident_id reason e run_context job_id now s free =
    let n = length (revisions_of incident_id db) in
    let number = current-number db incident_id reason run_context job_id now s in
    (
      λ q. rw (free, number, (==_iff n e).1 q) refl,
      λ q. let differs : (n == e) ≡ false = ground (arith, q) in rw (free, number, differs) refl,
    )

-- In a sequential database, of two writers that expect the same revision of an incident, neither of
-- them for a job that has a revision when its call comes: where they expect the number of the
-- incident's rows, the first is accepted with the next number and the second is refused as stale and
-- changes nothing; where they expect another, the first is refused in the same way.
pub one_writer_wins :
    (db : RevisionDb) (incident_id reason reason' : String) (e : ℕ)
    (run_context run_context' : String) (job_id job_id' : Option ℕ) (now now' : ℕ)
    → IsSequential db
    → of_requested_job job_id db.revisions ≡ none
    → let (first, db') =
        create_revision_once db incident_id reason (some e) run_context job_id now in
      of_requested_job job_id' db'.revisions ≡ none
      → (length (revisions_of incident_id db) ≡ e
          → (first ≡ ok (e + 1))
            × (create_revision_once db' incident_id reason' (some e) run_context' job_id' now'
                ≡ (err (value_error "stale incident revision"), db')))
        × (length (revisions_of incident_id db) ≢ e
            → (first ≡ err (value_error "stale incident revision")) × (db' ≡ db))
one_writer_wins db incident_id reason reason' e run_context run_context' job_id job_id' now now' s
      free free' =
    let c = create_revision-cases db incident_id reason e run_context job_id now s free in
    (
      λ q.
          let db' = grown db incident_id reason run_context job_id now in
          let s' : IsSequential db' = rw (c.0 q) at (
            create_revision-IsSequential db incident_id reason (some e) run_context job_id now s) in
          let grew : length (revisions_of incident_id db') ≡ e + 1 =
            rw
              (
                revisions_of-grown db incident_id reason run_context job_id now incident_id,
                eq_refl incident_id,
                length-append,
              )
              (omega (arith, q)) in
          let d =
            create_revision-cases db' incident_id reason' e run_context' job_id' now' s'
              (rw (c.0 q) at free') in
          rw (c.0 q) (ap (λ n. ok (n + 1)) q, d.1 (ground (arith, grew))),
      λ q. rw (c.1 q) (refl, refl),
    )

-- ===== src/JobHandler/Retried.antt =====
-- A job that is handled again, after a failure or a lost lease, works under its first revision.
use incident_agent.Common.{
  ℕ, max, String, ◌≡◌, refl, ap, sym, ◌∙◌, Option, none, some, List, [], ◌∷◌, ==_refl, eq_refl,
  find, find-append, Bool-cases, Option-cases, inl, inr, if◌then◌else◌,
}
use incident_agent.Store.{Result, ok, err}
use incident_agent.Store.Claim.{Claimed}
use incident_agent.Revisions.{
  Revision, RevisionDb, head_of, of_incident, of_job, ensure_head, current_of, max_revision,
  is_stale, new_revision, create_revision_once,
}
use incident_agent.Registry
use incident_agent.JobHandler.{Handled, handled, failed}
use incident_agent.JobHandler.Job.{
  Tables, JobRun, JobResult, answered, lock_error, revision_error, handler_error, key_error,
  analyze_payload, job_revision, reason_of, resolution, finished_run, resolved_job, analyzed_job,
  after_revision, is_resolved_alert, run_incident_job,
}

-- The revision that a job was handled under, if it got one.
abbrev pub revision_of : JobResult → Option ℕ
revision_of (answered (resolution n r)) = some n
revision_of (answered (finished_run n r)) = some n
revision_of (lock_error e) = none
revision_of (revision_error e) = none
revision_of (handler_error n e) = some n
revision_of (key_error n) = some n

abbrev pub answer : Result ℕ → Option ℕ
answer (ok n) = some n
answer (err e) = none

-- Another call of `create_revision`.
pub record Request : Type 0 where
  pub incident_id : String
  pub reason : String
  pub expected_revision : Option ℕ
  pub run_context : String
  pub job_id : Option ℕ
  pub now : ℕ

abbrev pub allocate_all : List Request → RevisionDb → RevisionDb
allocate_all [] db = db
allocate_all (q ∷ qs) db =
    allocate_all qs
      (create_revision_once db q.incident_id q.reason q.expected_revision q.run_context q.job_id
        q.now).1

-- The row of a job stays the job's row.
create_revision-find :
    (db : RevisionDb) (incident_id reason : String) (expected : Option ℕ) (run_context : String)
    (job_id : Option ℕ) (now job : ℕ) (r : Revision)
    → find (of_job job) db.revisions ≡ some r
    → find
        (of_job job)
        (create_revision_once db incident_id reason expected run_context job_id now).1.revisions
      ≡ some r
unfolding create_revision_once
create_revision-find db incident_id reason expected run_context none now job r h =
    let current =
      max (current_of (find (head_of incident_id) (ensure_head incident_id now db.heads)))
        (max_revision incident_id db.revisions) in
    elim (Bool-cases (is_stale expected current)) [
      | inl o ↦ rw o h
      | inr o ↦ rw (o, find-append, h)
    ]
create_revision-find db incident_id reason expected run_context (some j) now job r h =
    elim (Option-cases (find (of_job j) db.revisions)) [
      | inr (x, e) ↦
          rw e (elim (Bool-cases (of_incident incident_id x)) [ inl o ↦ rw o h | inr o ↦ rw o h ])
      | inl e ↦
          let current =
            max (current_of (find (head_of incident_id) (ensure_head incident_id now db.heads)))
              (max_revision incident_id db.revisions) in
          rw e (elim (Bool-cases (is_stale expected current)) [
            | inl o ↦ rw o h
            | inr o ↦ rw (o, find-append, h)
          ])
    ]

allocate_all-find :
    (qs : List Request) (db : RevisionDb) (job : ℕ) (r : Revision)
    → find (of_job job) db.revisions ≡ some r
    → find (of_job job) (allocate_all qs db).revisions ≡ some r
allocate_all-find [] db job r h = h
allocate_all-find (q ∷ qs) db job r h = allocate_all-find qs _ job r (
    create_revision-find db q.incident_id q.reason q.expected_revision q.run_context q.job_id q.now
      job r h)

-- What a call for a job leaves: the job's row, and the answer that the row gives.
abbrev Stored : String → ℕ → Result ℕ × RevisionDb → Type 0
Stored incident_id job x =
    (r : Revision) × (find (of_job job) x.1.revisions ≡ some r)
    × (answer x.0 ≡ (if of_incident incident_id r then some r.revision else none))

create_revision-Stored :
    (db : RevisionDb) (incident_id reason run_context : String) (job now : ℕ)
    → Stored incident_id job
        (create_revision_once db incident_id reason none run_context (some job) now)
unfolding create_revision_once is_stale new_revision
create_revision-Stored db incident_id reason run_context job now =
    elim (Option-cases (find (of_job job) db.revisions)) [
      | inr (r, e) ↦ elim (Bool-cases (of_incident incident_id r)) [
        | inl o ↦ (r, rw (e, o) e, rw (e, o) refl)
        | inr o ↦ (r, rw (e, o) e, rw (e, o) refl)
      ]
      | inl e ↦
          let current =
            max (current_of (find (head_of incident_id) (ensure_head incident_id now db.heads)))
              (max_revision incident_id db.revisions) in
          let new : Revision = new_revision incident_id reason run_context (some job) now current in
          (
            new,
            rw (e, find-append, e) (unfold find in rw (==_refl job)),
            rw (e, eq_refl incident_id) refl,
          )
    ]

-- A call for a job that has a row gives the row's answer and adds none.
create_revision-found :
    (db : RevisionDb) (incident_id reason run_context : String) (job now : ℕ) (r : Revision)
    → find (of_job job) db.revisions ≡ some r
    → let (x, after) = create_revision_once db incident_id reason none run_context (some job) now in
      (answer x ≡ (if of_incident incident_id r then some r.revision else none))
      × (after.revisions ≡ db.revisions)
unfolding create_revision_once
create_revision-found db incident_id reason run_context job now r h =
    elim (Bool-cases (of_incident incident_id r)) [
      | inl o ↦ rw (h, o) (refl, refl)
      | inr o ↦ rw (h, o) (refl, refl)
    ]

-- The rest of the handler leaves the revisions, and its result names the revision.
after_revision-revisions :
    (x : JobRun) (job : Claimed) (rows : List Registry.Row) (c : Result ℕ × RevisionDb)
    → (revision_of (after_revision x job rows c).0 ≡ answer c.0)
      × ((after_revision x job rows c).1.revisions ≡ c.1)
after_revision-revisions x job rows (err e, db) = (refl, refl)
after_revision-revisions x job rows (ok n, db) =
    elim (Bool-cases (is_resolved_alert (x.status_of_payload job.payload))) [
      | inl o ↦ rw o (resolved _)
      | inr o ↦ rw o (analyzed (x.incident_of_payload job.payload))
    ]
  where
    resolved :
        (y : Registry.Result Registry.Resolution × List Registry.Row)
        → (revision_of (resolved_job n db y).0 ≡ some n) × ((resolved_job n db y).1.revisions ≡ db)
    resolved (Registry.ok r, rows') = (refl, refl)
    resolved (Registry.err e, rows') = (refl, refl)

    written :
        (y : Handled × List Registry.Row)
        → (revision_of (analyzed_job n db y).0 ≡ some n) × ((analyzed_job n db y).1.revisions ≡ db)
    written (handled r, rows') = (refl, refl)
    written (failed e, rows') = (refl, refl)

    analyzed :
        (thread : Option String)
        → (revision_of (analyze_payload x n db rows thread).0 ≡ some n)
          × ((analyze_payload x n db rows thread).1.revisions ≡ db)
    analyzed none = (refl, refl)
    analyzed (some thread_id) = written _

-- A job that meets no lock conflict, on whatever tables, is later handled again, again without one,
-- after any other calls of create_revision and any change of the lifecycles: it works under the
-- same revision, or has none as before, and no revision is added.
pub run_incident_job_again :
    (x y : JobRun) (t : Tables) (job : Claimed) (others : List Request)
    (lifecycles : List Registry.Row)
    → x.lock_conflict ≡ none
    → y.lock_conflict ≡ none
    → let (first, t1) = run_incident_job x t job in
      let t2 : Tables = record {
        revisions = allocate_all others t1.revisions;
        lifecycles = lifecycles;
      } in
      let (second, t3) = run_incident_job y t2 job in
      (revision_of second ≡ revision_of first) × (t3.revisions.revisions ≡ t2.revisions.revisions)
unfolding run_incident_job
run_incident_job_again x y t job others lifecycles hx hy =
    let c1 = job_revision x t.revisions job in
    let a1 = after_revision-revisions x job t.lifecycles c1 in
    let (r, found, answered_by) =
      create_revision-Stored t.revisions job.incident_id (reason_of job.kind)
        (x.complete_run_context job.run_context) job.job_id x.created_at in
    let db2 = allocate_all others c1.1 in
    let c2 = job_revision y db2 job in
    let a2 = after_revision-revisions y job lifecycles c2 in
    let again =
      create_revision-found db2 job.incident_id (reason_of job.kind)
        (y.complete_run_context job.run_context) job.job_id y.created_at r
        (allocate_all-find others c1.1 job.job_id r found) in
    rw (hx, hy, a1.1)
      (
        a2.0 ∙ again.0 ∙ sym answered_by ∙ sym a1.0,
        ap (λ (d : RevisionDb). d.revisions) a2.1 ∙ again.1,
      )

-- ===== src/Store/Finish.antt =====
-- webhook/incident_store.py: renewal, completion and failure of a leased job. An UPDATE's row
-- count is the number of rows that its WHERE clause fits: each of these statements writes a new
-- time or status, so a row that fits is changed.
use incident_agent.Common.{
  ℕ, ◌+◌, String, Bool, false, ◌&&◌, Option, none, some, List, [], ◌∷◌, str_eq, ◌==◌, leb,
  if◌then◌else◌, find, update_where, delete_where, count,
}
use incident_agent.Store.{
  value_error, Result, ok, err, pending, completed, dead_letter, Job, JobLock, DeadLetter, Db,
}
use incident_agent.Store.Intake.{is_leased}
use incident_agent.Store.Claim.{Claimed}

-- WHERE job_id=%s AND status='leased' AND worker_id=%s
abbrev pub is_worker : Option String → String → Bool
is_worker none worker_id = false
is_worker (some w) worker_id = str_eq w worker_id

abbrev pub is_leased_by : ℕ → String → Job → Bool
is_leased_by job_id worker_id j =
    j.job_id == job_id && (is_leased j.status && is_worker j.worker_id worker_id)

abbrev pub lock_held_by : String → ℕ → String → JobLock → Bool
lock_held_by incident_id job_id worker_id l =
    str_eq l.incident_id incident_id && (l.job_id == job_id && str_eq l.worker_id worker_id)

unfoldable pub renewed_lock : ℕ → ℕ → JobLock → JobLock
renewed_lock lease_until now l = record l { leased_until = lease_until; updated_at = now }

unfoldable pub renewed_job : ℕ → ℕ → Job → Job
renewed_job lease_until now j = record j { leased_until = some lease_until; updated_at = now }

abbrev renew_found : Option Job → Db → ℕ → String → ℕ → ℕ → Result ℕ × Db
renew_found none db job_id worker_id lease_until now =
    (err (value_error "job lease is not owned by this worker"), db)
renew_found (some j) db job_id worker_id lease_until now =
    if count (lock_held_by j.incident_id job_id worker_id) db.job_locks == 0
    then (err (value_error "incident lease is not owned by this worker"), db)
    else (
      ok lease_until,
      record db {
        job_locks =
            update_where (lock_held_by j.incident_id job_id worker_id)
              (renewed_lock lease_until now) db.job_locks;
        jobs = update_where (is_leased_by job_id worker_id) (renewed_job lease_until now) db.jobs;
      },
    )

unfoldable pub renew_job_lease : Db → ℕ → String → ℕ → ℕ → Result ℕ × Db
renew_job_lease db job_id worker_id lease_seconds now =
    renew_found (find (is_leased_by job_id worker_id) db.jobs) db job_id worker_id
      (now + lease_seconds) now

unfoldable pub completed_job : String → ℕ → Job → Job
completed_job result now j = record j {
  status = completed;
  leased_until = none;
  result = some result;
  completed_at = some now;
  updated_at = now;
}

-- WHERE job_id=%s AND worker_id=%s of incident_job_locks
abbrev pub lock_taken_by : ℕ → String → JobLock → Bool
lock_taken_by job_id worker_id l = l.job_id == job_id && str_eq l.worker_id worker_id

unfoldable pub complete_job_once : Db → ℕ → String → String → ℕ → Result (Unit {0}) × Db
complete_job_once db job_id worker_id result now =
    if count (is_leased_by job_id worker_id) db.jobs == 0
    then (err (value_error "job lease is not owned by this worker"), db)
    else (
      ok tt,
      record db {
        jobs = update_where (is_leased_by job_id worker_id) (completed_job result now) db.jobs;
        job_locks = delete_where (lock_taken_by job_id worker_id) db.job_locks;
      },
    )

pub data Outcome : Type 0 where
  dead_lettered retry : Outcome

unfoldable pub dead_job : String → ℕ → Job → Job
dead_job diagnostics now j = record j {
  status = dead_letter;
  leased_until = none;
  last_error = some diagnostics;
  updated_at = now;
}

unfoldable pub retried_job : ℕ → String → ℕ → Job → Job
retried_job available_at diagnostics now j = record j {
  status = pending;
  worker_id = none;
  leased_until = none;
  available_at = available_at;
  last_error = some diagnostics;
  updated_at = now;
}

-- INSERT ... ON DUPLICATE KEY UPDATE diagnostics, failed_at, on the unique job_id
unfoldable pub save_dead_letter : DeadLetter → List DeadLetter → List DeadLetter
save_dead_letter new [] = new ∷ []
save_dead_letter new (d ∷ ds) =
    if d.job_id == new.job_id
    then record d { diagnostics = new.diagnostics; failed_at = new.failed_at } ∷ ds
    else d ∷ save_dead_letter new ds

unfoldable pub dead_letter_of : Claimed → String → ℕ → DeadLetter
dead_letter_of job diagnostics now = record {
  job_id = job.job_id;
  incident_id = job.incident_id;
  event_id = job.event_id;
  kind = job.kind;
  payload = job.payload;
  diagnostics = diagnostics;
  failed_at = now;
  replayed_at = none;
}

unfoldable pub fail_job : Db → Claimed → String → String → ℕ → ℕ → ℕ → Result Outcome × Db
fail_job db job worker_id diagnostics max_attempts retry_delay now =
    let owned = is_leased_by job.job_id worker_id in
    let locks = delete_where (lock_taken_by job.job_id worker_id) db.job_locks in
    if count owned db.jobs == 0
    then (err (value_error "job lease is not owned by this worker"), db)
    else if leb max_attempts job.attempt_count
    then (
      ok dead_lettered,
      record db {
        jobs = update_where owned (dead_job diagnostics now) db.jobs;
        dead_letters = save_dead_letter (dead_letter_of job diagnostics now) db.dead_letters;
        job_locks = locks;
      },
    )
    else (
      ok retry,
      record db {
        jobs = update_where owned (retried_job (now + retry_delay) diagnostics now) db.jobs;
        job_locks = locks;
      },
    )

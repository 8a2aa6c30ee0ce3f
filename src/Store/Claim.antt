-- ===== src/Store/Claim.antt =====
-- webhook/incident_store.py: the claim of a job and of its incident's lease.
use incident_agent.Common.{
  ℕ, ◌+◌, String, Bool, false, ◌&&◌, ◌||◌, not, Option, none, some, List, [], ◌∷◌, ◌++◌, str_eq,
  ◌==◌, leb, ltb, if◌then◌else◌, find, select, update_where, take, is_some,
}
use incident_agent.Store.{Env, Kind, leased, Job, JobLock, Db}
use incident_agent.Store.Intake.{is_pending, is_leased}

-- `leased_until<%s`, which NULL does not satisfy
abbrev pub lease_expired : Option ℕ → ℕ → Bool
lease_expired none now = false
lease_expired (some t) now = ltb t now

abbrev pub is_claimable : ℕ → Job → Bool
is_claimable now j =
    (is_pending j.status && leb j.available_at now)
    || (is_leased j.status && lease_expired j.leased_until now)

abbrev pub lock_of : String → JobLock → Bool
lock_of incident_id l = str_eq l.incident_id incident_id

-- INSERT of an unowned lock whose lease ended in 1970, if the incident has no lock
unfoldable pub ensure_lock : String → ℕ → List JobLock → List JobLock
ensure_lock incident_id now locks =
    if is_some (find (lock_of incident_id) locks)
    then locks
    else locks
      ++ record {
        incident_id = incident_id;
        job_id = 0;
        worker_id = "unowned";
        leased_until = 0;
        updated_at = now;
      }
        ∷ []

-- `lock and lock[0] >= now`
abbrev pub is_held : ℕ → Option JobLock → Bool
is_held now none = false
is_held now (some l) = leb now l.leased_until

unfoldable pub take_lock : Job → String → ℕ → ℕ → JobLock → JobLock
take_lock j worker_id lease_until now l = record l {
  job_id = j.job_id;
  worker_id = worker_id;
  leased_until = lease_until;
  updated_at = now;
}

unfoldable pub lease_job : String → ℕ → ℕ → Job → Job
lease_job worker_id lease_until now j = record j {
  status = leased;
  attempt_count = j.attempt_count + 1;
  worker_id = some worker_id;
  leased_until = some lease_until;
  updated_at = now;
}

-- The dict that a worker gets.
pub record Claimed : Type 0 where
  pub job_id : ℕ
  pub incident_id : String
  pub event_id : ℕ
  pub kind : Kind
  pub attempt_count : ℕ
  pub payload : String
  pub run_context : String

abbrev pub context_or : Option String → String → String
context_or none default = default
context_or (some c) default = c

abbrev pub claimed : Env → Job → Claimed
claimed env j = record {
  job_id = j.job_id;
  incident_id = j.incident_id;
  event_id = j.event_id;
  kind = j.kind;
  attempt_count = j.attempt_count + 1;
  payload = j.payload;
  run_context = context_or j.run_context env.default_run_context;
}

abbrev pub has_id : ℕ → Job → Bool
has_id job_id j = j.job_id == job_id

-- The UPDATEs of the lock and of the job.
unfoldable pub lease : Job → String → ℕ → ℕ → Db → Db
lease j worker_id lease_until now db = record db {
  job_locks =
      update_where (lock_of j.incident_id) (take_lock j worker_id lease_until now) db.job_locks;
  jobs = update_where (has_id j.job_id) (lease_job worker_id lease_until now) db.jobs;
}

-- The loop over the candidates: an incident whose lock is held is passed over.
unfoldable pub claim_loop : Env → String → ℕ → ℕ → List Job → Db → Option Claimed × Db
claim_loop env worker_id lease_until now [] db = (none, db)
claim_loop env worker_id lease_until now (j ∷ rest) db =
    let locks = ensure_lock j.incident_id now db.job_locks in
    let later = claim_loop env worker_id lease_until now rest (record db { job_locks = locks }) in
    if is_held now (find (lock_of j.incident_id) locks)
    then later
    else (some (claimed env j), lease j worker_id lease_until now (record db { job_locks = locks }))

-- SKIP LOCKED passes over the rows that other transactions have locked.
abbrev pub is_candidate : (ℕ → Bool) → ℕ → Job → Bool
is_candidate locked now j = is_claimable now j && not (locked j.job_id)

unfoldable pub claim_next_job_once : Env → (ℕ → Bool) → Db → String → ℕ → ℕ → Option Claimed × Db
claim_next_job_once env locked db worker_id lease_seconds now =
    claim_loop env worker_id (now + lease_seconds) now
      (take 20 (select (is_candidate locked now) db.jobs)) db

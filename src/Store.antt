-- ===== src/Store.antt =====
-- webhook/incident_store.py: the tables of the intake and the job queue, the settings and the
-- errors. The columns payload, run_context, result and last_error hold the text that `_json`
-- makes, and the operations take that text. Times are microseconds since 1970, as DATETIME(6).
pub mod Keys
pub mod Intake
pub mod Claim
pub mod Finish
pub mod Replay
pub mod Reach
pub mod JobKeys
pub mod LockKeys
pub mod Change
pub mod Ownership
pub mod Capacity
pub mod Admission
pub mod Outcomes
pub mod Failures
use incident_agent.Common.{ℕ, ℤ, String, Bool, Option, List, []}

-- The settings that the module imports, hashlib.sha256(...).hexdigest() and the text of
-- `default_run_context()`.
pub record Env : Type 0 where
  pub sha256 : String → String
  pub incident_coalesce : ℤ
  pub incident_coalesce_max : ℤ
  pub max_pending_jobs : ℤ
  pub default_run_context : String

pub data Error : Type 0 where
  evidence_integrity queue_capacity publication_uncertain value_error : String → Error

pub data Result {ℓ} (A : Type ℓ) : Type ℓ where
  ok : A → Result A
  err : Error → Result A

pub record Event : Type 0 where
  pub event_id : ℕ
  pub incident_id : String
  pub idempotency_key : String
  pub event_type : String
  pub event_time : Option ℕ
  pub source_time : Option ℕ
  pub received_at : ℕ
  pub clock_quality : String
  pub payload : String

-- The two kinds of job that are written.
pub data Kind : Type 0 where
  analyze reprocess : Kind

pub data JobStatus : Type 0 where
  pending leased completed dead_letter : JobStatus

pub record Job : Type 0 where
  pub job_id : ℕ
  pub job_key : String
  pub incident_id : String
  pub event_id : ℕ
  pub kind : Kind
  pub status : JobStatus
  pub attempt_count : ℕ
  pub available_at : ℕ
  pub leased_until : Option ℕ
  pub worker_id : Option String
  pub payload : String
  pub run_context : Option String
  pub result : Option String
  pub last_error : Option String
  pub completed_at : Option ℕ
  pub created_at : ℕ
  pub updated_at : ℕ

-- incident_job_locks
pub record JobLock : Type 0 where
  pub incident_id : String
  pub job_id : ℕ
  pub worker_id : String
  pub leased_until : ℕ
  pub updated_at : ℕ

-- incident_admission_locks
pub record AdmissionLock : Type 0 where
  pub incident_id : String
  pub updated_at : ℕ

pub record DeadLetter : Type 0 where
  pub job_id : ℕ
  pub incident_id : String
  pub event_id : ℕ
  pub kind : Kind
  pub payload : String
  pub diagnostics : String
  pub failed_at : ℕ
  pub replayed_at : Option ℕ

-- The rows stand in the order of their AUTO_INCREMENT keys. `queue_control` is the column
-- updated_at of the one row of incident_queue_control.
pub record Db : Type 0 where
  pub events : List Event
  pub jobs : List Job
  pub job_locks : List JobLock
  pub admission_locks : List AdmissionLock
  pub dead_letters : List DeadLetter
  pub queue_control : ℕ
  pub next_event_id : ℕ
  pub next_job_id : ℕ

abbrev pub empty : Db
empty = record {
  events = [];
  jobs = [];
  job_locks = [];
  admission_locks = [];
  dead_letters = [];
  queue_control = 0;
  next_event_id = 1;
  next_job_id = 1;
}

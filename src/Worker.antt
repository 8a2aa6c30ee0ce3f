-- ===== src/Worker.antt =====
-- webhook/worker.py: process_one and drain over the tables of the store. What the handler, the
-- heartbeat and other processes do is an argument; metrics, log lines and the rows of heartbeats are
-- left out.
pub mod Settling
use incident_agent.Common.{
  ℕ, zero, suc, ◌+◌, String, Bool, true, false, ◌||◌, not, Option, none, some, List, [], ◌∷◌,
  if◌then◌else◌,
}
use incident_agent.Store.{Env, Db, Error, Result, ok, err}
use incident_agent.Store.Claim.{Claimed, claim_next_job_once}
use incident_agent.Store.Finish.{Outcome, complete_job_once, fail_job}

-- The classes of exceptions that is_retryable_failure tells apart.
pub data Class : Type 0 where
  terminal_job permission value_error type_error other_error : Class

pub record Raised : Type 0 where
  pub class : Class
  pub text : String

abbrev pub is_terminal : Class → Bool
is_terminal terminal_job = true
is_terminal permission = true
is_terminal value_error = true
is_terminal type_error = true
is_terminal other_error = false

unfoldable pub is_retryable_failure : Raised → Bool
is_retryable_failure e = not (is_terminal e.class)

-- What the handler comes to; complete_job may raise another exception than its ValueError.
pub data Handled : Type 0 where
  returned : String → Handled
  unsaved : Raised → Handled
  raised : Raised → Handled

-- The heartbeat keeps the lease, or loses it before the handler is done or while it is awaited.
pub data Heartbeat : Type 0 where
  kept lost : Heartbeat

-- One job's processing: what the database is when the handler is done, what the handler and the
-- heartbeat come to, the text of the diagnostics of an exception, and the time.
pub record Run : Type 0 where
  pub meanwhile : Db → Db
  pub handled : Handled
  pub heartbeat : Heartbeat
  pub describe : Claimed → Raised → String
  pub done_at : ℕ

-- The status of the outcome, with the id of the job.
pub data Processed : Type 0 where
  empty : Processed
  lease_lost : ℕ → Processed
  completed : ℕ → String → Processed
  failed : Outcome → ℕ → Raised → Processed

-- JOB_LEASE_SECONDS and retry_delay_seconds, in microseconds
pub record Settings : Type 0 where
  pub lease : ℕ
  pub retry_delay : ℕ

-- `1 if not is_retryable_failure(exc) else 3`
abbrev pub max_attempts : Raised → ℕ
max_attempts e = if is_retryable_failure e then 3 else 1

abbrev pub completed_or_lost : Claimed → String → Result (Unit {0}) × Db → Processed × Db
completed_or_lost job result (ok u, db) = (completed job.job_id result, db)
completed_or_lost job result (err e, db) = (lease_lost job.job_id, db)

-- The only ValueError of fail_job says that the lease is not owned.
abbrev pub failed_or_lost : Claimed → Raised → Result Outcome × Db → Processed × Db
failed_or_lost job e (ok outcome, db) = (failed outcome job.job_id e, db)
failed_or_lost job e (err f, db) = (lease_lost job.job_id, db)

unfoldable pub fail : Settings → String → Claimed → Run → Db → Raised → Processed × Db
fail s worker_id job x db e =
    failed_or_lost job e
      (fail_job db job worker_id (x.describe job e) (max_attempts e) s.retry_delay x.done_at)

-- What follows the handler's end, where the heartbeat has kept the lease.
unfoldable pub finish : Settings → String → Claimed → Run → Db → Handled → Processed × Db
finish s worker_id job x db (returned result) =
    completed_or_lost job result (complete_job_once db job.job_id worker_id result x.done_at)
finish s worker_id job x db (unsaved e) = fail s worker_id job x db e
finish s worker_id job x db (raised e) = fail s worker_id job x db e

abbrev pub after_handler : Settings → String → Claimed → Run → Db → Heartbeat → Processed × Db
after_handler s worker_id job x db lost = (lease_lost job.job_id, db)
after_handler s worker_id job x db kept = finish s worker_id job x db x.handled

abbrev pub after_claim : Settings → String → Run → Option Claimed × Db → Processed × Db
after_claim s worker_id x (none, db) = (empty, db)
after_claim s worker_id x (some job, db) =
    after_handler s worker_id job x (x.meanwhile db) x.heartbeat

unfoldable pub process_one : Env → (ℕ → Bool) → Settings → Db → String → Run → ℕ → Processed × Db
process_one env locked s db worker_id x now =
    after_claim s worker_id x (claim_next_job_once env locked db worker_id s.lease now)

abbrev pub is_empty_outcome : Processed → Bool
is_empty_outcome empty = true
is_empty_outcome (lease_lost id) = false
is_empty_outcome (completed id result) = false
is_empty_outcome (failed outcome id e) = false

-- The jobs from the `i`-th on; each has its own processing and time.
unfoldable pub drain :
    Env → (ℕ → Bool) → Settings → ℕ → ℕ → Db → String → (ℕ → Run) → (ℕ → ℕ) → List Processed × Db
drain env locked s zero i db worker_id runs clock = ([], db)
drain env locked s (suc left) i db worker_id runs clock =
    let (outcome, db') = process_one env locked s db worker_id (runs i) (clock i) in
    let rest = drain env locked s left (suc i) db' worker_id runs clock in
    if is_empty_outcome outcome then (outcome ∷ [], db') else (outcome ∷ rest.0, rest.1)

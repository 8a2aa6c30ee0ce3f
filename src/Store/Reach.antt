-- ===== src/Store/Reach.antt =====
-- The transactions of webhook/incident_store.py that write events, jobs and locks, as steps. A
-- transaction runs alone: it holds the row locks that it needs, or is rolled back.
use incident_agent.Common.{ℕ, ◌≤◌, String, Bool, none}
use incident_agent.Store.{Env, Db, empty}
use incident_agent.Store.Intake.{NewEvent, append_event, record_event_and_enqueue}
use incident_agent.Store.Claim.{Claimed, claim_next_job_once}
use incident_agent.Store.Finish.{renew_job_lease, complete_job_once, fail_job}
use incident_agent.Store.Replay.{replay_dead_letter, enqueue_reprocessing}

-- Admission goes by the configured maximum.
pub data Op : Type 0 where
  append : NewEvent → Op
  enqueue : NewEvent → String → Op
  claim : (ℕ → Bool) → String → ℕ → Op
  renew : ℕ → String → ℕ → Op
  complete : ℕ → String → String → Op
  fail : Claimed → String → String → ℕ → ℕ → Op
  replay : ℕ → String → Op
  reprocess : String → String → String → Op

-- The database after a transaction at a time.
unfoldable pub apply : Env → Db → Op → ℕ → Db
apply env db (append new) now = (append_event db new now).1
apply env db (enqueue new run_context) now =
    (record_event_and_enqueue env db new run_context none now).1
apply env db (claim locked worker_id lease_seconds) now =
    (claim_next_job_once env locked db worker_id lease_seconds now).1
apply env db (renew job_id worker_id lease_seconds) now =
    (renew_job_lease db job_id worker_id lease_seconds now).1
apply env db (complete job_id worker_id result) now =
    (complete_job_once db job_id worker_id result now).1
apply env db (fail job worker_id diagnostics max_attempts retry_delay) now =
    (fail_job db job worker_id diagnostics max_attempts retry_delay now).1
apply env db (replay job_id run_context) now =
    (replay_dead_letter env db job_id run_context none now).1
apply env db (reprocess incident_id salt run_context) now =
    (enqueue_reprocessing env db incident_id salt run_context none now).1

-- The databases that are reached, with the time of the last transaction. The clocks of the
-- processes agree on the order of the transactions.
pub data Reach (env : Env) : ℕ → Db → Type 0 where
  start : Reach env 0 empty
  next :
      {t : ℕ} {db : Db} (op : Op) (now : ℕ)
      → Reach env t db
      → t ≤ now
      → Reach env now (apply env db op now)

-- ===== src/Store/Replay.antt =====
-- webhook/incident_store.py: dead letters and stored events are queued again.
use incident_agent.Common.{
  ℕ, ℤ, String, Bool, Option, none, some, List, [], ◌∷◌, str_eq, ◌==◌, if◌then◌else◌, find,
  update_where, is_some,
}
use incident_agent.Store.{
  Env, Error, value_error, Result, ok, err, Event, reprocess, Job, DeadLetter, Db,
}
use incident_agent.Store.Keys.{job_key, decimal}
use incident_agent.Store.Intake.{assert_queue_capacity, queue_maximum, new_job, insert_job}

abbrev pub with_key : String → Job → Bool
with_key key j = str_eq j.job_key key

-- INSERT ... ON DUPLICATE KEY UPDATE updated_at, on the unique job_key
abbrev upsert_job : Option Job → Db → String → Job → ℕ → Db
upsert_job (some existing) db key new now = record db {
  jobs = update_where (with_key key) (λ j. record j { updated_at = now }) db.jobs;
}
upsert_job none db key new now = insert_job (record db { queue_control = now }) new

-- The capacity is asked only for a key that is not there.
abbrev reprocess_capacity : Option Job → Db → ℤ → Option Error
reprocess_capacity (some existing) db maximum = none
reprocess_capacity none db maximum = assert_queue_capacity db maximum

abbrev pub dead_letter_for : ℕ → DeadLetter → Bool
dead_letter_for job_id d = d.job_id == job_id

abbrev replay_admitted :
    Option Error → Option Job → Db → DeadLetter → String → Job → ℕ → Result ℕ × Db
replay_admitted (some e) existing db d key new now = (err e, db)
replay_admitted none existing db d key new now =
    let db1 = upsert_job existing db key new now in
    (
      ok d.event_id,
      record db1 {
        dead_letters =
            update_where (dead_letter_for d.job_id) (λ x. record x { replayed_at = some now })
              db1.dead_letters;
      },
    )

abbrev replay_found : Env → Option DeadLetter → Db → String → Option ℤ → ℕ → Result ℕ × Db
replay_found env none db run_context maximum now =
    (err (value_error "dead-letter job not found"), db)
replay_found env (some d) db run_context maximum now =
    let key = job_key env d.event_id reprocess (decimal d.job_id) in
    let existing = find (with_key key) db.jobs in
    replay_admitted (reprocess_capacity existing db (queue_maximum env maximum)) existing db d key
      (new_job db key d.incident_id d.event_id reprocess now d.payload run_context now) now

-- The event whose job is queued again.
unfoldable pub replay_dead_letter : Env → Db → ℕ → String → Option ℤ → ℕ → Result ℕ × Db
replay_dead_letter env db job_id run_context max_pending_jobs now =
    replay_found env (find (dead_letter_for job_id) db.dead_letters) db run_context max_pending_jobs
      now

-- ORDER BY event_id DESC LIMIT 1
unfoldable pub latest_event : String → List Event → Option Event
latest_event incident_id [] = none
latest_event incident_id (e ∷ es) =
    let later = latest_event incident_id es in
    if is_some later then later else if str_eq e.incident_id incident_id then some e else none

abbrev job_id_of : Option Job → ℕ → ℕ
job_id_of (some j) next = j.job_id
job_id_of none next = next

abbrev reprocess_admitted : Option Error → Option Job → Db → String → Job → ℕ → Result ℕ × Db
reprocess_admitted (some e) existing db key new now = (err e, db)
reprocess_admitted none existing db key new now =
    (ok (job_id_of existing db.next_job_id), upsert_job existing db key new now)

abbrev reprocess_found :
    Env → Option Event → Db → String → String → String → Option ℤ → ℕ → Result ℕ × Db
reprocess_found env none db incident_id salt run_context maximum now =
    (err (value_error "incident has no stored event"), db)
reprocess_found env (some e) db incident_id salt run_context maximum now =
    let key = job_key env e.event_id reprocess salt in
    let existing = find (with_key key) db.jobs in
    reprocess_admitted (reprocess_capacity existing db (queue_maximum env maximum)) existing db key
      (new_job db key incident_id e.event_id reprocess now e.payload run_context now) now

-- The id of the job that is queued, or was before. `salt` is the context's text with sorted keys.
unfoldable pub enqueue_reprocessing :
    Env → Db → String → String → String → Option ℤ → ℕ → Result ℕ × Db
enqueue_reprocessing env db incident_id salt run_context max_pending_jobs now =
    reprocess_found env (latest_event incident_id db.events) db incident_id salt run_context
      max_pending_jobs now

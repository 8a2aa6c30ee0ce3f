-- ===== src/Store/Intake.antt =====
-- webhook/incident_store.py: events and their admission to the queue. A function takes the
-- database and the time, and returns its result with the database that its transaction leaves.
use incident_agent.Common.{
  ℕ, ℤ, ◌+◌, min, String, Bool, true, false, ◌&&◌, ◌||◌, Option, none, some, List, [], ◌∷◌, ◌++◌,
  str_eq, ◌==◌, leb, if◌then◌else◌, find, update_where, count, at_least_zero,
}
use incident_agent.Store.{
  Env, Error, queue_capacity, Result, ok, err, Event, Kind, analyze, reprocess, JobStatus, pending,
  leased, Job, AdmissionLock, Db,
}
use incident_agent.Store.Keys.{job_key}

-- The arguments of `record_event`, after `_mysql_datetime` and `_json`.
pub record NewEvent : Type 0 where
  pub incident_id : String
  pub idempotency_key : String
  pub event_type : String
  pub payload : String
  pub event_time : Option ℕ
  pub source_time : Option ℕ
  pub clock_quality : String

pub record Inserted : Type 0 where
  pub inserted : Bool
  pub event_id : ℕ
  pub received_at : ℕ

abbrev pub has_key : String → Event → Bool
has_key key e = str_eq e.idempotency_key key

abbrev pub event_of : Db → NewEvent → ℕ → Event
event_of db new now = record {
  event_id = db.next_event_id;
  incident_id = new.incident_id;
  idempotency_key = new.idempotency_key;
  event_type = new.event_type;
  event_time = new.event_time;
  source_time = new.source_time;
  received_at = now;
  clock_quality = new.clock_quality;
  payload = new.payload;
}

-- The INSERT fails on the unique idempotency_key if a row has it.
abbrev insert_missing : Option Event → Db → NewEvent → ℕ → Inserted × Db
insert_missing (some e) db new now =
    (record { inserted = false; event_id = e.event_id; received_at = e.received_at }, db)
insert_missing none db new now = (
  record { inserted = true; event_id = db.next_event_id; received_at = now },
  record db {
    events = db.events ++ event_of db new now ∷ [];
    next_event_id = db.next_event_id + 1;
  },
)

unfoldable pub insert_event : Db → NewEvent → ℕ → Inserted × Db
insert_event db new now = insert_missing (find (has_key new.idempotency_key) db.events) db new now

unfoldable pub record_event : Db → NewEvent → ℕ → Inserted × Db
record_event db new now = insert_event db new now

-- append_event hands its arguments to record_event.
unfoldable pub append_event : Db → NewEvent → ℕ → Inserted × Db
append_event db new now = record_event db new now

abbrev pub is_pending : JobStatus → Bool
is_pending pending = true
is_pending _ = false

abbrev pub is_leased : JobStatus → Bool
is_leased leased = true
is_leased _ = false

abbrev pub is_analyze : Kind → Bool
is_analyze analyze = true
is_analyze reprocess = false

-- status IN ('pending','leased')
abbrev pub is_active : Job → Bool
is_active j = is_pending j.status || is_leased j.status

unfoldable pub assert_queue_capacity : Db → ℤ → Option Error
assert_queue_capacity db maximum =
    if at_least_zero maximum == 0
    then some (queue_capacity "analysis queue admission is disabled")
    else if leb (at_least_zero maximum) (count is_active db.jobs)
    then some (queue_capacity "analysis queue capacity reached")
    else none

-- `int(MAX_PENDING_JOBS if maximum is None else maximum)`
abbrev pub queue_maximum : Env → Option ℤ → ℤ
queue_maximum env none = env.max_pending_jobs
queue_maximum env (some maximum) = maximum

unfoldable pub upsert_admission_lock : String → ℕ → List AdmissionLock → List AdmissionLock
upsert_admission_lock incident_id now [] =
    record { incident_id = incident_id; updated_at = now } ∷ []
upsert_admission_lock incident_id now (l ∷ ls) =
    if str_eq l.incident_id incident_id
    then record { incident_id = incident_id; updated_at = now } ∷ ls
    else l ∷ upsert_admission_lock incident_id now ls

-- A new row of incident_jobs; the columns that the INSERT does not name are NULL, or 0.
unfoldable pub new_job : Db → String → String → ℕ → Kind → ℕ → String → String → ℕ → Job
new_job db key incident_id event_id kind available_at payload run_context now = record {
  job_id = db.next_job_id;
  job_key = key;
  incident_id = incident_id;
  event_id = event_id;
  kind = kind;
  status = pending;
  attempt_count = 0;
  available_at = available_at;
  leased_until = none;
  worker_id = none;
  payload = payload;
  run_context = some run_context;
  result = none;
  last_error = none;
  completed_at = none;
  created_at = now;
  updated_at = now;
}

abbrev pub insert_job : Db → Job → Db
insert_job db j = record db { jobs = db.jobs ++ j ∷ []; next_job_id = db.next_job_id + 1 }

-- The pending analysis job of the incident.
abbrev pub awaits_analysis : String → Job → Bool
awaits_analysis incident_id j =
    str_eq j.incident_id incident_id && is_analyze j.kind && is_pending j.status

-- The returned dict; `job_id` is none and `coalesced` false where it has no such key.
pub record Enqueued : Type 0 where
  pub inserted : Bool
  pub event_id : ℕ
  pub job_id : Option ℕ
  pub queued : Bool
  pub coalesced : Bool
  pub received_at : ℕ

unfoldable pub coalesced_deadline : Env → ℕ → ℕ → ℕ
coalesced_deadline env created_at now =
    min (now + at_least_zero env.incident_coalesce)
      (created_at + at_least_zero env.incident_coalesce_max)

-- The pending job takes over the new event.
unfoldable pub coalesce : Env → Job → NewEvent → String → ℕ → ℕ → Job → Job
coalesce env existing new run_context event_id now j = record j {
  event_id = event_id;
  payload = new.payload;
  run_context = some run_context;
  available_at = coalesced_deadline env existing.created_at now;
  updated_at = now;
}

abbrev pub pending_with_id : ℕ → Job → Bool
pending_with_id job_id j = j.job_id == job_id && is_pending j.status

abbrev admit :
    Env → Option Error → Db → Db → NewEvent → String → Inserted → ℕ → Result Enqueued × Db
admit env (some e) before db new run_context i now = (err e, before)
admit env none before db new run_context i now = (
  ok (record {
    inserted = true;
    event_id = i.event_id;
    job_id = some db.next_job_id;
    queued = true;
    coalesced = false;
    received_at = i.received_at;
  }),
  insert_job (record db { queue_control = now })
      (new_job db (job_key env i.event_id analyze "") new.incident_id i.event_id analyze
        (now + at_least_zero env.incident_coalesce) new.payload run_context now),
)

abbrev enqueue :
    Env → Option Job → Db → Db → NewEvent → String → Option ℤ → Inserted → ℕ → Result Enqueued × Db
enqueue env (some existing) before db new run_context maximum i now = (
  ok (record {
    inserted = true;
    event_id = i.event_id;
    job_id = some existing.job_id;
    queued = false;
    coalesced = true;
    received_at = i.received_at;
  }),
  record db {
    jobs =
        update_where (pending_with_id existing.job_id)
          (coalesce env existing new run_context i.event_id now) db.jobs;
  },
)
enqueue env none before db new run_context maximum i now =
    admit env (assert_queue_capacity db (queue_maximum env maximum)) before db new run_context i now

abbrev after_insert :
    Env → Inserted × Db → Db → NewEvent → String → Option ℤ → ℕ → Result Enqueued × Db
after_insert env (i, db1) before new run_context maximum now =
    if i.inserted
    then (let db2 = record db1 {
      admission_locks = upsert_admission_lock new.incident_id now db1.admission_locks;
    } in
        enqueue env (find (awaits_analysis new.incident_id) db2.jobs) before db2 new run_context
          maximum i now)
    else (
      ok (record {
        inserted = false;
        event_id = i.event_id;
        job_id = none;
        queued = false;
        coalesced = false;
        received_at = i.received_at;
      }),
      db1,
    )

unfoldable pub record_event_and_enqueue :
    Env → Db → NewEvent → String → Option ℤ → ℕ → Result Enqueued × Db
record_event_and_enqueue env db new run_context max_pending_jobs now =
    after_insert env (insert_event db new now) db new run_context max_pending_jobs now

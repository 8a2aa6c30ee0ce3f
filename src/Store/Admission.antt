-- ===== src/Store/Admission.antt =====
-- What the intake of webhook/incident_store.py answers: redelivery, refusal and coalescing.
use incident_agent.Common.{
  ℕ, ℤ, ◌+◌, ◌≤◌, String, ◌≡◌, refl, true, false, Option, none, some, [], ◌∷◌, ◌++◌, All, arith,
  find, find-p, find-append, count, at_least_zero, Option-cases, inl, inr, ap, eq_refl,
  update_where-All, find-All,
}
use incident_agent.Store.{Env, ok, err, Error, Job, Db, Event}
use incident_agent.Store.JobKeys.{IsOnly, Ascending-IsOnly}
use incident_agent.Store.Ownership.{IsSound}
use incident_agent.Store.Intake.{
  NewEvent, Enqueued, has_key, insert_event, event_of, record_event_and_enqueue, is_active,
  assert_queue_capacity, queue_maximum, awaits_analysis, coalesced_deadline, coalesce,
  pending_with_id,
}

-- The event that `insert_event` answers for is in the table.
insert_event-find :
    (db : Db) (new : NewEvent) (now : ℕ)
    → (e : Event) × (find (has_key new.idempotency_key) (insert_event db new now).1.events ≡ some e)
      × (e.event_id ≡ (insert_event db new now).0.event_id)
      × (e.received_at ≡ (insert_event db new now).0.received_at)
unfolding insert_event
insert_event-find db new now = elim (Option-cases (find (has_key new.idempotency_key) db.events)) [
  | inr (e, f) ↦ rw f (e, f, refl, refl)
  | inl f ↦ rw f (event_of db new now, rw (find-append, f) (unfold find in rw eq_refl), refl, refl)
]

-- A second delivery of a stored event: nothing is written, and the answer is the first one's event.
abbrev pub duplicate : ℕ → ℕ → Enqueued
duplicate event_id received_at = record {
  inserted = false;
  event_id = event_id;
  job_id = none;
  queued = false;
  coalesced = false;
  received_at = received_at;
}

redelivered :
    (env : Env) (db : Db) (new : NewEvent) (run_context : String) (maximum : Option ℤ) (now : ℕ)
    (e : Event)
    → find (has_key new.idempotency_key) db.events ≡ some e
    → record_event_and_enqueue env db new run_context maximum now
      ≡ (ok (duplicate e.event_id e.received_at), db)
unfolding record_event_and_enqueue insert_event
redelivered env db new run_context maximum now e f = rw f

-- An accepted delivery stores the event of its answer.
accepted_stored :
    (env : Env) (db : Db) (new : NewEvent) (run_context : String) (maximum : Option ℤ) (now : ℕ)
    (a : Enqueued) (db' : Db)
    → record_event_and_enqueue env db new run_context maximum now ≡ (ok a, db')
    → (db'.events ≡ (insert_event db new now).1.events)
      × (a.event_id ≡ (insert_event db new now).0.event_id)
      × (a.received_at ≡ (insert_event db new now).0.received_at)
unfolding record_event_and_enqueue
accepted_stored env db new run_context maximum now a db' h = ground arith

-- After an accepted delivery, the next delivery with its idempotency key, whatever else it carries
-- and whenever it comes, changes nothing and is answered with the event and the time of the first.
pub redelivery_idempotent :
    (env : Env) (db : Db) (new again : NewEvent) (run_context run_context' : String)
    (maximum maximum' : Option ℤ) (now now' : ℕ) (a : Enqueued) (db' : Db)
    → record_event_and_enqueue env db new run_context maximum now ≡ (ok a, db')
    → again.idempotency_key ≡ new.idempotency_key
    → record_event_and_enqueue env db' again run_context' maximum' now'
      ≡ (ok (duplicate a.event_id a.received_at), db')
redelivery_idempotent env db new again run_context run_context' maximum maximum' now now' a db' h
      k =
    let (events, id, at) = accepted_stored env db new run_context maximum now a db' h in
    let (e, f, eid, eat) = insert_event-find db new now in
    rw (redelivered env db' again run_context' maximum' now' e (rw (k, events) f), id, at, eid, eat)

-- A refused delivery leaves the database as it was, without its event, and is refused only where
-- the maximum is not positive or the active jobs have reached it.
pub refused_unchanged :
    (env : Env) (db : Db) (new : NewEvent) (run_context : String) (maximum : Option ℤ) (now : ℕ)
    (e : Error) (db' : Db)
    → record_event_and_enqueue env db new run_context maximum now ≡ (err e, db')
    → (db' ≡ db) × (at_least_zero (queue_maximum env maximum) ≤ count is_active db.jobs)
unfolding record_event_and_enqueue insert_event assert_queue_capacity
refused_unchanged env db new run_context maximum now e db' h = ground arith

-- The job that took over an event.
pub record TookOver (env : Env) (j : Job) (new : NewEvent) (event_id now : ℕ) (x : Job)
    : Type 0 where
  pub event : x.event_id ≡ event_id
  pub payload : x.payload ≡ new.payload
  pub sliding : x.available_at ≤ now + at_least_zero env.incident_coalesce
  pub hard : x.available_at ≤ j.created_at + at_least_zero env.incident_coalesce_max
  pub created : x.created_at ≡ j.created_at

-- In a sound database, a new event of an incident with a pending analysis job makes no new job: the
-- row of that job takes over the event and its payload, and waits at most the coalescing window from
-- now, and at most the hard window from its own creation.
pub coalesces :
    {t : ℕ} (env : Env) (db : Db) (new : NewEvent) (run_context : String) (maximum : Option ℤ)
    (now : ℕ) (j : Job)
    → IsSound t db
    → find (has_key new.idempotency_key) db.events ≡ none
    → find (awaits_analysis new.incident_id) db.jobs ≡ some j
    → let (r, db') = record_event_and_enqueue env db new run_context maximum now in
      (r
        ≡ ok (record {
          inserted = true;
          event_id = db.next_event_id;
          job_id = some j.job_id;
          queued = false;
          coalesced = true;
          received_at = now;
        }))
      × (db'.next_job_id ≡ db.next_job_id)
      × (db'.events ≡ db.events ++ event_of db new now ∷ [])
      × All (λ x. x.job_id ≡ j.job_id → TookOver env j new db.next_event_id now x) db'.jobs
unfolding record_event_and_enqueue insert_event coalesce coalesced_deadline
coalesces env db new run_context maximum now j s k f =
    let waits : awaits_analysis new.incident_id j ≡ true =
      find-p (awaits_analysis new.incident_id) db.jobs j f in
    let only =
      find-All (awaits_analysis new.incident_id) (IsOnly db.jobs) db.jobs j
        (Ascending-IsOnly 1 db.next_job_id db.jobs s.keys) f in
    rw (k, f)
      (
        refl,
        refl,
        refl,
        update_where-All (λ x. x.job_id ≡ j.job_id → x ≡ j)
            (λ x. x.job_id ≡ j.job_id → TookOver env j new db.next_event_id now x)
            (pending_with_id j.job_id) (coalesce env j new run_context db.next_event_id now)
            (λ x o p i.
              let same_row : x ≡ j = o i in
              record {
                event = refl;
                payload = refl;
                sliding = omega arith;
                hard = omega arith;
                created = ap (λ (y : Job). y.created_at) same_row;
              })
            (λ x o p i. let same_row : x ≡ j = o i in absurd (ground arith)) db.jobs only,
      )

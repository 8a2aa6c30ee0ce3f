-- ===== src/Store/Change.antt =====
-- What admission and replay do to the jobs: nothing, one new pending row, or an update that leaves
-- every lease alone. They leave the incidents' locks alone.
use incident_agent.Common.{
  ℕ, ◌+◌, ◌<◌, String, ◌≡◌, refl, Bool, none, List, [], ◌∷◌, ◌++◌, arith, update_where, count, find,
  ap, subst, ◌∙◌, at_least_zero, Bool-cases, Option-cases, inl, inr,
}
use incident_agent.Store.{Env, Job, Db, pending, reprocess}
use incident_agent.Store.Keys.{job_key, decimal}
use incident_agent.Store.Intake.{
  NewEvent, insert_event, append_event, record_event, upsert_admission_lock, insert_job,
  record_event_and_enqueue, is_active, assert_queue_capacity, coalesce, new_job, awaits_analysis,
  pending_with_id,
}
use incident_agent.Store.Replay.{
  replay_dead_letter, enqueue_reprocessing, dead_letter_for, latest_event, with_key,
}

-- The columns of a job that say who may work on it.
pub record SameLease (j k : Job) : Type 0 where
  pub job_id : k.job_id ≡ j.job_id
  pub incident_id : k.incident_id ≡ j.incident_id
  pub status : k.status ≡ j.status
  pub leased_until : k.leased_until ≡ j.leased_until
  pub worker_id : k.worker_id ≡ j.worker_id

pub data Change (maximum : ℕ) (db db' : Db) : Type 0 where
  same :
      db'.jobs ≡ db.jobs
      → db'.next_job_id ≡ db.next_job_id
      → db'.job_locks ≡ db.job_locks
      → Change maximum db db'
  inserted :
      (j : Job)
      → db'.jobs ≡ db.jobs ++ j ∷ []
      → db'.next_job_id ≡ db.next_job_id + 1
      → j.job_id ≡ db.next_job_id
      → j.status ≡ pending
      → count is_active db.jobs < maximum
      → db'.job_locks ≡ db.job_locks
      → Change maximum db db'
  touched :
      (p : Job → Bool) (f : Job → Job)
      → db'.jobs ≡ update_where p f db.jobs
      → ((j : Job) → SameLease j (f j))
      → db'.next_job_id ≡ db.next_job_id
      → db'.job_locks ≡ db.job_locks
      → Change maximum db db'

pub insert_event_rest :
    (db : Db) (new : NewEvent) (now : ℕ)
    → ((insert_event db new now).1.jobs ≡ db.jobs)
      × ((insert_event db new now).1.next_job_id ≡ db.next_job_id)
      × ((insert_event db new now).1.job_locks ≡ db.job_locks)
unfolding insert_event
insert_event_rest db new now = ground arith

pub append_event-Change :
    (maximum : ℕ) (db : Db) (new : NewEvent) (now : ℕ)
    → Change maximum db (append_event db new now).1
unfolding append_event record_event
append_event-Change maximum db new now =
    let (js, nx, lk) = insert_event_rest db new now in same js nx lk

room :
    (env : Env) (db : Db)
    → assert_queue_capacity db env.max_pending_jobs ≡ none
    → count is_active db.jobs < at_least_zero env.max_pending_jobs
unfolding assert_queue_capacity
room env db h = ground arith

coalesce-SameLease :
    (env : Env) (existing : Job) (new : NewEvent) (run_context : String) (event_id now : ℕ)
    (j : Job)
    → SameLease j (coalesce env existing new run_context event_id now j)
unfolding coalesce
coalesce-SameLease env existing new run_context event_id now j = record {
  job_id = refl;
  incident_id = refl;
  status = refl;
  leased_until = refl;
  worker_id = refl;
}

insert_job-Change :
    (env : Env) (db db0 : Db) (new : Job) (now : ℕ)
    → db.jobs ≡ db0.jobs
    → db.next_job_id ≡ db0.next_job_id
    → db.job_locks ≡ db0.job_locks
    → new.job_id ≡ db.next_job_id
    → new.status ≡ pending
    → assert_queue_capacity db env.max_pending_jobs ≡ none
    → Change
        (at_least_zero env.max_pending_jobs)
        db0
        (insert_job (record db { queue_control = now }) new)
insert_job-Change env db db0 new now js nx lk id st c =
    inserted new (ap (λ (xs : List Job). xs ++ new ∷ []) js) (ap (λ (n : ℕ). n + 1) nx) (id ∙ nx) st
      (subst (λ xs. count is_active xs < at_least_zero env.max_pending_jobs) js (room env db c)) lk

pub enqueue-Change :
    (env : Env) (db : Db) (new : NewEvent) (run_context : String) (now : ℕ)
    → Change
        (at_least_zero env.max_pending_jobs)
        db
        (record_event_and_enqueue env db new run_context none now).1
unfolding record_event_and_enqueue new_job
enqueue-Change env db new run_context now =
    let i = (insert_event db new now).0 in
    let db1 = (insert_event db new now).1 in
    let (js, nx, lk) = insert_event_rest db new now in
    let db2 : Db = record db1 {
      admission_locks = upsert_admission_lock new.incident_id now db1.admission_locks;
    } in
    elim (Bool-cases i.inserted) [
      | inr e ↦ rw e (same js nx lk)
      | inl e ↦ rw e (elim (Option-cases (find (awaits_analysis new.incident_id) db1.jobs)) [
        | inr (x, f) ↦ rw f (
            touched (pending_with_id x.job_id) (coalesce env x new run_context i.event_id now)
              (ap
                (update_where (pending_with_id x.job_id)
                  (coalesce env x new run_context i.event_id now))
                js)
              (coalesce-SameLease env x new run_context i.event_id now) nx lk)
        | inl f ↦ rw f (elim (Option-cases (assert_queue_capacity db2 env.max_pending_jobs)) [
          | inl c ↦ rw c (insert_job-Change env db2 db _ now js nx lk refl refl c)
          | inr (x, c) ↦ rw c (same refl refl refl)
        ])
      ])
    ]

touch-SameLease : (now : ℕ) (j : Job) → SameLease j (record j { updated_at = now })
touch-SameLease now j = record {
  job_id = refl;
  incident_id = refl;
  status = refl;
  leased_until = refl;
  worker_id = refl;
}

pub replay-Change :
    (env : Env) (db : Db) (job_id : ℕ) (run_context : String) (now : ℕ)
    → Change
        (at_least_zero env.max_pending_jobs)
        db
        (replay_dead_letter env db job_id run_context none now).1
unfolding replay_dead_letter new_job
replay-Change env db job_id run_context now =
    elim (Option-cases (find (dead_letter_for job_id) db.dead_letters)) [
      | inl e ↦ rw e (same refl refl refl)
      | inr (d, e) ↦ rw e (
          let key = job_key env d.event_id reprocess (decimal d.job_id) in
          elim (Option-cases (find (with_key key) db.jobs)) [
            | inr (x, f) ↦ rw f (
                touched (with_key key) (λ j. record j { updated_at = now }) refl
                  (touch-SameLease now) refl refl)
            | inl f ↦ rw f (elim (Option-cases (assert_queue_capacity db env.max_pending_jobs)) [
              | inl c ↦ rw c (inserted _ refl refl refl refl (room env db c) refl)
              | inr (x, c) ↦ rw c (same refl refl refl)
            ])
          ])
    ]

pub reprocess-Change :
    (env : Env) (db : Db) (incident_id salt run_context : String) (now : ℕ)
    → Change
        (at_least_zero env.max_pending_jobs)
        db
        (enqueue_reprocessing env db incident_id salt run_context none now).1
unfolding enqueue_reprocessing new_job
reprocess-Change env db incident_id salt run_context now =
    elim (Option-cases (latest_event incident_id db.events)) [
      | inl e ↦ rw e (same refl refl refl)
      | inr (d, e) ↦ rw e (
          let key = job_key env d.event_id reprocess salt in
          elim (Option-cases (find (with_key key) db.jobs)) [
            | inr (x, f) ↦ rw f (
                touched (with_key key) (λ j. record j { updated_at = now }) refl
                  (touch-SameLease now) refl refl)
            | inl f ↦ rw f (elim (Option-cases (assert_queue_capacity db env.max_pending_jobs)) [
              | inl c ↦ rw c (insert_job-Change env db db _ now refl refl refl refl refl c)
              | inr (x, c) ↦ rw c (same refl refl refl)
            ])
          ])
    ]

-- ===== src/Tests/Queue.antt =====
-- Concrete runs of the queue of webhook/incident_store.py.
use incident_agent.Common.{
  ℕ, String, ◌≡◌, ◌≢◌, refl, Bool, false, true, none, some, [], ◌∷◌, ◌++◌, All, Memᴰ, arith, pos,
  count, find, select, update_where, eq_iff, ◌≤◌,
}
use incident_agent.Store.{Env, Db, Job, ok, err, queue_capacity, analyze, leased, empty}
use incident_agent.Store.Keys.{job_key}
use incident_agent.Store.Intake.{
  NewEvent, record_event_and_enqueue, insert_event, assert_queue_capacity, new_job,
  upsert_admission_lock, event_of, is_active,
}
use incident_agent.Store.Claim.{
  Claimed, claim_next_job_once, claim_loop, ensure_lock, lease, lease_job, take_lock,
}
use incident_agent.Store.Finish.{renew_job_lease, complete_job_once, fail_job}
use incident_agent.Store.Reach.{enqueue, claim, apply, Reach, start, next}
use incident_agent.Store.Admission.{
  redelivery_idempotent, refused_unchanged, coalesces, duplicate, TookOver,
}
use incident_agent.Store.Ownership.Always.{IsRunning, one_owner, Reach-IsSound}
use incident_agent.Store.Capacity.{Reach-active, active_jobs}
use incident_agent.Store.Outcomes.{Took, claim_takes_free, takeover_fences, not_owned}

abbrev pub env : Env
env = record {
  sha256 = λ s. s;
  incident_coalesce = pos 5;
  incident_coalesce_max = pos 30;
  max_pending_jobs = pos 1;
  default_run_context = "{}";
}

abbrev alert : String → String → NewEvent
alert incident_id key = record {
  incident_id = incident_id;
  idempotency_key = key;
  event_type = "alert";
  payload = "{}";
  event_time = none;
  source_time = none;
  clock_quality = "unverified";
}

abbrev pub queued : Db
queued = apply env empty (enqueue (alert "INC-1" "k1") "{}") 10

abbrev pub no_row : ℕ → Bool
no_row _ = false

abbrev pub running : Db
running = apply env queued (claim no_row "w1" 120) 20

abbrev pub job : Claimed
job = record {
  job_id = 1;
  incident_id = "INC-1";
  event_id = 1;
  kind = analyze;
  attempt_count = 1;
  payload = "{}";
  run_context = "{}";
}

pub claimed_first : claim_next_job_once env no_row queued "w1" 120 20 ≡ (some job, running)
unfolding claim_next_job_once claim_loop ensure_lock lease lease_job take_lock apply
    record_event_and_enqueue insert_event assert_queue_capacity new_job job_key
    upsert_admission_lock find select update_where count
claimed_first = refl

claim_takes_free_example : Took env 20 140 "w1" queued running job
claim_takes_free_example = claim_takes_free env no_row queued "w1" 120 20 job running claimed_first

pub w1_not_w2 : ◌≢◌ {A = String} "w2" "w1"
w1_not_w2 = ground (arith, eq_iff "w2" "w1")

-- The lease of "w1" ends at 140, and "w2" takes the job over.
abbrev pub taken_over : Db
taken_over = apply env running (claim no_row "w2" 120) 200

abbrev pub job_again : Claimed
job_again = record job { attempt_count = 2 }

pub claimed_again :
    claim_next_job_once env no_row running "w2" 120 200 ≡ (some job_again, taken_over)
unfolding claimed_first claim_next_job_once claim_loop ensure_lock lease lease_job take_lock apply
    record_event_and_enqueue insert_event assert_queue_capacity new_job job_key
    upsert_admission_lock find select update_where count
claimed_again = refl

takeover_fences_example :
    (renew_job_lease taken_over 1 "w1" 120 210 ≡ (err not_owned, taken_over))
    × (complete_job_once taken_over 1 "w1" "{}" 210 ≡ (err not_owned, taken_over))
    × (fail_job taken_over job_again "w1" "late" 3 30 210 ≡ (err not_owned, taken_over))
takeover_fences_example =
    takeover_fences env no_row running "w2" "w1" 120 200 job_again taken_over claimed_again
      w1_not_w2 120 210 3 30 "{}" "late"

queued_first : record_event_and_enqueue env empty (alert "INC-1" "k1") "{}" none 10 ≡ (
  ok (record {
    inserted = true;
    event_id = 1;
    job_id = some 1;
    queued = true;
    coalesced = false;
    received_at = 10;
  }),
  queued,
)
unfolding apply record_event_and_enqueue insert_event assert_queue_capacity new_job job_key
    upsert_admission_lock find count
queued_first = refl

redelivery_idempotent_example :
    record_event_and_enqueue env queued (alert "INC-2" "k1") "{}" none 15
    ≡ (ok (duplicate 1 10), queued)
redelivery_idempotent_example =
    redelivery_idempotent env empty (alert "INC-1" "k1") (alert "INC-2" "k1") "{}" "{}" none none 10
      15
      (record {
        inserted = true;
        event_id = 1;
        job_id = some 1;
        queued = true;
        coalesced = false;
        received_at = 10;
      })
      queued queued_first refl

full :
    record_event_and_enqueue env queued (alert "INC-2" "k2") "{}" none 15
    ≡ (err (queue_capacity "analysis queue capacity reached"), queued)
unfolding apply record_event_and_enqueue insert_event assert_queue_capacity new_job job_key
    upsert_admission_lock find count
full = refl

refused_unchanged_example : (queued ≡ queued) × (1 ≤ count is_active queued.jobs)
refused_unchanged_example =
    refused_unchanged env queued (alert "INC-2" "k2") "{}" none 15
      (queue_capacity "analysis queue capacity reached") queued full

queued_reached : Reach env 10 queued
queued_reached = next (enqueue (alert "INC-1" "k1") "{}") 10 start (omega arith)

running_reached : Reach env 20 running
running_reached = next (claim no_row "w1" 120) 20 queued_reached (omega arith)

abbrev waiting : Job
waiting = new_job empty "analyze:1:" "INC-1" 1 analyze 15 "{}" "{}" 10

coalesces_example :
    let (r, db') = record_event_and_enqueue env queued (alert "INC-1" "k2") "{}" none 12 in
    (r
      ≡ ok (record {
        inserted = true;
        event_id = queued.next_event_id;
        job_id = some waiting.job_id;
        queued = false;
        coalesced = true;
        received_at = 12;
      }))
    × (db'.next_job_id ≡ queued.next_job_id)
    × (db'.events ≡ queued.events ++ event_of queued (alert "INC-1" "k2") 12 ∷ [])
    × All
        (λ x.
          x.job_id ≡ waiting.job_id
          → TookOver env waiting (alert "INC-1" "k2") queued.next_event_id 12 x)
        db'.jobs
unfolding apply record_event_and_enqueue insert_event assert_queue_capacity new_job job_key
    upsert_admission_lock find count
coalesces_example =
    coalesces env queued (alert "INC-1" "k2") "{}" none 12 waiting (Reach-IsSound queued_reached)
      refl refl

abbrev running_row : Job
running_row = record waiting {
  status = leased;
  attempt_count = 1;
  leased_until = some 140;
  worker_id = some "w1";
  updated_at = 20;
}

running_stored : Memᴰ running_row running.jobs
unfolding claimed_first
running_stored = Memᴰ.head refl

running_row_open : IsRunning 20 running_row
unfolding new_job
running_row_open = record { status = refl; until = 140; lease = refl; not_ended = omega arith }

one_owner_example : running_row ≡ running_row
one_owner_example =
    one_owner running_reached running_stored running_stored running_row_open running_row_open refl

Reach-active_example : active_jobs running ≤ 1
Reach-active_example = Reach-active running_reached

-- ===== src/Worker/Settling.antt =====
-- What becomes of a job that a worker processes.
use incident_agent.Common.{
  ℕ, ◌≤◌, ◌<◌, String, ◌≡◌, ◌≢◌, refl, subst, ◌⊎◌, Bool, true, false, some, List, [], ◌∷◌, All,
  count-none, leb, find, arith, Bool-cases, inl, inr,
}
use incident_agent.Store.{
  Env, Db, Job, JobStatus, pending, completed as job_completed, dead_letter, DeadLetter, Result, ok,
}
use incident_agent.Store.Claim.{Claimed, claim_next_job_once}
use incident_agent.Store.Finish.{
  Outcome, retry, dead_lettered, is_leased_by, complete_job_once, fail_job,
}
use incident_agent.Store.Replay.{dead_letter_for}
use incident_agent.Store.Outcomes.{claim_takes_free, taken_over}
use incident_agent.Store.Failures.{claim_completes, claim_retries, claim_dead_letters}
use incident_agent.Worker.{
  Raised, is_retryable_failure, Handled, returned, unsaved, raised, Heartbeat, kept, lost, Run,
  Processed, lease_lost, completed, failed, Settings, max_attempts, completed_or_lost,
  failed_or_lost, fail, finish, after_handler, process_one,
}

-- The rows of a job are what a status, and its place, tell.
abbrev pub RowsOf : ℕ → JobStatus → Db → Type 0
RowsOf id status db = All (λ j. j.job_id ≡ id → j.status ≡ status) db.jobs

-- A job whose handling raised has failed: its rows wait for another attempt where the failure is
-- retryable and fewer than three attempts have been made, and are dead letters otherwise, with the
-- diagnostics in the dead letter.
abbrev pub Failed : Claimed → Run → Raised → Processed → Db → Type 0
Failed r x e p db =
    ((is_retryable_failure e ≡ true)
      × (r.attempt_count < 3)
      × (p ≡ failed retry r.job_id e)
      × RowsOf r.job_id pending db)
    ⊎ (((is_retryable_failure e ≡ false) ⊎ (3 ≤ r.attempt_count))
        × (p ≡ failed dead_lettered r.job_id e)
        × RowsOf r.job_id dead_letter db
        × ((d : DeadLetter) × (find (dead_letter_for r.job_id) db.dead_letters ≡ some d)
            × (d.diagnostics ≡ x.describe r e)))

-- What the job and its rows are, by what the handler came to.
abbrev pub Settled : Claimed → Run → Handled → Processed → Db → Type 0
Settled r x (returned result) p db =
    (p ≡ completed r.job_id result) × RowsOf r.job_id job_completed db
Settled r x (unsaved e) p db = Failed r x e p db
Settled r x (raised e) p db = Failed r x e p db

failed_result :
    (job : Claimed) (e : Raised) (o : Result Outcome × Db) (outcome : Outcome)
    → o.0 ≡ ok outcome
    → (failed outcome job.job_id e, o.1) ≡ failed_or_lost job e o
failed_result job e (x, db) outcome p = rw p refl

completed_result :
    (job : Claimed) (result : String) (o : Result (Unit {0}) × Db)
    → o.0 ≡ ok tt
    → (completed job.job_id result, o.1) ≡ completed_or_lost job result o
completed_result job result (x, db) p = rw p refl

kept_handler :
    (s : Settings) (w : String) (r : Claimed) (x : Run) (b : Heartbeat) (db db' : Db)
    → b ≡ kept
    → db ≡ db'
    → finish s w r x db' x.handled ≡ after_handler s w r x db b
kept_handler s w r x kept db db' k m = rw m refl
kept_handler s w r x lost db db' k m = absurd (grind arith)

lost_handler :
    (s : Settings) (w : String) (r : Claimed) (x : Run) (b : Heartbeat) (db : Db)
    → finish s w r x db x.handled ≡ (lease_lost r.job_id, db)
    → after_handler s w r x db b ≡ (lease_lost r.job_id, db)
lost_handler s w r x kept db e = e
lost_handler s w r x lost db e = refl

All-0 : {P Q : Job → Type 0} (xs : List Job) → ((j : Job) → P j → Q j) → All P xs → All Q xs
All-0 [] f a = tt
All-0 (x ∷ xs) f a = (f x a.0, All-0 xs f a.1)

module _ (env : Env) (locked : ℕ → Bool) (s : Settings) (db : Db) (w : String) (x : Run) (now : ℕ)
    (r : Claimed) (db' : Db)
    (h : claim_next_job_once env locked db w s.lease now ≡ (some r, db')) where
  claimed_before : 1 ≤ r.attempt_count
  claimed_before =
      let took = claim_takes_free env locked db w s.lease now r db' h in
      rw took.answer (omega arith)

  fail-retried :
      (e : Raised)
      → is_retryable_failure e ≡ true
      → r.attempt_count < 3
      → let o = fail s w r x db' e in Failed r x e o.0 o.1
  unfolding fail
  fail-retried e q few =
      let o = fail_job db' r w (x.describe r e) (max_attempts e) s.retry_delay x.done_at in
      let left : r.attempt_count < max_attempts e = rw q few in
      let a =
        claim_retries env locked db w s.lease now r db' h (x.describe r e) (max_attempts e)
          s.retry_delay x.done_at left in
      subst (λ p. Failed r x e p.0 p.1) (failed_result r e o retry a.0)
        (inl (q, few, refl, All-0 o.1.jobs (λ j f i. (f i).0) a.2))

  fail-dead_lettered :
      (e : Raised)
      → (is_retryable_failure e ≡ false) ⊎ (3 ≤ r.attempt_count)
      → max_attempts e ≤ r.attempt_count
      → let o = fail s w r x db' e in Failed r x e o.0 o.1
  unfolding fail
  fail-dead_lettered e q last =
      let o = fail_job db' r w (x.describe r e) (max_attempts e) s.retry_delay x.done_at in
      let a =
        claim_dead_letters env locked db w s.lease now r db' h (x.describe r e) (max_attempts e)
          s.retry_delay x.done_at last in
      subst (λ p. Failed r x e p.0 p.1) (failed_result r e o dead_lettered a.0)
        (inr (q, refl, a.1, (a.2.0, a.2.1, a.2.2)))

  fail-Failed : (e : Raised) → let o = fail s w r x db' e in Failed r x e o.0 o.1
  fail-Failed e = elim (Bool-cases (is_retryable_failure e)) [
    | inr q ↦ fail-dead_lettered e (inl q) (rw q claimed_before)
    | inl q ↦ elim (Bool-cases (leb 3 r.attempt_count)) [
      | inl m ↦
          let third : 3 ≤ r.attempt_count = ground arith in
          fail-dead_lettered e (inr third) (rw q third)
      | inr m ↦ fail-retried e q (ground arith)
    ]
  ]

  finish-Settled : (z : Handled) → let o = finish s w r x db' z in Settled r x z o.0 o.1
  unfolding finish
  finish-Settled (unsaved e) = fail-Failed e
  finish-Settled (raised e) = fail-Failed e
  finish-Settled (returned result) =
      let o = complete_job_once db' r.job_id w result x.done_at in
      let a = claim_completes env locked db w s.lease now r db' h result x.done_at in
      subst (λ p. Settled r x (returned result) p.0 p.1) (completed_result r result o a.0)
        (refl, All-0 o.1.jobs (λ j f i. (f i).0) a.1)

  -- A worker that claims a job, keeps its lease, and is not interfered with settles it, whatever the
  -- handler comes to: the job is completed where the handler returns and the result is saved. Where
  -- an exception is raised, its rows wait for another attempt if the failure is retryable and fewer
  -- than three attempts were made, and are dead letters, with the diagnostics, if not.
  pub process_one-Settled :
      x.heartbeat ≡ kept
      → x.meanwhile db' ≡ db'
      → let o = process_one env locked s db w x now in Settled r x x.handled o.0 o.1
  unfolding process_one
  process_one-Settled k m = rw h (
      subst (λ p. Settled r x x.handled p.0 p.1) (kept_handler s w r x x.heartbeat _ db' k m)
        (finish-Settled x.handled))

-- Nobody but the worker's successor has the job.
abbrev pub TakenOver : ℕ → String → Db → Type 0
TakenOver id w db = All (λ j. is_leased_by id w j ≡ false) db.jobs

finish-lost :
    (s : Settings) (w : String) (r : Claimed) (x : Run) (db : Db) (z : Handled)
    → TakenOver r.job_id w db
    → finish s w r x db z ≡ (lease_lost r.job_id, db)
unfolding finish fail fail_job complete_job_once
finish-lost s w r x db (returned result) o =
    rw (count-none (is_leased_by r.job_id w) db.jobs o) refl
finish-lost s w r x db (unsaved e) o = rw (count-none (is_leased_by r.job_id w) db.jobs o) refl
finish-lost s w r x db (raised e) o = rw (count-none (is_leased_by r.job_id w) db.jobs o) refl

-- Where another worker has claimed the job while the handler ran, and nothing was written after that
-- claim, the processing ends with a lost lease and leaves the database as it finds it then, whatever
-- the handler and the heartbeat come to.
pub process_one_overtaken :
    (env : Env) (locked : ℕ → Bool) (s : Settings) (db : Db) (w : String) (x : Run) (now : ℕ)
    (r : Claimed) (db' : Db)
    → claim_next_job_once env locked db w s.lease now ≡ (some r, db')
    → (before : Db) (v : String) (lease later : ℕ) (taken : Claimed)
    → claim_next_job_once env locked before v lease later ≡ (some taken, x.meanwhile db')
    → taken.job_id ≡ r.job_id
    → v ≢ w
    → process_one env locked s db w x now ≡ (lease_lost r.job_id, x.meanwhile db')
unfolding process_one
process_one_overtaken env locked s db w x now r db' h before v lease later taken c same d =
    let over : TakenOver r.job_id w (x.meanwhile db') =
      subst (λ i. TakenOver i w (x.meanwhile db')) same
        (taken_over env locked before v w lease later taken (x.meanwhile db') c d) in
    rw h (lost_handler s w r x x.heartbeat (x.meanwhile db') (finish-lost s w r x _ x.handled over))

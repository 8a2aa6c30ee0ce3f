-- ===== src/Store/Failures.antt =====
-- What becomes of a claimed job: its completion, its retry and its dead letter.
use incident_agent.Common.{
  ℕ, ◌+◌, ◌≤◌, ◌<◌, String, ◌≡◌, refl, Bool, true, false, none, some, List, [], ◌∷◌, All, All-of,
  count-Memᴰ, update_where-Memᴰ, arith, find, count, update_where, update_where-All, Bool-cases,
  inl, inr, ◌==◌, ==_refl, leb, eq_refl,
}
use incident_agent.Store.{Env, ok, Job, DeadLetter, Db, pending, completed, dead_letter}
use incident_agent.Store.Claim.{Claimed, has_id, lease_job, claim_next_job_once}
use incident_agent.Store.Finish.{
  retry, dead_lettered, is_leased_by, complete_job_once, completed_job, fail_job, dead_job,
  retried_job, dead_letter_of, save_dead_letter,
}
use incident_agent.Store.Replay.{dead_letter_for}
use incident_agent.Store.Outcomes.{claim_takes_free}

-- The claimed row is leased by its worker.
claimed_owned :
    (env : Env) (locked : ℕ → Bool) (db : Db) (w : String) (n now : ℕ) (r : Claimed) (db' : Db)
    → claim_next_job_once env locked db w n now ≡ (some r, db')
    → (count (is_leased_by r.job_id w) db'.jobs == 0) ≡ false
unfolding lease_job
claimed_owned env locked db w n now r db' h =
    let took = claim_takes_free env locked db w n now r db' h in
    let id : took.row.job_id ≡ r.job_id = cc (took.answer) in
    let row =
      update_where-Memᴰ (has_id took.row.job_id) (lease_job w (now + n) now) took.row db.jobs
        took.stored (==_refl took.row.job_id) in
    rw took.jobs (
      count-Memᴰ (is_leased_by r.job_id w) (lease_job w (now + n) now took.row) _ row
        (rw (id, ==_refl, eq_refl)))

-- After the claim every row of the job is leased by its worker.
claimed_rows :
    (env : Env) (locked : ℕ → Bool) (db : Db) (w : String) (n now : ℕ) (r : Claimed) (db' : Db)
    → claim_next_job_once env locked db w n now ≡ (some r, db')
    → All (λ x. x.job_id ≡ r.job_id → is_leased_by r.job_id w x ≡ true) db'.jobs
unfolding lease_job
claimed_rows env locked db w n now r db' h =
    let took = claim_takes_free env locked db w n now r db' h in
    let id : took.row.job_id ≡ r.job_id = cc (took.answer) in
    rw (took.jobs, id)
      (update_where-All (λ x. Unit {0}) _ (has_id r.job_id) (lease_job w (now + n) now)
        (λ x _ e i. rw (i, ==_refl, eq_refl)) (λ x _ e i. absurd (ground arith)) db.jobs
        (All-of _ (λ x. tt) db.jobs))

-- An update of the rows that the worker has leased makes every row of the job what it writes.
settled :
    (id : ℕ) (w : String) (f : Job → Job) (js : List Job) (P : Job → Type 0)
    → ((j : Job) → P (f j))
    → All (λ x. x.job_id ≡ id → is_leased_by id w x ≡ true) js
    → ((j : Job) → (f j).job_id ≡ j.job_id)
    → All (λ x. x.job_id ≡ id → P x) (update_where (is_leased_by id w) f js)
settled id w f js P written rows same_id =
    update_where-All (λ x. x.job_id ≡ id → is_leased_by id w x ≡ true) (λ x. x.job_id ≡ id → P x)
      (is_leased_by id w) f (λ x o e i. written x)
      (λ x o e i. absurd (let mine = o i in ground arith)) js rows

save_dead_letter-find :
    (d : DeadLetter) (ds : List DeadLetter)
    → (x : DeadLetter) × (find (dead_letter_for d.job_id) (save_dead_letter d ds) ≡ some x)
      × (x.diagnostics ≡ d.diagnostics)
      × (x.failed_at ≡ d.failed_at)
unfolding save_dead_letter find
save_dead_letter-find d [] = (d, rw ==_refl, refl, refl)
save_dead_letter-find d (x ∷ ds) = elim (Bool-cases (x.job_id == d.job_id)) [
  | inl e ↦
      (record x { diagnostics = d.diagnostics; failed_at = d.failed_at }, rw (e, e), refl, refl)
  | inr e ↦ rw (e, e) (save_dead_letter-find d ds)
]

module _ (env : Env) (locked : ℕ → Bool) (db : Db) (w : String) (n now : ℕ) (r : Claimed) (db' : Db)
    (h : claim_next_job_once env locked db w n now ≡ (some r, db')) where
  -- The worker that claimed a job completes it at any later time, unless others write in between:
  -- every row of the job is completed then, with the result and the time.
  pub claim_completes :
      (result : String) (later : ℕ)
      → let (x, done) = complete_job_once db' r.job_id w result later in
        (x ≡ ok tt)
        × All
            (λ j.
              j.job_id ≡ r.job_id
              → (j.status ≡ completed) × (j.result ≡ some result) × (j.completed_at ≡ some later))
            done.jobs
  unfolding complete_job_once completed_job
  claim_completes result later = rw (claimed_owned env locked db w n now r db' h) (
    refl,
    settled r.job_id w (completed_job result later) db'.jobs _ (λ j. (refl, refl, refl))
        (claimed_rows env locked db w n now r db' h) (λ j. refl),
  )

  -- A failure with attempts left puts the claimed job back: every row of the job waits until the
  -- delay is over, and no dead letter is left.
  pub claim_retries :
      (diagnostics : String) (max_attempts retry_delay later : ℕ)
      → r.attempt_count < max_attempts
      → let (x, done) = fail_job db' r w diagnostics max_attempts retry_delay later in
        (x ≡ ok retry)
        × (done.dead_letters ≡ db'.dead_letters)
        × All
            (λ j.
              j.job_id ≡ r.job_id
              → (j.status ≡ pending)
                × (j.available_at ≡ later + retry_delay)
                × (j.worker_id ≡ none))
            done.jobs
  unfolding fail_job retried_job
  claim_retries diagnostics max_attempts delay later few =
      let more : leb max_attempts r.attempt_count ≡ false = ground arith in
      rw (claimed_owned env locked db w n now r db' h, more)
        (
          refl,
          refl,
          settled r.job_id w (retried_job (later + delay) diagnostics later) db'.jobs _
              (λ j. (refl, refl, refl)) (claimed_rows env locked db w n now r db' h) (λ j. refl),
        )

  -- A failure at the last attempt settles every row of the job as a dead letter, which is stored
  -- with the diagnostics and the time.
  pub claim_dead_letters :
      (diagnostics : String) (max_attempts retry_delay later : ℕ)
      → max_attempts ≤ r.attempt_count
      → let (x, done) = fail_job db' r w diagnostics max_attempts retry_delay later in
        (x ≡ ok dead_lettered)
        × All (λ j. j.job_id ≡ r.job_id → j.status ≡ dead_letter) done.jobs
        × ((d : DeadLetter) × (find (dead_letter_for r.job_id) done.dead_letters ≡ some d)
            × (d.diagnostics ≡ diagnostics)
            × (d.failed_at ≡ later))
  unfolding fail_job dead_job dead_letter_of
  claim_dead_letters diagnostics max_attempts delay later enough =
      let last : leb max_attempts r.attempt_count ≡ true = ground arith in
      rw (claimed_owned env locked db w n now r db' h, last)
        (
          refl,
          settled r.job_id w (dead_job diagnostics later) db'.jobs _ (λ j. refl)
              (claimed_rows env locked db w n now r db' h) (λ j. refl),
          save_dead_letter-find (dead_letter_of r diagnostics later) db'.dead_letters,
        )

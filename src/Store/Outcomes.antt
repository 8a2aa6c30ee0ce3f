-- ===== src/Store/Outcomes.antt =====
-- What a claim returns, and what the calls of a worker do that owns its job, or no longer does.
use incident_agent.Common.{
  ℕ, ◌+◌, String, ◌≡◌, ◌≢◌, Bool, true, false, Option, some, List, [], ◌∷◌, All, All-take, All-both,
  All-map, All-of, All-Memᴰ, count-none, find-none, Memᴰ, arith, find, find-append, select,
  select-p, select-All, take, update_where, update_where-All, is_some, Bool-cases, Option-cases,
  inl, inr, ap, sym, ◌∙◌, refl, eq_iff, eq_refl, find-p, find-update_where,
}
use incident_agent.Store.{Env, err, value_error, Error, Job, JobLock, Db, leased}
use incident_agent.Store.Claim.{
  Claimed, context_or, is_claimable, is_candidate, is_held, lock_of, ensure_lock, has_id, take_lock,
  lease, lease_job, claim_loop, claim_next_job_once,
}
use incident_agent.Store.Finish.{is_leased_by, renew_job_lease, complete_job_once, fail_job}

-- A row with the lease, and one attempt more.
abbrev pub leased_row : String → ℕ → ℕ → Job → Job
leased_row w until now j = record j {
  status = leased;
  attempt_count = j.attempt_count + 1;
  worker_id = some w;
  leased_until = some until;
  updated_at = now;
}

-- The row that a claim took, what it answered, and what it wrote: the lease and one attempt more to
-- the rows of the job, and the lease to the incident's lock.
pub record Took (env : Env) (now until : ℕ) (w : String) (db db' : Db) (r : Claimed) : Type 0 where
  pub row : Job
  pub answer : r ≡ record {
    job_id = row.job_id;
    incident_id = row.incident_id;
    event_id = row.event_id;
    kind = row.kind;
    attempt_count = row.attempt_count + 1;
    payload = row.payload;
    run_context = context_or row.run_context env.default_run_context;
  }
  pub stored : Memᴰ row db.jobs
  pub claimable : is_claimable now row ≡ true
  pub incident_free : is_held now (find (lock_of row.incident_id) db.job_locks) ≡ false
  pub jobs : db'.jobs ≡ update_where (has_id row.job_id) (leased_row w until now) db.jobs
  pub lock :
      find (lock_of row.incident_id) db'.job_locks
      ≡ some (record {
        incident_id = row.incident_id;
        job_id = row.job_id;
        worker_id = w;
        leased_until = until;
        updated_at = now;
      })
  pub events : db'.events ≡ db.events

ensure_lock-held :
    (i j : String) (now : ℕ) (locks : List JobLock)
    → is_held now (find (lock_of j) (ensure_lock i now locks)) ≡ false
    → is_held now (find (lock_of j) locks) ≡ false
unfolding ensure_lock
ensure_lock-held i j now locks h = elim (Option-cases (find (lock_of j) locks)) [
  | inl e ↦ rw e
  | inr (l, e) ↦ elim (Bool-cases (is_some (find (lock_of i) locks))) [
    | inl s ↦ rw s at h
    | inr s ↦ rw e (rw (s, find-append, e) at h)
  ]
]

-- The lock that is there after ensure_lock is the incident's own once it is taken.
locked_by :
    (c : Job) (w : String) (until now : ℕ) (locks : List JobLock)
    → find (lock_of c.incident_id) (
        update_where
          (lock_of c.incident_id)
          (take_lock c w until now)
          (ensure_lock c.incident_id now locks))
      ≡ some (record {
        incident_id = c.incident_id;
        job_id = c.job_id;
        worker_id = w;
        leased_until = until;
        updated_at = now;
      })
unfolding take_lock ensure_lock
locked_by c w until now locks =
    let p = lock_of c.incident_id in
    elim (Option-cases (find p locks)) [
      | inl e ↦
          rw (find-update_where p p (take_lock c w until now) (λ l. refl), e, find-append, e)
            (unfold find in rw (eq_refl c.incident_id, eq_refl c.incident_id) refl)
      | inr (l, e) ↦
          let mine : l.incident_id ≡ c.incident_id = (eq_iff _ _).0 (find-p p locks l e) in
          rw (find-update_where p p (take_lock c w until now) (λ l. refl), e, e, mine, eq_refl) refl
    ]

claim_loop-Took :
    (env : Env) (w : String) (until now : ℕ) (cs : List Job) (db : Db) (r : Claimed) (db' : Db)
    → All (λ c. Memᴰ c db.jobs × (is_claimable now c ≡ true)) cs
    → claim_loop env w until now cs db ≡ (some r, db')
    → Took env now until w db db' r
unfolding claim_loop lease lease_job
claim_loop-Took env w until now [] db r db' a h = cc
claim_loop-Took env w until now (c ∷ cs) db r db' a h =
    let locks = ensure_lock c.incident_id now db.job_locks in
    elim (Bool-cases (is_held now (find (lock_of c.incident_id) locks))) [
      | inl e ↦
          let k =
            claim_loop-Took env w until now cs (record db { job_locks = locks }) r db' a.1
              (rw e at h) in
          record {
            row = k.row;
            answer = k.answer;
            stored = k.stored;
            claimable = k.claimable;
            incident_free =
                ensure_lock-held c.incident_id k.row.incident_id now db.job_locks k.incident_free;
            jobs = k.jobs;
            lock = k.lock;
            events = k.events;
          }
      | inr e ↦
          let taken = rw e at h in
          record {
            row = c;
            answer = cc;
            stored = a.0.0;
            claimable = a.0.1;
            incident_free = ensure_lock-held c.incident_id c.incident_id now db.job_locks e;
            jobs = ap (λ (x : Option Claimed × Db). x.1.jobs) (sym taken);
            lock =
                ap (λ (x : Option Claimed × Db). find (lock_of c.incident_id) x.1.job_locks)
                  (sym taken)
                ∙ locked_by c w until now db.job_locks;
            events = ap (λ (x : Option Claimed × Db). x.1.events) (sym taken);
          }
    ]

-- A claim that is answered with a job took a stored row that was pending and due, or whose lease had
-- ended, and whose incident was free. It answers with that row and one attempt more, writes the lease
-- and one attempt more to the rows of that job and to no others, and the lease to the lock of the
-- incident.
pub claim_takes_free :
    (env : Env) (locked : ℕ → Bool) (db : Db) (w : String) (lease_seconds now : ℕ) (r : Claimed)
    (db' : Db)
    → claim_next_job_once env locked db w lease_seconds now ≡ (some r, db')
    → Took env now (now + lease_seconds) w db db' r
unfolding claim_next_job_once
claim_takes_free env locked db w lease_seconds now r db' h =
    let cs = select (is_candidate locked now) db.jobs in
    claim_loop-Took env w (now + lease_seconds) now (take 20 cs) db r db'
      (All-take _ 20 cs (
        All-both (λ c. Memᴰ c db.jobs) (λ c. is_claimable now c ≡ true) cs
          (select-All (is_candidate locked now) (λ c. Memᴰ c db.jobs) db.jobs (All-Memᴰ db.jobs))
          (All-map _ _ (λ c e. ground arith) cs (select-p (is_candidate locked now) db.jobs))))
      h

not_leased_by :
    (id : ℕ) (w v : String) (until now : ℕ) (js : List Job)
    → w ≢ v
    → All (λ x. is_leased_by id v x ≡ false) (update_where (has_id id) (leased_row w until now) js)
not_leased_by id w v until now js d =
    update_where-All (λ x. Unit {0}) _ (has_id id) (leased_row w until now)
      (λ x _ e. ground (arith, eq_iff w v)) (λ x _ e. ground arith) js (All-of _ (λ x. tt) js)

abbrev pub not_owned : Error
not_owned = value_error "job lease is not owned by this worker"

-- After a claim by another worker, a worker has no row of the job.
pub taken_over :
    (env : Env) (locked : ℕ → Bool) (db : Db) (w v : String) (lease_seconds now : ℕ) (r : Claimed)
    (db' : Db)
    → claim_next_job_once env locked db w lease_seconds now ≡ (some r, db')
    → w ≢ v
    → All (λ x. is_leased_by r.job_id v x ≡ false) db'.jobs
taken_over env locked db w v n now r db' h d =
    let took = claim_takes_free env locked db w n now r db' h in
    let id : took.row.job_id ≡ r.job_id = cc (took.answer) in
    rw (took.jobs, ← id) (not_leased_by took.row.job_id w v (now + n) now db.jobs d)

-- Once another worker has claimed a job, the calls of the worker that had it before are refused
-- and change nothing: it can neither renew, complete nor fail the job.
pub takeover_fences :
    (env : Env) (locked : ℕ → Bool) (db : Db) (w v : String) (lease_seconds now : ℕ) (r : Claimed)
    (db' : Db)
    → claim_next_job_once env locked db w lease_seconds now ≡ (some r, db')
    → w ≢ v
    → (n later max_attempts retry_delay : ℕ) (result diagnostics : String)
    → (renew_job_lease db' r.job_id v n later ≡ (err not_owned, db'))
      × (complete_job_once db' r.job_id v result later ≡ (err not_owned, db'))
      × (fail_job db' r v diagnostics max_attempts retry_delay later ≡ (err not_owned, db'))
unfolding renew_job_lease complete_job_once fail_job
takeover_fences env locked db w v n now r db' h d n' later m delay result diagnostics =
    let none_left = taken_over env locked db w v n now r db' h d in
    let uncounted = count-none (is_leased_by r.job_id v) db'.jobs none_left in
    (rw (find-none (is_leased_by r.job_id v) db'.jobs none_left), rw uncounted, rw uncounted)

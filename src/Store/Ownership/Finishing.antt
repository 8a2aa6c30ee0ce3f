-- ===== src/Store/Ownership/Finishing.antt =====
-- Renewal, completion and failure keep the ownership invariant.
use incident_agent.Common.{
  ℕ, ◌+◌, String, ◌≡◌, ◌≢◌, refl, true, false, some, List, All, arith, find, find-p, find-All,
  find-update_where, find-delete_where_kept, count, count-some, update_where-All, update_where,
  delete_where, eq_iff, ap, subst, [], ◌∷◌, Bool-cases, Option-cases, inl, inr, ==_refl, ◌==◌, leb,
}
use incident_agent.Store.{Job, JobLock, Db, leased}
use incident_agent.Store.Claim.{lock_of, Claimed}
use incident_agent.Store.Finish.{
  is_leased_by, lock_held_by, lock_taken_by, renewed_lock, renewed_job, renew_job_lease,
  completed_job, complete_job_once, dead_job, retried_job, fail_job,
}
use incident_agent.Store.LockKeys.{IsFound, update_where-IsIndexed, delete_where-IsIndexed}
use incident_agent.Store.JobKeys.{Ascending-update_where, Ascending-IsOnly, IsOnly}
use incident_agent.Store.Ownership.{Holds, IsOwned, IsSound}

-- A lock with the job's id and worker belongs to a row that the worker has leased.
lock_matches :
    (id : ℕ) (w : String) {locks : List JobLock} {j : Job} {t : ℕ} (h : Holds locks j t)
    → j.status ≡ leased
    → lock_taken_by id w h.lock ≡ true
    → is_leased_by id w j ≡ true
lock_matches id w {j = j} h st m =
    let worker : h.lock.worker_id ≡ w = (eq_iff _ _).0 (ground arith) in
    let job : h.lock.job_id ≡ id = ground arith in
    rw (← h.job, job, st, ==_refl) (rw worker at h.worker)

module _ (id : ℕ) (w : String) (now : ℕ) (f : Job → Job) where
  -- The rows that the worker has leased stop being leased, and the lock goes.
  release-IsSound :
      (db : Db)
      → ((j : Job) → (f j).job_id ≡ j.job_id)
      → ((j : Job) → (f j).status ≢ leased)
      → IsSound now db
      → IsSound now (record db {
        jobs = update_where (is_leased_by id w) f db.jobs;
        job_locks = delete_where (lock_taken_by id w) db.job_locks;
      })
  release-IsSound db k st s = record {
    keys = Ascending-update_where (is_leased_by id w) f k 1 db.next_job_id db.jobs s.keys;
    owned =
        update_where-All (IsOwned now db.job_locks)
          (IsOwned now (delete_where (lock_taken_by id w) db.job_locks)) (is_leased_by id w) f
          (λ j o e t l. absurd (st j l))
          (λ j o e t l u le.
            let h = o t l u le in
            elim (Bool-cases (lock_taken_by id w h.lock)) [
              | inl m ↦ let mine = lock_matches id w h l m in absurd (ground arith)
              | inr m ↦ record {
                lock = h.lock;
                found =
                    find-delete_where_kept (lock_of j.incident_id) (lock_taken_by id w) db.job_locks
                      h.lock h.found m;
                job = h.job;
                worker = h.worker;
                until = h.until;
              }
            ])
          db.jobs s.owned;
    locks = delete_where-IsIndexed (lock_taken_by id w) db.job_locks s.locks;
  }

pub complete_job_once-IsSound :
    (db : Db) (id : ℕ) (w result : String) (now : ℕ)
    → IsSound now db
    → IsSound now (complete_job_once db id w result now).1
unfolding complete_job_once completed_job
complete_job_once-IsSound db id w result now s =
    elim (Bool-cases (count (is_leased_by id w) db.jobs == 0)) [
      | inl e ↦ rw e s
      | inr e ↦
          rw e (release-IsSound id w now (completed_job result now) db (λ j. refl) (λ j x. cc) s)
    ]

pub fail_job-IsSound :
    (db : Db) (job : Claimed) (w diagnostics : String) (max_attempts retry_delay now : ℕ)
    → IsSound now db
    → IsSound now (fail_job db job w diagnostics max_attempts retry_delay now).1
unfolding fail_job dead_job retried_job
fail_job-IsSound db job w diagnostics max_attempts retry_delay now s =
    elim (Bool-cases (count (is_leased_by job.job_id w) db.jobs == 0)) [
      | inl e ↦ rw e s
      | inr e ↦ rw e (elim (Bool-cases (leb max_attempts job.attempt_count)) [
        | inl d ↦ rw d (
            let r =
              release-IsSound job.job_id w now (dead_job diagnostics now) db (λ j. refl) (λ j x. cc)
                s in
            record { keys = r.keys; owned = r.owned; locks = r.locks })
        | inr d ↦ rw d (
            release-IsSound job.job_id w now (retried_job (now + retry_delay) diagnostics now) db
              (λ j. refl) (λ j x. cc) s)
      ])
    ]

module _ (c : Job) (id : ℕ) (w : String) (until now : ℕ) (locks : List JobLock) (l : JobLock)
    (f : find (lock_of c.incident_id) locks ≡ some l)
    (held : lock_held_by c.incident_id id w l ≡ true) where
  -- The row of which the lease is renewed.
  renew_self :
      (j : Job)
      → j ≡ c
      → is_leased_by id w j ≡ true
      → IsOwned now
          (update_where (lock_held_by c.incident_id id w) (renewed_lock until now) locks)
          (renewed_job until now j)
  unfolding renewed_lock renewed_job
  renew_self j e p t st lu le = record {
    lock = renewed_lock until now l;
    found = rw (
      ap (λ (x : Job). x.incident_id) e,
      find-update_where (lock_of c.incident_id) (lock_held_by c.incident_id id w)
          (renewed_lock until now) (λ x. refl) locks,
      f,
      held,
    );
    job = ground arith;
    worker =
        let worker : l.worker_id ≡ w = (eq_iff _ _).0 (ground arith) in rw worker (ground arith);
    until = ground arith;
  }

  renew-other :
      (j : Job)
      → IsOwned now locks j
      → is_leased_by id w j ≡ false
      → IsOwned now
          (update_where (lock_held_by c.incident_id id w) (renewed_lock until now) locks)
          j
  unfolding renewed_lock
  renew-other j o p t st lu le =
      let h = o t st lu le in
      elim (Bool-cases (lock_held_by c.incident_id id w h.lock)) [
        | inl m ↦ let mine = lock_matches id w h st (ground arith) in absurd (ground arith)
        | inr m ↦ record {
          lock = h.lock;
          found = rw (
            find-update_where (lock_of j.incident_id) (lock_held_by c.incident_id id w)
                (renewed_lock until now) (λ x. refl) locks,
            h.found,
            m,
          );
          job = h.job;
          worker = h.worker;
          until = h.until;
        }
      ]

  renew-IsOwned :
      (js : List Job)
      → IsOnly js c
      → c.job_id ≡ id
      → All (IsOwned now locks) js
      → All
          (IsOwned now
            (update_where (lock_held_by c.incident_id id w) (renewed_lock until now) locks))
          (update_where (is_leased_by id w) (renewed_job until now) js)
  unfolding update_where
  renew-IsOwned [] only ci a = tt
  renew-IsOwned (j ∷ js) only ci a = elim (Bool-cases (is_leased_by id w j)) [
    | inl e ↦ rw e (renew_self j (only.0 (ground arith)) e, renew-IsOwned js only.1 ci a.1)
    | inr e ↦ rw e (renew-other j a.0 e, renew-IsOwned js only.1 ci a.1)
  ]

pub renew_job_lease-IsSound :
    (db : Db) (id : ℕ) (w : String) (lease_seconds now : ℕ)
    → IsSound now db
    → IsSound now (renew_job_lease db id w lease_seconds now).1
unfolding renew_job_lease renewed_job renewed_lock
renew_job_lease-IsSound db id w lease_seconds now s =
    elim (Option-cases (find (is_leased_by id w) db.jobs)) [
      | inl e ↦ rw e s
      | inr (c, e) ↦ elim (Bool-cases (count (lock_held_by c.incident_id id w) db.job_locks == 0)) [
        | inl z ↦ rw (e, z) s
        | inr z ↦
            let (l, indexed, held) =
              count-some (lock_held_by c.incident_id id w) (IsFound db.job_locks) db.job_locks
                s.locks z in
            let mine : is_leased_by id w c ≡ true = find-p (is_leased_by id w) db.jobs c e in
            let incident : l.incident_id ≡ c.incident_id = (eq_iff _ _).0 (ground arith) in
            rw (e, z)
              (record {
                keys =
                    Ascending-update_where (is_leased_by id w)
                      (renewed_job (now + lease_seconds) now) (λ j. refl) 1 db.next_job_id db.jobs
                      s.keys;
                owned =
                    renew-IsOwned c id w (now + lease_seconds) now db.job_locks l
                      (subst (λ i. find (lock_of i) db.job_locks ≡ some l) incident indexed) held
                      db.jobs
                      (find-All (is_leased_by id w) (IsOnly db.jobs) db.jobs c
                        (Ascending-IsOnly 1 db.next_job_id db.jobs s.keys) e)
                      (ground arith) s.owned;
                locks =
                    update_where-IsIndexed (lock_held_by c.incident_id id w)
                      (renewed_lock (now + lease_seconds) now) (λ x. refl) db.job_locks s.locks;
              })
      ]
    ]

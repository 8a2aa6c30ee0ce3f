-- ===== src/Store/Ownership/Claiming.antt =====
-- `claim_next_job_once` keeps the ownership invariant.
use incident_agent.Common.{
  ℕ, ◌+◌, String, ◌≡◌, refl, Bool, false, some, List, All, arith, find, find-p, find-append,
  find-update_where, update_where, take, select, select-All, All-take, eq_iff, eq_refl, ap, ◌∙◌,
  sym, subst, [], ◌∷◌, Bool-cases, Option-cases, inl, inr, ==_iff, leb,
}
use incident_agent.Store.{Env, Job, JobLock, Db}
use incident_agent.Store.Claim.{
  lock_of, ensure_lock, is_held, take_lock, lease_job, lease, claim_loop, claim_next_job_once,
  is_candidate, has_id,
}
use incident_agent.Store.LockKeys.{update_where-IsIndexed, ensure_lock-IsIndexed}
use incident_agent.Store.JobKeys.{Ascending-update_where, Ascending-IsOnly, IsOnly}
use incident_agent.Store.Ownership.{IsOwned, IsSound}

module _ (incident_id : String) (now : ℕ) (locks : List JobLock) where
  -- A lock that is there stays.
  ensure_lock-find :
      (i : String) {l : JobLock}
      → find (lock_of i) locks ≡ some l
      → find (lock_of i) (ensure_lock incident_id now locks) ≡ some l
  unfolding ensure_lock find
  ensure_lock-find i h = ground (
    arith,
    find-append (lock_of i) locks (
        record {
          incident_id = incident_id;
          job_id = 0;
          worker_id = "unowned";
          leased_until = 0;
          updated_at = now;
        }
        ∷ []),
  )

  -- The incident has a lock then.
  ensure_lock-some :
      (l : JobLock) × (find (lock_of incident_id) (ensure_lock incident_id now locks) ≡ some l)
  unfolding ensure_lock
  ensure_lock-some =
      let unowned : JobLock = record {
        incident_id = incident_id;
        job_id = 0;
        worker_id = "unowned";
        leased_until = 0;
        updated_at = now;
      } in
      elim (Option-cases (find (lock_of incident_id) locks)) [
        | inr (l, e) ↦ (l, rw (e, e))
        | inl e ↦ (unowned, rw (e, find-append, e) (unfold find in rw eq_refl))
      ]

ensure_lock-IsOwned :
    (incident_id : String) (now : ℕ) (locks : List JobLock) (js : List Job)
    → All (IsOwned now locks) js
    → All (IsOwned now (ensure_lock incident_id now locks)) js
ensure_lock-IsOwned incident_id now locks [] a = tt
ensure_lock-IsOwned incident_id now locks (j ∷ js) a = (
  (λ t st l le.
      let h = a.0 t st l le in
      record {
        lock = h.lock;
        found = ensure_lock-find incident_id now locks j.incident_id h.found;
        job = h.job;
        worker = h.worker;
        until = h.until;
      }),
  ensure_lock-IsOwned incident_id now locks js a.1,
)

-- A row other than the leased one: its incident is another, or its lease has ended.
module _ (c : Job) (w : String) (until now : ℕ) (locks : List JobLock) where
  lease-other :
      (j : Job)
      → IsOwned now locks j
      → is_held now (find (lock_of c.incident_id) locks) ≡ false
      → IsOwned now (update_where (lock_of c.incident_id) (take_lock c w until now) locks) j
  unfolding take_lock
  lease-other j o free t st l le =
      let h = o t st l le in
      let moved =
        find-update_where (lock_of j.incident_id) (lock_of c.incident_id) (take_lock c w until now)
          (λ x. refl) locks in
      elim (Bool-cases (lock_of c.incident_id h.lock)) [
        | inr e ↦ record {
          lock = h.lock;
          found = rw (moved, h.found, e);
          job = h.job;
          worker = h.worker;
          until = h.until;
        }
        | inl e ↦
            let mine : h.lock.incident_id ≡ j.incident_id =
              (eq_iff _ _).0 (find-p (lock_of j.incident_id) locks h.lock h.found) in
            let theirs : h.lock.incident_id ≡ c.incident_id = (eq_iff _ _).0 e in
            let found : find (lock_of c.incident_id) locks ≡ some h.lock =
              subst (λ i. find (lock_of i) locks ≡ some h.lock) (sym mine ∙ theirs) h.found in
            let open_lease : leb now h.lock.leased_until ≡ false = rw found at free in
            absurd (ground (arith, h.until))
      ]

  -- The leased row holds the lock that was taken for it.
  lease_self :
      (j : Job)
      → j ≡ c
      → {l : JobLock} → find (lock_of c.incident_id) locks ≡ some l
      → IsOwned now
          (update_where (lock_of c.incident_id) (take_lock c w until now) locks)
          (lease_job w until now j)
  unfolding take_lock lease_job
  lease_self j e {l} f t st lu le = record {
    lock = take_lock c w until now l;
    found = rw (
      ap (λ (x : Job). x.incident_id) e,
      find-update_where (lock_of c.incident_id) (lock_of c.incident_id) (take_lock c w until now)
          (λ x. refl) locks,
      f,
      find-p (lock_of c.incident_id) locks l f,
    );
    job = ap (λ (x : Job). x.job_id) (sym e);
    worker = eq_refl w;
    until = ground arith;
  }

  lease-IsOwned :
      (js : List Job) {l : JobLock}
      → IsOnly js c
      → is_held now (find (lock_of c.incident_id) locks) ≡ false
      → find (lock_of c.incident_id) locks ≡ some l
      → All (IsOwned now locks) js
      → All
          (IsOwned now (update_where (lock_of c.incident_id) (take_lock c w until now) locks))
          (update_where (has_id c.job_id) (lease_job w until now) js)
  unfolding update_where
  lease-IsOwned [] only free f a = tt
  lease-IsOwned (j ∷ js) only free f a = elim (Bool-cases (has_id c.job_id j)) [
    | inl e ↦ rw e (lease_self j (only.0 ((==_iff _ _).0 e)) f, lease-IsOwned js only.1 free f a.1)
    | inr e ↦ rw e (lease-other j a.0 free, lease-IsOwned js only.1 free f a.1)
  ]

claim_loop-IsSound :
    (env : Env) (w : String) (until now : ℕ) (cs : List Job) (db : Db)
    → All (IsOnly db.jobs) cs
    → IsSound now db
    → IsSound now (claim_loop env w until now cs db).1
unfolding claim_loop lease lease_job take_lock
claim_loop-IsSound env w until now [] db only s = s
claim_loop-IsSound env w until now (c ∷ cs) db only s =
    let locks = ensure_lock c.incident_id now db.job_locks in
    let owned = ensure_lock-IsOwned c.incident_id now db.job_locks db.jobs s.owned in
    let indexed = ensure_lock-IsIndexed c.incident_id now db.job_locks s.locks in
    let (l, f) = ensure_lock-some c.incident_id now db.job_locks in
    elim (Bool-cases (is_held now (find (lock_of c.incident_id) locks))) [
      | inl e ↦ rw e (
          claim_loop-IsSound env w until now cs (record db { job_locks = locks }) only.1
            (record { keys = s.keys; owned = owned; locks = indexed }))
      | inr e ↦ rw e (record {
        keys =
            Ascending-update_where (has_id c.job_id) (lease_job w until now) (λ j. refl) 1
              db.next_job_id db.jobs s.keys;
        owned = lease-IsOwned c w until now locks db.jobs only.0 e f owned;
        locks =
            update_where-IsIndexed (lock_of c.incident_id) (take_lock c w until now) (λ l. refl)
              locks indexed;
      })
    ]

-- A claim, whatever rows other transactions have locked, keeps the invariant.
pub claim_next_job_once-IsSound :
    (env : Env) (locked : ℕ → Bool) (db : Db) (w : String) (lease_seconds now : ℕ)
    → IsSound now db
    → IsSound now (claim_next_job_once env locked db w lease_seconds now).1
unfolding claim_next_job_once
claim_next_job_once-IsSound env locked db w lease_seconds now s =
    claim_loop-IsSound env w (now + lease_seconds) now
      (take 20 (select (is_candidate locked now) db.jobs)) db
      (All-take (IsOnly db.jobs) 20 (select (is_candidate locked now) db.jobs) (
        select-All (is_candidate locked now) (IsOnly db.jobs) db.jobs
          (Ascending-IsOnly 1 db.next_job_id db.jobs s.keys)))
      s

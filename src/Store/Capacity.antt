-- ===== src/Store/Capacity.antt =====
-- The queue's admission limit: webhook/incident_store.py never has more pending and leased jobs
-- than the configured maximum.
use incident_agent.Common.{
  ℕ, ◌+◌, ◌≤◌, String, ◌≡◌, Bool, true, List, [], ◌∷◌, All, All-of, All-map, All-both, All-take,
  arith, find, select, select-All, select-p, count, count-append, count-update_where, update_where,
  take, at_least_zero, Bool-cases, Option-cases, inl, inr, ◌==◌, ==_iff, leb,
}
use incident_agent.Store.{Env, Job, Db}
use incident_agent.Store.Intake.{is_active}
use incident_agent.Store.Claim.{
  Claimed, is_claimable, is_candidate, is_held, lock_of, ensure_lock, has_id, lease, lease_job,
  claim_loop, claim_next_job_once,
}
use incident_agent.Store.Finish.{
  is_leased_by, lock_held_by, renewed_job, renew_job_lease, completed_job, complete_job_once,
  dead_job, retried_job, fail_job,
}
use incident_agent.Store.Reach.{
  Op, append, enqueue, claim, renew, complete, fail, replay, reprocess, apply, Reach, start, next,
}
use incident_agent.Store.JobKeys.{IsOnly, Ascending-IsOnly}
use incident_agent.Store.Change.{
  Change, same, inserted, touched, append_event-Change, enqueue-Change, replay-Change,
  reprocess-Change,
}
use incident_agent.Store.Ownership.{IsSound, IsSound-later}
use incident_agent.Store.Ownership.Always.{Reach-IsSound}

abbrev pub active_jobs : Db → ℕ
active_jobs db = count is_active db.jobs

Change-active :
    {maximum : ℕ} {db db' : Db}
    → Change maximum db db'
    → active_jobs db ≤ maximum
    → active_jobs db' ≤ maximum
Change-active (same js nx lk) h = rw js h
Change-active {db = db} (inserted j js nx id st room lk) h =
    rw (js, count-append) (unfold count in ground arith)
Change-active {db = db} (touched p f js sl nx lk) h =
    let fewer =
      count-update_where is_active p f db.jobs
        (All-of _ (λ x e a. rw (sl x).status at a) db.jobs) in
    rw js (omega arith)

claim_loop-active :
    (env : Env) (w : String) (until now : ℕ) (cs : List Job) (db : Db)
    → All (λ c. IsOnly db.jobs c × (is_claimable now c ≡ true)) cs
    → active_jobs (claim_loop env w until now cs db).1 ≤ active_jobs db
unfolding claim_loop lease lease_job
claim_loop-active env w until now [] db only = omega arith
claim_loop-active env w until now (c ∷ cs) db only =
    let locks = ensure_lock c.incident_id now db.job_locks in
    elim (Bool-cases (is_held now (find (lock_of c.incident_id) locks))) [
      | inl e ↦ rw e (claim_loop-active env w until now cs (record db { job_locks = locks }) only.1)
      | inr e ↦ rw e (
          count-update_where is_active (has_id c.job_id) (lease_job w until now) db.jobs (
            All-map _ _
              (λ x o h _.
                let same_row : x ≡ c = o ((==_iff _ _).0 h) in
                rw same_row (ground (arith, only.0.1)))
              db.jobs only.0.0))
    ]

claim-active :
    (env : Env) (locked : ℕ → Bool) (db : Db) (w : String) (n now : ℕ)
    → IsSound now db
    → active_jobs (claim_next_job_once env locked db w n now).1 ≤ active_jobs db
unfolding claim_next_job_once
claim-active env locked db w n now s =
    let cs = select (is_candidate locked now) db.jobs in
    claim_loop-active env w (now + n) now (take 20 cs) db (
      All-take _ 20 cs (
        All-both (IsOnly db.jobs) (λ c. is_claimable now c ≡ true) cs
          (select-All (is_candidate locked now) (IsOnly db.jobs) db.jobs
            (Ascending-IsOnly 1 db.next_job_id db.jobs s.keys))
          (All-map _ _ (λ c e. ground arith) cs (select-p (is_candidate locked now) db.jobs))))

-- A row that its worker has leased is active.
leased-active :
    (id : ℕ) (w : String) (f : Job → Job) (js : List Job)
    → count is_active (update_where (is_leased_by id w) f js) ≤ count is_active js
leased-active id w f js =
    count-update_where is_active (is_leased_by id w) f js (All-of _ (λ x e _. ground arith) js)

renew-active :
    (db : Db) (id : ℕ) (w : String) (n now : ℕ)
    → active_jobs (renew_job_lease db id w n now).1 ≤ active_jobs db
unfolding renew_job_lease
renew-active db id w n now = elim (Option-cases (find (is_leased_by id w) db.jobs)) [
  | inl e ↦ rw e (omega arith)
  | inr (c, e) ↦ elim (Bool-cases (count (lock_held_by c.incident_id id w) db.job_locks == 0)) [
    | inl z ↦ rw (e, z) (omega arith)
    | inr z ↦ rw (e, z) (leased-active id w (renewed_job (now + n) now) db.jobs)
  ]
]

complete-active :
    (db : Db) (id : ℕ) (w result : String) (now : ℕ)
    → active_jobs (complete_job_once db id w result now).1 ≤ active_jobs db
unfolding complete_job_once
complete-active db id w result now = elim (Bool-cases (count (is_leased_by id w) db.jobs == 0)) [
  | inl e ↦ rw e (omega arith)
  | inr e ↦ rw e (leased-active id w (completed_job result now) db.jobs)
]

fail-active :
    (db : Db) (job : Claimed) (w diagnostics : String) (max_attempts retry_delay now : ℕ)
    → active_jobs (fail_job db job w diagnostics max_attempts retry_delay now).1 ≤ active_jobs db
unfolding fail_job
fail-active db job w diagnostics max_attempts retry_delay now =
    elim (Bool-cases (count (is_leased_by job.job_id w) db.jobs == 0)) [
      | inl e ↦ rw e (omega arith)
      | inr e ↦ elim (Bool-cases (leb max_attempts job.attempt_count)) [
        | inl d ↦ rw (e, d) (leased-active job.job_id w (dead_job diagnostics now) db.jobs)
        | inr d ↦
            rw (e, d)
              (leased-active job.job_id w (retried_job (now + retry_delay) diagnostics now) db.jobs)
      ]
    ]

apply-active :
    (env : Env) (db : Db) (op : Op) (now : ℕ)
    → IsSound now db
    → active_jobs db ≤ at_least_zero env.max_pending_jobs
    → active_jobs (apply env db op now) ≤ at_least_zero env.max_pending_jobs
unfolding apply
apply-active env db (append new) now s h = Change-active (append_event-Change _ db new now) h
apply-active env db (enqueue new ctx) now s h = Change-active (enqueue-Change env db new ctx now) h
apply-active env db (claim locked w n) now s h = omega (arith, claim-active env locked db w n now s)
apply-active env db (renew id w n) now s h = omega (arith, renew-active db id w n now)
apply-active env db (complete id w r) now s h = omega (arith, complete-active db id w r now)
apply-active env db (fail job w d m n) now s h = omega (arith, fail-active db job w d m n now)
apply-active env db (replay id ctx) now s h = Change-active (replay-Change env db id ctx now) h
apply-active env db (reprocess i salt ctx) now s h =
    Change-active (reprocess-Change env db i salt ctx now) h

-- In every database that is reached, with admission by the configured maximum, the pending and
-- leased jobs are at most max_pending_jobs.
pub Reach-active :
    {env : Env} {t : ℕ} {db : Db}
    → Reach env t db
    → active_jobs db ≤ at_least_zero env.max_pending_jobs
Reach-active start = unfold count in omega arith
Reach-active {env} (next {db = db} op now r le) =
    apply-active env db op now (IsSound-later le (Reach-IsSound r)) (Reach-active r)

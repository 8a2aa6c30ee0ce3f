-- ===== src/Store/Ownership.antt =====
-- Who owns the incident of a leased job: every job whose lease has not ended holds the lock of
-- its incident, so an incident has at most one such job.
pub mod Claiming
pub mod Finishing
pub mod Always
use incident_agent.Common.{
  ℕ, suc, ◌≤◌, String, ◌≡◌, refl, Bool, true, false, Option, none, some, List, All, arith, find,
  update_where-All, update_where, All-append, ap, ◌∙◌, sym, subst, [], ◌∷◌, ◌++◌,
}
use incident_agent.Store.{Job, JobLock, Db, pending, leased}
use incident_agent.Store.Claim.{lock_of}
use incident_agent.Store.Finish.{is_worker}
use incident_agent.Store.LockKeys.{IsIndexed}
use incident_agent.Store.JobKeys.{Ascending, Ascending-append, Ascending-update_where}
use incident_agent.Store.Change.{Change, same, inserted, touched, SameLease}

-- The lock of an incident holds for a job until `t`.
pub record Holds (locks : List JobLock) (j : Job) (t : ℕ) : Type 0 where
  pub lock : JobLock
  pub found : find (lock_of j.incident_id) locks ≡ some lock
  pub job : lock.job_id ≡ j.job_id
  pub worker : is_worker j.worker_id lock.worker_id ≡ true
  pub until : t ≤ lock.leased_until

-- A leased job whose lease has not ended at `now` holds the lock of its incident.
abbrev pub IsOwned : ℕ → List JobLock → Job → Type 0
IsOwned now locks j =
    (t : ℕ) → j.status ≡ leased → j.leased_until ≡ some t → now ≤ t → Holds locks j t

pub record IsSound (now : ℕ) (db : Db) : Type 0 where
  pub keys : Ascending 1 db.next_job_id db.jobs
  pub owned : All (IsOwned now db.job_locks) db.jobs
  pub locks : IsIndexed db.job_locks

Holds-SameLease :
    {locks : List JobLock} {j k : Job} {t : ℕ} → SameLease j k → Holds locks j t → Holds locks k t
Holds-SameLease {locks} {j} {k} s h = record {
  lock = h.lock;
  found = subst (λ i. find (lock_of i) locks ≡ some h.lock) (sym s.incident_id) h.found;
  job = h.job ∙ sym s.job_id;
  worker = subst (λ w. is_worker w h.lock.worker_id ≡ true) (sym s.worker_id) h.worker;
  until = h.until;
}

IsOwned-SameLease :
    (now : ℕ) (locks : List JobLock) (j k : Job)
    → SameLease j k
    → IsOwned now locks j
    → IsOwned now locks k
IsOwned-SameLease now locks j k s o t st l le =
    Holds-SameLease s (o t (sym s.status ∙ st) (sym s.leased_until ∙ l) le)

IsOwned-pending :
    (now : ℕ) (locks : List JobLock) (j : Job) → j.status ≡ pending → IsOwned now locks j
IsOwned-pending now locks j p t st l le = cc

-- Time passes: fewer leases have not ended.
pub IsSound-later : {t now : ℕ} {db : Db} → t ≤ now → IsSound t db → IsSound now db
IsSound-later {t} {now} {db} h s = record {
  keys = s.keys;
  owned = later db.jobs s.owned;
  locks = s.locks;
}
  where
    later : (js : List Job) → All (IsOwned t db.job_locks) js → All (IsOwned now db.job_locks) js
    later [] a = tt
    later (j ∷ js) a = ((λ u st l le. a.0 u st l (omega arith)), later js a.1)

-- Admission and replay keep the invariant.
pub Change-IsSound :
    {maximum now : ℕ} {db db' : Db} → Change maximum db db' → IsSound now db → IsSound now db'
Change-IsSound {maximum} {now} {db} {db'} (same js nx lk) s = record {
  keys = rw (js, nx) s.keys;
  owned = rw (js, lk) s.owned;
  locks = rw lk s.locks;
}
Change-IsSound {maximum} {now} {db} {db'} (inserted j js nx id st c lk) s = record {
  keys = rw (js, nx) (Ascending-append 1 db.next_job_id db.jobs j s.keys id);
  owned =
      rw (js, lk)
        (All-append (IsOwned now db.job_locks) db.jobs (j ∷ []) s.owned
          (IsOwned-pending now db.job_locks j st, tt));
  locks = rw lk s.locks;
}
Change-IsSound {maximum} {now} {db} {db'} (touched p f js sl nx lk) s = record {
  keys =
      rw (js, nx) (Ascending-update_where p f (λ j. (sl j).job_id) 1 db.next_job_id db.jobs s.keys);
  owned =
      rw (js, lk)
        (update_where-All (IsOwned now db.job_locks) (IsOwned now db.job_locks) p f
          (λ j o e. IsOwned-SameLease now db.job_locks j (f j) (sl j) o) (λ j o e. o) db.jobs
          s.owned);
  locks = rw lk s.locks;
}

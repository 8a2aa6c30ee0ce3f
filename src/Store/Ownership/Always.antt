-- ===== src/Store/Ownership/Always.antt =====
-- The ownership invariant holds in every database that is reached.
use incident_agent.Common.{ℕ, ◌≤◌, ◌≡◌, sym, some, List, [], ◌∷◌, All, Memᴰ, arith, find, subst}
use incident_agent.Store.{Env, Job, Db, leased}
use incident_agent.Store.Claim.{lock_of}
use incident_agent.Store.Reach.{
  Op, append, enqueue, claim, renew, complete, fail, replay, reprocess, apply, Reach, start, next,
}
use incident_agent.Store.JobKeys.{IsOnly, Ascending-IsOnly}
use incident_agent.Store.Change.{
  append_event-Change, enqueue-Change, replay-Change, reprocess-Change,
}
use incident_agent.Store.Ownership.{IsOwned, IsSound, IsSound-later, Change-IsSound}
use incident_agent.Store.Ownership.Claiming.{claim_next_job_once-IsSound}
use incident_agent.Store.Ownership.Finishing.{
  renew_job_lease-IsSound, complete_job_once-IsSound, fail_job-IsSound,
}

-- Every transaction keeps the ownership invariant at its time.
pub apply-IsSound :
    (env : Env) (db : Db) (op : Op) (now : ℕ) → IsSound now db → IsSound now (apply env db op now)
unfolding apply
apply-IsSound env db (append new) now s = Change-IsSound (append_event-Change 0 db new now) s
apply-IsSound env db (enqueue new ctx) now s = Change-IsSound (enqueue-Change env db new ctx now) s
apply-IsSound env db (claim locked w n) now s = claim_next_job_once-IsSound env locked db w n now s
apply-IsSound env db (renew id w n) now s = renew_job_lease-IsSound db id w n now s
apply-IsSound env db (complete id w r) now s = complete_job_once-IsSound db id w r now s
apply-IsSound env db (fail job w d m n) now s = fail_job-IsSound db job w d m n now s
apply-IsSound env db (replay id ctx) now s = Change-IsSound (replay-Change env db id ctx now) s
apply-IsSound env db (reprocess i salt ctx) now s =
    Change-IsSound (reprocess-Change env db i salt ctx now) s

pub Reach-IsSound : {env : Env} {t : ℕ} {db : Db} → Reach env t db → IsSound t db
Reach-IsSound start = record { keys = omega arith; owned = tt; locks = tt }
Reach-IsSound {env} (next {db = db} op now r le) =
    apply-IsSound env db op now (IsSound-later le (Reach-IsSound r))

-- A leased job whose lease has not ended.
pub record IsRunning (now : ℕ) (j : Job) : Type 0 where
  pub status : j.status ≡ leased
  pub until : ℕ
  pub lease : j.leased_until ≡ some until
  pub not_ended : now ≤ until

at_row : (P : Job → Type 0) {j : Job} (js : List Job) → All P js → Memᴰ j js → P j
at_row P [] a m = elim m [ ]
at_row P (x ∷ js) a (Memᴰ.head e) = subst P (sym e) a.0
at_row P (x ∷ js) a (Memᴰ.tail m) = at_row P js a.1 m

-- In every database that is reached by transactions in the order of their times, two jobs of one
-- incident whose leases have not ended are one row: an incident has at most one active owner.
pub one_owner :
    {env : Env} {t : ℕ} {db : Db} {j k : Job}
    → Reach env t db
    → Memᴰ j db.jobs
    → Memᴰ k db.jobs
    → IsRunning t j
    → IsRunning t k
    → j.incident_id ≡ k.incident_id
    → j ≡ k
one_owner {t = t} {db = db} {j = j} {k = k} r mj mk a b e =
    let s = Reach-IsSound r in
    let hj =
      at_row (IsOwned t db.job_locks) db.jobs s.owned mj a.until a.status a.lease a.not_ended in
    let hk =
      at_row (IsOwned t db.job_locks) db.jobs s.owned mk b.until b.status b.lease b.not_ended in
    let found : find (lock_of k.incident_id) db.job_locks ≡ some hj.lock =
      subst (λ i. find (lock_of i) db.job_locks ≡ some hj.lock) e hj.found in
    let only =
      at_row (IsOnly db.jobs) db.jobs (Ascending-IsOnly 1 db.next_job_id db.jobs s.keys) mk in
    at_row (λ x. x.job_id ≡ k.job_id → x ≡ k) db.jobs only mj (cc (hj.job, hk.job, hk.found))

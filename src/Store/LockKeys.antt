-- ===== src/Store/LockKeys.antt =====
-- The primary key of incident_job_locks: an incident has one row.
use incident_agent.Common.{
  ℕ, String, ◌≡◌, sym, subst, Bool, some, List, [], ◌∷◌, ◌++◌, All, All-append, find, find-append,
  find-update_where, find-delete_where_kept, update_where, delete_where, update_where-All,
  Bool-cases, Option-cases, inl, inr, eq_refl,
}
use incident_agent.Store.{JobLock}
use incident_agent.Store.Claim.{lock_of, ensure_lock}

-- Looking up the incident of a row finds that row.
abbrev pub IsFound : List JobLock → JobLock → Type 0
IsFound locks l = find (lock_of l.incident_id) locks ≡ some l

abbrev pub IsIndexed : List JobLock → Type 0
IsIndexed locks = All (IsFound locks) locks

pub update_where-IsIndexed :
    (p : JobLock → Bool) (f : JobLock → JobLock)
    → ((l : JobLock) → (f l).incident_id ≡ l.incident_id)
    → (locks : List JobLock) → IsIndexed locks
    → IsIndexed (update_where p f locks)
update_where-IsIndexed p f k locks a =
    update_where-All (IsFound locks) (IsFound (update_where p f locks)) p f
      (λ l h e.
        subst (λ i. find (lock_of i) (update_where p f locks) ≡ some (f l)) (sym (k l))
          (rw (find-update_where (lock_of l.incident_id) p f (λ x. rw k) locks, h, e)))
      (λ l h e. rw (find-update_where (lock_of l.incident_id) p f (λ x. rw k) locks, h, e)) locks a

delete_where-kept :
    (p : JobLock → Bool) (locks ls : List JobLock)
    → All (IsFound locks) ls
    → All (IsFound (delete_where p locks)) (delete_where p ls)
unfolding delete_where
delete_where-kept p locks [] a = tt
delete_where-kept p locks (l ∷ ls) a = elim (Bool-cases (p l)) [
  | inl e ↦ rw e (delete_where-kept p locks ls a.1)
  | inr e ↦ rw e (
    find-delete_where_kept (lock_of l.incident_id) p locks l a.0 e,
    delete_where-kept p locks ls a.1,
  )
]

pub delete_where-IsIndexed :
    (p : JobLock → Bool) (locks : List JobLock) → IsIndexed locks → IsIndexed (delete_where p locks)
delete_where-IsIndexed p locks a = delete_where-kept p locks locks a

append-kept :
    (locks more ls : List JobLock) → All (IsFound locks) ls → All (IsFound (locks ++ more)) ls
append-kept locks more [] a = tt
append-kept locks more (l ∷ ls) a = (rw (find-append, a.0), append-kept locks more ls a.1)

pub ensure_lock-IsIndexed :
    (incident_id : String) (now : ℕ) (locks : List JobLock)
    → IsIndexed locks
    → IsIndexed (ensure_lock incident_id now locks)
unfolding ensure_lock
ensure_lock-IsIndexed incident_id now locks a =
    elim (Option-cases (find (lock_of incident_id) locks)) [
      | inr (l, e) ↦ rw e a
      | inl e ↦ rw e (
          All-append (IsFound _) locks _ (append-kept locks _ locks a)
            (rw (find-append, e) (unfold find in rw eq_refl), tt))
    ]

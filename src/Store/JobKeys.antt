-- ===== src/Store/JobKeys.antt =====
-- The primary key of incident_jobs: ascending along the table, so that two rows with one job_id
-- are one row, and `ORDER BY job_id` is the order of the rows.
use incident_agent.Common.{
  ℕ, suc, ◌+◌, ◌≤◌, ◌≡◌, refl, Bool, List, [], ◌∷◌, ◌++◌, All, arith, update_where, Bool-cases, inl,
  inr,
}
use incident_agent.Store.{Job}

-- The ids stand in [lo, hi) and ascend.
abbrev pub Ascending : ℕ → ℕ → List Job → Type 0
Ascending lo hi [] = lo ≤ hi
Ascending lo hi (j ∷ js) = (lo ≤ j.job_id) × Ascending (suc j.job_id) hi js

pub Ascending-append :
    (lo hi : ℕ) (js : List Job) (new : Job)
    → Ascending lo hi js
    → new.job_id ≡ hi
    → Ascending lo (hi + 1) (js ++ new ∷ [])
Ascending-append lo hi [] new a e = (omega arith, omega arith)
Ascending-append lo hi (j ∷ js) new a e = (a.0, Ascending-append (suc j.job_id) hi js new a.1 e)

pub Ascending-update_where :
    (p : Job → Bool) (f : Job → Job)
    → ((j : Job) → (f j).job_id ≡ j.job_id)
    → (lo hi : ℕ) (js : List Job) → Ascending lo hi js
    → Ascending lo hi (update_where p f js)
unfolding update_where
Ascending-update_where p f k lo hi [] a = a
Ascending-update_where p f k lo hi (j ∷ js) a = elim (Bool-cases (p j)) [
  | inl e ↦ rw (e, k) (a.0, Ascending-update_where p f k (suc j.job_id) hi js a.1)
  | inr e ↦ rw e (a.0, Ascending-update_where p f k (suc j.job_id) hi js a.1)
]

above : (lo hi : ℕ) (js : List Job) → Ascending lo hi js → All (λ j. lo ≤ j.job_id) js
above lo hi [] a = tt
above lo hi (j ∷ js) a = (a.0, weaken js (above (suc j.job_id) hi js a.1))
  where
    weaken : (xs : List Job) → All (λ x. suc j.job_id ≤ x.job_id) xs → All (λ x. lo ≤ x.job_id) xs
    weaken [] h = tt
    weaken (x ∷ xs) h = (omega arith, weaken xs h.1)

-- A row with the id of `c` is `c`.
abbrev pub IsOnly : List Job → Job → Type 0
IsOnly js c = All (λ j. j.job_id ≡ c.job_id → j ≡ c) js

IsOnly-head : (c : Job) (js : List Job) → All (λ j. suc c.job_id ≤ j.job_id) js → IsOnly js c
IsOnly-head c [] h = tt
IsOnly-head c (j ∷ js) h = ((λ e. absurd (omega arith)), IsOnly-head c js h.1)

IsOnly-tail :
    (j : Job) (js cs : List Job)
    → All (λ c. suc j.job_id ≤ c.job_id) cs
    → All (IsOnly js) cs
    → All (IsOnly (j ∷ js)) cs
IsOnly-tail j js [] h a = tt
IsOnly-tail j js (c ∷ cs) h a = (((λ e. absurd (omega arith)), a.0), IsOnly-tail j js cs h.1 a.1)

pub Ascending-IsOnly : (lo hi : ℕ) (js : List Job) → Ascending lo hi js → All (IsOnly js) js
Ascending-IsOnly lo hi [] a = tt
Ascending-IsOnly lo hi (j ∷ js) a =
    let later = above (suc j.job_id) hi js a.1 in
    (
      ((λ e. refl), IsOnly-head j js later),
      IsOnly-tail j js js later (Ascending-IsOnly (suc j.job_id) hi js a.1),
    )

-- ===== src/Revisions/Numbering.antt =====
-- The revisions of an incident are numbered without a gap, each after its predecessor.
use mathlib.Core.Option
use mathlib.Core.List.{append-nil}
use incident_agent.Common.{
  ℕ, ◌+◌, ◌≤◌, max, String, ◌≡◌, refl, subst, ap, ◌∙◌, false, Option, List, [], ◌∷◌, ◌++◌, str_eq,
  eq_iff, find, find-p, select-append, find-append, find-update_where, select, update_where, length,
  length-append, if◌then◌else◌, arith, Bool-cases, Option-cases, inl, inr,
}
use incident_agent.Revisions.{
  Revision, Head, RevisionDb, head_of, of_incident, ensure_head, current_of, max_revision, or_none,
  is_stale, new_revision, of_requested_job, create_revision_once,
}

-- The rows count on from `n`, and each names its predecessor.
abbrev pub IsNumbered : ℕ → List Revision → Type 0
IsNumbered n [] = Unit
IsNumbered n (r ∷ rs) =
    (r.revision ≡ n + 1) × (r.previous_revision ≡ or_none n) × IsNumbered (n + 1) rs

abbrev pub revisions_of : String → RevisionDb → List Revision
revisions_of incident_id db = select (of_incident incident_id) db.revisions

abbrev pub head_revision : String → RevisionDb → ℕ
head_revision incident_id db = current_of (find (head_of incident_id) db.heads)

-- Every incident's rows are numbered from 1, and its head is not ahead of them.
pub record IsSequential (db : RevisionDb) : Type 0 where
  pub numbered : (i : String) → IsNumbered 0 (revisions_of i db)
  pub head : (i : String) → head_revision i db ≤ length (revisions_of i db)

IsNumbered-append :
    (n : ℕ) (rs : List Revision) (r : Revision)
    → IsNumbered n rs
    → r.revision ≡ n + length rs + 1
    → r.previous_revision ≡ or_none (n + length rs)
    → IsNumbered n (rs ++ r ∷ [])
IsNumbered-append n [] r a e p = (omega arith, p ∙ ap or_none (omega arith), tt)
IsNumbered-append n (x ∷ rs) r a e p =
    (a.0, a.1, IsNumbered-append (n + 1) rs r a.2 (omega arith) (p ∙ ap or_none (omega arith)))

-- The largest number of a numbered table is its length.
max_numbered :
    (i : String) (n : ℕ) (rs : List Revision)
    → IsNumbered n (select (of_incident i) rs)
    → max n (max_revision i rs) ≡ n + length (select (of_incident i) rs)
unfolding max_revision select
max_numbered i n [] a = omega arith
max_numbered i n (r ∷ rs) a = elim (Bool-cases (of_incident i r)) [
  | inr e ↦ rw e (max_numbered i n rs (rw e at a))
  | inl e ↦
      let b : IsNumbered n (r ∷ select (of_incident i) rs) = rw e at a in
      rw e (omega (arith, b.0, max_numbered i (n + 1) rs b.2))
]

module _ (i incident_id : String) (now : ℕ) (heads : List Head) where
  -- A new head counts as none.
  ensure_head-current :
      current_of (find (head_of i) (ensure_head incident_id now heads))
      ≡ current_of (find (head_of i) heads)
  unfolding ensure_head find
  ensure_head-current = ground (
    arith,
    find-append (head_of i) heads
        (record { incident_id = incident_id; current_revision = 0; updated_at = now } ∷ []),
  )

module _ (incident_id : String) (n now : ℕ) (heads : List Head) where
  abbrev set_head : Head → Head
  set_head h = record h { current_revision = n; updated_at = now }

  set_head-find :
      (i : String)
      → find (head_of i) (update_where (head_of incident_id) set_head heads)
        ≡ Option.map (λ h. if head_of incident_id h then set_head h else h) (find (head_of i) heads)
  set_head-find i = find-update_where (head_of i) (head_of incident_id) set_head (λ x. refl) heads

  set_head_self :
      current_of (find (head_of incident_id) (update_where (head_of incident_id) set_head heads))
      ≤ n
  set_head_self = elim (Option-cases (find (head_of incident_id) heads)) [
    | inl e ↦ rw (set_head-find incident_id, e) (omega arith)
    | inr (h, e) ↦
        rw (set_head-find incident_id, e, find-p (head_of incident_id) heads h e) (omega arith)
  ]

  set_head-other :
      (i : String)
      → str_eq i incident_id ≡ false
      → current_of (find (head_of i) (update_where (head_of incident_id) set_head heads))
        ≡ current_of (find (head_of i) heads)
  set_head-other i d = elim (Option-cases (find (head_of i) heads)) [
    | inl e ↦ rw (set_head-find i, e)
    | inr (h, e) ↦
        let mine : h.incident_id ≡ i = (eq_iff _ _).0 (find-p (head_of i) heads h e) in
        rw (set_head-find i, e, mine, d)
  ]

module _ (db : RevisionDb) (incident_id reason run_context : String) (job_id : Option ℕ)
    (now : ℕ) where
  abbrev pub next_number : ℕ
  next_number = length (revisions_of incident_id db)

  abbrev pub added : Revision
  added = new_revision incident_id reason run_context job_id now next_number

  abbrev pub grown : RevisionDb
  grown = record {
    revisions = db.revisions ++ added ∷ [];
    heads =
        update_where (head_of incident_id)
          (λ h. record h { current_revision = next_number + 1; updated_at = now })
          (ensure_head incident_id now db.heads);
  }

  pub revisions_of-grown :
      (i : String)
      → revisions_of i grown
        ≡ revisions_of i db ++ (if str_eq incident_id i then added ∷ [] else [])
  unfolding new_revision
  revisions_of-grown i = rw select-append (unfold select in refl)

  IsNumbered-grown : IsSequential db → IsNumbered 0 (revisions_of incident_id db ++ added ∷ [])
  unfolding new_revision
  IsNumbered-grown s =
      IsNumbered-append 0 (revisions_of incident_id db) added (s.numbered incident_id) (omega arith)
        (ap or_none (omega arith))

  head-grown : head_revision incident_id grown ≤ length (revisions_of incident_id db ++ added ∷ [])
  head-grown = omega (
    arith,
    set_head_self incident_id (next_number + 1) now (ensure_head incident_id now db.heads),
    length-append (revisions_of incident_id db) (added ∷ []),
  )

  head-other :
      (i : String) → str_eq incident_id i ≡ false → head_revision i grown ≡ head_revision i db
  head-other i d =
      set_head-other incident_id (next_number + 1) now (ensure_head incident_id now db.heads) i
        (ground (arith, eq_iff incident_id i, eq_iff i incident_id))
      ∙ ensure_head-current i incident_id now db.heads

  -- One more row with the next number keeps the numbering.
  grown-IsSequential : IsSequential db → IsSequential grown
  grown-IsSequential s = record {
    numbered = λ i. rw revisions_of-grown (elim (Bool-cases (str_eq incident_id i)) [
      | inr e ↦ rw (e, append-nil) (s.numbered i)
      | inl e ↦ rw e (
          subst (λ x. IsNumbered 0 (revisions_of x db ++ added ∷ [])) ((eq_iff _ _).0 e)
            (IsNumbered-grown s))
    ]);
    head = λ i. rw revisions_of-grown (elim (Bool-cases (str_eq incident_id i)) [
      | inr e ↦ rw (head-other i e, e, append-nil) (s.head i)
      | inl e ↦ rw e (
          subst (λ x. head_revision x grown ≤ length (revisions_of x db ++ added ∷ []))
            ((eq_iff _ _).0 e) head-grown)
    ]);
  }

  -- A head that is made for the call changes no number.
  headed-IsSequential :
      IsSequential db → IsSequential (record db { heads = ensure_head incident_id now db.heads })
  headed-IsSequential s = record {
    numbered = s.numbered;
    head = λ i. rw (ensure_head-current i incident_id now db.heads) (s.head i);
  }

  -- What the code computes as the current revision is the number of rows.
  pub current-number :
      IsSequential db
      → max
          (current_of (find (head_of incident_id) (ensure_head incident_id now db.heads)))
          (max_revision incident_id db.revisions)
        ≡ next_number
  current-number s = omega (
    arith,
    ensure_head-current incident_id incident_id now db.heads,
    s.head incident_id,
    max_numbered incident_id 0 db.revisions (s.numbered incident_id),
  )

-- A call of `create_revision`, accepted or refused, keeps the revisions of every incident numbered
-- 1, 2, 3, … without a gap, each row naming its predecessor, and the heads not ahead of them.
pub create_revision-IsSequential :
    (db : RevisionDb) (incident_id reason : String) (expected : Option ℕ) (run_context : String)
    (job_id : Option ℕ) (now : ℕ)
    → IsSequential db
    → IsSequential (create_revision_once db incident_id reason expected run_context job_id now).1
unfolding create_revision_once
create_revision-IsSequential db incident_id reason expected run_context job_id now s =
    elim (Option-cases (of_requested_job job_id db.revisions)) [
      | inr (r, e) ↦ rw e (elim (Bool-cases (of_incident incident_id r)) [
        | inl o ↦ rw o (headed-IsSequential db incident_id reason run_context job_id now s)
        | inr o ↦ rw o s
      ])
      | inl e ↦
          rw (e, current-number db incident_id reason run_context job_id now s)
            (elim (Bool-cases (is_stale expected (length (revisions_of incident_id db)))) [
              | inl o ↦ rw o s
              | inr o ↦ rw o (grown-IsSequential db incident_id reason run_context job_id now s)
            ])
    ]

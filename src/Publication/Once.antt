-- ===== src/Publication/Once.antt =====
-- A publication key is claimed once, however the calls of webhook/incident_store.py interleave.
use incident_agent.Common.{
  ℕ, suc, ◌≤◌, String, ◌≡◌, refl, Bool, true, false, ◌&&◌, Option, List, [], ◌∷◌, str_eq, eq_iff,
  eq_refl, ◌==◌, find, find-append, find-update_where, update_where, count, if◌then◌else◌, is_some,
  arith, Bool-cases, Option-cases, inl, inr,
}
use incident_agent.Store.{Env, Result, ok}
use incident_agent.Publication.{
  Publication, Begun, claimed, publication_key, with_publication_key, is_attempt, is_completed,
  begin_publication, complete_publication, mark_publication_uncertain, completed_publication,
  uncertain_publication,
}

pub data Op : Type 0 where
  begin : String → String → String → ℕ → Op
  complete : String → String → Option String → ℕ → Op
  mark : String → String → String → ℕ → Op

unfoldable pub apply : Env → List Publication → Op → List Publication
apply env rows (begin incident_id draft token now) =
    (begin_publication env rows incident_id draft token now).1
apply env rows (complete key token url now) = (complete_publication rows key token url now).1
apply env rows (mark key token diagnostics now) =
    mark_publication_uncertain rows key token diagnostics now

abbrev pub grants : Result Begun → Bool
grants (ok (claimed token)) = true
grants _ = false

-- Whether an operation is a call of `begin_publication` for the key that is answered by a claim.
unfoldable pub claims : Env → String → List Publication → Op → Bool
claims env key rows (begin incident_id draft token now) =
    str_eq (publication_key env incident_id draft) key
    && grants (begin_publication env rows incident_id draft token now).0
claims env key rows (complete k token url now) = false
claims env key rows (mark k token diagnostics now) = false

-- How often the key is claimed in a run.
unfoldable pub claim_count : Env → String → List Publication → List Op → ℕ
claim_count env key rows [] = 0
claim_count env key rows (op ∷ ops) =
    let later = claim_count env key (apply env rows op) ops in
    if claims env key rows op then suc later else later

abbrev pub has_publication : String → List Publication → Bool
has_publication key rows = is_some (find (with_publication_key key) rows)

update_keeps :
    (key : String) (p : Publication → Bool) (f : Publication → Publication)
    → ((x : Publication) → with_publication_key key (f x) ≡ with_publication_key key x)
    → (rows : List Publication)
    → has_publication key (update_where p f rows) ≡ has_publication key rows
update_keeps key p f k rows =
    rw (find-update_where (with_publication_key key) p f k rows) (ground arith)

complete-keeps :
    (key k token : String) (url : Option String) (now : ℕ) (rows : List Publication)
    → has_publication key rows ≡ true
    → has_publication key (complete_publication rows k token url now).1 ≡ true
unfolding completed_publication complete_publication
complete-keeps key k token url now rows h =
    elim (Bool-cases (count (is_attempt k token) rows == 0)) [
      | inl e ↦ rw e h
      | inr e ↦
          rw
            (
              e,
              update_keeps key (is_attempt k token) (completed_publication url now) (λ x. refl)
                  rows,
            )
            h
    ]

module _ (env : Env) (rows : List Publication) (incident_id draft token : String) (now : ℕ) where
  open_key : String
  open_key = publication_key env incident_id draft

  -- A first call claims the key and stores it.
  begin-new :
      has_publication open_key rows ≡ false
      → has_publication open_key (begin_publication env rows incident_id draft token now).1 ≡ true
  unfolding open_key begin_publication
  begin-new h = elim (Option-cases (find (with_publication_key open_key) rows)) [
    | inl e ↦ rw (e, find-append, e) (unfold find in rw eq_refl)
    | inr (p, e) ↦ cc (rw e at h)
  ]

  begin-old :
      has_publication open_key rows ≡ true
      → ((begin_publication env rows incident_id draft token now).1 ≡ rows)
        × (grants (begin_publication env rows incident_id draft token now).0 ≡ false)
  unfolding open_key begin_publication
  begin-old h = ground arith

  begin-other :
      (key : String)
      → has_publication key rows ≡ true
      → has_publication key (begin_publication env rows incident_id draft token now).1 ≡ true
  unfolding begin_publication
  begin-other key h =
      elim (Option-cases
        (find (with_publication_key (publication_key env incident_id draft)) rows)) [
          | inl e ↦ rw (e, find-append, h) h
          | inr (p, e) ↦ elim (Bool-cases (is_completed p.status)) [
            | inl c ↦ rw (e, c) h
            | inr c ↦ rw (e, c) h
          ]
        ]

-- A key that is there stays, and is not claimed again.
apply-keeps :
    (env : Env) (key : String) (rows : List Publication) (op : Op)
    → has_publication key rows ≡ true
    → (has_publication key (apply env rows op) ≡ true) × (claims env key rows op ≡ false)
unfolding apply claims mark_publication_uncertain uncertain_publication open_key
apply-keeps env key rows (begin incident_id draft token now) h = (
  begin-other env rows incident_id draft token now key h,
  elim (Bool-cases (str_eq (publication_key env incident_id draft) key)) [
    | inr e ↦ rw e
    | inl e ↦ rw (
      e,
      (begin-old env rows incident_id draft token now
          (rw ((eq_iff (publication_key env incident_id draft) key).0 e) h)).1,
    )
  ],
)
apply-keeps env key rows (complete k token url now) h =
    (complete-keeps key k token url now rows h, refl)
apply-keeps env key rows (mark k token diagnostics now) h = (
  rw
      (update_keeps key (is_attempt k token) (uncertain_publication diagnostics now) (λ x. refl)
        rows)
      h,
  refl,
)

-- A claim stores the key.
claims-stores :
    (env : Env) (key : String) (rows : List Publication) (op : Op)
    → claims env key rows op ≡ true
    → has_publication key (apply env rows op) ≡ true
unfolding apply claims open_key
claims-stores env key rows (complete k token url now) h = cc
claims-stores env key rows (mark k token diagnostics now) h = cc
claims-stores env key rows (begin incident_id draft token now) h =
    let same_key : publication_key env incident_id draft ≡ key = (eq_iff _ _).0 (ground arith) in
    elim (Bool-cases (has_publication key rows)) [
      | inl old ↦ begin-other env rows incident_id draft token now key old
      | inr new ↦ rw (← same_key) (begin-new env rows incident_id draft token now (rw same_key new))
    ]

claim_count-old :
    (env : Env) (key : String) (ops : List Op) (rows : List Publication)
    → has_publication key rows ≡ true
    → claim_count env key rows ops ≡ 0
unfolding claim_count
claim_count-old env key [] rows h = refl
claim_count-old env key (op ∷ ops) rows h =
    let (kept, refused) = apply-keeps env key rows op h in
    rw refused (claim_count-old env key ops (apply env rows op) kept)

-- However the calls of begin_publication, complete_publication and mark_publication_uncertain
-- interleave, from any table, at most one call of begin_publication is answered by a claim of the
-- key of an incident and draft.
pub claimed_at_most_once :
    (env : Env) (key : String) (ops : List Op) (rows : List Publication)
    → claim_count env key rows ops ≤ 1
unfolding claim_count
claimed_at_most_once env key [] rows = omega arith
claimed_at_most_once env key (op ∷ ops) rows = elim (Bool-cases (claims env key rows op)) [
  | inl e ↦
      rw (e, claim_count-old env key ops (apply env rows op) (claims-stores env key rows op e))
        (omega arith)
  | inr e ↦ rw e (claimed_at_most_once env key ops (apply env rows op))
]

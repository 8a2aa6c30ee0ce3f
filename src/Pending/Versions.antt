-- ===== src/Pending/Versions.antt =====
-- The versions of the pending reviews: a reviewer's change applies to the version that was read.
use incident_agent.Common.{
  ℕ, ◌+◌, String, ◌≡◌, ◌≢◌, refl, ap, Bool, false, Option, none, some, List, [], ◌∷◌, All, str_eq,
  eq_iff, eq_refl, ==_iff, ◌==◌, find, count, delete_where, arith, Bool-cases, inl, inr, ◌⊎◌,
}
use incident_agent.Registry.{ok, err, revision_conflict, is_stale}
use incident_agent.Pending.{
  PendingData, Pending, of_thread, version_of, first_created, next_pending, save_pending,
  add_pending, at_version, remove_pending, get_pending, data_of,
}

-- The saved row is the one that is found.
save_pending-find :
    (new : Pending) (rows : List Pending)
    → find (of_thread new.thread_id) (save_pending new rows) ≡ some new
unfolding find save_pending
save_pending-find new [] = rw eq_refl refl
save_pending-find new (p ∷ rows) = ground (arith, save_pending-find new rows, eq_refl new.thread_id)

-- The rows of the other incidents are found as before.
save_pending-other :
    (new : Pending) (i : String) (rows : List Pending)
    → str_eq new.thread_id i ≡ false
    → find (of_thread i) (save_pending new rows) ≡ find (of_thread i) rows
unfolding find save_pending
save_pending-other new i [] d = rw d refl
save_pending-other new i (p ∷ rows) d = elim (Bool-cases (str_eq p.thread_id new.thread_id)) [
  | inl e ↦ let same : p.thread_id ≡ new.thread_id = (eq_iff _ _).0 e in rw (e, d, same, d) refl
  | inr e ↦ rw (e, save_pending-other new i rows d) refl
]

module _ (rows : List Pending) (thread_id review : String) (expected : Option ℕ) (now : ℕ)
    (current : is_stale expected (version_of (find (of_thread thread_id) rows)) ≡ false) where
  -- A write of a pending review that does not expect another version than the stored one is
  -- accepted, and its answer is what is read next: its revision is one above the one before it,
  -- the time of its creation stays, and no other incident's review changes.
  pub add_pending_read :
      let before = find (of_thread thread_id) rows in
      let (answer, rows') = add_pending rows thread_id review expected now in
      (d : PendingData) × (answer ≡ ok d)
      × (get_pending rows' thread_id ≡ some d)
      × (d.pending_revision ≡ version_of before + 1)
      × (d.created_at ≡ first_created before now)
      × ((i : String) → str_eq thread_id i ≡ false → get_pending rows' i ≡ get_pending rows i)
  unfolding add_pending get_pending next_pending
  add_pending_read =
      let new = next_pending (find (of_thread thread_id) rows) thread_id review now in
      rw current (
        new.content,
        refl,
        ap data_of (save_pending-find new rows),
        refl,
        refl,
        λ i d. ap data_of (save_pending-other new i rows d),
      )

  -- After that, a write that expects the version that the first one replaced is refused as stale
  -- and changes nothing.
  pub add_pending_overtaken :
      (review' : String) (now' : ℕ)
      → let stale = version_of (find (of_thread thread_id) rows) in
        let rows' = (add_pending rows thread_id review expected now).1 in
        add_pending rows' thread_id review' (some stale) now'
        ≡ (err (revision_conflict "stale pending-review version"), rows')
  unfolding add_pending next_pending is_stale
  add_pending_overtaken review' now' =
      let new = next_pending (find (of_thread thread_id) rows) thread_id review now in
      rw current (rw (save_pending-find new rows) (ground arith))

deleted : (q : Pending → Bool) (rows : List Pending) → All (λ p. q p ≡ false) (delete_where q rows)
unfolding delete_where
deleted q [] = tt
deleted q (p ∷ rows) = elim (Bool-cases (q p)) [
  | inl e ↦ rw e (deleted q rows)
  | inr e ↦ rw e (e, deleted q rows)
]

-- The rows that a removal is about.
abbrev pub is_removed : String → Option ℕ → Pending → Bool
is_removed thread_id none = of_thread thread_id
is_removed thread_id (some version) = at_version thread_id version

-- A removal leaves no row of the incident, or none at the expected version if one is given. It is
-- refused, and changes nothing, only where a version is expected that no row of the incident has.
pub remove_pending_gone :
    (rows : List Pending) (thread_id : String) (expected : Option ℕ)
    → let (answer, rows') = remove_pending rows thread_id expected in
      ((answer ≡ ok tt) × All (λ p. is_removed thread_id expected p ≡ false) rows')
      ⊎ ((answer ≡ err (revision_conflict "stale pending-review version"))
          × (rows' ≡ rows)
          × (expected ≢ none)
          × (count (is_removed thread_id expected) rows ≡ 0))
unfolding remove_pending
remove_pending_gone rows thread_id none = inl (refl, deleted (of_thread thread_id) rows)
remove_pending_gone rows thread_id (some version) =
    elim (Bool-cases (count (at_version thread_id version) rows == 0)) [
      | inl e ↦ rw e (inr (refl, refl, λ f. grind arith, (==_iff _ _).0 e))
      | inr e ↦ rw e (inl (refl, deleted (at_version thread_id version) rows))
    ]

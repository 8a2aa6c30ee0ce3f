-- ===== src/Investigation/Rounds.antt =====
-- The expansion ends, and its revisions are a chain.
use incident_agent.Common.{
  ℕ, zero, suc, ◌+◌, ◌≤◌, ◌<◌, max, ◌≡◌, ◌≢◌, refl, ap, ◌∙◌, true, false, Option, none, some, List,
  [], ◌∷◌, ◌++◌, length, length-append, arith, Bool-cases, inl, inr,
}
use incident_agent.Investigation.{
  Limits, Loop, get_or, second, initialize_loop, stored, Revision, Budget, Round, Decision, stop,
  go_on, decide, continues, reason_of, Texts, counted, previous, new_revision, Completed,
  complete_round, semantic_correlate, interpret_incident, expansion_router,
}

-- A loop within the limits that initialize_loop enforces.
pub record IsInitialized (l : Loop) : Type 0 where
  pub rounds : 1 ≤ l.max_rounds
  pub services : 1 ≤ l.max_services
  pub bytes : 1 ≤ l.max_result_bytes
  pub elapsed : second ≤ l.max_elapsed

-- A loop that is stored and read again, at any later time and under any settings, is the same.
pub initialize_loop-stored :
    (limits : Limits) (l : Loop) (now : ℕ)
    → IsInitialized l
    → initialize_loop limits (stored l) now ≡ l
unfolding initialize_loop
initialize_loop-stored limits l now h =
    let a : max l.max_rounds 1 ≡ l.max_rounds = omega (arith, h.rounds) in
    let b : max l.max_services 1 ≡ l.max_services = omega (arith, h.services) in
    let c : max l.max_result_bytes 1 ≡ l.max_result_bytes = omega (arith, h.bytes) in
    let d : max l.max_elapsed second ≡ l.max_elapsed = omega (arith, h.elapsed) in
    rw (a, b, c, d) refl

-- A round goes on only within every budget, on new evidence, and where more is recommended.
decide_go_on :
    (l : Loop) (b : Budget) (r : Round)
    → continues (decide l b r) ≡ true
    → (l.elapsed < l.max_elapsed)
      × (l.used_result_bytes < l.max_result_bytes)
      × (l.round < l.max_rounds)
      × (b.used_remote_units < b.max_remote_units)
      × (0 < r.integrated_records)
      × (r.expansion_recommended ≡ true)
unfolding decide
decide_go_on l b r e =
    (ground arith, ground arith, ground arith, ground arith, ground arith, ground arith)

no_reason : (d : Decision) → continues d ≡ true → reason_of d ≡ none
no_reason go_on e = refl
no_reason (stop reason details) e = absurd (ground arith)

reason : (d : Decision) → continues d ≡ false → reason_of d ≢ none
reason go_on e = λ x. cc
reason (stop why details) e = λ x. grind arith

-- The rounds that a stored loop has made, and those that it may make.
abbrev pub rounds_made : Budget → ℕ
rounds_made b = get_or b.expansion_loop.round 0

abbrev pub rounds_allowed : Limits → Budget → ℕ
rounds_allowed limits b = max (get_or b.expansion_loop.max_rounds limits.max_rounds) 1

-- What the tools do to the budget between two rounds leaves the rounds as they are.
abbrev pub KeepsRounds : (Budget → Budget) → Type 0
KeepsRounds f =
    (b : Budget)
    → ((f b).expansion_loop.round ≡ b.expansion_loop.round)
      × ((f b).expansion_loop.max_rounds ≡ b.expansion_loop.max_rounds)

module _ (limits : Limits) (t : Texts) (tools : ℕ → Budget → Budget) (rounds : ℕ → Round)
    (clock : ℕ → ℕ) where
  -- The rounds from the `i`-th on, as long as the router sends the graph back to the tools.
  unfoldable pub expand : ℕ → ℕ → Budget → List Revision → Option Completed
  expand zero i b revisions = none
  expand (suc fuel) i b revisions =
      let c = complete_round limits t (tools i b) revisions (rounds i) (clock i) in
      elim (expansion_router c.loop) [
        | interpret_incident ↦ some c
        | semantic_correlate ↦ expand fuel (suc i) c.budget c.revisions
      ]

  module _ (b : Budget) (revisions : List Revision) (r : Round) (now : ℕ) where
    -- The round that has been completed.
    abbrev pub round_done : Completed
    round_done = complete_round limits t b revisions r now

    round_counted : rounds_made round_done.budget ≡ rounds_made b + 1
    unfolding complete_round initialize_loop
    round_counted = omega arith

    round_allowed : rounds_allowed limits round_done.budget ≡ rounds_allowed limits b
    unfolding complete_round initialize_loop
    round_allowed = omega arith

    revision_added : length round_done.revisions ≡ length revisions + 1
    unfolding complete_round
    revision_added = rw length-append (omega arith)

    goes_on_below :
        round_done.loop.continue_expansion ≡ true → rounds_made b + 1 < rounds_allowed limits b
    unfolding complete_round initialize_loop
    goes_on_below e = let allowed = decide_go_on _ _ _ e in omega (arith, allowed.2)

  -- What the run of rounds comes to: it ends with a round that does not go on, having added a
  -- revision for each round.
  pub record Ended (fuel : ℕ) (b : Budget) (revisions : List Revision) (o : Option Completed)
      : Type 0 where
    pub last : Completed
    pub answer : o ≡ some last
    pub stopped : last.loop.continue_expansion ≡ false
    pub bounded : length last.revisions ≤ length revisions + fuel

  -- Whatever the tools find and the assessments recommend, the targeted expansion ends after at
  -- most the rounds that are left of the allowed ones, or one if none is left: it reaches a round
  -- after which the router goes to the interpretation.
  pub expand-Ended :
      (fuel i : ℕ) (b : Budget) (revisions : List Revision)
      → ((j : ℕ) → KeepsRounds (tools j))
      → 0 < fuel
      → rounds_allowed limits b ≤ rounds_made b + fuel
      → Ended fuel b revisions (expand fuel i b revisions)
  unfolding expand expansion_router
  expand-Ended zero i b revisions k p q = absurd (omega arith)
  expand-Ended (suc fuel) i b revisions k p q =
      let c = complete_round limits t (tools i b) revisions (rounds i) (clock i) in
      elim (Bool-cases c.loop.continue_expansion) [
        | inr e ↦
            rw (expand, e)
              (record {
                last = c;
                answer = refl;
                stopped = e;
                bounded = omega (arith, revision_added (tools i b) revisions (rounds i) (clock i));
              })
        | inl e ↦
            let made = round_counted (tools i b) revisions (rounds i) (clock i) in
            let allowed = round_allowed (tools i b) revisions (rounds i) (clock i) in
            let added = revision_added (tools i b) revisions (rounds i) (clock i) in
            let below = goes_on_below (tools i b) revisions (rounds i) (clock i) e in
            let same = k i b in
            let made_before : rounds_made (tools i b) ≡ rounds_made b =
              ap (λ x. get_or x 0) same.0 in
            let allowed_before : rounds_allowed limits (tools i b) ≡ rounds_allowed limits b =
              ap (λ x. max (get_or x limits.max_rounds) 1) same.1 in
            let rest =
              expand-Ended fuel (suc i) c.budget c.revisions k
                (omega (arith, below, made_before, allowed_before, q))
                (omega (arith, made, allowed, made_before, allowed_before, q)) in
            rw (expand, e)
              (record {
                last = rest.last;
                answer = rest.answer;
                stopped = rest.stopped;
                bounded = omega (arith, rest.bounded, added);
              })
      ]

-- The revisions count on from `n`, and each names the one before it.
abbrev pub IsChain : ℕ → List Revision → Type 0
IsChain n [] = Unit
IsChain n (r ∷ rs) = (r.revision ≡ suc n) × (r.previous_revision ≡ previous n) × IsChain (suc n) rs

IsChain-append :
    (n : ℕ) (rs : List Revision) (r : Revision)
    → IsChain n rs
    → r.revision ≡ suc (n + length rs)
    → r.previous_revision ≡ previous (n + length rs)
    → IsChain n (rs ++ r ∷ [])
IsChain-append n [] r c e p = (e ∙ ap suc (omega arith), p ∙ ap previous (omega arith), tt)
IsChain-append n (x ∷ rs) r c e p = (
  c.0,
  c.1,
  IsChain-append (suc n) rs r c.2 (e ∙ ap suc (omega arith)) (p ∙ ap previous (omega arith)),
)

-- A completed round records why it stops, if it does: it goes on only while the elapsed time, the
-- bytes, the rounds and the remote units are below their limits, more is recommended and a record
-- was integrated. Its revision extends the chain of the earlier ones.
complete_round-decided :
    (limits : Limits) (t : Texts) (b : Budget) (revisions : List Revision) (r : Round) (now : ℕ)
    → let c = complete_round limits t b revisions r now in
      (IsChain 0 revisions → IsChain 0 c.revisions)
      × (c.loop.continue_expansion ≡ true
          → (c.loop.elapsed < c.loop.max_elapsed)
            × (c.loop.used_result_bytes < c.loop.max_result_bytes)
            × (c.loop.round < c.loop.max_rounds)
            × (b.used_remote_units < b.max_remote_units)
            × (0 < r.integrated_records)
            × (r.expansion_recommended ≡ true)
            × (c.loop.stop_reason ≡ none))
      × (c.loop.continue_expansion ≡ false → c.loop.stop_reason ≢ none)
unfolding complete_round new_revision
complete_round-decided limits t b revisions r now =
    let d = decide (counted t (initialize_loop limits b.expansion_loop now) now) b r in
    (
      λ c. IsChain-append 0 revisions _ c (ap suc (omega arith)) (ap previous (omega arith)),
      λ e. let w = decide_go_on _ _ _ e in (w.0, w.1, w.2, w.3, w.4, w.5, no_reason d e),
      λ e. reason d e,
    )

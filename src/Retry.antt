-- ===== src/Retry.antt =====
-- webhook/incident_store.py: the loop that create_revision, claim_next_job and complete_job share.
-- A transaction that meets an OperationalError is rolled back; `faults` says which attempts do.
use incident_agent.Common.{
  ℕ, zero, suc, ◌+◌, ◌*◌, ◌-◌, ◌^◌, ◌≤◌, ◌<◌, min, ◌≡◌, ◌≢◌, refl, Bool, true, false, ◌||◌, not,
  Option, none, some, arith, ◌==◌, if◌then◌else◌, Bool-cases, Option-cases, subst, sym, ap, ◌∙◌,
  inl, inr,
}

-- TRANSIENT_LOCK_RETRIES
abbrev pub transient_lock_retries : ℕ
transient_lock_retries = 8

-- `error_code in {1205, 1213}`
unfoldable pub is_transient : ℕ → Bool
is_transient code = code == 1205 || code == 1213

pub data Attempted {ℓ} (A : Type ℓ) : Type ℓ where
  returned : A → Attempted A
  operational_error : ℕ → Attempted A
  unreachable : Attempted A

-- The milliseconds of time.sleep(min(0.5, 0.01 * (2 ** attempt)))
unfoldable pub backoff : ℕ → ℕ
backoff attempt = min 500 (10 * 2 ^ attempt)

-- `code not in {1205, 1213} or attempt == TRANSIENT_LOCK_RETRIES - 1`
unfoldable pub gives_up : ℕ → ℕ → Bool
gives_up code attempt = not (is_transient code) || attempt == transient_lock_retries - 1

more_left :
    (attempt left code : ℕ)
    → attempt + suc left ≡ transient_lock_retries
    → gives_up code attempt ≡ false
    → 0 < left
unfolding gives_up
more_left attempt left code e g = ground arith

-- An OperationalError of a code that is worth another round.
unfoldable pub IsTransientFault : Option ℕ → Type 0
IsTransientFault none = ⊥
IsTransientFault (some code) = is_transient code ≡ true

transient_code :
    (o : Option ℕ) → IsTransientFault o → (code : ℕ) × (o ≡ some code) × (is_transient code ≡ true)
unfolding IsTransientFault
transient_code none t = absurd t
transient_code (some code) t = (code, refl, t)

goes_on :
    (attempt left n code : ℕ)
    → attempt + suc left ≡ transient_lock_retries
    → suc n < suc left
    → is_transient code ≡ true
    → gives_up code attempt ≡ false
unfolding gives_up
goes_on attempt left n code e h t = rw t (ground arith)

-- The sleeps of `n` rounds from `attempt` on.
unfoldable pub sleeps : ℕ → ℕ → ℕ
sleeps attempt zero = 0
sleeps attempt (suc n) = backoff attempt + sleeps (attempt + 1) n

sleeps_bound : (k : ℕ) → k < transient_lock_retries → sleeps 0 k ≤ 1130
unfolding sleeps backoff
sleeps_bound zero h = omega arith
sleeps_bound (suc zero) h = omega arith
sleeps_bound (suc (suc zero)) h = omega arith
sleeps_bound (suc (suc (suc zero))) h = omega arith
sleeps_bound (suc (suc (suc (suc zero)))) h = omega arith
sleeps_bound (suc (suc (suc (suc (suc zero))))) h = omega arith
sleeps_bound (suc (suc (suc (suc (suc (suc zero)))))) h = omega arith
sleeps_bound (suc (suc (suc (suc (suc (suc (suc zero))))))) h = omega arith
sleeps_bound (suc (suc (suc (suc (suc (suc (suc (suc k)))))))) h = absurd (omega arith)

module _ {S A : Type 0} (once : ℕ → S → A × S) (faults : ℕ → Option ℕ) where
  -- The rounds from `attempt` on, with `left` of the range still to come: the answer, the state
  -- and the time slept.
  unfoldable pub attempts : ℕ → ℕ → S → Attempted A × S × ℕ
  attempts attempt zero s = (unreachable, s, 0)
  attempts attempt (suc left) s = elim (faults attempt) [
    | none ↦ let (a, s') = once attempt s in (returned a, s', 0)
    | some code ↦
        if gives_up code attempt
        then (operational_error code, s, 0)
        else (let (a, s', slept) = attempts (attempt + 1) left s in
            (a, s', backoff attempt + slept))
  ]

  unfoldable pub with_retries : S → Attempted A × S × ℕ
  unfolding attempts
  with_retries = attempts 0 transient_lock_retries

  ran :
      (attempt left : ℕ) (s : S)
      → faults attempt ≡ none
      → attempts attempt (suc left) s ≡ (let (a, s') = once attempt s in (returned a, s', 0))
  unfolding attempts
  ran attempt left s q = rw (attempts, q) refl

  gave_up :
      (attempt left code : ℕ) (s : S)
      → faults attempt ≡ some code
      → gives_up code attempt ≡ true
      → attempts attempt (suc left) s ≡ (operational_error code, s, 0)
  unfolding attempts
  gave_up attempt left code s q g = rw (attempts, q, g) refl

  went_on :
      (attempt left code : ℕ) (s : S)
      → faults attempt ≡ some code
      → gives_up code attempt ≡ false
      → attempts attempt (suc left) s
        ≡ (let (a, s', slept) = attempts (attempt + 1) left s in (a, s', backoff attempt + slept))
  unfolding attempts
  went_on attempt left code s q g = rw (attempts, q, g) refl

  attempts_end :
      (attempt left : ℕ) (s : S)
      → attempt + left ≡ transient_lock_retries
      → 0 < left
      → (attempts attempt left s).0 ≢ unreachable
  unfolding attempts
  attempts_end attempt zero s e h = absurd (omega arith)
  attempts_end attempt (suc left) s e h = elim (Option-cases (faults attempt)) [
    | inl q ↦ subst (λ x. x.0 ≢ unreachable) (sym (ran attempt left s q)) (λ eq. grind arith)
    | inr (code, q) ↦ elim (Bool-cases (gives_up code attempt)) [
      | inl g ↦
          subst (λ x. x.0 ≢ unreachable) (sym (gave_up attempt left code s q g)) (λ eq. grind arith)
      | inr g ↦
          subst (λ x. x.0 ≢ unreachable) (sym (went_on attempt left code s q g))
            (attempts_end (attempt + 1) left s (omega arith) (more_left attempt left code e g))
    ]
  ]

  -- The loop of transactions leaves by a return or by the OperationalError itself, never by the
  -- RuntimeError after it, whichever attempts fault.
  pub with_retries_end : (s : S) → (with_retries s).0 ≢ unreachable
  unfolding with_retries
  with_retries_end s = attempts_end 0 transient_lock_retries s refl (omega arith)

  attempts-recovers :
      (n attempt left k : ℕ) (s : S)
      → attempt + left ≡ transient_lock_retries
      → attempt + n ≡ k
      → n < left
      → ((i : ℕ) → attempt ≤ i → i < k → IsTransientFault (faults i))
      → faults k ≡ none
      → attempts attempt left s ≡ (let (a, s') = once k s in (returned a, s', sleeps attempt n))
  unfolding sleeps
  attempts-recovers n attempt zero k s e m h t q = absurd (omega arith)
  attempts-recovers zero attempt (suc left) k s e m h t q =
      let same : attempt ≡ k = omega arith in
      ran attempt left s (subst (λ i. faults i ≡ none) (sym same) q)
      ∙ ap (λ i. let (a, s') = once i s in (returned a, s', 0)) same
  attempts-recovers (suc n) attempt (suc left) k s e m h t q =
      let (code, c, transient) =
        transient_code (faults attempt) (t attempt (omega arith) (omega arith)) in
      went_on attempt left code s c (goes_on attempt left n code e h transient)
      ∙ ap (λ x. let (a, s', slept) = x in (a, s', backoff attempt + slept))
          (attempts-recovers n (attempt + 1) left k s (omega arith) (omega arith) (omega arith)
            (λ i above. t i (omega arith)) q)

  -- Where the first k of the eight attempts meet a lock timeout or a deadlock and the next one
  -- does not fault, the loop returns that attempt's answer on the state it started from, and has
  -- slept for at most 1130 milliseconds.
  pub with_retries-recovers :
      (k : ℕ) (s : S)
      → k < transient_lock_retries
      → ((i : ℕ) → i < k → IsTransientFault (faults i))
      → faults k ≡ none
      → let (answer, s', slept) = with_retries s in
        (answer ≡ returned (once k s).0) × (s' ≡ (once k s).1) × (slept ≤ 1130)
  unfolding with_retries
  with_retries-recovers k s h t q =
      rw
        (attempts-recovers k 0 transient_lock_retries k s refl (omega arith) h
          (λ i _ under. t i under) q)
        (refl, refl, sleeps_bound k h)

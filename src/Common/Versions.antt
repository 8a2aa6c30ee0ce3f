-- ===== src/Common/Versions.antt =====
-- Tables whose rows are numbered versions, each with the row that it supersedes.
use Prim.Native.Nat.{ℕ, ◌+◌, ◌≤◌, ◌<◌}
use mathlib.Core.Path.{◌≡◌, refl, subst, ap, ◌∙◌}
use mathlib.Core.Logic.{◌⊎◌, inl, inr}
use mathlib.Core.Option.{Option, none, some}
use mathlib.Core.Option
use mathlib.Core.List.{List, [], ◌∷◌, ◌++◌}
use native.Mathlib.Omega.{arith}
use incident_agent.Common.Lists.{All}
use incident_agent.Common.Tests.{if◌then◌else◌, ltb, Bool-cases}

module _ {ℓ} {A : Type ℓ} (version id : A → ℕ) (supersedes : A → Option ℕ) where
  newer : A → Option A → A
  newer x none = x
  newer x (some y) = if ltb (version y) (version x) then x else y

  -- SELECT ... ORDER BY version DESC LIMIT 1
  unfoldable pub newest : List A → Option A
  unfolding newer
  newest [] = none
  newest (x ∷ xs) = some (newer x (newest xs))

  -- `previous[1] if previous else 0`
  abbrev pub version_or_zero : Option A → ℕ
  version_or_zero none = 0
  version_or_zero (some x) = version x

  below :
      (x : A) (o : Option A) (r : A)
      → version_or_zero (some (newer x o)) < version r
      → version_or_zero o < version r
  unfolding newer
  below x none r h = omega arith
  below x (some y) r h = ground arith

  above :
      (x : A) (o : Option A) (r : A)
      → version_or_zero (some (newer x o)) < version r
      → version x < version r
  unfolding newer
  above x none r h = h
  above x (some y) r h = ground arith

  -- The versions count on from `n` without a gap, and each row supersedes the one before it.
  abbrev pub IsHistory : Option ℕ → ℕ → List A → Type 0
  IsHistory previous n [] = Unit
  IsHistory previous n (x ∷ xs) =
      (version x ≡ n + 1) × (supersedes x ≡ previous) × IsHistory (some (id x)) (n + 1) xs

  last : A → List A → A
  last x [] = x
  last x (y ∷ ys) = last y ys

  last-version :
      (p : Option ℕ) (n : ℕ) (x : A) (xs : List A)
      → IsHistory p n (x ∷ xs)
      → n + 1 ≤ version (last x xs)
  unfolding last
  last-version p n x [] h = omega (arith, h.0)
  last-version p n x (y ∷ ys) h = omega (arith, last-version (some (id x)) (n + 1) y ys h.2)

  newer-last :
      (p : Option ℕ) (n : ℕ) (x : A) (xs : List A)
      → IsHistory p n (x ∷ xs)
      → newer x (newest xs) ≡ last x xs
  unfolding last newest newer
  newer-last p n x [] h = refl
  newer-last p n x (y ∷ ys) h =
      rw (newer-last (some (id x)) (n + 1) y ys h.2)
        (ground (arith, last-version (some (id x)) (n + 1) y ys h.2, h.0))

  IsHistory-last :
      (p : Option ℕ) (n : ℕ) (x : A) (xs : List A) (r : A)
      → IsHistory p n (x ∷ xs)
      → version r ≡ version (last x xs) + 1
      → supersedes r ≡ some (id (last x xs))
      → IsHistory p n (x ∷ (xs ++ r ∷ []))
  unfolding last
  IsHistory-last p n x [] r h v s = (h.0, h.1, (omega (arith, h.0), s, tt))
  IsHistory-last p n x (y ∷ ys) r h v s =
      (h.0, h.1, IsHistory-last (some (id x)) (n + 1) y ys r h.2 v s)

  -- A row after the newest one, that supersedes it, extends a history.
  pub IsHistory-append :
      (xs : List A) (r : A)
      → IsHistory none 0 xs
      → version r ≡ version_or_zero (newest xs) + 1
      → supersedes r ≡ Option.map id (newest xs)
      → IsHistory none 0 (xs ++ r ∷ [])
  unfolding newest
  IsHistory-append [] r h v s = (omega arith, s, tt)
  IsHistory-append (x ∷ xs) r h v s =
      let e = newer-last none 0 x xs h in IsHistory-last none 0 x xs r h (rw e at v) (rw e at s)

  -- A row of a version above the newest one's becomes the newest.
  pub newest-append :
      (xs : List A) (r : A)
      → version_or_zero (newest xs) < version r
      → newest (xs ++ r ∷ []) ≡ some r
  unfolding newest newer
  newest-append [] r v = refl
  newest-append (x ∷ xs) r v =
      rw (newest-append xs r (below x (newest xs) r v)) (ground (arith, above x (newest xs) r v))

  newer-or : (x : A) (o : Option A) → (newer x o ≡ x) ⊎ ((y : A) × (o ≡ some y) × (newer x o ≡ y))
  unfolding newer
  newer-or x none = inl refl
  newer-or x (some y) = elim (Bool-cases (ltb (version y) (version x))) [
    | inl e ↦ inl (rw e refl)
    | inr e ↦ inr (y, refl, rw e refl)
  ]

  -- What holds of all the rows holds of the newest.
  pub newest-All {κ} : (P : A → Type κ) (xs : List A) (x : A) → All P xs → newest xs ≡ some x → P x
  unfolding newest
  newest-All P [] x a e = absurd (ground arith)
  newest-All P (y ∷ xs) x a e = elim (newer-or y (newest xs)) [
    | inl q ↦ let same : y ≡ x = cc in subst P same a.0
    | inr (z, o, q) ↦ let same : z ≡ x = cc in newest-All P xs x a.1 (o ∙ ap some same)
  ]

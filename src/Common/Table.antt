-- ===== src/Common/Table.antt =====
-- What SQL statements do to a table, as a list of rows in the order of insertion.
use Prim.Native.Nat.{ℕ, suc, ◌+◌, ◌≤◌}
use mathlib.Core.Path.{◌≡◌, refl}
use mathlib.Core.Logic.{inl, inr}
use mathlib.Core.Bool.{Bool, true, false}
use mathlib.Core.Option.{Option, none, some}
use mathlib.Core.List.{List, [], ◌∷◌, ◌++◌, Memᴰ}
use mathlib.Core.Path.{subst}
use mathlib.Core.Option
use native.Mathlib.Omega.{arith}
use incident_agent.Common.Tests.{if◌then◌else◌, is_some, Bool-cases, ◌==◌}
use incident_agent.Common.Lists.{All}

module _ {ℓ} {A : Type ℓ} (p : A → Bool) where
  -- SELECT ... WHERE p LIMIT 1
  unfoldable pub find : List A → Option A
  find [] = none
  find (x ∷ xs) = if p x then some x else find xs

  -- SELECT ... WHERE p
  unfoldable pub select : List A → List A
  select [] = []
  select (x ∷ xs) = let rest = select xs in if p x then x ∷ rest else rest

  -- SELECT COUNT(*) ... WHERE p, and the row count of an UPDATE
  unfoldable pub count : List A → ℕ
  count [] = 0
  count (x ∷ xs) = let rest = count xs in if p x then suc rest else rest

  -- DELETE ... WHERE p
  unfoldable pub delete_where : List A → List A
  delete_where [] = []
  delete_where (x ∷ xs) = let rest = delete_where xs in if p x then rest else x ∷ rest

  -- UPDATE ... SET f WHERE p
  unfoldable pub update_where : (A → A) → List A → List A
  update_where f [] = []
  update_where f (x ∷ xs) = let rest = update_where f xs in (if p x then f x else x) ∷ rest

  pub find-p : (xs : List A) (x : A) → find xs ≡ some x → p x ≡ true
  unfolding find
  find-p [] x h = cc
  find-p (y ∷ xs) x h = ground (arith, find-p xs x)

  pub find-All {κ} : (P : A → Type κ) (xs : List A) (x : A) → All P xs → find xs ≡ some x → P x
  unfolding find
  find-All P [] x a h = cc
  find-All P (y ∷ xs) x a h = elim (Bool-cases (p y)) [
    | inl e ↦ let found : y ≡ x = ground arith in subst P found a.0
    | inr e ↦ find-All P xs x a.1 (rw e at h)
  ]

  pub find-append :
      (xs ys : List A) → find (xs ++ ys) ≡ (if is_some (find xs) then find xs else find ys)
  unfolding find
  find-append [] ys = refl
  find-append (x ∷ xs) ys = ground (arith, find-append xs ys)

  pub select-append : (xs ys : List A) → select (xs ++ ys) ≡ select xs ++ select ys
  unfolding select
  select-append [] ys = refl
  select-append (x ∷ xs) ys = ground (arith, select-append xs ys)

  pub select-insert :
      (xs : List A) (x : A)
      → select (xs ++ x ∷ []) ≡ (if p x then select xs ++ x ∷ [] else select xs)
  unfolding select
  select-insert [] x = ground arith
  select-insert (y ∷ xs) x = ground (arith, select-insert xs x)

  pub select-All {κ} : (P : A → Type κ) (xs : List A) → All P xs → All P (select xs)
  unfolding select
  select-All P [] a = tt
  select-All P (x ∷ xs) a = elim (Bool-cases (p x)) [
    | inl e ↦ rw e (a.0, select-All P xs a.1)
    | inr e ↦ rw e (select-All P xs a.1)
  ]

  pub select-p : (xs : List A) → All (λ x. p x ≡ true) (select xs)
  unfolding select
  select-p [] = tt
  select-p (x ∷ xs) = elim (Bool-cases (p x)) [
    | inl e ↦ rw e (e, select-p xs)
    | inr e ↦ rw e (select-p xs)
  ]

  pub delete_where-All {κ} : (P : A → Type κ) (xs : List A) → All P xs → All P (delete_where xs)
  unfolding delete_where
  delete_where-All P [] a = tt
  delete_where-All P (x ∷ xs) a = elim (Bool-cases (p x)) [
    | inl e ↦ rw e (delete_where-All P xs a.1)
    | inr e ↦ rw e (a.0, delete_where-All P xs a.1)
  ]

  pub count-append : (xs ys : List A) → count (xs ++ ys) ≡ count xs + count ys
  unfolding count
  count-append [] ys = omega arith
  count-append (x ∷ xs) ys = ground (arith, count-append xs ys)

  pub count-none : (xs : List A) → All (λ x. p x ≡ false) xs → count xs ≡ 0
  unfolding count
  count-none [] a = refl
  count-none (x ∷ xs) a = rw a.0 (count-none xs a.1)

  pub find-none : (xs : List A) → All (λ x. p x ≡ false) xs → find xs ≡ none
  unfolding find
  find-none [] a = refl
  find-none (x ∷ xs) a = rw a.0 (find-none xs a.1)

  pub count-Memᴰ : (x : A) (xs : List A) → Memᴰ x xs → p x ≡ true → (count xs == 0) ≡ false
  unfolding count
  count-Memᴰ x [] m h = elim m [ ]
  count-Memᴰ x (y ∷ xs) (Memᴰ.head e) h = rw (← e, h) (ground arith)
  count-Memᴰ x (y ∷ xs) (Memᴰ.tail m) h = ground (arith, count-Memᴰ x xs m h)

  pub update_where-Memᴰ :
      (f : A → A) (x : A) (xs : List A) → Memᴰ x xs → p x ≡ true → Memᴰ (f x) (update_where f xs)
  unfolding update_where
  update_where-Memᴰ f x [] m h = elim m [ ]
  update_where-Memᴰ f x (y ∷ xs) (Memᴰ.head e) h = Memᴰ.head (rw (← e, h))
  update_where-Memᴰ f x (y ∷ xs) (Memᴰ.tail m) h = Memᴰ.tail (update_where-Memᴰ f x xs m h)

  -- Some row is counted.
  pub count-some {κ} :
      (P : A → Type κ) (xs : List A)
      → All P xs
      → (count xs == 0) ≡ false
      → (x : A) × P x × (p x ≡ true)
  unfolding count
  count-some P [] a h = absurd (ground arith)
  count-some P (x ∷ xs) a h = elim (Bool-cases (p x)) [
    | inl e ↦ (x, a.0, e)
    | inr e ↦ count-some P xs a.1 (rw e at h)
  ]

module _ {ℓ κ μ} {A : Type ℓ} (P : A → Type κ) (Q : A → Type μ) (p : A → Bool) (f : A → A) where
  -- A property of the rows after an UPDATE, from one before it.
  pub update_where-All :
      ((x : A) → P x → p x ≡ true → Q (f x))
      → ((x : A) → P x → p x ≡ false → Q x)
      → (xs : List A) → All P xs
      → All Q (update_where p f xs)
  unfolding update_where
  update_where-All hit miss [] a = tt
  update_where-All hit miss (x ∷ xs) a = elim (Bool-cases (p x)) [
    | inl e ↦ rw e (hit x a.0 e, update_where-All hit miss xs a.1)
    | inr e ↦ rw e (miss x a.0 e, update_where-All hit miss xs a.1)
  ]

module _ {ℓ} {A : Type ℓ} (q p : A → Bool) (f : A → A) where
  -- The rows that satisfy `q` become no more when the updated ones did so before.
  pub count-update_where :
      (xs : List A)
      → All (λ x. p x ≡ true → q (f x) ≡ true → q x ≡ true) xs
      → count q (update_where p f xs) ≤ count q xs
  unfolding count update_where
  count-update_where [] h = omega arith
  count-update_where (x ∷ xs) h = ground (arith, h.0, count-update_where xs h.1)

  -- An update that leaves `q` as it is updates the row that `find` returns.
  pub find-update_where :
      ((x : A) → q (f x) ≡ q x)
      → (xs : List A)
      → find q (update_where p f xs) ≡ Option.map (λ x. if p x then f x else x) (find q xs)
  unfolding find update_where
  find-update_where h [] = refl
  find-update_where h (x ∷ xs) = ground (arith, h x, find-update_where h xs)

module _ {ℓ} {A : Type ℓ} (q p : A → Bool) where
  -- A row that the deletion keeps is found as before.
  pub find-delete_where :
      ((x : A) → q x ≡ true → p x ≡ false) → (xs : List A) → find q (delete_where p xs) ≡ find q xs
  unfolding find delete_where
  find-delete_where h [] = refl
  find-delete_where h (x ∷ xs) = ground (arith, h x, find-delete_where h xs)

  -- The row that is found stays the one that is found, if the deletion keeps it.
  pub find-delete_where_kept :
      (xs : List A) (l : A) → find q xs ≡ some l → p l ≡ false → find q (delete_where p xs) ≡ some l
  unfolding find delete_where
  find-delete_where_kept [] l f k = cc
  find-delete_where_kept (x ∷ xs) l f k = ground (arith, find-delete_where_kept xs l)

  pub count-delete_where : (xs : List A) → count q (delete_where p xs) ≤ count q xs
  unfolding count delete_where
  count-delete_where [] = omega arith
  count-delete_where (x ∷ xs) = ground (arith, count-delete_where xs)

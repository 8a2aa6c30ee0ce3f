-- ===== src/Common/Lists.antt =====
-- Lists measured by native numbers, and predicates over their members.
use Prim.Native.Nat.{ℕ, zero, suc, ◌+◌}
use mathlib.Core.Path.{◌≡◌, refl, sym, subst}
use mathlib.Core.List.{List, [], ◌∷◌, ◌++◌, Memᴰ}
use native.Mathlib.Omega.{arith}

module _ {ℓ} {A : Type ℓ} where
  abbrev pub length : List A → ℕ
  length [] = 0
  length (x ∷ xs) = suc (length xs)

  abbrev pub take : ℕ → List A → List A
  take zero xs = []
  take (suc n) [] = []
  take (suc n) (x ∷ xs) = x ∷ take n xs

  pub length-append : (xs ys : List A) → length (xs ++ ys) ≡ length xs + length ys
  length-append [] ys = omega arith
  length-append (x ∷ xs) ys = omega (arith, length-append xs ys)

abbrev pub All {ℓ κ} : {A : Type ℓ} → (A → Type κ) → List A → Type κ
All P [] = Unit
All P (x ∷ xs) = P x × All P xs

module _ {ℓ κ} {A : Type ℓ} (P : A → Type κ) where
  pub All-append : (xs ys : List A) → All P xs → All P ys → All P (xs ++ ys)
  All-append [] ys hx hy = hy
  All-append (x ∷ xs) ys hx hy = (hx.0, All-append xs ys hx.1 hy)

  pub All-take : (n : ℕ) (xs : List A) → All P xs → All P (take n xs)
  All-take zero xs h = tt
  All-take (suc n) [] h = tt
  All-take (suc n) (x ∷ xs) h = (h.0, All-take n xs h.1)

  pub All-of : ((x : A) → P x) → (xs : List A) → All P xs
  All-of h [] = tt
  All-of h (x ∷ xs) = (h x, All-of h xs)

module _ {ℓ κ μ} {A : Type ℓ} (P : A → Type κ) (Q : A → Type μ) where
  pub All-map : ((x : A) → P x → Q x) → (xs : List A) → All P xs → All Q xs
  All-map f [] a = tt
  All-map f (x ∷ xs) a = (f x a.0, All-map f xs a.1)

  pub All-both : (xs : List A) → All P xs → All Q xs → All (λ x. P x × Q x) xs
  All-both [] a b = tt
  All-both (x ∷ xs) a b = ((a.0, b.0), All-both xs a.1 b.1)

module _ {ℓ} {A : Type ℓ} where
  pub All-Memᴰ : (xs : List A) → All (λ x. Memᴰ x xs) xs
  All-Memᴰ [] = tt
  All-Memᴰ (x ∷ xs) = (Memᴰ.head refl, All-map _ _ (λ y m. Memᴰ.tail m) xs (All-Memᴰ xs))

  pub Memᴰ-append : (x : A) (xs ys : List A) → Memᴰ x xs → Memᴰ x (xs ++ ys)
  Memᴰ-append x [] ys m = elim m [ ]
  Memᴰ-append x (y ∷ xs) ys (Memᴰ.head e) = Memᴰ.head e
  Memᴰ-append x (y ∷ xs) ys (Memᴰ.tail m) = Memᴰ.tail (Memᴰ-append x xs ys m)

  pub Memᴰ-last : (x : A) (xs : List A) → Memᴰ x (xs ++ x ∷ [])
  Memᴰ-last x [] = Memᴰ.head refl
  Memᴰ-last x (y ∷ xs) = Memᴰ.tail (Memᴰ-last x xs)

  pub Memᴰ-All {κ} : (P : A → Type κ) (xs : List A) (x : A) → All P xs → Memᴰ x xs → P x
  Memᴰ-All P [] x a m = elim m [ ]
  Memᴰ-All P (y ∷ xs) x a (Memᴰ.head e) = subst P (sym e) a.0
  Memᴰ-All P (y ∷ xs) x a (Memᴰ.tail m) = Memᴰ-All P xs x a.1 m

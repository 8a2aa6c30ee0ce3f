-- ===== src/Common/Members.antt =====
-- The texts of a list, as `in` finds them.
use mathlib.Core.Path.{◌≡◌, subst}
use mathlib.Core.Bool.{true}
use mathlib.Core.Logic.{inl, inr}
use mathlib.Core.List.{List, Memᴰ}
use Prim.Native.String.{String}
use text.Mathlib.Text.{◌==◌ as str_eq}
use text.Mathlib.TextEquality.{eq_iff}
use native.Mathlib.Omega.{arith}
use incident_agent.Common.Tests.{is_some, Option-cases}
use incident_agent.Common.Lists.{All-Memᴰ}
use incident_agent.Common.Table.{find, find-p, find-All}

pub found-Memᴰ :
    (s : String) (xs : List String) → is_some (find (λ x. str_eq x s) xs) ≡ true → Memᴰ s xs
found-Memᴰ s xs h = elim (Option-cases (find (λ x. str_eq x s) xs)) [
  | inl e ↦ absurd (grind (arith, (rw e at h)))
  | inr (x, e) ↦
      subst (λ y. Memᴰ y xs) ((eq_iff x s).0 (find-p (λ x. str_eq x s) xs x e))
        (find-All (λ x. str_eq x s) (λ x. Memᴰ x xs) xs x (All-Memᴰ xs) e)
]

-- ===== src/Prelude/Sorting.antt =====
-- Python's stable `sorted(xs, key=…)`, by insertion, over a Boolean order.
use mathlib.Core.Path.{◌≡◌, refl}
use mathlib.Core.Bool.{Bool, ◌||◌}
use mathlib.Core.List.{List, [], ◌∷◌}
use native.Mathlib.Omega.{arith}
use toolbox_mcp.Prelude.Tests.{if◌then◌else◌}
use toolbox_mcp.Prelude.Equality.{HasEquality, ◌==◌, contains}

module _ {ℓ} {A : Type ℓ} (le : A → A → Bool) where
  unfoldable pub insert_by : A → List A → List A
  insert_by a [] = a ∷ []
  insert_by a (x ∷ xs) = if le a x then a ∷ x ∷ xs else x ∷ insert_by a xs

  unfoldable pub sort_by : List A → List A
  unfolding insert_by
  sort_by [] = []
  sort_by (x ∷ xs) = insert_by x (sort_by xs)

module _ {ℓ} {A : Type ℓ} ⦃e : HasEquality A⦄ (le : A → A → Bool) where
  contains-insert_by :
      (a : A) (xs : List A) (b : A) → contains (insert_by le a xs) b ≡ (a == b || contains xs b)
  unfolding insert_by
  contains-insert_by a [] b = refl
  contains-insert_by a (x ∷ xs) b = ground (arith, contains-insert_by a xs b)

  pub contains-sort_by : (xs : List A) (b : A) → contains (sort_by le xs) b ≡ contains xs b
  unfolding sort_by
  contains-sort_by [] b = refl
  contains-sort_by (x ∷ xs) b =
      ground (arith, contains-insert_by x (sort_by le xs) b, contains-sort_by xs b)

-- ===== src/Prelude/Equality.antt =====
-- Python's `==` and `in`, for every type that has an equality test.
use Prim.Native.String.{String}
use mathlib.Core.Path.{◌≡◌, refl, ap}
use mathlib.Core.Logic.{◌↔◌, ◌≢◌, inl, inr}
use mathlib.Core.Bool.{Bool, true, false, ◌||◌, ◌&&◌}
use mathlib.Core.List.{List, [], ◌∷◌, ◌++◌}
use native.Mathlib.Omega.{arith}
use text.Mathlib.Text.{◌==◌ as str_eq}
use text.Mathlib.TextEquality.{eq_iff}
use toolbox_mcp.Prelude.Tests.{if◌then◌else◌, Bool-cases}
use toolbox_mcp.Prelude.Lists.{filter_by}

-- A type whose values the program compares with `==`.
pub record HasEquality {ℓ} (A : Type ℓ) : Type ℓ where
  -- The test, and that it decides equality.
  pub beq : A → A → Bool
  pub beq_iff : (a b : A) → (beq a b ≡ true) ↔ (a ≡ b)

module _ {ℓ} {A : Type ℓ} ⦃e : HasEquality A⦄ where
  infix 50 ◌==◌
  abbrev pub ◌==◌ : A → A → Bool
  ◌==◌ = e.beq

  -- `a in xs`.
  abbrev pub contains : List A → A → Bool
  contains [] a = false
  contains (x ∷ xs) a = x == a || contains xs a

  -- No element stands twice.
  abbrev pub IsDistinct : List A → Type 0
  IsDistinct [] = Unit
  IsDistinct (x ∷ xs) = (contains xs x ≡ false) × IsDistinct xs

  -- `set(xs)`, as a list that holds each element once.
  unfoldable pub distinct : List A → List A
  distinct [] = []
  distinct (x ∷ xs) = let rest = distinct xs in if contains rest x then rest else x ∷ rest

  pub beq_self : (a : A) → (a == a) ≡ true
  beq_self a = (e.beq_iff a a).1 refl

  pub beq_ne : (a b : A) → a ≢ b → (a == b) ≡ false
  beq_ne a b h = elim (Bool-cases (a == b)) [
    | inl same ↦ absurd (h ((e.beq_iff a b).0 same))
    | inr other ↦ other
  ]

  pub ne_of_beq : (a b : A) → (a == b) ≡ false → a ≢ b
  ne_of_beq a b h same = cc (h, (e.beq_iff a b).1 same)

  pub contains-append :
      (xs ys : List A) (a : A) → contains (xs ++ ys) a ≡ (contains xs a || contains ys a)
  contains-append [] ys a = refl
  contains-append (x ∷ xs) ys a = ground (arith, contains-append xs ys a)

  -- A test that passes on `a` alone decides whether a filtered list still holds `a`.
  pub contains-filter_by :
      (p : A → Bool) (xs : List A) (a : A) → contains (filter_by p xs) a ≡ (contains xs a && p a)
  contains-filter_by p [] a = refl
  contains-filter_by p (x ∷ xs) a = elim (Bool-cases (x == a)) [
    | inl same ↦
        let at : x ≡ a = (e.beq_iff x a).0 same in
        ground (arith, contains-filter_by p xs a, ap p at)
    | inr other ↦ ground (arith, contains-filter_by p xs a)
  ]

  pub filter_by-IsDistinct :
      (p : A → Bool) (xs : List A) → IsDistinct xs → IsDistinct (filter_by p xs)
  filter_by-IsDistinct p [] h = h
  filter_by-IsDistinct p (x ∷ xs) h =
      ground (arith, filter_by-IsDistinct p xs h.1, contains-filter_by p xs x)

  pub distinct-IsDistinct : (xs : List A) → IsDistinct (distinct xs)
  unfolding distinct
  distinct-IsDistinct [] = tt
  distinct-IsDistinct (x ∷ xs) = ground (arith, distinct-IsDistinct xs)

  pub contains-distinct : (xs : List A) (a : A) → contains (distinct xs) a ≡ contains xs a
  unfolding distinct
  contains-distinct [] a = refl
  contains-distinct (x ∷ xs) a = elim (Bool-cases (x == a)) [
    | inl same ↦
        let at : x ≡ a = (e.beq_iff x a).0 same in
        ground (arith, contains-distinct xs a, ap (contains (distinct xs)) at)
    | inr other ↦ ground (arith, contains-distinct xs a)
  ]

  pub distinct_of_IsDistinct : (xs : List A) → IsDistinct xs → distinct xs ≡ xs
  unfolding distinct
  distinct_of_IsDistinct [] h = refl
  distinct_of_IsDistinct (x ∷ xs) h = rw (distinct_of_IsDistinct xs h.1, h.0)

-- `str` compares character by character.
instance abbrev pub string_eq : HasEquality String
string_eq = record { beq_iff = eq_iff; beq = str_eq }

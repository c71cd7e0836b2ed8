-- ===== src/Models/Scopes.antt =====
-- toolbox/models.py: scopes and their order.
use toolbox_mcp.Prelude.{
  ℕ, ◌<◌, String, ◌≡◌, refl, ◌↔◌, Bool, true, false, Option, none, some, List, [], ◌∷◌, arith,
  if◌then◌else◌, HasEquality, ◌==◌, string_eq, nat_beq, filter_by, leb, All, contains, IsDistinct,
  distinct, sort_by, insert_by, contains-sort_by, contains-distinct, distinct-IsDistinct,
  distinct_of_IsDistinct,
}

pub data Scope : Type 0 where
  thread session global : Scope

-- `_SCOPE_ORDER`.
abbrev pub scope_order : Scope → ℕ
scope_order thread = 0
scope_order session = 1
scope_order global = 2

-- `scope.value`.
abbrev pub scope_value : Scope → String
scope_value thread = "thread"
scope_value session = "session"
scope_value global = "global"

-- `Scope(text)`; `none` is the `ValueError`.
unfoldable pub parse_scope : String → Option Scope
parse_scope text =
    if text == "thread"
    then some thread
    else if text == "session"
    then some session
    else if text == "global"
    then some global
    else none

abbrev pub all_scopes : List Scope
all_scopes = thread ∷ session ∷ global ∷ []

abbrev pub scope_beq : Scope → Scope → Bool
scope_beq a b = nat_beq (scope_order a) (scope_order b)

pub scope_beq_iff : (a b : Scope) → (scope_beq a b ≡ true) ↔ (a ≡ b)
scope_beq_iff a b = ground arith

instance abbrev pub scope_eq : HasEquality Scope
scope_eq = record { beq = scope_beq; beq_iff = scope_beq_iff }

abbrev pub scope_le : Scope → Scope → Bool
scope_le a b = leb (scope_order a) (scope_order b)

-- `scopes.sort(key=lambda item: _SCOPE_ORDER[item])`.
unfoldable pub sort_scopes : List Scope → List Scope
sort_scopes = sort_by scope_le

-- `_ordered_unique_scopes`.
unfoldable pub ordered_unique_scopes : List Scope → List Scope
ordered_unique_scopes scopes = sort_scopes (distinct scopes)

-- Strictly increasing in `_SCOPE_ORDER`.
abbrev pub IsOrdered : List Scope → Type 0
IsOrdered [] = Unit
IsOrdered (x ∷ xs) = All (λ y. scope_order x < scope_order y) xs × IsOrdered xs

All-lt_trans :
    (a b : Scope) (xs : List Scope)
    → scope_order a < scope_order b
    → All (λ y. scope_order b < scope_order y) xs
    → All (λ y. scope_order a < scope_order y) xs
All-lt_trans a b [] p h = tt
All-lt_trans a b (x ∷ xs) p h = (omega arith, All-lt_trans a b xs p h.1)

All-insert_by :
    (a b : Scope) (xs : List Scope)
    → scope_order a < scope_order b
    → All (λ y. scope_order a < scope_order y) xs
    → All (λ y. scope_order a < scope_order y) (insert_by scope_le b xs)
unfolding insert_by
All-insert_by a b [] p h = (p, tt)
All-insert_by a b (x ∷ xs) p h = ground (arith, All-insert_by a b xs p h.1)

insert_by-IsOrdered :
    (a : Scope) (xs : List Scope)
    → contains xs a ≡ false
    → IsOrdered xs
    → IsOrdered (insert_by scope_le a xs)
unfolding insert_by
insert_by-IsOrdered a [] n h = (tt, tt)
insert_by-IsOrdered a (x ∷ xs) n h =
    ground (arith, insert_by-IsOrdered a xs, All-lt_trans a x xs, All-insert_by x a xs)

pub sort_scopes-IsOrdered : (xs : List Scope) → IsDistinct xs → IsOrdered (sort_scopes xs)
unfolding sort_scopes sort_by
sort_scopes-IsOrdered [] h = tt
sort_scopes-IsOrdered (x ∷ xs) h =
    insert_by-IsOrdered x (sort_by scope_le xs) (ground (arith, contains-sort_by scope_le xs x))
      (sort_scopes-IsOrdered xs h.1)

contains-above :
    (a : Scope) (xs : List Scope)
    → All (λ y. scope_order a < scope_order y) xs
    → contains xs a ≡ false
contains-above a [] h = refl
contains-above a (x ∷ xs) h = ground (arith, contains-above a xs h.1)

pub IsOrdered-IsDistinct : (xs : List Scope) → IsOrdered xs → IsDistinct xs
IsOrdered-IsDistinct [] h = tt
IsOrdered-IsDistinct (x ∷ xs) h = (contains-above x xs h.0, IsOrdered-IsDistinct xs h.1)

insert_by_below :
    (a : Scope) (xs : List Scope)
    → All (λ y. scope_order a < scope_order y) xs
    → insert_by scope_le a xs ≡ a ∷ xs
unfolding insert_by
insert_by_below a [] h = refl
insert_by_below a (x ∷ xs) h = ground arith

sort_scopes_of_IsOrdered : (xs : List Scope) → IsOrdered xs → sort_scopes xs ≡ xs
unfolding sort_scopes sort_by
sort_scopes_of_IsOrdered [] h = refl
sort_scopes_of_IsOrdered (x ∷ xs) h =
    rw (sort_scopes_of_IsOrdered xs h.1) (insert_by_below x xs h.0)

pub contains-sort_scopes :
    (xs : List Scope) (s : Scope) → contains (sort_scopes xs) s ≡ contains xs s
unfolding sort_scopes
contains-sort_scopes xs s = contains-sort_by scope_le xs s

pub contains-ordered_unique_scopes :
    (xs : List Scope) (s : Scope) → contains (ordered_unique_scopes xs) s ≡ contains xs s
unfolding ordered_unique_scopes
contains-ordered_unique_scopes xs s =
    rw (contains-sort_scopes (distinct xs) s) (contains-distinct xs s)

pub ordered_unique_scopes-IsOrdered : (xs : List Scope) → IsOrdered (ordered_unique_scopes xs)
unfolding ordered_unique_scopes
ordered_unique_scopes-IsOrdered xs = sort_scopes-IsOrdered (distinct xs) (distinct-IsDistinct xs)

pub ordered_unique_scopes_of_IsOrdered :
    (xs : List Scope) → IsOrdered xs → ordered_unique_scopes xs ≡ xs
unfolding ordered_unique_scopes
ordered_unique_scopes_of_IsOrdered xs h =
    rw (distinct_of_IsDistinct xs (IsOrdered-IsDistinct xs h)) (sort_scopes_of_IsOrdered xs h)

All-filter_by :
    (a : Scope) (p : Scope → Bool) (xs : List Scope)
    → All (λ y. scope_order a < scope_order y) xs
    → All (λ y. scope_order a < scope_order y) (filter_by p xs)
All-filter_by a p [] h = tt
All-filter_by a p (x ∷ xs) h = ground (arith, All-filter_by a p xs h.1)

pub filter_by-IsOrdered :
    (p : Scope → Bool) (xs : List Scope) → IsOrdered xs → IsOrdered (filter_by p xs)
filter_by-IsOrdered p [] h = tt
filter_by-IsOrdered p (x ∷ xs) h =
    ground (arith, filter_by-IsOrdered p xs h.1, All-filter_by x p xs h.0)

-- ===== src/Program/Integers.antt =====
-- Python's `int`, as far as programs compute with it.
use toolbox_mcp.Prelude.{
  ℕ, zero, suc, ◌+◌, ◌-◌, Bool, true, false, String, Option, none, some, if◌then◌else◌, ltb, leb,
  nat_beq, text_of, show_nat, List, [], ◌∷◌,
}
use Prim.Native.Nat.{◌*◌}
use toolbox_mcp.Json.{ℤ, pos, negsuc}

-- `m - n` of two natural numbers.
abbrev pub difference : ℕ → ℕ → ℤ
difference m n = if leb n m then pos (m - n) else negsuc (n - m - 1)

abbrev pub negated : ℤ → ℤ
negated (pos n) = difference 0 n
negated (negsuc n) = pos (suc n)

infixl 20 ◌+ℤ◌
abbrev pub ◌+ℤ◌ : ℤ → ℤ → ℤ
pos m +ℤ pos n = pos (m + n)
pos m +ℤ negsuc n = difference m (suc n)
negsuc m +ℤ pos n = difference n (suc m)
negsuc m +ℤ negsuc n = negsuc (suc (m + n))

infixl 30 ◌*ℤ◌
abbrev pub ◌*ℤ◌ : ℤ → ℤ → ℤ
pos m *ℤ pos n = pos (m * n)
pos m *ℤ negsuc n = difference 0 (m * suc n)
negsuc m *ℤ pos n = difference 0 (suc m * n)
negsuc m *ℤ negsuc n = pos (suc m * suc n)

abbrev pub int_eq : ℤ → ℤ → Bool
int_eq (pos m) (pos n) = nat_beq m n
int_eq (negsuc m) (negsuc n) = nat_beq m n
int_eq _ _ = false

abbrev pub int_lt : ℤ → ℤ → Bool
int_lt (pos m) (pos n) = ltb m n
int_lt (pos m) (negsuc n) = false
int_lt (negsuc m) (pos n) = true
int_lt (negsuc m) (negsuc n) = ltb n m

abbrev pub int_text : ℤ → String
int_text (pos n) = show_nat n
int_text (negsuc n) = text_of ("-" ∷ show_nat (suc n) ∷ [])

-- The place of an index in a sequence of a length: a negative index counts from the end.
abbrev pub place : ℕ → ℤ → Option ℕ
place size (pos n) = if ltb n size then some n else none
place size (negsuc n) = if ltb n size then some (size - suc n) else none

-- `range(start, stop, step)` for a positive step: the numbers left to `stop`, at most `count` of them.
unfoldable pub count_up : ℕ → ℤ → ℤ → ℤ → List ℤ
count_up zero current stop step = []
count_up (suc count) current stop step =
    let rest = count_up count (current +ℤ step) stop step in
    if int_lt current stop then current ∷ rest else []

unfoldable pub count_down : ℕ → ℤ → ℤ → ℤ → List ℤ
count_down zero current stop step = []
count_down (suc count) current stop step =
    let rest = count_down count (current +ℤ step) stop step in
    if int_lt stop current then current ∷ rest else []

-- How far apart two numbers are.
abbrev distance : ℤ → ℤ → ℕ
distance a b = elim (a +ℤ negated b) [ pos n ↦ n | negsuc n ↦ suc n ]

-- `list(range(start, stop, step))`; a step of zero is a `ValueError`.
unfoldable pub range_of : ℤ → ℤ → ℤ → Option (List ℤ)
unfolding count_up count_down
range_of start stop (pos zero) = none
range_of start stop (pos (suc n)) = some (count_up (distance start stop) start stop (pos (suc n)))
range_of start stop (negsuc n) = some (count_down (distance start stop) start stop (negsuc n))

-- ===== src/Prelude/Strings.antt =====
-- Python's operations on `str` that the program uses, by recursion on the characters.
use Prim.Native.Nat.{ℕ, suc}
use Prim.Native.Char.{Char, char, code}
use Prim.Native.String.{String, ◌++◌}
use mathlib.Core.Path.{◌≡◌, refl, sym, ◌∙◌}
use mathlib.Core.Logic.{inl, inr}
use text.Mathlib.TextLemmas.{cons-append, nil-append}
use text.Mathlib.TextEquality.{Char-path}
use mathlib.Core.Bool.{Bool, true, false, ◌||◌}
use mathlib.Core.Option.{Option, none, some}
use mathlib.Core.List.{List, [], ◌∷◌}
use native.Mathlib.Omega.{arith}
use toolbox_mcp.Prelude.Tests.{if◌then◌else◌, nat_beq, Bool-cases}

-- `len(s)`.
unfoldable pub string_length : String → ℕ
string_length String.[] = 0
string_length (String.◌∷◌ c s) = suc (string_length s)

-- The rest of a string that starts with a prefix: `s.startswith(p)` and `s[len(p):]`.
unfoldable pub strip_prefix : String → String → Option String
strip_prefix String.[] s = some s
strip_prefix (String.◌∷◌ c p) String.[] = none
strip_prefix (String.◌∷◌ c p) (String.◌∷◌ d s) =
    if nat_beq (code c) (code d) then strip_prefix p s else none

nat_beq_self : (n : ℕ) → nat_beq n n ≡ true
nat_beq_self n = ground arith

nat_beq_eq : {m n : ℕ} → nat_beq m n ≡ true → m ≡ n
nat_beq_eq h = ground arith

pub some-injective : {A : Type 0} (a b : A) → some a ≡ some b → a ≡ b
some-injective a b e = cc

pub strip_prefix-append : (p s : String) → strip_prefix p (p ++ s) ≡ some s
unfolding strip_prefix
strip_prefix-append String.[] s = rw (nil-append s)
strip_prefix-append (String.◌∷◌ c p) s =
    rw (cons-append c p s, nat_beq_self (code c), strip_prefix-append p s)

pub append_of_strip_prefix : (p s t : String) → strip_prefix p s ≡ some t → p ++ t ≡ s
unfolding strip_prefix
append_of_strip_prefix String.[] s t h = nil-append t ∙ sym (some-injective s t h)
append_of_strip_prefix (String.◌∷◌ c p) String.[] t h = cc
append_of_strip_prefix (String.◌∷◌ c p) (String.◌∷◌ d s) t h =
    elim (Bool-cases (nat_beq (code c) (code d))) [
      | inl same ↦
          let e : c ≡ d = Char-path c d (nat_beq_eq same) in
          cons-append c p t ∙ cc (e, append_of_strip_prefix p s t (ground arith))
      | inr other ↦ ground arith
    ]

abbrev pub is_dot : Char → Bool
is_dot c = nat_beq (code c) b'.'

-- `"." in s`.
unfoldable pub has_dot : String → Bool
has_dot String.[] = false
has_dot (String.◌∷◌ c s) = is_dot c || has_dot s

strip_prefix-cons :
    (c d : Char) (a b x y : String)
    → strip_prefix (String.◌∷◌ c a ++ x) (String.◌∷◌ d b ++ y)
      ≡ (if nat_beq (code c) (code d) then strip_prefix (a ++ x) (b ++ y) else none)
unfolding strip_prefix
strip_prefix-cons c d a b x y = rw (cons-append c a x, cons-append d b y)

strip_prefix-dot_left :
    (d : Char) (b y : String)
    → strip_prefix ("" ++ ".") (String.◌∷◌ d b ++ y)
      ≡ (if nat_beq b'.' (code d) then some (b ++ y) else none)
unfolding strip_prefix
strip_prefix-dot_left d b y = rw (cons-append d b y)

strip_prefix-dot_right :
    (c : Char) (a x s : String)
    → strip_prefix (String.◌∷◌ c a ++ x) ("" ++ ("." ++ s))
      ≡ (if nat_beq (code c) b'.' then strip_prefix (a ++ x) s else none)
unfolding strip_prefix
strip_prefix-dot_right c a x s =
    rw (cons-append c a x, nil-append ("." ++ s), cons-append (char 46 tt) "" s, nil-append s)

-- A dotted name has one first part without a dot.
pub first_part_unique :
    (a b s t : String)
    → has_dot a ≡ false
    → has_dot b ≡ false
    → strip_prefix (a ++ ".") (b ++ ("." ++ s)) ≡ some t
    → a ≡ b
unfolding has_dot strip_prefix
first_part_unique String.[] String.[] s t ha hb h = refl
first_part_unique String.[] (String.◌∷◌ d b) s t ha hb h =
    ground (arith, strip_prefix-dot_left d b ("." ++ s))
first_part_unique (String.◌∷◌ c a) String.[] s t ha hb h =
    ground (arith, strip_prefix-dot_right c a "." s)
first_part_unique (String.◌∷◌ c a) (String.◌∷◌ d b) s t ha hb h =
    let e : a ≡ b =
      first_part_unique a b s t (ground arith) (ground arith)
        (ground (arith, strip_prefix-cons c d a b "." ("." ++ s))) in
    let f : c ≡ d = Char-path c d (ground (arith, strip_prefix-cons c d a b "." ("." ++ s))) in
    cc (e, f)

abbrev prepend : Char → List String → List String
prepend c [] = (String.◌∷◌ c "") ∷ []
prepend c (part ∷ parts) = (String.◌∷◌ c part) ∷ parts

-- `s.split(".")`.
unfoldable pub split_dots : String → List String
split_dots String.[] = "" ∷ []
split_dots (String.◌∷◌ c s) =
    let rest = split_dots s in if is_dot c then "" ∷ rest else prepend c rest

-- `"\n".join(parts)`.
unfoldable pub join_lines : List String → String
join_lines [] = ""
join_lines (part ∷ []) = part
join_lines (part ∷ next ∷ parts) = part ++ ("\n" ++ join_lines (next ∷ parts))

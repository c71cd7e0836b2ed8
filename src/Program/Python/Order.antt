-- ===== src/Program/Python/Order.antt =====
-- toolbox/program_runtime.py: Python's comparisons, `in` and `sorted`, as the interpreter uses them.
use toolbox_mcp.Prelude.{
  Bool, true, false, ◌&&◌, ◌||◌, not, String, Option, none, some, List, [], ◌∷◌, length,
  if◌then◌else◌, ◌==◌, string_eq, is_some, nat_beq, strip_prefix,
}
use toolbox_mcp.Json.{ℤ}
use toolbox_mcp.Validation.{string_le}
use toolbox_mcp.Program.Integers.{int_eq, int_lt}
use toolbox_mcp.Program.Values.{
  Value, py_none, py_str, py_list, py_tuple, py_dict, Values, no_values, value_and, Entries,
  no_entries, entry_and, get_entry, entry_keys,
}
use toolbox_mcp.Program.Syntax.{
  Comparison, eq, not_eq, lt, lt_e, gt, gt_e, in_, not_in, other_comparison,
}
use toolbox_mcp.Program.Python.{
  Python, Outcome, value, raised, value_error, is_other, number_of, type_error, items_in,
}
use toolbox_mcp.Prelude.{text_of}

module _ (py : Python) where
  abbrev numbers_equal : Option ℤ → Option ℤ → Bool
  numbers_equal (some m) (some n) = int_eq m n
  numbers_equal _ _ = false

  abbrev scalars_equal : Value → Value → Bool
  scalars_equal py_none py_none = true
  scalars_equal (py_str a) (py_str b) = a == b
  scalars_equal a b =
      if is_other a
      then py.equal_other a b
      else if is_other b
      then py.equal_other a b
      else numbers_equal (number_of a) (number_of b)

  unfoldable mutual
    unfolding get_entry

    -- `a == b`.
    pub equal : Value → Value → Bool
    equal (py_list xs) (py_list ys) = equal_values xs ys
    equal (py_tuple xs) (py_tuple ys) = equal_values xs ys
    equal (py_dict f) (py_dict g) =
        nat_beq (length (entry_keys f)) (length (entry_keys g)) && equal_entries f g
    equal a b = scalars_equal a b

    pub equal_values : Values → Values → Bool
    equal_values no_values no_values = true
    equal_values (value_and x xs) (value_and y ys) = equal x y && equal_values xs ys
    equal_values _ _ = false

    pub equal_entries : Entries → Entries → Bool
    equal_entries no_entries g = true
    equal_entries (entry_and key x f) g =
        elim (get_entry g key) [ none ↦ false | some y ↦ equal x y ] && equal_entries f g

  -- A comparison by the order and the equality of its sides.
  abbrev pub by_order : Comparison → Bool → Bool → Bool
  by_order lt less same = less
  by_order lt_e less same = less || same
  by_order gt less same = not less && not same
  by_order gt_e less same = not less
  by_order _ less same = false

  abbrev numbers_ordered : Comparison → Option ℤ → Option ℤ → Option Bool
  numbers_ordered c (some m) (some n) = some (by_order c (int_lt m n) (int_eq m n))
  numbers_ordered c _ _ = none

  abbrev scalars_ordered : Comparison → Value → Value → Option Bool
  scalars_ordered c (py_str a) (py_str b) =
      some (by_order c (string_le a b && not (a == b)) (a == b))
  scalars_ordered c a b =
      if is_other a
      then py.ordered_other c a b
      else if is_other b
      then py.ordered_other c a b
      else numbers_ordered c (number_of a) (number_of b)

  unfoldable mutual
    unfolding equal

    -- `a < b` and the like; `none` is the `TypeError`. Lists compare by their first differing items.
    pub ordered : Comparison → Value → Value → Option Bool
    ordered c (py_list xs) (py_list ys) = ordered_values c xs ys
    ordered c (py_tuple xs) (py_tuple ys) = ordered_values c xs ys
    ordered c a b = scalars_ordered c a b

    pub ordered_values : Comparison → Values → Values → Option Bool
    ordered_values c no_values no_values = some (by_order c false true)
    ordered_values c no_values (value_and y ys) = some (by_order c true false)
    ordered_values c (value_and x xs) no_values = some (by_order c false false)
    ordered_values c (value_and x xs) (value_and y ys) =
        let later = ordered_values c xs ys in
        let here = ordered c x y in if equal x y then later else here

  unfoldable pub member : Value → List Value → Bool
  unfolding equal
  member v [] = false
  member v (x ∷ xs) = equal v x || member v xs

  -- `part in text`.
  unfoldable pub has_part : String → String → Bool
  unfolding strip_prefix
  has_part part String.[] = is_some (strip_prefix part "")
  has_part part (String.◌∷◌ c s) = is_some (strip_prefix part (String.◌∷◌ c s)) || has_part part s

  -- The classes of values that cannot be keys.
  abbrev is_hashable : Value → Bool
  is_hashable (py_list _) = false
  is_hashable (py_dict _) = false
  is_hashable _ = true

  abbrev among : Value → Value → Option (List Value) → Outcome Bool
  among v container none = type_error py "in" (v ∷ container ∷ [])
  among v container (some items) = value (member v items)

  -- `v in container`.
  unfoldable pub is_in : Value → Value → Outcome Bool
  unfolding has_part get_entry member items_in
  is_in (py_str part) (py_str text) = value (has_part part text)
  is_in v (py_str text) = type_error py "in" (v ∷ py_str text ∷ [])
  is_in (py_str key) (py_dict entries) = value (is_some (get_entry entries key))
  is_in v (py_dict entries) =
      if is_hashable v then value false else type_error py "in" (v ∷ py_dict entries ∷ [])
  is_in v container = among v container (items_in py container)

  abbrev ordered_or_error : Value → Value → Option Bool → Outcome Bool
  ordered_or_error a b none = type_error py "<" (a ∷ b ∷ [])
  ordered_or_error a b (some answer) = value answer

  abbrev negation : Outcome Bool → Outcome Bool
  negation (value b) = value (not b)
  negation (raised e) = raised e

  -- `_comparison_operator`, applied.
  unfoldable pub comparison_operator : Comparison → Value → Value → Outcome Bool
  unfolding equal ordered is_in
  comparison_operator eq a b = value (equal a b)
  comparison_operator not_eq a b = value (not (equal a b))
  comparison_operator in_ a b = is_in a b
  comparison_operator not_in a b = negation (is_in a b)
  comparison_operator (other_comparison name) a b =
      raised (value_error (text_of ("Unsupported comparison operator: " ∷ name ∷ [])))
  comparison_operator c a b = ordered_or_error a b (ordered c a b)

  abbrev placed :
      Value → Value → List Value → Option Bool → Option (List Value) → Option (List Value)
  placed v x xs (some true) later = some (v ∷ x ∷ xs)
  placed v x xs (some false) (some rest) = some (x ∷ rest)
  placed v x xs _ _ = none

  unfoldable pub insert_value : Value → List Value → Option (List Value)
  unfolding ordered
  insert_value v [] = some (v ∷ [])
  insert_value v (x ∷ xs) =
      placed v x xs (elim (ordered lt x v) [ none ↦ none | some b ↦ some (not b) ])
        (insert_value v xs)

  abbrev insert_in : Value → Option (List Value) → Option (List Value)
  insert_in v none = none
  insert_in v (some xs) = insert_value v xs

  -- `sorted(xs)`; `none` is the `TypeError` of a comparison.
  unfoldable pub sorted_values : List Value → Option (List Value)
  unfolding insert_value
  sorted_values [] = some []
  sorted_values (x ∷ xs) = insert_in x (sorted_values xs)

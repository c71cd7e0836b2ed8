-- ===== src/Program/Python.antt =====
-- toolbox/program_runtime.py: Python's operators and built-in functions, as the interpreter uses them. What
-- they make of floats, of constants of other classes, and the texts of values are parameters.
pub mod Order
use toolbox_mcp.Prelude.{
  ℕ, zero, suc, ◌+◌, Bool, true, false, ◌&&◌, not, String, Option, none, some, List, [], ◌∷◌, ◌++◌,
  map, length, if◌then◌else◌, ◌==◌, string_eq, is_some, nat_beq, is_empty, text_of,
}
use Prim.Native.String.{◌++◌ as append}
use toolbox_mcp.Json.{ℤ, pos, negsuc}
use toolbox_mcp.Models.{ErrorInfo}
use toolbox_mcp.Program.Integers.{◌+ℤ◌, ◌*ℤ◌, negated, int_eq, int_text, place, range_of}
use toolbox_mcp.Program.Values.{
  Value, py_none, py_bool, py_int, py_float, py_str, py_list, py_tuple, py_dict, py_opaque, Values,
  no_values, value_and, Entries, no_entries, entry_and, get_entry, values_list, values_of,
  entry_keys, class_name,
}
use toolbox_mcp.Program.Syntax.{Operator, add, sub, mult, div, other_operator, Comparison, Block}
use toolbox_mcp.Json.{Fields}

-- An exception of the interpreter by its class: `_ProgramRuntimeIssue`, `ValueError`, `_LoopBreakSignal`,
-- `_LoopContinueSignal`, `SyntaxError` by its message, line and offset, or any other.
pub data Raised : Type 0 where
  issue : String → String → Option Fields → Raised
  value_error : String → Raised
  syntax_error : Option String → Option ℕ → Option ℕ → Raised
  break_signal continue_signal : Raised
  other_raised : String → Raised

pub data Outcome (A : Type 0) : Type 0 where
  value : A → Outcome A
  raised : Raised → Outcome A

-- What `ast.parse` gives: the number of nodes and the body of the module, or an exception.
pub data Parsed : Type 0 where
  parsed : ℕ → Block → Parsed
  parse_raised : Raised → Parsed

pub record Python : Type 0 where
  pub parse : String → Parsed
  -- `bool(x)`, `len(x)`, `iter(x)` and `x[key]` of a float or a constant of another class.
  pub truthy_other : Value → Bool
  pub size_other : Value → Option ℕ
  pub items_other : Value → Option (List Value)
  pub item_other : Value → Value → Option Value
  -- `a == b`, and the order comparisons, where one side is a float or a constant of another class.
  pub equal_other : Value → Value → Bool
  pub ordered_other : Comparison → Value → Value → Option Bool
  -- `a + b` and the like, where one side is a float or a constant of another class, and `a / b`.
  pub arithmetic_other : Operator → Value → Value → Outcome Value
  -- `-x` and `+x` of a float or a constant of another class.
  pub negated_other : Value → Outcome Value
  pub unsigned_other : Value → Outcome Value
  -- `str(x)` of a float, a container or a constant of another class; `int(x)` of what is no number; and
  -- `float(x)`.
  pub text : Value → String
  pub to_int : Value → Outcome ℤ
  pub to_float : Value → Outcome Value
  -- How the client of a server writes the arguments of a call.
  pub wire_arguments : Entries → Fields
  -- Whether the copy of a value by `_json_safe_value`, which descends into it, ends in a `RecursionError`.
  pub too_deep : Value → Bool
  -- The message of the `RecursionError`.
  pub recursion_message : String
  -- The message of a `TypeError` from an operation on values.
  pub type_error : String → List Value → String

-- Neither float nor a constant of another class.
abbrev pub is_other : Value → Bool
is_other (py_float text) = true
is_other (py_opaque name text) = true
is_other _ = false

-- `bool` is a subclass of `int`.
abbrev pub number_of : Value → Option ℤ
number_of (py_bool true) = some (pos 1)
number_of (py_bool false) = some (pos 0)
number_of (py_int n) = some n
number_of _ = none

abbrev pub none_left : Values → Bool
none_left no_values = true
none_left (value_and _ _) = false

-- The characters of a text, each a text.
unfoldable pub characters : String → List Value
characters String.[] = []
characters (String.◌∷◌ c s) = py_str (String.◌∷◌ c "") ∷ characters s

unfoldable pub nth : List Value → ℕ → Option Value
nth [] i = none
nth (x ∷ xs) zero = some x
nth (x ∷ xs) (suc i) = nth xs i

module _ {A : Type 0} (py : Python) where
  abbrev pub type_error : String → List Value → Outcome A
  type_error operation values = raised (other_raised (py.type_error operation values))

module _ (py : Python) where
  -- `bool(x)`.
  abbrev pub truthy : Value → Bool
  truthy py_none = false
  truthy (py_bool b) = b
  truthy (py_int n) = not (int_eq n (pos 0))
  truthy (py_str text) = not (text == "")
  truthy (py_list items) = not (none_left items)
  truthy (py_tuple items) = not (none_left items)
  truthy (py_dict entries) = not (is_empty (entry_keys entries))
  truthy v = py.truthy_other v

  -- `str(x)`.
  unfoldable pub text_for : Value → String
  text_for py_none = "None"
  text_for (py_bool true) = "True"
  text_for (py_bool false) = "False"
  text_for (py_int n) = int_text n
  text_for (py_str text) = text
  text_for v = py.text v

  abbrev number_or : Value → Option ℤ → Outcome ℤ
  number_or v none = py.to_int v
  number_or v (some n) = value n

  -- `int(x)`.
  unfoldable pub integer_for : Value → Outcome ℤ
  integer_for v = number_or v (number_of v)

  -- `iter(x)`; `none` is the `TypeError`.
  unfoldable pub items_in : Value → Option (List Value)
  unfolding characters
  items_in (py_list items) = some (values_list items)
  items_in (py_tuple items) = some (values_list items)
  items_in (py_str text) = some (characters text)
  items_in (py_dict entries) = some (map py_str (entry_keys entries))
  items_in (py_float text) = py.items_other (py_float text)
  items_in (py_opaque name text) = py.items_other (py_opaque name text)
  items_in _ = none

  abbrev sized : Value → Option ℕ → Outcome Value
  sized v none = type_error py "len" (v ∷ [])
  sized v (some n) = value (py_int (pos n))

  -- `len(x)`.
  unfoldable pub length_of : Value → Outcome Value
  unfolding characters
  length_of (py_list items) = sized (py_list items) (some (length (values_list items)))
  length_of (py_tuple items) = sized (py_tuple items) (some (length (values_list items)))
  length_of (py_str text) = sized (py_str text) (some (length (characters text)))
  length_of (py_dict entries) = sized (py_dict entries) (some (length (entry_keys entries)))
  length_of v = sized v (py.size_other v)

  abbrev at_place : List Value → Option ℤ → Option Value
  at_place items none = none
  at_place items (some n) = elim (place (length items) n) [ none ↦ none | some i ↦ nth items i ]

  -- `base[key]`; `none` is any exception.
  unfoldable pub item_of : Value → Value → Option Value
  unfolding characters nth get_entry
  item_of (py_list items) key = at_place (values_list items) (number_of key)
  item_of (py_tuple items) key = at_place (values_list items) (number_of key)
  item_of (py_str text) key = at_place (characters text) (number_of key)
  item_of (py_dict entries) (py_str key) = get_entry entries key
  item_of (py_dict _) _ = none
  item_of base key = py.item_other base key

  unfoldable pub repeated : ℕ → List Value → List Value
  repeated zero items = []
  repeated (suc n) items = items ++ repeated n items

  unfoldable pub repeated_text : ℕ → String → String
  repeated_text zero text = ""
  repeated_text (suc n) text = append text (repeated_text n text)

  -- How often a sequence is repeated: a negative number is none.
  abbrev times : ℤ → ℕ
  times (pos n) = n
  times (negsuc n) = 0

  unfoldable pub added : Value → Value → Outcome Value
  added (py_str a) (py_str b) = value (py_str (append a b))
  added (py_list a) (py_list b) = value (py_list (values_of (values_list a ++ values_list b)))
  added (py_tuple a) (py_tuple b) = value (py_tuple (values_of (values_list a ++ values_list b)))
  added a b = type_error py "+" (a ∷ b ∷ [])

  -- A sequence times a number.
  unfoldable pub scaled : Value → ℤ → Outcome Value
  unfolding repeated repeated_text
  scaled (py_str a) n = value (py_str (repeated_text (times n) a))
  scaled (py_list a) n = value (py_list (values_of (repeated (times n) (values_list a))))
  scaled (py_tuple a) n = value (py_tuple (values_of (repeated (times n) (values_list a))))
  scaled a n = type_error py "*" (a ∷ py_int n ∷ [])

  unfoldable pub calculated : Operator → ℤ → ℤ → Outcome Value
  calculated add m n = value (py_int (m +ℤ n))
  calculated sub m n = value (py_int (m +ℤ negated n))
  calculated mult m n = value (py_int (m *ℤ n))
  calculated div m n =
      if int_eq n (pos 0)
      then raised (other_raised "division by zero")
      else py.arithmetic_other div (py_int m) (py_int n)
  calculated (other_operator name) m n =
      raised (value_error (text_of ("Unsupported binary operator: " ∷ name ∷ [])))

  -- The operands by whether they are numbers.
  unfoldable pub combined : Operator → Value → Value → Option ℤ → Option ℤ → Outcome Value
  unfolding calculated added scaled
  combined operator a b (some m) (some n) = calculated operator m n
  combined add a b _ _ = added a b
  combined mult a b none (some n) = scaled a n
  combined mult a b (some m) none = scaled b m
  combined mult a b none none = type_error py "*" (a ∷ b ∷ [])
  combined sub a b _ _ = type_error py "-" (a ∷ b ∷ [])
  combined div a b _ _ = type_error py "/" (a ∷ b ∷ [])
  combined (other_operator name) a b _ _ =
      raised (value_error (text_of ("Unsupported binary operator: " ∷ name ∷ [])))

  -- `_apply_binary_operator`.
  unfoldable pub apply_binary_operator : Operator → Value → Value → Outcome Value
  unfolding combined
  apply_binary_operator (other_operator name) a b =
      raised (value_error (text_of ("Unsupported binary operator: " ∷ name ∷ [])))
  apply_binary_operator operator a b =
      if is_other a
      then py.arithmetic_other operator a b
      else if is_other b
      then py.arithmetic_other operator a b
      else combined operator a b (number_of a) (number_of b)

  abbrev after_add : Outcome Value → (Value → Outcome Value) → Outcome Value
  after_add (value v) f = f v
  after_add (raised e) f = raised e

  -- `sum(xs)`.
  unfoldable pub sum_from : List Value → Value → Outcome Value
  unfolding apply_binary_operator
  sum_from [] total = value total
  sum_from (x ∷ xs) total = after_add (apply_binary_operator add total x) (sum_from xs)

  abbrev minus : Value → Option ℤ → Outcome Value
  minus v none = if is_other v then py.negated_other v else type_error py "-" (v ∷ [])
  minus v (some n) = value (py_int (negated n))

  abbrev plus : Value → Option ℤ → Outcome Value
  plus v none = if is_other v then py.unsigned_other v else type_error py "+" (v ∷ [])
  plus v (some n) = value (py_int n)

  -- `-x` and `+x`.
  unfoldable pub negative : Value → Outcome Value
  negative v = minus v (number_of v)

  unfoldable pub positive : Value → Outcome Value
  positive v = plus v (number_of v)

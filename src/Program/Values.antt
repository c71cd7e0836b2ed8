-- ===== src/Program/Values.antt =====
-- toolbox/program_runtime.py: the values of programs, and what becomes of them in results and traces. A
-- program cannot change a list or a dictionary once it is built, so that values need no identity.
use toolbox_mcp.Prelude.{
  Bool, String, Option, none, some, List, [], ◌∷◌, if◌then◌else◌, ◌==◌, string_eq,
}
use toolbox_mcp.Json.{
  ℤ, Json, null, bool, int, real, str, arr, obj, Items, nil, cons, Fields, end, field,
}

mutual
  -- A float is its literal; a constant of another class (bytes, complex, Ellipsis) is its class and literal.
  pub data Value : Type 0 where
    py_none : Value
    py_bool : Bool → Value
    py_int : ℤ → Value
    py_float : String → Value
    py_str : String → Value
    py_list : Values → Value
    py_tuple : Values → Value
    py_dict : Entries → Value
    py_opaque : String → String → Value

  pub data Values : Type 0 where
    no_values : Values
    value_and : Value → Values → Values

  -- A dictionary in insertion order.
  pub data Entries : Type 0 where
    no_entries : Entries
    entry_and : String → Value → Entries → Entries

unfoldable pub get_entry : Entries → String → Option Value
get_entry no_entries name = none
get_entry (entry_and key value rest) name = if key == name then some value else get_entry rest name

-- `d[name] = value`.
unfoldable pub set_entry : String → Value → Entries → Entries
set_entry name value no_entries = entry_and name value no_entries
set_entry name value (entry_and key old rest) =
    let later = set_entry name value rest in
    if key == name then entry_and key value rest else entry_and key old later

abbrev pub values_list : Values → List Value
values_list no_values = []
values_list (value_and value rest) = value ∷ values_list rest

abbrev pub values_of : List Value → Values
values_of [] = no_values
values_of (value ∷ rest) = value_and value (values_of rest)

abbrev pub entry_keys : Entries → List String
entry_keys no_entries = []
entry_keys (entry_and key value rest) = key ∷ entry_keys rest

abbrev pub entry_values : Entries → List Value
entry_values no_entries = []
entry_values (entry_and key value rest) = value ∷ entry_values rest

abbrev pub entry_pairs : Entries → List Value
entry_pairs no_entries = []
entry_pairs (entry_and key value rest) =
    py_tuple (value_and (py_str key) (value_and value no_values)) ∷ entry_pairs rest

-- `type(value).__name__`.
abbrev pub class_name : Value → String
class_name py_none = "NoneType"
class_name (py_bool _) = "bool"
class_name (py_int _) = "int"
class_name (py_float _) = "float"
class_name (py_str _) = "str"
class_name (py_list _) = "list"
class_name (py_tuple _) = "tuple"
class_name (py_dict _) = "dict"
class_name (py_opaque name _) = name

unfoldable mutual
  -- A value that arrives as JSON.
  pub value_of_json : Json → Value
  value_of_json null = py_none
  value_of_json (bool b) = py_bool b
  value_of_json (int n) = py_int n
  value_of_json (real text) = py_float text
  value_of_json (str text) = py_str text
  value_of_json (arr items) = py_list (values_of_items items)
  value_of_json (obj fields) = py_dict (entries_of_fields fields)

  pub values_of_items : Items → Values
  values_of_items nil = no_values
  values_of_items (cons value items) = value_and (value_of_json value) (values_of_items items)

  pub entries_of_fields : Fields → Entries
  entries_of_fields end = no_entries
  entries_of_fields (field key value fields) =
      entry_and key (value_of_json value) (entries_of_fields fields)

unfoldable mutual
  -- `_json_safe_value`.
  pub json_safe_value : Value → Json
  json_safe_value py_none = null
  json_safe_value (py_bool b) = bool b
  json_safe_value (py_int n) = int n
  json_safe_value (py_float text) = real text
  json_safe_value (py_str text) = str text
  json_safe_value (py_list items) = arr (json_safe_items items)
  json_safe_value (py_tuple items) = arr (json_safe_items items)
  json_safe_value (py_dict entries) = obj (json_safe_entries entries)
  json_safe_value (py_opaque name text) =
      obj (field "type" (str "opaque") (field "class_name" (str name) end))

  pub json_safe_items : Values → Items
  json_safe_items no_values = nil
  json_safe_items (value_and value rest) = cons (json_safe_value value) (json_safe_items rest)

  pub json_safe_entries : Entries → Fields
  json_safe_entries no_entries = end
  json_safe_entries (entry_and key value rest) =
      field key (json_safe_value value) (json_safe_entries rest)

unfoldable mutual
  -- `_redacted_argument_value`.
  pub redacted_argument_value : Value → Json
  redacted_argument_value py_none = null
  redacted_argument_value (py_list items) = arr (redacted_argument_items items)
  redacted_argument_value (py_tuple items) = arr (redacted_argument_items items)
  redacted_argument_value (py_dict entries) = obj (redacted_argument_entries entries)
  redacted_argument_value (py_bool b) = str "[redacted]"
  redacted_argument_value (py_int n) = str "[redacted]"
  redacted_argument_value (py_float text) = str "[redacted]"
  redacted_argument_value (py_str text) = str "[redacted]"
  redacted_argument_value (py_opaque name text) = str "[redacted]"

  pub redacted_argument_items : Values → Items
  redacted_argument_items no_values = nil
  redacted_argument_items (value_and value rest) =
      cons (redacted_argument_value value) (redacted_argument_items rest)

  pub redacted_argument_entries : Entries → Fields
  redacted_argument_entries no_entries = end
  redacted_argument_entries (entry_and key value rest) =
      field key (redacted_argument_value value) (redacted_argument_entries rest)

-- ===== src/Program/Builtins.antt =====
-- toolbox/program_runtime.py: the functions that a program can call: `call_tool`, and Python's.
use toolbox_mcp.Prelude.{
  ℕ, ◌+◌, Bool, ◌&&◌, ◌||◌, not, String, Option, none, some, List, [], ◌∷◌, ◌++◌, map, length,
  if◌then◌else◌, ◌==◌, string_eq, leb, all_of, text_of,
}
use toolbox_mcp.Json.{ℤ, pos, Json, null, str, obj, nat, Fields, end, field}
use toolbox_mcp.Models.{Result, ok, err, timeout_error, other_error}
use toolbox_mcp.Host.{CallToolResult}
use toolbox_mcp.Content.{joined_text_content}
use toolbox_mcp.Program.Integers.{range_of}
use toolbox_mcp.Program.Values.{
  Value, py_none, py_bool, py_int, py_str, py_list, py_dict, Entries, no_entries, get_entry,
  values_of, entry_keys, entry_values, entry_pairs, value_of_json, redacted_argument_entries,
}
use toolbox_mcp.Program.Python.{
  Python, Raised, issue, value_error, Outcome, value, raised, truthy, items_in, length_of, text_for,
  integer_for, sum_from, type_error,
}
use toolbox_mcp.Program.Python.Order.{sorted_values}
use toolbox_mcp.Program.Machine.{
  ProgramCallTrace, Action, give, throw, conclude, reads, updates, ◌>>=◌, ◌>>◌,
}

abbrev pub max_program_length : ℕ
max_program_length = 12000

abbrev pub max_ast_nodes : ℕ
max_ast_nodes = 500

abbrev pub max_loop_iterations : ℕ
max_loop_iterations = 1000

abbrev pub max_tool_calls : ℕ
max_tool_calls = 128

abbrev pub value_error_of : List String → Raised
value_error_of parts = value_error (text_of parts)

abbrev pub budget_issue : String → Fields → Raised
budget_issue message details = issue "budget_exceeded" message (some details)

-- `data is not None` decides between data and text.
abbrev pub text_value : Option String → Json
text_value none = null
text_value (some text) = str text

abbrev data_or_text : Option Fields → Option String → Json
data_or_text (some fields) text = obj fields
data_or_text none text = text_value text

-- `_normalize_result`.
unfoldable pub normalize_result : CallToolResult → Json × Option String
unfolding joined_text_content
normalize_result result =
    let text = joined_text_content result in (data_or_text result.structured_content text, text)

unfoldable pub new_trace : ℕ → String → Entries → CallToolResult → ProgramCallTrace
unfolding normalize_result joined_text_content
new_trace count tool arguments result =
    let (payload, text) = normalize_result result in
    record {
      index = count + 1;
      tool = tool;
      arguments = redacted_argument_entries arguments;
      data_value = payload;
      text = text;
      is_error = result.is_error;
      error_message = if result.is_error then joined_text_content result else none;
    }

abbrev message_or : Option String → String → String
message_or none other = other
message_or (some text) other = if text == "" then other else text

module _ {W : Type 0} where
  -- After the trace was appended.
  unfoldable pub call_traced : String → ProgramCallTrace → Action W Value
  unfolding value_of_json
  call_traced tool trace =
      if trace.is_error
      then throw (
          issue "tool_call_failed"
            (message_or trace.error_message (text_of ("Tool call failed: " ∷ tool ∷ [])))
            (some (field "tool" (str tool) (field "call_index" (nat trace.index) end))))
      else give (
          value_of_json
            (elim trace.data_value [ null ↦ text_value trace.text | payload ↦ payload ]))

  unfoldable pub call_returned : String → Entries → Result CallToolResult → Action W Value
  unfolding call_traced new_trace
  call_returned tool arguments (err (timeout_error message)) = throw (
      issue "tool_timeout" (text_of ("Mounted tool call timed out: " ∷ tool ∷ []))
        (some (field "tool" (str tool) end)))
  call_returned tool arguments (err (other_error message)) =
      throw (issue "tool_invocation_failed" message (some (field "tool" (str tool) end)))
  call_returned tool arguments (ok result) = do
    count ← reads (λ m. length m.traces)
    updates (λ m. record m { traces = m.traces ++ (new_trace count tool arguments result ∷ []) })
    call_traced tool (new_trace count tool arguments result)

abbrev keyword_or_none : Entries → String → Value
keyword_or_none keywords key = elim (get_entry keywords key) [ none ↦ py_none | some v ↦ v ]

abbrev is_call_keyword : String → Bool
is_call_keyword key = key == "tool" || key == "arguments"

module _ {W : Type 0} (invoker : String → Entries → W → Result CallToolResult × W) where
  -- `await self._tool_invoker(tool_name, arguments)`.
  unfoldable pub invoke : String → Entries → Action W (Result CallToolResult)
  invoke tool arguments m =
      let (r, w) = invoker tool arguments m.world in (value r, record m { world = w })

  unfoldable pub call_named : Value → Value → Action W Value
  unfolding call_returned invoke
  call_named (py_str tool) py_none = do
    result ← invoke tool no_entries
    call_returned tool no_entries result
  call_named (py_str tool) (py_dict arguments) = do
    result ← invoke tool arguments
    call_returned tool arguments result
  call_named (py_str tool) arguments = throw (value_error "call_tool arguments must be an object")
  call_named tool arguments =
      throw (value_error "call_tool requires the first argument to be the mounted tool name")

  unfoldable pub call_positional : List Value → Entries → Action W Value
  unfolding call_named get_entry
  call_positional [] keywords =
      call_named (keyword_or_none keywords "tool") (keyword_or_none keywords "arguments")
  call_positional (tool ∷ []) keywords = call_named tool py_none
  call_positional (tool ∷ arguments ∷ rest) keywords = call_named tool arguments

  unfoldable pub call_checked : List Value → Entries → Action W Value
  unfolding call_positional
  call_checked positional keywords =
      if not (all_of is_call_keyword (entry_keys keywords))
      then throw (value_error "call_tool only accepts 'tool' and 'arguments' keyword parameters")
      else call_positional positional keywords

  -- `_call_tool_builtin`.
  unfoldable pub call_tool_builtin : List Value → Entries → Action W Value
  unfolding call_checked
  call_tool_builtin positional keywords = do
    count ← reads (λ m. length m.traces)
    if leb max_tool_calls count
        then throw (
            budget_issue "Program exceeds max mounted tool call count of 128"
              (field "limit" (nat max_tool_calls) end))
        else call_checked positional keywords

module _ (py : Python) where
  -- A function of exactly one argument: `_ensure_arg_count` and the call.
  unfoldable pub with_one : String → List Value → (Value → Outcome Value) → Outcome Value
  with_one function (x ∷ []) f = f x
  with_one function _ f =
      raised (value_error_of (function ∷ " expects exactly 1 positional argument(s)" ∷ []))

  abbrev after : {A B : Type 0} → Outcome A → (A → Outcome B) → Outcome B
  after (value a) f = f a
  after (raised e) f = raised e

  abbrev iterated : Value → (List Value → Outcome Value) → Outcome Value
  iterated v f = elim (items_in py v) [
    | none ↦ type_error py "iter" (v ∷ [])
    | some items ↦ f items
  ]

  abbrev sorted_or_error : Value → Option (List Value) → Outcome Value
  sorted_or_error v none = type_error py "<" (v ∷ [])
  sorted_or_error v (some items) = value (py_list (values_of items))

  abbrev of_dict : String → (Entries → List Value) → Value → Outcome Value
  of_dict function f (py_dict entries) = value (py_list (values_of (f entries)))
  of_dict function f _ = raised (value_error_of (function ∷ " expects a dictionary argument" ∷ []))

  unfoldable pub converted : List Value → Outcome (List ℤ)
  unfolding integer_for
  converted [] = value []
  converted (v ∷ vs) =
      let rest = converted vs in after (integer_for py v) λ n. after rest λ ns. value (n ∷ ns)

  abbrev ranged : Option (List ℤ) → Outcome Value
  ranged none = raised (value_error "range() arg 3 must not be zero")
  ranged (some ns) = value (py_list (values_of (map py_int ns)))

  unfoldable pub range_values : List ℤ → Outcome Value
  unfolding range_of
  range_values (stop ∷ []) = ranged (range_of (pos 0) stop (pos 1))
  range_values (start ∷ stop ∷ []) = ranged (range_of start stop (pos 1))
  range_values (start ∷ stop ∷ step ∷ []) = ranged (range_of start stop step)
  range_values _ = raised (value_error "range expects between 1 and 3 positional argument(s)")

  -- `range`: the number of arguments is checked before they are converted.
  unfoldable pub range_called : List Value → Outcome Value
  unfolding converted range_values
  range_called positional =
      if leb 1 (length positional) && leb (length positional) 3
      then after (converted positional) range_values
      else raised (value_error "range expects between 1 and 3 positional argument(s)")

  -- The built-in functions other than `call_tool`.
  unfoldable pub builtin : String → List Value → Outcome Value
  unfolding with_one text_for integer_for range_called items_in length_of sum_from sorted_values
  builtin function positional =
      if function == "len"
      then with_one function positional (length_of py)
      else if function == "sum"
      then with_one function positional
          (λ v. iterated v (λ items. sum_from py items (py_int (pos 0))))
      else if function == "sorted"
      then with_one function positional
          (λ v. iterated v (λ items. sorted_or_error v (sorted_values py items)))
      else if function == "range"
      then range_called positional
      else if function == "keys"
      then with_one function positional (of_dict function (λ d. map py_str (entry_keys d)))
      else if function == "values"
      then with_one function positional (of_dict function entry_values)
      else if function == "items"
      then with_one function positional (of_dict function entry_pairs)
      else if function == "str"
      then with_one function positional (λ v. value (py_str (text_for py v)))
      else if function == "int"
      then with_one function positional (λ v. after (integer_for py v) λ n. value (py_int n))
      else if function == "float"
      then with_one function positional py.to_float
      else if function == "bool"
      then with_one function positional (λ v. value (py_bool (truthy py v)))
      else raised (value_error_of ("Unsupported function call: " ∷ function ∷ []))

module _ {W : Type 0} (py : Python)
    (invoker : String → Entries → W → Result CallToolResult × W) where
  -- The end of `_eval_call`.
  unfoldable pub call_function : String → List Value → Entries → Action W Value
  unfolding builtin call_tool_builtin
  call_function function positional keywords =
      if function == "call_tool"
      then call_tool_builtin invoker positional keywords
      else conclude (builtin py function positional)

-- ===== src/Program/Run.antt =====
-- toolbox/program_runtime.py: `ToolProgramRuntime.run` and the result it builds.
use toolbox_mcp.Prelude.{
  ℕ, Bool, true, false, ◌||◌, String, Option, none, some, List, [], ◌∷◌, length, if◌then◌else◌, ltb,
  ◌==◌, string_eq, string_length, strip_prefix, is_some,
}
use toolbox_mcp.Json.{Json, null, nat, Fields, end, field, set_field}
use toolbox_mcp.Models.{ErrorInfo, Result, ok, err, other_error}
use toolbox_mcp.Host.{CallToolResult}
use toolbox_mcp.Service.Support.{error_info}
use toolbox_mcp.Program.Values.{
  Value, py_none, py_str, Entries, no_entries, get_entry, entries_of_fields, json_safe_value,
}
use toolbox_mcp.Program.Python.{
  Python, Raised, issue, value_error, syntax_error, break_signal, continue_signal, other_raised,
  Outcome, value, raised, Parsed, parsed, parse_raised,
}
use toolbox_mcp.Program.Machine.{ProgramCallTrace, Machine, Action, throw}
use toolbox_mcp.Program.Builtins.{budget_issue, max_program_length, max_ast_nodes}
use toolbox_mcp.Program.Evaluator.{exec_block}

-- toolbox/models.py: `ProgramRunResult`, without the contract summaries.
pub record ProgramRunResult : Type 0 where
  pub success : Bool
  pub error : Option ErrorInfo
  pub result_variable : String
  pub final_data : Json
  pub final_text : Option String
  pub call_count : ℕ
  pub calls : List ProgramCallTrace
  pub variables : Fields

-- `key.startswith("_")`.
unfoldable pub is_private : String → Bool
unfolding strip_prefix
is_private key = is_some (strip_prefix "_" key)

unfoldable pub with_binding : String → Option Value → Fields → Fields
unfolding is_private set_field json_safe_value
with_binding key none fields = fields
with_binding key (some v) fields =
    if is_private key then fields else set_field key (json_safe_value v) fields

unfoldable pub bindings_in : Entries → List String → Fields → Fields
unfolding with_binding get_entry
bindings_in environment [] fields = fields
bindings_in environment (key ∷ keys) fields =
    bindings_in environment keys (with_binding key (get_entry environment key) fields)

-- `_serializable_bindings`.
unfoldable pub serializable_bindings : Entries → Option (List String) → Fields
unfolding bindings_in
serializable_bindings environment none = end
serializable_bindings environment (some keys) = bindings_in environment keys end

-- `data if isinstance(data, str) else None`.
abbrev pub text_of_value : Value → Option String
text_of_value (py_str text) = some text
text_of_value _ = none

abbrev pub or_value : Option Value → Value → Value
or_value none v = v
or_value (some v) _ = v

abbrev number_or_null : Option ℕ → Json
number_or_null none = null
number_or_null (some n) = nat n

abbrev message_of_syntax : Option String → String
message_of_syntax none = "Program could not be parsed"
message_of_syntax (some text) = if text == "" then "Program could not be parsed" else text

pub record Failure : Type 0 where
  pub code : String
  pub message : String
  pub details : Option Fields

abbrev runtime_failure : String → Failure
runtime_failure message = record {
  code = "program_runtime_error";
  message = message;
  details = none;
}

-- The `except` branches of `run`: code, message and details.
unfoldable failure_of : Raised → Failure
failure_of (issue code message details) = record {
  code = code;
  message = message;
  details = details;
}
failure_of (syntax_error message line offset) = record {
  code = "invalid_program";
  message = message_of_syntax message;
  details = some (field "line" (number_or_null line) (field "offset" (number_or_null offset) end));
}
failure_of (value_error message) = record {
  code = "invalid_program";
  message = message;
  details = none;
}
failure_of break_signal = runtime_failure ""
failure_of continue_signal = runtime_failure ""
failure_of (other_raised message) = runtime_failure message

abbrev is_retryable : String → Bool
is_retryable code = code == "tool_timeout" || code == "tool_invocation_failed"

abbrev program_error : Failure → ErrorInfo
program_error failure =
    error_info failure.code failure.message none (is_retryable failure.code) failure.details

-- Whether `_serializable_bindings` comes to a value that is nested too deeply.
unfoldable pub binding_too_deep : Python → String → Option Value → Bool
unfolding is_private
binding_too_deep py key none = false
binding_too_deep py key (some v) = if is_private key then false else py.too_deep v

unfoldable pub some_too_deep : Python → Entries → List String → Bool
unfolding binding_too_deep get_entry
some_too_deep py environment [] = false
some_too_deep py environment (key ∷ keys) =
    binding_too_deep py key (get_entry environment key) || some_too_deep py environment keys

unfoldable pub bindings_too_deep : Python → Entries → Option (List String) → Bool
unfolding some_too_deep
bindings_too_deep py environment none = false
bindings_too_deep py environment (some keys) = some_too_deep py environment keys

module _ {W : Type 0} (py : Python) where
  abbrev pub is_too_deep : Option (List String) → Value → Machine W → Bool
  is_too_deep return_variables final m =
      py.too_deep final || bindings_too_deep py m.environment return_variables

  -- `_failure_result`, which stands outside the `try`: its `RecursionError` leaves `run`.
  unfoldable pub failure_result :
      String → Option (List String) → Failure → Machine W → Result ProgramRunResult
  unfolding serializable_bindings json_safe_value get_entry bindings_too_deep
  failure_result result_variable return_variables failure m =
      let final = or_value (get_entry m.environment result_variable) py_none in
      if is_too_deep return_variables final m
      then err (other_error py.recursion_message)
      else ok (record {
        success = false;
        error = some (program_error failure);
        result_variable = result_variable;
        final_data = json_safe_value final;
        final_text = text_of_value final;
        call_count = length m.traces;
        calls = m.traces;
        variables = serializable_bindings m.environment return_variables;
      })

  -- What a run answers, from how its program ended and the machine it left.
  unfoldable pub run_result :
      String → Option (List String) → Outcome Value → Machine W → Result ProgramRunResult
  unfolding failure_result failure_of
  run_result result_variable return_variables (value last_value) m =
      let final = or_value (get_entry m.environment result_variable) last_value in
      if is_too_deep return_variables final m
      then failure_result result_variable return_variables (runtime_failure py.recursion_message) m
      else ok (record {
        success = true;
        error = none;
        result_variable = result_variable;
        final_data = json_safe_value final;
        final_text = text_of_value final;
        call_count = length m.traces;
        calls = m.traces;
        variables = serializable_bindings m.environment return_variables;
      })
  run_result result_variable return_variables (raised e) m =
      failure_result result_variable return_variables (failure_of e) m

abbrev context_entries : Option Fields → Entries
context_entries none = no_entries
context_entries (some fields) = entries_of_fields fields

module _ {W : Type 0} where
  -- `self` before the program starts.
  abbrev pub fresh_machine : Option Fields → W → Machine W
  fresh_machine initial_context w = record {
    traces = [];
    loop_iterations = 0;
    environment = context_entries initial_context;
    world = w;
  }

module _ {W : Type 0} (py : Python)
    (invoker : String → Entries → W → Result CallToolResult × W) where
  unfoldable pub exec_parsed : Parsed → Action W Value
  unfolding exec_block
  exec_parsed (parse_raised e) = throw e
  exec_parsed (parsed ast_nodes body) =
      if ltb max_ast_nodes ast_nodes
      then throw (
          budget_issue "Program exceeds max AST size of 500 nodes"
            (field "limit" (nat max_ast_nodes) (field "actual" (nat ast_nodes) end)))
      else exec_block py invoker body py_none

  -- The body of the `try`, up to the result.
  unfoldable pub exec_program : String → Action W Value
  unfolding exec_parsed string_length
  exec_program program =
      if ltb max_program_length (string_length program)
      then throw (
          budget_issue "Program exceeds max length of 12000 characters"
            (field "limit" (nat max_program_length) end))
      else exec_parsed (py.parse program)

  -- `run`.
  unfoldable pub run :
      String → Option Fields → String → Option (List String) → W → Result ProgramRunResult × W
  unfolding run_result exec_program
  run program initial_context result_variable return_variables w =
      let (o, m) = exec_program program (fresh_machine initial_context w) in
      (run_result py result_variable return_variables o m, m.world)

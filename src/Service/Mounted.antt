-- ===== src/Service/Mounted.antt =====
-- toolbox/service.py: the tools of the mounted runtimes under their dotted names, and `call_mounted_tool`.
-- The `try` and its `finally` are an attempt whose outcome is raised or returned after the counter is
-- lowered.
pub mod Names
pub mod Calls
use toolbox_mcp.Prelude.{
  ℕ, String, Bool, true, false, Option, none, some, List, [], ◌∷◌, if◌then◌else◌, ◌==◌, string_eq,
  leb, is_some, find_first, sort_by, strip_prefix, string_length, text_of, contains, map, ◌++◌,
}
use Prim.Native.String.{◌++◌ as append}
use toolbox_mcp.Json.{Fields, end, field, str}
use toolbox_mcp.Models.{
  Scope, Tool, ToolsetRecord, call, failure, ErrorInfo, Exception, other_error, str_of, is_timeout,
  Result, ok, err,
}
use toolbox_mcp.Validation.{string_le}
use toolbox_mcp.Host.{CallToolResult}
use toolbox_mcp.Effects.{Runtime, World, Exec, pure, raise, gets, attempt, lift, ◌>>=◌, ◌>>◌}
use toolbox_mcp.Transport.{
  live_runtime, mounted_in, disconnect, note_call_started, note_call_finished,
}
use toolbox_mcp.Transport
use toolbox_mcp.Service.Support.{get_record, record_runtime_failure, append_audit, audit_scope}

-- toolbox/models.py: `MountedTool`.
pub record MountedTool : Type 0 where
  pub namespace : String
  pub mounted_name : String
  pub source_name : String
  pub title : Option String
  pub description : Option String
  pub input_schema : Fields
  pub output_schema : Option Fields

-- `_mounted_tool_name`.
abbrev pub mounted_tool_name : String → String → String
mounted_tool_name namespace source_name = append namespace (append "." source_name)

abbrev pub mounted_tool : String → String → Tool → MountedTool
mounted_tool namespace mounted_name tool = record {
  namespace = namespace;
  mounted_name = mounted_name;
  source_name = tool.name;
  title = tool.title;
  description = tool.description;
  input_schema = tool.input_schema;
  output_schema = tool.output_schema;
}

-- The tools of one namespace; none if its runtime does not run.
unfoldable pub tools_of_runtime : String → Option Runtime → List MountedTool
tools_of_runtime namespace none = []
tools_of_runtime namespace (some runtime) =
    map (λ tool. mounted_tool namespace (mounted_tool_name namespace tool.name) tool) runtime.tools

unfoldable pub tools_mounted : World → List String → List MountedTool
unfolding tools_of_runtime
tools_mounted w [] = []
tools_mounted w (namespace ∷ rest) =
    tools_of_runtime namespace (live_runtime w namespace) ++ tools_mounted w rest

abbrev namespaces_or_all : World → Option String → List String
namespaces_or_all w none = mounted_in w
namespaces_or_all w (some namespace) = namespace ∷ []

-- `list_mounted_tools`.
unfoldable pub list_mounted_tools : World → Option String → List MountedTool
unfolding tools_mounted
list_mounted_tools w namespace =
    sort_by (λ a b. string_le a.mounted_name b.mounted_name)
      (tools_mounted w (namespaces_or_all w namespace))

-- `mounted.description or ""`.
abbrev text_or_empty : Option String → String
text_or_empty none = ""
text_or_empty (some text) = text

-- `list_mounted_tool_definitions`.
pub list_mounted_tool_definitions : World → List Tool
list_mounted_tool_definitions w =
    map
      (λ mounted. record {
        name = mounted.mounted_name;
        title = mounted.title;
        description = some (text_or_empty mounted.description);
        input_schema = mounted.input_schema;
        output_schema = mounted.output_schema;
      })
      (list_mounted_tools w none)

-- The tool of a name in one namespace, if its runtime runs and has it.
unfoldable pub tool_in : Option Runtime → String → Option Tool
tool_in none source_name = none
tool_in (some runtime) source_name = find_first (λ tool. tool.name == source_name) runtime.tools

unfoldable pub resolved_tool :
    String → String → Option Tool → Option MountedTool → Option MountedTool
resolved_tool namespace mounted_name none rest = rest
resolved_tool namespace mounted_name (some tool) rest =
    some (mounted_tool namespace mounted_name tool)

unfoldable pub resolve_after :
    World → String → String → Option String → Option MountedTool → Option MountedTool
unfolding resolved_tool tool_in
resolve_after w namespace mounted_name none rest = rest
resolve_after w namespace mounted_name (some source_name) rest =
    resolved_tool namespace mounted_name (tool_in (live_runtime w namespace) source_name) rest

-- The first of the namespaces that is a prefix of the name and has the tool.
unfoldable pub resolve_in : World → String → List String → Option MountedTool
unfolding resolve_after
resolve_in w mounted_name [] = none
resolve_in w mounted_name (namespace ∷ rest) =
    resolve_after w namespace mounted_name (strip_prefix (append namespace ".") mounted_name)
      (resolve_in w mounted_name rest)

-- `sorted(…, key=len, reverse=True)`: the longest first.
abbrev pub longest_first : List String → List String
longest_first = sort_by (λ a b. leb (string_length b) (string_length a))

-- `_resolve_mounted_tool`.
unfoldable pub resolve_mounted_tool : World → String → Option MountedTool
unfolding resolve_in
resolve_mounted_tool w mounted_name = resolve_in w mounted_name (longest_first (mounted_in w))

-- `is_mounted_tool`.
unfoldable pub is_mounted_tool : String → Exec Bool
unfolding resolve_mounted_tool
is_mounted_tool mounted_name = gets (λ w. is_some (resolve_mounted_tool w mounted_name))

abbrev unknown_mounted_tool : String → Exception
unknown_mounted_tool mounted_name =
    other_error (text_of ("Unknown mounted tool: " ∷ mounted_name ∷ []))

abbrev call_code : Exception → String
call_code e = if is_timeout e then "call_timeout" else "transport_failed"

abbrev call_stale_reason : Exception → String
call_stale_reason e = if is_timeout e then "call_timeout" else "call_failed"

-- The `except` branch.
unfoldable pub call_failed : String → String → Exception → Exec CallToolResult
call_failed namespace mounted_name e = do
  disconnect namespace
  error ←
      record_runtime_failure namespace (call_code e) (str_of e) (call_stale_reason e)
        (some (field "mounted_tool" (str mounted_name) end))
  found ← get_record namespace
  append_audit call failure (some namespace) (audit_scope found none)
      (field "mounted_tool" (str mounted_name)
        (field "stale_reason" (str (call_stale_reason e)) end))
      error
  raise e

unfoldable pub call_ended : String → String → Result CallToolResult → Exec CallToolResult
unfolding call_failed
call_ended namespace mounted_name (ok result) = pure result
call_ended namespace mounted_name (err e) = call_failed namespace mounted_name e

-- The `try` statement without its `finally`.
unfoldable pub call_guarded : MountedTool → String → Fields → Exec CallToolResult
unfolding call_ended
call_guarded mounted mounted_name arguments = do
  result ← attempt (Transport.call_tool mounted.namespace mounted.source_name arguments)
  call_ended mounted.namespace mounted_name result

unfoldable pub call_started : MountedTool → String → Fields → Exec CallToolResult
unfolding call_guarded
call_started mounted mounted_name arguments = do
  note_call_started mounted.namespace
  outcome ← attempt (call_guarded mounted mounted_name arguments)
  note_call_finished mounted.namespace
  lift outcome

-- Under the lock of the namespace the name is resolved again.
unfoldable pub call_locked : String → Fields → Option MountedTool → Exec CallToolResult
unfolding call_started
call_locked mounted_name arguments none = raise (unknown_mounted_tool mounted_name)
call_locked mounted_name arguments (some mounted) = call_started mounted mounted_name arguments

unfoldable pub call_resolved : String → Fields → Option MountedTool → Exec CallToolResult
unfolding call_locked resolve_mounted_tool
call_resolved mounted_name arguments none = raise (unknown_mounted_tool mounted_name)
call_resolved mounted_name arguments (some mounted) = do
  again ← gets (λ w. resolve_mounted_tool w mounted_name)
  call_locked mounted_name arguments again

-- `call_mounted_tool`.
unfoldable pub call_mounted_tool : String → Fields → Exec CallToolResult
unfolding call_resolved resolve_mounted_tool
call_mounted_tool mounted_name arguments = do
  mounted ← gets (λ w. resolve_mounted_tool w mounted_name)
  call_resolved mounted_name arguments mounted

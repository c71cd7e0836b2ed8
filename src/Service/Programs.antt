-- ===== src/Service/Programs.antt =====
-- toolbox/service.py: `run_tool_program`, without the contract summaries that a caller may ask for.
use toolbox_mcp.Prelude.{String, Option, List}
use toolbox_mcp.Json.{Fields}
use toolbox_mcp.Models.{Result}
use toolbox_mcp.Host.{Host, CallToolResult}
use toolbox_mcp.Effects.{World, Exec}
use toolbox_mcp.Service.Mounted.{call_mounted_tool}
use toolbox_mcp.Program.Values.{Entries}
use toolbox_mcp.Program.Python.{Python}
use toolbox_mcp.Program.Run.{ProgramRunResult, run}

-- `self.call_mounted_tool` as a tool invoker.
abbrev mounted_invoker : Python → Host → String → Entries → World → Result CallToolResult × World
mounted_invoker py host tool arguments w =
    call_mounted_tool tool (py.wire_arguments arguments) host w

-- `run_tool_program`.
unfoldable pub run_tool_program :
    Python → String → Option Fields → String → Option (List String) → Exec ProgramRunResult
unfolding run
run_tool_program py program initial_context result_variable return_variables host w =
    run py (mounted_invoker py host) program initial_context result_variable return_variables w

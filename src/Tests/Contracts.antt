-- ===== src/Tests/Contracts.antt =====
-- The difference of contracts at a runtime with one tool, where the previous snapshot has none.
use toolbox_mcp.Prelude.{[]}
use toolbox_mcp.Models.{SchemaSnapshot}
use toolbox_mcp.Effects.{World}
use toolbox_mcp.Registry.{replace_schema_snapshot}
use toolbox_mcp.Service.Steps.{after}
use toolbox_mcp.Tests.{demo_snapshot}
use toolbox_mcp.Tests.Calls.{serving_world}

abbrev empty_snapshot : SchemaSnapshot
empty_snapshot = record demo_snapshot { tool_count = 0; tools = [] }

abbrev snapshot_world : World
snapshot_world = after (replace_schema_snapshot empty_snapshot) serving_world

-- The empty snapshot is the previous one.
abbrev contracts_world : World
contracts_world = after (replace_schema_snapshot demo_snapshot) snapshot_world

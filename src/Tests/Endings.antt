-- ===== src/Tests/Endings.antt =====
-- The deactivation and the unregistration of a toolset that runs.
use toolbox_mcp.Prelude.{true, false}
use toolbox_mcp.Json.{Fields}
use toolbox_mcp.Models.{session, scope_eq}
use toolbox_mcp.Effects.{World}
use toolbox_mcp.Service.Support.{Report, empty_report}
use toolbox_mcp.Service.Deactivate.{deactivate_one}
use toolbox_mcp.Service.Unregister.{unregister_one}
use toolbox_mcp.Tests.Calls.{serving_host, serving_world}

abbrev no_report : Report Fields
no_report = empty_report

abbrev deactivated : World
deactivated = (deactivate_one session false "demo" no_report serving_host serving_world).1

abbrev unregistered : World
unregistered = (unregister_one true "demo" no_report serving_host serving_world).1

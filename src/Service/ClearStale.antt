-- ===== src/Service/ClearStale.antt =====
-- toolbox/service.py: `clear_stale_toolsets`.
pub mod Steps
use toolbox_mcp.Prelude.{
  String, Bool, true, false, not, ◌&&◌, ◌||◌, Option, none, some, List, [], ◌∷◌, if◌then◌else◌,
  is_empty, is_some,
}
use toolbox_mcp.Json.{end, field}
use toolbox_mcp.Models.{
  ToolsetRecord, TransportState, inactive, connected, failed_state, HealthStatus, healthy,
  health_stale, health_failed, clear_stale, success,
}
use toolbox_mcp.Effects.{Runtime, Exec, pure, ◌>>=◌, ◌>>◌}
use toolbox_mcp.Transport.{runtime_for}
use toolbox_mcp.Service.Support.{
  Report, Response, empty_report, add_done, add_skipped, answer, for_each, unknown_toolset,
  skip_entry, chosen, get_record, save_record, append_audit, fail_with, clear_health_state,
}
use toolbox_mcp.Service.Activate.{optional_json}

-- toolbox/models.py: `ClearStaleResult`.
pub record ClearStaleResult : Type 0 where
  pub namespace : String
  pub transport_state : TransportState
  pub cleared_stale_reason : Option String

-- `record.last_health_status in {HealthStatus.STALE, HealthStatus.FAILED}`.
abbrev pub is_unhealthy : Option HealthStatus → Bool
is_unhealthy (some health_stale) = true
is_unhealthy (some health_failed) = true
is_unhealthy _ = false

-- Nothing is there to clear.
unfoldable pub is_clear : ToolsetRecord → Bool
is_clear r =
    not r.stale
    && (not (is_unhealthy r.last_health_status)
        && (not (is_some r.last_error) && not (is_some r.last_health_error)))

unfoldable pub cleared_record : TransportState → ToolsetRecord → ToolsetRecord
cleared_record state r =
    record (clear_health_state
      (record r { stale = false; stale_reason = none; last_error = none })) {
        transport_state = state;
      }

clear_saved :
    String
    → Report ClearStaleResult
    → Option String
    → ToolsetRecord
    → Exec (Report ClearStaleResult)
clear_saved namespace report reason r = do
  save_record r
  append_audit clear_stale success (some namespace) none
      (field "cleared_stale_reason" (optional_json reason) end) none
  pure (
      add_done
        (record {
          namespace = namespace;
          transport_state = r.transport_state;
          cleared_stale_reason = reason;
        })
        report)

abbrev mounted_state : Option Runtime → TransportState
mounted_state none = failed_state
mounted_state (some _) = connected

clear_found :
    String → Report ClearStaleResult → Option ToolsetRecord → Exec (Report ClearStaleResult)
unfolding clear_saved
clear_found namespace report none =
    fail_with clear_stale namespace none (unknown_toolset namespace) report
clear_found namespace report (some r) =
    if is_clear r
    then pure (add_skipped (skip_entry namespace "not_stale" end) report)
    else if not (is_empty r.loaded_scopes)
    then (do
      runtime ← runtime_for namespace
      clear_saved namespace report r.stale_reason (cleared_record (mounted_state runtime) r))
    else clear_saved namespace report r.stale_reason (cleared_record inactive r)

pub clear_one : String → Report ClearStaleResult → Exec (Report ClearStaleResult)
unfolding clear_found
clear_one namespace report = do found ← get_record namespace; clear_found namespace report found

pub clear_stale_toolsets : Option (List String) → Exec (Response ClearStaleResult)
clear_stale_toolsets namespaces = do
  candidates ← chosen namespaces (λ r. r.stale || is_unhealthy r.last_health_status)
  report ← for_each clear_one candidates empty_report
  pure (answer report)

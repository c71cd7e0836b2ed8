-- ===== src/Service/Unregister.antt =====
-- toolbox/service.py: `unregister_toolsets`. The table of locks, which it prunes, is not modelled.
pub mod Steps
pub mod Outcome
use toolbox_mcp.Prelude.{
  ℕ, String, Bool, true, false, not, ◌&&◌, Option, none, some, List, [], ◌∷◌, if◌then◌else◌,
  is_empty, nat_beq, text_of, show_nat,
}
use toolbox_mcp.Json.{Fields, end, field, str, bool, nat, strings}
use toolbox_mcp.Models.{ToolsetRecord, unregister, success, failure, ErrorInfo}
use toolbox_mcp.ScopeManager.{scope_values}
use toolbox_mcp.Registry.{delete_toolset, delete_schema_snapshot, delete_previous_schema_snapshot}
use toolbox_mcp.Effects.{Exec, pure, mutate, ◌>>=◌, ◌>>◌}
use toolbox_mcp.Transport.{disconnect, in_flight_calls}
use toolbox_mcp.Service.Support.{
  Report, Response, empty_report, add_done, add_skipped, answer, for_each, error_info,
  unknown_toolset, skip_entry, get_record, append_audit, fail_with,
}

pub active_error : String → ToolsetRecord → ErrorInfo
active_error namespace r =
    error_info "toolset_active" (text_of ("Cannot unregister active toolset: " ∷ namespace ∷ []))
      (some namespace) true
      (some (field "loaded_scopes" (strings (scope_values r.loaded_scopes)) end))

pub in_flight_error : String → ℕ → ErrorInfo
in_flight_error namespace in_flight =
    error_info "in_flight_calls"
      (text_of (
        "Cannot force-unregister "
        ∷ namespace
        ∷ " while "
        ∷ show_nat in_flight
        ∷ " calls are in flight."
        ∷ []))
      (some namespace) true (some (field "in_flight_calls" (nat in_flight) end))

-- Delete the two snapshots and the record, and audit it.
unregister_deleted : Bool → Bool → String → Report Fields → Exec (Report Fields)
unregister_deleted force disconnected namespace report = do
  mutate (delete_schema_snapshot namespace)
  mutate (delete_previous_schema_snapshot namespace)
  mutate (delete_toolset namespace)
  append_audit unregister success (some namespace) none
      (field "force" (bool force) (field "disconnected_runtime" (bool disconnected) end)) none
  pure (add_done (field "namespace" (str namespace) end) report)

unregister_counted : Bool → String → Report Fields → ℕ → Exec (Report Fields)
unfolding unregister_deleted in_flight_error
unregister_counted force namespace report in_flight =
    if not (nat_beq in_flight 0)
    then fail_with unregister namespace none (in_flight_error namespace in_flight) report
    else (disconnect namespace >>= λ _.
        unregister_deleted force true namespace
          (add_skipped (skip_entry namespace "disconnected_before_unregistration" end) report))

unregister_found : Bool → String → Report Fields → Option ToolsetRecord → Exec (Report Fields)
unfolding unregister_counted active_error
unregister_found force namespace report none =
    fail_with unregister namespace none (unknown_toolset namespace) report
unregister_found force namespace report (some r) =
    if not (is_empty r.loaded_scopes) && not force
    then fail_with unregister namespace none (active_error namespace r) report
    else if not (is_empty r.loaded_scopes) && force
    then (do
      in_flight ← in_flight_calls namespace
      unregister_counted force namespace report in_flight)
    else unregister_deleted force false namespace report

pub unregister_one : Bool → String → Report Fields → Exec (Report Fields)
unfolding unregister_found
unregister_one force namespace report = do
  found ← get_record namespace
  unregister_found force namespace report found

pub unregister_toolsets : List String → Bool → Exec (Response Fields)
unregister_toolsets namespaces force = do
  report ← for_each (unregister_one force) namespaces empty_report
  pure (answer report)

-- ===== src/Service/Deactivate.antt =====
-- toolbox/service.py: `deactivate_toolsets` and `mark_toolset_stale`.
pub mod Steps
pub mod Outcome
use toolbox_mcp.Prelude.{
  ℕ, String, Bool, true, false, not, ◌&&◌, Option, none, some, List, [], ◌∷◌, if◌then◌else◌,
  is_empty, contains, nat_beq, text_of, show_nat,
}
use toolbox_mcp.Json.{Fields, end, field, str, bool, nat, strings}
use toolbox_mcp.Models.{
  Scope, scope_value, scope_eq, parse_scope, ToolsetRecord, inactive, stale_state, deactivate,
  success, failure, ErrorInfo,
}
use toolbox_mcp.ScopeManager.{remove_scope, remove_recoverable_scope, scope_values}
use toolbox_mcp.Effects.{Exec, pure, ◌>>=◌, ◌>>◌}
use toolbox_mcp.Transport.{disconnect, in_flight_calls}
use toolbox_mcp.Service.Support.{
  Report, Response, empty_report, add_done, add_skipped, answer, refused, for_each, error_info,
  unknown_toolset, invalid_scope, skip_entry, get_record, save_record, append_audit, fail_with,
}

pub in_flight_error : String → ℕ → ErrorInfo
in_flight_error namespace in_flight =
    error_info "in_flight_calls"
      (text_of (
        "Cannot deactivate "
        ∷ namespace
        ∷ " while "
        ∷ show_nat in_flight
        ∷ " calls are in flight."
        ∷ []))
      (some namespace) true (some (field "in_flight_calls" (nat in_flight) end))

-- Both scope lists lose the scope.
unfoldable pub released_record : Scope → ToolsetRecord → ToolsetRecord
released_record scope r = (remove_recoverable_scope (remove_scope r scope).1 scope).1

-- The last scope is gone.
unfoldable pub inactive_record : ToolsetRecord → ToolsetRecord
inactive_record r = record r {
  transport_state = inactive;
  stale = false;
  stale_reason = none;
  last_error = none;
}

-- Save, audit and report a release.
deactivate_saved : Scope → Bool → String → Report Fields → ToolsetRecord → Exec (Report Fields)
deactivate_saved scope force namespace report r = do
  save_record r
  append_audit deactivate success (some namespace) (some scope)
      (field "force" (bool force)
        (field "remaining_scopes" (strings (scope_values r.loaded_scopes)) end))
      none
  pure (
      add_done
        (field "namespace" (str namespace) (
          field "scope" (str (scope_value scope))
            (field "remaining_scopes" (strings (scope_values r.loaded_scopes)) end)))
        report)

deactivate_released : Scope → Bool → String → Report Fields → ToolsetRecord → Exec (Report Fields)
unfolding deactivate_saved
deactivate_released scope force namespace report r =
    if is_empty r.loaded_scopes
    then (disconnect namespace >>= λ _.
        deactivate_saved scope force namespace report (inactive_record r))
    else deactivate_saved scope force namespace report r

deactivate_counted :
    Scope → Bool → String → Report Fields → ToolsetRecord → ℕ → Exec (Report Fields)
unfolding deactivate_released in_flight_error
deactivate_counted scope force namespace report r in_flight =
    if not (nat_beq in_flight 0) && not force
    then fail_with deactivate namespace (some scope) (in_flight_error namespace in_flight) report
    else deactivate_released scope force namespace report (released_record scope r)

deactivate_found :
    Scope → Bool → String → Report Fields → Option ToolsetRecord → Exec (Report Fields)
unfolding deactivate_counted
deactivate_found scope force namespace report none =
    fail_with deactivate namespace (some scope) (unknown_toolset namespace) report
deactivate_found scope force namespace report (some r) =
    if not (contains r.loaded_scopes scope)
    then pure (
        add_skipped
          (skip_entry namespace "not_active" (field "scope" (str (scope_value scope)) end)) report)
    else do
      in_flight ← in_flight_calls namespace
      deactivate_counted scope force namespace report r in_flight

pub deactivate_one : Scope → Bool → String → Report Fields → Exec (Report Fields)
unfolding deactivate_found
deactivate_one scope force namespace report = do
  found ← get_record namespace
  deactivate_found scope force namespace report found

deactivate_parsed : List String → String → Bool → Option Scope → Exec (Response Fields)
deactivate_parsed namespaces text force none = do
  append_audit deactivate failure none none end (some (invalid_scope text))
  pure (refused (invalid_scope text))
deactivate_parsed namespaces text force (some scope) = do
  report ← for_each (deactivate_one scope force) namespaces empty_report
  pure (answer report)

pub deactivate_toolsets : List String → String → Bool → Exec (Response Fields)
unfolding deactivate_parsed
deactivate_toolsets namespaces text force =
    deactivate_parsed namespaces text force (parse_scope text)

mark_found : String → Option ToolsetRecord → Exec Bool
mark_found reason none = pure false
mark_found reason (some r) = do
  save_record (record r { stale = true; stale_reason = some reason; transport_state = stale_state })
  pure true

-- `mark_toolset_stale`.
pub mark_toolset_stale : String → String → Exec Bool
unfolding mark_found
mark_toolset_stale namespace reason = do found ← get_record namespace; mark_found reason found

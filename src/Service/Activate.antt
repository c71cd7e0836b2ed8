-- ===== src/Service/Activate.antt =====
-- toolbox/service.py: `activate_toolsets`. An exception inside the `try` leaves the record as it was
-- mutated up to then: before the runtime is swapped in it is `connecting`, afterwards it is the activated
-- one; so the `try` stands here as two attempts.
pub mod Steps
use toolbox_mcp.Prelude.{
  ℕ, String, Bool, true, false, not, ◌&&◌, Option, none, some, List, [], ◌∷◌, if◌then◌else◌,
  is_empty, contains, text_of,
}
use toolbox_mcp.Json.{Fields, end, field, str, bool, null, nat, strings, Json}
use toolbox_mcp.Models.{
  Scope, scope_value, scope_eq, parse_scope, ToolsetRecord, SchemaSnapshot, connecting,
  failed_state, activate, success, failure, Instant, Exception, str_of, Result, ok, err, ErrorInfo,
}
use toolbox_mcp.ScopeManager.{supports_scope, add_scope, add_recoverable_scope, scope_values}
use toolbox_mcp.Effects.{Runtime, Exec, pure, attempt, ◌>>=◌, ◌>>◌, utc_now}
use toolbox_mcp.Transport.{runtime_for}
use toolbox_mcp.Service.Support.{
  Report, Response, empty_report, add_done, add_skipped, add_failed, answer, refused, for_each,
  error_info, unknown_toolset, invalid_scope, skip_entry, get_record, save_record, save_snapshot,
  append_audit, fail_with, refreshed_record, resumed_state, open_and_mount, count_or_tools,
  hash_or_runtime,
}

-- toolbox/models.py: `ActivationResult`.
pub record ActivationResult : Type 0 where
  pub namespace : String
  pub scope : Scope
  pub tool_count : ℕ
  pub schema_hash : String

abbrev pub optional_json : Option String → Json
optional_json none = null
optional_json (some text) = str text

unsupported_scope : String → Scope → ToolsetRecord → ErrorInfo
unsupported_scope namespace scope r =
    error_info "unsupported_scope"
      (text_of ("Toolset " ∷ namespace ∷ " does not support scope: " ∷ scope_value scope ∷ []))
      (some namespace) false
      (some (field "supported_scopes" (strings (scope_values r.supported_scopes)) end))

-- The record after an activation that reuses a running runtime.
unfoldable pub reused_record : Scope → Instant → ToolsetRecord → ToolsetRecord
reused_record scope now r =
    let r' = (add_recoverable_scope (add_scope r scope).1 scope).1 in
    record r' { transport_state = resumed_state r'; last_activated_at = some now }

activate_reusing :
    Scope
    → String
    → Report ActivationResult
    → ToolsetRecord
    → Runtime
    → Exec (Report ActivationResult)
activate_reusing scope namespace report r runtime = do
  now ← utc_now
  let r' = reused_record scope now r
  save_record r'
  append_audit activate success (some namespace) (some scope)
      (field "tool_count" (nat (count_or_tools r' runtime)) (
        field "schema_hash" (optional_json r'.schema_hash) (
          field "reused_runtime" (bool true)
            (field "loaded_scopes" (strings (scope_values r'.loaded_scopes)) end))))
      none
  hash ← hash_or_runtime namespace runtime r'.schema_hash
  pure (
      add_done
        (record {
          namespace = namespace;
          scope = scope;
          tool_count = count_or_tools r' runtime;
          schema_hash = hash;
        })
        report)

-- The `except` branch, on the record as the `try` left it.
activate_failed :
    Scope
    → String
    → Report ActivationResult
    → ToolsetRecord
    → Exception
    → Exec (Report ActivationResult)
activate_failed scope namespace report r e = do
  let error = error_info "transport_failed" (str_of e) (some namespace) true none
  save_record (record r { transport_state = failed_state; last_error = some error })
  fail_with activate namespace (some scope) error report

-- The record after an activation that opened a runtime.
unfoldable pub activated_record : Scope → Instant → SchemaSnapshot → ToolsetRecord → ToolsetRecord
activated_record scope now snapshot r =
    let r' = record (refreshed_record r.schema_hash snapshot r) {
      last_activated_at = some now;
      last_refreshed_at = some now;
      last_known_good_at = some now;
    } in
    (add_recoverable_scope (add_scope r' scope).1 scope).1

activate_saved :
    Scope
    → String
    → Report ActivationResult
    → ToolsetRecord
    → SchemaSnapshot
    → Result (Unit {0})
    → Exec (Report ActivationResult)
unfolding activate_failed
activate_saved scope namespace report r snapshot (err e) =
    activate_failed scope namespace report r e
activate_saved scope namespace report r snapshot (ok _) = pure (
    add_done
      (record {
        namespace = namespace;
        scope = scope;
        tool_count = snapshot.tool_count;
        schema_hash = snapshot.schema_hash;
      })
      report)

activate_opened :
    Scope
    → String
    → Report ActivationResult
    → ToolsetRecord
    → Result SchemaSnapshot
    → Exec (Report ActivationResult)
unfolding activate_saved
activate_opened scope namespace report r (err e) = activate_failed scope namespace report r e
activate_opened scope namespace report r (ok snapshot) = do
  now ← utc_now
  let r' = activated_record scope now snapshot r
  saved ← attempt (do
    save_record r'
    save_snapshot snapshot
    append_audit activate success (some namespace) (some scope)
        (field "tool_count" (nat snapshot.tool_count)
          (field "schema_hash" (str snapshot.schema_hash) end))
        none)
  activate_saved scope namespace report r' snapshot saved

activate_connecting :
    Scope → String → Report ActivationResult → ToolsetRecord → Exec (Report ActivationResult)
unfolding activate_opened
activate_connecting scope namespace report r = do
  let r' = record r { transport_state = connecting }
  opened ← attempt (do save_record r'; open_and_mount namespace r')
  activate_opened scope namespace report r' opened

activate_unmounted :
    Scope → Bool → String → Report ActivationResult → ToolsetRecord → Exec (Report ActivationResult)
unfolding activate_connecting
activate_unmounted scope if_not_loaded namespace report r =
    if if_not_loaded && contains r.loaded_scopes scope
    then pure (
        add_skipped
          (skip_entry namespace "already_active" (field "scope" (str (scope_value scope)) end))
          report)
    else activate_connecting scope namespace report r

activate_supported :
    Scope
    → Bool
    → String
    → Report ActivationResult
    → ToolsetRecord
    → Option Runtime
    → Exec (Report ActivationResult)
unfolding activate_unmounted activate_reusing
activate_supported scope if_not_loaded namespace report r none =
    activate_unmounted scope if_not_loaded namespace report r
activate_supported scope if_not_loaded namespace report r (some runtime) =
    if not (is_empty r.loaded_scopes) && not (contains r.loaded_scopes scope)
    then activate_reusing scope namespace report r runtime
    else activate_unmounted scope if_not_loaded namespace report r

activate_found :
    Scope
    → Bool
    → String
    → Report ActivationResult
    → Option ToolsetRecord
    → Exec (Report ActivationResult)
unfolding activate_supported unsupported_scope
activate_found scope if_not_loaded namespace report none =
    fail_with activate namespace (some scope) (unknown_toolset namespace) report
activate_found scope if_not_loaded namespace report (some r) =
    if not (supports_scope r scope)
    then fail_with activate namespace (some scope) (unsupported_scope namespace scope r) report
    else do
      runtime ← runtime_for namespace
      activate_supported scope if_not_loaded namespace report r runtime

-- The body of the loop, for one namespace.
pub activate_one : Scope → Bool → String → Report ActivationResult → Exec (Report ActivationResult)
unfolding activate_found
activate_one scope if_not_loaded namespace report = do
  found ← get_record namespace
  activate_found scope if_not_loaded namespace report found

activate_parsed : List String → String → Bool → Option Scope → Exec (Response ActivationResult)
activate_parsed namespaces text if_not_loaded none = do
  append_audit activate failure none none end (some (invalid_scope text))
  pure (refused (invalid_scope text))
activate_parsed namespaces text if_not_loaded (some scope) = do
  report ← for_each (activate_one scope if_not_loaded) namespaces empty_report
  pure (answer report)

pub activate_toolsets : List String → String → Bool → Exec (Response ActivationResult)
unfolding activate_parsed
activate_toolsets namespaces text if_not_loaded =
    activate_parsed namespaces text if_not_loaded (parse_scope text)

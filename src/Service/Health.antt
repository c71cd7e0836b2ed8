-- ===== src/Service/Health.antt =====
-- toolbox/service.py: `check_toolset_health`.
pub mod Steps
use toolbox_mcp.Prelude.{
  ℕ, String, Bool, true, false, not, Option, none, some, List, [], ◌∷◌, if◌then◌else◌, ◌==◌,
  string_eq, is_empty, length, text_of,
}
use toolbox_mcp.Json.{Fields, end, field, str, nat}
use toolbox_mcp.Models.{
  Scope, parse_scope, ToolSchema, ToolsetRecord, HealthStatus, healthy, health_stale, health_failed,
  health_check, success, failure, ErrorInfo, Exception, str_of, is_timeout, Result, ok, err,
}
use toolbox_mcp.Validation.{inventory_hash}
use toolbox_mcp.Effects.{Runtime, Exec, pure, attempt, compute, ◌>>=◌, ◌>>◌}
use toolbox_mcp.Transport.{runtime_for, probe_runtime, disconnect}
use toolbox_mcp.Service.Support.{
  Report, Response, HealthCheckResult, empty_report, add_done, add_skipped, answer, refused,
  for_each, unknown_toolset, invalid_scope, skip_entry, chosen, get_record, append_audit, fail_with,
  audit_scope, record_runtime_failure, record_health_observation,
}
use toolbox_mcp.Service.Activate.{optional_json}
use toolbox_mcp.Service.Refresh.{scope_missing, scope_text}

-- Record an unhealthy observation, audit it and report it: the three failing branches.
health_failed_with :
    Option Scope
    → String
    → Report HealthCheckResult
    → ToolsetRecord
    → HealthStatus
    → Option String
    → Option ℕ
    → Fields
    → Option ErrorInfo
    → Exec (Report HealthCheckResult)
health_failed_with scope namespace report r status hash count details error = do
  result ← record_health_observation namespace status hash count error
  append_audit health_check failure (some namespace) (audit_scope (some r) scope) details error
  pure (add_done result report)

health_unmounted :
    Option Scope
    → String
    → Report HealthCheckResult
    → ToolsetRecord
    → Exec (Report HealthCheckResult)
unfolding health_failed_with
health_unmounted scope namespace report r = do
  error ←
      record_runtime_failure namespace "runtime_not_connected"
        (text_of ("Toolset " ∷ namespace ∷ " has active scopes but no connected runtime." ∷ []))
        "healthcheck_runtime_missing" none
  health_failed_with scope namespace report r health_failed none none
      (field "stale_reason" (str "healthcheck_runtime_missing") end) error

-- The error code of a failed probe, which is its stale reason too.
abbrev probe_code : Exception → String
probe_code e = if is_timeout e then "healthcheck_timeout" else "healthcheck_failed"

health_probe_failed :
    Option Scope
    → String
    → Report HealthCheckResult
    → ToolsetRecord
    → Exception
    → Exec (Report HealthCheckResult)
health_probe_failed scope namespace report r e = do
  disconnect namespace
  error ← record_runtime_failure namespace (probe_code e) (str_of e) (probe_code e) none
  health_failed_with scope namespace report r health_failed none none
      (field "stale_reason" (str (probe_code e)) end) error

-- `record.schema_hash is not None and observed_hash != record.schema_hash`.
abbrev pub drifted : Option String → String → Bool
drifted none observed = false
drifted (some cached) observed = not (observed == cached)

health_drifted :
    Option Scope
    → String
    → Report HealthCheckResult
    → ToolsetRecord
    → String
    → ℕ
    → Exec (Report HealthCheckResult)
health_drifted scope namespace report r observed count = do
  let hashes =
      field "cached_schema_hash" (optional_json r.schema_hash)
        (field "observed_schema_hash" (str observed) end)
  error ←
      record_runtime_failure namespace "healthcheck_schema_changed"
        (text_of (
          "Toolset " ∷ namespace ∷ " reported a schema hash that differs from the cached contract."
          ∷ []))
        "healthcheck_schema_changed" (some hashes)
  health_failed_with scope namespace report r health_stale (some observed) (some count)
      (field "stale_reason" (str "healthcheck_schema_changed") hashes) error

health_passed :
    Option Scope
    → String
    → Report HealthCheckResult
    → ToolsetRecord
    → String
    → ℕ
    → Exec (Report HealthCheckResult)
health_passed scope namespace report r observed count = do
  result ← record_health_observation namespace healthy (some observed) (some count) none
  append_audit health_check success (some namespace) (audit_scope (some r) scope)
      (field "observed_schema_hash" (str observed) (field "observed_tool_count" (nat count) end))
      none
  pure (add_done result report)

health_probed :
    Option Scope
    → String
    → Report HealthCheckResult
    → ToolsetRecord
    → Result (List ToolSchema)
    → Exec (Report HealthCheckResult)
unfolding health_probe_failed health_drifted health_passed
health_probed scope namespace report r (err e) = health_probe_failed scope namespace report r e
health_probed scope namespace report r (ok tools) = do
  observed ← compute (λ host. inventory_hash host tools)
  if drifted r.schema_hash observed
      then health_drifted scope namespace report r observed (length tools)
      else health_passed scope namespace report r observed (length tools)

health_mounted :
    Option Scope
    → String
    → Report HealthCheckResult
    → ToolsetRecord
    → Option Runtime
    → Exec (Report HealthCheckResult)
unfolding health_probed health_unmounted
health_mounted scope namespace report r none = health_unmounted scope namespace report r
health_mounted scope namespace report r (some runtime) = do
  probe ← attempt (probe_runtime namespace)
  health_probed scope namespace report r probe

health_found :
    Option Scope
    → String
    → Report HealthCheckResult
    → Option ToolsetRecord
    → Exec (Report HealthCheckResult)
unfolding health_mounted
health_found scope namespace report none =
    fail_with health_check namespace scope (unknown_toolset namespace) report
health_found scope namespace report (some r) =
    if is_empty r.loaded_scopes
    then pure (add_skipped (skip_entry namespace "not_active" end) report)
    else if scope_missing scope r
    then pure (
        add_skipped
          (skip_entry namespace "scope_not_active" (field "scope" (str (scope_text scope)) end))
          report)
    else do runtime ← runtime_for namespace; health_mounted scope namespace report r runtime

pub health_one : Option Scope → String → Report HealthCheckResult → Exec (Report HealthCheckResult)
unfolding health_found
health_one scope namespace report = do
  found ← get_record namespace
  health_found scope namespace report found

health_chosen : Option (List String) → Option Scope → Exec (Response HealthCheckResult)
health_chosen namespaces scope = do
  candidates ← chosen namespaces (λ r. not (is_empty r.loaded_scopes))
  report ← for_each (health_one scope) candidates empty_report
  pure (answer report)

health_parsed : Option (List String) → String → Option Scope → Exec (Response HealthCheckResult)
unfolding health_chosen
health_parsed namespaces text none = do
  append_audit health_check failure none none end (some (invalid_scope text))
  pure (refused (invalid_scope text))
health_parsed namespaces text (some scope) = health_chosen namespaces (some scope)

pub check_toolset_health : Option (List String) → Option String → Exec (Response HealthCheckResult)
unfolding health_parsed
check_toolset_health namespaces none = health_chosen namespaces none
check_toolset_health namespaces (some text) = health_parsed namespaces text (parse_scope text)

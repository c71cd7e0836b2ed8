-- ===== src/Service/Restore.antt =====
-- toolbox/service.py: `restore_toolsets` and `maybe_restore_on_startup`. As in an activation, the `try`
-- stands here as two attempts, before and after the runtime is swapped in.
pub mod Steps
use toolbox_mcp.Prelude.{
  ℕ, String, Bool, true, false, not, ◌&&◌, Option, none, some, List, [], ◌∷◌, if◌then◌else◌,
  is_empty, contains, filter_by,
}
use toolbox_mcp.Json.{Fields, end, field, str, bool, strings}
use toolbox_mcp.Models.{
  Scope, scope_eq, ToolsetRecord, SchemaSnapshot, connecting, failed_state, restore, success,
  failure, Instant, Exception, str_of, Result, ok, err,
}
use toolbox_mcp.ScopeManager.{recovery_scopes, add_scopes, scope_values}
use toolbox_mcp.Effects.{Runtime, Exec, pure, attempt, ◌>>=◌, ◌>>◌, utc_now}
use toolbox_mcp.Transport.{runtime_for}
use toolbox_mcp.Service.Support.{
  Report, Response, empty_report, add_done, add_skipped, add_failed, answer, for_each, error_info,
  unknown_toolset, skip_entry, chosen, get_record, save_record, save_snapshot, append_audit,
  fail_with, audit_scope, refreshed_record, resumed_state, open_and_mount, count_or_tools,
  hash_or_runtime,
}

-- toolbox/models.py: `RestoreResult`.
pub record RestoreResult : Type 0 where
  pub namespace : String
  pub restored_scopes : List Scope
  pub tool_count : ℕ
  pub schema_hash : String
  pub reused_runtime : Bool

-- Why no scope can be recovered.
skip_reason : ToolsetRecord → Bool → Bool → String
skip_reason r identity startup =
    if not (is_empty r.recoverable_scopes) && (r.restore_requires_identity && not identity)
    then "identity_required"
    else if not (is_empty r.recoverable_scopes) && (r.restore_requires_explicit_request && startup)
    then "explicit_request_required"
    else "no_recoverable_scopes"

-- The record after a restore that reuses a running runtime.
unfoldable pub rejoined_record : List Scope → Instant → ToolsetRecord → ToolsetRecord
rejoined_record missing now r =
    let r' = add_scopes r missing in
    record r' { transport_state = resumed_state r'; last_restored_at = some now }

restore_reusing :
    Bool
    → String
    → Report RestoreResult
    → ToolsetRecord
    → List Scope
    → Runtime
    → Exec (Report RestoreResult)
restore_reusing startup namespace report r missing runtime = do
  now ← utc_now
  let r' = rejoined_record missing now r
  save_record r'
  hash ← hash_or_runtime namespace runtime r'.schema_hash
  append_audit restore success (some namespace) (audit_scope (some r') none)
      (field "startup" (bool startup) (
        field "reused_runtime" (bool true)
          (field "restored_scopes" (strings (scope_values r'.loaded_scopes)) end)))
      none
  pure (
      add_done
        (record {
          namespace = namespace;
          restored_scopes = r'.loaded_scopes;
          tool_count = count_or_tools r' runtime;
          schema_hash = hash;
          reused_runtime = true;
        })
        report)

-- The `except` branch, on the record as the `try` left it.
restore_failed :
    Bool → String → Report RestoreResult → ToolsetRecord → Exception → Exec (Report RestoreResult)
restore_failed startup namespace report r e = do
  let error =
      error_info "restore_failed" (str_of e) (some namespace) true
        (some (field "startup" (bool startup) end))
  save_record (record r {
    transport_state = failed_state;
    stale = true;
    stale_reason = some "restore_failed";
    last_error = some error;
  })
  append_audit restore failure (some namespace) none
      (field "startup" (bool startup) (
        field "recoverable_scopes" (strings (scope_values r.recoverable_scopes))
          (field "stale_reason" (str "restore_failed") end)))
      (some error)
  pure (add_failed error report)

-- The record after a restore that opened a runtime.
unfoldable pub restored_record :
    List Scope → Instant → SchemaSnapshot → ToolsetRecord → ToolsetRecord
restored_record scopes now snapshot r =
    add_scopes
      (record (refreshed_record r.schema_hash snapshot r) {
        last_restored_at = some now;
        last_refreshed_at = some now;
        last_known_good_at = some now;
      })
      scopes

restore_saved :
    Bool
    → String
    → Report RestoreResult
    → ToolsetRecord
    → SchemaSnapshot
    → Result (Unit {0})
    → Exec (Report RestoreResult)
unfolding restore_failed
restore_saved startup namespace report r snapshot (err e) =
    restore_failed startup namespace report r e
restore_saved startup namespace report r snapshot (ok _) = pure (
    add_done
      (record {
        namespace = namespace;
        restored_scopes = r.loaded_scopes;
        tool_count = snapshot.tool_count;
        schema_hash = snapshot.schema_hash;
        reused_runtime = false;
      })
      report)

restore_opened :
    Bool
    → String
    → Report RestoreResult
    → ToolsetRecord
    → List Scope
    → Result SchemaSnapshot
    → Exec (Report RestoreResult)
unfolding restore_saved
restore_opened startup namespace report r scopes (err e) =
    restore_failed startup namespace report r e
restore_opened startup namespace report r scopes (ok snapshot) = do
  now ← utc_now
  let r' = restored_record scopes now snapshot r
  saved ← attempt (do
    save_record r'
    save_snapshot snapshot
    append_audit restore success (some namespace) (audit_scope (some r') none)
        (field "startup" (bool startup) (
          field "reused_runtime" (bool false) (
            field "restored_scopes" (strings (scope_values r'.loaded_scopes))
              (field "schema_hash" (str snapshot.schema_hash) end))))
        none)
  restore_saved startup namespace report r' snapshot saved

restore_connecting :
    Bool → String → Report RestoreResult → ToolsetRecord → List Scope → Exec (Report RestoreResult)
unfolding restore_opened
restore_connecting startup namespace report r scopes = do
  let r' = record r { transport_state = connecting }
  opened ← attempt (do save_record r'; open_and_mount namespace r')
  restore_opened startup namespace report r' scopes opened

restore_mounted :
    Bool
    → String
    → Report RestoreResult
    → ToolsetRecord
    → List Scope
    → Option Runtime
    → Exec (Report RestoreResult)
unfolding restore_connecting restore_reusing
restore_mounted startup namespace report r scopes none =
    restore_connecting startup namespace report r scopes
restore_mounted startup namespace report r scopes (some runtime) =
    let missing = filter_by (λ scope. not (contains r.loaded_scopes scope)) scopes in
    if is_empty missing
    then pure (
        add_skipped
          (skip_entry namespace "already_restored"
            (field "restored_scopes" (strings (scope_values scopes)) end))
          report)
    else restore_reusing startup namespace report r missing runtime

restore_found :
    Bool → Bool → String → Report RestoreResult → Option ToolsetRecord → Exec (Report RestoreResult)
unfolding restore_mounted skip_reason
restore_found identity startup namespace report none =
    fail_with restore namespace none (unknown_toolset namespace) report
restore_found identity startup namespace report (some r) =
    if is_empty (recovery_scopes r identity (not startup))
    then pure (
        add_skipped
          (skip_entry namespace (skip_reason r identity startup)
            (field "recoverable_scopes" (strings (scope_values r.recoverable_scopes)) end))
          report)
    else do
      runtime ← runtime_for namespace
      restore_mounted startup namespace report r (recovery_scopes r identity (not startup)) runtime

pub restore_one : Bool → Bool → String → Report RestoreResult → Exec (Report RestoreResult)
unfolding restore_found
restore_one identity startup namespace report = do
  found ← get_record namespace
  restore_found identity startup namespace report found

pub restore_toolsets : Option (List String) → Bool → Bool → Exec (Response RestoreResult)
restore_toolsets namespaces identity startup = do
  candidates ← chosen namespaces (λ r. not (is_empty r.recoverable_scopes))
  report ← for_each (restore_one identity startup) candidates empty_report
  pure (answer report)

-- `maybe_restore_on_startup`, with the two flags of the service.
pub maybe_restore_on_startup : Bool → Bool → Exec (Response RestoreResult)
maybe_restore_on_startup restore_on_startup stable_host_identity =
    if not restore_on_startup
    then pure (answer empty_report)
    else restore_toolsets none stable_host_identity true

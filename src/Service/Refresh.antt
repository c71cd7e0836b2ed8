-- ===== src/Service/Refresh.antt =====
-- toolbox/service.py: `refresh_toolsets`. The record is mutated only after the new runtime is swapped in.
pub mod Steps
use toolbox_mcp.Prelude.{
  String, Bool, true, false, not, ◌&&◌, Option, none, some, List, [], ◌∷◌, if◌then◌else◌, is_empty,
  is_some, contains,
}
use toolbox_mcp.Json.{end, field, str, strings}
use toolbox_mcp.Models.{
  Scope, scope_value, scope_eq, parse_scope, ToolSchema, ToolsetRecord, SchemaSnapshot,
  failed_state, stale_state, refresh, success, failure, Exception, str_of, Result, ok, err, Instant,
  TransportState,
}
use toolbox_mcp.Registry.{get_schema_snapshot}
use toolbox_mcp.Validation.{RefreshResult, diff_toolsets}
use toolbox_mcp.Effects.{Exec, pure, attempt, compute, load, ◌>>=◌, ◌>>◌, utc_now}
use toolbox_mcp.Transport.{open_runtime, swap_runtime, has_connection}
use toolbox_mcp.Service.Support.{
  Report, Response, empty_report, add_done, add_skipped, add_failed, answer, refused, for_each,
  error_info, unknown_toolset, invalid_scope, skip_entry, chosen, get_record, save_record,
  save_snapshot, append_audit, fail_with, audit_scope, build_snapshot, refreshed_record,
}
use toolbox_mcp.Service.Activate.{optional_json}

abbrev hash_of : Option SchemaSnapshot → Option String
hash_of none = none
hash_of (some snapshot) = some snapshot.schema_hash

abbrev tools_of : Option SchemaSnapshot → List ToolSchema
tools_of none = []
tools_of (some snapshot) = snapshot.tools

abbrev failed_refresh_state : Bool → TransportState
failed_refresh_state is_connected = if is_connected then stale_state else failed_state

refresh_failed :
    Option Scope
    → String
    → Report RefreshResult
    → ToolsetRecord
    → Option String
    → Exception
    → Exec (Report RefreshResult)
refresh_failed scope namespace report r old_hash e = do
  is_connected ← has_connection namespace
  let error =
      error_info "refresh_failed" (str_of e) (some namespace) true
        (some (field "stale_reason" (str "refresh_failed") end))
  let r' = record r {
    transport_state = failed_refresh_state is_connected;
    stale = true;
    stale_reason = some "refresh_failed";
    last_error = some error;
  }
  save_record r'
  append_audit refresh failure (some namespace) (audit_scope (some r') scope)
      (field "old_schema_hash" (optional_json old_hash)
        (field "stale_reason" (str "refresh_failed") end))
      (some error)
  pure (add_failed error report)

-- Open the new runtime, compare the inventories, swap it in.
open_and_diff :
    String → ToolsetRecord → Option SchemaSnapshot → Exec (SchemaSnapshot × RefreshResult)
open_and_diff namespace r previous = do
  opened ← open_runtime r
  snapshot ← build_snapshot namespace opened.1
  diff ← compute (λ host. diff_toolsets host namespace (tools_of previous) snapshot.tools)
  swap_runtime namespace opened.0
  pure (
    snapshot,
    record diff { old_schema_hash = hash_of previous; new_schema_hash = snapshot.schema_hash },
  )

refresh_saved :
    Option Scope
    → String
    → Report RefreshResult
    → ToolsetRecord
    → Option String
    → RefreshResult
    → Result (Unit {0})
    → Exec (Report RefreshResult)
unfolding refresh_failed
refresh_saved scope namespace report r old_hash diff (err e) =
    refresh_failed scope namespace report r old_hash e
refresh_saved scope namespace report r old_hash diff (ok _) = pure (add_done diff report)

-- The record after a refresh.
unfoldable pub after_refresh :
    Instant → Option String → SchemaSnapshot → ToolsetRecord → ToolsetRecord
after_refresh now old_hash snapshot r = record (refreshed_record old_hash snapshot r) {
  last_refreshed_at = some now;
  last_known_good_at = some now;
}

refresh_opened :
    Option Scope
    → String
    → Report RefreshResult
    → ToolsetRecord
    → Option String
    → Result (SchemaSnapshot × RefreshResult)
    → Exec (Report RefreshResult)
unfolding refresh_saved
refresh_opened scope namespace report r old_hash (err e) =
    refresh_failed scope namespace report r old_hash e
refresh_opened scope namespace report r old_hash (ok (snapshot, diff)) = do
  now ← utc_now
  let r' = after_refresh now old_hash snapshot r
  saved ← attempt (do
    save_record r'
    save_snapshot snapshot
    append_audit refresh success (some namespace) (audit_scope (some r') scope)
        (field "old_schema_hash" (optional_json old_hash) (
          field "new_schema_hash" (str snapshot.schema_hash) (
            field "added_tools" (strings diff.added_tools) (
              field "removed_tools" (strings diff.removed_tools)
                (field "changed_tools" (strings diff.changed_tools) end)))))
        none)
  refresh_saved scope namespace report r' old_hash diff saved

refresh_loaded :
    Option Scope → String → Report RefreshResult → ToolsetRecord → Exec (Report RefreshResult)
unfolding refresh_opened open_and_diff
refresh_loaded scope namespace report r = do
  document ← load
  let previous = get_schema_snapshot document namespace
  opened ← attempt (open_and_diff namespace r previous)
  refresh_opened scope namespace report r (hash_of previous) opened

-- `scope_value is not None and scope_value not in record.loaded_scopes`, with the skipped scope.
abbrev pub scope_missing : Option Scope → ToolsetRecord → Bool
scope_missing none r = false
scope_missing (some scope) r = not (contains r.loaded_scopes scope)

abbrev pub scope_text : Option Scope → String
scope_text none = ""
scope_text (some scope) = scope_value scope

refresh_found :
    Bool
    → Option Scope
    → String
    → Report RefreshResult
    → Option ToolsetRecord
    → Exec (Report RefreshResult)
unfolding refresh_loaded
refresh_found if_stale scope namespace report none =
    fail_with refresh namespace scope (unknown_toolset namespace) report
refresh_found if_stale scope namespace report (some r) =
    if is_empty r.loaded_scopes
    then pure (add_skipped (skip_entry namespace "not_active" end) report)
    else if scope_missing scope r
    then pure (
        add_skipped
          (skip_entry namespace "scope_not_active" (field "scope" (str (scope_text scope)) end))
          report)
    else if if_stale && (not r.stale && is_some r.schema_hash)
    then pure (add_skipped (skip_entry namespace "not_stale" end) report)
    else refresh_loaded scope namespace report r

pub refresh_one : Bool → Option Scope → String → Report RefreshResult → Exec (Report RefreshResult)
unfolding refresh_found
refresh_one if_stale scope namespace report = do
  found ← get_record namespace
  refresh_found if_stale scope namespace report found

refresh_chosen : Option (List String) → Bool → Option Scope → Exec (Response RefreshResult)
refresh_chosen namespaces if_stale scope = do
  candidates ← chosen namespaces (λ _. true)
  report ← for_each (refresh_one if_stale scope) candidates empty_report
  pure (answer report)

refresh_parsed : Option (List String) → Bool → String → Option Scope → Exec (Response RefreshResult)
unfolding refresh_chosen
refresh_parsed namespaces if_stale text none = do
  append_audit refresh failure none none end (some (invalid_scope text))
  pure (refused (invalid_scope text))
refresh_parsed namespaces if_stale text (some scope) =
    refresh_chosen namespaces if_stale (some scope)

pub refresh_toolsets : Option (List String) → Bool → Option String → Exec (Response RefreshResult)
unfolding refresh_parsed
refresh_toolsets namespaces if_stale none = refresh_chosen namespaces if_stale none
refresh_toolsets namespaces if_stale (some text) =
    refresh_parsed namespaces if_stale text (parse_scope text)

-- ===== src/ScopeManager.antt =====
-- toolbox/scope_manager.py: `ScopeManager`. A method that mutates the record returns it beside the
-- Boolean of the source.
pub mod Laws
use toolbox_mcp.Prelude.{
  String, Bool, true, false, not, ◌&&◌, ◌||◌, Option, none, some, List, [], ◌∷◌, ◌++◌, map,
  if◌then◌else◌, ◌==◌, contains, filter_by, is_empty,
}
use toolbox_mcp.Json.{Fields, bool, str, end, field, strings}
use toolbox_mcp.Models.{Scope, scope_value, scope_eq, sort_scopes, ToolsetRecord}

pub startup_restore_scopes : ToolsetRecord → Bool → Bool → List Scope
startup_restore_scopes record' restore_enabled stable_host_identity =
    if not restore_enabled
    then []
    else if record'.restore_requires_identity && not stable_host_identity
    then []
    else if record'.restore_requires_explicit_request
    then []
    else filter_by (contains record'.supported_scopes) record'.restorable_scopes

pub recovery_scopes : ToolsetRecord → Bool → Bool → List Scope
recovery_scopes record' stable_host_identity explicit_request =
    if record'.restore_requires_identity && not stable_host_identity
    then []
    else if record'.restore_requires_explicit_request && not explicit_request
    then []
    else filter_by
        (λ scope.
          contains record'.restorable_scopes scope && contains record'.supported_scopes scope)
        record'.recoverable_scopes

abbrev pub supports_scope : ToolsetRecord → Scope → Bool
supports_scope record' scope = contains record'.supported_scopes scope

abbrev pub scope_values : List Scope → List String
scope_values = map scope_value

pub scope_policy : ToolsetRecord → Fields
scope_policy r = field "default_scope" (str (scope_value r.default_scope)) (
    field "loaded_scopes" (strings (scope_values r.loaded_scopes)) (
      field "supported_scopes" (strings (scope_values r.supported_scopes)) (
        field "restorable_scopes" (strings (scope_values r.restorable_scopes)) (
          field "recoverable_scopes" (strings (scope_values r.recoverable_scopes)) (
            field "non_restorable_scopes"
              (strings (
                scope_values
                  (filter_by (λ s. not (contains r.restorable_scopes s)) r.supported_scopes)))
              (field "restore_requires_identity" (bool r.restore_requires_identity) (
                field "restore_requires_explicit_request" (bool r.restore_requires_explicit_request)
                  end)))))))

pub add_scope : ToolsetRecord → Scope → Bool × ToolsetRecord
add_scope r scope =
    if contains r.loaded_scopes scope
    then (false, r)
    else (true, record r { loaded_scopes = sort_scopes (r.loaded_scopes ++ scope ∷ []) })

pub remove_scope : ToolsetRecord → Scope → Bool × ToolsetRecord
remove_scope r scope = if not (contains r.loaded_scopes scope) then (false, r) else (
  true,
  record r { loaded_scopes = filter_by (λ item. not (item == scope)) r.loaded_scopes },
)

pub add_recoverable_scope : ToolsetRecord → Scope → Bool × ToolsetRecord
add_recoverable_scope r scope =
    if not (contains r.restorable_scopes scope) || contains r.recoverable_scopes scope
    then (false, r)
    else (true, record r { recoverable_scopes = sort_scopes (r.recoverable_scopes ++ scope ∷ []) })

pub remove_recoverable_scope : ToolsetRecord → Scope → Bool × ToolsetRecord
remove_recoverable_scope r scope =
    if not (contains r.recoverable_scopes scope) then (false, r) else (
      true,
      record r {
        recoverable_scopes = filter_by (λ item. not (item == scope)) r.recoverable_scopes;
      },
    )

-- `scope=None` asks whether any scope is loaded.
pub is_loaded : ToolsetRecord → Option Scope → Bool
is_loaded r none = not (is_empty r.loaded_scopes)
is_loaded r (some scope) = contains r.loaded_scopes scope

-- `for scope in scopes: self.scope_manager.add_scope(record, scope)`.
pub add_scopes : ToolsetRecord → List Scope → ToolsetRecord
add_scopes r [] = r
add_scopes r (scope ∷ scopes) = add_scopes (add_scope r scope).1 scopes

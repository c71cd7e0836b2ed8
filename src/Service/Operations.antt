-- ===== src/Service/Operations.antt =====
-- toolbox/service.py: the operations of the service as one data type, and a run of a sequence of them.
pub mod Sound
pub mod Isolated
use toolbox_mcp.Prelude.{ℕ, String, Bool, true, false, Option, none, some, List, [], ◌∷◌}
use toolbox_mcp.Models.{Scope}
use toolbox_mcp.Effects.{Exec, pure, ◌>>=◌, ◌>>◌}
use toolbox_mcp.Service.Startup.{reconcile_scope_state_on_startup}
use toolbox_mcp.Service.Register.{Registration, register_toolset}
use toolbox_mcp.Service.Unregister.{unregister_toolsets}
use toolbox_mcp.Service.Activate.{activate_toolsets}
use toolbox_mcp.Service.Deactivate.{deactivate_toolsets, mark_toolset_stale}
use toolbox_mcp.Service.Refresh.{refresh_toolsets}
use toolbox_mcp.Service.Restore.{restore_toolsets}
use toolbox_mcp.Service.ClearStale.{clear_stale_toolsets}
use toolbox_mcp.Service.Health.{check_toolset_health}

-- A call of the service, with its arguments.
pub data Operation : Type 0 where
  reconciles : Operation
  registers : Registration → Operation
  unregisters : (namespaces : List String) (force : Bool) → Operation
  activates : (namespaces : List String) (scope : String) (if_not_loaded : Bool) → Operation
  deactivates : (namespaces : List String) (scope : String) (force : Bool) → Operation
  refreshes :
      (namespaces : Option (List String)) (if_stale : Bool) (scope : Option String) → Operation
  restores : (namespaces : Option (List String)) (identity startup : Bool) → Operation
  clears_stale : (namespaces : Option (List String)) → Operation
  checks_health : (namespaces : Option (List String)) (scope : Option String) → Operation
  marks_stale : (namespace reason : String) → Operation

-- The method that the service runs, without its answer.
pub perform : Operation → Exec (Unit {0})
perform reconciles = reconcile_scope_state_on_startup
perform (registers request) = register_toolset request >> pure tt
perform (unregisters namespaces force) = unregister_toolsets namespaces force >> pure tt
perform (activates namespaces scope if_not_loaded) =
    activate_toolsets namespaces scope if_not_loaded >> pure tt
perform (deactivates namespaces scope force) = deactivate_toolsets namespaces scope force >> pure tt
perform (refreshes namespaces if_stale scope) =
    refresh_toolsets namespaces if_stale scope >> pure tt
perform (restores namespaces identity startup) =
    restore_toolsets namespaces identity startup >> pure tt
perform (clears_stale namespaces) = clear_stale_toolsets namespaces >> pure tt
perform (checks_health namespaces scope) = check_toolset_health namespaces scope >> pure tt
perform (marks_stale namespace reason) = mark_toolset_stale namespace reason >> pure tt

-- One operation after the other; an exception ends the run.
pub run_all : List Operation → Exec (Unit {0})
run_all [] = pure tt
run_all (o ∷ os) = perform o >> run_all os

-- ===== src/Service/Operations/Sound.antt =====
-- toolbox/service.py: sequences of operations keep the world sound. An operation may raise: for a runtime
-- whose close fails, or a record without a hash.
use toolbox_mcp.Prelude.{String, Option, none, some, List, [], ◌∷◌, All}
use toolbox_mcp.Models.{Exception, Result, ok, err}
use toolbox_mcp.Host.{Host}
use toolbox_mcp.Effects.{World, Exec, continue, pure, ◌>>=◌, ◌>>◌}
use toolbox_mcp.Effects.Spec.{Spec, Post, MayRaise, Any, Spec-pure, Spec-bind}
use toolbox_mcp.Service.Steps.{IsSound}
use toolbox_mcp.Service.Steps.Visits.{unvisited, Visited, Allows, Spec-visit}
use toolbox_mcp.Service.Startup.Steps.{Spec-reconcile_scope_state_on_startup}
use toolbox_mcp.Service.Register.Steps.{Spec-register_toolset}
use toolbox_mcp.Service.Unregister.Steps.{Spec-unregister_toolsets}
use toolbox_mcp.Service.Activate.Steps.{Spec-activate_toolsets}
use toolbox_mcp.Service.Deactivate.Steps.{Spec-deactivate_toolsets, Spec-mark_toolset_stale}
use toolbox_mcp.Service.Refresh.Steps.{Spec-refresh_toolsets}
use toolbox_mcp.Service.Restore.Steps.{Spec-restore_toolsets}
use toolbox_mcp.Service.ClearStale.Steps.{Spec-clear_stale_toolsets}
use toolbox_mcp.Service.Health.Steps.{Spec-check_toolset_health}
use toolbox_mcp.Service.Operations.{
  Operation, reconciles, registers, unregisters, activates, deactivates, refreshes, restores,
  clears_stale, checks_health, marks_stale, perform, run_all,
}

-- Every namespace that the operation can come to satisfies `P`.
unfoldable pub Permits : (String → Type 0) → Operation → Type 0
Permits P reconciles = (k : String) → P k
Permits P (registers request) = P request.namespace
Permits P (unregisters namespaces force) = All P namespaces
Permits P (activates namespaces scope if_not_loaded) = All P namespaces
Permits P (deactivates namespaces scope force) = All P namespaces
Permits P (refreshes namespaces if_stale scope) = Allows P namespaces
Permits P (restores namespaces identity startup) = Allows P namespaces
Permits P (clears_stale namespaces) = Allows P namespaces
Permits P (checks_health namespaces scope) = Allows P namespaces
Permits P (marks_stale namespace reason) = P namespace

module _ {I : World → Type 0} {E : Exception → Type 0} where
  ignored : {A : Type 0} (m : Exec A) → Spec I E Any m → Spec I E Any (m >> pure tt)
  ignored m h = Spec-bind _ _ h λ _ _. Spec-pure tt tt

pub Spec-perform :
    {P : String → Type 0} {start : World} (o : Operation)
    → Permits P o
    → Spec (Visited P start) MayRaise Any (perform o)
unfolding Permits perform
Spec-perform reconciles p = Spec-reconcile_scope_state_on_startup p
Spec-perform (registers request) p =
    ignored _ (Spec-visit request.namespace _ p λ w. Spec-register_toolset w request)
Spec-perform (unregisters namespaces force) p =
    ignored _ (Spec-unregister_toolsets namespaces force p)
Spec-perform (activates namespaces scope if_not_loaded) p =
    ignored _ (Spec-activate_toolsets namespaces p scope if_not_loaded)
Spec-perform (deactivates namespaces scope force) p =
    ignored _ (Spec-deactivate_toolsets namespaces p scope force)
Spec-perform (refreshes namespaces if_stale scope) p =
    ignored _ (Spec-refresh_toolsets namespaces p if_stale scope)
Spec-perform (restores namespaces identity startup) p =
    ignored _ (Spec-restore_toolsets namespaces identity startup p)
Spec-perform (clears_stale namespaces) p = ignored _ (Spec-clear_stale_toolsets namespaces p)
Spec-perform (checks_health namespaces scope) p =
    ignored _ (Spec-check_toolset_health namespaces p scope)
Spec-perform (marks_stale namespace reason) p =
    ignored _ (Spec-visit namespace _ p λ w. Spec-mark_toolset_stale reason)

Anywhere : String → Type 0
Anywhere k = Unit

All-Anywhere : (names : List String) → All Anywhere names
unfolding Anywhere
All-Anywhere [] = tt
All-Anywhere (name ∷ names) = (tt, All-Anywhere names)

Allows-Anywhere : (namespaces : Option (List String)) → Allows Anywhere namespaces
unfolding Anywhere
Allows-Anywhere none = λ k. tt
Allows-Anywhere (some []) = λ k. tt
Allows-Anywhere (some (name ∷ names)) = All-Anywhere (name ∷ names)

Permits-Anywhere : (o : Operation) → Permits Anywhere o
unfolding Permits Anywhere
Permits-Anywhere reconciles = λ k. tt
Permits-Anywhere (registers request) = tt
Permits-Anywhere (unregisters namespaces force) = All-Anywhere namespaces
Permits-Anywhere (activates namespaces scope if_not_loaded) = All-Anywhere namespaces
Permits-Anywhere (deactivates namespaces scope force) = All-Anywhere namespaces
Permits-Anywhere (refreshes namespaces if_stale scope) = Allows-Anywhere namespaces
Permits-Anywhere (restores namespaces identity startup) = Allows-Anywhere namespaces
Permits-Anywhere (clears_stale namespaces) = Allows-Anywhere namespaces
Permits-Anywhere (checks_health namespaces scope) = Allows-Anywhere namespaces
Permits-Anywhere (marks_stale namespace reason) = tt

Visited-from :
    (host : Host) (w : World) (o : Operation)
    → IsSound w
    → Visited Anywhere w (perform o host w).1 × Post MayRaise Any (perform o host w).0
Visited-from host w o s =
    (Spec-perform o (Permits-Anywhere o)).at host w (record { sound = s; trace = unvisited })

after_first :
    (P : World → Type 0) (os : List Operation) (host : Host) (r : Result (Unit {0})) (v : World)
    → P v
    → P (run_all os host v).1
    → P (continue r (λ _. run_all os) host v).1
after_first P os host (ok a) v before rest = rest
after_first P os host (err e) v before rest = before

-- From a sound world every sequence of operations, whatever the host answers and however it ends, leads
-- to a sound world: the state file can be used, the records are valid and distinct, the audit log is numbered and bounded, and every
-- runtime in the table has distinct tool names.
pub run_all-IsSound :
    (host : Host) (os : List Operation) (w : World) → IsSound w → IsSound (run_all os host w).1
unfolding run_all pure ◌>>=◌
run_all-IsSound host [] w s = s
run_all-IsSound host (o ∷ os) w s =
    let t = (Visited-from host w o s).0.sound in
    after_first IsSound os host (perform o host w).0 (perform o host w).1 t
      (run_all-IsSound host os (perform o host w).1 t)

-- ===== src/Service/Health/Steps.antt =====
-- toolbox/service.py: the body of `check_toolset_health`, by the rules of the service's steps.
use toolbox_mcp.Service.Steps.Visits.{Visited, Allows, Spec-answered, Spec-chosen, Spec-noted}
use toolbox_mcp.Prelude.{ℕ, String, Option, none, some, List, is_empty, length}
use toolbox_mcp.Json.{Fields}
use toolbox_mcp.Models.{
  parse_scope, Scope, ToolSchema, ToolsetRecord, HealthStatus, ErrorInfo, Exception, Result, ok,
  err,
}
use toolbox_mcp.Effects.{Runtime, World}
use toolbox_mcp.Effects.Spec.{
  Spec, MayRaise, Any, Spec-pure, Spec-raise, Spec-bind, Spec-if, Spec-attempt, Spec-compute,
}
use toolbox_mcp.Service.Support.{
  Report, HealthCheckResult, observation_recorded, record_health_observation,
}
use toolbox_mcp.Service.Refresh.{scope_missing}
use toolbox_mcp.Service.Steps.Rules.{
  From, FoundAs, Spec-get_record, Spec-save_record, Spec-utc_now, Spec-append_audit, Spec-fail_with,
  Spec-runtime_found, Spec-has_connection, Spec-disconnect, Spec-record_runtime_failure, Spec-probe,
}
use toolbox_mcp.Service.Health.{
  health_chosen, health_parsed, check_toolset_health, health_failed_with, health_unmounted,
  health_probe_failed, drifted, health_drifted, health_passed, health_probed, health_mounted,
  health_found, health_one,
}

module _ {ns : String} {start : World} where
  Spec-observation :
      (status : HealthStatus) (hash : Option String) (count : Option ℕ) (error : Option ErrorInfo)
      (o : Option ToolsetRecord)
      → FoundAs ns o
      → Spec (From ns start) MayRaise Any (observation_recorded ns status hash count error o)
  unfolding observation_recorded
  Spec-observation status hash count error none q = Spec-raise _ tt
  Spec-observation status hash count error (some r) (same, v) = Spec-bind _ _ Spec-utc_now λ now _.
      Spec-bind _ _ Spec-has_connection
        λ c _. Spec-bind _ _ (Spec-save_record _ same v) λ _ _. Spec-pure _ tt

  Spec-record_health_observation :
      (status : HealthStatus) (hash : Option String) (count : Option ℕ) (error : Option ErrorInfo)
      → Spec (From ns start) MayRaise Any (record_health_observation ns status hash count error)
  unfolding record_health_observation
  Spec-record_health_observation status hash count error =
      Spec-bind _ _ Spec-get_record λ o q. Spec-observation status hash count error o q

module _ {ns : String} {start : World} (scope : Option Scope)
    (report : Report HealthCheckResult) where
  Spec-failed_with :
      (r : ToolsetRecord) (status : HealthStatus) (hash : Option String) (count : Option ℕ)
      (details : Fields) (error : Option ErrorInfo)
      → Spec
          (From ns start)
          MayRaise
          Any
          (health_failed_with scope ns report r status hash count details error)
  unfolding health_failed_with
  Spec-failed_with r status hash count details error =
      Spec-bind _ _ (Spec-record_health_observation status hash count error)
        λ _ _. Spec-bind _ _ (Spec-append_audit _ _ _ _ _) λ _ _. Spec-pure _ tt

  Spec-unmounted :
      (r : ToolsetRecord) → Spec (From ns start) MayRaise Any (health_unmounted scope ns report r)
  unfolding health_unmounted
  Spec-unmounted r =
      Spec-bind _ _ (Spec-record_runtime_failure _ _ _ _)
        λ error _. Spec-failed_with r _ _ _ _ error

  Spec-probe_failed :
      (r : ToolsetRecord) (e : Exception)
      → Spec (From ns start) MayRaise Any (health_probe_failed scope ns report r e)
  unfolding health_probe_failed
  Spec-probe_failed r e = Spec-bind _ _ Spec-disconnect λ _ _.
      Spec-bind _ _ (Spec-record_runtime_failure _ _ _ _)
        λ error _. Spec-failed_with r _ _ _ _ error

  Spec-drifted :
      (r : ToolsetRecord) (observed : String) (count : ℕ)
      → Spec (From ns start) MayRaise Any (health_drifted scope ns report r observed count)
  unfolding health_drifted
  Spec-drifted r observed count =
      Spec-bind _ _ (Spec-record_runtime_failure _ _ _ _)
        λ error _. Spec-failed_with r _ _ _ _ error

  Spec-passed :
      (r : ToolsetRecord) (observed : String) (count : ℕ)
      → Spec (From ns start) MayRaise Any (health_passed scope ns report r observed count)
  unfolding health_passed
  Spec-passed r observed count =
      Spec-bind _ _ (Spec-record_health_observation _ _ _ _)
        λ _ _. Spec-bind _ _ (Spec-append_audit _ _ _ _ _) λ _ _. Spec-pure _ tt

  Spec-probed :
      (r : ToolsetRecord) (probe : Result (List ToolSchema))
      → Spec (From ns start) MayRaise Any (health_probed scope ns report r probe)
  unfolding health_probed
  Spec-probed r (err e) = Spec-probe_failed r e
  Spec-probed r (ok tools) = Spec-bind {Q = Any} _ _ (Spec-compute _ (λ host. tt)) λ observed _.
      Spec-if (drifted r.schema_hash observed) _ _ (λ _. Spec-drifted r observed (length tools))
        (λ _. Spec-passed r observed (length tools))

  Spec-mounted :
      (r : ToolsetRecord) (o : Option Runtime)
      → Spec (From ns start) MayRaise Any (health_mounted scope ns report r o)
  unfolding health_mounted
  Spec-mounted r none = Spec-unmounted r
  Spec-mounted r (some runtime) =
      Spec-bind _ _ (Spec-attempt _ Spec-probe) λ probe _. Spec-probed r probe

  Spec-found :
      (o : Option ToolsetRecord)
      → Spec (From ns start) MayRaise Any (health_found scope ns report o)
  unfolding health_found
  Spec-found none = Spec-fail_with _ _ _ report
  Spec-found (some r) =
      Spec-if (is_empty r.loaded_scopes) _ _ (λ _. Spec-pure _ tt)
        λ _.
          Spec-if (scope_missing scope r) _ _ (λ _. Spec-pure _ tt)
            λ _. Spec-bind _ _ Spec-runtime_found λ o _. Spec-mounted r o

  pub Spec-health_one : Spec (From ns start) MayRaise Any (health_one scope ns report)
  unfolding health_one
  Spec-health_one = Spec-bind _ _ Spec-get_record λ o q. Spec-found o

module _ {P : String → Type 0} {start : World} (namespaces : Option (List String))
    (ps : Allows P namespaces) where
  Spec-chosen_health :
      (scope : Option Scope) → Spec (Visited P start) MayRaise Any (health_chosen namespaces scope)
  unfolding health_chosen
  Spec-chosen_health scope =
      Spec-bind _ _ (Spec-chosen namespaces _ ps)
        λ names q. Spec-answered _ (λ ns report w. Spec-health_one scope report) names q

  Spec-parsed :
      (text : String) (o : Option Scope)
      → Spec (Visited P start) MayRaise Any (health_parsed namespaces text o)
  unfolding health_parsed
  Spec-parsed text none = Spec-bind _ _ (Spec-noted _ _ _ _ _) λ _ _. Spec-pure _ tt
  Spec-parsed text (some scope) = Spec-chosen_health (some scope)

  pub Spec-check_toolset_health :
      (o : Option String) → Spec (Visited P start) MayRaise Any (check_toolset_health namespaces o)
  unfolding check_toolset_health
  Spec-check_toolset_health none = Spec-chosen_health none
  Spec-check_toolset_health (some text) = Spec-parsed text (parse_scope text)

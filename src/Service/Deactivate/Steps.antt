-- ===== src/Service/Deactivate/Steps.antt =====
-- toolbox/service.py: the bodies of `deactivate_toolsets` and `mark_toolset_stale`, by the rules of the
-- service's steps.
use toolbox_mcp.Service.Steps.Visits.{Visited, Spec-answered, Spec-noted}
use toolbox_mcp.Prelude.{
  All, List, ℕ, String, ◌≡◌, ◌∙◌, Bool, not, ◌&&◌, Option, none, some, is_empty, contains, nat_beq,
}
use toolbox_mcp.Json.{Fields}
use toolbox_mcp.Models.{parse_scope, Scope, scope_eq, ToolsetRecord}
use toolbox_mcp.Models.Policy.{IsValidRecord}
use toolbox_mcp.ScopeManager.{remove_scope}
use toolbox_mcp.ScopeManager.Laws.{
  remove_scope-IsValidRecord, remove_recoverable_scope-IsValidRecord, namespace-remove_scope,
  namespace-remove_recoverable_scope,
}
use toolbox_mcp.Effects.{World}
use toolbox_mcp.Effects.Spec.{Spec, MayRaise, Any, Spec-pure, Spec-bind, Spec-if}
use toolbox_mcp.Service.Support.{Report}
use toolbox_mcp.Service.Steps.Rules.{
  From, FoundAs, Spec-get_record, Spec-save_record, Spec-append_audit, Spec-fail_with,
  Spec-disconnect, Spec-in_flight_calls,
}
use toolbox_mcp.Service.Deactivate.{
  deactivate_parsed, deactivate_toolsets, released_record, inactive_record, deactivate_saved,
  deactivate_released, deactivate_counted, deactivate_found, deactivate_one, mark_found,
  mark_toolset_stale,
}

module _ (scope : Scope) (r : ToolsetRecord) where
  pub released_record-IsValidRecord : IsValidRecord r → IsValidRecord (released_record scope r)
  unfolding released_record
  released_record-IsValidRecord v =
      remove_recoverable_scope-IsValidRecord (remove_scope r scope).1 scope
        (remove_scope-IsValidRecord r scope v)

  pub namespace-released_record : (released_record scope r).namespace ≡ r.namespace
  unfolding released_record
  namespace-released_record =
      namespace-remove_recoverable_scope (remove_scope r scope).1 scope
      ∙ namespace-remove_scope r scope

module _ {ns : String} {start : World} (scope : Scope) (force : Bool) (report : Report Fields) where
  Spec-saved :
      (r : ToolsetRecord)
      → r.namespace ≡ ns
      → IsValidRecord r
      → Spec (From ns start) MayRaise Any (deactivate_saved scope force ns report r)
  unfolding deactivate_saved
  Spec-saved r same v =
      Spec-bind _ _ (Spec-save_record _ same v)
        λ _ _. Spec-bind _ _ (Spec-append_audit _ _ _ _ _) λ _ _. Spec-pure _ tt

  Spec-released :
      (r : ToolsetRecord)
      → r.namespace ≡ ns
      → IsValidRecord r
      → Spec (From ns start) MayRaise Any (deactivate_released scope force ns report r)
  unfolding deactivate_released inactive_record
  Spec-released r same v =
      Spec-if (is_empty r.loaded_scopes) _ _
        (λ _. Spec-bind _ _ Spec-disconnect λ _ _. Spec-saved (inactive_record r) same v)
        (λ _. Spec-saved r same v)

  Spec-counted :
      (r : ToolsetRecord) (n : ℕ)
      → r.namespace ≡ ns
      → IsValidRecord r
      → Spec (From ns start) MayRaise Any (deactivate_counted scope force ns report r n)
  unfolding deactivate_counted
  Spec-counted r n same v =
      Spec-if (not (nat_beq n 0) && not force) _ _ (λ _. Spec-fail_with _ _ _ report)
        λ _.
          Spec-released (released_record scope r) (namespace-released_record scope r ∙ same)
            (released_record-IsValidRecord scope r v)

  Spec-found :
      (o : Option ToolsetRecord)
      → FoundAs ns o
      → Spec (From ns start) MayRaise Any (deactivate_found scope force ns report o)
  unfolding deactivate_found
  Spec-found none q = Spec-fail_with _ _ _ report
  Spec-found (some r) (same, v) =
      Spec-if (not (contains r.loaded_scopes scope)) _ _ (λ _. Spec-pure _ tt)
        λ _. Spec-bind _ _ Spec-in_flight_calls λ n _. Spec-counted r n same v

  pub Spec-deactivate_one : Spec (From ns start) MayRaise Any (deactivate_one scope force ns report)
  unfolding deactivate_one
  Spec-deactivate_one = Spec-bind _ _ Spec-get_record λ o q. Spec-found o q

module _ {ns : String} {start : World} (reason : String) where
  Spec-mark_found :
      (o : Option ToolsetRecord)
      → FoundAs ns o
      → Spec (From ns start) MayRaise Any (mark_found reason o)
  unfolding mark_found
  Spec-mark_found none q = Spec-pure _ tt
  Spec-mark_found (some r) (same, v) =
      Spec-bind _ _ (Spec-save_record _ same v) λ _ _. Spec-pure _ tt

  pub Spec-mark_toolset_stale : Spec (From ns start) MayRaise Any (mark_toolset_stale ns reason)
  unfolding mark_toolset_stale
  Spec-mark_toolset_stale = Spec-bind _ _ Spec-get_record λ o q. Spec-mark_found o q

module _ {P : String → Type 0} {start : World} (namespaces : List String)
    (ps : All P namespaces) where
  Spec-parsed :
      (text : String) (force : Bool) (o : Option Scope)
      → Spec (Visited P start) MayRaise Any (deactivate_parsed namespaces text force o)
  unfolding deactivate_parsed
  Spec-parsed text force none = Spec-bind _ _ (Spec-noted _ _ _ _ _) λ _ _. Spec-pure _ tt
  Spec-parsed text force (some scope) =
      Spec-answered _ (λ ns report w. Spec-deactivate_one scope force report) namespaces ps

  pub Spec-deactivate_toolsets :
      (text : String) (force : Bool)
      → Spec (Visited P start) MayRaise Any (deactivate_toolsets namespaces text force)
  unfolding deactivate_toolsets
  Spec-deactivate_toolsets text force = Spec-parsed text force (parse_scope text)

-- ===== src/Service/Unregister/Steps.antt =====
-- toolbox/service.py: the body of `unregister_toolsets`, by the rules of the service's steps.
use toolbox_mcp.Service.Steps.Visits.{Visited, Spec-answered}
use toolbox_mcp.Prelude.{
  All, List, ℕ, String, Bool, not, ◌&&◌, Option, none, some, true, false, is_empty, nat_beq,
}
use toolbox_mcp.Json.{Fields, end}
use toolbox_mcp.Models.{ToolsetRecord}
use toolbox_mcp.Effects.{World}
use toolbox_mcp.Effects.Spec.{Spec, MayRaise, Any, Spec-pure, Spec-bind, Spec-if}
use toolbox_mcp.Service.Support.{Report, add_skipped, skip_entry}
use toolbox_mcp.Service.Steps.Rules.{
  From, FoundAs, Spec-get_record, Spec-append_audit, Spec-fail_with, Spec-disconnect,
  Spec-in_flight_calls, Spec-drop_record, Spec-drop_snapshot, Spec-drop_previous,
}
use toolbox_mcp.Service.Unregister.{
  unregister_toolsets, unregister_deleted, unregister_counted, unregister_found, unregister_one,
}

module _ {ns : String} {start : World} (force : Bool) where
  Spec-deleted :
      (disconnected : Bool) (report : Report Fields)
      → Spec (From ns start) MayRaise Any (unregister_deleted force disconnected ns report)
  unfolding unregister_deleted
  Spec-deleted disconnected report = Spec-bind _ _ Spec-drop_snapshot λ _ _.
      Spec-bind _ _ Spec-drop_previous λ _ _.
        Spec-bind _ _ Spec-drop_record
          λ _ _. Spec-bind _ _ (Spec-append_audit _ _ _ _ _) λ _ _. Spec-pure _ tt

  Spec-counted :
      (report : Report Fields) (n : ℕ)
      → Spec (From ns start) MayRaise Any (unregister_counted force ns report n)
  unfolding unregister_counted
  Spec-counted report n =
      Spec-if (not (nat_beq n 0)) _ _ (λ _. Spec-fail_with _ _ _ report)
        λ _. Spec-bind _ _ Spec-disconnect λ _ _.
          Spec-deleted true
            (add_skipped (skip_entry ns "disconnected_before_unregistration" end) report)

  Spec-found :
      (report : Report Fields) (o : Option ToolsetRecord)
      → FoundAs ns o
      → Spec (From ns start) MayRaise Any (unregister_found force ns report o)
  unfolding unregister_found
  Spec-found report none q = Spec-fail_with _ _ _ report
  Spec-found report (some r) q =
      Spec-if (not (is_empty r.loaded_scopes) && not force) _ _ (λ _. Spec-fail_with _ _ _ report)
        λ _.
          Spec-if (not (is_empty r.loaded_scopes) && force) _ _
            (λ _. Spec-bind _ _ Spec-in_flight_calls λ n _. Spec-counted report n)
            (λ _. Spec-deleted false report)

  pub Spec-unregister_one :
      (report : Report Fields) → Spec (From ns start) MayRaise Any (unregister_one force ns report)
  unfolding unregister_one
  Spec-unregister_one report = Spec-bind _ _ Spec-get_record λ o q. Spec-found report o q

pub Spec-unregister_toolsets :
    {P : String → Type 0} {start : World} (namespaces : List String) (force : Bool)
    → All P namespaces
    → Spec (Visited P start) MayRaise Any (unregister_toolsets namespaces force)
unfolding unregister_toolsets
Spec-unregister_toolsets namespaces force ps =
    Spec-answered _ (λ ns report w. Spec-unregister_one force report) namespaces ps

-- ===== src/Service/ClearStale/Steps.antt =====
-- toolbox/service.py: the body of `clear_stale_toolsets`, by the rules of the service's steps.
use toolbox_mcp.Service.Steps.Visits.{Visited, Allows, Spec-answered, Spec-chosen}
use toolbox_mcp.Prelude.{List, String, ◌≡◌, refl, ◌∙◌, not, Option, none, some, is_empty}
use toolbox_mcp.Models.{ToolsetRecord, TransportState, inactive}
use toolbox_mcp.Models.Policy.{IsValidRecord}
use toolbox_mcp.Effects.{World}
use toolbox_mcp.Effects.Spec.{Spec, MayRaise, Any, Spec-pure, Spec-bind, Spec-if}
use toolbox_mcp.Service.Support.{Report, clear_health_state}
use toolbox_mcp.Service.Steps.Rules.{
  From, FoundAs, Spec-get_record, Spec-save_record, Spec-append_audit, Spec-fail_with,
  Spec-runtime_found,
}
use toolbox_mcp.Service.ClearStale.{
  clear_stale_toolsets, ClearStaleResult, is_clear, cleared_record, clear_saved, clear_found,
  clear_one,
}

namespace-cleared_record :
    (state : TransportState) (r : ToolsetRecord) → (cleared_record state r).namespace ≡ r.namespace
unfolding cleared_record clear_health_state
namespace-cleared_record state r = refl

cleared_record-IsValidRecord :
    (state : TransportState) (r : ToolsetRecord)
    → IsValidRecord r
    → IsValidRecord (cleared_record state r)
unfolding cleared_record clear_health_state
cleared_record-IsValidRecord state r v = v

module _ {ns : String} {start : World} (report : Report ClearStaleResult) where
  Spec-cleared :
      (reason : Option String) (state : TransportState) (r : ToolsetRecord)
      → r.namespace ≡ ns
      → IsValidRecord r
      → Spec (From ns start) MayRaise Any (clear_saved ns report reason (cleared_record state r))
  unfolding clear_saved
  Spec-cleared reason state r same v =
      Spec-bind _ _
        (Spec-save_record (cleared_record state r) (namespace-cleared_record state r ∙ same)
          (cleared_record-IsValidRecord state r v))
        λ _ _. Spec-bind _ _ (Spec-append_audit _ _ _ _ _) λ _ _. Spec-pure _ tt

  Spec-found :
      (o : Option ToolsetRecord)
      → FoundAs ns o
      → Spec (From ns start) MayRaise Any (clear_found ns report o)
  unfolding clear_found
  Spec-found none q = Spec-fail_with _ _ _ report
  Spec-found (some r) (same, v) =
      Spec-if (is_clear r) _ _ (λ _. Spec-pure _ tt)
        λ _.
          Spec-if (not (is_empty r.loaded_scopes)) _ _
            (λ _.
              Spec-bind _ _ Spec-runtime_found
                λ runtime valid. Spec-cleared r.stale_reason _ r same v)
            (λ _. Spec-cleared r.stale_reason inactive r same v)

  pub Spec-clear_one : Spec (From ns start) MayRaise Any (clear_one ns report)
  unfolding clear_one
  Spec-clear_one = Spec-bind _ _ Spec-get_record λ o q. Spec-found o q

pub Spec-clear_stale_toolsets :
    {P : String → Type 0} {start : World} (namespaces : Option (List String))
    → Allows P namespaces
    → Spec (Visited P start) MayRaise Any (clear_stale_toolsets namespaces)
unfolding clear_stale_toolsets
Spec-clear_stale_toolsets namespaces ps =
    Spec-bind _ _ (Spec-chosen namespaces _ ps)
      λ names q. Spec-answered _ (λ ns report w. Spec-clear_one report) names q

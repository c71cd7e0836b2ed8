-- ===== src/Service/Refresh/Steps.antt =====
-- toolbox/service.py: the body of `refresh_toolsets`, by the rules of the service's steps.
use toolbox_mcp.Service.Steps.Visits.{Visited, Allows, Spec-answered, Spec-chosen, Spec-noted}
use toolbox_mcp.Prelude.{List, String, ◌≡◌, Bool, not, ◌&&◌, Option, none, some, is_empty, is_some}
use toolbox_mcp.Models.{
  parse_scope, Scope, ToolsetRecord, SchemaSnapshot, Exception, Result, ok, err,
}
use toolbox_mcp.Models.Policy.{IsValidRecord}
use toolbox_mcp.Validation.{RefreshResult}
use toolbox_mcp.Effects.{World}
use toolbox_mcp.Effects.Spec.{
  Spec, Post, MayRaise, Any, Spec-pure, Spec-bind, Spec-if, Spec-attempt, Spec-compute,
}
use toolbox_mcp.Service.Support.{Report, refreshed_record}
use toolbox_mcp.Service.Steps.Rules.{
  From, FoundAs, Spec-get_record, Spec-save_record, Spec-save_snapshot, Spec-utc_now,
  Spec-append_audit, Spec-fail_with, Spec-has_connection, Spec-load_document, Spec-open,
  Spec-build_snapshot, Spec-swap_runtime,
}
use toolbox_mcp.Service.Refresh.{
  refresh_chosen, refresh_parsed, refresh_toolsets, refresh_failed, open_and_diff, refresh_saved,
  after_refresh, refresh_opened, refresh_loaded, scope_missing, refresh_found, refresh_one,
}

module _ {ns : String} {start : World} (scope : Option Scope) (report : Report RefreshResult) where
  Spec-failed :
      (r : ToolsetRecord) (old_hash : Option String) (e : Exception)
      → r.namespace ≡ ns
      → IsValidRecord r
      → Spec (From ns start) MayRaise Any (refresh_failed scope ns report r old_hash e)
  unfolding refresh_failed
  Spec-failed r old_hash e same v = Spec-bind _ _ Spec-has_connection λ is_connected _.
      Spec-bind _ _ (Spec-save_record _ same v)
        λ _ _. Spec-bind _ _ (Spec-append_audit _ _ _ _ _) λ _ _. Spec-pure _ tt

  Spec-opening :
      (r : ToolsetRecord) (previous : Option SchemaSnapshot)
      → Spec
          (From ns start)
          MayRaise
          (λ result. result.0.namespace ≡ ns)
          (open_and_diff ns r previous)
  unfolding open_and_diff
  Spec-opening r previous = Spec-bind _ _ (Spec-open r) λ opened valid.
      Spec-bind _ _ (Spec-build_snapshot opened.1) λ snapshot same.
        Spec-bind {Q = Any} _ _ (Spec-compute _ (λ host. tt))
          λ diff _. Spec-bind _ _ (Spec-swap_runtime opened.0 valid) λ _ _. Spec-pure _ same

  Spec-saved :
      (r : ToolsetRecord) (old_hash : Option String) (diff : RefreshResult)
      (saved : Result (Unit {0}))
      → r.namespace ≡ ns
      → IsValidRecord r
      → Spec (From ns start) MayRaise Any (refresh_saved scope ns report r old_hash diff saved)
  unfolding refresh_saved
  Spec-saved r old_hash diff (err e) same v = Spec-failed r old_hash e same v
  Spec-saved r old_hash diff (ok _) same v = Spec-pure _ tt

  Spec-opened :
      (r : ToolsetRecord) (old_hash : Option String)
      (opened : Result (SchemaSnapshot × RefreshResult))
      → r.namespace ≡ ns
      → IsValidRecord r
      → Post MayRaise (λ result. result.0.namespace ≡ ns) opened
      → Spec (From ns start) MayRaise Any (refresh_opened scope ns report r old_hash opened)
  unfolding refresh_opened after_refresh refreshed_record
  Spec-opened r old_hash (err e) same v q = Spec-failed r old_hash e same v
  Spec-opened r old_hash (ok (s, diff)) same v q = Spec-bind _ _ Spec-utc_now λ now _.
      Spec-bind _ _
        (Spec-attempt {F = MayRaise} {Q = Any} _ (
          Spec-bind _ _ (Spec-save_record _ same v)
            λ _ _. Spec-bind _ _ (Spec-save_snapshot s q) λ _ _. Spec-append_audit _ _ _ _ _))
        λ saved _. Spec-saved (after_refresh now old_hash s r) old_hash diff saved same v

  Spec-loaded :
      (r : ToolsetRecord)
      → r.namespace ≡ ns
      → IsValidRecord r
      → Spec (From ns start) MayRaise Any (refresh_loaded scope ns report r)
  unfolding refresh_loaded
  Spec-loaded r same v = Spec-bind _ _ Spec-load_document λ document _.
      Spec-bind _ _ (Spec-attempt _ (Spec-opening r _)) λ opened q. Spec-opened r _ opened same v q

  Spec-found :
      (if_stale : Bool) (o : Option ToolsetRecord)
      → FoundAs ns o
      → Spec (From ns start) MayRaise Any (refresh_found if_stale scope ns report o)
  unfolding refresh_found
  Spec-found if_stale none q = Spec-fail_with _ _ _ report
  Spec-found if_stale (some r) (same, v) =
      Spec-if (is_empty r.loaded_scopes) _ _ (λ _. Spec-pure _ tt)
        λ _.
          Spec-if (scope_missing scope r) _ _ (λ _. Spec-pure _ tt)
            λ _.
              Spec-if (if_stale && (not r.stale && is_some r.schema_hash)) _ _ (λ _. Spec-pure _ tt)
                λ _. Spec-loaded r same v

  pub Spec-refresh_one :
      (if_stale : Bool) → Spec (From ns start) MayRaise Any (refresh_one if_stale scope ns report)
  unfolding refresh_one
  Spec-refresh_one if_stale = Spec-bind _ _ Spec-get_record λ o q. Spec-found if_stale o q

module _ {P : String → Type 0} {start : World} (namespaces : Option (List String))
    (ps : Allows P namespaces) where
  Spec-chosen_refresh :
      (if_stale : Bool) (scope : Option Scope)
      → Spec (Visited P start) MayRaise Any (refresh_chosen namespaces if_stale scope)
  unfolding refresh_chosen
  Spec-chosen_refresh if_stale scope =
      Spec-bind _ _ (Spec-chosen namespaces _ ps)
        λ names q. Spec-answered _ (λ ns report w. Spec-refresh_one scope report if_stale) names q

  Spec-parsed :
      (if_stale : Bool) (text : String) (o : Option Scope)
      → Spec (Visited P start) MayRaise Any (refresh_parsed namespaces if_stale text o)
  unfolding refresh_parsed
  Spec-parsed if_stale text none = Spec-bind _ _ (Spec-noted _ _ _ _ _) λ _ _. Spec-pure _ tt
  Spec-parsed if_stale text (some scope) = Spec-chosen_refresh if_stale (some scope)

  pub Spec-refresh_toolsets :
      (if_stale : Bool) (o : Option String)
      → Spec (Visited P start) MayRaise Any (refresh_toolsets namespaces if_stale o)
  unfolding refresh_toolsets
  Spec-refresh_toolsets if_stale none = Spec-chosen_refresh if_stale none
  Spec-refresh_toolsets if_stale (some text) = Spec-parsed if_stale text (parse_scope text)

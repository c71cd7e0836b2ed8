-- ===== src/Service/Activate/Steps.antt =====
-- toolbox/service.py: the body of `activate_toolsets`, by the rules of the service's steps.
use toolbox_mcp.Service.Steps.Visits.{Visited, Spec-answered, Spec-noted}
use toolbox_mcp.Prelude.{
  All, String, ◌≡◌, ◌∙◌, Bool, true, not, ◌&&◌, Option, none, some, List, arith, is_empty, contains,
}
use toolbox_mcp.Models.{
  parse_scope, Scope, scope_eq, ToolsetRecord, SchemaSnapshot, Exception, Instant, Result, ok, err,
}
use toolbox_mcp.Models.Policy.{IsValidRecord}
use toolbox_mcp.ScopeManager.{supports_scope, add_scope, add_recoverable_scope}
use toolbox_mcp.ScopeManager.Laws.{
  add_scope-IsValidRecord, add_recoverable_scope-IsValidRecord, namespace-add_scope,
  namespace-add_recoverable_scope,
}
use toolbox_mcp.Effects.{Runtime, World}
use toolbox_mcp.Effects.Spec.{
  Spec, Post, MayRaise, Any, Spec-pure, Spec-bind, Spec-if, Spec-attempt,
}
use toolbox_mcp.Transport.{IsValidRuntime}
use toolbox_mcp.Transport.Rules.{MountedAs}
use toolbox_mcp.Service.Support.{Report, refreshed_record}
use toolbox_mcp.Service.Steps.Rules.{
  From, FoundAs, Spec-get_record, Spec-save_record, Spec-save_snapshot, Spec-utc_now,
  Spec-append_audit, Spec-fail_with, Spec-runtime_found, Spec-hash_or_runtime, Spec-open_and_mount,
}
use toolbox_mcp.Service.Activate.{
  activate_parsed, activate_toolsets, ActivationResult, reused_record, activate_reusing,
  activate_failed, activated_record, activate_saved, activate_opened, activate_connecting,
  activate_unmounted, activate_supported, activate_found, activate_one,
}

module _ (scope : Scope) (r : ToolsetRecord) where
  added-IsValidRecord :
      supports_scope r scope ≡ true
      → IsValidRecord r
      → IsValidRecord (add_recoverable_scope (add_scope r scope).1 scope).1
  added-IsValidRecord m v =
      add_recoverable_scope-IsValidRecord (add_scope r scope).1 scope
        (add_scope-IsValidRecord r scope m v)

  namespace-added : (add_recoverable_scope (add_scope r scope).1 scope).1.namespace ≡ r.namespace
  namespace-added =
      namespace-add_recoverable_scope (add_scope r scope).1 scope ∙ namespace-add_scope r scope

module _ (scope : Scope) (now : Instant) where
  pub reused_record-IsValidRecord :
      (r : ToolsetRecord)
      → supports_scope r scope ≡ true
      → IsValidRecord r
      → IsValidRecord (reused_record scope now r)
  unfolding reused_record
  reused_record-IsValidRecord r m v = added-IsValidRecord scope r m v

  pub namespace-reused_record :
      (r : ToolsetRecord) → (reused_record scope now r).namespace ≡ r.namespace
  unfolding reused_record
  namespace-reused_record r = namespace-added scope r

  pub activated_record-IsValidRecord :
      (s : SchemaSnapshot) (r : ToolsetRecord)
      → supports_scope r scope ≡ true
      → IsValidRecord r
      → IsValidRecord (activated_record scope now s r)
  unfolding activated_record refreshed_record
  activated_record-IsValidRecord s r m v = added-IsValidRecord scope _ m v

  pub namespace-activated_record :
      (s : SchemaSnapshot) (r : ToolsetRecord)
      → (activated_record scope now s r).namespace ≡ r.namespace
  unfolding activated_record refreshed_record
  namespace-activated_record s r = namespace-added scope _

module _ {ns : String} {start : World} (scope : Scope) (report : Report ActivationResult) where
  Spec-reusing :
      (r : ToolsetRecord) (runtime : Runtime)
      → r.namespace ≡ ns
      → IsValidRecord r
      → supports_scope r scope ≡ true
      → IsValidRuntime runtime
      → Spec (From ns start) MayRaise Any (activate_reusing scope ns report r runtime)
  unfolding activate_reusing
  Spec-reusing r runtime same v m valid = Spec-bind _ _ Spec-utc_now λ now _.
      Spec-bind _ _
        (Spec-save_record _ (namespace-reused_record scope now r ∙ same)
          (reused_record-IsValidRecord scope now r m v))
        λ _ _.
          Spec-bind _ _ (Spec-append_audit _ _ _ _ _)
            λ _ _. Spec-bind _ _ (Spec-hash_or_runtime runtime _) λ hash _. Spec-pure _ tt

  Spec-failed :
      (r : ToolsetRecord) (e : Exception)
      → r.namespace ≡ ns
      → IsValidRecord r
      → Spec (From ns start) MayRaise Any (activate_failed scope ns report r e)
  unfolding activate_failed
  Spec-failed r e same v =
      Spec-bind _ _ (Spec-save_record _ same v) λ _ _. Spec-fail_with _ _ _ report

  Spec-saved :
      (r : ToolsetRecord) (s : SchemaSnapshot) (saved : Result (Unit {0}))
      → r.namespace ≡ ns
      → IsValidRecord r
      → Spec (From ns start) MayRaise Any (activate_saved scope ns report r s saved)
  unfolding activate_saved
  Spec-saved r s (err e) same v = Spec-failed r e same v
  Spec-saved r s (ok _) same v = Spec-pure _ tt

  Spec-opened :
      (r : ToolsetRecord) (opened : Result SchemaSnapshot)
      → r.namespace ≡ ns
      → IsValidRecord r
      → supports_scope r scope ≡ true
      → Post MayRaise (λ s. s.namespace ≡ ns) opened
      → Spec (From ns start) MayRaise Any (activate_opened scope ns report r opened)
  unfolding activate_opened
  Spec-opened r (err e) same v m q = Spec-failed r e same v
  Spec-opened r (ok s) same v m q = Spec-bind _ _ Spec-utc_now λ now _.
      Spec-bind _ _
        (Spec-attempt {F = MayRaise} {Q = Any} _ (
          Spec-bind _ _
            (Spec-save_record _ (namespace-activated_record scope now s r ∙ same)
              (activated_record-IsValidRecord scope now s r m v))
            λ _ _. Spec-bind _ _ (Spec-save_snapshot s q) λ _ _. Spec-append_audit _ _ _ _ _))
        λ saved _.
          Spec-saved (activated_record scope now s r) s saved
            (namespace-activated_record scope now s r ∙ same)
            (activated_record-IsValidRecord scope now s r m v)

  Spec-connecting :
      (r : ToolsetRecord)
      → r.namespace ≡ ns
      → IsValidRecord r
      → supports_scope r scope ≡ true
      → Spec (From ns start) MayRaise Any (activate_connecting scope ns report r)
  unfolding activate_connecting
  Spec-connecting r same v m =
      Spec-bind _ _
        (Spec-attempt _ (Spec-bind _ _ (Spec-save_record _ same v) λ _ _. Spec-open_and_mount _))
        λ opened q. Spec-opened _ opened same v m q

  Spec-unmounted :
      (if_not_loaded : Bool) (r : ToolsetRecord)
      → r.namespace ≡ ns
      → IsValidRecord r
      → supports_scope r scope ≡ true
      → Spec (From ns start) MayRaise Any (activate_unmounted scope if_not_loaded ns report r)
  unfolding activate_unmounted
  Spec-unmounted if_not_loaded r same v m =
      Spec-if (if_not_loaded && contains r.loaded_scopes scope) _ _ (λ _. Spec-pure _ tt)
        (λ _. Spec-connecting r same v m)

  Spec-supported :
      (if_not_loaded : Bool) (r : ToolsetRecord) (o : Option Runtime)
      → r.namespace ≡ ns
      → IsValidRecord r
      → supports_scope r scope ≡ true
      → MountedAs o
      → Spec (From ns start) MayRaise Any (activate_supported scope if_not_loaded ns report r o)
  unfolding activate_supported
  Spec-supported if_not_loaded r none same v m valid = Spec-unmounted if_not_loaded r same v m
  Spec-supported if_not_loaded r (some runtime) same v m valid =
      Spec-if (not (is_empty r.loaded_scopes) && not (contains r.loaded_scopes scope)) _ _
        (λ _. Spec-reusing r runtime same v m valid) (λ _. Spec-unmounted if_not_loaded r same v m)

  Spec-found :
      (if_not_loaded : Bool) (o : Option ToolsetRecord)
      → FoundAs ns o
      → Spec (From ns start) MayRaise Any (activate_found scope if_not_loaded ns report o)
  unfolding activate_found
  Spec-found if_not_loaded none q = Spec-fail_with _ _ _ report
  Spec-found if_not_loaded (some r) (same, v) =
      Spec-if (not (supports_scope r scope)) _ _ (λ _. Spec-fail_with _ _ _ report)
        λ m.
          Spec-bind _ _ Spec-runtime_found
            λ o valid. Spec-supported if_not_loaded r o same v (ground arith) valid

  pub Spec-activate_one :
      (if_not_loaded : Bool)
      → Spec (From ns start) MayRaise Any (activate_one scope if_not_loaded ns report)
  unfolding activate_one
  Spec-activate_one if_not_loaded =
      Spec-bind _ _ Spec-get_record λ o q. Spec-found if_not_loaded o q

module _ {P : String → Type 0} {start : World} (namespaces : List String)
    (ps : All P namespaces) where
  Spec-parsed :
      (text : String) (if_not_loaded : Bool) (o : Option Scope)
      → Spec (Visited P start) MayRaise Any (activate_parsed namespaces text if_not_loaded o)
  unfolding activate_parsed
  Spec-parsed text if_not_loaded none = Spec-bind _ _ (Spec-noted _ _ _ _ _) λ _ _. Spec-pure _ tt
  Spec-parsed text if_not_loaded (some scope) =
      Spec-answered _ (λ ns report w. Spec-activate_one scope report if_not_loaded) namespaces ps

  pub Spec-activate_toolsets :
      (text : String) (if_not_loaded : Bool)
      → Spec (Visited P start) MayRaise Any (activate_toolsets namespaces text if_not_loaded)
  unfolding activate_toolsets
  Spec-activate_toolsets text if_not_loaded = Spec-parsed text if_not_loaded (parse_scope text)

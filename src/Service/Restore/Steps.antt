-- ===== src/Service/Restore/Steps.antt =====
-- toolbox/service.py: the body of `restore_toolsets`, by the rules of the service's steps.
use toolbox_mcp.Service.Steps.Visits.{Visited, Allows, Spec-answered, Spec-chosen}
use toolbox_mcp.Prelude.{
  String, ◌≡◌, ◌∙◌, Bool, not, Option, none, some, List, arith, is_empty, contains, filter_by,
  contains-filter_by,
}
use toolbox_mcp.Models.{
  Scope, scope_eq, ToolsetRecord, SchemaSnapshot, Exception, Instant, Result, ok, err,
}
use toolbox_mcp.Models.Policy.{IsSubset, IsValidRecord}
use toolbox_mcp.ScopeManager.{recovery_scopes}
use toolbox_mcp.ScopeManager.Laws.{
  namespace-add_scopes, add_scopes-IsValidRecord, recovery_scopes-IsSubset,
}
use toolbox_mcp.Effects.{Runtime, World}
use toolbox_mcp.Effects.Spec.{
  Spec, Post, MayRaise, Any, Spec-pure, Spec-bind, Spec-if, Spec-attempt,
}
use toolbox_mcp.Transport.{IsValidRuntime}
use toolbox_mcp.Transport.Rules.{MountedAs}
use toolbox_mcp.Service.Support.{Report, refreshed_record, clear_health_state}
use toolbox_mcp.Service.Steps.Rules.{
  From, FoundAs, Spec-get_record, Spec-save_record, Spec-save_snapshot, Spec-utc_now,
  Spec-append_audit, Spec-fail_with, Spec-runtime_found, Spec-hash_or_runtime, Spec-open_and_mount,
}
use toolbox_mcp.Service.Restore.{
  restore_toolsets, RestoreResult, rejoined_record, restore_reusing, restore_failed,
  restored_record, restore_saved, restore_opened, restore_connecting, restore_mounted,
  restore_found, restore_one,
}

module _ (scopes : List Scope) (now : Instant) (r : ToolsetRecord) where
  namespace-rejoined_record : (rejoined_record scopes now r).namespace ≡ r.namespace
  unfolding rejoined_record
  namespace-rejoined_record = namespace-add_scopes r scopes

  rejoined_record-IsValidRecord :
      IsSubset scopes r.supported_scopes
      → IsValidRecord r
      → IsValidRecord (rejoined_record scopes now r)
  unfolding rejoined_record
  rejoined_record-IsValidRecord sub v = add_scopes-IsValidRecord r scopes sub v

  namespace-restored_record :
      (s : SchemaSnapshot) → (restored_record scopes now s r).namespace ≡ r.namespace
  unfolding restored_record refreshed_record clear_health_state
  namespace-restored_record s = namespace-add_scopes _ scopes

  restored_record-IsValidRecord :
      (s : SchemaSnapshot)
      → IsSubset scopes r.supported_scopes
      → IsValidRecord r
      → IsValidRecord (restored_record scopes now s r)
  unfolding restored_record refreshed_record clear_health_state
  restored_record-IsValidRecord s sub v = add_scopes-IsValidRecord _ scopes sub v

missing-IsSubset :
    (p : Scope → Bool) (xs ys : List Scope) → IsSubset xs ys → IsSubset (filter_by p xs) ys
missing-IsSubset p xs ys sub s h = sub s (ground (arith, contains-filter_by p xs s))

module _ {ns : String} {start : World} (startup : Bool) (report : Report RestoreResult) where
  Spec-reusing :
      (r : ToolsetRecord) (missing : List Scope) (runtime : Runtime)
      → r.namespace ≡ ns
      → IsValidRecord r
      → IsSubset missing r.supported_scopes
      → IsValidRuntime runtime
      → Spec (From ns start) MayRaise Any (restore_reusing startup ns report r missing runtime)
  unfolding restore_reusing
  Spec-reusing r missing runtime same v sub valid = Spec-bind _ _ Spec-utc_now λ now _.
      Spec-bind _ _
        (Spec-save_record (rejoined_record missing now r)
          (namespace-rejoined_record missing now r ∙ same)
          (rejoined_record-IsValidRecord missing now r sub v))
        λ _ _.
          Spec-bind _ _ (Spec-hash_or_runtime runtime _)
            λ hash _. Spec-bind _ _ (Spec-append_audit _ _ _ _ _) λ _ _. Spec-pure _ tt

  Spec-failed :
      (r : ToolsetRecord) (e : Exception)
      → r.namespace ≡ ns
      → IsValidRecord r
      → Spec (From ns start) MayRaise Any (restore_failed startup ns report r e)
  unfolding restore_failed
  Spec-failed r e same v =
      Spec-bind _ _ (Spec-save_record _ same v)
        λ _ _. Spec-bind _ _ (Spec-append_audit _ _ _ _ _) λ _ _. Spec-pure _ tt

  Spec-saved :
      (r : ToolsetRecord) (s : SchemaSnapshot) (saved : Result (Unit {0}))
      → r.namespace ≡ ns
      → IsValidRecord r
      → Spec (From ns start) MayRaise Any (restore_saved startup ns report r s saved)
  unfolding restore_saved
  Spec-saved r s (err e) same v = Spec-failed r e same v
  Spec-saved r s (ok _) same v = Spec-pure _ tt

  Spec-opened :
      (r : ToolsetRecord) (scopes : List Scope) (opened : Result SchemaSnapshot)
      → r.namespace ≡ ns
      → IsValidRecord r
      → IsSubset scopes r.supported_scopes
      → Post MayRaise (λ s. s.namespace ≡ ns) opened
      → Spec (From ns start) MayRaise Any (restore_opened startup ns report r scopes opened)
  unfolding restore_opened
  Spec-opened r scopes (err e) same v sub q = Spec-failed r e same v
  Spec-opened r scopes (ok s) same v sub q = Spec-bind _ _ Spec-utc_now λ now _.
      Spec-bind _ _
        (Spec-attempt {F = MayRaise} {Q = Any} _ (
          Spec-bind _ _
            (Spec-save_record (restored_record scopes now s r)
              (namespace-restored_record scopes now r s ∙ same)
              (restored_record-IsValidRecord scopes now r s sub v))
            λ _ _. Spec-bind _ _ (Spec-save_snapshot s q) λ _ _. Spec-append_audit _ _ _ _ _))
        λ saved _.
          Spec-saved (restored_record scopes now s r) s saved
            (namespace-restored_record scopes now r s ∙ same)
            (restored_record-IsValidRecord scopes now r s sub v)

  Spec-connecting :
      (r : ToolsetRecord) (scopes : List Scope)
      → r.namespace ≡ ns
      → IsValidRecord r
      → IsSubset scopes r.supported_scopes
      → Spec (From ns start) MayRaise Any (restore_connecting startup ns report r scopes)
  unfolding restore_connecting
  Spec-connecting r scopes same v sub =
      Spec-bind _ _
        (Spec-attempt _ (Spec-bind _ _ (Spec-save_record _ same v) λ _ _. Spec-open_and_mount _))
        λ opened q. Spec-opened _ scopes opened same v sub q

  Spec-mounted :
      (r : ToolsetRecord) (scopes : List Scope) (o : Option Runtime)
      → r.namespace ≡ ns
      → IsValidRecord r
      → IsSubset scopes r.supported_scopes
      → MountedAs o
      → Spec (From ns start) MayRaise Any (restore_mounted startup ns report r scopes o)
  unfolding restore_mounted
  Spec-mounted r scopes none same v sub valid = Spec-connecting r scopes same v sub
  Spec-mounted r scopes (some runtime) same v sub valid =
      Spec-if (is_empty (filter_by (λ s. not (contains r.loaded_scopes s)) scopes)) _ _
        (λ _. Spec-pure _ tt)
        (λ _.
          Spec-reusing r _ runtime same v (missing-IsSubset _ scopes r.supported_scopes sub) valid)

  Spec-found :
      (identity : Bool) (o : Option ToolsetRecord)
      → FoundAs ns o
      → Spec (From ns start) MayRaise Any (restore_found identity startup ns report o)
  unfolding restore_found
  Spec-found identity none q = Spec-fail_with _ _ _ report
  Spec-found identity (some r) (same, v) =
      Spec-if (is_empty (recovery_scopes r identity (not startup))) _ _ (λ _. Spec-pure _ tt)
        λ _. Spec-bind _ _ Spec-runtime_found λ o valid.
          Spec-mounted r _ o same v (recovery_scopes-IsSubset r identity (not startup)) valid

  pub Spec-restore_one :
      (identity : Bool) → Spec (From ns start) MayRaise Any (restore_one identity startup ns report)
  unfolding restore_one
  Spec-restore_one identity = Spec-bind _ _ Spec-get_record λ o q. Spec-found identity o q

pub Spec-restore_toolsets :
    {P : String → Type 0} {start : World} (namespaces : Option (List String))
    (identity startup : Bool)
    → Allows P namespaces
    → Spec (Visited P start) MayRaise Any (restore_toolsets namespaces identity startup)
unfolding restore_toolsets
Spec-restore_toolsets namespaces identity startup ps =
    Spec-bind _ _ (Spec-chosen namespaces _ ps)
      λ names q. Spec-answered _ (λ ns report w. Spec-restore_one startup report identity) names q

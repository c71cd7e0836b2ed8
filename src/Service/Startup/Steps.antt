-- ===== src/Service/Startup/Steps.antt =====
-- toolbox/service.py: `_reconcile_scope_state_on_startup`, by the rules of the service's steps.
use toolbox_mcp.Prelude.{
  String, ◌≡◌, refl, true, false, List, [], ◌∷◌, arith, All, is_empty, contains, contains-filter_by,
  if◌then◌else◌, Bool-cases, inl, inr,
}
use toolbox_mcp.Models.{
  Scope, thread, scope_eq, scope_beq_iff, IsOrdered, filter_by-IsOrdered, ToolsetRecord,
  TransportState, inactive, connecting, connected, degraded, stale_state, failed_state,
}
use toolbox_mcp.Models.Policy.{IsSubset, IsValidRecord}
use toolbox_mcp.Effects.{World}
use toolbox_mcp.Effects.Spec.{Spec, MayRaise, Any, Spec-pure, Spec-bind, Spec-if, Spec-load}
use toolbox_mcp.Service.Support.{load_all_records}
use toolbox_mcp.Service.Steps.{ready}
use toolbox_mcp.Service.Steps.Rules.{Spec-save_record}
use toolbox_mcp.Service.Steps.Visits.{Visited, Spec-visit}
use toolbox_mcp.Service.Startup.{
  reconciled_scopes, scopes_beq, is_inactive, reconciled, is_changed, reconcile_each,
  reconcile_scope_state_on_startup,
}

reconciled_scopes-IsOrdered :
    (r : ToolsetRecord) → IsValidRecord r → IsOrdered (reconciled_scopes r)
reconciled_scopes-IsOrdered r v = elim (Bool-cases (is_empty r.recoverable_scopes)) [
  | inl none_left ↦ rw none_left (filter_by-IsOrdered _ r.loaded_scopes v.loaded_ordered)
  | inr some_left ↦ rw some_left v.recoverable_ordered
]

-- What becomes recoverable was loaded or recoverable, and is restorable.
reconciled_scopes-IsSubset :
    (r : ToolsetRecord) → IsValidRecord r → IsSubset (reconciled_scopes r) r.restorable_scopes
reconciled_scopes-IsSubset r v s h = ground (
  arith,
  contains-filter_by (contains r.restorable_scopes) r.loaded_scopes s,
  v.allowed.recoverable_restorable s,
)

pub reconciled-IsValidRecord : (r : ToolsetRecord) → IsValidRecord r → IsValidRecord (reconciled r)
unfolding reconciled
reconciled-IsValidRecord r v = record {
  supported_ordered = v.supported_ordered;
  restorable_ordered = v.restorable_ordered;
  recoverable_ordered = reconciled_scopes-IsOrdered r v;
  loaded_ordered = tt;
  allowed = record {
    default_supported = v.allowed.default_supported;
    loaded_supported = λ s h. cc;
    restorable_supported = v.allowed.restorable_supported;
    thread_not_restorable = v.allowed.thread_not_restorable;
    recoverable_supported =
        λ s h. v.allowed.restorable_supported s (reconciled_scopes-IsSubset r v s h);
    recoverable_restorable = reconciled_scopes-IsSubset r v;
  };
}

scopes_beq_iff :
    (xs ys : List Scope) → (scopes_beq xs ys ≡ true → xs ≡ ys) × (scopes_beq xs xs ≡ true)
unfolding scopes_beq
scopes_beq_iff [] [] = (λ h. refl, refl)
scopes_beq_iff [] (y ∷ ys) = (λ h. cc, refl)
scopes_beq_iff (x ∷ xs) [] = (λ h. cc, ground (arith, (scopes_beq_iff xs []).1, scope_beq_iff x x))
scopes_beq_iff (x ∷ xs) (y ∷ ys) = (
  λ h. ground (arith, (scopes_beq_iff xs ys).0, scope_beq_iff x y),
  ground (arith, (scopes_beq_iff xs ys).1, scope_beq_iff x x),
)

namespace-reconciled : (r : ToolsetRecord) → (reconciled r).namespace ≡ r.namespace
unfolding reconciled
namespace-reconciled r = refl

module _ {P : String → Type 0} {start : World} (permitted : (k : String) → P k) where
  Spec-reconcile_each :
      (rs : List ToolsetRecord)
      → All IsValidRecord rs
      → Spec (Visited P start) MayRaise Any (reconcile_each rs)
  unfolding reconcile_each
  Spec-reconcile_each [] vs = Spec-pure tt tt
  Spec-reconcile_each (r ∷ rs) (v, vs) =
      Spec-bind {Q = Any} _ _
        (Spec-visit r.namespace _ (permitted r.namespace) λ w.
          Spec-if (is_changed r) _ _
            (λ _.
              Spec-save_record (reconciled r) (namespace-reconciled r)
                (reconciled-IsValidRecord r v))
            (λ _. Spec-pure tt tt))
        λ _ _. Spec-reconcile_each rs vs

  Spec-load_valid : Spec (Visited P start) MayRaise (All IsValidRecord) load_all_records
  unfolding load_all_records
  Spec-load_valid =
      Spec-bind _ _ (Spec-load (λ w h. ready h.sound)) λ d f. Spec-pure _ f.records_valid

  pub Spec-reconcile_scope_state_on_startup :
      Spec (Visited P start) MayRaise Any reconcile_scope_state_on_startup
  unfolding reconcile_scope_state_on_startup
  Spec-reconcile_scope_state_on_startup =
      Spec-bind _ _ Spec-load_valid λ rs vs. Spec-reconcile_each rs vs

scopes_beq-settled : (xs : List Scope) → scopes_beq xs (if is_empty xs then [] else xs) ≡ true
unfolding scopes_beq
scopes_beq-settled [] = refl
scopes_beq-settled (x ∷ xs) = (scopes_beq_iff (x ∷ xs) []).1

is_empty-nil : (xs : List Scope) → is_empty xs ≡ true → xs ≡ []
is_empty-nil [] h = refl
is_empty-nil (x ∷ xs) h = cc

is_inactive_iff : (state : TransportState) → is_inactive state ≡ true → state ≡ inactive
is_inactive_iff inactive h = refl
is_inactive_iff connecting h = cc
is_inactive_iff connected h = cc
is_inactive_iff degraded h = cc
is_inactive_iff stale_state h = cc
is_inactive_iff failed_state h = cc

-- The reconciled record of a valid one is valid, has no loaded scope, never recovers the thread scope, and
-- is not changed by another start.
pub reconciled_settles :
    (r : ToolsetRecord)
    → IsValidRecord r
    → IsValidRecord (reconciled r)
      × ((reconciled r).loaded_scopes ≡ [])
      × (contains (reconciled r).recoverable_scopes thread ≡ false)
      × (is_changed (reconciled r) ≡ false)
unfolding reconciled is_changed
reconciled_settles r v = (
  reconciled-IsValidRecord r v,
  refl,
  ground (arith, reconciled_scopes-IsSubset r v thread, v.allowed.thread_not_restorable),
  ground (arith, scopes_beq-settled (reconciled_scopes r)),
)

-- A record that the start does not save is its own reconciliation.
pub reconciled_unchanged : (r : ToolsetRecord) → is_changed r ≡ false → reconciled r ≡ r
unfolding reconciled is_changed
reconciled_unchanged r h = cc (
  (scopes_beq_iff r.recoverable_scopes (reconciled_scopes r)).0 (ground arith),
  is_empty-nil r.loaded_scopes (ground arith),
  is_inactive_iff r.transport_state (ground arith),
)

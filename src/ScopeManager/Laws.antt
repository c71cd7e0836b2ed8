-- ===== src/ScopeManager/Laws.antt =====
-- toolbox/scope_manager.py: the methods, by membership and by the validity of the record.
use toolbox_mcp.Prelude.{
  ◌≡◌, refl, Bool, true, false, not, ◌&&◌, ◌||◌, List, [], ◌∷◌, ◌++◌, arith, ◌==◌, contains,
  IsDistinct, contains-append, contains-filter_by, filter_by, Bool-cases, inl, inr,
}
use toolbox_mcp.Models.{
  Scope, thread, scope_eq, scope_beq_iff, sort_scopes, IsOrdered, IsOrdered-IsDistinct,
  sort_scopes-IsOrdered, contains-sort_scopes, filter_by-IsOrdered, ToolsetRecord,
}
use toolbox_mcp.Models.Policy.{IsSubset, IsValidRecord}
use toolbox_mcp.ScopeManager.{
  startup_restore_scopes, recovery_scopes, supports_scope, add_scope, remove_scope,
  add_recoverable_scope, remove_recoverable_scope, add_scopes,
}

append-IsDistinct :
    (xs : List Scope) (s : Scope)
    → contains xs s ≡ false
    → IsDistinct xs
    → IsDistinct (xs ++ s ∷ [])
append-IsDistinct [] s n h = (refl, tt)
append-IsDistinct (x ∷ xs) s n h = ground (
  arith,
  append-IsDistinct xs s (ground arith) h.1,
  contains-append xs (s ∷ []) x,
  scope_beq_iff s x,
  scope_beq_iff x s,
)

contains-added :
    (xs : List Scope) (s t : Scope)
    → contains (sort_scopes (xs ++ s ∷ [])) t ≡ (contains xs t || s == t)
contains-added xs s t =
    ground (arith, contains-sort_scopes (xs ++ s ∷ []) t, contains-append xs (s ∷ []) t)

added-IsOrdered :
    (xs : List Scope) (s : Scope)
    → contains xs s ≡ false
    → IsOrdered xs
    → IsOrdered (sort_scopes (xs ++ s ∷ []))
added-IsOrdered xs s n h =
    sort_scopes-IsOrdered (xs ++ s ∷ []) (append-IsDistinct xs s n (IsOrdered-IsDistinct xs h))

added-IsSubset :
    (xs ys : List Scope) (s : Scope)
    → IsSubset xs ys
    → contains ys s ≡ true
    → IsSubset (sort_scopes (xs ++ s ∷ [])) ys
added-IsSubset xs ys s h m t k = ground (arith, contains-added xs s t, h t, scope_beq_iff s t)

filtered-IsSubset :
    (p : Scope → Bool) (xs ys : List Scope) → IsSubset xs ys → IsSubset (filter_by p xs) ys
filtered-IsSubset p xs ys h t k = h t (ground (arith, contains-filter_by p xs t))

module _ (r : ToolsetRecord) (s : Scope) where
  -- After `add_scope` the loaded scopes are the old ones and `s`.
  pub contains-add_scope :
      (t : Scope)
      → contains (add_scope r s).1.loaded_scopes t ≡ (contains r.loaded_scopes t || s == t)
  unfolding add_scope
  contains-add_scope t = ground (arith, contains-added r.loaded_scopes s t, scope_beq_iff s t)

  pub contains-remove_scope :
      (t : Scope)
      → contains (remove_scope r s).1.loaded_scopes t ≡ (contains r.loaded_scopes t && not (t == s))
  unfolding remove_scope
  contains-remove_scope t =
      ground
        (arith, contains-filter_by (λ item. not (item == s)) r.loaded_scopes t, scope_beq_iff t s)

  -- A removal touches one list.
  pub remove_scope_frame :
      (remove_scope r s).1 ≡ record r { loaded_scopes = (remove_scope r s).1.loaded_scopes }
  unfolding remove_scope
  remove_scope_frame = elim (Bool-cases (contains r.loaded_scopes s)) [
    | inl held ↦ rw held refl
    | inr new ↦ rw new refl
  ]

  pub remove_recoverable_scope_frame :
      (remove_recoverable_scope r s).1
      ≡ record r { recoverable_scopes = (remove_recoverable_scope r s).1.recoverable_scopes }
  unfolding remove_recoverable_scope
  remove_recoverable_scope_frame = elim (Bool-cases (contains r.recoverable_scopes s)) [
    | inl held ↦ rw held refl
    | inr new ↦ rw new refl
  ]

  -- After `add_recoverable_scope` the recoverable scopes are the old ones, and `s` if it is restorable.
  pub contains-add_recoverable_scope :
      (t : Scope)
      → contains (add_recoverable_scope r s).1.recoverable_scopes t
        ≡ (contains r.recoverable_scopes t || contains r.restorable_scopes s && s == t)
  unfolding add_recoverable_scope
  contains-add_recoverable_scope t =
      ground (arith, contains-added r.recoverable_scopes s t, scope_beq_iff s t)

  pub contains-remove_recoverable_scope :
      (t : Scope)
      → contains (remove_recoverable_scope r s).1.recoverable_scopes t
        ≡ (contains r.recoverable_scopes t && not (t == s))
  unfolding remove_recoverable_scope
  contains-remove_recoverable_scope t = ground (
    arith,
    contains-filter_by (λ item. not (item == s)) r.recoverable_scopes t,
    scope_beq_iff t s,
  )

  pub add_scope-IsValidRecord :
      supports_scope r s ≡ true → IsValidRecord r → IsValidRecord (add_scope r s).1
  unfolding add_scope
  add_scope-IsValidRecord m v = elim (Bool-cases (contains r.loaded_scopes s)) [
    | inl held ↦ rw held v
    | inr new ↦ rw new (record {
      supported_ordered = v.supported_ordered;
      restorable_ordered = v.restorable_ordered;
      recoverable_ordered = v.recoverable_ordered;
      loaded_ordered = added-IsOrdered _ s new v.loaded_ordered;
      allowed = record {
        default_supported = v.allowed.default_supported;
        loaded_supported = added-IsSubset _ _ s v.allowed.loaded_supported m;
        restorable_supported = v.allowed.restorable_supported;
        thread_not_restorable = v.allowed.thread_not_restorable;
        recoverable_supported = v.allowed.recoverable_supported;
        recoverable_restorable = v.allowed.recoverable_restorable;
      };
    })
  ]

  pub remove_scope-IsValidRecord : IsValidRecord r → IsValidRecord (remove_scope r s).1
  unfolding remove_scope
  remove_scope-IsValidRecord v = elim (Bool-cases (contains r.loaded_scopes s)) [
    | inl held ↦ rw held (record {
      supported_ordered = v.supported_ordered;
      restorable_ordered = v.restorable_ordered;
      recoverable_ordered = v.recoverable_ordered;
      loaded_ordered = filter_by-IsOrdered _ _ v.loaded_ordered;
      allowed = record {
        default_supported = v.allowed.default_supported;
        loaded_supported = filtered-IsSubset _ _ _ v.allowed.loaded_supported;
        restorable_supported = v.allowed.restorable_supported;
        thread_not_restorable = v.allowed.thread_not_restorable;
        recoverable_supported = v.allowed.recoverable_supported;
        recoverable_restorable = v.allowed.recoverable_restorable;
      };
    })
    | inr absent ↦ rw absent v
  ]

  pub add_recoverable_scope-IsValidRecord :
      IsValidRecord r → IsValidRecord (add_recoverable_scope r s).1
  unfolding add_recoverable_scope
  add_recoverable_scope-IsValidRecord v = elim (Bool-cases (contains r.restorable_scopes s)) [
    | inr barred ↦ rw barred v
    | inl may ↦ elim (Bool-cases (contains r.recoverable_scopes s)) [
      | inl held ↦ rw (may, held) v
      | inr new ↦
          rw (may, new)
            (record {
              supported_ordered = v.supported_ordered;
              restorable_ordered = v.restorable_ordered;
              recoverable_ordered = added-IsOrdered _ s new v.recoverable_ordered;
              loaded_ordered = v.loaded_ordered;
              allowed = record {
                default_supported = v.allowed.default_supported;
                loaded_supported = v.allowed.loaded_supported;
                restorable_supported = v.allowed.restorable_supported;
                thread_not_restorable = v.allowed.thread_not_restorable;
                recoverable_supported =
                    added-IsSubset _ _ s v.allowed.recoverable_supported
                      (v.allowed.restorable_supported s may);
                recoverable_restorable = added-IsSubset _ _ s v.allowed.recoverable_restorable may;
              };
            })
    ]
  ]

  pub remove_recoverable_scope-IsValidRecord :
      IsValidRecord r → IsValidRecord (remove_recoverable_scope r s).1
  unfolding remove_recoverable_scope
  remove_recoverable_scope-IsValidRecord v = elim (Bool-cases (contains r.recoverable_scopes s)) [
    | inl held ↦ rw held (record {
      supported_ordered = v.supported_ordered;
      restorable_ordered = v.restorable_ordered;
      recoverable_ordered = filter_by-IsOrdered _ _ v.recoverable_ordered;
      loaded_ordered = v.loaded_ordered;
      allowed = record {
        default_supported = v.allowed.default_supported;
        loaded_supported = v.allowed.loaded_supported;
        restorable_supported = v.allowed.restorable_supported;
        thread_not_restorable = v.allowed.thread_not_restorable;
        recoverable_supported = filtered-IsSubset _ _ _ v.allowed.recoverable_supported;
        recoverable_restorable = filtered-IsSubset _ _ _ v.allowed.recoverable_restorable;
      };
    })
    | inr absent ↦ rw absent v
  ]

  pub namespace-add_scope : (add_scope r s).1.namespace ≡ r.namespace
  unfolding add_scope
  namespace-add_scope = ground arith

  pub supported_scopes-add_scope : (add_scope r s).1.supported_scopes ≡ r.supported_scopes
  unfolding add_scope
  supported_scopes-add_scope = ground arith

  pub namespace-remove_scope : (remove_scope r s).1.namespace ≡ r.namespace
  unfolding remove_scope
  namespace-remove_scope = ground arith

  pub namespace-add_recoverable_scope : (add_recoverable_scope r s).1.namespace ≡ r.namespace
  unfolding add_recoverable_scope
  namespace-add_recoverable_scope = ground arith

  pub namespace-remove_recoverable_scope : (remove_recoverable_scope r s).1.namespace ≡ r.namespace
  unfolding remove_recoverable_scope
  namespace-remove_recoverable_scope = ground arith

pub namespace-add_scopes :
    (r : ToolsetRecord) (ss : List Scope) → (add_scopes r ss).namespace ≡ r.namespace
unfolding add_scopes
namespace-add_scopes r [] = refl
namespace-add_scopes r (s ∷ ss) =
    cc (namespace-add_scopes (add_scope r s).1 ss, namespace-add_scope r s)

-- Adding any number of supported scopes keeps a record valid.
pub add_scopes-IsValidRecord :
    (r : ToolsetRecord) (ss : List Scope)
    → IsSubset ss r.supported_scopes
    → IsValidRecord r
    → IsValidRecord (add_scopes r ss)
unfolding add_scopes
add_scopes-IsValidRecord r [] h v = v
add_scopes-IsValidRecord r (s ∷ ss) h v =
    add_scopes-IsValidRecord (add_scope r s).1 ss
      (λ t m. rw (supported_scopes-add_scope r s) (h t (ground arith)))
      (add_scope-IsValidRecord r s (h s (ground (arith, scope_beq_iff s s))) v)

-- A scope is recovered exactly when it is recoverable, restorable and supported, and the identity and
-- the explicit request that the record asks for are given.
pub contains-recovery_scopes :
    (r : ToolsetRecord) (identity explicit : Bool) (s : Scope)
    → contains (recovery_scopes r identity explicit) s ≡ (
        (not r.restore_requires_identity || identity)
        && (not r.restore_requires_explicit_request || explicit)
        && contains r.recoverable_scopes s
        && contains r.restorable_scopes s
        && contains r.supported_scopes s)
unfolding recovery_scopes
contains-recovery_scopes r identity explicit s = ground (
  arith,
  contains-filter_by
      (λ scope. contains r.restorable_scopes scope && contains r.supported_scopes scope)
      r.recoverable_scopes s,
)

pub recovery_scopes-IsSubset :
    (r : ToolsetRecord) (identity explicit : Bool)
    → IsSubset (recovery_scopes r identity explicit) r.supported_scopes
recovery_scopes-IsSubset r identity explicit s h =
    ground (arith, contains-recovery_scopes r identity explicit s)

-- No valid record is ever recovered, or restored on startup, into the thread scope.
pub thread_never_recovered :
    (r : ToolsetRecord) (identity explicit enabled : Bool)
    → IsValidRecord r
    → (contains (recovery_scopes r identity explicit) thread ≡ false)
      × (contains (startup_restore_scopes r enabled identity) thread ≡ false)
unfolding startup_restore_scopes
thread_never_recovered r identity explicit enabled v = (
  ground
      (arith, contains-recovery_scopes r identity explicit thread, v.allowed.thread_not_restorable),
  ground (
    arith,
    contains-filter_by (contains r.supported_scopes) r.restorable_scopes thread,
    v.allowed.thread_not_restorable,
  ),
)

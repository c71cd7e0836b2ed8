-- ===== src/Models/Policy.antt =====
-- toolbox/models.py: `ToolsetRecord.validate_scope_policy`, which runs on every record that pydantic
-- builds, a load of the state file included.
use Prim.Native.String.{◌++◌}
use toolbox_mcp.Prelude.{
  String, ◌≡◌, refl, sym, ap, subst, Bool, true, false, not, List, [], ◌∷◌, map, arith,
  if◌then◌else◌, is_empty, filter_by, contains, Bool-cases, inl, inr,
}
use toolbox_mcp.Models.Scopes.{
  Scope, thread, scope_value, scope_eq, ordered_unique_scopes, IsOrdered,
  contains-ordered_unique_scopes, ordered_unique_scopes-IsOrdered,
  ordered_unique_scopes_of_IsOrdered,
}
use toolbox_mcp.Models.Error.{Result, ok, err, Exception, other_error}
use toolbox_mcp.Models.Record.{ToolsetRecord}

-- `", ".join(parts)`.
abbrev pub join_comma : List String → String
join_comma [] = ""
join_comma (x ∷ []) = x
join_comma (x ∷ y ∷ rest) = x ++ (", " ++ join_comma (y ∷ rest))

-- `[scope for scope in scopes if scope not in allowed]`.
abbrev pub outside : List Scope → List Scope → List Scope
outside allowed scopes = filter_by (λ s. not (contains allowed s)) scopes

abbrev values : List Scope → List String
values scopes = map scope_value scopes

-- The four lists, ordered and without duplicates.
unfoldable pub order_scopes : ToolsetRecord → ToolsetRecord
order_scopes r = record r {
  supported_scopes = ordered_unique_scopes r.supported_scopes;
  restorable_scopes = ordered_unique_scopes r.restorable_scopes;
  recoverable_scopes = ordered_unique_scopes r.recoverable_scopes;
  loaded_scopes = ordered_unique_scopes r.loaded_scopes;
}

-- The checks of the validator, in its order, on the record with ordered lists.
unfoldable pub check_scope_policy : ToolsetRecord → Result ToolsetRecord
check_scope_policy r =
    if not (contains r.supported_scopes r.default_scope)
    then err (
        other_error (
          "default_scope '"
          ++ (scope_value r.default_scope ++ "' must be included in supported_scopes")))
    else if not (is_empty (outside r.supported_scopes r.loaded_scopes))
    then err (
        other_error (
          "loaded_scopes must stay within supported_scopes (unsupported: "
          ++ (join_comma (values (outside r.supported_scopes r.loaded_scopes)) ++ ")")))
    else if not (is_empty (outside r.supported_scopes r.restorable_scopes))
    then err (
        other_error (
          "restorable_scopes must stay within supported_scopes (unsupported: "
          ++ (join_comma (values (outside r.supported_scopes r.restorable_scopes)) ++ ")")))
    else if contains r.restorable_scopes thread
    then err (other_error "thread scope cannot be marked restorable")
    else if not (is_empty (outside r.supported_scopes r.recoverable_scopes))
    then err (
        other_error (
          "recoverable_scopes must stay within supported_scopes (unsupported: "
          ++ (join_comma (values (outside r.supported_scopes r.recoverable_scopes)) ++ ")")))
    else if not (is_empty (outside r.restorable_scopes r.recoverable_scopes))
    then err (
        other_error (
          "recoverable_scopes must stay within restorable_scopes (non-restorable: "
          ++ (join_comma (values (outside r.restorable_scopes r.recoverable_scopes)) ++ ")")))
    else ok r

unfoldable pub validate_scope_policy : ToolsetRecord → Result ToolsetRecord
validate_scope_policy r = check_scope_policy (order_scopes r)

abbrev pub IsSubset : List Scope → List Scope → Type 0
IsSubset xs ys = (s : Scope) → contains xs s ≡ true → contains ys s ≡ true

-- The scope policy, by membership alone: of a default scope, and of the supported, restorable,
-- recoverable and loaded scopes.
pub record AllowedScopes (default : Scope) (supported restorable recoverable loaded : List Scope)
    : Type 0 where
  pub default_supported : contains supported default ≡ true
  pub loaded_supported : IsSubset loaded supported
  pub restorable_supported : IsSubset restorable supported
  pub thread_not_restorable : contains restorable thread ≡ false
  pub recoverable_supported : IsSubset recoverable supported
  pub recoverable_restorable : IsSubset recoverable restorable

abbrev pub IsAllowed : ToolsetRecord → Type 0
IsAllowed r =
    AllowedScopes r.default_scope r.supported_scopes r.restorable_scopes r.recoverable_scopes
      r.loaded_scopes

-- The policy, with ordered lists.
pub record ValidScopes (default : Scope) (supported restorable recoverable loaded : List Scope)
    : Type 0 where
  pub supported_ordered : IsOrdered supported
  pub restorable_ordered : IsOrdered restorable
  pub recoverable_ordered : IsOrdered recoverable
  pub loaded_ordered : IsOrdered loaded
  pub allowed : AllowedScopes default supported restorable recoverable loaded

-- What a record in the state document satisfies. It does not read the other fields.
abbrev pub IsValidRecord : ToolsetRecord → Type 0
IsValidRecord r =
    ValidScopes r.default_scope r.supported_scopes r.restorable_scopes r.recoverable_scopes
      r.loaded_scopes

outside-IsSubset : (ys xs : List Scope) → is_empty (outside ys xs) ≡ true → IsSubset xs ys
outside-IsSubset ys [] h s m = cc
outside-IsSubset ys (x ∷ xs) h s m = elim (Bool-cases (contains ys x)) [
  | inl held ↦ elim (Bool-cases (scope_eq.beq x s)) [
    | inl same ↦ let at : x ≡ s = (scope_eq.beq_iff x s).0 same in rw (← at) held
    | inr other ↦ outside-IsSubset ys xs (ground arith) s (ground arith)
  ]
  | inr missing ↦ ground arith
]

IsSubset-outside : (ys xs : List Scope) → IsSubset xs ys → outside ys xs ≡ []
IsSubset-outside ys [] h = refl
IsSubset-outside ys (x ∷ xs) h = ground (
  arith,
  h x (ground (arith, (scope_eq.beq_iff x x).1 refl)),
  IsSubset-outside ys xs (λ s m. h s (ground arith)),
)

-- The checks that a record passed.
abbrev Passed : ToolsetRecord → Type 0
Passed r =
    (contains r.supported_scopes r.default_scope ≡ true)
    × (is_empty (outside r.supported_scopes r.loaded_scopes) ≡ true)
    × (is_empty (outside r.supported_scopes r.restorable_scopes) ≡ true)
    × (contains r.restorable_scopes thread ≡ false)
    × (is_empty (outside r.supported_scopes r.recoverable_scopes) ≡ true)
    × (is_empty (outside r.restorable_scopes r.recoverable_scopes) ≡ true)

ok_of_guard :
    (b : Bool) (e : Exception) (m : Result ToolsetRecord) {r : ToolsetRecord}
    → (if b then err e else m) ≡ ok r
    → (b ≡ false) × (m ≡ ok r)
ok_of_guard true e m h = cc
ok_of_guard false e m h = (refl, h)

not-false : (b : Bool) → not b ≡ false → b ≡ true
not-false b h = ground arith

check_scope_policy-Passed :
    (r r' : ToolsetRecord) → check_scope_policy r ≡ ok r' → (r ≡ r') × Passed r
unfolding check_scope_policy
check_scope_policy-Passed r r' h =
    let (a, h1) = ok_of_guard _ _ _ h in
    let (b, h2) = ok_of_guard _ _ _ h1 in
    let (c, h3) = ok_of_guard _ _ _ h2 in
    let (d, h4) = ok_of_guard _ _ _ h3 in
    let (e, h5) = ok_of_guard _ _ _ h4 in
    let (f, h6) = ok_of_guard _ _ _ h5 in
    (cc h6, (not-false _ a, not-false _ b, not-false _ c, d, not-false _ e, not-false _ f))

check_scope_policy-IsAllowed :
    (r r' : ToolsetRecord) → check_scope_policy r ≡ ok r' → (r ≡ r') × IsAllowed r
check_scope_policy-IsAllowed r r' h =
    let (same, (a, b, c, d, e, f)) = check_scope_policy-Passed r r' h in
    (
      same,
      record {
        default_supported = a;
        loaded_supported = outside-IsSubset _ _ b;
        restorable_supported = outside-IsSubset _ _ c;
        thread_not_restorable = d;
        recoverable_supported = outside-IsSubset _ _ e;
        recoverable_restorable = outside-IsSubset _ _ f;
      },
    )

check_scope_policy-ok : (r : ToolsetRecord) → IsAllowed r → check_scope_policy r ≡ ok r
unfolding check_scope_policy
check_scope_policy-ok r a = rw (
  a.default_supported,
  IsSubset-outside _ _ a.loaded_supported,
  IsSubset-outside _ _ a.restorable_supported,
  a.thread_not_restorable,
  IsSubset-outside _ _ a.recoverable_supported,
  IsSubset-outside _ _ a.recoverable_restorable,
)

IsSubset-ordered :
    (xs ys : List Scope)
    → IsSubset xs ys
    → IsSubset (ordered_unique_scopes xs) (ordered_unique_scopes ys)
IsSubset-ordered xs ys h s m =
    rw (contains-ordered_unique_scopes ys s) (h s (rw (contains-ordered_unique_scopes xs s) at m))

IsSubset-of_ordered :
    (xs ys : List Scope)
    → IsSubset (ordered_unique_scopes xs) (ordered_unique_scopes ys)
    → IsSubset xs ys
IsSubset-of_ordered xs ys h s m =
    rw (contains-ordered_unique_scopes ys s) at (h s (rw (contains-ordered_unique_scopes xs s) m))

order_scopes-IsAllowed : (r : ToolsetRecord) → IsAllowed r → IsAllowed (order_scopes r)
unfolding order_scopes
order_scopes-IsAllowed r a = record {
  default_supported = rw contains-ordered_unique_scopes a.default_supported;
  loaded_supported = IsSubset-ordered _ _ a.loaded_supported;
  restorable_supported = IsSubset-ordered _ _ a.restorable_supported;
  thread_not_restorable = rw contains-ordered_unique_scopes a.thread_not_restorable;
  recoverable_supported = IsSubset-ordered _ _ a.recoverable_supported;
  recoverable_restorable = IsSubset-ordered _ _ a.recoverable_restorable;
}

IsAllowed-of_order_scopes : (r : ToolsetRecord) → IsAllowed (order_scopes r) → IsAllowed r
unfolding order_scopes
IsAllowed-of_order_scopes r a = record {
  default_supported = rw contains-ordered_unique_scopes at a.default_supported;
  loaded_supported = IsSubset-of_ordered _ _ a.loaded_supported;
  restorable_supported = IsSubset-of_ordered _ _ a.restorable_supported;
  thread_not_restorable = rw contains-ordered_unique_scopes at a.thread_not_restorable;
  recoverable_supported = IsSubset-of_ordered _ _ a.recoverable_supported;
  recoverable_restorable = IsSubset-of_ordered _ _ a.recoverable_restorable;
}

-- The lists of `order_scopes r` are ordered, whatever `r` holds.
order_scopes-IsValidRecord :
    (r : ToolsetRecord) → IsAllowed (order_scopes r) → IsValidRecord (order_scopes r)
unfolding order_scopes
order_scopes-IsValidRecord r a = record {
  supported_ordered = ordered_unique_scopes-IsOrdered r.supported_scopes;
  restorable_ordered = ordered_unique_scopes-IsOrdered r.restorable_scopes;
  recoverable_ordered = ordered_unique_scopes-IsOrdered r.recoverable_scopes;
  loaded_ordered = ordered_unique_scopes-IsOrdered r.loaded_scopes;
  allowed = a;
}

order_scopes_of_IsValidRecord : (r : ToolsetRecord) → IsValidRecord r → order_scopes r ≡ r
unfolding order_scopes
order_scopes_of_IsValidRecord r v = cc (
  ordered_unique_scopes_of_IsOrdered _ v.supported_ordered,
  ordered_unique_scopes_of_IsOrdered _ v.restorable_ordered,
  ordered_unique_scopes_of_IsOrdered _ v.recoverable_ordered,
  ordered_unique_scopes_of_IsOrdered _ v.loaded_ordered,
)

-- A record whose scope policy is allowed by membership passes the validator, and comes out as the record
-- with ordered lists, which is valid.
pub validate_scope_policy_of_IsAllowed :
    (r : ToolsetRecord)
    → IsAllowed r
    → (validate_scope_policy r ≡ ok (order_scopes r)) × IsValidRecord (order_scopes r)
unfolding validate_scope_policy
validate_scope_policy_of_IsAllowed r a = (
  check_scope_policy-ok (order_scopes r) (order_scopes-IsAllowed r a),
  order_scopes-IsValidRecord r (order_scopes-IsAllowed r a),
)

-- A record passes the validator only if its scope policy is allowed by membership, and what the validator
-- returns is valid.
pub validate_scope_policy_sound :
    (r r' : ToolsetRecord) → validate_scope_policy r ≡ ok r' → IsAllowed r × IsValidRecord r'
unfolding validate_scope_policy
validate_scope_policy_sound r r' h =
    let (same, a) = check_scope_policy-IsAllowed (order_scopes r) r' h in
    (IsAllowed-of_order_scopes r a, subst IsValidRecord same (order_scopes-IsValidRecord r a))

pub namespace-validate_scope_policy :
    (r r' : ToolsetRecord) → validate_scope_policy r ≡ ok r' → r'.namespace ≡ r.namespace
unfolding validate_scope_policy order_scopes
namespace-validate_scope_policy r r' h =
    let (same, a) = check_scope_policy-IsAllowed (order_scopes r) r' h in
    ap (λ t. t.namespace) (sym same)

-- A valid record passes the validator unchanged, so that a load of the state file keeps it.
pub validate_scope_policy_of_IsValidRecord :
    (r : ToolsetRecord) → IsValidRecord r → validate_scope_policy r ≡ ok r
unfolding validate_scope_policy
validate_scope_policy_of_IsValidRecord r v =
    rw (order_scopes_of_IsValidRecord r v) (check_scope_policy-ok r v.allowed)

-- ===== src/Service/Register/Steps.antt =====
-- toolbox/service.py: `register_toolset`, by the rules of the service's steps.
use toolbox_mcp.Prelude.{
  ◌≡◌, refl, Bool, true, false, Option, none, some, List, [], if◌then◌else◌, ◌==◌, string_eq,
}
use toolbox_mcp.Models.{
  Scope, parse_scope, all_scopes, ToolsetTransport, ToolsetRecord, ErrorInfo, Result, ok, err,
  then_ok,
}
use toolbox_mcp.Models.Policy.{
  IsValidRecord, validate_scope_policy, validate_scope_policy_sound,
  namespace-validate_scope_policy,
}
use toolbox_mcp.Effects.{World, Exec}
use toolbox_mcp.Effects.Spec.{Spec, MayRaise, Any, Spec-pure, Spec-bind, Spec-compute}
use toolbox_mcp.Service.Steps.Rules.{
  From, Spec-get_record, Spec-save_record, Spec-append_audit, Spec-audit_unnamed,
}
use toolbox_mcp.Service.Register.{
  Registration, RegisterResponse, reject, assembled, default_or_error, scopes_or, build_record,
  register_built, register_absent, register_transport, register_named, register_toolset,
}

module _ (request : Registration) (transport : ToolsetTransport) (r : ToolsetRecord) where
  abbrev IsBuilt : Type 0
  IsBuilt = (r.namespace ≡ request.namespace) × IsValidRecord r

  restorable_parsed :
      (default : Scope) (supported : List Scope) (o : Result (List Scope))
      → then_ok o (λ restorable.
        validate_scope_policy (assembled request transport default supported restorable))
        ≡ ok r
      → IsBuilt
  unfolding then_ok assembled
  restorable_parsed default supported (err e) h = cc
  restorable_parsed default supported (ok restorable) h =
      (namespace-validate_scope_policy _ r h, (validate_scope_policy_sound _ r h).1)

  supported_parsed :
      (default : Scope) (o : Result (List Scope))
      → then_ok o (λ supported. then_ok (scopes_or request.restorable_scopes []) λ restorable.
        validate_scope_policy (assembled request transport default supported restorable))
        ≡ ok r
      → IsBuilt
  unfolding then_ok
  supported_parsed default (err e) h = cc
  supported_parsed default (ok supported) h = restorable_parsed default supported _ h

  default_parsed :
      (o : Result Scope)
      → then_ok o (λ default. then_ok (scopes_or request.supported_scopes all_scopes) λ supported.
        then_ok (scopes_or request.restorable_scopes []) λ restorable.
          validate_scope_policy (assembled request transport default supported restorable))
        ≡ ok r
      → IsBuilt
  unfolding then_ok
  default_parsed (err e) h = cc
  default_parsed (ok default) h = supported_parsed default _ h

-- A record that is built is valid and has the namespace that was asked for.
pub build_record-IsValidRecord :
    (request : Registration) (transport : ToolsetTransport) (r : ToolsetRecord)
    → build_record request transport ≡ ok r
    → (r.namespace ≡ request.namespace) × IsValidRecord r
unfolding build_record
build_record-IsValidRecord request transport r h =
    default_parsed request transport r
      (default_or_error (parse_scope request.default_scope) request.default_scope) h

module _ (start : World) (request : Registration) where
  abbrev Registers : Exec RegisterResponse → Type 0
  Registers m = Spec (From request.namespace start) MayRaise Any m

  Spec-reject-some : (error : ErrorInfo) → Registers (reject (some request.namespace) error)
  unfolding reject
  Spec-reject-some error = Spec-bind _ _ (Spec-append_audit _ _ _ _ _) λ _ _. Spec-pure _ tt

  Spec-reject_named :
      (b : Bool) (error : ErrorInfo)
      → Registers (reject (if b then none else some request.namespace) error)
  unfolding reject
  Spec-reject_named true error = Spec-bind _ _ (Spec-audit_unnamed _ _ _ _ _) λ _ _. Spec-pure _ tt
  Spec-reject_named false error = Spec-reject-some error

  Spec-built :
      (transport : ToolsetTransport) (o : Result ToolsetRecord)
      → build_record request transport ≡ o
      → Registers (register_built request.namespace o)
  unfolding register_built
  Spec-built transport (err e) h =
      Spec-bind {Q = Any} _ _ (Spec-compute _ (λ host. tt)) λ detail _. Spec-reject-some _
  Spec-built transport (ok r) h =
      let (same, v) = build_record-IsValidRecord request transport r h in
      Spec-bind _ _ (Spec-save_record r same v)
        λ _ _. Spec-bind {Q = Any} _ _ (rw same (Spec-append_audit _ _ _ _ _)) λ _ _. Spec-pure _ tt

  Spec-absent :
      (transport : ToolsetTransport) (o : Option ToolsetRecord)
      → Registers (register_absent request transport o)
  unfolding register_absent
  Spec-absent transport none = Spec-built transport _ refl
  Spec-absent transport (some r) = Spec-reject-some _

  Spec-transport : (o : Result ToolsetTransport) → Registers (register_transport request o)
  unfolding register_transport
  Spec-transport (err e) = Spec-reject-some _
  Spec-transport (ok transport) = Spec-bind _ _ Spec-get_record λ o _. Spec-absent transport o

  Spec-named : (b : Bool) → Registers (register_named request b)
  unfolding register_named
  Spec-named false = Spec-reject_named (request.namespace == "") _
  Spec-named true = Spec-bind {Q = Any} _ _ (Spec-compute _ (λ host. tt)) λ o _. Spec-transport o

  pub Spec-register_toolset : Registers (register_toolset request)
  unfolding register_toolset
  Spec-register_toolset = Spec-bind {Q = Any} _ _ (Spec-compute _ (λ host. tt)) λ b _. Spec-named b

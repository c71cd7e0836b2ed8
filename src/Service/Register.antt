-- ===== src/Service/Register.antt =====
-- toolbox/service.py: `register_toolset`. What pydantic makes of the transport payload is the host's; the
-- scope names are parsed here, and the scope policy is the validator of toolbox/models.py.
pub mod Steps
pub mod Outcome
use Prim.Native.Char.{code}
use toolbox_mcp.Prelude.{
  ℕ, String, Bool, true, false, not, ◌&&◌, ◌||◌, Option, none, some, List, [], ◌∷◌, if◌then◌else◌,
  is_empty, is_some, ◌==◌, string_eq, distinct, length, nat_beq, map, text_of,
}
use toolbox_mcp.Json.{Fields, end, field, str, bool, nat, strings}
use toolbox_mcp.Models.{
  Scope, all_scopes, scope_value, parse_scope, TransportKind, stdio, ToolsetTransport,
  ToolsetRecord, default_record, register, success, failure, ErrorInfo, Exception, str_of,
  other_error, Result, ok, err, then_ok,
}
use toolbox_mcp.Models.Policy.{validate_scope_policy}
use toolbox_mcp.ScopeManager.{scope_policy, scope_values}
use toolbox_mcp.Validation.{sort_names}
use toolbox_mcp.Host.{Host}
use toolbox_mcp.Effects.{Exec, pure, compute, ◌>>=◌, ◌>>◌}
use toolbox_mcp.Service.Support.{error_info, get_record, save_record, append_audit}
use toolbox_mcp.Service.Activate.{optional_json}

-- The arguments of `register_toolset`.
pub record Registration : Type 0 where
  pub namespace : String
  pub title : String
  pub description : String
  pub transport : Fields
  pub tags : Option (List String)
  pub default_scope : String
  pub supported_scopes : Option (List String)
  pub restorable_scopes : Option (List String)
  pub restore_requires_identity : Bool
  pub restore_requires_explicit_request : Bool
  pub auth_required : Bool

-- The `registered` part of the answer.
pub record Registered : Type 0 where
  pub namespace : String
  pub title : String
  pub description : String
  pub tags : List String
  pub transport : Fields
  pub default_scope : String
  pub scope_policy : Fields
  pub auth_required : Bool

pub record RegisterResponse : Type 0 where
  pub registered : Option Registered
  pub error : Option ErrorInfo

abbrev valid_character : (ℕ → Bool) → ℕ → Bool
valid_character alnum c = alnum c || (nat_beq c b'_' || nat_beq c b'-')

unfoldable pub valid_characters : (ℕ → Bool) → String → Bool
valid_characters alnum String.[] = true
valid_characters alnum (String.◌∷◌ c s) = valid_character alnum (code c) && valid_characters alnum s

-- `_is_valid_namespace`.
unfoldable pub is_valid_namespace : Host → String → Bool
unfolding valid_characters
is_valid_namespace host namespace =
    if namespace == "" then false else valid_characters host.is_alnum namespace

abbrev kind_text : TransportKind → String
kind_text stdio = "stdio"

abbrev env_names : List (String × String) → List String
env_names [] = []
env_names ((name, _) ∷ rest) = name ∷ env_names rest

-- `_public_transport`: neither arguments nor values of the environment are shown.
unfoldable pub public_transport : ToolsetTransport → Fields
public_transport t = field "kind" (str (kind_text t.kind)) (
    field "command" (str t.command) (
      field "cwd" (optional_json t.cwd) (
        field "has_args" (bool (not (is_empty t.args))) (
          field "arg_count" (nat (length t.args)) (
            field "args_values_redacted" (bool (not (is_empty t.args))) (
              field "has_env" (bool (not (is_empty t.env))) (
                field "env_keys" (strings (sort_names (env_names t.env)))
                  (field "env_values_redacted" (bool (not (is_empty t.env))) end))))))))

-- `namespace or None`.
abbrev named : String → Option String
named namespace = if namespace == "" then none else some namespace

abbrev pub rejected : ErrorInfo → RegisterResponse
rejected error = record { registered = none; error = some error }

-- Audit the failure under a namespace, and answer with it.
reject : Option String → ErrorInfo → Exec RegisterResponse
reject namespace error = do
  append_audit register failure namespace none end (some error)
  pure (rejected error)

invalid_namespace : String → ErrorInfo
invalid_namespace namespace =
    error_info "invalid_namespace"
      "Namespaces may only contain letters, numbers, underscores, and hyphens." (named namespace)
      false none

pub toolset_exists : String → ErrorInfo
toolset_exists namespace =
    error_info "toolset_exists" (text_of ("Toolset already exists: " ∷ namespace ∷ []))
      (some namespace) false none

invalid_scope_policy : String → String → ErrorInfo
invalid_scope_policy namespace detail =
    error_info "invalid_scope_policy" "The requested scope policy is invalid." (some namespace)
      false (some (field "validation_error" (str detail) end))

-- The scopes of a list of names; a name that is no scope fails the whole list.
parse_scopes : List String → Result (List Scope)
parse_scopes [] = ok []
parse_scopes (text ∷ texts) = elim (parse_scope text) [
  | none ↦ err (other_error text)
  | some scope ↦ elim (parse_scopes texts) [ err e ↦ err e | ok scopes ↦ ok (scope ∷ scopes) ]
]

unfoldable pub scopes_or : Option (List String) → List Scope → Result (List Scope)
unfolding parse_scopes
scopes_or none default = ok default
scopes_or (some texts) default = parse_scopes texts

unfoldable pub default_or_error : Option Scope → String → Result Scope
default_or_error none text = err (other_error text)
default_or_error (some scope) text = ok scope

unfoldable pub tags_or_empty : Option (List String) → List String
tags_or_empty none = []
tags_or_empty (some tags) = sort_names (distinct tags)

unfoldable pub assembled :
    Registration → ToolsetTransport → Scope → List Scope → List Scope → ToolsetRecord
unfolding tags_or_empty
assembled request transport default supported restorable =
    record (default_record request.namespace request.title request.description transport) {
      tags = tags_or_empty request.tags;
      default_scope = default;
      supported_scopes = supported;
      restorable_scopes = restorable;
      restore_requires_identity = request.restore_requires_identity;
      restore_requires_explicit_request = request.restore_requires_explicit_request;
      auth_required = request.auth_required;
    }

-- `ToolsetRecord.model_validate({…})`.
unfoldable pub build_record : Registration → ToolsetTransport → Result ToolsetRecord
unfolding scopes_or default_or_error assembled then_ok
build_record request transport =
    then_ok (default_or_error (parse_scope request.default_scope) request.default_scope) λ default.
      then_ok (scopes_or request.supported_scopes all_scopes) λ supported.
        then_ok (scopes_or request.restorable_scopes []) λ restorable.
          validate_scope_policy (assembled request transport default supported restorable)

pub registered_of : ToolsetRecord → Registered
unfolding public_transport
registered_of r = record {
  namespace = r.namespace;
  title = r.title;
  description = r.description;
  tags = r.tags;
  transport = public_transport r.transport;
  default_scope = scope_value r.default_scope;
  scope_policy = scope_policy r;
  auth_required = r.auth_required;
}

register_built : String → Result ToolsetRecord → Exec RegisterResponse
unfolding registered_of reject invalid_scope_policy
register_built namespace (err e) = do
  detail ← compute (λ host. host.validation_text (str_of e))
  reject (some namespace) (invalid_scope_policy namespace detail)
register_built namespace (ok r) = do
  save_record r
  append_audit register success (some r.namespace) (some r.default_scope)
      (field "transport_kind" (str (kind_text r.transport.kind)) (
        field "auth_required" (bool r.auth_required) (
          field "supported_scopes" (strings (scope_values r.supported_scopes))
            (field "restorable_scopes" (strings (scope_values r.restorable_scopes)) end))))
      none
  pure (record { registered = some (registered_of r); error = none })

register_absent : Registration → ToolsetTransport → Option ToolsetRecord → Exec RegisterResponse
unfolding register_built toolset_exists
register_absent request transport (some r) =
    reject (some request.namespace) (toolset_exists request.namespace)
register_absent request transport none =
    register_built request.namespace (build_record request transport)

register_transport : Registration → Result ToolsetTransport → Exec RegisterResponse
unfolding register_absent
register_transport request (err e) =
    reject (some request.namespace)
      (error_info "invalid_transport" (str_of e) (some request.namespace) false none)
register_transport request (ok transport) = do
  found ← get_record request.namespace
  register_absent request transport found

register_named : Registration → Bool → Exec RegisterResponse
unfolding register_transport invalid_namespace
register_named request false =
    reject (named request.namespace) (invalid_namespace request.namespace)
register_named request true = do
  transport ← compute (λ host. host.transport_of request.transport)
  register_transport request transport

pub register_toolset : Registration → Exec RegisterResponse
unfolding register_named
register_toolset request = do
  is_valid ← compute (λ host. is_valid_namespace host request.namespace)
  register_named request is_valid

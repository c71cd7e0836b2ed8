-- ===== src/Models/Record.antt =====
-- toolbox/models.py: transports, tool schemas, toolset records and schema snapshots. A `datetime`
-- is an instant, counted as a number.
use toolbox_mcp.Prelude.{ℕ, String, Bool, true, false, Option, none, List, []}
use toolbox_mcp.Json.{Fields}
use toolbox_mcp.Models.Scopes.{Scope, thread, all_scopes}
use toolbox_mcp.Models.Error.{TransportKind, TransportState, inactive, HealthStatus, ErrorInfo}

abbrev pub Instant : Type 0
Instant = ℕ

pub record ToolsetTransport : Type 0 where
  pub kind : TransportKind
  pub command : String
  pub args : List String
  pub env : List (String × String)
  pub cwd : Option String

-- `mcp.types.Tool`, by the fields that the program reads.
pub record Tool : Type 0 where
  pub name : String
  pub title : Option String
  pub description : Option String
  pub input_schema : Fields
  pub output_schema : Option Fields

pub record ToolSchema : Type 0 where
  pub name : String
  pub title : Option String
  pub description : Option String
  pub input_schema : Fields
  pub output_schema : Option Fields
  pub tool_hash : String

pub record ToolsetRecord : Type 0 where
  pub namespace : String
  pub title : String
  pub description : String
  pub tags : List String
  pub transport : ToolsetTransport
  pub default_scope : Scope
  pub supported_scopes : List Scope
  pub restorable_scopes : List Scope
  pub recoverable_scopes : List Scope
  pub restore_requires_identity : Bool
  pub restore_requires_explicit_request : Bool
  pub loaded_scopes : List Scope
  pub transport_state : TransportState
  pub stale : Bool
  pub stale_reason : Option String
  pub schema_hash : Option String
  pub previous_schema_hash : Option String
  pub tool_count : ℕ
  pub last_activated_at : Option Instant
  pub last_refreshed_at : Option Instant
  pub last_known_good_at : Option Instant
  pub last_restored_at : Option Instant
  pub last_health_checked_at : Option Instant
  pub last_health_status : Option HealthStatus
  pub last_health_observed_schema_hash : Option String
  pub last_health_observed_tool_count : Option ℕ
  pub last_health_error : Option ErrorInfo
  pub last_error : Option ErrorInfo
  pub auth_required : Bool

-- A record with the defaults that the class gives.
abbrev pub default_record : String → String → String → ToolsetTransport → ToolsetRecord
default_record namespace title description transport = record {
  namespace = namespace;
  title = title;
  description = description;
  tags = [];
  transport = transport;
  default_scope = thread;
  supported_scopes = all_scopes;
  restorable_scopes = [];
  recoverable_scopes = [];
  restore_requires_identity = true;
  restore_requires_explicit_request = true;
  loaded_scopes = [];
  transport_state = inactive;
  stale = false;
  stale_reason = none;
  schema_hash = none;
  previous_schema_hash = none;
  tool_count = 0;
  last_activated_at = none;
  last_refreshed_at = none;
  last_known_good_at = none;
  last_restored_at = none;
  last_health_checked_at = none;
  last_health_status = none;
  last_health_observed_schema_hash = none;
  last_health_observed_tool_count = none;
  last_health_error = none;
  last_error = none;
  auth_required = false;
}

pub record SchemaSnapshot : Type 0 where
  pub namespace : String
  pub schema_hash : String
  pub tool_count : ℕ
  pub tools : List ToolSchema
  pub captured_at : Instant

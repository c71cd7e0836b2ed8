-- ===== src/Models/Document.antt =====
-- toolbox/models.py: audit events and the persisted state document.
use toolbox_mcp.Prelude.{ℕ, String, Bool, Option, List, []}
use toolbox_mcp.Json.{Fields}
use toolbox_mcp.Models.Scopes.{Scope}
use toolbox_mcp.Models.Error.{AuditOperation, AuditOutcome, ErrorInfo}
use toolbox_mcp.Models.Record.{Instant, ToolsetRecord, SchemaSnapshot}

pub record StoredAuditEvent : Type 0 where
  pub sequence : ℕ
  pub timestamp : Instant
  pub operation : AuditOperation
  pub outcome : AuditOutcome
  pub namespace : Option String
  pub scope : Option Scope
  pub details : Fields
  pub error : Option ErrorInfo

pub record AuditEvent : Type 0 where
  pub sequence : ℕ
  pub timestamp : Instant
  pub operation : AuditOperation
  pub outcome : AuditOutcome
  pub namespace : Option String
  pub scope : Option Scope
  pub registration_present : Option Bool
  pub details : Fields
  pub error : Option ErrorInfo

pub record StateDocument : Type 0 where
  pub version : ℕ
  pub toolsets : List ToolsetRecord
  pub schema_cache : List SchemaSnapshot
  pub previous_schema_cache : List SchemaSnapshot
  pub audit_log : List StoredAuditEvent
  pub next_audit_sequence : ℕ

-- `StateDocument()`.
abbrev pub default_document : StateDocument
default_document = record {
  version = 2;
  toolsets = [];
  schema_cache = [];
  previous_schema_cache = [];
  audit_log = [];
  next_audit_sequence = 1;
}

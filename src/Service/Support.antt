-- ===== src/Service/Support.antt =====
-- toolbox/service.py: the helpers that the handlers share.
use toolbox_mcp.Prelude.{
  ℕ, String, Bool, true, false, Option, none, some, List, [], ◌∷◌, ◌++◌, if◌then◌else◌, length,
  text_of, map, filter_by, nat_beq, ◌==◌, string_eq,
}
use toolbox_mcp.Json.{Fields, end, field, str}
use toolbox_mcp.Models.{
  Scope, ToolSchema, ToolsetRecord, SchemaSnapshot, TransportState, connected, stale_state,
  failed_state, HealthStatus, healthy, ErrorInfo, AuditOperation, AuditOutcome, failure,
  StoredAuditEvent, Instant, other_error,
}
use toolbox_mcp.Registry.{
  get_toolset, upsert_toolset, replace_schema_snapshot, append_audit_event,
  default_audit_retention_limit,
}
use toolbox_mcp.Validation.{inventory_hash}
use toolbox_mcp.Effects.{Runtime, Exec, pure, raise, ◌>>=◌, ◌>>◌, load, mutate, compute, utc_now}
use toolbox_mcp.Transport.{has_connection, open_runtime, swap_runtime}

-- The accumulators of a handler over namespaces.
pub record Report (A : Type 0) : Type 0 where
  pub done : List A
  pub skipped : List Fields
  pub failed : List ErrorInfo

-- What such a handler answers.
pub record Response (A : Type 0) : Type 0 where
  pub report : Report A
  pub error : Option ErrorInfo

module _ {A : Type 0} where
  abbrev pub empty_report : Report A
  empty_report = record { done = []; skipped = []; failed = [] }

  abbrev pub add_done : A → Report A → Report A
  add_done a report = record report { done = report.done ++ a ∷ [] }

  abbrev pub add_skipped : Fields → Report A → Report A
  add_skipped entry report = record report { skipped = report.skipped ++ entry ∷ [] }

  abbrev pub add_failed : ErrorInfo → Report A → Report A
  add_failed error report = record report { failed = report.failed ++ error ∷ [] }

  abbrev pub answer : Report A → Response A
  answer report = record { report = report; error = none }

  abbrev pub refused : ErrorInfo → Response A
  refused error = record { report = empty_report; error = some error }

  -- `for namespace in namespaces: async with self._namespace_lock(namespace): …`.
  unfoldable pub for_each :
      (String → Report A → Exec (Report A)) → List String → Report A → Exec (Report A)
  for_each body [] report = pure report
  for_each body (namespace ∷ rest) report = do
    report' ← body namespace report
    for_each body rest report'

abbrev pub error_info : String → String → Option String → Bool → Option Fields → ErrorInfo
error_info code message namespace retryable details = record {
  code = code;
  message = message;
  namespace = namespace;
  retryable = retryable;
  details = details;
}

abbrev pub unknown_toolset : String → ErrorInfo
unknown_toolset namespace =
    error_info "unknown_toolset" (text_of ("Unknown toolset: " ∷ namespace ∷ [])) (some namespace)
      false none

abbrev pub invalid_scope : String → ErrorInfo
invalid_scope scope =
    error_info "invalid_scope" (text_of ("Unsupported scope: " ∷ scope ∷ [])) none false none

-- A skipped entry with its reason.
abbrev pub skip_entry : String → String → Fields → Fields
skip_entry namespace reason rest =
    field "namespace" (str namespace) (field "reason" (str reason) rest)

abbrev single : List Scope → Option Scope
single (scope ∷ []) = some scope
single _ = none

-- `_audit_scope`.
unfoldable pub audit_scope : Option ToolsetRecord → Option Scope → Option Scope
audit_scope record' (some preferred) = some preferred
audit_scope none none = none
audit_scope (some r) none = single r.loaded_scopes

unfoldable pub get_record : String → Exec (Option ToolsetRecord)
get_record namespace = do document ← load; pure (get_toolset document namespace)

unfoldable pub load_all_records : Exec (List ToolsetRecord)
load_all_records = do document ← load; pure document.toolsets

abbrev pub names_where : (ToolsetRecord → Bool) → List ToolsetRecord → List String
names_where test records = map (λ r. r.namespace) (filter_by test records)

-- `namespaces or [record.namespace for record in self._load_all_records() if test(record)]`: an empty list
-- is falsy too.
unfoldable pub chosen : Option (List String) → (ToolsetRecord → Bool) → Exec (List String)
chosen (some (namespace ∷ rest)) test = pure (namespace ∷ rest)
chosen (some []) test = do records ← load_all_records; pure (names_where test records)
chosen none test = do records ← load_all_records; pure (names_where test records)

-- `self.store.upsert_toolset(record)`.
unfoldable pub save_record : ToolsetRecord → Exec (Unit {0})
save_record r = mutate (upsert_toolset r)

-- `self.store.replace_schema_snapshot(snapshot)`.
unfoldable pub save_snapshot : SchemaSnapshot → Exec (Unit {0})
save_snapshot snapshot = mutate (replace_schema_snapshot snapshot)

abbrev pub new_event :
    Instant
    → AuditOperation
    → AuditOutcome
    → Option String
    → Option Scope
    → Fields
    → Option ErrorInfo
    → StoredAuditEvent
new_event now operation outcome namespace scope details error = record {
  sequence = 0;
  timestamp = now;
  operation = operation;
  outcome = outcome;
  namespace = namespace;
  scope = scope;
  details = details;
  error = error;
}

-- `_append_audit_event`.
unfoldable pub append_audit :
    AuditOperation
    → AuditOutcome
    → Option String
    → Option Scope
    → Fields
    → Option ErrorInfo
    → Exec (Unit {0})
append_audit operation outcome namespace scope details error = do
  now ← utc_now
  mutate (
      append_audit_event default_audit_retention_limit
        (new_event now operation outcome namespace scope details error))

module _ {A : Type 0} where
  -- Audit a failure that has no details, and list its error.
  unfoldable pub fail_with :
      AuditOperation → String → Option Scope → ErrorInfo → Report A → Exec (Report A)
  fail_with operation namespace scope error report = do
    append_audit operation failure (some namespace) scope end (some error)
    pure (add_failed error report)

-- `_build_snapshot`.
unfoldable pub build_snapshot : String → List ToolSchema → Exec SchemaSnapshot
build_snapshot namespace tools = do
  hash ← compute (λ host. inventory_hash host tools)
  now ← utc_now
  pure (record {
    namespace = namespace;
    schema_hash = hash;
    tool_count = length tools;
    tools = tools;
    captured_at = now;
  })

-- `_clear_health_state`.
unfoldable pub clear_health_state : ToolsetRecord → ToolsetRecord
clear_health_state r = record r {
  last_health_status = none;
  last_health_checked_at = none;
  last_health_observed_schema_hash = none;
  last_health_observed_tool_count = none;
  last_health_error = none;
}

-- The assignments after a runtime was swapped in: activation, restore and refresh share them.
unfoldable pub refreshed_record : Option String → SchemaSnapshot → ToolsetRecord → ToolsetRecord
unfolding clear_health_state
refreshed_record previous_hash snapshot r = clear_health_state (record r {
  previous_schema_hash = previous_hash;
  schema_hash = some snapshot.schema_hash;
  tool_count = snapshot.tool_count;
  transport_state = connected;
  stale = false;
  stale_reason = none;
  last_error = none;
})

-- `STALE if record.stale else CONNECTED`.
abbrev pub resumed_state : ToolsetRecord → TransportState
resumed_state r = if r.stale then stale_state else connected

-- Open a runtime, take its snapshot and swap it in: the beginning of the `try` blocks.
unfoldable pub open_and_mount : String → ToolsetRecord → Exec SchemaSnapshot
open_and_mount namespace r = do
  opened ← open_runtime r
  snapshot ← build_snapshot namespace opened.1
  swap_runtime namespace opened.0
  pure snapshot

-- `record.tool_count or len(runtime.tools)`.
abbrev pub count_or_tools : ToolsetRecord → Runtime → ℕ
count_or_tools r runtime = if nat_beq r.tool_count 0 then length runtime.tools else r.tool_count

-- `inventory_hash(self._normalize_runtime_tools(namespace, runtime))`: the module does not import the
-- function `validate_tool_inventory` that `_normalize_runtime_tools` calls, so that this is a `NameError`.
unfoldable pub runtime_hash : String → Runtime → Exec String
runtime_hash namespace runtime = raise (other_error "name 'validate_tool_inventory' is not defined")

-- `record.schema_hash or …`: an empty hash is falsy too.
unfoldable pub hash_or_runtime : String → Runtime → Option String → Exec String
hash_or_runtime namespace runtime none = runtime_hash namespace runtime
hash_or_runtime namespace runtime (some hash) =
    if hash == "" then runtime_hash namespace runtime else pure hash

abbrev failure_state : Bool → TransportState
failure_state is_connected = if is_connected then stale_state else failed_state

unfoldable pub failure_recorded :
    String
    → String
    → String
    → String
    → Option Fields
    → Option ToolsetRecord
    → Exec (Option ErrorInfo)
failure_recorded namespace code message stale_reason details none = pure none
failure_recorded namespace code message stale_reason details (some r) = do
  is_connected ← has_connection namespace
  let error = error_info code message (some namespace) true details
  save_record (record r {
    transport_state = failure_state is_connected;
    stale = true;
    stale_reason = some stale_reason;
    last_error = some error;
  })
  pure (some error)

-- `_record_runtime_failure`: namespace, code, message, stale reason and details.
unfoldable pub record_runtime_failure :
    String → String → String → String → Option Fields → Exec (Option ErrorInfo)
unfolding failure_recorded
record_runtime_failure namespace code message stale_reason details = do
  found ← get_record namespace
  failure_recorded namespace code message stale_reason details found

-- toolbox/models.py: `HealthCheckResult`.
pub record HealthCheckResult : Type 0 where
  pub namespace : String
  pub status : HealthStatus
  pub transport_state : TransportState
  pub loaded_scopes : List Scope
  pub stale : Bool
  pub stale_reason : Option String
  pub cached_schema_hash : Option String
  pub observed_schema_hash : Option String
  pub observed_tool_count : Option ℕ
  pub last_checked_at : Option Instant
  pub error : Option ErrorInfo

abbrev observed_state : HealthStatus → Bool → TransportState → TransportState
observed_state healthy true state = connected
observed_state _ _ state = state

unfoldable pub observation_recorded :
    String
    → HealthStatus
    → Option String
    → Option ℕ
    → Option ErrorInfo
    → Option ToolsetRecord
    → Exec HealthCheckResult
observation_recorded namespace status hash count error none =
    raise (other_error (text_of ("Unknown toolset: " ∷ namespace ∷ [])))
observation_recorded namespace status hash count error (some r) = do
  now ← utc_now
  is_connected ← has_connection namespace
  let r' = record r {
    last_health_checked_at = some now;
    last_health_status = some status;
    last_health_observed_schema_hash = hash;
    last_health_observed_tool_count = count;
    last_health_error = error;
    transport_state = observed_state status is_connected r.transport_state;
  }
  save_record r'
  pure (record {
    namespace = namespace;
    status = status;
    transport_state = r'.transport_state;
    loaded_scopes = r'.loaded_scopes;
    stale = r'.stale;
    stale_reason = r'.stale_reason;
    cached_schema_hash = r'.schema_hash;
    observed_schema_hash = hash;
    observed_tool_count = count;
    last_checked_at = some now;
    error = error;
  })

-- `_record_health_observation`: namespace, status, observed hash and count, and the error.
unfoldable pub record_health_observation :
    String → HealthStatus → Option String → Option ℕ → Option ErrorInfo → Exec HealthCheckResult
unfolding observation_recorded
record_health_observation namespace status hash count error = do
  found ← get_record namespace
  observation_recorded namespace status hash count error found

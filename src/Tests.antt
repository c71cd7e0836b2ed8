-- ===== src/Tests.antt =====
-- The theorems at concrete inputs: one toolset, a host that answers with one tool, and a registry that
-- holds the toolset.
pub mod Calls
pub mod Endings
pub mod Secrets
pub mod Contracts
pub mod Store
pub mod Programs
use toolbox_mcp.Service.Register.{
  Registration, RegisterResponse, registered_of, rejected, toolset_exists, is_valid_namespace,
  valid_characters, build_record, default_or_error, scopes_or, tags_or_empty, assembled,
  register_toolset,
}
use toolbox_mcp.Service.Register.Outcome.{register_toolset_stored, register_toolset_exists}
use toolbox_mcp.Service.Support.{Report, empty_report, add_failed}
use toolbox_mcp.Service.Deactivate
use toolbox_mcp.Service.Deactivate.{released_record, inactive_record, deactivate_one}
use toolbox_mcp.Service.Deactivate.Outcome.{IsReleased, deactivate_one_busy}
use toolbox_mcp.Service.Unregister
use toolbox_mcp.Service.Unregister.{active_error, unregister_one}
use toolbox_mcp.Service.Unregister.Outcome.{unregister_one_active, unregister_one_busy}
use toolbox_mcp.Prelude.{
  map, ◌++◌, ◌⊎◌, is_empty, ℕ, zero, suc, ◌+◌, ◌-◌, ◌≤◌, ◌<◌, String, ◌≡◌, refl, Bool, true, false,
  not, ◌&&◌, ◌||◌, Option, none, some, List, [], ◌∷◌, All, if◌then◌else◌, arith, ◌==◌, string_eq,
  length, contains, ltb, leb, is_some, IsDistinct, nat_beq,
}
use toolbox_mcp.Json.{Fields, end}
use toolbox_mcp.Models.{
  Scope, thread, session, global, scope_eq, stdio, ToolsetTransport, Tool, ToolSchema,
  ToolsetRecord, default_record, SchemaSnapshot, StoredAuditEvent, AuditEvent, StateDocument,
  default_document, activate, success, other_error, Result, ok, err, then_ok,
}
use toolbox_mcp.Models.Policy.{
  check_scope_policy, IsSubset, IsAllowed, IsValidRecord, order_scopes, validate_scope_policy,
  validate_scope_policy_of_IsAllowed, validate_scope_policy_sound,
  validate_scope_policy_of_IsValidRecord,
}
use toolbox_mcp.ScopeManager.{
  recovery_scopes, startup_restore_scopes, add_scope, add_recoverable_scope,
}
use toolbox_mcp.ScopeManager.Laws.{
  contains-add_scope, contains-add_recoverable_scope, contains-recovery_scopes,
  thread_never_recovered,
}
use toolbox_mcp.Host.{Host, reply, failed}
use toolbox_mcp.Validation.{
  RefreshResult, tool_names, schema_names, sort_names, validate_tool_inventory, diff_toolsets,
  has_changed,
}
use toolbox_mcp.Validation.Inventory.{
  validate_tool_inventory_of_IsDistinct, validate_tool_inventory-IsDistinct,
}
use toolbox_mcp.Validation.Diff.{diff_toolsets-exact}
use toolbox_mcp.Registry.{
  find_by, get_toolset, get_schema_snapshot, get_previous_schema_snapshot, upsert_toolset,
  delete_toolset, replace_schema_snapshot, append_audit_event, load_document, AuditFilter,
  to_audit_event, list_audit_events,
}
use toolbox_mcp.Registry.Lookup.{
  get-upsert_toolset, get-delete_toolset, get-replace_schema_snapshot,
}
use toolbox_mcp.Registry.Audit.{
  IsNumbered, append_audit_event-IsNumbered, append_audit_event-unbounded, IsSelection, Matches,
  list_audit_events_lem,
}
use toolbox_mcp.Registry.WellFormed.{default_document-IsWellFormed, load_document_of_IsWellFormed}
use toolbox_mcp.Effects.{pure, World}
use toolbox_mcp.Transport.{
  Closes, close_runtime, runtime_in, in_flight_count, note_call_started, note_call_finished,
}
use toolbox_mcp.Transport.InFlight.{in_flight_balance}
use toolbox_mcp.Service.Startup.{reconciled, is_changed}
use toolbox_mcp.Service.Startup.Steps.{reconciled_settles, reconciled_unchanged}
use toolbox_mcp.Service.Steps.{IsSound, after, saved, Step-IsSound}
use toolbox_mcp.Service.Steps.Frame.{SameView}
use toolbox_mcp.Service.Operations.{
  Operation, reconciles, activates, deactivates, checks_health, perform, run_all,
}
use toolbox_mcp.Service.Operations.Sound.{run_all-IsSound}
use toolbox_mcp.Service.Operations.Isolated.{spares, perform-SameView}

abbrev demo_transport : ToolsetTransport
demo_transport = record { kind = stdio; command = "demo"; args = []; env = []; cwd = none }

abbrev demo_tool : Tool
demo_tool = record {
  name = "echo";
  title = none;
  description = none;
  input_schema = end;
  output_schema = none;
}

abbrev demo_host : Host
demo_host = record {
  clock = λ n. n;
  bootstrap = λ n r. reply (demo_tool ∷ []);
  list_tools = λ n k. reply (demo_tool ∷ []);
  call_tool = λ n k t a. failed (other_error "unused");
  close = λ n k. reply tt;
  dumps = λ j. "";
  loads = λ s. none;
  hexdigest = λ s. "0";
  is_alnum = λ c. true;
  is_digit = λ c. leb 48 c && leb c 57;
  int_of_digits = λ s. ok 0;
  transport_of = λ f. ok demo_transport;
  validation_text = λ s. s;
}

abbrev demo : ToolsetRecord
demo = record (default_record "demo" "Demo" "A toolset" demo_transport) {
  loaded_scopes = session ∷ [];
  restorable_scopes = session ∷ global ∷ [];
  recoverable_scopes = session ∷ [];
}

-- The same toolset with its lists out of order.
abbrev shuffled : ToolsetRecord
shuffled = record demo { restorable_scopes = global ∷ session ∷ global ∷ [] }

demo_subset : IsSubset (session ∷ []) (thread ∷ session ∷ global ∷ [])
demo_subset thread h = cc
demo_subset session h = refl
demo_subset global h = cc

restorable_subset : IsSubset (session ∷ global ∷ []) (thread ∷ session ∷ global ∷ [])
restorable_subset thread h = cc
restorable_subset session h = refl
restorable_subset global h = refl

recoverable_subset : IsSubset (session ∷ []) (session ∷ global ∷ [])
recoverable_subset thread h = cc
recoverable_subset session h = refl
recoverable_subset global h = cc

demo-IsAllowed : IsAllowed demo
demo-IsAllowed = record {
  default_supported = refl;
  loaded_supported = demo_subset;
  restorable_supported = restorable_subset;
  thread_not_restorable = refl;
  recoverable_supported = demo_subset;
  recoverable_restorable = recoverable_subset;
}

demo-IsValidRecord : IsValidRecord demo
unfolding order_scopes toolbox_mcp.Models.ordered_unique_scopes toolbox_mcp.Models.sort_scopes
    toolbox_mcp.Prelude.sort_by toolbox_mcp.Prelude.distinct
demo-IsValidRecord = (validate_scope_policy_of_IsAllowed demo demo-IsAllowed).1

abbrev empty_world : World
empty_world = record {
  document = default_document;
  runtimes = [];
  unreadable = none;
  unwritable = none;
  retired = [];
  in_flight = [];
  interactions = 0;
}

-- The registry holds the toolset.
abbrev demo_world : World
demo_world = after (upsert_toolset demo) empty_world

pub empty_world-IsSound : IsSound empty_world
empty_world-IsSound = record {
  well_formed = default_document-IsWellFormed;
  readable = refl;
  writable = refl;
  runtimes_valid = tt;
}

demo_world-IsSound : IsSound demo_world
demo_world-IsSound =
    Step-IsSound {ns = "demo"} (saved empty_world demo refl demo-IsValidRecord) empty_world-IsSound

-- A session of calls: a start, an activation, a health check, and a forced deactivation.
abbrev demo_calls : List Operation
demo_calls =
    reconciles
    ∷ activates ("demo" ∷ "missing" ∷ []) "thread" true
    ∷ checks_health none none
    ∷ deactivates ("demo" ∷ []) "session" true
    ∷ []

run_all-IsSound_example : IsSound (run_all demo_calls demo_host demo_world).1
run_all-IsSound_example = run_all-IsSound demo_host demo_calls demo_world demo_world-IsSound

abbrev demo_activation : Operation
demo_activation = activates ("demo" ∷ []) "thread" true

perform-SameView_example :
    SameView "other" demo_world (perform demo_activation demo_host demo_world).1
unfolding spares
perform-SameView_example =
    perform-SameView demo_host demo_activation "other" demo_world demo_world-IsSound refl

shuffled-IsAllowed : IsAllowed shuffled
shuffled-IsAllowed = record {
  default_supported = refl;
  loaded_supported = demo_subset;
  restorable_supported = λ s h. restorable_subset s (shuffle s h);
  thread_not_restorable = refl;
  recoverable_supported = demo_subset;
  recoverable_restorable = λ s h. unshuffle s (recoverable_subset s h);
}
  where
    shuffle : IsSubset (global ∷ session ∷ global ∷ []) (session ∷ global ∷ [])
    shuffle thread h = cc
    shuffle session h = refl
    shuffle global h = refl

    unshuffle : IsSubset (session ∷ global ∷ []) (global ∷ session ∷ global ∷ [])
    unshuffle thread h = cc
    unshuffle session h = refl
    unshuffle global h = refl

validate_scope_policy_of_IsAllowed_example :
    (validate_scope_policy shuffled ≡ ok (order_scopes shuffled))
    × IsValidRecord (order_scopes shuffled)
validate_scope_policy_of_IsAllowed_example =
    validate_scope_policy_of_IsAllowed shuffled shuffled-IsAllowed

validate_scope_policy_sound_example : IsAllowed demo × IsValidRecord demo
validate_scope_policy_sound_example =
    validate_scope_policy_sound demo demo
      (validate_scope_policy_of_IsValidRecord demo demo-IsValidRecord)

load_document_of_IsWellFormed_example : load_document demo_world.document ≡ ok demo_world.document
load_document_of_IsWellFormed_example =
    load_document_of_IsWellFormed demo_world.document demo_world-IsSound.well_formed

validate_tool_inventory_of_IsDistinct_example :
    (ss : List ToolSchema) × (validate_tool_inventory demo_host "demo" (demo_tool ∷ []) ≡ ok ss)
    × (schema_names ss ≡ sort_names (tool_names (demo_tool ∷ [])))
validate_tool_inventory_of_IsDistinct_example =
    validate_tool_inventory_of_IsDistinct demo_host "demo" (demo_tool ∷ []) (refl, tt)

demo_inventory :
    (ss : List ToolSchema) × (validate_tool_inventory demo_host "demo" (demo_tool ∷ []) ≡ ok ss)
    × (schema_names ss ≡ sort_names (tool_names (demo_tool ∷ [])))
demo_inventory = validate_tool_inventory_of_IsDistinct demo_host "demo" (demo_tool ∷ []) (refl, tt)

validate_tool_inventory-IsDistinct_example : IsDistinct (tool_names (demo_tool ∷ []))
validate_tool_inventory-IsDistinct_example =
    validate_tool_inventory-IsDistinct demo_host "demo" (demo_tool ∷ []) demo_inventory.0
      demo_inventory.1

abbrev echo_schema : ToolSchema
echo_schema = record {
  name = "echo";
  title = none;
  description = none;
  input_schema = end;
  output_schema = none;
  tool_hash = "sha256:0";
}

abbrev demo_diff : RefreshResult
demo_diff = diff_toolsets demo_host "demo" [] (echo_schema ∷ [])

diff_toolsets-exact_example :
    (contains demo_diff.added_tools "echo" ≡ (
      contains (schema_names (echo_schema ∷ [])) "echo" && not (contains (schema_names []) "echo")))
    × (contains demo_diff.removed_tools "echo" ≡ (
        contains (schema_names []) "echo"
        && not (contains (schema_names (echo_schema ∷ [])) "echo")))
    × (contains demo_diff.changed_tools "echo" ≡ (
        contains (schema_names (echo_schema ∷ [])) "echo"
        && (contains (schema_names []) "echo" && has_changed [] (echo_schema ∷ []) "echo")))
diff_toolsets-exact_example = diff_toolsets-exact demo_host "demo" [] (echo_schema ∷ []) "echo"

get-upsert_toolset_example :
    get_toolset (upsert_toolset demo default_document).1 "demo"
    ≡ (if demo.namespace == "demo" then some demo else get_toolset default_document "demo")
get-upsert_toolset_example = get-upsert_toolset default_document demo "demo"

get-delete_toolset_example :
    get_toolset (delete_toolset "demo" demo_world.document).1 "demo"
    ≡ (if demo.namespace == "demo" then none else get_toolset demo_world.document "demo")
get-delete_toolset_example = get-delete_toolset demo_world.document "demo" "demo"

abbrev demo_snapshot : SchemaSnapshot
demo_snapshot = record {
  namespace = "demo";
  schema_hash = "sha256:0";
  tool_count = 1;
  tools = echo_schema ∷ [];
  captured_at = 0;
}

abbrev replaced : StateDocument
replaced = (replace_schema_snapshot demo_snapshot default_document).1

get-replace_schema_snapshot_example :
    (get_schema_snapshot replaced "demo" ≡ (
      if demo_snapshot.namespace == "demo"
      then some demo_snapshot
      else get_schema_snapshot default_document "demo"))
    × (get_previous_schema_snapshot replaced "demo" ≡ (
        if demo_snapshot.namespace == "demo"
          && is_some (get_schema_snapshot default_document "demo")
        then get_schema_snapshot default_document "demo"
        else get_previous_schema_snapshot default_document "demo"))
get-replace_schema_snapshot_example =
    get-replace_schema_snapshot default_document demo_snapshot "demo"

abbrev demo_event : StoredAuditEvent
demo_event = record {
  sequence = 0;
  timestamp = 5;
  operation = activate;
  outcome = success;
  namespace = some "demo";
  scope = some session;
  details = end;
  error = none;
}

abbrev appended : AuditEvent × StateDocument
appended = append_audit_event 2 demo_event default_document

append_audit_event-IsNumbered_example :
    (appended.0.sequence ≡ 1)
    × (appended.1.next_audit_sequence ≡ 2)
    × IsNumbered appended.1.next_audit_sequence appended.1.audit_log
    × (length appended.1.audit_log ≡ (
        if ltb (length default_document.audit_log) 2
        then length default_document.audit_log + 1
        else 2))
append_audit_event-IsNumbered_example =
    append_audit_event-IsNumbered 2 demo_event default_document (omega arith) tt (omega arith)

append_audit_event-unbounded_example :
    length (append_audit_event 0 demo_event default_document).1.audit_log
    ≡ length default_document.audit_log + 1
append_audit_event-unbounded_example = append_audit_event-unbounded demo_event default_document

abbrev demo_filter : AuditFilter
demo_filter = record {
  namespace = some "demo";
  operation = some activate;
  outcome = none;
  registration_present = none;
}

abbrev demo_query : List AuditEvent
demo_query = list_audit_events appended.1 demo_filter (some 1)

list_audit_events_lem_example :
    (older : List AuditEvent) × IsSelection
      (Matches demo_filter)
      (map (λ stored. to_audit_event stored appended.1) appended.1.audit_log)
      (older ++ demo_query)
    × (length demo_query ≤ 1)
    × ((older ≡ []) ⊎ (length demo_query ≡ 1))
list_audit_events_lem_example = list_audit_events_lem appended.1 demo_filter 1

contains-recovery_scopes_example : contains (recovery_scopes demo true false) session ≡ (
    (not demo.restore_requires_identity || true)
    && (not demo.restore_requires_explicit_request || false)
    && contains demo.recoverable_scopes session
    && contains demo.restorable_scopes session
    && contains demo.supported_scopes session)
contains-recovery_scopes_example = contains-recovery_scopes demo true false session

thread_never_recovered_example :
    (contains (recovery_scopes demo true true) thread ≡ false)
    × (contains (startup_restore_scopes demo true true) thread ≡ false)
thread_never_recovered_example = thread_never_recovered demo true true true demo-IsValidRecord

reconciled_settles_example :
    IsValidRecord (reconciled demo)
    × ((reconciled demo).loaded_scopes ≡ [])
    × (contains (reconciled demo).recoverable_scopes thread ≡ false)
    × (is_changed (reconciled demo) ≡ false)
reconciled_settles_example = reconciled_settles demo demo-IsValidRecord

reconciled_unchanged_example : reconciled (reconciled demo) ≡ reconciled demo
reconciled_unchanged_example =
    reconciled_unchanged (reconciled demo) (reconciled_settles demo demo-IsValidRecord).3

-- The toolset has a call in flight.
abbrev busy_world : World
busy_world = record demo_world { in_flight = ("demo", 1) ∷ [] }

busy_world-IsSound : IsSound busy_world
busy_world-IsSound = record {
  well_formed = demo_world-IsSound.well_formed;
  readable = demo_world-IsSound.readable;
  writable = demo_world-IsSound.writable;
  runtimes_valid = demo_world-IsSound.runtimes_valid;
}

pub demo_found : get_toolset demo_world.document "demo" ≡ some demo
unfolding get_toolset
demo_found = get-upsert_toolset default_document demo "demo"

demo_busy : nat_beq (in_flight_count busy_world "demo") 0 ≡ false
unfolding in_flight_count find_by
demo_busy = refl

abbrev no_report : Report Fields
no_report = empty_report

abbrev refused_deactivation : Result (Report Fields) × World
refused_deactivation = deactivate_one session false "demo" no_report demo_host busy_world

deactivate_one_busy_example :
    (refused_deactivation.0
      ≡ ok (
          add_failed
            (toolbox_mcp.Service.Deactivate.in_flight_error "demo"
              (in_flight_count busy_world "demo"))
            no_report))
    × (get_toolset refused_deactivation.1.document "demo" ≡ some demo)
    × (runtime_in refused_deactivation.1 "demo" ≡ runtime_in busy_world "demo")
deactivate_one_busy_example =
    deactivate_one_busy demo_host "demo" session no_report busy_world demo busy_world-IsSound
      demo_found refl demo_busy

abbrev refused_unregistration : Bool → World → Result (Report Fields) × World
refused_unregistration force w = unregister_one force "demo" no_report demo_host w

unregister_one_active_example :
    ((refused_unregistration false demo_world).0
      ≡ ok (add_failed (active_error "demo" demo) no_report))
    × (get_toolset (refused_unregistration false demo_world).1.document "demo" ≡ some demo)
    × (runtime_in (refused_unregistration false demo_world).1 "demo" ≡ runtime_in demo_world "demo")
unregister_one_active_example =
    unregister_one_active demo_host "demo" no_report demo_world demo demo_world-IsSound demo_found
      refl

unregister_one_busy_example :
    ((refused_unregistration true busy_world).0
      ≡ ok (
          add_failed
            (toolbox_mcp.Service.Unregister.in_flight_error "demo"
              (in_flight_count busy_world "demo"))
            no_report))
    × (get_toolset (refused_unregistration true busy_world).1.document "demo" ≡ some demo)
    × (runtime_in (refused_unregistration true busy_world).1 "demo" ≡ runtime_in busy_world "demo")
unregister_one_busy_example =
    unregister_one_busy demo_host "demo" no_report busy_world demo busy_world-IsSound demo_found
      refl demo_busy

abbrev demo_request : Registration
demo_request = record {
  namespace = "demo";
  title = "Demo";
  description = "A toolset";
  transport = end;
  tags = none;
  default_scope = "session";
  supported_scopes = none;
  restorable_scopes = none;
  restore_requires_identity = true;
  restore_requires_explicit_request = true;
  auth_required = false;
}

-- The record that the request makes.
abbrev fresh : ToolsetRecord
fresh = record (default_record "demo" "Demo" "A toolset" demo_transport) { default_scope = session }

demo_valid : is_valid_namespace demo_host "demo" ≡ true
unfolding is_valid_namespace valid_characters
demo_valid = refl

fresh_built : build_record demo_request demo_transport ≡ ok fresh
unfolding build_record then_ok default_or_error scopes_or tags_or_empty assembled
    validate_scope_policy check_scope_policy order_scopes toolbox_mcp.Models.ordered_unique_scopes
    toolbox_mcp.Models.sort_scopes toolbox_mcp.Prelude.sort_by toolbox_mcp.Prelude.distinct
    toolbox_mcp.Models.parse_scope
fresh_built = refl

empty_absent : get_toolset empty_world.document "demo" ≡ none
unfolding get_toolset find_by
empty_absent = refl

abbrev registration : World → Result RegisterResponse × World
registration w = register_toolset demo_request demo_host w

register_toolset_stored_example :
    ((registration empty_world).0
      ≡ ok (record { registered = some (registered_of fresh); error = none }))
    × (get_toolset (registration empty_world).1.document "demo" ≡ some fresh)
register_toolset_stored_example =
    register_toolset_stored demo_host demo_request empty_world demo_transport fresh
      empty_world-IsSound demo_valid refl empty_absent fresh_built

register_toolset_exists_example :
    ((registration demo_world).0 ≡ ok (rejected (toolset_exists "demo")))
    × (get_toolset (registration demo_world).1.document "demo" ≡ some demo)
register_toolset_exists_example =
    register_toolset_exists demo_host demo_request demo_world demo_transport demo demo_world-IsSound
      demo_valid refl demo_found

-- ===== src/Registry.antt =====
-- toolbox/registry.py: `JsonStateStore`, as functions on the state document. The file holds the document
-- that was written last; `Effects` runs these functions on it.
pub mod Refinement
pub mod Lookup
pub mod Audit
pub mod WellFormed
pub mod Frame
use toolbox_mcp.Prelude.{
  ℕ, ◌+◌, String, Bool, true, false, not, Option, none, some, List, [], ◌∷◌, ◌++◌, map,
  if◌then◌else◌, ◌==◌, string_eq, contains, filter_by, find_first, length, nat_beq, take_last, ltb,
  zero,
}
use toolbox_mcp.Models.{
  ToolsetRecord, SchemaSnapshot, StoredAuditEvent, AuditEvent, StateDocument, default_document,
  AuditOperation, operation_eq, AuditOutcome, outcome_eq, Result, ok, err,
}
use toolbox_mcp.Models.Policy.{validate_scope_policy}

abbrev pub default_audit_retention_limit : ℕ
default_audit_retention_limit = 250

-- `JsonStateStore.ensure`: a file that is missing is written with the default document.
pub ensure : Option StateDocument → StateDocument
ensure none = default_document
ensure (some document) = document

validate_records : List ToolsetRecord → Result (List ToolsetRecord)
validate_records [] = ok []
validate_records (r ∷ rs) = elim (validate_scope_policy r) [
  | err e ↦ err e
  | ok r' ↦ elim (validate_records rs) [ err e ↦ err e | ok rs' ↦ ok (r' ∷ rs') ]
]

-- `StateDocument.model_validate(payload)` of `_load_unlocked`: every record is Validated again.
pub load_document : StateDocument → Result StateDocument
unfolding validate_records
load_document document = elim (validate_records document.toolsets) [
  | err e ↦ err e
  | ok toolsets ↦ ok (record document { version = 2; toolsets = toolsets })
]

-- `_write_unlocked`: what is written carries the current version.
abbrev pub written : StateDocument → StateDocument
written document = record document { version = 2 }

module _ {ℓ} {A : Type ℓ} (name : A → String) where
  -- Replace the first entry of the same namespace, or append.
  unfoldable pub upsert_by : A → List A → List A
  upsert_by a [] = a ∷ []
  upsert_by a (x ∷ xs) = if name x == name a then a ∷ xs else x ∷ upsert_by a xs

  -- The first entry of a namespace.
  unfoldable pub find_by : String → List A → Option A
  find_by k [] = none
  find_by k (x ∷ xs) = if name x == k then some x else find_by k xs

  -- The entries of other namespaces.
  unfoldable pub without_by : String → List A → List A
  without_by k [] = []
  without_by k (x ∷ xs) = if not (name x == k) then x ∷ without_by k xs else without_by k xs

abbrev pub record_name : ToolsetRecord → String
record_name r = r.namespace

abbrev pub snapshot_name : SchemaSnapshot → String
snapshot_name s = s.namespace

unfoldable pub get_toolset : StateDocument → String → Option ToolsetRecord
unfolding find_by
get_toolset document namespace = find_by record_name namespace document.toolsets

pub upsert_toolset : ToolsetRecord → StateDocument → ToolsetRecord × StateDocument
unfolding upsert_by
upsert_toolset r document =
    (r, record document { toolsets = upsert_by record_name r document.toolsets })

pub delete_toolset : String → StateDocument → Bool × StateDocument
unfolding without_by
delete_toolset namespace document =
    let remaining = without_by record_name namespace document.toolsets in
    if nat_beq (length remaining) (length document.toolsets)
    then (false, document)
    else (true, record document { toolsets = remaining })

unfoldable pub get_schema_snapshot : StateDocument → String → Option SchemaSnapshot
unfolding find_by
get_schema_snapshot document namespace = find_by snapshot_name namespace document.schema_cache

unfoldable pub get_previous_schema_snapshot : StateDocument → String → Option SchemaSnapshot
unfolding find_by
get_previous_schema_snapshot document namespace =
    find_by snapshot_name namespace document.previous_schema_cache

pub upsert_schema_snapshot : SchemaSnapshot → StateDocument → SchemaSnapshot × StateDocument
unfolding upsert_by
upsert_schema_snapshot snapshot document = (
  snapshot,
  record document { schema_cache = upsert_by snapshot_name snapshot document.schema_cache },
)

keep_previous : Option SchemaSnapshot → List SchemaSnapshot → List SchemaSnapshot
unfolding upsert_by
keep_previous none previous = previous
keep_previous (some current) previous = upsert_by snapshot_name current previous

pub replace_schema_snapshot : SchemaSnapshot → StateDocument → SchemaSnapshot × StateDocument
unfolding upsert_by find_by keep_previous
replace_schema_snapshot snapshot document = (
  snapshot,
  record document {
    previous_schema_cache =
        keep_previous (find_by snapshot_name snapshot.namespace document.schema_cache)
          document.previous_schema_cache;
    schema_cache = upsert_by snapshot_name snapshot document.schema_cache;
  },
)

pub delete_schema_snapshot : String → StateDocument → Bool × StateDocument
unfolding without_by
delete_schema_snapshot namespace document =
    let remaining = without_by snapshot_name namespace document.schema_cache in
    if nat_beq (length remaining) (length document.schema_cache)
    then (false, document)
    else (true, record document { schema_cache = remaining })

pub delete_previous_schema_snapshot : String → StateDocument → Bool × StateDocument
unfolding without_by
delete_previous_schema_snapshot namespace document =
    let remaining = without_by snapshot_name namespace document.previous_schema_cache in
    if nat_beq (length remaining) (length document.previous_schema_cache)
    then (false, document)
    else (true, record document { previous_schema_cache = remaining })

-- `event.namespace in namespaces if event.namespace is not None else None`.
registration_present : StateDocument → Option String → Option Bool
registration_present document none = none
registration_present document (some namespace) =
    some (contains (map record_name document.toolsets) namespace)

pub to_audit_event : StoredAuditEvent → StateDocument → AuditEvent
unfolding registration_present
to_audit_event event document = record {
  sequence = event.sequence;
  timestamp = event.timestamp;
  operation = event.operation;
  outcome = event.outcome;
  namespace = event.namespace;
  scope = event.scope;
  registration_present = registration_present document event.namespace;
  details = event.details;
  error = event.error;
}

-- The log after a new event, cut to the retention limit.
retained : ℕ → List StoredAuditEvent → List StoredAuditEvent
retained limit log = if ltb limit (length log) then take_last limit log else log

pub append_audit_event : ℕ → StoredAuditEvent → StateDocument → AuditEvent × StateDocument
unfolding retained to_audit_event
append_audit_event limit event document =
    let stored = record event { sequence = document.next_audit_sequence } in
    let after = record document {
      next_audit_sequence = document.next_audit_sequence + 1;
      audit_log = retained limit (document.audit_log ++ stored ∷ []);
    } in
    (to_audit_event stored after, after)

-- A filter that is `None` lets everything pass.
passes {ℓ} : {A : Type ℓ} → (A → Bool) → Option A → Bool
passes test none = true
passes test (some wanted) = test wanted

abbrev bool_beq : Bool → Bool → Bool
bool_beq true b = b
bool_beq false b = not b

abbrev is_namespace : Option String → String → Bool
is_namespace none wanted = false
is_namespace (some namespace) wanted = namespace == wanted

abbrev is_presence : Option Bool → Bool → Bool
is_presence none wanted = false
is_presence (some present) wanted = bool_beq present wanted

-- The filters of `list_audit_events` on one event.
pub record AuditFilter : Type 0 where
  pub namespace : Option String
  pub operation : Option AuditOperation
  pub outcome : Option AuditOutcome
  pub registration_present : Option Bool

pub selects : AuditFilter → AuditEvent → Bool
unfolding passes
selects filter event =
    if not (passes (is_namespace event.namespace) filter.namespace)
    then false
    else if not (passes (λ wanted. event.operation == wanted) filter.operation)
    then false
    else if not (passes (λ wanted. event.outcome == wanted) filter.outcome)
    then false
    else passes (is_presence event.registration_present) filter.registration_present

abbrev limited : Option ℕ → List AuditEvent → List AuditEvent
limited none selected = selected
limited (some zero) selected = []
limited (some limit) selected = take_last limit selected

pub list_audit_events : StateDocument → AuditFilter → Option ℕ → List AuditEvent
unfolding selects
list_audit_events document filter limit =
    limited limit (
      filter_by (selects filter)
        (map (λ stored. to_audit_event stored document) document.audit_log))

-- ===== src/Service/Contracts.antt =====
-- toolbox/service.py: summaries of tool contracts, and the inspection of the contracts of a namespace.
pub mod Differences
pub mod Answers
use toolbox_mcp.Prelude.{
  ℕ, String, Bool, true, false, not, Option, none, some, List, [], ◌∷◌, map, length, if◌then◌else◌,
  sort_by, is_some, is_empty,
}
use toolbox_mcp.Json.{
  Json, null, bool, int, real, str, arr, obj, Items, nil, cons, Fields, end, field, get_field,
}
use toolbox_mcp.Models.{
  Instant, ToolSchema, ToolsetRecord, SchemaSnapshot, TransportState, StateDocument,
}
use toolbox_mcp.Host.{Host}
use toolbox_mcp.Validation.{string_le, sort_names, normalize_tool, inventory_hash}
use toolbox_mcp.Registry.{get_toolset, get_schema_snapshot}
use toolbox_mcp.Effects.{Runtime, World, Exec, pure, compute, load, ◌>>=◌}
use toolbox_mcp.Transport.{runtime_for}
use toolbox_mcp.Service.Support.{get_record}
use toolbox_mcp.Service.Mounted.{mounted_tool_name}

-- toolbox/models.py: `SchemaShapeSummary`.
pub record SchemaShapeSummary : Type 0 where
  pub root_type : Option String
  pub property_names : List String
  pub required_properties : List String
  pub property_count : ℕ
  pub item_type : Option String
  pub has_additional_properties : Option Bool

abbrev text_or_none : Option Json → Option String
text_or_none (some (str text)) = some text
text_or_none _ = none

abbrev bool_or_none : Option Json → Option Bool
bool_or_none (some (bool b)) = some b
bool_or_none _ = none

unfoldable pub keys_of : Fields → List String
keys_of end = []
keys_of (field key v fields) = key ∷ keys_of fields

abbrev property_keys : Option Json → List String
property_keys (some (obj fields)) = keys_of fields
property_keys _ = []

unfoldable pub texts_of : Items → List String
texts_of nil = []
texts_of (cons (str text) items) = text ∷ texts_of items
texts_of (cons _ items) = texts_of items

abbrev required_texts : Option Json → List String
required_texts (some (arr items)) = texts_of items
required_texts _ = []

abbrev type_of_items : Option Json → Option String
type_of_items (some (obj fields)) = text_or_none (get_field fields "type")
type_of_items _ = none

-- `_summarize_schema_shape`, of a dictionary.
unfoldable pub summarize_schema_shape : Fields → SchemaShapeSummary
unfolding get_field keys_of texts_of sort_names
summarize_schema_shape schema =
    let property_names = sort_names (property_keys (get_field schema "properties")) in
    record {
      root_type = text_or_none (get_field schema "type");
      property_names = property_names;
      required_properties = sort_names (required_texts (get_field schema "required"));
      property_count = length property_names;
      item_type = type_of_items (get_field schema "items");
      has_additional_properties = bool_or_none (get_field schema "additionalProperties");
    }

-- toolbox/models.py: `ToolContractSummary`.
pub record ToolContractSummary : Type 0 where
  pub name : String
  pub mounted_name : Option String
  pub title : Option String
  pub description : Option String
  pub tool_hash : Option String
  pub input_schema : SchemaShapeSummary
  pub output_schema : Option SchemaShapeSummary

abbrev summary_or_none : Option Fields → Option SchemaShapeSummary
summary_or_none none = none
summary_or_none (some schema) = some (summarize_schema_shape schema)

abbrev name_within : Option String → String → Option String
name_within none name = none
name_within (some namespace) name = some (mounted_tool_name namespace name)

-- `_summarize_tool_contract`.
unfoldable pub summarize_tool_contract : Option String → ToolSchema → ToolContractSummary
unfolding summarize_schema_shape
summarize_tool_contract namespace tool = record {
  name = tool.name;
  mounted_name = name_within namespace tool.name;
  title = tool.title;
  description = tool.description;
  tool_hash = some tool.tool_hash;
  input_schema = summarize_schema_shape tool.input_schema;
  output_schema = summary_or_none tool.output_schema;
}

-- `Literal["cached", "mounted"]`.
pub data Source : Type 0 where
  cached mounted : Source

-- The dictionary that `_contract_source_details` returns, less what its callers do not read.
pub record SourceDetails : Type 0 where
  pub toolset : Option ToolsetRecord
  pub has_cached : Bool
  pub has_mounted : Bool
  pub source_available : Bool
  pub source_tools : List ToolSchema
  pub schema_hash : Option String
  pub captured_at : Option Instant

abbrev tools_of_snapshot : Option SchemaSnapshot → List ToolSchema
tools_of_snapshot none = []
tools_of_snapshot (some snapshot) = snapshot.tools

abbrev hash_of_snapshot : Option SchemaSnapshot → Option String
hash_of_snapshot none = none
hash_of_snapshot (some snapshot) = some snapshot.schema_hash

abbrev time_of_snapshot : Option SchemaSnapshot → Option Instant
time_of_snapshot none = none
time_of_snapshot (some snapshot) = some snapshot.captured_at

abbrev normalized_tools : Host → Option Runtime → List ToolSchema
normalized_tools host none = []
normalized_tools host (some runtime) = map (normalize_tool host) runtime.tools

unfoldable pub details_of :
    Source → Option ToolsetRecord → Option SchemaSnapshot → Option Runtime → Host → SourceDetails
unfolding normalize_tool inventory_hash
details_of cached found snapshot runtime host = record {
  toolset = found;
  has_cached = is_some snapshot;
  has_mounted = is_some runtime;
  source_available = is_some snapshot;
  source_tools = tools_of_snapshot snapshot;
  schema_hash = hash_of_snapshot snapshot;
  captured_at = time_of_snapshot snapshot;
}
details_of mounted found snapshot runtime host =
    let tools = normalized_tools host runtime in
    record {
      toolset = found;
      has_cached = is_some snapshot;
      has_mounted = is_some runtime;
      source_available = is_some runtime;
      source_tools = tools;
      schema_hash = if is_empty tools then none else some (inventory_hash host tools);
      captured_at = none;
    }

-- `_contract_source_details`.
unfoldable pub contract_source_details : String → Source → Exec SourceDetails
unfolding details_of get_record runtime_for
contract_source_details namespace source = do
  found ← get_record namespace
  document ← load
  runtime ← runtime_for namespace
  compute (details_of source found (get_schema_snapshot document namespace) runtime)

-- toolbox/models.py: `ContractAvailability` and `ToolsetContractInspection`.
pub record ContractAvailability : Type 0 where
  pub registered : Bool
  pub cached : Bool
  pub mounted : Bool
  pub stale : Bool
  pub missing : Bool

pub record ToolsetContractInspection : Type 0 where
  pub namespace : String
  pub source : Source
  pub availability : ContractAvailability
  pub transport_state : Option TransportState
  pub stale_reason : Option String
  pub schema_hash : Option String
  pub previous_schema_hash : Option String
  pub tool_count : ℕ
  pub captured_at : Option Instant
  pub last_known_good_at : Option Instant
  pub tools : List ToolContractSummary

-- A field of the record, if there is one.
abbrev of_record {ℓ} : {A : Type ℓ} → Option ToolsetRecord → (ToolsetRecord → Option A) → Option A
of_record none f = none
of_record (some r) f = f r

abbrev is_stale : Option ToolsetRecord → Bool
is_stale none = false
is_stale (some r) = r.stale

abbrev pub namespace_for : Source → String → Option String
namespace_for cached namespace = none
namespace_for mounted namespace = some namespace

abbrev pub shown_tools : SourceDetails → List ToolSchema
shown_tools details = if details.source_available then details.source_tools else []

unfoldable pub inspection_of : String → Source → SourceDetails → ToolsetContractInspection
unfolding summarize_tool_contract
inspection_of namespace source details = record {
  namespace = namespace;
  source = source;
  availability = record {
    registered = is_some details.toolset;
    cached = details.has_cached;
    mounted = details.has_mounted;
    stale = is_stale details.toolset;
    missing = not details.source_available;
  };
  transport_state = of_record details.toolset (λ r. some r.transport_state);
  stale_reason = of_record details.toolset (λ r. r.stale_reason);
  schema_hash = details.schema_hash;
  previous_schema_hash = of_record details.toolset (λ r. r.previous_schema_hash);
  tool_count = length (shown_tools details);
  captured_at = details.captured_at;
  last_known_good_at = of_record details.toolset (λ r. r.last_known_good_at);
  tools = map (summarize_tool_contract (namespace_for source namespace)) (shown_tools details);
}

-- `_build_contract_inspection`.
unfoldable pub build_contract_inspection : String → Source → Exec ToolsetContractInspection
unfolding contract_source_details inspection_of
build_contract_inspection namespace source = do
  details ← contract_source_details namespace source
  pure (inspection_of namespace source details)

-- ===== src/Service/Contracts/Differences.antt =====
-- toolbox/service.py: the difference of a namespace's contracts to the previous snapshot.
use toolbox_mcp.Prelude.{
  ℕ, String, Bool, ◌&&◌, ◌||◌, not, Option, none, some, List, [], ◌∷◌, ◌++◌, length, if◌then◌else◌,
  is_some, is_empty,
}
use toolbox_mcp.Models.{
  Instant, ToolSchema, SchemaSnapshot, TransportState, other_error, Result, ok, err, then_ok,
}
use toolbox_mcp.Host.{Host}
use toolbox_mcp.Validation.{RefreshResult, diff_toolsets, tool_by_name}
use toolbox_mcp.Registry.{get_previous_schema_snapshot}
use toolbox_mcp.Effects.{Exec, compute, load, lift, ◌>>=◌}
use toolbox_mcp.Service.Mounted.{mounted_tool_name}
use toolbox_mcp.Service.Contracts.{
  ToolContractSummary, summarize_tool_contract, Source, SourceDetails, contract_source_details,
  ContractAvailability, ToolsetContractInspection, namespace_for, shown_tools, inspection_of,
}

-- `Literal["added", "removed", "changed"]`.
pub data Change : Type 0 where
  added removed changed : Change

-- toolbox/models.py: `ToolContractDelta`.
pub record ToolContractDelta : Type 0 where
  pub change : Change
  pub name : String
  pub mounted_name : Option String
  pub previous_summary : Option ToolContractSummary
  pub current_summary : Option ToolContractSummary

-- toolbox/models.py: `ToolsetContractDiff`, whose `baseline` is always "previous".
pub record ToolsetContractDiff : Type 0 where
  pub namespace : String
  pub source : Source
  pub availability : ContractAvailability
  pub previous_available : Bool
  pub diff_available : Bool
  pub transport_state : Option TransportState
  pub stale_reason : Option String
  pub current_schema_hash : Option String
  pub previous_schema_hash : Option String
  pub current_tool_count : ℕ
  pub previous_tool_count : ℕ
  pub current_captured_at : Option Instant
  pub previous_captured_at : Option Instant
  pub has_changes : Bool
  pub added_tools : List String
  pub removed_tools : List String
  pub changed_tools : List String
  pub changes : List ToolContractDelta

-- `by_name[name]`, summarised; a missing name is a `KeyError`.
unfoldable pub summary_at : Option String → List ToolSchema → String → Result ToolContractSummary
unfolding tool_by_name summarize_tool_contract
summary_at namespace tools name = elim (tool_by_name tools name) [
  | none ↦ err (other_error name)
  | some tool ↦ ok (summarize_tool_contract namespace tool)
]

abbrev name_under : Option String → String → Option String
name_under none name = none
name_under (some namespace) name = some (mounted_tool_name namespace name)

-- The entry of one name.
unfoldable pub delta_of :
    Option String → List ToolSchema → List ToolSchema → Change → String → Result ToolContractDelta
unfolding summary_at then_ok
delta_of namespace previous current added name =
    then_ok (summary_at namespace current name) λ summary. ok (record {
      change = added;
      name = name;
      mounted_name = name_under namespace name;
      previous_summary = none;
      current_summary = some summary;
    })
delta_of namespace previous current removed name =
    then_ok (summary_at none previous name) λ summary. ok (record {
      change = removed;
      name = name;
      mounted_name = name_under namespace name;
      previous_summary = some summary;
      current_summary = none;
    })
delta_of namespace previous current changed name = then_ok (summary_at none previous name) λ before.
    then_ok (summary_at namespace current name) λ summary. ok (record {
      change = changed;
      name = name;
      mounted_name = name_under namespace name;
      previous_summary = some before;
      current_summary = some summary;
    })

-- One of the three loops.
unfoldable pub deltas_of :
    Option String
    → List ToolSchema
    → List ToolSchema
    → Change
    → List String
    → Result (List ToolContractDelta)
unfolding delta_of then_ok
deltas_of namespace previous current kind [] = ok []
deltas_of namespace previous current kind (name ∷ names) =
    let rest = deltas_of namespace previous current kind names in
    then_ok (delta_of namespace previous current kind name)
      λ delta. then_ok rest λ deltas. ok (delta ∷ deltas)

unfoldable pub changes_of :
    Option String
    → List ToolSchema
    → List ToolSchema
    → RefreshResult
    → Result (List ToolContractDelta)
unfolding deltas_of then_ok
changes_of namespace previous current diff =
    then_ok (deltas_of namespace previous current added diff.added_tools) λ xs.
      then_ok (deltas_of namespace previous current removed diff.removed_tools) λ ys.
        then_ok (deltas_of namespace previous current changed diff.changed_tools)
          λ zs. ok (xs ++ (ys ++ zs))

abbrev pub previous_tools_of : Option SchemaSnapshot → List ToolSchema
previous_tools_of none = []
previous_tools_of (some snapshot) = snapshot.tools

abbrev hash_or : Option SchemaSnapshot → Option String → Option String
hash_or none other = other
hash_or (some snapshot) other = some snapshot.schema_hash

abbrev captured_of : Option SchemaSnapshot → Option Instant
captured_of none = none
captured_of (some snapshot) = some snapshot.captured_at

abbrev pub no_difference : String → RefreshResult
no_difference namespace = record {
  namespace = namespace;
  old_schema_hash = none;
  new_schema_hash = "";
  added_tools = [];
  removed_tools = [];
  changed_tools = [];
}

abbrev pub difference_if : Host → Bool → String → List ToolSchema → List ToolSchema → RefreshResult
difference_if host available namespace previous current =
    if available then diff_toolsets host namespace previous current else no_difference namespace

unfoldable pub contract_diff :
    ToolsetContractInspection
    → Option SchemaSnapshot
    → RefreshResult
    → List ToolContractDelta
    → ToolsetContractDiff
contract_diff inspection previous diff changes = record {
  namespace = inspection.namespace;
  source = inspection.source;
  availability = inspection.availability;
  previous_available = is_some previous;
  diff_available = not inspection.availability.missing && is_some previous;
  transport_state = inspection.transport_state;
  stale_reason = inspection.stale_reason;
  current_schema_hash = inspection.schema_hash;
  previous_schema_hash = hash_or previous inspection.previous_schema_hash;
  current_tool_count = inspection.tool_count;
  previous_tool_count = length (previous_tools_of previous);
  current_captured_at = inspection.captured_at;
  previous_captured_at = captured_of previous;
  has_changes =
      not (is_empty diff.added_tools)
      || not (is_empty diff.removed_tools)
      || not (is_empty diff.changed_tools);
  added_tools = diff.added_tools;
  removed_tools = diff.removed_tools;
  changed_tools = diff.changed_tools;
  changes = changes;
}

-- The end of `_build_contract_diff`, from what it has read.
unfoldable pub diff_of :
    String → Source → SourceDetails → Option SchemaSnapshot → Host → Result ToolsetContractDiff
unfolding inspection_of contract_diff changes_of then_ok
diff_of namespace source details previous host =
    let inspection = inspection_of namespace source details in
    let diff =
      difference_if host (details.source_available && is_some previous) namespace
        (previous_tools_of previous) (shown_tools details) in
    then_ok
      (changes_of (namespace_for source namespace) (previous_tools_of previous)
        (shown_tools details) diff)
      λ changes. ok (contract_diff inspection previous diff changes)

-- `_build_contract_diff`; the second reading of the details finds what the first one found.
unfoldable pub build_contract_diff : String → Source → Exec ToolsetContractDiff
unfolding contract_source_details diff_of
build_contract_diff namespace source = do
  details ← contract_source_details namespace source
  document ← load
  answer ←
      compute (diff_of namespace source details (get_previous_schema_snapshot document namespace))
  lift answer

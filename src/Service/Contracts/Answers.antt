-- ===== src/Service/Contracts/Answers.antt =====
-- toolbox/service.py: what `_build_contract_diff` answers.
use toolbox_mcp.Prelude.{
  String, ◌≡◌, true, ◌&&◌, not, Option, none, some, List, [], ◌++◌, map, is_empty, contains,
  string_eq,
}
use toolbox_mcp.Models.{ToolSchema, SchemaSnapshot}
use toolbox_mcp.Host.{Host}
use toolbox_mcp.Validation.{schema_names, has_changed, normalize_tool}
use toolbox_mcp.Registry.{get_toolset, get_schema_snapshot}
use toolbox_mcp.Effects.{Runtime, World}
use toolbox_mcp.Transport.{live_runtime}
use toolbox_mcp.Service.Steps.{IsSound}
use toolbox_mcp.Service.Contracts.{Source, cached, mounted, SourceDetails, details_of}
use toolbox_mcp.Service.Contracts.Differences.{
  Change, added, removed, changed, ToolContractDelta, ToolsetContractDiff,
}

abbrev pub delta_names : List ToolContractDelta → List String
delta_names deltas = map (λ delta. delta.name) deltas

-- What kind of change each entry is, and of which tool.
abbrev pub delta_kinds : List ToolContractDelta → List (Change × String)
delta_kinds deltas = map (λ delta. (delta.change, delta.name)) deltas

abbrev pub of_kind : Change → List String → List (Change × String)
of_kind kind names = map (λ name. (kind, name)) names

-- A difference by kinds, in the order of the three loops.
abbrev pub kinds_of : List String → List String → List String → List (Change × String)
kinds_of xs ys zs = of_kind added xs ++ (of_kind removed ys ++ of_kind changed zs)

module _ (namespace : Option String) (previous current : List ToolSchema) where
  -- The inventories in which a name of a loop must be.
  abbrev Needs : Change → String → Type 0
  Needs added n = contains (schema_names current) n ≡ true
  Needs removed n = contains (schema_names previous) n ≡ true
  Needs changed n =
      (contains (schema_names previous) n ≡ true) × (contains (schema_names current) n ≡ true)

-- The inventory that a source shows of a namespace.
pub inventory_of : Host → Source → Option SchemaSnapshot → Option Runtime → List ToolSchema
inventory_of host cached (some snapshot) runtime = snapshot.tools
inventory_of host cached none runtime = []
inventory_of host mounted snapshot (some runtime) = map (normalize_tool host) runtime.tools
inventory_of host mounted snapshot none = []

-- The changes of an answer, by the inventories that it compares.
pub record ListsChanges (previous current : List ToolSchema) (d : ToolsetContractDiff)
    : Type 0 where
  -- One entry for each name, of the kind of its list.
  pub listed : delta_kinds d.changes ≡ kinds_of d.added_tools d.removed_tools d.changed_tools
  -- What is in which list.
  pub additions :
      (n : String)
      → contains d.added_tools n ≡ (
          d.diff_available
          && (contains (schema_names current) n && not (contains (schema_names previous) n)))
  pub removals :
      (n : String)
      → contains d.removed_tools n ≡ (
          d.diff_available
          && (contains (schema_names previous) n && not (contains (schema_names current) n)))
  pub alterations :
      (n : String)
      → contains d.changed_tools n ≡ (
          d.diff_available
          && (contains (schema_names current) n
              && (contains (schema_names previous) n && has_changed previous current n)))
  pub flagged : d.has_changes ≡ not (is_empty d.changes)

module _ (host : Host) (w : World) (s : IsSound w) (ns : String) (source : Source) where
  -- What `_contract_source_details` reads.
  abbrev details_read : SourceDetails
  details_read =
      details_of source (get_toolset w.document ns) (get_schema_snapshot w.document ns)
        (live_runtime w ns) host

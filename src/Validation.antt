-- ===== src/Validation.antt =====
-- toolbox/validation.py: tool inventories, their hashes, and the difference of two inventories.
pub mod Inventory
pub mod Diff
use Prim.Native.String.{◌++◌ as append, compare}
use text.Mathlib.Text.{is_le}
use toolbox_mcp.Prelude.{
  ℕ, String, Bool, true, false, not, ◌&&◌, Option, none, some, List, [], ◌∷◌, map, if◌then◌else◌,
  ◌==◌, string_eq, contains, distinct, filter_by, is_empty, sort_by,
}
use toolbox_mcp.Json.{Json, Fields, Items, null, str, arr, obj, nil, cons, end, field}
use toolbox_mcp.Models.{Tool, ToolSchema, Result, ok, err, other_error}
use toolbox_mcp.Models.Policy.{join_comma}
use toolbox_mcp.Host.{Host}

-- The order of `str`, by code points.
abbrev pub string_le : String → String → Bool
string_le a b = is_le (compare a b)

-- `sorted(names)` of distinct names.
unfoldable pub sort_names : List String → List String
sort_names = sort_by string_le

unfoldable pub sha256 : Host → Json → String
sha256 host payload = append "sha256:" (host.hexdigest (host.dumps payload))

abbrev optional_str : Option String → Json
optional_str none = null
optional_str (some text) = str text

abbrev optional_obj : Option Fields → Json
optional_obj none = null
optional_obj (some fields) = obj fields

abbrev tool_payload : Tool → Fields → Fields
tool_payload tool rest = field "name" (str tool.name) (
    field "title" (optional_str tool.title) (
      field "description" (optional_str tool.description) (
        field "input_schema" (obj tool.input_schema)
          (field "output_schema" (optional_obj tool.output_schema) rest))))

unfoldable pub normalize_tool : Host → Tool → ToolSchema
normalize_tool host tool = record {
  name = tool.name;
  title = tool.title;
  description = tool.description;
  input_schema = tool.input_schema;
  output_schema = tool.output_schema;
  tool_hash = sha256 host (obj (tool_payload tool end));
}

abbrev pub tool_names : List Tool → List String
tool_names tools = map (λ tool. tool.name) tools

abbrev pub schema_names : List ToolSchema → List String
schema_names tools = map (λ tool. tool.name) tools

-- The names that stand more than once.
unfoldable pub repeated : List String → List String
repeated [] = []
repeated (x ∷ xs) = if contains xs x then x ∷ repeated xs else repeated xs

abbrev pub schema_le : ToolSchema → ToolSchema → Bool
schema_le a b = string_le a.name b.name

unfoldable pub validate_tool_inventory : Host → String → List Tool → Result (List ToolSchema)
validate_tool_inventory host namespace tools =
    let duplicates = sort_names (distinct (repeated (tool_names tools))) in
    if not (is_empty duplicates)
    then err (
        other_error
          (append namespace (append " returned duplicate tool names: " (join_comma duplicates))))
    else ok (sort_by schema_le (map (normalize_tool host) tools))

abbrev schema_payload : ToolSchema → Fields
schema_payload tool = field "name" (str tool.name) (
    field "title" (optional_str tool.title) (
      field "description" (optional_str tool.description) (
        field "input_schema" (obj tool.input_schema) (
          field "output_schema" (optional_obj tool.output_schema)
            (field "tool_hash" (str tool.tool_hash) end)))))

abbrev schema_payloads : List ToolSchema → Items
schema_payloads [] = nil
schema_payloads (tool ∷ tools) = cons (obj (schema_payload tool)) (schema_payloads tools)

unfoldable pub inventory_hash : Host → List ToolSchema → String
inventory_hash host tools = sha256 host (arr (schema_payloads (sort_by schema_le tools)))

-- toolbox/models.py: `RefreshResult`.
pub record RefreshResult : Type 0 where
  pub namespace : String
  pub old_schema_hash : Option String
  pub new_schema_hash : String
  pub added_tools : List String
  pub removed_tools : List String
  pub changed_tools : List String

-- `{tool.name: tool for tool in tools}[name]`: the last tool of a name wins.
unfoldable pub tool_by_name : List ToolSchema → String → Option ToolSchema
tool_by_name [] name = none
tool_by_name (tool ∷ tools) name = elim (tool_by_name tools name) [
  | some later ↦ some later
  | none ↦ if tool.name == name then some tool else none
]

abbrev hashes_differ : Option ToolSchema → Option ToolSchema → Bool
hashes_differ (some a) (some b) = not (a.tool_hash == b.tool_hash)
hashes_differ _ _ = false

-- `name in previous and current[name].tool_hash != previous[name].tool_hash`.
abbrev pub has_changed : List ToolSchema → List ToolSchema → String → Bool
has_changed previous current name =
    hashes_differ (tool_by_name current name) (tool_by_name previous name)

unfoldable pub diff_toolsets : Host → String → List ToolSchema → List ToolSchema → RefreshResult
diff_toolsets host namespace previous current =
    let previous_names = distinct (schema_names previous) in
    let current_names = distinct (schema_names current) in
    record {
      namespace = namespace;
      old_schema_hash = none;
      new_schema_hash = inventory_hash host current;
      added_tools = sort_names (filter_by (λ n. not (contains previous_names n)) current_names);
      removed_tools = sort_names (filter_by (λ n. not (contains current_names n)) previous_names);
      changed_tools = sort_names (
          filter_by (λ n. contains previous_names n && has_changed previous current n)
            current_names);
    }

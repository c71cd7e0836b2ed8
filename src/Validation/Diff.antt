-- ===== src/Validation/Diff.antt =====
-- toolbox/validation.py: `diff_toolsets` against the two inventories that it compares.
use toolbox_mcp.Prelude.{
  String, ◌≡◌, Bool, not, ◌&&◌, List, string_eq, contains, distinct, filter_by, contains-filter_by,
  contains-distinct, contains-sort_by,
}
use toolbox_mcp.Models.{ToolSchema}
use toolbox_mcp.Host.{Host}
use toolbox_mcp.Validation.{string_le, sort_names, schema_names, has_changed, diff_toolsets}

contains-sort_names : (xs : List String) (n : String) → contains (sort_names xs) n ≡ contains xs n
unfolding sort_names
contains-sort_names xs n = contains-sort_by string_le xs n

contains-selected :
    (p : String → Bool) (xs : List String) (n : String)
    → contains (sort_names (filter_by p (distinct xs))) n ≡ (contains xs n && p n)
contains-selected p xs n = rw (
  contains-sort_names (filter_by p (distinct xs)) n,
  contains-filter_by p (distinct xs) n,
  contains-distinct xs n,
)

-- A tool is reported as added exactly when only the current inventory has its name, as removed exactly
-- when only the previous one has it, and as changed exactly when both have it and the two tools of that
-- name hash differently.
pub diff_toolsets-exact :
    (host : Host) (namespace : String) (previous current : List ToolSchema) (n : String)
    → let diff = diff_toolsets host namespace previous current in
      (contains diff.added_tools n
        ≡ (contains (schema_names current) n && not (contains (schema_names previous) n)))
      × (contains diff.removed_tools n
          ≡ (contains (schema_names previous) n && not (contains (schema_names current) n)))
      × (contains diff.changed_tools n ≡ (
          contains (schema_names current) n
          && (contains (schema_names previous) n && has_changed previous current n)))
unfolding diff_toolsets
diff_toolsets-exact host namespace previous current n = (
  rw (
    contains-selected (λ m. not (contains (distinct (schema_names previous)) m))
        (schema_names current) n,
    contains-distinct (schema_names previous) n,
  ),
  rw (
    contains-selected (λ m. not (contains (distinct (schema_names current)) m))
        (schema_names previous) n,
    contains-distinct (schema_names current) n,
  ),
  rw (
    contains-selected
        (λ m. contains (distinct (schema_names previous)) m && has_changed previous current m)
        (schema_names current) n,
    contains-distinct (schema_names previous) n,
  ),
)

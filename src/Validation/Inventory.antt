-- ===== src/Validation/Inventory.antt =====
-- toolbox/validation.py: `validate_tool_inventory`, against the names of the inventory.
use toolbox_mcp.Prelude.{
  String, ◌≡◌, refl, ap, ◌∙◌, Bool, true, false, not, List, [], ◌∷◌, map, arith, if◌then◌else◌,
  string_eq, contains, IsDistinct, distinct, is_empty, sort_by, insert_by, contains-sort_by,
  eq_refl, contains-distinct,
}
use toolbox_mcp.Models.{Tool, ToolSchema, Exception, Result, ok, err}
use toolbox_mcp.Host.{Host}
use toolbox_mcp.Validation.{
  string_le, sort_names, tool_names, schema_names, repeated, normalize_tool, schema_le,
  validate_tool_inventory,
}

repeated_of_IsDistinct : (xs : List String) → IsDistinct xs → repeated xs ≡ []
unfolding repeated
repeated_of_IsDistinct [] h = refl
repeated_of_IsDistinct (x ∷ xs) h = rw (h.0) (repeated_of_IsDistinct xs h.1)

IsDistinct-of_repeated :
    (xs : List String) → ((n : String) → contains (repeated xs) n ≡ false) → IsDistinct xs
unfolding repeated
IsDistinct-of_repeated [] h = tt
IsDistinct-of_repeated (x ∷ xs) h =
    (ground (arith, h x, eq_refl x), IsDistinct-of_repeated xs (λ n. ground (arith, h n)))

is_empty-contains : (xs : List String) (n : String) → is_empty xs ≡ true → contains xs n ≡ false
is_empty-contains [] n h = refl
is_empty-contains (x ∷ xs) n h = cc

names-normalized :
    (host : Host) (tools : List Tool)
    → schema_names (map (normalize_tool host) tools) ≡ tool_names tools
unfolding normalize_tool
names-normalized host [] = refl
names-normalized host (t ∷ ts) = cc (names-normalized host ts)

names-insert_by :
    (t : ToolSchema) (ts : List ToolSchema)
    → schema_names (insert_by schema_le t ts) ≡ insert_by string_le t.name (schema_names ts)
unfolding insert_by
names-insert_by t [] = refl
names-insert_by t (u ∷ ts) = ground (arith, names-insert_by t ts)

names-sort_by :
    (ts : List ToolSchema)
    → schema_names (sort_by schema_le ts) ≡ sort_by string_le (schema_names ts)
unfolding sort_by
names-sort_by [] = refl
names-sort_by (t ∷ ts) = rw (names-insert_by t (sort_by schema_le ts), names-sort_by ts)

no_duplicates : (xs : List String) → IsDistinct xs → sort_by string_le (distinct (repeated xs)) ≡ []
unfolding distinct sort_by
no_duplicates xs h = rw (repeated_of_IsDistinct xs h)

distinct_of_no_duplicates :
    (xs : List String)
    → is_empty (sort_by string_le (distinct (repeated xs))) ≡ true
    → IsDistinct xs
distinct_of_no_duplicates xs h = IsDistinct-of_repeated xs λ n.
    rw (contains-sort_by string_le (distinct (repeated xs)) n, contains-distinct (repeated xs) n) at
      (is_empty-contains (sort_by string_le (distinct (repeated xs))) n h)

ok_of_guard :
    (b : Bool) (e : Exception) (m : Result (List ToolSchema)) {ss : List ToolSchema}
    → (if not b then err e else m) ≡ ok ss
    → b ≡ true
ok_of_guard true e m h = refl
ok_of_guard false e m h = cc

-- An inventory whose tool names are distinct is accepted, and the result lists exactly those names, sorted.
pub validate_tool_inventory_of_IsDistinct :
    (host : Host) (namespace : String) (tools : List Tool)
    → IsDistinct (tool_names tools)
    → (ss : List ToolSchema) × (validate_tool_inventory host namespace tools ≡ ok ss)
      × (schema_names ss ≡ sort_names (tool_names tools))
unfolding validate_tool_inventory sort_names
validate_tool_inventory_of_IsDistinct host namespace tools h = (
  sort_by schema_le (map (normalize_tool host) tools),
  rw (no_duplicates (tool_names tools) h),
  names-sort_by (map (normalize_tool host) tools)
      ∙ ap (sort_by string_le) (names-normalized host tools),
)

-- An inventory that is accepted has distinct tool names.
pub validate_tool_inventory-IsDistinct :
    (host : Host) (namespace : String) (tools : List Tool) (ss : List ToolSchema)
    → validate_tool_inventory host namespace tools ≡ ok ss
    → IsDistinct (tool_names tools)
unfolding validate_tool_inventory sort_names
validate_tool_inventory-IsDistinct host namespace tools ss h =
    distinct_of_no_duplicates (tool_names tools) (ok_of_guard _ _ _ h)

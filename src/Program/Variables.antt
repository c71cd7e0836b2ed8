-- ===== src/Program/Variables.antt =====
-- toolbox/program_runtime.py: `_serializable_bindings`.
use toolbox_mcp.Prelude.{
  String, ◌≡◌, refl, ◌∙◌, sym, Bool, true, false, ◌&&◌, not, Option, none, some, List, [], ◌∷◌,
  if◌then◌else◌, arith, Bool-cases, inl, inr, ◌==◌, string_eq, eq_iff, contains,
}
use toolbox_mcp.Json.{Json, Fields, end, field, get_field, set_field}
use toolbox_mcp.Program.Values.{Value, Entries, get_entry, json_safe_value}
use toolbox_mcp.Program.Run.{is_private, with_binding, bindings_in, serializable_bindings}

get-set_field :
    (f : Fields) (k j : String) (v : Json)
    → get_field (set_field k v f) j ≡ (if k == j then some v else get_field f j)
unfolding get_field set_field
get-set_field end k j v = refl
get-set_field (field i old rest) k j v =
    ground (arith, get-set_field rest k j v, eq_iff i k, eq_iff k j, eq_iff i j)

-- What a result shows under a name, where it showed `before`.
abbrev pub shown_or : Bool → String → Option Value → Option Json → Option Json
shown_or asked key none before = before
shown_or asked key (some v) before =
    if asked && not (is_private key) then some (json_safe_value v) else before

get-with_binding :
    (f : Fields) (k j : String) (o : Option Value)
    → get_field (with_binding k o f) j ≡ shown_or (k == j) k o (get_field f j)
unfolding with_binding
get-with_binding f k j none = refl
get-with_binding f k j (some v) = ground (arith, get-set_field f k j (json_safe_value v))

shown_or_again :
    (asked : Bool) (key : String) (o : Option Value) (before : Option Json)
    → shown_or asked key o (shown_or true key o before) ≡ shown_or true key o before
shown_or_again asked key none before = refl
shown_or_again asked key (some v) before = ground arith

shown_or_not :
    (key : String) (o : Option Value) (before : Option Json) → shown_or false key o before ≡ before
shown_or_not key none before = refl
shown_or_not key (some v) before = refl

get-bindings_in :
    (environment : Entries) (keys : List String) (f : Fields) (j : String)
    → get_field (bindings_in environment keys f) j
      ≡ shown_or (contains keys j) j (get_entry environment j) (get_field f j)
unfolding bindings_in
get-bindings_in environment [] f j = sym (shown_or_not j (get_entry environment j) (get_field f j))
get-bindings_in environment (k ∷ keys) f j =
    get-bindings_in environment keys (with_binding k (get_entry environment k) f) j
    ∙ elim (Bool-cases (k == j)) [
      | inl same ↦
          let e : k ≡ j = (eq_iff k j).0 same in
          rw (get-with_binding f k j (get_entry environment k), same, e)
            (shown_or_again (contains keys j) j (get_entry environment j) (get_field f j))
      | inr other ↦ rw (get-with_binding f k j (get_entry environment k), other, shown_or_not) refl
    ]

-- The answer to a run shows exactly the variables that were asked for, have a value, and do not start with
-- an underscore, each with its JSON value.
pub get-serializable_bindings :
    (environment : Entries) (keys : List String) (key : String)
    → get_field (serializable_bindings environment (some keys)) key
      ≡ shown_or (contains keys key) key (get_entry environment key) none
unfolding serializable_bindings get_field
get-serializable_bindings environment keys key = get-bindings_in environment keys end key

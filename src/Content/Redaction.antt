-- ===== src/Content/Redaction.antt =====
-- toolbox/service.py, toolbox/program_runtime.py: `_redacted_argument_value`.
use toolbox_mcp.Prelude.{String, Bool, ◌≡◌, refl, ap}
use toolbox_mcp.Json.{
  ℤ, Json, null, bool, int, real, str, arr, obj, Items, nil, cons, Fields, end, field,
}
use toolbox_mcp.Content.{redacted_value, redacted_items, redacted_fields}

-- A value that is no container and not `None`.
pub data IsLeaf : Json → Type 0 where
  bool_leaf : (b : Bool) → IsLeaf (bool b)
  int_leaf : (n : ℤ) → IsLeaf (int n)
  real_leaf : (text : String) → IsLeaf (real text)
  str_leaf : (text : String) → IsLeaf (str text)

-- Values that differ in their leaves only: they have the same keys and lengths.
mutual
  pub data SameShape : Json → Json → Type 0 where
    both_null : SameShape null null
    leaves : {v u : Json} → IsLeaf v → IsLeaf u → SameShape v u
    lists : {xs ys : Items} → SameItems xs ys → SameShape (arr xs) (arr ys)
    objects : {f g : Fields} → SameFields f g → SameShape (obj f) (obj g)

  pub data SameItems : Items → Items → Type 0 where
    both_nil : SameItems nil nil
    both_cons :
        {v u : Json} {xs ys : Items}
        → SameShape v u
        → SameItems xs ys
        → SameItems (cons v xs) (cons u ys)

  pub data SameFields : Fields → Fields → Type 0 where
    both_end : SameFields end end
    both_field :
        {v u : Json} {f g : Fields} (key : String)
        → SameShape v u
        → SameFields f g
        → SameFields (field key v f) (field key u g)

redacted_leaf : {v : Json} → IsLeaf v → redacted_value v ≡ str "[redacted]"
unfolding redacted_value
redacted_leaf (bool_leaf b) = refl
redacted_leaf (int_leaf n) = refl
redacted_leaf (real_leaf text) = refl
redacted_leaf (str_leaf text) = refl

mutual
  unfolding redacted_value

  redacted_value_same : {v u : Json} → SameShape v u → redacted_value v ≡ redacted_value u
  redacted_value_same both_null = refl
  redacted_value_same (leaves a b) = cc (redacted_leaf a, redacted_leaf b)
  redacted_value_same (lists s) = ap arr (redacted_items_same s)
  redacted_value_same (objects s) = ap obj (redacted_fields_same s)

  redacted_items_same : {xs ys : Items} → SameItems xs ys → redacted_items xs ≡ redacted_items ys
  redacted_items_same both_nil = refl
  redacted_items_same (both_cons s t) = cc (redacted_value_same s, redacted_items_same t)

  pub redacted_fields_same : {f g : Fields} → SameFields f g → redacted_fields f ≡ redacted_fields g
  redacted_fields_same both_end = refl
  redacted_fields_same (both_field key s t) = cc (redacted_value_same s, redacted_fields_same t)

mutual
  unfolding redacted_value

  value-SameShape : (v : Json) → SameShape (redacted_value v) v
  value-SameShape null = both_null
  value-SameShape (bool b) = leaves (str_leaf _) (bool_leaf b)
  value-SameShape (int n) = leaves (str_leaf _) (int_leaf n)
  value-SameShape (real text) = leaves (str_leaf _) (real_leaf text)
  value-SameShape (str text) = leaves (str_leaf _) (str_leaf text)
  value-SameShape (arr items) = lists (items-SameItems items)
  value-SameShape (obj fields) = objects (fields-SameFields fields)

  items-SameItems : (xs : Items) → SameItems (redacted_items xs) xs
  items-SameItems nil = both_nil
  items-SameItems (cons v xs) = both_cons (value-SameShape v) (items-SameItems xs)

  fields-SameFields : (f : Fields) → SameFields (redacted_fields f) f
  fields-SameFields end = both_end
  fields-SameFields (field key v f) = both_field key (value-SameShape v) (fields-SameFields f)

-- Redacted arguments have the keys and the shape of the arguments, and arguments that differ in nothing but
-- their leaves are redacted alike.
pub redacted_fields_lem :
    (f g : Fields)
    → SameFields f g
    → SameFields (redacted_fields f) f × (redacted_fields f ≡ redacted_fields g)
redacted_fields_lem f g s = (fields-SameFields f, redacted_fields_same s)

-- ===== src/Json.antt =====
-- The JSON values that the program passes around: `dict[str, Any]` payloads, audit details, tool
-- arguments and results. A number that is no integer is kept as its literal text: no modelled code
-- computes with one.
use toolbox_mcp.Prelude.{
  ℕ, zero, suc, String, Bool, Option, none, some, List, [], ◌∷◌, ◌==◌, string_eq, if◌then◌else◌,
}

-- `negsuc n` is -(n + 1).
pub data ℤ : Type 0 where
  pos : ℕ → ℤ
  negsuc : ℕ → ℤ

mutual
  pub data Json : Type 0 where
    null : Json
    bool : Bool → Json
    int : ℤ → Json
    real : String → Json
    str : String → Json
    arr : Items → Json
    obj : Fields → Json

  pub data Items : Type 0 where
    nil : Items
    cons : Json → Items → Items

  -- A dictionary in insertion order.
  pub data Fields : Type 0 where
    end : Fields
    field : String → Json → Fields → Fields

abbrev pub items_of_strings : List String → Items
items_of_strings [] = nil
items_of_strings (x ∷ xs) = cons (str x) (items_of_strings xs)

abbrev pub strings : List String → Json
strings xs = arr (items_of_strings xs)

abbrev pub nat : ℕ → Json
nat n = int (pos n)

-- `d.get(key)` of a dictionary; its keys are distinct.
unfoldable pub get_field : Fields → String → Option Json
get_field end key = none
get_field (field k v rest) key = if k == key then some v else get_field rest key

-- `xs[i]` of a list; `none` past its end.
unfoldable pub get_item : Items → ℕ → Option Json
get_item nil i = none
get_item (cons v rest) zero = some v
get_item (cons v rest) (suc i) = get_item rest i

-- `d[key] = value`.
unfoldable pub set_field : String → Json → Fields → Fields
set_field key v end = field key v end
set_field key v (field k old rest) =
    let later = set_field key v rest in if k == key then field k v rest else field k old later

-- `d.pop(key, None)`, without its value.
unfoldable pub without_field : String → Fields → Fields
without_field key end = end
without_field key (field k v rest) =
    let later = without_field key rest in if k == key then rest else field k v later

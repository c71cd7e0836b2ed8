-- ===== src/Service/References.antt =====
-- toolbox/service.py: the references `{"$from": "step.key"}` in the arguments of a batch step, and what they
-- stand for. The dictionary `results_by_id` is a list of the results so far, the newest first.
pub mod Sources
use toolbox_mcp.Prelude.{
  ℕ, String, Bool, true, false, ◌&&◌, not, Option, none, some, List, [], ◌∷◌, if◌then◌else◌, ◌==◌,
  string_eq, leb, find_first, filter_by, text_of, show_nat, split_dots,
}
use Prim.Native.Char.{code}
use toolbox_mcp.Json.{
  Json, null, bool, int, real, str, arr, obj, Items, nil, cons, Fields, end, field, get_field,
  get_item,
}
use toolbox_mcp.Models.{Exception, other_error, Result, ok, err, then_ok}
use toolbox_mcp.Host.{Host}

-- toolbox/models.py: `BatchStepResult`. The field `data` is `data_value`, with `null` for `None`.
pub record BatchStepResult : Type 0 where
  pub id : String
  pub tool : String
  pub resolved_arguments : Fields
  pub data_value : Json
  pub text : Option String
  pub is_error : Bool
  pub error_message : Option String

abbrev refuse {ℓ} : {A : Type ℓ} → List String → Result A
refuse parts = err (other_error (text_of parts))

-- `token.isdigit()` of a token that is not empty.
unfoldable pub all_digits : (ℕ → Bool) → String → Bool
all_digits is_digit String.[] = true
all_digits is_digit (String.◌∷◌ c s) = is_digit (code c) && all_digits is_digit s

abbrev found_or_missing : String → String → Option Json → Result Json
found_or_missing reference token none =
    refuse ("Batch reference '" ∷ reference ∷ "' is missing key '" ∷ token ∷ "'" ∷ [])
found_or_missing reference token (some value) = ok value

abbrev item_or_error : String → ℕ → Option Json → Result Json
item_or_error reference index none =
    refuse
      ("Batch reference '" ∷ reference ∷ "' index '" ∷ show_nat index ∷ "' is out of range" ∷ [])
item_or_error reference index (some value) = ok value

-- The body of the loop over the tokens after the first one.
unfoldable pub descend_one : Host → String → String → Json → Result Json
unfolding all_digits then_ok get_field get_item
descend_one host reference token (obj fields) =
    found_or_missing reference token (get_field fields token)
descend_one host reference token (arr items) =
    if not (all_digits host.is_digit token)
    then refuse (
        "Batch reference '" ∷ reference ∷ "' expected a numeric list index, got '" ∷ token ∷ "'"
        ∷ [])
    else then_ok (host.int_of_digits token)
        λ index. item_or_error reference index (get_item items index)
descend_one host reference token _ =
    refuse ("Batch reference '" ∷ reference ∷ "' cannot descend into '" ∷ token ∷ "'" ∷ [])

unfoldable pub descend : Host → String → List String → Json → Result Json
unfolding descend_one then_ok
descend host reference [] current = ok current
descend host reference (token ∷ tokens) current =
    then_ok (descend_one host reference token current) (descend host reference tokens)

abbrev text_or_null : Option String → Json
text_or_null none = null
text_or_null (some text) = str text

-- The value of a step: its data, or its text where it has no data.
unfoldable pub value_of_step : BatchStepResult → Json
value_of_step step = elim step.data_value [ null ↦ text_or_null step.text | value ↦ value ]

unfoldable pub extract_from :
    Host → String → String → List String → Option BatchStepResult → Result Json
unfolding descend value_of_step
extract_from host reference step_id tokens none =
    refuse ("Batch reference points to an unknown step: " ∷ step_id ∷ [])
extract_from host reference step_id tokens (some step) =
    if step.is_error
    then refuse ("Batch reference points to a failed step: " ∷ step_id ∷ [])
    else descend host reference tokens (value_of_step step)

abbrev pub result_of : List BatchStepResult → String → Option BatchStepResult
result_of results step_id = find_first (λ step. step.id == step_id) results

unfoldable pub extract_tokens : Host → List BatchStepResult → String → List String → Result Json
unfolding extract_from
extract_tokens host results reference [] = refuse ("Batch reference cannot be empty" ∷ [])
extract_tokens host results reference (step_id ∷ tokens) =
    extract_from host reference step_id tokens (result_of results step_id)

-- `[token for token in reference.split(".") if token]`.
unfoldable pub tokens_of : String → List String
unfolding split_dots
tokens_of reference = filter_by (λ token. not (token == "")) (split_dots reference)

-- `_extract_batch_reference`.
unfoldable pub extract_batch_reference : Host → List BatchStepResult → String → Result Json
unfolding extract_tokens tokens_of
extract_batch_reference host results reference =
    extract_tokens host results reference (tokens_of reference)

-- `set(value.keys()) == {"$from"}`.
unfoldable pub is_reference : Fields → Bool
is_reference end = false
is_reference (field key value end) = key == "$from"
is_reference (field key value (field k v rest)) = false

unfoldable pub resolve_reference : Host → List BatchStepResult → Fields → Result Json
unfolding extract_batch_reference
resolve_reference host results (field key (str reference) rest) =
    extract_batch_reference host results reference
resolve_reference host results _ = refuse ("Batch reference values must be strings" ∷ [])

module _ (host : Host) (results : List BatchStepResult) where
  unfoldable mutual
    unfolding resolve_reference is_reference then_ok

    -- `_resolve_batch_value`.
    pub resolve_batch_value : Json → Result Json
    resolve_batch_value (obj fields) =
        let inner = resolve_batch_fields fields in
        if is_reference fields
        then resolve_reference host results fields
        else then_ok inner λ resolved. ok (obj resolved)
    resolve_batch_value (arr items) =
        then_ok (resolve_batch_items items) λ resolved. ok (arr resolved)
    resolve_batch_value null = ok null
    resolve_batch_value (bool b) = ok (bool b)
    resolve_batch_value (int n) = ok (int n)
    resolve_batch_value (real text) = ok (real text)
    resolve_batch_value (str text) = ok (str text)

    pub resolve_batch_items : Items → Result Items
    resolve_batch_items nil = ok nil
    resolve_batch_items (cons value items) =
        then_ok (resolve_batch_value value)
          λ v. then_ok (resolve_batch_items items) λ vs. ok (cons v vs)

    pub resolve_batch_fields : Fields → Result Fields
    resolve_batch_fields end = ok end
    resolve_batch_fields (field key value fields) =
        then_ok (resolve_batch_value value)
          λ v. then_ok (resolve_batch_fields fields) λ vs. ok (field key v vs)

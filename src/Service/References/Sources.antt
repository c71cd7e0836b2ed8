-- ===== src/Service/References/Sources.antt =====
-- toolbox/service.py: which steps `_resolve_batch_value` reads.
use toolbox_mcp.Prelude.{
  String, ◌≡◌, refl, Bool, true, false, Option, none, some, List, [], ◌∷◌, ◌++◌, if◌then◌else◌, All,
  All-append, arith, Bool-cases, inl, inr, string_eq,
}
use toolbox_mcp.Json.{
  Json, null, bool, int, real, str, arr, obj, Items, nil, cons, Fields, end, field,
}
use toolbox_mcp.Models.{Result, ok, err, then_ok}
use toolbox_mcp.Host.{Host}
use toolbox_mcp.Service.References.{
  BatchStepResult, result_of, is_reference, resolve_reference, extract_batch_reference,
  extract_tokens, extract_from, tokens_of, resolve_batch_value, resolve_batch_items,
  resolve_batch_fields,
}

-- The value of the key `$from`.
abbrev reference_in : Fields → List Json
reference_in end = []
reference_in (field key value rest) = value ∷ []

-- The references in a value, as they are written there.
unfoldable mutual
  unfolding is_reference

  pub references : Json → List Json
  references (obj fields) =
      let inner = references_in_fields fields in
      if is_reference fields then reference_in fields else inner
  references (arr items) = references_in_items items
  references null = []
  references (bool b) = []
  references (int n) = []
  references (real text) = []
  references (str text) = []

  pub references_in_items : Items → List Json
  references_in_items nil = []
  references_in_items (cons value items) = references value ++ references_in_items items

  pub references_in_fields : Fields → List Json
  references_in_fields end = []
  references_in_fields (field key value fields) = references value ++ references_in_fields fields

-- A reference that names a step which has run and did not fail.
pub data IsSourced (results : List BatchStepResult) : Json → Type 0 where
  sourced :
      {reference step_id : String} {tokens : List String} {result : BatchStepResult}
      → tokens_of reference ≡ step_id ∷ tokens
      → result_of results step_id ≡ some result
      → result.is_error ≡ false
      → IsSourced results (str reference)

ok_of_then_ok :
    {A B : Type 0} (r : Result A) (f : A → Result B) (b : B)
    → then_ok r f ≡ ok b
    → (a : A) × (r ≡ ok a) × (f a ≡ ok b)
unfolding then_ok
ok_of_then_ok (ok a) f b h = (a, refl, h)
ok_of_then_ok (err e) f b h = cc

module _ (host : Host) (results : List BatchStepResult) where
  from-IsSourced :
      (reference step_id : String) (tokens : List String) (found : Option BatchStepResult)
      (u : Json)
      → tokens_of reference ≡ step_id ∷ tokens
      → result_of results step_id ≡ found
      → extract_from host reference step_id tokens found ≡ ok u
      → IsSourced results (str reference)
  unfolding extract_from
  from-IsSourced reference step_id tokens none u t e h = cc
  from-IsSourced reference step_id tokens (some result) u t e h =
      elim (Bool-cases result.is_error) [
        | inl failed ↦ ground (arith, failed)
        | inr passed ↦ sourced t e passed
      ]

  tokens-IsSourced :
      (reference : String) (tokens : List String) (u : Json)
      → tokens_of reference ≡ tokens
      → extract_tokens host results reference tokens ≡ ok u
      → IsSourced results (str reference)
  unfolding extract_tokens
  tokens-IsSourced reference [] u t h = cc
  tokens-IsSourced reference (step_id ∷ tokens) u t h =
      from-IsSourced reference step_id tokens _ u t refl h

  reference-IsSourced :
      (fields : Fields) (u : Json)
      → is_reference fields ≡ true
      → resolve_reference host results fields ≡ ok u
      → All (IsSourced results) (reference_in fields)
  unfolding resolve_reference is_reference extract_batch_reference
  reference-IsSourced end u r h = cc
  reference-IsSourced (field key (str reference) rest) u r h =
      (tokens-IsSourced reference _ u refl h, tt)
  reference-IsSourced (field key null rest) u r h = cc
  reference-IsSourced (field key (bool b) rest) u r h = cc
  reference-IsSourced (field key (int n) rest) u r h = cc
  reference-IsSourced (field key (real text) rest) u r h = cc
  reference-IsSourced (field key (arr items) rest) u r h = cc
  reference-IsSourced (field key (obj inner) rest) u r h = cc

  object-IsSourced :
      (fields : Fields) (b : Bool) (u : Json)
      → is_reference fields ≡ b
      → (if b
          then resolve_reference host results fields
          else then_ok (resolve_batch_fields host results fields) (λ g. ok (obj g)))
        ≡ ok u
      → ((g : Fields)
          → resolve_batch_fields host results fields ≡ ok g
          → All (IsSourced results) (references_in_fields fields))
      → All (IsSourced results) (if b then reference_in fields else references_in_fields fields)
  object-IsSourced fields true u r h inner = reference-IsSourced fields u r h
  object-IsSourced fields false u r h inner =
      let (g, e, _) =
        ok_of_then_ok (resolve_batch_fields host results fields) (λ g. ok (obj g)) u h in
      inner g e

  mutual
    unfolding resolve_batch_value references

    value-IsSourced :
        (v u : Json)
        → resolve_batch_value host results v ≡ ok u
        → All (IsSourced results) (references v)
    value-IsSourced (obj fields) u h =
        object-IsSourced fields (is_reference fields) u refl h (λ g e. fields-IsSourced fields g e)
    value-IsSourced (arr items) u h =
        let (g, e, _) = ok_of_then_ok (resolve_batch_items host results items) _ u h in
        items-IsSourced items g e
    value-IsSourced null u h = tt
    value-IsSourced (bool b) u h = tt
    value-IsSourced (int n) u h = tt
    value-IsSourced (real text) u h = tt
    value-IsSourced (str text) u h = tt

    items-IsSourced :
        (xs ys : Items)
        → resolve_batch_items host results xs ≡ ok ys
        → All (IsSourced results) (references_in_items xs)
    items-IsSourced nil ys h = tt
    items-IsSourced (cons v xs) ys h =
        let (u, e, k) = ok_of_then_ok (resolve_batch_value host results v) _ ys h in
        let (us, e', _) = ok_of_then_ok (resolve_batch_items host results xs) _ ys k in
        All-append (IsSourced results) (references v) (references_in_items xs)
          (value-IsSourced v u e) (items-IsSourced xs us e')

    fields-IsSourced :
        (f g : Fields)
        → resolve_batch_fields host results f ≡ ok g
        → All (IsSourced results) (references_in_fields f)
    fields-IsSourced end g h = tt
    fields-IsSourced (field key v f) g h =
        let (u, e, k) = ok_of_then_ok (resolve_batch_value host results v) _ g h in
        let (us, e', _) = ok_of_then_ok (resolve_batch_fields host results f) _ g k in
        All-append (IsSourced results) (references v) (references_in_fields f)
          (value-IsSourced v u e) (fields-IsSourced f us e')

-- Arguments resolve only if each reference in them names a step that has run and did not fail.
pub resolve_batch_value-IsSourced :
    (host : Host) (results : List BatchStepResult) (v u : Json)
    → resolve_batch_value host results v ≡ ok u
    → All (IsSourced results) (references v)
resolve_batch_value-IsSourced host results v u h = value-IsSourced host results v u h

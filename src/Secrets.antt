-- ===== src/Secrets.antt =====
-- toolbox/transport_secrets.py: how the arguments and the environment of a transport are kept in the state
-- file. The ciphers, base64 and the JSON library are parameters; the key file is state.
pub mod Providers
pub mod RoundTrip
use toolbox_mcp.Prelude.{
  ℕ, String, Bool, true, false, ◌&&◌, ◌||◌, not, Option, none, some, List, [], ◌∷◌, if◌then◌else◌,
  is_empty, nat_beq, ◌==◌, string_eq,
}
use toolbox_mcp.Json.{
  ℤ, pos, negsuc, Json, null, bool, int, real, str, arr, obj, Items, nil, cons, Fields, end, field,
  get_field, set_field, without_field, strings,
}
use toolbox_mcp.Models.{Exception, other_error, Result, ok, err, then_ok}
use toolbox_mcp.Secrets.Providers.{
  Platform, KeyStore, Bundle, protect_bundle, reveal_bundle, env_fields,
}

-- `str(item)` of a JSON value.
abbrev item_text : Platform → Json → String
item_text p (str text) = text
item_text p v = p.text v

unfoldable pub item_texts : Platform → Items → List String
item_texts p nil = []
item_texts p (cons v items) = item_text p v ∷ item_texts p items

unfoldable pub field_texts : Platform → Fields → List (String × String)
field_texts p end = []
field_texts p (field key v fields) = (key, item_text p v) ∷ field_texts p fields

-- What a loop over a text or a dictionary gives.
unfoldable pub letters : String → List String
letters String.[] = []
letters (String.◌∷◌ c s) = (String.◌∷◌ c "") ∷ letters s

unfoldable pub field_keys : Fields → List String
field_keys end = []
field_keys (field key v fields) = key ∷ field_keys fields

-- `[str(item) for item in transport.get("args", [])]`.
abbrev texts_or_error : Platform → Option Json → Result (List String)
texts_or_error p none = ok []
texts_or_error p (some (arr items)) = ok (item_texts p items)
texts_or_error p (some (str text)) = ok (letters text)
texts_or_error p (some (obj fields)) = ok (field_keys fields)
texts_or_error p (some v) = err (other_error (p.type_error v))

-- `{str(key): str(value) for key, value in transport.get("env", {}).items()}`.
abbrev entries_or_error : Platform → Option Json → Result (List (String × String))
entries_or_error p none = ok []
entries_or_error p (some (obj fields)) = ok (field_texts p fields)
entries_or_error p (some v) = err (other_error (p.type_error v))

unfoldable pub bundle_in : Platform → Fields → Result Bundle
unfolding get_field item_texts field_texts letters field_keys then_ok
bundle_in p transport = then_ok (texts_or_error p (get_field transport "args")) λ args.
    then_ok (entries_or_error p (get_field transport "env"))
      λ env. ok (record { args = args; env = env })

-- The secrets are replaced by the envelope.
unfoldable pub enveloped : Fields → Fields → Fields
unfolding set_field
enveloped transport envelope =
    set_field "env" (obj end)
      (set_field "args" (arr nil) (set_field "secret_envelope" (obj envelope) transport))

abbrev has_no_secret : Bundle → Bool
has_no_secret bundle = is_empty bundle.args && is_empty bundle.env

abbrev enveloped_by : Fields → Result Fields × KeyStore → Result Fields × KeyStore
enveloped_by transport (r, s) = (then_ok r λ envelope. ok (enveloped transport envelope), s)

unfoldable pub protect_found :
    Platform → Fields → Result Bundle → KeyStore → Result Fields × KeyStore
unfolding enveloped protect_bundle then_ok
protect_found p transport (err e) s = (err e, s)
protect_found p transport (ok bundle) s =
    if has_no_secret bundle
    then (ok transport, s)
    else enveloped_by transport (protect_bundle p bundle s)

-- `protect_transport`.
unfoldable pub protect_transport : Platform → Fields → KeyStore → Result Fields × KeyStore
unfolding protect_found bundle_in
protect_transport p transport s = protect_found p transport (bundle_in p transport) s

unfoldable pub with_bundle : Fields → Bundle → Fields
unfolding set_field env_fields
with_bundle transport bundle =
    set_field "env" (obj (env_fields bundle.env)) (set_field "args" (strings bundle.args) transport)

abbrev restored_by : Fields → Result Bundle × KeyStore → Result (Fields × Bool) × KeyStore
restored_by transport (r, s) = (then_ok r λ bundle. ok (with_bundle transport bundle, true), s)

unfoldable pub restore_enveloped :
    Platform → Fields → Option Json → KeyStore → Result (Fields × Bool) × KeyStore
unfolding with_bundle reveal_bundle then_ok
restore_enveloped p transport (some (obj envelope)) s =
    restored_by transport (reveal_bundle p envelope s)
restore_enveloped p transport _ s = (ok (transport, false), s)

-- `restore_transport`.
unfoldable pub restore_transport : Platform → Fields → KeyStore → Result (Fields × Bool) × KeyStore
unfolding restore_enveloped without_field get_field
restore_transport p transport s =
    restore_enveloped p (without_field "secret_envelope" transport)
      (get_field transport "secret_envelope") s

abbrev is_truthy : Platform → Option Json → Bool
is_truthy p none = false
is_truthy p (some null) = false
is_truthy p (some (bool b)) = b
is_truthy p (some (int (pos n))) = not (nat_beq n 0)
is_truthy p (some (int (negsuc n))) = true
is_truthy p (some (real text)) = p.truthy_real text
is_truthy p (some (str text)) = not (text == "")
is_truthy p (some (arr nil)) = false
is_truthy p (some (arr (cons _ _))) = true
is_truthy p (some (obj end)) = false
is_truthy p (some (obj (field _ _ _))) = true

abbrev is_dict : Option Json → Bool
is_dict (some (obj _)) = true
is_dict _ = false

-- `needs_migration`, of a dictionary.
unfoldable pub needs_migration : Platform → Fields → Bool
unfolding get_field
needs_migration p transport =
    if is_dict (get_field transport "secret_envelope")
    then false
    else is_truthy p (get_field transport "args") || is_truthy p (get_field transport "env")

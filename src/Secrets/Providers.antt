-- ===== src/Secrets/Providers.antt =====
-- toolbox/transport_secrets.py: the providers `windows-dpapi` and `local-aesgcm-keyfile`.
use toolbox_mcp.Prelude.{
  ℕ, suc, String, Bool, false, not, Option, none, some, List, [], ◌∷◌, if◌then◌else◌, length,
  nat_beq, sort_by, text_of, ◌==◌, string_eq,
}
use toolbox_mcp.Json.{
  Json, str, arr, obj, Items, nil, cons, Fields, end, field, get_field, strings, nat,
}
use toolbox_mcp.Models.{other_error, Result, ok, err, then_ok}
use toolbox_mcp.Validation.{string_le}

-- `bytes`.
abbrev pub Bytes : Type 0
Bytes = List ℕ

-- The libraries and the operating system.
pub record Platform : Type 0 where
  -- `sys.platform == "win32"`.
  pub windows : Bool
  -- `AESGCM.generate_key(bit_length=256)` and `os.urandom(12)`, by how often either was asked.
  pub generate_key : ℕ → Bytes
  pub urandom : ℕ → Bytes
  -- `AESGCM(key).encrypt(nonce, data, None)` and `decrypt`.
  pub encrypt : Bytes → Bytes → Bytes → Bytes
  pub decrypt : Bytes → Bytes → Bytes → Result Bytes
  -- `CryptProtectData` and `CryptUnprotectData`.
  pub crypt_protect_data : Bytes → Result Bytes
  pub crypt_unprotect_data : Bytes → Result Bytes
  -- `base64.b64encode(…).decode("ascii")` and `base64.b64decode(….encode("ascii"))`.
  pub b64encode : Bytes → String
  pub b64decode : String → Result Bytes
  -- `json.dumps(…, separators=(",", ":")).encode("utf-8")` and `json.loads(….decode("utf-8"))`.
  pub dumps : Json → Bytes
  pub loads : Bytes → Result Json
  -- `str(v)` of a value that is no string, and `bool(x)` of a float.
  pub text : Json → String
  pub truthy_real : String → Bool
  -- The message of the exception where a value of another class stands.
  pub type_error : Json → String

-- The key file, and how often randomness was asked for.
pub record KeyStore : Type 0 where
  pub key_file : Option Bytes
  pub asked : ℕ

pub record Bundle : Type 0 where
  pub args : List String
  pub env : List (String × String)

unfoldable pub env_fields : List (String × String) → Fields
env_fields [] = end
env_fields ((key, v) ∷ env) = field key (str v) (env_fields env)

abbrev and_text : String → Option (List String) → Option (List String)
and_text text none = none
and_text text (some texts) = some (text ∷ texts)

-- The items, if all are strings.
unfoldable pub string_items : Items → Option (List String)
string_items nil = some []
string_items (cons (str text) items) = and_text text (string_items items)
string_items (cons _ items) = none

abbrev and_entry :
    String × String → Option (List (String × String)) → Option (List (String × String))
and_entry entry none = none
and_entry entry (some entries) = some (entry ∷ entries)

unfoldable pub string_fields : Fields → Option (List (String × String))
string_fields end = some []
string_fields (field key (str text) fields) = and_entry (key, text) (string_fields fields)
string_fields (field key _ fields) = none

abbrev bundle_of : Option (List String) → Option (List (String × String)) → Result Bundle
bundle_of none env = err (other_error "Transport secret bundle args must be a list of strings")
bundle_of (some args) none =
    err (other_error "Transport secret bundle env must be a string-to-string mapping")
bundle_of (some args) (some env) = ok (record { args = args; env = env })

abbrev args_in : Option Json → Option (List String)
args_in none = some []
args_in (some (arr items)) = string_items items
args_in (some _) = none

abbrev env_in : Option Json → Option (List (String × String))
env_in none = some []
env_in (some (obj fields)) = string_fields fields
env_in (some _) = none

-- `_normalize_bundle`.
unfoldable pub normalize_bundle : Platform → Json → Result Bundle
unfolding string_items string_fields get_field
normalize_bundle p (obj bundle) =
    bundle_of (args_in (get_field bundle "args")) (env_in (get_field bundle "env"))
normalize_bundle p v = err (other_error (p.type_error v))

-- `json.dumps(…, sort_keys=True)` sorts the environment.
abbrev pub sorted_env : List (String × String) → List (String × String)
sorted_env = sort_by (λ a b. string_le a.0 b.0)

unfoldable pub bundle_json : Bundle → Json
unfolding env_fields
bundle_json bundle = obj (
    field "args" (strings bundle.args) (field "env" (obj (env_fields (sorted_env bundle.env))) end))

-- `_encode_bundle`.
unfoldable pub encode_bundle : Platform → Bundle → Bytes
unfolding bundle_json
encode_bundle p bundle = p.dumps (bundle_json bundle)

-- `_decode_bundle`.
unfoldable pub decode_bundle : Platform → Bytes → Result Bundle
unfolding normalize_bundle then_ok
decode_bundle p payload = then_ok (p.loads payload) (normalize_bundle p)

abbrev encoded_or_error : Platform → String → Option Json → Result Bytes
encoded_or_error p name (some (str text)) = p.b64decode text
encoded_or_error p name _ =
    err (other_error (text_of ("Transport secret envelope missing field: " ∷ name ∷ [])))

-- `_base64_field`.
unfoldable pub base64_field : Platform → Fields → String → Result Bytes
unfolding get_field
base64_field p payload name = encoded_or_error p name (get_field payload name)

-- `_load_or_create_key`.
unfoldable pub load_or_create_key : Platform → KeyStore → Result Bytes × KeyStore
load_or_create_key p s = elim s.key_file [
  | some key ↦ (
    if not (nat_beq (length key) 32)
        then err (other_error "Invalid Toolbox transport secret key length")
        else ok key,
    s,
  )
  | none ↦
      let key = p.generate_key s.asked in
      (ok key, record { key_file = some key; asked = suc s.asked })
]

abbrev pub local_envelope : Platform → Bytes → Bytes → Bytes → Fields
local_envelope p key nonce payload = field "version" (nat 1) (
    field "provider" (str "local-aesgcm-keyfile") (
      field "nonce" (str (p.b64encode nonce))
        (field "ciphertext" (str (p.b64encode (p.encrypt key nonce payload))) end)))

abbrev pub encrypted_under : Platform → Bundle → Result Bytes × KeyStore → Result Fields × KeyStore
encrypted_under p bundle (err e, s) = (err e, s)
encrypted_under p bundle (ok key, s) = (
  ok (local_envelope p key (p.urandom s.asked) (encode_bundle p bundle)),
  record s { asked = suc s.asked },
)

abbrev windows_only : Platform → Result Bytes → Result Bytes
windows_only p r =
    if not p.windows
    then err (other_error "Windows DPAPI protection is only available on Windows")
    else r

abbrev pub windows_envelope : Platform → Bytes → Fields
windows_envelope p ciphertext =
    field "version" (nat 1) (
      field "provider" (str "windows-dpapi")
        (field "ciphertext" (str (p.b64encode ciphertext)) end))

-- `protect_bundle` of the provider that `_select_current_provider` chooses.
unfoldable pub protect_bundle : Platform → Bundle → KeyStore → Result Fields × KeyStore
unfolding load_or_create_key encode_bundle then_ok
protect_bundle p bundle s =
    if p.windows
    then (
      then_ok (windows_only p (p.crypt_protect_data (encode_bundle p bundle)))
          (λ ciphertext. ok (windows_envelope p ciphertext)),
      s,
    )
    else encrypted_under p bundle (load_or_create_key p s)

abbrev pub decrypted_under : Platform → Fields → Result Bytes × KeyStore → Result Bundle × KeyStore
decrypted_under p envelope (err e, s) = (err e, s)
decrypted_under p envelope (ok key, s) = (
  then_ok (base64_field p envelope "nonce") (λ nonce.
      then_ok (base64_field p envelope "ciphertext")
        λ ciphertext. then_ok (p.decrypt key nonce ciphertext) (decode_bundle p)),
  s,
)

abbrev provider_text : Platform → Option Json → String
provider_text p none = "None"
provider_text p (some (str text)) = text
provider_text p (some v) = p.text v

abbrev is_provider : String → Option Json → Bool
is_provider name (some (str text)) = text == name
is_provider name _ = false

-- `reveal_bundle` of the provider that `_provider_for_envelope` chooses.
unfoldable pub reveal_bundle : Platform → Fields → KeyStore → Result Bundle × KeyStore
unfolding load_or_create_key base64_field decode_bundle then_ok get_field
reveal_bundle p envelope s =
    let provider = get_field envelope "provider" in
    if is_provider "windows-dpapi" provider
    then if not p.windows
      then (
        err (
            other_error
              "State file uses Windows DPAPI transport protection and cannot be opened on this platform"),
        s,
      )
      else (
        then_ok (base64_field p envelope "ciphertext") (λ ciphertext.
            then_ok (windows_only p (p.crypt_unprotect_data ciphertext)) (decode_bundle p)),
        s,
      )
    else if is_provider "local-aesgcm-keyfile" provider
    then decrypted_under p envelope (load_or_create_key p s)
    else (
      err (
          other_error
            (text_of ("Unsupported transport secret provider: " ∷ provider_text p provider ∷ []))),
      s,
    )

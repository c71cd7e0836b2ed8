-- ===== src/Secrets/RoundTrip.antt =====
-- toolbox/transport_secrets.py: what a protected transport restores to.
use toolbox_mcp.Prelude.{
  ℕ, suc, String, ◌≡◌, refl, sym, ap, subst, Bool, true, false, ◌&&◌, not, Option, none, some, List,
  [], ◌∷◌, inl, inr, length, is_empty, nat_beq, sort_by, arith, Bool-cases, string_eq,
}
use toolbox_mcp.Json.{
  Json, null, nat, str, arr, obj, nil, Fields, end, field, get_field, set_field, without_field,
  strings, items_of_strings,
}
use toolbox_mcp.Models.{TransportKind, stdio, ToolsetTransport, Result, ok, then_ok}
use toolbox_mcp.Secrets.Providers.{
  Bytes, Platform, KeyStore, Bundle, env_fields, string_items, string_fields, normalize_bundle,
  sorted_env, bundle_json, encode_bundle, decode_bundle, base64_field, local_envelope,
  windows_envelope, encrypted_under, load_or_create_key, protect_bundle, reveal_bundle,
}
use toolbox_mcp.Secrets.{
  item_texts, field_texts, bundle_in, enveloped, protect_found, protect_transport, with_bundle,
  restore_enveloped, restore_transport,
}

abbrev text_or_null : Option String → Json
text_or_null none = null
text_or_null (some text) = str text

abbrev kind_text : TransportKind → String
kind_text stdio = "stdio"

-- `transport.model_dump(mode="json")`.
abbrev pub transport_fields : ToolsetTransport → Fields
transport_fields t = field "kind" (str (kind_text t.kind)) (
    field "command" (str t.command) (
      field "args" (strings t.args)
        (field "env" (obj (env_fields t.env)) (field "cwd" (text_or_null t.cwd) end))))

-- What the program relies on: what is encoded and encrypted decodes and decrypts, under a key of 32 bytes, as
-- generated keys are; and the JSON library reads back what it wrote of the bundle.
pub record IsLawful (p : Platform) (b : Bundle) : Type 0 where
  pub generates : (n : ℕ) → length (p.generate_key n) ≡ 32
  pub decrypts :
      (key nonce payload : Bytes)
      → length key ≡ 32
      → p.decrypt key nonce (p.encrypt key nonce payload) ≡ ok payload
  pub unprotects :
      (payload ciphertext : Bytes)
      → p.crypt_protect_data payload ≡ ok ciphertext
      → p.crypt_unprotect_data ciphertext ≡ ok payload
  pub decodes : (payload : Bytes) → p.b64decode (p.b64encode payload) ≡ ok payload
  pub loads_back : p.loads (p.dumps (bundle_json b)) ≡ ok (bundle_json b)

-- A key file that is absent or holds a key of 32 bytes.
abbrev pub IsUsable : Option Bytes → Type 0
IsUsable none = Unit
IsUsable (some key) = length key ≡ 32

abbrev pub has_secret : ToolsetTransport → Bool
has_secret t = not (is_empty t.args && is_empty t.env)

abbrev pub with_sorted_env : ToolsetTransport → ToolsetTransport
with_sorted_env t = record t { env = sorted_env t.env }

item_texts-strings : (p : Platform) (xs : List String) → item_texts p (items_of_strings xs) ≡ xs
unfolding item_texts
item_texts-strings p [] = refl
item_texts-strings p (x ∷ xs) = ap (λ ys. x ∷ ys) (item_texts-strings p xs)

field_texts-env_fields :
    (p : Platform) (env : List (String × String)) → field_texts p (env_fields env) ≡ env
unfolding field_texts env_fields
field_texts-env_fields p [] = refl
field_texts-env_fields p ((key, v) ∷ env) = ap (λ e. (key, v) ∷ e) (field_texts-env_fields p env)

string_items-strings : (xs : List String) → string_items (items_of_strings xs) ≡ some xs
unfolding string_items
string_items-strings [] = refl
string_items-strings (x ∷ xs) = rw (string_items-strings xs) refl

string_fields-env_fields :
    (env : List (String × String)) → string_fields (env_fields env) ≡ some env
unfolding string_fields env_fields
string_fields-env_fields [] = refl
string_fields-env_fields ((key, v) ∷ env) = rw (string_fields-env_fields env) refl

bundle_in-transport_fields :
    (p : Platform) (t : ToolsetTransport)
    → bundle_in p (transport_fields t) ≡ ok (record { args = t.args; env = t.env })
unfolding bundle_in get_field then_ok
bundle_in-transport_fields p t =
    rw (item_texts-strings p t.args, field_texts-env_fields p t.env) refl

abbrev pub bundle_of_transport : ToolsetTransport → Bundle
bundle_of_transport t = record { args = t.args; env = t.env }

-- What an envelope of a payload may be: beside its version and its provider it has a ciphertext of the payload,
-- and the nonce.
pub data IsEnvelope (p : Platform) (payload : Bytes) : Fields → Type 0 where
  by_windows :
      (ciphertext : Bytes)
      → p.crypt_protect_data payload ≡ ok ciphertext
      → IsEnvelope p payload (
          field "version" (nat 1) (
            field "provider"
              (str "windows-dpapi")
              (field "ciphertext" (str (p.b64encode ciphertext)) end)))
  by_key :
      (key nonce : Bytes)
      → length key ≡ 32
      → IsEnvelope p payload (
          field "version" (nat 1) (
            field "provider" (str "local-aesgcm-keyfile") (
              field "nonce"
                (str (p.b64encode nonce))
                (field "ciphertext" (str (p.b64encode (p.encrypt key nonce payload))) end))))

-- A transport without its arguments and environment, and an envelope.
abbrev pub sealed_fields : ToolsetTransport → Fields → Fields
sealed_fields t envelope = field "kind" (str (kind_text t.kind)) (
    field "command" (str t.command) (
      field "args" (arr nil) (
        field "env" (obj end)
          (field "cwd" (text_or_null t.cwd) (field "secret_envelope" (obj envelope) end)))))

module _ (p : Platform) where
  -- On Windows the protection of data does not fail.
  abbrev pub IsAble : Type 0
  IsAble = (payload : Bytes) → (ciphertext : Bytes) × (p.crypt_protect_data payload ≡ ok ciphertext)

  -- The protected transport, and what it restores to.
  pub record IsRestored (t : ToolsetTransport) (out : Result Fields × KeyStore) : Type 0 where
    pub stored : Fields
    pub answered : out.0 ≡ ok stored
    -- A transport without secrets is stored as it is; of another only a ciphertext of its secrets is stored.
    pub plain : has_secret t ≡ false → stored ≡ transport_fields t
    pub sealed :
        has_secret t ≡ true
        → (envelope : Fields) × IsEnvelope p (encode_bundle p (bundle_of_transport t)) envelope
          × (stored ≡ sealed_fields t envelope)
    pub restored :
        restore_transport p stored out.1
        ≡ (ok (transport_fields (with_sorted_env t), has_secret t), out.1)

module _ (p : Platform) (b : Bundle) (l : IsLawful p b) where
  decode_bundle-encode_bundle :
      decode_bundle p (encode_bundle p b) ≡ ok (record b { env = sorted_env b.env })
  unfolding decode_bundle encode_bundle bundle_json normalize_bundle get_field then_ok
  decode_bundle-encode_bundle =
      rw (l.loads_back, string_items-strings b.args, string_fields-env_fields (sorted_env b.env))
        refl

  -- What is protected in one state of the key file is revealed in the next.
  record IsRevealed (out : Result Fields × KeyStore) : Type 0 where
    envelope : Fields
    answered : out.0 ≡ ok envelope
    sealed : IsEnvelope p (encode_bundle p b) envelope
    revealed : reveal_bundle p envelope out.1 ≡ (ok (record b { env = sorted_env b.env }), out.1)

  encrypted-IsRevealed :
      (key : Bytes) (n : ℕ)
      → length key ≡ 32
      → nat_beq (length key) 32 ≡ true
      → IsRevealed (
        ok (local_envelope p key (p.urandom n) (encode_bundle p b)),
        record { key_file = some key; asked = suc n },
      )
  unfolding reveal_bundle load_or_create_key base64_field get_field then_ok
  encrypted-IsRevealed key n long test = record {
    envelope = _;
    answered = refl;
    sealed = by_key key (p.urandom n) long;
    revealed =
        rw
          (
            test,
            l.decodes (p.urandom n),
            l.decodes (p.encrypt key (p.urandom n) (encode_bundle p b)),
            l.decrypts key (p.urandom n) (encode_bundle p b) long,
            decode_bundle-encode_bundle,
          )
          refl;
  }

  local-IsRevealed :
      (file : Option Bytes) (n : ℕ)
      → IsUsable file
      → IsRevealed
          (encrypted_under p b (load_or_create_key p (record { key_file = file; asked = n })))
  unfolding load_or_create_key
  local-IsRevealed none n u =
      encrypted-IsRevealed (p.generate_key n) (suc n) (l.generates n)
        (ground (arith, l.generates n))
  local-IsRevealed (some key) n u =
      let test : nat_beq (length key) 32 ≡ true = ground (arith, u) in
      rw test (encrypted-IsRevealed key n u test)

  windows-IsRevealed :
      (able : IsAble p) (s : KeyStore) → p.windows ≡ true → IsRevealed (protect_bundle p b s)
  unfolding protect_bundle reveal_bundle base64_field get_field then_ok
  windows-IsRevealed able s w =
      let (ciphertext, h) = able (encode_bundle p b) in
      record {
        envelope = windows_envelope p ciphertext;
        answered = rw (w, h) refl;
        sealed = by_windows ciphertext h;
        revealed =
            rw
              (
                w,
                l.decodes ciphertext,
                l.unprotects (encode_bundle p b) ciphertext h,
                decode_bundle-encode_bundle,
              )
              refl;
      }

  protect_bundle-IsRevealed :
      (able : p.windows ≡ true → IsAble p) (s : KeyStore)
      → IsUsable s.key_file
      → IsRevealed (protect_bundle p b s)
  unfolding protect_bundle
  protect_bundle-IsRevealed able s u = elim (Bool-cases p.windows) [
    | inl w ↦ windows-IsRevealed (able w) s w
    | inr w ↦ rw w (local-IsRevealed s.key_file s.asked u)
  ]

module _ (p : Platform) (t : ToolsetTransport) (l : IsLawful p (bundle_of_transport t)) where
  enveloped-IsRestored :
      (out : Result Fields × KeyStore)
      → has_secret t ≡ true
      → IsRevealed p (bundle_of_transport t) l out
      → IsRestored p t
          (then_ok out.0 (λ envelope. ok (enveloped (transport_fields t) envelope)), out.1)
  unfolding enveloped then_ok restore_transport restore_enveloped with_bundle set_field
      without_field get_field
  enveloped-IsRestored out secret h = record {
    stored = enveloped (transport_fields t) h.envelope;
    answered = rw h.answered refl;
    plain = λ no. cc (no, secret);
    sealed = λ yes. (h.envelope, h.sealed, refl);
    restored = rw (h.revealed, secret) refl;
  }

module _ (p : Platform) (able : p.windows ≡ true → IsAble p) (s : KeyStore)
    (u : IsUsable s.key_file) (kind : TransportKind) (command : String) (cwd : Option String) where
  abbrev transport : List String → List (String × String) → ToolsetTransport
  transport args env = record { kind = kind; command = command; args = args; env = env; cwd = cwd }

  found-IsRestored :
      (args : List String) (env : List (String × String))
      → IsLawful p (record { args = args; env = env })
      → IsRestored p (transport args env) (
          protect_found p
            (transport_fields (transport args env))
            (ok (record { args = args; env = env }))
            s)
  unfolding protect_found restore_transport restore_enveloped without_field get_field env_fields
      sort_by
  found-IsRestored [] [] l = record {
    stored = transport_fields (transport [] []);
    answered = refl;
    plain = λ no. refl;
    sealed = λ yes. cc yes;
    restored = refl;
  }
  found-IsRestored (x ∷ args) env l =
      enveloped-IsRestored p (transport (x ∷ args) env) l _ refl
        (protect_bundle-IsRevealed p _ l able s u)
  found-IsRestored [] (x ∷ env) l =
      enveloped-IsRestored p (transport [] (x ∷ env)) l _ refl
        (protect_bundle-IsRevealed p _ l able s u)

-- With a key file that is absent or holds a key of 32 bytes, and ciphers and encodings that invert, a
-- transport is protected without an error. What is stored of its arguments and its environment is an envelope
-- with a ciphertext of them, under Windows' protection or a key of 32 bytes; a transport that has neither is
-- stored as it is. What is stored restores to the transport, its environment sorted by name.
pub protect_transport-IsRestored :
    (p : Platform) (able : p.windows ≡ true → IsAble p) (t : ToolsetTransport) (s : KeyStore)
    → IsLawful p (bundle_of_transport t)
    → IsUsable s.key_file
    → IsRestored p t (protect_transport p (transport_fields t) s)
unfolding protect_transport
protect_transport-IsRestored p able t s l u =
    subst (λ b. IsRestored p t (protect_found p (transport_fields t) b s))
      (sym (bundle_in-transport_fields p t))
      (found-IsRestored p able s u t.kind t.command t.cwd t.args t.env l)

-- ===== src/Tests/Secrets.antt =====
-- The round trip of transport secrets at a concrete transport, with bytes written in base one.
use Prim.Native.Char.{char, code}
use Prim.Native.String.{String}
use toolbox_mcp.Prelude.{
  ℕ, zero, suc, ◌+◌, ◌-◌, ◌≡◌, refl, ap, ◌∙◌, true, false, none, [], ◌∷◌, if◌then◌else◌, nat_beq,
  arith,
}
use toolbox_mcp.Models.{stdio, ToolsetTransport, ok}
use toolbox_mcp.Secrets.{protect_transport}
use toolbox_mcp.Secrets.Providers.{Bytes, Platform, KeyStore, bundle_json}
use toolbox_mcp.Secrets.RoundTrip.{
  IsLawful, IsRestored, bundle_of_transport, transport_fields, protect_transport-IsRestored,
}

-- `n` times `a`, and `b`.
unary : ℕ → String → String
unary zero s = String.◌∷◌ (char 98 tt) s
unary (suc n) s = String.◌∷◌ (char 97 tt) (unary n s)

encoded : Bytes → String
unfolding unary
encoded [] = String.[]
encoded (n ∷ ns) = unary n (encoded ns)

decoded : ℕ → String → Bytes
decoded n String.[] = []
decoded n (String.◌∷◌ c s) =
    let more = decoded (suc n) s in
    let next = decoded 0 s in if nat_beq (code c) 97 then more else n ∷ next

decoded-unary : (k n : ℕ) (s : String) → decoded k (unary n s) ≡ (k + n) ∷ decoded 0 s
unfolding decoded unary
decoded-unary k zero s = ap (λ m. m ∷ decoded 0 s) (omega arith)
decoded-unary k (suc n) s = decoded-unary (suc k) n s ∙ ap (λ m. m ∷ decoded 0 s) (omega arith)

decoded-encoded : (ns : Bytes) → decoded 0 (encoded ns) ≡ ns
unfolding decoded encoded
decoded-encoded [] = refl
decoded-encoded (n ∷ ns) =
    decoded-unary 0 n (encoded ns)
    ∙ ap (λ m. m ∷ decoded 0 (encoded ns)) (omega arith)
    ∙ ap (λ ms. n ∷ ms) (decoded-encoded ns)

abbrev zeros : ℕ → Bytes
zeros zero = []
zeros (suc n) = 0 ∷ zeros n

-- A cipher that adds one to each byte.
shifted : Bytes → Bytes
shifted [] = []
shifted (n ∷ ns) = suc n ∷ shifted ns

shifted_back : Bytes → Bytes
shifted_back [] = []
shifted_back (n ∷ ns) = (n - 1) ∷ shifted_back ns

shifted_back-shifted : (ns : Bytes) → shifted_back (shifted ns) ≡ ns
unfolding shifted shifted_back
shifted_back-shifted [] = refl
shifted_back-shifted (n ∷ ns) =
    ap (λ ms. (suc n - 1) ∷ ms) (shifted_back-shifted ns) ∙ ap (λ m. m ∷ ns) (omega arith)

abbrev secret_transport : ToolsetTransport
secret_transport = record {
  kind = stdio;
  command = "demo";
  args = "--token" ∷ "s3cret" ∷ [];
  env = ("KEY", "s3cret") ∷ [];
  cwd = none;
}

abbrev demo_platform : Platform
demo_platform = record {
  windows = false;
  generate_key = λ n. zeros 32;
  urandom = λ n. zeros 12;
  encrypt = λ key nonce payload. shifted payload;
  decrypt = λ key nonce ciphertext. ok (shifted_back ciphertext);
  crypt_protect_data = λ payload. ok payload;
  crypt_unprotect_data = λ ciphertext. ok ciphertext;
  b64encode = encoded;
  b64decode = λ text. ok (decoded 0 text);
  dumps = λ v. 1 ∷ 2 ∷ 3 ∷ [];
  loads = λ payload. ok (bundle_json (bundle_of_transport secret_transport));
  text = λ v. "";
  truthy_real = λ text. true;
  type_error = λ v. "";
}

demo_platform-IsLawful : IsLawful demo_platform (bundle_of_transport secret_transport)
demo_platform-IsLawful = record {
  generates = λ n. refl;
  decrypts = λ key nonce payload long. ap ok (shifted_back-shifted payload);
  unprotects = λ payload ciphertext h. ok_path h;
  decodes = λ payload. ap ok (decoded-encoded payload);
  loads_back = refl;
}
  where
    ok_path : {a b : Bytes} → ok a ≡ ok b → ok b ≡ ok a
    ok_path h = cc

abbrev no_key : KeyStore
no_key = record { key_file = none; asked = 0 }

protect_transport-IsRestored_example :
    IsRestored demo_platform secret_transport
      (protect_transport demo_platform (transport_fields secret_transport) no_key)
protect_transport-IsRestored_example =
    protect_transport-IsRestored demo_platform (λ w payload. (payload, refl)) secret_transport
      no_key demo_platform-IsLawful tt

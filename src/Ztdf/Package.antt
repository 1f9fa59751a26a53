-- ===== src/Ztdf/Package.antt =====
-- crates/mim-ztdf/src/package.rs: a package holds an encrypted payload, and its manifest and binding.
use ainext_gen_c.Base.{
  ℕ, zero, suc, true, false, [], ◌∷◌, Option, none, some, and_then, is_empty, Text, text, Bytes,
  as_bytes, Result, ok, err, ◌>>=◌, ◌>>◌, ok_or, map_err,
}
use ainext_gen_c.Label.Error.{LabelResult, validation, parse_error, serialization, binding}
use ainext_gen_c.Label.Domain.{SecurityDomain}
use ainext_gen_c.Label.Confidentiality.{ConfidentialityLabel, validate}
use ainext_gen_c.Crypto.Provider.{CryptoResult, SigningKey, VerifyingKey, sha256_base64}
use ainext_gen_c.Crypto.Symmetric.{to_bytes, from_bytes}
use ainext_gen_c.Audit.Record.{Stamp}
use ainext_gen_c.Audit.Chain.{ChainBackend}
use ainext_gen_c.Audit.Log.{AuditSink}
use ainext_gen_c.Policy.Error.{policy_error_text}
use ainext_gen_c.Policy.Context.{SubjectAttributes, read}
use ainext_gen_c.Policy.Pep.{PolicyEnforcementPoint, enforce_access}
use ainext_gen_c.Stanag.Binding.{BindingBackend, assertion_ztdf}
use ainext_gen_c.Stanag.Assertion.{AssertionBinding, nmbs_algorithm_uri, verify_assertion}
use ainext_gen_c.Stanag.DataObject.{BindingDataObject, assertion_bound, verify_bdo}
use ainext_gen_c.Ztdf.Manifest.{
  ContentBackend, ZtdfAssertion, ZtdfManifest, KasClient, for_mim_payload, default_policy_b64,
  nato_label_assertion, validate_manifest, local_kas,
}

pub record ZtdfPackage (x : ContentBackend) : Type 0 where
  pub manifest : ZtdfManifest x
  pub encrypted_payload : Bytes
  pub content_key : Bytes
  pub binding : BindingDataObject

-- What a package draws at random: the outcome of `ContentEncryptionKey::generate`, and the
-- initialisation vector of the encryption.
pub record Drawn : Type 0 where
  pub content_key : CryptoResult Bytes
  pub iv : Bytes

-- The manifest's JSON by serde_json, and the two entries of the archive by the zip crate.
pub record ArchiveBackend (x : ContentBackend) : Type 0 where
  pub manifest_text : ZtdfManifest x → Result Text Text
  pub manifest_of_text : Text → Result Text (ZtdfManifest x)
  pub write_archive : Text → Bytes → Result Text Bytes
  pub read_manifest : Bytes → Result Text Text
  pub read_payload : Bytes → Result Text Bytes

-- the additional data of the payload's encryption
unfoldable pub payload_data : Bytes
payload_data = as_bytes (text "ztdf/0.payload")

-- `.ok()` of a result
abbrev pub ok_part {ℓ η} : {E : Type η} {A : Type ℓ} → Result E A → Option A
ok_part (ok a) = some a
ok_part (err e) = none

-- `[0u8; n]`
unfoldable pub zeros : ℕ → Bytes
zeros zero = []
zeros (suc n) = 0 ∷ zeros n

-- the assertion that the manifest's assertion of the label stands for
abbrev pub assertion_from :
    (x : ContentBackend) → ZtdfAssertion x → ConfidentialityLabel → Text → AssertionBinding
assertion_from x a l payload_digest = record {
  label = l;
  payload_digest = payload_digest;
  signature = record {
    algorithm = a.binding.algorithm;
    algorithm_uri = nmbs_algorithm_uri;
    key_id = a.binding.key_id;
    signature = a.binding.signature;
  };
  signed_label_xml = some a.signed_label_xml;
}

-- whether an assertion names the digest of its payload
abbrev pub digested : Option AssertionBinding → Option AssertionBinding
digested none = none
digested (some a) = elim (is_empty a.payload_digest) [ true ↦ none | false ↦ some a ]

module _ (x : ContentBackend) where
  -- `manifest_label`, and `ZtdfPackage::label_from_manifest`
  unfoldable pub manifest_label : ZtdfManifest x → LabelResult ConfidentialityLabel
  manifest_label m =
      ok_or
        (and_then (nato_label_assertion x m) (λ a.
          and_then (x.text_of_value a.statement.value)
            (λ json. ok_part (x.from_json_structured json))))
        (validation (text "missing label assertion"))

  -- `ZtdfPackage::decrypt_with_kas`
  unfoldable pub decrypt_with_kas : ZtdfPackage x → KasClient x → LabelResult Bytes
  decrypt_with_kas p kas = do
    content_key ← kas p.manifest
    ciphertext ← map_err binding (from_bytes p.encrypted_payload)
    map_err binding (x.decrypt_aes256_gcm content_key ciphertext payload_data)

  -- `ZtdfPackage::decrypt`
  unfoldable pub decrypt : ZtdfPackage x → SigningKey → LabelResult Bytes
  unfolding decrypt_with_kas
  decrypt p key = decrypt_with_kas p (local_kas x key)

module _ (x : ContentBackend) (z : ArchiveBackend x) where
  -- `read_zip_entries`
  unfoldable pub read_zip_entries : Bytes → LabelResult (ZtdfManifest x × Bytes)
  read_zip_entries bytes = do
    json ← map_err parse_error (z.read_manifest bytes)
    manifest ← map_err parse_error (z.manifest_of_text json)
    payload ← map_err parse_error (z.read_payload bytes)
    ok (manifest, payload)

  -- `ZtdfPackage::manifest_json`
  unfoldable pub manifest_json : ZtdfPackage x → LabelResult Text
  manifest_json p = map_err serialization (z.manifest_text p.manifest)

  -- `ZtdfPackage::to_zip_bytes`
  unfoldable pub to_zip_bytes : ZtdfPackage x → LabelResult Bytes
  unfolding manifest_json
  to_zip_bytes p = do
    json ← manifest_json p
    map_err serialization (z.write_archive json p.encrypted_payload)

module _ (k : BindingBackend) (x : ContentBackend) where
  -- `ZtdfPackage::create`
  unfoldable pub create_package :
      Drawn
      → ConfidentialityLabel
      → Bytes
      → SigningKey
      → VerifyingKey
      → VerifyingKey
      → LabelResult (ZtdfPackage x)
  create_package drawn l plaintext key verifying_key kas_public_key = do
    validate l
    content_key ← map_err binding drawn.content_key
    encrypted ← map_err binding (x.encrypt_aes256_gcm drawn.iv content_key plaintext payload_data)
    manifest ←
        for_mim_payload k x l plaintext encrypted content_key key kas_public_key
          (default_policy_b64 x)
    validate_manifest x manifest
    b ← assertion_bound k l plaintext key
    verify_bdo k b plaintext (some verifying_key)
    ok (record {
      manifest = manifest;
      encrypted_payload = to_bytes encrypted;
      content_key = content_key;
      binding = b;
    })

  -- the end of `ZtdfPackage::verify_binding_plaintext`, on the manifest's assertion
  unfoldable pub verify_by_manifest : ZtdfPackage x → Bytes → VerifyingKey → LabelResult (Unit {0})
  unfolding manifest_label
  verify_by_manifest p plaintext key = do
    l ← manifest_label x p.manifest
    a ← ok_or (nato_label_assertion x p.manifest) (validation (text "missing nato-label-1"))
    verify_assertion k (assertion_from x a l (sha256_base64 k.provider plaintext)) plaintext key

  -- `ZtdfPackage::verify_binding_plaintext`
  unfoldable pub verify_binding_plaintext :
      ZtdfPackage x → Bytes → VerifyingKey → LabelResult (Unit {0})
  unfolding verify_by_manifest
  verify_binding_plaintext p plaintext key = elim (digested p.binding.assertion) [
    | some a ↦ verify_assertion k a plaintext key
    | none ↦ verify_by_manifest p plaintext key
  ]

  -- `ZtdfPackage::verify_release`
  unfoldable pub verify_release : ZtdfPackage x → VerifyingKey → Bytes → LabelResult (Unit {0})
  unfolding verify_binding_plaintext
  verify_release p key plaintext = do
    validate_manifest x p.manifest
    verify_binding_plaintext p plaintext key

  -- `ZtdfPackage::verify`
  unfoldable pub verify_package : ZtdfPackage x → VerifyingKey → SigningKey → LabelResult (Unit {0})
  unfolding verify_binding_plaintext decrypt_with_kas
  verify_package p key kas_private_key = do
    validate_manifest x p.manifest
    plaintext ← decrypt_with_kas x p (local_kas x kas_private_key)
    verify_binding_plaintext p plaintext key

  -- `binding_from_manifest`
  unfoldable pub binding_from_manifest :
      ZtdfManifest x → ConfidentialityLabel → LabelResult BindingDataObject
  binding_from_manifest m l = do
    a ← ok_or (nato_label_assertion x m) (validation (text "missing nato-label-1"))
    encoded ← k.to_xml l
    ok (record {
      binding = assertion_ztdf;
      label = l;
      label_encoding = encoded;
      payload_digest = [];
      assertion = some (assertion_from x a l []);
    })

  module _ (z : ArchiveBackend x) where
    -- `ZtdfPackage::from_zip_sealed`
    unfoldable pub from_zip_sealed : Bytes → LabelResult (ZtdfPackage x)
    unfolding read_zip_entries manifest_label binding_from_manifest
    from_zip_sealed bytes = do
      (manifest, payload) ← read_zip_entries x z bytes
      validate_manifest x manifest
      l ← manifest_label x manifest
      b ← binding_from_manifest manifest l
      ok (record {
        manifest = manifest;
        encrypted_payload = payload;
        content_key = zeros 32;
        binding = b;
      })

    -- `ZtdfPackage::from_zip_bytes`
    unfoldable pub from_zip_bytes : Bytes → VerifyingKey → SigningKey → LabelResult (ZtdfPackage x)
    unfolding from_zip_sealed decrypt_with_kas verify_binding_plaintext
    from_zip_bytes bytes key kas_private_key = do
      p ← from_zip_sealed bytes
      plaintext ← decrypt_with_kas x p (local_kas x kas_private_key)
      verify_binding_plaintext p plaintext key
      ok p

module _ (c : ChainBackend) (sink : AuditSink) (k : BindingBackend) (x : ContentBackend) where
  -- `ZtdfPackage::decrypt_with_policy`
  unfoldable pub decrypt_with_policy :
      ZtdfPackage x
      → SubjectAttributes
      → PolicyEnforcementPoint sink
      → Stamp
      → SecurityDomain
      → KasClient x
      → PolicyEnforcementPoint sink × LabelResult Bytes
  unfolding manifest_label decrypt_with_kas
  decrypt_with_policy p subject pep stamp d kas = elim (manifest_label x p.manifest) [
    | err e ↦ (pep, err e)
    | ok l ↦
        let (pep', decided) = enforce_access c sink pep stamp subject l read d in
        (
          pep',
          map_err (λ e. validation (policy_error_text e)) decided >>= λ decision.
              decrypt_with_kas x p kas,
        )
  ]

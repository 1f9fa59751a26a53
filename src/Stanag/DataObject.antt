-- ===== src/Stanag/DataObject.antt =====
-- crates/mim-stanag4778/src/bdo.rs and detached.rs: the binding data object.
use ainext_gen_c.Base.{
  not, ◌||◌, Option, none, some, Text, text, text_eq, Bytes, ok, ◌>>=◌, ◌>>◌, fail_if, ok_or,
}
use ainext_gen_c.Label.Classification.{level_eq}
use ainext_gen_c.Label.Error.{LabelResult, binding}
use ainext_gen_c.Label.Confidentiality.{ConfidentialityLabel, validate}
use ainext_gen_c.Crypto.Provider.{SigningKey, VerifyingKey, sha256_base64}
use ainext_gen_c.Spif.Registry.{spif_defaults}
use ainext_gen_c.Spif.Validator.{spif_validate_label}
use ainext_gen_c.Stanag.Binding.{
  BindingBackend, BindingMethod, embedded, encapsulated, detached, assertion, json_sidecar,
  xml_embedded, MetadataBinding, embedded_json, assertion_ztdf, encapsulated_xml,
}
use ainext_gen_c.Stanag.Assertion.{AssertionBinding, create_assertion, verify_assertion}

pub record BindingDataObject : Type 0 where
  pub binding : MetadataBinding
  pub label : ConfidentialityLabel
  pub label_encoding : Text
  pub payload_digest : Text
  pub assertion : Option AssertionBinding

module _ (k : BindingBackend) where
  -- `signing_key.map(..).transpose()?`
  unfoldable pub create_optional :
      ConfidentialityLabel → Bytes → Option SigningKey → LabelResult (Option AssertionBinding)
  create_optional l payload none = ok none
  create_optional l payload (some key) = create_assertion k l payload key >>= λ a. ok (some a)

  -- what the profiles with an optional signature have in common
  unfoldable pub bound_with :
      MetadataBinding
      → (ConfidentialityLabel → LabelResult Text)
      → ConfidentialityLabel
      → Bytes
      → Option SigningKey
      → LabelResult BindingDataObject
  unfolding create_optional
  bound_with b encode l payload key = do
    validate l
    spif_validate_label k.debug_texts spif_defaults l
    encoded ← encode l
    a ← create_optional l payload key
    ok (record {
      binding = b;
      label = l;
      label_encoding = encoded;
      payload_digest = sha256_base64 k.provider payload;
      assertion = a;
    })

  -- `BindingDataObject::embedded_with_nmb`
  unfoldable pub embedded_with_nmb :
      ConfidentialityLabel → Bytes → Option SigningKey → LabelResult BindingDataObject
  unfolding bound_with
  embedded_with_nmb = bound_with embedded_json k.to_json_structured

  -- `BindingDataObject::xml_embedded_with_nmb`
  unfoldable pub xml_embedded_with_nmb :
      ConfidentialityLabel → Bytes → Option SigningKey → LabelResult BindingDataObject
  unfolding bound_with
  xml_embedded_with_nmb = bound_with encapsulated_xml k.to_xml

  -- `BindingDataObject::encapsulated_with_nmb`
  unfoldable pub encapsulated_with_nmb :
      ConfidentialityLabel → Bytes → Option SigningKey → LabelResult BindingDataObject
  unfolding bound_with
  encapsulated_with_nmb l payload =
      bound_with
        (record {
          method = encapsulated;
          profile = xml_embedded;
          label_location = text "ConfidentialityLabel";
          data_digest = some (sha256_base64 k.provider payload);
        })
        k.to_xml l payload

  -- `BindingDataObject::detached_with_nmb`
  unfoldable pub detached_with_nmb :
      ConfidentialityLabel → Bytes → Text → Option SigningKey → LabelResult BindingDataObject
  unfolding bound_with
  detached_with_nmb l payload label_uri =
      bound_with
        (record {
          method = detached;
          profile = json_sidecar;
          label_location = label_uri;
          data_digest = some (sha256_base64 k.provider payload);
        })
        k.to_xml l payload

  -- `BindingDataObject::assertion_bound`
  unfoldable pub assertion_bound :
      ConfidentialityLabel → Bytes → SigningKey → LabelResult BindingDataObject
  assertion_bound l payload key = do
    validate l
    encoded ← k.to_xml l
    a ← create_assertion k l payload key
    ok (record {
      binding = assertion_ztdf;
      label = l;
      label_encoding = encoded;
      payload_digest = a.payload_digest;
      assertion = some a;
    })

  -- `verify_detached_label`
  unfoldable pub verify_detached_label : ConfidentialityLabel → Text → LabelResult (Unit {0})
  verify_detached_label binding_label label_uri = do
    xml ← k.resolve_label_xml label_uri
    external ← k.from_xml xml
    fail_if
        (not (text_eq external.policy.identifier binding_label.policy.identifier)
          || not (level_eq external.classification binding_label.classification))
        (binding (text "detached label content does not match binding label"))

  -- the digest of the metadata binding, if there is one
  unfoldable pub check_data_digest : Option Text → Text → LabelResult (Unit {0})
  check_data_digest none digest = ok tt
  check_data_digest (some expected) digest =
      fail_if (not (text_eq expected digest))
        (binding (text "metadata binding data digest mismatch"))

  -- the assertion, if there is one
  unfoldable pub check_assertion :
      Option AssertionBinding → Bytes → Option VerifyingKey → LabelResult (Unit {0})
  check_assertion none payload key = ok tt
  check_assertion (some a) payload key = do
    key' ← ok_or key (binding (text "NMBS assertion present but no verifying key supplied"))
    verify_assertion k a payload key'

  -- the end of `verify_with_resolver`, by the binding method
  unfoldable pub check_method :
      BindingMethod → BindingDataObject → Bytes → Option VerifyingKey → LabelResult (Unit {0})
  unfolding verify_detached_label
  check_method assertion b payload key = do
    a ← ok_or b.assertion (binding (text "assertion binding missing assertion block"))
    key' ← ok_or key (binding (text "assertion binding requires NMBS verifying key"))
    verify_assertion k a payload key'
  check_method detached b payload key = do
    verify_detached_label b.label b.binding.label_location
    spif_validate_label k.debug_texts spif_defaults b.label
  check_method embedded b payload key = spif_validate_label k.debug_texts spif_defaults b.label
  check_method encapsulated b payload key = spif_validate_label k.debug_texts spif_defaults b.label

  -- `BindingDataObject::verify_with_resolver`
  unfoldable pub verify_bdo :
      BindingDataObject → Bytes → Option VerifyingKey → LabelResult (Unit {0})
  unfolding check_data_digest check_assertion check_method
  verify_bdo b payload key = do
    validate b.label
    fail_if (not (text_eq b.payload_digest (sha256_base64 k.provider payload)))
        (binding (text "payload digest mismatch for binding profile"))
    check_data_digest b.binding.data_digest (sha256_base64 k.provider payload)
    check_assertion b.assertion payload key
    check_method b.binding.method b payload key

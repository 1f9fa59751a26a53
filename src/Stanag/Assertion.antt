-- ===== src/Stanag/Assertion.antt =====
-- crates/mim-stanag4778/src/assertion.rs: a signature over a label's XML and a payload's digest.
use ainext_gen_c.Base.{
  not, Option, none, some, Text, text, text_eq, ◌++◌, Bytes, as_bytes, ok, ◌>>=◌, ◌>>◌, fail_if,
  map_err,
}
use ainext_gen_c.Label.Error.{LabelResult, binding}
use ainext_gen_c.Label.Confidentiality.{ConfidentialityLabel, validate}
use ainext_gen_c.Crypto.Provider.{
  SigningKey, VerifyingKey, nmbs_algorithm, sha256_base64, sign_nmb_binding, verify_nmb_binding,
}
use ainext_gen_c.Spif.Registry.{spif_defaults}
use ainext_gen_c.Spif.Validator.{spif_validate_label}
use ainext_gen_c.Stanag.Binding.{BindingBackend}

-- `NMBS_ALGORITHM_URI`
unfoldable pub nmbs_algorithm_uri : Text
nmbs_algorithm_uri = text "urn:nato:stanag:4778:binding:rsa-pss-sha256"

pub record BindingSignature : Type 0 where
  pub algorithm : Text
  pub algorithm_uri : Text
  pub key_id : Text
  pub signature : Text

pub record AssertionBinding : Type 0 where
  pub label : ConfidentialityLabel
  pub payload_digest : Text
  pub signature : BindingSignature
  pub signed_label_xml : Option Text

module _ (k : BindingBackend) where
  -- `sign_binding`
  unfoldable pub sign_binding : Text → Text → SigningKey → LabelResult BindingSignature
  sign_binding label_xml payload_digest key = do
    signature ←
        map_err binding (sign_nmb_binding k.provider key (as_bytes label_xml) payload_digest)
    ok (record {
      algorithm = nmbs_algorithm;
      algorithm_uri = nmbs_algorithm_uri;
      key_id = key.key_id;
      signature = signature;
    })

  -- `AssertionBinding::create`
  unfoldable pub create_assertion :
      ConfidentialityLabel → Bytes → SigningKey → LabelResult AssertionBinding
  unfolding sign_binding
  create_assertion l payload key = do
    validate l
    spif_validate_label k.debug_texts spif_defaults l
    label_xml ← k.to_xml l
    signature ← sign_binding label_xml (sha256_base64 k.provider payload) key
    ok (record {
      label = l;
      payload_digest = sha256_base64 k.provider payload;
      signature = signature;
      signed_label_xml = some label_xml;
    })

  -- the XML that the signature is checked over
  unfoldable pub label_xml_of : AssertionBinding → LabelResult Text
  label_xml_of a = elim a.signed_label_xml [ some xml ↦ ok xml | none ↦ k.to_xml a.label ]

  -- `AssertionBinding::verify`
  unfoldable pub verify_assertion : AssertionBinding → Bytes → VerifyingKey → LabelResult (Unit {0})
  unfolding label_xml_of
  verify_assertion a payload key = do
    validate a.label
    spif_validate_label k.debug_texts spif_defaults a.label
    fail_if (not (text_eq a.payload_digest (sha256_base64 k.provider payload)))
        (binding (text "payload digest mismatch — binding integrity failed"))
    fail_if (not (text_eq a.signature.key_id key.key_id)) (
        binding (
          text "NMBS key id mismatch: expected "
          ++ key.key_id
          ++ text ", got "
          ++ a.signature.key_id))
    label_xml ← label_xml_of a
    map_err binding (
        verify_nmb_binding k.provider key (as_bytes label_xml) a.payload_digest
          a.signature.signature)

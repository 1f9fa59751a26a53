-- ===== src/Stanag/Profiles.antt =====
-- crates/mim-stanag4778/src/rest_envelope.rs and smtp_header.rs: the bindings of a payload in a REST
-- envelope and in a mail header. `String::from_utf8` answers with its error's text here.
use ainext_gen_c.Base.{
  not, Option, some, Text, text, text_eq, Bytes, as_bytes, from_utf8, ok, ◌>>=◌, ◌>>◌, ok_or,
  fail_if,
}
use ainext_gen_c.Label.Error.{LabelResult, serialization, binding}
use ainext_gen_c.Label.Confidentiality.{ConfidentialityLabel, validate}
use ainext_gen_c.Crypto.Provider.{SigningKey, VerifyingKey, sha256_base64}
use ainext_gen_c.Stanag.Binding.{
  BindingBackend, BindingMethod, assertion, rest_envelope, MetadataBinding,
}
use ainext_gen_c.Stanag.Assertion.{AssertionBinding, create_assertion, verify_assertion}
use ainext_gen_c.Stanag.DataObject.{BindingDataObject}

pub record RestEnvelope : Type 0 where
  pub metadata_binding : MetadataBinding
  pub originator_confidentiality_label : Text
  pub payload_digest : Text
  pub payload : Text
  pub assertion : Option AssertionBinding

pub record SmtpHeaderBinding : Type 0 where
  pub header_name : Text
  pub label_encoding : Text
  pub payload_digest : Text
  pub assertion : AssertionBinding

-- `SmtpHeaderBinding::HEADER`, and the location in the binding of an envelope
unfoldable pub label_header : Text
label_header = text "X-NATO-Confidentiality-Label"

-- the metadata binding of an envelope
unfoldable pub envelope_binding : BindingMethod → Text → MetadataBinding
envelope_binding method digest = record {
  method = method;
  profile = rest_envelope;
  label_location = label_header;
  data_digest = some digest;
}

module _ (k : BindingBackend) (utf8_error : Bytes → Text) where
  -- `RestEnvelope::wrap`
  unfoldable pub wrap_envelope :
      ConfidentialityLabel → Bytes → SigningKey → LabelResult RestEnvelope
  unfolding envelope_binding
  wrap_envelope l payload key = do
    validate l
    label_xml ← k.to_xml l
    a ← create_assertion k l payload key
    body ← ok_or (from_utf8 payload) (serialization (utf8_error payload))
    ok (record {
      metadata_binding = envelope_binding assertion a.payload_digest;
      originator_confidentiality_label = label_xml;
      payload_digest = a.payload_digest;
      payload = body;
      assertion = some a;
    })

  -- `RestEnvelope::from_bdo`
  unfoldable pub envelope_from_bdo : BindingDataObject → Bytes → LabelResult RestEnvelope
  unfolding envelope_binding
  envelope_from_bdo b payload = do
    body ← ok_or (from_utf8 payload) (serialization (utf8_error payload))
    ok (record {
      metadata_binding = envelope_binding b.binding.method b.payload_digest;
      originator_confidentiality_label = b.label_encoding;
      payload_digest = b.payload_digest;
      payload = body;
      assertion = b.assertion;
    })

module _ (k : BindingBackend) where
  -- `RestEnvelope::verify`
  unfoldable pub verify_rest_envelope : RestEnvelope → VerifyingKey → LabelResult (Unit {0})
  verify_rest_envelope e key = do
    fail_if (not (text_eq e.payload_digest (sha256_base64 k.provider (as_bytes e.payload))))
        (binding (text "REST envelope payload digest mismatch"))
    a ← ok_or e.assertion (binding (text "REST envelope requires NMBS assertion binding"))
    verify_assertion k a (as_bytes e.payload) key

  -- `SmtpHeaderBinding::create`
  unfoldable pub create_header :
      ConfidentialityLabel → Bytes → SigningKey → LabelResult SmtpHeaderBinding
  create_header l payload key = do
    encoded ← k.to_xml l
    a ← create_assertion k l payload key
    ok (record {
      header_name = label_header;
      label_encoding = encoded;
      payload_digest = sha256_base64 k.provider payload;
      assertion = a;
    })

  -- `SmtpHeaderBinding::verify`
  unfoldable pub verify_header : SmtpHeaderBinding → Bytes → VerifyingKey → LabelResult (Unit {0})
  verify_header h payload key = do
    fail_if (not (text_eq h.payload_digest (sha256_base64 k.provider payload)))
        (binding (text "SMTP header binding payload digest mismatch"))
    verify_assertion k h.assertion payload key

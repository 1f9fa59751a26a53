-- ===== src/Ztdf/Manifest.antt =====
-- crates/mim-ztdf/src/assertion.rs, manifest.rs and the local client of kas.rs: the manifest of a
-- package and the assertion of its label.
use ainext_gen_c.Base.{
  Bool, true, not, List, [], ◌∷◌, Option, is_empty, find, Text, text, ◌++◌, text_eq, Bytes,
  as_bytes, Result, ok, ◌>>=◌, ◌>>◌, ok_or, map_err, fail_if,
}
use ainext_gen_c.Label.Error.{LabelResult, validation, parse_error, serialization, binding}
use ainext_gen_c.Label.Confidentiality.{ConfidentialityLabel, validate}
use ainext_gen_c.Crypto.Provider.{CryptoResult, SigningKey, VerifyingKey}
use ainext_gen_c.Crypto.Symmetric.{AesGcmCiphertext}
use ainext_gen_c.Stanag.Binding.{BindingBackend}
use ainext_gen_c.Stanag.Assertion.{create_assertion}

-- serde_json's values with their texts, the methods of `trait CryptoProvider` on content keys, and
-- the base64 crate. The initialisation vector that encryption draws is an argument of it.
pub record ContentBackend : Type 1 where
  pub Value : Type 0
  pub value_of_text : Text → Result Text Value
  pub text_of_value : Value → Option Text
  -- `Stanag4774Codec::deserialize` from structured JSON
  pub from_json_structured : Text → LabelResult ConfidentialityLabel
  -- the JSON text of the policy in `default_policy_b64`
  pub default_policy : Text
  pub encrypt_aes256_gcm : Bytes → Bytes → Bytes → Bytes → CryptoResult AesGcmCiphertext
  pub decrypt_aes256_gcm : Bytes → AesGcmCiphertext → Bytes → CryptoResult Bytes
  pub wrap_key_rsa_oaep_sha256 : VerifyingKey → Bytes → CryptoResult Bytes
  pub unwrap_key_rsa_oaep_sha256 : SigningKey → Bytes → CryptoResult Bytes
  pub base64_encode : Bytes → Text
  pub base64_decode : Text → Result Text Bytes

pub record ZtdfAssertionBinding : Type 0 where
  pub method : Text
  pub algorithm : Text
  pub key_id : Text
  pub signature : Text

pub record ZtdfPayloadRef : Type 0 where
  pub payload_type : Text
  pub url : Text
  pub protocol : Text
  pub is_encrypted : Bool
  pub mime_type : Text

pub record ZtdfEncryptionMethod : Type 0 where
  pub algorithm : Text
  pub is_streamable : Bool
  pub iv : Text
  pub auth_tag : Text

pub record ZtdfKeyWrap : Type 0 where
  pub algorithm : Text
  pub key_id : Text
  pub wrapped_key : Text

pub record ZtdfEncryptionInformation : Type 0 where
  pub encryption_type : Text
  pub method : ZtdfEncryptionMethod
  pub key_wrap : ZtdfKeyWrap
  pub policy : Text

pub record ZtdfStatement (x : ContentBackend) : Type 0 where
  pub format : Text
  pub schema : Text
  pub value : x.Value

pub record ZtdfAssertion (x : ContentBackend) : Type 0 where
  pub id : Text
  pub assertion_type : Text
  pub scope : Text
  pub applies_to_state : Text
  pub statement : ZtdfStatement x
  pub binding : ZtdfAssertionBinding
  pub signed_label_xml : Text

pub record ZtdfManifest (x : ContentBackend) : Type 0 where
  pub tdf_spec_version : Text
  pub payload : ZtdfPayloadRef
  pub encryption_information : ZtdfEncryptionInformation
  pub assertions : List (ZtdfAssertion x)

-- `NAMESPACE` of the mim-stanag4774 crate
unfoldable pub namespace_4774 : Text
namespace_4774 = text "urn:nato:stanag:4774:confidentialitymetadatalabel:1:0"

-- `ZtdfSpecVersion::CURRENT`
unfoldable pub current_version : Text
current_version = text "1.0.0"

-- the payload of `for_mim_payload`
abbrev pub payload_ref : ZtdfPayloadRef
payload_ref = record {
  payload_type = text "reference";
  url = text "0.payload";
  protocol = text "zip";
  is_encrypted = true;
  mime_type = text "application/octet-stream";
}

module _ (k : BindingBackend) (x : ContentBackend) where
  -- `ZtdfAssertion::from_label`
  unfoldable pub ztdf_assertion :
      ConfidentialityLabel → Bytes → SigningKey → LabelResult (ZtdfAssertion x)
  ztdf_assertion l payload key = do
    validate l
    label_xml ← k.to_xml l
    json ← k.to_json_structured l
    json_value ← map_err serialization (x.value_of_text json)
    a ← create_assertion k l payload key
    ok (record {
      id = text "nato-label-1";
      assertion_type = text "handling";
      scope = text "payload";
      applies_to_state = text "encrypted";
      statement = record {
        format = text "json-structured";
        schema = namespace_4774;
        value = json_value;
      };
      binding = record {
        method = text "nmb";
        algorithm = a.signature.algorithm;
        key_id = a.signature.key_id;
        signature = a.signature.signature;
      };
      signed_label_xml = label_xml;
    })

  -- the encryption information of `for_mim_payload`
  unfoldable pub encryption_of :
      AesGcmCiphertext → VerifyingKey → Bytes → Text → ZtdfEncryptionInformation
  encryption_of encrypted kas_public_key wrapped policy_b64 = record {
    encryption_type = text "split";
    method = record {
      algorithm = text "AES-256-GCM";
      is_streamable = true;
      iv = x.base64_encode encrypted.iv;
      auth_tag = x.base64_encode encrypted.tag;
    };
    key_wrap = record {
      algorithm = text "RSA-OAEP-SHA256";
      key_id = kas_public_key.key_id;
      wrapped_key = x.base64_encode wrapped;
    };
    policy = policy_b64;
  }

  -- `ZtdfManifest::for_mim_payload`
  unfoldable pub for_mim_payload :
      ConfidentialityLabel
      → Bytes
      → AesGcmCiphertext
      → Bytes
      → SigningKey
      → VerifyingKey
      → Text
      → LabelResult (ZtdfManifest x)
  unfolding ztdf_assertion encryption_of
  for_mim_payload l plaintext encrypted content_key key kas_public_key policy_b64 = do
    wrapped ← map_err binding (x.wrap_key_rsa_oaep_sha256 kas_public_key content_key)
    a ← ztdf_assertion l plaintext key
    ok (record {
      tdf_spec_version = current_version;
      payload = payload_ref;
      encryption_information = encryption_of encrypted kas_public_key wrapped policy_b64;
      assertions = a ∷ [];
    })

module _ (x : ContentBackend) where
  -- `default_policy_b64`
  unfoldable pub default_policy_b64 : Text
  default_policy_b64 = x.base64_encode (as_bytes x.default_policy)

  -- `ZtdfManifest::nato_label_assertion`
  unfoldable pub nato_label_assertion : ZtdfManifest x → Option (ZtdfAssertion x)
  nato_label_assertion m =
      find (λ (a : ZtdfAssertion x). text_eq a.id (text "nato-label-1")) m.assertions

  -- `ZtdfManifest::validate`
  unfoldable pub validate_manifest : ZtdfManifest x → LabelResult (Unit {0})
  unfolding nato_label_assertion
  validate_manifest m = do
    fail_if (not (text_eq m.tdf_spec_version current_version))
        (validation (text "unsupported tdf_spec_version: " ++ m.tdf_spec_version))
    fail_if (not m.payload.is_encrypted) (validation (text "ZTDF payload must be encrypted"))
    fail_if (not (text_eq m.encryption_information.method.algorithm (text "AES-256-GCM")))
        (validation (text "ZTDF requires AES-256-GCM payload encryption"))
    fail_if (is_empty m.assertions)
        (validation (text "ZTDF manifest requires at least one assertion"))
    nato ←
        ok_or (nato_label_assertion m)
          (validation (text "ZTDF manifest requires nato-label-1 assertion"))
    fail_if (not (text_eq nato.statement.schema namespace_4774))
        (validation (text "assertion schema must be STANAG 4774 namespace"))
    fail_if (not (text_eq nato.binding.method (text "nmb")))
        (validation (text "ZTDF assertion must use NMBS binding method"))

  -- `trait KasClient`: its method `unwrap_content_key`
  abbrev pub KasClient : Type 0
  KasClient = ZtdfManifest x → LabelResult Bytes

  -- `LocalKasClient`
  unfoldable pub local_kas : SigningKey → KasClient
  local_kas key m = do
    wrapped ← map_err parse_error (x.base64_decode m.encryption_information.key_wrap.wrapped_key)
    map_err binding (x.unwrap_key_rsa_oaep_sha256 key wrapped)

-- ===== src/Stanag/Binding.antt =====
-- crates/mim-stanag4778/src/binding.rs, and what the crate asks of its neighbours.
use ainext_gen_c.Base.{List, Option, none, Text, text}
use ainext_gen_c.Label.Error.{LabelResult}
use ainext_gen_c.Label.Confidentiality.{ConfidentialityLabel}
use ainext_gen_c.Crypto.Provider.{CryptoProvider}

-- The cryptographic backend, the STANAG 4774 codec (`Stanag4774Codec::serialize` to XML and to
-- structured JSON, `deserialize` from XML), the text of a detached label, and the `Debug` text of a
-- vector of strings.
pub record BindingBackend : Type 0 where
  pub provider : CryptoProvider
  pub to_xml : ConfidentialityLabel → LabelResult Text
  pub to_json_structured : ConfidentialityLabel → LabelResult Text
  pub from_xml : Text → LabelResult ConfidentialityLabel
  pub resolve_label_xml : Text → LabelResult Text
  pub debug_texts : List Text → Text

pub data BindingMethod : Type 0 where
  embedded encapsulated detached assertion : BindingMethod

pub data BindingProfile : Type 0 where
  json_sidecar xml_embedded rest_envelope smtp_header ztdf_assertion : BindingProfile

pub record MetadataBinding : Type 0 where
  pub method : BindingMethod
  pub profile : BindingProfile
  pub label_location : Text
  pub data_digest : Option Text

-- `MetadataBinding::embedded_json`
unfoldable pub embedded_json : MetadataBinding
embedded_json = record {
  method = embedded;
  profile = json_sidecar;
  label_location = text "metadata.security";
  data_digest = none;
}

-- `MetadataBinding::assertion_ztdf`
unfoldable pub assertion_ztdf : MetadataBinding
assertion_ztdf = record {
  method = assertion;
  profile = ztdf_assertion;
  label_location = text "assertions[nato-label]";
  data_digest = none;
}

-- `MetadataBinding::encapsulated_xml`
unfoldable pub encapsulated_xml : MetadataBinding
encapsulated_xml = record {
  method = encapsulated;
  profile = xml_embedded;
  label_location = text "originatorConfidentialityLabel";
  data_digest = none;
}

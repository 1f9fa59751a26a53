-- ===== src/Tests/Binding.antt =====
-- A label that is bound to a payload, and its SPIF policy.
use ainext_gen_c.Base.{◌≡◌, ◌&&◌, ◌||◌, refl, not, some, none, [], ◌∷◌, text, all, is_ok, ok, err}
use ainext_gen_c.Label.Error.{parse_error}
use ainext_gen_c.Label.Classification.{as_stanag_str, unclassified}
use ainext_gen_c.Label.Confidentiality.{ConfidentialityLabel, validate, new_label}
use ainext_gen_c.Label.Policy.{nato}
use ainext_gen_c.Crypto.Provider.{VerifyingKey, SigningKey}
use ainext_gen_c.Spif.Presets.{nato_spif}
use ainext_gen_c.Spif.Registry.{spif_defaults}
use ainext_gen_c.Spif.Validator.{
  lists_text, applies_to, is_satisfied, validate_against_policy, spif_validate_label,
}
use ainext_gen_c.Spif.Conforming.{category_conforms, validate_against_policy-conforms}
use ainext_gen_c.Stanag.Binding.{BindingBackend, assertion_ztdf}
use ainext_gen_c.Stanag.Assertion.{AssertionBinding, verify_assertion}
use ainext_gen_c.Stanag.DataObject.{BindingDataObject, assertion_bound, verify_bdo}
use ainext_gen_c.Stanag.Verified.{verify_bdo-assertion_bound}
use ainext_gen_c.Stanag.Swapped.{verify_assertion-swaps_label}
use ainext_gen_c.Tests.Data.{secret_label, transparent, transparent-IsSound, signing_key}

validate_against_policy-conforms_example :
    is_ok (validate_against_policy (λ texts. []) secret_label nato_spif) ≡ (
      lists_text nato_spif.allowed_classifications (as_stanag_str secret_label.classification)
      && (all (category_conforms nato_spif) secret_label.categories
          && all
              (λ rule. not (applies_to secret_label rule) || is_satisfied secret_label rule)
              nato_spif.validations))
validate_against_policy-conforms_example =
    validate_against_policy-conforms (λ texts. []) secret_label nato_spif

-- a codec whose every label has the same XML
abbrev pub binding_backend : BindingBackend
binding_backend = record {
  provider = transparent;
  to_xml = λ l. ok (text "<x/>");
  to_json_structured = λ l. ok (text "{}");
  from_xml = λ s. err (parse_error s);
  resolve_label_xml = λ uri. err (parse_error uri);
  debug_texts = λ texts. [];
}

abbrev pub verifying_key : VerifyingKey
verifying_key = record { key_id = signing_key.key_id; der = signing_key.der }

abbrev pub secret_assertion : AssertionBinding
secret_assertion = record {
  label = secret_label;
  payload_digest = 1 ∷ [];
  signature = record {
    algorithm = text "RSA-PSS-SHA256";
    algorithm_uri = text "urn:nato:stanag:4778:binding:rsa-pss-sha256";
    key_id = signing_key.key_id;
    signature = 7 ∷ 60 ∷ 120 ∷ 47 ∷ 62 ∷ 124 ∷ 1 ∷ [];
  };
  signed_label_xml = some (text "<x/>");
}

abbrev pub secret_object : BindingDataObject
secret_object = record {
  binding = assertion_ztdf;
  label = secret_label;
  label_encoding = text "<x/>";
  payload_digest = 1 ∷ [];
  assertion = some secret_assertion;
}

bound_run : assertion_bound binding_backend secret_label (5 ∷ []) signing_key ≡ ok secret_object
unfolding assertion_bound validate ainext_gen_c.Label.Confidentiality.with_category new_label nato
    text ainext_gen_c.Label.Policy.allows_classification ainext_gen_c.Base.any
    ainext_gen_c.Label.Confidentiality.releasable_to ainext_gen_c.Stanag.Assertion.create_assertion
    spif_validate_label ainext_gen_c.Spif.Registry.policy_for_label ainext_gen_c.Base.get
    spif_defaults ainext_gen_c.Spif.Presets.uk_demo_spif ainext_gen_c.Base.put
    ainext_gen_c.Spif.Presets.capco_us_spif ainext_gen_c.Spif.Presets.acme ainext_gen_c.Base.find
    ainext_gen_c.Base.ascii_upper ainext_gen_c.Base.eq_ignore_ascii_case ainext_gen_c.Base.text_eq
    ainext_gen_c.Base.to_ascii_uppercase ainext_gen_c.Base.as_bytes ainext_gen_c.Base.encode_char
    ainext_gen_c.Crypto.Provider.binding_message ainext_gen_c.Crypto.Provider.nmbs_algorithm
    ainext_gen_c.Crypto.Provider.sha256_base64 ainext_gen_c.Crypto.Provider.sign_nmb_binding
    as_stanag_str ainext_gen_c.Label.Confidentiality.validate_categories
    ainext_gen_c.Label.Policy.new_policy ainext_gen_c.Label.Policy.with_allowed_classifications
    ainext_gen_c.Label.Policy.with_oid nato_spif ainext_gen_c.Spif.Registry.register applies_to
    ainext_gen_c.Spif.Validator.check_categories ainext_gen_c.Spif.Validator.check_defined
    ainext_gen_c.Spif.Validator.check_rules ainext_gen_c.Spif.Validator.check_values
    ainext_gen_c.Spif.Validator.find_category is_satisfied lists_text validate_against_policy
    ainext_gen_c.Spif.Validator.values_under ainext_gen_c.Stanag.Assertion.nmbs_algorithm_uri
    ainext_gen_c.Stanag.Assertion.sign_binding assertion_ztdf
bound_run = refl

verify_bdo-assertion_bound_example :
    verify_bdo binding_backend secret_object (5 ∷ []) (some verifying_key) ≡ ok tt
verify_bdo-assertion_bound_example =
    verify_bdo-assertion_bound binding_backend signing_key verifying_key transparent-IsSound refl
      refl secret_label (5 ∷ []) secret_object bound_run

abbrev open_label : ConfidentialityLabel
open_label = new_label nato unclassified

open_valid : validate open_label ≡ ok tt
unfolding validate new_label nato text ainext_gen_c.Label.Policy.allows_classification
    ainext_gen_c.Base.any
open_valid = refl

open_conforms : spif_validate_label (λ texts. []) spif_defaults open_label ≡ ok tt
unfolding spif_validate_label validate new_label nato text
    ainext_gen_c.Label.Policy.allows_classification ainext_gen_c.Base.any
    ainext_gen_c.Spif.Registry.policy_for_label ainext_gen_c.Base.get spif_defaults
    ainext_gen_c.Spif.Presets.uk_demo_spif ainext_gen_c.Base.put
    ainext_gen_c.Spif.Presets.capco_us_spif ainext_gen_c.Spif.Presets.acme nato_spif
    ainext_gen_c.Base.text_eq ainext_gen_c.Base.eq_ignore_ascii_case as_stanag_str
    ainext_gen_c.Base.find ainext_gen_c.Base.ascii_upper ainext_gen_c.Base.to_ascii_uppercase
    ainext_gen_c.Label.Confidentiality.validate_categories ainext_gen_c.Label.Policy.new_policy
    ainext_gen_c.Label.Policy.with_allowed_classifications ainext_gen_c.Label.Policy.with_oid
    ainext_gen_c.Spif.Registry.register applies_to ainext_gen_c.Spif.Validator.check_categories
    ainext_gen_c.Spif.Validator.check_defined ainext_gen_c.Spif.Validator.check_rules
    ainext_gen_c.Spif.Validator.check_values ainext_gen_c.Spif.Validator.find_category is_satisfied
    lists_text validate_against_policy ainext_gen_c.Spif.Validator.values_under
open_conforms = refl

secret_verifies : verify_assertion binding_backend secret_assertion (5 ∷ []) verifying_key ≡ ok tt
unfolding verify_assertion validate ainext_gen_c.Label.Confidentiality.with_category new_label nato
    text ainext_gen_c.Label.Policy.allows_classification ainext_gen_c.Base.any
    ainext_gen_c.Label.Confidentiality.releasable_to spif_validate_label
    ainext_gen_c.Spif.Registry.policy_for_label ainext_gen_c.Base.get spif_defaults
    ainext_gen_c.Spif.Presets.uk_demo_spif ainext_gen_c.Base.put
    ainext_gen_c.Spif.Presets.capco_us_spif ainext_gen_c.Spif.Presets.acme nato_spif
    ainext_gen_c.Base.find ainext_gen_c.Base.ascii_upper ainext_gen_c.Base.eq_ignore_ascii_case
    ainext_gen_c.Base.text_eq ainext_gen_c.Base.to_ascii_uppercase ainext_gen_c.Base.as_bytes
    ainext_gen_c.Base.encode_char ainext_gen_c.Crypto.Provider.binding_message
    ainext_gen_c.Crypto.Provider.sha256_base64 ainext_gen_c.Crypto.Provider.verify_nmb_binding
    as_stanag_str ainext_gen_c.Label.Confidentiality.validate_categories
    ainext_gen_c.Label.Policy.new_policy ainext_gen_c.Label.Policy.with_allowed_classifications
    ainext_gen_c.Label.Policy.with_oid ainext_gen_c.Spif.Registry.register applies_to
    ainext_gen_c.Spif.Validator.check_categories ainext_gen_c.Spif.Validator.check_defined
    ainext_gen_c.Spif.Validator.check_rules ainext_gen_c.Spif.Validator.check_values
    ainext_gen_c.Spif.Validator.find_category is_satisfied lists_text validate_against_policy
    ainext_gen_c.Spif.Validator.values_under ainext_gen_c.Stanag.Assertion.label_xml_of
secret_verifies = refl

verify_assertion-swaps_label_example :
    verify_assertion binding_backend
      (record secret_assertion { label = open_label })
      (5 ∷ [])
      verifying_key
    ≡ ok tt
verify_assertion-swaps_label_example =
    verify_assertion-swaps_label binding_backend secret_assertion (text "<x/>") (5 ∷ [])
      verifying_key open_label refl secret_verifies open_valid open_conforms

-- ===== src/Stanag/Swapped.antt =====
-- crates/mim-stanag4778/src/assertion.rs: the label of an assertion is not the one that is signed.
use ainext_gen_c.Base.{◌≡◌, some, Text, Bytes, ok, >>=-eq-ok}
use ainext_gen_c.Label.Confidentiality.{ConfidentialityLabel, validate}
use ainext_gen_c.Crypto.Provider.{VerifyingKey}
use ainext_gen_c.Spif.Registry.{spif_defaults}
use ainext_gen_c.Spif.Validator.{spif_validate_label}
use ainext_gen_c.Stanag.Binding.{BindingBackend}
use ainext_gen_c.Stanag.Assertion.{AssertionBinding, label_xml_of, verify_assertion}

module _ (k : BindingBackend) where
  -- An assertion that carries its signed XML and verifies still verifies under any other label that
  -- is valid and conforms to its SPIF policy: the signature is checked over the XML that the
  -- assertion carries, and the label is not compared with it.
  pub verify_assertion-swaps_label :
      (a : AssertionBinding) (xml : Text) (payload : Bytes) (key : VerifyingKey)
      (other : ConfidentialityLabel)
      → a.signed_label_xml ≡ some xml
      → verify_assertion k a payload key ≡ ok tt
      → validate other ≡ ok tt
      → spif_validate_label k.debug_texts spif_defaults other ≡ ok tt
      → verify_assertion k (record a { label = other }) payload key ≡ ok tt
  unfolding verify_assertion label_xml_of
  verify_assertion-swaps_label a xml payload key other carried verified valid conforming =
      let (d1, valid', h1) = >>=-eq-ok (validate a.label) _ verified in
      let (d2, conforming', h2) =
        >>=-eq-ok (spif_validate_label k.debug_texts spif_defaults a.label) _ h1 in
      rw (valid, conforming, carried) (rw carried at h2)

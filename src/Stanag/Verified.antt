-- ===== src/Stanag/Verified.antt =====
-- crates/mim-stanag4778/src/assertion.rs and bdo.rs: what is bound verifies.
use ainext_gen_c.Base.{
  map_err-eq-ok, ◌≡◌, true, refl, sym, ap, subst, ◌∙◌, some, Text, text_eq, text_eq_refl, Bytes,
  as_bytes, ok, >>=-eq-ok, ok_injective, map_err,
}
use ainext_gen_c.Label.Error.{binding}
use ainext_gen_c.Label.Confidentiality.{ConfidentialityLabel, validate}
use ainext_gen_c.Crypto.Provider.{
  IsSound, SigningKey, VerifyingKey, nmbs_algorithm, sha256_base64, sign_nmb_binding,
}
use ainext_gen_c.Crypto.Binding.{verify-sign_nmb_binding}
use ainext_gen_c.Spif.Registry.{spif_defaults}
use ainext_gen_c.Spif.Validator.{spif_validate_label}
use ainext_gen_c.Stanag.Binding.{BindingBackend, assertion_ztdf}
use ainext_gen_c.Stanag.Assertion.{
  BindingSignature, AssertionBinding, nmbs_algorithm_uri, sign_binding, create_assertion,
  label_xml_of, verify_assertion,
}
use ainext_gen_c.Stanag.DataObject.{
  BindingDataObject, assertion_bound, check_data_digest, check_assertion, check_method, verify_bdo,
}

-- a signature under a key, and an assertion that holds it
abbrev signature_by : Text → Text → BindingSignature
signature_by key_id signature = record {
  algorithm = nmbs_algorithm;
  algorithm_uri = nmbs_algorithm_uri;
  key_id = key_id;
  signature = signature;
}

abbrev assertion_over : ConfidentialityLabel → Text → Text → BindingSignature → AssertionBinding
assertion_over l digest xml signature = record {
  label = l;
  payload_digest = digest;
  signature = signature;
  signed_label_xml = some xml;
}

-- the data object of an assertion
abbrev bound_object : ConfidentialityLabel → Text → AssertionBinding → BindingDataObject
bound_object l encoded a = record {
  binding = assertion_ztdf;
  label = l;
  label_encoding = encoded;
  payload_digest = a.payload_digest;
  assertion = some a;
}

module _ (k : BindingBackend) where
  -- what `create_assertion` did, once it returned
  pub record Created (l : ConfidentialityLabel) (payload : Bytes) (sk : SigningKey)
      (a : AssertionBinding) : Type 0 where
    pub valid : validate l ≡ ok tt
    pub conforming : spif_validate_label k.debug_texts spif_defaults l ≡ ok tt
    pub xml : Text
    pub encoded : k.to_xml l ≡ ok xml
    pub signature : Text
    pub signed :
        sign_nmb_binding k.provider sk (as_bytes xml) (sha256_base64 k.provider payload)
        ≡ ok signature
    pub made :
        a
        ≡ assertion_over l (sha256_base64 k.provider payload) xml (signature_by sk.key_id signature)

  create_assertion-Created :
      (l : ConfidentialityLabel) (payload : Bytes) (sk : SigningKey) (a : AssertionBinding)
      → create_assertion k l payload sk ≡ ok a
      → Created l payload sk a
  unfolding create_assertion sign_binding
  create_assertion-Created l payload sk a h =
      let (d1, valid, h1) = >>=-eq-ok (validate l) _ h in
      let (d2, conforming, h2) =
        >>=-eq-ok (spif_validate_label k.debug_texts spif_defaults l) _ h1 in
      let (xml, encoded, h3) = >>=-eq-ok (k.to_xml l) _ h2 in
      let (sig, bound, h4) =
        >>=-eq-ok (sign_binding k xml (sha256_base64 k.provider payload) sk) _ h3 in
      let (raw, signed, h5) =
        >>=-eq-ok
          (map_err binding
            (sign_nmb_binding k.provider sk (as_bytes xml) (sha256_base64 k.provider payload)))
          _ bound in
      record {
        valid = valid;
        conforming = conforming;
        xml = xml;
        encoded = encoded;
        signature = raw;
        signed = map_err-eq-ok binding _ raw signed;
        made =
            sym (
              ok_injective (assertion_over l (sha256_base64 k.provider payload) xml sig) a _ refl
                h4)
            ∙ ap (assertion_over l (sha256_base64 k.provider payload) xml)
                (sym (ok_injective (signature_by sk.key_id raw) sig _ refl h5));
      }

  module _ (sk : SigningKey) (vk : VerifyingKey) (sound : IsSound k.provider)
      (same : vk.key_id ≡ sk.key_id)
      (public : k.provider.public_key_from_private sk.der ≡ ok vk.der) where
    create_assertion-verify_assertion :
        (l : ConfidentialityLabel) (payload : Bytes) (a : AssertionBinding)
        → Created l payload sk a
        → verify_assertion k a payload vk ≡ ok tt
    unfolding verify_assertion label_xml_of
    create_assertion-verify_assertion l payload a c =
        let digest = sha256_base64 k.provider payload in
        let key_known : text_eq sk.key_id vk.key_id ≡ true =
          subst (λ i. text_eq sk.key_id i ≡ true) (sym same) (text_eq_refl sk.key_id) in
        let verified =
          verify-sign_nmb_binding k.provider sk vk (as_bytes c.xml) digest c.signature sound same
            public c.signed in
        subst (λ b. verify_assertion k b payload vk ≡ ok tt) (sym c.made)
          (rw (verify_assertion, c.valid, c.conforming, text_eq_refl digest, key_known, verified)
            refl)

    -- A payload that was bound to a label by an assertion verifies with its data object, under a
    -- verifying key of the signing key's id that holds its public half, over a sound backend.
    pub verify_bdo-assertion_bound :
        (l : ConfidentialityLabel) (payload : Bytes) (b : BindingDataObject)
        → assertion_bound k l payload sk ≡ ok b
        → verify_bdo k b payload (some vk) ≡ ok tt
    unfolding assertion_bound verify_bdo check_data_digest check_assertion check_method
        assertion_ztdf
    verify_bdo-assertion_bound l payload b h =
        let (d1, valid, h1) = >>=-eq-ok (validate l) _ h in
        let (xml, encoded, h2) = >>=-eq-ok (k.to_xml l) _ h1 in
        let (a, made, h3) = >>=-eq-ok (create_assertion k l payload sk) _ h2 in
        let c = create_assertion-Created l payload sk a made in
        let verified = create_assertion-verify_assertion l payload a c in
        let digest_known : text_eq a.payload_digest (sha256_base64 k.provider payload) ≡ true =
          subst (λ d. text_eq d (sha256_base64 k.provider payload) ≡ true)
            (sym (ap (λ x. x.payload_digest) c.made))
            (text_eq_refl (sha256_base64 k.provider payload)) in
        subst (λ x. verify_bdo k x payload (some vk) ≡ ok tt)
          (ok_injective (bound_object l xml a) b _ refl h3)
          (rw (verify_bdo, valid, digest_known, verified) refl)

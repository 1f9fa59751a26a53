-- ===== src/Tests/Packages.antt =====
-- A package that is created, and received on the target side.
use ainext_gen_c.Base.{
  ◌≡◌, refl, sym, ap, true, some, [], ◌∷◌, ◌++◌, text, Text, Bytes, ok, ok_injective,
}
use ainext_gen_c.Crypto.Provider.{CryptoProvider}
use ainext_gen_c.Crypto.Symmetric.{AesGcmCiphertext}
use ainext_gen_c.Audit.Log.{memory_sink}
use ainext_gen_c.Policy.Store.{domain}
use ainext_gen_c.Ztdf.Manifest.{ContentBackend, ZtdfManifest, payload_ref, local_kas}
use ainext_gen_c.Ztdf.Package.{ZtdfPackage, Drawn, ArchiveBackend, zeros, create_package, decrypt}
use ainext_gen_c.Ztdf.Opened.{IsSoundContent, create_package-decrypt}
use ainext_gen_c.Dcs.Guard.{CrossDomainGuard}
use ainext_gen_c.Dcs.Receipt.{receive_ztdf_on_target}
use ainext_gen_c.Dcs.Receiving.{ReceivedBy, receive_ztdf_on_target-ReceivedBy}
use ainext_gen_c.Tests.Data.{
  high, low, two_domains, secret_label, analyst, backend, transparent, signing_key,
}
use ainext_gen_c.Tests.Binding.{binding_backend, verifying_key, secret_object}
use ainext_gen_c.Tests.Transfer.{plain_ztdf, guard, empty_log, stamps}

abbrev twelve : Bytes
twelve = 0 ∷ 0 ∷ 0 ∷ 0 ∷ 0 ∷ 0 ∷ 0 ∷ 0 ∷ 0 ∷ 0 ∷ 0 ∷ 0 ∷ []

abbrev sixteen : Bytes
sixteen = 0 ∷ 0 ∷ 0 ∷ 0 ∷ twelve

-- ciphertexts that are the payload between zeros
abbrev sealed : Bytes → AesGcmCiphertext
sealed payload = record { iv = twelve; ciphertext = payload; tag = sixteen }

abbrev open_content : ContentBackend
open_content = record {
  Value = Text;
  value_of_text = λ s. ok s;
  text_of_value = λ v. some v;
  from_json_structured = λ s. ok secret_label;
  default_policy = text "{}";
  encrypt_aes256_gcm = λ iv key payload aad. ok (sealed payload);
  decrypt_aes256_gcm = λ key c aad. ok c.ciphertext;
  wrap_key_rsa_oaep_sha256 = λ vk key. ok key;
  unwrap_key_rsa_oaep_sha256 = λ sk wrapped. ok wrapped;
  base64_encode = λ b. b;
  base64_decode = λ s. ok s;
}

open_content-IsSoundContent : IsSoundContent open_content transparent
open_content-IsSoundContent = record {
  decode-encode = λ b. refl;
  unwrap-wrap = λ sk vk key wrapped public wraps. sym wraps;
  decrypt-encrypt = λ iv key payload aad c encrypts. ap ok (
      ap (λ (d : AesGcmCiphertext). d.ciphertext)
        (sym (ok_injective (sealed payload) c _ refl encrypts)));
  encrypt-sizes = λ iv key payload aad c encrypts.
      rw (← ok_injective (sealed payload) c _ refl encrypts) (refl, refl);
}

abbrev drawn : Drawn
drawn = record { content_key = ok (9 ∷ []); iv = twelve }

abbrev made_manifest : ZtdfManifest open_content
made_manifest = record {
  tdf_spec_version = text "1.0.0";
  payload = payload_ref;
  encryption_information = record {
    encryption_type = text "split";
    method = record {
      algorithm = text "AES-256-GCM";
      is_streamable = true;
      iv = twelve;
      auth_tag = sixteen;
    };
    key_wrap = record {
      algorithm = text "RSA-OAEP-SHA256";
      key_id = signing_key.key_id;
      wrapped_key = 9 ∷ [];
    };
    policy = text "{}";
  };
  assertions =
      record {
        id = text "nato-label-1";
        assertion_type = text "handling";
        scope = text "payload";
        applies_to_state = text "encrypted";
        statement = record {
          format = text "json-structured";
          schema = text "urn:nato:stanag:4774:confidentialitymetadatalabel:1:0";
          value = text "{}";
        };
        binding = record {
          method = text "nmb";
          algorithm = text "RSA-PSS-SHA256";
          key_id = signing_key.key_id;
          signature = 7 ∷ 60 ∷ 120 ∷ 47 ∷ 62 ∷ 124 ∷ 1 ∷ [];
        };
        signed_label_xml = text "<x/>";
      }
      ∷ [];
}

abbrev zipped : Bytes
zipped = twelve ++ (5 ∷ sixteen)

abbrev made_package : ZtdfPackage open_content
made_package = record {
  manifest = made_manifest;
  encrypted_payload = zipped;
  content_key = 9 ∷ [];
  binding = secret_object;
}

package_run :
    create_package binding_backend open_content drawn secret_label
      (5 ∷ [])
      signing_key
      verifying_key
      verifying_key
    ≡ ok made_package
unfolding create_package ainext_gen_c.Stanag.DataObject.assertion_bound
    ainext_gen_c.Label.Confidentiality.validate ainext_gen_c.Label.Confidentiality.with_category
    ainext_gen_c.Label.Confidentiality.new_label ainext_gen_c.Label.Policy.nato text
    ainext_gen_c.Label.Policy.allows_classification ainext_gen_c.Base.any
    ainext_gen_c.Label.Confidentiality.releasable_to ainext_gen_c.Stanag.Assertion.create_assertion
    ainext_gen_c.Spif.Validator.spif_validate_label ainext_gen_c.Spif.Registry.policy_for_label
    ainext_gen_c.Base.get ainext_gen_c.Spif.Registry.spif_defaults
    ainext_gen_c.Spif.Presets.uk_demo_spif ainext_gen_c.Base.put
    ainext_gen_c.Spif.Presets.capco_us_spif ainext_gen_c.Spif.Presets.acme ainext_gen_c.Base.find
    ainext_gen_c.Base.ascii_upper ainext_gen_c.Base.eq_ignore_ascii_case ainext_gen_c.Base.text_eq
    ainext_gen_c.Base.to_ascii_uppercase ainext_gen_c.Base.as_bytes ainext_gen_c.Base.encode_char
    ainext_gen_c.Crypto.Provider.binding_message ainext_gen_c.Crypto.Provider.nmbs_algorithm
    ainext_gen_c.Crypto.Provider.sha256_base64 ainext_gen_c.Crypto.Provider.sign_nmb_binding
    ainext_gen_c.Label.Classification.as_stanag_str
    ainext_gen_c.Label.Confidentiality.validate_categories ainext_gen_c.Label.Policy.new_policy
    ainext_gen_c.Label.Policy.with_allowed_classifications ainext_gen_c.Label.Policy.with_oid
    ainext_gen_c.Spif.Presets.nato_spif ainext_gen_c.Spif.Registry.register
    ainext_gen_c.Spif.Validator.applies_to ainext_gen_c.Spif.Validator.check_categories
    ainext_gen_c.Spif.Validator.check_defined ainext_gen_c.Spif.Validator.check_rules
    ainext_gen_c.Spif.Validator.check_values ainext_gen_c.Spif.Validator.find_category
    ainext_gen_c.Spif.Validator.is_satisfied ainext_gen_c.Spif.Validator.lists_text
    ainext_gen_c.Spif.Validator.validate_against_policy ainext_gen_c.Spif.Validator.values_under
    ainext_gen_c.Stanag.Assertion.nmbs_algorithm_uri ainext_gen_c.Stanag.Assertion.sign_binding
    ainext_gen_c.Stanag.Binding.assertion_ztdf ainext_gen_c.Stanag.Assertion.verify_assertion
    ainext_gen_c.Crypto.Provider.verify_nmb_binding ainext_gen_c.Stanag.Assertion.label_xml_of
    ainext_gen_c.Stanag.DataObject.check_assertion ainext_gen_c.Stanag.DataObject.check_data_digest
    ainext_gen_c.Stanag.DataObject.check_method ainext_gen_c.Stanag.DataObject.verify_bdo
    ainext_gen_c.Ztdf.Manifest.current_version ainext_gen_c.Ztdf.Manifest.default_policy_b64
    ainext_gen_c.Ztdf.Manifest.encryption_of ainext_gen_c.Ztdf.Manifest.namespace_4774
    ainext_gen_c.Ztdf.Manifest.nato_label_assertion ainext_gen_c.Ztdf.Manifest.validate_manifest
    ainext_gen_c.Ztdf.Manifest.ztdf_assertion ainext_gen_c.Ztdf.Manifest.for_mim_payload
    ainext_gen_c.Ztdf.Package.payload_data ainext_gen_c.Crypto.Symmetric.to_bytes
package_run = refl

create_package-decrypt_example : decrypt open_content made_package signing_key ≡ ok (5 ∷ [])
create_package-decrypt_example =
    create_package-decrypt binding_backend open_content open_content-IsSoundContent drawn
      secret_label (5 ∷ []) signing_key verifying_key verifying_key signing_key made_package refl
      package_run

-- an archive that is the encrypted payload, with the manifest beside it
abbrev archive : ArchiveBackend open_content
archive = record {
  manifest_text = λ m. ok (text "{}");
  manifest_of_text = λ s. ok made_manifest;
  write_archive = λ json payload. ok payload;
  read_manifest = λ bytes. ok (text "{}");
  read_payload = λ bytes. ok bytes;
}

abbrev upward : CrossDomainGuard memory_sink
upward = record guard { source = low; target = high }

receipt_run :
    (receive_ztdf_on_target backend memory_sink binding_backend plain_ztdf open_content archive
      (λ bytes. [])
      analyst
      upward
      zipped
      verifying_key
      (local_kas open_content signing_key)
      empty_log
      stamps).2
    ≡ ok (5 ∷ [])
unfolding receive_ztdf_on_target ainext_gen_c.Dcs.Receipt.receive_labelled
    ainext_gen_c.Dcs.Receipt.open_received ainext_gen_c.Dcs.Receipt.after_gate
    ainext_gen_c.Dcs.Receipt.opened_record ainext_gen_c.Dcs.Receipt.receipt_record
    ainext_gen_c.Ztdf.Package.from_zip_sealed ainext_gen_c.Ztdf.Package.read_zip_entries
    ainext_gen_c.Ztdf.Package.manifest_label ainext_gen_c.Ztdf.Package.binding_from_manifest
    ainext_gen_c.Ztdf.Package.decrypt_with_policy ainext_gen_c.Ztdf.Package.decrypt_with_kas
    ainext_gen_c.Ztdf.Package.verify_binding_plaintext ainext_gen_c.Ztdf.Package.verify_by_manifest
    zeros local_kas ainext_gen_c.Ztdf.Manifest.current_version
    ainext_gen_c.Ztdf.Manifest.namespace_4774 ainext_gen_c.Ztdf.Manifest.nato_label_assertion
    ainext_gen_c.Ztdf.Manifest.validate_manifest ainext_gen_c.Ztdf.Package.payload_data
    ainext_gen_c.Crypto.Symmetric.from_bytes ainext_gen_c.Base.drop ainext_gen_c.Base.take
    ainext_gen_c.Base.from_utf8 ainext_gen_c.Base.decode_from ainext_gen_c.Base.decode_byte
    ainext_gen_c.Policy.Pep.enforce_access ainext_gen_c.Policy.Pep.pep_evaluate_access
    ainext_gen_c.Policy.Pep.access_record ainext_gen_c.Policy.Pip.access_context
    ainext_gen_c.Policy.Pdp.evaluate_access ainext_gen_c.Policy.Pep.recorded
    ainext_gen_c.Label.Confidentiality.validate ainext_gen_c.Label.Confidentiality.with_category
    ainext_gen_c.Label.Confidentiality.new_label ainext_gen_c.Label.Policy.nato text
    ainext_gen_c.Label.Policy.allows_classification ainext_gen_c.Base.any
    ainext_gen_c.Label.Confidentiality.releasable_to ainext_gen_c.Policy.Pdp.evaluate
    ainext_gen_c.Policy.Context.local ainext_gen_c.Policy.Pdp.require_domain domain
    ainext_gen_c.Audit.Chain.audit_label ainext_gen_c.Audit.Chain.hash_record
    ainext_gen_c.Audit.Chain.seal ainext_gen_c.Audit.Chain.sign ainext_gen_c.Audit.Log.append_made
    ainext_gen_c.Audit.Log.make_envelope ainext_gen_c.Audit.Log.push_envelope
    ainext_gen_c.Audit.Log.record_event ainext_gen_c.Audit.Record.new_record
    ainext_gen_c.Audit.Record.with_domains ainext_gen_c.Audit.Record.with_effective_label
    ainext_gen_c.Base.find ainext_gen_c.Base.retain ainext_gen_c.Base.ascii_upper
    ainext_gen_c.Base.eq_ignore_ascii_case ainext_gen_c.Base.text_eq
    ainext_gen_c.Base.to_ascii_uppercase ainext_gen_c.Base.as_bytes ainext_gen_c.Base.encode_char
    ainext_gen_c.Crypto.Provider.binding_message ainext_gen_c.Crypto.Provider.nmbs_algorithm
    ainext_gen_c.Crypto.Provider.sha256_base64 ainext_gen_c.Crypto.Provider.sign_nmb_binding
    ainext_gen_c.Label.Classification.as_stanag_str
    ainext_gen_c.Label.Confidentiality.is_releasability
    ainext_gen_c.Label.Confidentiality.releasable_countries
    ainext_gen_c.Label.Confidentiality.restrictive_category_values
    ainext_gen_c.Label.Confidentiality.validate_categories
    ainext_gen_c.Label.Confidentiality.values_of ainext_gen_c.Label.Domain.accepts_country
    ainext_gen_c.Label.Domain.accepts_mission ainext_gen_c.Label.Domain.lists_ignoring_case
    ainext_gen_c.Label.Error.label_error_text ainext_gen_c.Label.Policy.new_policy
    ainext_gen_c.Label.Policy.with_allowed_classifications ainext_gen_c.Label.Policy.with_oid
    ainext_gen_c.Policy.Context.from_label ainext_gen_c.Policy.Context.holds_caveat
    ainext_gen_c.Policy.Downgrade.cap_classification
    ainext_gen_c.Policy.Downgrade.downgraded_label_for_target
    ainext_gen_c.Policy.Downgrade.effective_label ainext_gen_c.Policy.Downgrade.intersect_categories
    ainext_gen_c.Policy.Downgrade.intersect_category ainext_gen_c.Policy.Downgrade.keeps_category
    ainext_gen_c.Policy.Error.from_label_error ainext_gen_c.Policy.Pdp.access_in_domain
    ainext_gen_c.Policy.Pdp.check_countries ainext_gen_c.Policy.Pdp.check_handling_caveats
    ainext_gen_c.Policy.Pdp.check_levels ainext_gen_c.Policy.Pdp.check_mission_compartment
    ainext_gen_c.Policy.Pdp.check_nationality ainext_gen_c.Policy.Pdp.check_target_mission
    ainext_gen_c.Policy.Pdp.evaluate_cross_domain ainext_gen_c.Policy.Pdp.operation_name
    ainext_gen_c.Policy.Pdp.release_decision ainext_gen_c.Policy.Pdp.resolve_mission_id
    ainext_gen_c.Policy.Pdp.transfer_between ainext_gen_c.Policy.Pep.effect_to_decision
    ainext_gen_c.Policy.Pep.record_audit ainext_gen_c.Policy.Pep.refuse_denial
    ainext_gen_c.Policy.Store.get_domain ainext_gen_c.Policy.Store.is_for_pair
    ainext_gen_c.Policy.Store.policy_for_pair ainext_gen_c.Stanag.DataObject.assertion_bound
    ainext_gen_c.Stanag.Assertion.create_assertion ainext_gen_c.Spif.Validator.spif_validate_label
    ainext_gen_c.Spif.Registry.policy_for_label ainext_gen_c.Base.get
    ainext_gen_c.Spif.Registry.spif_defaults ainext_gen_c.Spif.Presets.uk_demo_spif
    ainext_gen_c.Base.put ainext_gen_c.Spif.Presets.capco_us_spif ainext_gen_c.Spif.Presets.acme
    ainext_gen_c.Spif.Presets.nato_spif ainext_gen_c.Spif.Registry.register
    ainext_gen_c.Spif.Validator.applies_to ainext_gen_c.Spif.Validator.check_categories
    ainext_gen_c.Spif.Validator.check_defined ainext_gen_c.Spif.Validator.check_rules
    ainext_gen_c.Spif.Validator.check_values ainext_gen_c.Spif.Validator.find_category
    ainext_gen_c.Spif.Validator.is_satisfied ainext_gen_c.Spif.Validator.lists_text
    ainext_gen_c.Spif.Validator.validate_against_policy ainext_gen_c.Spif.Validator.values_under
    ainext_gen_c.Stanag.Assertion.nmbs_algorithm_uri ainext_gen_c.Stanag.Assertion.sign_binding
    ainext_gen_c.Stanag.Binding.assertion_ztdf ainext_gen_c.Stanag.Assertion.verify_assertion
    ainext_gen_c.Crypto.Provider.verify_nmb_binding ainext_gen_c.Stanag.Assertion.label_xml_of
    ainext_gen_c.Policy.Pep.enforce_cross_domain ainext_gen_c.Policy.Pep.pep_evaluate_mission
    ainext_gen_c.Policy.Pip.cross_domain_context ainext_gen_c.Policy.Context.cross_domain
    ainext_gen_c.Policy.Pep.cross_domain_record ainext_gen_c.Dcs.Transfer.execute
    ainext_gen_c.Dcs.Transfer.after_domains ainext_gen_c.Dcs.Transfer.after_binding
    ainext_gen_c.Dcs.Transfer.conclude ainext_gen_c.Dcs.Transfer.make_release
    ainext_gen_c.Dcs.Transfer.release_outcome ainext_gen_c.Dcs.Transfer.record_transfer_audit
    ainext_gen_c.Dcs.Transfer.audit_outcome ainext_gen_c.Dcs.Transfer.transfer_record
    ainext_gen_c.Dcs.Transfer.payload_digest_of ainext_gen_c.Dcs.Transfer.evaluate_record
    ainext_gen_c.Dcs.Transfer.release_record ainext_gen_c.Dcs.Transfer.deny_record
    ainext_gen_c.Dcs.Transfer.reject_record ainext_gen_c.Dcs.Transfer.decision_text
    ainext_gen_c.Dcs.Transfer.audit_error_text ainext_gen_c.Dcs.Guard.validate_domain_pair
    ainext_gen_c.Dcs.Guard.guard_evaluate ainext_gen_c.Dcs.Guard.guard_evaluate_with_subject
    ainext_gen_c.Dcs.Guard.map_decision ainext_gen_c.Stanag.DataObject.verify_bdo
    ainext_gen_c.Stanag.DataObject.check_data_digest ainext_gen_c.Stanag.DataObject.check_assertion
    ainext_gen_c.Stanag.DataObject.check_method ainext_gen_c.Label.Domain.validate_id
    ainext_gen_c.Policy.Pep.pep_evaluate_cross_domain ainext_gen_c.Policy.Context.new_subject
receipt_run = refl

high_kept : domain two_domains (text "HIGH") ≡ some high
unfolding domain ainext_gen_c.Base.text_eq text
high_kept = refl

receive_ztdf_on_target-ReceivedBy_example :
    ReceivedBy backend memory_sink binding_backend plain_ztdf open_content archive
      (λ bytes. [])
      analyst
      upward
      zipped
      verifying_key
      (local_kas open_content signing_key)
      (5 ∷ [])
receive_ztdf_on_target-ReceivedBy_example =
    receive_ztdf_on_target-ReceivedBy backend memory_sink binding_backend plain_ztdf open_content
      archive (λ bytes. []) analyst upward zipped verifying_key (local_kas open_content signing_key)
      empty_log stamps (5 ∷ []) high_kept receipt_run

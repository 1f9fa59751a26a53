-- ===== src/Tests/Envelopes.antt =====
-- A put of an envelope behind the gate.
use ainext_gen_c.Base.{◌≡◌, refl, false, some, [], ◌∷◌, Text, text, as_bytes, ok}
use ainext_gen_c.Audit.Log.{memory_sink}
use ainext_gen_c.Policy.Context.{write}
use ainext_gen_c.Runtime.Instance.{MimInstance}
use ainext_gen_c.Stanag.Binding.{assertion, rest_envelope}
use ainext_gen_c.Stanag.Assertion.{AssertionBinding, verify_assertion}
use ainext_gen_c.Stanag.Profiles.{RestEnvelope}
use ainext_gen_c.Transport.Message.{TransportResult}
use ainext_gen_c.Transport.Broker.{put_object}
use ainext_gen_c.Transport.Gated.{Accessed}
use ainext_gen_c.Transport.Enveloped.{put_object_enveloped_as, put_object_enveloped_as-Accessed}
use ainext_gen_c.Tests.Data.{analyst, backend, stamp}
use ainext_gen_c.Tests.Transport.{texts_only, accepting, target, with_target}
use ainext_gen_c.Tests.Secured.{unchanged, secured, high_registered}
use ainext_gen_c.Tests.Binding.{binding_backend, verifying_key, secret_assertion}

-- an envelope over a payload of one byte, of which the target is read
abbrev envelope : RestEnvelope
envelope = record {
  metadata_binding = record {
    method = assertion;
    profile = rest_envelope;
    label_location = text "X-NATO-Confidentiality-Label";
    data_digest = some (1 ∷ []);
  };
  originator_confidentiality_label = text "<x/>";
  payload_digest = 1 ∷ [];
  payload = 5 ∷ [];
  assertion = some secret_assertion;
}

abbrev as_target : Text → TransportResult (MimInstance texts_only)
as_target s = ok target

envelope_run :
    (put_object_enveloped_as texts_only binding_backend as_target backend memory_sink unchanged
      accepting secured stamp analyst envelope verifying_key).1
    ≡ ok (record { oid = text "urn:1"; created = false })
unfolding put_object_enveloped_as ainext_gen_c.Transport.Enveloped.unwrap_put_object
    ainext_gen_c.Stanag.Profiles.verify_rest_envelope ainext_gen_c.Policy.Pep.enforce_access
    ainext_gen_c.Policy.Pep.pep_evaluate_access ainext_gen_c.Policy.Pep.recorded
    ainext_gen_c.Policy.Pip.access_context ainext_gen_c.Label.Confidentiality.validate
    ainext_gen_c.Label.Confidentiality.with_category ainext_gen_c.Label.Confidentiality.new_label
    ainext_gen_c.Label.Policy.nato text ainext_gen_c.Label.Policy.allows_classification
    ainext_gen_c.Base.any ainext_gen_c.Label.Confidentiality.releasable_to
    ainext_gen_c.Policy.Pdp.evaluate ainext_gen_c.Policy.Context.local
    ainext_gen_c.Policy.Pdp.evaluate_access ainext_gen_c.Policy.Pdp.require_domain
    ainext_gen_c.Policy.Store.domain ainext_gen_c.Audit.Chain.audit_label
    ainext_gen_c.Audit.Chain.hash_record ainext_gen_c.Audit.Chain.seal ainext_gen_c.Audit.Chain.sign
    ainext_gen_c.Audit.Log.append_made ainext_gen_c.Audit.Log.make_envelope
    ainext_gen_c.Audit.Log.push_envelope ainext_gen_c.Audit.Log.record_event
    ainext_gen_c.Audit.Record.new_record ainext_gen_c.Audit.Record.with_domains
    ainext_gen_c.Audit.Record.with_effective_label ainext_gen_c.Base.find ainext_gen_c.Base.retain
    ainext_gen_c.Base.ascii_upper ainext_gen_c.Base.eq_ignore_ascii_case ainext_gen_c.Base.text_eq
    ainext_gen_c.Base.to_ascii_uppercase as_bytes ainext_gen_c.Base.encode_char
    ainext_gen_c.Crypto.Provider.binding_message ainext_gen_c.Crypto.Provider.nmbs_algorithm
    ainext_gen_c.Crypto.Provider.sha256_base64 ainext_gen_c.Crypto.Provider.sign_nmb_binding
    ainext_gen_c.Label.Classification.as_stanag_str
    ainext_gen_c.Label.Confidentiality.is_releasability
    ainext_gen_c.Label.Confidentiality.releasable_countries
    ainext_gen_c.Label.Confidentiality.restrictive_category_values
    ainext_gen_c.Label.Confidentiality.validate_categories
    ainext_gen_c.Label.Confidentiality.values_of ainext_gen_c.Label.Domain.accepts_country
    ainext_gen_c.Label.Domain.accepts_mission ainext_gen_c.Label.Domain.lists_ignoring_case
    ainext_gen_c.Label.Error.label_error_text ainext_gen_c.Label.Policy.new_policy
    ainext_gen_c.Label.Policy.with_allowed_classifications ainext_gen_c.Label.Policy.with_oid
    ainext_gen_c.Policy.Context.from_label ainext_gen_c.Policy.Context.holds_caveat
    ainext_gen_c.Policy.Downgrade.cap_classification
    ainext_gen_c.Policy.Downgrade.downgraded_label_for_target
    ainext_gen_c.Policy.Downgrade.effective_label ainext_gen_c.Policy.Downgrade.intersect_categories
    ainext_gen_c.Policy.Downgrade.intersect_category ainext_gen_c.Policy.Downgrade.keeps_category
    ainext_gen_c.Policy.Error.from_label_error ainext_gen_c.Policy.Pdp.access_in_domain
    ainext_gen_c.Policy.Pdp.check_countries ainext_gen_c.Policy.Pdp.check_handling_caveats
    ainext_gen_c.Policy.Pdp.check_levels ainext_gen_c.Policy.Pdp.check_mission_compartment
    ainext_gen_c.Policy.Pdp.check_nationality ainext_gen_c.Policy.Pdp.check_target_mission
    ainext_gen_c.Policy.Pdp.evaluate_cross_domain ainext_gen_c.Policy.Pdp.operation_name
    ainext_gen_c.Policy.Pdp.release_decision ainext_gen_c.Policy.Pdp.resolve_mission_id
    ainext_gen_c.Policy.Pdp.transfer_between ainext_gen_c.Policy.Pep.access_record
    ainext_gen_c.Policy.Pep.effect_to_decision ainext_gen_c.Policy.Pep.record_audit
    ainext_gen_c.Policy.Pep.refuse_denial ainext_gen_c.Policy.Store.get_domain
    ainext_gen_c.Policy.Store.is_for_pair ainext_gen_c.Policy.Store.policy_for_pair
    ainext_gen_c.Transport.Broker.get_by_oid ainext_gen_c.Base.member ainext_gen_c.Base.get
    ainext_gen_c.Transport.Secured.instance_label ainext_gen_c.Policy.Pip.label_from_security
    ainext_gen_c.Transport.Secured.put_object_as ainext_gen_c.Transport.Secured.change_inner
    put_object ainext_gen_c.Transport.Broker.store_instance ainext_gen_c.Base.contains_key
    ainext_gen_c.Runtime.Report.is_valid ainext_gen_c.Base.put ainext_gen_c.Base.set_remove
    verify_assertion ainext_gen_c.Spif.Validator.spif_validate_label
    ainext_gen_c.Spif.Registry.policy_for_label ainext_gen_c.Spif.Registry.spif_defaults
    ainext_gen_c.Spif.Presets.uk_demo_spif ainext_gen_c.Spif.Presets.capco_us_spif
    ainext_gen_c.Spif.Presets.acme ainext_gen_c.Spif.Presets.nato_spif
    ainext_gen_c.Crypto.Provider.verify_nmb_binding ainext_gen_c.Spif.Registry.register
    ainext_gen_c.Spif.Validator.applies_to ainext_gen_c.Spif.Validator.check_categories
    ainext_gen_c.Spif.Validator.check_defined ainext_gen_c.Spif.Validator.check_rules
    ainext_gen_c.Spif.Validator.check_values ainext_gen_c.Spif.Validator.find_category
    ainext_gen_c.Spif.Validator.is_satisfied ainext_gen_c.Spif.Validator.lists_text
    ainext_gen_c.Spif.Validator.validate_against_policy ainext_gen_c.Spif.Validator.values_under
    ainext_gen_c.Stanag.Assertion.label_xml_of
envelope_run = refl

put_object_enveloped_as-Accessed_example :
    (a : AssertionBinding) × (i : MimInstance texts_only) × (envelope.assertion ≡ some a)
    × (verify_assertion binding_backend a (as_bytes envelope.payload) verifying_key ≡ ok tt)
    × (as_target envelope.payload ≡ ok i)
    × Accessed texts_only backend memory_sink unchanged secured analyst i write
    × (put_object texts_only accepting with_target i
        ≡ ok (
          (put_object_enveloped_as texts_only binding_backend as_target backend memory_sink
              unchanged accepting secured stamp analyst envelope verifying_key).0.inner,
          record { oid = text "urn:1"; created = false },
        ))
put_object_enveloped_as-Accessed_example =
    put_object_enveloped_as-Accessed texts_only binding_backend as_target backend memory_sink
      unchanged accepting secured stamp analyst envelope verifying_key
      (record { oid = text "urn:1"; created = false }) high_registered envelope_run

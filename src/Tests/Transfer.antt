-- ===== src/Tests/Transfer.antt =====
-- A transfer through the guard.
use ainext_gen_c.Base.{ℕ, ◌≡◌, refl, false, some, none, [], ◌∷◌, Text, text, Bytes, Option, ok}
use ainext_gen_c.Label.Confidentiality.{ConfidentialityLabel}
use ainext_gen_c.Audit.Record.{Stamp}
use ainext_gen_c.Audit.Log.{memory_sink, AuditLog, new_chain}
use ainext_gen_c.Policy.Pep.{new_pep}
use ainext_gen_c.Stanag.Binding.{BindingBackend}
use ainext_gen_c.Dcs.Guard.{CrossDomainGuard, validate_domain_pair}
use ainext_gen_c.Dcs.Transfer.{ZtdfBackend, TransferOutcome, released, CrossDomainTransfer, execute}
use ainext_gen_c.Dcs.Releasing.{ReleasedBy, execute-ReleasedBy}
use ainext_gen_c.Dcs.Naming.{execute-ignores_domains}
use ainext_gen_c.Tests.Data.{high, low, two_domains, secret_label, stamp, backend, signing_key}
use ainext_gen_c.Tests.Binding.{binding_backend, verifying_key, secret_object}

abbrev pub plain_ztdf : ZtdfBackend
plain_ztdf = record {
  Package = Bytes;
  create = λ l payload signing verifying kas. ok payload;
  verify_release = λ p key payload. ok tt;
  manifest_json = λ p. ok (text "{}");
  to_zip_bytes = λ p. ok p;
}

abbrev pub guard : CrossDomainGuard memory_sink
guard = record {
  source = high;
  target = low;
  pep = record { store = two_domains; audit = none };
  accredited = false;
}

abbrev pub empty_log : AuditLog memory_sink
empty_log = record {
  sink_state = [];
  chain = record {
    previous_hash = text "GENESIS";
    envelopes = [];
    signing_key = none;
    verifying_key = none;
  };
}

-- a transfer that names domains which are not the guard's
abbrev transfer : CrossDomainTransfer
transfer = record {
  source_domain = text "A";
  target_domain = text "B";
  label = secret_label;
  payload = 5 ∷ [];
  inbound_binding = secret_object;
  nmb_signing_key = signing_key;
  nmb_verifying_key = verifying_key;
  kas_signing_key = signing_key;
  kas_verifying_key = verifying_key;
}

abbrev pub stamps : ℕ → Stamp
stamps n = stamp

transfer_run :
    (execute backend memory_sink binding_backend plain_ztdf transfer guard empty_log stamps).2
    ≡ ok (released (text "<x/>") (5 ∷ []) (some (text "{}")) (some (5 ∷ [])))
unfolding ainext_gen_c.Stanag.DataObject.assertion_bound ainext_gen_c.Label.Confidentiality.validate
    ainext_gen_c.Label.Confidentiality.with_category ainext_gen_c.Label.Confidentiality.new_label
    ainext_gen_c.Label.Policy.nato text ainext_gen_c.Label.Policy.allows_classification
    ainext_gen_c.Base.any ainext_gen_c.Label.Confidentiality.releasable_to
    ainext_gen_c.Stanag.Assertion.create_assertion ainext_gen_c.Spif.Validator.spif_validate_label
    ainext_gen_c.Spif.Registry.policy_for_label ainext_gen_c.Base.get
    ainext_gen_c.Spif.Registry.spif_defaults ainext_gen_c.Spif.Presets.uk_demo_spif
    ainext_gen_c.Base.put ainext_gen_c.Spif.Presets.capco_us_spif ainext_gen_c.Spif.Presets.acme
    ainext_gen_c.Base.find ainext_gen_c.Base.ascii_upper ainext_gen_c.Base.eq_ignore_ascii_case
    ainext_gen_c.Base.text_eq ainext_gen_c.Base.to_ascii_uppercase ainext_gen_c.Base.as_bytes
    ainext_gen_c.Base.encode_char ainext_gen_c.Crypto.Provider.binding_message
    ainext_gen_c.Crypto.Provider.nmbs_algorithm ainext_gen_c.Crypto.Provider.sha256_base64
    ainext_gen_c.Crypto.Provider.sign_nmb_binding ainext_gen_c.Label.Classification.as_stanag_str
    ainext_gen_c.Label.Confidentiality.validate_categories ainext_gen_c.Label.Policy.new_policy
    ainext_gen_c.Label.Policy.with_allowed_classifications ainext_gen_c.Label.Policy.with_oid
    ainext_gen_c.Spif.Presets.nato_spif ainext_gen_c.Spif.Registry.register
    ainext_gen_c.Spif.Validator.applies_to ainext_gen_c.Spif.Validator.check_categories
    ainext_gen_c.Spif.Validator.check_defined ainext_gen_c.Spif.Validator.check_rules
    ainext_gen_c.Spif.Validator.check_values ainext_gen_c.Spif.Validator.find_category
    ainext_gen_c.Spif.Validator.is_satisfied ainext_gen_c.Spif.Validator.lists_text
    ainext_gen_c.Spif.Validator.validate_against_policy ainext_gen_c.Spif.Validator.values_under
    ainext_gen_c.Stanag.Assertion.nmbs_algorithm_uri ainext_gen_c.Stanag.Assertion.sign_binding
    ainext_gen_c.Stanag.Binding.assertion_ztdf ainext_gen_c.Stanag.Assertion.verify_assertion
    ainext_gen_c.Crypto.Provider.verify_nmb_binding ainext_gen_c.Stanag.Assertion.label_xml_of
    ainext_gen_c.Policy.Pep.enforce_cross_domain ainext_gen_c.Policy.Pep.pep_evaluate_mission
    ainext_gen_c.Policy.Pep.recorded ainext_gen_c.Policy.Pip.cross_domain_context
    ainext_gen_c.Policy.Pdp.evaluate ainext_gen_c.Policy.Context.cross_domain
    ainext_gen_c.Policy.Pdp.evaluate_cross_domain ainext_gen_c.Policy.Store.policy_for_pair
    ainext_gen_c.Audit.Chain.audit_label ainext_gen_c.Audit.Chain.hash_record
    ainext_gen_c.Audit.Chain.seal ainext_gen_c.Audit.Chain.sign ainext_gen_c.Audit.Log.append_made
    ainext_gen_c.Audit.Log.make_envelope ainext_gen_c.Audit.Log.push_envelope
    ainext_gen_c.Audit.Log.record_event ainext_gen_c.Audit.Record.new_record
    ainext_gen_c.Audit.Record.with_domains ainext_gen_c.Audit.Record.with_effective_label
    ainext_gen_c.Base.retain ainext_gen_c.Label.Confidentiality.is_releasability
    ainext_gen_c.Label.Confidentiality.releasable_countries
    ainext_gen_c.Label.Confidentiality.restrictive_category_values
    ainext_gen_c.Label.Confidentiality.values_of ainext_gen_c.Label.Domain.accepts_country
    ainext_gen_c.Label.Domain.accepts_mission ainext_gen_c.Label.Domain.lists_ignoring_case
    ainext_gen_c.Label.Error.label_error_text ainext_gen_c.Policy.Context.from_label
    ainext_gen_c.Policy.Context.holds_caveat ainext_gen_c.Policy.Downgrade.cap_classification
    ainext_gen_c.Policy.Downgrade.downgraded_label_for_target
    ainext_gen_c.Policy.Downgrade.effective_label ainext_gen_c.Policy.Downgrade.intersect_categories
    ainext_gen_c.Policy.Downgrade.intersect_category ainext_gen_c.Policy.Downgrade.keeps_category
    ainext_gen_c.Policy.Error.from_label_error ainext_gen_c.Policy.Pdp.access_in_domain
    ainext_gen_c.Policy.Pdp.check_countries ainext_gen_c.Policy.Pdp.check_handling_caveats
    ainext_gen_c.Policy.Pdp.check_levels ainext_gen_c.Policy.Pdp.check_mission_compartment
    ainext_gen_c.Policy.Pdp.check_nationality ainext_gen_c.Policy.Pdp.check_target_mission
    ainext_gen_c.Policy.Pdp.evaluate_access ainext_gen_c.Policy.Pdp.operation_name
    ainext_gen_c.Policy.Pdp.release_decision ainext_gen_c.Policy.Pdp.require_domain
    ainext_gen_c.Policy.Pdp.resolve_mission_id ainext_gen_c.Policy.Pdp.transfer_between
    ainext_gen_c.Policy.Pep.cross_domain_record ainext_gen_c.Policy.Pep.effect_to_decision
    ainext_gen_c.Policy.Pep.record_audit ainext_gen_c.Policy.Pep.refuse_denial
    ainext_gen_c.Policy.Store.domain ainext_gen_c.Policy.Store.get_domain
    ainext_gen_c.Policy.Store.is_for_pair execute ainext_gen_c.Dcs.Transfer.after_domains
    ainext_gen_c.Dcs.Transfer.after_binding ainext_gen_c.Dcs.Transfer.conclude
    ainext_gen_c.Dcs.Transfer.make_release ainext_gen_c.Dcs.Transfer.release_outcome
    ainext_gen_c.Dcs.Transfer.record_transfer_audit ainext_gen_c.Dcs.Transfer.audit_outcome
    ainext_gen_c.Dcs.Transfer.transfer_record ainext_gen_c.Dcs.Transfer.payload_digest_of
    ainext_gen_c.Dcs.Transfer.evaluate_record ainext_gen_c.Dcs.Transfer.release_record
    ainext_gen_c.Dcs.Transfer.deny_record ainext_gen_c.Dcs.Transfer.reject_record
    ainext_gen_c.Dcs.Transfer.decision_text ainext_gen_c.Dcs.Transfer.audit_error_text
    validate_domain_pair ainext_gen_c.Dcs.Guard.guard_evaluate
    ainext_gen_c.Dcs.Guard.guard_evaluate_with_subject ainext_gen_c.Dcs.Guard.map_decision
    ainext_gen_c.Stanag.DataObject.verify_bdo ainext_gen_c.Stanag.DataObject.check_data_digest
    ainext_gen_c.Stanag.DataObject.check_assertion ainext_gen_c.Stanag.DataObject.check_method
    ainext_gen_c.Label.Domain.validate_id ainext_gen_c.Policy.Pep.pep_evaluate_cross_domain
    ainext_gen_c.Policy.Context.new_subject
transfer_run = refl

execute-ReleasedBy_example :
    ReleasedBy backend memory_sink binding_backend plain_ztdf transfer guard (text "<x/>") (5 ∷ [])
execute-ReleasedBy_example =
    execute-ReleasedBy backend memory_sink binding_backend plain_ztdf transfer guard empty_log
      stamps (text "<x/>") (5 ∷ []) (some (text "{}")) (some (5 ∷ [])) transfer_run

named_pair : validate_domain_pair (text "A") (text "B") ≡ ok tt
unfolding validate_domain_pair ainext_gen_c.Label.Domain.validate_id text ainext_gen_c.Base.text_eq
named_pair = refl

-- the guard's own domains in place of those that the transfer names
own_pair : validate_domain_pair (text "HIGH") (text "LOW") ≡ ok tt
unfolding validate_domain_pair ainext_gen_c.Label.Domain.validate_id text ainext_gen_c.Base.text_eq
own_pair = refl

execute-ignores_domains_example :
    (execute backend memory_sink binding_backend plain_ztdf transfer guard empty_log stamps).2
    ≡ (execute backend memory_sink binding_backend plain_ztdf
        (record transfer { source_domain = text "HIGH"; target_domain = text "LOW" })
        guard
        empty_log
        stamps).2
execute-ignores_domains_example =
    execute-ignores_domains backend memory_sink binding_backend plain_ztdf transfer guard
      (text "HIGH") (text "LOW") refl named_pair own_pair empty_log stamps

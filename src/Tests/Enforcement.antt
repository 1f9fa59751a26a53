-- ===== src/Tests/Enforcement.antt =====
-- The enforcement point on a concrete store and log.
use ainext_gen_c.Base.{◌≡◌, ◌≢◌, refl, some, none, [], ◌∷◌, Text, text, ok, ◌>>=◌}
use ainext_gen_c.Label.Classification.{restricted}
use ainext_gen_c.Audit.Log.{memory_sink, new_chain}
use ainext_gen_c.Policy.Error.{PolicyResult}
use ainext_gen_c.Policy.Context.{PolicyContext, read, cross_domain_transfer}
use ainext_gen_c.Policy.Store.{domain}
use ainext_gen_c.Policy.Pip.{access_context, cross_domain_context}
use ainext_gen_c.Policy.Pdp.{PolicyDecision, permit, downgrade, evaluate}
use ainext_gen_c.Policy.Access.{AccessAllowed}
use ainext_gen_c.Policy.Transfer.{TransferAllowed, Released}
use ainext_gen_c.Policy.Release.{Registered}
use ainext_gen_c.Policy.Pep.{
  PolicyEnforcementPoint, access_record, cross_domain_record, enforce_access, enforce_cross_domain,
}
use ainext_gen_c.Policy.Enforcement.{
  Enforced, Audited, enforce_cross_domain-Enforced, enforce_cross_domain-Released,
  enforce_access-AccessAllowed,
}
use ainext_gen_c.Tests.Data.{high, low, two_domains, analyst, secret_label, backend, stamp}

abbrev pub guarded : PolicyEnforcementPoint memory_sink
guarded = record {
  store = two_domains;
  audit = some (record { sink_state = []; chain = new_chain });
}

enforce_cross_domain-Enforced_example :
    (decided : PolicyResult PolicyDecision) × (decided
      ≡ (cross_domain_context analyst secret_label high low none >>= evaluate two_domains))
    × Audited backend memory_sink guarded decided
        (cross_domain_record stamp analyst secret_label high low)
        (enforce_cross_domain backend memory_sink guarded stamp analyst secret_label high low
          none).0
    × Enforced decided
        (enforce_cross_domain backend memory_sink guarded stamp analyst secret_label high low
          none).1
enforce_cross_domain-Enforced_example =
    enforce_cross_domain-Enforced backend memory_sink guarded stamp analyst secret_label high low
      none

abbrev downgraded : PolicyDecision
downgraded = record {
  effect = downgrade;
  reason =
      text
        "classification SECRET exceeds target domain max RESTRICTED; downgrading to RESTRICTED with category intersection";
  effective_label = some (record secret_label { classification = restricted });
}

transfer_enforced :
    (enforce_cross_domain backend memory_sink guarded stamp analyst secret_label high low none).1
    ≡ ok downgraded
unfolding enforce_cross_domain ainext_gen_c.Policy.Pep.pep_evaluate_mission
    ainext_gen_c.Policy.Pep.recorded cross_domain_context
    ainext_gen_c.Label.Confidentiality.validate ainext_gen_c.Label.Confidentiality.with_category
    ainext_gen_c.Label.Confidentiality.new_label ainext_gen_c.Label.Policy.nato text
    ainext_gen_c.Label.Policy.allows_classification ainext_gen_c.Base.any
    ainext_gen_c.Label.Confidentiality.releasable_to ainext_gen_c.Base.text_eq evaluate
    ainext_gen_c.Policy.Context.cross_domain ainext_gen_c.Policy.Pdp.evaluate_cross_domain
    ainext_gen_c.Policy.Store.policy_for_pair ainext_gen_c.Audit.Chain.audit_label
    ainext_gen_c.Audit.Chain.hash_record ainext_gen_c.Audit.Chain.seal ainext_gen_c.Audit.Chain.sign
    ainext_gen_c.Audit.Log.append_made ainext_gen_c.Audit.Log.make_envelope
    ainext_gen_c.Audit.Log.push_envelope ainext_gen_c.Audit.Log.record_event
    ainext_gen_c.Audit.Record.new_record ainext_gen_c.Audit.Record.with_domains
    ainext_gen_c.Audit.Record.with_effective_label ainext_gen_c.Base.find ainext_gen_c.Base.retain
    ainext_gen_c.Base.ascii_upper ainext_gen_c.Base.eq_ignore_ascii_case
    ainext_gen_c.Base.to_ascii_uppercase ainext_gen_c.Base.as_bytes ainext_gen_c.Base.encode_char
    ainext_gen_c.Crypto.Provider.binding_message ainext_gen_c.Crypto.Provider.nmbs_algorithm
    ainext_gen_c.Crypto.Provider.sha256_base64 ainext_gen_c.Crypto.Provider.sign_nmb_binding
    ainext_gen_c.Label.Classification.as_stanag_str
    ainext_gen_c.Label.Confidentiality.is_releasability
    ainext_gen_c.Label.Confidentiality.releasable_countries
    ainext_gen_c.Label.Confidentiality.restrictive_category_values
    ainext_gen_c.Label.Confidentiality.validate_categories
    ainext_gen_c.Label.Confidentiality.values_of ainext_gen_c.Label.Domain.accepts_country
    ainext_gen_c.Label.Domain.accepts_mission ainext_gen_c.Label.Domain.lists_ignoring_case
    ainext_gen_c.Label.Error.label_error_text ainext_gen_c.Label.Policy.new_policy
    ainext_gen_c.Label.Policy.with_allowed_classifications ainext_gen_c.Label.Policy.with_oid
    ainext_gen_c.Policy.Context.from_label ainext_gen_c.Policy.Context.holds_caveat
    ainext_gen_c.Policy.Downgrade.cap_classification
    ainext_gen_c.Policy.Downgrade.downgraded_label_for_target
    ainext_gen_c.Policy.Downgrade.effective_label ainext_gen_c.Policy.Downgrade.intersect_categories
    ainext_gen_c.Policy.Downgrade.intersect_category ainext_gen_c.Policy.Downgrade.keeps_category
    ainext_gen_c.Policy.Error.from_label_error ainext_gen_c.Policy.Pdp.access_in_domain
    ainext_gen_c.Policy.Pdp.check_countries ainext_gen_c.Policy.Pdp.check_handling_caveats
    ainext_gen_c.Policy.Pdp.check_levels ainext_gen_c.Policy.Pdp.check_mission_compartment
    ainext_gen_c.Policy.Pdp.check_nationality ainext_gen_c.Policy.Pdp.check_target_mission
    ainext_gen_c.Policy.Pdp.evaluate_access ainext_gen_c.Policy.Pdp.operation_name
    ainext_gen_c.Policy.Pdp.release_decision ainext_gen_c.Policy.Pdp.require_domain
    ainext_gen_c.Policy.Pdp.resolve_mission_id ainext_gen_c.Policy.Pdp.transfer_between
    cross_domain_record ainext_gen_c.Policy.Pep.effect_to_decision
    ainext_gen_c.Policy.Pep.record_audit ainext_gen_c.Policy.Pep.refuse_denial domain
    ainext_gen_c.Policy.Store.get_domain ainext_gen_c.Policy.Store.is_for_pair
transfer_enforced = refl

enforce_cross_domain-Released_example :
    (c : PolicyContext) × (cross_domain_context analyst secret_label high low none ≡ ok c)
    × (c.label ≡ secret_label)
    × (r : Registered two_domains (text "HIGH") (text "LOW")) × TransferAllowed c r.source r.target
    × Released c r.target downgraded
enforce_cross_domain-Released_example =
    enforce_cross_domain-Released backend memory_sink guarded stamp analyst secret_label high low
      none downgraded transfer_enforced

abbrev permitted : PolicyDecision
permitted = record {
  effect = permit;
  reason = text "read permitted for subject analyst in domain HIGH";
  effective_label = some secret_label;
}

access_enforced :
    (enforce_access backend memory_sink guarded stamp analyst secret_label read high).1
    ≡ ok permitted
unfolding enforce_access ainext_gen_c.Policy.Pep.pep_evaluate_access
    ainext_gen_c.Policy.Pep.recorded access_context ainext_gen_c.Label.Confidentiality.validate
    ainext_gen_c.Label.Confidentiality.with_category ainext_gen_c.Label.Confidentiality.new_label
    ainext_gen_c.Label.Policy.nato text ainext_gen_c.Label.Policy.allows_classification
    ainext_gen_c.Base.any ainext_gen_c.Label.Confidentiality.releasable_to evaluate
    ainext_gen_c.Policy.Context.local ainext_gen_c.Policy.Pdp.evaluate_access
    ainext_gen_c.Policy.Pdp.require_domain domain ainext_gen_c.Audit.Chain.audit_label
    ainext_gen_c.Audit.Chain.hash_record ainext_gen_c.Audit.Chain.seal ainext_gen_c.Audit.Chain.sign
    ainext_gen_c.Audit.Log.append_made ainext_gen_c.Audit.Log.make_envelope
    ainext_gen_c.Audit.Log.push_envelope ainext_gen_c.Audit.Log.record_event
    ainext_gen_c.Audit.Record.new_record ainext_gen_c.Audit.Record.with_domains
    ainext_gen_c.Audit.Record.with_effective_label ainext_gen_c.Base.find ainext_gen_c.Base.retain
    ainext_gen_c.Base.ascii_upper ainext_gen_c.Base.eq_ignore_ascii_case ainext_gen_c.Base.text_eq
    ainext_gen_c.Base.to_ascii_uppercase ainext_gen_c.Base.as_bytes ainext_gen_c.Base.encode_char
    ainext_gen_c.Crypto.Provider.binding_message ainext_gen_c.Crypto.Provider.nmbs_algorithm
    ainext_gen_c.Crypto.Provider.sha256_base64 ainext_gen_c.Crypto.Provider.sign_nmb_binding
    ainext_gen_c.Label.Classification.as_stanag_str
    ainext_gen_c.Label.Confidentiality.is_releasability
    ainext_gen_c.Label.Confidentiality.releasable_countries
    ainext_gen_c.Label.Confidentiality.restrictive_category_values
    ainext_gen_c.Label.Confidentiality.validate_categories
    ainext_gen_c.Label.Confidentiality.values_of ainext_gen_c.Label.Domain.accepts_country
    ainext_gen_c.Label.Domain.accepts_mission ainext_gen_c.Label.Domain.lists_ignoring_case
    ainext_gen_c.Label.Error.label_error_text ainext_gen_c.Label.Policy.new_policy
    ainext_gen_c.Label.Policy.with_allowed_classifications ainext_gen_c.Label.Policy.with_oid
    ainext_gen_c.Policy.Context.from_label ainext_gen_c.Policy.Context.holds_caveat
    ainext_gen_c.Policy.Downgrade.cap_classification
    ainext_gen_c.Policy.Downgrade.downgraded_label_for_target
    ainext_gen_c.Policy.Downgrade.effective_label ainext_gen_c.Policy.Downgrade.intersect_categories
    ainext_gen_c.Policy.Downgrade.intersect_category ainext_gen_c.Policy.Downgrade.keeps_category
    ainext_gen_c.Policy.Error.from_label_error ainext_gen_c.Policy.Pdp.access_in_domain
    ainext_gen_c.Policy.Pdp.check_countries ainext_gen_c.Policy.Pdp.check_handling_caveats
    ainext_gen_c.Policy.Pdp.check_levels ainext_gen_c.Policy.Pdp.check_mission_compartment
    ainext_gen_c.Policy.Pdp.check_nationality ainext_gen_c.Policy.Pdp.check_target_mission
    ainext_gen_c.Policy.Pdp.evaluate_cross_domain ainext_gen_c.Policy.Pdp.operation_name
    ainext_gen_c.Policy.Pdp.release_decision ainext_gen_c.Policy.Pdp.resolve_mission_id
    ainext_gen_c.Policy.Pdp.transfer_between access_record
    ainext_gen_c.Policy.Pep.effect_to_decision ainext_gen_c.Policy.Pep.record_audit
    ainext_gen_c.Policy.Pep.refuse_denial ainext_gen_c.Policy.Store.get_domain
    ainext_gen_c.Policy.Store.is_for_pair ainext_gen_c.Policy.Store.policy_for_pair
access_enforced = refl

read_not_transfer : read ≢ cross_domain_transfer
read_not_transfer e = cc

high_known : domain two_domains (text "HIGH") ≡ some high
unfolding domain ainext_gen_c.Base.text_eq text
high_known = refl

enforce_access-AccessAllowed_example :
    (c : PolicyContext) × (access_context analyst secret_label read high ≡ ok c)
    × AccessAllowed c high
    × (permitted.effective_label ≡ some secret_label)
enforce_access-AccessAllowed_example =
    enforce_access-AccessAllowed backend memory_sink guarded stamp analyst secret_label read high
      permitted read_not_transfer high_known access_enforced

-- ===== src/Tests/Secured.antt =====
-- The secured broker on a concrete instance and store.
use ainext_gen_c.Base.{ℕ, ◌≡◌, refl, true, false, some, [], ◌∷◌, Text, text, ok}
use ainext_gen_c.Audit.Log.{memory_sink}
use ainext_gen_c.Policy.Context.{read, write, delete}
use ainext_gen_c.Policy.Store.{domain}
use ainext_gen_c.Runtime.Instance.{MimInstance}
use ainext_gen_c.Transport.Broker.{get_by_oid, put_object, delete_object}
use ainext_gen_c.Transport.Secured.{
  SecuredExchangeBroker, get_by_oid_as, put_object_as, delete_object_as,
}
use ainext_gen_c.Transport.Gated.{Accessed, get_by_oid_as-Accessed, delete_object_as-Accessed}
use ainext_gen_c.Tests.Data.{high, two_domains, analyst, backend, stamp}
use ainext_gen_c.Tests.Enforcement.{guarded}
use ainext_gen_c.Tests.Transport.{texts_only, target, with_target}

-- tables in which no character outside ASCII has an upper-case form
abbrev pub unchanged : ℕ → Text
unchanged c = c ∷ []

abbrev pub secured : SecuredExchangeBroker texts_only memory_sink
secured = record { inner = with_target; pep = guarded; subject = analyst; domain = high }

pub high_registered : domain two_domains (text "HIGH") ≡ some high
unfolding ainext_gen_c.Policy.Store.domain ainext_gen_c.Base.text_eq ainext_gen_c.Base.text
high_registered = refl

read_run :
    (get_by_oid_as texts_only backend memory_sink unchanged secured stamp analyst (text "urn:1")).1
    ≡ ok target
unfolding ainext_gen_c.Policy.Pep.enforce_access ainext_gen_c.Policy.Pep.pep_evaluate_access
    ainext_gen_c.Policy.Pep.recorded ainext_gen_c.Policy.Pip.access_context
    ainext_gen_c.Label.Confidentiality.validate ainext_gen_c.Label.Confidentiality.with_category
    ainext_gen_c.Label.Confidentiality.new_label ainext_gen_c.Label.Policy.nato
    ainext_gen_c.Base.text ainext_gen_c.Label.Policy.allows_classification ainext_gen_c.Base.any
    ainext_gen_c.Label.Confidentiality.releasable_to ainext_gen_c.Policy.Pdp.evaluate
    ainext_gen_c.Policy.Context.local ainext_gen_c.Policy.Pdp.evaluate_access
    ainext_gen_c.Policy.Pdp.require_domain ainext_gen_c.Policy.Store.domain
    ainext_gen_c.Audit.Chain.audit_label ainext_gen_c.Audit.Chain.hash_record
    ainext_gen_c.Audit.Chain.seal ainext_gen_c.Audit.Chain.sign ainext_gen_c.Audit.Log.append_made
    ainext_gen_c.Audit.Log.make_envelope ainext_gen_c.Audit.Log.push_envelope
    ainext_gen_c.Audit.Log.record_event ainext_gen_c.Audit.Record.new_record
    ainext_gen_c.Audit.Record.with_domains ainext_gen_c.Audit.Record.with_effective_label
    ainext_gen_c.Base.find ainext_gen_c.Base.retain ainext_gen_c.Base.ascii_upper
    ainext_gen_c.Base.eq_ignore_ascii_case ainext_gen_c.Base.text_eq
    ainext_gen_c.Base.to_ascii_uppercase ainext_gen_c.Base.as_bytes ainext_gen_c.Base.encode_char
    ainext_gen_c.Crypto.Provider.binding_message ainext_gen_c.Crypto.Provider.nmbs_algorithm
    ainext_gen_c.Crypto.Provider.sha256_base64 ainext_gen_c.Crypto.Provider.sign_nmb_binding
    ainext_gen_c.Label.Classification.as_stanag_str
    ainext_gen_c.Label.Confidentiality.is_releasability
    ainext_gen_c.Label.Confidentiality.releasable_countries
    ainext_gen_c.Label.Confidentiality.restrictive_category_values
    ainext_gen_c.Label.Confidentiality.validate_categories
    ainext_gen_c.Label.Confidentiality.values_of ainext_gen_c.Label.Domain.accepts_country
    ainext_gen_c.Label.Domain.accepts_mission ainext_gen_c.Label.Domain.lists_ignoring_case
    ainext_gen_c.Label.Error.label_error_text ainext_gen_c.Label.Policy.new_policy
    ainext_gen_c.Label.Policy.with_allowed_classifications ainext_gen_c.Label.Policy.with_oid
    ainext_gen_c.Policy.Context.from_label ainext_gen_c.Policy.Context.holds_caveat
    ainext_gen_c.Policy.Downgrade.cap_classification
    ainext_gen_c.Policy.Downgrade.downgraded_label_for_target
    ainext_gen_c.Policy.Downgrade.effective_label ainext_gen_c.Policy.Downgrade.intersect_categories
    ainext_gen_c.Policy.Downgrade.intersect_category ainext_gen_c.Policy.Downgrade.keeps_category
    ainext_gen_c.Policy.Error.from_label_error ainext_gen_c.Policy.Pdp.access_in_domain
    ainext_gen_c.Policy.Pdp.check_countries ainext_gen_c.Policy.Pdp.check_handling_caveats
    ainext_gen_c.Policy.Pdp.check_levels ainext_gen_c.Policy.Pdp.check_mission_compartment
    ainext_gen_c.Policy.Pdp.check_nationality ainext_gen_c.Policy.Pdp.check_target_mission
    ainext_gen_c.Policy.Pdp.evaluate_cross_domain ainext_gen_c.Policy.Pdp.operation_name
    ainext_gen_c.Policy.Pdp.release_decision ainext_gen_c.Policy.Pdp.resolve_mission_id
    ainext_gen_c.Policy.Pdp.transfer_between ainext_gen_c.Policy.Pep.access_record
    ainext_gen_c.Policy.Pep.effect_to_decision ainext_gen_c.Policy.Pep.record_audit
    ainext_gen_c.Policy.Pep.refuse_denial ainext_gen_c.Policy.Store.get_domain
    ainext_gen_c.Policy.Store.is_for_pair ainext_gen_c.Policy.Store.policy_for_pair
    ainext_gen_c.Transport.Broker.get_by_oid ainext_gen_c.Base.member ainext_gen_c.Base.get
    ainext_gen_c.Transport.Secured.instance_label ainext_gen_c.Policy.Pip.label_from_security
    ainext_gen_c.Transport.Secured.get_by_oid_as
read_run = refl

get_by_oid_as-Accessed_example :
    (get_by_oid texts_only with_target (text "urn:1") ≡ ok target)
    × Accessed texts_only backend memory_sink unchanged secured analyst target read
get_by_oid_as-Accessed_example =
    get_by_oid_as-Accessed texts_only backend memory_sink unchanged secured stamp analyst
      high_registered (text "urn:1") target read_run

delete_run :
    (delete_object_as texts_only backend memory_sink unchanged secured stamp analyst
      (text "urn:1")).1
    ≡ ok (record { oid = text "urn:1"; deleted = true })
unfolding ainext_gen_c.Policy.Pep.enforce_access ainext_gen_c.Policy.Pep.pep_evaluate_access
    ainext_gen_c.Policy.Pep.recorded ainext_gen_c.Policy.Pip.access_context
    ainext_gen_c.Label.Confidentiality.validate ainext_gen_c.Label.Confidentiality.with_category
    ainext_gen_c.Label.Confidentiality.new_label ainext_gen_c.Label.Policy.nato
    ainext_gen_c.Base.text ainext_gen_c.Label.Policy.allows_classification ainext_gen_c.Base.any
    ainext_gen_c.Label.Confidentiality.releasable_to ainext_gen_c.Policy.Pdp.evaluate
    ainext_gen_c.Policy.Context.local ainext_gen_c.Policy.Pdp.evaluate_access
    ainext_gen_c.Policy.Pdp.require_domain ainext_gen_c.Policy.Store.domain
    ainext_gen_c.Audit.Chain.audit_label ainext_gen_c.Audit.Chain.hash_record
    ainext_gen_c.Audit.Chain.seal ainext_gen_c.Audit.Chain.sign ainext_gen_c.Audit.Log.append_made
    ainext_gen_c.Audit.Log.make_envelope ainext_gen_c.Audit.Log.push_envelope
    ainext_gen_c.Audit.Log.record_event ainext_gen_c.Audit.Record.new_record
    ainext_gen_c.Audit.Record.with_domains ainext_gen_c.Audit.Record.with_effective_label
    ainext_gen_c.Base.find ainext_gen_c.Base.retain ainext_gen_c.Base.ascii_upper
    ainext_gen_c.Base.eq_ignore_ascii_case ainext_gen_c.Base.text_eq
    ainext_gen_c.Base.to_ascii_uppercase ainext_gen_c.Base.as_bytes ainext_gen_c.Base.encode_char
    ainext_gen_c.Crypto.Provider.binding_message ainext_gen_c.Crypto.Provider.nmbs_algorithm
    ainext_gen_c.Crypto.Provider.sha256_base64 ainext_gen_c.Crypto.Provider.sign_nmb_binding
    ainext_gen_c.Label.Classification.as_stanag_str
    ainext_gen_c.Label.Confidentiality.is_releasability
    ainext_gen_c.Label.Confidentiality.releasable_countries
    ainext_gen_c.Label.Confidentiality.restrictive_category_values
    ainext_gen_c.Label.Confidentiality.validate_categories
    ainext_gen_c.Label.Confidentiality.values_of ainext_gen_c.Label.Domain.accepts_country
    ainext_gen_c.Label.Domain.accepts_mission ainext_gen_c.Label.Domain.lists_ignoring_case
    ainext_gen_c.Label.Error.label_error_text ainext_gen_c.Label.Policy.new_policy
    ainext_gen_c.Label.Policy.with_allowed_classifications ainext_gen_c.Label.Policy.with_oid
    ainext_gen_c.Policy.Context.from_label ainext_gen_c.Policy.Context.holds_caveat
    ainext_gen_c.Policy.Downgrade.cap_classification
    ainext_gen_c.Policy.Downgrade.downgraded_label_for_target
    ainext_gen_c.Policy.Downgrade.effective_label ainext_gen_c.Policy.Downgrade.intersect_categories
    ainext_gen_c.Policy.Downgrade.intersect_category ainext_gen_c.Policy.Downgrade.keeps_category
    ainext_gen_c.Policy.Error.from_label_error ainext_gen_c.Policy.Pdp.access_in_domain
    ainext_gen_c.Policy.Pdp.check_countries ainext_gen_c.Policy.Pdp.check_handling_caveats
    ainext_gen_c.Policy.Pdp.check_levels ainext_gen_c.Policy.Pdp.check_mission_compartment
    ainext_gen_c.Policy.Pdp.check_nationality ainext_gen_c.Policy.Pdp.check_target_mission
    ainext_gen_c.Policy.Pdp.evaluate_cross_domain ainext_gen_c.Policy.Pdp.operation_name
    ainext_gen_c.Policy.Pdp.release_decision ainext_gen_c.Policy.Pdp.resolve_mission_id
    ainext_gen_c.Policy.Pdp.transfer_between ainext_gen_c.Policy.Pep.access_record
    ainext_gen_c.Policy.Pep.effect_to_decision ainext_gen_c.Policy.Pep.record_audit
    ainext_gen_c.Policy.Pep.refuse_denial ainext_gen_c.Policy.Store.get_domain
    ainext_gen_c.Policy.Store.is_for_pair ainext_gen_c.Policy.Store.policy_for_pair
    ainext_gen_c.Transport.Broker.get_by_oid ainext_gen_c.Base.member ainext_gen_c.Base.get
    ainext_gen_c.Transport.Secured.instance_label ainext_gen_c.Policy.Pip.label_from_security
    ainext_gen_c.Transport.Secured.delete_object_as ainext_gen_c.Transport.Secured.change_inner
    ainext_gen_c.Transport.Broker.delete_object ainext_gen_c.Transport.Broker.mark_inactive
    ainext_gen_c.Base.contains_key ainext_gen_c.Base.set_insert
delete_run = refl

delete_object_as-Accessed_example :
    (i : MimInstance texts_only) × (get_by_oid texts_only with_target (text "urn:1") ≡ ok i)
    × Accessed texts_only backend memory_sink unchanged secured analyst i delete
    × (delete_object texts_only with_target (text "urn:1")
        ≡ ok (
          (delete_object_as texts_only backend memory_sink unchanged secured stamp analyst
              (text "urn:1")).0.inner,
          record { oid = text "urn:1"; deleted = true },
        ))
delete_object_as-Accessed_example =
    delete_object_as-Accessed texts_only backend memory_sink unchanged secured stamp analyst
      high_registered (text "urn:1") (record { oid = text "urn:1"; deleted = true }) delete_run

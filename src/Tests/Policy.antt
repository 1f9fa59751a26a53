-- ===== src/Tests/Policy.antt =====
-- The decision point on concrete transfers and accesses.
use ainext_gen_c.Base.{
  ◌≡◌, ◌≢◌, ◌↔◌, refl, inl, inr, none, some, true, false, [], ◌∷◌, Text, text, ok, err, arith, All,
  if◌then◌else◌,
}
use ainext_gen_c.Label.Classification.{restricted, secret}
use ainext_gen_c.Label.Domain.{accepts_country}
use ainext_gen_c.Label.Policy.{allows_classification}
use ainext_gen_c.Label.Confidentiality.{validate, releasable_countries}
use ainext_gen_c.Policy.Context.{
  PolicyContext, from_label, read, cross_domain_transfer, cross_domain,
}
use ainext_gen_c.Policy.Store.{PolicyStore, domain, policy_for_pair}
use ainext_gen_c.Policy.Flag.{set_flags, evaluate-ignores_allow_downgrade}
use ainext_gen_c.Policy.Pip.{cross_domain_context}
use ainext_gen_c.Policy.Downgrade.{default_config, cap_classification, downgraded_label_for_target}
use ainext_gen_c.Policy.Pdp.{PolicyDecision, deny, downgrade, evaluate}
use ainext_gen_c.Policy.Access.{AccessAllowed, Permits, evaluate-Permits_iff}
use ainext_gen_c.Policy.Transfer.{TransferAllowed, Released}
use ainext_gen_c.Policy.Release.{Registered, evaluate-Released, evaluate_releases}
use ainext_gen_c.Tests.Data.{high, low, high_to_low, two_domains, analyst, secret_label}

abbrev transfer : PolicyContext
transfer = record {
  subject = analyst;
  resource = record {
    classification = secret;
    releasable_countries = text "USA" ∷ text "GBR" ∷ [];
    policy_id = text "NATO";
    handling_caveats = [];
  };
  environment = record {
    operation = cross_domain_transfer;
    source_domain = text "HIGH";
    target_domain = some (text "LOW");
    mission_id = none;
  };
  label = secret_label;
}

abbrev downgraded : PolicyDecision
downgraded = record {
  effect = downgrade;
  reason =
      text
        "classification SECRET exceeds target domain max RESTRICTED; downgrading to RESTRICTED with category intersection";
  effective_label = some (record secret_label { classification = restricted });
}

transfer_built : cross_domain_context analyst secret_label high low none ≡ ok transfer
unfolding cross_domain_context ainext_gen_c.Label.Confidentiality.validate
    ainext_gen_c.Label.Confidentiality.with_category ainext_gen_c.Label.Confidentiality.new_label
    ainext_gen_c.Label.Policy.nato text ainext_gen_c.Label.Policy.allows_classification
    ainext_gen_c.Base.any ainext_gen_c.Label.Confidentiality.releasable_to ainext_gen_c.Base.text_eq
    from_label cross_domain ainext_gen_c.Label.Confidentiality.releasable_countries
    ainext_gen_c.Label.Confidentiality.restrictive_category_values
    ainext_gen_c.Base.eq_ignore_ascii_case
transfer_built = refl

transfer_evaluated : evaluate two_domains transfer ≡ ok downgraded
unfolding evaluate ainext_gen_c.Policy.Pdp.evaluate_cross_domain
    ainext_gen_c.Policy.Store.policy_for_pair ainext_gen_c.Base.find ainext_gen_c.Base.text_eq text
    ainext_gen_c.Policy.Pdp.require_domain domain ainext_gen_c.Policy.Pdp.transfer_between
    ainext_gen_c.Policy.Pdp.check_handling_caveats ainext_gen_c.Policy.Pdp.check_mission_compartment
    ainext_gen_c.Policy.Pdp.resolve_mission_id ainext_gen_c.Policy.Pdp.check_countries
    ainext_gen_c.Label.Domain.accepts_country ainext_gen_c.Label.Domain.lists_ignoring_case
    ainext_gen_c.Base.any ainext_gen_c.Base.eq_ignore_ascii_case ainext_gen_c.Base.retain
    ainext_gen_c.Base.ascii_upper ainext_gen_c.Base.to_ascii_uppercase
    ainext_gen_c.Label.Classification.as_stanag_str
    ainext_gen_c.Label.Confidentiality.is_releasability ainext_gen_c.Label.Confidentiality.validate
    ainext_gen_c.Label.Confidentiality.validate_categories ainext_gen_c.Label.Domain.accepts_mission
    ainext_gen_c.Label.Error.label_error_text ainext_gen_c.Label.Policy.allows_classification
    ainext_gen_c.Policy.Context.holds_caveat cap_classification
    ainext_gen_c.Policy.Downgrade.downgraded_label_for_target
    ainext_gen_c.Policy.Downgrade.effective_label ainext_gen_c.Policy.Downgrade.intersect_categories
    ainext_gen_c.Policy.Downgrade.intersect_category ainext_gen_c.Policy.Downgrade.keeps_category
    ainext_gen_c.Policy.Error.from_label_error ainext_gen_c.Policy.Pdp.access_in_domain
    ainext_gen_c.Policy.Pdp.check_levels ainext_gen_c.Policy.Pdp.check_nationality
    ainext_gen_c.Policy.Pdp.check_target_mission ainext_gen_c.Policy.Pdp.evaluate_access
    ainext_gen_c.Policy.Pdp.operation_name ainext_gen_c.Policy.Pdp.release_decision
    ainext_gen_c.Policy.Store.get_domain ainext_gen_c.Policy.Store.is_for_pair
    ainext_gen_c.Label.Confidentiality.with_category ainext_gen_c.Label.Confidentiality.new_label
    ainext_gen_c.Label.Policy.nato ainext_gen_c.Label.Confidentiality.releasable_to
transfer_evaluated = refl

downgrade_not_deny : downgrade ≢ deny
downgrade_not_deny e = cc

evaluate-Released_example :
    (r : Registered two_domains (text "HIGH") (text "LOW")) × TransferAllowed transfer r.source
      r.target
    × Released transfer r.target downgraded
    × (transfer.label ≡ secret_label)
evaluate-Released_example =
    evaluate-Released two_domains analyst secret_label high low none transfer downgraded
      transfer_built transfer_evaluated downgrade_not_deny

transfer_rule : policy_for_pair two_domains (text "HIGH") (text "LOW") ≡ some high_to_low
unfolding policy_for_pair ainext_gen_c.Base.find ainext_gen_c.Base.text_eq text
transfer_rule = refl

high_known : domain two_domains (text "HIGH") ≡ some high
unfolding domain ainext_gen_c.Base.text_eq text
high_known = refl

low_known : domain two_domains (text "LOW") ≡ some low
unfolding domain ainext_gen_c.Base.text_eq text
low_known = refl

abbrev transfer_registered : Registered two_domains (text "HIGH") (text "LOW")
transfer_registered = record {
  rule = high_to_low;
  rule_found = transfer_rule;
  source = high;
  source_found = high_known;
  target = low;
  target_found = low_known;
}

low_accepts : All (λ v. accepts_country low v ≡ true) (text "USA" ∷ text "GBR" ∷ [])
unfolding accepts_country ainext_gen_c.Label.Domain.lists_ignoring_case ainext_gen_c.Base.any
    ainext_gen_c.Base.eq_ignore_ascii_case text
low_accepts = (refl, (refl, tt))

transfer_allowed : TransferAllowed transfer high low
transfer_allowed = record { caveats = tt; mission = inl refl; countries = low_accepts }

nato_lists_restricted : allows_classification secret_label.policy restricted ≡ true
unfolding allows_classification ainext_gen_c.Base.any
    ainext_gen_c.Label.Confidentiality.with_category ainext_gen_c.Label.Confidentiality.new_label
    ainext_gen_c.Label.Policy.nato
nato_lists_restricted = refl

evaluate_releases_example :
    (x : PolicyDecision) × (evaluate two_domains transfer ≡ ok x) × Released transfer low x
evaluate_releases_example =
    evaluate_releases two_domains analyst secret_label high low none transfer transfer_built
      transfer_registered transfer_allowed (inr (omega arith, nato_lists_restricted))

abbrev reading : PolicyContext
reading = record transfer {
  environment = record {
    operation = read;
    source_domain = text "HIGH";
    target_domain = none;
    mission_id = none;
  };
}

read_not_transfer : read ≢ cross_domain_transfer
read_not_transfer e = cc

evaluate-Permits_iff_example :
    Permits (evaluate two_domains reading) secret_label ↔ AccessAllowed reading high
evaluate-Permits_iff_example =
    evaluate-Permits_iff two_domains reading high read_not_transfer high_known

abbrev without_downgrade : PolicyStore
without_downgrade = set_flags false two_domains

evaluate-ignores_allow_downgrade_example :
    evaluate without_downgrade transfer ≡ evaluate two_domains transfer
evaluate-ignores_allow_downgrade_example =
    evaluate-ignores_allow_downgrade false two_domains transfer

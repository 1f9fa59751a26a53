-- ===== src/Tests/Admin.antt =====
-- The administration of a concrete store.
use ainext_gen_c.Base.{
  ◌≡◌, ◌≢◌, refl, false, true, List, [], ◌∷◌, ◌++◌, Text, text, text_eq, ok, All, some, is_empty,
  if◌then◌else◌,
}
use ainext_gen_c.Label.Domain.{SecurityDomain}
use ainext_gen_c.Policy.Store.{
  CrossDomainPolicy, PolicyStore, domain, insert_domain, insert_cross_domain_policy,
  remove_cross_domain_policy,
}
use ainext_gen_c.Policy.Admin.{
  IsConnected, IsValidStore, insert_domain-IsValidStore, insert_cross_domain_policy-IsValidStore,
}
use ainext_gen_c.Policy.Removal.{remove_cross_domain_policy-IsValidStore}
use ainext_gen_c.Tests.Data.{high, low, high_to_low, two_domains}

high_to_low-IsConnected : IsConnected two_domains.domains high_to_low
unfolding ainext_gen_c.Policy.Store.get_domain text_eq text
high_to_low-IsConnected = record {
  source = high;
  source_found = refl;
  target = low;
  target_found = refl;
}

high_to_low_named : is_empty high_to_low.id ≡ false
unfolding text
high_to_low_named = refl

two_domains_valid : IsValidStore two_domains
two_domains_valid = record {
  keyed = (refl, (refl, tt));
  connected = (high_to_low-IsConnected, tt);
  distinct = (tt, tt);
  named = (high_to_low_named, tt);
}

abbrev renamed : SecurityDomain
renamed = record low { name = text "Low Side, renamed" }

abbrev with_renamed : PolicyStore
with_renamed = record two_domains { domains = (text "HIGH", high) ∷ (text "LOW", renamed) ∷ [] }

insert_domain_run : insert_domain two_domains renamed ≡ ok with_renamed
unfolding insert_domain ainext_gen_c.Label.Domain.validate_id text
    ainext_gen_c.Policy.Store.put_domain text_eq
insert_domain_run = refl

insert_domain-IsValidStore_example :
    IsValidStore with_renamed
    × (domain with_renamed (text "LOW") ≡ (
        if text_eq (text "LOW") (text "LOW")
        then some renamed
        else domain two_domains (text "LOW")))
insert_domain-IsValidStore_example =
    insert_domain-IsValidStore two_domains with_renamed renamed (text "LOW") two_domains_valid
      insert_domain_run

abbrev low_to_high : CrossDomainPolicy
low_to_high = record high_to_low {
  id = text "low-to-high";
  source_domain = text "LOW";
  target_domain = text "HIGH";
}

abbrev two_rules : PolicyStore
two_rules = record two_domains { cross_domain_policies = high_to_low ∷ low_to_high ∷ [] }

insert_cross_domain_policy_run : insert_cross_domain_policy two_domains low_to_high ≡ ok two_rules
unfolding insert_cross_domain_policy text domain text_eq ainext_gen_c.Base.any
insert_cross_domain_policy_run = refl

insert_cross_domain_policy-IsValidStore_example :
    IsValidStore two_rules
    × (two_rules.cross_domain_policies ≡ two_domains.cross_domain_policies ++ low_to_high ∷ [])
    × IsConnected two_rules.domains low_to_high
insert_cross_domain_policy-IsValidStore_example =
    insert_cross_domain_policy-IsValidStore two_domains two_rules low_to_high two_domains_valid
      insert_cross_domain_policy_run

two_rules_valid : IsValidStore two_rules
two_rules_valid =
    (insert_cross_domain_policy-IsValidStore two_domains two_rules low_to_high two_domains_valid
      insert_cross_domain_policy_run).0

abbrev reversed_only : PolicyStore
reversed_only = record two_domains { cross_domain_policies = low_to_high ∷ [] }

remove_cross_domain_policy_run :
    remove_cross_domain_policy two_rules (text "high-to-low") ≡ ok (reversed_only, high_to_low)
unfolding remove_cross_domain_policy text_eq text
remove_cross_domain_policy_run = refl

remove_cross_domain_policy-IsValidStore_example :
    IsValidStore reversed_only
    × (reversed_only.domains ≡ two_rules.domains)
    × ((before after : List CrossDomainPolicy) × (two_rules.cross_domain_policies
          ≡ before ++ high_to_low ∷ after)
        × (reversed_only.cross_domain_policies ≡ before ++ after))
    × (high_to_low.id ≡ text "high-to-low")
    × All (λ (q : CrossDomainPolicy). q.id ≢ text "high-to-low") reversed_only.cross_domain_policies
remove_cross_domain_policy-IsValidStore_example =
    remove_cross_domain_policy-IsValidStore two_rules reversed_only high_to_low (text "high-to-low")
      two_rules_valid remove_cross_domain_policy_run

-- ===== src/Policy/Store.antt =====
-- crates/mim-policy/src/store.rs and pap.rs: the policy retrieval point. An operation on
-- `&mut self` returns the new store, or the error and leaves the store as it was.
use ainext_gen_c.Base.{
  Bool, true, ◌&&◌, List, [], ◌∷◌, ◌++◌, Option, none, some, Text, text, text_eq, is_empty, any,
  find, ok, err, ◌>>=◌, ◌>>◌, fail_if, ok_or, map_err, if◌then◌else◌,
}
use ainext_gen_c.Label.Classification.{restricted, secret}
use ainext_gen_c.Label.Domain.{
  DomainId, SecurityDomain, new_domain, with_releasable_to, validate_id,
}
use ainext_gen_c.Policy.Error.{PolicyResult, not_found, invalid, from_label_error}
use ainext_gen_c.Policy.Downgrade.{DowngradeConfig, default_config}
use ainext_gen_c.Policy.Spif.{SpifPolicy}

pub record CrossDomainPolicy : Type 0 where
  pub id : Text
  pub description : Text
  pub source_domain : DomainId
  pub target_domain : DomainId
  pub allow_downgrade : Bool

-- `CrossDomainPolicy::new`
unfoldable pub new_cross_domain_policy : Text → DomainId → DomainId → CrossDomainPolicy
new_cross_domain_policy id source target = record {
  id = id;
  description = [];
  source_domain = source;
  target_domain = target;
  allow_downgrade = true;
}

unfoldable pub with_description : CrossDomainPolicy → Text → CrossDomainPolicy
with_description p description = record p { description = description }

-- `IndexMap<String, SecurityDomain>`: the entries in insertion order
abbrev pub Domains : Type 0
Domains = List (Text × SecurityDomain)

-- `IndexMap::get`
unfoldable pub get_domain : Text → Domains → Option SecurityDomain
get_domain k [] = none
get_domain k ((j, d) ∷ rest) = if text_eq j k then some d else get_domain k rest

-- `IndexMap::insert`: a known key keeps its place
unfoldable pub put_domain : Text → SecurityDomain → Domains → Domains
put_domain k d [] = (k, d) ∷ []
put_domain k d ((j, e) ∷ rest) = if text_eq j k then (j, d) ∷ rest else (j, e) ∷ put_domain k d rest

pub record PolicyStore : Type 0 where
  pub domains : Domains
  pub cross_domain_policies : List CrossDomainPolicy
  pub spif_policies : List SpifPolicy
  pub downgrade : DowngradeConfig

-- `PolicyStore::new`
unfoldable pub new_store : PolicyStore
new_store = record {
  domains = [];
  cross_domain_policies = [];
  spif_policies = [];
  downgrade = default_config;
}

unfoldable pub domain : PolicyStore → DomainId → Option SecurityDomain
unfolding get_domain
domain s id = get_domain id s.domains

unfoldable pub with_downgrade_config : PolicyStore → DowngradeConfig → PolicyStore
with_downgrade_config s config = record s { downgrade = config }

-- `policy.source_domain == *source && policy.target_domain == *target`
unfoldable pub is_for_pair : DomainId → DomainId → CrossDomainPolicy → Bool
is_for_pair source target p = text_eq p.source_domain source && text_eq p.target_domain target

unfoldable pub policy_for_pair : PolicyStore → DomainId → DomainId → Option CrossDomainPolicy
unfolding is_for_pair
policy_for_pair s source target = find (is_for_pair source target) s.cross_domain_policies

unfoldable pub insert_domain : PolicyStore → SecurityDomain → PolicyResult PolicyStore
insert_domain s d = do
  map_err from_label_error (validate_id d.id)
  ok (record s { domains = put_domain d.id d s.domains })

-- `Option::is_none`
abbrev pub is_none {ℓ} : {A : Type ℓ} → Option A → Bool
is_none none = true
is_none (some a) = Bool.false

unfoldable pub insert_cross_domain_policy :
    PolicyStore → CrossDomainPolicy → PolicyResult PolicyStore
insert_cross_domain_policy s p = do
  fail_if (is_empty p.id) (invalid (text "policy id must not be empty"))
  fail_if (is_none (domain s p.source_domain))
      (not_found (text "source domain '" ++ (p.source_domain ++ text "' not registered")))
  fail_if (is_none (domain s p.target_domain))
      (not_found (text "target domain '" ++ (p.target_domain ++ text "' not registered")))
  fail_if (any (λ q. text_eq q.id p.id) s.cross_domain_policies)
      (invalid (text "policy '" ++ (p.id ++ text "' already exists")))
  ok (record s { cross_domain_policies = s.cross_domain_policies ++ p ∷ [] })

-- `position` and `remove`: the first policy of that id, and the others
unfoldable pub take_policy :
    Text → List CrossDomainPolicy → Option (CrossDomainPolicy × List CrossDomainPolicy)
take_policy id [] = none
take_policy id (p ∷ rest) =
    let later = take_policy id rest in
    if text_eq p.id id
    then some (p, rest)
    else elim later [ none ↦ none | some (q, others) ↦ some (q, p ∷ others) ]

unfoldable pub remove_cross_domain_policy :
    PolicyStore → Text → PolicyResult (PolicyStore × CrossDomainPolicy)
unfolding take_policy
remove_cross_domain_policy s id = do
  (p, others) ←
      ok_or (take_policy id s.cross_domain_policies)
        (not_found (text "policy '" ++ (id ++ text "' not found")))
  ok (record s { cross_domain_policies = others }, p)

unfoldable pub register_spif_policy : PolicyStore → SpifPolicy → PolicyResult PolicyStore
register_spif_policy s p = do
  fail_if (any (λ q. text_eq q.policy_id p.policy_id) s.spif_policies)
      (invalid (text "SPIF policy '" ++ (p.policy_id ++ text "' already registered")))
  ok (record s { spif_policies = s.spif_policies ++ p ∷ [] })

-- `let _ = store.operation(...)`: an error leaves the store as it was
abbrev pub or_keep : PolicyStore → PolicyResult PolicyStore → PolicyStore
or_keep s (ok t) = t
or_keep s (err e) = s

-- `PolicyStore::preset_high_to_low`
unfoldable pub preset_high_to_low : PolicyStore
preset_high_to_low =
    let high =
      with_releasable_to (new_domain (text "DOMAIN-HIGH") (text "High Side") secret)
        (text "USA" ∷ text "GBR" ∷ text "DEU" ∷ []) in
    let low =
      with_releasable_to (new_domain (text "DOMAIN-LOW") (text "Low Side") restricted)
        (text "USA" ∷ text "GBR" ∷ []) in
    let s0 = or_keep new_store (insert_domain new_store high) in
    let s1 = or_keep s0 (insert_domain s0 low) in
    or_keep s1 (
      insert_cross_domain_policy s1 (
        with_description
          (new_cross_domain_policy (text "high-to-low") (text "DOMAIN-HIGH") (text "DOMAIN-LOW"))
          (text "High-side to low-side cross-domain guard")))

-- `PolicyStore::preset_coalition`
unfoldable pub preset_coalition : PolicyStore
preset_coalition =
    let core =
      with_releasable_to (new_domain (text "DOMAIN-NATO") (text "NATO Core") secret)
        (text "USA" ∷ text "GBR" ∷ text "DEU" ∷ text "FRA" ∷ []) in
    let partner =
      with_releasable_to (new_domain (text "DOMAIN-PARTNER") (text "Partner Nation") secret)
        (text "USA" ∷ text "GBR" ∷ []) in
    let s0 = or_keep new_store (insert_domain new_store core) in
    let s1 = or_keep s0 (insert_domain s0 partner) in
    or_keep s1 (
      insert_cross_domain_policy s1 (
        new_cross_domain_policy (text "nato-to-partner") (text "DOMAIN-NATO")
          (text "DOMAIN-PARTNER")))

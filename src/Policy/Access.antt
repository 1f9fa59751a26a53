-- ===== src/Policy/Access.antt =====
-- crates/mim-policy/src/pdp.rs: when a local access is permitted.
use ainext_gen_c.Base.{
  ◌≤◌, ◌≡◌, ◌≢◌, ◌↔◌, ◌⊎◌, inl, inr, refl, Option, none, some, true, Text, All, ok, arith, text,
}
use ainext_gen_c.Label.Classification.{rank}
use ainext_gen_c.Label.Domain.{SecurityDomain, accepts_country}
use ainext_gen_c.Label.Confidentiality.{ConfidentialityLabel}
use ainext_gen_c.Policy.Error.{PolicyResult}
use ainext_gen_c.Policy.Context.{cross_domain_transfer, PolicyContext, holds_caveat}
use ainext_gen_c.Policy.Store.{PolicyStore, domain}
use ainext_gen_c.Policy.Pdp.{
  PolicyDecision, permit, deny, deny_decision, or_continue, require_domain, resolve_mission_id,
  access_in_domain, evaluate_access, evaluate,
}
use ainext_gen_c.Policy.Checks.{
  OnlyDenies, or_continue_passed, or_continue_cases, check_handling_caveats-OnlyDenies,
  check_handling_caveats_iff, check_countries-OnlyDenies, check_countries_iff,
  check_levels-OnlyDenies, check_levels_iff, MissionAllowed, check_mission_compartment-OnlyDenies,
  check_mission_compartment_iff, NationalityAllowed, check_nationality-OnlyDenies,
  check_nationality_iff,
}

-- What a local access to a resource in the domain `d` needs, said without the tests' order.
pub record AccessAllowed (c : PolicyContext) (d : SecurityDomain) : Type 0 where
  pub caveats : All (λ v. holds_caveat c.subject v ≡ true) c.resource.handling_caveats
  pub mission : MissionAllowed (resolve_mission_id c.subject c.environment) d none
  pub clearance : rank c.resource.classification ≤ rank c.subject.clearance
  pub ceiling : rank c.resource.classification ≤ rank d.max_classification
  pub nationality : NationalityAllowed c.subject.nationality c.resource.releasable_countries d
  pub countries : All (λ v. accepts_country d v ≡ true) c.resource.releasable_countries

-- The evaluation ends with a permit under this very label.
pub record Permits (r : PolicyResult PolicyDecision) (l : ConfidentialityLabel) : Type 0 where
  pub decision : PolicyDecision
  pub returned : r ≡ ok decision
  pub effect : decision.effect ≡ permit
  pub label : decision.effective_label ≡ some l

module _ (c : PolicyContext) (d : SecurityDomain) where
  pub access_passed :
      (x : PolicyDecision)
      → access_in_domain c d ≡ ok x
      → x.effect ≢ deny
      → AccessAllowed c d × (x.effect ≡ permit) × (x.effective_label ≡ some c.label)
  unfolding access_in_domain
  access_passed x h n =
      let (p1, h1) = or_continue_passed _ _ x (check_handling_caveats-OnlyDenies _ _) n h in
      let (p2, h2) = or_continue_passed _ _ x (check_mission_compartment-OnlyDenies _ _ _) n h1 in
      let (p3, h3) = or_continue_passed _ _ x (check_levels-OnlyDenies _ _ _) n h2 in
      let (p4, h4) = or_continue_passed _ _ x (check_nationality-OnlyDenies _ _ _) n h3 in
      let (p5, h5) = or_continue_passed _ _ x (check_countries-OnlyDenies _ _ _) n h4 in
      (
        record {
          caveats = (check_handling_caveats_iff _ _).0 p1;
          mission = (check_mission_compartment_iff _ _ _).0 p2;
          clearance = ((check_levels_iff _ _ _).0 p3).0;
          ceiling = ((check_levels_iff _ _ _).0 p3).1;
          nationality = (check_nationality_iff _ _ _).0 p4;
          countries = (check_countries_iff _ _ _).0 p5;
        },
        ground arith,
        ground arith,
      )

  access_granted : AccessAllowed c d → Permits (access_in_domain c d) c.label
  unfolding access_in_domain
  access_granted a =
      rw
        (
          (check_handling_caveats_iff c.subject c.resource.handling_caveats).1 a.caveats,
          (check_mission_compartment_iff (resolve_mission_id c.subject c.environment) d none).1
              a.mission,
          (check_levels_iff c.subject c.resource d).1 (a.clearance, a.ceiling),
          (check_nationality_iff c.subject.nationality c.resource.releasable_countries d).1
              a.nationality,
          (check_countries_iff (text " not permitted in domain ") d
                c.resource.releasable_countries).1
              a.countries,
        )
        (record { decision = _; returned = refl; effect = refl; label = refl })

-- a decision of a local access, of one of two kinds
abbrev pub PermitsOrDenies : PolicyContext → PolicyResult PolicyDecision → Type 0
PermitsOrDenies c r = Permits r c.label ⊎ ((reason : Text) × (r ≡ ok (deny_decision reason)))

access_in_domain-total :
    (c : PolicyContext) (d : SecurityDomain) → PermitsOrDenies c (access_in_domain c d)
unfolding access_in_domain
access_in_domain-total c d = behind _ _ (check_handling_caveats-OnlyDenies _ _) (
    behind _ _ (check_mission_compartment-OnlyDenies _ _ _) (
      behind _ _ (check_levels-OnlyDenies _ _ _) (
        behind _ _ (check_nationality-OnlyDenies _ _ _) (
          behind _ _ (check_countries-OnlyDenies _ _ _)
            (inl (record { decision = _; returned = refl; effect = refl; label = refl }))))))
  where
    behind :
        (o : Option PolicyDecision) (rest : PolicyResult PolicyDecision)
        → OnlyDenies o
        → PermitsOrDenies c rest
        → PermitsOrDenies c (or_continue o rest)
    behind o rest d = or_continue_cases (PermitsOrDenies c) o rest d (λ reason. inr (reason, refl))

pub evaluate-local :
    (s : PolicyStore) (c : PolicyContext) (d : SecurityDomain)
    → c.environment.operation ≢ cross_domain_transfer
    → domain s c.environment.source_domain ≡ some d
    → evaluate s c ≡ access_in_domain c d
unfolding evaluate evaluate_access require_domain
evaluate-local s c d local known = ground arith

-- In a registered domain, an access other than a cross-domain transfer is permitted, under the
-- label of the context, exactly when all that `AccessAllowed` lists holds.
pub evaluate-Permits_iff :
    (s : PolicyStore) (c : PolicyContext) (d : SecurityDomain)
    → c.environment.operation ≢ cross_domain_transfer
    → domain s c.environment.source_domain ≡ some d
    → Permits (evaluate s c) c.label ↔ AccessAllowed c d
evaluate-Permits_iff s c d local known =
    rw (evaluate-local s c d local known)
      (λ p. (access_passed c d p.decision p.returned (permit_not_deny p)).0, access_granted c d)
  where
    permit_not_deny : (p : Permits (access_in_domain c d) c.label) → p.decision.effect ≢ deny
    permit_not_deny p e = grind (arith, p.effect, e)

-- In a registered domain, an access other than a cross-domain transfer is permitted or denied: the
-- evaluation returns a decision, it never downgrades, and a denial releases no label.
pub evaluate-local_total :
    (s : PolicyStore) (c : PolicyContext) (d : SecurityDomain)
    → c.environment.operation ≢ cross_domain_transfer
    → domain s c.environment.source_domain ≡ some d
    → PermitsOrDenies c (evaluate s c)
evaluate-local_total s c d local known =
    rw (evaluate-local s c d local known) (access_in_domain-total c d)

-- ===== src/Policy/Pdp.antt =====
-- crates/mim-policy/src/pdp.rs: the policy decision point. It never changes the store.
use ainext_gen_c.Base.{
  Bool, false, not, ◌&&◌, ◌||◌, List, [], ◌∷◌, ◌++◌, Option, none, some, Text, text, text_eq,
  is_empty, any, ok, ◌>>=◌, ok_or, map_err, if◌then◌else◌,
}
use ainext_gen_c.Label.Classification.{unclassified, level_lt, level_le, as_stanag_str}
use ainext_gen_c.Label.Domain.{DomainId, SecurityDomain, accepts_country, accepts_mission}
use ainext_gen_c.Label.Confidentiality.{ConfidentialityLabel}
use ainext_gen_c.Policy.Error.{PolicyResult, not_found, invalid, from_label_error}
use ainext_gen_c.Policy.Context.{
  AccessOperation, read, write, delete, cross_domain_transfer, SubjectAttributes,
  ResourceAttributes, EnvironmentAttributes, PolicyContext, holds_caveat,
}
use ainext_gen_c.Policy.Downgrade.{downgraded_label_for_target}
use ainext_gen_c.Policy.Store.{PolicyStore, domain, policy_for_pair}
use ainext_gen_c.Base.{or_else}

pub data PolicyEffect : Type 0 where
  permit deny downgrade : PolicyEffect

pub record PolicyDecision : Type 0 where
  pub effect : PolicyEffect
  pub reason : Text
  pub effective_label : Option ConfidentialityLabel

-- `PolicyDecision::permit`, `deny` and `downgrade`
abbrev pub permit_decision : Text → ConfidentialityLabel → PolicyDecision
permit_decision reason l = record { effect = permit; reason = reason; effective_label = some l }

abbrev pub deny_decision : Text → PolicyDecision
deny_decision reason = record { effect = deny; reason = reason; effective_label = none }

abbrev pub downgrade_decision : Text → ConfidentialityLabel → PolicyDecision
downgrade_decision reason l = record {
  effect = downgrade;
  reason = reason;
  effective_label = some l;
}

-- `if let Some(deny) = check { return Ok(deny) }`
abbrev pub or_continue {ℓ} : {A : Type ℓ} → Option A → PolicyResult A → PolicyResult A
or_continue (some d) rest = ok d
or_continue none rest = rest

unfoldable pub require_domain : PolicyStore → DomainId → PolicyResult SecurityDomain
require_domain s id =
    ok_or (domain s id) (not_found (text "domain '" ++ (id ++ text "' not registered")))

unfoldable pub check_handling_caveats : SubjectAttributes → List Text → Option PolicyDecision
check_handling_caveats subject [] = none
check_handling_caveats subject (caveat ∷ rest) =
    let later = check_handling_caveats subject rest in
    if not (holds_caveat subject caveat)
    then some (
        deny_decision (
          text "subject "
          ++ (subject.subject_id ++ (text " lacks required handling caveat " ++ caveat))))
    else later

-- `target.map(|domain| !domain.mission_compartments.is_empty()).unwrap_or(false)`
abbrev pub is_compartmented : Option SecurityDomain → Bool
is_compartmented none = false
is_compartmented (some d) = not (is_empty d.mission_compartments)

-- the test on the target at the end of `check_mission_compartment`
unfoldable pub check_target_mission : Text → Option SecurityDomain → Option PolicyDecision
check_target_mission mission_id none = none
check_target_mission mission_id (some target) =
    if not (accepts_mission target mission_id)
    then some (
        deny_decision (
          text "mission "
          ++ (mission_id ++ (text " not authorized in target domain " ++ target.id))))
    else none

unfoldable pub check_mission_compartment :
    Option Text → SecurityDomain → Option SecurityDomain → Option PolicyDecision
unfolding check_target_mission
check_mission_compartment none source target =
    if not (is_compartmented (some source) || is_compartmented target)
    then none
    else some
        (deny_decision (text "mission compartment required for compartmented domain transfer"))
check_mission_compartment (some mission_id) source target =
    if not (is_compartmented (some source) || is_compartmented target)
    then none
    else if not (accepts_mission source mission_id)
    then some (
        deny_decision (
          text "mission "
          ++ (mission_id ++ (text " not authorized in source domain " ++ source.id))))
    else check_target_mission mission_id target

unfoldable pub resolve_mission_id : SubjectAttributes → EnvironmentAttributes → Option Text
resolve_mission_id subject environment = or_else environment.mission_id subject.mission_id

unfoldable pub operation_name : AccessOperation → Text
operation_name read = text "read"
operation_name write = text "write"
operation_name delete = text "delete"
operation_name cross_domain_transfer = text "cross-domain transfer"

-- the tests of `evaluate_access` on the subject's nationality, if it has one
unfoldable pub check_nationality : Option Text → List Text → SecurityDomain → Option PolicyDecision
check_nationality none countries d = none
check_nationality (some nationality) countries d =
    if not (is_empty countries) && not (any (λ country. text_eq country nationality) countries)
    then some (
        deny_decision
          (text "subject nationality " ++ (nationality ++ text " not in resource releasability")))
    else if not (accepts_country d nationality)
    then some (
        deny_decision (
          text "subject nationality "
          ++ (nationality ++ (text " not accepted in domain " ++ d.id))))
    else none

-- the loop over the releasable countries; `place` is the wording of the caller
unfoldable pub check_countries : Text → SecurityDomain → List Text → Option PolicyDecision
check_countries place d [] = none
check_countries place d (country ∷ rest) =
    let later = check_countries place d rest in
    if not (accepts_country d country)
    then some (deny_decision (text "releasability to " ++ (country ++ (place ++ d.id))))
    else later

-- the tests of `evaluate_access` on clearance and on the domain's maximum
unfoldable pub check_levels :
    SubjectAttributes → ResourceAttributes → SecurityDomain → Option PolicyDecision
check_levels subject resource d =
    if level_lt subject.clearance resource.classification
    then some (
        deny_decision (
          text "subject clearance "
          ++ (as_stanag_str subject.clearance
              ++ (text " insufficient for resource classification "
                  ++ as_stanag_str resource.classification))))
    else if level_lt d.max_classification resource.classification
    then some (
        deny_decision (
          text "resource classification "
          ++ (as_stanag_str resource.classification
              ++ (text " exceeds domain max " ++ as_stanag_str d.max_classification))))
    else none

-- `evaluate_access` once the domain is found
unfoldable pub access_in_domain : PolicyContext → SecurityDomain → PolicyResult PolicyDecision
access_in_domain c d = or_continue (check_handling_caveats c.subject c.resource.handling_caveats) (
    or_continue (check_mission_compartment (resolve_mission_id c.subject c.environment) d none) (
      or_continue (check_levels c.subject c.resource d) (
        or_continue (check_nationality c.subject.nationality c.resource.releasable_countries d) (
          or_continue
            (check_countries (text " not permitted in domain ") d c.resource.releasable_countries)
            (ok (
              permit_decision
                (operation_name c.environment.operation
                  ++ (text " permitted for subject "
                      ++ (c.subject.subject_id ++ (text " in domain " ++ d.id))))
                c.label))))))

unfoldable pub evaluate_access : PolicyStore → PolicyContext → PolicyResult PolicyDecision
evaluate_access s c = do d ← require_domain s c.environment.source_domain; access_in_domain c d

-- the end of `evaluate_cross_domain`: downgrade, deny or permit by the classifications
unfoldable pub release_decision :
    PolicyStore → PolicyContext → SecurityDomain → PolicyResult PolicyDecision
release_decision s c target =
    if level_lt target.max_classification c.label.classification
    then if level_le unclassified target.max_classification
      then (do
        downgraded ←
            map_err from_label_error (downgraded_label_for_target c.label target s.downgrade)
        ok (
            downgrade_decision
              (text "classification "
                ++ (as_stanag_str c.label.classification
                    ++ (text " exceeds target domain max "
                        ++ (as_stanag_str target.max_classification
                            ++ (text "; downgrading to "
                                ++ (as_stanag_str downgraded.classification
                                    ++ text " with category intersection"))))))
              downgraded))
      else ok (
          deny_decision (
            text "classification "
            ++ (as_stanag_str c.label.classification
                ++ (text " exceeds target domain max "
                    ++ as_stanag_str target.max_classification))))
    else ok (
        permit_decision
          (text "cross-domain transfer permitted from "
            ++ (c.environment.source_domain ++ (text " to " ++ target.id)))
          c.label)

-- `evaluate_cross_domain` once the rule and both domains are found
unfoldable pub transfer_between :
    PolicyStore → PolicyContext → SecurityDomain → SecurityDomain → PolicyResult PolicyDecision
transfer_between s c source target =
    or_continue (check_handling_caveats c.subject c.resource.handling_caveats) (
      or_continue
        (check_mission_compartment (resolve_mission_id c.subject c.environment) source
          (some target))
        (or_continue
          (check_countries (text " not permitted in target domain ") target
            c.resource.releasable_countries)
          (release_decision s c target)))

unfoldable pub evaluate_cross_domain : PolicyStore → PolicyContext → PolicyResult PolicyDecision
evaluate_cross_domain s c = do
  target_id ←
      ok_or c.environment.target_domain
        (invalid (text "cross-domain evaluation requires target domain"))
  _policy ← ok_or (policy_for_pair s c.environment.source_domain target_id) (
      not_found (
        text "no cross-domain policy for "
        ++ (c.environment.source_domain ++ (text " -> " ++ target_id))))
  source ← require_domain s c.environment.source_domain
  target ← require_domain s target_id
  transfer_between s c source target

-- `PolicyDecisionPoint::evaluate`
unfoldable pub evaluate : PolicyStore → PolicyContext → PolicyResult PolicyDecision
evaluate s c = elim c.environment.operation [
  | cross_domain_transfer ↦ evaluate_cross_domain s c
  | _ ↦ evaluate_access s c
]

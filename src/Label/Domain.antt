-- ===== src/Label/Domain.antt =====
-- crates/mim-labeling/src/domain.rs: a security enclave and what it accepts.
use ainext_gen_c.Base.{
  Bool, not, ◌&&◌, ◌||◌, List, [], Text, text, eq_ignore_ascii_case, is_empty, any, ok, err,
  if◌then◌else◌, false,
}
use ainext_gen_c.Label.Classification.{ClassificationLevel}
use ainext_gen_c.Label.Error.{LabelResult, invalid_domain}

-- `DomainId(String)`
abbrev pub DomainId : Type 0
DomainId = Text

pub record SecurityDomain : Type 0 where
  pub id : DomainId
  pub name : Text
  pub max_classification : ClassificationLevel
  pub releasable_to : List Text
  pub accepted_nationalities : List Text
  pub mission_compartments : List Text

-- `SecurityDomain::new`
unfoldable pub new_domain : Text → Text → ClassificationLevel → SecurityDomain
new_domain id name max_classification = record {
  id = id;
  name = name;
  max_classification = max_classification;
  releasable_to = [];
  accepted_nationalities = [];
  mission_compartments = [];
}

unfoldable pub with_mission_compartments : SecurityDomain → List Text → SecurityDomain
with_mission_compartments d missions = record d { mission_compartments = missions }

unfoldable pub with_accepted_nationalities : SecurityDomain → List Text → SecurityDomain
with_accepted_nationalities d nationalities = record d { accepted_nationalities = nationalities }

unfoldable pub with_releasable_to : SecurityDomain → List Text → SecurityDomain
with_releasable_to d countries = record d { releasable_to = countries }

-- `list.iter().any(|c| c.eq_ignore_ascii_case(name))`
unfoldable pub lists_ignoring_case : List Text → Text → Bool
lists_ignoring_case names name = any (λ c. eq_ignore_ascii_case c name) names

unfoldable pub accepts_mission : SecurityDomain → Text → Bool
accepts_mission d mission_id =
    is_empty d.mission_compartments || lists_ignoring_case d.mission_compartments mission_id

unfoldable pub accepts_country : SecurityDomain → Text → Bool
accepts_country d country =
    if not (is_empty d.accepted_nationalities)
      && not (lists_ignoring_case d.accepted_nationalities country)
    then false
    else is_empty d.releasable_to || lists_ignoring_case d.releasable_to country

unfoldable pub validate_id : Text → LabelResult (Unit {0})
validate_id id =
    if is_empty id then err (invalid_domain (text "domain id must not be empty")) else ok tt

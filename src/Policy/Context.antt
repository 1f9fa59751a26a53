-- ===== src/Policy/Context.antt =====
-- crates/mim-policy/src/context.rs: who asks, for what, where.
use ainext_gen_c.Base.{Bool, List, [], ◌∷◌, ◌++◌, Option, none, some, Text}
use ainext_gen_c.Label.Classification.{ClassificationLevel}
use ainext_gen_c.Label.Domain.{DomainId, lists_ignoring_case}
use ainext_gen_c.Label.Confidentiality.{
  ConfidentialityLabel, releasable_countries, restrictive_category_values,
}

pub data AccessOperation : Type 0 where
  read write delete cross_domain_transfer : AccessOperation

pub record SubjectAttributes : Type 0 where
  pub subject_id : Text
  pub clearance : ClassificationLevel
  pub nationality : Option Text
  pub handling_caveats : List Text
  pub mission_id : Option Text

-- `SubjectAttributes::new`
unfoldable pub new_subject : Text → ClassificationLevel → SubjectAttributes
new_subject subject_id clearance = record {
  subject_id = subject_id;
  clearance = clearance;
  nationality = none;
  handling_caveats = [];
  mission_id = none;
}

unfoldable pub with_nationality : SubjectAttributes → Text → SubjectAttributes
with_nationality s nationality = record s { nationality = some nationality }

unfoldable pub with_handling_caveats : SubjectAttributes → List Text → SubjectAttributes
with_handling_caveats s caveats = record s { handling_caveats = caveats }

unfoldable pub with_handling_caveat : SubjectAttributes → Text → SubjectAttributes
with_handling_caveat s caveat = record s { handling_caveats = s.handling_caveats ++ caveat ∷ [] }

unfoldable pub with_mission_id : SubjectAttributes → Text → SubjectAttributes
with_mission_id s mission_id = record s { mission_id = some mission_id }

unfoldable pub holds_caveat : SubjectAttributes → Text → Bool
holds_caveat s caveat = lists_ignoring_case s.handling_caveats caveat

pub record ResourceAttributes : Type 0 where
  pub classification : ClassificationLevel
  pub releasable_countries : List Text
  pub policy_id : Text
  pub handling_caveats : List Text

-- `ResourceAttributes::from_label`
unfoldable pub from_label : ConfidentialityLabel → ResourceAttributes
from_label l = record {
  classification = l.classification;
  releasable_countries = releasable_countries l;
  policy_id = l.policy.identifier;
  handling_caveats = restrictive_category_values l;
}

pub record EnvironmentAttributes : Type 0 where
  pub operation : AccessOperation
  pub source_domain : DomainId
  pub target_domain : Option DomainId
  pub mission_id : Option Text

-- `EnvironmentAttributes::local`
unfoldable pub local : AccessOperation → DomainId → EnvironmentAttributes
local operation domain = record {
  operation = operation;
  source_domain = domain;
  target_domain = none;
  mission_id = none;
}

-- `EnvironmentAttributes::cross_domain`
unfoldable pub cross_domain : DomainId → DomainId → Option Text → EnvironmentAttributes
cross_domain source target mission_id = record {
  operation = cross_domain_transfer;
  source_domain = source;
  target_domain = some target;
  mission_id = mission_id;
}

pub record PolicyContext : Type 0 where
  pub subject : SubjectAttributes
  pub resource : ResourceAttributes
  pub environment : EnvironmentAttributes
  pub label : ConfidentialityLabel

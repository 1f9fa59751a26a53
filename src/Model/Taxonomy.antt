-- ===== src/Model/Taxonomy.antt =====
-- crates/mim-model/src/taxonomy.rs: the branches of the taxonomy, and its nodes.
use ainext_gen_c.Base.{ℕ, Bool, true, false, List, [], ◌∷◌, Option, none, some, Text, text, ◌==◌}

pub data ObjectKind : Type 0 where
  location organisation facility feature materiel person information_resource capability address
        event plan_order information_group organisation_structure candidate_target_list
        rule_of_engagement :
      ObjectKind

-- `ObjectKind::ALL`
abbrev pub all_object_kinds : List ObjectKind
all_object_kinds =
    location ∷ organisation ∷ facility ∷ feature ∷ materiel ∷ person ∷ information_resource
    ∷ capability ∷ address ∷ event ∷ plan_order ∷ information_group ∷ organisation_structure
    ∷ candidate_target_list ∷ rule_of_engagement ∷ []

-- `ObjectKind::as_str`
unfoldable pub object_kind_str : ObjectKind → Text
object_kind_str location = text "Location"
object_kind_str organisation = text "Organisation"
object_kind_str facility = text "Facility"
object_kind_str feature = text "Feature"
object_kind_str materiel = text "Materiel"
object_kind_str person = text "Person"
object_kind_str information_resource = text "InformationResource"
object_kind_str capability = text "Capability"
object_kind_str address = text "Address"
object_kind_str event = text "Event"
object_kind_str plan_order = text "PlanOrder"
object_kind_str information_group = text "InformationGroup"
object_kind_str organisation_structure = text "OrganisationStructure"
object_kind_str candidate_target_list = text "CandidateTargetList"
object_kind_str rule_of_engagement = text "RuleOfEngagement"

-- the place of a kind in the enumeration, which the derived equality compares
abbrev object_discriminant : ObjectKind → ℕ
object_discriminant location = 0
object_discriminant organisation = 1
object_discriminant facility = 2
object_discriminant feature = 3
object_discriminant materiel = 4
object_discriminant person = 5
object_discriminant information_resource = 6
object_discriminant capability = 7
object_discriminant address = 8
object_discriminant event = 9
object_discriminant plan_order = 10
object_discriminant information_group = 11
object_discriminant organisation_structure = 12
object_discriminant candidate_target_list = 13
object_discriminant rule_of_engagement = 14

-- `a == b` on `ObjectKind`
unfoldable pub object_kind_eq : ObjectKind → ObjectKind → Bool
object_kind_eq a b = object_discriminant a == object_discriminant b

pub data ActionKind : Type 0 where
  task action_effect action_resource action_objective establishment : ActionKind

-- `ActionKind::ALL`
abbrev pub all_action_kinds : List ActionKind
all_action_kinds = task ∷ action_effect ∷ action_resource ∷ action_objective ∷ establishment ∷ []

-- `ActionKind::as_str`
unfoldable pub action_kind_str : ActionKind → Text
action_kind_str task = text "Task"
action_kind_str action_effect = text "ActionEffect"
action_kind_str action_resource = text "ActionResource"
action_kind_str action_objective = text "ActionObjective"
action_kind_str establishment = text "Establishment"

abbrev action_discriminant : ActionKind → ℕ
action_discriminant task = 0
action_discriminant action_effect = 1
action_discriminant action_resource = 2
action_discriminant action_objective = 3
action_discriminant establishment = 4

-- `a == b` on `ActionKind`
unfoldable pub action_kind_eq : ActionKind → ActionKind → Bool
action_kind_eq a b = action_discriminant a == action_discriminant b

pub record TaxonomyNode : Type 0 where
  pub name : Text
  pub semantic_id : Text
  pub parent : Option Text
  pub object_kind : Option ObjectKind
  pub action_kind : Option ActionKind
  pub definition : Text
  pub package_path : Text

-- `TaxonomyNode::is_object`
unfoldable pub is_object : TaxonomyNode → Bool
is_object node = elim node.object_kind [ none ↦ false | some kind ↦ true ]

-- `TaxonomyNode::is_action`
unfoldable pub is_action : TaxonomyNode → Bool
is_action node = elim node.action_kind [ none ↦ false | some kind ↦ true ]

-- ===== src/Tests/Model.antt =====
-- The registry of a small manifest, and the validation of an instance against it.
use ainext_gen_c.Base.{
  ℕ, ◌≡◌, ◌≤◌, ◌<◌, ◌↔◌, refl, inl, inr, Bool, true, false, not, ◌&&◌, [], ◌∷◌, List, none, some,
  Text, text, text_eq, text_eq_iff, Any, all, find, ok, ok_injective, if◌then◌else◌, arith,
  Bool-cases,
}
use mathlib.Core.List.{reverse}
use ainext_gen_c.Core.Representation.{code_term}
use ainext_gen_c.Model.Taxonomy.{TaxonomyNode, organisation}
use ainext_gen_c.Model.CodeList.{CodeList, CodeValue}
use ainext_gen_c.Model.Manifest.{ModelElementSpec, MimManifest, class_kind, attribute_kind}
use ainext_gen_c.Model.Registry.{
  ModelRegistry, build_registry, from_manifest, parent_of, ancestors_of, element_by_name,
  element_by_semantic_id, taxonomy_node, code_list,
}
use ainext_gen_c.Model.Ancestors.{
  Ancestor, is_parent, Acyclic, ancestors_of-Ancestor, ancestors_of-cyclic,
}
use ainext_gen_c.Model.Integrity.{is_known, from_manifest-Ancestor, from_manifest-last}
use ainext_gen_c.Runtime.Instance.{MimInstance, string_property}
use ainext_gen_c.Runtime.Report.{ValidationReport, is_valid}
use ainext_gen_c.Runtime.Validator.{validate_instance, is_unknown}
use ainext_gen_c.Runtime.Conformance.{code_allowed, provides, validate_instance-conforms}
use ainext_gen_c.Tests.Transport.{texts_only, target}

abbrev object_node : TaxonomyNode
object_node = record {
  name = text "Object";
  semantic_id = text "a";
  parent = none;
  object_kind = none;
  action_kind = none;
  definition = text "Root";
  package_path = text "Classifiers::Object";
}

abbrev unit : ModelElementSpec
unit = record {
  name = text "Unit";
  kind = class_kind;
  semantic_id = text "c";
  uri = text "https://www.mimworld.org/mim/5.1.0/Classifiers/Object/Unit";
  package_path = text "Classifiers::Object::Unit";
  definition = text "Military unit";
  parent_class = some (text "Object");
  representation_term = none;
  representation_metadata = none;
  multiplicity_lower = none;
  multiplicity_upper = none;
  is_mandatory = false;
  is_nillable = true;
}

abbrev unit_range : ModelElementSpec
unit_range = record unit {
  name = text "unitRangeCode";
  kind = attribute_kind;
  semantic_id = text "d";
  parent_class = some (text "Unit");
  representation_term = some code_term;
  is_mandatory = true;
}

abbrev unit_range_codes : CodeList
unit_range_codes = record {
  name = text "UnitRangeCode";
  semantic_id = text "e";
  complete = true;
  managed = false;
  ordered = true;
  definition = none;
  values =
      (record {
        name = text "CloseRange";
        semantic_id = text "f";
        definition = none;
        order = some 1;
        lower_than = [];
      })
      ∷ [];
}

abbrev small : MimManifest
small = record {
  version = text "5.1.0";
  release_date = text "2020-09-28";
  description = text "test";
  expected_object_types = 1;
  expected_action_types = 0;
  expected_code_lists = 1;
  taxonomy = object_node ∷ [];
  elements = unit ∷ unit_range ∷ [];
  code_lists = unit_range_codes ∷ [];
}

abbrev registry : ModelRegistry
registry = record {
  version = text "5.1.0";
  elements_by_name = (text "Unit", unit) ∷ (text "unitRangeCode", unit_range) ∷ [];
  elements_by_semantic_id = (text "c", unit) ∷ (text "d", unit_range) ∷ [];
  taxonomy_by_name = (text "Object", object_node) ∷ [];
  code_lists_by_name = (text "UnitRangeCode", unit_range_codes) ∷ [];
  object_kinds = ainext_gen_c.Model.Taxonomy.all_object_kinds;
  action_kinds = ainext_gen_c.Model.Taxonomy.all_action_kinds;
}

small_loads : from_manifest small ≡ ok registry
unfolding from_manifest ainext_gen_c.Model.Registry.validate_integrity
    ainext_gen_c.Model.Registry.check_nodes build_registry ainext_gen_c.Base.insert_all
    ainext_gen_c.Base.put ainext_gen_c.Model.Registry.check_elements text_eq text
    ainext_gen_c.Base.contains_key
small_loads = refl

-- ranks that fall from the attribute to the unit, and from the unit to the root
abbrev rank : Text → ℕ
rank c = if text_eq (text "Unit") c then 1 else if text_eq (text "unitRangeCode") c then 2 else 0

other_names :
    (text_eq (text "Unit") (text "Object") ≡ false)
    × (text_eq (text "unitRangeCode") (text "Object") ≡ false)
    × (text_eq (text "Unit") (text "Unit") ≡ true)
unfolding text_eq text
other_names = (refl, refl, refl)

parents : (c p : Text) → parent_of registry c ≡ some p → rank p < rank c
unfolding parent_of element_by_name taxonomy_node ainext_gen_c.Base.get
parents c p h = elim (Bool-cases (text_eq (text "Unit") c)) [
  | inl unit' ↦ ground (arith, h, unit', other_names)
  | inr other ↦ elim (Bool-cases (text_eq (text "unitRangeCode") c)) [
    | inl attribute' ↦ ground (arith, h, attribute', other, other_names)
    | inr root ↦ elim (Bool-cases (text_eq (text "Object") c)) [
      | inl object' ↦ absurd (ground (arith, h, object', other, root))
      | inr none' ↦ absurd (ground (arith, h, none', other, root))
    ]
  ]
]

acyclic : Acyclic registry
acyclic = record { rank = rank; falls = parents }

attribute_rank : rank (text "unitRangeCode") ≤ 2
unfolding text text_eq
attribute_rank = omega arith

unit_parent : parent_of registry (text "Unit") ≡ some (text "Object")
unfolding parent_of element_by_name ainext_gen_c.Base.get text_eq text
unit_parent = refl

from_manifest-Ancestor_example : is_known registry (text "Object") ≡ true
from_manifest-Ancestor_example =
    from_manifest-Ancestor small registry (text "Object") (text "Unit") small_loads
      (is_parent (text "Unit") unit_parent)

from_manifest-last_example :
    (element_by_name registry (text "Unit")
      ≡ find (λ (e : ModelElementSpec). text_eq e.name (text "Unit")) (reverse small.elements))
    × (element_by_semantic_id registry (text "Unit")
        ≡ find
            (λ (e : ModelElementSpec). text_eq e.semantic_id (text "Unit"))
            (reverse small.elements))
    × (taxonomy_node registry (text "Unit")
        ≡ find (λ (n : TaxonomyNode). text_eq n.name (text "Unit")) (reverse small.taxonomy))
    × (code_list registry (text "Unit")
        ≡ find (λ (l : CodeList). text_eq l.name (text "Unit")) (reverse small.code_lists))
from_manifest-last_example = from_manifest-last small registry (text "Unit") small_loads

ancestors_of-Ancestor_example :
    (classes : List Text) × (ancestors_of registry 2 (text "unitRangeCode") ≡ some classes)
    × ((a : Text) → Any (λ b. b ≡ a) classes ↔ Ancestor registry a (text "unitRangeCode"))
unfolding acyclic text_eq
ancestors_of-Ancestor_example =
    ancestors_of-Ancestor registry acyclic 2 (text "unitRangeCode") attribute_rank

abbrev unit_alpha : MimInstance texts_only
unit_alpha = record target {
  class_name = text "Unit";
  properties = string_property texts_only (text "unitRangeCode") (text "CloseRange") ∷ [];
}

unit_rank : rank unit_alpha.class_name ≤ 1
unfolding text text_eq
unit_rank = omega arith

validate_instance-conforms_example :
    (report : ValidationReport) × (above : List Text) × (validate_instance texts_only registry 1
        unit_alpha
      ≡ some report)
    × ((a : Text) → Any (λ b. b ≡ a) above ↔ Ancestor registry a unit_alpha.class_name)
    × (is_valid report ≡ (
        not (is_unknown texts_only registry unit_alpha.class_name)
        && (all (code_allowed texts_only registry) unit_alpha.properties
            && all (provides texts_only registry unit_alpha) (unit_alpha.class_name ∷ above))))
unfolding acyclic text_eq
validate_instance-conforms_example =
    validate_instance-conforms texts_only registry acyclic 1 unit_alpha unit_rank

unit_validates : validate_instance texts_only registry 1 unit_alpha ≡ some []
unfolding validate_instance element_by_name ainext_gen_c.Base.get text_eq text ancestors_of
    ainext_gen_c.Model.Registry.ancestors_from parent_of taxonomy_node
    ainext_gen_c.Model.Registry.attributes_for_class ainext_gen_c.Base.retain
    ainext_gen_c.Runtime.Instance.property find string_property
    ainext_gen_c.Model.Registry.code_list_for_attribute
    ainext_gen_c.Model.Registry.property_to_code_list_name ainext_gen_c.Base.ends_with
    ainext_gen_c.Base.drop ainext_gen_c.Base.any ainext_gen_c.Base.ascii_upper
    ainext_gen_c.Model.CodeList.contains_value ainext_gen_c.Model.CodeList.outside_list
    ainext_gen_c.Model.CodeList.validate_value ainext_gen_c.Runtime.Instance.as_str
    ainext_gen_c.Runtime.Report.push_error ainext_gen_c.Runtime.Validator.absent_attribute
    ainext_gen_c.Runtime.Validator.is_provided is_unknown
    ainext_gen_c.Runtime.Validator.push_code_error ainext_gen_c.Runtime.Validator.validate_attribute
    ainext_gen_c.Runtime.Validator.validate_attributes
    ainext_gen_c.Runtime.Validator.validate_classes
    ainext_gen_c.Runtime.Validator.validate_properties
    ainext_gen_c.Runtime.Validator.validate_property
    ainext_gen_c.Runtime.Validator.validate_required_attributes
    ainext_gen_c.Runtime.Validator.value_as_string
unit_validates = refl

-- A class that is its own parent loads, and its ancestors are never listed.
abbrev looping : MimManifest
looping = record small {
  elements = record unit { name = text "Loop"; parent_class = some (text "Loop") } ∷ [];
}

looping_loads : from_manifest looping ≡ ok (build_registry looping)
unfolding from_manifest ainext_gen_c.Model.Registry.validate_integrity
    ainext_gen_c.Model.Registry.check_nodes build_registry ainext_gen_c.Base.insert_all
    ainext_gen_c.Base.put ainext_gen_c.Model.Registry.check_elements ainext_gen_c.Base.contains_key
    text_eq text
looping_loads = refl

loop_parent : parent_of (build_registry looping) (text "Loop") ≡ some (text "Loop")
unfolding parent_of element_by_name ainext_gen_c.Base.get build_registry
    ainext_gen_c.Base.insert_all ainext_gen_c.Base.put text_eq text
loop_parent = refl

ancestors_of-cyclic_example : ancestors_of (build_registry looping) 5 (text "Loop") ≡ none
ancestors_of-cyclic_example =
    ancestors_of-cyclic (build_registry looping) (text "Loop") 5
      (is_parent (text "Loop") loop_parent)

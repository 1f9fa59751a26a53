-- ===== src/Model/Registry.antt =====
-- crates/mim-model/src/registry.rs: the registry of the information model. The loop of
-- `ancestors_of` runs on fuel, and returns nothing where the fuel runs out.
use ainext_gen_c.Base.{
  ℕ, zero, suc, Bool, true, false, ◌&&◌, ◌||◌, List, [], ◌∷◌, ◌++◌, Option, none, some, Text, text,
  text_eq, ascii_upper, any, retain, length, Map, get, insert_all, contains_key, values, ok, err,
  ◌>>◌, if◌then◌else◌, and_then, or_else, ends_with,
}
use ainext_gen_c.Core.Error.{MimResult, model_error}
use ainext_gen_c.Core.Representation.{is_code}
use ainext_gen_c.Model.Taxonomy.{
  ObjectKind, ActionKind, all_object_kinds, all_action_kinds, object_kind_eq, action_kind_eq,
  TaxonomyNode, is_object, is_action,
}
use ainext_gen_c.Model.CodeList.{CodeList}
use ainext_gen_c.Model.Manifest.{ModelElementSpec, MimManifest, is_attribute}

pub record ModelRegistry : Type 0 where
  pub version : Text
  pub elements_by_name : Map ModelElementSpec
  pub elements_by_semantic_id : Map ModelElementSpec
  pub taxonomy_by_name : Map TaxonomyNode
  pub code_lists_by_name : Map CodeList
  pub object_kinds : List ObjectKind
  pub action_kinds : List ActionKind

-- `ModelRegistry::element_by_name`
unfoldable pub element_by_name : ModelRegistry → Text → Option ModelElementSpec
element_by_name r name = get name r.elements_by_name

-- `ModelRegistry::element_by_semantic_id`
unfoldable pub element_by_semantic_id : ModelRegistry → Text → Option ModelElementSpec
element_by_semantic_id r id = get id r.elements_by_semantic_id

-- `ModelRegistry::taxonomy_node`
unfoldable pub taxonomy_node : ModelRegistry → Text → Option TaxonomyNode
taxonomy_node r name = get name r.taxonomy_by_name

-- `ModelRegistry::code_list`
unfoldable pub code_list : ModelRegistry → Text → Option CodeList
code_list r name = get name r.code_lists_by_name

unfoldable pub object_type_count : ModelRegistry → ℕ
object_type_count r = length (retain is_object (values r.taxonomy_by_name))

unfoldable pub action_type_count : ModelRegistry → ℕ
action_type_count r = length (retain is_action (values r.taxonomy_by_name))

unfoldable pub code_list_count : ModelRegistry → ℕ
code_list_count r = length r.code_lists_by_name

unfoldable pub element_count : ModelRegistry → ℕ
element_count r = length r.elements_by_name

unfoldable pub supports_object_kind : ModelRegistry → ObjectKind → Bool
supports_object_kind r kind = any (object_kind_eq kind) r.object_kinds

unfoldable pub supports_action_kind : ModelRegistry → ActionKind → Bool
supports_action_kind r kind = any (action_kind_eq kind) r.action_kinds

-- `element.parent_class.as_deref() == Some(class_name)`
abbrev pub is_some_text : Option Text → Text → Bool
is_some_text none name = false
is_some_text (some a) name = text_eq a name

-- `ModelRegistry::attributes_for_class`
unfoldable pub attributes_for_class : ModelRegistry → Text → List ModelElementSpec
attributes_for_class r class_name =
    retain (λ (e : ModelElementSpec). is_attribute e.kind && is_some_text e.parent_class class_name)
      (values r.elements_by_name)

-- the parent that the registry gives a class: that of its element, or that of its taxonomy node
unfoldable pub parent_of : ModelRegistry → Text → Option Text
parent_of r name =
    or_else (and_then (element_by_name r name) (λ (e : ModelElementSpec). e.parent_class))
      (and_then (taxonomy_node r name) (λ (n : TaxonomyNode). n.parent))

-- the loop of `ancestors_of`, on at most `fuel` rounds
unfoldable pub ancestors_from : ModelRegistry → ℕ → Option Text → Option (List Text)
ancestors_from r fuel none = some []
ancestors_from r zero (some parent) = none
ancestors_from r (suc fuel) (some parent) =
    and_then (ancestors_from r fuel (parent_of r parent)) (λ rest. some (parent ∷ rest))

-- `ModelRegistry::ancestors_of`
unfoldable pub ancestors_of : ModelRegistry → ℕ → Text → Option (List Text)
ancestors_of r fuel class_name = ancestors_from r fuel (parent_of r class_name)

-- `property_to_code_list_name`; only ASCII letters have their upper case
unfoldable pub property_to_code_list_name : Text → Option Text
property_to_code_list_name name =
    if ends_with name (text "Code")
    then elim name [ [] ↦ none | first ∷ rest ↦ some (ascii_upper first ∷ rest) ]
    else none

-- `ModelRegistry::code_list_for_attribute`
unfoldable pub code_list_for_attribute : ModelRegistry → Text → Option CodeList
code_list_for_attribute r name = and_then (element_by_name r name) λ (e : ModelElementSpec).
    if is_code e.representation_term
    then and_then (property_to_code_list_name name) (λ l. get l r.code_lists_by_name)
    else none

-- the test of `validate_integrity` on the nodes of the taxonomy
unfoldable pub check_nodes : Map TaxonomyNode → List TaxonomyNode → MimResult (Unit {0})
check_nodes known [] = ok tt
check_nodes known (node ∷ rest) = elim node.parent [
  | none ↦ check_nodes known rest
  | some parent ↦ elim (contains_key parent known) [
    | true ↦ check_nodes known rest
    | false ↦ err (
        model_error (
          text "taxonomy node '"
          ++ node.name
          ++ text "' references unknown parent '"
          ++ parent
          ++ text "'"))
  ]
]

-- the test of `validate_integrity` on the elements
unfoldable pub check_elements : ModelRegistry → List ModelElementSpec → MimResult (Unit {0})
check_elements r [] = ok tt
check_elements r (element ∷ rest) = elim element.parent_class [
  | none ↦ check_elements r rest
  | some parent ↦
      elim (contains_key parent r.elements_by_name || contains_key parent r.taxonomy_by_name) [
        | true ↦ check_elements r rest
        | false ↦ err (
            model_error (
              text "element '"
              ++ element.name
              ++ text "' references unknown parent class '"
              ++ parent
              ++ text "'"))
      ]
]

-- `ModelRegistry::validate_integrity`
unfoldable pub validate_integrity : ModelRegistry → MimResult (Unit {0})
validate_integrity r = do
  check_nodes r.taxonomy_by_name (values r.taxonomy_by_name)
  check_elements r (values r.elements_by_name)

-- the registry that `from_manifest` builds before it checks it
unfoldable pub build_registry : MimManifest → ModelRegistry
build_registry m = record {
  version = m.version;
  elements_by_name = insert_all (λ (e : ModelElementSpec). e.name) m.elements [];
  elements_by_semantic_id = insert_all (λ (e : ModelElementSpec). e.semantic_id) m.elements [];
  taxonomy_by_name = insert_all (λ (n : TaxonomyNode). n.name) m.taxonomy [];
  code_lists_by_name = insert_all (λ (l : CodeList). l.name) m.code_lists [];
  object_kinds = all_object_kinds;
  action_kinds = all_action_kinds;
}

-- `ModelRegistry::from_manifest`
unfoldable pub from_manifest : MimManifest → MimResult ModelRegistry
from_manifest m = do validate_integrity (build_registry m); ok (build_registry m)

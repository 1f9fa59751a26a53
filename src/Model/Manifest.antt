-- ===== src/Model/Manifest.antt =====
-- crates/mim-model/src/manifest.rs: the manifest that the model is loaded from. The JSON parser of
-- the serde_json crate is a parameter.
use ainext_gen_c.Base.{
  ℕ, Bool, true, false, List, Option, Text, text, is_empty, Result, ok, ◌>>=◌, ◌>>◌, fail_if,
  map_err,
}
use ainext_gen_c.Core.Error.{MimResult, model_error, parse_error}
use ainext_gen_c.Core.Representation.{RepresentationTerm, RepresentationMetadata}
use ainext_gen_c.Model.Taxonomy.{TaxonomyNode}
use ainext_gen_c.Model.CodeList.{CodeList}

pub data ModelElementKind : Type 0 where
  class_kind data_type_kind enumeration_kind attribute_kind association_kind package_kind :
      ModelElementKind

-- `kind == ModelElementKind::Attribute`
abbrev pub is_attribute : ModelElementKind → Bool
is_attribute attribute_kind = true
is_attribute _ = false

pub record ModelElementSpec : Type 0 where
  pub name : Text
  pub kind : ModelElementKind
  pub semantic_id : Text
  pub uri : Text
  pub package_path : Text
  pub definition : Text
  pub parent_class : Option Text
  pub representation_term : Option RepresentationTerm
  pub representation_metadata : Option RepresentationMetadata
  pub multiplicity_lower : Option ℕ
  pub multiplicity_upper : Option Text
  pub is_mandatory : Bool
  pub is_nillable : Bool

pub record MimManifest : Type 0 where
  pub version : Text
  pub release_date : Text
  pub description : Text
  pub expected_object_types : ℕ
  pub expected_action_types : ℕ
  pub expected_code_lists : ℕ
  pub taxonomy : List TaxonomyNode
  pub elements : List ModelElementSpec
  pub code_lists : List CodeList

-- `MimManifest::validate_structure`
unfoldable pub validate_structure : MimManifest → MimResult (Unit {0})
validate_structure m = do
  fail_if (is_empty m.version) (model_error (text "manifest version must not be empty"))
  fail_if (is_empty m.taxonomy) (model_error (text "manifest taxonomy must not be empty"))
  fail_if (is_empty m.elements) (model_error (text "manifest must contain at least one element"))
  ok tt

-- `MimManifest::from_json`, over the parser and the message of its error
unfoldable pub manifest_from_json : (Text → Result Text MimManifest) → Text → MimResult MimManifest
unfolding validate_structure
manifest_from_json parser data' = do
  manifest ← map_err parse_error (parser data')
  validate_structure manifest
  ok manifest

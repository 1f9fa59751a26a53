-- ===== src/Runtime/Validator.antt =====
-- crates/mim-runtime/src/validate.rs: the validation of an instance against the registry. It runs
-- on the fuel of `ancestors_of`.
use ainext_gen_c.Base.{
  ℕ, Bool, true, false, not, List, [], ◌∷◌, ◌++◌, Option, none, some, Text, text, and_then, or_else,
  get, ok, err,
}
use ainext_gen_c.Core.Nillable.{Nillable, value, nil, absent}
use ainext_gen_c.Model.CodeList.{CodeList, validate_value}
use ainext_gen_c.Model.Manifest.{ModelElementSpec}
use ainext_gen_c.Model.Registry.{
  ModelRegistry, element_by_name, taxonomy_node, attributes_for_class, ancestors_of,
  code_list_for_attribute,
}
use ainext_gen_c.Runtime.Instance.{
  Json, string_view, object_view, as_str, PropertyValue, MimInstance, property,
}
use ainext_gen_c.Runtime.Report.{ValidationReport, push_error}

abbrev pub is_absent {ℓ} : {A : Type ℓ} → Nillable A → Bool
is_absent absent = true
is_absent _ = false

-- the message on a mandatory attribute that is absent
unfoldable pub absent_attribute : Text → Text → Text
absent_attribute name class_name =
    text "mandatory attribute '" ++ name ++ text "' on class '" ++ class_name ++ text "' is absent"

module _ (json : Json) where
  -- `value_as_string`
  unfoldable pub value_as_string : json.Value → Option Text
  unfolding as_str
  value_as_string v = elim (json.view v) [
    | string_view s ↦ some s
    | object_view members ↦
        and_then (or_else (get (text "codeValue") members) (get (text "value") members))
          (as_str json)
    | _ ↦ none
  ]

  -- the attribute is there, if only as nil
  unfoldable pub is_provided : MimInstance json → Text → Bool
  is_provided i name = elim (property json i name) [
    | none ↦ false
    | some p ↦ not (is_absent p.value)
  ]

  module _ (r : ModelRegistry) where
    -- the error of a code outside a complete code list
    unfoldable pub push_code_error :
        ValidationReport → Option Text → Text → CodeList → Text → ValidationReport
    push_code_error report oid name codes code = elim (validate_value codes code) [
      | ok done ↦ report
      | err message ↦ push_error report oid (some name) message
    ]

    -- `Validator::validate_property`
    unfoldable pub validate_property :
        ValidationReport → Option Text → PropertyValue json → ValidationReport
    unfolding push_code_error
    validate_property report oid p = elim p.value [
      | value v ↦ elim (code_list_for_attribute r p.name) [
        | none ↦ report
        | some codes ↦ elim (value_as_string v) [
          | none ↦ report
          | some code ↦ push_code_error report oid p.name codes code
        ]
      ]
      | nil reason ↦ report
      | absent ↦ report
    ]

    unfoldable pub validate_properties :
        ValidationReport → Option Text → List (PropertyValue json) → ValidationReport
    unfolding validate_property
    validate_properties report oid [] = report
    validate_properties report oid (p ∷ rest) =
        validate_properties (validate_property report oid p) oid rest

    -- the body of the inner loop of `Validator::validate_required_attributes`
    unfoldable pub validate_attribute :
        ValidationReport
        → Option Text
        → MimInstance json
        → Text
        → ModelElementSpec
        → ValidationReport
    unfolding is_provided
    validate_attribute report oid i class_name attribute = elim attribute.is_mandatory [
      | false ↦ report
      | true ↦ elim (is_provided i attribute.name) [
        | true ↦ report
        | false ↦
            push_error report oid (some attribute.name) (absent_attribute attribute.name class_name)
      ]
    ]

    unfoldable pub validate_attributes :
        ValidationReport
        → Option Text
        → MimInstance json
        → Text
        → List ModelElementSpec
        → ValidationReport
    unfolding validate_attribute
    validate_attributes report oid i class_name [] = report
    validate_attributes report oid i class_name (a ∷ rest) =
        validate_attributes (validate_attribute report oid i class_name a) oid i class_name rest

    -- the outer loop of `Validator::validate_required_attributes`, over the class and its ancestors
    unfoldable pub validate_classes :
        ValidationReport → Option Text → MimInstance json → List Text → ValidationReport
    unfolding validate_attributes
    validate_classes report oid i [] = report
    validate_classes report oid i (c ∷ rest) =
        validate_classes (validate_attributes report oid i c (attributes_for_class r c)) oid i rest

    -- `Validator::validate_required_attributes`
    unfoldable pub validate_required_attributes :
        ℕ → ValidationReport → Option Text → MimInstance json → Option ValidationReport
    unfolding validate_classes
    validate_required_attributes fuel report oid i =
        and_then (ancestors_of r fuel i.class_name)
          (λ ancestors. some (validate_classes report oid i (i.class_name ∷ ancestors)))

    -- the class has neither an element nor a node of the taxonomy
    unfoldable pub is_unknown : Text → Bool
    is_unknown name = elim (element_by_name r name) [
      | some e ↦ false
      | none ↦ elim (taxonomy_node r name) [ some n ↦ false | none ↦ true ]
    ]

    -- `Validator::validate_instance`
    unfoldable pub validate_instance : ℕ → MimInstance json → Option ValidationReport
    unfolding validate_properties validate_required_attributes is_unknown
    validate_instance fuel i = elim (is_unknown i.class_name) [
      | true ↦
          some
            (push_error [] (some i.oid) none (text "unknown class '" ++ i.class_name ++ text "'"))
      | false ↦
          validate_required_attributes fuel (validate_properties [] (some i.oid) i.properties)
            (some i.oid) i
    ]

    -- `Validator::validate_store`, over the instances of the store
    unfoldable pub validate_store : ℕ → List (MimInstance json) → Option ValidationReport
    unfolding validate_instance
    validate_store fuel [] = some []
    validate_store fuel (i ∷ rest) =
        and_then (validate_instance fuel i)
          (λ report. and_then (validate_store fuel rest) (λ later. some (report ++ later)))

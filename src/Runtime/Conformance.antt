-- ===== src/Runtime/Conformance.antt =====
-- crates/mim-runtime/src/validate.rs: which instances are valid.
use ainext_gen_c.Base.{
  ℕ, ◌≤◌, ◌≡◌, ◌↔◌, refl, inl, inr, Bool, true, false, not, ◌&&◌, ◌||◌, List, [], ◌∷◌, ◌++◌, Option,
  none, some, Text, text, Any, all, any, arith, Bool-cases,
}
use ainext_gen_c.Core.Nillable.{value}
use ainext_gen_c.Model.CodeList.{CodeList, contains_value, validate_value, outside_list}
use ainext_gen_c.Model.Manifest.{ModelElementSpec}
use ainext_gen_c.Model.Registry.{ModelRegistry, attributes_for_class, code_list_for_attribute}
use ainext_gen_c.Model.Ancestors.{Ancestor, Acyclic, ancestors_of-Ancestor}
use ainext_gen_c.Runtime.Instance.{Json, PropertyValue, MimInstance}
use ainext_gen_c.Runtime.Report.{ValidationReport, is_valid, push_error}
use ainext_gen_c.Runtime.Validator.{
  absent_attribute, value_as_string, is_provided, push_code_error, validate_property,
  validate_properties, validate_attribute, validate_attributes, validate_classes,
  validate_required_attributes, is_unknown, validate_instance,
}

is_valid-append : (r s : ValidationReport) → is_valid (r ++ s) ≡ (is_valid r && is_valid s)
unfolding is_valid any
is_valid-append [] s = refl
is_valid-append (i ∷ r) s = ground (arith, is_valid-append r s)

is_valid-nil : is_valid [] ≡ true
unfolding is_valid any
is_valid-nil = refl

is_valid-push_error :
    (report : ValidationReport) (oid name : Option Text) (m : Text)
    → is_valid (push_error report oid name m) ≡ false
unfolding push_error is_valid any
is_valid-push_error report oid name m = rw (is_valid-append report _) (ground arith)

module _ (json : Json) (r : ModelRegistry) where
  -- the text of the value, if it is one of an attribute with a code list, is in the list, or the
  -- list may be extended
  abbrev pub code_allowed : PropertyValue json → Bool
  code_allowed p = elim p.value [
    | value v ↦ elim (code_list_for_attribute r p.name) [
      | none ↦ true
      | some codes ↦ elim (value_as_string json v) [
        | none ↦ true
        | some code ↦ contains_value codes code || not codes.complete
      ]
    ]
    | _ ↦ true
  ]

  -- the instance provides the mandatory attributes that the class declares
  abbrev pub provides : MimInstance json → Text → Bool
  provides i class_name =
      all (λ (a : ModelElementSpec). not a.is_mandatory || is_provided json i a.name)
        (attributes_for_class r class_name)

  is_valid-push_code_error :
      (report : ValidationReport) (oid : Option Text) (name : Text) (codes : CodeList) (code : Text)
      → is_valid (push_code_error json r report oid name codes code)
        ≡ (is_valid report && (contains_value codes code || not codes.complete))
  unfolding push_code_error validate_value
  is_valid-push_code_error report oid name codes code =
      ground (arith, is_valid-push_error report oid (some name) (outside_list codes code))

  is_valid-validate_property :
      (report : ValidationReport) (oid : Option Text) (p : PropertyValue json)
      → is_valid (validate_property json r report oid p) ≡ (is_valid report && code_allowed p)
  unfolding validate_property
  is_valid-validate_property report oid p =
      grind (arith, is_valid-push_code_error report oid p.name)

  is_valid-validate_properties :
      (report : ValidationReport) (oid : Option Text) (ps : List (PropertyValue json))
      → is_valid (validate_properties json r report oid ps)
        ≡ (is_valid report && all code_allowed ps)
  unfolding validate_properties all
  is_valid-validate_properties report oid [] = ground arith
  is_valid-validate_properties report oid (p ∷ ps) = ground (
    arith,
    is_valid-validate_properties (validate_property json r report oid p) oid ps,
    is_valid-validate_property report oid p,
  )

  is_valid-validate_attribute :
      (report : ValidationReport) (oid : Option Text) (i : MimInstance json) (c : Text)
      (a : ModelElementSpec)
      → is_valid (validate_attribute json r report oid i c a)
        ≡ (is_valid report && (not a.is_mandatory || is_provided json i a.name))
  unfolding validate_attribute
  is_valid-validate_attribute report oid i c a =
      ground (arith, is_valid-push_error report oid (some a.name) (absent_attribute a.name c))

  is_valid-validate_attributes :
      (report : ValidationReport) (oid : Option Text) (i : MimInstance json) (c : Text)
      (attributes : List ModelElementSpec)
      → is_valid (validate_attributes json r report oid i c attributes) ≡ (
          is_valid report
          && all
              (λ (a : ModelElementSpec). not a.is_mandatory || is_provided json i a.name)
              attributes)
  unfolding validate_attributes all
  is_valid-validate_attributes report oid i c [] = ground arith
  is_valid-validate_attributes report oid i c (a ∷ attributes) = ground (
    arith,
    is_valid-validate_attributes (validate_attribute json r report oid i c a) oid i c attributes,
    is_valid-validate_attribute report oid i c a,
  )

  is_valid-validate_classes :
      (report : ValidationReport) (oid : Option Text) (i : MimInstance json) (cs : List Text)
      → is_valid (validate_classes json r report oid i cs)
        ≡ (is_valid report && all (provides i) cs)
  unfolding validate_classes all
  is_valid-validate_classes report oid i [] = ground arith
  is_valid-validate_classes report oid i (c ∷ cs) = ground (
    arith,
    is_valid-validate_classes (validate_attributes json r report oid i c (attributes_for_class r c))
        oid i cs,
    is_valid-validate_attributes report oid i c (attributes_for_class r c),
  )

  -- In a registry whose parents form no cycle, fuel for the rank of the class is enough for a
  -- report, and the report is valid exactly when the class is known, every code of a complete
  -- list is in it, and the class and all classes above it find their mandatory attributes.
  pub validate_instance-conforms :
      (acyclic : Acyclic r) (fuel : ℕ) (i : MimInstance json)
      → acyclic.rank i.class_name ≤ fuel
      → (report : ValidationReport) × (above : List Text) × (validate_instance json r fuel i
          ≡ some report)
        × ((a : Text) → Any (λ b. b ≡ a) above ↔ Ancestor r a i.class_name)
        × (is_valid report ≡ (
            not (is_unknown json r i.class_name)
            && (all code_allowed i.properties && all (provides i) (i.class_name ∷ above))))
  unfolding validate_instance validate_required_attributes
  validate_instance-conforms acyclic fuel i enough =
      let (above, ended, listed) = ancestors_of-Ancestor r acyclic fuel i.class_name enough in
      elim (Bool-cases (is_unknown json r i.class_name)) [
        | inl unknown ↦ (
          push_error [] (some i.oid) none (text "unknown class '" ++ i.class_name ++ text "'"),
          above,
          rw (validate_instance, unknown) refl,
          listed,
          rw unknown (is_valid-push_error [] (some i.oid) none _),
        )
        | inr known ↦
            let first = validate_properties json r [] (some i.oid) i.properties in
            (
              validate_classes json r first (some i.oid) i (i.class_name ∷ above),
              above,
              rw (validate_instance, known, ended) refl,
              listed,
              rw (known, is_valid-validate_classes, is_valid-validate_properties, is_valid-nil)
                  refl,
            )
      ]

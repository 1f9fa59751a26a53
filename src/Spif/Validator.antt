-- ===== src/Spif/Validator.antt =====
-- crates/mim-spif/src/validator.rs: the validation of a label against its policy. The `Debug` text of
-- a vector of strings is a parameter: it stands in a message only.
use ainext_gen_c.Base.{
  Bool, true, false, not, List, [], ◌∷◌, ◌++◌, Option, none, some, Text, text, eq_ignore_ascii_case,
  any, find, is_empty, ok, err, ◌>>=◌, ◌>>◌, fail_if, ok_or,
}
use ainext_gen_c.Label.Classification.{as_stanag_str}
use ainext_gen_c.Label.Error.{LabelResult, validation, invalid_policy}
use ainext_gen_c.Label.Confidentiality.{
  CategoryType, restrictive, permissive, informative, CategoryMarking, ConfidentialityLabel,
  validate,
}
use ainext_gen_c.Policy.Spif.{
  SpifPolicy, SpifCategory, SpifCategoryType, SpifValidation, restrictive as spif_restrictive,
  permissive as spif_permissive, informative as spif_informative,
}
use ainext_gen_c.Spif.Registry.{SpifRegistry, policy_for_label}

-- `spif_cat.category_type == expected_type`
abbrev pub is_expected_type : SpifCategoryType → CategoryType → Bool
is_expected_type spif_restrictive restrictive = true
is_expected_type spif_permissive permissive = true
is_expected_type spif_informative informative = true
is_expected_type _ _ = false

-- one of the texts, but for the ASCII case
unfoldable pub lists_text : List Text → Text → Bool
lists_text texts s = any (λ allowed. eq_ignore_ascii_case allowed s) texts

-- the loop over the values of a category
unfoldable pub check_values : Text → List Text → List Text → LabelResult (Unit {0})
check_values tag allowed [] = ok tt
check_values tag allowed (v ∷ rest) = do
  fail_if (not (lists_text allowed v))
      (validation (text "category value '" ++ v ++ text "' not permitted for '" ++ tag ++ text "'"))
  check_values tag allowed rest

-- the body of the loop over the categories, for a category that the policy defines
unfoldable pub check_defined : SpifCategory → CategoryMarking → LabelResult (Unit {0})
unfolding check_values
check_defined defined c = do
  elim (is_empty defined.allowed_values) [
    | true ↦ ok tt
    | false ↦ check_values c.tag_name defined.allowed_values c.values
  ]
  fail_if (not (is_expected_type defined.category_type c.category_type))
      (validation (text "category '" ++ c.tag_name ++ text "' type mismatch with SPIF policy"))

-- the policy's category of that name
unfoldable pub find_category : SpifPolicy → Text → Option SpifCategory
find_category p tag = find (λ (c : SpifCategory). eq_ignore_ascii_case c.name tag) p.categories

-- the loop over the categories of the label
unfoldable pub check_categories : SpifPolicy → List CategoryMarking → LabelResult (Unit {0})
unfolding check_defined find_category
check_categories p [] = ok tt
check_categories p (c ∷ rest) = do
  elim (find_category p c.tag_name) [
    | none ↦ err (
        validation
          (text "category '" ++ c.tag_name ++ text "' not defined in SPIF policy " ++ p.policy_id))
    | some defined ↦ check_defined defined c
  ]
  check_categories p rest

-- the values of the label's first category of that name
unfoldable pub values_under : ConfidentialityLabel → Text → List Text
values_under l name =
    elim (find (λ (c : CategoryMarking). eq_ignore_ascii_case c.tag_name name) l.categories) [
      | none ↦ []
      | some c ↦ c.values
    ]

-- the label has one of the values that the rule requires
unfoldable pub is_satisfied : ConfidentialityLabel → SpifValidation → Bool
unfolding values_under lists_text
is_satisfied l rule =
    any (λ required. any (λ v. eq_ignore_ascii_case v required) (values_under l rule.category_name))
      rule.required_any_of

-- the rule is about the label's classification
unfoldable pub applies_to : ConfidentialityLabel → SpifValidation → Bool
applies_to l rule = eq_ignore_ascii_case (as_stanag_str l.classification) rule.classification

module _ (debug_texts : List Text → Text) where
  -- the loop over the rules of the policy
  unfoldable pub check_rules : ConfidentialityLabel → List SpifValidation → LabelResult (Unit {0})
  unfolding is_satisfied applies_to
  check_rules l [] = ok tt
  check_rules l (rule ∷ rest) = elim (applies_to l rule) [
    | false ↦ check_rules l rest
    | true ↦ do
      fail_if (not (is_satisfied l rule)) (
          validation (
            text "SPIF validation failed: classification "
            ++ rule.classification
            ++ text " requires category '"
            ++ rule.category_name
            ++ text "' with one of "
            ++ debug_texts rule.required_any_of))
      check_rules l rest
  ]

  -- `validate_against_policy`
  unfoldable pub validate_against_policy :
      ConfidentialityLabel → SpifPolicy → LabelResult (Unit {0})
  unfolding check_categories check_rules
  validate_against_policy l p = do
    fail_if (not (lists_text p.allowed_classifications (as_stanag_str l.classification))) (
        validation (
          text "classification "
          ++ as_stanag_str l.classification
          ++ text " not permitted by SPIF policy "
          ++ p.policy_id))
    check_categories p l.categories
    check_rules l p.validations

  -- `SpifValidator::validate_label`
  unfoldable pub spif_validate_label : SpifRegistry → ConfidentialityLabel → LabelResult (Unit {0})
  unfolding validate_against_policy
  spif_validate_label r l = do
    validate l
    p ←
        ok_or (policy_for_label r l)
          (invalid_policy (text "unknown SPIF policy identifier: " ++ l.policy.identifier))
    validate_against_policy l p

-- ===== src/Spif/Conforming.antt =====
-- crates/mim-spif/src/validator.rs: the labels that a policy accepts.
use ainext_gen_c.Base.{
  ◌≡◌, ◌∙◌, refl, inl, inr, Bool, true, false, not, ◌&&◌, ◌||◌, List, [], ◌∷◌, none, some, Text,
  all, is_empty, is_ok, ok, err, ◌>>◌, fail_if, arith, Bool-cases, Option-cases,
}
use ainext_gen_c.Label.Classification.{as_stanag_str}
use ainext_gen_c.Label.Error.{LabelError, LabelResult}
use ainext_gen_c.Label.Confidentiality.{CategoryMarking, ConfidentialityLabel}
use ainext_gen_c.Policy.Spif.{SpifPolicy, SpifCategory, SpifValidation}
use ainext_gen_c.Spif.Validator.{
  is_expected_type, lists_text, check_values, check_defined, find_category, check_categories,
  is_satisfied, applies_to, check_rules, validate_against_policy,
}

-- the policy defines the category with its type, and lists its values, if it lists any
abbrev pub category_conforms : SpifPolicy → CategoryMarking → Bool
category_conforms p c = elim (find_category p c.tag_name) [
  | none ↦ false
  | some defined ↦
      (is_empty defined.allowed_values || all (lists_text defined.allowed_values) c.values)
      && is_expected_type defined.category_type c.category_type
]

is_ok->> :
    (first second : LabelResult (Unit {0}))
    → is_ok (first >> second) ≡ (is_ok first && is_ok second)
is_ok->> (ok done) second = refl
is_ok->> (err e) second = refl

is_ok-fail_if : (test : Bool) (e : LabelError) → is_ok (fail_if test e) ≡ not test
is_ok-fail_if true e = refl
is_ok-fail_if false e = refl

not-not : (b : Bool) → not (not b) ≡ b
not-not true = refl
not-not false = refl

is_ok-check_values :
    (tag : Text) (allowed values : List Text)
    → is_ok (check_values tag allowed values) ≡ all (lists_text allowed) values
unfolding check_values all
is_ok-check_values tag allowed [] = refl
is_ok-check_values tag allowed (v ∷ values) = elim (Bool-cases (lists_text allowed v)) [
  | inl h ↦ rw h (is_ok-check_values tag allowed values)
  | inr h ↦ rw h refl
]

is_ok-check_defined :
    (defined : SpifCategory) (c : CategoryMarking)
    → is_ok (check_defined defined c) ≡ (
        (is_empty defined.allowed_values || all (lists_text defined.allowed_values) c.values)
        && is_expected_type defined.category_type c.category_type)
unfolding check_defined
is_ok-check_defined defined c = elim (Bool-cases (is_empty defined.allowed_values)) [
  | inl free ↦ rw free (
      is_ok-fail_if (not (is_expected_type defined.category_type c.category_type)) _
      ∙ not-not (is_expected_type defined.category_type c.category_type))
  | inr listed ↦ rw listed (
      is_ok->> (check_values c.tag_name defined.allowed_values c.values) _
      ∙ rw (is_ok-check_values c.tag_name defined.allowed_values c.values, is_ok-fail_if, not-not)
          refl)
]

is_ok-check_categories :
    (p : SpifPolicy) (cs : List CategoryMarking)
    → is_ok (check_categories p cs) ≡ all (category_conforms p) cs
unfolding check_categories all
is_ok-check_categories p [] = refl
is_ok-check_categories p (c ∷ cs) = elim (Option-cases (find_category p c.tag_name)) [
  | inl missing ↦ ground (arith, missing)
  | inr (defined, found) ↦ ground (
    arith,
    found,
    is_ok->> (check_defined defined c) (check_categories p cs),
    is_ok-check_defined defined c,
    is_ok-check_categories p cs,
  )
]

module _ (debug_texts : List Text → Text) where
  is_ok-check_rules :
      (l : ConfidentialityLabel) (rules : List SpifValidation)
      → is_ok (check_rules debug_texts l rules)
        ≡ all (λ rule. not (applies_to l rule) || is_satisfied l rule) rules
  unfolding check_rules all
  is_ok-check_rules l [] = refl
  is_ok-check_rules l (rule ∷ rules) = ground (arith, is_ok-check_rules l rules)

  -- A label passes a policy exactly when the policy lists its classification, defines each of its
  -- categories with its type and lists its values, and the label meets every rule that is about its
  -- classification.
  pub validate_against_policy-conforms :
      (l : ConfidentialityLabel) (p : SpifPolicy)
      → is_ok (validate_against_policy debug_texts l p) ≡ (
          lists_text p.allowed_classifications (as_stanag_str l.classification)
          && (all (category_conforms p) l.categories
              && all (λ rule. not (applies_to l rule) || is_satisfied l rule) p.validations))
  unfolding validate_against_policy
  validate_against_policy-conforms l p =
      elim (Bool-cases (lists_text p.allowed_classifications (as_stanag_str l.classification))) [
        | inr refused ↦ rw refused refl
        | inl listed ↦ rw listed (
            is_ok->> (check_categories p l.categories) (check_rules debug_texts l p.validations)
            ∙ rw (is_ok-check_categories p l.categories, is_ok-check_rules l p.validations) refl)
      ]

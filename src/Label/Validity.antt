-- ===== src/Label/Validity.antt =====
-- crates/mim-labeling/src/label.rs: what `validate` accepts.
use ainext_gen_c.Base.{
  Bool, true, false, not, ◌≡◌, ◌≢◌, ◌↔◌, refl, List, [], ◌∷◌, Text, is_empty, All, ok, ◌>>◌,
  fail_if, arith,
}
use ainext_gen_c.Label.Error.{LabelError, LabelResult}
use ainext_gen_c.Label.Policy.{allows_classification}
use ainext_gen_c.Label.Confidentiality.{
  CategoryMarking, ConfidentialityLabel, validate, validate_categories,
}

pub record IsComplete (c : CategoryMarking) : Type 0 where
  pub tagged : c.tag_name ≢ []
  pub valued : c.values ≢ []

-- A label that names its policy, whose policy lists its level, with complete categories.
pub record IsValidLabel (l : ConfidentialityLabel) : Type 0 where
  pub identified : l.policy.identifier ≢ []
  pub allowed : allows_classification l.policy l.classification ≡ true
  pub complete : All IsComplete l.categories

is_empty_iff : (s : Text) → (is_empty s ≡ false) ↔ (s ≢ [])
is_empty_iff [] = (λ h. ground arith, λ h. absurd (h refl))
is_empty_iff (c ∷ s) = (λ h e. ground arith, λ h. refl)

is_empty_iff_list : (s : List Text) → (is_empty s ≡ false) ↔ (s ≢ [])
is_empty_iff_list [] = (λ h. ground arith, λ h. absurd (h refl))
is_empty_iff_list (c ∷ s) = (λ h e. ground arith, λ h. refl)

fail_if-passed :
    (test : Bool) (e : LabelError) (rest : LabelResult (Unit {0}))
    → ((fail_if test e >> rest) ≡ ok tt) ↔ ((test ≡ false) × (rest ≡ ok tt))
fail_if-passed true e rest = (λ h. ground arith, λ h. ground arith)
fail_if-passed false e rest = (λ h. (refl, h), λ h. h.1)

validate_categories_iff :
    (cs : List CategoryMarking) → (validate_categories cs ≡ ok tt) ↔ All IsComplete cs
unfolding validate_categories
validate_categories_iff [] = (λ h. tt, λ h. refl)
validate_categories_iff (c ∷ cs) = (
  λ h.
      let (tagged, h1) = (fail_if-passed _ _ _).0 h in
      let (valued, h2) = (fail_if-passed _ _ _).0 h1 in
      (
        record {
          tagged = (is_empty_iff c.tag_name).0 tagged;
          valued = (is_empty_iff_list c.values).0 valued;
        },
        (validate_categories_iff cs).0 h2,
      ),
  λ h. (fail_if-passed _ _ _).1 (
    (is_empty_iff c.tag_name).1 (h.0).tagged,
    (fail_if-passed _ _ _).1
        ((is_empty_iff_list c.values).1 (h.0).valued, (validate_categories_iff cs).1 h.1),
  ),
)

not_refused : (test : Bool) → not test ≡ false → test ≡ true
not_refused test h = ground arith

-- A label validates exactly when it names its policy, its level is one that the policy lists, and
-- each category has a tag name and a value.
pub validate_iff : (l : ConfidentialityLabel) → (validate l ≡ ok tt) ↔ IsValidLabel l
unfolding validate
validate_iff l = (
  λ h.
      let (identified, h1) = (fail_if-passed _ _ _).0 h in
      let (allowed, h2) = (fail_if-passed _ _ _).0 h1 in
      record {
        identified = (is_empty_iff l.policy.identifier).0 identified;
        allowed = not_refused _ allowed;
        complete = (validate_categories_iff l.categories).0 h2;
      },
  λ v. (fail_if-passed _ _ _).1 (
    (is_empty_iff l.policy.identifier).1 v.identified,
    (fail_if-passed _ _ _).1
        (rw v.allowed refl, (validate_categories_iff l.categories).1 v.complete),
  ),
)

-- ===== src/Policy/Intersection.antt =====
-- crates/mim-policy/src/downgrade.rs: on a valid label whose countries the target all accepts, the
-- intersection and the stripping leave the categories alone.
use ainext_gen_c.Base.{
  ◌≡◌, refl, true, List, [], ◌∷◌, ◌++◌, map, ok, err, Bool-cases, inl, inr, all, all-append, All,
  all_of_All, retain-all, arith, if◌then◌else◌, text,
}
use ainext_gen_c.Label.Error.{validation}
use ainext_gen_c.Label.Classification.{level_lt, as_stanag_str}
use ainext_gen_c.Label.Domain.{SecurityDomain, accepts_country}
use ainext_gen_c.Label.Policy.{allows_classification}
use ainext_gen_c.Label.Confidentiality.{
  ConfidentialityLabel, CategoryMarking, validate, validate_categories, values_of, is_releasability,
  releasable_countries,
}
use ainext_gen_c.Policy.Downgrade.{
  DowngradeConfig, cap_classification, intersect_category, keeps_category, intersect_categories,
  effective_label,
}

module _ (t : SecurityDomain) where
  intersect_category-same :
      (c : CategoryMarking)
      → all (accepts_country t) (if is_releasability c then c.values else []) ≡ true
      → intersect_category t c ≡ c
  unfolding intersect_category
  intersect_category-same c h = elim (Bool-cases (is_releasability c)) [
    | inl e ↦ ground (arith, e, retain-all (accepts_country t) c.values)
    | inr e ↦ ground (arith, e)
  ]

  map-intersect_category :
      (cs : List CategoryMarking)
      → all (accepts_country t) (values_of is_releasability cs) ≡ true
      → map (intersect_category t) cs ≡ cs
  unfolding values_of
  map-intersect_category [] h = refl
  map-intersect_category (c ∷ cs) h =
      let split =
        all-append (accepts_country t) (if is_releasability c then c.values else [])
          (values_of is_releasability cs) in
      cc (
        intersect_category-same c (ground (arith, split)),
        map-intersect_category cs (ground (arith, split)),
      )

all-keeps_category :
    (cs : List CategoryMarking) → validate_categories cs ≡ ok tt → all keeps_category cs ≡ true
unfolding validate_categories all keeps_category
all-keeps_category [] h = refl
all-keeps_category (c ∷ cs) h = ground (arith, all-keeps_category cs)

-- the last part of a successful validation
pub validate_categories_of_validate :
    (l : ConfidentialityLabel) → validate l ≡ ok tt → validate_categories l.categories ≡ ok tt
unfolding validate
validate_categories_of_validate l h = ground arith

intersect_categories-same :
    (t : SecurityDomain) (config : DowngradeConfig) (cs : List CategoryMarking)
    → validate_categories cs ≡ ok tt
    → all (accepts_country t) (values_of is_releasability cs) ≡ true
    → intersect_categories t config cs ≡ cs
unfolding intersect_categories
intersect_categories-same t config cs v h =
    rw (map-intersect_category t cs h)
      (ground (arith, retain-all keeps_category cs (all-keeps_category cs v)))

pub effective_label-cap :
    (l : ConfidentialityLabel) (t : SecurityDomain) (config : DowngradeConfig)
    → validate l ≡ ok tt
    → All (λ v. accepts_country t v ≡ true) (releasable_countries l)
    → effective_label l t config ≡ cap_classification t l
unfolding effective_label releasable_countries cap_classification
effective_label-cap l t config v h = ground (
  arith,
  intersect_categories-same t config l.categories (validate_categories_of_validate l v)
      (all_of_All (accepts_country t) (values_of is_releasability l.categories) h),
)

-- Capping the classification asks the label's policy again, and nothing else.
pub validate-cap_classification :
    (l : ConfidentialityLabel) (t : SecurityDomain)
    → validate l ≡ ok tt
    → level_lt t.max_classification l.classification ≡ true
    → validate (cap_classification t l) ≡ (
        if allows_classification l.policy t.max_classification
        then ok tt
        else err (
            validation (
              text "classification "
              ++ (as_stanag_str t.max_classification
                  ++ (text " not allowed by policy " ++ l.policy.identifier)))))
unfolding validate cap_classification
validate-cap_classification l t v h = ground (arith, v, h)

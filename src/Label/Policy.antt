-- ===== src/Label/Policy.antt =====
-- crates/mim-labeling/src/policy.rs: the security policy that governs a label.
use ainext_gen_c.Base.{Bool, List, [], ◌∷◌, Option, none, some, Text, text, any}
use ainext_gen_c.Label.Classification.{
  ClassificationLevel, unmarked, unclassified, restricted, confidential, secret, cosmic_top_secret,
  all_levels, level_eq,
}

pub record LabelPolicy : Type 0 where
  pub identifier : Text
  pub oid : Option Text
  pub allowed_classifications : List ClassificationLevel

-- `LabelPolicy::new`
unfoldable pub new_policy : Text → LabelPolicy
new_policy identifier = record {
  identifier = identifier;
  oid = none;
  allowed_classifications = all_levels;
}

unfoldable pub with_identifier : LabelPolicy → Text → LabelPolicy
with_identifier p identifier = record p { identifier = identifier }

unfoldable pub with_oid : LabelPolicy → Text → LabelPolicy
with_oid p oid = record p { oid = some oid }

unfoldable pub with_allowed_classifications : LabelPolicy → List ClassificationLevel → LabelPolicy
with_allowed_classifications p levels = record p { allowed_classifications = levels }

-- `allowed_classifications.contains(&level)`
unfoldable pub allows_classification : LabelPolicy → ClassificationLevel → Bool
allows_classification p level = any (λ l. level_eq l level) p.allowed_classifications

-- `LabelPolicy::nato`, which is `NatoPolicy::policy`
unfoldable pub nato : LabelPolicy
unfolding new_policy with_oid with_allowed_classifications
nato =
    with_allowed_classifications
      (with_oid (new_policy (text "NATO")) (text "urn:oid:2.16.840.1.101.2.3.6.1.31778.102.25"))
      (unclassified ∷ restricted ∷ confidential ∷ secret ∷ cosmic_top_secret ∷ [])

-- `LabelPolicy::public_day_zero`, which is `NatoPolicy::public_policy`
unfoldable pub public_day_zero : LabelPolicy
unfolding new_policy with_allowed_classifications
public_day_zero =
    with_allowed_classifications (new_policy (text "PUBLIC")) (unmarked ∷ unclassified ∷ [])

unfoldable pub capco_us : LabelPolicy
unfolding new_policy with_oid with_allowed_classifications
capco_us =
    with_allowed_classifications
      (with_oid (new_policy (text "US")) (text "2.16.840.1.101.2.3.48.2.1"))
      (unclassified ∷ confidential ∷ secret ∷ cosmic_top_secret ∷ [])

unfoldable pub uk_demo : LabelPolicy
unfolding new_policy with_oid with_allowed_classifications
uk_demo =
    with_allowed_classifications
      (with_oid (new_policy (text "DEMO-UK")) (text "1.2.826.0.1.6726289.0.2"))
      (unclassified ∷ restricted ∷ confidential ∷ secret ∷ cosmic_top_secret ∷ [])

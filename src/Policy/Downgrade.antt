-- ===== src/Policy/Downgrade.antt =====
-- crates/mim-policy/src/downgrade.rs: the label under which data is released into a lower domain.
use ainext_gen_c.Base.{Bool, true, not, ◌&&◌, List, map, is_empty, retain, ok, ◌>>◌, if◌then◌else◌}
use ainext_gen_c.Label.Classification.{unclassified, level_lt, level_le}
use ainext_gen_c.Label.Error.{LabelResult}
use ainext_gen_c.Label.Domain.{SecurityDomain, accepts_country}
use ainext_gen_c.Label.Confidentiality.{
  ConfidentialityLabel, CategoryMarking, is_releasability, validate,
}

pub record DowngradeConfig : Type 0 where
  pub intersect_releasability : Bool
  pub strip_non_target_categories : Bool

-- `DowngradeConfig::default`
unfoldable pub default_config : DowngradeConfig
default_config = record { intersect_releasability = true; strip_non_target_categories = true }

-- the cap on the classification
unfoldable pub cap_classification : SecurityDomain → ConfidentialityLabel → ConfidentialityLabel
cap_classification target l =
    if level_lt target.max_classification l.classification
    then record l { classification = target.max_classification }
    else l

-- `category.values.retain(|country| target.accepts_country(country))` on a releasability category
unfoldable pub intersect_category : SecurityDomain → CategoryMarking → CategoryMarking
intersect_category target c =
    if is_releasability c then record c { values = retain (accepts_country target) c.values } else c

-- the test of the `retain` over the categories
unfoldable pub keeps_category : CategoryMarking → Bool
keeps_category c = if is_releasability c then not (is_empty c.values) else true

unfoldable pub intersect_categories :
    SecurityDomain → DowngradeConfig → List CategoryMarking → List CategoryMarking
unfolding intersect_category keeps_category
intersect_categories target config categories =
    if config.intersect_releasability
    then (let intersected = map (intersect_category target) categories in
        if config.strip_non_target_categories
        then retain keeps_category intersected
        else intersected)
    else categories

-- the label that `downgraded_label_for_target` builds and validates
unfoldable pub effective_label :
    ConfidentialityLabel → SecurityDomain → DowngradeConfig → ConfidentialityLabel
unfolding cap_classification intersect_categories
effective_label l target config =
    let capped = cap_classification target l in
    record capped { categories = intersect_categories target config capped.categories }

unfoldable pub downgraded_label_for_target :
    ConfidentialityLabel → SecurityDomain → DowngradeConfig → LabelResult ConfidentialityLabel
unfolding effective_label
downgraded_label_for_target l target config =
    let effective = effective_label l target config in do validate effective; ok effective

unfoldable pub requires_downgrade : ConfidentialityLabel → SecurityDomain → Bool
requires_downgrade l target =
    level_lt target.max_classification l.classification
    && level_le unclassified target.max_classification

-- ===== src/Label/Confidentiality.antt =====
-- crates/mim-labeling/src/label.rs: category markings and the confidentiality label.
use ainext_gen_c.Base.{
  Bool, true, false, not, List, [], ◌∷◌, ◌++◌, Option, none, some, Text, text, is_empty,
  eq_ignore_ascii_case, ok, ◌>>◌, fail_if, if◌then◌else◌,
}
use ainext_gen_c.Model.Metadata.{DateTime}
use ainext_gen_c.Label.Classification.{ClassificationLevel, as_stanag_str}
use ainext_gen_c.Label.Error.{LabelResult, validation}
use ainext_gen_c.Label.Policy.{LabelPolicy, allows_classification}

pub data CategoryType : Type 0 where
  restrictive permissive informative : CategoryType

-- `category_type == CategoryType::Restrictive`
abbrev pub is_restrictive : CategoryType → Bool
is_restrictive restrictive = true
is_restrictive permissive = false
is_restrictive informative = false

pub record CategoryMarking : Type 0 where
  pub tag_name : Text
  pub category_type : CategoryType
  pub values : List Text

unfoldable pub releasable_to : List Text → CategoryMarking
releasable_to countries = record {
  tag_name = text "Releasable to";
  category_type = permissive;
  values = countries;
}

unfoldable pub handling_caveat : Text → CategoryMarking
handling_caveat caveat = record {
  tag_name = text "Handling";
  category_type = restrictive;
  values = caveat ∷ [];
}

-- `Vec<ConfidentialityLabel>` inside a label: the fields in their order, nested to any depth.
mutual
  pub data AlternativeLabel : Type 0 where
    alternative :
        LabelPolicy
        → ClassificationLevel
        → Option Text
        → Option Text
        → Option Text
        → List CategoryMarking
        → AlternativeLabels
        → Option DateTime
        → Option DateTime
        → AlternativeLabel

  pub data AlternativeLabels : Type 0 where
    no_alternative : AlternativeLabels
    more_alternatives : AlternativeLabel → AlternativeLabels → AlternativeLabels

pub record ConfidentialityLabel : Type 0 where
  pub policy : LabelPolicy
  pub classification : ClassificationLevel
  pub privacy_mark : Option Text
  pub colour : Option Text
  pub marking_data : Option Text
  pub categories : List CategoryMarking
  pub alternative_labels : AlternativeLabels
  pub creation_time : Option DateTime
  pub review_date_time : Option DateTime

-- `ConfidentialityLabel::new`
unfoldable pub new_label : LabelPolicy → ClassificationLevel → ConfidentialityLabel
new_label policy classification = record {
  policy = policy;
  classification = classification;
  privacy_mark = none;
  colour = none;
  marking_data = none;
  categories = [];
  alternative_labels = no_alternative;
  creation_time = none;
  review_date_time = none;
}

unfoldable pub with_colour : ConfidentialityLabel → Text → ConfidentialityLabel
with_colour l colour = record l { colour = some colour }

unfoldable pub with_marking_data : ConfidentialityLabel → Text → ConfidentialityLabel
with_marking_data l data' = record l { marking_data = some data' }

push_alternative : AlternativeLabels → AlternativeLabel → AlternativeLabels
push_alternative no_alternative a = more_alternatives a no_alternative
push_alternative (more_alternatives b rest) a = more_alternatives b (push_alternative rest a)

unfoldable pub with_alternative_label :
    ConfidentialityLabel → ConfidentialityLabel → ConfidentialityLabel
unfolding push_alternative
with_alternative_label l a = record l {
  alternative_labels = push_alternative l.alternative_labels (
      alternative a.policy a.classification a.privacy_mark a.colour a.marking_data a.categories
        a.alternative_labels a.creation_time a.review_date_time);
}

unfoldable pub with_category : ConfidentialityLabel → CategoryMarking → ConfidentialityLabel
with_category l category = record l { categories = l.categories ++ category ∷ [] }

unfoldable pub with_creation_time : ConfidentialityLabel → DateTime → ConfidentialityLabel
with_creation_time l time = record l { creation_time = some time }

unfoldable pub with_review_date_time : ConfidentialityLabel → DateTime → ConfidentialityLabel
with_review_date_time l time = record l { review_date_time = some time }

-- the loop of `validate` over the categories
unfoldable pub validate_categories : List CategoryMarking → LabelResult (Unit {0})
validate_categories [] = ok tt
validate_categories (c ∷ rest) =
    let later = validate_categories rest in
    do
      fail_if (is_empty c.tag_name) (validation (text "category tagName must not be empty"))
      fail_if (is_empty c.values)
          (validation (text "category '" ++ (c.tag_name ++ text "' requires at least one value")))
      later

-- `ConfidentialityLabel::validate`
unfoldable pub validate : ConfidentialityLabel → LabelResult (Unit {0})
unfolding validate_categories
validate l = do
  fail_if (is_empty l.policy.identifier) (validation (text "policy identifier is mandatory"))
  fail_if (not (allows_classification l.policy l.classification)) (
      validation (
        text "classification "
        ++ (as_stanag_str l.classification
            ++ (text " not allowed by policy " ++ l.policy.identifier))))
  validate_categories l.categories

unfoldable pub is_releasability : CategoryMarking → Bool
is_releasability c = eq_ignore_ascii_case c.tag_name (text "Releasable to")

unfoldable pub is_handling : CategoryMarking → Bool
is_handling c = eq_ignore_ascii_case c.tag_name (text "Handling")

-- the values of the categories that pass a test, in order
unfoldable pub values_of : (CategoryMarking → Bool) → List CategoryMarking → List Text
values_of p [] = []
values_of p (c ∷ rest) = (if p c then c.values else []) ++ values_of p rest

unfoldable pub releasable_countries : ConfidentialityLabel → List Text
unfolding values_of is_releasability
releasable_countries l = values_of is_releasability l.categories

unfoldable pub handling_caveats : ConfidentialityLabel → List Text
unfolding values_of is_handling
handling_caveats l = values_of is_handling l.categories

unfoldable pub restrictive_category_values : ConfidentialityLabel → List Text
unfolding values_of
restrictive_category_values l = values_of (λ c. is_restrictive c.category_type) l.categories

-- ===== src/Label/Classification.antt =====
-- crates/mim-labeling/src/classification.rs: the classification levels, low to high.
use ainext_gen_c.Base.{
  ℕ, Bool, List, [], ◌∷◌, Text, text, text_eq, trim, to_ascii_uppercase, ok, err, leb, ltb, ◌==◌,
  any, if◌then◌else◌,
}
use ainext_gen_c.Label.Error.{LabelResult, invalid_classification}

pub data ClassificationLevel : Type 0 where
  unmarked public unclassified internal restricted confidential secret cosmic_top_secret :
      ClassificationLevel

-- The derived order and equality go by the place in the declaration.
abbrev pub rank : ClassificationLevel → ℕ
rank unmarked = 0
rank public = 1
rank unclassified = 2
rank internal = 3
rank restricted = 4
rank confidential = 5
rank secret = 6
rank cosmic_top_secret = 7

abbrev pub level_eq : ClassificationLevel → ClassificationLevel → Bool
level_eq a b = rank a == rank b

abbrev pub level_lt : ClassificationLevel → ClassificationLevel → Bool
level_lt a b = ltb (rank a) (rank b)

abbrev pub level_le : ClassificationLevel → ClassificationLevel → Bool
level_le a b = leb (rank a) (rank b)

-- `ClassificationLevel::ALL`
abbrev pub all_levels : List ClassificationLevel
all_levels =
    unmarked ∷ public ∷ unclassified ∷ internal ∷ restricted ∷ confidential ∷ secret
    ∷ cosmic_top_secret ∷ []

-- one arm of the match in `parse`: the text is one of the spellings
abbrev pub one_of : Text → List Text → Bool
one_of s names = any (text_eq s) names

-- the match on the normalised text in `ClassificationLevel::parse`
unfoldable pub parse_normalized : Text → LabelResult ClassificationLevel
parse_normalized s =
    if one_of s (text "UNMARKED" ∷ [])
    then ok unmarked
    else if one_of s (text "PUBLIC" ∷ [])
    then ok public
    else if one_of s (text "UNCLASSIFIED" ∷ text "NATO UNCLASSIFIED" ∷ [])
    then ok unclassified
    else if one_of s (text "INTERNAL" ∷ [])
    then ok internal
    else if one_of s (text "RESTRICTED" ∷ text "NATO RESTRICTED" ∷ [])
    then ok restricted
    else if one_of s (
        text "CONFIDENTIAL"
        ∷ text "NATO CONFIDENTIAL"
        ∷ text "NATO/EAPC CONFIDENTIAL"
        ∷ text "NATO/KFOR CONFIDENTIAL"
        ∷ [])
    then ok confidential
    else if one_of s (text "SECRET" ∷ text "NATO SECRET" ∷ [])
    then ok secret
    else if one_of s (text "TOP SECRET" ∷ text "COSMIC TOP SECRET" ∷ text "COSMIC_TOP_SECRET" ∷ [])
    then ok cosmic_top_secret
    else err (invalid_classification s)

-- `ClassificationLevel::parse`
unfoldable pub parse : Text → LabelResult ClassificationLevel
parse value = parse_normalized (to_ascii_uppercase (trim value))

-- `ClassificationLevel::as_stanag_str`
unfoldable pub as_stanag_str : ClassificationLevel → Text
as_stanag_str unmarked = text "UNMARKED"
as_stanag_str public = text "PUBLIC"
as_stanag_str unclassified = text "UNCLASSIFIED"
as_stanag_str internal = text "INTERNAL"
as_stanag_str restricted = text "RESTRICTED"
as_stanag_str confidential = text "CONFIDENTIAL"
as_stanag_str secret = text "SECRET"
as_stanag_str cosmic_top_secret = text "COSMIC TOP SECRET"

-- `ClassificationLevel::can_release_to`
unfoldable pub can_release_to : ClassificationLevel → ClassificationLevel → Bool
can_release_to level target_max = level_le level target_max

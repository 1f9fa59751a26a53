-- ===== src/Label/Security.antt =====
-- crates/mim-labeling/src/label.rs: the bridge to the security metadata of a MIM instance.
use ainext_gen_c.Base.{
  ℕ, Bool, not, ◌||◌, List, [], ◌∷◌, map, Option, none, some, Text, text, is_empty, retain, split,
  join, to_uppercase, ok, ◌>>=◌, ◌==◌, if◌then◌else◌,
}
use ainext_gen_c.Core.Nillable.{value, absent, as_option}
use ainext_gen_c.Model.Metadata.{SecurityClassification}
use ainext_gen_c.Label.Error.{LabelResult}
use ainext_gen_c.Label.Classification.{parse, as_stanag_str}
use ainext_gen_c.Label.Policy.{nato, with_identifier}
use ainext_gen_c.Label.Confidentiality.{
  ConfidentialityLabel, new_label, with_category, releasable_to, releasable_countries,
}

-- `unwrap_or`
abbrev pub or_default : Option Text → Text → Text
or_default none d = d
or_default (some s) d = s

-- the separators `[',', ';', ' ']`
unfoldable pub is_separator : ℕ → Bool
is_separator c = c == b',' || c == b';' || c == 32

-- the country list of a releasability text
unfoldable pub parse_countries : (ℕ → Text) → Text → List Text
unfolding is_separator
parse_countries upper s =
    map (to_uppercase upper) (retain (λ w. not (is_empty w)) (split is_separator s))

unfoldable pub add_releasability :
    (ℕ → Text) → Option Text → ConfidentialityLabel → ConfidentialityLabel
unfolding parse_countries
add_releasability upper none l = l
add_releasability upper (some s) l =
    let countries = parse_countries upper s in
    if is_empty countries then l else with_category l (releasable_to countries)

-- `ConfidentialityLabel::from_mim_security`; `upper` are the tables of `str::to_uppercase`
unfoldable pub from_mim_security :
    (ℕ → Text) → SecurityClassification → LabelResult ConfidentialityLabel
unfolding add_releasability
from_mim_security upper s =
    let policy_id = or_default (as_option s.policy) (text "NATO") in
    let policy = with_identifier nato policy_id in
    let classification_str = or_default (as_option s.classification) (text "UNCLASSIFIED") in
    do
      classification ← parse classification_str
      ok (add_releasability upper (as_option s.releasability) (new_label policy classification))

-- `ConfidentialityLabel::to_mim_security`
unfoldable pub to_mim_security : ConfidentialityLabel → SecurityClassification
to_mim_security l =
    let releasability = join (b',' ∷ []) (releasable_countries l) in
    record {
      policy = value l.policy.identifier;
      classification = value (as_stanag_str l.classification);
      releasability = if is_empty releasability then absent else value releasability;
    }

-- ===== src/Label/Parsing.antt =====
-- crates/mim-labeling/src/classification.rs and domain.rs: how texts are read as levels, and how
-- names are compared.
use ainext_gen_c.Base.{
  ℕ, true, ◌≡◌, refl, sym, ap, ◌∙◌, List, [], ◌∷◌, map, Text, text, text_eq, text_eq_iff,
  ascii_upper, to_ascii_uppercase, eq_ignore_ascii_case, is_whitespace, trim_start, trim, any, ok,
  Bool-cases, inl, inr, arith,
}
use mathlib.Core.List.{reverse, reverse_aux}
use ainext_gen_c.Label.Classification.{
  ClassificationLevel, unmarked, public, unclassified, internal, restricted, confidential, secret,
  cosmic_top_secret, parse, parse_normalized, as_stanag_str,
}
use ainext_gen_c.Label.Domain.{
  SecurityDomain, lists_ignoring_case, accepts_country, accepts_mission,
}

-- Every level is read back from its STANAG text.
pub parse-as_stanag_str : (c : ClassificationLevel) → parse (as_stanag_str c) ≡ ok c
unfolding parse parse_normalized as_stanag_str trim trim_start is_whitespace to_ascii_uppercase
    ascii_upper text_eq text any
parse-as_stanag_str unmarked = refl
parse-as_stanag_str public = refl
parse-as_stanag_str unclassified = refl
parse-as_stanag_str internal = refl
parse-as_stanag_str restricted = refl
parse-as_stanag_str confidential = refl
parse-as_stanag_str secret = refl
parse-as_stanag_str cosmic_top_secret = refl

is_whitespace-ascii_upper : (c : ℕ) → is_whitespace (ascii_upper c) ≡ is_whitespace c
unfolding is_whitespace ascii_upper
is_whitespace-ascii_upper c = ground arith

trim_start-map : (s : Text) → trim_start (map ascii_upper s) ≡ map ascii_upper (trim_start s)
unfolding trim_start
trim_start-map [] = refl
trim_start-map (c ∷ s) = elim (Bool-cases (is_whitespace c)) [
  | inl h ↦ rw (is_whitespace-ascii_upper c, h) (trim_start-map s)
  | inr h ↦ rw (is_whitespace-ascii_upper c, h) refl
]

map-reverse :
    (s t : Text)
    → map ascii_upper (reverse_aux s t) ≡ reverse_aux (map ascii_upper s) (map ascii_upper t)
map-reverse [] t = refl
map-reverse (c ∷ s) t = map-reverse s (c ∷ t)

trim-to_ascii_uppercase : (s : Text) → trim (to_ascii_uppercase s) ≡ to_ascii_uppercase (trim s)
unfolding trim to_ascii_uppercase
trim-to_ascii_uppercase s =
    ap (λ t. reverse (trim_start (reverse t))) (trim_start-map s)
    ∙ ap (λ t. reverse (trim_start t)) (sym (map-reverse (trim_start s) []))
    ∙ ap reverse (trim_start-map (reverse (trim_start s)))
    ∙ sym (map-reverse (trim_start (reverse (trim_start s))) [])

ascii_upper_idem : (c : ℕ) → ascii_upper (ascii_upper c) ≡ ascii_upper c
unfolding ascii_upper
ascii_upper_idem c = ground arith

to_ascii_uppercase_idem :
    (s : Text) → to_ascii_uppercase (to_ascii_uppercase s) ≡ to_ascii_uppercase s
unfolding to_ascii_uppercase
to_ascii_uppercase_idem [] = refl
to_ascii_uppercase_idem (c ∷ s) = rw (ascii_upper_idem c, to_ascii_uppercase_idem s) refl

parse-upper : (s : Text) → parse s ≡ parse_normalized (trim (to_ascii_uppercase s))
unfolding parse
parse-upper s = ap parse_normalized (sym (trim-to_ascii_uppercase s))

-- Texts that differ in ASCII case only are read alike, errors included.
pub parse-ignores_case : (s t : Text) → eq_ignore_ascii_case s t ≡ true → parse s ≡ parse t
unfolding eq_ignore_ascii_case
parse-ignores_case s t h =
    parse-upper s
    ∙ ap (λ u. parse_normalized (trim u)) ((text_eq_iff _ _).0 h)
    ∙ sym (parse-upper t)

lists_ignoring_case_lem :
    (names : List Text) (s t : Text)
    → eq_ignore_ascii_case s t ≡ true
    → lists_ignoring_case names s ≡ lists_ignoring_case names t
unfolding lists_ignoring_case eq_ignore_ascii_case
lists_ignoring_case_lem names s t h =
    ap (λ u. any (λ c. text_eq (to_ascii_uppercase c) u) names) ((text_eq_iff _ _).0 h)

-- A domain compares countries and missions without regard to ASCII case.
pub accepts-ignores_case :
    (d : SecurityDomain) (s t : Text)
    → eq_ignore_ascii_case s t ≡ true
    → (accepts_country d s ≡ accepts_country d t) × (accepts_mission d s ≡ accepts_mission d t)
unfolding accepts_country accepts_mission
accepts-ignores_case d s t h = (
  rw
      (
        lists_ignoring_case_lem d.accepted_nationalities s t h,
        lists_ignoring_case_lem d.releasable_to s t h,
      )
      refl,
  rw (lists_ignoring_case_lem d.mission_compartments s t h) refl,
)

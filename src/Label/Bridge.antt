-- ===== src/Label/Bridge.antt =====
-- crates/mim-labeling/src/label.rs: the bridge to MIM security metadata, there and back.
use ainext_gen_c.Base.{
  ℕ, Bool, true, false, not, ◌≡◌, refl, sym, ap, ◌∙◌, List, [], ◌∷◌, ◌++◌, map, append-nil, Text,
  text, is_empty, All, retain, split, extend_first, join, to_uppercase, ok, arith,
  eq_ignore_ascii_case, to_ascii_uppercase, ascii_upper, text_eq,
}
use ainext_gen_c.Label.Policy.{nato, with_identifier}
use ainext_gen_c.Label.Confidentiality.{
  ConfidentialityLabel, new_label, releasable_to, releasable_countries, with_category, values_of,
  is_releasability,
}
use ainext_gen_c.Label.Security.{
  is_separator, parse_countries, add_releasability, from_mim_security, to_mim_security,
}
use ainext_gen_c.Label.Parsing.{parse-as_stanag_str}

module _ (sep : ℕ → Bool) where
  -- no character of the word is a separator
  abbrev pub IsWord : Text → Type 0
  IsWord w = All (λ c. sep c ≡ false) w

  split-word : (w : Text) → IsWord w → split sep w ≡ w ∷ []
  unfolding split extend_first
  split-word [] h = refl
  split-word (c ∷ w) h = rw (h.0, split-word w h.1) refl

  split-append :
      (w : Text) (c : ℕ) (s : Text)
      → IsWord w
      → sep c ≡ true
      → split sep (w ++ c ∷ s) ≡ w ∷ split sep s
  unfolding split extend_first
  split-append [] c s h e = rw e refl
  split-append (d ∷ w) c s h e = rw (h.0, split-append w c s h.1 e) refl

  split-join :
      (c : ℕ) (w : Text) (ws : List Text)
      → sep c ≡ true
      → All IsWord (w ∷ ws)
      → split sep (join (c ∷ []) (w ∷ ws)) ≡ w ∷ ws
  unfolding join
  split-join c w [] e h = split-word w h.0
  split-join c w (v ∷ ws) e h =
      split-append w c (join (c ∷ []) (v ∷ ws)) h.0 e ∙ ap (λ r. w ∷ r) (split-join c v ws e h.1)

comma-is_separator : is_separator b',' ≡ true
unfolding is_separator
comma-is_separator = refl

-- a country code as the bridge writes it: not empty, without separators, in upper case
pub record IsCountry (upper : ℕ → Text) (w : Text) : Type 0 where
  pub filled : is_empty w ≡ false
  pub word : IsWord is_separator w
  pub upper_case : to_uppercase upper w ≡ w

module _ (upper : ℕ → Text) where
  words : (ws : List Text) → All (IsCountry upper) ws → All (IsWord is_separator) ws
  words [] h = tt
  words (w ∷ ws) h = ((h.0).word, words ws h.1)

  kept :
      (ws : List Text)
      → All (IsCountry upper) ws
      → map (to_uppercase upper) (retain (λ w. not (is_empty w)) ws) ≡ ws
  unfolding retain
  kept [] h = refl
  kept (w ∷ ws) h = rw ((h.0).filled, (h.0).upper_case, kept ws h.1) refl

  -- Country codes that are joined by commas are read back.
  parse_countries-join :
      (w : Text) (ws : List Text)
      → All (IsCountry upper) (w ∷ ws)
      → parse_countries upper (join (b',' ∷ []) (w ∷ ws)) ≡ w ∷ ws
  unfolding parse_countries
  parse_countries-join w ws h =
      rw (split-join is_separator b',' w ws comma-is_separator (words (w ∷ ws) h)) (kept (w ∷ ws) h)

  join-filled :
      (w : Text) (ws : List Text)
      → is_empty w ≡ false
      → is_empty (join (b',' ∷ []) (w ∷ ws)) ≡ false
  unfolding join
  join-filled [] ws h = ground arith
  join-filled (c ∷ w) [] h = refl
  join-filled (c ∷ w) (v ∷ ws) h = refl

  releasable_countries-with :
      (l : ConfidentialityLabel) (cs : List Text)
      → l.categories ≡ []
      → releasable_countries (with_category l (releasable_to cs)) ≡ cs
  unfolding releasable_countries with_category releasable_to values_of is_releasability
      eq_ignore_ascii_case to_ascii_uppercase ascii_upper text_eq text
  releasable_countries-with l cs e = rw e (append-nil cs)

-- What a label keeps on its way through MIM security metadata and back: the policy's name, the
-- level and the releasable countries.
pub record IsBridged (l m : ConfidentialityLabel) : Type 0 where
  pub identifier : m.policy.identifier ≡ l.policy.identifier
  pub classification : m.classification ≡ l.classification
  pub countries : releasable_countries m ≡ releasable_countries l

through :
    (upper : ℕ → Text) (l : ConfidentialityLabel) (cs : List Text)
    → releasable_countries l ≡ cs
    → All (IsCountry upper) cs
    → (m : ConfidentialityLabel) × (from_mim_security upper (to_mim_security l) ≡ ok m)
      × IsBridged l m
unfolding from_mim_security to_mim_security add_releasability with_identifier join
    releasable_countries new_label values_of with_category
through upper l [] e h =
    rw (e, parse-as_stanag_str l.classification)
      (_, refl, record { identifier = refl; classification = refl; countries = sym e })
through upper l (w ∷ ws) e h =
    rw
      (
        e,
        join-filled upper w ws (h.0).filled,
        parse-as_stanag_str l.classification,
        parse_countries-join upper w ws h,
      )
      (
        _,
        refl,
        record {
          identifier = refl;
          classification = refl;
          countries =
              releasable_countries-with upper
                (new_label (with_identifier nato l.policy.identifier) l.classification) (w ∷ ws)
                refl
              ∙ sym e;
        },
      )

-- A label whose releasable countries are non-empty upper-case words is read back from the MIM
-- security metadata that it is written to, with the same policy name, level and countries.
pub from_mim_security-to_mim_security :
    (upper : ℕ → Text) (l : ConfidentialityLabel)
    → All (IsCountry upper) (releasable_countries l)
    → (m : ConfidentialityLabel) × (from_mim_security upper (to_mim_security l) ≡ ok m)
      × IsBridged l m
from_mim_security-to_mim_security upper l h = through upper l (releasable_countries l) refl h

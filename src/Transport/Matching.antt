-- ===== src/Transport/Matching.antt =====
-- crates/mim-transport/src/filter.rs: which instances match a filter expression.
use ainext_gen_c.Base.{
  ◌≡◌, ◌↔◌, refl, inl, inr, Bool, true, false, List, [], ◌∷◌, some, Text, text, text_eq_iff,
  trim_of, All, all, arith, Option-cases,
}
use ainext_gen_c.Core.Nillable.{Nillable, value, nil, absent}
use ainext_gen_c.Runtime.Instance.{
  Json, JsonView, string_view, number_view, bool_view, object_view, other_view, PropertyValue,
  MimInstance, property,
}
use ainext_gen_c.Transport.Filter.{
  FilterPredicate, FilterExpression, property_value_matches, predicate_matches, instance_matches,
}

module _ (json : Json) where
  -- a JSON value has a text: its own, or that of its JSON without the quotes around it
  abbrev pub ShowsView : JsonView json.Value → json.Value → Text → Type 0
  ShowsView (string_view s) v expected = s ≡ expected
  ShowsView (number_view s) v expected = s ≡ expected
  ShowsView (bool_view true) v expected = text "true" ≡ expected
  ShowsView (bool_view false) v expected = text "false" ≡ expected
  ShowsView _ v expected = trim_of b'"' (json.to_string v) ≡ expected

  -- an instance has a property of the predicate's name, with a value of the predicate's text
  abbrev pub Carries : MimInstance json → FilterPredicate → Type 0
  Carries i p =
      (q : PropertyValue json) × (property json i p.property_name ≡ some q)
      × (v : json.Value) × (q.value ≡ value v)
      × ShowsView (json.view v) v p.value

  -- an instance is of the class of a filter and carries all its predicates
  abbrev pub Matches : MimInstance json → FilterExpression → Type 0
  Matches i f = (i.class_name ≡ f.class_name) × All (Carries i) f.predicates

  property_value_matches-view :
      (v : json.Value) (expected : Text) (w : JsonView json.Value)
      → json.view v ≡ w
      → (property_value_matches json v expected ≡ true) ↔ ShowsView w v expected
  unfolding property_value_matches
  property_value_matches-view v expected (string_view s) seen =
      rw (property_value_matches, seen) (text_eq_iff s expected)
  property_value_matches-view v expected (number_view s) seen =
      rw (property_value_matches, seen) (text_eq_iff s expected)
  property_value_matches-view v expected (bool_view true) seen =
      rw (property_value_matches, seen) (text_eq_iff (text "true") expected)
  property_value_matches-view v expected (bool_view false) seen =
      rw (property_value_matches, seen) (text_eq_iff (text "false") expected)
  property_value_matches-view v expected (object_view members) seen =
      rw (property_value_matches, seen) (text_eq_iff (trim_of b'"' (json.to_string v)) expected)
  property_value_matches-view v expected other_view seen =
      rw (property_value_matches, seen) (text_eq_iff (trim_of b'"' (json.to_string v)) expected)

  predicate_matches-Carries :
      (i : MimInstance json) (p : FilterPredicate) (q : PropertyValue json)
      (w : Nillable json.Value)
      → property json i p.property_name ≡ some q
      → q.value ≡ w
      → predicate_matches json i p ≡ true
      → Carries i p
  unfolding predicate_matches
  predicate_matches-Carries i p q (value v) found held h =
      let shown = property_value_matches-view v p.value (json.view v) refl in
      (q, found, v, held, shown.0 (ground (arith, h, found, held)))
  predicate_matches-Carries i p q (nil reason) found held h =
      absurd (ground (arith, h, found, held))
  predicate_matches-Carries i p q absent found held h = absurd (ground (arith, h, found, held))

  predicate_matches_iff :
      (i : MimInstance json) (p : FilterPredicate)
      → (predicate_matches json i p ≡ true) ↔ Carries i p
  unfolding predicate_matches
  predicate_matches_iff i p = (
    λ h. elim (Option-cases (property json i p.property_name)) [
      | inl missing ↦ absurd (ground (arith, h, missing))
      | inr (q, found) ↦ predicate_matches-Carries i p q q.value found refl h
    ],
    λ (q, found, v, held, shows).
        rw (predicate_matches, found, held)
          ((property_value_matches-view v p.value (json.view v) refl).1 shows),
  )

  all_iff :
      {A : Type 0} (p : A → Bool) (P : A → Type 0) (decides : (x : A) → (p x ≡ true) ↔ P x)
      (xs : List A)
      → (all p xs ≡ true) ↔ All P xs
  unfolding all
  all_iff p P decides [] = (λ h. tt, λ h. refl)
  all_iff p P decides (x ∷ xs) =
      let rest = all_iff p P decides xs in
      (
        λ h. ((decides x).0 (ground (arith, h)), rest.0 (ground (arith, h))),
        λ h. ground (arith, (decides x).1 h.0, rest.1 h.1),
      )

  pub instance_matches_iff :
      (i : MimInstance json) (f : FilterExpression)
      → (instance_matches json i f ≡ true) ↔ Matches i f
  unfolding instance_matches
  instance_matches_iff i f =
      let named = text_eq_iff i.class_name f.class_name in
      let carried =
        all_iff (predicate_matches json i) (Carries i) (predicate_matches_iff i) f.predicates in
      (
        λ h. (named.0 (ground (arith, h)), carried.0 (ground (arith, h))),
        λ h. ground (arith, named.1 h.0, carried.1 h.1),
      )

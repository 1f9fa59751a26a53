-- ===== src/Transport/Refusal.antt =====
-- crates/mim-transport/src/filter.rs: what the parser of filters returns on every text.
use ainext_gen_c.Base.{
  ℕ, zero, suc, ◌<◌, ◌≡◌, refl, inl, inr, Bool, true, false, not, ◌||◌, List, [], ◌∷◌, ◌++◌, Text,
  text, is_empty, length, drop, trim, starts_with, cut, All, ok, err, ◌>>=◌, fail_if, ◌==◌, arith,
  Bool-cases, Option-cases,
}
use ainext_gen_c.Transport.Message.{TransportError, TransportResult, invalid_request}
use ainext_gen_c.Transport.Filter.{
  FilterPredicate, FilterExpression, split_last, unquote, parse_quoted_value, strip_prefix,
  strip_suffix, parse_named, parse_test, parse_predicate, parse_predicates, parse_class, parse_body,
  parse_filter,
}

-- the error says that the request is invalid
abbrev pub is_invalid_request : TransportError → Bool
is_invalid_request (invalid_request m) = true
is_invalid_request _ = false

-- a value that satisfies the predicate, or the error of an invalid request
abbrev pub Outcome {ℓ} : {A : Type ℓ} → (A → Type 0) → TransportResult A → Type 0
Outcome P (ok a) = P a
Outcome P (err e) = is_invalid_request e ≡ true

module _ {ℓ κ} {A : Type ℓ} {B : Type κ} where
  >>=-Outcome :
      (P : A → Type 0) (Q : B → Type 0) (first : TransportResult A) (next : A → TransportResult B)
      → Outcome P first
      → ((a : A) → P a → Outcome Q (next a))
      → Outcome Q (first >>= next)
  >>=-Outcome P Q (ok a) next h i = i a h
  >>=-Outcome P Q (err e) next h i = h

fail_if-Outcome :
    (test : Bool) (m : Text) → Outcome (λ done. test ≡ false) (fail_if test (invalid_request m))
fail_if-Outcome true m = refl
fail_if-Outcome false m = refl

Outcome-map {ℓ} :
    {A : Type ℓ} (P Q : A → Type 0) (r : TransportResult A)
    → ((a : A) → P a → Q a)
    → Outcome P r
    → Outcome Q r
Outcome-map P Q (ok a) f h = f a h
Outcome-map P Q (err e) f h = h

abbrev IsNamed : FilterPredicate → Type 0
IsNamed p = is_empty p.property_name ≡ false

unquote-Outcome : (q : ℕ) (s : Text) → Outcome (λ v. Unit {0}) (unquote q s)
unfolding unquote
unquote-Outcome q [] = refl
unquote-Outcome q (c ∷ s) = elim (Bool-cases ((split_last c s).1 == q)) [
  | inl h ↦ rw h tt
  | inr h ↦ rw h refl
]

parse_quoted_value-Outcome : (s : Text) → Outcome (λ v. Unit {0}) (parse_quoted_value s)
unfolding parse_quoted_value
parse_quoted_value-Outcome [] = refl
parse_quoted_value-Outcome (q ∷ s) = elim (Bool-cases (q == b'\'' || q == b'"')) [
  | inl h ↦ rw h (unquote-Outcome q s)
  | inr h ↦ rw h refl
]

parse_named-Outcome : (whole name raw : Text) → Outcome IsNamed (parse_named whole name raw)
unfolding parse_named
parse_named-Outcome whole name raw =
    >>=-Outcome (λ done. is_empty (trim name) ≡ false) IsNamed _ _
      (fail_if-Outcome (is_empty (trim name)) _)
      (λ done named.
        >>=-Outcome (λ v. Unit {0}) IsNamed _ _ (parse_quoted_value-Outcome _) (λ v h. named))

parse_test-Outcome : (whole inner : Text) → Outcome IsNamed (parse_test whole inner)
unfolding parse_test
parse_test-Outcome whole inner = elim (Option-cases (cut b'=' inner)) [
  | inl missing ↦ rw (parse_test, missing) refl
  | inr (c, found) ↦ rw (parse_test, found) (parse_named-Outcome whole c.before _)
]

parse_predicate-Outcome : (s : Text) → Outcome IsNamed (parse_predicate s)
unfolding parse_predicate
parse_predicate-Outcome s = elim (Option-cases (strip_prefix b'[' s)) [
  | inl closed ↦ rw (parse_predicate, closed) refl
  | inr (o, opened) ↦ elim (Option-cases (strip_suffix b']' o)) [
    | inl open' ↦ rw (parse_predicate, opened, open') refl
    | inr (i, inside) ↦ rw (parse_predicate, opened, inside) (parse_test-Outcome s _)
  ]
]

abbrev IsNamedRest : List FilterPredicate × Text → Type 0
IsNamedRest r = All IsNamed r.0

prepend-Outcome :
    (p : FilterPredicate) (r : TransportResult (List FilterPredicate × Text))
    → IsNamed p
    → Outcome IsNamedRest r
    → Outcome IsNamedRest
        (◌>>=◌ {B = List FilterPredicate × Text} r (λ later. ok (p ∷ later.0, later.1)))
prepend-Outcome p (ok later) named h = (named, h)
prepend-Outcome p (err e) named h = h

parse_predicates-Outcome :
    (fuel : ℕ) (expression cursor : Text) (enough : length cursor < fuel)
    → Outcome IsNamedRest (parse_predicates fuel expression cursor enough)
unfolding parse_predicates
parse_predicates-Outcome zero expression cursor enough = absurd (omega (arith, enough))
parse_predicates-Outcome (suc fuel) expression cursor enough =
    elim (Bool-cases (starts_with cursor (b'[' ∷ []))) [
      | inr last ↦ rw (parse_predicates, last) tt
      | inl more ↦ elim (Option-cases (cut b']' cursor)) [
        | inl missing ↦ rw (parse_predicates, more, missing) refl
        | inr (c, found) ↦
            rw (parse_predicates, more, found)
              (>>=-Outcome IsNamed IsNamedRest (parse_predicate (c.before ++ b']' ∷ [])) _
                (parse_predicate-Outcome (c.before ++ b']' ∷ []))
                (λ p named.
                  prepend-Outcome p _ named (parse_predicates-Outcome fuel expression c.after _)))
      ]
    ]

-- the filter has a class, and its predicates have names
abbrev pub IsNamedFilter : FilterExpression → Type 0
IsNamedFilter f = (is_empty f.class_name ≡ false) × All IsNamed f.predicates

parse_class-Outcome :
    (expression c cursor : Text) → Outcome IsNamedFilter (parse_class expression c cursor)
unfolding parse_class
parse_class-Outcome expression c cursor =
    >>=-Outcome (λ done. is_empty (trim c) ≡ false) IsNamedFilter (fail_if (is_empty (trim c)) _) _
      (fail_if-Outcome (is_empty (trim c)) _)
      (λ done named.
        >>=-Outcome IsNamedRest IsNamedFilter
          (parse_predicates (suc (length cursor)) expression cursor _) _
          (parse_predicates-Outcome (suc (length cursor)) expression cursor _)
          (λ r names.
            >>=-Outcome (λ e. not (is_empty (trim r.1)) ≡ false) IsNamedFilter
              (fail_if (not (is_empty (trim r.1))) _) _
              (fail_if-Outcome (not (is_empty (trim r.1))) _) (λ e h. (named, names))))

parse_body-Outcome : (expression body : Text) → Outcome IsNamedFilter (parse_body expression body)
unfolding parse_body
parse_body-Outcome expression body = elim (Option-cases (cut b'[' body)) [
  | inl whole ↦ rw (parse_body, whole) (parse_class-Outcome expression body [])
  | inr (c, found) ↦ rw (parse_body, found) (parse_class-Outcome expression c.before _)
]

-- Every text is read as a filter, and then starts with two slashes after its white space, and the
-- filter has a class and a name in each predicate, or it is refused as an invalid request.
pub parse_filter-Outcome :
    (s : Text)
    → Outcome (λ f. (starts_with (trim s) (text "//") ≡ true) × IsNamedFilter f) (parse_filter s)
unfolding parse_filter
parse_filter-Outcome s = elim (Bool-cases (starts_with (trim s) (text "//"))) [
  | inr other ↦ rw other refl
  | inl slashes ↦ rw slashes (
      Outcome-map IsNamedFilter (λ f. (true ≡ true) × IsNamedFilter f) _ (λ f named. (refl, named))
        (parse_body-Outcome s (drop 2 (trim s))))
]

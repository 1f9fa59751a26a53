-- ===== src/Transport/Filter.antt =====
-- crates/mim-transport/src/filter.rs: the filter expressions of a query, their parser, and the
-- instances that they match.
use ainext_gen_c.Base.{
  ℕ, zero, suc, ◌<◌, Bool, true, false, not, ◌&&◌, List, [], ◌∷◌, ◌++◌, Option, none, some, Text,
  text, text_eq, length, is_empty, all, drop, trim, starts_with, trim_start_of, trim_of, cut, ok,
  err, ◌>>=◌, ◌>>◌, fail_if, ok_or, ◌==◌, ◌||◌, arith, if◌then◌else◌,
}
use ainext_gen_c.Core.Nillable.{as_option}
use ainext_gen_c.Runtime.Instance.{
  Json, string_view, number_view, bool_view, object_view, other_view, MimInstance, property,
}
use ainext_gen_c.Transport.Message.{TransportResult, invalid_request}

pub record FilterPredicate : Type 0 where
  pub property_name : Text
  pub value : Text

pub record FilterExpression : Type 0 where
  pub class_name : Text
  pub predicates : List FilterPredicate

-- the last character of a text that is not empty, and what stands before it
unfoldable pub split_last : ℕ → Text → Text × ℕ
split_last c [] = ([], c)
split_last c (d ∷ s) = let (init, last) = split_last d s in (c ∷ init, last)

-- the end of `parse_quoted_value`: what stands between the quotes
unfoldable pub unquote : ℕ → Text → TransportResult Text
unfolding split_last
unquote quote [] = err (invalid_request (text "unterminated predicate value: " ++ quote ∷ []))
unquote quote (c ∷ s) =
    let (init, last) = split_last c s in
    if last == quote
    then ok init
    else err (invalid_request (text "unterminated predicate value: " ++ quote ∷ (c ∷ s)))

-- `parse_quoted_value`. The quote is one byte, and no other character holds its byte, so the test
-- on the last byte is one on the last character.
unfoldable pub parse_quoted_value : Text → TransportResult Text
unfolding unquote
parse_quoted_value [] = err (invalid_request (text "predicate value must be quoted"))
parse_quoted_value (quote ∷ rest) =
    if not (quote == b'\'' || quote == b'"')
    then err (invalid_request (text "predicate value must be quoted: " ++ quote ∷ rest))
    else unquote quote rest

-- `str::strip_prefix` of a character
unfoldable pub strip_prefix : ℕ → Text → Option Text
strip_prefix c [] = none
strip_prefix c (d ∷ s) = if d == c then some s else none

-- `str::strip_suffix` of a character
unfoldable pub strip_suffix : ℕ → Text → Option Text
unfolding split_last
strip_suffix c [] = none
strip_suffix c (d ∷ s) = let (init, last) = split_last d s in if last == c then some init else none

-- the end of `parse_predicate`, on the name and the text from the equals sign on
unfoldable pub parse_named : Text → Text → Text → TransportResult FilterPredicate
parse_named text' name raw_value = do
  fail_if (is_empty (trim name))
      (invalid_request (text "predicate missing property name: " ++ text'))
  value ← parse_quoted_value (trim (trim_start_of b'=' raw_value))
  ok (record { property_name = trim name; value = value })

-- the middle of `parse_predicate`, on the text between the brackets
unfoldable pub parse_test : Text → Text → TransportResult FilterPredicate
unfolding parse_named
parse_test text' inner = elim (cut b'=' inner) [
  | none ↦ err (invalid_request (text "predicate missing =: " ++ text'))
  | some c ↦ parse_named text' c.before (b'=' ∷ c.after)
]

-- `parse_predicate`
unfoldable pub parse_predicate : Text → TransportResult FilterPredicate
unfolding parse_test strip_prefix strip_suffix
parse_predicate text' = do
  opened ←
      ok_or (strip_prefix b'[' text')
        (invalid_request (text "malformed filter predicate: " ++ text'))
  inner ←
      ok_or (strip_suffix b']' opened)
        (invalid_request (text "malformed filter predicate: " ++ text'))
  parse_test text' (trim (trim_start_of b'@' (trim inner)))

-- the loop of `parse_filter` over the predicates, with the text that is left: a round takes a
-- bracket at least, so `fuel` above the length is enough
unfoldable pub parse_predicates :
    (fuel : ℕ)
    → Text
    → (cursor : Text) → length cursor < fuel
    → TransportResult (List FilterPredicate × Text)
unfolding parse_predicate
parse_predicates zero expression cursor enough = absurd (omega (arith, enough))
parse_predicates (suc fuel) expression cursor enough = elim (starts_with cursor (b'[' ∷ [])) [
  | false ↦ ok ([], cursor)
  | true ↦ elim (cut b']' cursor) [
    | none ↦ err (invalid_request (text "unclosed predicate in " ++ expression))
    | some c ↦ do
      predicate ← parse_predicate (c.before ++ b']' ∷ [])
      (predicates, rest) ←
          parse_predicates fuel expression c.after (omega (arith, c.shorter, enough))
      ok (predicate ∷ predicates, rest)
  ]
]

-- the rest of `parse_filter`, on the text of the class and the text from the first bracket on
unfoldable pub parse_class : Text → Text → Text → TransportResult FilterExpression
unfolding parse_predicates
parse_class expression class_name cursor = do
  fail_if (is_empty (trim class_name)) (invalid_request (text "filter missing class name after //"))
  (predicates, rest) ← parse_predicates (suc (length cursor)) expression cursor (omega arith)
  fail_if (not (is_empty (trim rest)))
      (invalid_request (text "unexpected trailing filter text: '" ++ rest ++ text "'"))
  ok (record { class_name = trim class_name; predicates = predicates })

-- the text after the slashes, cut at its first bracket
unfoldable pub parse_body : Text → Text → TransportResult FilterExpression
unfolding parse_class
parse_body expression body = elim (cut b'[' body) [
  | none ↦ parse_class expression body []
  | some c ↦ parse_class expression c.before (b'[' ∷ c.after)
]

-- `parse_filter`
unfoldable pub parse_filter : Text → TransportResult FilterExpression
unfolding parse_body
parse_filter expression = do
  fail_if (not (starts_with (trim expression) (text "//")))
      (invalid_request (text "filter must start with //, got '" ++ expression ++ text "'"))
  parse_body expression (drop 2 (trim expression))

module _ (json : Json) where
  -- `property_value_matches`
  unfoldable pub property_value_matches : json.Value → Text → Bool
  property_value_matches actual expected = elim (json.view actual) [
    | string_view s ↦ text_eq s expected
    | number_view s ↦ text_eq s expected
    | bool_view flag ↦ text_eq (if flag then text "true" else text "false") expected
    | object_view members ↦ text_eq (trim_of b'"' (json.to_string actual)) expected
    | other_view ↦ text_eq (trim_of b'"' (json.to_string actual)) expected
  ]

  -- the closure over the predicates in `instance_matches`
  unfoldable pub predicate_matches : MimInstance json → FilterPredicate → Bool
  unfolding property_value_matches
  predicate_matches i predicate = elim (property json i predicate.property_name) [
    | none ↦ false
    | some p ↦ elim (as_option p.value) [
      | none ↦ false
      | some v ↦ property_value_matches v predicate.value
    ]
  ]

  -- `instance_matches`
  unfoldable pub instance_matches : MimInstance json → FilterExpression → Bool
  unfolding predicate_matches
  instance_matches i filter =
      text_eq i.class_name filter.class_name && all (predicate_matches i) filter.predicates

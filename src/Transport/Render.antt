-- ===== src/Transport/Render.antt =====
-- crates/mim-transport/src/filter.rs: the text of a filter expression, and its parsing.
use ainext_gen_c.Base.{
  ℕ, zero, suc, ◌<◌, ◌≡◌, refl, sym, ap, subst, ◌∙◌, true, false, List, [], ◌∷◌, ◌++◌, append_assoc,
  append-nil, some, Text, text, is_empty, length, drop, trim, starts_with, trim_start_of,
  solid_start, solid_end, lacks, solid_start-append, solid_end-append, trim-solid, lacks-append,
  cut-lacks, cut-append, is_whitespace, All, ok, ◌>>=◌, ◌==◌, arith,
}
use ainext_gen_c.Transport.Message.{TransportResult}
use ainext_gen_c.Transport.Filter.{
  FilterPredicate, FilterExpression, split_last, unquote, parse_quoted_value, strip_prefix,
  strip_suffix, parse_named, parse_test, parse_predicate, parse_predicates, parse_class, parse_body,
  parse_filter,
}

-- `@name='value'`
unfoldable pub render_test : FilterPredicate → Text
render_test p = b'@' ∷ (p.property_name ++ b'=' ∷ (b'\'' ∷ (p.value ++ b'\'' ∷ [])))

-- `[@name='value']`, one after the other
unfoldable pub render_predicates : List FilterPredicate → Text
unfolding render_test
render_predicates [] = []
render_predicates (p ∷ rest) = (b'[' ∷ render_test p) ++ b']' ∷ render_predicates rest

-- `//Class[@name='value']`
unfoldable pub render_filter : FilterExpression → Text
unfolding render_predicates
render_filter f = b'/' ∷ (b'/' ∷ (f.class_name ++ render_predicates f.predicates))

-- a name and a value that the syntax of a predicate can hold
pub record IsPlainPredicate (p : FilterPredicate) : Type 0 where
  pub starts : solid_start p.property_name ≡ true
  pub ends : solid_end p.property_name ≡ true
  pub no_at : starts_with p.property_name (b'@' ∷ []) ≡ false
  pub no_equals : lacks b'=' p.property_name ≡ true
  pub no_bracket : lacks b']' p.property_name ≡ true
  pub no_bracket_inside : lacks b']' p.value ≡ true

-- a class and predicates that the syntax of a filter can hold
pub record IsPlainFilter (f : FilterExpression) : Type 0 where
  pub starts : solid_start f.class_name ≡ true
  pub ends : solid_end f.class_name ≡ true
  pub no_open_bracket : lacks b'[' f.class_name ≡ true
  pub predicates : All IsPlainPredicate f.predicates

split_last-append : (c d : ℕ) (s : Text) → split_last c (s ++ d ∷ []) ≡ (c ∷ s, d)
unfolding split_last
split_last-append c d [] = refl
split_last-append c d (e ∷ s) = rw (split_last-append e d s) refl

strip_suffix-append : (c : ℕ) (s : Text) → strip_suffix c (s ++ c ∷ []) ≡ some s
unfolding strip_suffix split_last
strip_suffix-append c [] = let same : (c == c) ≡ true = ground arith in rw same refl
strip_suffix-append c (d ∷ s) =
    let same : (c == c) ≡ true = ground arith in rw (split_last-append d c s, same) refl

unquote-append : (q : ℕ) (s : Text) → unquote q (s ++ q ∷ []) ≡ ok s
unfolding unquote split_last
unquote-append q [] = let same : (q == q) ≡ true = ground arith in rw same refl
unquote-append q (d ∷ s) =
    let same : (q == q) ≡ true = ground arith in rw (split_last-append d q s, same) refl

trim_start_of-other :
    (c : ℕ) (s t : Text)
    → solid_start s ≡ true
    → starts_with s (c ∷ []) ≡ false
    → trim_start_of c (s ++ t) ≡ s ++ t
unfolding trim_start_of starts_with solid_start
trim_start_of-other c [] t h i = absurd (ground (arith, h))
trim_start_of-other c (d ∷ s) t h i = ground (arith, i)

solid_start-is_empty : (s : Text) → solid_start s ≡ true → is_empty s ≡ false
unfolding solid_start
solid_start-is_empty [] h = absurd (ground (arith, h))
solid_start-is_empty (c ∷ s) h = refl

at_starts : (s : Text) → solid_start (b'@' ∷ s) ≡ true
unfolding solid_start is_whitespace
at_starts s = refl

quote_starts : (s : Text) → solid_start (b'\'' ∷ s) ≡ true
unfolding solid_start is_whitespace
quote_starts s = refl

quote_ends : (s : Text) → solid_end (s ++ b'\'' ∷ []) ≡ true
unfolding solid_end solid_start is_whitespace
quote_ends s = solid_end-append s (b'\'' ∷ []) refl

bracket_ends : (s : Text) → solid_end (s ++ b']' ∷ []) ≡ true
unfolding solid_end solid_start is_whitespace
bracket_ends s = solid_end-append s (b']' ∷ []) refl

quoted : Text → Text
quoted v = b'\'' ∷ (v ++ b'\'' ∷ [])

-- the quoted value, from the equals sign on
parse_quoted_value-quoted :
    (v : Text) → parse_quoted_value (trim (trim_start_of b'=' (b'=' ∷ quoted v))) ≡ ok v
unfolding trim_start_of parse_quoted_value quoted
parse_quoted_value-quoted v =
    rw (trim-solid (quoted v) (quote_starts _) (quote_ends (b'\'' ∷ v))) (unquote-append b'\'' v)

named_ends : (name v : Text) → solid_end (name ++ b'=' ∷ quoted v) ≡ true
unfolding quoted
named_ends name v =
    solid_end-append name (b'=' ∷ quoted v)
      (solid_end-append (b'=' ∷ []) (quoted v) (quote_ends (b'\'' ∷ v)))

test_trimmed :
    (p : FilterPredicate)
    → IsPlainPredicate p
    → trim (trim_start_of b'@' (trim (render_test p))) ≡ p.property_name ++ b'=' ∷ quoted p.value
unfolding render_test trim_start_of quoted
test_trimmed p plain =
    let after = p.property_name ++ b'=' ∷ quoted p.value in
    let outer : trim (render_test p) ≡ render_test p =
      trim-solid (render_test p) (at_starts _)
        (solid_end-append (b'@' ∷ []) after (named_ends p.property_name p.value)) in
    ap (λ s. trim (trim_start_of b'@' s)) outer
    ∙ ap trim
        (trim_start_of-other b'@' p.property_name (b'=' ∷ quoted p.value) plain.starts plain.no_at)
    ∙ trim-solid after (solid_start-append p.property_name _ plain.starts)
        (named_ends p.property_name p.value)

parse_test-quoted :
    (whole : Text) (p : FilterPredicate)
    → IsPlainPredicate p
    → parse_test whole (p.property_name ++ b'=' ∷ quoted p.value) ≡ ok p
unfolding parse_test parse_named
parse_test-quoted whole p plain =
    let (k, found, before, after) =
      cut-append b'=' p.property_name (quoted p.value) plain.no_equals in
    let name_trimmed = trim-solid p.property_name plain.starts plain.ends in
    let named : is_empty p.property_name ≡ false = solid_start-is_empty _ plain.starts in
    rw (parse_test, found, before, after, name_trimmed, named, parse_quoted_value-quoted p.value)
      refl

parse_predicate-render_test :
    (p : FilterPredicate)
    → IsPlainPredicate p
    → parse_predicate (b'[' ∷ (render_test p ++ b']' ∷ [])) ≡ ok p
unfolding parse_predicate strip_prefix
parse_predicate-render_test p plain =
    rw (strip_suffix-append b']' (render_test p), test_trimmed p plain)
      (parse_test-quoted _ p plain)

predicate_lacks :
    (p : FilterPredicate) → IsPlainPredicate p → lacks b']' (b'[' ∷ render_test p) ≡ true
unfolding render_test lacks
predicate_lacks p plain =
    lacks-append b']' p.property_name (b'=' ∷ (b'\'' ∷ (p.value ++ b'\'' ∷ []))) plain.no_bracket
      (lacks-append b']' p.value (b'\'' ∷ []) plain.no_bracket_inside refl)

prepend_parsed :
    (p : FilterPredicate) (ps : List FilterPredicate)
    (r : TransportResult (List FilterPredicate × Text))
    → r ≡ ok (ps, [])
    → ◌>>=◌ {B = List FilterPredicate × Text} r (λ later. ok (p ∷ later.0, later.1))
      ≡ ok (p ∷ ps, [])
prepend_parsed p ps r h = rw h refl

parse_predicates-render :
    (fuel : ℕ) (expression : Text) (ps : List FilterPredicate)
    (enough : length (render_predicates ps) < fuel)
    → All IsPlainPredicate ps
    → parse_predicates fuel expression (render_predicates ps) enough ≡ ok (ps, [])
unfolding parse_predicates render_predicates starts_with
parse_predicates-render zero expression ps enough plain = absurd (omega (arith, enough))
parse_predicates-render (suc fuel) expression [] enough plain = refl
parse_predicates-render (suc fuel) expression (p ∷ ps) enough plain =
    let (k, found, before, after) =
      cut-append b']' (b'[' ∷ render_test p) (render_predicates ps) (predicate_lacks p plain.0) in
    let later : (e : length k.after < fuel)
        → parse_predicates fuel expression k.after e ≡ ok (ps, []) =
      subst (λ t. (e : length t < fuel) → parse_predicates fuel expression t e ≡ ok (ps, []))
        (sym after) (λ e. parse_predicates-render fuel expression ps e plain.1) in
    rw (parse_predicates, found, before, parse_predicate-render_test p plain.0)
      (prepend_parsed p ps _ (later _))

trim-nil : trim [] ≡ []
unfolding trim
trim-nil = refl

parse_class-render :
    (expression : Text) (f : FilterExpression)
    → IsPlainFilter f
    → parse_class expression f.class_name (render_predicates f.predicates) ≡ ok f
unfolding parse_class
parse_class-render expression f plain =
    let named : is_empty f.class_name ≡ false = solid_start-is_empty _ plain.starts in
    let run =
      parse_predicates-render (suc (length (render_predicates f.predicates))) expression
        f.predicates (omega arith) plain.predicates in
    rw (trim-solid f.class_name plain.starts plain.ends, named, run, trim-nil) refl

predicates_end :
    (s : Text) (ps : List FilterPredicate)
    → solid_end s ≡ true
    → solid_end (s ++ render_predicates ps) ≡ true
unfolding render_predicates
predicates_end s [] h = subst (λ t. solid_end t ≡ true) (sym (append-nil s)) h
predicates_end s (p ∷ ps) h =
    subst (λ t. solid_end t ≡ true)
      (append_assoc s (b'[' ∷ (render_test p ++ b']' ∷ [])) (render_predicates ps)
        ∙ ap (λ t. s ++ b'[' ∷ t) (append_assoc (render_test p) (b']' ∷ []) (render_predicates ps)))
      (predicates_end (s ++ b'[' ∷ (render_test p ++ b']' ∷ [])) ps
        (solid_end-append s _ (bracket_ends (b'[' ∷ render_test p))))

parse_body-render :
    (expression class_name : Text) (ps : List FilterPredicate)
    → IsPlainFilter (record { class_name = class_name; predicates = ps })
    → parse_body expression (class_name ++ render_predicates ps)
      ≡ ok (record { class_name = class_name; predicates = ps })
unfolding parse_body render_predicates
parse_body-render expression class_name [] plain =
    subst (λ b. parse_body expression b ≡ ok (record { class_name = class_name; predicates = [] }))
      (sym (append-nil class_name))
      (rw (parse_body, cut-lacks b'[' class_name plain.no_open_bracket)
        (parse_class-render expression _ plain))
parse_body-render expression class_name (p ∷ ps) plain =
    let (k, found, before, after) =
      cut-append b'[' class_name (render_test p ++ b']' ∷ render_predicates ps)
        plain.no_open_bracket in
    rw (parse_body, found, before, after) (parse_class-render expression _ plain)

slash_starts : (s : Text) → solid_start (b'/' ∷ s) ≡ true
unfolding solid_start is_whitespace
slash_starts s = refl

starts_with-slashes : (s : Text) → starts_with (b'/' ∷ (b'/' ∷ s)) (text "//") ≡ true
unfolding starts_with text
starts_with-slashes s = ground arith

-- A filter is read back from its text, if its class and property names are not empty and have no
-- white space at their ends, the class holds no opening bracket, the property names hold no equals
-- sign or closing bracket and do not start with an at sign, and the values hold no closing bracket.
pub parse_filter-render_filter :
    (f : FilterExpression) → IsPlainFilter f → parse_filter (render_filter f) ≡ ok f
unfolding parse_filter render_filter drop
parse_filter-render_filter f plain =
    let body = f.class_name ++ render_predicates f.predicates in
    let ends : solid_end body ≡ true = predicates_end f.class_name f.predicates plain.ends in
    let trimmed : trim (render_filter f) ≡ render_filter f =
      trim-solid (render_filter f) (slash_starts _)
        (solid_end-append (b'/' ∷ (b'/' ∷ [])) body ends) in
    rw (trimmed, starts_with-slashes body)
      (parse_body-render (render_filter f) f.class_name f.predicates plain)

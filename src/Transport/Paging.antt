-- ===== src/Transport/Paging.antt =====
-- crates/mim-transport/src/broker.rs: what a filtered read returns, and how much of it.
use ainext_gen_c.Base.{
  ℕ, zero, suc, ◌-◌, ◌≤◌, ◌≡◌, ◌↔◌, refl, sym, ap, subst, ◌∙◌, inl, inr, Bool, true, false, not,
  List, [], ◌∷◌, Option, none, some, text_eq, ◌>>=◌, All, Any, length, is_empty, trim, retain, drop,
  take, Map, values, member, ltb, ok, >>=-eq-ok, ok_injective, arith, Bool-cases, Option-cases,
  if◌then◌else◌, length-retain-le,
}
use ainext_gen_c.Runtime.Instance.{Json, MimInstance}
use ainext_gen_c.Transport.Filter.{FilterExpression, parse_filter, instance_matches}
use ainext_gen_c.Transport.Broker.{ExchangeBroker}
use ainext_gen_c.Transport.Query.{
  GetByFilterRequest, GetByFilterResponse, or_zero, property_selected, paginate_instances,
  page_response, select_by_expression, select_by_class, get_by_filter,
}

-- the smaller of a number and a limit, where there is one
abbrev pub at_most : ℕ → Option ℕ → ℕ
at_most n none = n
at_most n (some limit) = if ltb limit n then limit else n

module _ {A : Type 0} where
  pub length-drop : (n : ℕ) (xs : List A) → length (drop n xs) ≡ length xs - n
  unfolding drop
  length-drop zero xs = omega arith
  length-drop (suc n) [] = omega arith
  length-drop (suc n) (x ∷ xs) = omega (arith, length-drop n xs)

  pub length-take : (n : ℕ) (xs : List A) → length (take n xs) ≡ at_most (length xs) (some n)
  unfolding take
  length-take zero xs = ground arith
  length-take (suc n) [] = ground arith
  length-take (suc n) (x ∷ xs) = ground (arith, length-take n xs)

  All-drop : (P : A → Type 0) (n : ℕ) (xs : List A) → All P xs → All P (drop n xs)
  unfolding drop
  All-drop P zero xs h = h
  All-drop P (suc n) [] h = tt
  All-drop P (suc n) (x ∷ xs) (here, rest) = All-drop P n xs rest

  All-take : (P : A → Type 0) (n : ℕ) (xs : List A) → All P xs → All P (take n xs)
  unfolding take
  All-take P zero xs h = tt
  All-take P (suc n) [] h = tt
  All-take P (suc n) (x ∷ xs) (here, rest) = (here, All-take P n xs rest)

  Any-retain :
      (p : A → Bool) (x : A) (xs : List A)
      → Any (λ y. y ≡ x) (retain p xs) ↔ (Any (λ y. y ≡ x) xs × (p x ≡ true))
  unfolding retain
  Any-retain p x [] = (λ h. absurd h, λ h. absurd h.0)
  Any-retain p x (y ∷ xs) = elim (Bool-cases (p y)) [
    | inl kept ↦ rw kept (
      λ h. elim h [
        | inl same ↦ (inl same, subst (λ z. p z ≡ true) same kept)
        | inr later ↦ let (stored, test) = (Any-retain p x xs).0 later in (inr stored, test)
      ],
      λ h. elim h.0 [ inl same ↦ inl same | inr later ↦ inr ((Any-retain p x xs).1 (later, h.1)) ],
    )
    | inr left ↦ rw left (
      λ h. let (stored, test) = (Any-retain p x xs).0 h in (inr stored, test),
      λ h. elim h.0 [
        | inl same ↦ absurd (ground (arith, left, h.1, ap p same))
        | inr later ↦ (Any-retain p x xs).1 (later, h.1)
      ],
    )
  ]

  All-of_Any : (P : A → Type 0) (xs : List A) → ((x : A) → Any (λ y. y ≡ x) xs → P x) → All P xs
  All-of_Any P [] h = tt
  All-of_Any P (x ∷ xs) h = (h x (inl refl), All-of_Any P xs (λ y listed. h y (inr listed)))

length-values {ℓ} : {A : Type ℓ} (m : Map A) → length (values m) ≡ length m
length-values [] = refl
length-values ((k, a) ∷ m) = ap suc (length-values m)

module _ (json : Json) (b : ExchangeBroker json) where
  -- an instance of the store that is not deleted
  abbrev pub IsActive : MimInstance json → Type 0
  IsActive i = Any (λ j. j ≡ i) (values b.store) × (member i.oid b.inactive ≡ false)

  select_by_expression_iff :
      (f : FilterExpression) (i : MimInstance json)
      → Any (λ j. j ≡ i) (select_by_expression json b f)
        ↔ (IsActive i × (instance_matches json i f ≡ true))
  unfolding select_by_expression
  select_by_expression_iff f i =
      let outer = Any-retain (λ j. instance_matches json j f) i _ in
      let inner = Any-retain (λ (j : MimInstance json). not (member j.oid b.inactive)) i _ in
      (
        λ h. (((inner.0 (outer.0 h).0).0, ground (arith, inner.0 (outer.0 h).0)), (outer.0 h).1),
        λ h. outer.1 (inner.1 (h.0.0, ground (arith, h.0.1)), h.1),
      )

  select_by_class-IsActive :
      (request : GetByFilterRequest) (i : MimInstance json)
      → Any (λ j. j ≡ i) (select_by_class json b request)
      → IsActive i
  unfolding select_by_class
  select_by_class-IsActive request i h =
      let outer = (Any-retain _ i _).0 h in
      let inner =
        (Any-retain (λ (j : MimInstance json). not (member j.oid b.inactive)) i _).0 outer.0 in
      (((Any-retain _ i (values b.store)).0 inner.0).0, ground (arith, inner.1))

  select_by_class-le :
      (request : GetByFilterRequest) → length (select_by_class json b request) ≤ length b.store
  unfolding select_by_class
  select_by_class-le request = omega (
    arith,
    length-retain-le (property_selected json request.property_name request.property_value) (
        retain (λ (i : MimInstance json). not (member i.oid b.inactive))
          (retain (λ (i : MimInstance json). text_eq i.class_name request.class_name)
            (values b.store))),
    length-retain-le (λ (i : MimInstance json). not (member i.oid b.inactive))
        (retain (λ (i : MimInstance json). text_eq i.class_name request.class_name)
          (values b.store)),
    length-retain-le (λ (i : MimInstance json). text_eq i.class_name request.class_name)
        (values b.store),
    length-values b.store,
  )

  select_by_expression-le :
      (f : FilterExpression) → length (select_by_expression json b f) ≤ length b.store
  unfolding select_by_expression
  select_by_expression-le f = omega (
    arith,
    length-retain-le (λ i. instance_matches json i f)
        (retain (λ (i : MimInstance json). not (member i.oid b.inactive)) (values b.store)),
    length-retain-le (λ (i : MimInstance json). not (member i.oid b.inactive)) (values b.store),
    length-values b.store,
  )

  -- what the bounds of a query say of its response
  abbrev pub IsBounded : GetByFilterRequest → GetByFilterResponse json → Type 0
  IsBounded request r =
      (r.count ≡ length r.instances)
      × (r.count ≡ at_most (r.total - or_zero request.offset) request.limit)
      × (r.total ≤ length b.store)
      × All IsActive r.instances

  page_response-IsBounded :
      (found : List (MimInstance json)) (request : GetByFilterRequest)
      → length found ≤ length b.store
      → All IsActive found
      → IsBounded request (page_response json found request)
  unfolding page_response paginate_instances
  page_response-IsBounded found request fits active = elim (Option-cases request.limit) [
    | inl none' ↦ rw none' (
      refl,
      length-drop (or_zero request.offset) found,
      fits,
      All-drop IsActive (or_zero request.offset) found active,
    )
    | inr (n, some') ↦ rw some' (
      refl,
      length-take n (drop (or_zero request.offset) found)
          ∙ ap (λ k. at_most k (some n)) (length-drop (or_zero request.offset) found),
      fits,
      All-take IsActive n _ (All-drop IsActive (or_zero request.offset) found active),
    )
  ]

  -- A filtered read that returns counts the instances that it returns: as many as are left of the
  -- total after the offset, and at most the limit; the total is at most the size of the store, and
  -- every instance is stored and not deleted.
  pub get_by_filter-IsBounded :
      (request : GetByFilterRequest) (r : GetByFilterResponse json)
      → get_by_filter json b request ≡ ok r
      → IsBounded request r
  unfolding get_by_filter
  get_by_filter-IsBounded request r h = elim (Option-cases request.filter) [
    | inr (e, given) ↦
        let run : (parse_filter e >>= λ f.
        ok (page_response json (select_by_expression json b f) request))
            ≡ ok r =
          sym (rw (get_by_filter, given) refl) ∙ h in
        let (f, parsed, same) = >>=-eq-ok (parse_filter e) _ run in
        subst (IsBounded request) (ok_injective _ r _ refl same) (
          page_response-IsBounded (select_by_expression json b f) request
            (select_by_expression-le f)
            (All-of_Any IsActive _ (λ i found. ((select_by_expression_iff f i).0 found).0)))
    | inl missing ↦ elim (Bool-cases (is_empty (trim request.class_name))) [
      | inl blank ↦ absurd (ground (arith, h, missing, blank))
      | inr named ↦ subst (IsBounded request) (ground (arith, h, missing, named)) (
          page_response-IsBounded (select_by_class json b request) request
            (select_by_class-le request) (All-of_Any IsActive _ (select_by_class-IsActive request)))
    ]
  ]

-- ===== src/Transport/Selection.antt =====
-- crates/mim-transport/src/broker.rs: which instances a query by an expression selects, and which page
-- of them it returns.
use ainext_gen_c.Base.{
  ℕ, zero, suc, ◌-◌, ◌≡◌, ◌↔◌, refl, sym, ap, ◌∙◌, inl, inr, Bool, true, false, not, ◌&&◌, List, [],
  ◌∷◌, ◌++◌, append-nil, some, Text, length, retain, drop, take, values, member, ok, arith,
  Bool-cases, Option-cases,
}
use ainext_gen_c.Runtime.Instance.{Json, MimInstance}
use ainext_gen_c.Transport.Filter.{FilterExpression, parse_filter, instance_matches}
use ainext_gen_c.Transport.Broker.{ExchangeBroker}
use ainext_gen_c.Transport.Query.{
  GetByFilterRequest, GetByFilterResponse, or_zero, paginate_instances, page_response,
  select_by_expression, get_by_filter,
}
use ainext_gen_c.Transport.Paging.{at_most, length-drop, length-take}
use ainext_gen_c.Transport.Matching.{Matches, instance_matches_iff}

-- the members of the first list that have a property, in its order, each as often as it stands there
pub data Selects {A : Type 0} (P : A → Type 0) : List A → List A → Type 0 where
  ends : Selects P [] []
  keeps : (x : A) (xs ys : List A) → P x → Selects P xs ys → Selects P (x ∷ xs) (x ∷ ys)
  skips : (x : A) (xs ys : List A) → ¬ (P x) → Selects P xs ys → Selects P (x ∷ xs) ys

module _ {A : Type 0} where
  retain-Selects :
      (p : A → Bool) (P : A → Type 0) (decides : (x : A) → (p x ≡ true) ↔ P x) (xs : List A)
      → Selects P xs (retain p xs)
  unfolding retain
  retain-Selects p P decides [] = ends
  retain-Selects p P decides (x ∷ xs) = elim (Bool-cases (p x)) [
    | inl kept ↦ rw kept (keeps x xs _ ((decides x).0 kept) (retain-Selects p P decides xs))
    | inr left ↦
        rw left (
          skips x xs _ (λ h. ground (arith, left, (decides x).1 h)) (retain-Selects p P decides xs))
  ]

  retain-retain :
      (p q : A → Bool) (xs : List A) → retain q (retain p xs) ≡ retain (λ x. p x && q x) xs
  unfolding retain
  retain-retain p q [] = refl
  retain-retain p q (x ∷ xs) = elim (Bool-cases (p x)) [
    | inl kept ↦ rw kept (elim (Bool-cases (q x)) [
      | inl both ↦ rw both (ap (λ l. x ∷ l) (retain-retain p q xs))
      | inr one ↦ rw one (retain-retain p q xs)
    ])
    | inr left ↦ rw left (retain-retain p q xs)
  ]

  take-drop : (n : ℕ) (xs : List A) → xs ≡ take n xs ++ drop n xs
  unfolding take drop
  take-drop zero xs = refl
  take-drop (suc n) [] = refl
  take-drop (suc n) (x ∷ xs) = ap (λ l. x ∷ l) (take-drop n xs)

module _ (json : Json) (b : ExchangeBroker json) where
  -- what a query by an expression looks for
  abbrev pub Wanted : FilterExpression → MimInstance json → Type 0
  Wanted f i = (member i.oid b.inactive ≡ false) × Matches json i f

  -- the response to a request that found the given instances: the page after the offset, of at most
  -- as many as the limit, and the number of all
  pub record IsPage (found : List (MimInstance json)) (request : GetByFilterRequest)
      (r : GetByFilterResponse json) : Type 0 where
    pub before : List (MimInstance json)
    pub after : List (MimInstance json)
    pub whole : found ≡ before ++ (r.instances ++ after)
    pub skipped : length before ≡ at_most (length found) (some (or_zero request.offset))
    pub shown : length r.instances ≡ at_most (length found - or_zero request.offset) request.limit
    pub count : r.count ≡ length r.instances
    pub total : r.total ≡ length found

  page_response-IsPage :
      (found : List (MimInstance json)) (request : GetByFilterRequest)
      → IsPage found request (page_response json found request)
  unfolding page_response paginate_instances
  page_response-IsPage found request =
      let n = or_zero request.offset in
      elim (Option-cases request.limit) [
        | inl none' ↦ rw none' (record {
          before = take n found;
          after = [];
          whole = take-drop n found ∙ ap (λ l. take n found ++ l) (sym (append-nil (drop n found)));
          skipped = length-take n found;
          shown = length-drop n found;
          count = refl;
          total = refl;
        })
        | inr (limit, some') ↦ rw some' (record {
          before = take n found;
          after = drop limit (drop n found);
          whole = take-drop n found ∙ ap (λ l. take n found ++ l) (take-drop limit (drop n found));
          skipped = length-take n found;
          shown =
              length-take limit (drop n found)
              ∙ ap (λ k. at_most k (some limit)) (length-drop n found);
          count = refl;
          total = refl;
        })
      ]

  select_by_expression-Selects :
      (f : FilterExpression) → Selects (Wanted f) (values b.store) (select_by_expression json b f)
  unfolding select_by_expression
  select_by_expression-Selects f =
      rw
        (retain-retain (λ (i : MimInstance json). not (member i.oid b.inactive))
          (λ i. instance_matches json i f) (values b.store))
        (retain-Selects
          (λ (i : MimInstance json). not (member i.oid b.inactive) && instance_matches json i f)
          (Wanted f)
          (λ i.
            let matched = instance_matches_iff json i f in
            (
              λ h. (ground (arith, h), matched.0 (ground (arith, h))),
              λ h. ground (arith, h.0, matched.1 h.1),
            ))
          (values b.store))

  -- A query by an expression that parses returns, whatever class and property the request names
  -- beside it, a page of the stored instances that are not deleted, are of the expression's class
  -- and carry a property with the text of each of its predicates, in the order of the store and
  -- each as often as it is stored. The page has what is left after the offset, at most as many as the
  -- limit, and the total counts all of them.
  pub get_by_filter-Selects :
      (request : GetByFilterRequest) (e : Text) (f : FilterExpression)
      → request.filter ≡ some e
      → parse_filter e ≡ ok f
      → (r : GetByFilterResponse json) × (get_by_filter json b request ≡ ok r)
        × (found : List (MimInstance json)) × Selects (Wanted f) (values b.store) found
        × IsPage found request r
  unfolding get_by_filter
  get_by_filter-Selects request e f given parsed =
      let found = select_by_expression json b f in
      (
        page_response json found request,
        rw (get_by_filter, given, parsed) refl,
        found,
        select_by_expression-Selects f,
        page_response-IsPage found request,
      )

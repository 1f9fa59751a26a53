-- ===== src/Transport/Query.antt =====
-- crates/mim-transport/src/broker.rs: the filtered read of the broker, with its pages.
use ainext_gen_c.Base.{
  ℕ, Bool, true, false, not, List, Option, none, some, Text, text, text_eq, length, is_empty,
  retain, drop, take, trim, values, member, and_then, ok, ◌>>=◌, ◌>>◌, fail_if,
}
use ainext_gen_c.Core.Nillable.{as_option}
use ainext_gen_c.Runtime.Instance.{Json, as_str, MimInstance, property}
use ainext_gen_c.Transport.Message.{TransportResult, invalid_request}
use ainext_gen_c.Transport.Filter.{FilterExpression, parse_filter, instance_matches}
use ainext_gen_c.Transport.Broker.{ExchangeBroker}

pub record GetByFilterRequest : Type 0 where
  pub filter : Option Text
  pub class_name : Text
  pub property_name : Option Text
  pub property_value : Option Text
  pub limit : Option ℕ
  pub offset : Option ℕ

pub record GetByFilterResponse (json : Json) : Type 0 where
  pub instances : List (MimInstance json)
  pub count : ℕ
  pub total : ℕ

-- `Option::unwrap_or(0)`
abbrev pub or_zero : Option ℕ → ℕ
or_zero none = 0
or_zero (some n) = n

-- `is_some_and(|actual| actual == expected)`
abbrev pub is_equal_text : Option Text → Text → Bool
is_equal_text none expected = false
is_equal_text (some actual) expected = text_eq actual expected

module _ (json : Json) where
  -- `paginate_instances`
  unfoldable pub paginate_instances :
      List (MimInstance json) → Option ℕ → Option ℕ → List (MimInstance json)
  paginate_instances instances offset limit = elim limit [
    | none ↦ drop (or_zero offset) instances
    | some n ↦ take n (drop (or_zero offset) instances)
  ]

  -- the closure on the property in `get_by_filter`
  unfoldable pub property_selected : Option Text → Option Text → MimInstance json → Bool
  property_selected none none i = true
  property_selected none (some expected) i = false
  property_selected (some name) none i = elim (property json i name) [
    | none ↦ false
    | some p ↦ true
  ]
  property_selected (some name) (some expected) i = elim (property json i name) [
    | none ↦ false
    | some p ↦ is_equal_text (and_then (as_option p.value) (as_str json)) expected
  ]

  -- the response on the instances that a query found
  unfoldable pub page_response :
      List (MimInstance json) → GetByFilterRequest → GetByFilterResponse json
  unfolding paginate_instances
  page_response found request =
      let page = paginate_instances found request.offset request.limit in
      record { instances = page; count = length page; total = length found }

  -- the instances of a query by a filter expression
  unfoldable pub select_by_expression :
      ExchangeBroker json → FilterExpression → List (MimInstance json)
  select_by_expression b filter =
      retain (λ i. instance_matches json i filter)
        (retain (λ (i : MimInstance json). not (member i.oid b.inactive)) (values b.store))

  -- the instances of a query by a class and a property
  unfoldable pub select_by_class :
      ExchangeBroker json → GetByFilterRequest → List (MimInstance json)
  unfolding property_selected
  select_by_class b request =
      retain (property_selected request.property_name request.property_value) (
        retain (λ (i : MimInstance json). not (member i.oid b.inactive))
          (retain (λ (i : MimInstance json). text_eq i.class_name request.class_name)
            (values b.store)))

  -- `ExchangeBroker::get_by_filter`
  unfoldable pub get_by_filter :
      ExchangeBroker json → GetByFilterRequest → TransportResult (GetByFilterResponse json)
  unfolding page_response select_by_expression select_by_class
  get_by_filter b request = elim request.filter [
    | some expression ↦ do
      filter ← parse_filter expression
      ok (page_response (select_by_expression b filter) request)
    | none ↦ do
      fail_if (is_empty (trim request.class_name))
          (invalid_request (text "className or filter query parameter is required"))
      ok (page_response (select_by_class b request) request)
  ]

-- ===== src/Transport/Lookup.antt =====
-- crates/mim-transport/src/broker.rs: what a read sees after a change.
use ainext_gen_c.Base.{
  ◌≡◌, ◌⊎◌, subst, refl, true, false, not, inl, inr, text_eq, text_eq_iff, get-put, get-put_other,
  contains_key, member, member-set_insert, member-set_remove, ok, err, Bool-cases, arith,
  if◌then◌else◌,
}
use ainext_gen_c.Runtime.Instance.{Json, ObjectIdentifier, MimInstance}
use ainext_gen_c.Runtime.Report.{is_valid}
use ainext_gen_c.Transport.Message.{not_found, inactive_object, PutObjectResponse}
use ainext_gen_c.Transport.Broker.{
  Validators, ExchangeBroker, record_journal, store_instance, mark_inactive, get_by_oid, put_object,
  delete_object,
}

module _ (json : Json) where
  store_instance-get_by_oid :
      (b : ExchangeBroker json) (i : MimInstance json) (oid : ObjectIdentifier)
      → get_by_oid json (store_instance json b i) oid
        ≡ (if text_eq i.oid oid then ok i else get_by_oid json b oid)
  unfolding get_by_oid store_instance record_journal
  store_instance-get_by_oid b i oid = elim (Bool-cases (text_eq i.oid oid)) [
    | inl same ↦
        rw (member-set_remove oid i.oid b.inactive, same)
          (rw (← (text_eq_iff i.oid oid).0 same, get-put i.oid i b.store) refl)
    | inr differs ↦
        rw
          (
            member-set_remove oid i.oid b.inactive,
            differs,
            get-put_other oid i.oid i b.store differs,
          )
          refl
  ]

  mark_inactive-get_by_oid :
      (b : ExchangeBroker json) (oid other : ObjectIdentifier)
      → get_by_oid json (mark_inactive json b oid) other
        ≡ (if text_eq oid other then err (inactive_object other) else get_by_oid json b other)
  unfolding get_by_oid mark_inactive record_journal
  mark_inactive-get_by_oid b oid other = elim (Bool-cases (text_eq oid other)) [
    | inl same ↦ rw (member-set_insert other oid b.inactive, same) refl
    | inr differs ↦ rw (member-set_insert other oid b.inactive, differs) refl
  ]

  module _ (v : Validators json) where
    -- What a put that returned did.
    pub put_object-returned :
        (b b' : ExchangeBroker json) (i : MimInstance json) (r : PutObjectResponse)
        → put_object json v b i ≡ ok (b', r)
        → (store_instance json b i ≡ b')
          × (r.created ≡ not (contains_key i.oid b.store))
          × (v.validate_serialized_instance i ≡ ok tt)
          × (is_valid (v.validate_instance i) ≡ true)
    unfolding put_object
    put_object-returned b b' i r h =
        (ground (arith, h), ground (arith, h), ground (arith, h), ground (arith, h))

    -- A put that returns has put a valid instance, and tells whether its object is new: every
    -- later read of that object returns the instance, whether or not it had been deleted, and a
    -- read of any other object returns what it returned before.
    pub put_object-get_by_oid :
        (b b' : ExchangeBroker json) (i : MimInstance json) (r : PutObjectResponse)
        (oid : ObjectIdentifier)
        → put_object json v b i ≡ ok (b', r)
        → (get_by_oid json b' oid ≡ (if text_eq i.oid oid then ok i else get_by_oid json b oid))
          × (r.created ≡ not (contains_key i.oid b.store))
          × (v.validate_serialized_instance i ≡ ok tt)
          × (is_valid (v.validate_instance i) ≡ true)
    put_object-get_by_oid b b' i r oid h =
        let (same, created, serialized, valid) = put_object-returned b b' i r h in
        (
          subst
              (λ c.
                get_by_oid json c oid ≡ (if text_eq i.oid oid then ok i else get_by_oid json b oid))
              same (store_instance-get_by_oid b i oid),
          created,
          serialized,
          valid,
        )

  -- What a deletion did, or why it was refused.
  pub delete_object-cases :
      (b : ExchangeBroker json) (oid : ObjectIdentifier)
      → ((contains_key oid b.store ≡ false) × (delete_object json b oid ≡ err (not_found oid)))
        ⊎ ((contains_key oid b.store ≡ true)
            × (delete_object json b oid
                ≡ ok (
                  mark_inactive json b oid,
                  record { oid = oid; deleted = not (member oid b.inactive) },
                )))
  unfolding delete_object
  delete_object-cases b oid = elim (Bool-cases (contains_key oid b.store)) [
    | inl known ↦ inr (known, rw known refl)
    | inr unknown ↦ inl (unknown, rw unknown refl)
  ]

  -- A deletion of an object that was never put is refused; any other one returns, and tells
  -- whether the object was active. A later read of the object is refused as inactive, and a read
  -- of any other object returns what it returned before.
  pub delete_object-get_by_oid :
      (b : ExchangeBroker json) (oid other : ObjectIdentifier)
      → ((contains_key oid b.store ≡ false) × (delete_object json b oid ≡ err (not_found oid)))
        ⊎ ((b' : ExchangeBroker json) × (delete_object json b oid
              ≡ ok (b', record { oid = oid; deleted = not (member oid b.inactive) }))
            × (get_by_oid json b' other ≡ (
                if text_eq oid other
                then err (inactive_object other)
                else get_by_oid json b other)))
  delete_object-get_by_oid b oid other = elim (delete_object-cases b oid) [
    | inl refused ↦ inl refused
    | inr (known, returned) ↦
        inr (mark_inactive json b oid, returned, mark_inactive-get_by_oid b oid other)
  ]

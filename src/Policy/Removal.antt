-- ===== src/Policy/Removal.antt =====
-- crates/mim-policy/src/store.rs: what the removal of a rule keeps.
use ainext_gen_c.Base.{
  ◌≡◌, ◌≢◌, refl, sym, ap, subst, inl, inr, some, Text, text_eq, text_eq_iff, List, [], ◌∷◌, ◌++◌,
  All, ok, >>=-eq-ok, ok_injective, ok_or, Bool-cases, Option-cases, arith,
}
use ainext_gen_c.Policy.Store.{
  CrossDomainPolicy, PolicyStore, take_policy, remove_cross_domain_policy,
}
use ainext_gen_c.Policy.Admin.{IsConnected, AreDistinct, IsNamed, IsValidStore}

-- The rule that is taken is the first of that id.
pub take_policy-removes :
    (id : Text) (ps others : List CrossDomainPolicy) (p : CrossDomainPolicy)
    → take_policy id ps ≡ some (p, others)
    → (before after : List CrossDomainPolicy) × (ps ≡ before ++ p ∷ after)
      × (others ≡ before ++ after)
      × (p.id ≡ id)
      × All (λ (q : CrossDomainPolicy). q.id ≢ id) before
unfolding take_policy
take_policy-removes id [] others p h = absurd (ground arith)
take_policy-removes id (q ∷ ps) others p h = elim (Bool-cases (text_eq q.id id)) [
  | inl same ↦
      ([], ps, ground arith, ground arith, ground (arith, (text_eq_iff q.id id).0 same), tt)
  | inr differs ↦ elim (Option-cases (take_policy id ps)) [
    | inl missing ↦ absurd (ground arith)
    | inr ((r, rest), found) ↦
        let (before, after, whole, left, named, skipped) = take_policy-removes id ps rest r found in
        (
          q ∷ before,
          after,
          ground arith,
          ground arith,
          ground arith,
          (λ e. ground (arith, (text_eq_iff q.id id).1 e), skipped),
        )
  ]
]

module _ (p : CrossDomainPolicy) where
  All-without :
      (P : CrossDomainPolicy → Type 0) (before after : List CrossDomainPolicy)
      → All P (before ++ p ∷ after)
      → All P (before ++ after)
  All-without P [] after h = h.1
  All-without P (q ∷ before) after h = (h.0, All-without P before after h.1)

  AreDistinct-without :
      (before after : List CrossDomainPolicy)
      → AreDistinct (before ++ p ∷ after)
      → AreDistinct (before ++ after)
  AreDistinct-without [] after h = h.1
  AreDistinct-without (q ∷ before) after h =
      (All-without _ before after h.0, AreDistinct-without before after h.1)

  -- no other rule has the id of the one that was removed
  others_differ :
      (before after : List CrossDomainPolicy)
      → AreDistinct (before ++ p ∷ after)
      → All (λ (q : CrossDomainPolicy). q.id ≢ p.id) before
      → All (λ (q : CrossDomainPolicy). q.id ≢ p.id) (before ++ after)
  others_differ [] after h skipped = h.0
  others_differ (q ∷ before) after h skipped = (skipped.0, others_differ before after h.1 skipped.1)

-- Removing a rule keeps a valid store valid: the rule that is returned has that id and stood in
-- the store, no rule of that id is left, the others keep their order and the domains stay.
pub remove_cross_domain_policy-IsValidStore :
    (s s' : PolicyStore) (p : CrossDomainPolicy) (id : Text)
    → IsValidStore s
    → remove_cross_domain_policy s id ≡ ok (s', p)
    → IsValidStore s'
      × (s'.domains ≡ s.domains)
      × ((before after : List CrossDomainPolicy) × (s.cross_domain_policies ≡ before ++ p ∷ after)
          × (s'.cross_domain_policies ≡ before ++ after))
      × (p.id ≡ id)
      × All (λ (q : CrossDomainPolicy). q.id ≢ id) s'.cross_domain_policies
unfolding remove_cross_domain_policy
remove_cross_domain_policy-IsValidStore s s' p id v h =
    let ((q, others), taken, built) =
      >>=-eq-ok (ok_or (take_policy id s.cross_domain_policies) _) _ h in
    let found : take_policy id s.cross_domain_policies ≡ some (p, others) = ground arith in
    let (before, after, whole, left, named, skipped) =
      take_policy-removes id s.cross_domain_policies others p found in
    let distinct = subst AreDistinct whole v.distinct in
    let same : record s { cross_domain_policies = others } ≡ s' =
      ap (λ t. t.0) (ok_injective _ (s', p) _ refl built) in
    rw (← same, left)
      (
        record {
          keyed = v.keyed;
          connected =
              All-without p _ before after (subst (All (IsConnected s.domains)) whole v.connected);
          distinct = AreDistinct-without p before after distinct;
          named = All-without p _ before after (subst (All IsNamed) whole v.named);
        },
        refl,
        (before, after, whole, refl),
        named,
        subst (λ i. All (λ (q : CrossDomainPolicy). q.id ≢ i) (before ++ after)) named
            (others_differ p before after distinct
              (subst (λ i. All (λ (q : CrossDomainPolicy). q.id ≢ i) before) (sym named) skipped)),
      )

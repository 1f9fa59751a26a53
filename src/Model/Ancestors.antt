-- ===== src/Model/Ancestors.antt =====
-- crates/mim-model/src/registry.rs: what `ancestors_of` returns, and when its loop ends.
use ainext_gen_c.Base.{
  ℕ, zero, suc, ◌<◌, ◌≤◌, ◌≡◌, ◌↔◌, ◌≢◌, refl, sym, ap, ◌∙◌, subst, inl, inr, List, [], ◌∷◌, none,
  some, Text, Any, and_then, and_then-eq-some, Option-cases, arith,
}
use ainext_gen_c.Model.Registry.{ModelRegistry, parent_of, ancestors_from, ancestors_of}

-- the class `a` is above `c`: its parent, or above its parent
pub data Ancestor (r : ModelRegistry) (a : Text) : Text → Type 0 where
  is_parent : (c : Text) → parent_of r c ≡ some a → Ancestor r a c
  above_parent : (c p : Text) → parent_of r c ≡ some p → Ancestor r a p → Ancestor r a c

-- a rank that falls from a class to its parent: no class is above itself
pub record Acyclic (r : ModelRegistry) : Type 0 where
  pub rank : Text → ℕ
  pub falls : (c p : Text) → parent_of r c ≡ some p → rank p < rank c

module _ (r : ModelRegistry) where
  ancestors_from-total :
      (acyclic : Acyclic r) (fuel : ℕ) (c : Text)
      → acyclic.rank c ≤ fuel
      → (classes : List Text) × (ancestors_of r fuel c ≡ some classes)
  unfolding ancestors_of ancestors_from
  ancestors_from-total acyclic zero c enough = elim (Option-cases (parent_of r c)) [
    | inl top ↦ ([], rw top refl)
    | inr (p, h) ↦ absurd (omega (arith, acyclic.falls c p h))
  ]
  ancestors_from-total acyclic (suc fuel) c enough = elim (Option-cases (parent_of r c)) [
    | inl top ↦ ([], rw top refl)
    | inr (p, h) ↦
        let (rest, ended) =
          ancestors_from-total acyclic fuel p (omega (arith, acyclic.falls c p h)) in
        (p ∷ rest, rw (h, ended) refl)
  ]

  -- a run that returned a list for a class with a parent: a run on one unit less for the parent
  ancestors_of-parent :
      (fuel : ℕ) (c p : Text) (classes : List Text)
      → parent_of r c ≡ some p
      → ancestors_of r fuel c ≡ some classes
      → (less : ℕ) × (rest : List Text) × (fuel ≡ suc less)
        × (classes ≡ p ∷ rest)
        × (ancestors_of r less p ≡ some rest)
  unfolding ancestors_of ancestors_from
  ancestors_of-parent zero c p classes h ended = absurd (ground (arith, h, ended))
  ancestors_of-parent (suc fuel) c p classes h ended =
      let run : and_then (ancestors_of r fuel p) (λ rest. some (p ∷ rest)) ≡ some classes =
        sym (ap (ancestors_from r (suc fuel)) h) ∙ ended in
      let (rest, before, same) = and_then-eq-some (ancestors_of r fuel p) _ run in
      (fuel, rest, refl, cc, before)

  ancestors_of-top :
      (fuel : ℕ) (c : Text) (classes : List Text)
      → parent_of r c ≡ none
      → ancestors_of r fuel c ≡ some classes
      → classes ≡ []
  unfolding ancestors_of ancestors_from
  ancestors_of-top fuel c classes h ended = cc

  listed_above :
      (fuel : ℕ) (c a : Text) (classes : List Text)
      → ancestors_of r fuel c ≡ some classes
      → Any (λ b. b ≡ a) classes
      → Ancestor r a c
  listed_above fuel c a [] ended listed = absurd listed
  listed_above fuel c a (p ∷ rest) ended listed = elim (Option-cases (parent_of r c)) [
    | inl top ↦ absurd (ground (arith, ancestors_of-top fuel c (p ∷ rest) top ended))
    | inr (q, h) ↦
        let (less, later, spent, same, before) = ancestors_of-parent fuel c q (p ∷ rest) h ended in
        elim listed [
          | inl here ↦ is_parent c (cc)
          | inr there ↦ above_parent c q h (listed_above less q a rest (cc) there)
        ]
  ]

  above_listed :
      (a : Text) (fuel : ℕ) (c : Text) (classes : List Text)
      → ancestors_of r fuel c ≡ some classes
      → Ancestor r a c
      → Any (λ b. b ≡ a) classes
  above_listed a fuel c classes ended (is_parent _ h) =
      let (less, rest, spent, listed, before) = ancestors_of-parent fuel c a classes h ended in
      subst (Any (λ b. b ≡ a)) (sym listed) (inl refl)
  above_listed a fuel c classes ended (above_parent _ p h above) =
      let (less, rest, spent, listed, before) = ancestors_of-parent fuel c p classes h ended in
      subst (Any (λ b. b ≡ a)) (sym listed) (inr (above_listed a less p rest before above))

  climb :
      (a : Text) (fuel : ℕ) (c : Text) (classes : List Text)
      → ancestors_of r fuel c ≡ some classes
      → Ancestor r a c
      → (less : ℕ) × (rest : List Text) × (less < fuel) × (ancestors_of r less a ≡ some rest)
  climb a fuel c classes ended (is_parent _ h) =
      let (less, rest, spent, listed, before) = ancestors_of-parent fuel c a classes h ended in
      (less, rest, omega (arith, spent), before)
  climb a fuel c classes ended (above_parent _ p h above) =
      let (less, rest, spent, listed, before) = ancestors_of-parent fuel c p classes h ended in
      let (least, last, falls, after) = climb a less p rest before above in
      (least, last, omega (arith, spent, falls), after)

  never_ends :
      (bound fuel : ℕ) (c : Text) (classes : List Text)
      → fuel < bound
      → Ancestor r c c
      → ancestors_of r fuel c ≢ some classes
  never_ends zero fuel c classes below above ended = absurd (omega (arith, below))
  never_ends (suc bound) fuel c classes below above ended =
      let (less, rest, falls, before) = climb c fuel c classes ended above in
      never_ends bound less c rest (omega (arith, falls, below)) above before

  -- The loop does not end for a class above itself: no fuel is enough.
  pub ancestors_of-cyclic : (c : Text) (fuel : ℕ) → Ancestor r c c → ancestors_of r fuel c ≡ none
  ancestors_of-cyclic c fuel above = elim (Option-cases (ancestors_of r fuel c)) [
    | inl out ↦ out
    | inr (classes, ended) ↦ absurd (never_ends (suc fuel) fuel c classes (omega arith) above ended)
  ]

  -- In a registry whose parents form no cycle, the loop ends within as many rounds as the rank of
  -- the class, and lists exactly the classes above it.
  pub ancestors_of-Ancestor :
      (acyclic : Acyclic r) (fuel : ℕ) (c : Text)
      → acyclic.rank c ≤ fuel
      → (classes : List Text) × (ancestors_of r fuel c ≡ some classes)
        × ((a : Text) → Any (λ b. b ≡ a) classes ↔ Ancestor r a c)
  ancestors_of-Ancestor acyclic fuel c enough =
      let (classes, ended) = ancestors_from-total acyclic fuel c enough in
      (
        classes,
        ended,
        λ a. (listed_above fuel c a classes ended, above_listed a fuel c classes ended),
      )

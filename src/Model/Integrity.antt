-- ===== src/Model/Integrity.antt =====
-- crates/mim-model/src/registry.rs: the registry that is built of a manifest.
use mathlib.Core.List.{reverse, reverse-cons}
use ainext_gen_c.Base.{
  ◌≡◌, refl, sym, ap, ◌∙◌, subst, inl, inr, Bool, true, ◌||◌, List, [], ◌∷◌, ◌++◌, Option, none,
  some, Text, text_eq, text_eq_iff, All, find, Map, get, put, contains_key, values, insert_all,
  get-put, get-put_other, or_else, and_then, and_then-eq-some, or_else-eq-some, ok, >>=-eq-ok,
  ok_injective, Bool-cases, Option-cases, arith,
}
use ainext_gen_c.Model.Taxonomy.{TaxonomyNode}
use ainext_gen_c.Model.CodeList.{CodeList}
use ainext_gen_c.Model.Manifest.{ModelElementSpec, MimManifest}
use ainext_gen_c.Model.Registry.{
  ModelRegistry, element_by_name, element_by_semantic_id, taxonomy_node, code_list, parent_of,
  check_nodes, check_elements, validate_integrity, build_registry, from_manifest,
}
use ainext_gen_c.Model.Ancestors.{Ancestor, is_parent, above_parent}

module _ {ℓ} {A : Type ℓ} where
  find-last :
      (p : A → Bool) (xs : List A) (x : A)
      → find p (xs ++ x ∷ []) ≡ or_else (find p xs) (find p (x ∷ []))
  unfolding find
  find-last p [] x = refl
  find-last p (y ∷ xs) x = elim (Bool-cases (p y)) [
    | inl h ↦ rw h refl
    | inr h ↦ rw h (find-last p xs x)
  ]

  or_else_assoc : (a b c : Option A) → or_else (or_else a b) c ≡ or_else a (or_else b c)
  or_else_assoc none b c = refl
  or_else_assoc (some x) b c = refl

  or_else-none : (o : Option A) → or_else o none ≡ o
  or_else-none none = refl
  or_else-none (some x) = refl

  get-put-find :
      (key : A → Text) (k : Text) (x : A) (m : Map A)
      → get k (put (key x) x m) ≡ or_else (find (λ y. text_eq (key y) k) (x ∷ [])) (get k m)
  unfolding find
  get-put-find key k x m = elim (Bool-cases (text_eq (key x) k)) [
    | inl same ↦ rw same (
        subst (λ i. get i (put (key x) x m) ≡ some x) ((text_eq_iff (key x) k).0 same)
          (get-put (key x) x m))
    | inr differs ↦ rw differs (get-put_other k (key x) x m differs)
  ]

  -- the lookup in a map after insertions: the last element with the key
  get-insert_all :
      (key : A → Text) (k : Text) (xs : List A) (m : Map A)
      → get k (insert_all key xs m) ≡ or_else (find (λ x. text_eq (key x) k) (reverse xs)) (get k m)
  unfolding insert_all find
  get-insert_all key k [] m = refl
  get-insert_all key k (x ∷ xs) m =
      let named : A → Bool = λ y. text_eq (key y) k in
      get-insert_all key k xs (put (key x) x m)
      ∙ ap (or_else (find named (reverse xs))) (get-put-find key k x m)
      ∙ sym (or_else_assoc (find named (reverse xs)) (find named (x ∷ [])) (get k m))
      ∙ ap (λ o. or_else o (get k m)) (sym (find-last named (reverse xs) x))
      ∙ ap (λ l. or_else (find named l) (get k m)) (sym (reverse-cons x xs))

  values-get :
      (P : A → Type 0) (k : Text) (a : A) (m : Map A) → All P (values m) → get k m ≡ some a → P a
  unfolding get
  values-get P k a [] all' h = absurd (ground (arith, h))
  values-get P k a ((j, b) ∷ m) (here, all') h = elim (Bool-cases (text_eq j k)) [
    | inl same ↦ subst P (ground (arith, h, same)) here
    | inr differs ↦ values-get P k a m all' (ground (arith, h, differs))
  ]

-- the parent, if there is one, passes the test
abbrev ParentPasses : (Text → Bool) → Option Text → Type 0
ParentPasses test none = Unit
ParentPasses test (some p) = test p ≡ true

-- the registry has the name as an element or in its taxonomy
unfoldable pub is_known : ModelRegistry → Text → Bool
is_known r name = contains_key name r.elements_by_name || contains_key name r.taxonomy_by_name

check_nodes-parents :
    (known : Map TaxonomyNode) (nodes : List TaxonomyNode)
    → check_nodes known nodes ≡ ok tt
    → All (λ (n : TaxonomyNode). ParentPasses (λ p. contains_key p known) n.parent) nodes
unfolding check_nodes
check_nodes-parents known [] h = tt
check_nodes-parents known (n ∷ rest) h = elim (Option-cases n.parent) [
  | inl top ↦ (rw top tt, check_nodes-parents known rest (ground (arith, h, top)))
  | inr (p, child) ↦ elim (Bool-cases (contains_key p known)) [
    | inl found ↦ (rw child found, check_nodes-parents known rest (ground (arith, h, child, found)))
    | inr missing ↦ absurd (ground (arith, h, child, missing))
  ]
]

check_elements-parents :
    (r : ModelRegistry) (elements : List ModelElementSpec)
    → check_elements r elements ≡ ok tt
    → All (λ (e : ModelElementSpec). ParentPasses (is_known r) e.parent_class) elements
unfolding check_elements is_known
check_elements-parents r [] h = tt
check_elements-parents r (e ∷ rest) h = elim (Option-cases e.parent_class) [
  | inl top ↦ (rw top tt, check_elements-parents r rest (ground (arith, h, top)))
  | inr (p, child) ↦ elim (Bool-cases (is_known r p)) [
    | inl found ↦ (rw child found, check_elements-parents r rest (ground (arith, h, child, found)))
    | inr missing ↦ absurd (ground (arith, h, child, missing))
  ]
]

from_manifest-built :
    (m : MimManifest) (r : ModelRegistry)
    → from_manifest m ≡ ok r
    → (build_registry m ≡ r) × (validate_integrity r ≡ ok tt)
unfolding from_manifest
from_manifest-built m r h =
    let (done, valid, built) = >>=-eq-ok (validate_integrity (build_registry m)) _ h in
    let same = ok_injective (build_registry m) r _ refl built in
    (same, subst (λ x. validate_integrity x ≡ ok tt) same valid)

validate_integrity-parent :
    (r : ModelRegistry) (c p : Text)
    → validate_integrity r ≡ ok tt
    → parent_of r c ≡ some p
    → is_known r p ≡ true
unfolding validate_integrity parent_of element_by_name taxonomy_node is_known
validate_integrity-parent r c p valid child =
    let (done, nodes, elements) =
      >>=-eq-ok (check_nodes r.taxonomy_by_name (values r.taxonomy_by_name)) _ valid in
    elim (or_else-eq-some
      (and_then (get c r.elements_by_name) (λ (x : ModelElementSpec). x.parent_class))
      (and_then (get c r.taxonomy_by_name) (λ (x : TaxonomyNode). x.parent)) child) [
        | inl declared ↦
            let (e, found, parent) =
              and_then-eq-some (get c r.elements_by_name) (λ (x : ModelElementSpec). x.parent_class)
                declared in
            let passes =
              values-get (λ (x : ModelElementSpec). ParentPasses (is_known r) x.parent_class) c e
                r.elements_by_name (check_elements-parents r _ elements) found in
            subst (ParentPasses (is_known r)) parent passes
        | inr classified ↦
            let (n, found, parent) =
              and_then-eq-some (get c r.taxonomy_by_name) (λ (x : TaxonomyNode). x.parent)
                classified in
            let passes =
              values-get
                (λ (x : TaxonomyNode).
                  ParentPasses (λ q. contains_key q r.taxonomy_by_name) x.parent)
                c n r.taxonomy_by_name (check_nodes-parents r.taxonomy_by_name _ nodes) found in
            let known =
              subst (ParentPasses (λ q. contains_key q r.taxonomy_by_name)) parent passes in
            ground (arith, known)
      ]

-- In a registry that a manifest was loaded into, every class above another one is known.
pub from_manifest-Ancestor :
    (m : MimManifest) (r : ModelRegistry) (a c : Text)
    → from_manifest m ≡ ok r
    → Ancestor r a c
    → is_known r a ≡ true
from_manifest-Ancestor m r a c h (is_parent _ child) =
    validate_integrity-parent r c a (from_manifest-built m r h).1 child
from_manifest-Ancestor m r a c h (above_parent _ p child above) =
    from_manifest-Ancestor m r a p h above

-- A registry that a manifest was loaded into answers a lookup with the last entry of the manifest
-- under the name, or the semantic identifier, asked for.
pub from_manifest-last :
    (m : MimManifest) (r : ModelRegistry) (k : Text)
    → from_manifest m ≡ ok r
    → (element_by_name r k ≡ find (λ (e : ModelElementSpec). text_eq e.name k) (reverse m.elements))
      × (element_by_semantic_id r k
          ≡ find (λ (e : ModelElementSpec). text_eq e.semantic_id k) (reverse m.elements))
      × (taxonomy_node r k ≡ find (λ (n : TaxonomyNode). text_eq n.name k) (reverse m.taxonomy))
      × (code_list r k ≡ find (λ (l : CodeList). text_eq l.name k) (reverse m.code_lists))
unfolding build_registry element_by_name element_by_semantic_id taxonomy_node code_list get
from_manifest-last m r k h =
    let built = sym (from_manifest-built m r h).0 in
    (
      ap (λ x. element_by_name x k) built ∙ (get-insert_all _ k m.elements [] ∙ or_else-none _),
      ap (λ x. element_by_semantic_id x k) built
          ∙ (get-insert_all _ k m.elements [] ∙ or_else-none _),
      ap (λ x. taxonomy_node x k) built ∙ (get-insert_all _ k m.taxonomy [] ∙ or_else-none _),
      ap (λ x. code_list x k) built ∙ (get-insert_all _ k m.code_lists [] ∙ or_else-none _),
    )

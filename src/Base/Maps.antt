-- ===== src/Base/Maps.antt =====
-- `IndexMap` keyed by a text, as the entries in insertion order, and `HashSet` of texts.
use mathlib.Core.Path.{◌≡◌, refl}
use mathlib.Core.Logic.{inl, inr}
use mathlib.Core.Bool.{Bool, true, false}
use mathlib.Core.List.{List, [], ◌∷◌}
use mathlib.Core.Option.{Option, none, some}
use native.Mathlib.Omega.{arith}
use ainext_gen_c.Base.Bools.{if◌then◌else◌, Bool-cases}
use ainext_gen_c.Base.Texts.{Text, text_eq, text_eq_iff, text_eq_refl}

abbrev pub Map {ℓ} : Type ℓ → Type ℓ
Map A = List (Text × A)

module _ {ℓ} {A : Type ℓ} where
  -- `IndexMap::get`
  unfoldable pub get : Text → Map A → Option A
  get k [] = none
  get k ((j, a) ∷ rest) = let later = get k rest in if text_eq j k then some a else later

  -- `IndexMap::values`
  abbrev pub values : Map A → List A
  values [] = []
  values ((k, a) ∷ rest) = a ∷ values rest

  -- `IndexMap::contains_key`
  unfoldable pub contains_key : Text → Map A → Bool
  contains_key k [] = false
  contains_key k ((j, a) ∷ rest) = if text_eq j k then true else contains_key k rest

  -- `IndexMap::insert`: a known key keeps its place
  unfoldable pub put : Text → A → Map A → Map A
  put k a [] = (k, a) ∷ []
  put k a ((j, b) ∷ rest) =
      let later = put k a rest in if text_eq j k then (j, a) ∷ rest else (j, b) ∷ later

  -- the loop that inserts every element under its key
  unfoldable pub insert_all : (A → Text) → List A → Map A → Map A
  insert_all key [] m = m
  insert_all key (a ∷ rest) m = insert_all key rest (put (key a) a m)

  pub get-put : (k : Text) (a : A) (m : Map A) → get k (put k a m) ≡ some a
  unfolding get put
  get-put k a [] = ground (arith, text_eq_refl k)
  get-put k a ((j, b) ∷ rest) = ground (arith, get-put k a rest)

  pub get-put_other :
      (i k : Text) (a : A) (m : Map A) → text_eq k i ≡ false → get i (put k a m) ≡ get i m
  unfolding get put
  get-put_other i k a [] h = ground arith
  get-put_other i k a ((j, b) ∷ rest) h = elim (Bool-cases (text_eq j k)) [
    | inl same ↦ rw ((text_eq_iff j k).0 same, text_eq_refl k, h) refl
    | inr differs ↦ ground (arith, get-put_other i k a rest h)
  ]

  pub contains_key-get :
      (k : Text) (m : Map A) → contains_key k m ≡ true → (a : A) × (get k m ≡ some a)
  unfolding get contains_key
  contains_key-get k [] h = absurd (ground arith)
  contains_key-get k ((j, b) ∷ rest) h = elim (Bool-cases (text_eq j k)) [
    | inl same ↦ (b, rw same refl)
    | inr differs ↦ let (a, found) = contains_key-get k rest (ground arith) in (a, rw differs found)
  ]

  pub get-contains_key : (k : Text) (m : Map A) (a : A) → get k m ≡ some a → contains_key k m ≡ true
  unfolding get contains_key
  get-contains_key k [] a h = ground arith
  get-contains_key k ((j, b) ∷ rest) a h = ground (arith, get-contains_key k rest a)

-- `HashSet::contains`
unfoldable pub member : Text → List Text → Bool
member k [] = false
member k (j ∷ rest) = let later = member k rest in if text_eq j k then true else later

-- the set after `HashSet::insert`, which returns whether the text is new
unfoldable pub set_insert : Text → List Text → List Text
set_insert k s = if member k s then s else k ∷ s

-- the set after `HashSet::remove`
unfoldable pub set_remove : Text → List Text → List Text
set_remove k [] = []
set_remove k (j ∷ rest) = let later = set_remove k rest in if text_eq j k then later else j ∷ later

pub member-set_insert :
    (i k : Text) (s : List Text)
    → member i (set_insert k s) ≡ (if text_eq k i then true else member i s)
unfolding set_insert member
member-set_insert i k s = elim (Bool-cases (member k s)) [
  | inl known ↦ elim (Bool-cases (text_eq k i)) [
    | inl same ↦ rw (known, same) (rw (← (text_eq_iff k i).0 same) known)
    | inr differs ↦ rw (known, differs) refl
  ]
  | inr fresh ↦ rw fresh refl
]

pub member-set_remove :
    (i k : Text) (s : List Text)
    → member i (set_remove k s) ≡ (if text_eq k i then false else member i s)
unfolding set_remove member
member-set_remove i k [] = ground arith
member-set_remove i k (j ∷ s) = elim (Bool-cases (text_eq j k)) [
  | inl same ↦ rw ((text_eq_iff j k).0 same, text_eq_refl k, member-set_remove i k s) (ground arith)
  | inr differs ↦ elim (Bool-cases (text_eq k i)) [
    | inl equal ↦
        rw (differs, member-set_remove i k s, equal)
          (rw (← (text_eq_iff k i).0 equal, differs) refl)
    | inr other ↦ rw (differs, member-set_remove i k s, other) refl
  ]
]

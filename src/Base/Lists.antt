-- ===== src/Base/Lists.antt =====
-- Lists: what Rust's iterators and vectors do, with Boolean tests over native numbers.
use Prim.Native.Nat.{ℕ, zero, suc, ◌+◌, ◌≤◌}
use mathlib.Core.Path.{◌≡◌, refl}
use mathlib.Core.Logic.{◌⊎◌, inl, inr}
use mathlib.Core.Bool.{Bool, true, false, ◌&&◌, ◌||◌}
use mathlib.Core.List.{List, [], ◌∷◌, ◌++◌}
use mathlib.Core.Option.{Option, none, some}
use native.Mathlib.Omega.{arith}
use ainext_gen_c.Base.Bools.{if◌then◌else◌}

module _ {ℓ} {A : Type ℓ} where
  abbrev pub length : List A → ℕ
  length [] = 0
  length (x ∷ xs) = suc (length xs)

  abbrev pub is_empty : List A → Bool
  is_empty [] = true
  is_empty (x ∷ xs) = false

  -- `iter().any(p)`
  unfoldable pub any : (A → Bool) → List A → Bool
  any p [] = false
  any p (x ∷ xs) = p x || any p xs

  -- `iter().all(p)`
  unfoldable pub all : (A → Bool) → List A → Bool
  all p [] = true
  all p (x ∷ xs) = p x && all p xs

  -- `iter().find(p)`
  unfoldable pub find : (A → Bool) → List A → Option A
  find p [] = none
  find p (x ∷ xs) = if p x then some x else find p xs

  -- `retain(p)`, and `iter().filter(p)` collected
  unfoldable pub retain : (A → Bool) → List A → List A
  retain p [] = []
  retain p (x ∷ xs) = let rest = retain p xs in if p x then x ∷ rest else rest

  -- `skip(n)`
  unfoldable pub drop : ℕ → List A → List A
  drop zero xs = xs
  drop (suc n) [] = []
  drop (suc n) (x ∷ xs) = drop n xs

  -- `take(n)`
  unfoldable pub take : ℕ → List A → List A
  take zero xs = []
  take (suc n) [] = []
  take (suc n) (x ∷ xs) = x ∷ take n xs

  -- Every element satisfies the predicate.
  abbrev pub All {κ} : (A → Type κ) → List A → Type κ
  All P [] = Unit
  All P (x ∷ xs) = P x × All P xs

  -- Some element satisfies the predicate, with the position kept.
  abbrev pub Any : (A → Type 0) → List A → Type 0
  Any P [] = ⊥
  Any P (x ∷ xs) = P x ⊎ Any P xs

module _ {ℓ} {A : Type ℓ} where
  pub length-append : (xs ys : List A) → length (xs ++ ys) ≡ length xs + length ys
  length-append [] ys = omega arith
  length-append (x ∷ xs) ys = omega (arith, length-append xs ys)

  pub length-retain-le : (p : A → Bool) (xs : List A) → length (retain p xs) ≤ length xs
  unfolding retain
  length-retain-le p [] = omega arith
  length-retain-le p (x ∷ xs) = ground (arith, length-retain-le p xs)

  -- A filter that every element passes changes nothing.
  pub retain-all : (p : A → Bool) (xs : List A) → all p xs ≡ true → retain p xs ≡ xs
  unfolding retain all
  retain-all p [] h = refl
  retain-all p (x ∷ xs) h = ground (arith, retain-all p xs)

  pub all-retain : (p : A → Bool) (xs : List A) → all p (retain p xs) ≡ true
  unfolding retain all
  all-retain p [] = refl
  all-retain p (x ∷ xs) = ground (arith, all-retain p xs)

  pub all-append : (p : A → Bool) (xs ys : List A) → all p (xs ++ ys) ≡ (all p xs && all p ys)
  unfolding all
  all-append p [] ys = refl
  all-append p (x ∷ xs) ys = ground (arith, all-append p xs ys)

  pub find-test : (p : A → Bool) (xs : List A) (x : A) → find p xs ≡ some x → p x ≡ true
  unfolding find
  find-test p [] x h = ground arith
  find-test p (y ∷ xs) x h = ground (arith, find-test p xs x)

  pub all_of_All : (p : A → Bool) (xs : List A) → All (λ x. p x ≡ true) xs → all p xs ≡ true
  unfolding all
  all_of_All p [] h = refl
  all_of_All p (x ∷ xs) h = ground (arith, all_of_All p xs h.1)

  pub all-All : (p : A → Bool) (xs : List A) → all p xs ≡ true → All (λ x. p x ≡ true) xs
  unfolding all
  all-All p [] h = tt
  all-All p (x ∷ xs) h = (ground arith, all-All p xs (ground arith))

  pub any-Any : (p : A → Bool) (xs : List A) → any p xs ≡ true → Any (λ x. p x ≡ true) xs
  unfolding any
  any-Any p [] h = ground arith
  any-Any p (x ∷ xs) h = ground (arith, any-Any p xs)

  pub any_of_Any : (p : A → Bool) (xs : List A) → Any (λ x. p x ≡ true) xs → any p xs ≡ true
  unfolding any
  any_of_Any p [] h = elim h [ ]
  any_of_Any p (x ∷ xs) (inl h) = ground arith
  any_of_Any p (x ∷ xs) (inr h) = ground (arith, any_of_Any p xs h)

  pub All-map {κ η} :
      (P : A → Type κ) (Q : A → Type η) (xs : List A) → ((x : A) → P x → Q x) → All P xs → All Q xs
  All-map P Q [] f h = tt
  All-map P Q (x ∷ xs) f (here, later) = (f x here, All-map P Q xs f later)

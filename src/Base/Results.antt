-- ===== src/Base/Results.antt =====
-- Rust's `Result`, with `?` as the bind of a `do` block.
use mathlib.Core.Path.{◌≡◌, refl}
use mathlib.Core.Logic.{◌⊎◌, inl, inr}
use mathlib.Core.Bool.{Bool, true, false}
use mathlib.Core.Option.{Option, none, some}

pub data Result {ℓ κ} (E : Type κ) (A : Type ℓ) : Type (ℓ ⊔ κ) where
  ok : A → Result E A
  err : E → Result E A

-- `Option::ok_or_else`
abbrev pub ok_or {ℓ η} : {E : Type η} {A : Type ℓ} → Option A → E → Result E A
ok_or none e = err e
ok_or (some a) e = ok a

infixl 5 ◌>>=◌
abbrev pub ◌>>=◌ {ℓ κ η} :
    {E : Type η} {A : Type ℓ} {B : Type κ} → Result E A → (A → Result E B) → Result E B
err e >>= next = err e
ok a >>= next = next a

-- `Result::map_err`, and the conversion that `?` makes
abbrev pub map_err {ℓ η κ} :
    {E : Type η} {F : Type κ} {A : Type ℓ} → (E → F) → Result E A → Result F A
map_err f (ok a) = ok a
map_err f (err e) = err (f e)

-- a step whose value is not used
infixl 5 ◌>>◌
abbrev pub ◌>>◌ {κ η} : {E : Type η} {B : Type κ} → Result E (Unit {0}) → Result E B → Result E B
first >> second = first >>= λ done. second

-- `if test { return Err(e) }`
abbrev pub fail_if {η} : {E : Type η} → Bool → E → Result E (Unit {0})
fail_if false e = ok tt
fail_if true e = err e

-- `Result::is_ok`
abbrev pub is_ok {ℓ η} : {E : Type η} {A : Type ℓ} → Result E A → Bool
is_ok (ok a) = true
is_ok (err e) = false

-- To split on a computed result and keep the equation.
pub Result-cases {ℓ η} :
    {E : Type η} {A : Type ℓ} (r : Result E A) → ((a : A) × (r ≡ ok a)) ⊎ ((e : E) × (r ≡ err e))
Result-cases (err e) = inr (e, refl)
Result-cases (ok a) = inl (a, refl)

-- A chain that returned: its first step returned, and so did the rest on its value.
pub >>=-eq-ok {ℓ κ η} :
    {E : Type η} {A : Type ℓ} {B : Type κ} (first : Result E A) (next : A → Result E B) {b : B}
    → (first >>= next) ≡ ok b
    → (a : A) × (first ≡ ok a) × (next a ≡ ok b)
>>=-eq-ok (err e) next returned = cc
>>=-eq-ok (ok value) next returned = (value, refl, returned)

pub ok_injective {ℓ η} :
    {E : Type η} {A : Type ℓ} (a b : A) → (r : Result E A) → r ≡ ok a → r ≡ ok b → a ≡ b
ok_injective a b r h i = cc

-- A result whose error was changed returns what it returned.
pub map_err-eq-ok {ℓ η κ} :
    {E : Type η} {F : Type κ} {A : Type ℓ} (f : E → F) (r : Result E A) (a : A)
    → map_err f r ≡ ok a
    → r ≡ ok a
map_err-eq-ok f (ok b) a h = cc
map_err-eq-ok f (err e) a h = cc

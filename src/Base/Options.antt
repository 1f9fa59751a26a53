-- ===== src/Base/Options.antt =====
-- Rust's `Option`: the chains that the program writes, and what they return.
use mathlib.Core.Path.{◌≡◌, refl}
use mathlib.Core.Logic.{◌⊎◌, inl, inr}
use mathlib.Core.Option.{Option, none, some}

-- `Option::and_then`
abbrev pub and_then {ℓ κ} : {A : Type ℓ} {B : Type κ} → Option A → (A → Option B) → Option B
and_then none next = none
and_then (some a) next = next a

-- `Option::or`, `or_else`
abbrev pub or_else {ℓ} : {A : Type ℓ} → Option A → Option A → Option A
or_else (some a) other = some a
or_else none other = other

-- A chain with a value: its first step has one, and so has the rest.
pub and_then-eq-some {ℓ κ} :
    {A : Type ℓ} {B : Type κ} (first : Option A) (next : A → Option B) {b : B}
    → and_then first next ≡ some b
    → (a : A) × (first ≡ some a) × (next a ≡ some b)
and_then-eq-some none next h = cc
and_then-eq-some (some a) next h = (a, refl, h)

pub or_else-eq-some {ℓ} :
    {A : Type ℓ} (first other : Option A) {a : A}
    → or_else first other ≡ some a
    → (first ≡ some a) ⊎ (other ≡ some a)
or_else-eq-some none other h = inr h
or_else-eq-some (some b) other h = inl h

-- ===== src/Base/Words.antt =====
-- `str::split` on separators, `Vec<String>::join`, `str::to_uppercase`.
use Prim.Native.Nat.{ℕ}
use mathlib.Core.Bool.{Bool}
use mathlib.Core.List.{List, [], ◌∷◌, ◌++◌}
use ainext_gen_c.Base.Bools.{ltb, if◌then◌else◌}
use ainext_gen_c.Base.Texts.{Text, ascii_upper}

-- a character in front of the first piece
unfoldable pub extend_first : ℕ → List Text → List Text
extend_first c [] = (c ∷ []) ∷ []
extend_first c (w ∷ rest) = (c ∷ w) ∷ rest

-- `split(separators)`: the pieces between separators, the empty ones too
unfoldable pub split : (ℕ → Bool) → Text → List Text
unfolding extend_first
split sep [] = [] ∷ []
split sep (c ∷ s) = let pieces = split sep s in if sep c then [] ∷ pieces else extend_first c pieces

-- `join(separator)`
unfoldable pub join : Text → List Text → Text
join separator [] = []
join separator (w ∷ []) = w
join separator (w ∷ (v ∷ rest)) = w ++ (separator ++ join separator (v ∷ rest))

-- `str::to_uppercase`: ASCII letters here, the other characters by the Unicode tables `upper`
unfoldable pub to_uppercase : (ℕ → Text) → Text → Text
to_uppercase upper [] = []
to_uppercase upper (c ∷ s) =
    (if ltb c 128 then ascii_upper c ∷ [] else upper c) ++ to_uppercase upper s

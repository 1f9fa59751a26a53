-- ===== src/Base/Utf8.antt =====
-- `str::as_bytes`: the UTF-8 encoding of a text.
use Prim.Native.Nat.{ℕ, ◌+◌, ◌/◌, ◌%◌}
use mathlib.Core.List.{List, [], ◌∷◌, ◌++◌}
use ainext_gen_c.Base.Bools.{ltb, if◌then◌else◌}
use ainext_gen_c.Base.Texts.{Text}

abbrev pub Bytes : Type 0
Bytes = List ℕ

-- one code point in UTF-8
unfoldable pub encode_char : ℕ → Bytes
encode_char c =
    if ltb c 0x80
    then c ∷ []
    else if ltb c 0x800
    then (0xc0 + c / 64) ∷ (0x80 + c % 64) ∷ []
    else if ltb c 0x10000
    then (0xe0 + c / 4096) ∷ (0x80 + c / 64 % 64) ∷ (0x80 + c % 64) ∷ []
    else (0xf0 + c / 262144) ∷ (0x80 + c / 4096 % 64) ∷ (0x80 + c / 64 % 64) ∷ (0x80 + c % 64) ∷ []

unfoldable pub as_bytes : Text → Bytes
unfolding encode_char
as_bytes [] = []
as_bytes (c ∷ s) = encode_char c ++ as_bytes s

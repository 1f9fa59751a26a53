-- ===== src/Base/Decoding.antt =====
-- `String::from_utf8`: the decoding of UTF-8, which refuses what is no encoding of a character.
use Prim.Native.Nat.{ℕ, zero, suc, ◌+◌, ◌-◌, ◌*◌}
use mathlib.Core.Bool.{Bool, ◌&&◌}
use mathlib.Core.Option.{Option, none, some}
use mathlib.Core.List.{[], ◌∷◌}
use ainext_gen_c.Base.Bools.{leb, ltb, ◌==◌, if◌then◌else◌}
use ainext_gen_c.Base.Texts.{Text}
use ainext_gen_c.Base.Utf8.{Bytes}

-- What is left of a character: the bytes to come, their value so far, and the range of the next.
pub record Pending : Type 0 where
  pub need : ℕ
  pub value : ℕ
  pub low : ℕ
  pub high : ℕ

abbrev pub no_character : Pending
no_character = record { need = 0; value = 0; low = 0; high = 0 }

abbrev pub is_within : ℕ → ℕ → ℕ → Bool
is_within low b high = leb low b && leb b high

-- the first byte of a character of more than one byte: the ranges leave out overlong encodings,
-- surrogates, and what is above the last code point
unfoldable pub lead : ℕ → Option Pending
lead b =
    if is_within 0xc2 b 0xdf
    then some (record { need = 1; value = b - 0xc0; low = 0x80; high = 0xbf })
    else if is_within 0xe0 b 0xef
    then some (record {
      need = 2;
      value = b - 0xe0;
      low = if b == 0xe0 then 0xa0 else 0x80;
      high = if b == 0xed then 0x9f else 0xbf;
    })
    else if is_within 0xf0 b 0xf4
    then some (record {
      need = 3;
      value = b - 0xf0;
      low = if b == 0xf0 then 0x90 else 0x80;
      high = if b == 0xf4 then 0x8f else 0xbf;
    })
    else none

-- the pending bytes after a continuation byte: `n` more are needed
abbrev pub continue_with : ℕ → ℕ → Option ℕ × Pending
continue_with zero v = (some v, no_character)
continue_with (suc n) v = (none, record { need = suc n; value = v; low = 0x80; high = 0xbf })

-- one byte: the character that it ends, if any, and what is pending after it
unfoldable pub decode_byte : Pending → ℕ → Option (Option ℕ × Pending)
unfolding lead
decode_byte p b = elim p.need [
  | zero ↦
      if ltb b 0x80
      then some (some b, no_character)
      else elim (lead b) [ none ↦ none | some q ↦ some (none, q) ]
  | suc n ↦
      if is_within p.low b p.high then some (continue_with n (p.value * 64 + (b - 0x80))) else none
]

unfoldable pub decode_from : Pending → Bytes → Option Text
unfolding decode_byte
decode_from p [] = elim p.need [ zero ↦ some [] | suc n ↦ none ]
decode_from p (b ∷ s) = elim (decode_byte p b) [
  | none ↦ none
  | some (character, q) ↦ elim (decode_from q s) [
    | none ↦ none
    | some rest ↦ elim character [ none ↦ some rest | some c ↦ some (c ∷ rest) ]
  ]
]

-- `String::from_utf8`, without the error that says where the bytes go wrong
unfoldable pub from_utf8 : Bytes → Option Text
unfolding decode_from
from_utf8 bytes = decode_from no_character bytes

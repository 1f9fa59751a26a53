-- ===== src/Base/Texts.antt =====
-- Rust's `str` as the list of its Unicode code points, and the methods that the program calls.
use Prim.Native.Nat.{ℕ, ◌-◌, ◌<◌}
use mathlib.Core.Option.{Option, none, some}
use Prim.Native.Char.{code}
use Prim.Native.String.{String}
use mathlib.Core.Path.{◌≡◌, refl}
use mathlib.Core.Logic.{◌↔◌}
use mathlib.Core.Bool.{Bool, true, false, ◌&&◌, ◌||◌}
use mathlib.Core.List.{List, [], ◌∷◌, map, reverse}
use native.Mathlib.Omega.{arith}
use ainext_gen_c.Base.Lists.{length, drop}
use ainext_gen_c.Base.Bools.{leb, ◌==◌, if◌then◌else◌}

abbrev pub Text : Type 0
Text = List ℕ

codes : String → Text
codes String.[] = []
codes (String.◌∷◌ c s) = code c ∷ codes s

-- A literal. It stays shut in proofs, and computes in tests.
unfoldable pub text : String → Text
unfolding codes
text s = codes s

-- `a == b` on strings
unfoldable pub text_eq : Text → Text → Bool
text_eq [] [] = true
text_eq (a ∷ s) (b ∷ t) = a == b && text_eq s t
text_eq _ _ = false

pub text_eq_iff : (s t : Text) → (text_eq s t ≡ true) ↔ (s ≡ t)
unfolding text_eq
text_eq_iff [] [] = (λ h. refl, λ h. refl)
text_eq_iff [] (b ∷ t) = (λ h. ground arith, λ h. ground arith)
text_eq_iff (a ∷ s) [] = (λ h. ground arith, λ h. ground arith)
text_eq_iff (a ∷ s) (b ∷ t) =
    (λ h. ground (arith, (text_eq_iff s t).0), λ h. ground (arith, (text_eq_iff s t).1))

pub text_eq_refl : (s : Text) → text_eq s s ≡ true
text_eq_refl s = (text_eq_iff s s).1 refl

-- `u8::to_ascii_uppercase`, `char::to_ascii_uppercase`
unfoldable pub ascii_upper : ℕ → ℕ
ascii_upper c = if leb b'a' c && leb c b'z' then c - 32 else c

-- `str::to_ascii_uppercase`
unfoldable pub to_ascii_uppercase : Text → Text
unfolding ascii_upper
to_ascii_uppercase s = map ascii_upper s

-- `str::eq_ignore_ascii_case`
unfoldable pub eq_ignore_ascii_case : Text → Text → Bool
unfolding to_ascii_uppercase text_eq
eq_ignore_ascii_case s t = text_eq (to_ascii_uppercase s) (to_ascii_uppercase t)

-- `char::is_whitespace`: the code points with the Unicode property White_Space
unfoldable pub is_whitespace : ℕ → Bool
is_whitespace c =
    leb 9 c && leb c 13
    || c == 32
    || c == 0x85
    || c == 0xa0
    || c == 0x1680
    || leb 0x2000 c && leb c 0x200a
    || c == 0x2028
    || c == 0x2029
    || c == 0x202f
    || c == 0x205f
    || c == 0x3000

unfoldable pub trim_start : Text → Text
unfolding is_whitespace
trim_start [] = []
trim_start (c ∷ s) = if is_whitespace c then trim_start s else c ∷ s

-- `str::trim`
unfoldable pub trim : Text → Text
unfolding trim_start
trim s = reverse (trim_start (reverse (trim_start s)))

-- `str::ends_with`
unfoldable pub ends_with : Text → Text → Bool
ends_with s suffix = text_eq (drop (length s - length suffix) s) suffix

-- `str::starts_with`
unfoldable pub starts_with : Text → Text → Bool
starts_with s [] = true
starts_with [] (c ∷ prefix) = false
starts_with (d ∷ s) (c ∷ prefix) = d == c && starts_with s prefix

-- `str::trim_start_matches` of a character
unfoldable pub trim_start_of : ℕ → Text → Text
trim_start_of c [] = []
trim_start_of c (d ∷ s) = if d == c then trim_start_of c s else d ∷ s

-- `str::trim_matches` of a character
unfoldable pub trim_of : ℕ → Text → Text
unfolding trim_start_of
trim_of c s = reverse (trim_start_of c (reverse (trim_start_of c s)))

-- the text before the first occurrence of a character, and the text after it
pub record Cut (s : Text) : Type 0 where
  pub before : Text
  pub after : Text
  pub shorter : length after < length s

-- the cut at the first character
unfoldable pub cut_here : (d : ℕ) (s : Text) → Cut (d ∷ s)
cut_here d s = record { before = []; after = s; shorter = omega arith }

-- a character in front of a text that is cut
unfoldable pub extend_cut : (d : ℕ) {s : Text} → Cut s → Cut (d ∷ s)
extend_cut d found = record {
  before = d ∷ found.before;
  after = found.after;
  shorter = omega (arith, found.shorter);
}

-- `str::find` of a character, with the slices around its index
unfoldable pub cut : ℕ → (s : Text) → Option (Cut s)
unfolding extend_cut cut_here
cut c [] = none
cut c (d ∷ s) = elim (d == c) [
  | true ↦ some (cut_here d s)
  | false ↦ elim (cut c s) [ none ↦ none | some found ↦ some (extend_cut d found) ]
]

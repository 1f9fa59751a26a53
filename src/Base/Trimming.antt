-- ===== src/Base/Trimming.antt =====
-- Texts without white space at their ends, and texts without a character: what `trim`, `find` and
-- the slices around an index make of them.
use Prim.Native.Nat.{ℕ}
use mathlib.Core.Path.{◌≡◌, refl, ap, ◌∙◌}
use mathlib.Core.Bool.{Bool, true, false, not, ◌&&◌}
use mathlib.Core.List.{[], ◌∷◌, ◌++◌, reverse, reverse-append, reverse-reverse}
use mathlib.Core.Option.{none, some}
use native.Mathlib.Omega.{arith}
use ainext_gen_c.Base.Bools.{◌==◌}
use ainext_gen_c.Base.Texts.{Text, is_whitespace, trim_start, trim, Cut, cut_here, extend_cut, cut}

-- the text is not empty and does not start with white space
unfoldable pub solid_start : Text → Bool
solid_start [] = false
solid_start (c ∷ s) = not (is_whitespace c)

-- the text is not empty and does not end with white space
unfoldable pub solid_end : Text → Bool
unfolding solid_start
solid_end s = solid_start (reverse s)

-- the character is not in the text
unfoldable pub lacks : ℕ → Text → Bool
lacks c [] = true
lacks c (d ∷ s) = not (d == c) && lacks c s

trim_start-solid : (s : Text) → solid_start s ≡ true → trim_start s ≡ s
unfolding solid_start trim_start
trim_start-solid [] h = refl
trim_start-solid (c ∷ s) h = ground (arith, h)

pub solid_start-append : (s t : Text) → solid_start s ≡ true → solid_start (s ++ t) ≡ true
unfolding solid_start
solid_start-append [] t h = absurd (ground (arith, h))
solid_start-append (c ∷ s) t h = h

pub solid_end-append : (s t : Text) → solid_end t ≡ true → solid_end (s ++ t) ≡ true
unfolding solid_end
solid_end-append s t h =
    ap solid_start (reverse-append s t) ∙ solid_start-append (reverse t) (reverse s) h

pub trim-solid : (s : Text) → solid_start s ≡ true → solid_end s ≡ true → trim s ≡ s
unfolding trim solid_end
trim-solid s start end' =
    ap (λ t. reverse (trim_start (reverse t))) (trim_start-solid s start)
    ∙ ap reverse (trim_start-solid (reverse s) end')
    ∙ reverse-reverse s

pub lacks-append :
    (c : ℕ) (s t : Text) → lacks c s ≡ true → lacks c t ≡ true → lacks c (s ++ t) ≡ true
unfolding lacks
lacks-append c [] t h i = i
lacks-append c (d ∷ s) t h i = ground (arith, lacks-append c s t)

pub cut-lacks : (c : ℕ) (s : Text) → lacks c s ≡ true → cut c s ≡ none
unfolding lacks cut
cut-lacks c [] h = refl
cut-lacks c (d ∷ s) h =
    let differs : (d == c) ≡ false = ground (arith, h) in
    rw (cut, differs, cut-lacks c s (ground (arith, h))) refl

-- The first occurrence of a character is the one after a text that lacks it.
pub cut-append :
    (c : ℕ) (s t : Text)
    → lacks c s ≡ true
    → (k : Cut (s ++ c ∷ t)) × (cut c (s ++ c ∷ t) ≡ some k) × (k.before ≡ s) × (k.after ≡ t)
unfolding lacks cut extend_cut cut_here
cut-append c [] t h =
    let same : (c == c) ≡ true = ground arith in (cut_here c t, rw (cut, same) refl, refl, refl)
cut-append c (d ∷ s) t h =
    let differs : (d == c) ≡ false = ground (arith, h) in
    let (k, found, before, after) = cut-append c s t (ground (arith, h)) in
    (extend_cut d k, rw (cut, differs, found) refl, ap (λ b. d ∷ b) before, after)

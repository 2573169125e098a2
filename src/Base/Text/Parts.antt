-- ===== src/Base/Text/Parts.antt =====
-- Where `split` and `splitlines` cut.
use Prim.Native.Nat.{ℕ}
use mathlib.Core.Path.{◌≡◌, refl, ap, ◌∙◌, sym}
use mathlib.Core.Bool.{true, false}
use mathlib.Core.List.{List, [], ◌∷◌, ◌++◌, append_assoc, append-nil}
use native.Mathlib.Omega.{arith}
use cpsc_of_testbed.Base.Tests.{eqb}
use cpsc_of_testbed.Base.Lists.{All}
use cpsc_of_testbed.Base.Text.{Text, split_from, split, is_break, lines_from, split_lines, unlines}

-- A part: no separator in it.
abbrev pub Lacks : ℕ → Text → Type 0
Lacks sep = All (λ c. eqb c sep ≡ false)

-- A line: nothing in it ends a line.
abbrev pub IsLine : Text → Type 0
IsLine = All (λ c. is_break c ≡ false)

split_from-cut :
    (sep : ℕ) (part s rest : Text)
    → Lacks sep s
    → split_from sep part (s ++ sep ∷ rest) ≡ (part ++ s) ∷ split_from sep [] rest
unfolding split_from
split_from-cut sep part [] rest h =
    let same : eqb sep sep ≡ true = ground arith in
    rw same (ap (λ p. p ∷ split_from sep [] rest) (sym (append-nil part)))
split_from-cut sep part (c ∷ s) rest h = rw h.0 (
    split_from-cut sep (part ++ c ∷ []) s rest h.1
    ∙ ap (λ p. p ∷ split_from sep [] rest) (append_assoc part (c ∷ []) s))

split_from-end : (sep : ℕ) (part s : Text) → Lacks sep s → split_from sep part s ≡ (part ++ s) ∷ []
unfolding split_from
split_from-end sep part [] h = ap (λ p. p ∷ []) (sym (append-nil part))
split_from-end sep part (c ∷ s) h =
    rw h.0
      (split_from-end sep (part ++ c ∷ []) s h.1 ∙ ap (λ p. p ∷ []) (append_assoc part (c ∷ []) s))

-- The first separator ends the first part.
pub split-cut :
    (sep : ℕ) (s rest : Text) → Lacks sep s → split sep (s ++ sep ∷ rest) ≡ s ∷ split sep rest
unfolding split
split-cut sep s rest h = split_from-cut sep [] s rest h

-- A text without a separator is one part.
pub split_whole : (sep : ℕ) (s : Text) → Lacks sep s → split sep s ≡ s ∷ []
unfolding split
split_whole sep s h = split_from-end sep [] s h

lines_from-cut :
    (line s rest : Text)
    → IsLine s
    → lines_from false line (s ++ b'\n' ∷ rest) ≡ (line ++ s) ∷ lines_from false [] rest
unfolding lines_from
lines_from-cut line [] rest h = ap (λ p. p ∷ lines_from false [] rest) (sym (append-nil line))
lines_from-cut line (c ∷ s) rest h = rw h.0 (
    lines_from-cut (line ++ c ∷ []) s rest h.1
    ∙ ap (λ p. p ∷ lines_from false [] rest) (append_assoc line (c ∷ []) s))

-- A line feed ends a line.
pub split_lines-cut :
    (s rest : Text) → IsLine s → split_lines (s ++ b'\n' ∷ rest) ≡ s ∷ split_lines rest
unfolding split_lines
split_lines-cut s rest h = lines_from-cut [] s rest h

lines_from-end :
    (line : Text) (c : ℕ) (s : Text)
    → IsLine s
    → lines_from false (line ++ c ∷ []) s ≡ (line ++ c ∷ s) ∷ []
unfolding lines_from
lines_from-end [] c [] h = refl
lines_from-end (d ∷ line) c [] h = refl
lines_from-end line c (e ∷ s) h = rw h.0 (
    lines_from-end (line ++ c ∷ []) e s h.1 ∙ ap (λ p. p ∷ []) (append_assoc line (c ∷ []) (e ∷ s)))

-- The last line may have no line feed.
pub split_lines_last : (c : ℕ) (s : Text) → IsLine (c ∷ s) → split_lines (c ∷ s) ≡ (c ∷ s) ∷ []
unfolding split_lines
split_lines_last c s h = rw h.0 (lines_from-end [] c s h.1)

-- Lines that were written are read again.
pub split_lines-unlines :
    (lines : List Text) (rest : Text)
    → All IsLine lines
    → split_lines (unlines lines ++ rest) ≡ lines ++ split_lines rest
split_lines-unlines [] rest h = refl
split_lines-unlines (line ∷ lines) rest h =
    ap split_lines (append_assoc line (b'\n' ∷ unlines lines) rest)
    ∙ split_lines-cut line (unlines lines ++ rest) h.0
    ∙ ap (λ ls. line ∷ ls) (split_lines-unlines lines rest h.1)

-- The same, where nothing follows.
pub split_lines-unlines_all :
    (lines : List Text) → All IsLine lines → split_lines (unlines lines) ≡ lines
unfolding split_lines lines_from
split_lines-unlines_all lines h =
    ap split_lines (sym (append-nil (unlines lines)))
    ∙ split_lines-unlines lines [] h
    ∙ append-nil lines

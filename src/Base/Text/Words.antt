-- ===== src/Base/Text/Words.antt =====
-- Numbers written one after the other, with a blank between them.
use Prim.Native.Nat.{ℕ}
use mathlib.Core.Path.{◌≡◌, refl, ap, ◌∙◌}
use mathlib.Core.List.{List, [], ◌∷◌, ◌++◌, map}
use native.Mathlib.Omega.{arith}
use cpsc_of_testbed.Base.Lists.{All, All-append}
use cpsc_of_testbed.Base.Results.{ok, map_result}
use cpsc_of_testbed.Base.Text.{int, Text, show, split}
use cpsc_of_testbed.Base.Text.Numerals.{IsDigit, show-IsDigit, show-cons, read_nat-show}
use cpsc_of_testbed.Base.Text.Parts.{Lacks, IsLine, split-cut, split_whole}
use cpsc_of_testbed.Base.Text.Floats.{IsPrinted, whole_format}
use cpsc_of_testbed.Base.Numbers.{whole}

digits-Lacks : (s : Text) → All IsDigit s → Lacks b' ' s
digits-Lacks [] h = tt
digits-Lacks (c ∷ s) h = (ground (arith, h.0), digits-Lacks s h.1)

digits-IsLine : (s : Text) → All IsDigit s → IsLine s
digits-IsLine [] h = tt
digits-IsLine (c ∷ s) h = (ground (arith, h.0), digits-IsLine s h.1)

pub show-Lacks : (n : ℕ) → Lacks b' ' (show n)
show-Lacks n = digits-Lacks (show n) (show-IsDigit n)

pub show-IsLine : (n : ℕ) → IsLine (show n)
show-IsLine n = digits-IsLine (show n) (show-IsDigit n)

pub whole-IsPrinted : (n : ℕ) → IsPrinted whole whole_format n
whole-IsPrinted n = record {
  reads_back = read_nat-show n;
  has_no_blank = show-Lacks n;
  is_line = show-IsLine n;
  is_not_empty = show-cons n;
}

-- `for elem in xs[:-1]: s += "%d " % elem`, and the last without a blank.
unfoldable pub undelimited : List ℕ → Text
undelimited [] = []
undelimited (x ∷ []) = show x
undelimited (x ∷ y ∷ ys) = show x ++ b' ' ∷ undelimited (y ∷ ys)

pub undelimited-IsLine : (xs : List ℕ) → IsLine (undelimited xs)
unfolding undelimited
undelimited-IsLine [] = tt
undelimited-IsLine (x ∷ []) = show-IsLine x
undelimited-IsLine (x ∷ y ∷ ys) =
    All-append _ (show x) (b' ' ∷ undelimited (y ∷ ys)) (show-IsLine x)
      (refl, undelimited-IsLine (y ∷ ys))

-- The words of a text of numbers are the numbers.
pub split-undelimited :
    (x : ℕ) (xs : List ℕ) → split b' ' (undelimited (x ∷ xs)) ≡ map show (x ∷ xs)
unfolding undelimited
split-undelimited x [] = split_whole b' ' (show x) (show-Lacks x)
split-undelimited x (y ∷ ys) =
    split-cut b' ' (show x) (undelimited (y ∷ ys)) (show-Lacks x)
    ∙ ap (λ ws. show x ∷ ws) (split-undelimited y ys)

-- The numbers of words that were written.
pub read_numbers : (ns : List ℕ) → map_result int (map show ns) ≡ ok ns
unfolding map_result
read_numbers [] = refl
read_numbers (n ∷ ns) = rw (read_nat-show n) (rw (read_numbers ns) refl)

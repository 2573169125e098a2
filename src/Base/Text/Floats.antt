-- ===== src/Base/Text/Floats.antt =====
-- `"%f" % x` and `float(s)`. The library has no floats, so how they are written and read is a
-- parameter; a number is printed exactly if its text reads back as the number.
use Prim.Native.Nat.{ℕ}
use mathlib.Core.Path.{◌≡◌, ap, ◌∙◌, sym, subst}
use mathlib.Core.Option.{Option, some}
use mathlib.Core.List.{List, [], ◌∷◌, ◌++◌}
use cpsc_of_testbed.Base.Lists.{All}
use cpsc_of_testbed.Base.Results.{Result, or_raise, value_error}
use cpsc_of_testbed.Base.Numbers.{Number, whole}
use cpsc_of_testbed.Base.Text.{Text, show, read_nat, split_lines, unlines}
use cpsc_of_testbed.Base.Text.Parts.{Lacks, IsLine, split_lines_last, split_lines-unlines}

module _ (N : Number) where
  open N use {Num}

  pub record FloatFormat : Type 0 where
    pub show_float : Num → Text
    -- `none` is a ValueError.
    pub read_float : Text → Option Num

module _ (N : Number) (F : FloatFormat N) where
  open N use {Num}
  open F use {show_float, read_float}

  -- `float(s)`
  abbrev pub float : Text → Result Num
  float s = or_raise (read_float s) value_error

  -- The text of the number is one word of one line, and reads back as the number.
  pub record IsPrinted (x : Num) : Type 0 where
    pub reads_back : read_float (show_float x) ≡ some x
    pub has_no_blank : Lacks b' ' (show_float x)
    pub is_line : IsLine (show_float x)
    pub is_not_empty : (c : ℕ) × (s : Text) × (show_float x ≡ c ∷ s)

module _ {N : Number} (F : FloatFormat N) where
  open N use {Num}
  open F use {show_float}

  show_float_only : (x : Num) → IsPrinted N F x → split_lines (show_float x) ≡ show_float x ∷ []
  show_float_only x p =
      let (c, s, e) = p.is_not_empty in
      ap split_lines e ∙ split_lines_last c s (subst IsLine e p.is_line) ∙ ap (λ l. l ∷ []) (sym e)

  -- Lines with a number behind them.
  pub split_lines-show_float :
      (lines : List Text) (x : Num)
      → All IsLine lines
      → IsPrinted N F x
      → split_lines (unlines lines ++ show_float x) ≡ lines ++ show_float x ∷ []
  split_lines-show_float lines x h p =
      split_lines-unlines lines (show_float x) h ∙ ap (λ ls. lines ++ ls) (show_float_only x p)

-- The format of whole numbers.
abbrev pub whole_format : FloatFormat whole
whole_format = record { show_float = show; read_float = read_nat }

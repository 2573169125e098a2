-- ===== src/Base/Integers.antt =====
-- Integers over the native numbers, as an arithmetic in which differences cancel.
use Prim.Native.Nat.{ℕ, suc, ◌+◌, ◌-◌, ◌*◌, ◌/◌}
use mathlib.Core.Path.{◌≡◌}
use mathlib.Core.Bool.{Bool, ◌&&◌}
use native.Mathlib.Omega.{arith}
use cpsc_of_testbed.Base.Tests.{ltb, leb, eqb, if◌then◌else◌}
use cpsc_of_testbed.Base.Numbers.{Number, zero_num}

-- `negsuc n` is -(n + 1).
pub data ℤ : Type 0 where
  pos : ℕ → ℤ
  negsuc : ℕ → ℤ

abbrev pub pos_part : ℤ → ℕ
pos_part (pos n) = n
pos_part (negsuc n) = 0

abbrev pub neg_part : ℤ → ℕ
neg_part (pos n) = 0
neg_part (negsuc n) = suc n

-- a - b, as an integer.
abbrev pub sub_ℕ : ℕ → ℕ → ℤ
sub_ℕ a b = if leb b a then pos (a - b) else negsuc (b - a - 1)

infixl 65 ◌+ℤ◌ ◌-ℤ◌
infixl 70 ◌*ℤ◌
unfoldable pub ◌+ℤ◌ : ℤ → ℤ → ℤ
a +ℤ b = sub_ℕ (pos_part a + pos_part b) (neg_part a + neg_part b)

unfoldable pub ◌-ℤ◌ : ℤ → ℤ → ℤ
a -ℤ b = sub_ℕ (pos_part a + neg_part b) (neg_part a + pos_part b)

unfoldable pub ◌*ℤ◌ : ℤ → ℤ → ℤ
a *ℤ b =
    sub_ℕ (pos_part a * pos_part b + neg_part a * neg_part b)
      (pos_part a * neg_part b + neg_part a * pos_part b)

-- Rounded towards 0.
abbrev pub divide_by : ℤ → ℕ → ℤ
divide_by (pos n) d = pos (n / d)
divide_by (negsuc n) d = sub_ℕ 0 (suc n / d)

abbrev pub gt_ℤ : ℤ → ℤ → Bool
gt_ℤ a b = ltb (pos_part b + neg_part a) (pos_part a + neg_part b)

abbrev pub same_ℤ : ℤ → ℤ → Bool
same_ℤ a b = eqb (pos_part a) (pos_part b) && eqb (neg_part a) (neg_part b)

abbrev pub integers : Number
integers = record {
  Num = ℤ;
  ratio = λ n d. pos (n / d);
  plus = ◌+ℤ◌;
  minus = ◌-ℤ◌;
  times = ◌*ℤ◌;
  divide = divide_by;
  gt = gt_ℤ;
  same = same_ℤ;
}

-- Differences of neighbours add up.
module _ (N : Number) where
  open N use {Num, plus, minus}

  pub record HasDifferences : Type 0 where
    pub zero_plus : (a : Num) → plus (zero_num N) a ≡ a
    pub minus_plus : (a b c : Num) → plus (minus b a) (minus c b) ≡ minus c a

pub integers-HasDifferences : HasDifferences integers
unfolding ◌+ℤ◌ ◌-ℤ◌
integers-HasDifferences = record {
  zero_plus = λ a. zero_plus_lem a;
  minus_plus = λ a b c. minus_plus_lem a b c;
}
  where
    zero_plus_lem : (a : ℤ) → pos 0 +ℤ a ≡ a
    zero_plus_lem a = ground arith

    minus_plus_lem : (a b c : ℤ) → (b -ℤ a) +ℤ (c -ℤ b) ≡ c -ℤ a
    minus_plus_lem a b c = ground arith

-- ===== src/Base/Numbers.antt =====
-- Python's floats. The library has none: their type and operations are a parameter, and what a
-- theorem needs of them is a hypothesis of its own.
use Prim.Native.Nat.{ℕ, ◌+◌, ◌*◌, ◌/◌, ◌-◌}
use mathlib.Core.Path.{◌≡◌}
use native.Mathlib.Omega.{arith}
use native.Mathlib.Nat.{mul-le-mul_right}
use mathlib.Core.Bool.{Bool, true, false}
use mathlib.Core.List.{List, [], ◌∷◌}
use cpsc_of_testbed.Base.Tests.{ltb, eqb}

-- A record with a field of `Type 0` stands in `Type 1`.
pub record Number : Type 1 where
  pub Num : Type 0
  -- The literal n / d.
  pub ratio : ℕ → ℕ → Num
  pub plus : Num → Num → Num
  pub minus : Num → Num → Num
  pub times : Num → Num → Num
  -- The quotient by a whole number that is not 0.
  pub divide : Num → ℕ → Num
  -- `a > b` and `a == b`
  pub gt : Num → Num → Bool
  pub same : Num → Num → Bool

module _ (N : Number) where
  open N use {Num, ratio, plus, gt}

  abbrev pub zero_num : Num
  zero_num = ratio 0 1

  abbrev pub one_num : Num
  one_num = ratio 1 1

  -- `sum(xs)`, which adds from the left.
  abbrev pub sum_from : Num → List Num → Num
  sum_from acc [] = acc
  sum_from acc (x ∷ xs) = sum_from (plus acc x) xs

  -- `not (a > b)`
  abbrev pub Le : Num → Num → Type 0
  Le a b = gt a b ≡ false

module _ (N : Number) where
  open N use {Num, ratio, plus, times, gt}

  -- The numbers of the arithmetic that a linear program is about: addition and multiplication keep
  -- the order, and 0 and 1 are neutral.
  pub record IsOrdered : Type 0 where
    pub le_refl : (a : Num) → Le N a a
    pub le_trans : (a b c : Num) → Le N a b → Le N b c → Le N a c
    pub gt_le : (a b : Num) → gt a b ≡ true → Le N b a
    pub plus_mono : (a b c d : Num) → Le N a b → Le N c d → Le N (plus a c) (plus b d)
    pub zero_plus : (a : Num) → plus (zero_num N) a ≡ a
    pub plus_zero : (a : Num) → plus a (zero_num N) ≡ a
    pub plus_assoc : (a b c : Num) → plus (plus a b) c ≡ plus a (plus b c)
    pub times_mono : (a b c : Num) → Le N (zero_num N) c → Le N a b → Le N (times a c) (times b c)
    pub times_one : (a : Num) → times a (one_num N) ≡ a

-- The whole numbers, as an instance for concrete inputs.
abbrev pub whole : Number
whole = record {
  Num = ℕ;
  ratio = λ n d. n / d;
  plus = λ a b. a + b;
  minus = λ a b. a - b;
  times = λ a b. a * b;
  divide = λ a n. a / n;
  gt = λ a b. ltb b a;
  same = eqb;
}

-- Thousandths, in which products are rounded down.
abbrev pub thousandths : Number
thousandths = record {
  Num = ℕ;
  ratio = λ n d. (n * 1000) / d;
  plus = λ a b. a + b;
  minus = λ a b. a - b;
  times = λ a b. (a * b) / 1000;
  divide = λ a n. a / n;
  gt = λ a b. ltb b a;
  same = eqb;
}

-- The whole numbers have the laws.
pub whole_laws : IsOrdered whole
whole_laws = record {
  le_refl = λ a. ground arith;
  le_trans = λ a b c h i. ground arith;
  gt_le = λ a b h. ground arith;
  plus_mono = λ a b c d h i. ground arith;
  zero_plus = λ a. omega arith;
  plus_zero = λ a. omega arith;
  plus_assoc = λ a b c. omega arith;
  times_mono = λ a b c h i. times_mono_lem a b c i;
  times_one = λ a. omega arith;
}
  where
    times_mono_lem : (a b c : ℕ) → ltb b a ≡ false → ltb (b * c) (a * c) ≡ false
    times_mono_lem a b c h = grind (arith, mul-le-mul_right)

-- ===== src/Base/Bits.antt =====
-- The lowest bit of a number, by `&`.
use Prim.Native.Nat.{ℕ, zero, suc, ◌/◌, ◌%◌, min, bit_and, digits, bit_and-bitwise}
use mathlib.Core.Path.{◌≡◌, refl}
use native.Mathlib.Omega.{arith}

-- No digit is common with 0.
digits-zero : (fuel a : ℕ) → digits (λ b. zero) min fuel a 0 ≡ 0
digits-zero zero a = refl
digits-zero (suc fuel) zero = refl
digits-zero (suc fuel) (suc a) = omega (arith, digits-zero fuel (suc a / 2))

pub bit_and_low : (a : ℕ) → bit_and a 1 ≡ a % 2
bit_and_low zero = bit_and-bitwise 0 1
bit_and_low (suc a) = omega (arith, bit_and-bitwise (suc a) 1, digits-zero a (suc a / 2))

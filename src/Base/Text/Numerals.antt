-- ===== src/Base/Text/Numerals.antt =====
-- A number is read back from its decimal digits.
use Prim.Native.Nat.{ℕ, zero, suc, ◌+◌, ◌/◌, ◌%◌, ◌≤◌, ◌<◌}
use mathlib.Core.Path.{◌≡◌, refl, ◌∙◌}
use mathlib.Core.Logic.{inl, inr}
use mathlib.Core.Option.{some}
use mathlib.Core.List.{[], ◌∷◌}
use native.Mathlib.Omega.{arith}
use cpsc_of_testbed.Base.Tests.{ltb, Bool-cases, ltb→lt}
use cpsc_of_testbed.Base.Lists.{All}
use cpsc_of_testbed.Base.Text.{Text, digits, show, scan, read_nat}

abbrev pub IsDigit : ℕ → Type 0
IsDigit c = (b'0' ≤ c) × (c ≤ b'9')

digits-IsDigit : (fuel n : ℕ) (out : Text) → All IsDigit out → All IsDigit (digits fuel n out)
unfolding digits
digits-IsDigit zero n out h = h
digits-IsDigit (suc fuel) n out h = elim (Bool-cases (ltb n 10)) [
  | inl e ↦ rw e ((omega arith, ground arith), h)
  | inr e ↦ rw e (digits-IsDigit fuel (n / 10) ((b'0' + n % 10) ∷ out) (omega arith, h))
]

pub show-IsDigit : (n : ℕ) → All IsDigit (show n)
unfolding show
show-IsDigit n = digits-IsDigit (suc n) n [] tt

digits-cons :
    (fuel n : ℕ) (d : ℕ) (out : Text) → (c : ℕ) × (s : Text) × (digits fuel n (d ∷ out) ≡ c ∷ s)
unfolding digits
digits-cons zero n d out = (d, out, refl)
digits-cons (suc fuel) n d out = elim (Bool-cases (ltb n 10)) [
  | inl e ↦ rw e (b'0' + n, d ∷ out, refl)
  | inr e ↦ rw e (digits-cons fuel (n / 10) (b'0' + n % 10) (d ∷ out))
]

-- A number has a digit at least.
pub show-cons : (n : ℕ) → (c : ℕ) × (s : Text) × (show n ≡ c ∷ s)
unfolding show digits
show-cons n = elim (Bool-cases (ltb n 10)) [
  | inl e ↦ rw e (b'0' + n, [], refl)
  | inr e ↦ rw e (digits-cons n (n / 10) (b'0' + n % 10) [])
]

scan_last : (n : ℕ) (out : Text) → scan ((b'0' + n % 10) ∷ out) (n / 10) ≡ scan out n
unfolding scan
scan_last n out = ground arith

scan_only : (n : ℕ) (out : Text) → n < 10 → scan ((b'0' + n) ∷ out) 0 ≡ scan out n
unfolding scan
scan_only n out h = ground arith

scan-digits : (fuel n : ℕ) (out : Text) → n < fuel → scan (digits fuel n out) 0 ≡ scan out n
unfolding digits
scan-digits zero n out h = absurd (omega arith)
scan-digits (suc fuel) n out h = elim (Bool-cases (ltb n 10)) [
  | inl e ↦ rw e (scan_only n out (ltb→lt n 10 e))
  | inr e ↦
      rw e (scan-digits fuel (n / 10) ((b'0' + n % 10) ∷ out) (ground arith) ∙ scan_last n out)
]

read_nat-scan : (s : Text) (c : ℕ) (t : Text) → s ≡ c ∷ t → read_nat s ≡ scan s 0
unfolding read_nat
read_nat-scan s c t h = rw h refl

-- A number is read back from its digits.
pub read_nat-show : (n : ℕ) → read_nat (show n) ≡ some n
unfolding show scan
read_nat-show n =
    let (c, t, e) = show-cons n in
    read_nat-scan (show n) c t e ∙ scan-digits (suc n) n [] (omega arith)

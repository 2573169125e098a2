-- ===== src/Base/Lists/Distinct.antt =====
-- How long a list without repetitions can be.
use Prim.Native.Nat.{ℕ, zero, suc, ◌+◌, ◌≤◌, ◌<◌}
use mathlib.Core.Path.{◌≡◌, refl, ap}
use mathlib.Core.Logic.{inl, inr}
use mathlib.Core.Bool.{true, false}
use mathlib.Core.List.{List, [], ◌∷◌}
use native.Mathlib.Omega.{arith}
use cpsc_of_testbed.Base.Tests.{eqb, nat_eq, Bool-cases}
use cpsc_of_testbed.Base.Lists.{length, contains, remove, Nodup, All, In, range_from, All-imply}

length-remove :
    (a : ℕ) (ys : List ℕ) → contains a ys ≡ true → suc (length (remove a ys)) ≡ length ys
length-remove a [] h = cc
length-remove a (y ∷ ys) h = ground (arith, length-remove a ys)

contains-remove :
    (a b : ℕ) (ys : List ℕ)
    → contains b ys ≡ true
    → eqb b a ≡ false
    → contains b (remove a ys) ≡ true
contains-remove a b [] h ne = cc
contains-remove a b (y ∷ ys) h ne = ground (arith, contains-remove a b ys)

remaining :
    (a : ℕ) (xs ys : List ℕ)
    → contains a xs ≡ false
    → All (λ x. contains x ys ≡ true) xs
    → All (λ x. contains x (remove a ys) ≡ true) xs
remaining a [] ys new h = tt
remaining a (x ∷ xs) ys new h =
    (contains-remove a x ys h.0 (ground arith), remaining a xs ys (ground arith) h.1)

-- A list without repetitions is no longer than a list that has all its elements.
pub length-Nodup :
    (xs ys : List ℕ) → Nodup xs → All (λ x. contains x ys ≡ true) xs → length xs ≤ length ys
length-Nodup [] ys n h = omega arith
length-Nodup (x ∷ xs) ys n h =
    omega
      (arith, length-remove x ys h.0, length-Nodup xs (remove x ys) n.1 (remaining x xs ys n.0 h.1))

pub contains-range_from : (x i n : ℕ) → i ≤ x → x < i + n → contains x (range_from i n) ≡ true
contains-range_from x i zero low high = absurd (omega arith)
contains-range_from x i (suc n) low high = elim (Bool-cases (eqb x i)) [
  | inl e ↦ rw e refl
  | inr e ↦ rw e (contains-range_from x (suc i) n (ground arith) (omega arith))
]

pub length-range_from : (i n : ℕ) → length (range_from i n) ≡ n
length-range_from i zero = refl
length-range_from i (suc n) = ap suc (length-range_from (suc i) n)

pub In-range_from : (x i n : ℕ) → In x (range_from i n) → x < i + n
In-range_from x i zero m = absurd m
In-range_from x i (suc n) (inl e) = omega arith
In-range_from x i (suc n) (inr m) = omega (arith, In-range_from x (suc i) n m)

-- A list of different numbers between two bounds is no longer than their difference.
pub length-between :
    (low n : ℕ) (xs : List ℕ) → Nodup xs → All (λ x. (low ≤ x) × (x < low + n)) xs → length xs ≤ n
length-between low n xs different inside = omega (
  arith,
  length-Nodup xs (range_from low n) different
      (All-imply (λ x h. contains-range_from x low n h.0 h.1) xs inside),
  length-range_from low n,
)

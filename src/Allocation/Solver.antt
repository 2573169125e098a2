-- ===== src/Allocation/Solver.antt =====
-- A solver for the tests, over the whole numbers: it offers one assignment where that is a solution.
use mathlib.Core.Path.{refl, subst}
use cpsc_of_testbed.Base.{
  ℕ, List, [], ◌∷◌, ◌≡◌, Bool, true, false, not, ◌&&◌, ◌||◌, Option, none, some, ltb, eqb, eqb_iff,
  arith, if◌then◌else◌, Bool-cases, inl, inr,
}
use cpsc_of_testbed.Base.Numbers.{whole}
use cpsc_of_testbed.Allocation.Program.{
  Variable, value, IsBelow, Call, add_var, add_semicont, must_equal, must_be_at_most,
  must_be_at_least, minimize, Holds, IsFeasible,
}

module _ (a : Variable → ℕ) where
  abbrev below_test : ℕ → Option ℕ → Bool
  below_test x none = true
  below_test x (some u) = not (ltb u x)

  abbrev bounds_test : ℕ → ℕ → Option ℕ → Bool
  bounds_test x lower upper = not (ltb x lower) && below_test x upper

  abbrev holds_test : Call whole → Bool
  holds_test (add_var v lower upper) = bounds_test (a v) lower upper
  holds_test (add_semicont v lower upper) = eqb (a v) 0 || bounds_test (a v) lower upper
  holds_test (must_equal d e) = eqb (value whole a d) (value whole a e)
  holds_test (must_be_at_most d e) = not (ltb (value whole a e) (value whole a d))
  holds_test (must_be_at_least d e) = not (ltb (value whole a d) (value whole a e))
  holds_test (minimize e) = true

  unfoldable pub feasible_test : List (Call whole) → Bool
  feasible_test [] = true
  feasible_test (c ∷ calls) = holds_test c && feasible_test calls

  IsBelow-sound : (x : ℕ) (upper : Option ℕ) → below_test x upper ≡ true → IsBelow whole a x upper
  IsBelow-sound x none h = tt
  IsBelow-sound x (some u) h = ground arith

  Holds-sound : (c : Call whole) → holds_test c ≡ true → Holds whole a c
  Holds-sound (add_var v lower upper) h = (ground arith, IsBelow-sound (a v) upper (ground arith))
  Holds-sound (add_semicont v lower upper) h = elim (Bool-cases (eqb (a v) 0)) [
    | inl e ↦ inl ((eqb_iff (a v) 0).0 e)
    | inr e ↦ inr (ground arith, IsBelow-sound (a v) upper (ground arith))
  ]
  Holds-sound (must_equal d e) h = (eqb_iff (value whole a d) (value whole a e)).0 h
  Holds-sound (must_be_at_most d e) h = ground arith
  Holds-sound (must_be_at_least d e) h = ground arith
  Holds-sound (minimize e) h = tt

  pub IsFeasible-sound :
      (calls : List (Call whole)) → feasible_test calls ≡ true → IsFeasible whole a calls
  unfolding feasible_test
  IsFeasible-sound [] h = tt
  IsFeasible-sound (c ∷ calls) h =
      (Holds-sound c (ground arith), IsFeasible-sound calls (ground arith))

  unfoldable pub offer : List (Call whole) → Option (Variable → ℕ)
  unfolding feasible_test
  offer calls = if feasible_test calls then some a else none

  offered :
      (t : Bool) (b : Variable → ℕ) → (if t then some a else none) ≡ some b → (t ≡ true) × (a ≡ b)
  offered true b h = (refl, cc)
  offered false b h = cc

  pub offer-IsFeasible :
      (calls : List (Call whole)) (b : Variable → ℕ)
      → offer calls ≡ some b
      → IsFeasible whole b calls
  unfolding offer
  offer-IsFeasible calls b h =
      let (feasible, same) = offered (feasible_test calls) b h in
      subst (λ c. IsFeasible whole c calls) same (IsFeasible-sound calls feasible)

-- ===== src/Allocation/McfTests.antt =====
-- A flow from 0 to 3 through the network with the links 0-1, 1-3, 0-2 and 2-3.
use cpsc_of_testbed.Base.{
  if◌then◌else◌, eqb, ◌&&◌, ◌||◌, ℕ, Bool, true, false, ◌≡◌, refl, List, [], ◌∷◌, Option, none,
  some, Result, ok, raise, fold_result, map_result,
}
use cpsc_of_testbed.Base.Numbers.{whole, whole_laws}
use cpsc_of_testbed.Allocation.Greedy.{sorted_link}
use cpsc_of_testbed.Allocation.Program.{Variable, carried, alpha, value}
use cpsc_of_testbed.Allocation.Mcf.{
  Digraph, Draw, Rounds, without_paths, mcf_rounds, compute_mcf_flows,
}
use cpsc_of_testbed.Allocation.Mcf.Solved.{IsKept, mcf_rounds-IsKept}
use cpsc_of_testbed.Allocation.Solver.{feasible_test, offer, offer-IsFeasible}

abbrev square : Digraph
square = (0, 1 ∷ 2 ∷ []) ∷ (1, 0 ∷ 3 ∷ []) ∷ (2, 0 ∷ 3 ∷ []) ∷ (3, 1 ∷ 2 ∷ []) ∷ []

-- The first flow goes over the node 1.
abbrev over_one : Variable → ℕ
over_one (carried i u v) =
    if eqb i 0 && ((eqb u 0 && eqb v 1) || (eqb u 1 && eqb v 3)) then 1 else 0
over_one alpha = 1
over_one v = 0

program : Unit {0}
unfolding mcf_rounds compute_mcf_flows sorted_link feasible_test offer fold_result map_result value
program = tt

-- A second flow from 0 to 3 is more than the solver can place.
abbrev draws : List (Draw whole)
draws = ((0, 3), 1) ∷ ((0, 3), 1) ∷ []

abbrev rounds_of : Result (Rounds whole) → Rounds whole
rounds_of (ok r) = r
rounds_of (raise e) = record { flows = []; feasible = none; stopped = false }

abbrev has_model {ℓ} : {A : Type ℓ} → Option A → Bool
has_model none = false
has_model (some m) = true

abbrev two_rounds : Rounds whole
two_rounds = rounds_of (mcf_rounds whole (offer over_one) square [] none draws)

one_admitted : two_rounds.flows ≡ without_paths whole 0 3 1 ∷ []
unfolding program
one_admitted = refl

one_solution : (two_rounds.stopped ≡ true) × (has_model two_rounds.feasible ≡ true)
unfolding program
one_solution = (refl, refl)

-- The flow gets its one route, and each link that it passes is full.
one_route :
    compute_mcf_flows whole (offer over_one) square draws
    ≡ ok (
      some (
          record (without_paths whole 0 3 1) {
            paths = some ((0 ∷ 1 ∷ 3 ∷ []) ∷ []);
            splitting_ratio = some (1 ∷ []);
          }
          ∷ []),
      (((0, 1), 1) ∷ ((0, 2), 0) ∷ ((1, 3), 1) ∷ ((2, 3), 0) ∷ [], true),
    )
unfolding program
one_route = refl

mcf_rounds-IsKept_example : IsKept whole whole_laws square two_rounds.flows two_rounds.feasible
unfolding program
mcf_rounds-IsKept_example =
    mcf_rounds-IsKept whole whole_laws (offer over_one) (offer-IsFeasible over_one) square draws
      two_rounds refl

-- ===== src/Allocation/SplitTests.antt =====
-- The linear programs and the routes on a small network, in whole numbers.
use cpsc_of_testbed.Base.{
  ℕ, ◌≡◌, refl, List, [], ◌∷◌, ok, raise, Result, Bool, true, false, some, none, Option, All, eqb,
  ltb, map, fold_result, type_error,
}
use cpsc_of_testbed.Base.Numbers.{whole, whole_laws}
use cpsc_of_testbed.Allocation.Flow.{Flow}
use cpsc_of_testbed.Allocation.Greedy.{Link, Request, sorted_link}
use cpsc_of_testbed.Allocation.Program.{Variable, split, total, capped, alpha, Call, value}
use cpsc_of_testbed.Allocation.Splits.{
  create_k_paths_model, create_path_hopping_ilp_model, with_new_flow,
}
use cpsc_of_testbed.Allocation.Splits.Ratios.{
  IsSplitting, IsRatio, IsShare, k_paths-IsSplitting, path_hopping-IsSplitting,
}
use cpsc_of_testbed.Allocation.Solver.{feasible_test, IsFeasible-sound, offer, offer-IsFeasible}
use cpsc_of_testbed.Allocation.Ilp.{
  Rounds, solve_rounds, k_paths_of, testing_k_paths_flow_allocation, compute_ilp_flows,
}
use cpsc_of_testbed.Allocation.Ilp.Checked.{IsSolved, k_paths_rounds-IsSolved}
use cpsc_of_testbed.Allocation.Routes.{
  Carried, Route, traverse_graph_iterative, compute_mcf_flow_routes,
}
use cpsc_of_testbed.Allocation.Routes.Ends.{IsRoute, routes-IsRoute}
use cpsc_of_testbed.Allocation.Routes.Rounds.{traverse_graph_iterative-total}
use cpsc_of_testbed.Allocation.Routes.Found.{
  flow_indices, AllRouted, compute_mcf_flow_routes-AllRouted,
}
use cpsc_of_testbed.Allocation.Shortest.{compute_equal_flow_allocations}
use cpsc_of_testbed.Allocation.Shortest.Chosen.{OneFlowEach, equal-OneFlowEach}

abbrev square : List Link
square = (0, 1) ∷ (1, 3) ∷ (0, 2) ∷ (2, 3) ∷ []

abbrev both : List (List ℕ)
both = (0 ∷ 1 ∷ 3 ∷ []) ∷ (0 ∷ 2 ∷ 3 ∷ []) ∷ []

program : Unit {0}
unfolding create_k_paths_model create_path_hopping_ilp_model sorted_link feasible_test solve_rounds
    traverse_graph_iterative compute_mcf_flow_routes offer compute_ilp_flows fold_result value
program = tt

abbrev one_if : Bool → ℕ
one_if true = 1
one_if false = 0

-- The flow takes its first path.
abbrev upper_path : Variable → ℕ
upper_path (split i j) = one_if (eqb j 0)
upper_path (total i l) = one_if (ltb l 2)
upper_path (capped l) = one_if (ltb l 2)
upper_path alpha = 1
upper_path v = 0

abbrev calls_of : Result (List (Call whole)) → List (Call whole)
calls_of (ok calls) = calls
calls_of (raise e) = []

abbrev k_paths_calls : List (Call whole)
k_paths_calls = calls_of (create_k_paths_model whole square [] 0 3 1 both)

solution_found : feasible_test upper_path k_paths_calls ≡ true
unfolding program
solution_found = refl

k_paths-IsSplitting_example :
    IsSplitting whole whole_laws upper_path
      (IsRatio whole)
      square
      (with_new_flow whole [] 0 3 1 both)
unfolding program
k_paths-IsSplitting_example =
    k_paths-IsSplitting whole whole_laws upper_path square [] 0 3 1 both k_paths_calls refl
      (IsFeasible-sound upper_path k_paths_calls refl)

abbrev hopping_calls : List (Call whole)
hopping_calls = calls_of (create_path_hopping_ilp_model whole square [] 0 3 1 both 1)

path_hopping-IsSplitting_example :
    IsSplitting whole whole_laws upper_path
      (IsShare whole 1)
      square
      (with_new_flow whole [] 0 3 1 both)
unfolding program
path_hopping-IsSplitting_example =
    path_hopping-IsSplitting whole whole_laws upper_path square [] 0 3 1 both 1 hopping_calls refl
      (IsFeasible-sound upper_path hopping_calls refl)

abbrev request : Request whole
request = record {
  source_node = 0;
  destination_node = 3;
  flow_tx_rate = 1;
  connecting_paths = both;
}

abbrev rounds_of : Result (Rounds whole) → Rounds whole
rounds_of (ok rounds) = rounds
rounds_of (raise e) = record { flows = []; feasible_model = none; stopped = false }

-- The second flow does not fit in the solution that the solver offers.
abbrev two_rounds : Rounds whole
two_rounds = rounds_of (
    solve_rounds whole (offer upper_path) (k_paths_of whole (offer upper_path) square) [] none
      (request ∷ request ∷ []))

two_rounds_stop : two_rounds.stopped ≡ true
unfolding program
two_rounds_stop = refl

k_paths_rounds-IsSolved_example :
    IsSolved whole whole_laws (IsRatio whole) square two_rounds.flows two_rounds.feasible_model
unfolding program
k_paths_rounds-IsSolved_example =
    k_paths_rounds-IsSolved whole whole_laws (offer upper_path) (offer-IsFeasible upper_path) square
      (request ∷ request ∷ []) two_rounds refl

-- The model cannot be built: the lower bound of alpha is given twice.
test_model_raises :
    testing_k_paths_flow_allocation whole (offer upper_path) square (request ∷ [])
    ≡ raise type_error
unfolding program testing_k_paths_flow_allocation
test_model_raises = refl

-- One flow on both paths from 0 to 3, and a loop 1-2-1 that the traversal does not follow.
abbrev F : Carried whole
F =
    ((0, (0, 1)), 2)
    ∷ ((0, (1, 3)), 1)
    ∷ ((0, (0, 2)), 1)
    ∷ ((0, (2, 3)), 1)
    ∷ ((0, (1, 2)), 1)
    ∷ ((0, (2, 1)), 1)
    ∷ []

abbrev found : Result (Option (List (Route whole))) → List (Route whole)
found (ok (some routes)) = routes
found (ok none) = []
found (raise e) = []

abbrev routes : List (Route whole)
routes = found (traverse_graph_iterative whole F 0 0 3)

four_routes :
    map (λ (r : Route whole). r.path) routes
    ≡ (0 ∷ 1 ∷ 3 ∷ []) ∷ (0 ∷ 2 ∷ 3 ∷ []) ∷ (0 ∷ 1 ∷ 2 ∷ 3 ∷ []) ∷ (0 ∷ 2 ∷ 1 ∷ 3 ∷ []) ∷ []
unfolding program
four_routes = refl

routes-IsRoute_example : All (IsRoute whole F 0 0 3) routes
unfolding program
routes-IsRoute_example = routes-IsRoute whole F 0 0 3 whole_laws routes refl

traverse_graph_iterative-total_example :
    (routes : List (Route whole)) × (traverse_graph_iterative whole F 0 0 3 ≡ ok (some routes))
traverse_graph_iterative-total_example = traverse_graph_iterative-total whole F 0 0 3

abbrev flow : Flow whole
flow = record {
  source_node = 0;
  destination_node = 3;
  flow_tx_rate = 1;
  paths = none;
  splitting_ratio = none;
}

abbrev flows_of : Result (Option (List (Flow whole))) → Option (List (Flow whole))
flows_of (ok out) = out
flows_of (raise e) = none

compute_mcf_flow_routes-AllRouted_example :
    (fs : List (Flow whole)) × (flows_of (compute_mcf_flow_routes whole (flow ∷ []) F) ≡ some fs)
    × AllRouted whole whole_laws (flow ∷ []) F (flow_indices whole whole_laws (flow ∷ []) F) fs
unfolding program
compute_mcf_flow_routes-AllRouted_example =
    compute_mcf_flow_routes-AllRouted whole whole_laws (flow ∷ []) F
      (flows_of (compute_mcf_flow_routes whole (flow ∷ []) F)) refl

-- Of four paths from 0 to 3, one of them too long, the two shortest.
equal-OneFlowEach_example :
    (flows : List (Flow whole)) × (compute_equal_flow_allocations whole
        ((0, (3, (0 ∷ 1 ∷ 4 ∷ 2 ∷ 3 ∷ []) ∷ (0 ∷ 1 ∷ 2 ∷ 3 ∷ []) ∷ both)) ∷ [])
        2
      ≡ ok flows)
    × OneFlowEach whole 2
        ((0, (3, (0 ∷ 1 ∷ 4 ∷ 2 ∷ 3 ∷ []) ∷ (0 ∷ 1 ∷ 2 ∷ 3 ∷ []) ∷ both)) ∷ [])
        flows
equal-OneFlowEach_example =
    equal-OneFlowEach whole 1
      ((0, (3, (0 ∷ 1 ∷ 4 ∷ 2 ∷ 3 ∷ []) ∷ (0 ∷ 1 ∷ 2 ∷ 3 ∷ []) ∷ both)) ∷ [])

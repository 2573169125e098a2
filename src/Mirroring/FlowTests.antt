-- ===== src/Mirroring/FlowTests.antt =====
-- A trial of flow mirroring with two flows, whose optimal solution mirrors both at the switch 2.
use cpsc_of_testbed.Base.{ℕ, ◌≡◌, ◌≢◌, refl, List, [], ◌∷◌, true, ok, fold_result, nat_eq}
use cpsc_of_testbed.Base.Dict.{Dict}
use cpsc_of_testbed.Base.Numbers.{whole}
use cpsc_of_testbed.Base.Text.{Text, codes, text_eq}
use cpsc_of_testbed.Base.Text.Floats.{whole_format}
use cpsc_of_testbed.Base.Text.Words.{whole-IsPrinted}
use cpsc_of_testbed.Mirroring.Definitions.{
  FlowDefinition, SwitchDefinition, SolutionDefinition, deserialize_flows, deserialize_switches,
  deserialize_solutions,
}
use cpsc_of_testbed.Mirroring.FlowTrial.{
  FlowMirroringTrial, make, optimal, approx, set_solution_type, verify_trial, build_results_files,
}
use cpsc_of_testbed.Mirroring.FlowTrial.Kept.{
  read_file, set_solution_type_keeps_optimal, build_results_files-read_back,
}

program : Unit {0}
unfolding fold_result set_solution_type verify_trial
program = tt

cons-ne-nil : {A : Type 0} {x : A} {xs : List A} → (x ∷ xs) ≢ []
cons-ne-nil e = cc

abbrev flows : Dict ℕ (FlowDefinition whole)
flows =
    (0, record { flow_id = 0; traffic_rate = 100; path = 1 ∷ 2 ∷ [] })
    ∷ (1, record { flow_id = 1; traffic_rate = 50; path = 2 ∷ 3 ∷ [] })
    ∷ []

abbrev switches : Dict ℕ SwitchDefinition
switches =
    (1, record { switch_id = 1; resident_flows = 0 ∷ [] })
    ∷ (2, record { switch_id = 2; resident_flows = 0 ∷ 1 ∷ [] })
    ∷ (3, record { switch_id = 3; resident_flows = 1 ∷ [] })
    ∷ []

abbrev solution : ℕ → ℕ → ℕ → ℕ × SolutionDefinition whole
solution flow switch objective =
    (flow, record { flow_id = flow; mirror_switch_id = switch; objective_value = objective })

abbrev approx_solutions : Dict ℕ (SolutionDefinition whole)
approx_solutions = solution 0 1 200 ∷ solution 1 3 200 ∷ []

abbrev optimal_solutions : Dict ℕ (SolutionDefinition whole)
optimal_solutions = solution 0 2 150 ∷ solution 1 2 150 ∷ []

abbrev trial : FlowMirroringTrial whole
trial =
    make (codes "3\n2\n1 2\n2 3") flows switches approx_solutions optimal_solutions 60 (codes "t")

each_flow_is_mirrored : verify_trial trial ≡ true
unfolding program
each_flow_is_mirrored = refl

-- After `approx` was chosen, the optimal solutions are the current ones still.
set_solution_type_keeps_optimal_example :
    (optimal_solutions ≡ optimal_solutions) × (approx ≡ approx)
unfolding program
set_solution_type_keeps_optimal_example =
    set_solution_type_keeps_optimal trial (optimal ∷ codes "Approx" ∷ [])
      (record trial { solutions = optimal_solutions; solution_type = approx }) refl

build_results_files-read_back_example :
    (files : Dict Text Text) × (build_results_files whole_format trial (codes "{}") ≡ ok files)
    × (read_file files (codes "topo") ok ≡ ok trial.topology)
    × (read_file files (codes "flows") (deserialize_flows whole_format) ≡ ok flows)
    × (read_file files (codes "switches") deserialize_switches ≡ ok switches)
    × (read_file files (codes "solutions") (deserialize_solutions whole_format)
        ≡ ok approx_solutions)
build_results_files-read_back_example =
    build_results_files-read_back whole_format trial 200 (codes "{}")
      (
        ((cons-ne-nil, whole-IsPrinted 100, refl), ((cons-ne-nil, whole-IsPrinted 50, refl), tt)),
        (refl, (refl, tt)),
      )
      ((refl, (refl, (refl, tt))), (refl, (refl, (refl, tt)))) (whole-IsPrinted 200, cons-ne-nil)
      (((refl, refl), ((refl, refl), tt)), (refl, (refl, tt)))

-- ===== src/Mirroring/FlowTrial.antt =====
-- `FlowMirroringTrial` of rest_client/trials/flow_mirroring_trial.py.
pub mod Kept
use cpsc_of_testbed.Base.{
  ℕ, List, [], ◌∷◌, Bool, true, false, not, ◌||◌, Option, none, some, Result, ok, raise,
  value_error, ◌>>=◌, nat_eq, if◌then◌else◌, ◌==◌,
}
use cpsc_of_testbed.Base.Dict.{Dict, has_key}
use cpsc_of_testbed.Base.Numbers.{Number}
use cpsc_of_testbed.Base.Text.{Text, codes, lower, text_eq}
use cpsc_of_testbed.Base.Text.Floats.{FloatFormat}
use cpsc_of_testbed.Mirroring.Definitions.{
  FlowDefinition, SwitchDefinition, SolutionDefinition, serialize_flows, serialize_switches,
  serialize_solutions, deserialize_flows, deserialize_switches, deserialize_solutions,
}

module _ (N : Number) where
  pub record FlowMirroringTrial : Type 0 where
    pub topology : Text
    pub flows : Dict ℕ (FlowDefinition N)
    pub switches : Dict ℕ SwitchDefinition
    pub approx_solutions : Dict ℕ (SolutionDefinition N)
    pub optimal_solutions : Dict ℕ (SolutionDefinition N)
    pub duration : ℕ
    pub name : Text
    pub solutions : Dict ℕ (SolutionDefinition N)
    pub solution_type : Text

abbrev pub approx : Text
approx = codes "approx"

abbrev pub optimal : Text
optimal = codes "optimal"

module _ {N : Number} where
  abbrev pub make :
      Text
      → Dict ℕ (FlowDefinition N)
      → Dict ℕ SwitchDefinition
      → Dict ℕ (SolutionDefinition N)
      → Dict ℕ (SolutionDefinition N)
      → ℕ
      → Text
      → FlowMirroringTrial N
  make topology flows switches approx_solutions optimal_solutions duration name = record {
    topology = topology;
    flows = flows;
    switches = switches;
    approx_solutions = approx_solutions;
    optimal_solutions = optimal_solutions;
    duration = duration;
    name = name;
    solutions = approx_solutions;
    solution_type = approx;
  }

  -- `self_solutions = self._approx_solutions` sets a local name and not the solutions.
  unfoldable pub set_solution_type : FlowMirroringTrial N → Text → Result (FlowMirroringTrial N)
  set_solution_type t type_name =
      let lower_type_name = lower type_name in
      if lower_type_name == optimal
      then ok (record t { solutions = t.optimal_solutions; solution_type = lower_type_name })
      else if lower_type_name == approx
      then ok (record t { solution_type = lower_type_name })
      else raise value_error

  abbrev pub get_solution_types : FlowMirroringTrial N → List Text
  get_solution_types t = approx ∷ optimal ∷ []

  unfoldable pub verify_flows :
      Dict ℕ (FlowDefinition N)
      → Dict ℕ (SolutionDefinition N)
      → Dict ℕ (SolutionDefinition N)
      → Bool
  verify_flows [] approx_solutions optimal_solutions = true
  verify_flows ((flow_id, flow) ∷ flows) approx_solutions optimal_solutions =
      if not (has_key flow_id approx_solutions)
      then false
      else if not (has_key flow_id optimal_solutions)
      then false
      else verify_flows flows approx_solutions optimal_solutions

  unfoldable pub verify_trial : FlowMirroringTrial N → Bool
  unfolding verify_flows
  verify_trial t = verify_flows t.flows t.approx_solutions t.optimal_solutions

module _ {N : Number} (F : FloatFormat N) where
  -- The files that the solvers have written.
  pub record SolverFiles : Type 0 where
    pub flows_file : Text
    pub switches_file : Text
    pub approx_solutions_file : Text
    pub optimal_solutions_file : Text

  -- The trial of the files, after the solvers have run.
  unfoldable pub create_trial : SolverFiles → Text → ℕ → Text → Result (FlowMirroringTrial N)
  create_trial files topology duration name = do
    flows ← deserialize_flows F files.flows_file
    switches ← deserialize_switches files.switches_file
    approx_solutions ← deserialize_solutions F files.approx_solutions_file
    optimal_solutions ← deserialize_solutions F files.optimal_solutions_file
    ok (make topology flows switches approx_solutions optimal_solutions duration name)

  -- The text of the utilization results is made by `json.dumps`.
  unfoldable pub build_results_files : FlowMirroringTrial N → Text → Result (Dict Text Text)
  build_results_files t utilization_text = do
    flow_text ← serialize_flows F t.flows
    solution_text ← serialize_solutions F t.solutions
    ok (
        (codes "utilization-results.txt", utilization_text)
        ∷ (codes "topo", t.topology)
        ∷ (codes "flows", flow_text)
        ∷ (codes "switches", serialize_switches t.switches)
        ∷ (codes "solutions", solution_text)
        ∷ [])

-- ===== src/Mirroring/Trial/Files.antt =====
-- The files of a trial: `create_trial`, `from_repository_files` and `build_results_files` of
-- `PortMirroringTrial`.
use cpsc_of_testbed.Base.{
  ℕ, List, [], ◌∷◌, map, Option, none, some, Result, ok, value_error, key_error, attribute_error,
  or_raise, ◌>>=◌, raise_if, not, ◌>>◌, nat_eq, if◌then◌else◌, ◌==◌,
}
use cpsc_of_testbed.Base.Dict.{Dict, lookup}
use cpsc_of_testbed.Base.Numbers.{Number}
use cpsc_of_testbed.Base.Text.{Text, codes, text_eq}
use cpsc_of_testbed.Base.Text.Floats.{FloatFormat}
use cpsc_of_testbed.Mirroring.Flow
use cpsc_of_testbed.Mirroring.Flow.{PortMirroringFlow}
use cpsc_of_testbed.Mirroring.Switch
use cpsc_of_testbed.Mirroring.Switch.{PortMirroringSwitch, SwitchPort, get_port}
use cpsc_of_testbed.Mirroring.Solution
use cpsc_of_testbed.Mirroring.Solution.{PortMirroringSolution, RndPortMirroringSolution}
use cpsc_of_testbed.Mirroring.Trial.{
  PortMirroringTrial, PortsFormat, Solutions, serialize_ports, deserialize_ports, make, det, df,
  greedy, optimal, rnd, is_solution_type, without_coverage,
}

module _ {N : Number} where
  -- The solutions of the files under the type that is named, and no others.
  abbrev pub if_type : Text → Text → Solutions N ℕ ℕ → Option (Solutions N ℕ ℕ)
  if_type solution_type other solutions = if solution_type == other then some solutions else none

  -- `trial.solution_types = [solution_type]`
  abbrev pub of_type : Text → PortMirroringTrial N ℕ ℕ → PortMirroringTrial N ℕ ℕ
  of_type solution_type t = record t { solution_types = solution_type ∷ [] }

module _ {N : Number} (F : FloatFormat N) (P : PortsFormat) where
  -- The files that the solvers have written.
  pub record SolverFiles : Type 0 where
    pub flows_file : Text
    pub switches_file : Text
    pub ports_file : Text
    pub det_solutions_file : Text
    pub df_solutions_file : Text
    pub greedy_solutions_file : Text
    pub optimal_solutions_file : Text
    pub rnd_solutions_file : Text

  -- The trial of the files, after the solvers have run.
  unfoldable pub create_trial : SolverFiles → Text → ℕ → Text → Result (PortMirroringTrial N ℕ ℕ)
  create_trial files topology duration name = do
    flows ← Flow.deserialize F files.flows_file
    switches ← Switch.deserialize F files.switches_file
    mirroring_ports ← deserialize_ports P files.ports_file
    det_solutions ← Solution.deserialize F files.det_solutions_file
    df_solutions ← Solution.deserialize F files.df_solutions_file
    greedy_solutions ← Solution.deserialize F files.greedy_solutions_file
    optimal_solutions ← Solution.deserialize F files.optimal_solutions_file
    rnd_solutions ← Solution.deserialize_rnd F files.rnd_solutions_file
    ok (
        make topology flows switches (some det_solutions) (some df_solutions)
          (some greedy_solutions) (some optimal_solutions)
          (some (
            map (λ (e : ℕ × List (RndPortMirroringSolution N)). (e.0, map without_coverage e.1))
              rnd_solutions))
          duration name mirroring_ports)

  unfoldable pub from_repository_files :
      Dict Text Text → Text → ℕ → Text → Result (PortMirroringTrial N ℕ ℕ)
  unfolding is_solution_type
  from_repository_files results solution_type duration name = do
    flows_text ← or_raise (lookup (codes "flows") results) key_error
    flows ← Flow.deserialize F flows_text
    solutions_text ← or_raise (lookup (codes "solutions") results) key_error
    solutions ← Solution.deserialize F solutions_text
    switches_text ← or_raise (lookup (codes "switches") results) key_error
    switches ← Switch.deserialize F switches_text
    ports_text ← or_raise (lookup (codes "ports") results) key_error
    mirroring_ports ← deserialize_ports P ports_text
    topology ← or_raise (lookup (codes "topo") results) key_error
    raise_if (not (is_solution_type solution_type)) value_error
    ok (
        of_type solution_type (
          make topology flows switches (if_type solution_type det solutions)
            (if_type solution_type df solutions) (if_type solution_type greedy solutions)
            (if_type solution_type optimal solutions) (if_type solution_type rnd solutions) duration
            name mirroring_ports))

  -- The text of the utilization results is made by `json.dumps`.
  unfoldable pub build_results_files : PortMirroringTrial N ℕ ℕ → Text → Result (Dict Text Text)
  build_results_files t utilization_text = do
    solutions ← or_raise t.solutions attribute_error
    solution_text ← Solution.serialize F solutions
    ok (
        (codes "utilization-results.txt", utilization_text)
        ∷ (codes "topo", t.topology)
        ∷ (codes "flows", Flow.serialize F t.flows)
        ∷ (codes "switches", Switch.serialize F t.switches)
        ∷ (codes "solutions", solution_text)
        ∷ (codes "ports", serialize_ports P t.mirroring_ports)
        ∷ [])

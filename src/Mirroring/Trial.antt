-- ===== src/Mirroring/Trial.antt =====
-- `PortMirroringTrial` of rest_client/trials/port_mirroring_trial.py: the flows and switches of a
-- network with the solutions of five solvers, one of which is the current one. Only `__str__` shows
-- the coverage of a random solution, so a trial keeps all solutions in the form of the others.
pub mod Files
pub mod Kept
pub mod Saved
use cpsc_of_testbed.Base.{
  ℕ, suc, List, [], ◌∷◌, ◌++◌, map, Bool, true, false, ◌≡◌, Option, none, some, Result, ok, raise,
  value_error, key_error, attribute_error, name_error, or_raise, ◌>>=◌, fold_result, raise_if, not,
  ◌>>◌, ◌||◌, nat_eq, eqb, length, add_all, if◌then◌else◌, ◌==◌,
}
use cpsc_of_testbed.Base.Dict.{Dict, lookup}
use cpsc_of_testbed.Base.Numbers.{Number}
use cpsc_of_testbed.Base.Text.{Text, codes, lower, text_eq}
use cpsc_of_testbed.Base.Text.Floats.{FloatFormat}
use cpsc_of_testbed.Mirroring.Flow
use cpsc_of_testbed.Mirroring.Flow.{PortMirroringFlow}
use cpsc_of_testbed.Mirroring.Switch
use cpsc_of_testbed.Mirroring.Switch.{PortMirroringSwitch, SwitchPort, get_port}
use cpsc_of_testbed.Mirroring.Solution
use cpsc_of_testbed.Mirroring.Solution.{PortMirroringSolution, RndPortMirroringSolution}

-- `PortMirroringPorts`: for each switch, the ports by the switches that they lead to.
pub record PortMirroringPorts : Type 0 where
  pub port_map : Dict ℕ (Dict ℕ ℕ)

unfoldable pub get_port_connecting : PortMirroringPorts → ℕ → ℕ → Result ℕ
get_port_connecting p source destination = do
  by_destination ← or_raise (lookup source p.port_map) key_error
  or_raise (lookup destination by_destination) key_error

-- How the ports are written and read: `pprint.pformat` and `eval`.
pub record PortsFormat : Type 0 where
  pub show_ports : Dict ℕ (Dict ℕ ℕ) → Text
  pub read_ports : Text → Result (Dict ℕ (Dict ℕ ℕ))

unfoldable pub serialize_ports : PortsFormat → PortMirroringPorts → Text
serialize_ports P p = P.show_ports p.port_map

unfoldable pub deserialize_ports : PortsFormat → Text → Result PortMirroringPorts
deserialize_ports P text = do m ← P.read_ports text; ok (record { port_map = m })

module _ (N : Number) (Node Port : Type 0) where
  abbrev pub Solutions : Type 0
  Solutions = Dict ℕ (List (PortMirroringSolution N Node Port))

  pub record PortMirroringTrial : Type 0 where
    pub topology : Text
    pub flows : Dict ℕ (PortMirroringFlow N Node Port)
    pub switches : Dict ℕ (PortMirroringSwitch N)
    pub det_solutions : Option Solutions
    pub df_solutions : Option Solutions
    pub greedy_solutions : Option Solutions
    pub optimal_solutions : Option Solutions
    pub rnd_solutions : Option Solutions
    pub duration : ℕ
    pub name : Text
    pub solutions : Option Solutions
    pub solution_type : Text
    pub mirroring_ports : PortMirroringPorts
    pub solution_types : List Text

-- The names of the solvers.
abbrev pub det : Text
det = codes "det"

abbrev pub df : Text
df = codes "df"

abbrev pub greedy : Text
greedy = codes "greedy"

abbrev pub optimal : Text
optimal = codes "optimal"

abbrev pub rnd : Text
rnd = codes "rnd"

module _ {N : Number} {Node Port : Type 0} where
  abbrev pub make :
      Text
      → Dict ℕ (PortMirroringFlow N Node Port)
      → Dict ℕ (PortMirroringSwitch N)
      → Option (Solutions N Node Port)
      → Option (Solutions N Node Port)
      → Option (Solutions N Node Port)
      → Option (Solutions N Node Port)
      → Option (Solutions N Node Port)
      → ℕ
      → Text
      → PortMirroringPorts
      → PortMirroringTrial N Node Port
  make topology flows switches det_solutions df_solutions greedy_solutions optimal_solutions
        rnd_solutions duration name mirroring_ports =
      record {
        topology = topology;
        flows = flows;
        switches = switches;
        det_solutions = det_solutions;
        df_solutions = df_solutions;
        greedy_solutions = greedy_solutions;
        optimal_solutions = optimal_solutions;
        rnd_solutions = rnd_solutions;
        duration = duration;
        name = name;
        solutions = optimal_solutions;
        solution_type = optimal;
        mirroring_ports = mirroring_ports;
        solution_types = det ∷ df ∷ greedy ∷ optimal ∷ rnd ∷ [];
      }

  -- `none` where the method returns None.
  unfoldable pub get_solution_of_type :
      PortMirroringTrial N Node Port → Text → Option (Solutions N Node Port)
  get_solution_of_type t solution_type =
      if solution_type == df
      then t.df_solutions
      else if solution_type == optimal
      then t.optimal_solutions
      else if solution_type == det
      then t.det_solutions
      else if solution_type == greedy
      then t.greedy_solutions
      else if solution_type == rnd
      then t.rnd_solutions
      else none

  unfoldable pub set_current :
      PortMirroringTrial N Node Port
      → Option (Solutions N Node Port)
      → Text
      → PortMirroringTrial N Node Port
  set_current t solutions solution_type = record t {
    solutions = solutions;
    solution_type = solution_type;
  }

  unfoldable pub set_solution_type :
      PortMirroringTrial N Node Port → Text → Result (PortMirroringTrial N Node Port)
  unfolding set_current
  set_solution_type t type_name =
      let lower_type_name = lower type_name in
      if lower_type_name == det
      then ok (set_current t t.det_solutions lower_type_name)
      else if lower_type_name == df
      then ok (set_current t t.df_solutions lower_type_name)
      else if lower_type_name == greedy
      then ok (set_current t t.greedy_solutions lower_type_name)
      else if lower_type_name == optimal
      then ok (set_current t t.optimal_solutions lower_type_name)
      else if lower_type_name == rnd
      then ok (set_current t t.rnd_solutions lower_type_name)
      else raise value_error

module _ {N : Number} where
  -- The flows of the ports that are mirrored, as a set.
  unfoldable pub mirror_solution :
      Dict ℕ (PortMirroringSwitch N) → List ℕ → PortMirroringSolution N ℕ ℕ → Result (List ℕ)
  mirror_solution switches mirrored s = do
    switch ← or_raise (lookup s.mirror_switch_id switches) key_error
    port ← get_port switch s.mirror_switch_port
    ok (add_all mirrored port.flow_list)

  unfoldable pub mirrored_by : Dict ℕ (PortMirroringSwitch N) → Solutions N ℕ ℕ → Result (List ℕ)
  unfolding mirror_solution
  mirrored_by switches solutions =
      fold_result
        (λ (mirrored : List ℕ) (e : ℕ × List (PortMirroringSolution N ℕ ℕ)).
          fold_result (mirror_solution switches) mirrored e.1)
        [] solutions

  -- The flows of one type of solution; `None` has no `items`.
  unfoldable pub mirrored_for : PortMirroringTrial N ℕ ℕ → Text → Result (List ℕ)
  unfolding mirrored_by
  mirrored_for t solution_type = do
    solutions ← or_raise (get_solution_of_type t solution_type) attribute_error
    mirrored_by t.switches solutions

  -- The set is a new one for each type; without a type the name has no value.
  unfoldable pub mirrored_last :
      PortMirroringTrial N ℕ ℕ → Option (List ℕ) → List Text → Result (Option (List ℕ))
  unfolding mirrored_for
  mirrored_last t mirrored types =
      fold_result
        (λ (before : Option (List ℕ)) solution_type.
          mirrored_for t solution_type >>= λ m. ok (some m))
        mirrored types

  unfoldable pub verify_trial_state : PortMirroringTrial N ℕ ℕ → Result Bool
  unfolding mirrored_last
  verify_trial_state t = do
    last ← mirrored_last t none t.solution_types
    mirrored_flows ← or_raise last name_error
    ok (eqb (length mirrored_flows) (length t.flows))

  abbrev pub without_coverage : RndPortMirroringSolution N → PortMirroringSolution N ℕ ℕ
  without_coverage s = record {
    mirror_switch_id = s.mirror_switch_id;
    mirror_switch_port = s.mirror_switch_port;
    objective_value = s.objective_value;
  }

-- The five names.
unfoldable pub is_solution_type : Text → Bool
is_solution_type solution_type =
    solution_type == det
    || (solution_type == df
        || (solution_type == greedy || (solution_type == optimal || solution_type == rnd)))

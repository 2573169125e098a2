-- ===== src/Mirroring/Definitions.antt =====
-- `FlowDefinition`, `SwitchDefinition` and `SolutionDefinition` of
-- rest_client/trials/flow_mirroring_trial.py: which flows pass which switches, and at which switch
-- each flow is mirrored.
pub mod Saved
use cpsc_of_testbed.Base.{
  ℕ, List, [], ◌∷◌, ◌++◌, map, Option, none, some, Result, ok, raise, value_error, index_error,
  type_error, last_of, init, or_raise, ◌>>=◌, fold_result, map_result, nat_eq,
}
use cpsc_of_testbed.Base.Dict.{Dict, insert}
use cpsc_of_testbed.Base.Numbers.{Number}
use cpsc_of_testbed.Base.Text.{Text, show, split, split_lines, unlines, int}
use cpsc_of_testbed.Base.Text.Floats.{FloatFormat, float}
use cpsc_of_testbed.Base.Text.Words.{undelimited}

-- The last element is read, so that an empty list raises IndexError.
unfoldable pub to_undelimited_list : List ℕ → Result Text
to_undelimited_list [] = raise index_error
to_undelimited_list (x ∷ xs) = ok (undelimited (x ∷ xs))

module _ (N : Number) where
  open N use {Num}

  pub record FlowDefinition : Type 0 where
    pub flow_id : ℕ
    pub traffic_rate : Num
    pub path : List ℕ

  pub record SolutionDefinition : Type 0 where
    pub flow_id : ℕ
    pub mirror_switch_id : ℕ
    pub objective_value : Num

pub record SwitchDefinition : Type 0 where
  pub switch_id : ℕ
  pub resident_flows : List ℕ

unfoldable pub switch_line : SwitchDefinition → Text
switch_line s = elim s.resident_flows [
  | [] ↦ show s.switch_id
  | flow ∷ flows ↦ show s.switch_id ++ b' ' ∷ undelimited (flow ∷ flows)
]

unfoldable pub serialize_switches : Dict ℕ SwitchDefinition → Text
unfolding switch_line
serialize_switches switches = unlines (map (λ (e : ℕ × SwitchDefinition). switch_line e.1) switches)

unfoldable pub parse_switch_tokens : List Text → Result SwitchDefinition
parse_switch_tokens [] = raise value_error
parse_switch_tokens (a ∷ flows) = do
  switch_id ← int a
  resident_flows ← map_result int flows
  ok (record { switch_id = switch_id; resident_flows = resident_flows })

unfoldable pub parse_switch : Text → Result SwitchDefinition
unfolding parse_switch_tokens
parse_switch line = parse_switch_tokens (split b' ' line)

unfoldable pub add_switch_line : Dict ℕ SwitchDefinition → Text → Result (Dict ℕ SwitchDefinition)
unfolding parse_switch
add_switch_line switches line = do s ← parse_switch line; ok (insert s.switch_id s switches)

unfoldable pub deserialize_switches : Text → Result (Dict ℕ SwitchDefinition)
unfolding add_switch_line
deserialize_switches text = fold_result add_switch_line [] (split_lines text)

module _ {N : Number} where
  open N use {Num}

  unfoldable pub solution_line : SolutionDefinition N → Text
  solution_line s = show s.flow_id ++ b' ' ∷ show s.mirror_switch_id

  -- The objective value of the last solution.
  unfoldable pub last_objective : Option Num → Dict ℕ (SolutionDefinition N) → Option Num
  last_objective o [] = o
  last_objective o ((k, s) ∷ d) = last_objective (some s.objective_value) d

  -- `[flow_id, mirror_switch_id] = line.split(" ")`
  unfoldable pub parse_solution_tokens : Num → List Text → Result (SolutionDefinition N)
  parse_solution_tokens objective_value (a ∷ b ∷ []) = do
    flow_id ← int a
    mirror_switch_id ← int b
    ok (record {
      flow_id = flow_id;
      mirror_switch_id = mirror_switch_id;
      objective_value = objective_value;
    })
  parse_solution_tokens objective_value tokens = raise value_error

  unfoldable pub parse_solution : Num → Text → Result (SolutionDefinition N)
  unfolding parse_solution_tokens
  parse_solution objective_value line = parse_solution_tokens objective_value (split b' ' line)

  unfoldable pub add_solution_line :
      Num → Dict ℕ (SolutionDefinition N) → Text → Result (Dict ℕ (SolutionDefinition N))
  unfolding parse_solution
  add_solution_line objective_value solutions line = do
    s ← parse_solution objective_value line
    ok (insert s.flow_id s solutions)

module _ {N : Number} (F : FloatFormat N) where
  open F use {show_float}

  unfoldable pub flow_line : FlowDefinition N → Result Text
  unfolding to_undelimited_list
  flow_line f = do
    path ← to_undelimited_list f.path
    ok (show f.flow_id ++ b' ' ∷ (show_float f.traffic_rate ++ b' ' ∷ path))

  unfoldable pub serialize_flows : Dict ℕ (FlowDefinition N) → Result Text
  unfolding flow_line
  serialize_flows flows = do
    lines ← map_result (λ (e : ℕ × FlowDefinition N). flow_line e.1) flows
    ok (unlines lines)

  unfoldable pub parse_flow_tokens : List Text → Result (FlowDefinition N)
  parse_flow_tokens [] = raise value_error
  parse_flow_tokens (a ∷ []) = raise value_error
  parse_flow_tokens (a ∷ b ∷ nodes) = do
    flow_id ← int a
    traffic_rate ← float N F b
    path ← map_result int nodes
    ok (record { flow_id = flow_id; traffic_rate = traffic_rate; path = path })

  unfoldable pub parse_flow : Text → Result (FlowDefinition N)
  unfolding parse_flow_tokens
  parse_flow line = parse_flow_tokens (split b' ' line)

  unfoldable pub add_flow_line :
      Dict ℕ (FlowDefinition N) → Text → Result (Dict ℕ (FlowDefinition N))
  unfolding parse_flow
  add_flow_line flows line = do f ← parse_flow line; ok (insert f.flow_id f flows)

  unfoldable pub deserialize_flows : Text → Result (Dict ℕ (FlowDefinition N))
  unfolding add_flow_line
  deserialize_flows text = fold_result add_flow_line [] (split_lines text)

  -- The format of the objective raises TypeError where there is no solution.
  unfoldable pub serialize_solutions : Dict ℕ (SolutionDefinition N) → Result Text
  unfolding solution_line last_objective
  serialize_solutions solutions = do
    objective ← or_raise (last_objective none solutions) type_error
    ok (
        unlines (map (λ (e : ℕ × SolutionDefinition N). solution_line e.1) solutions)
        ++ show_float objective)

  unfoldable pub deserialize_solutions : Text → Result (Dict ℕ (SolutionDefinition N))
  unfolding add_solution_line
  deserialize_solutions text = do
    line ← last_of (split_lines text)
    objective_value ← float N F line
    fold_result (add_solution_line objective_value) [] (init (split_lines text))

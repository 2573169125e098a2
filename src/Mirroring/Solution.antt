-- ===== src/Mirroring/Solution.antt =====
-- `PortMirroringSolution` and `RndPortMirroringSolution` of rest_client/trials/port_mirroring_trial.py:
-- the ports that are mirrored, by switch.
pub mod Saved
use cpsc_of_testbed.Base.{
  ℕ, List, [], ◌∷◌, ◌++◌, map, Option, none, some, Result, ok, raise, value_error, type_error,
  name_error, last_of, init, or_raise, ◌>>=◌, fold_result, nat_eq,
}
use cpsc_of_testbed.Base.Dict.{Dict}
use cpsc_of_testbed.Base.Dict.Groups.{append_to}
use cpsc_of_testbed.Base.Numbers.{Number}
use cpsc_of_testbed.Base.Text.{Text, show, split, split_lines, unlines, int}
use cpsc_of_testbed.Base.Text.Floats.{FloatFormat, float}

module _ (N : Number) where
  open N use {Num}

  pub record PortMirroringSolution (Node Port : Type 0) : Type 0 where
    pub mirror_switch_id : Node
    pub mirror_switch_port : Port
    pub objective_value : Num

  pub record RndPortMirroringSolution : Type 0 where
    pub mirror_switch_id : ℕ
    pub mirror_switch_port : ℕ
    pub objective_value : Num
    pub coverage : Num

module _ {N : Number} where
  open N use {Num}

  -- The objective value of the last solution.
  unfoldable pub last_objective : Option Num → List (PortMirroringSolution N ℕ ℕ) → Option Num
  last_objective o [] = o
  last_objective o (s ∷ ss) = last_objective (some s.objective_value) ss

  unfoldable pub objective_of :
      Option Num → Dict ℕ (List (PortMirroringSolution N ℕ ℕ)) → Option Num
  unfolding last_objective
  objective_of o [] = o
  objective_of o ((k, ss) ∷ d) = objective_of (last_objective o ss) d

  unfoldable pub solution_line : PortMirroringSolution N ℕ ℕ → Text
  solution_line s = show s.mirror_switch_id ++ b' ' ∷ show s.mirror_switch_port

  unfoldable pub solution_lines : Dict ℕ (List (PortMirroringSolution N ℕ ℕ)) → List Text
  unfolding solution_line
  solution_lines [] = []
  solution_lines ((k, ss) ∷ d) = map solution_line ss ++ solution_lines d

-- `[a, b] = line.split(" ")`, as numbers.
unfoldable pub two_numbers : List Text → Result (ℕ × ℕ)
two_numbers (a ∷ b ∷ []) = do m ← int a; n ← int b; ok (m, n)
two_numbers tokens = raise value_error

-- `s[-2]`
unfoldable pub second_last_of : List Text → Result Text
second_last_of lines = last_of lines >>= λ _. last_of (init lines)

module _ {N : Number} where
  open N use {Num}

  unfoldable pub add_solution :
      Num
      → Dict ℕ (List (PortMirroringSolution N ℕ ℕ))
      → Text
      → Result (Dict ℕ (List (PortMirroringSolution N ℕ ℕ)))
  unfolding two_numbers
  add_solution objective_value solutions line = do
    ids ← two_numbers (split b' ' line)
    ok (
        append_to ids.0
          (record {
            mirror_switch_id = ids.0;
            mirror_switch_port = ids.1;
            objective_value = objective_value;
          })
          solutions)

  unfoldable pub add_rnd_solution :
      Num
      → Num
      → Dict ℕ (List (RndPortMirroringSolution N))
      → Text
      → Result (Dict ℕ (List (RndPortMirroringSolution N)))
  unfolding two_numbers
  add_rnd_solution objective_value coverage solutions line = do
    ids ← two_numbers (split b' ' line)
    ok (
        append_to ids.0
          (record {
            mirror_switch_id = ids.0;
            mirror_switch_port = ids.1;
            objective_value = objective_value;
            coverage = coverage;
          })
          solutions)

  -- The loop of the method reads a name that is not defined.
  unfoldable pub serialize_rnd : Dict ℕ (List (RndPortMirroringSolution N)) → Result Text
  serialize_rnd [] = raise type_error
  serialize_rnd (e ∷ d) = raise name_error

module _ {N : Number} (F : FloatFormat N) where
  open N use {Num}
  open F use {show_float}

  -- The format of the objective raises TypeError where there is no solution.
  unfoldable pub serialize : Dict ℕ (List (PortMirroringSolution N ℕ ℕ)) → Result Text
  unfolding objective_of solution_lines
  serialize solutions = do
    objective ← or_raise (objective_of none solutions) type_error
    ok (unlines (solution_lines solutions) ++ show_float objective)

  unfoldable pub deserialize : Text → Result (Dict ℕ (List (PortMirroringSolution N ℕ ℕ)))
  unfolding add_solution
  deserialize text = do
    line ← last_of (split_lines text)
    objective_value ← float N F line
    fold_result (add_solution objective_value) [] (init (split_lines text))

  unfoldable pub deserialize_rnd : Text → Result (Dict ℕ (List (RndPortMirroringSolution N)))
  unfolding add_rnd_solution second_last_of
  deserialize_rnd text = do
    second ← second_last_of (split_lines text)
    objective_value ← float N F second
    line ← last_of (split_lines text)
    coverage ← float N F line
    fold_result (add_rnd_solution objective_value coverage) [] (init (init (split_lines text)))

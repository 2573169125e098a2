-- ===== src/Trials/Numbered.antt =====
-- Tables whose trials are built in a loop of their own: the numbers of paths of
-- rest_client/path_hopping_simulator/trials.py, and those of rest_client/attacker_tests/trials.py,
-- where the two paths of files are objects.
use Prim.Native.String
use cpsc_of_testbed.Base.{
  ℕ, ◌+◌, ◌*◌, ◌^◌, ◌/◌, String, List, [], ◌∷◌, map, Result, ok, ◌>>=◌, fold_result, range_from,
  string_eq,
}
use cpsc_of_testbed.Trials.Trial
use cpsc_of_testbed.Trials.Trial.{Trial, Value, text, number, object, add_parameter}
use cpsc_of_testbed.Trials.Provider
use cpsc_of_testbed.Trials.Provider.{Provider, add_trial}
use cpsc_of_testbed.Trials.Parameters.{Texts, Parameters}

-- A trial with parameters that are added in their order.
unfoldable pub with_parameters : Trial → Parameters → Result Trial
unfolding fold_result add_parameter
with_parameters t parameters = fold_result (λ u e. add_parameter u e.0 e.1) t parameters

abbrev append_all : List String → String
append_all [] = ""
append_all (s ∷ ss) = String.◌++◌ s (append_all ss)

module _ (t : Texts) where
  abbrev shown : ℕ → String
  shown n = t.str (number n)

  -- One run; the runs are numbered in their order, for their identifiers and seeds.
  unfoldable pub add_run : ℕ → Provider Trial → ℕ × ℕ → Result (Provider Trial)
  unfolding with_parameters Trial.make add_trial
  add_run attacker_hop_period p (number_of_paths, run_idx) =
      let run = number_of_paths + run_idx in
      with_parameters
        (Trial.make
          (append_all ("number-of-paths-" ∷ shown number_of_paths ∷ "-run-" ∷ shown run_idx ∷ []))
          (t.ids run))
        (("path_length", number 5)
          ∷ ("K", number (number_of_paths / 2))
          ∷ ("N", number number_of_paths)
          ∷ ("attacker_hop_period", number attacker_hop_period)
          ∷ ("seed_number", number (t.seeds run))
          ∷ ("sim_duration", number (10 ^ 4))
          ∷ [])
      >>= λ trial. ok (add_trial p trial)

  unfoldable pub add_runs : ℕ → Provider Trial → ℕ → Result (Provider Trial)
  unfolding add_run
  add_runs attacker_hop_period p number_of_paths =
      fold_result (add_run attacker_hop_period) p
        (map (λ run_idx. (number_of_paths, run_idx)) (range_from 0 10))

  abbrev numbers_of_paths : List ℕ
  numbers_of_paths = map (λ i. i * 10) (range_from 1 10)

  unfoldable pub varying_number_of_paths_slow_hopping : Result (Provider Trial)
  unfolding add_runs fold_result
  varying_number_of_paths_slow_hopping =
      fold_result (add_runs 10) (Provider.make "sim-number-of-paths-slow-hops") numbers_of_paths

  unfoldable pub varying_number_of_paths_fast_hopping : Result (Provider Trial)
  unfolding add_runs fold_result
  varying_number_of_paths_fast_hopping =
      fold_result (add_runs 1) (Provider.make "sim-number-of-paths-fast-hops") numbers_of_paths

  abbrev input_file : Value
  input_file = object 0

  abbrev output_file : Value
  output_file = object 1

  unfoldable pub test_with_single_trial : Result (Provider Trial)
  unfolding with_parameters Trial.make add_trial
  test_with_single_trial =
      with_parameters (Trial.make "attacker-testing" (t.ids 0)) (
        ("K", number 5)
        ∷ ("N", number 9)
        ∷ ("port", number 11111)
        ∷ ("input-file", input_file)
        ∷ ("output-file", output_file)
        ∷ ("message-size", number 256)
        ∷ ("timestep", number 100)
        ∷ ("lambda", number 0)
        ∷ ("reliable", text "False")
        ∷ ("hop", text "host")
        ∷ [])
      >>= λ trial. ok (add_trial (Provider.make "attacker-testing-latency") trial)

  -- A trial of the two tables, by its threshold and its time step.
  unfoldable pub add_attacker_trial :
      String → Provider Trial → ℕ × (ℕ × ℕ) → Result (Provider Trial)
  unfolding with_parameters Trial.make add_trial
  add_attacker_trial title p (shown_value, (k, timestep)) =
      with_parameters (Trial.make (String.◌++◌ title (shown shown_value)) (t.ids shown_value)) (
        ("K", number k)
        ∷ ("port", number 11111)
        ∷ ("N", number 9)
        ∷ ("input-file", input_file)
        ∷ ("output-file", output_file)
        ∷ ("timestep", number timestep)
        ∷ ("lambda", number 0)
        ∷ ("reliable", text "False")
        ∷ ("hop", text "host")
        ∷ ("message-size", number 256)
        ∷ [])
      >>= λ trial. ok (add_trial p trial)

  unfoldable pub test_with_varying_k_values : Result (Provider Trial)
  unfolding add_attacker_trial fold_result
  test_with_varying_k_values =
      fold_result (add_attacker_trial "k-") (Provider.make "k-values-discrete-delay")
        (map (λ k_value. (k_value, (k_value, 100))) (range_from 1 9))

  unfoldable pub test_with_varying_delta_values : Result (Provider Trial)
  unfolding add_attacker_trial fold_result
  test_with_varying_delta_values =
      fold_result (add_attacker_trial "delta-") (Provider.make "delta-values-discrete-delay")
        (map (λ delta_value. (delta_value, (5, delta_value))) (10 ∷ 100 ∷ 1000 ∷ []))

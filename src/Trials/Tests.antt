-- ===== src/Trials/Tests.antt =====
-- Trials and providers on small inputs.
use cpsc_of_testbed.Base.{
  Each, enumerate, length, ℕ, ◌≡◌, refl, String, List, [], ◌∷◌, not, ok, raise, key_error, some,
  Result, eqb, filter, string_eq, nat_eq,
}
use cpsc_of_testbed.Trials.Trial
use cpsc_of_testbed.Trials.Trial.{
  Trial, Value, text, number, Sets, has_parameter, add_parameter, update_parameter, get_parameter,
  add_or_update_parameter,
}
use cpsc_of_testbed.Trials.Provider
use cpsc_of_testbed.Trials.Provider.{
  Provider, add_metadata, get_metadata, get_metadata-add_metadata, remove_all_trials_that_match,
  remove_all_trials_that_match_lem,
}
use cpsc_of_testbed.Trials.Numbered.{
  varying_number_of_paths_slow_hopping, varying_number_of_paths_fast_hopping,
  test_with_single_trial, test_with_varying_k_values, test_with_varying_delta_values,
}
use cpsc_of_testbed.Trials.Parameters.{
  Texts, literal, field, product, mk_trial, mk_trial_provider_with_params,
  varying_path_length_fast_hops, varying_path_length_slow_hops, varying_hop_period_long_paths,
  varying_hop_period_short_paths, delay_to_hop_period_ratio_testing,
}
use cpsc_of_testbed.Trials.Parameters.Runs.{IsRun, trial_count, mk_trial_provider-Each}

program : Unit {0}
unfolding Trial.make add_parameter get_parameter add_metadata mk_trial mk_trial_provider_with_params
program = tt

abbrev trial : Trial
trial = record { name = "t"; parameters = ("trial-name", text "t") ∷ ("id", text "7") ∷ [] }

abbrev provider : Provider ℕ
provider = record { provider_name = "p"; trials = 3 ∷ 8 ∷ 3 ∷ 5 ∷ []; metadata = [] }

remove_all_trials_that_match_lem_example :
    remove_all_trials_that_match provider (eqb 3)
    ≡ ok (record provider { trials = filter (λ t. not (eqb 3 t)) (3 ∷ 8 ∷ 3 ∷ 5 ∷ []) })
remove_all_trials_that_match_lem_example = remove_all_trials_that_match_lem provider (eqb 3)

abbrev texts : Texts
texts = record { str = λ v. "v"; ids = λ i. "i"; seeds = λ i. i }

abbrev basis : List (List (String × Value))
basis =
    (("a", number 1) ∷ ("a", number 2) ∷ [])
    ∷ (("b", number 1) ∷ ("b", number 2) ∷ ("b", number 3) ∷ [])
    ∷ []

abbrev provider_of : Result (Provider Trial) → Provider Trial
provider_of (ok p) = p
provider_of (raise e) = Provider.make ""

abbrev built : Provider Trial
built = provider_of (mk_trial_provider_with_params texts basis [] (field "a" ∷ []) "p")

a_trial_for_each_combination : length built.trials ≡ 6
unfolding program
a_trial_for_each_combination = refl

mk_trial_provider-Each_example :
    (length built.trials ≡ 6)
    × Each (IsRun texts [] (field "a" ∷ [])) (enumerate (product basis)) built.trials
unfolding program
mk_trial_provider-Each_example =
    mk_trial_provider-Each texts [] (field "a" ∷ []) basis "p" built refl

abbrev trial_of : Result Trial → Trial
trial_of (ok t) = t
trial_of (raise e) = trial

abbrev first_trial : Trial
first_trial = trial_of (mk_trial texts [] (literal "run" ∷ []) (0, ("a", number 2) ∷ []))

parameter_of_a_combination : get_parameter first_trial "a" ≡ ok (number 2)
unfolding program
parameter_of_a_combination = refl

tables_of_parameters :
    (trial_count (varying_path_length_fast_hops texts) ≡ some 100)
    × (trial_count (varying_path_length_slow_hops texts) ≡ some 100)
    × (trial_count (varying_hop_period_long_paths texts) ≡ some 100)
    × (trial_count (delay_to_hop_period_ratio_testing texts) ≡ some 100)
    × (varying_hop_period_short_paths texts ≡ raise key_error)
unfolding varying_path_length_fast_hops varying_path_length_slow_hops varying_hop_period_long_paths
    varying_hop_period_short_paths delay_to_hop_period_ratio_testing
tables_of_parameters = (refl, refl, refl, refl, refl)

sizes_of_tables :
    (trial_count (varying_number_of_paths_slow_hopping texts) ≡ some 100)
    × (trial_count (varying_number_of_paths_fast_hopping texts) ≡ some 100)
    × (trial_count (test_with_single_trial texts) ≡ some 1)
    × (trial_count (test_with_varying_k_values texts) ≡ some 9)
    × (trial_count (test_with_varying_delta_values texts) ≡ some 3)
unfolding varying_number_of_paths_slow_hopping varying_number_of_paths_fast_hopping
    test_with_single_trial test_with_varying_k_values test_with_varying_delta_values
sizes_of_tables = (refl, refl, refl, refl, refl)

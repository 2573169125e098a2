-- ===== src/Repository/Tests.antt =====
-- A store whose trials stand in folders by their type and their name, and providers that are merged.
use cpsc_of_testbed.Base.{
  ℕ, zero, suc, ◌≡◌, refl, List, [], ◌∷◌, ◌++◌, filter, true, false, not, ok, raise, os_error,
  key_error, value_error, fold_result, map_result, All, nat_eq, string_eq,
}
use cpsc_of_testbed.Base.Dict.{Dict}
use cpsc_of_testbed.Base.Text.{Text, codes, split, text_eq}
use cpsc_of_testbed.Base.Text.Parts.{Lacks}
use cpsc_of_testbed.Trials.Trial
use cpsc_of_testbed.Trials.Trial.{Trial, Value, text, get_parameter}
use cpsc_of_testbed.Trials.Provider.{Provider, remove_all_trials_that_match, add_trial}
use cpsc_of_testbed.Repository.{
  ResultsRepository, value_eq, parameter_of, write_trial_results, read_trial_results,
  merge_provider,
}
use cpsc_of_testbed.Repository.Files.{
  FilePath, FileSystem, path_eq, join, make_folders, write_text, read_text,
}
use cpsc_of_testbed.Repository.Kept.{read_trial_results-write_trial_results}
use cpsc_of_testbed.Repository.Merged.{is_among, merge_provider_lem}

program : Unit {0}
unfolding fold_result map_result split get_parameter Trial.make remove_all_trials_that_match
    add_trial join make_folders write_text read_text write_trial_results read_trial_results
    merge_provider
program = tt

abbrev repository : ResultsRepository
repository = record {
  base_path = codes "data" ∷ [];
  schema = codes "/solution-type/trial-name/";
  repository_name = codes "results";
}

abbrev variables : Dict Text Text
variables = (codes "solution-type", codes "det") ∷ (codes "trial-name", codes "t1") ∷ []

abbrev results : Dict Text Text
results = (codes "topo", codes "2\n1\n1 2") ∷ (codes "flows", codes "0 100 1 5") ∷ []

abbrev empty : FileSystem
empty = record { folders = []; texts = [] }

abbrev folder : FilePath
folder = codes "data" ∷ codes "det" ∷ codes "t1" ∷ []

abbrev written : FileSystem
written = record {
  folders = (codes "data" ∷ []) ∷ (codes "data" ∷ codes "det" ∷ []) ∷ folder ∷ [];
  texts =
      (folder ++ codes "topo" ∷ [], codes "2\n1\n1 2")
      ∷ (folder ++ codes "flows" ∷ [], codes "0 100 1 5")
      ∷ [];
}

-- Without `overwrite`, results are written once.
second_write_raises :
    write_trial_results repository variables results false written ≡ raise os_error
unfolding program
second_write_raises = refl

missing_variable_raises : write_trial_results repository [] results false empty ≡ raise key_error
unfolding program
missing_variable_raises = refl

read_trial_results-write_trial_results_example :
    (read_trial_results repository variables (codes "topo" ∷ codes "flows" ∷ []) written
      ≡ ok results)
    × (All (λ (e : Text × Text). Lacks b'\r' e.1) results
        → read_trial_results repository variables (codes "topo" ∷ codes "flows" ∷ []) written
          ≡ ok results)
unfolding program
read_trial_results-write_trial_results_example =
    read_trial_results-write_trial_results repository variables results false empty written
      (
        ((refl, (refl, (refl, (refl, tt)))), refl),
        (((refl, (refl, (refl, (refl, (refl, tt))))), refl), tt),
      )
      (refl, (refl, tt)) refl

-- Three objects: the first and the third have the same name.
abbrev trial_of : ℕ → Trial
unfolding Trial.make
trial_of zero = Trial.make "a" "10"
trial_of (suc zero) = Trial.make "b" "11"
trial_of (suc (suc n)) = Trial.make "a" "12"

abbrev existing : Provider ℕ
existing = record { provider_name = "p"; trials = 0 ∷ 1 ∷ []; metadata = [] }

abbrev provider : Provider ℕ
provider = record { provider_name = "p"; trials = 2 ∷ []; metadata = [] }

abbrev merged : Provider ℕ
merged = record { provider_name = "p"; trials = 2 ∷ 1 ∷ []; metadata = [] }

same_name_raises : merge_provider trial_of false true existing provider ≡ raise value_error
unfolding program
same_name_raises = refl

merge_provider_lem_example :
    (ids : List Value) × (names : List Value) × (map_result (parameter_of trial_of "id") (2 ∷ [])
      ≡ ok ids)
    × (map_result (parameter_of trial_of "trial-name") (2 ∷ []) ≡ ok names)
    × All (λ t. is_among trial_of "id" ids t ≡ false) (0 ∷ 1 ∷ [])
    × (true ≡ false → All (λ t. is_among trial_of "trial-name" names t ≡ false) (0 ∷ 1 ∷ []))
    × (merged ≡ record provider {
      trials = (2 ∷ []) ++ filter (λ t. not (is_among trial_of "trial-name" names t)) (0 ∷ 1 ∷ []);
    })
unfolding program
merge_provider_lem_example = merge_provider_lem trial_of true true existing provider merged refl

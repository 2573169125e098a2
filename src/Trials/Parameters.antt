-- ===== src/Trials/Parameters.antt =====
-- The trials of rest_client/path_hopping_simulator/trials.py. The texts of numbers, the identifiers of
-- the trials and the random seeds are Python's, and are parameters: `ids` and `seeds` are numbered.
pub mod Runs
use Prim.Native.String
use cpsc_of_testbed.Base.{
  ℕ, zero, suc, ◌+◌, ◌*◌, ◌^◌, ◌/◌, ◌≡◌, refl, Bool, String, List, [], ◌∷◌, ◌++◌, map, some, none,
  arith, Result, ok, raise, key_error, or_raise, string_eq, ◌>>=◌, fold_result, enumerate,
  range_from, length,
}
use cpsc_of_testbed.Base.Dict.{Dict, lookup, insert, update}
use cpsc_of_testbed.Trials.Trial
use cpsc_of_testbed.Trials.Trial.{Trial, Value, text, number, add_parameter}
use cpsc_of_testbed.Trials.Provider
use cpsc_of_testbed.Trials.Provider.{Provider, add_trial}

-- The parts of a format string: `"path-length-{path_length}"`.
pub data Piece : Type 0 where
  literal : String → Piece
  field : String → Piece

-- The constants that Python knows by name.
pub record Texts : Type 0 where
  pub str : Value → String
  pub ids : ℕ → String
  pub seeds : ℕ → ℕ

abbrev pub Parameters : Type 0
Parameters = Dict String Value

-- `itertools.product(*lists)`: the last list varies fastest.
extend {ℓ} : {A : Type ℓ} → List A → List (List A) → List (List A)
extend [] tails = []
extend (x ∷ xs) tails = map (λ t. x ∷ t) tails ++ extend xs tails

unfoldable pub product {ℓ} : {A : Type ℓ} → List (List A) → List (List A)
unfolding extend
product [] = [] ∷ []
product (xs ∷ rest) = extend xs (product rest)

-- `title_fmt_string.format(**parameters)`: a field that is no parameter raises KeyError.
unfoldable pub format : Texts → List Piece → Parameters → Result String
format t [] d = ok ""
format t (literal s ∷ pieces) d = do rest ← format t pieces d; ok (String.◌++◌ s rest)
format t (field name ∷ pieces) d = do
  v ← or_raise (lookup name d) key_error
  rest ← format t pieces d
  ok (String.◌++◌ (t.str v) rest)

-- One trial of `mk_trial_provider_with_params`, with all the parameters of its run.
unfoldable pub mk_trial : Texts → Parameters → List Piece → ℕ × List (String × Value) → Result Trial
unfolding format fold_result add_parameter Trial.make
mk_trial t per_trial title (run_idx, pack) = do
  let all_parameters = insert "run_idx" (number run_idx) (update (update [] pack) per_trial)
  name ← format t title all_parameters
  fold_result (λ trial e. add_parameter trial e.0 e.1) (Trial.make name (t.ids run_idx))
      all_parameters

unfoldable pub mk_trial_provider_with_params :
    Texts
    → List (List (String × Value))
    → Parameters
    → List Piece
    → String
    → Result (Provider Trial)
unfolding mk_trial fold_result product add_trial
mk_trial_provider_with_params t basis per_trial title name =
    fold_result (λ p run. mk_trial t per_trial title run >>= λ trial. ok (add_trial p trial))
      (Provider.make name) (enumerate (product basis))

-- `[(name, i) for i in range(start, start + n)]`
abbrev numbers : String → ℕ → ℕ → List (String × Value)
numbers name start n = map (λ i. (name, number i)) (range_from start n)

-- `[("seed_number", rand.randint(0, 2**32)) for _ in range(10)]`
abbrev seed_numbers : Texts → List (String × Value)
seed_numbers t = map (λ i. ("seed_number", number (t.seeds i))) (range_from 0 10)

abbrev settings : String → ℕ → Parameters
settings name v =
    ("K", number 5) ∷ ("N", number 10) ∷ (name, number v) ∷ ("sim_duration", number (10 ^ 4)) ∷ []

abbrev path_length_title : List Piece
path_length_title =
    literal "path-length-" ∷ field "path_length" ∷ literal "-run-" ∷ field "run_idx" ∷ []

module _ (t : Texts) where
  unfoldable pub varying_path_length_fast_hops : Result (Provider Trial)
  unfolding mk_trial_provider_with_params
  varying_path_length_fast_hops =
      mk_trial_provider_with_params t (numbers "path_length" 1 10 ∷ seed_numbers t ∷ [])
        (settings "attacker_hop_period" 1) path_length_title "sim-path-length-fast-hops"

  unfoldable pub varying_path_length_slow_hops : Result (Provider Trial)
  unfolding mk_trial_provider_with_params
  varying_path_length_slow_hops =
      mk_trial_provider_with_params t (numbers "path_length" 1 10 ∷ seed_numbers t ∷ [])
        (settings "attacker_hop_period" 10) path_length_title "sim-path-length-slow-hops"

  unfoldable pub varying_hop_period_long_paths : Result (Provider Trial)
  unfolding mk_trial_provider_with_params
  varying_hop_period_long_paths =
      mk_trial_provider_with_params t (numbers "attacker_hop_period" 1 10 ∷ seed_numbers t ∷ [])
        (settings "path_length" 10)
        (literal "hop-period-"
          ∷ field "attacker_hop_period"
          ∷ literal "-run-"
          ∷ field "run_idx"
          ∷ [])
        "sim-hop-period-long-paths"

  -- The title asks for `hop_period`; the parameter is named `attacker_hop_period`.
  unfoldable pub varying_hop_period_short_paths : Result (Provider Trial)
  unfolding mk_trial_provider_with_params
  varying_hop_period_short_paths =
      mk_trial_provider_with_params t (numbers "attacker_hop_period" 1 10 ∷ seed_numbers t ∷ [])
        (settings "path_length" 1)
        (literal "hop-period-" ∷ field "hop_period" ∷ literal "-run-" ∷ field "run_idx" ∷ [])
        "sim-hop-period-short-paths"

  unfoldable pub delay_to_hop_period_ratio_testing : Result (Provider Trial)
  unfolding mk_trial_provider_with_params
  delay_to_hop_period_ratio_testing =
      mk_trial_provider_with_params t (numbers "path_length" 1 10 ∷ seed_numbers t ∷ [])
        (settings "attacker_hop_period" 5) path_length_title "sim-delay-to-hop-period-ratio-testing"

-- ===== src/Routing/Tests.antt =====
-- A trial with one flow on two paths, in thousandths.
use cpsc_of_testbed.Base.{
  ℕ, Each, ◌≡◌, refl, List, [], ◌∷◌, ok, raise, false, true, value_error, fold_result, ◌>>=◌,
  String,
}
use cpsc_of_testbed.Base.Dict.{Dict}
use cpsc_of_testbed.Base.Numbers.{thousandths}
use cpsc_of_testbed.Routing.Trial.{
  read, FlowValue, as_flows, as_seed, as_time, Flow, Trial, add_path, add_flow, verify_flow,
  trial_to_dict, trial_from_dict,
}
use cpsc_of_testbed.Routing.Trial.Saved.{trial_from_dict-trial_to_dict}
use cpsc_of_testbed.Routing.Trial.Read.{IsTaken, trial_from_dict-Each}

program : Unit {0}
unfolding fold_result add_path add_flow trial_to_dict trial_from_dict
program = tt

abbrev flow : ℕ → Flow thousandths
flow second = record {
  source_node = 0;
  destination_node = 3;
  paths =
      record { nodes = 0 ∷ 1 ∷ 3 ∷ []; fraction = 600 }
      ∷ record { nodes = 0 ∷ 2 ∷ 3 ∷ []; fraction = second }
      ∷ [];
  rate = 100;
  variance = 5;
  actual_tx_rates = 98 ∷ 102 ∷ [];
}

abbrev trial : Trial thousandths
trial = record { flows = flow 400 ∷ []; seed = 7; solution_time = 12 }

-- A path that does not end at the destination is refused.
wrong_end_raises : add_path thousandths (flow 400) (0 ∷ 1 ∷ []) 0 ≡ raise value_error
unfolding program
wrong_end_raises = refl

-- The check of a flow accepts splits that sum up to 1.5, but not to 2.
one_and_a_half_is_accepted :
    (verify_flow thousandths (flow 900) ≡ true) × (verify_flow thousandths (flow 1400) ≡ false)
unfolding program
one_and_a_half_is_accepted = (refl, refl)

trial_from_dict-trial_to_dict_example :
    trial_from_dict thousandths (trial_to_dict thousandths trial) ≡ ok trial
unfolding program
trial_from_dict-trial_to_dict_example =
    trial_from_dict-trial_to_dict thousandths trial (((refl, (refl, tt)), refl), tt)

trial_from_dict-Each_example :
    (ds : List (Dict String (FlowValue thousandths))) × ((read "flows"
          (trial_to_dict thousandths trial)
        >>= as_flows thousandths)
      ≡ ok ds)
    × ((read "seed" (trial_to_dict thousandths trial) >>= as_seed thousandths) ≡ ok trial.seed)
    × ((read "solution-time" (trial_to_dict thousandths trial) >>= as_time thousandths)
        ≡ ok trial.solution_time)
    × Each (IsTaken thousandths) ds trial.flows
unfolding program
trial_from_dict-Each_example =
    trial_from_dict-Each thousandths (trial_to_dict thousandths trial) trial refl

-- ===== src/Routing/Trial.antt =====
-- `Flow` and `Trial` of rest_client/mp_routing/trial.py. The dictionaries that they are written to and
-- read from have values of a few kinds; a value of another kind raises TypeError here, at the latest
-- where Python would use it.
pub mod Saved
pub mod Read
use cpsc_of_testbed.Base.{
  ℕ, suc, List, [], ◌∷◌, ◌++◌, map, ◌≡◌, Bool, true, false, not, ◌||◌, Option, none, some, Result,
  ok, raise, key_error, type_error, value_error, raise_if, or_raise, ◌>>=◌, ◌>>◌, fold_result,
  map_result, eqb, ltb, length, String, string_eq, if◌then◌else◌,
}
use cpsc_of_testbed.Base.Dict.{Dict, lookup}
use cpsc_of_testbed.Base.Numbers.{Number, zero_num, one_num, sum_from}

-- `nodes[0] != source` and `nodes[-1] != destination`, of a list that is not empty.
abbrev pub starts_at : ℕ → List ℕ → Bool
starts_at s [] = false
starts_at s (x ∷ xs) = eqb x s

abbrev pub ends_at : ℕ → List ℕ → Bool
ends_at t [] = false
ends_at t (x ∷ []) = eqb x t
ends_at t (x ∷ y ∷ ys) = ends_at t (y ∷ ys)

-- `d[key]`
abbrev pub read : {V : Type 0} → String → Dict String V → Result V
read key d = or_raise (lookup key d) key_error

module _ (N : Number) where
  open N use {Num, minus, gt}

  -- `namedtuple("Path", "nodes fraction")`
  pub record FlowPath : Type 0 where
    pub nodes : List ℕ
    pub fraction : Num

  pub record Flow : Type 0 where
    pub source_node : ℕ
    pub destination_node : ℕ
    pub paths : List FlowPath
    pub rate : Num
    pub variance : Num
    pub actual_tx_rates : List Num

  abbrev pub make_flow : ℕ → ℕ → Num → Num → List Num → Flow
  make_flow source_node destination_node rate variance actual_tx_rates = record {
    source_node = source_node;
    destination_node = destination_node;
    paths = [];
    rate = rate;
    variance = variance;
    actual_tx_rates = actual_tx_rates;
  }

  abbrev pub with_paths : Flow → List FlowPath → Flow
  with_paths f paths = record {
    source_node = f.source_node;
    destination_node = f.destination_node;
    paths = paths;
    rate = f.rate;
    variance = f.variance;
    actual_tx_rates = f.actual_tx_rates;
  }

  abbrev pub is_invalid : Flow → List ℕ → Bool
  is_invalid f nodes =
      ltb (length nodes) 2
      || (not (starts_at f.source_node nodes) || not (ends_at f.destination_node nodes))

  unfoldable pub add_path : Flow → List ℕ → Num → Result Flow
  add_path f nodes fraction =
      raise_if (is_invalid f nodes) value_error
      >> ok (with_paths f (f.paths ++ record { nodes = nodes; fraction = fraction } ∷ []))

  -- The dictionary of a path, and that of a flow.
  pub data PathValue : Type 0 where
    nodes_value : List ℕ → PathValue
    fraction_value : Num → PathValue

  pub data FlowValue : Type 0 where
    node_value : ℕ → FlowValue
    number_value : Num → FlowValue
    numbers_value : List Num → FlowValue
    paths_value : List (Dict String PathValue) → FlowValue

  abbrev pub path_dict : FlowPath → Dict String PathValue
  path_dict p = ("nodes", nodes_value p.nodes) ∷ ("fraction", fraction_value p.fraction) ∷ []

  unfoldable pub flow_to_dict : Flow → Dict String FlowValue
  flow_to_dict f =
      ("source_node", node_value f.source_node)
      ∷ ("destination_node", node_value f.destination_node)
      ∷ ("paths", paths_value (map path_dict f.paths))
      ∷ ("rate", number_value f.rate)
      ∷ ("variance", number_value f.variance)
      ∷ ("actual_tx_rates", numbers_value f.actual_tx_rates)
      ∷ []

  abbrev pub as_nodes : PathValue → Result (List ℕ)
  as_nodes (nodes_value xs) = ok xs
  as_nodes v = raise type_error

  abbrev pub as_fraction : PathValue → Result Num
  as_fraction (fraction_value x) = ok x
  as_fraction v = raise type_error

  abbrev pub as_node : FlowValue → Result ℕ
  as_node (node_value n) = ok n
  as_node v = raise type_error

  abbrev pub as_number : FlowValue → Result Num
  as_number (number_value x) = ok x
  as_number v = raise type_error

  abbrev pub as_numbers : FlowValue → Result (List Num)
  as_numbers (numbers_value xs) = ok xs
  as_numbers v = raise type_error

  abbrev pub as_paths : FlowValue → Result (List (Dict String PathValue))
  as_paths (paths_value ps) = ok ps
  as_paths v = raise type_error

  abbrev pub add_path_dict : Flow → Dict String PathValue → Result Flow
  add_path_dict f d = do
    nodes ← read "nodes" d >>= as_nodes
    fraction ← read "fraction" d >>= as_fraction
    add_path f nodes fraction

  unfoldable pub flow_from_dict : Dict String FlowValue → Result Flow
  unfolding add_path
  flow_from_dict d = do
    source_node ← read "source_node" d >>= as_node
    destination_node ← read "destination_node" d >>= as_node
    rate ← read "rate" d >>= as_number
    variance ← read "variance" d >>= as_number
    actual_tx_rates ← read "actual_tx_rates" d >>= as_numbers
    paths ← read "paths" d >>= as_paths
    fold_result add_path_dict (make_flow source_node destination_node rate variance actual_tx_rates)
        paths

  -- `1**-10` is 1.0.
  abbrev pub total_fraction : Flow → Num
  total_fraction f = sum_from N (zero_num N) (map (λ (p : FlowPath). p.fraction) f.paths)

  unfoldable pub verify_flow : Flow → Bool
  verify_flow f = gt (one_num N) (minus (total_fraction f) (one_num N))

  pub record Trial : Type 0 where
    pub flows : List Flow
    pub seed : ℕ
    pub solution_time : Num

  abbrev pub make_trial : ℕ → Num → Trial
  make_trial seed solution_time = record { flows = []; seed = seed; solution_time = solution_time }

  unfoldable pub add_flow : Trial → Flow → Result Trial
  unfolding verify_flow
  add_flow t f =
      raise_if (not (verify_flow f)) value_error
      >> ok (record { flows = t.flows ++ f ∷ []; seed = t.seed; solution_time = t.solution_time })

  -- The nodes, the splits, and the rate with its variance, of each flow.
  unfoldable pub get_flow_defs : Trial → List ((ℕ × ℕ) × List Num × (Num × Num))
  get_flow_defs t =
      map
        (λ (f : Flow). (
          (f.source_node, f.destination_node),
          map (λ (p : FlowPath). p.fraction) f.paths,
          (f.rate, f.variance),
        ))
        t.flows

  pub data TrialValue : Type 0 where
    flows_value : List (Dict String FlowValue) → TrialValue
    seed_value : ℕ → TrialValue
    time_value : Num → TrialValue

  unfoldable pub trial_to_dict : Trial → Dict String TrialValue
  unfolding flow_to_dict
  trial_to_dict t =
      ("flows", flows_value (map flow_to_dict t.flows))
      ∷ ("seed", seed_value t.seed)
      ∷ ("solution-time", time_value t.solution_time)
      ∷ []

  abbrev pub as_seed : TrialValue → Result ℕ
  as_seed (seed_value n) = ok n
  as_seed v = raise type_error

  abbrev pub as_time : TrialValue → Result Num
  as_time (time_value x) = ok x
  as_time v = raise type_error

  abbrev pub as_flows : TrialValue → Result (List (Dict String FlowValue))
  as_flows (flows_value fs) = ok fs
  as_flows v = raise type_error

  unfoldable pub trial_from_dict : Dict String TrialValue → Result Trial
  unfolding flow_from_dict add_flow
  trial_from_dict d = do
    seed ← read "seed" d >>= as_seed
    solution_time ← read "solution-time" d >>= as_time
    flows ← read "flows" d >>= as_flows
    fold_result (λ t e. flow_from_dict e >>= add_flow t) (make_trial seed solution_time) flows

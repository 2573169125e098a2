-- ===== src/Statistics/Samples.antt =====
-- `compute_link_utilization_over_time` and `compute_mean_link_utilization` of
-- rest_client/nw_control/stat_monitor.py: what each link has sent between two samples.
pub mod Links
use cpsc_of_testbed.Base.{
  ℕ, List, [], ◌∷◌, map, Bool, true, false, ◌&&◌, Option, none, some, Result, ok, raise,
  value_error, pairwise, length, filter, add, add_all, if◌then◌else◌, ◌==◌,
}
use cpsc_of_testbed.Base.Dict.{Dict, lookup, insert, keys}
use cpsc_of_testbed.Base.Numbers.{Number, zero_num, sum_from}
use cpsc_of_testbed.Base.Text.{Text, text_eq, text_pair_eq, text_leb}

-- `tuple(sorted((source_id, destination_id)))`
unfoldable pub compute_link_key : Text → Text → Text × Text
compute_link_key source_id destination_id =
    if text_leb source_id destination_id
    then (source_id, destination_id)
    else (destination_id, source_id)

module _ (N : Number) where
  open N use {Num}

  -- A sample of an interface. The bytes received are not used.
  pub record IfaceStats : Type 0 where
    pub source_id : Text
    pub destination_id : Text
    pub bytes_sent : Num

module _ (N : Number) where
  open N use {Num, ratio, plus, minus, times, divide}

  unfoldable pub find_matching_iface_stats :
      List (IfaceStats N) → Text → Text → Result (IfaceStats N)
  find_matching_iface_stats byte_count source_id destination_id =
      elim (filter
        (λ (d : IfaceStats N). (d.source_id == source_id) && (d.destination_id == destination_id))
        byte_count) [ [] ↦ raise value_error | d ∷ [] ↦ ok d | d ∷ e ∷ rest ↦ raise value_error ]

  unfoldable pub compute_tx_rate : Num → Num
  compute_tx_rate count_in_bytes = divide (divide (times count_in_bytes (ratio 8 1)) 10) 1048576

  -- Where the next sample has not one match, the count is taken not to have changed.
  unfoldable pub count_delta : List (IfaceStats N) → IfaceStats N → Num
  unfolding find_matching_iface_stats
  count_delta t_1 i = elim (find_matching_iface_stats t_1 i.source_id i.destination_id) [
    | ok j ↦ minus j.bytes_sent i.bytes_sent
    | raise e ↦ minus i.bytes_sent i.bytes_sent
  ]

  -- `d[key]` of a `defaultdict(float)`.
  abbrev pub or_zero : Option Num → Num
  or_zero none = zero_num N
  or_zero (some x) = x

  abbrev pub key_of : IfaceStats N → Text × Text
  key_of i = compute_link_key i.source_id i.destination_id

  unfoldable pub add_deltas :
      List (IfaceStats N) → Dict (Text × Text) Num → List (IfaceStats N) → Dict (Text × Text) Num
  unfolding compute_link_key count_delta
  add_deltas t_1 d [] = d
  add_deltas t_1 d (i ∷ is) =
      add_deltas t_1
        (insert (key_of i) (plus (or_zero (lookup (key_of i) d)) (count_delta t_1 i)) d) is

  unfoldable pub rates_between : List (IfaceStats N) × List (IfaceStats N) → Dict (Text × Text) Num
  unfolding add_deltas compute_tx_rate
  rates_between (t_0, t_1) =
      map (λ (e : (Text × Text) × Num). (e.0, compute_tx_rate e.1)) (add_deltas t_1 [] t_0)

  unfoldable pub compute_link_utilization_over_time :
      List (List (IfaceStats N)) → List (Dict (Text × Text) Num)
  unfolding rates_between
  compute_link_utilization_over_time link_byte_counts =
      map rates_between (pairwise link_byte_counts)

  unfoldable pub collect_all_link_keys :
      List (Text × Text) → List (Dict (Text × Text) Num) → List (Text × Text)
  collect_all_link_keys ks [] = ks
  collect_all_link_keys ks (d ∷ ds) = collect_all_link_keys (add_all ks (keys d)) ds

  -- `[d[key] for d in ds if key in d]`
  unfoldable pub rates_of : Text × Text → List (Dict (Text × Text) Num) → List Num
  rates_of key [] = []
  rates_of key (d ∷ ds) = elim (lookup key d) [
    | none ↦ rates_of key ds
    | some x ↦ x ∷ rates_of key ds
  ]

  -- `np.mean`, of a list that is not empty.
  abbrev pub mean : List Num → Num
  mean xs = divide (sum_from N (zero_num N) xs) (length xs)

  unfoldable pub compute_mean_link_utilization : List (List (IfaceStats N)) → Dict (Text × Text) Num
  unfolding compute_link_utilization_over_time collect_all_link_keys rates_of
  compute_mean_link_utilization link_byte_counts =
      let link_util_t = compute_link_utilization_over_time link_byte_counts in
      map (λ key. (key, mean (rates_of key link_util_t))) (collect_all_link_keys [] link_util_t)

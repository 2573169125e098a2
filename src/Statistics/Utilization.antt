-- ===== src/Statistics/Utilization.antt =====
-- The utilization of links and ports: `StatsProcessor` of rest_client/mp_routing/stats_processor.py.
-- The adjacency matrix and the names of the switches, which the controller knows, are arguments.
pub mod Frames
use cpsc_of_testbed.Base.{
  ℕ, List, [], ◌∷◌, map, Bool, true, false, not, Option, none, some, Result, ok, raise, value_error,
  key_error, zero_division, or_raise, ◌>>=◌, fold_result, map_result, pairwise, length, eqb, nat_eq,
  Comparable, pair_eq, if◌then◌else◌,
}
use cpsc_of_testbed.Base.Dict.{Dict, lookup, insert}
use cpsc_of_testbed.Base.Numbers.{Number, zero_num, sum_from}
use cpsc_of_testbed.Base.Text.{Text, text_eq}

pub data Units : Type 0 where
  packets_per_second mega_bits_per_second bits_per_second bytes_per_second mega_bytes_per_second :
      Units

-- The first switch that the port leads to.
unfoldable pub find_neighbour : Dict ℕ ℕ → ℕ → Result ℕ
find_neighbour [] port_no = raise value_error
find_neighbour ((neighbour, port) ∷ row) port_no =
    if eqb port port_no then ok neighbour else find_neighbour row port_no

module _ (topo : Dict ℕ (Dict ℕ ℕ)) where
  unfoldable pub get_link : ℕ → ℕ → Result (ℕ × ℕ)
  unfolding find_neighbour
  get_link src_dpid port_no = do
    row ← or_raise (lookup src_dpid topo) key_error
    next_hop ← find_neighbour row port_no
    ok (src_dpid, next_hop)

  -- ValueError means that the port is not in the core; other exceptions pass.
  unfoldable pub or_false : Result (ℕ × ℕ) → Result Bool
  or_false (ok link) = ok true
  or_false (raise value_error) = ok false
  or_false (raise e) = raise e

  unfoldable pub is_core_port : ℕ → ℕ → Result Bool
  unfolding get_link or_false
  is_core_port dpid port_no = or_false (get_link dpid port_no)

  unfoldable pub is_host_port : ℕ → ℕ → Result Bool
  unfolding is_core_port
  is_host_port dpid port_no = do core ← is_core_port dpid port_no; ok (not core)

  module _ (map_dpid_to_sw : ℕ → Result Text) where
    unfoldable pub get_friendly_link : ℕ → ℕ → Result (Text × Text)
    unfolding get_link
    get_friendly_link src_dpid port_no = do
      link ← get_link src_dpid port_no
      src ← map_dpid_to_sw link.0
      dst ← map_dpid_to_sw link.1
      ok (src, dst)

-- `d[a][b] = v` of a `defaultdict(dict)`.
abbrev pub set_at :
    {V K : Type 0} ⦃q : Comparable K⦄ → Text → K → V → Dict Text (Dict K V) → Dict Text (Dict K V)
set_at a b v d = insert a (insert b v (elim (lookup a d) [ none ↦ [] | some row ↦ row ])) d

-- `except ValueError: continue` around a call, and what is done with its value.
abbrev pub unless_value_error {ℓ κ} :
    {A : Type ℓ} {B : Type κ} → Result A → (A → Result B) → B → Result B
unless_value_error (ok a) f b = f a
unless_value_error (raise value_error) f b = ok b
unless_value_error (raise e) f b = raise e

module _ (N : Number) where
  open N use {Num, ratio, minus, times, divide}

  abbrev pub Stats : Type 0
  Stats = Dict (ℕ × ℕ) (List Num)

  -- What was counted from each sample to the next.
  unfoldable pub frames : List Num → List Num
  frames v = map (λ (t : Num × Num). minus t.1 t.0) (pairwise v)

  unfoldable pub compute_timeframes : Stats → Stats
  unfolding frames
  compute_timeframes = map (λ (e : (ℕ × ℕ) × List Num). (e.0, frames e.1))

  -- `stat.mean` raises a ValueError for an empty list.
  unfoldable pub mean : List Num → Result Num
  mean [] = raise value_error
  mean (x ∷ xs) = ok (divide (sum_from N (zero_num N) (x ∷ xs)) (length (x ∷ xs)))

  module _ {V : Type 0} (transf_fn : List Num → Result V) where
    module _ (topo : Dict ℕ (Dict ℕ ℕ)) (map_dpid_to_sw : ℕ → Result Text) where
      -- `_calc_link_util_pps` with the mean, `_calc_link_util_pps_t` with the list itself.
      unfoldable pub add_link_util :
          Dict Text (Dict Text V) → (ℕ × ℕ) × List Num → Result (Dict Text (Dict Text V))
      add_link_util link_utils e =
          unless_value_error (get_friendly_link topo map_dpid_to_sw e.0.0 e.0.1)
            (λ names. transf_fn e.1 >>= λ v. ok (set_at names.0 names.1 v link_utils)) link_utils

      unfoldable pub calc_link_util_pps : Stats → Result (Dict Text (Dict Text V))
      unfolding compute_timeframes add_link_util
      calc_link_util_pps stats_dict = fold_result add_link_util [] (compute_timeframes stats_dict)

      unfoldable pub add_port_util :
          Dict Text (Dict ℕ V) → (ℕ × ℕ) × List Num → Result (Dict Text (Dict ℕ V))
      add_port_util link_utils e = do
        sw_name ← map_dpid_to_sw e.0.0
        v ← transf_fn e.1
        ok (set_at sw_name e.0.1 v link_utils)

      unfoldable pub add_uplink_util :
          Dict Text (Dict ℕ V) → (ℕ × ℕ) × List Num → Result (Dict Text (Dict ℕ V))
      unfolding add_port_util
      add_uplink_util link_utils e = is_host_port topo e.0.0 e.0.1 >>= λ host.
          if host then add_port_util link_utils e else ok link_utils

      unfoldable pub calc_uplink_port_util_pps : Stats → Result (Dict Text (Dict ℕ V))
      unfolding compute_timeframes add_uplink_util
      calc_uplink_port_util_pps stats_dict =
          fold_result add_uplink_util [] (compute_timeframes stats_dict)

  -- `/ float(time_frame)`
  abbrev pub per : Num → ℕ → Result Num
  per x time_frame = if eqb time_frame 0 then raise zero_division else ok (divide x time_frame)

  unfoldable pub build_conv_fn : ℕ → ℕ → Units → Num → Result Num
  build_conv_fn pkt_size time_frame packets_per_second pkts = per pkts time_frame
  build_conv_fn pkt_size time_frame bits_per_second pkts =
      per (times (times pkts (ratio pkt_size 1)) (ratio 8 1)) time_frame
  build_conv_fn pkt_size time_frame mega_bits_per_second pkts =
      per (divide (times (times pkts (ratio pkt_size 1)) (ratio 8 1)) 1000000) time_frame
  build_conv_fn pkt_size time_frame bytes_per_second pkts =
      per (times pkts (ratio 1066 1)) time_frame
  build_conv_fn pkt_size time_frame mega_bytes_per_second pkts =
      per (divide (times pkts (ratio 1066 1)) 1000000) time_frame

  -- Every value of a dictionary of dictionaries.
  unfoldable pub convert_stats :
      {K V W : Type 0} → (V → Result W) → Dict Text (Dict K V) → Result (Dict Text (Dict K W))
  convert_stats conv_fn d =
      map_result
        (λ (e : Text × Dict _ _).
          map_result (λ (f : _ × _). conv_fn f.1 >>= λ w. ok (f.0, w)) e.1 >>= λ row. ok (e.0, row))
        d

  module _ (topo : Dict ℕ (Dict ℕ ℕ)) (map_dpid_to_sw : ℕ → Result Text) where
    unfoldable pub calc_link_util : Stats → ℕ → ℕ → Units → Result (Dict Text (Dict Text Num))
    unfolding convert_stats build_conv_fn
    calc_link_util stats_dict pkt_size time_frame units = do
      pps_stats ← calc_link_util_pps mean topo map_dpid_to_sw stats_dict
      convert_stats (build_conv_fn pkt_size time_frame units) pps_stats

    unfoldable pub calc_link_util_per_t :
        Stats → ℕ → ℕ → Units → Result (Dict Text (Dict Text (List Num)))
    unfolding convert_stats build_conv_fn
    calc_link_util_per_t stats_dict pkt_size time_frame units = do
      pps_stats ← calc_link_util_pps (λ counts. ok counts) topo map_dpid_to_sw stats_dict
      convert_stats (map_result (build_conv_fn pkt_size time_frame units)) pps_stats

    unfoldable pub calc_ingress_util : Stats → ℕ → ℕ → Units → Result (Dict Text (Dict ℕ Num))
    unfolding convert_stats build_conv_fn
    calc_ingress_util stats_dict pkt_size time_frame units = do
      pps_stats ← calc_uplink_port_util_pps mean topo map_dpid_to_sw stats_dict
      convert_stats (build_conv_fn pkt_size time_frame units) pps_stats

    unfoldable pub calc_ingress_util_per_t :
        Stats → ℕ → ℕ → Units → Result (Dict Text (Dict ℕ (List Num)))
    unfolding convert_stats build_conv_fn
    calc_ingress_util_per_t stats_dict pkt_size time_frame units = do
      pps_stats ← calc_uplink_port_util_pps (λ counts. ok counts) topo map_dpid_to_sw stats_dict
      convert_stats (map_result (build_conv_fn pkt_size time_frame units)) pps_stats

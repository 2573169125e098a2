-- ===== src/Traffic/Models.antt =====
-- `TrafficModels` and `FlowParameters` of traffic_generation/traffic_gen.py; the former is also in
-- rest_client/traffic_analysis/heterogeneous_links.py.
use cpsc_of_testbed.Base.{
  ℕ, List, Option, Result, ok, raise, value_error, replicate, if◌then◌else◌, ◌==◌,
}
use cpsc_of_testbed.Base.Numbers.{Number}
use cpsc_of_testbed.Base.Text.{Text, codes, lower, text_eq}

pub data TrafficModels : Type 0 where
  uniform trunc_norm random_sampling trunc_norm_symmetric gamma precomputed : TrafficModels

unfoldable pub from_str : Text → Result TrafficModels
from_str string_rep =
    let s = lower string_rep in
    if s == codes "uniform"
    then ok uniform
    else if s == codes "trunc_norm"
    then ok trunc_norm
    else if s == codes "random_sampling"
    then ok random_sampling
    else if s == codes "trunc_norm_symmetric"
    then ok trunc_norm_symmetric
    else if s == codes "gamma"
    then ok gamma
    else if s == codes "precomputed"
    then ok precomputed
    else raise value_error

module _ (N : Number) where
  open N use {Num}

  pub record FlowParameters : Type 0 where
    pub dest_port : ℕ
    pub dest_addr : Text
    pub prob_mat : List Num
    pub tx_rate : Num
    pub variance : Num
    pub traffic_model : TrafficModels
    pub packet_len : ℕ
    pub src_host : ℕ
    pub time_slice : Num
    pub tag_value : Option (List ℕ)
    pub transmit_rates : Option (List Num)
    pub source_addr : Option Text
    pub flow_id : ℕ

module _ {N : Number} where
  -- `b"x" * self.packet_len`
  unfoldable pub data_str : FlowParameters N → Text
  data_str p = replicate p.packet_len b'x'

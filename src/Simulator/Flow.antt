-- ===== src/Simulator/Flow.antt =====
-- `PathHoppingFlow` of rest_client/path_hopping_simulator/simulator.py. A method returns the flow
-- that it leaves behind.

pub mod Accounting
pub mod Delivery
pub mod Following
pub mod Receiving
pub mod Route
use cpsc_of_testbed.Base.{
  ℕ, suc, List, [], Option, none, some, Result, ok, key_error, value_error, index_error, ◌>>=◌,
  ◌>>◌, or_raise, raise_if, length, range, eqb, get_elem?, index, nat_eq, ltb, if◌then◌else◌,
  contains, not,
}
use cpsc_of_testbed.Base.Dict.{Dict, lookup, insert, erase}
use cpsc_of_testbed.Simulator.Share.{Share, create_shares_for}
use cpsc_of_testbed.Simulator.Random.{Random, sample}

pub record Flow : Type 0 where
  pub flow_id : ℕ
  pub source_node : ℕ
  pub sink_node : ℕ
  pub paths : List (List ℕ)
  pub active_paths : List ℕ
  pub data_volume : ℕ
  pub n : ℕ
  pub k : ℕ
  pub seq_num : ℕ
  -- The number of shares that have come, for each message not yet complete.
  pub shares_received : Dict ℕ ℕ
  pub messages_tx : ℕ
  pub messages_rx : ℕ

-- `PathHoppingFlow(source_node, sink_node, data_volume, paths, N, K, flow_id)`
unfoldable pub make : ℕ → ℕ → ℕ → List (List ℕ) → ℕ → ℕ → ℕ → Flow
make source_node sink_node data_volume paths n k flow_id = record {
  flow_id = flow_id;
  source_node = source_node;
  sink_node = sink_node;
  paths = paths;
  active_paths = [];
  data_volume = data_volume;
  n = n;
  k = k;
  seq_num = 0;
  shares_received = [];
  messages_tx = 0;
  messages_rx = 0;
}

-- `none` is the -1 that says that the share has arrived.
unfoldable pub get_next_hop_for_share : Flow → Share → ℕ → Result (Option ℕ)
get_next_hop_for_share f share current_node = do
  path ← or_raise (get_elem? f.paths share.path_idx) index_error
  current_hop_idx ← or_raise (index current_node path) value_error
  if eqb (suc current_hop_idx) (length path)
      then ok none
      else or_raise (get_elem? path (suc current_hop_idx)) index_error >>= λ next. ok (some next)

unfoldable pub get_next_seq_num : Flow → ℕ × Flow
get_next_seq_num f = (f.seq_num, record f { seq_num = suc f.seq_num })

unfoldable pub create_shares : Flow → List Share × Flow
unfolding get_next_seq_num
create_shares f =
    let (seq_num, f') = get_next_seq_num (record f { messages_tx = suc f.messages_tx }) in
    (
      create_shares_for f.flow_id f.source_node f.sink_node seq_num f.active_paths,
      record f' { shares_received = insert seq_num 0 f'.shares_received },
    )

unfoldable pub receive_share : Flow → Share → Result Flow
receive_share f share = do
  received ← or_raise (lookup share.seq_num f.shares_received) key_error
  let counted = insert share.seq_num (suc received) f.shares_received
  ok (
      if eqb (suc received) f.k
      then record f {
        messages_rx = suc f.messages_rx;
        shares_received = erase share.seq_num counted;
      }
      else record f { shares_received = counted })

-- K distinct paths are chosen anew.
unfoldable pub hop : Random → ℕ → Flow → Result (Flow × ℕ)
unfolding sample
hop r draw f = do
  (chosen, next) ← sample r draw (range (length f.paths)) f.k
  ok (record f { active_paths = chosen }, next)

-- `create_random_flow` with both ends given; the volume is the generator's, and `disjoint_paths` is
-- networkx's answer. The result has hopped once.
unfoldable pub create_random_flow :
    Random → ℕ → List ℕ → (ℕ → ℕ → List (List ℕ)) → ℕ → ℕ → ℕ → ℕ → ℕ → ℕ → Result (Flow × ℕ)
unfolding make hop
create_random_flow r draw nodes disjoint_paths n k volume source sink flow_id = do
  raise_if (not (contains source nodes)) value_error
  raise_if (not (contains sink nodes)) value_error
  let paths = disjoint_paths source sink
  raise_if (ltb (length paths) n) value_error
  hop r draw (make source sink volume paths n k flow_id)

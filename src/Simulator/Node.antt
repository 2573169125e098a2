-- ===== src/Simulator/Node.antt =====
-- `PathHoppingNode` of rest_client/path_hopping_simulator/simulator.py. The set of resident shares
-- is kept in the order of insertion.
use cpsc_of_testbed.Base.{
  ℕ, List, [], not, ◌&&◌, eqb, contains, add, remove, filter, Result, ok, raise, key_error,
  if◌then◌else◌,
}
use cpsc_of_testbed.Simulator.Share.{Share, share_eq}

pub record Node : Type 0 where
  pub node_id : ℕ
  pub resident_shares : List Share

-- `PathHoppingNode(node_id)`
abbrev pub make : ℕ → Node
make node_id = record { node_id = node_id; resident_shares = [] }

-- The shares that neither start nor end here.
unfoldable pub vulnerable_shares : Node → List Share
vulnerable_shares n =
    filter (λ s. not (eqb s.source_node n.node_id) && not (eqb s.sink_node n.node_id))
      n.resident_shares

unfoldable pub receive_share : Node → Share → Node
receive_share n share = record n { resident_shares = add share n.resident_shares }

unfoldable pub clear_resident_packets : Node → Node
clear_resident_packets n = record n { resident_shares = [] }

unfoldable pub remove_share : Node → Share → Result Node
remove_share n share =
    if contains share n.resident_shares
    then ok (record n { resident_shares = remove share n.resident_shares })
    else raise key_error

-- ===== src/Simulator/World.antt =====
-- `PathHoppingSimulation` of rest_client/path_hopping_simulator/simulator.py. The network graph is
-- only kept by it; `draws` is the number of draws made from numpy's generator. An object in a
-- dictionary is changed in place, which is an insertion under its own key.
pub mod Updates
pub mod Run
pub mod Sent
pub mod Flight
pub mod Located
pub mod Following
pub mod Sending
pub mod Moving
pub mod Arriving
pub mod Created
pub mod Progress
pub mod Delivered
pub mod Drawn
use cpsc_of_testbed.Base.{
  zero, ℕ, suc, List, [], ◌∷◌, ◌++◌, map, none, some, nat_eq, Result, ok, key_error, ◌>>=◌,
  or_raise, fold_result, map_result, add, Option,
}
use cpsc_of_testbed.Base.Dict.{Dict, lookup, insert, keys, values}
use cpsc_of_testbed.Simulator.Share.{Share, share_eq}
use cpsc_of_testbed.Simulator.Node
use cpsc_of_testbed.Simulator.Node.{Node, clear_resident_packets}
use cpsc_of_testbed.Simulator.Flow
use cpsc_of_testbed.Simulator.Flow.{Flow, create_shares, get_next_hop_for_share}
use cpsc_of_testbed.Simulator.Random.{Random}
use cpsc_of_testbed.Simulator.Attacker.{Attacker, monitor}
use cpsc_of_testbed.Simulator.Attacker.Selection.{select_monitored_nodes}

pub record World : Type 0 where
  pub ticks : ℕ
  pub nodes : Dict ℕ Node
  pub flows : Dict ℕ Flow
  pub attackers : List Attacker
  pub draws : ℕ

abbrev index_nodes : List ℕ → Dict ℕ Node → Dict ℕ Node
index_nodes [] d = d
index_nodes (u ∷ us) d = index_nodes us (insert u (Node.make u) d)

abbrev index_flows : List Flow → Dict ℕ Flow → Dict ℕ Flow
index_flows [] d = d
index_flows (f ∷ fs) d = index_flows fs (insert f.flow_id f d)

-- `PathHoppingSimulation.create(nx_graph, flows)`, of the graph's nodes.
unfoldable pub create : List ℕ → List Flow → ℕ → World
create nodes flows draws = record {
  ticks = 1;
  nodes = index_nodes nodes [];
  flows = index_flows flows [];
  attackers = [];
  draws = draws;
}

unfoldable pub add_attacker : World → Attacker → World
add_attacker w a = record w { attackers = w.attackers ++ a ∷ [] }

-- `self._nodes[node_id].receive_share(share)`
unfoldable pub deliver : ℕ → Dict ℕ Node → Share → Result (Dict ℕ Node)
deliver node_id nodes share = do
  node ← or_raise (lookup node_id nodes) key_error
  ok (insert node_id (Node.receive_share node share) nodes)

-- The packets of one flow enter at its source.
unfoldable pub inject_flow : World → ℕ → Result World
unfolding fold_result deliver
inject_flow w flow_id = do
  flow ← or_raise (lookup flow_id w.flows) key_error
  let (shares, flow') = create_shares flow
  nodes ← fold_result (deliver flow.source_node) w.nodes shares
  ok (record w { nodes = nodes; flows = insert flow_id flow' w.flows })

abbrev pub Moved : Type 0
Moved = Dict ℕ Flow × Dict ℕ (List Share)

abbrev pub waiting_at : ℕ → Dict ℕ (List Share) → List Share
waiting_at node_id moved = elim (lookup node_id moved) [ none ↦ [] | some s ↦ s ]

-- One share is received by its flow, or is put aside for its next hop.
unfoldable pub move_share : ℕ → Moved → Share → Result Moved
move_share node_id (flows, moved) share = do
  flow ← or_raise (lookup share.flow_id flows) key_error
  next_hop ← get_next_hop_for_share flow share node_id
  elim next_hop [
    | none ↦ Flow.receive_share flow share >>= λ flow'. ok (insert share.flow_id flow' flows, moved)
    | some next ↦ ok (flows, insert next (add share (waiting_at next moved)) moved)
  ]

unfoldable pub move_node : Moved → Node → Result Moved
unfolding fold_result move_share
move_node m node = fold_result (move_share node.node_id) m node.resident_shares

-- The shares put aside for one node.
unfoldable pub inject_moved : Dict ℕ Node → ℕ × List Share → Result (Dict ℕ Node)
unfolding fold_result deliver
inject_moved nodes (node_id, shares) = fold_result (deliver node_id) nodes shares

-- Each packet moves one hop; the nodes are cleared as they are visited.
unfoldable pub move_packets : World → Result World
unfolding fold_result move_node inject_moved
move_packets w = do
  (flows, moved) ← fold_result move_node (w.flows, []) (values w.nodes)
  let cleared = map (λ e. (e.0, clear_resident_packets e.1)) w.nodes
  nodes ← fold_result inject_moved cleared moved
  ok (record w { nodes = nodes; flows = flows })

module _ (r : Random) where
  unfoldable pub hop_flow : World → ℕ → Result World
  hop_flow w flow_id = do
    flow ← or_raise (lookup flow_id w.flows) key_error
    (flow', next) ← Flow.hop r w.draws flow
    ok (record w { flows = insert flow_id flow' w.flows; draws = next })

  -- An attacker listens at its nodes, and then chooses anew.
  unfoldable pub attack : World → List Attacker → Result (List Attacker × ℕ)
  attack w [] = ok ([], w.draws)
  attack w (a ∷ others) = do
    watched ← monitor w.flows w.nodes a
    (a', next) ← select_monitored_nodes r watched (keys w.nodes) w.flows w.ticks w.draws
    (rest, last) ← attack (record w { draws = next }) others
    ok (a' ∷ rest, last)

  unfoldable pub step : World → Result World
  unfolding fold_result inject_flow move_packets hop_flow attack
  step w = do
    injected ← fold_result inject_flow w (keys w.flows)
    moved ← move_packets injected
    hopped ← fold_result hop_flow moved (keys moved.flows)
    (attackers, draws) ← attack hopped hopped.attackers
    ok (record hopped { attackers = attackers; draws = draws; ticks = suc hopped.ticks })

  -- `for _ in range(n): simulation.step()`
  unfoldable pub run : ℕ → World → Result World
  run zero w = ok w
  run (suc n) w = step w >>= λ w'. run n w'

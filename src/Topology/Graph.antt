-- ===== src/Topology/Graph.antt =====
-- The graphs of rest_client/nw_control/topo_mapper.py: the one that a topology file describes and the
-- one of the controller's links. networkx's graph is its nodes and its edges, which have no direction.
use cpsc_of_testbed.Base.{
  if◌then◌else◌, ℕ, List, [], ◌∷◌, ◌++◌, Bool, false, not, ◌&&◌, ◌||◌, Result, ok, raise,
  value_error, index_error, stop_iteration, ◌>>=◌, fold_result, filter, add, drop, range_from, ◌==◌,
  Comparable, nat_eq,
}
use cpsc_of_testbed.Base.Text.{Text, int, split, split_lines, text_eq}
use cpsc_of_testbed.Topology.Controller.{Link, Host, get_nw_links, get_collector_switch_dpid}

pub record Graph (V : Type 0) : Type 0 where
  pub nodes : List V
  pub edges : List (V × V)

module _ {V : Type 0} ⦃q : Comparable V⦄ where
  unfoldable pub add_node : Graph V → V → Graph V
  add_node g v = record { nodes = add v g.nodes; edges = g.edges }

  -- The ends become nodes as well.
  unfoldable pub add_edge : Graph V → V × V → Graph V
  unfolding add_node
  add_edge g e = record { nodes = add e.1 (add e.0 g.nodes); edges = g.edges ++ e ∷ [] }

  abbrev pub joins : V → V → V × V → Bool
  joins u v e = ((e.0 == u) && (e.1 == v)) || ((e.0 == v) && (e.1 == u))

  unfoldable pub has_edge_among : List (V × V) → V → V → Bool
  has_edge_among [] u v = false
  has_edge_among (e ∷ es) u v = joins u v e || has_edge_among es u v

  unfoldable pub has_edge : Graph V → V → V → Bool
  unfolding has_edge_among
  has_edge g u v = has_edge_among g.edges u v

  abbrev pub empty_graph : Graph V
  empty_graph = record { nodes = []; edges = [] }

-- `[source_node, destination_node] = edge_entry.split(" ")`
unfoldable pub parse_edge : List Text → Result (ℕ × ℕ)
parse_edge (a ∷ b ∷ []) = do u ← int a; v ← int b; ok (u, v)
parse_edge tokens = raise value_error

unfoldable pub add_edge_entry : Graph ℕ → Text → Result (Graph ℕ)
unfolding parse_edge add_edge
add_edge_entry g line = do e ← parse_edge (split b' ' line); ok (add_edge g e)

-- The first line is the number of nodes, the second is skipped.
unfoldable pub build_from_lines : List Text → Result (Graph ℕ)
unfolding add_edge_entry
build_from_lines [] = raise index_error
build_from_lines (line ∷ lines) = do
  num_nodes ← int line
  fold_result add_edge_entry (record { nodes = range_from 1 num_nodes; edges = [] }) (drop 1 lines)

unfoldable pub build_graph_from_topo_string : Text → Result (Graph ℕ)
unfolding build_from_lines
build_graph_from_topo_string text = build_from_lines (split_lines text)

-- The collector's switch, or an empty text where no host is the collector.
unfoldable pub collector_or_empty : Result Text → Result Text
collector_or_empty (ok dpid) = ok dpid
collector_or_empty (raise stop_iteration) = ok []
collector_or_empty (raise e) = raise e

unfoldable pub core_links : Text → List Link → List Link
core_links collector links =
    filter (λ (l : Link). not (l.src_device == collector) && not (l.dst_device == collector)) links

-- A device without a name becomes a node by its edge only.
unfoldable pub add_link : Graph Text → Link → Graph Text
unfolding add_edge add_node
add_link g l =
    let with_source = if l.src_device == [] then g else add_node g l.src_device in
    add_edge (add_node with_source l.dst_device) (l.src_device, l.dst_device)

unfoldable pub add_links : Graph Text → List Link → Graph Text
unfolding add_link
add_links g [] = g
add_links g (l ∷ ls) = add_links (add_link g l) ls

unfoldable pub build_onos_topo_graph : Text → List Link → List Host → Result (Graph Text)
unfolding collector_or_empty core_links add_links
build_onos_topo_graph collector_host_ip links hosts = do
  collector ← collector_or_empty (get_collector_switch_dpid collector_host_ip hosts)
  ok (add_links empty_graph (core_links collector (get_nw_links links)))

-- ===== src/Topology/Mapper.antt =====
-- The numbers of a topology as names of the controller's switches, and the check of flows against a
-- graph: rest_client/nw_control/topo_mapper.py. networkx finds the isomorphism.
pub mod Invalid
use cpsc_of_testbed.Base.{
  ℕ, List, [], ◌∷◌, Bool, true, false, not, Option, none, some, Result, ok, raise, value_error,
  key_error, or_raise, ◌>>=◌, fold_result, pairwise, add, if◌then◌else◌, nat_eq, pair_eq,
}
use cpsc_of_testbed.Base.Dict.{Dict, lookup, insert}
use cpsc_of_testbed.Base.Text.{Text, text_eq}
use cpsc_of_testbed.Topology.Controller.{Link, Host}
use cpsc_of_testbed.Topology.Graph.{
  Graph, has_edge, build_graph_from_topo_string, build_onos_topo_graph,
}

-- `{v: k for k, v in dpid_to_id.items()}`
unfoldable pub invert_from : Dict ℕ Text → Dict Text ℕ → Dict ℕ Text
invert_from d [] = d
invert_from d ((dpid, id) ∷ rest) = invert_from (insert id dpid d) rest

unfoldable pub invert : Dict Text ℕ → Dict ℕ Text
unfolding invert_from
invert dpid_to_id = invert_from [] dpid_to_id

-- The isomorphism between two graphs that networkx finds, or none where they are not isomorphic.
module _ (isomorphism : Graph Text → Graph ℕ → Option (Dict Text ℕ)) where
  unfoldable pub generate_graph_isomorphism : Graph Text → Graph ℕ → Result (Dict Text ℕ)
  generate_graph_isomorphism g1 g2 = or_raise (isomorphism g1 g2) value_error

  unfoldable pub get_and_validate_onos_topo_x :
      Text → List Link → List Host → Graph ℕ → Result (Dict ℕ Text)
  unfolding generate_graph_isomorphism invert
  get_and_validate_onos_topo_x collector_host_ip links hosts target_topo = do
    current_topo ← build_onos_topo_graph collector_host_ip links hosts
    dpid_to_id ← generate_graph_isomorphism current_topo target_topo
    ok (invert dpid_to_id)

  unfoldable pub get_and_validate_onos_topo :
      Text → List Link → List Host → Text → Result (Dict ℕ Text)
  unfolding generate_graph_isomorphism invert
  get_and_validate_onos_topo collector_host_ip links hosts target_topo_string = do
    current_topo ← build_onos_topo_graph collector_host_ip links hosts
    target_topo ← build_graph_from_topo_string target_topo_string
    dpid_to_id ← generate_graph_isomorphism current_topo target_topo
    ok (invert dpid_to_id)

-- `id_to_dpid[u]` and `id_to_dpid[v]`, which the message about an invalid edge shows.
unfoldable pub names_of : Dict ℕ Text → ℕ × ℕ → Result (Text × Text)
names_of id_to_dpid e = do
  u ← or_raise (lookup e.0 id_to_dpid) key_error
  v ← or_raise (lookup e.1 id_to_dpid) key_error
  ok (u, v)

-- An edge of a flow against a graph of names.
unfoldable pub check_nw_edge :
    Graph Text → Dict ℕ Text → List (ℕ × ℕ) → ℕ × ℕ → Result (List (ℕ × ℕ))
unfolding names_of has_edge
check_nw_edge nw_graph id_to_dpid invalid_edges e = do
  names ← names_of id_to_dpid e
  ok (if has_edge nw_graph names.0 names.1 then invalid_edges else add e invalid_edges)

-- An edge of a flow against a graph of numbers; the names are needed for the message only.
unfoldable pub check_target_edge :
    Graph ℕ → Dict ℕ Text → List (ℕ × ℕ) → ℕ × ℕ → Result (List (ℕ × ℕ))
unfolding names_of has_edge
check_target_edge target_graph id_to_dpid invalid_edges e =
    if has_edge target_graph e.0 e.1
    then ok invalid_edges
    else (names_of id_to_dpid e >>= λ names. ok (add e invalid_edges))

-- `for flow_id, flow in flows.items(): for u, v in zip(path, path[1:])`, of the flows' paths.
unfoldable pub check_paths :
    (List (ℕ × ℕ) → ℕ × ℕ → Result (List (ℕ × ℕ))) → Dict ℕ (List ℕ) → Result (List (ℕ × ℕ))
check_paths check paths =
    fold_result
      (λ (invalid : List (ℕ × ℕ)) (e : ℕ × List ℕ). fold_result check invalid (pairwise e.1)) []
      paths

module _ (isomorphism : Graph Text → Graph ℕ → Option (Dict Text ℕ)) where
  unfoldable pub verify_flows_against_nw_topo :
      Text → List Link → List Host → Text → Dict ℕ (List ℕ) → Result (List (ℕ × ℕ))
  unfolding check_nw_edge check_paths
  verify_flows_against_nw_topo collector_host_ip links hosts target_topo_file paths = do
    nw_graph ← build_onos_topo_graph collector_host_ip links hosts
    id_to_dpid ←
        get_and_validate_onos_topo isomorphism collector_host_ip links hosts target_topo_file
    check_paths (check_nw_edge nw_graph id_to_dpid) paths

  unfoldable pub verify_flows_against_target_topo :
      Text → List Link → List Host → Text → Dict ℕ (List ℕ) → Result (List (ℕ × ℕ))
  unfolding check_target_edge check_paths
  verify_flows_against_target_topo collector_host_ip links hosts target_topo_file paths = do
    target_graph ← build_graph_from_topo_string target_topo_file
    id_to_dpid ←
        get_and_validate_onos_topo isomorphism collector_host_ip links hosts target_topo_file
    check_paths (check_target_edge target_graph id_to_dpid) paths

-- ===== src/Topology/Tests.antt =====
-- A topology of three switches in a line, and a controller that knows the same network.
use cpsc_of_testbed.Base.{
  ℕ, ◌≡◌, ◌↔◌, refl, List, [], ◌∷◌, false, Option, none, some, ok, raise, value_error, fold_result,
  In, nat_eq,
}
use cpsc_of_testbed.Base.Dict.{Dict}
use cpsc_of_testbed.Base.Text.{Text, codes, split_lines, split, read_nat, text_eq}
use cpsc_of_testbed.Topology.Controller.{Link, get_ports_that_connect, get_collector_switch_dpid}
use cpsc_of_testbed.Topology.Graph.{
  Graph, has_edge, build_graph_from_topo_string, build_onos_topo_graph,
}
use cpsc_of_testbed.Topology.Mapper.{
  get_and_validate_onos_topo, verify_flows_against_target_topo, verify_flows_against_nw_topo,
}
use cpsc_of_testbed.Topology.Mapper.Invalid.{edges_of, verify_flows_against_target_topo_lem}

program : Unit {0}
unfolding fold_result split split_lines read_nat get_collector_switch_dpid
    get_and_validate_onos_topo get_ports_that_connect has_edge build_graph_from_topo_string
    build_onos_topo_graph verify_flows_against_target_topo verify_flows_against_nw_topo
program = tt

abbrev topo : Text
topo = codes "3\n2\n1 2\n2 3"

abbrev link : Text → Text → Text → Link
link source destination port = record {
  src_device = source;
  src_port = port;
  dst_device = destination;
  dst_port = codes "1";
  type = codes "DIRECT";
}

abbrev links : List Link
links = link (codes "a") (codes "b") (codes "4") ∷ link (codes "b") (codes "c") (codes "5") ∷ []

ports_of_a_link : get_ports_that_connect links (codes "b") (codes "c") ≡ ok (5, 1)
unfolding program
ports_of_a_link = refl

-- The switches in the order of their numbers.
abbrev in_order : Graph Text → Graph ℕ → Option (Dict Text ℕ)
in_order g h = some ((codes "a", 1) ∷ (codes "b", 2) ∷ (codes "c", 3) ∷ [])

-- The second flow goes from 1 to 3 directly.
abbrev paths : Dict ℕ (List ℕ)
paths = (0, 1 ∷ 2 ∷ 3 ∷ []) ∷ (1, 1 ∷ 3 ∷ []) ∷ []

both_checks_agree : verify_flows_against_nw_topo in_order [] links [] topo paths ≡ ok ((1, 3) ∷ [])
unfolding program
both_checks_agree = refl

other_graph_raises :
    verify_flows_against_target_topo (λ g h. none) [] links [] topo paths ≡ raise value_error
unfolding program
other_graph_raises = refl

verify_flows_against_target_topo_lem_example :
    (g : Graph ℕ) × (build_graph_from_topo_string topo ≡ ok g)
    × ((a : ℕ × ℕ) → In a ((1, 3) ∷ []) ↔ (In a (edges_of paths) × (has_edge g a.0 a.1 ≡ false)))
unfolding program
verify_flows_against_target_topo_lem_example =
    verify_flows_against_target_topo_lem in_order [] links [] topo paths ((1, 3) ∷ []) refl

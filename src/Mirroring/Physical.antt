-- ===== src/Mirroring/Physical.antt =====
-- A trial mapped to the switches and ports of the network:
-- `PortMirroringTrial.map_to_physical_network` of rest_client/trials/port_mirroring_trial.py, with
-- `map_port_ids_to_nw_ports` and `verify_path_ports` of
-- rest_client/port_mirroring/onos_rest_helpers.py.
pub mod Ports
pub mod Routed
use cpsc_of_testbed.Base.{
  ℕ, List, [], ◌∷◌, ◌++◌, map, Bool, Option, none, some, Result, ok, raise, key_error,
  attribute_error, or_raise, last_of, init, ◌>>=◌, fold_result, map_result, pairwise, eqb, nat_eq,
  if◌then◌else◌, ◌==◌,
}
use cpsc_of_testbed.Base.Dict.{Dict, lookup, insert}
use cpsc_of_testbed.Base.Dict.Groups.{append_to}
use cpsc_of_testbed.Base.Numbers.{Number}
use cpsc_of_testbed.Base.Text.{Text, text_eq}
use cpsc_of_testbed.Topology.Controller.{Link, Host, get_ports_that_connect, get_host_port}
use cpsc_of_testbed.Mirroring.Flow.{PortMirroringFlow}
use cpsc_of_testbed.Mirroring.Solution.{PortMirroringSolution}
use cpsc_of_testbed.Mirroring.Trial.{
  PortMirroringPorts, PortMirroringTrial, Solutions, make, det, df, greedy, optimal, rnd,
  set_solution_type,
}

-- `d[k]`
abbrev pub at_key {ℓ} : {V : Type ℓ} → Dict ℕ V → ℕ → Result V
at_key d k = or_raise (lookup k d) key_error

-- `d[source]` of a `defaultdict(dict)`.
abbrev pub row_of : Dict ℕ (Dict ℕ ℕ) → ℕ → Dict ℕ ℕ
row_of d source = elim (lookup source d) [ none ↦ [] | some row ↦ row ]

-- `zip(xs, ys)`
abbrev pub zip : {A B : Type 0} → List A → List B → List (A × B)
zip [] ys = []
zip (x ∷ xs) [] = []
zip (x ∷ xs) (y ∷ ys) = (x, y) ∷ zip xs ys

module _ (links : List Link) (id_to_dpid : Dict ℕ Text) where
  -- One port, of the switch `source_id`.
  unfoldable pub map_port : ℕ → Dict ℕ (Dict ℕ ℕ) → ℕ × ℕ → Result (Dict ℕ (Dict ℕ ℕ))
  map_port source_id port_map e = do
    source_dpid ← at_key id_to_dpid source_id
    destination_dpid ← at_key id_to_dpid e.0
    connecting ← get_ports_that_connect links source_dpid destination_dpid
    ok (insert source_id (insert e.1 connecting.0 (row_of port_map source_id)) port_map)

  unfoldable pub map_switch_ports : Dict ℕ (Dict ℕ ℕ) → ℕ × Dict ℕ ℕ → Result (Dict ℕ (Dict ℕ ℕ))
  unfolding map_port
  map_switch_ports port_map e = fold_result (map_port e.0) port_map e.1

  -- For each switch, the port numbers of the network by those of the topology.
  unfoldable pub map_port_ids_to_nw_ports : PortMirroringPorts → Result (Dict ℕ (Dict ℕ ℕ))
  unfolding map_switch_ports
  map_port_ids_to_nw_ports mirroring_ports =
      fold_result map_switch_ports [] mirroring_ports.port_map

-- `port_ids_to_port_numbers[switch_id][port]`
abbrev pub port_number : Dict ℕ (Dict ℕ ℕ) → ℕ × ℕ → Result ℕ
port_number port_numbers hop = at_key (row_of port_numbers hop.0) hop.1

module _ (collector_ip_addr dns_server_ip : Text) (hosts : List Host) (id_to_dpid : Dict ℕ Text)
    (port_numbers : Dict ℕ (Dict ℕ ℕ)) where
  -- The last hop leaves through the port of the host.
  unfoldable pub map_hops : List (ℕ × ℕ) → Result (List (Text × ℕ))
  map_hops hops = do
    new_path ← map_result (λ (hop : ℕ × ℕ). at_key id_to_dpid hop.0) hops
    new_ports ← map_result (port_number port_numbers) (init hops)
    last_hop ← last_of hops
    last_hop_switch_dpid ← at_key id_to_dpid last_hop.0
    last_hop_egress_port ← get_host_port collector_ip_addr dns_server_ip hosts last_hop_switch_dpid
    ok (zip new_path new_ports ++ (last_hop_switch_dpid, last_hop_egress_port) ∷ [])

module _ {N : Number} (collector_ip_addr dns_server_ip : Text) (hosts : List Host)
    (id_to_dpid : Dict ℕ Text) (port_numbers : Dict ℕ (Dict ℕ ℕ)) where
  -- A flow of the dictionary; the new flow gets the key as its number.
  unfoldable pub add_mapped_flow :
      Dict ℕ (PortMirroringFlow N Text ℕ)
      → ℕ × PortMirroringFlow N ℕ ℕ
      → Result (Dict ℕ (PortMirroringFlow N Text ℕ))
  unfolding map_hops
  add_mapped_flow flows e = do
    hops ← map_hops collector_ip_addr dns_server_ip hosts id_to_dpid port_numbers e.1.hops
    ok (insert e.0 (record { flow_id = e.0; traffic_rate = e.1.traffic_rate; hops = hops }) flows)

module _ {N : Number} (id_to_dpid : Dict ℕ Text) (port_numbers : Dict ℕ (Dict ℕ ℕ)) where
  unfoldable pub map_solution :
      ℕ → Solutions N Text ℕ → PortMirroringSolution N ℕ ℕ → Result (Solutions N Text ℕ)
  map_solution switch_id solutions s = do
    dpid ← at_key id_to_dpid s.mirror_switch_id
    port ← port_number port_numbers (s.mirror_switch_id, s.mirror_switch_port)
    ok (
        append_to switch_id
          (record {
            mirror_switch_id = dpid;
            mirror_switch_port = port;
            objective_value = s.objective_value;
          })
          solutions)

  unfoldable pub map_solutions : Solutions N ℕ ℕ → Result (Solutions N Text ℕ)
  unfolding map_solution
  map_solutions solutions =
      fold_result
        (λ (d : Solutions N Text ℕ) (e : ℕ × List (PortMirroringSolution N ℕ ℕ)).
          fold_result (map_solution e.0) d e.1)
        [] solutions

module _ {N : Number} where
  -- `solutions.get(name, None)`, where the only key is the type of the trial.
  abbrev pub only_type : Text → Text → Solutions N Text ℕ → Option (Solutions N Text ℕ)
  only_type solution_type name solutions = if solution_type == name then some solutions else none

  -- The topology has been matched with the network already.
  unfoldable pub map_to_physical_network :
      Text
      → Text
      → List Link
      → List Host
      → Dict ℕ Text
      → PortMirroringTrial N ℕ ℕ
      → Result (PortMirroringTrial N Text ℕ)
  unfolding map_port_ids_to_nw_ports add_mapped_flow map_solutions
  map_to_physical_network collector_ip_addr dns_server_ip links hosts id_to_dpid t = do
    port_numbers ← map_port_ids_to_nw_ports links id_to_dpid t.mirroring_ports
    new_flows ←
        fold_result (add_mapped_flow collector_ip_addr dns_server_ip hosts id_to_dpid port_numbers)
          [] t.flows
    current ← or_raise t.solutions attribute_error
    new_solutions ← map_solutions id_to_dpid port_numbers current
    set_solution_type
        (make t.topology new_flows t.switches (only_type t.solution_type det new_solutions)
          (only_type t.solution_type df new_solutions)
          (only_type t.solution_type greedy new_solutions)
          (only_type t.solution_type optimal new_solutions)
          (only_type t.solution_type rnd new_solutions) t.duration t.name t.mirroring_ports)
        t.solution_type

-- `dict(zip(path, ports))`
abbrev pub dpid_ports : Dict Text ℕ → List (Text × ℕ) → Dict Text ℕ
dpid_ports d [] = d
dpid_ports d ((dpid, port) ∷ hops) = dpid_ports (insert dpid port d) hops

-- A pair of neighbours; a port that does not lead to the next switch is reported.
unfoldable pub check_pair :
    List Link → Dict Text ℕ → List (Text × Text) → Text × Text → Result (List (Text × Text))
check_pair links ports reported pair = do
  connecting ← get_ports_that_connect links pair.0 pair.1
  port ← or_raise (lookup pair.0 ports) key_error
  ok (if eqb connecting.0 port then reported else reported ++ pair ∷ [])

-- The pairs of neighbours that `verify_path_ports` prints for a flow.
unfoldable pub verify_path_ports : List Link → List (Text × ℕ) → Result (List (Text × Text))
unfolding check_pair
verify_path_ports links hops =
    fold_result (check_pair links (dpid_ports [] hops)) []
      (pairwise (map (λ (hop : Text × ℕ). hop.0) hops))

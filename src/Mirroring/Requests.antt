-- ===== src/Mirroring/Requests.antt =====
-- The requests of rest_client/port_mirroring/onos_rest_helpers.py. A body is given by its values, which
-- `json.dumps` writes; the controller answers a request, by the requests before it, with a token, or
-- with none for another status than 200.
pub mod Bodies
pub mod Routed
use cpsc_of_testbed.Base.{
  ℕ, List, [], ◌∷◌, ◌++◌, map, Bool, true, false, ◌&&◌, Option, none, some, Result, ok, raise,
  value_error, key_error, or_raise, last_of, init, ◌>>=◌, fold_result, map_result, add, length, eqb,
  nat_eq, if◌then◌else◌, ◌==◌,
}
use cpsc_of_testbed.Base.Dict.{Dict, lookup, insert}
use cpsc_of_testbed.Base.Dict.Groups.{append_to}
use cpsc_of_testbed.Base.Numbers.{Number}
use cpsc_of_testbed.Base.Text.{Text, text_eq}
use cpsc_of_testbed.Topology.Controller.{Link, Host, get_host_port}
use cpsc_of_testbed.Mirroring.Flow.{PortMirroringFlow}
use cpsc_of_testbed.Mirroring.Solution.{PortMirroringSolution}
use cpsc_of_testbed.Mirroring.Trial.{PortMirroringPorts, Solutions}
use cpsc_of_testbed.Mirroring.Definitions.{FlowDefinition, SolutionDefinition}
use cpsc_of_testbed.Mirroring.Physical.{at_key, row_of, port_number, map_port_ids_to_nw_ports}

pub record FlowBody : Type 0 where
  pub mirror_switch : Text
  pub tag_value : ℕ
  pub nodes : List Text

pub record PortsBody : Type 0 where
  pub nodes : List Text
  pub port_numbers : List ℕ
  pub tag_value : ℕ
  pub mirrored_ports : Dict Text (List ℕ)

-- `[id_to_dpid[node_id] for node_id in path]`
unfoldable pub create_path_json : Dict ℕ Text → List ℕ → Result (List Text)
create_path_json id_to_dpid path = map_result (at_key id_to_dpid) path

module _ {N : Number} (id_to_dpid : Dict ℕ Text) where
  unfoldable pub create_add_flow_mirroring_rules_request_json :
      FlowDefinition N → SolutionDefinition N → ℕ → Result FlowBody
  unfolding create_path_json
  create_add_flow_mirroring_rules_request_json flow_def solution_def tag_value = do
    mirror_switch ← at_key id_to_dpid solution_def.mirror_switch_id
    nodes ← create_path_json id_to_dpid flow_def.path
    ok (record { mirror_switch = mirror_switch; tag_value = tag_value; nodes = nodes })

module _ (collector_ip_addr dns_server_ip : Text) (hosts : List Host) (id_to_dpid : Dict ℕ Text)
    (port_numbers : Dict ℕ (Dict ℕ ℕ)) where
  -- The last port is that of the host.
  unfoldable pub create_port_numbers_json : List (ℕ × ℕ) → Result (List ℕ)
  create_port_numbers_json hops = do
    numbers ← map_result (port_number port_numbers) (init hops)
    last_hop ← last_of hops
    last_hop_switch_dpid ← at_key id_to_dpid last_hop.0
    last_hop_egress_port ← get_host_port collector_ip_addr dns_server_ip hosts last_hop_switch_dpid
    ok (numbers ++ last_hop_egress_port ∷ [])

module _ {N : Number} (id_to_dpid : Dict ℕ Text) (port_numbers : Dict ℕ (Dict ℕ ℕ)) where
  unfoldable pub add_mirrored_port :
      Dict Text (List ℕ) → PortMirroringSolution N ℕ ℕ → Result (Dict Text (List ℕ))
  add_mirrored_port mirrored s = do
    actual_port_number ← port_number port_numbers (s.mirror_switch_id, s.mirror_switch_port)
    mirror_switch_dpid ← at_key id_to_dpid s.mirror_switch_id
    ok (append_to mirror_switch_dpid actual_port_number mirrored)

  unfoldable pub create_mirrored_ports_json : Solutions N ℕ ℕ → Result (Dict Text (List ℕ))
  unfolding add_mirrored_port
  create_mirrored_ports_json solutions =
      fold_result
        (λ (d : Dict Text (List ℕ)) (e : ℕ × List (PortMirroringSolution N ℕ ℕ)).
          fold_result add_mirrored_port d e.1)
        [] solutions

module _ {N : Number} (collector_ip_addr dns_server_ip : Text) (hosts : List Host)
    (id_to_dpid : Dict ℕ Text) (port_numbers : Dict ℕ (Dict ℕ ℕ)) where
  unfoldable pub create_add_port_mirroring_rules_request_json :
      PortMirroringFlow N ℕ ℕ → Solutions N ℕ ℕ → ℕ → Result PortsBody
  unfolding create_mirrored_ports_json create_path_json create_port_numbers_json
  create_add_port_mirroring_rules_request_json flow_def solutions tag_value = do
    mirrored_ports ← create_mirrored_ports_json id_to_dpid port_numbers solutions
    nodes ← create_path_json id_to_dpid (map (λ (hop : ℕ × ℕ). hop.0) flow_def.hops)
    numbers ←
        create_port_numbers_json collector_ip_addr dns_server_ip hosts id_to_dpid port_numbers
          flow_def.hops
    ok (record {
      nodes = nodes;
      port_numbers = numbers;
      tag_value = tag_value;
      mirrored_ports = mirrored_ports;
    })

-- The loop over the flows, whatever the body: what was posted, and the tokens by flow. A flow whose
-- body or request fails ends it, while the requests before have been made.
module _ {F Body : Type 0} (body_of : ℕ → F → Result Body)
    (answer : List Body → Body → Option Text) where
  unfoldable pub request_mirroring :
      List Body → Dict ℕ Text → ℕ → Result Body → List Body × Result (Dict ℕ Text)
  request_mirroring posted flow_tokens flow_id (raise e) = (posted, raise e)
  request_mirroring posted flow_tokens flow_id (ok body) = elim (answer posted body) [
    | none ↦ (posted ++ body ∷ [], raise value_error)
    | some token ↦ (posted ++ body ∷ [], ok (insert flow_id token flow_tokens))
  ]

  abbrev pub go_on :
      (List Body → Dict ℕ Text → List Body × Result (Dict ℕ Text))
      → List Body × Result (Dict ℕ Text)
      → List Body × Result (Dict ℕ Text)
  go_on rest (posted, ok flow_tokens) = rest posted flow_tokens
  go_on rest (posted, raise e) = (posted, raise e)

  unfoldable pub request_all : List Body → Dict ℕ Text → Dict ℕ F → List Body × Result (Dict ℕ Text)
  unfolding request_mirroring
  request_all posted flow_tokens [] = (posted, ok flow_tokens)
  request_all posted flow_tokens ((flow_id, flow) ∷ flows) =
      go_on (λ p t. request_all p t flows)
        (request_mirroring posted flow_tokens flow_id (body_of flow_id flow))

module _ {N : Number} (answer : List FlowBody → FlowBody → Option Text) where
  unfoldable pub flow_body :
      Dict ℕ Text → Dict ℕ (SolutionDefinition N) → ℕ → FlowDefinition N → Result FlowBody
  unfolding create_add_flow_mirroring_rules_request_json
  flow_body id_to_dpid solutions flow_id flow = do
    solution_def ← at_key solutions flow_id
    create_add_flow_mirroring_rules_request_json id_to_dpid flow solution_def flow_id

  -- The topology has been matched with the network already.
  unfoldable pub add_flow_mirroring_flows :
      Dict ℕ Text
      → Dict ℕ (FlowDefinition N)
      → Dict ℕ (SolutionDefinition N)
      → List FlowBody × Result (Dict ℕ Text)
  unfolding request_all flow_body
  add_flow_mirroring_flows id_to_dpid flows solutions =
      request_all (flow_body id_to_dpid solutions) answer [] [] flows

-- `==` of two dictionaries: the same entries in any order.
abbrev pub all_in : Dict ℕ ℕ → Dict ℕ ℕ → Bool
all_in [] e = true
all_in ((k, v) ∷ d) e = elim (lookup k e) [ none ↦ false | some w ↦ eqb v w ] && all_in d e

abbrev pub same_row : Dict ℕ ℕ → Dict ℕ ℕ → Bool
same_row d e = eqb (length d) (length e) && all_in d e

module _ (id_to_dpid : Dict ℕ Text) (port_numbers : Dict ℕ (Dict ℕ ℕ)) where
  -- A hop of a flow; the rows are those of the switches with the numbers of the ports.
  unfoldable pub check_hop : ℕ → ℕ → Text → List ℕ → ℕ × ℕ → Result (List ℕ)
  check_hop flow_id port_id mirrored_dpid mirrored hop = do
    flow_dpid ← at_key id_to_dpid hop.0
    ok (
        if same_row (row_of port_numbers hop.1) (row_of port_numbers port_id)
          && flow_dpid == mirrored_dpid
        then add flow_id mirrored
        else mirrored)

module _ {N : Number} (id_to_dpid : Dict ℕ Text) (port_numbers : Dict ℕ (Dict ℕ ℕ)) where
  unfoldable pub check_solution :
      Dict ℕ (PortMirroringFlow N ℕ ℕ) → List ℕ → PortMirroringSolution N ℕ ℕ → Result (List ℕ)
  unfolding check_hop
  check_solution flows mirrored s = do
    mirrored_dpid ← at_key id_to_dpid s.mirror_switch_id
    fold_result
        (λ (m : List ℕ) (e : ℕ × PortMirroringFlow N ℕ ℕ).
          fold_result (check_hop id_to_dpid port_numbers e.0 s.mirror_switch_port mirrored_dpid) m
            e.1.hops)
        mirrored flows

  -- Whether the message says that all flows are mirrored.
  unfoldable pub verify_that_all_flows_are_mirrored :
      Dict ℕ (PortMirroringFlow N ℕ ℕ) → Solutions N ℕ ℕ → Result Bool
  unfolding check_solution
  verify_that_all_flows_are_mirrored flows solutions = do
    mirrored_flow_ids ←
        fold_result
          (λ (m : List ℕ) (e : ℕ × List (PortMirroringSolution N ℕ ℕ)).
            fold_result (check_solution flows) m e.1)
          [] solutions
    ok (eqb (length mirrored_flow_ids) (length flows))

-- The requests that follow the checks.
abbrev pub after_checks :
    Result (Dict ℕ (Dict ℕ ℕ))
    → (Dict ℕ (Dict ℕ ℕ) → List PortsBody × Result (Dict ℕ Text))
    → List PortsBody × Result (Dict ℕ Text)
after_checks (raise e) requests = ([], raise e)
after_checks (ok port_numbers) requests = requests port_numbers

module _ {N : Number} (answer : List PortsBody → PortsBody → Option Text)
    (collector_ip_addr dns_server_ip : Text) (links : List Link) (hosts : List Host) where
  unfoldable pub add_port_mirroring_flows :
      Dict ℕ Text
      → Dict ℕ (PortMirroringFlow N ℕ ℕ)
      → Solutions N ℕ ℕ
      → PortMirroringPorts
      → List PortsBody × Result (Dict ℕ Text)
  unfolding request_all create_add_port_mirroring_rules_request_json
      verify_that_all_flows_are_mirrored
  add_port_mirroring_flows id_to_dpid flows solutions mirroring_ports =
      after_checks
        (do
          port_numbers ← map_port_ids_to_nw_ports links id_to_dpid mirroring_ports
          said ← verify_that_all_flows_are_mirrored id_to_dpid port_numbers flows solutions
          ok port_numbers)
        (λ port_numbers.
          request_all
            (λ flow_id flow.
              create_add_port_mirroring_rules_request_json collector_ip_addr dns_server_ip hosts
                id_to_dpid port_numbers flow solutions flow_id)
            answer [] [] flows)

-- The tokens in their order, until the controller refuses one; what was posted is returned too.
module _ (accepts : List Text → Text → Bool) where
  unfoldable pub remove_port_mirroring_flows :
      List Text → Dict ℕ Text → List Text × Result (Unit {0})
  remove_port_mirroring_flows posted [] = (posted, ok tt)
  remove_port_mirroring_flows posted ((flow_id, flow_token) ∷ flow_tokens) =
      let rest = remove_port_mirroring_flows (posted ++ flow_token ∷ []) flow_tokens in
      if accepts posted flow_token then rest else (posted ++ flow_token ∷ [], raise value_error)

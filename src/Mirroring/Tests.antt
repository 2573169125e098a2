-- ===== src/Mirroring/Tests.antt =====
-- A trial with one flow through the switches 1 and 2, which the port 5 of the switch 1 and the port 6
-- of the switch 2 mirror.
use cpsc_of_testbed.Base.{
  Option, value_error, All, ℕ, ◌≡◌, ◌≢◌, refl, List, [], ◌∷◌, true, none, some, ok, raise, ◌>>=◌,
  key_error, fold_result, map_result, nat_eq, eqb, length,
}
use cpsc_of_testbed.Base.Dict.{Dict}
use cpsc_of_testbed.Base.Dict.Groups.{append_to}
use cpsc_of_testbed.Base.Numbers.{whole}
use cpsc_of_testbed.Base.Text.{Text, codes, read_nat, text_eq}
use cpsc_of_testbed.Base.Text.Floats.{whole_format}
use cpsc_of_testbed.Base.Text.Words.{whole-IsPrinted}
use cpsc_of_testbed.Topology.Controller.{Link, Host, get_ports_that_connect, get_host_port}
use cpsc_of_testbed.Mirroring.Flow.{PortMirroringFlow}
use cpsc_of_testbed.Mirroring.Flow.Saved.{reread}
use cpsc_of_testbed.Mirroring.Switch.{PortMirroringSwitch, get_port}
use cpsc_of_testbed.Mirroring.Trial.{
  PortMirroringTrial, PortMirroringPorts, PortsFormat, Solutions, make, det, df, greedy, optimal,
  rnd, get_port_connecting, get_solution_of_type, is_solution_type, mirrored_for,
  verify_trial_state,
}
use cpsc_of_testbed.Mirroring.Trial.Files.{of_type, build_results_files, from_repository_files}
use cpsc_of_testbed.Mirroring.Trial.Kept.{verify_trial_state-last}
use cpsc_of_testbed.Mirroring.Trial.Saved.{IsSavable, from_repository_files-build_results_files}
use cpsc_of_testbed.Mirroring.Provider.{port_trial, iterate}
use cpsc_of_testbed.Mirroring.Provider.Visits.{after_types, expected, iterate-expected}
use cpsc_of_testbed.Mirroring.Physical.{map_port_ids_to_nw_ports, map_hops, verify_path_ports}
use cpsc_of_testbed.Mirroring.Requests.{
  PortsBody, create_path_json, create_port_numbers_json, add_port_mirroring_flows,
}
use cpsc_of_testbed.Mirroring.Requests.Routed.{IsRequest, add_port_mirroring_flows-IsRouted}
use cpsc_of_testbed.Mirroring.Physical.Routed.{IsRouted, map_hops-IsRouted}

program : Unit {0}
unfolding fold_result map_result read_nat get_port get_port_connecting get_solution_of_type
    is_solution_type verify_trial_state get_ports_that_connect get_host_port
    map_port_ids_to_nw_ports map_hops verify_path_ports append_to create_path_json
    create_port_numbers_json add_port_mirroring_flows
program = tt

cons-ne-nil : {A : Type 0} {x : A} {xs : List A} → (x ∷ xs) ≢ []
cons-ne-nil e = cc

abbrev flow : PortMirroringFlow whole ℕ ℕ
flow = record { flow_id = 0; traffic_rate = 100; hops = (1, 5) ∷ (2, 6) ∷ [] }

abbrev switches : Dict ℕ (PortMirroringSwitch whole)
switches =
    (
      1,
      record {
        switch_id = 1;
        ports = record { port_id = 5; flow_rate = 100; flow_list = 0 ∷ [] } ∷ [];
      },
    )
    ∷ (
      2,
      record {
        switch_id = 2;
        ports =
            record { port_id = 6; flow_rate = 100; flow_list = 0 ∷ [] }
            ∷ record { port_id = 7; flow_rate = 0; flow_list = [] }
            ∷ [];
      },
    )
    ∷ []

abbrev mirror : ℕ → ℕ → Solutions whole ℕ ℕ
mirror switch port =
    (
      switch,
      record { mirror_switch_id = switch; mirror_switch_port = port; objective_value = 100 } ∷ [],
    )
    ∷ []

abbrev mirroring_ports : PortMirroringPorts
mirroring_ports = record { port_map = (1, (2, 5) ∷ []) ∷ (2, (1, 6) ∷ []) ∷ [] }

-- The deterministic solution mirrors no flow.
abbrev trial : PortMirroringTrial whole ℕ ℕ
trial =
    make (codes "2\n1\n1 2") ((0, flow) ∷ []) switches (some (mirror 2 7)) (some (mirror 1 5))
      (some (mirror 1 5)) (some (mirror 2 6)) (some (mirror 1 5)) 60 (codes "t") mirroring_ports

deterministic_mirrors_nothing : mirrored_for trial det ≡ ok []
unfolding program
deterministic_mirrors_nothing = refl

-- The trial passes the check all the same.
verify_trial_state-last_example :
    (m : List ℕ) × (mirrored_for trial rnd ≡ ok m) × (true ≡ eqb (length m) 1)
unfolding program
verify_trial_state-last_example =
    verify_trial_state-last trial (det ∷ df ∷ greedy ∷ optimal ∷ []) rnd refl refl

iterate-expected_example :
    iterate (record { provider_name = codes "p"; trials = port_trial trial ∷ [] })
    ≡ ok (
      expected (trial ∷ []),
      record {
        provider_name = codes "p";
        trials = port_trial (after_types trial trial.solution_types) ∷ [];
      },
    )
unfolding program
iterate-expected_example =
    iterate-expected (codes "p") (trial ∷ []) ((refl, (refl, (refl, (refl, (refl, tt))))), tt)

-- One text for the ports of the trial.
abbrev ports_format : PortsFormat
ports_format = record {
  show_ports = λ m. codes "{1: {2: 5}, 2: {1: 6}}";
  read_ports = λ s. ok mirroring_ports.port_map;
}

trial-IsSavable : IsSavable whole_format ports_format trial (mirror 2 6) 100
trial-IsSavable = record {
  current = refl;
  flows_IsFlow =
      ((record { has_hop = cons-ne-nil; rate_IsPrinted = whole-IsPrinted 100 }, refl), tt);
  flows_IsUnique = (refl, tt);
  switches_IsSwitch = (
    (cons-ne-nil, (whole-IsPrinted 100, tt), refl),
    ((cons-ne-nil, (whole-IsPrinted 100, (whole-IsPrinted 0, tt)), refl), tt),
  );
  switches_IsUnique = (refl, (refl, tt));
  objective_IsPrinted = whole-IsPrinted 100;
  has_solution = cons-ne-nil;
  solutions_IsSolved = ((cons-ne-nil, ((refl, refl), tt)), tt);
  solutions_IsUnique = (refl, tt);
  ports_read_back = refl;
}

from_repository_files-build_results_files_example :
    (build_results_files whole_format ports_format trial (codes "{}") >>= λ files.
    from_repository_files whole_format ports_format files greedy 60 (codes "t"))
    ≡ ok (
        of_type greedy (
          make trial.topology
            ((0, reread whole_format flow) ∷ [])
            switches
            none
            none
            (some (mirror 2 6))
            none
            none
            60
            (codes "t")
            mirroring_ports))
unfolding program
from_repository_files-build_results_files_example =
    from_repository_files-build_results_files whole_format ports_format trial (mirror 2 6) 100
      (codes "{}") greedy 60 (codes "t") trial-IsSavable refl

-- The same flow read again, which seems to visit the switch 6.
one_hop_more : (reread whole_format flow).hops ≡ (1, 5) ∷ (2, 6) ∷ (6, 0) ∷ []
one_hop_more = refl

abbrev link : Text → Text → Text → Text → Link
link source source_port destination destination_port = record {
  src_device = source;
  src_port = source_port;
  dst_device = destination;
  dst_port = destination_port;
  type = codes "DIRECT";
}

abbrev links : List Link
links =
    link (codes "of:1") (codes "11") (codes "of:2") (codes "12")
    ∷ link (codes "of:2") (codes "12") (codes "of:1") (codes "11")
    ∷ []

abbrev hosts : List Host
hosts =
    record { ip_addresses = codes "10.0.0.2" ∷ []; locations = (codes "of:2", codes "3") ∷ [] } ∷ []

abbrev id_to_dpid : Dict ℕ Text
id_to_dpid = (1, codes "of:1") ∷ (2, codes "of:2") ∷ []

-- The port of the topology by its number in the network.
abbrev port_numbers : Dict ℕ (Dict ℕ ℕ)
port_numbers = (1, (5, 11) ∷ []) ∷ (2, (6, 12) ∷ []) ∷ []

abbrev mapped : List (Text × ℕ)
mapped = (codes "of:1", 11) ∷ (codes "of:2", 3) ∷ []

nothing_is_reported : verify_path_ports links mapped ≡ ok []
unfolding program
nothing_is_reported = refl

unknown_switch_raises :
    map_hops [] [] hosts id_to_dpid port_numbers ((3, 5) ∷ (2, 6) ∷ []) ≡ raise key_error
unfolding program
unknown_switch_raises = refl

map_hops-IsRouted_example : IsRouted [] [] links hosts id_to_dpid ((1, 5) ∷ (2, 6) ∷ []) mapped
unfolding program
map_hops-IsRouted_example =
    map_hops-IsRouted links id_to_dpid mirroring_ports [] [] hosts port_numbers (1, 5) ((2, 6) ∷ [])
      mapped
      (record {
        switches_IsUnique = (refl, (refl, tt));
        ports_IsUnique = ((refl, tt), ((refl, tt), tt));
      })
      (refl, tt) refl refl

-- The controller answers the first request only.
abbrev answer_once : List PortsBody → PortsBody → Option Text
answer_once [] body = some (codes "token")
answer_once (b ∷ bs) body = none

-- The same flow twice.
abbrev two_flows : Dict ℕ (PortMirroringFlow whole ℕ ℕ)
two_flows = (0, flow) ∷ (1, flow) ∷ []

abbrev request : ℕ → PortsBody
request tag = record {
  nodes = codes "of:1" ∷ codes "of:2" ∷ [];
  port_numbers = 11 ∷ 3 ∷ [];
  tag_value = tag;
  mirrored_ports = (codes "of:2", 12 ∷ []) ∷ [];
}

-- The second request fails after it was posted, and the token of the first is lost.
refused_request_raises :
    add_port_mirroring_flows answer_once [] [] links hosts id_to_dpid two_flows
      (mirror 2 6)
      mirroring_ports
    ≡ (request 0 ∷ request 1 ∷ [], raise value_error)
unfolding program
refused_request_raises = refl

add_port_mirroring_flows-IsRouted_example :
    All (IsRequest answer_once [] [] links hosts id_to_dpid two_flows) (request 0 ∷ request 1 ∷ [])
unfolding program
add_port_mirroring_flows-IsRouted_example =
    add_port_mirroring_flows-IsRouted answer_once [] [] links hosts id_to_dpid two_flows
      (mirror 2 6) mirroring_ports
      (record {
        switches_IsUnique = (refl, (refl, tt));
        ports_IsUnique = ((refl, tt), ((refl, tt), tt));
      })
      ((refl, tt), ((refl, tt), tt))

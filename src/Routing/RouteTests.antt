-- ===== src/Routing/RouteTests.antt =====
-- Two routes over three switches, whose numbers are 10 more than those of the nodes.
use cpsc_of_testbed.Base.{
  Option, some, ℕ, ◌≡◌, refl, List, [], ◌∷◌, ◌+◌, ok, raise, Result, length, fold_result, nat_eq,
}
use cpsc_of_testbed.Base.Dict.{Dict}
use cpsc_of_testbed.Routing.Orchestrator.{Mapper, RouteAdder, make, install_routes, remove_routes}
use cpsc_of_testbed.Routing.Orchestrator.Installed.{rules_at, remove_routes-install_routes}
use cpsc_of_testbed.Base.Numbers.{whole}
use cpsc_of_testbed.Routing.Trial.{FlowPath, Flow}
use cpsc_of_testbed.Routing.Tags
use cpsc_of_testbed.Routing.Tags.{Body, Adder}
use cpsc_of_testbed.Routing.Tags.Counted.{tags_of, install_routes-tags}

program : Unit {0}
unfolding fold_result install_routes remove_routes
program = tt

abbrev mapper : Mapper
mapper = record { resolve = λ sw. ok "10.0.0.1"; map_sw_to_dpid = λ sw. ok (sw + 10) }

-- The links 0-1 and 1-2; there is none from 2 to 0.
abbrev adj_mat : Dict ℕ (Dict ℕ ℕ)
adj_mat = (10, (11, 1) ∷ []) ∷ (11, (10, 1) ∷ (12, 2) ∷ []) ∷ (12, (11, 1) ∷ []) ∷ []

abbrev routes : List (ℕ × List ℕ)
routes = (0, 0 ∷ 1 ∷ 2 ∷ []) ∷ (1, 1 ∷ 2 ∷ 0 ∷ []) ∷ []

abbrev adder_of : Result RouteAdder → RouteAdder
adder_of (ok s) = s
adder_of (raise e) = make

abbrev adder : RouteAdder
adder = adder_of (install_routes mapper adj_mat make routes)

-- Three rules, of which two are on the switch 11; the hop without a link is left out.
rules_pushed : (length adder.pushed ≡ 3) × (length (rules_at 11 adder.pushed) ≡ 2)
unfolding program
rules_pushed = (refl, refl)

remove_routes-install_routes_example :
    rules_at 11 (remove_routes adder).removed ≡ rules_at 11 adder.pushed
unfolding program
remove_routes-install_routes_example =
    remove_routes-install_routes mapper adj_mat routes adder refl 11

-- Two flows from 0 to 2, and one back, with two, one and one paths.
abbrev tag_flow : ℕ → ℕ → List (FlowPath whole) → Flow whole
tag_flow s t paths = record {
  source_node = s;
  destination_node = t;
  paths = paths;
  rate = 1;
  variance = 0;
  actual_tx_rates = [];
}

abbrev direct : ℕ → ℕ → FlowPath whole
direct s t = record { nodes = s ∷ t ∷ []; fraction = 1 }

abbrev tag_flows : List (Flow whole)
tag_flows =
    tag_flow 0 2 (direct 0 2 ∷ record { nodes = 0 ∷ 1 ∷ 2 ∷ []; fraction = 0 } ∷ [])
    ∷ tag_flow 2 0 (direct 2 0 ∷ [])
    ∷ tag_flow 0 2 (direct 0 2 ∷ [])
    ∷ []

-- ONOS answers each request with the number of the requests before.
abbrev switch : ℕ → Result ℕ
switch sw = ok (sw + 10)

abbrev onos : List Body → Body → Option ℕ
onos posted body = some (length posted)

abbrev empty_adder : Adder
empty_adder = record {
  tag_values = [];
  tag_counters = [];
  installed_route_tokens = [];
  posted = [];
}

abbrev onos_adder_of : Result Adder → Adder
onos_adder_of (ok s) = s
onos_adder_of (raise e) = empty_adder

tag_program : Unit {0}
unfolding fold_result Tags.install_routes
tag_program = tt

abbrev onos_adder : Adder
onos_adder = onos_adder_of (Tags.install_routes whole switch onos [] [] tag_flows)

tag_values_are : onos_adder.tag_values ≡ (0, 1 ∷ 2 ∷ []) ∷ (1, 1 ∷ []) ∷ (2, 3 ∷ []) ∷ []
unfolding tag_program
tag_values_are = refl

install_routes-tags_example :
    tags_of whole switch onos (0, 2) 0 tag_flows onos_adder.tag_values ≡ 1 ∷ 2 ∷ 3 ∷ []
unfolding tag_program
install_routes-tags_example =
    install_routes-tags whole switch onos [] [] tag_flows onos_adder refl (0, 2)

-- ===== src/Routing/Orchestrator.antt =====
-- `MPRouteAdder` of rest_client/mp_routing/multipath_orchestrator.py. The object that talks to the
-- controller is an argument of the class: what is pushed to it and removed by it is recorded here. The
-- mapper is one too: the addresses of the hosts and the numbers of the switches are a parameter.
pub mod Installed
use cpsc_of_testbed.Base.{
  ℕ, suc, List, [], ◌∷◌, ◌++◌, map, Option, none, some, Result, ok, raise, index_error, or_raise,
  ◌>>=◌, fold_result, pairwise, String, nat_eq, string_eq,
}
use cpsc_of_testbed.Base.Dict.{Dict, lookup, insert}
use cpsc_of_testbed.Openflow.Flowmod.{
  Flowmod, Match, make_match, add_criteria, eth_type, ipv4_src, ipv4_dst, ip_dscp, ip_proto, number,
  text, make_flowmod, add_match, add_action, output,
}

-- `resolve_hostname(map_sw_to_host(switch))` and `map_sw_to_dpid(switch)`, which can raise.
pub record Mapper : Type 0 where
  pub resolve : ℕ → Result String
  pub map_sw_to_dpid : ℕ → Result ℕ

pub record RouteAdder : Type 0 where
  pub installed_routes : Dict ℕ (List Flowmod)
  -- What the controller was told, in order: the switch, and the rule.
  pub pushed : List (ℕ × Flowmod)
  pub removed : List (ℕ × Flowmod)

abbrev pub make : RouteAdder
make = record { installed_routes = []; pushed = []; removed = [] }

abbrev pub calculate_dscp_value : ℕ → ℕ
calculate_dscp_value flow_num = suc flow_num

-- `adj_mat[src][dst]`, where a missing key is caught.
abbrev pub out_port : Dict ℕ (Dict ℕ ℕ) → ℕ → ℕ → Option ℕ
out_port adj_mat src dst = elim (lookup src adj_mat) [ none ↦ none | some row ↦ lookup dst row ]

-- The rule for one hop.
unfoldable pub rule : String → String → ℕ → ℕ → ℕ → Flowmod
unfolding add_criteria add_match add_action
rule src_ip dst_ip dscp_val dpid port =
    let criteria =
      add_criteria
        (add_criteria
          (add_criteria (add_criteria (make_match eth_type (number 2048)) ipv4_src (text src_ip))
            ipv4_dst (text dst_ip))
          ip_dscp (number dscp_val))
        ip_proto (number 17) in
    add_action (add_match (make_flowmod dpid (some 240) (some 100) (some 20)) criteria)
      (record { action_type = output; action_values = ("port", number port) ∷ [] })

-- An entry of a `defaultdict(list)`.
abbrev pub or_empty : Option (List Flowmod) → List Flowmod
or_empty none = []
or_empty (some rules) = rules

-- Push the rule, and save it so that it can be removed.
abbrev pub save : RouteAdder → ℕ → Flowmod → RouteAdder
save s dpid r = record {
  installed_routes =
      insert dpid (or_empty (lookup dpid s.installed_routes) ++ r ∷ []) s.installed_routes;
  pushed = s.pushed ++ (dpid, r) ∷ [];
  removed = s.removed;
}

-- A hop without a link is left out.
abbrev pub push_hop : (ℕ → Flowmod) → RouteAdder → ℕ → Option ℕ → RouteAdder
push_hop rule_for s dpid none = s
push_hop rule_for s dpid (some port) = save s dpid (rule_for port)

-- `xs[0]` and `xs[-1]`
abbrev pub first : List ℕ → Result ℕ
first [] = raise index_error
first (x ∷ xs) = ok x

abbrev pub last : List ℕ → Result ℕ
last [] = raise index_error
last (x ∷ []) = ok x
last (x ∷ y ∷ ys) = last (y ∷ ys)

module _ (m : Mapper) (adj_mat : Dict ℕ (Dict ℕ ℕ)) where
  -- One hop.
  unfoldable pub install_hop : String → String → ℕ → RouteAdder → ℕ × ℕ → Result RouteAdder
  unfolding rule
  install_hop src_ip dst_ip dscp_val s hop = do
    src_dpid ← m.map_sw_to_dpid hop.0
    dst_dpid ← m.map_sw_to_dpid hop.1
    ok (
        push_hop (rule src_ip dst_ip dscp_val src_dpid) s src_dpid
          (out_port adj_mat src_dpid dst_dpid))

  unfoldable pub install_route : RouteAdder → List ℕ → ℕ → Result RouteAdder
  unfolding fold_result install_hop
  install_route s route dscp_val = do
    src_sw ← first route
    dst_sw ← last route
    src_ip ← m.resolve src_sw
    dst_ip ← m.resolve dst_sw
    fold_result (install_hop src_ip dst_ip dscp_val) s (pairwise route)

  -- The routes of the provider, each with its index.
  unfoldable pub install_routes : RouteAdder → List (ℕ × List ℕ) → Result RouteAdder
  unfolding install_route
  install_routes s routes =
      fold_result (λ s r. install_route s r.1 (calculate_dscp_value r.0)) s routes

-- Remove the rules of each switch.
abbrev pub rules_of : Dict ℕ (List Flowmod) → List (ℕ × Flowmod)
rules_of [] = []
rules_of ((dpid, rules) ∷ d) = map (λ r. (dpid, r)) rules ++ rules_of d

unfoldable pub remove_routes : RouteAdder → RouteAdder
remove_routes s = record {
  installed_routes = s.installed_routes;
  pushed = s.pushed;
  removed = s.removed ++ rules_of s.installed_routes;
}

-- ===== src/Routing/Tags.antt =====
-- `OnosRouteAdder` of rest_client/mp_routing/onos_route_adder.py: each path gets a tag, counted for each
-- pair of a source and a destination. ONOS is a parameter: given what was posted before, it answers a
-- request with the token of the route, or with another status than 200.
pub mod Effect
pub mod Counted
use cpsc_of_testbed.Base.{
  ℕ, suc, List, [], ◌∷◌, ◌++◌, Option, none, some, Result, ok, raise, key_error, type_error,
  or_raise, ◌>>=◌, fold_result, map_result, enumerate, add, nat_eq, pair_eq,
}
use cpsc_of_testbed.Base.Dict.{Dict, lookup, insert}
use cpsc_of_testbed.Base.Numbers.{Number}
use cpsc_of_testbed.Routing.Trial.{FlowPath, Flow}

abbrev pub Pair : Type 0
Pair = ℕ × ℕ

-- The nodes of a path as switches, with its tag.
abbrev pub Body : Type 0
Body = List (List ℕ × ℕ)

pub record Adder : Type 0 where
  pub tag_values : Dict ℕ (List ℕ)
  pub tag_counters : Dict Pair ℕ
  pub installed_route_tokens : List ℕ
  pub posted : List Body

-- `defaultdict(lambda: 1)`
abbrev pub counter_in : Option ℕ → ℕ
counter_in none = 1
counter_in (some n) = n

abbrev pub counter : Adder → Pair → ℕ
counter s q = counter_in (lookup q s.tag_counters)

abbrev pub with_tags : Adder → ℕ → List ℕ → Adder
with_tags s route_id tags = record {
  tag_values = insert route_id tags s.tag_values;
  tag_counters = s.tag_counters;
  installed_route_tokens = s.installed_route_tokens;
  posted = s.posted;
}

-- One tag more for the route, and the next one for the pair.
abbrev pub tagged : Adder → ℕ → Pair → List ℕ → Adder
tagged s route_id q old = record {
  tag_values = insert route_id (old ++ counter s q ∷ []) s.tag_values;
  tag_counters = insert q (suc (counter s q)) s.tag_counters;
  installed_route_tokens = s.installed_route_tokens;
  posted = s.posted;
}

abbrev pub answered : Adder → Body → ℕ → Adder
answered s body token = record {
  tag_values = s.tag_values;
  tag_counters = s.tag_counters;
  installed_route_tokens = add token s.installed_route_tokens;
  posted = s.posted ++ body ∷ [];
}

module _ (N : Number) (map_sw_to_dpid : ℕ → Result ℕ) (answer : List Body → Body → Option ℕ) where
  -- The ends of a flow.
  abbrev pub pair_of : Flow N → Pair
  pair_of f = (f.source_node, f.destination_node)

  unfoldable pub tag_path : ℕ → Pair → Adder × Body → FlowPath N → Result (Adder × Body)
  unfolding map_result
  tag_path route_id q s p = do
    dpids ← map_result map_sw_to_dpid p.nodes
    old ← or_raise (lookup route_id s.0.tag_values) key_error
    ok (tagged s.0 route_id q old, s.1 ++ (dpids, counter s.0 q) ∷ [])

  -- The message of the ValueError for another status has one placeholder too many: a TypeError.
  unfoldable pub install_route : Adder → ℕ × Flow N → Result Adder
  unfolding fold_result tag_path
  install_route s f = do
    t ← fold_result (tag_path f.0 (pair_of f.1)) (with_tags s f.0 [], []) f.1.paths
    token ← or_raise (answer t.0.posted t.1) type_error
    ok (answered t.0 t.1 token)

  -- With the tokens that the object has already.
  unfoldable pub install_routes : List ℕ → List Body → List (Flow N) → Result Adder
  unfolding install_route
  install_routes tokens posted flows =
      fold_result install_route
        (record {
          tag_values = [];
          tag_counters = [];
          installed_route_tokens = tokens;
          posted = posted;
        })
        (enumerate flows)

-- ===== src/Simulator/Attacker/Selection.antt =====
-- `select_monitored_nodes` of each class of attackers.py. `nodes` are the keys that the caller
-- iterates over; a draw of numpy's generator takes the next number.
use Prim.Native.Nat.{bit_and}
use cpsc_of_testbed.Base.{
  ℕ, suc, List, [], ◌∷◌, ◌++◌, map, Option, none, some, not, ◌&&◌, ◌||◌, eqb, leb, ltb, nat_eq,
  length, filter, contains, add_all, get_elem?, Result, ok, raise, key_error, value_error,
  index_error, ◌>>=◌, or_raise, map_result, if◌then◌else◌, range,
}
use cpsc_of_testbed.Base.Dict.{Dict, lookup}
use cpsc_of_testbed.Base.Sorting.{sort_by}
use cpsc_of_testbed.Simulator.Flow.{Flow}
use cpsc_of_testbed.Simulator.Random.{Random, sample, sample_one}
use cpsc_of_testbed.Simulator.Attacker.{
  Attacker, Class, random_node, random_path, ideal_path, one_node_per_path, fixed, planned, total,
  make, hop_due, interior,
}

-- The nodes are watched from now on, and the hop is counted.
abbrev pub hop_to : Attacker → List ℕ → Attacker
hop_to a nodes = record a { monitored_nodes = add_all [] nodes; hop_count = suc a.hop_count }

abbrev target : Dict ℕ Flow → Result Flow
target flows = or_raise (lookup 0 flows) key_error

-- `sorted` of numbers.
abbrev sorted : List ℕ → List ℕ
sorted = sort_by (λ x. x)

-- `p[1]`
abbrev second : List ℕ → Result ℕ
second p = or_raise (get_elem? p 1) index_error

abbrev path_interiors : Dict ℕ Flow → Option (List (List ℕ)) → Result (List (List ℕ))
path_interiors flows none = target flows >>= λ f. ok (map interior f.paths)
path_interiors flows (some c) = ok c

module _ (r : Random) where
  -- The test of the hop, and the hop to K of the candidates.
  unfoldable pub hop_if_due : Attacker → List ℕ → ℕ → ℕ → Result (Attacker × ℕ)
  unfolding sample hop_due
  hop_if_due a candidates time draw = do
    due ← hop_due a.hop_period time
    if due then (sample r draw candidates a.k >>= λ c. ok (hop_to a c.0, c.1)) else ok (a, draw)

  node_candidates : Attacker → List ℕ → Dict ℕ Flow → Result (List ℕ)
  node_candidates a nodes flows = elim a.node_collection [
    | some c ↦ ok c
    | none ↦ target flows >>= λ f.
        ok (sorted (filter (λ n. not (eqb n f.source_node) && not (eqb n f.sink_node)) nodes))
  ]

  -- `RandomNodeHoppingAttacker`
  unfoldable pub select_random_node :
      Attacker → List ℕ → Dict ℕ Flow → ℕ → ℕ → Result (Attacker × ℕ)
  unfolding node_candidates hop_if_due
  select_random_node a nodes flows time draw = do
    candidates ← node_candidates a nodes flows
    hop_if_due (record a { node_collection = some candidates }) candidates time draw

  path_candidates : Attacker → Flow → Result (List ℕ)
  unfolding map_result
  path_candidates a f = elim a.node_collection [
    | some c ↦ ok c
    | none ↦ map_result second (filter (λ p. ltb 2 (length p)) f.paths)
  ]

  -- `RandomPathHoppingAttacker`: the first node after the source of each path that has one.
  unfoldable pub select_random_path : Attacker → Dict ℕ Flow → ℕ → ℕ → Result (Attacker × ℕ)
  unfolding path_candidates hop_if_due
  select_random_path a flows time draw = do
    f ← target flows
    unsorted ← path_candidates a f
    let candidates = sorted unsorted
    hop_if_due (record a { node_collection = some candidates }) candidates time draw

  nodes_of : List (List ℕ) → List ℕ → List ℕ
  nodes_of paths [] = []
  nodes_of paths (i ∷ is) = elim (get_elem? paths i) [ none ↦ [] | some p ↦ p ] ++ nodes_of paths is

  -- `IdealRandomPathHoppingAttacker`: all inner nodes of K paths.
  unfoldable pub select_ideal : Attacker → Dict ℕ Flow → ℕ → ℕ → Result (Attacker × ℕ)
  unfolding sample nodes_of hop_due
  select_ideal a flows time draw = do
    _ ← target flows
    paths ← path_interiors flows a.path_collection
    let b = record a { path_collection = some paths }
    due ← hop_due a.hop_period time
    if due
        then (sample r draw (range (length paths)) a.k >>= λ c.
            ok (hop_to b (nodes_of paths c.0), c.1))
        else ok (b, draw)

  -- One node of each path, by one draw each.
  one_of_each : List (List ℕ) → List ℕ → ℕ → Result (List ℕ × ℕ)
  unfolding sample_one
  one_of_each paths [] draw = ok ([], draw)
  one_of_each paths (i ∷ is) draw = do
    p ← or_raise (get_elem? paths i) index_error
    first ← sample_one r draw p
    rest ← one_of_each paths is first.1
    ok (first.0 ∷ rest.0, rest.1)

  unfoldable pub hop_to_k_paths : Attacker → List (List ℕ) → ℕ → Result (List ℕ × ℕ)
  unfolding sample one_of_each
  hop_to_k_paths a paths draw = do
    k_paths ← sample r draw (range (length paths)) a.k
    one_of_each paths k_paths.0 k_paths.1

  -- `OneNodePerPathAttacker`: the test is `simulation_time & self._hop_period == 0`.
  unfoldable pub select_one_node : Attacker → Dict ℕ Flow → ℕ → ℕ → Result (Attacker × ℕ)
  unfolding hop_to_k_paths
  select_one_node a flows time draw = do
    _ ← target flows
    paths ← path_interiors flows a.path_collection
    let b = record a { path_collection = some paths }
    if eqb (bit_and time a.hop_period) 0
        then (hop_to_k_paths b paths draw >>= λ c. ok (hop_to b c.0, c.1))
        else ok (b, draw)

  -- `FixedAttacker`: the nodes of the first call stay.
  unfoldable pub select_fixed : Attacker → Dict ℕ Flow → ℕ → Result (Attacker × ℕ)
  unfolding hop_to_k_paths
  select_fixed a flows draw = do
    _ ← target flows
    paths ← path_interiors flows a.path_collection
    let b = record a { path_collection = some paths }
    elim a.path_collection [
      | some c ↦ ok (a, draw)
      | none ↦
          hop_to_k_paths b paths draw >>= λ c. ok (record (hop_to b c.0) { hop_count = 1 }, c.1)
    ]

  longest : List (List ℕ) → ℕ
  longest [] = 0
  longest (p ∷ ps) = let rest = longest ps in if ltb rest (length p) then length p else rest

  -- The start over of `PlannedAttacker`; `max` of no paths raises ValueError.
  unfoldable pub start_over : Attacker → Flow → Result Attacker
  unfolding longest
  start_over a f = elim f.paths [
    | [] ↦ raise value_error
    | p ∷ ps ↦ ok (
        if leb (longest (p ∷ ps)) a.hop_index || eqb (length a.monitored_paths) a.n
        then record a { hop_index = 1; active_paths = []; monitored_paths = [] }
        else a)
  ]

  -- `PlannedAttacker`: the nodes at one hop, of the paths not yet monitored.
  unfoldable pub hop_planned : Attacker → Flow → ℕ → Result (Attacker × ℕ)
  unfolding sample map_result
  hop_planned a f draw = do
    nodes_at_hop ← map_result (λ p. or_raise (get_elem? p a.hop_index) index_error) f.paths
    monitored_paths ← map_result (λ i. or_raise (get_elem? f.paths i) index_error) a.monitored_paths
    monitored_at_hop ←
        map_result (λ p. or_raise (get_elem? p a.hop_index) index_error) monitored_paths
    let possible = filter (λ u. not (contains u monitored_at_hop)) (add_all [] nodes_at_hop)
    if leb (length possible) a.k
        then ok (record a { monitored_nodes = possible }, draw)
        else sample r draw possible a.k >>= λ c. ok (record a { monitored_nodes = c.0 }, c.1)

  unfoldable pub select_planned : Attacker → Dict ℕ Flow → ℕ → ℕ → Result (Attacker × ℕ)
  unfolding start_over hop_planned hop_due
  select_planned a flows time draw = do
    f ← target flows
    due ← hop_due a.hop_period time
    (b, next) ← if due then (start_over a f >>= λ a'. hop_planned a' f draw) else ok (a, draw)
    ok (record b { hop_index = suc b.hop_index }, next)

  -- `TotalAttacker`: the second node of every path.
  unfoldable pub select_total : Attacker → Dict ℕ Flow → ℕ → Result (Attacker × ℕ)
  unfolding map_result
  select_total a flows draw =
      if eqb (length a.monitored_nodes) 0
      then (target flows >>= λ f. map_result second f.paths >>= λ nodes.
          ok (record a { monitored_nodes = add_all [] nodes }, draw))
      else ok (a, draw)

  unfoldable pub select_monitored_nodes :
      Attacker → List ℕ → Dict ℕ Flow → ℕ → ℕ → Result (Attacker × ℕ)
  select_monitored_nodes a nodes flows time draw = elim a.class [
    | random_node ↦ select_random_node a nodes flows time draw
    | random_path ↦ select_random_path a flows time draw
    | ideal_path ↦ select_ideal a flows time draw
    | one_node_per_path ↦ select_one_node a flows time draw
    | fixed ↦ select_fixed a flows draw
    | planned ↦ select_planned a flows time draw
    | total ↦ select_total a flows draw
  ]

  -- `create`: the first selection is at time 1, that of `PlannedAttacker` at time 0.
  unfoldable pub create : Class → ℕ → ℕ → List ℕ → Dict ℕ Flow → ℕ → ℕ → Result (Attacker × ℕ)
  unfolding make
  create class n k nodes flows hop_period draw =
      select_monitored_nodes (make class n k hop_period) nodes flows
        (elim class [ planned ↦ 0 | _ ↦ 1 ]) draw

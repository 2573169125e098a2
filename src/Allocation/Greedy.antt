-- ===== src/Allocation/Greedy.antt =====
-- `compute_greedy_flow_allocations` of rest_client/path_hopping/flow_allocation.py, and the two
-- allocations over K shortest paths beside it. The random draws come as a list of requests, and
-- networkx's paths with them: the loop of the source runs over them until one does not fit.
pub mod Placing
pub mod Outcome
use cpsc_of_testbed.Base.{
  ℕ, List, [], ◌∷◌, ◌++◌, map, Bool, true, false, some, Result, ok, raise, key_error, zero_division,
  or_raise, ◌>>=◌, if◌then◌else◌, pairwise, length, replicate, pair_eq, leb,
}
use cpsc_of_testbed.Base.Dict.{Dict, lookup, insert}
use cpsc_of_testbed.Base.Numbers.{Number, zero_num, one_num}
use cpsc_of_testbed.Allocation.Flow.{Flow}

abbrev pub Link : Type 0
Link = ℕ × ℕ

-- `tuple(sorted(link))`
unfoldable pub sorted_link : Link → Link
sorted_link (u, v) = if leb u v then (u, v) else (v, u)

-- The links of a path, each sorted.
abbrev pub links_of : List ℕ → List Link
links_of p = map sorted_link (pairwise p)

module _ (N : Number) where
  open N use {Num, ratio, plus, divide, gt}

  abbrev pub Utilization : Type 0
  Utilization = Dict Link Num

  abbrev pub link_capacity : Num
  link_capacity = one_num N

  -- `{link: 0.0 for link in edges}`, of sorted links.
  unfoldable pub no_utilization : List Link → Utilization
  no_utilization [] = []
  no_utilization (l ∷ ls) = insert (sorted_link l) (zero_num N) (no_utilization ls)

  -- One path: link by link, until one would be over its capacity. The result says whether one was.
  unfoldable pub place_links : Num → Utilization → List Link → Result (Bool × Utilization)
  place_links rate d [] = ok (false, d)
  place_links rate d (l ∷ ls) = or_raise (lookup l d) key_error >>= λ used.
      if gt (plus used rate) link_capacity
      then ok (true, d)
      else place_links rate (insert l (plus used rate) d) ls

  -- All paths, until a link of one is full.
  unfoldable pub place_paths : Num → Utilization → List (List ℕ) → Result (Bool × Utilization)
  unfolding place_links
  place_paths rate d [] = ok (false, d)
  place_paths rate d (p ∷ ps) = place_links rate d (links_of p) >>= λ placed.
      if placed.0 then ok (true, placed.1) else place_paths rate placed.1 ps

  -- One round of the loop: what was drawn, and networkx's paths between the two nodes.
  pub record Request : Type 0 where
    pub source_node : ℕ
    pub destination_node : ℕ
    pub flow_tx_rate : Num
    pub connecting_paths : List (List ℕ)

  -- The flows admitted and the utilization; `stopped` says whether the loop has ended, which it does
  -- at the first request that does not fit.
  pub record Allocation : Type 0 where
    pub flows : List (Flow N)
    pub link_utilization : Utilization
    pub stopped : Bool

  abbrev pub admitted : Request → Flow N
  admitted r = record {
    source_node = r.source_node;
    destination_node = r.destination_node;
    flow_tx_rate = r.flow_tx_rate;
    paths = some r.connecting_paths;
    splitting_ratio =
        some
          (replicate (length r.connecting_paths) (divide (one_num N) (length r.connecting_paths)));
  }

  -- `flow_tx_rate / disjoint_path_count`
  abbrev pub share_of : Request → Result Num
  share_of r = elim r.connecting_paths [
    | [] ↦ raise zero_division
    | p ∷ ps ↦ ok (divide r.flow_tx_rate (length r.connecting_paths))
  ]

  unfoldable pub greedy_from : List (Flow N) → Utilization → List Request → Result Allocation
  unfolding place_paths
  greedy_from flows d [] = ok (record { flows = flows; link_utilization = d; stopped = false })
  greedy_from flows d (r ∷ requests) = share_of r >>= λ share.
      place_paths share d r.connecting_paths >>= λ placed.
      if placed.0
      then ok (record { flows = flows; link_utilization = placed.1; stopped = true })
      else greedy_from (flows ++ admitted r ∷ []) placed.1 requests

  unfoldable pub compute_greedy_flow_allocations : List Link → List Request → Result Allocation
  unfolding greedy_from no_utilization
  compute_greedy_flow_allocations edges requests = greedy_from [] (no_utilization edges) requests

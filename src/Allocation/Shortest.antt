-- ===== src/Allocation/Shortest.antt =====
-- `compute_test_flow_allocations`, `compute_equal_flow_allocations`,
-- `compute_unequal_flow_allocations` and `single_flow` of rest_client/path_hopping/flow_allocation.py.
-- numpy's draws and networkx's paths are arguments: a destination, with the paths to it.
pub mod Chosen
use cpsc_of_testbed.Base.{
  ℕ, zero, suc, List, [], ◌∷◌, ◌++◌, map, Bool, true, false, Option, none, some, Result, ok, raise,
  key_error, zero_division, or_raise, raise_if, ◌>>=◌, ◌>>◌, fold_result, pairwise, length, take,
  replicate, eqb, filter, leb, pair_eq, ◌-◌,
}
use cpsc_of_testbed.Base.Dict.{Dict, lookup, insert}
use cpsc_of_testbed.Base.Sorting.{sort_by}
use cpsc_of_testbed.Base.Numbers.{Number, zero_num, one_num}
use cpsc_of_testbed.Allocation.Flow.{Flow}
use cpsc_of_testbed.Allocation.Greedy.{Link, sorted_link, Utilization}
use cpsc_of_testbed.Allocation.Ilp.{idle}

-- What `nx.all_simple_paths(..., cutoff=3)` has of all simple paths: those of at most three links.
unfoldable pub within_cutoff : List (List ℕ) → List (List ℕ)
within_cutoff paths = filter (λ p. leb (length p) 4) paths

-- `list(itertools.islice(sorted(paths, key=len), K))`
unfoldable pub k_shortest : ℕ → List (List ℕ) → List (List ℕ)
unfolding sort_by
k_shortest k paths = take k (sort_by length paths)

module _ (N : Number) where
  open N use {Num, ratio, plus, divide}

  -- `[1.0/K]*K`
  abbrev pub equal_ratios : ℕ → Result (List Num)
  equal_ratios zero = raise zero_division
  equal_ratios (suc k) = ok (replicate (suc k) (divide (one_num N) (suc k)))

  -- `link_utilization[u, v] += flow_tx_rate / K`
  abbrev pub use_link : Num → Utilization N → Link → Result (Utilization N)
  use_link x d l = or_raise (lookup (sorted_link l) d) key_error >>= λ before.
      ok (insert (sorted_link l) (plus before x) d)

  abbrev pub use_paths : Num → Utilization N → List (List ℕ) → Result (Utilization N)
  use_paths x d paths = fold_result (λ c p. fold_result (use_link x) c (pairwise p)) d paths

  -- A destination that was drawn, and all simple paths to it.
  abbrev pub Drawn : Type 0
  Drawn = ℕ × List (List ℕ)

  abbrev pub flow_over : ℕ → ℕ → Num → List (List ℕ) → List Num → Flow N
  flow_over source_node destination_node rate paths ratios = record {
    source_node = source_node;
    destination_node = destination_node;
    flow_tx_rate = rate;
    paths = some paths;
    splitting_ratio = some ratios;
  }

  unfoldable pub test_from :
      ℕ → ℕ → List (Flow N) → Utilization N → List Drawn → Result (List (Flow N) × Utilization N)
  unfolding fold_result k_shortest within_cutoff
  test_from source_node k flows d [] = ok (flows, d)
  test_from source_node k flows d (draw ∷ draws) =
      let paths = k_shortest k (within_cutoff draw.1) in
      use_paths (divide (ratio 10 1) k) d paths >>= λ used. equal_ratios k >>= λ ratios.
      test_from source_node k (flows ++ flow_over source_node draw.0 (ratio 1 1) paths ratios ∷ [])
        used draws

  unfoldable pub compute_test_flow_allocations :
      List Link → ℕ → List Drawn → ℕ → Result (List (Flow N) × Utilization N)
  unfolding test_from
  compute_test_flow_allocations edges source_node draws k =
      test_from source_node k [] (idle N edges) draws

  -- One flow from each node, with the draw of its destination.
  unfoldable pub compute_equal_flow_allocations : List (ℕ × Drawn) → ℕ → Result (List (Flow N))
  unfolding k_shortest within_cutoff
  compute_equal_flow_allocations [] k = ok []
  compute_equal_flow_allocations ((node, draw) ∷ nodes) k = equal_ratios k >>= λ ratios.
      compute_equal_flow_allocations nodes k >>= λ flows.
      ok (flow_over node draw.0 (ratio 10 1) (k_shortest k (within_cutoff draw.1)) ratios ∷ flows)

  -- One flow from each node, over a shortest path to its destination.
  unfoldable pub compute_unequal_flow_allocations : List (ℕ × (ℕ × List ℕ)) → List (Flow N)
  compute_unequal_flow_allocations [] = []
  compute_unequal_flow_allocations ((node, draw) ∷ nodes) =
      flow_over node draw.0 (ratio 10 1) (draw.1 ∷ []) (one_num N ∷ [])
      ∷ compute_unequal_flow_allocations nodes

  -- `[1.0] + [0 for _ in range(len(disjoint_paths)-1)]`: everything on the first path.
  unfoldable pub single_flow : ℕ → ℕ → List (List ℕ) → List (Flow N)
  single_flow source_node destination_node disjoint_paths =
      flow_over source_node destination_node (ratio 1 2) disjoint_paths
        (one_num N ∷ replicate (length disjoint_paths - 1) (zero_num N))
      ∷ []

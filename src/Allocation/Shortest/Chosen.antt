-- ===== src/Allocation/Shortest/Chosen.antt =====
-- Which paths the allocations choose.
use cpsc_of_testbed.Base.{
  ℕ, zero, suc, List, [], ◌∷◌, ◌++◌, ◌≡◌, refl, ◌∙◌, some, ok, length, take, drop, All, ◌≤◌, ap,
  arith, ◌≢◌, replicate, filter, leb,
}
use cpsc_of_testbed.Base.Sorting.{sort_by, IsSorted, having, having-sort_by, sort_by-IsSorted}
use cpsc_of_testbed.Base.Numbers.{Number}
use cpsc_of_testbed.Allocation.Flow.{Flow}
use cpsc_of_testbed.Allocation.Shortest.{
  within_cutoff, k_shortest, Drawn, flow_over, compute_equal_flow_allocations,
}

-- The chosen paths and the others together are the paths, those of each length in their order; there
-- are no more than k, and all k if there are others; and no other is shorter than a chosen one.
pub record IsShortest (k : ℕ) (paths chosen : List (List ℕ)) : Type 0 where
  pub others : List (List ℕ)
  pub same : (n : ℕ) → having length n (chosen ++ others) ≡ having length n paths
  pub at_most : length chosen ≤ k
  pub all_k : others ≢ [] → length chosen ≡ k
  pub shorter : All (λ p. All (λ q. length p ≤ length q) others) chosen

take-append-drop : (k : ℕ) (ps : List (List ℕ)) → take k ps ++ drop k ps ≡ ps
take-append-drop zero ps = refl
take-append-drop (suc k) [] = refl
take-append-drop (suc k) (p ∷ ps) = ap (λ qs. p ∷ qs) (take-append-drop k ps)

length-take : (k : ℕ) (ps : List (List ℕ)) → length (take k ps) ≤ k
length-take zero ps = omega arith
length-take (suc k) [] = omega arith
length-take (suc k) (p ∷ ps) = omega (arith, length-take k ps)

length-take_all : (k : ℕ) (ps : List (List ℕ)) → drop k ps ≢ [] → length (take k ps) ≡ k
length-take_all zero ps h = refl
length-take_all (suc k) [] h = absurd (h refl)
length-take_all (suc k) (p ∷ ps) h = ap suc (length-take_all k ps h)

All-drop : (P : List ℕ → Type 0) (k : ℕ) (ps : List (List ℕ)) → All P ps → All P (drop k ps)
All-drop P zero ps h = h
All-drop P (suc k) [] h = tt
All-drop P (suc k) (p ∷ ps) h = All-drop P k ps h.1

take-shorter :
    (k : ℕ) (ps : List (List ℕ))
    → IsSorted length ps
    → All (λ p. All (λ q. length p ≤ length q) (drop k ps)) (take k ps)
take-shorter zero ps h = tt
take-shorter (suc k) [] h = tt
take-shorter (suc k) (p ∷ ps) h =
    (All-drop (λ q. length p ≤ length q) k ps h.0, take-shorter k ps h.1)

k_shortest-IsShortest : (k : ℕ) (paths : List (List ℕ)) → IsShortest k paths (k_shortest k paths)
unfolding k_shortest
k_shortest-IsShortest k paths =
    let sorted = sort_by length paths in
    record {
      others = drop k sorted;
      same = λ n. ap (having length n) (take-append-drop k sorted) ∙ having-sort_by length n paths;
      at_most = length-take k sorted;
      all_k = length-take_all k sorted;
      shorter = take-shorter k sorted (sort_by-IsSorted length paths);
    }

module _ (N : Number) where
  open N use {Num, ratio, divide}

  -- A flow from each node to its destination, over the shortest paths of at most four nodes.
  abbrev pub OneFlowEach : ℕ → List (ℕ × Drawn N) → List (Flow N) → Type 0
  OneFlowEach k [] [] = Unit
  OneFlowEach k [] (f ∷ fs) = ⊥
  OneFlowEach k (n ∷ ns) [] = ⊥
  OneFlowEach k (n ∷ ns) (f ∷ fs) =
      ((f.source_node ≡ n.0)
        × (f.destination_node ≡ n.1.0)
        × ((paths : List (List ℕ)) × (f.paths ≡ some paths)
            × IsShortest k (filter (λ p. leb (length p) 4) n.1.1) paths))
      × OneFlowEach k ns fs

  -- Unless K is 0, the equal allocation returns exactly one flow from each node, to the destination
  -- drawn for it, over the K shortest of the simple paths of at most three links between them, or all
  -- of these where there are fewer.
  pub equal-OneFlowEach :
      (k : ℕ) (nodes : List (ℕ × Drawn N))
      → (flows : List (Flow N)) × (compute_equal_flow_allocations N nodes (suc k) ≡ ok flows)
        × OneFlowEach (suc k) nodes flows
  unfolding compute_equal_flow_allocations within_cutoff
  equal-OneFlowEach k [] = ([], refl, tt)
  equal-OneFlowEach k ((node, draw) ∷ nodes) =
      let (flows, later, each) = equal-OneFlowEach k nodes in
      let paths = k_shortest (suc k) (within_cutoff draw.1) in
      let ratios = replicate (suc k) (divide (ratio 1 1) (suc k)) in
      (
        flow_over N node draw.0 (ratio 10 1) paths ratios ∷ flows,
        rw later refl,
        ((refl, refl, (paths, refl, k_shortest-IsShortest (suc k) (within_cutoff draw.1))), each),
      )

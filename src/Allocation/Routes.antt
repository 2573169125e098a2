-- ===== src/Allocation/Routes.antt =====
-- The routes of the flows over the links that the multi-commodity model has given them:
-- `traverse_graph`, `traverse_graph_iterative`, `compute_mcf_flow_routes` and `do_f_sanity_checks`
-- of rest_client/path_hopping/flow_allocation.py.
pub mod Paths
pub mod Ends
pub mod Rounds
pub mod Found
use cpsc_of_testbed.Base.{
  ℕ, zero, suc, ◌+◌, ◌*◌, ◌^◌, List, [], ◌∷◌, ◌++◌, map, Bool, true, false, ◌&&◌, Option, none,
  some, Result, ok, raise, index_error, key_error, or_raise, ◌>>=◌, map_result, if◌then◌else◌, eqb,
  contains, filter, get_elem?, length, nat_eq, triple_eq,
}
use cpsc_of_testbed.Base.Dict.{Dict, lookup, keys}
use cpsc_of_testbed.Base.Sorting.{sort_by, group_by}
use cpsc_of_testbed.Base.Numbers.{Number, zero_num, one_num, sum_from}
use cpsc_of_testbed.Allocation.Flow.{Flow}

module _ (N : Number) where
  open N use {Num, ratio, gt}

  -- F: flow, node, node -> what of the flow is on that link.
  abbrev pub Carried : Type 0
  Carried = Dict (ℕ × (ℕ × ℕ)) Num

  -- The links out of a node that carry more than 0.001 of the flow.
  abbrev pub is_outgoing : ℕ → ℕ → (ℕ × (ℕ × ℕ)) × Num → Bool
  is_outgoing f u e = eqb e.0.0 f && (eqb e.0.1.0 u && gt e.1 (ratio 1 1000))

  unfoldable pub get_paths_for_flow : Carried → ℕ → ℕ → List (ℕ × Num)
  get_paths_for_flow F s f = map (λ e. (e.0.1.1, e.1)) (filter (is_outgoing f s) F)

  -- A path and the part of the flow that it takes.
  pub record Route : Type 0 where
    pub path : List ℕ
    pub sr : Num

  -- `xs[-1]`
  abbrev pub last : List ℕ → Result ℕ
  last [] = raise index_error
  last (x ∷ []) = ok x
  last (x ∷ y ∷ ys) = last (y ∷ ys)

  -- `sr if sr < current_sr else current_sr`
  abbrev pub smaller : Num → Num → Num
  smaller sr current_sr = if gt current_sr sr then sr else current_sr

  abbrev pub extended : Route → ℕ × Num → Route
  extended r hop = record { path = r.path ++ hop.0 ∷ []; sr = smaller hop.1 r.sr }

  -- The next hops of a path, each on the list of complete or on that of incomplete paths.
  unfoldable pub visit :
      ℕ → Route → List (ℕ × Num) → List Route × List Route → List Route × List Route
  visit t r [] s = s
  visit t r (hop ∷ hops) s =
      if contains hop.0 r.path
      then visit t r hops s
      else if eqb hop.0 t
      then visit t r hops (s.0 ++ extended r hop ∷ [], s.1)
      else visit t r hops (s.0, s.1 ++ extended r hop ∷ [])

  -- The loop: what it returns, or none where the fuel ends first.
  unfoldable pub traverse_from :
      Carried → ℕ → ℕ → ℕ → List Route → List Route → Result (Option (List Route))
  unfolding visit get_paths_for_flow
  traverse_from F f t zero found [] = ok (some found)
  traverse_from F f t zero found (r ∷ rs) = ok none
  traverse_from F f t (suc n) found [] = ok (some found)
  traverse_from F f t (suc n) found (r ∷ rs) = last r.path >>= λ u.
      let s = visit t r (get_paths_for_flow F u f) (found, rs) in traverse_from F f t n s.0 s.1

  -- A path has no node twice, so it grows at most once for each entry of F.
  abbrev pub rounds : Carried → ℕ
  rounds F = suc (length F) ^ suc (length F)

  unfoldable pub traverse_graph_iterative : Carried → ℕ → ℕ → ℕ → Result (Option (List Route))
  unfolding traverse_from
  traverse_graph_iterative F f s t =
      traverse_from F f t (rounds F) [] (record { path = s ∷ []; sr = one_num N } ∷ [])

  -- The traversals from the next hops, one after the other.
  abbrev pub traverse_hops : (ℕ → Num → Option (List Route)) → List (ℕ × Num) → Option (List Route)
  traverse_hops go [] = some []
  traverse_hops go (hop ∷ hops) =
      let rest = traverse_hops go hops in
      elim (go hop.0 hop.1) [
        | none ↦ none
        | some rs ↦ elim rest [ none ↦ none | some more ↦ some (rs ++ more) ]
      ]

  abbrev pub prepend : ℕ → Option (List Route) → Option (List Route)
  prepend u none = none
  prepend u (some rs) = some (map (λ (r : Route). record { path = u ∷ r.path; sr = r.sr }) rs)

  -- The recursive traversal follows loops without end: none where the fuel ends first.
  unfoldable pub traverse_graph : ℕ → Carried → ℕ → ℕ → ℕ → Num → Option (List Route)
  unfolding get_paths_for_flow
  traverse_graph zero F f t u sr = none
  traverse_graph (suc n) F f t u sr =
      let paths_to_t =
        traverse_hops (λ v r. traverse_graph n F f t v r) (get_paths_for_flow F u f) in
      if eqb u t then some (record { path = t ∷ []; sr = sr } ∷ []) else prepend u paths_to_t

  -- The sums that are printed for each flow: what leaves its source, and what enters its
  -- destination.
  abbrev pub amount : Carried → ℕ × (ℕ × ℕ) → Result Num
  amount F k = or_raise (lookup k F) key_error

  abbrev pub sanity_sums : List (Flow N) → Carried → ℕ × List (ℕ × (ℕ × ℕ)) → Result (Num × Num)
  sanity_sums flows F g = or_raise (get_elem? flows g.0) index_error >>= λ f.
      map_result (amount F) (filter (λ k. eqb k.1.0 f.source_node) g.1) >>= λ out.
      map_result (amount F) (filter (λ k. eqb k.1.1 f.destination_node) g.1) >>= λ into.
      ok (sum_from N (zero_num N) out, sum_from N (zero_num N) into)

  unfoldable pub do_f_sanity_checks : List (Flow N) → Carried → Result (List (Num × Num))
  unfolding map_result sort_by group_by
  do_f_sanity_checks flows F =
      map_result (sanity_sums flows F) (group_by (λ k. k.0) (sort_by (λ k. k.0) (keys F)))

  -- The flow with the routes found for it.
  abbrev pub routed : Flow N → List Route → Flow N
  routed f rs = record {
    source_node = f.source_node;
    destination_node = f.destination_node;
    flow_tx_rate = f.flow_tx_rate;
    paths = some (map (λ (r : Route). r.path) rs);
    splitting_ratio = some (map (λ (r : Route). r.sr) rs);
  }

  abbrev pub with_routes : Flow N → Option (List Route) → Option (Flow N)
  with_routes f none = none
  with_routes f (some rs) = some (routed f rs)

  abbrev pub add_route : Option (Flow N) → Option (List (Flow N)) → Option (List (Flow N))
  add_route none fs = none
  add_route (some f) none = none
  add_route (some f) (some fs) = some (f ∷ fs)

  unfoldable pub routes_from : List (Flow N) → Carried → List ℕ → Result (Option (List (Flow N)))
  unfolding traverse_graph_iterative
  routes_from flows F [] = ok (some [])
  routes_from flows F (i ∷ is) = or_raise (get_elem? flows i) index_error >>= λ f.
      traverse_graph_iterative F i f.source_node f.destination_node >>= λ routes.
      routes_from flows F is >>= λ fs. ok (add_route (with_routes f routes) fs)

  -- For each flow that F has, in the order of their indices.
  unfoldable pub compute_mcf_flow_routes : List (Flow N) → Carried → Result (Option (List (Flow N)))
  unfolding routes_from sort_by group_by
  compute_mcf_flow_routes flows F =
      routes_from flows F (keys (group_by (λ k. k.0) (sort_by (λ k. k.0) (keys F))))

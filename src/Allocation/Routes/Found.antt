-- ===== src/Allocation/Routes/Found.antt =====
-- The routes of all flows: each flow gets the routes of its own traversal.
use cpsc_of_testbed.Base.{
  ℕ, List, [], ◌∷◌, ◌≡◌, refl, sym, ◌∙◌, Option, some, ok, index_error, or_raise, >>=-eq-ok,
  or_raise-eq-ok, ok_injective, get_elem?, ap, All, triple_eq, nat_eq,
}
use cpsc_of_testbed.Base.Dict.{keys}
use cpsc_of_testbed.Base.Sorting.{sort_by, group_by}
use cpsc_of_testbed.Base.Numbers.{Number, IsOrdered}
use cpsc_of_testbed.Allocation.Flow.{Flow}
use cpsc_of_testbed.Allocation.Routes.{
  Carried, Route, traverse_graph_iterative, routed, with_routes, add_route, routes_from,
  compute_mcf_flow_routes,
}
use cpsc_of_testbed.Allocation.Routes.Ends.{IsRoute, routes-IsRoute}
use cpsc_of_testbed.Allocation.Routes.Rounds.{traverse_graph_iterative-total}

module _ (N : Number) (laws : IsOrdered N) (flows : List (Flow N)) (F : Carried N) where
  -- The flow of index i with the routes that its traversal finds, which are paths from its source to
  -- its destination.
  abbrev pub IsRouted : ℕ → Flow N → Type 0
  IsRouted i g =
      (f : Flow N) × (rs : List (Route N)) × (get_elem? flows i ≡ some f)
      × (traverse_graph_iterative N F i f.source_node f.destination_node ≡ ok (some rs))
      × (g ≡ routed N f rs)
      × All (IsRoute N F i f.source_node f.destination_node) rs

  abbrev pub AllRouted : List ℕ → List (Flow N) → Type 0
  AllRouted [] [] = Unit
  AllRouted [] (g ∷ gs) = ⊥
  AllRouted (i ∷ is) [] = ⊥
  AllRouted (i ∷ is) (g ∷ gs) = IsRouted i g × AllRouted is gs

  routes_from-AllRouted :
      (is : List ℕ) (out : Option (List (Flow N)))
      → routes_from N flows F is ≡ ok out
      → (fs : List (Flow N)) × (out ≡ some fs) × AllRouted is fs
  unfolding routes_from
  routes_from-AllRouted [] out h = ([], sym (ok_injective h), tt)
  routes_from-AllRouted (i ∷ is) out h =
      let (f, found, h1) = >>=-eq-ok (or_raise (get_elem? flows i) index_error) _ h in
      let (routes, traversed, h2) =
        >>=-eq-ok (traverse_graph_iterative N F i f.source_node f.destination_node) _ h1 in
      let (later, rest, h3) = >>=-eq-ok (routes_from N flows F is) _ h2 in
      let (fs, is_some, all) = routes_from-AllRouted is later rest in
      let (rs, total) = traverse_graph_iterative-total N F i f.source_node f.destination_node in
      let is_routes : routes ≡ some rs = ok_injective (sym traversed ∙ total) in
      (
        routed N f rs ∷ fs,
        sym (ok_injective h3)
            ∙ ap (λ o. add_route N (with_routes N f o) later) is_routes
            ∙ ap (add_route N (some (routed N f rs))) is_some,
        (
          (
            f,
            rs,
            or_raise-eq-ok (get_elem? flows i) index_error found,
            total,
            refl,
            routes-IsRoute N F i f.source_node f.destination_node laws rs total,
          ),
          all,
        ),
      )

  -- The indices of the flows that F has, in their order.
  abbrev pub flow_indices : List ℕ
  flow_indices = keys (group_by (λ k. k.0) (sort_by (λ k. k.0) (keys F)))

  -- If the routes are computed without an exception, each flow of F gets the routes that its traversal
  -- returns, in their order. If numbers are ordered, each of them is a path from the source of the flow
  -- to its destination, without a node twice, over links that carry at least the ratio of the path. The
  -- fuel of the model never ends first.
  pub compute_mcf_flow_routes-AllRouted :
      (out : Option (List (Flow N)))
      → compute_mcf_flow_routes N flows F ≡ ok out
      → (fs : List (Flow N)) × (out ≡ some fs) × AllRouted flow_indices fs
  unfolding compute_mcf_flow_routes
  compute_mcf_flow_routes-AllRouted out h = routes_from-AllRouted flow_indices out h

-- ===== src/Simulator/Graph/Parallel.antt =====
-- The network of the simulations is as many paths, without a common node, from the source to the sink.
use mathlib.Core.Path.{subst}
use native.Mathlib.Nat.{suc-mul}
use cpsc_of_testbed.Base.{
  All_of, ℕ, zero, suc, ◌+◌, ◌*◌, List, [], ◌∷◌, ◌++◌, ◌≡◌, refl, sym, ◌∙◌, ◌⊎◌, inl, inr, ok,
  fold_result, pairwise, range_from, range_from-append, ap, arith, In, In-left, In-right, All,
  length, ok_injective,
}
use cpsc_of_testbed.Simulator.Graph.{
  grow, grow_paths, last_of, connect, Graph, build_n_parallel_graph,
}

abbrev pub concat : List (List ℕ) → List ℕ
concat [] = []
concat (xs ∷ xss) = xs ++ concat xss

grow-path : (c l : ℕ) → (grow c l).0 ≡ range_from c l
unfolding grow
grow-path c zero = refl
grow-path c (suc l) = ap (λ xs. c ∷ xs) (grow-path (suc c) l)

grow-next : (c l : ℕ) → (grow c l).1 ≡ c + l
unfolding grow
grow-next c zero = omega arith
grow-next c (suc l) = omega (arith, grow-next (suc c) l)

grow_paths-nodes : (c n l : ℕ) → concat (grow_paths c n l).0 ≡ range_from c (n * l)
unfolding grow_paths
grow_paths-nodes c zero l = let count : 0 ≡ 0 * l = omega arith in ap (range_from c) count
grow_paths-nodes c (suc n) l =
    let count : l + n * l ≡ suc n * l = omega (arith, suc-mul n l) in
    ap (λ xs. xs ++ concat (grow_paths (grow c l).1 n l).0) (grow-path c l)
    ∙ ap (λ xs. range_from c l ++ xs) (grow_paths-nodes (grow c l).1 n l)
    ∙ ap (λ k. range_from c l ++ range_from k (n * l)) (grow-next c l)
    ∙ range_from-append c l (n * l)
    ∙ ap (range_from c) count

grow_paths-next : (c n l : ℕ) → (grow_paths c n l).1 ≡ c + n * l
unfolding grow_paths
grow_paths-next c zero l = omega arith
grow_paths-next c (suc n) l =
    omega (arith, grow_paths-next (grow c l).1 n l, grow-next c l, suc-mul n l)

grow_paths-length : (c n l : ℕ) → length (grow_paths c n l).0 ≡ n
unfolding grow_paths
grow_paths-length c zero l = refl
grow_paths-length c (suc n) l = ap suc (grow_paths-length (grow c l).1 n l)

-- The number of nodes of a path.
grow-length : (c l : ℕ) → length (grow c l).0 ≡ l
unfolding grow
grow-length c zero = refl
grow-length c (suc l) = ap suc (grow-length (suc c) l)

grow_paths-lengths : (c n l : ℕ) → All (λ p. length p ≡ l) (grow_paths c n l).0
unfolding grow_paths
grow_paths-lengths c zero l = tt
grow_paths-lengths c (suc n) l = (grow-length c l, grow_paths-lengths (grow c l).1 n l)

-- The link is an edge of the network, in one direction or the other.
abbrev pub IsEdge : List (ℕ × ℕ) → ℕ × ℕ → Type 0
IsEdge edges e = In e edges ⊎ In (e.1, e.0) edges

-- From the source along the path to the sink.
abbrev pub IsRoute : List (ℕ × ℕ) → ℕ → ℕ → List ℕ → Type 0
IsRoute edges s t p = All (IsEdge edges) (pairwise (s ∷ (p ++ t ∷ [])))

last_of-cons : (x : ℕ) (xs : List ℕ) → (y : ℕ) × (last_of (x ∷ xs) ≡ ok y)
last_of-cons x [] = (x, refl)
last_of-cons x (y ∷ ys) = last_of-cons y ys

extend_path :
    (P : ℕ × ℕ → Type 0) (t y x : ℕ) (xs : List ℕ)
    → last_of (x ∷ xs) ≡ ok y
    → All P (pairwise (x ∷ xs))
    → P (y, t)
    → All P (pairwise (x ∷ (xs ++ t ∷ [])))
extend_path P t y x [] e h p = (subst (λ z. P (z, t)) (sym (ok_injective e)) p, tt)
extend_path P t y x (z ∷ zs) e h p = (h.0, extend_path P t y z zs e h.1 p)

-- Connecting a path that is not empty makes it a route, and keeps the edges.
connect-IsRoute :
    (s t x : ℕ) (xs : List ℕ) (edges : List (ℕ × ℕ))
    → (more : List (ℕ × ℕ)) × (connect s t edges (x ∷ xs) ≡ ok more)
      × IsRoute more s t (x ∷ xs)
      × ((e : ℕ × ℕ) → In e edges → In e more)
unfolding connect
connect-IsRoute s t x xs edges =
    let (y, e) = last_of-cons x xs in
    let new = (s, x) ∷ (t, y) ∷ pairwise (x ∷ xs) in
    let more = edges ++ new in
    let own =
      All_of (IsEdge more) (pairwise (x ∷ xs)) (λ l m. inl (In-right l edges new (inr (inr m)))) in
    (
      more,
      rw e refl,
      (
        inl (In-right (s, x) edges new (inl refl)),
        extend_path (IsEdge more) t y x xs e own (inr (In-right (t, y) edges new (inr (inl refl)))),
      ),
      λ l m. In-left l edges new m,
    )

weaker :
    (edges more : List (ℕ × ℕ)) (ls : List (ℕ × ℕ))
    → ((e : ℕ × ℕ) → In e edges → In e more)
    → All (IsEdge edges) ls
    → All (IsEdge more) ls
weaker edges more [] sub h = tt
weaker edges more (l ∷ ls) sub (inl m, h) = (inl (sub l m), weaker edges more ls sub h)
weaker edges more (l ∷ ls) sub (inr m, h) = (inr (sub (l.1, l.0) m), weaker edges more ls sub h)

connect_all :
    (s t l : ℕ) (paths : List (List ℕ)) (edges : List (ℕ × ℕ))
    → All (λ p. length p ≡ suc l) paths
    → (more : List (ℕ × ℕ)) × (fold_result (connect s t) edges paths ≡ ok more)
      × All (IsRoute more s t) paths
      × ((e : ℕ × ℕ) → In e edges → In e more)
unfolding fold_result
connect_all s t l [] edges h = (edges, refl, tt, λ e m. m)
connect_all s t l ([] ∷ paths) edges h = absurd (omega (arith, h.0))
connect_all s t l ((x ∷ xs) ∷ paths) edges h =
    let (first, connected, route, kept) = connect-IsRoute s t x xs edges in
    let (more, rest, routes, kept_later) = connect_all s t l paths first h.1 in
    (
      more,
      (rw connected rest),
      (weaker first more (pairwise (s ∷ ((x ∷ xs) ++ t ∷ []))) kept_later route, routes),
      λ e m. kept_later e (kept e m),
    )

-- The graph with its paths: as many as asked for, each with as many nodes; together they have the nodes
-- from 0 on, each once, and the source and the sink are the next two; and each is a route.
pub record IsParallel (n l : ℕ) (g : Graph) : Type 0 where
  pub paths : List (List ℕ)
  pub number : length paths ≡ n
  pub lengths : All (λ p. length p ≡ l) paths
  pub disjoint : concat paths ≡ range_from 0 (n * l)
  pub source_next : g.source_node ≡ n * l
  pub sink_next : g.sink_node ≡ suc (n * l)
  pub routes : All (IsRoute g.edges g.source_node g.sink_node) paths

-- For any number of paths and any length but 0, the graph is built, and it has that many paths of that
-- many nodes, no node twice, each a route from the source to the sink.
pub build_n_parallel_graph-IsParallel :
    (n l : ℕ) → (g : Graph) × (build_n_parallel_graph n (suc l) ≡ ok g) × IsParallel n (suc l) g
unfolding build_n_parallel_graph
build_n_parallel_graph-IsParallel n l =
    let paths = (grow_paths 0 n (suc l)).0 in
    let source = (grow_paths 0 n (suc l)).1 in
    let (edges, built, routes, _) =
      connect_all source (suc source) l paths [] (grow_paths-lengths 0 n (suc l)) in
    (
      record { edges = edges; source_node = source; sink_node = suc source },
      rw built refl,
      record {
        paths = paths;
        number = grow_paths-length 0 n (suc l);
        lengths = grow_paths-lengths 0 n (suc l);
        disjoint = grow_paths-nodes 0 n (suc l);
        source_next = omega (arith, grow_paths-next 0 n (suc l));
        sink_next = omega (arith, grow_paths-next 0 n (suc l));
        routes = routes;
      },
    )

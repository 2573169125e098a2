-- ===== src/Simulator/Graph.antt =====
-- `build_n_parallel_graph` of rest_client/path_hopping_simulator.py: the network of the simulations, by
-- the edges that are added to it.
pub mod Parallel
use cpsc_of_testbed.Base.{
  ℕ, zero, suc, List, [], ◌∷◌, ◌++◌, Result, ok, raise, index_error, ◌>>=◌, fold_result, pairwise,
}

-- One path: as many new nodes, and the counter after them.
unfoldable pub grow : ℕ → ℕ → List ℕ × ℕ
grow counter zero = ([], counter)
grow counter (suc path_length) =
    let (path, next) = grow (suc counter) path_length in (counter ∷ path, next)

unfoldable pub grow_paths : ℕ → ℕ → ℕ → List (List ℕ) × ℕ
unfolding grow
grow_paths counter zero path_length = ([], counter)
grow_paths counter (suc number_of_paths) path_length =
    let (path, next) = grow counter path_length in
    let (paths, last) = grow_paths next number_of_paths path_length in (path ∷ paths, last)

-- `p[0]` and `p[-1]`
abbrev pub first_of : List ℕ → Result ℕ
first_of [] = raise index_error
first_of (x ∷ xs) = ok x

abbrev pub last_of : List ℕ → Result ℕ
last_of [] = raise index_error
last_of (x ∷ []) = ok x
last_of (x ∷ y ∷ ys) = last_of (y ∷ ys)

-- The edges of a path, and those from the source and the sink to its ends.
unfoldable pub connect : ℕ → ℕ → List (ℕ × ℕ) → List ℕ → Result (List (ℕ × ℕ))
connect source_node sink_node edges path = do
  head ← first_of path
  tail ← last_of path
  ok (edges ++ ((source_node, head) ∷ (sink_node, tail) ∷ pairwise path))

pub record Graph : Type 0 where
  pub edges : List (ℕ × ℕ)
  pub source_node : ℕ
  pub sink_node : ℕ

unfoldable pub build_n_parallel_graph : ℕ → ℕ → Result Graph
unfolding grow_paths fold_result connect
build_n_parallel_graph number_of_paths path_length =
    let (paths, source_node) = grow_paths 0 number_of_paths path_length in
    let sink_node = suc source_node in
    fold_result (connect source_node sink_node) [] paths >>= λ edges.
    ok (record { edges = edges; source_node = source_node; sink_node = sink_node })

-- ===== src/Simulator/GraphTests.antt =====
-- The network of two parallel paths with two nodes each.
use cpsc_of_testbed.Base.{◌≡◌, refl, [], ◌∷◌, ok, raise, index_error, fold_result}
use cpsc_of_testbed.Simulator.Graph.{Graph, build_n_parallel_graph}
use cpsc_of_testbed.Simulator.Graph.Parallel.{IsParallel, build_n_parallel_graph-IsParallel}

program : Unit {0}
unfolding fold_result build_n_parallel_graph
program = tt

two_by_two :
    build_n_parallel_graph 2 2
    ≡ ok (record {
      edges = (4, 0) ∷ (5, 1) ∷ (0, 1) ∷ (4, 2) ∷ (5, 3) ∷ (2, 3) ∷ [];
      source_node = 4;
      sink_node = 5;
    })
unfolding program
two_by_two = refl

-- A path without nodes has no ends to connect.
no_nodes : build_n_parallel_graph 1 0 ≡ raise index_error
unfolding program
no_nodes = refl

build_n_parallel_graph-IsParallel_example :
    (g : Graph) × (build_n_parallel_graph 2 2 ≡ ok g) × IsParallel 2 2 g
build_n_parallel_graph-IsParallel_example = build_n_parallel_graph-IsParallel 2 1

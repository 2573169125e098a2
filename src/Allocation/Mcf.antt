-- ===== src/Allocation/Mcf.antt =====
-- `create_mcf_model` and `compute_mcf_flows` of rest_client/path_hopping/flow_allocation.py: a
-- multi-commodity flow on the two directions of each link. gurobi is the parameter `optimize`.
pub mod Conserved
pub mod Loaded
pub mod Solved
use cpsc_of_testbed.Base.{
  ℕ, suc, List, [], ◌∷◌, ◌++◌, map, Bool, true, false, Option, none, some, Result, ok, key_error,
  index_error, or_raise, ◌>>=◌, fold_result, map_result, enumerate_from, add_all, get_elem?,
  if◌then◌else◌, eqb, pair_eq, triple_eq, nat_eq,
}
use cpsc_of_testbed.Base.Dict.{Dict, lookup, insert, keys, values}
use cpsc_of_testbed.Base.Numbers.{Number, zero_num, one_num}
use cpsc_of_testbed.Allocation.Flow.{Flow}
use cpsc_of_testbed.Allocation.Greedy.{Link, sorted_link, link_capacity, Utilization}
use cpsc_of_testbed.Allocation.Program.{
  Variable, carried, alpha, LinExpr, constant, add, join, take_away, var, multiple, plus_var, value,
  Call, add_var, must_equal, must_be_at_most, minimize,
}
use cpsc_of_testbed.Allocation.Routes.{do_f_sanity_checks, compute_mcf_flow_routes}

-- `nx.DiGraph(graph)`: each node with its neighbours. Its edges, node by node.
abbrev pub Digraph : Type 0
Digraph = Dict ℕ (List ℕ)

unfoldable pub edges_of : Digraph → List Link
edges_of [] = []
edges_of ((u, vs) ∷ g) = map (λ v. (u, v)) vs ++ edges_of g

abbrev pub Key : Type 0
Key = ℕ × (ℕ × ℕ)

module _ (N : Number) where
  open N use {Num, plus}

  -- `{(flow_idx, u, v): addVar() ...}`, for the flows from the given index on.
  unfoldable pub flow_keys : ℕ → List (Flow N) → List Link → List Key
  flow_keys i [] links = []
  flow_keys i (f ∷ fs) links = map (λ l. (i, l)) links ++ flow_keys (suc i) fs links

  abbrev pub flow_vars : List Key → Dict Key Variable
  flow_vars ks = map (λ k. (k, carried k.0 k.1.0 k.1.1)) ks

  abbrev pub flow_var : Dict Key Variable → Key → Result Variable
  flow_var F k = or_raise (lookup k F) key_error

  -- What leaves a node and what enters it, one neighbour more.
  unfoldable pub add_neighbor :
      Dict Key Variable → ℕ → ℕ → LinExpr N × LinExpr N → ℕ → Result (LinExpr N × LinExpr N)
  add_neighbor F i u s v = flow_var F (i, (u, v)) >>= λ out.
      flow_var F (i, (v, u)) >>= λ into. ok (plus_var N s.0 out, plus_var N s.1 into)

  -- The source sends one more than it receives, the destination receives one more, and each other
  -- node passes on what it receives.
  abbrev pub balance : Flow N → ℕ → LinExpr N → LinExpr N → Call N
  balance f u out into =
      if eqb u f.source_node
      then must_equal (take_away out into) (constant (one_num N))
      else if eqb u f.destination_node
      then must_equal (take_away into out) (constant (one_num N))
      else must_equal (take_away into out) (constant (zero_num N))

  abbrev pub balance_node : Dict Key Variable → ℕ → Flow N → ℕ × List ℕ → Result (Call N)
  balance_node F i f n =
      fold_result (add_neighbor F i n.0) (constant (zero_num N), constant (zero_num N)) n.1 >>= λ s.
      ok (balance f n.0 s.0 s.1)

  unfoldable pub balance_flows :
      Digraph → Dict Key Variable → ℕ → List (Flow N) → Result (List (Call N))
  unfolding add_neighbor
  balance_flows g F i [] = ok []
  balance_flows g F i (f ∷ fs) = map_result (balance_node F i f) g >>= λ calls.
      balance_flows g F (suc i) fs >>= λ rest. ok (calls ++ rest)

  -- `U[link_index] += F[...] * potential_flow_set[flow_idx].flow_tx_rate`
  unfoldable pub add_use :
      Dict Link ℕ
      → List (Flow N)
      → Dict ℕ (LinExpr N)
      → Key × Variable
      → Result (Dict ℕ (LinExpr N))
  add_use links flows U e = or_raise (lookup e.0.1 links) key_error >>= λ l.
      or_raise (get_elem? flows e.0.0) index_error >>= λ f.
      or_raise (lookup l U) key_error >>= λ load. ok (insert l (add load f.flow_tx_rate e.1) U)

  -- The two directions of a link together are within its capacity.
  unfoldable pub cap_link : Dict Link ℕ → Dict ℕ (LinExpr N) → Link → Result (Call N)
  cap_link links U l = or_raise (lookup (l.0, l.1) links) key_error >>= λ one_direction.
      or_raise (lookup (l.1, l.0) links) key_error >>= λ other_direction.
      or_raise (lookup one_direction U) key_error >>= λ d.
      or_raise (lookup other_direction U) key_error >>= λ e.
      ok (must_be_at_most (join d e) (multiple N (link_capacity N) alpha))

  -- `{link: index for index, link in enumerate(edges)}`
  unfoldable pub link_indices : ℕ → List Link → Dict Link ℕ → Dict Link ℕ
  link_indices i [] d = d
  link_indices i (l ∷ ls) d = link_indices (suc i) ls (insert l i d)

  pub record Model : Type 0 where
    pub calls : List (Call N)
    pub U : Dict ℕ (LinExpr N)
    pub F : Dict Key Variable

  abbrev pub without_paths : ℕ → ℕ → Num → Flow N
  without_paths source_node destination_node rate = record {
    source_node = source_node;
    destination_node = destination_node;
    flow_tx_rate = rate;
    paths = none;
    splitting_ratio = none;
  }

  unfoldable pub create_mcf_model : Digraph → List (Flow N) → ℕ → ℕ → Num → Result Model
  unfolding fold_result map_result edges_of flow_keys balance_flows add_use cap_link link_indices
      sorted_link
  create_mcf_model g flows source_node destination_node rate =
      let all = flows ++ without_paths source_node destination_node rate ∷ [] in
      let links = link_indices 0 (edges_of g) [] in
      let ks = flow_keys 0 all (keys links) in
      let F = flow_vars ks in
      balance_flows g F 0 all >>= λ balances.
      fold_result (add_use links all) (map (λ l. (l, constant (zero_num N))) (values links)) F
      >>= λ U. map_result (cap_link links U) (add_all [] (map sorted_link (keys links))) >>= λ caps.
          ok (record {
            calls =
                map (λ k. add_var (carried k.0 k.1.0 k.1.1) (zero_num N) none) ks
                ++ (balances
                    ++ (add_var alpha (zero_num N) (some (one_num N))
                        ∷ (caps ++ minimize (var N alpha) ∷ [])));
            U = U;
            F = F;
          })

  -- A round's draw: the two nodes and the rate.
  abbrev pub Draw : Type 0
  Draw = (ℕ × ℕ) × Num

  -- The flows so far, and the last model that had a solution, with the solution.
  pub record Rounds : Type 0 where
    pub flows : List (Flow N)
    pub feasible : Option (Model × (Variable → Num))
    pub stopped : Bool

  unfoldable pub mcf_rounds :
      (List (Call N) → Option (Variable → Num))
      → Digraph
      → List (Flow N)
      → Option (Model × (Variable → Num))
      → List Draw
      → Result Rounds
  unfolding create_mcf_model
  mcf_rounds optimize g flows m [] = ok (record { flows = flows; feasible = m; stopped = false })
  mcf_rounds optimize g flows m (d ∷ ds) = create_mcf_model g flows d.0.0 d.0.1 d.1 >>= λ model.
      elim (optimize model.calls) [
        | none ↦ ok (record { flows = flows; feasible = m; stopped = true })
        | some a ↦
            mcf_rounds optimize g (flows ++ without_paths d.0.0 d.0.1 d.1 ∷ []) (some (model, a)) ds
      ]

  -- A missing key of a `defaultdict(float)`.
  abbrev pub or_zero : Option Num → Num
  or_zero none = zero_num N
  or_zero (some x) = x

  -- `defaultdict(float)`: the two directions of each link summed up.
  unfoldable pub both_directions :
      List (ℕ × Link)
      → (Variable → Num)
      → Utilization N
      → List (ℕ × LinExpr N)
      → Result (Utilization N)
  unfolding sorted_link value
  both_directions links a acc [] = ok acc
  both_directions links a acc ((l, e) ∷ U) = or_raise (lookup l links) key_error >>= λ link.
      let k = sorted_link link in
      let before = or_zero (lookup k acc) in
      both_directions links a (insert k (plus before (value N a e)) acc) U

  -- The flows with their routes, the use of the links, and whether the loop has ended; none where
  -- the traversal of the routes ran out of fuel, which Routes shows it never does.
  unfoldable pub compute_mcf_flows :
      (List (Call N) → Option (Variable → Num))
      → Digraph
      → List Draw
      → Result (Option (List (Flow N)) × (Utilization N × Bool))
  unfolding mcf_rounds both_directions do_f_sanity_checks compute_mcf_flow_routes
  compute_mcf_flows optimize g draws = mcf_rounds optimize g [] none draws >>= λ rounds.
      elim rounds.feasible [
        | none ↦ ok (some [], ([], rounds.stopped))
        | some m ↦
            let allocations = map (λ e. (e.0, m.1 e.1)) m.0.F in
            both_directions (enumerate_from 0 (edges_of g)) m.1 [] m.0.U >>= λ load.
            do_f_sanity_checks N rounds.flows allocations >>= λ sums.
            compute_mcf_flow_routes N rounds.flows allocations >>= λ flows.
            ok (flows, (load, rounds.stopped))
      ]

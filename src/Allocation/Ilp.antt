-- ===== src/Allocation/Ilp.antt =====
-- `compute_ilp_flows`, `compute_path_hopping_flows_ilp`, `testing_k_paths_flow_allocation` and
-- `create_test_k_paths_model` of rest_client/path_hopping/flow_allocation.py. gurobi is a
-- parameter: `optimize` gives the values of the variables, or none for a model without a solution.
-- The draws and networkx's paths come as a list of requests, as for the greedy allocation.
pub mod Checked
use cpsc_of_testbed.Base.{
  ℕ, zero, suc, List, [], ◌∷◌, ◌++◌, map, Bool, true, false, Option, none, some, Result, ok, raise,
  key_error, type_error, index_error, attribute_error, or_raise, ◌>>=◌, fold_result, pairwise,
  enumerate_from, length, pair_eq, nat_eq, ◌-◌,
}
use cpsc_of_testbed.Base.Dict.{Dict, lookup, insert, values}
use cpsc_of_testbed.Base.Numbers.{Number, zero_num, one_num}
use cpsc_of_testbed.Allocation.Flow.{Flow}
use cpsc_of_testbed.Allocation.Greedy.{Link, sorted_link, Request, Allocation, Utilization}
use cpsc_of_testbed.Allocation.Program.{
  Variable, split, portion, capped, LinExpr, constant, add, var, Call, add_var, add_semicont,
  must_equal,
}
use cpsc_of_testbed.Allocation.Splits.{
  link_set, paths_of, split_flows, portion_keys, portions, add_link, unit_var, with_new_flow,
  create_k_paths_model, create_path_hopping_ilp_model,
}

-- `zip(xs, ys)`
abbrev pub zip {ℓ κ} : {A : Type ℓ} {B : Type κ} → List A → List B → List (A × B)
zip [] ys = []
zip (x ∷ xs) [] = []
zip (x ∷ xs) (y ∷ ys) = (x, y) ∷ zip xs ys

-- The link of an index: `{index: link for index, link in enumerate(edges)}`.
abbrev pub indexed : List (ℕ × ℕ) → Dict ℕ Link
indexed edges = enumerate_from 0 edges

module _ (N : Number) where
  open N use {Num, plus, times}

  -- A flow that the model could take, before its splitting ratio is known.
  abbrev pub solved : Request N → Flow N
  solved r = record {
    source_node = r.source_node;
    destination_node = r.destination_node;
    flow_tx_rate = r.flow_tx_rate;
    paths = some r.connecting_paths;
    splitting_ratio = some [];
  }

  -- The flows of the rounds, and the last model that had a solution, with the solution; `stopped`
  -- says whether the loop has ended, which it does at the first model without a solution.
  pub record Rounds : Type 0 where
    pub flows : List (Flow N)
    pub feasible_model : Option (List (Call N) × (Variable → Num))
    pub stopped : Bool

  unfoldable pub solve_rounds :
      (List (Call N) → Option (Variable → Num))
      → (List (Flow N) → Request N → Result (List (Call N)))
      → List (Flow N)
      → Option (List (Call N) × (Variable → Num))
      → List (Request N)
      → Result Rounds
  solve_rounds optimize build flows m [] =
      ok (record { flows = flows; feasible_model = m; stopped = false })
  solve_rounds optimize build flows m (r ∷ rs) = build flows r >>= λ calls. elim (optimize calls) [
    | none ↦ ok (record { flows = flows; feasible_model = m; stopped = true })
    | some a ↦ solve_rounds optimize build (flows ++ solved r ∷ []) (some (calls, a)) rs
  ]

  -- `flows[i].splitting_ratio.append(x)`
  unfoldable pub append_ratio : ℕ → Num → List (Flow N) → Result (List (Flow N))
  append_ratio i x [] = raise index_error
  append_ratio zero x (f ∷ fs) = or_raise f.splitting_ratio attribute_error >>= λ xs. ok (
      record {
        source_node = f.source_node;
        destination_node = f.destination_node;
        flow_tx_rate = f.flow_tx_rate;
        paths = f.paths;
        splitting_ratio = some (xs ++ x ∷ []);
      }
      ∷ fs)
  append_ratio (suc i) x (f ∷ fs) = append_ratio i x fs >>= λ gs. ok (f ∷ gs)

  -- One variable of the solved model: the X are splitting ratios, the K the use of the links.
  unfoldable pub read_variable :
      Dict ℕ Link
      → (Variable → Num)
      → List (Flow N) × Utilization N
      → Variable
      → Result (List (Flow N) × Utilization N)
  unfolding append_ratio
  read_variable links a s (split i j) = append_ratio i (a (split i j)) s.0 >>= λ fs. ok (fs, s.1)
  read_variable links a s (capped l) =
      or_raise (lookup l links) key_error >>= λ link. ok (s.0, insert link (a (capped l)) s.1)
  read_variable links a s v = ok s

  -- `getVars()`, in the order they were added.
  abbrev pub get_vars : List (Call N) → List Variable
  get_vars [] = []
  get_vars (add_var v lower upper ∷ calls) = v ∷ get_vars calls
  get_vars (add_semicont v lower upper ∷ calls) = v ∷ get_vars calls
  get_vars (c ∷ calls) = get_vars calls

  -- `link_capacity_map[tuple(sorted(link))] += splitting_ratio * flow.flow_tx_rate`
  abbrev pub charge_link : Num → Utilization N → Link → Result (Utilization N)
  charge_link x d l = or_raise (lookup (sorted_link l) d) key_error >>= λ used.
      ok (insert (sorted_link l) (plus used x) d)

  abbrev pub charge_path : Num → Utilization N → List ℕ × Num → Result (Utilization N)
  charge_path rate d p = fold_result (charge_link (times p.1 rate)) d (pairwise p.0)

  unfoldable pub charge_flow : Utilization N → Flow N → Result (Utilization N)
  charge_flow d f = paths_of N f >>= λ ps. or_raise f.splitting_ratio type_error >>= λ xs.
      fold_result (charge_path f.flow_tx_rate) d (zip ps xs)

  -- The keys are the edges as they are, not sorted.
  abbrev pub idle : List Link → Utilization N
  idle edges = map (λ l. (l, zero_num N)) edges

  -- What follows the loop of compute_ilp_flows: the load of each link, by the splitting ratios.
  unfoldable pub check_flows :
      List Link → Option (List (Flow N) × Utilization N) × Bool → Result (Allocation N)
  unfolding charge_flow
  check_flows edges (none, stopped) =
      ok (record { flows = []; link_utilization = []; stopped = stopped })
  check_flows edges (some s, stopped) = fold_result charge_flow (idle edges) s.0 >>= λ d.
      ok (record { flows = s.0; link_utilization = d; stopped = stopped })

  module _ (optimize : List (Call N) → Option (Variable → Num)) where
    -- The loop, and the splitting ratios of the last solution; none if there is no solution at all.
    unfoldable pub solve :
        (List (Flow N) → Request N → Result (List (Call N)))
        → Dict ℕ Link
        → List (Request N)
        → Result (Option (List (Flow N) × Utilization N) × Bool)
    unfolding solve_rounds read_variable
    solve build links draws = solve_rounds optimize build [] none draws >>= λ rounds.
        elim rounds.feasible_model [
          | none ↦ ok (none, rounds.stopped)
          | some m ↦
              fold_result (read_variable links m.1) (rounds.flows, []) (get_vars m.0) >>= λ s.
              ok (some s, rounds.stopped)
        ]

    abbrev pub k_paths_of : List Link → List (Flow N) → Request N → Result (List (Call N))
    k_paths_of edges flows r =
        create_k_paths_model N edges flows r.source_node r.destination_node r.flow_tx_rate
          r.connecting_paths

    unfoldable pub compute_ilp_flows : List Link → List (Request N) → Result (Allocation N)
    unfolding solve check_flows create_k_paths_model
    compute_ilp_flows edges draws =
        solve (k_paths_of edges) (indexed edges) draws >>= check_flows edges

    unfoldable pub compute_path_hopping_flows_ilp :
        List Link → ℕ → List (Request N) → Result (Allocation N)
    unfolding solve create_path_hopping_ilp_model
    compute_path_hopping_flows_ilp edges k draws =
        let build = λ (flows : List (Flow N)) (r : Request N).
          create_path_hopping_ilp_model N edges flows r.source_node r.destination_node
            r.flow_tx_rate r.connecting_paths k in
        solve build (indexed (map sorted_link edges)) draws >>= λ s. elim s.0 [
          | none ↦ ok (record { flows = []; link_utilization = []; stopped = s.1 })
          | some t ↦ ok (record { flows = t.0; link_utilization = t.1; stopped = s.1 })
        ]

  -- The second create_test_k_paths_model, which replaces the first. Its loop over the links misspells
  -- flow_index, so that every flow is added with the index of the last one; and its call of addVar
  -- for alpha gives the lower bound twice, which is a TypeError.
  abbrev pub add_misspelt :
      Dict Link ℕ → ℕ → Flow N → Dict (ℕ × ℕ) (LinExpr N) → Result (Dict (ℕ × ℕ) (LinExpr N))
  add_misspelt links last f d = paths_of N f >>= λ ps.
      fold_result
        (λ d (jp : ℕ × List ℕ).
          fold_result (add_link N links f.flow_tx_rate last jp.0) d (pairwise jp.1))
        d (enumerate_from 0 ps)

  unfoldable pub create_test_k_paths_model :
      List Link → List (Flow N) → ℕ → ℕ → Num → List (List ℕ) → Result (List (Call N))
  unfolding split_flows link_set add_link
  create_test_k_paths_model edges flows source_node destination_node rate k_disjoint_paths =
      let all = with_new_flow N flows source_node destination_node rate k_disjoint_paths in
      let links = link_set edges in
      let ks = portion_keys N 0 all (values links) in
      split_flows N (unit_var N) 0 all >>= λ splits.
      fold_result (λ d f. add_misspelt links (length all - 1) f d)
        (map (λ k. (k, constant (zero_num N))) ks) all
      >>= λ d. raise type_error

  unfoldable pub testing_k_paths_flow_allocation :
      (List (Call N) → Option (Variable → Num))
      → List Link
      → List (Request N)
      → Result (Allocation N)
  unfolding solve check_flows create_test_k_paths_model
  testing_k_paths_flow_allocation optimize edges draws =
      let build = λ (flows : List (Flow N)) (r : Request N).
        create_test_k_paths_model edges flows r.source_node r.destination_node r.flow_tx_rate
          r.connecting_paths in
      solve optimize build (indexed edges) draws >>= check_flows edges

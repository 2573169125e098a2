-- ===== src/Allocation/Splits.antt =====
-- `create_k_paths_model` and `create_path_hopping_ilp_model` of
-- rest_client/path_hopping/flow_allocation.py: how to split each flow over its paths.
pub mod Sums
pub mod Loads
pub mod Totals
pub mod Entries
pub mod Ratios
pub mod Capacity
use cpsc_of_testbed.Base.{
  ℕ, zero, suc, List, [], ◌∷◌, ◌++◌, map, Option, none, some, Result, ok, raise, key_error,
  type_error, zero_division, or_raise, ◌>>=◌, ◌>>◌, fold_result, pairwise, enumerate_from, length,
  pair_eq, nat_eq,
}
use cpsc_of_testbed.Base.Dict.{Dict, lookup, insert, values}
use cpsc_of_testbed.Base.Numbers.{Number, zero_num, one_num}
use cpsc_of_testbed.Allocation.Flow.{Flow}
use cpsc_of_testbed.Allocation.Greedy.{Link, sorted_link, link_capacity}
use cpsc_of_testbed.Allocation.Program.{
  Variable, split, portion, total, used, capped, alpha, LinExpr, constant, add, var, multiple,
  plus_var, Call, add_var, add_semicont, must_equal, must_be_at_most, must_be_at_least, minimize,
}

-- `{tuple(sorted(link)): index for index, link in enumerate(edges)}`
unfoldable pub link_set_from : ℕ → List Link → Dict Link ℕ → Dict Link ℕ
link_set_from i [] d = d
link_set_from i (l ∷ ls) d = link_set_from (suc i) ls (insert (sorted_link l) i d)

unfoldable pub link_set : List Link → Dict Link ℕ
unfolding link_set_from
link_set edges = link_set_from 0 edges []

module _ (N : Number) where
  open N use {Num, divide}

  -- `for ... in flow.paths`, where None is not iterable.
  abbrev pub paths_of : Flow N → Result (List (List ℕ))
  paths_of f = or_raise f.paths type_error

  -- The splitting ratios of a flow sum up to 1.
  abbrev pub split_vars : (Variable → Call N) → ℕ → ℕ → List (List ℕ) → List (Call N)
  split_vars declare i j [] = []
  split_vars declare i j (p ∷ ps) = declare (split i j) ∷ split_vars declare i (suc j) ps

  abbrev pub split_sum : ℕ → ℕ → List (List ℕ) → LinExpr N → LinExpr N
  split_sum i j [] e = e
  split_sum i j (p ∷ ps) e = split_sum i (suc j) ps (plus_var N e (split i j))

  abbrev pub split_flow : (Variable → Call N) → ℕ → List (List ℕ) → List (Call N)
  split_flow declare i ps =
      split_vars declare i 0 ps
      ++ must_equal (split_sum i 0 ps (constant (zero_num N))) (constant (one_num N)) ∷ []

  unfoldable pub split_flows : (Variable → Call N) → ℕ → List (Flow N) → Result (List (Call N))
  split_flows declare i [] = ok []
  split_flows declare i (f ∷ fs) = paths_of f >>= λ ps.
      split_flows declare (suc i) fs >>= λ calls. ok (split_flow declare i ps ++ calls)

  -- Y: what each flow has on each link, for the flows from index i on.
  abbrev pub Portions : Type 0
  Portions = Dict (ℕ × ℕ) (LinExpr N)

  abbrev pub portion_keys : ℕ → List (Flow N) → List ℕ → List (ℕ × ℕ)
  portion_keys i [] ls = []
  portion_keys i (f ∷ fs) ls = map (λ l. (i, l)) ls ++ portion_keys (suc i) fs ls

  -- The keys are all different.
  abbrev pub portions : List (ℕ × ℕ) → Portions
  portions ks = map (λ k. (k, var N (portion k.0 k.1))) ks

  -- `Y[flow_index, link_index] += X[flow_index, path_index] * flow.flow_tx_rate`
  unfoldable pub add_link : Dict Link ℕ → Num → ℕ → ℕ → Portions → Link → Result Portions
  add_link links rate i j d l = or_raise (lookup (sorted_link l) links) key_error >>= λ k.
      or_raise (lookup (i, k) d) key_error >>= λ e. ok (insert (i, k) (add e rate (split i j)) d)

  abbrev pub add_path : Dict Link ℕ → Num → ℕ → Portions → ℕ × List ℕ → Result Portions
  add_path links rate i d jp = fold_result (add_link links rate i jp.0) d (pairwise jp.1)

  abbrev pub add_flow_links : Dict Link ℕ → Portions → ℕ × Flow N → Result Portions
  add_flow_links links d f = paths_of f.1 >>= λ ps.
      fold_result (add_path links f.1.flow_tx_rate f.0) d (enumerate_from 0 ps)

  -- T[flow_index, link_index] == Y[flow_index, link_index]
  abbrev pub total_calls : Portions → List (Call N)
  total_calls [] = []
  total_calls ((k, e) ∷ d) =
      add_var (total k.0 k.1) (zero_num N) (some (one_num N))
      ∷ must_equal (var N (total k.0 k.1)) e
      ∷ total_calls d

  -- U: the sum over the flows of what is on each link.
  abbrev pub add_total : Dict ℕ (LinExpr N) → ℕ × ℕ → Result (Dict ℕ (LinExpr N))
  add_total d k =
      or_raise (lookup k.1 d) key_error >>= λ e. ok (insert k.1 (plus_var N e (total k.0 k.1)) d)

  abbrev pub cap_calls : Dict ℕ (LinExpr N) → List (Call N)
  cap_calls [] = []
  cap_calls ((l, e) ∷ d) =
      must_equal (var N (capped l)) e
      ∷ must_be_at_most (var N (capped l)) (multiple N (link_capacity N) alpha)
      ∷ cap_calls d

  -- `addVar(lb=0.0, ub=1.0)`, and `addVar()`, whose lower bound is 0.
  abbrev pub unit_var : Variable → Call N
  unit_var v = add_var v (zero_num N) (some (one_num N))

  abbrev pub positive_var : Variable → Call N
  positive_var v = add_var v (zero_num N) none

  abbrev pub bound_alpha : List (Call N)
  bound_alpha = unit_var alpha ∷ must_be_at_least (var N alpha) (constant (zero_num N)) ∷ []

  -- The model, in the order of the calls.
  unfoldable pub split_model :
      (Variable → Call N) → List Link → List (Flow N) → Result (List (Call N))
  unfolding link_set split_flows add_link
  split_model declare edges flows =
      let links = link_set edges in
      let ls = values links in
      let ks = portion_keys 0 flows ls in
      split_flows declare 0 flows >>= λ splits.
      fold_result (add_flow_links links) (portions ks) (enumerate_from 0 flows) >>= λ d.
      fold_result add_total (map (λ l. (l, var N (used l))) ls) ks >>= λ sums. ok (
        splits
        ++ (map (λ k. unit_var (portion k.0 k.1)) ks
            ++ (total_calls d
                ++ (bound_alpha
                    ++ (map (λ l. positive_var (used l)) ls
                        ++ (map (λ l. positive_var (capped l)) ls
                            ++ (cap_calls sums ++ minimize (var N alpha) ∷ [])))))))

  abbrev pub with_new_flow : List (Flow N) → ℕ → ℕ → Num → List (List ℕ) → List (Flow N)
  with_new_flow flows source_node destination_node rate ps =
      flows
      ++ record {
        source_node = source_node;
        destination_node = destination_node;
        flow_tx_rate = rate;
        paths = some ps;
        splitting_ratio = none;
      }
        ∷ []

  unfoldable pub create_k_paths_model :
      List Link → List (Flow N) → ℕ → ℕ → Num → List (List ℕ) → Result (List (Call N))
  unfolding split_model
  create_k_paths_model edges flows source_node destination_node rate k_shortest_paths =
      split_model unit_var edges
        (with_new_flow flows source_node destination_node rate k_shortest_paths)

  -- `1.0/K` at K = 0: it is computed for the first path of a flow.
  unfoldable pub zero_share : List (Flow N) → Result (Unit {0})
  zero_share [] = ok tt
  zero_share (f ∷ fs) =
      paths_of f >>= λ ps. elim ps [ [] ↦ zero_share fs | p ∷ more ↦ raise zero_division ]

  abbrev pub check_share : List (Flow N) → ℕ → Result (Unit {0})
  check_share flows zero = zero_share flows
  check_share flows (suc k) = ok tt

  -- Here a flow uses each path with the share 1/K, or not at all.
  unfoldable pub create_path_hopping_ilp_model :
      List Link → List (Flow N) → ℕ → ℕ → Num → List (List ℕ) → ℕ → Result (List (Call N))
  unfolding split_model zero_share
  create_path_hopping_ilp_model edges flows source_node destination_node rate disjoint_paths k =
      let all = with_new_flow flows source_node destination_node rate disjoint_paths in
      let share = divide (one_num N) k in
      check_share all k >> split_model (λ v. add_semicont v share (some share)) edges all

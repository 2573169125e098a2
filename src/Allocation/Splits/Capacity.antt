-- ===== src/Allocation/Splits/Capacity.antt =====
-- A solution of the model keeps every link within its capacity.
use mathlib.Core.Path.{subst}
use cpsc_of_testbed.Base.{
  ℕ, suc, List, [], ◌∷◌, ◌++◌, map, ◌≡◌, sym, ◌∙◌, ok, ◌>>=◌, fold_result, fold_result_inv,
  >>=-eq-ok, enumerate_from, nat_eq, pair_eq, ok_injective, contains_iff, In, In-left, In-right,
  In-map, All, All-split, All-In, All-unmap,
}
use cpsc_of_testbed.Base.Dict.{Dict, values, lookup-map}
use cpsc_of_testbed.Base.Numbers.{Number, zero_num, one_num, Le, IsOrdered}
use cpsc_of_testbed.Allocation.Flow.{Flow}
use cpsc_of_testbed.Allocation.Greedy.{Link, link_capacity}
use cpsc_of_testbed.Allocation.Program.{
  Variable, portion, used, capped, alpha, LinExpr, var, value, Call, minimize, Holds, IsFeasible,
}
use cpsc_of_testbed.Allocation.Splits.{
  Portions, portions, portion_keys, add_flow_links, add_total, total_calls, cap_calls, unit_var,
  positive_var, bound_alpha, link_set, split_flows, split_model,
}
use cpsc_of_testbed.Allocation.Splits.Sums.{load_flows}
use cpsc_of_testbed.Allocation.Splits.Loads.{portion_of, portion_of-found, Loaded, add_flows-Loaded}
use cpsc_of_testbed.Allocation.Splits.Totals.{
  use_of, use_of-found, add_totals-use, Totals, load_flows-Le,
}
use cpsc_of_testbed.Allocation.Splits.Entries.{
  HasKey, add_flow-HasKey, add_total-HasKey, value-var, total-Holds, cap-Holds,
}

module _ (N : Number) (laws : IsOrdered N) (a : Variable → Number.Num N) where
  open N use {Num, plus, times, gt}

  -- The flows from index i on have what the model gives them.
  module _ (links : Dict Link ℕ) (k : ℕ) (ls : List ℕ) (listed : In k ls) (ks : List (ℕ × ℕ))
      (d d' : Portions N) (calls : IsFeasible N a (total_calls N d'))
      (start : (i : ℕ) → In (i, k) ks → Le N (zero_num N) (portion_of N links a k d i))
      (kept : (i : ℕ) → In (i, k) ks → HasKey N (i, k) d') where
    flows-Totals :
        (i : ℕ) (fs : List (Flow N))
        → ((j : ℕ × ℕ) → In j (portion_keys N i fs ls) → In j ks)
        → Loaded N links a k d d' i fs
        → Totals N links a k laws i fs
    flows-Totals i [] known h = tt
    flows-Totals i (f ∷ fs) known h =
        let here = map (λ l. (i, l)) ls in
        let rest = portion_keys N (suc i) fs ls in
        let m = known (i, k) (In-left (i, k) here rest (In-map (λ l. (i, l)) k ls listed)) in
        let (e, found) = kept i m in
        let (positive, is) = total-Holds N laws a d' (i, k) e calls found in
        (
          (
            portion_of N links a k d i,
            start i m,
            is ∙ sym (portion_of-found N links a k d' i e found) ∙ h.0,
            positive,
          ),
          flows-Totals (suc i) fs (λ j n. known j (In-right j here rest n)) h.1,
        )

  -- The parts of a model.
  abbrev parts :
      List (Call N) → List ℕ → List (ℕ × ℕ) → Portions N → Dict ℕ (LinExpr N) → List (Call N)
  parts splits ls ks d sums =
      splits
      ++ (map (λ k. unit_var N (portion k.0 k.1)) ks
          ++ (total_calls N d
              ++ (bound_alpha N
                  ++ (map (λ l. positive_var N (used l)) ls
                      ++ (map (λ l. positive_var N (capped l)) ls
                          ++ (cap_calls N sums ++ minimize (var N alpha) ∷ []))))))

  record Parts (splits : List (Call N)) (ls : List ℕ) (ks : List (ℕ × ℕ)) (d : Portions N)
      (sums : Dict ℕ (LinExpr N)) : Type 0 where
    splits_hold : IsFeasible N a splits
    portions_hold : All (λ k. Holds N a (unit_var N (portion k.0 k.1))) ks
    totals_hold : IsFeasible N a (total_calls N d)
    alpha_holds : Le N (a alpha) (one_num N)
    uses_hold : All (λ l. Holds N a (positive_var N (used l))) ls
    caps_hold : IsFeasible N a (cap_calls N sums)

  feasible-Parts :
      (splits : List (Call N)) (ls : List ℕ) (ks : List (ℕ × ℕ)) (d : Portions N)
      (sums : Dict ℕ (LinExpr N))
      → IsFeasible N a (parts splits ls ks d sums)
      → Parts splits ls ks d sums
  feasible-Parts splits ls ks d sums h =
      let p6 = cap_calls N sums ++ minimize (var N alpha) ∷ [] in
      let c5 = map (λ l. positive_var N (capped l)) ls in
      let c4 = map (λ l. positive_var N (used l)) ls in
      let c2 = map (λ (k : ℕ × ℕ). unit_var N (portion k.0 k.1)) ks in
      let p5 = c5 ++ p6 in
      let p4 = c4 ++ p5 in
      let p3 = bound_alpha N ++ p4 in
      let p2 = total_calls N d ++ p3 in
      let (splits_in, h1) = All-split (Holds N a) splits (c2 ++ p2) h in
      let (portions_in, h2) = All-split (Holds N a) c2 p2 h1 in
      let (totals_in, h3) = All-split (Holds N a) (total_calls N d) p3 h2 in
      let (alpha_in, h4) = All-split (Holds N a) (bound_alpha N) p4 h3 in
      let (uses_in, h5) = All-split (Holds N a) c4 p5 h4 in
      let (_, h6) = All-split (Holds N a) c5 p6 h5 in
      let (caps_in, _) =
        All-split (Holds N a) (cap_calls N sums) (minimize (var N alpha) ∷ []) h6 in
      record {
        splits_hold = splits_in;
        portions_hold =
            All-unmap (Holds N a) (λ (k : ℕ × ℕ). unit_var N (portion k.0 k.1)) ks portions_in;
        totals_hold = totals_in;
        alpha_holds = alpha_in.0.1;
        uses_hold = All-unmap (Holds N a) (λ l. positive_var N (used l)) ls uses_in;
        caps_hold = caps_in;
      }

  solved-IsWithin :
      {splits : List (Call N)} (links : Dict Link ℕ) (flows : List (Flow N)) (d : Portions N)
      (sums : Dict ℕ (LinExpr N))
      → let ls = values links in
        let ks = portion_keys N 0 flows ls in
        fold_result (add_flow_links N links) (portions N ks) (enumerate_from 0 flows) ≡ ok d
        → fold_result (add_total N) (map (λ l. (l, var N (used l))) ls) ks ≡ ok sums
        → Parts splits ls ks d sums
        → (k : ℕ) → In k ls
        → Le N (load_flows N links a k (enumerate_from 0 flows) (zero_num N)) (link_capacity N)
  solved-IsWithin links flows d sums placed summed p k listed =
      let ls = values links in
      let ks = portion_keys N 0 flows ls in
      let own : ℕ × ℕ → LinExpr N = λ j. var N (portion j.0 j.1) in
      let own_use : ℕ → LinExpr N = λ l. var N (used l) in
      let first_use = lookup-map own_use k ls listed in
      let kept = λ (i : ℕ) (m : In (i, k) ks).
        fold_result_inv (HasKey N (i, k)) (add_flow_links N links) (add_flow-HasKey N links (i, k))
          (portions N ks) (enumerate_from 0 flows) d (own (i, k), lookup-map own (i, k) ks m)
          placed in
      let positive = λ (i : ℕ) (m : In (i, k) ks).
        subst (Le N (zero_num N))
          (sym (
            portion_of-found N links a k (portions N ks) i (own (i, k)) (lookup-map own (i, k) ks m)
            ∙ value-var N laws a (portion i k)))
          (All-In (λ (j : ℕ × ℕ). Holds N a (unit_var N (portion j.0 j.1))) ks p.portions_hold
            (i, k) m).0 in
      let totals =
        flows-Totals links k ls listed ks (portions N ks) d p.totals_hold positive kept 0 flows
          (λ j m. m) (add_flows-Loaded N links a k 0 flows (portions N ks) d placed).0 in
      let use_positive : Le N (zero_num N) (use_of N links a k (map (λ l. (l, own_use l)) ls)) =
        subst (Le N (zero_num N))
          (sym (
            use_of-found N links a k (map (λ l. (l, own_use l)) ls) (own_use k) first_use
            ∙ value-var N laws a (used k)))
          (All-In (λ l. Holds N a (positive_var N (used l))) ls p.uses_hold k listed).0 in
      let (e, found) =
        fold_result_inv (HasKey N k) (add_total N) (add_total-HasKey N k)
          (map (λ l. (l, own_use l)) ls) ks sums (own_use k, first_use) summed in
      let loads =
        load_flows-Le N links a k laws 0 flows ls (zero_num N)
          (use_of N links a k (map (λ l. (l, own_use l)) ls)) totals ((contains_iff k ls).1 listed)
          use_positive in
      let total_is =
        sym (add_totals-use N links a k ks (map (λ l. (l, own_use l)) ls) sums summed)
        ∙ use_of-found N links a k sums e found in
      laws.le_trans (load_flows N links a k (enumerate_from 0 flows) (zero_num N)) (value N a e)
        (link_capacity N)
        (subst (Le N (load_flows N links a k (enumerate_from 0 flows) (zero_num N))) total_is loads)
        (cap-Holds N laws a sums k e p.caps_hold p.alpha_holds found)

  -- The loads that a solution puts on the links.
  abbrev pub IsWithin : List Link → List (Flow N) → Type 0
  IsWithin edges flows =
      (k : ℕ)
      → In k (values (link_set edges))
      → Le N (load_flows N (link_set edges) a k (enumerate_from 0 flows) (zero_num N))
          (link_capacity N)

  -- A solution of the model solves the part about the splitting ratios, and it puts no more on a link
  -- than its capacity.
  pub split_model-IsWithin :
      (declare : Variable → Call N) (edges : List Link) (flows : List (Flow N))
      (calls : List (Call N))
      → split_model N declare edges flows ≡ ok calls
      → IsFeasible N a calls
      → ((splits : List (Call N)) × (split_flows N declare 0 flows ≡ ok splits)
          × IsFeasible N a splits)
        × IsWithin edges flows
  unfolding split_model
  split_model-IsWithin declare edges flows calls h feasible =
      let links = link_set edges in
      let ls = values links in
      let ks = portion_keys N 0 flows ls in
      let start = portions N ks in
      let use_start = map (λ l. (l, var N (used l))) ls in
      let (splits, built, h1) =
        >>=-eq-ok (split_flows N declare 0 flows)
          (λ splits. fold_result (add_flow_links N links) start (enumerate_from 0 flows) >>= λ d.
            fold_result (add_total N) use_start ks >>= λ sums. ok (parts splits ls ks d sums))
          h in
      let (d, placed, h2) =
        >>=-eq-ok (fold_result (add_flow_links N links) start (enumerate_from 0 flows))
          (λ d. fold_result (add_total N) use_start ks >>= λ sums. ok (parts splits ls ks d sums))
          h1 in
      let (sums, summed, h3) =
        >>=-eq-ok (fold_result (add_total N) use_start ks) (λ sums. ok (parts splits ls ks d sums))
          h2 in
      let p =
        feasible-Parts splits ls ks d sums
          (subst (IsFeasible N a) (sym (ok_injective h3)) feasible) in
      ((splits, built, p.splits_hold), solved-IsWithin links flows d sums placed summed p)

-- ===== src/Allocation/Ilp/Checked.antt =====
-- What the loops over the linear programs return.
use mathlib.Core.Path.{subst}
use cpsc_of_testbed.Base.{
  ℕ, suc, List, [], ◌∷◌, ◌++◌, ◌≡◌, refl, sym, Option, none, some, Option-cases, inl, inr, Result,
  ok, >>=-eq-ok, ok_injective, enumerate_from, true,
}
use cpsc_of_testbed.Base.Numbers.{Number, zero_num, Le, IsOrdered}
use cpsc_of_testbed.Allocation.Flow.{Flow}
use cpsc_of_testbed.Allocation.Greedy.{Link, Request, link_capacity}
use cpsc_of_testbed.Allocation.Program.{Variable, Call, IsFeasible}
use cpsc_of_testbed.Allocation.Splits.{with_new_flow, link_set}
use cpsc_of_testbed.Allocation.Splits.Sums.{load_flow, load_flows}
use cpsc_of_testbed.Allocation.Splits.Ratios.{IsSplitting, AllSplit, IsRatio, k_paths-IsSplitting}
use cpsc_of_testbed.Allocation.Ilp.{solved, Rounds, solve_rounds, k_paths_of}

module _ (N : Number) (laws : IsOrdered N) where
  open N use {Num, divide}

  -- The splitting ratio that a flow is given later does not matter.
  abbrev renewed : List (Flow N) → Request N → List (Flow N)
  renewed flows r =
      with_new_flow N flows r.source_node r.destination_node r.flow_tx_rate r.connecting_paths

  module _ (a : Variable → Num) (r : Request N) where
    load_flows-solved :
        (edges : List Link) (k i : ℕ) (fs : List (Flow N)) (acc : Num)
        → load_flows N (link_set edges) a k (enumerate_from i (renewed fs r)) acc
          ≡ load_flows N (link_set edges) a k (enumerate_from i (fs ++ solved N r ∷ [])) acc
    load_flows-solved edges k i [] acc = refl
    load_flows-solved edges k i (f ∷ fs) acc =
        load_flows-solved edges k (suc i) fs (load_flow N (link_set edges) a k (i, f) acc)

    AllSplit-solved :
        (P : Num → Type 0) (i : ℕ) (fs : List (Flow N))
        → AllSplit N laws a P i (renewed fs r)
        → AllSplit N laws a P i (fs ++ solved N r ∷ [])
    AllSplit-solved P i [] h = h
    AllSplit-solved P i (f ∷ fs) h = (h.0, AllSplit-solved P (suc i) fs h.1)

    IsSplitting-solved :
        (P : Num → Type 0) (edges : List Link) (fs : List (Flow N))
        → IsSplitting N laws a P edges (renewed fs r)
        → IsSplitting N laws a P edges (fs ++ solved N r ∷ [])
    IsSplitting-solved P edges fs h = (
      AllSplit-solved P 0 fs h.0,
      λ k listed.
          subst (λ x. Le N x (link_capacity N)) (load_flows-solved edges k 0 fs (zero_num N))
            (h.1 k listed),
    )

  -- The last solution of a loop splits all flows that it has admitted; without one there are none.
  abbrev pub IsSolved :
      (Num → Type 0)
      → List Link
      → List (Flow N)
      → Option (List (Call N) × (Variable → Num))
      → Type 0
  IsSolved P edges flows none = flows ≡ []
  IsSolved P edges flows (some m) = IsSplitting N laws m.1 P edges flows

  module _ (optimize : List (Call N) → Option (Variable → Num))
      (sound : (calls : List (Call N)) (a : Variable → Num)
        → optimize calls ≡ some a
        → IsFeasible N a calls)
      (P : Num → Type 0) (edges : List Link)
      (build : List (Flow N) → Request N → Result (List (Call N)))
      (splits : (a : Variable → Num) (flows : List (Flow N)) (r : Request N) (calls : List (Call N))
        → build flows r ≡ ok calls
        → IsFeasible N a calls
        → IsSplitting N laws a P edges (renewed flows r)) where
    solve_rounds-IsSolved :
        (draws : List (Request N)) (flows : List (Flow N))
        (m : Option (List (Call N) × (Variable → Num))) (rounds : Rounds N)
        → IsSolved P edges flows m
        → solve_rounds N optimize build flows m draws ≡ ok rounds
        → IsSolved P edges rounds.flows rounds.feasible_model
    unfolding solve_rounds
    solve_rounds-IsSolved [] flows m rounds before h = rw (sym (ok_injective h)) before
    solve_rounds-IsSolved (r ∷ rs) flows m rounds before h =
        let after = λ (calls : List (Call N)) (o : Option (Variable → Num)).
          elim o as (λ _. Result (Rounds N)) [
            | none ↦ ok (record { flows = flows; feasible_model = m; stopped = true })
            | some a ↦ solve_rounds N optimize build (flows ++ solved N r ∷ []) (some (calls, a)) rs
          ] in
        let (calls, built, rest) =
          >>=-eq-ok (build flows r) (λ calls. after calls (optimize calls)) h in
        elim (Option-cases (optimize calls)) [
          | inl e ↦
              let last : after calls none ≡ ok rounds =
                subst (λ o. after calls o ≡ ok rounds) e rest in
              rw (sym (ok_injective last)) before
          | inr (a, e) ↦
              let later : after calls (some a) ≡ ok rounds =
                subst (λ o. after calls o ≡ ok rounds) e rest in
              solve_rounds-IsSolved rs (flows ++ solved N r ∷ []) (some (calls, a)) rounds
                (IsSplitting-solved a r P edges flows
                  (splits a flows r calls built (sound calls a e)))
                later
        ]

  -- Whatever the draws are: when the loop of the K-paths allocation is over, the solution that it
  -- keeps splits all the flows that it has admitted over their paths, completely and within the
  -- capacity of every link. The solver finds solutions of its models only; the numbers are exact.
  pub k_paths_rounds-IsSolved :
      (optimize : List (Call N) → Option (Variable → Num))
      → ((calls : List (Call N)) (a : Variable → Num)
          → optimize calls ≡ some a
          → IsFeasible N a calls)
      → (edges : List Link) (draws : List (Request N)) (rounds : Rounds N)
      → solve_rounds N optimize (k_paths_of N optimize edges) [] none draws ≡ ok rounds
      → IsSolved (IsRatio N) edges rounds.flows rounds.feasible_model
  k_paths_rounds-IsSolved optimize sound edges draws rounds =
      solve_rounds-IsSolved optimize sound (IsRatio N) edges (k_paths_of N optimize edges)
        (λ a flows r.
          k_paths-IsSplitting N laws a edges flows r.source_node r.destination_node r.flow_tx_rate
            r.connecting_paths)
        draws [] none rounds refl

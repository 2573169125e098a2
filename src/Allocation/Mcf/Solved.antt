-- ===== src/Allocation/Mcf/Solved.antt =====
-- What the solutions of `create_mcf_model` are, and what the loop of `compute_mcf_flows` keeps.
use cpsc_of_testbed.Base.{
  true, ℕ, List, [], ◌∷◌, ◌++◌, map, ◌≡◌, refl, sym, subst, Option, none, some, Option-cases, inl,
  inr, Result, ok, ok_injective, >>=-eq-ok, fold_result, map_result, All, All-split, All-unmap,
  All-imply, add_all, pair_eq,
}
use cpsc_of_testbed.Base.Dict.{Dict, keys, values}
use cpsc_of_testbed.Base.Numbers.{Number, zero_num, one_num, Le, IsOrdered}
use cpsc_of_testbed.Allocation.Flow.{Flow}
use cpsc_of_testbed.Allocation.Greedy.{Link, sorted_link}
use cpsc_of_testbed.Allocation.Program.{
  Variable, carried, alpha, constant, var, Call, add_var, minimize, Holds, IsFeasible,
}
use cpsc_of_testbed.Allocation.Mcf.{
  Digraph, Key, edges_of, flow_keys, flow_vars, balance_flows, add_use, cap_link, link_indices,
  Model, without_paths, create_mcf_model, Draw, Rounds, mcf_rounds,
}
use cpsc_of_testbed.Allocation.Mcf.Conserved.{AllConserved, balance_flows-AllConserved}
use cpsc_of_testbed.Allocation.Mcf.Loaded.{IsWithinBoth, cap_links-All}

module _ (N : Number) (laws : IsOrdered N) where
  open N use {Num}

  abbrev pub indices_of : Digraph → Dict Link ℕ
  indices_of g = link_indices N 0 (edges_of g) []

  -- The keys of the flows: each on each direction of each link.
  abbrev pub keys_of : Digraph → List (Flow N) → List Key
  keys_of g flows = flow_keys N 0 flows (keys (indices_of g))

  -- A flow of each of these through the network: nothing negative is carried, every node passes on what
  -- it receives, and no link is used above its capacity in both directions together.
  pub record IsFlow (g : Digraph) (a : Variable → Num) (flows : List (Flow N)) : Type 0 where
    pub positive : All (λ k. Le N (zero_num N) (a (carried k.0 k.1.0 k.1.1))) (keys_of g flows)
    pub conserved : AllConserved N laws a g 0 flows
    pub within :
        All
          (IsWithinBoth N laws a (indices_of g) flows (flow_vars N (keys_of g flows)))
          (add_all [] (map sorted_link (keys (indices_of g))))

  -- Every solution of the model is a flow through the network for all flows, the new one included. The
  -- numbers are exact.
  pub create_mcf_model-IsFlow :
      (g : Digraph) (flows : List (Flow N)) (s t : ℕ) (rate : Num) (a : Variable → Num)
      (m : Model N)
      → create_mcf_model N g flows s t rate ≡ ok m
      → IsFeasible N a m.calls
      → IsFlow g a (flows ++ without_paths N s t rate ∷ [])
  unfolding create_mcf_model
  create_mcf_model-IsFlow g flows s t rate a m h feasible =
      let all = flows ++ without_paths N s t rate ∷ [] in
      let links = indices_of g in
      let ks = keys_of g all in
      let F = flow_vars N ks in
      let edges = add_all [] (map sorted_link (keys links)) in
      let start = map (λ l. (l, constant (zero_num N))) (values links) in
      let (balances, balanced, h1) = >>=-eq-ok (balance_flows N g F 0 all) _ h in
      let (U, loaded, h2) = >>=-eq-ok (fold_result (add_use N links all) start F) _ h1 in
      let (caps, capped, h3) = >>=-eq-ok (map_result (cap_link N links U) edges) _ h2 in
      let vars = map (λ (k : Key). add_var (carried k.0 k.1.0 k.1.1) (zero_num N) none) ks in
      let ends = minimize (var N alpha) ∷ [] in
      let bound = add_var alpha (zero_num N) (some (one_num N)) in
      let holds : IsFeasible N a (vars ++ (balances ++ (bound ∷ (caps ++ ends)))) =
        subst (λ (m : Model N). IsFeasible N a m.calls) (sym (ok_injective h3)) feasible in
      let (vars_hold, r1) =
        All-split (Holds N a) vars (balances ++ (bound ∷ (caps ++ ends))) holds in
      let (balances_hold, r2) = All-split (Holds N a) balances (bound ∷ (caps ++ ends)) r1 in
      let (caps_hold, _) = All-split (Holds N a) caps ends r2.1 in
      record {
        positive =
            All-imply (λ k v. v.0) ks
              (All-unmap (Holds N a)
                (λ (k : Key). add_var (carried k.0 k.1.0 k.1.1) (zero_num N) none) ks vars_hold);
        conserved = balance_flows-AllConserved N laws a ks g 0 all balances balanced balances_hold;
        within =
            cap_links-All N laws a links all F (values links) U loaded r2.0.1 edges caps capped
              caps_hold;
      }

  -- The last solution of the loop is a flow for all flows admitted; without one there are none.
  abbrev pub IsKept : Digraph → List (Flow N) → Option (Model N × (Variable → Num)) → Type 0
  IsKept g flows none = flows ≡ []
  IsKept g flows (some m) = IsFlow g m.1 flows

  module _ (optimize : List (Call N) → Option (Variable → Num))
      (sound : (calls : List (Call N)) (a : Variable → Num)
        → optimize calls ≡ some a
        → IsFeasible N a calls)
      (g : Digraph) where
    rounds-IsKept :
        (draws : List (Draw N)) (flows : List (Flow N)) (m : Option (Model N × (Variable → Num)))
        (rounds : Rounds N)
        → IsKept g flows m
        → mcf_rounds N optimize g flows m draws ≡ ok rounds
        → IsKept g rounds.flows rounds.feasible
    unfolding mcf_rounds
    rounds-IsKept [] flows m rounds before h = rw (sym (ok_injective h)) before
    rounds-IsKept (d ∷ ds) flows m rounds before h =
        let grown = flows ++ without_paths N d.0.0 d.0.1 d.1 ∷ [] in
        let after = λ (model : Model N) (o : Option (Variable → Num)).
          elim o as (λ _. Result (Rounds N)) [
            | none ↦ ok (record { flows = flows; feasible = m; stopped = true })
            | some a ↦ mcf_rounds N optimize g grown (some (model, a)) ds
          ] in
        let (model, built, rest) =
          >>=-eq-ok (create_mcf_model N g flows d.0.0 d.0.1 d.1)
            (λ model. after model (optimize model.calls)) h in
        elim (Option-cases (optimize model.calls)) [
          | inl e ↦
              let last : after model none ≡ ok rounds =
                subst (λ o. after model o ≡ ok rounds) e rest in
              rw (sym (ok_injective last)) before
          | inr (a, e) ↦
              let later : after model (some a) ≡ ok rounds =
                subst (λ o. after model o ≡ ok rounds) e rest in
              rounds-IsKept ds grown (some (model, a)) rounds
                (create_mcf_model-IsFlow g flows d.0.0 d.0.1 d.1 a model built
                  (sound model.calls a e))
                later
        ]

  -- Whatever the draws are: when the loop of the multi-commodity allocation is over, the solution that
  -- it keeps is a flow through the network for all flows that it has admitted: nothing negative is
  -- carried, every node passes on what it receives but the source and the destination of a flow, and no
  -- link is above its capacity. The solver finds solutions of its models only; the numbers are exact.
  pub mcf_rounds-IsKept :
      (optimize : List (Call N) → Option (Variable → Num))
      → ((calls : List (Call N)) (a : Variable → Num)
          → optimize calls ≡ some a
          → IsFeasible N a calls)
      → (g : Digraph) (draws : List (Draw N)) (rounds : Rounds N)
      → mcf_rounds N optimize g [] none draws ≡ ok rounds
      → IsKept g rounds.flows rounds.feasible
  mcf_rounds-IsKept optimize sound g draws rounds h =
      rounds-IsKept optimize sound g draws [] none rounds refl h

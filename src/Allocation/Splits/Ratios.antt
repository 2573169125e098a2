-- ===== src/Allocation/Splits/Ratios.antt =====
-- A solution of the model splits every flow completely.
use mathlib.Core.Path.{subst}
use cpsc_of_testbed.Base.{
  ℕ, suc, ◌⊎◌, List, [], ◌∷◌, ◌++◌, ◌≡◌, refl, sym, ◌∙◌, some, ok, type_error, ◌>>=◌, >>=-eq-ok,
  or_raise-eq-ok, ap, ok_injective, All-split,
}
use cpsc_of_testbed.Base.Numbers.{Number, zero_num, one_num, Le, IsOrdered}
use cpsc_of_testbed.Allocation.Flow.{Flow}
use cpsc_of_testbed.Allocation.Greedy.{Link}
use cpsc_of_testbed.Allocation.Program.{
  Variable, split, LinExpr, constant, value, Call, add_semicont, must_equal, Holds, IsFeasible,
  plus_var,
}
use cpsc_of_testbed.Allocation.Splits.{
  split_vars, split_sum, split_flow, split_flows, split_model, paths_of, create_k_paths_model,
  create_path_hopping_ilp_model, check_share, with_new_flow, unit_var,
}
use cpsc_of_testbed.Allocation.Splits.Capacity.{split_model-IsWithin, IsWithin}

module _ (N : Number) where
  open N use {Num}

  abbrev pub IsRatio : Num → Type 0
  IsRatio x = Le N (zero_num N) x × Le N x (one_num N)

  -- Either the path is not used, or it has this share.
  abbrev pub IsShare : Num → Num → Type 0
  IsShare share x = (x ≡ zero_num N) ⊎ (Le N share x × Le N x share)

module _ (N : Number) (laws : IsOrdered N) (a : Variable → Number.Num N) where
  open N use {Num, plus, times, divide}

  -- The sum of the splitting ratios of flow i, from the path j on.
  abbrev pub ratio_sum : ℕ → ℕ → List (List ℕ) → Num → Num
  ratio_sum i j [] acc = acc
  ratio_sum i j (p ∷ ps) acc = ratio_sum i (suc j) ps (plus acc (a (split i j)))

  -- What holds of the variable of each path, from the path j on.
  abbrev pub AllRatios : (Num → Type 0) → ℕ → ℕ → List (List ℕ) → Type 0
  AllRatios P i j [] = Unit
  AllRatios P i j (p ∷ ps) = P (a (split i j)) × AllRatios P i (suc j) ps

  -- Each flow from index i on has paths; its splitting ratios are such numbers, and sum up to 1.
  abbrev pub AllSplit : (Num → Type 0) → ℕ → List (Flow N) → Type 0
  AllSplit P i [] = Unit
  AllSplit P i (f ∷ fs) =
      ((ps : List (List ℕ)) × (f.paths ≡ some ps)
        × AllRatios P i 0 ps
        × (ratio_sum i 0 ps (zero_num N) ≡ one_num N))
      × AllSplit P (suc i) fs

  value-split_sum :
      (i j : ℕ) (ps : List (List ℕ)) (e : LinExpr N)
      → value N a (split_sum N i j ps e) ≡ ratio_sum i j ps (value N a e)
  unfolding value
  value-split_sum i j [] e = refl
  value-split_sum i j (p ∷ ps) e =
      value-split_sum i (suc j) ps (plus_var N e (split i j))
      ∙ ap (λ x. ratio_sum i (suc j) ps (plus (value N a e) x)) (laws.times_one (a (split i j)))

  module _ (P : Num → Type 0) (declare : Variable → Call N)
      (declared : (v : Variable) → Holds N a (declare v) → P (a v)) where
    split_vars-AllRatios :
        (i j : ℕ) (ps : List (List ℕ))
        → IsFeasible N a (split_vars N declare i j ps)
        → AllRatios P i j ps
    split_vars-AllRatios i j [] h = tt
    split_vars-AllRatios i j (p ∷ ps) h =
        (declared (split i j) h.0, split_vars-AllRatios i (suc j) ps h.1)

    split_flow-ratios :
        (i : ℕ) (ps : List (List ℕ))
        → IsFeasible N a (split_flow N declare i ps)
        → AllRatios P i 0 ps × (ratio_sum i 0 ps (zero_num N) ≡ one_num N)
    unfolding value
    split_flow-ratios i ps h =
        let total = split_sum N i 0 ps (constant (zero_num N)) in
        let (vars, (sum, _)) =
          All-split (Holds N a) (split_vars N declare i 0 ps)
            (must_equal total (constant (one_num N)) ∷ []) h in
        (
          split_vars-AllRatios i 0 ps vars,
          sym (value-split_sum i 0 ps (constant (zero_num N))) ∙ sum,
        )

    split_flows-AllSplit :
        (i : ℕ) (fs : List (Flow N)) (calls : List (Call N))
        → split_flows N declare i fs ≡ ok calls
        → IsFeasible N a calls
        → AllSplit P i fs
    unfolding split_flows
    split_flows-AllSplit i [] calls h feasible = tt
    split_flows-AllSplit i (f ∷ fs) calls h feasible =
        let (ps, some_paths, h1) =
          >>=-eq-ok (paths_of N f)
            (λ ps.
              split_flows N declare (suc i) fs >>= λ rest. ok (split_flow N declare i ps ++ rest))
            h in
        let (rest, later, h2) =
          >>=-eq-ok (split_flows N declare (suc i) fs)
            (λ rest. ok (split_flow N declare i ps ++ rest)) h1 in
        let (own, others) =
          All-split (Holds N a) (split_flow N declare i ps) rest
            (subst (IsFeasible N a) (sym (ok_injective h2)) feasible) in
        let (ratios, whole) = split_flow-ratios i ps own in
        (
          (ps, or_raise-eq-ok f.paths type_error some_paths, ratios, whole),
          split_flows-AllSplit (suc i) fs rest later others,
        )

  -- A splitting of all flows: complete, and within the capacity of every link.
  abbrev pub IsSplitting : (Num → Type 0) → List Link → List (Flow N) → Type 0
  IsSplitting P edges flows = AllSplit P 0 flows × IsWithin N laws a edges flows

  split_model-IsSplitting :
      (P : Num → Type 0) (declare : Variable → Call N)
      → ((v : Variable) → Holds N a (declare v) → P (a v))
      → (edges : List Link) (flows : List (Flow N)) (calls : List (Call N))
      → split_model N declare edges flows ≡ ok calls
      → IsFeasible N a calls
      → IsSplitting P edges flows
  split_model-IsSplitting P declare declared edges flows calls h feasible =
      let ((splits, built, holds), within) =
        split_model-IsWithin N laws a declare edges flows calls h feasible in
      (split_flows-AllSplit P declare declared 0 flows splits built holds, within)

  -- Every solution of the K-paths model splits each flow, the new one included, completely over its
  -- paths, with ratios between 0 and 1, and no link has more than its capacity. The numbers are exact.
  pub k_paths-IsSplitting :
      (edges : List Link) (flows : List (Flow N)) (s t : ℕ) (rate : Num) (ps : List (List ℕ))
      (calls : List (Call N))
      → create_k_paths_model N edges flows s t rate ps ≡ ok calls
      → IsFeasible N a calls
      → IsSplitting (IsRatio N) edges (with_new_flow N flows s t rate ps)
  unfolding create_k_paths_model
  k_paths-IsSplitting edges flows s t rate ps =
      split_model-IsSplitting (IsRatio N) (unit_var N) (λ v h. h) edges
        (with_new_flow N flows s t rate ps)

  -- Every solution of the path hopping model splits each flow completely over paths that have the
  -- share 1/K each or none at all, and no link has more than its capacity. The numbers are exact.
  pub path_hopping-IsSplitting :
      (edges : List Link) (flows : List (Flow N)) (s t : ℕ) (rate : Num) (ps : List (List ℕ))
      (k : ℕ) (calls : List (Call N))
      → create_path_hopping_ilp_model N edges flows s t rate ps k ≡ ok calls
      → IsFeasible N a calls
      → IsSplitting (IsShare N (divide (one_num N) k)) edges (with_new_flow N flows s t rate ps)
  unfolding create_path_hopping_ilp_model
  path_hopping-IsSplitting edges flows s t rate ps k calls h =
      let share = divide (one_num N) k in
      let (checked, _, built) =
        >>=-eq-ok (check_share N (with_new_flow N flows s t rate ps) k) _ h in
      split_model-IsSplitting (IsShare N share) (λ v. add_semicont v share (some share)) (λ v h. h)
        edges (with_new_flow N flows s t rate ps) calls built

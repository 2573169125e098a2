-- ===== src/Routing/Trial/Read.antt =====
-- What is read from the dictionary of a trial.
use mathlib.Core.Path.{subst}
use mathlib.Core.List.{append-nil, append_assoc}
use cpsc_of_testbed.Base.{
  ℕ, Each, Each-imply, List, [], ◌∷◌, ◌++◌, ◌≡◌, sym, ap, ◌∙◌, true, false, not, ok, value_error,
  ◌>>=◌, fold_result, >>=-eq-ok, ok_injective, raise_if-eq-ok, arith, map, String, eqb_iff,
}
use cpsc_of_testbed.Base.Dict.{Dict}
use cpsc_of_testbed.Base.Numbers.{Number, zero_num, one_num, sum_from}
use cpsc_of_testbed.Routing.Trial.{
  read, ends_at, PathValue, FlowValue, TrialValue, as_nodes, as_fraction, as_node, as_number,
  as_numbers, as_paths, as_seed, as_time, as_flows, make_flow, FlowPath, Flow, with_paths,
  is_invalid, add_path, add_path_dict, flow_from_dict, verify_flow, Trial, add_flow,
  trial_from_dict, make_trial,
}

-- The nodes lead from s to t: there are at least two, the first is s and the last is t.
abbrev pub LeadsTo : ℕ → ℕ → List ℕ → Type 0
LeadsTo s t nodes = (between : List ℕ) × (nodes ≡ s ∷ between ++ t ∷ [])

ends_at-last :
    (t x : ℕ) (xs : List ℕ)
    → ends_at t (x ∷ xs) ≡ true
    → (before : List ℕ) × (x ∷ xs ≡ before ++ t ∷ [])
ends_at-last t x [] h = ([], ap (λ y. y ∷ []) ((eqb_iff x t).0 h))
ends_at-last t x (y ∷ ys) h =
    let (before, same) = ends_at-last t y ys h in (x ∷ before, ap (λ zs. x ∷ zs) same)

module _ (N : Number) where
  open N use {Num, gt, minus}

  valid-LeadsTo :
      (f : Flow N) (nodes : List ℕ)
      → is_invalid N f nodes ≡ false
      → LeadsTo f.source_node f.destination_node nodes
  valid-LeadsTo f [] h = absurd (ground arith)
  valid-LeadsTo f (x ∷ []) h = absurd (ground arith)
  valid-LeadsTo f (x ∷ y ∷ ys) h =
      let ends : ends_at f.destination_node (y ∷ ys) ≡ true = ground arith in
      let starts : x ≡ f.source_node = ground (arith, eqb_iff x f.source_node) in
      let (between, same) = ends_at-last f.destination_node y ys ends in
      (between, ap (λ z. z ∷ y ∷ ys) starts ∙ ap (λ zs. f.source_node ∷ zs) same)

  -- A path of a flow is that of its dictionary, and leads from the source to the destination.
  pub record IsPathOf (f : Flow N) (d : Dict String (PathValue N)) (p : FlowPath N) : Type 0 where
    pub nodes_read : (read "nodes" d >>= as_nodes N) ≡ ok p.nodes
    pub fraction_read : (read "fraction" d >>= as_fraction N) ≡ ok p.fraction
    pub leads : LeadsTo f.source_node f.destination_node p.nodes

  add_path_dict-IsPathOf :
      (f : Flow N) (d : Dict String (PathValue N)) (g : Flow N)
      → add_path_dict N f d ≡ ok g
      → (p : FlowPath N) × (g ≡ with_paths N f (f.paths ++ p ∷ [])) × IsPathOf f d p
  unfolding add_path
  add_path_dict-IsPathOf f d g h =
      let (nodes, fn, h1) = >>=-eq-ok (read "nodes" d >>= as_nodes N) _ h in
      let (x, fx, h2) = >>=-eq-ok (read "fraction" d >>= as_fraction N) _ h1 in
      let (valid, same) = raise_if-eq-ok (is_invalid N f nodes) value_error h2 in
      (
        record { nodes = nodes; fraction = x },
        sym same,
        record { nodes_read = fn; fraction_read = fx; leads = valid-LeadsTo f nodes valid },
      )

  paths_read :
      (f : Flow N) (before : List (FlowPath N)) (ds : List (Dict String (PathValue N))) (g : Flow N)
      → fold_result (add_path_dict N) (with_paths N f before) ds ≡ ok g
      → (ps : List (FlowPath N)) × (g ≡ with_paths N f (before ++ ps)) × Each (IsPathOf f) ds ps
  unfolding fold_result
  paths_read f before [] g h =
      ([], sym (ok_injective h) ∙ ap (with_paths N f) (sym (append-nil before)), tt)
  paths_read f before (d ∷ ds) g h =
      let (u, first, rest) =
        >>=-eq-ok (add_path_dict N (with_paths N f before) d)
          (λ u. fold_result (add_path_dict N) u ds) h in
      let (p, same, is) = add_path_dict-IsPathOf (with_paths N f before) d u first in
      let rest' = sym (ap (λ v. fold_result (add_path_dict N) v ds) same) ∙ rest in
      let (ps, whole, each) = paths_read f (before ++ p ∷ []) ds g rest' in
      (
        p ∷ ps,
        whole ∙ ap (with_paths N f) (append_assoc before (p ∷ []) ps),
        (
          record { nodes_read = is.nodes_read; fraction_read = is.fraction_read; leads = is.leads },
          each,
        ),
      )

  -- A flow is that of its dictionary, and its fractions are not above 2 in sum.
  pub record IsFlowOf (d : Dict String (FlowValue N)) (f : Flow N) : Type 0 where
    pub path_dicts : List (Dict String (PathValue N))
    pub source_read : (read "source_node" d >>= as_node N) ≡ ok f.source_node
    pub destination_read : (read "destination_node" d >>= as_node N) ≡ ok f.destination_node
    pub rate_read : (read "rate" d >>= as_number N) ≡ ok f.rate
    pub variance_read : (read "variance" d >>= as_number N) ≡ ok f.variance
    pub rates_read : (read "actual_tx_rates" d >>= as_numbers N) ≡ ok f.actual_tx_rates
    pub paths_found : (read "paths" d >>= as_paths N) ≡ ok path_dicts
    pub paths_are : Each (IsPathOf f) path_dicts f.paths

  flow_from_dict-IsFlowOf :
      (d : Dict String (FlowValue N)) (f : Flow N) → flow_from_dict N d ≡ ok f → IsFlowOf d f
  unfolding flow_from_dict
  flow_from_dict-IsFlowOf d f h =
      let (s, fs, h1) = >>=-eq-ok (read "source_node" d >>= as_node N) _ h in
      let (t, ft, h2) = >>=-eq-ok (read "destination_node" d >>= as_node N) _ h1 in
      let (rate, fr, h3) = >>=-eq-ok (read "rate" d >>= as_number N) _ h2 in
      let (variance, fv, h4) = >>=-eq-ok (read "variance" d >>= as_number N) _ h3 in
      let (rates, fa, h5) = >>=-eq-ok (read "actual_tx_rates" d >>= as_numbers N) _ h4 in
      let (ds, fp, h6) = >>=-eq-ok (read "paths" d >>= as_paths N) _ h5 in
      let start = make_flow N s t rate variance rates in
      let (ps, same, each) = paths_read start [] ds f h6 in
      subst (IsFlowOf d) (sym same) (record {
        path_dicts = ds;
        source_read = fs;
        destination_read = ft;
        rate_read = fr;
        variance_read = fv;
        rates_read = fa;
        paths_found = fp;
        paths_are = Each-imply (λ e p is. moved start ps e p is) ds ps each;
      })
    where
      moved :
          (start : Flow N) (ps : List (FlowPath N)) (e : Dict String (PathValue N)) (p : FlowPath N)
          → IsPathOf start e p
          → IsPathOf (with_paths N start ps) e p
      moved start ps e p is = record {
        nodes_read = is.nodes_read;
        fraction_read = is.fraction_read;
        leads = is.leads;
      }

  -- The check of the trial: 1 is greater than the sum of the fractions less 1.
  abbrev pub IsBelow : Flow N → Type 0
  IsBelow f =
      gt (one_num N)
        (minus (sum_from N (zero_num N) (map (λ (p : FlowPath N). p.fraction) f.paths)) (one_num N))
      ≡ true

  abbrev pub IsTaken : Dict String (FlowValue N) → Flow N → Type 0
  IsTaken d f = IsFlowOf d f × IsBelow f

  abbrev with_flows : Trial N → List (Flow N) → Trial N
  with_flows t flows = record { flows = flows; seed = t.seed; solution_time = t.solution_time }

  flows_read :
      (t : Trial N) (before : List (Flow N)) (ds : List (Dict String (FlowValue N))) (u : Trial N)
      → fold_result (λ t e. flow_from_dict N e >>= add_flow N t) (with_flows t before) ds ≡ ok u
      → (fs : List (Flow N)) × (u ≡ with_flows t (before ++ fs)) × Each IsTaken ds fs
  unfolding fold_result add_flow verify_flow
  flows_read t before [] u h =
      ([], sym (ok_injective h) ∙ ap (with_flows t) (sym (append-nil before)), tt)
  flows_read t before (d ∷ ds) u h =
      let add =
        λ (t : Trial N) (e : Dict String (FlowValue N)). flow_from_dict N e >>= add_flow N t in
      let (v, first, rest) =
        >>=-eq-ok (add (with_flows t before) d) (λ v. fold_result add v ds) h in
      let (f, from, added) =
        >>=-eq-ok (flow_from_dict N d) (add_flow N (with_flows t before)) first in
      let (below, same) = raise_if-eq-ok (not (verify_flow N f)) value_error added in
      let rest' = ap (λ w. fold_result add w ds) same ∙ rest in
      let (fs, whole, each) = flows_read t (before ++ f ∷ []) ds u rest' in
      (
        f ∷ fs,
        whole ∙ ap (with_flows t) (append_assoc before (f ∷ []) fs),
        ((flow_from_dict-IsFlowOf d f from, ground arith), each),
      )

  -- If a trial is read at all, its seed and its time are those of the dictionary, and it has one flow
  -- for each dictionary of a flow, in their order, with the numbers and the paths of it, one for each
  -- dictionary of a path. Each of these paths has two nodes or more and leads from the source of the
  -- flow to its destination, and 1 is greater than the sum of the fractions of a flow less 1. So an
  -- input with any other flow or path raises.
  pub trial_from_dict-Each :
      (d : Dict String (TrialValue N)) (t : Trial N)
      → trial_from_dict N d ≡ ok t
      → (ds : List (Dict String (FlowValue N))) × ((read "flows" d >>= as_flows N) ≡ ok ds)
        × ((read "seed" d >>= as_seed N) ≡ ok t.seed)
        × ((read "solution-time" d >>= as_time N) ≡ ok t.solution_time)
        × Each IsTaken ds t.flows
  unfolding trial_from_dict
  trial_from_dict-Each d t h =
      let (seed, fs, h1) = >>=-eq-ok (read "seed" d >>= as_seed N) _ h in
      let (time, ft, h2) = >>=-eq-ok (read "solution-time" d >>= as_time N) _ h1 in
      let (ds, ff, h3) = >>=-eq-ok (read "flows" d >>= as_flows N) _ h2 in
      let (flows, same, each) = flows_read (make_trial N seed time) [] ds t h3 in
      (
        ds,
        ff,
        fs ∙ ap (λ (u : Trial N). ok u.seed) (sym same),
        ft ∙ ap (λ (u : Trial N). ok u.solution_time) (sym same),
        subst (λ (u : Trial N). Each IsTaken ds u.flows) (sym same) each,
      )

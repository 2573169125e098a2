-- ===== src/Routing/Trial/Saved.antt =====
-- A trial that is written to a dictionary is read back as it was.
use mathlib.Core.List.{append-nil, append_assoc}
use cpsc_of_testbed.Base.{
  List, [], ◌∷◌, ◌++◌, map, ◌≡◌, sym, ◌∙◌, true, false, ok, ◌>>=◌, fold_result, ap, All,
}
use cpsc_of_testbed.Base.Numbers.{Number}
use cpsc_of_testbed.Routing.Trial.{
  FlowPath, Flow, with_paths, is_invalid, add_path, path_dict, flow_to_dict, add_path_dict,
  flow_from_dict, verify_flow, Trial, add_flow, trial_to_dict, trial_from_dict,
}

module _ (N : Number) where
  open N use {Num}

  -- The paths lead from the source of the flow to its destination.
  abbrev pub HasPaths : Flow N → List (FlowPath N) → Type 0
  HasPaths f paths = All (λ (p : FlowPath N). is_invalid N f p.nodes ≡ false) paths

  abbrev pub IsFlow : Flow N → Type 0
  IsFlow f = HasPaths f f.paths

  -- And the trial accepts it.
  abbrev pub IsAccepted : Flow N → Type 0
  IsAccepted f = IsFlow f × (verify_flow N f ≡ true)

  read_paths :
      (f : Flow N) (before paths : List (FlowPath N))
      → HasPaths f paths
      → fold_result (add_path_dict N) (with_paths N f before) (map (path_dict N) paths)
        ≡ ok (with_paths N f (before ++ paths))
  unfolding fold_result add_path
  read_paths f before [] h = ap (λ ps. ok (with_paths N f ps)) (sym (append-nil before))
  read_paths f before (p ∷ ps) h = rw h.0 (
      read_paths f (before ++ p ∷ []) ps h.1
      ∙ ap (λ qs. ok (with_paths N f qs)) (append_assoc before (p ∷ []) ps))

  flow_from-flow_to : (f : Flow N) → IsFlow f → flow_from_dict N (flow_to_dict N f) ≡ ok f
  unfolding flow_from_dict flow_to_dict
  flow_from-flow_to f h = read_paths f [] f.paths h

  abbrev with_flows : Trial N → List (Flow N) → Trial N
  with_flows t flows = record { flows = flows; seed = t.seed; solution_time = t.solution_time }

  read_flows :
      (t : Trial N) (before flows : List (Flow N))
      → All IsAccepted flows
      → fold_result
          (λ t e. flow_from_dict N e >>= add_flow N t)
          (with_flows t before)
          (map (flow_to_dict N) flows)
        ≡ ok (with_flows t (before ++ flows))
  unfolding fold_result add_flow
  read_flows t before [] h = ap (λ fs. ok (with_flows t fs)) (sym (append-nil before))
  read_flows t before (f ∷ fs) h =
      rw (flow_from-flow_to f h.0.0, h.0.1)
        (read_flows t (before ++ f ∷ []) fs h.1
          ∙ ap (λ gs. ok (with_flows t gs)) (append_assoc before (f ∷ []) fs))

  -- A trial whose flows have paths from their source to their destination, and pass the check of the
  -- trial, is written to a dictionary from which the same trial is read.
  pub trial_from_dict-trial_to_dict :
      (t : Trial N) → All IsAccepted t.flows → trial_from_dict N (trial_to_dict N t) ≡ ok t
  unfolding trial_from_dict trial_to_dict
  trial_from_dict-trial_to_dict t h = read_flows t [] t.flows h

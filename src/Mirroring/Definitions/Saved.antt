-- ===== src/Mirroring/Definitions/Saved.antt =====
-- Flows, switches and solutions that were written are read again.
use cpsc_of_testbed.Base.{
  ℕ, List, [], ◌∷◌, ◌++◌, map, ◌≡◌, refl, ap, ◌∙◌, sym, subst, Option, none, some, ok, ◌>>=◌,
  fold_result, nat_eq, last_of-append, init-append, map_result-ok, All, All-append, All-imply,
  All-map, ◌≢◌,
}
use cpsc_of_testbed.Base.Dict.{Dict, IsUnique}
use cpsc_of_testbed.Base.Numbers.{Number}
use cpsc_of_testbed.Base.Text.{Text, show, split, split_lines, unlines}
use cpsc_of_testbed.Base.Text.Floats.{FloatFormat, IsPrinted, split_lines-show_float}
use cpsc_of_testbed.Base.Text.Numerals.{read_nat-show}
use cpsc_of_testbed.Base.Text.Parts.{IsLine, split-cut, split_whole, split_lines-unlines_all}
use cpsc_of_testbed.Base.Text.Words.{
  undelimited, undelimited-IsLine, split-undelimited, show-Lacks, show-IsLine, read_numbers,
}
use cpsc_of_testbed.Base.Text.Entries.{read_entries-write, read_as_self}
use cpsc_of_testbed.Mirroring.Definitions.{
  FlowDefinition, SwitchDefinition, SolutionDefinition, to_undelimited_list, switch_line,
  serialize_switches, parse_switch_tokens, parse_switch, add_switch_line, deserialize_switches,
  solution_line, last_objective, parse_solution_tokens, parse_solution, add_solution_line,
  flow_line, serialize_flows, parse_flow_tokens, parse_flow, add_flow_line, deserialize_flows,
  serialize_solutions, deserialize_solutions,
}

split-switch_line :
    (s : SwitchDefinition)
    → split b' ' (switch_line s) ≡ show s.switch_id ∷ map show s.resident_flows
unfolding switch_line
split-switch_line s = go s.resident_flows
  where
    go :
        (flows : List ℕ)
        → split b' ' (elim flows [
          | [] ↦ show s.switch_id
          | flow ∷ rest ↦ show s.switch_id ++ b' ' ∷ undelimited (flow ∷ rest)
        ])
          ≡ show s.switch_id ∷ map show flows
    go [] = split_whole b' ' (show s.switch_id) (show-Lacks s.switch_id)
    go (flow ∷ rest) =
        split-cut b' ' (show s.switch_id) _ (show-Lacks s.switch_id)
        ∙ ap (λ ws. show s.switch_id ∷ ws) (split-undelimited flow rest)

switch_line-IsLine : (s : SwitchDefinition) → IsLine (switch_line s)
unfolding switch_line
switch_line-IsLine s = go s.resident_flows
  where
    go :
        (flows : List ℕ)
        → IsLine (elim flows [
          | [] ↦ show s.switch_id
          | flow ∷ rest ↦ show s.switch_id ++ b' ' ∷ undelimited (flow ∷ rest)
        ])
    go [] = show-IsLine s.switch_id
    go (flow ∷ rest) =
        All-append _ (show s.switch_id) _ (show-IsLine s.switch_id)
          (refl, undelimited-IsLine (flow ∷ rest))

parse_switch-switch_line : (s : SwitchDefinition) → parse_switch (switch_line s) ≡ ok s
unfolding parse_switch
parse_switch-switch_line s =
    ap parse_switch_tokens (split-switch_line s)
    ∙ rw (read_nat-show s.switch_id) (rw (read_numbers s.resident_flows) refl)

abbrev pub HasOwnKey : ℕ × SwitchDefinition → Type 0
HasOwnKey e = e.1.switch_id ≡ e.0

pub switches_saved :
    (switches : Dict ℕ SwitchDefinition)
    → All HasOwnKey switches
    → IsUnique switches
    → deserialize_switches (serialize_switches switches) ≡ ok switches
unfolding deserialize_switches serialize_switches add_switch_line
switches_saved switches h u =
    ap (fold_result add_switch_line []) (
      split_lines-unlines_all (map (λ (e : ℕ × SwitchDefinition). switch_line e.1) switches)
        (All-map IsLine _ switches (All-imply (λ e w. switch_line-IsLine e.1) switches h)))
    ∙ read_entries-write parse_switch (λ s. s.switch_id) switch_line (λ s. s) switches []
        (All-imply (λ e w. (parse_switch-switch_line e.1, w)) switches h)
        (subst IsUnique (sym (read_as_self switches)) u)
    ∙ ap ok (read_as_self switches)

module _ {N : Number} (F : FloatFormat N) where
  open F use {show_float}

  -- A flow that can be written, under its number: it has a path, and its rate is printed exactly.
  abbrev pub IsFlow : ℕ × FlowDefinition N → Type 0
  IsFlow e = (e.1.path ≢ []) × IsPrinted N F e.1.traffic_rate × (e.1.flow_id ≡ e.0)

  -- The line of a flow with a path.
  abbrev text_of : FlowDefinition N → Text
  text_of f = show f.flow_id ++ b' ' ∷ (show_float f.traffic_rate ++ b' ' ∷ undelimited f.path)

  flow_line-text_of : (f : FlowDefinition N) → f.path ≢ [] → flow_line F f ≡ ok (text_of f)
  unfolding flow_line
  flow_line-text_of f ne = rw (go f.path ne) refl
    where
      go : (path : List ℕ) → path ≢ [] → to_undelimited_list path ≡ ok (undelimited path)
      go [] ne = absurd (ne refl)
      go (x ∷ xs) ne = refl

  split-undelimited_path :
      (path : List ℕ) → path ≢ [] → split b' ' (undelimited path) ≡ map show path
  split-undelimited_path [] ne = absurd (ne refl)
  split-undelimited_path (x ∷ xs) ne = split-undelimited x xs

  parse_flow-text_of :
      (f : FlowDefinition N)
      → f.path ≢ []
      → IsPrinted N F f.traffic_rate
      → parse_flow F (text_of f) ≡ ok f
  unfolding parse_flow
  parse_flow-text_of f ne p =
      ap (parse_flow_tokens F) (
        split-cut b' ' (show f.flow_id) _ (show-Lacks f.flow_id)
        ∙ ap (λ ws. show f.flow_id ∷ ws)
            (split-cut b' ' (show_float f.traffic_rate) _ p.has_no_blank
              ∙ ap (λ ws. show_float f.traffic_rate ∷ ws) (split-undelimited_path f.path ne)))
      ∙ rw (read_nat-show f.flow_id) (rw p.reads_back (rw (read_numbers f.path) refl))

  text_of-IsLine : (f : FlowDefinition N) → IsPrinted N F f.traffic_rate → IsLine (text_of f)
  text_of-IsLine f p =
      All-append _ (show f.flow_id) _ (show-IsLine f.flow_id) (
        refl,
        All-append _ (show_float f.traffic_rate) _ p.is_line (refl, undelimited-IsLine f.path),
      )

  pub flows_saved :
      (flows : Dict ℕ (FlowDefinition N))
      → All IsFlow flows
      → IsUnique flows
      → (serialize_flows F flows >>= deserialize_flows F) ≡ ok flows
  unfolding serialize_flows deserialize_flows add_flow_line
  flows_saved flows h u =
      rw
        (map_result-ok (λ (e : ℕ × FlowDefinition N). flow_line F e.1)
          (λ (e : ℕ × FlowDefinition N). text_of e.1) flows
          (All-imply (λ e w. flow_line-text_of e.1 w.0) flows h))
        (ap (fold_result (add_flow_line F) []) (
            split_lines-unlines_all (map (λ (e : ℕ × FlowDefinition N). text_of e.1) flows)
              (All-map IsLine _ flows (All-imply (λ e w. text_of-IsLine e.1 w.1) flows h)))
          ∙ read_entries-write (parse_flow F) (λ f. f.flow_id) text_of (λ f. f) flows []
              (All-imply (λ e w. (parse_flow-text_of e.1 w.0 w.1, w.2)) flows h)
              (subst IsUnique (sym (read_as_self flows)) u)
          ∙ ap ok (read_as_self flows))

module _ {N : Number} where
  open N use {Num}

  -- A solution of the objective, under the number of its flow.
  abbrev pub IsSolved : Num → ℕ × SolutionDefinition N → Type 0
  IsSolved objective e = (e.1.flow_id ≡ e.0) × (e.1.objective_value ≡ objective)

  last_objective-same :
      (objective : Num) (o : Option Num) (d : Dict ℕ (SolutionDefinition N))
      → o ≡ some objective
      → All (IsSolved objective) d
      → last_objective o d ≡ some objective
  unfolding last_objective
  last_objective-same objective o [] e h = e
  last_objective-same objective o ((k, s) ∷ d) e h =
      last_objective-same objective (some s.objective_value) d (ap some h.0.1) h.1

  last_objective_lem :
      (objective : Num) (d : Dict ℕ (SolutionDefinition N))
      → d ≢ []
      → All (IsSolved objective) d
      → last_objective none d ≡ some objective
  unfolding last_objective
  last_objective_lem objective [] ne h = absurd (ne refl)
  last_objective_lem objective ((k, s) ∷ d) ne h =
      last_objective-same objective (some s.objective_value) d (ap some h.0.1) h.1

  solution_line-IsLine : (s : SolutionDefinition N) → IsLine (solution_line s)
  unfolding solution_line
  solution_line-IsLine s =
      All-append _ (show s.flow_id) _ (show-IsLine s.flow_id) (refl, show-IsLine s.mirror_switch_id)

  parse_solution-solution_line :
      (objective : Num) (s : SolutionDefinition N)
      → s.objective_value ≡ objective
      → parse_solution objective (solution_line s) ≡ ok s
  unfolding parse_solution solution_line
  parse_solution-solution_line objective s e =
      ap (parse_solution_tokens objective) (
        split-cut b' ' (show s.flow_id) _ (show-Lacks s.flow_id)
        ∙ ap (λ ws. show s.flow_id ∷ ws)
            (split_whole b' ' (show s.mirror_switch_id) (show-Lacks s.mirror_switch_id)))
      ∙ rw (read_nat-show s.flow_id) (
          rw (read_nat-show s.mirror_switch_id) (λ i. ok (record {
            flow_id = s.flow_id;
            mirror_switch_id = s.mirror_switch_id;
            objective_value = sym e i;
          })))

module _ {N : Number} (F : FloatFormat N) where
  open N use {Num}
  open F use {show_float}

  pub solutions_saved :
      (objective : Num) (solutions : Dict ℕ (SolutionDefinition N))
      → IsPrinted N F objective
      → solutions ≢ []
      → All (IsSolved objective) solutions
      → IsUnique solutions
      → (serialize_solutions F solutions >>= deserialize_solutions F) ≡ ok solutions
  unfolding serialize_solutions deserialize_solutions add_solution_line
  solutions_saved objective solutions p ne h u = rw (last_objective_lem objective solutions ne h) (
      rw written (
        rw (last_of-append solution_texts (show_float objective)) (
          rw p.reads_back (
            rw (init-append solution_texts (show_float objective)) (
              read_entries-write (parse_solution objective) (λ s. s.flow_id) solution_line (λ s. s)
                solutions []
                (All-imply (λ e w. (parse_solution-solution_line objective e.1 w.1, w.0)) solutions
                  h)
                (subst IsUnique (sym (read_as_self solutions)) u)
              ∙ ap ok (read_as_self solutions))))))
    where
      solution_texts : List Text
      solution_texts = map (λ (e : ℕ × SolutionDefinition N). solution_line e.1) solutions

      written :
          split_lines (unlines solution_texts ++ show_float objective)
          ≡ solution_texts ++ show_float objective ∷ []
      written =
          split_lines-show_float F solution_texts objective
            (All-map IsLine _ solutions (All-imply (λ e w. solution_line-IsLine e.1) solutions h)) p

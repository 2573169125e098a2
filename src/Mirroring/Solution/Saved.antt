-- ===== src/Mirroring/Solution/Saved.antt =====
-- Solutions that were written are read again.
use cpsc_of_testbed.Base.{
  ℕ, List, [], ◌∷◌, ◌++◌, map, ◌≡◌, refl, ap, ◌∙◌, sym, subst, Option, none, some, Result, ok,
  last_of-append, init-append, ◌>>=◌, fold_result, nat_eq, All, All-append, All-imply, ◌≢◌,
  fold_result-same, >>=-map,
}
use cpsc_of_testbed.Base.Dict.{Dict, IsUnique}
use cpsc_of_testbed.Base.Dict.Groups.{append_to}
use cpsc_of_testbed.Base.Numbers.{Number}
use cpsc_of_testbed.Base.Text.{Text, show, split, split_lines, unlines}
use cpsc_of_testbed.Base.Text.Floats.{FloatFormat, IsPrinted, split_lines-show_float}
use cpsc_of_testbed.Base.Text.Numerals.{read_nat-show}
use cpsc_of_testbed.Base.Text.Parts.{IsLine, split-cut, split_whole}
use cpsc_of_testbed.Base.Text.Words.{show-Lacks, show-IsLine}
use cpsc_of_testbed.Base.Text.Grouped.{
  group_lines, group_lines-IsLine, read_grouped, read_grouped-group_lines,
}
use cpsc_of_testbed.Mirroring.Solution.{
  PortMirroringSolution, last_objective, objective_of, solution_line, solution_lines, two_numbers,
  serialize, add_solution, deserialize,
}

module _ {N : Number} where
  open N use {Num}

  -- The solutions of a switch: there is one at least, and they have its number and one objective.
  abbrev pub IsSolved : Num → ℕ × List (PortMirroringSolution N ℕ ℕ) → Type 0
  IsSolved objective e =
      (e.1 ≢ [])
      × All
          (λ (s : PortMirroringSolution N ℕ ℕ).
            (s.mirror_switch_id ≡ e.0) × (s.objective_value ≡ objective))
          e.1

  last_objective-same :
      (objective : Num) (o : Option Num) (ss : List (PortMirroringSolution N ℕ ℕ))
      → o ≡ some objective
      → All (λ (s : PortMirroringSolution N ℕ ℕ). s.objective_value ≡ objective) ss
      → last_objective o ss ≡ some objective
  unfolding last_objective
  last_objective-same objective o [] e h = e
  last_objective-same objective o (s ∷ ss) e h =
      last_objective-same objective (some s.objective_value) ss (ap some h.0) h.1

  objective_of-same :
      (objective : Num) (d : Dict ℕ (List (PortMirroringSolution N ℕ ℕ)))
      → All (IsSolved objective) d
      → objective_of (some objective) d ≡ some objective
  unfolding objective_of
  objective_of-same objective [] h = refl
  objective_of-same objective ((k, ss) ∷ d) h =
      ap (λ o. objective_of o d)
        (last_objective-same objective (some objective) ss refl (All-imply (λ s w. w.1) ss h.0.1))
      ∙ objective_of-same objective d h.1

  objective_of_lem :
      (objective : Num) (d : Dict ℕ (List (PortMirroringSolution N ℕ ℕ)))
      → d ≢ []
      → All (IsSolved objective) d
      → objective_of none d ≡ some objective
  unfolding objective_of last_objective
  objective_of_lem objective [] ne h = absurd (ne refl)
  objective_of_lem objective ((k, []) ∷ d) ne h = absurd (h.0.0 refl)
  objective_of_lem objective ((k, s ∷ ss) ∷ d) ne h =
      ap (λ o. objective_of o d)
        (last_objective-same objective (some s.objective_value) ss (ap some h.0.1.0.1)
          (All-imply (λ s w. w.1) ss h.0.1.1))
      ∙ objective_of-same objective d h.1

  abbrev line_of : ℕ → PortMirroringSolution N ℕ ℕ → Text
  line_of k s = solution_line s

  solution_lines-groups :
      (d : Dict ℕ (List (PortMirroringSolution N ℕ ℕ))) → solution_lines d ≡ group_lines line_of d
  unfolding solution_lines
  solution_lines-groups [] = refl
  solution_lines-groups ((k, ss) ∷ d) =
      ap (λ ls. map solution_line ss ++ ls) (solution_lines-groups d)

  solution_line-IsLine : (s : PortMirroringSolution N ℕ ℕ) → IsLine (solution_line s)
  unfolding solution_line
  solution_line-IsLine s =
      All-append _ (show s.mirror_switch_id) _ (show-IsLine s.mirror_switch_id)
        (refl, show-IsLine s.mirror_switch_port)

  two_numbers-solution_line :
      (s : PortMirroringSolution N ℕ ℕ)
      → two_numbers (split b' ' (solution_line s)) ≡ ok (s.mirror_switch_id, s.mirror_switch_port)
  unfolding two_numbers solution_line
  two_numbers-solution_line s =
      ap two_numbers (
        split-cut b' ' (show s.mirror_switch_id) _ (show-Lacks s.mirror_switch_id)
        ∙ ap (λ ws. show s.mirror_switch_id ∷ ws)
            (split_whole b' ' (show s.mirror_switch_port) (show-Lacks s.mirror_switch_port)))
      ∙ rw (read_nat-show s.mirror_switch_id) (rw (read_nat-show s.mirror_switch_port) refl)

  -- The solution with these numbers, under its switch.
  abbrev solution_with : Num → ℕ × ℕ → ℕ × PortMirroringSolution N ℕ ℕ
  solution_with objective ids = (
    ids.0,
    record { mirror_switch_id = ids.0; mirror_switch_port = ids.1; objective_value = objective },
  )

  -- What the loop does with a line.
  abbrev parse_solution : Num → Text → Result (ℕ × PortMirroringSolution N ℕ ℕ)
  parse_solution objective line =
      two_numbers (split b' ' line) >>= λ ids. ok (solution_with objective ids)

  add_solution-parse :
      (objective : Num) (d : Dict ℕ (List (PortMirroringSolution N ℕ ℕ))) (line : Text)
      → add_solution objective d line ≡ read_grouped (parse_solution objective) d line
  unfolding add_solution
  add_solution-parse objective d line =
      >>=-map (solution_with objective) (λ e. ok (append_to e.0 e.1 d))
        (two_numbers (split b' ' line))

  parse_solution-line :
      (objective : Num) (k : ℕ) (s : PortMirroringSolution N ℕ ℕ)
      → (s.mirror_switch_id ≡ k) × (s.objective_value ≡ objective)
      → parse_solution objective (line_of k s) ≡ ok (k, s)
  parse_solution-line objective k s h = rw (two_numbers-solution_line s) (λ i. ok (
    h.0 i,
    record {
      mirror_switch_id = s.mirror_switch_id;
      mirror_switch_port = s.mirror_switch_port;
      objective_value = sym h.1 i;
    },
  ))

module _ {N : Number} (F : FloatFormat N) where
  open N use {Num}
  open F use {show_float}

  -- Solutions of one objective are read as they were written.
  pub deserialize-serialize :
      (objective : Num) (solutions : Dict ℕ (List (PortMirroringSolution N ℕ ℕ)))
      → IsPrinted N F objective
      → solutions ≢ []
      → All (IsSolved objective) solutions
      → IsUnique solutions
      → (serialize F solutions >>= deserialize F) ≡ ok solutions
  unfolding serialize deserialize
  deserialize-serialize objective solutions p ne h u =
      rw (objective_of_lem objective solutions ne h) (
        rw written (
          rw (last_of-append (solution_lines solutions) (show_float objective)) (
            rw p.reads_back (
              rw (init-append (solution_lines solutions) (show_float objective)) (
                fold_result-same (add_solution objective) (read_grouped (parse_solution objective))
                  (add_solution-parse objective) [] (solution_lines solutions)
                ∙ ap (fold_result (read_grouped (parse_solution objective)) [])
                    (solution_lines-groups solutions)
                ∙ read_grouped-group_lines (parse_solution objective) line_of solutions []
                    (All-imply (λ e w. (w.0, All-imply (parse_solution-line objective e.0) e.1 w.1))
                      solutions h)
                    u)))))
    where
      written :
          split_lines (unlines (solution_lines solutions) ++ show_float objective)
          ≡ solution_lines solutions ++ show_float objective ∷ []
      written =
          split_lines-show_float F (solution_lines solutions) objective
            (subst (All IsLine) (sym (solution_lines-groups solutions)) (
              group_lines-IsLine line_of solutions
                (All-imply (λ e w. All-imply (λ s v. solution_line-IsLine s) e.1 w.1) solutions h)))
            p

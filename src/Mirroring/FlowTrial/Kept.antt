-- ===== src/Mirroring/FlowTrial/Kept.antt =====
-- The current solutions of a trial, and its files.
use cpsc_of_testbed.Base.{
  ℕ, List, [], ◌∷◌, map, Bool, true, false, ◌≡◌, refl, ◌≢◌, sym, ap, ◌∙◌, inl, inr, Result, ok,
  ◌>>=◌, fold_result, >>=-eq-ok, ok_injective, raise-ne-ok, or_raise, key_error, if◌then◌else◌,
  ◌==◌, Bool-cases, contains, All, nat_eq,
}
use cpsc_of_testbed.Base.Dict.{Dict, IsUnique, lookup}
use cpsc_of_testbed.Base.Numbers.{Number}
use cpsc_of_testbed.Base.Text.{Text, codes, lower, text_eq, text_eqb_iff}
use cpsc_of_testbed.Base.Text.Floats.{FloatFormat, IsPrinted}
use cpsc_of_testbed.Mirroring.Definitions.{
  SolutionDefinition, serialize_flows, serialize_switches, serialize_solutions, deserialize_flows,
  deserialize_switches, deserialize_solutions,
}
use cpsc_of_testbed.Mirroring.Definitions.Saved.{
  IsFlow, HasOwnKey, IsSolved, flows_saved, switches_saved, solutions_saved,
}
use cpsc_of_testbed.Mirroring.FlowTrial.{
  FlowMirroringTrial, approx, optimal, set_solution_type, build_results_files,
}

-- The type that was chosen last.
abbrev pub chosen_last : Text → List Text → Text
chosen_last type [] = type
chosen_last type (name ∷ names) = chosen_last (lower name) names

-- The file of a name, read by a method.
abbrev pub read_file : {A : Type 0} → Dict Text Text → Text → (Text → Result A) → Result A
read_file files name read = or_raise (lookup name files) key_error >>= read

module _ {N : Number} where
  -- One call: the optimal solutions stay once they are the current ones.
  set_once :
      (t : FlowMirroringTrial N) (type_name : Text) (t' : FlowMirroringTrial N)
      → set_solution_type t type_name ≡ ok t'
      → (t'.solutions ≡ (if lower type_name == optimal then t.optimal_solutions else t.solutions))
        × (t'.optimal_solutions ≡ t.optimal_solutions)
        × (t'.solution_type ≡ lower type_name)
  unfolding set_solution_type
  set_once t type_name t' h = elim (Bool-cases (lower type_name == optimal)) [
    | inl e ↦ rw e (
        let same = ok_injective (rw e at h) in
        (
          sym (ap (λ (r : FlowMirroringTrial N). r.solutions) same),
          sym (ap (λ (r : FlowMirroringTrial N). r.optimal_solutions) same),
          sym (ap (λ (r : FlowMirroringTrial N). r.solution_type) same),
        ))
    | inr n ↦ rw n (elim (Bool-cases (lower type_name == approx)) [
      | inl e ↦
          let same = ok_injective (rw (n, e) at h) in
          (
            sym (ap (λ (r : FlowMirroringTrial N). r.solutions) same),
            sym (ap (λ (r : FlowMirroringTrial N). r.optimal_solutions) same),
            sym (ap (λ (r : FlowMirroringTrial N). r.solution_type) same),
          )
      | inr m ↦ absurd (raise-ne-ok (rw (n, m) at h))
    ])
  ]

  after_first :
      (name : Text) (names : List Text) (o s : Dict ℕ (SolutionDefinition N))
      → (if contains optimal names then o else (if name == optimal then o else s))
        ≡ (if contains optimal (name ∷ names) then o else s)
  after_first name names o s = elim (Bool-cases (name == optimal)) [
    | inl e ↦
        let e' : (optimal == name) ≡ true =
          (text_eqb_iff optimal name).1 (sym ((text_eqb_iff name optimal).0 e)) in
        rw (e, e') (same_both (contains optimal names) o)
    | inr n ↦ let n' : (optimal == name) ≡ false = differ name n in rw (n, n') refl
  ]
    where
      same_both : (b : Bool) (o : Dict ℕ (SolutionDefinition N)) → (if b then o else o) ≡ o
      same_both true o = refl
      same_both false o = refl

      differ : (name : Text) → (name == optimal) ≡ false → (optimal == name) ≡ false
      differ name n = elim (Bool-cases (optimal == name)) [
        | inr m ↦ m
        | inl e ↦
            let e' : (name == optimal) ≡ true =
              (text_eqb_iff name optimal).1 (sym ((text_eqb_iff optimal name).0 e)) in
            cc
      ]

  -- Whatever types are chosen one after the other: once the optimal solutions were the current ones
  -- they stay, also when `approx` is chosen, while the name of the type is that chosen last.
  pub set_solution_type_keeps_optimal :
      (t : FlowMirroringTrial N) (names : List Text) (t' : FlowMirroringTrial N)
      → fold_result set_solution_type t names ≡ ok t'
      → (t'.solutions
          ≡ (if contains optimal (map lower names) then t.optimal_solutions else t.solutions))
        × (t'.solution_type ≡ chosen_last t.solution_type names)
  unfolding fold_result
  set_solution_type_keeps_optimal t [] t' h =
      let same = ok_injective h in
      (
        sym (ap (λ (r : FlowMirroringTrial N). r.solutions) same),
        sym (ap (λ (r : FlowMirroringTrial N). r.solution_type) same),
      )
  set_solution_type_keeps_optimal t (name ∷ names) t' h =
      let (u, first, rest) =
        >>=-eq-ok (set_solution_type t name) (λ u. fold_result set_solution_type u names) h in
      let (current, same, type) = set_once t name u first in
      let (later, last) = set_solution_type_keeps_optimal u names t' rest in
      (
        later
            ∙ ap (λ o. if contains optimal (map lower names) then o else u.solutions) same
            ∙ ap (λ s. if contains optimal (map lower names) then t.optimal_solutions else s)
                current
            ∙ after_first (lower name) (map lower names) t.optimal_solutions t.solutions,
        last ∙ ap (λ y. chosen_last y names) type,
      )

module _ {N : Number} (F : FloatFormat N) where
  open N use {Num}

  -- The files of a trial have its topology, and the flows, the switches and the current solutions are
  -- read from them as they are. That holds if each flow has a path, there is a solution, all solutions
  -- have the same objective value, flows, switches and solutions stand under their own numbers, none
  -- twice, and `%f` prints the rates of the flows and the objective value exactly.
  pub build_results_files-read_back :
      (t : FlowMirroringTrial N) (objective : Num) (utilization_text : Text)
      → All (IsFlow F) t.flows × IsUnique t.flows
      → All HasOwnKey t.switches × IsUnique t.switches
      → IsPrinted N F objective × (t.solutions ≢ [])
      → All (IsSolved objective) t.solutions × IsUnique t.solutions
      → (files : Dict Text Text) × (build_results_files F t utilization_text ≡ ok files)
        × (read_file files (codes "topo") ok ≡ ok t.topology)
        × (read_file files (codes "flows") (deserialize_flows F) ≡ ok t.flows)
        × (read_file files (codes "switches") deserialize_switches ≡ ok t.switches)
        × (read_file files (codes "solutions") (deserialize_solutions F) ≡ ok t.solutions)
  unfolding build_results_files
  build_results_files-read_back t objective u flows switches (p, ne) (solved, unique) =
      let (flow_text, fw, fr) =
        >>=-eq-ok (serialize_flows F t.flows) (deserialize_flows F)
          (flows_saved F t.flows flows.0 flows.1) in
      let (solution_text, sw, sr) =
        >>=-eq-ok (serialize_solutions F t.solutions) (deserialize_solutions F)
          (solutions_saved F objective t.solutions p ne solved unique) in
      (
        (codes "utilization-results.txt", u)
            ∷ (codes "topo", t.topology)
            ∷ (codes "flows", flow_text)
            ∷ (codes "switches", serialize_switches t.switches)
            ∷ (codes "solutions", solution_text)
            ∷ [],
        rw fw (rw sw refl),
        refl,
        fr,
        switches_saved t.switches switches.0 switches.1,
        sr,
      )

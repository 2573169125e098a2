-- ===== src/Mirroring/Trial/Kept.antt =====
-- The current solutions of a trial, and what the check of a trial looks at.
use cpsc_of_testbed.Base.{
  ℕ, List, [], ◌∷◌, ◌++◌, Bool, true, ◌≡◌, refl, sym, ap, ◌∙◌, subst, inl, inr, Option, none, some,
  Result, ok, raise, value_error, name_error, or_raise, ◌>>=◌, fold_result, >>=-eq-ok, ok_injective,
  eqb, length, if◌then◌else◌, ◌==◌, Bool-cases,
}
use cpsc_of_testbed.Base.Numbers.{Number}
use cpsc_of_testbed.Base.Text.{Text, lower, text_eq, text_eqb_iff}
use cpsc_of_testbed.Mirroring.Trial.{
  PortMirroringTrial, det, df, greedy, optimal, rnd, get_solution_of_type, set_current,
  set_solution_type, is_solution_type, mirrored_for, mirrored_last, verify_trial_state,
}

module _ {N : Number} {Node Port : Type 0} (t : PortMirroringTrial N Node Port) where
  -- What the trial does with a name of a solver.
  abbrev chosen : Text → Result (PortMirroringTrial N Node Port)
  chosen x =
      if is_solution_type x
      then ok (set_current t (get_solution_of_type t x) x)
      else raise value_error

  abbrev selected : Text → Result (PortMirroringTrial N Node Port)
  selected x =
      if x == det
      then ok (set_current t t.det_solutions x)
      else if x == df
      then ok (set_current t t.df_solutions x)
      else if x == greedy
      then ok (set_current t t.greedy_solutions x)
      else if x == optimal
      then ok (set_current t t.optimal_solutions x)
      else if x == rnd
      then ok (set_current t t.rnd_solutions x)
      else raise value_error

  at_name :
      (x name : Text) → (x == name) ≡ true → selected name ≡ chosen name → selected x ≡ chosen x
  at_name x name e h = subst (λ y. selected y ≡ chosen y) (sym ((text_eqb_iff x name).0 e)) h

  selected-chosen : (x : Text) → selected x ≡ chosen x
  unfolding get_solution_of_type is_solution_type
  selected-chosen x = elim (Bool-cases (x == det)) [
    | inl e ↦ at_name x det e refl
    | inr n1 ↦ elim (Bool-cases (x == df)) [
      | inl e ↦ at_name x df e refl
      | inr n2 ↦ elim (Bool-cases (x == greedy)) [
        | inl e ↦ at_name x greedy e refl
        | inr n3 ↦ elim (Bool-cases (x == optimal)) [
          | inl e ↦ at_name x optimal e refl
          | inr n4 ↦ elim (Bool-cases (x == rnd)) [
            | inl e ↦ at_name x rnd e refl
            | inr n5 ↦ rw (n1, n2, n3, n4, n5) refl
          ]
        ]
      ]
    ]
  ]

  -- A name of a solver, in letters of any case, makes the solutions that are kept under it the
  -- current ones, and its name in small letters the current type; any other raises ValueError.
  pub set_solution_type_lem :
      (type_name : Text)
      → set_solution_type t type_name ≡ (
          if is_solution_type (lower type_name)
          then ok (set_current t (get_solution_of_type t (lower type_name)) (lower type_name))
          else raise value_error)
  unfolding set_solution_type
  set_solution_type_lem type_name = selected-chosen (lower type_name)

module _ {N : Number} (t : PortMirroringTrial N ℕ ℕ) where
  last_only :
      (before : Option (List ℕ)) (types : List Text) (last : Text) (after : Option (List ℕ))
      → mirrored_last t before (types ++ last ∷ []) ≡ ok after
      → (m : List ℕ) × (mirrored_for t last ≡ ok m) × (after ≡ some m)
  unfolding mirrored_last fold_result
  last_only before [] last after h =
      let (o, first, rest) =
        >>=-eq-ok (mirrored_for t last >>= λ m. ok (some m)) (λ (o : Option (List ℕ)). ok o) h in
      let (m, mirrored, same) = >>=-eq-ok (mirrored_for t last) (λ m. ok (some m)) first in
      (m, mirrored, sym (ok_injective rest) ∙ sym (ok_injective same))
  last_only before (type ∷ types) last after h =
      let (o, first, rest) =
        >>=-eq-ok (mirrored_for t type >>= λ m. ok (some m))
          (λ o. mirrored_last t o (types ++ last ∷ [])) h in
      last_only o types last after rest

  -- The check of a trial, where it answers, looks at the last type of its solutions alone: whether
  -- the ports of that solution mirror as many flows as there are.
  pub verify_trial_state-last :
      (types : List Text) (last : Text) {b : Bool}
      → t.solution_types ≡ types ++ last ∷ []
      → verify_trial_state t ≡ ok b
      → (m : List ℕ) × (mirrored_for t last ≡ ok m) × (b ≡ eqb (length m) (length t.flows))
  unfolding verify_trial_state
  verify_trial_state-last types last {b} e h =
      let (o, found, rest) =
        >>=-eq-ok (mirrored_last t none t.solution_types)
          (λ o. or_raise o name_error >>= λ m. ok (eqb (length m) (length t.flows))) h in
      let (m, mirrored, same) =
        last_only none types last o (ap (mirrored_last t none) (sym e) ∙ found) in
      (
        m,
        mirrored,
        sym (
            ok_injective (
              ap (λ o. or_raise o name_error >>= λ m. ok (eqb (length m) (length t.flows)))
                (sym same)
              ∙ rest)),
      )

-- ===== src/Mirroring/Provider/Visits.antt =====
-- What the visits of a provider find.
use cpsc_of_testbed.Base.{ℕ, List, [], ◌∷◌, ◌++◌, map, true, ◌≡◌, refl, ap, ◌∙◌, ok, All}
use cpsc_of_testbed.Base.Numbers.{Number}
use cpsc_of_testbed.Base.Text.{Text, lower}
use cpsc_of_testbed.Mirroring.Trial.{
  PortMirroringTrial, get_solution_of_type, set_current, is_solution_type,
}
use cpsc_of_testbed.Mirroring.Trial.Kept.{set_solution_type_lem}
use cpsc_of_testbed.Mirroring.Provider.{AnyTrial, port_trial, visit, visit_all, iterate}

module _ {N : Number} where
  -- A trial with the solutions of a type as the current ones.
  abbrev pub of_type : PortMirroringTrial N ℕ ℕ → Text → PortMirroringTrial N ℕ ℕ
  of_type t type = record t {
    solutions = get_solution_of_type t (lower type);
    solution_type = lower type;
  }

  -- As the visits leave it.
  abbrev pub after_types : PortMirroringTrial N ℕ ℕ → List Text → PortMirroringTrial N ℕ ℕ
  after_types t [] = t
  after_types t (type ∷ types) = after_types (of_type t type) types

  -- The types of the trial are names of solvers.
  abbrev pub HasTypes : PortMirroringTrial N ℕ ℕ → Type 0
  HasTypes t = All (λ type. is_solution_type (lower type) ≡ true) t.solution_types

  -- The solutions of the types stay what they are.
  of_type_twice :
      (t : PortMirroringTrial N ℕ ℕ) (first type : Text)
      → of_type (of_type t first) type ≡ of_type t type
  unfolding set_current get_solution_of_type
  of_type_twice t first type = refl

  of_types_after :
      (t : PortMirroringTrial N ℕ ℕ) (first : Text) (types : List Text)
      → map (λ type. port_trial (of_type (of_type t first) type)) types
        ≡ map (λ type. port_trial (of_type t type)) types
  of_types_after t first [] = refl
  of_types_after t first (type ∷ types) =
      ap (λ u. port_trial u ∷ map (λ y. port_trial (of_type (of_type t first) y)) types)
        (of_type_twice t first type)
      ∙ ap (λ us. port_trial (of_type t type) ∷ us) (of_types_after t first types)

  visit-port :
      (t : PortMirroringTrial N ℕ ℕ) (types : List Text)
      → All (λ type. is_solution_type (lower type) ≡ true) types
      → visit (port_trial t) types
        ≡ ok (map (λ type. port_trial (of_type t type)) types, port_trial (after_types t types))
  unfolding visit set_current get_solution_of_type
  visit-port t [] h = refl
  visit-port t (type ∷ types) h = rw (set_solution_type_lem t type) (
      rw h.0 (
        rw (visit-port (of_type t type) types h.1) (
          ap
            (λ us.
              ok
                (port_trial (of_type t type) ∷ us, port_trial (after_types (of_type t type) types)))
            (of_types_after t type types))))

  -- The visits that are expected of a list of trials.
  abbrev pub expected : List (PortMirroringTrial N ℕ ℕ) → List (AnyTrial N)
  expected [] = []
  expected (t ∷ ts) = map (λ type. port_trial (of_type t type)) t.solution_types ++ expected ts

  visit_all-port :
      (ts : List (PortMirroringTrial N ℕ ℕ))
      → All HasTypes ts
      → visit_all (map port_trial ts)
        ≡ ok (
          expected ts,
          map (λ (t : PortMirroringTrial N ℕ ℕ). port_trial (after_types t t.solution_types)) ts,
        )
  unfolding visit_all
  visit_all-port [] h = refl
  visit_all-port (t ∷ ts) h =
      rw (visit-port t t.solution_types h.0) (rw (visit_all-port ts h.1) refl)

  -- A provider of port mirroring trials, whose types are all names of solvers in any case, visits them
  -- in their order, each once for each of its types in their order, and each time with the solutions
  -- of the type as the current ones and its name, in lower case, as the type.
  pub iterate-expected :
      (name : Text) (ts : List (PortMirroringTrial N ℕ ℕ))
      → All HasTypes ts
      → iterate (record { provider_name = name; trials = map port_trial ts })
        ≡ ok (
          expected ts,
          record {
            provider_name = name;
            trials =
                map
                  (λ (t : PortMirroringTrial N ℕ ℕ). port_trial (after_types t t.solution_types))
                  ts;
          },
        )
  unfolding iterate
  iterate-expected name ts h = rw (visit_all-port ts h) refl

-- ===== src/Trials/Parameters/Runs.antt =====
-- What `mk_trial_provider_with_params` builds: one trial for each run, with the run's parameters.
use mathlib.Core.List.{append-nil, append_assoc}
use cpsc_of_testbed.Base.{
  Each, ap, sym, subst, ok_injective, ℕ, ◌+◌, ◌*◌, ◌≡◌, refl, ◌∙◌, String, List, [], ◌∷◌, ◌++◌, map,
  Option, some, none, arith, Result, ok, raise, string_eq, ◌>>=◌, fold_result, enumerate, length,
  length-append, length-map, length-enumerate_from, >>=-eq-ok, ◌==◌, Bool-cases, inl, inr,
}
use cpsc_of_testbed.Base.Dict.{lookup, insert, update, lookup-insert}
use cpsc_of_testbed.Trials.Trial
use cpsc_of_testbed.Trials.Trial.{Trial, Value, number, add_parameter, get_parameter}
use cpsc_of_testbed.Trials.Provider.{Provider, add_trial}
use cpsc_of_testbed.Trials.Parameters.{
  Texts, Piece, Parameters, product, extend, format, mk_trial, mk_trial_provider_with_params,
}

abbrev pub combinations {ℓ} : {A : Type ℓ} → List (List A) → ℕ
combinations [] = 1
combinations (xs ∷ rest) = length xs * combinations rest

length-extend {ℓ} :
    {A : Type ℓ} (xs : List A) (tails : List (List A))
    → length (extend xs tails) ≡ length xs * length tails
unfolding extend
length-extend [] tails = omega arith
length-extend (x ∷ xs) tails = grind (
  arith,
  length-append (map (λ t. x ∷ t) tails) (extend xs tails),
  length-map (λ t. x ∷ t) tails,
  length-extend xs tails,
)

pub length-product {ℓ} :
    {A : Type ℓ} (lists : List (List A)) → length (product lists) ≡ combinations lists
unfolding product
length-product [] = refl
length-product (xs ∷ rest) = length-extend xs (product rest) ∙ rw (length-product rest)

module _ (t : Texts) (per_trial : Parameters) (title : List Piece) where
  add_run : Provider Trial → ℕ × List (String × Value) → Result (Provider Trial)
  add_run p run = mk_trial t per_trial title run >>= λ trial. ok (add_trial p trial)

  runs-length :
      (runs : List (ℕ × List (String × Value))) (p p' : Provider Trial)
      → fold_result add_run p runs ≡ ok p'
      → length p'.trials ≡ length p.trials + length runs
  unfolding fold_result add_run add_trial
  runs-length [] p p' h = ground arith
  runs-length (run ∷ runs) p p' h =
      let (q, first, rest) = >>=-eq-ok (add_run p run) (λ q. fold_result add_run q runs) h in
      let (trial, made, added) = >>=-eq-ok (mk_trial t per_trial title run) _ first in
      let one : length q.trials ≡ length (p.trials ++ trial ∷ []) = ground arith in
      omega (arith, runs-length runs q p' rest, one, length-append p.trials (trial ∷ []))

  -- There is one trial for each combination of the values of the basis parameters.
  pub mk_trial_provider-length :
      (basis : List (List (String × Value))) (name : String) (p : Provider Trial)
      → mk_trial_provider_with_params t basis per_trial title name ≡ ok p
      → length p.trials ≡ combinations basis
  unfolding mk_trial_provider_with_params add_run
  mk_trial_provider-length basis name p h = omega (
    arith,
    runs-length (enumerate (product basis)) _ p h,
    length-enumerate_from 0 (product basis),
    length-product basis,
  )

add_all_parameters : Trial → Parameters → Result Trial
add_all_parameters = fold_result (λ u e. add_parameter u e.0 e.1)

-- A parameter that is there stays, since adding it again raises.
add_all-kept :
    (es : Parameters) (trial trial' : Trial) (j : String) (v : Value)
    → add_all_parameters trial es ≡ ok trial'
    → lookup j trial.parameters ≡ some v
    → lookup j trial'.parameters ≡ some v
unfolding add_all_parameters fold_result add_parameter
add_all-kept [] trial trial' j v h e = ground arith
add_all-kept ((k, w) ∷ es) trial trial' j v h e =
    let (next, first, rest) = >>=-eq-ok (add_parameter trial k w) _ h in
    let there : lookup j next.parameters ≡ some v =
      ground (arith, lookup-insert k j w trial.parameters, string_eq.equals_iff k j) in
    add_all-kept es next trial' j v rest there

add_all-added :
    (es : Parameters) (trial trial' : Trial) (j : String) (v : Value)
    → add_all_parameters trial es ≡ ok trial'
    → lookup j es ≡ some v
    → lookup j trial'.parameters ≡ some v
unfolding add_all_parameters fold_result add_parameter
add_all-added [] trial trial' j v h e = cc
add_all-added ((k, w) ∷ es) trial trial' j v h e =
    let (next, first, rest) = >>=-eq-ok (add_parameter trial k w) _ h in
    elim (Bool-cases (k == j)) [
      | inl here ↦
          let there : lookup j next.parameters ≡ some v =
            ground (arith, lookup-insert k j w trial.parameters) in
          add_all-kept es next trial' j v rest there
      | inr later ↦ add_all-added es next trial' j v rest (ground arith)
    ]

-- Every parameter of a run, of its combination, of the constant ones and its number, can be read
-- from the run's trial.
pub get_parameter-mk_trial :
    (t : Texts) (per_trial : Parameters) (title : List Piece) (run_idx : ℕ)
    (pack : List (String × Value)) (trial : Trial) (j : String) (v : Value)
    → mk_trial t per_trial title (run_idx, pack) ≡ ok trial
    → lookup j (insert "run_idx" (number run_idx) (update (update [] pack) per_trial)) ≡ some v
    → get_parameter trial j ≡ ok v
unfolding mk_trial get_parameter add_all_parameters
get_parameter-mk_trial t per_trial title run_idx pack trial j v h e =
    let all = insert "run_idx" (number run_idx) (update (update [] pack) per_trial) in
    let (name, titled, added) = >>=-eq-ok (format t title all) _ h in
    rw (add_all-added all (Trial.make name (t.ids run_idx)) trial j v added e)

module _ (t : Texts) (per_trial : Parameters) (title : List Piece) where
  -- Every parameter of a run can be read from its trial: those of its combination, the constant ones,
  -- which go before them, and its number.
  abbrev pub IsRun : ℕ × List (String × Value) → Trial → Type 0
  IsRun run trial =
      (j : String) (v : Value)
      → lookup j (insert "run_idx" (number run.0) (update (update [] run.1) per_trial)) ≡ some v
      → get_parameter trial j ≡ ok v

  runs-Each :
      (runs : List (ℕ × List (String × Value))) (p p' : Provider Trial)
      → fold_result (add_run t per_trial title) p runs ≡ ok p'
      → (trials : List Trial) × (p'.trials ≡ p.trials ++ trials) × Each IsRun runs trials
  unfolding fold_result add_run add_trial
  runs-Each [] p p' h = (
    [],
    ap (λ (q : Provider Trial). q.trials) (sym (ok_injective h)) ∙ sym (append-nil p.trials),
    tt,
  )
  runs-Each (run ∷ runs) p p' h =
      let (q, first, rest) =
        >>=-eq-ok (add_run t per_trial title p run)
          (λ q. fold_result (add_run t per_trial title) q runs) h in
      let (trial, made, added) = >>=-eq-ok (mk_trial t per_trial title run) _ first in
      let (trials, later, each) = runs-Each runs q p' rest in
      (
        trial ∷ trials,
        later
            ∙ ap (λ (u : Provider Trial). u.trials ++ trials) (sym (ok_injective added))
            ∙ append_assoc p.trials (trial ∷ []) trials,
        (λ j v. get_parameter-mk_trial t per_trial title run.0 run.1 trial j v made, each),
      )

  -- If the provider is built, it has as many trials as there are combinations of the values of the
  -- basis parameters, one for each of them in the order of the product. From each trial all parameters
  -- of its run can be read: those of its combination, the constant ones, which replace those of the
  -- same name, and its number.
  pub mk_trial_provider-Each :
      (basis : List (List (String × Value))) (name : String) (p : Provider Trial)
      → mk_trial_provider_with_params t basis per_trial title name ≡ ok p
      → (length p.trials ≡ combinations basis) × Each IsRun (enumerate (product basis)) p.trials
  unfolding mk_trial_provider_with_params add_run
  mk_trial_provider-Each basis name p h =
      let (trials, all, each) = runs-Each (enumerate (product basis)) _ p h in
      (
        mk_trial_provider-length t per_trial title basis name p h,
        subst (Each IsRun (enumerate (product basis))) (sym all) each,
      )

abbrev pub trial_count : Result (Provider Trial) → Option ℕ
trial_count (ok p) = some (length p.trials)
trial_count (raise e) = none

-- ===== src/Repository/Merged.antt =====
-- What a provider of trials becomes where another is stored already.
use cpsc_of_testbed.Base.{
  List, [], ◌∷◌, ◌++◌, Bool, true, false, not, ◌&&◌, ◌≡◌, refl, sym, ap, ◌∙◌, subst, Result, ok,
  raise, value_error, >>=-eq-ok, ok_injective, fold_result, map_result, filter, contains, add_all,
  length, raise_if, All-imply, All, Comparable, if◌then◌else◌, ◌==◌, arith, eqb, nat_eq, String,
}
use mathlib.Core.List.{append_assoc, append-nil}
use cpsc_of_testbed.Trials.Trial.{Trial, Value}
use cpsc_of_testbed.Trials.Provider.{Provider, add_trial, remove_all_trials_that_match_lem}
use cpsc_of_testbed.Repository.{
  value_eq, value_eqb_iff, parameter_of, intersection, is_named, remove_named, add_trials,
  merge_provider,
}
use cpsc_of_testbed.Repository.Sets.{
  contains-add_all, contains-filter, filter-filter, filter_same, filter_all,
}

module _ {T : Type 0} ⦃e : Comparable T⦄ (trial_of : T → Trial) where
  -- The parameter of the trial is one of the values.
  abbrev pub is_among : String → List Value → T → Bool
  is_among name vs t = elim (parameter_of trial_of name t) [
    | ok v ↦ contains v vs
    | raise e ↦ false
  ]

  add_trials_lem :
      (p : Provider T) (ts : List T)
      → add_trials trial_of p ts ≡ record p { trials = p.trials ++ ts }
  unfolding add_trials add_trial
  add_trials_lem p [] = ap (λ us. record p { trials = us }) (sym (append-nil p.trials))
  add_trials_lem p (t ∷ ts) =
      add_trials_lem (record p { trials = p.trials ++ t ∷ [] }) ts
      ∙ ap (λ us. record p { trials = us }) (append_assoc p.trials (t ∷ []) ts)

  none_among : (name : String) (t : T) → is_among name [] t ≡ false
  none_among name t = go (parameter_of trial_of name t)
    where
      go : (r : Result Value) → elim r [ ok v ↦ contains v [] | raise e ↦ false ] ≡ false
      go (ok v) = refl
      go (raise e) = refl

  one_more :
      (v : Value) (vs : List Value) (t : T)
      → (not (is_named trial_of v t) && not (is_among "trial-name" vs t))
        ≡ not (is_among "trial-name" (v ∷ vs) t)
  one_more v vs t = go (parameter_of trial_of "trial-name" t)
    where
      go :
          (r : Result Value)
          → (not (elim r [ ok w ↦ w == v | raise e ↦ false ])
              && not (elim r [ ok w ↦ contains w vs | raise e ↦ false ]))
            ≡ not (elim r [ ok w ↦ contains w (v ∷ vs) | raise e ↦ false ])
      go (ok w) = ground arith
      go (raise e) = refl

  -- The trials of all the names are removed.
  removed_named :
      (p : Provider T) (vs : List Value)
      → fold_result (remove_named trial_of) p vs
        ≡ ok (record p { trials = filter (λ t. not (is_among "trial-name" vs t)) p.trials })
  unfolding fold_result remove_named
  removed_named p [] =
      ap (λ us. ok (record p { trials = us }))
        (sym (
          filter_all (λ t. not (is_among "trial-name" [] t)) p.trials
            (λ t. ap not (none_among "trial-name" t))))
  removed_named p (v ∷ vs) = rw (remove_all_trials_that_match_lem p (is_named trial_of v)) (
      removed_named (record p { trials = filter (λ t. not (is_named trial_of v t)) p.trials }) vs
      ∙ ap (λ us. ok (record p { trials = us }))
          (filter-filter (λ t. not (is_named trial_of v t)) (λ t. not (is_among "trial-name" vs t))
            (λ t. not (is_among "trial-name" (v ∷ vs) t)) p.trials (one_more v vs)))

  abbrev HasValue : String → List Value → T → Type 0
  HasValue name us t = (v : Value) × (parameter_of trial_of name t ≡ ok v) × (contains v us ≡ true)

  has_values :
      (name : String) (ts : List T) (us : List Value)
      → map_result (parameter_of trial_of name) ts ≡ ok us
      → All (HasValue name us) ts
  unfolding map_result
  has_values name [] us h = tt
  has_values name (t ∷ ts) us h =
      let (v, found, h1) = >>=-eq-ok (parameter_of trial_of name t) _ h in
      let (vs, rest, h2) = >>=-eq-ok (map_result (parameter_of trial_of name) ts) _ h1 in
      subst (λ ws. All (HasValue name ws) (t ∷ ts)) (ok_injective h2)
        (
          (v, found, ground (arith, value_eqb_iff v v)),
          All-imply (λ u known. (known.0, known.1, ground (arith, known.2))) ts
              (has_values name ts vs rest),
        )

  -- The common values are those of the second provider, as far as the first goes.
  intersection_lem :
      (name : String) (p q : Provider T) (common : List Value)
      → intersection trial_of name p q ≡ ok common
      → (vs : List Value) × (map_result (parameter_of trial_of name) q.trials ≡ ok vs)
        × All (λ t. is_among name common t ≡ is_among name vs t) p.trials
  unfolding intersection
  intersection_lem name p q common h =
      let (us, first, h1) = >>=-eq-ok (map_result (parameter_of trial_of name) p.trials) _ h in
      let (vs, second, h2) = >>=-eq-ok (map_result (parameter_of trial_of name) q.trials) _ h1 in
      (
        vs,
        second,
        subst (λ ws. All (λ t. is_among name ws t ≡ is_among name vs t) p.trials) (ok_injective h2)
            (All-imply (λ t known. agree us vs t known) p.trials
              (has_values name p.trials us first)),
      )
    where
      agree :
          (us vs : List Value) (t : T)
          → HasValue name us t
          → is_among name (filter (λ v. contains v vs) (add_all [] us)) t ≡ is_among name vs t
      agree us vs t (v, found, there) =
          let kept : contains v (add_all [] us) ≡ true = contains-add_all v [] us there in
          ap
            (λ r. elim r [
              | ok w ↦ contains w (filter (λ u. contains u vs) (add_all [] us))
              | raise e ↦ false
            ])
            found
          ∙ contains-filter v (λ w. contains w vs) (add_all [] us)
          ∙ ap (λ b. b && contains v vs) kept
          ∙ sym (ap (λ r. elim r [ ok w ↦ contains w vs | raise e ↦ false ]) found)

  nothing_common :
      (name : String) (vs common : List Value) (ts : List T)
      → not (eqb (length common) 0) ≡ false
      → All (λ t. is_among name common t ≡ is_among name vs t) ts
      → All (λ t. is_among name vs t ≡ false) ts
  nothing_common name vs [] ts h same = All-imply (λ t k. sym k ∙ none_among name t) ts same
  nothing_common name vs (v ∷ common) ts h same = absurd (ground (arith, h))

  -- Where another provider is stored, the two have no identifier in common, and no name unless the
  -- names are to be overwritten. The provider is then stored with the trials of the other behind its
  -- own, if they are to be merged, without those that have one of its names.
  pub merge_provider_lem :
      (overwrite merge_existing : Bool) (existing provider merged : Provider T)
      → merge_provider trial_of overwrite merge_existing existing provider ≡ ok merged
      → (ids : List Value) × (names : List Value) × (map_result
            (parameter_of trial_of "id")
            provider.trials
          ≡ ok ids)
        × (map_result (parameter_of trial_of "trial-name") provider.trials ≡ ok names)
        × All (λ t. is_among "id" ids t ≡ false) existing.trials
        × (overwrite ≡ false → All (λ t. is_among "trial-name" names t ≡ false) existing.trials)
        × (merged ≡ (
            if merge_existing
            then (record provider {
              trials =
                  provider.trials
                  ++ filter (λ t. not (is_among "trial-name" names t)) existing.trials;
            })
            else provider))
  unfolding merge_provider
  merge_provider_lem overwrite merge_existing existing provider merged h =
      let (ids, i, h1) = >>=-eq-ok (intersection trial_of "id" existing provider) _ h in
      let (u, no_id, h2) = >>=-eq-ok (raise_if (not (eqb (length ids) 0)) value_error) _ h1 in
      let (names, n, h3) = >>=-eq-ok (intersection trial_of "trial-name" existing provider) _ h2 in
      let (w, allowed, h4) =
        >>=-eq-ok (raise_if (not (eqb (length names) 0) && not overwrite) value_error) _ h3 in
      let (kept, removed, h5) =
        >>=-eq-ok (fold_result (remove_named trial_of) existing names) _ h4 in
      let (own_ids, a, same_ids) = intersection_lem "id" existing provider ids i in
      let (own_names, b, same_names) = intersection_lem "trial-name" existing provider names n in
      (
        own_ids,
        own_names,
        a,
        b,
        nothing_common "id" own_ids ids existing.trials (passed _ no_id) same_ids,
        λ not_over.
            nothing_common "trial-name" own_names names existing.trials
              (unless_over (eqb (length names) 0) overwrite (passed _ allowed) not_over) same_names,
        sym (ok_injective h5)
            ∙ (result merge_existing kept.trials _ (
                sym (
                  ap (λ (k : Provider T). k.trials)
                    (ok_injective (sym (removed_named existing names) ∙ removed)))
                ∙ filter_same _ _ existing.trials
                    (All-imply (λ t k. ap not k) existing.trials same_names))),
      )
    where
      passed : (c : Bool) {x : Unit {0}} → raise_if c value_error ≡ ok x → c ≡ false
      passed true e = cc
      passed false e = refl

      unless_over : (c o : Bool) → (not c && not o) ≡ false → o ≡ false → not c ≡ false
      unless_over c o h k = ground (arith, h, k)

      result :
          (m : Bool) (old kept : List T)
          → old ≡ kept
          → (if m then add_trials trial_of provider old else provider)
            ≡ (if m then record provider { trials = provider.trials ++ kept } else provider)
      result true old kept same =
          add_trials_lem provider old
          ∙ ap (λ us. record provider { trials = provider.trials ++ us }) same
      result false old kept same = refl

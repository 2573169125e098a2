-- ===== src/Trials/Provider.antt =====
-- `TrialProvider` of rest_client/nw_control/trial_provider.py, over any trials: `list.remove`
-- compares by `==`, which for the trials of the program is the identity of the object.
use cpsc_of_testbed.Base.{
  ℕ, String, ◌≡◌, refl, Bool, true, false, not, List, [], ◌∷◌, ◌++◌, arith, Result, ok, raise,
  value_error, or_raise, Comparable, ◌==◌, string_eq, if◌then◌else◌, Bool-cases, inl, inr, contains,
  All-append, remove, filter, fold_result, All,
}
use mathlib.Core.List.{append_assoc}
use cpsc_of_testbed.Base.Dict.{Dict, lookup, insert, has_key, lookup-insert}

pub record Provider (T : Type 0) : Type 0 where
  pub provider_name : String
  pub trials : List T
  pub metadata : Dict String ℕ

-- `TrialProvider(provider_name)`
abbrev pub make : {T : Type 0} → String → Provider T
make name = record { provider_name = name; trials = []; metadata = [] }

module _ {T : Type 0} where
  unfoldable pub add_trial : Provider T → T → Provider T
  add_trial p t = record p { trials = p.trials ++ t ∷ [] }

  unfoldable pub get_all_trials_that_match : Provider T → (T → Bool) → List T
  get_all_trials_that_match p match_fn = filter match_fn p.trials

  unfoldable pub get_first_trial_that_matches : Provider T → (T → Bool) → Result T
  unfolding get_all_trials_that_match
  get_first_trial_that_matches p match_fn = elim (get_all_trials_that_match p match_fn) [
    | [] ↦ raise value_error
    | t ∷ rest ↦ ok t
  ]

  unfoldable pub add_metadata : Provider T → String → ℕ → Result (Provider T)
  add_metadata p key v =
      if has_key key p.metadata
      then raise value_error
      else ok (record p { metadata = insert key v p.metadata })

  unfoldable pub get_metadata : Provider T → String → Result ℕ
  get_metadata p key = or_raise (lookup key p.metadata) value_error

  -- Metadata that was added is read back, and no other is changed; a key is added once.
  pub get_metadata-add_metadata :
      (p : Provider T) (key : String) (v : ℕ) (p' : Provider T)
      → add_metadata p key v ≡ ok p'
      → ((j : String) → get_metadata p' j ≡ (if key == j then ok v else get_metadata p j))
        × ((w : ℕ) → add_metadata p' key w ≡ raise value_error)
  unfolding add_metadata get_metadata
  get_metadata-add_metadata p key v p' h = elim (Bool-cases (has_key key p.metadata)) [
    | inl old ↦ absurd (ground arith)
    | inr new ↦
        let same : insert key v p.metadata ≡ p'.metadata = ground arith in
        (
          λ j. ground (arith, lookup-insert key j v p.metadata),
          λ w. ground (arith, lookup-insert key key v p.metadata, string_eq.equals_iff key key),
        )
  ]

module _ {T : Type 0} ⦃e : Comparable T⦄ where
  -- `self.trials.remove(trial)`
  unfoldable pub remove_trial : Provider T → T → Result (Provider T)
  remove_trial p t =
      if contains t p.trials
      then ok (record p { trials = remove t p.trials })
      else raise value_error

  unfoldable pub remove_all_trials_that_match : Provider T → (T → Bool) → Result (Provider T)
  unfolding fold_result remove_trial get_all_trials_that_match
  remove_all_trials_that_match p match_fn =
      fold_result remove_trial p (get_all_trials_that_match p match_fn)

  unmatched_stays :
      (match_fn : T → Bool) (x t : T) → match_fn x ≡ false → match_fn t ≡ true → (t == x) ≡ false
  unmatched_stays match_fn x t hx ht = elim (Bool-cases (t == x)) [
    | inl same ↦ absurd (ground (arith, e.equals_iff t x, hx, ht))
    | inr other ↦ other
  ]

  contains-past :
      (match_fn : T → Bool) (x : T) (kept rest : List T)
      → match_fn x ≡ true
      → All (λ u. match_fn u ≡ false) kept
      → (contains x (kept ++ x ∷ rest) ≡ true) × (remove x (kept ++ x ∷ rest) ≡ kept ++ rest)
  contains-past match_fn x [] rest hx h =
      (ground (arith, e.equals_iff x x), ground (arith, e.equals_iff x x))
  contains-past match_fn x (u ∷ kept) rest hx h =
      let other : (x == u) ≡ false = unmatched_stays match_fn u x h.0 hx in
      let (found, removed) = contains-past match_fn x kept rest hx h.1 in
      (ground arith, ground arith)

  remove_matching :
      (match_fn : T → Bool) (p : Provider T) (kept xs : List T)
      → All (λ u. match_fn u ≡ false) kept
      → fold_result remove_trial (record p { trials = kept ++ xs }) (filter match_fn xs)
        ≡ ok (record p { trials = kept ++ filter (λ t. not (match_fn t)) xs })
  unfolding fold_result remove_trial
  remove_matching match_fn p kept [] h = refl
  remove_matching match_fn p kept (x ∷ xs) h = elim (Bool-cases (match_fn x)) [
    | inl matched ↦
        let (found, removed) = contains-past match_fn x kept xs matched h in
        rw (matched, found, removed) (remove_matching match_fn p kept xs h)
    | inr unmatched ↦
        let all = All-append (λ u. match_fn u ≡ false) kept (x ∷ []) h (unmatched, tt) in
        rw unmatched (simp append_assoc at (remove_matching match_fn p (kept ++ x ∷ []) xs all))
  ]

  -- All trials that match are removed, also where one is there twice, and the others stay in their
  -- order; it never raises.
  pub remove_all_trials_that_match_lem :
      (p : Provider T) (match_fn : T → Bool)
      → remove_all_trials_that_match p match_fn
        ≡ ok (record p { trials = filter (λ t. not (match_fn t)) p.trials })
  unfolding remove_all_trials_that_match
  remove_all_trials_that_match_lem p match_fn = remove_matching match_fn p [] p.trials tt

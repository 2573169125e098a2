-- ===== src/Allocation/Splits/Totals.antt =====
-- What the expressions U of the model are worth: for each link, the sum of what its flows have on it.
use mathlib.Core.Path.{subst}
use cpsc_of_testbed.Base.{
  ℕ, suc, List, [], ◌∷◌, ◌++◌, map, ◌≡◌, refl, sym, ◌∙◌, true, Option, none, some, ok, key_error,
  or_raise, fold_result, >>=-eq-ok, or_raise-eq-ok, eqb, eqb_iff, enumerate_from, nat_eq,
  Bool-cases, inl, inr, ap, ok_injective, arith, contains,
}
use cpsc_of_testbed.Base.Dict.{Dict, lookup, insert, lookup-insert}
use cpsc_of_testbed.Base.Numbers.{Number, zero_num, one_num, Le, IsOrdered}
use cpsc_of_testbed.Allocation.Flow.{Flow}
use cpsc_of_testbed.Allocation.Greedy.{Link}
use cpsc_of_testbed.Allocation.Program.{Variable, total, LinExpr, value, plus_var}
use cpsc_of_testbed.Allocation.Splits.{add_total, portion_keys}
use cpsc_of_testbed.Allocation.Splits.Sums.{plus_if, load_flow, load_flows, load_flow-Le}

module _ (N : Number) (links : Dict Link ℕ) (a : Variable → Number.Num N) (k : ℕ) where
  open N use {Num, plus, times}

  abbrev pub worth : Option (LinExpr N) → Num
  worth none = zero_num N
  worth (some e) = value N a e

  abbrev pub use_of : Dict ℕ (LinExpr N) → Num
  use_of d = worth (lookup k d)

  pub use_of-found :
      (d : Dict ℕ (LinExpr N)) (e : LinExpr N) → lookup k d ≡ some e → use_of d ≡ value N a e
  use_of-found d e h = ap worth h

  abbrev taken : ℕ × ℕ → Num
  taken key = times (a (total key.0 key.1)) (one_num N)

  abbrev pub total_sum : List (ℕ × ℕ) → Num → Num
  total_sum [] acc = acc
  total_sum (key ∷ ks) acc = total_sum ks (plus_if N links a k (eqb key.1 k) acc (taken key))

  inserted-use :
      (key : ℕ × ℕ) (d : Dict ℕ (LinExpr N)) (e : LinExpr N)
      → lookup key.1 d ≡ some e
      → use_of (insert key.1 (plus_var N e (total key.0 key.1)) d)
        ≡ plus_if N links a k (eqb key.1 k) (use_of d) (taken key)
  unfolding value
  inserted-use key d e h =
      ap worth (lookup-insert key.1 k (plus_var N e (total key.0 key.1)) d)
      ∙ elim (Bool-cases (eqb key.1 k)) [
        | inl same ↦
            let old : lookup k d ≡ some e =
              subst (λ q. lookup q d ≡ some e) ((eqb_iff key.1 k).0 same) h in
            rw (same, old) refl
        | inr other ↦ rw other refl
      ]

  add_total-use :
      (key : ℕ × ℕ) (d d' : Dict ℕ (LinExpr N))
      → add_total N d key ≡ ok d'
      → use_of d' ≡ plus_if N links a k (eqb key.1 k) (use_of d) (taken key)
  add_total-use key d d' h =
      let (e, old, now) =
        >>=-eq-ok (or_raise (lookup key.1 d) key_error)
          (λ e. ok (insert key.1 (plus_var N e (total key.0 key.1)) d)) h in
      rw (sym (ok_injective now))
        (inserted-use key d e (or_raise-eq-ok (lookup key.1 d) key_error old))

  pub add_totals-use :
      (ks : List (ℕ × ℕ)) (d d' : Dict ℕ (LinExpr N))
      → fold_result (add_total N) d ks ≡ ok d'
      → use_of d' ≡ total_sum ks (use_of d)
  unfolding fold_result
  add_totals-use [] d d' h = rw (ok_injective h) refl
  add_totals-use (key ∷ ks) d d' h =
      let (c, first, rest) =
        >>=-eq-ok (add_total N d key) (λ c. fold_result (add_total N) c ks) h in
      add_totals-use ks c d' rest ∙ ap (total_sum ks) (add_total-use key d c first)

  total_sum-append :
      (xs ys : List (ℕ × ℕ)) (acc : Num)
      → total_sum (xs ++ ys) acc ≡ total_sum ys (total_sum xs acc)
  total_sum-append [] ys acc = refl
  total_sum-append (x ∷ xs) ys acc =
      total_sum-append xs ys (plus_if N links a k (eqb x.1 k) acc (taken x))

  module _ (laws : IsOrdered N) where
    abbrev IsTaken : ℕ → Type 0
    IsTaken i = Le N (zero_num N) (a (total i k))

    taken_is : (i l : ℕ) → eqb l k ≡ true → taken (i, l) ≡ a (total i k)
    taken_is i l same =
        laws.times_one (a (total i l)) ∙ ap (λ q. a (total i q)) ((eqb_iff l k).0 same)

    grown : (acc acc' x : Num) → Le N acc acc' → Le N (zero_num N) x → Le N acc (plus acc' x)
    grown acc acc' x le h =
        subst (λ z. Le N z (plus acc' x)) (laws.plus_zero acc)
          (laws.plus_mono acc acc' (zero_num N) x le h)

    step-Le :
        (i l : ℕ) (acc acc' : Num)
        → IsTaken i
        → Le N acc acc'
        → Le N acc (plus_if N links a k (eqb l k) acc' (taken (i, l)))
    step-Le i l acc acc' h le = elim (Bool-cases (eqb l k)) [
      | inl same ↦
          rw same (
            grown acc acc' (taken (i, l)) le
              (subst (Le N (zero_num N)) (sym (taken_is i l same)) h))
      | inr other ↦ rw other le
    ]

    -- The keys of one flow: what was there before, and the total of the flow, if the link has a key.
    keys-Le :
        (i : ℕ) (ls : List ℕ) (acc acc' : Num)
        → IsTaken i
        → Le N acc acc'
        → Le N acc (total_sum (map (λ l. (i, l)) ls) acc')
    keys-Le i [] acc acc' h le = le
    keys-Le i (l ∷ ls) acc acc' h le =
        keys-Le i ls acc (plus_if N links a k (eqb l k) acc' (taken (i, l))) h
          (step-Le i l acc acc' h le)

    keys-plus-Le :
        (i : ℕ) (ls : List ℕ) (acc acc' : Num)
        → IsTaken i
        → contains k ls ≡ true
        → Le N acc acc'
        → Le N (plus acc (a (total i k))) (total_sum (map (λ l. (i, l)) ls) acc')
    keys-plus-Le i [] acc acc' h m le = cc
    keys-plus-Le i (l ∷ ls) acc acc' h m le = elim (Bool-cases (eqb l k)) [
      | inl same ↦
          rw (same, total_sum)
            (keys-Le i ls (plus acc (a (total i k))) (plus acc' (taken (i, l))) h (
              rw (taken_is i l same) (
                laws.plus_mono acc acc' (a (total i k)) (a (total i k)) le
                  (laws.le_refl (a (total i k))))))
      | inr other ↦ rw (other, total_sum) (keys-plus-Le i ls acc acc' h (ground arith) le)
    ]

    -- Each flow from index i on has its load on the link as its total.
    abbrev pub Totals : ℕ → List (Flow N) → Type 0
    Totals i [] = Unit
    Totals i (f ∷ fs) =
        ((y : Num) × Le N (zero_num N) y
          × (a (total i k) ≡ load_flow N links a k (i, f) y)
          × Le N (zero_num N) (a (total i k)))
        × Totals (suc i) fs

    pub load_flows-Le :
        (i : ℕ) (fs : List (Flow N)) (ls : List ℕ) (acc acc' : Num)
        → Totals i fs
        → contains k ls ≡ true
        → Le N acc acc'
        → Le N
            (load_flows N links a k (enumerate_from i fs) acc)
            (total_sum (portion_keys N i fs ls) acc')
    load_flows-Le i [] ls acc acc' t m le = le
    load_flows-Le i (f ∷ fs) ls acc acc' ((y, y_positive, is, positive), t) m le =
        let rest = total_sum (map (λ l. (i, l)) ls) acc' in
        let now =
          laws.le_trans (load_flow N links a k (i, f) acc) (plus acc (a (total i k))) rest
            (rw is (load_flow-Le N links a k laws (i, f) acc y y_positive))
            (keys-plus-Le i ls acc acc' positive m le) in
        rw (total_sum-append (map (λ l. (i, l)) ls) (portion_keys N (suc i) fs ls) acc')
          (load_flows-Le (suc i) fs ls (load_flow N links a k (i, f) acc) rest t m now)

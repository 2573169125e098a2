-- ===== src/Allocation/Splits/Entries.antt =====
-- What the loops keep of the entries of Y and U, and what the calls about an entry say.
use mathlib.Core.Path.{subst}
use cpsc_of_testbed.Base.{
  ℕ, List, [], ◌∷◌, ◌≡◌, sym, ◌∙◌, some, ok, key_error, or_raise, ◌>>=◌, fold_result,
  fold_result_inv, >>=-eq-ok, pairwise, enumerate_from, nat_eq, pair_eq, inl, inr, ap, ok_injective,
  Comparable,
}
use cpsc_of_testbed.Base.Dict.{Dict, lookup, insert, lookup-insert-some, lookup-cons}
use cpsc_of_testbed.Base.Numbers.{Number, zero_num, one_num, Le, IsOrdered}
use cpsc_of_testbed.Allocation.Flow.{Flow}
use cpsc_of_testbed.Allocation.Greedy.{Link, sorted_link, link_capacity}
use cpsc_of_testbed.Allocation.Program.{
  Variable, split, total, capped, alpha, LinExpr, add, var, multiple, value, plus_var, IsFeasible,
}
use cpsc_of_testbed.Allocation.Splits.{
  Portions, add_link, add_path, add_flow_links, paths_of, add_total, total_calls, cap_calls,
}

module _ (N : Number) where
  open N use {Num, plus, times, gt}

  module _ {K : Type 0} ⦃q : Comparable K⦄ where
    abbrev pub HasKey : K → Dict K (LinExpr N) → Type 0
    HasKey k d = (e : LinExpr N) × (lookup k d ≡ some e)

  -- The loops drop no entry.
  module _ (links : Dict Link ℕ) (key : ℕ × ℕ) where
    add_link-HasKey :
        (rate : Num) (i j : ℕ) (d : Portions N) (l : Link) (d' : Portions N)
        → HasKey key d
        → add_link N links rate i j d l ≡ ok d'
        → HasKey key d'
    unfolding add_link
    add_link-HasKey rate i j d l d' has h =
        let (m, found, h2) =
          >>=-eq-ok (or_raise (lookup (sorted_link l) links) key_error)
            (λ m. or_raise (lookup (i, m) d) key_error >>= λ e.
              ok (insert (i, m) (add e rate (split i j)) d))
            h in
        let (e, old, h3) =
          >>=-eq-ok (or_raise (lookup (i, m) d) key_error)
            (λ e. ok (insert (i, m) (add e rate (split i j)) d)) h2 in
        subst (HasKey key) (ok_injective h3)
          (lookup-insert-some key (i, m) (add e rate (split i j)) d has)

    add_path-HasKey :
        (rate : Num) (i : ℕ) (d : Portions N) (p : ℕ × List ℕ) (d' : Portions N)
        → HasKey key d
        → add_path N links rate i d p ≡ ok d'
        → HasKey key d'
    add_path-HasKey rate i d p d' =
        fold_result_inv (HasKey key) (add_link N links rate i p.0) (add_link-HasKey rate i p.0) d
          (pairwise p.1) d'

    pub add_flow-HasKey :
        (d : Portions N) (f : ℕ × Flow N) (d' : Portions N)
        → HasKey key d
        → add_flow_links N links d f ≡ ok d'
        → HasKey key d'
    add_flow-HasKey d f d' has h =
        let (ps, _, rest) =
          >>=-eq-ok (paths_of N f.1)
            (λ ps. fold_result (add_path N links f.1.flow_tx_rate f.0) d (enumerate_from 0 ps)) h in
        fold_result_inv (HasKey key) (add_path N links f.1.flow_tx_rate f.0)
          (add_path-HasKey f.1.flow_tx_rate f.0) d (enumerate_from 0 ps) d' has rest

  pub add_total-HasKey :
      (k : ℕ) (d : Dict ℕ (LinExpr N)) (key : ℕ × ℕ) (d' : Dict ℕ (LinExpr N))
      → HasKey k d
      → add_total N d key ≡ ok d'
      → HasKey k d'
  add_total-HasKey k d key d' has h =
      let (e, old, now) =
        >>=-eq-ok (or_raise (lookup key.1 d) key_error)
          (λ e. ok (insert key.1 (plus_var N e (total key.0 key.1)) d)) h in
      subst (HasKey k) (ok_injective now)
        (lookup-insert-some k key.1 (plus_var N e (total key.0 key.1)) d has)

  module _ (laws : IsOrdered N) (a : Variable → Num) where
    pub value-var : (v : Variable) → value N a (var N v) ≡ a v
    unfolding value
    value-var v = laws.zero_plus (times (a v) (one_num N)) ∙ laws.times_one (a v)

    pub value-alpha : value N a (multiple N (link_capacity N) alpha) ≡ a alpha
    unfolding value
    value-alpha = laws.zero_plus (times (a alpha) (one_num N)) ∙ laws.times_one (a alpha)

    -- The calls about one entry.
    pub total-Holds :
        (d : Portions N) (key : ℕ × ℕ) (e : LinExpr N)
        → IsFeasible N a (total_calls N d)
        → lookup key d ≡ some e
        → Le N (zero_num N) (a (total key.0 key.1)) × (a (total key.0 key.1) ≡ value N a e)
    total-Holds [] key e h found = cc
    total-Holds ((j, b) ∷ d) key e h found = elim (lookup-cons j key b e d found) [
      | inl (at, is) ↦ (
        subst (λ q. Le N (zero_num N) (a (total q.0 q.1))) at h.0.0,
        subst (λ q. a (total q.0 q.1) ≡ value N a e) at
            (sym (value-var (total j.0 j.1)) ∙ h.1.0 ∙ ap (value N a) is),
      )
      | inr later ↦ total-Holds d key e h.1.1 later
    ]

    pub cap-Holds :
        (d : Dict ℕ (LinExpr N)) (k : ℕ) (e : LinExpr N)
        → IsFeasible N a (cap_calls N d)
        → Le N (a alpha) (one_num N)
        → lookup k d ≡ some e
        → Le N (value N a e) (link_capacity N)
    cap-Holds [] k e h below found = cc
    cap-Holds ((j, b) ∷ d) k e h below found = elim (lookup-cons j k b e d found) [
      | inl (at, is) ↦
          let worth : a (capped j) ≡ value N a e =
            sym (value-var (capped j)) ∙ h.0 ∙ ap (value N a) is in
          laws.le_trans (value N a e) (a alpha) (one_num N)
            (subst (λ x. Le N x (a alpha)) worth
              (subst (λ x. Le N (a (capped j)) x) value-alpha
                (subst (λ x. Le N x (value N a (multiple N (link_capacity N) alpha)))
                  (value-var (capped j)) h.1.0)))
            below
      | inr later ↦ cap-Holds d k e h.1.1 below later
    ]

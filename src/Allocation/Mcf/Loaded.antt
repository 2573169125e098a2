-- ===== src/Allocation/Mcf/Loaded.antt =====
-- What the flows of a solution of `create_mcf_model` put on the links.
use cpsc_of_testbed.Base.{
  Bool, ℕ, List, [], ◌∷◌, map, ◌≡◌, refl, sym, ap, ◌∙◌, subst, none, some, ok, key_error,
  index_error, or_raise, or_raise-eq-ok, ok_injective, >>=-eq-ok, fold_result, map_result, All,
  if◌then◌else◌, eqb, eqb_iff, nat_eq, pair_eq, triple_eq, Bool-cases, inl, inr, false, get_elem?,
}
use cpsc_of_testbed.Base.Dict.{Dict, lookup, insert, lookup-insert}
use cpsc_of_testbed.Base.Numbers.{Number, zero_num, one_num, Le, IsOrdered}
use cpsc_of_testbed.Allocation.Flow.{Flow}
use cpsc_of_testbed.Allocation.Greedy.{Link, link_capacity}
use cpsc_of_testbed.Allocation.Program.{
  Variable, alpha, LinExpr, constant, add, join, multiple, must_be_at_most, value, Call, Holds,
  IsFeasible,
}
use cpsc_of_testbed.Allocation.Splits.Totals.{worth, use_of, use_of-found}
use cpsc_of_testbed.Allocation.Splits.Entries.{value-alpha}
use cpsc_of_testbed.Allocation.Mcf.{Key, add_use, cap_link}

module _ (N : Number) (laws : IsOrdered N) (a : Variable → Number.Num N) (links : Dict Link ℕ)
    (flows : List (Flow N)) where
  open N use {Num, plus, times}

  -- The rate of the flow with this index.
  abbrev pub rate_of : ℕ → Num
  rate_of i = elim (get_elem? flows i) [ none ↦ zero_num N | some f ↦ f.flow_tx_rate ]

  -- The link of the key has the index `k`.
  abbrev pub is_on : ℕ → Key × Variable → Bool
  is_on k e = elim (lookup e.0.1 links) [ none ↦ false | some l ↦ eqb l k ]

  -- The sum of what is carried over the link with the index `k`, each time the rate of its flow.
  abbrev pub load_on : ℕ → List (Key × Variable) → Num → Num
  load_on k [] acc = acc
  load_on k (e ∷ F) acc =
      load_on k F (if is_on k e then plus acc (times (a e.1) (rate_of e.0.0)) else acc)

  module _ (k : ℕ) where
    inserted-use :
        (l : ℕ) (U : Dict ℕ (LinExpr N)) (load : LinExpr N) (rate : Num) (v : Variable)
        → lookup l U ≡ some load
        → use_of N links a k (insert l (add load rate v) U) ≡ (
            if eqb l k
            then plus (use_of N links a k U) (times (a v) rate)
            else use_of N links a k U)
    unfolding value
    inserted-use l U load rate v h =
        ap (worth N links a k) (lookup-insert l k (add load rate v) U)
        ∙ elim (Bool-cases (eqb l k)) [
          | inl same ↦
              let old : lookup k U ≡ some load =
                subst (λ q. lookup q U ≡ some load) ((eqb_iff l k).0 same) h in
              rw (same, old) refl
          | inr other ↦ rw other refl
        ]

    add_use-use :
        (U U' : Dict ℕ (LinExpr N)) (e : Key × Variable)
        → add_use N links flows U e ≡ ok U'
        → use_of N links a k U' ≡ (
            if is_on k e
            then plus (use_of N links a k U) (times (a e.1) (rate_of e.0.0))
            else use_of N links a k U)
    unfolding add_use
    add_use-use U U' e h =
        let (l, at, h1) = >>=-eq-ok (or_raise (lookup e.0.1 links) key_error) _ h in
        let (f, own, h2) = >>=-eq-ok (or_raise (get_elem? flows e.0.0) index_error) _ h1 in
        let (load, old, h3) = >>=-eq-ok (or_raise (lookup l U) key_error) _ h2 in
        let on : is_on k e ≡ eqb l k =
          ap (λ o. elim o [ none ↦ false | some l ↦ eqb l k ])
            (or_raise-eq-ok (lookup e.0.1 links) key_error at) in
        let rate : rate_of e.0.0 ≡ f.flow_tx_rate =
          ap (λ o. elim o [ none ↦ zero_num N | some f ↦ f.flow_tx_rate ])
            (or_raise-eq-ok (get_elem? flows e.0.0) index_error own) in
        let used : ℕ → Dict ℕ (LinExpr N) → Num = λ k U. use_of N links a k U in
        ap (used k) (sym (ok_injective h3))
        ∙ inserted-use l U load f.flow_tx_rate e.1 (or_raise-eq-ok (lookup l U) key_error old)
        ∙ (λ i. if sym on i then plus (used k U) (times (a e.1) (sym rate i)) else used k U)

    add_uses-use :
        (F : List (Key × Variable)) (U U' : Dict ℕ (LinExpr N))
        → fold_result (add_use N links flows) U F ≡ ok U'
        → use_of N links a k U' ≡ load_on k F (use_of N links a k U)
    unfolding fold_result
    add_uses-use [] U U' h =
        ap (λ (d : Dict ℕ (LinExpr N)). use_of N links a k d) (sym (ok_injective h))
    add_uses-use (e ∷ F) U U' h =
        let (V, first, rest) = >>=-eq-ok (add_use N links flows U e) _ h in
        add_uses-use F V U' rest ∙ ap (load_on k F) (add_use-use U V e first)

    -- At the start nothing is on a link.
    start-use :
        (ls : List ℕ) → use_of N links a k (map (λ l. (l, constant (zero_num N))) ls) ≡ zero_num N
    unfolding value
    start-use [] = refl
    start-use (l ∷ ls) = elim (Bool-cases (eqb l k)) [
      | inl e ↦ rw e refl
      | inr e ↦ rw e (start-use ls)
    ]

  -- Both directions of the link together are within its capacity, where `F` is carried.
  abbrev pub IsWithinBoth : List (Key × Variable) → Link → Type 0
  IsWithinBoth F l =
      (d : ℕ) × (e : ℕ) × (lookup (l.0, l.1) links ≡ some d)
      × (lookup (l.1, l.0) links ≡ some e)
      × Le N (plus (load_on d F (zero_num N)) (load_on e F (zero_num N))) (link_capacity N)

  module _ (F : List (Key × Variable)) (ls : List ℕ) (U : Dict ℕ (LinExpr N))
      (loaded : fold_result (add_use N links flows) (map (λ l. (l, constant (zero_num N))) ls) F
        ≡ ok U)
      (below : Le N (a alpha) (one_num N)) where
    load-found :
        (k : ℕ) (e : LinExpr N) → lookup k U ≡ some e → value N a e ≡ load_on k F (zero_num N)
    load-found k e h =
        sym (use_of-found N links a k U e h)
        ∙ add_uses-use k F (map (λ l. (l, constant (zero_num N))) ls) U loaded
        ∙ ap (load_on k F) (start-use k ls)

    cap_link-IsWithinBoth :
        (l : Link) (c : Call N) → cap_link N links U l ≡ ok c → Holds N a c → IsWithinBoth F l
    unfolding cap_link value
    cap_link-IsWithinBoth l c h holds =
        let (d, one, h1) = >>=-eq-ok (or_raise (lookup (l.0, l.1) links) key_error) _ h in
        let (e, other, h2) = >>=-eq-ok (or_raise (lookup (l.1, l.0) links) key_error) _ h1 in
        let (x, use_d, h3) = >>=-eq-ok (or_raise (lookup d U) key_error) _ h2 in
        let (y, use_e, h4) = >>=-eq-ok (or_raise (lookup e U) key_error) _ h3 in
        let cap : LinExpr N = multiple N (link_capacity N) alpha in
        let kept : Holds N a (must_be_at_most (join x y) cap) =
          subst (Holds N a) (sym (ok_injective h4)) holds in
        let load_d = load-found d x (or_raise-eq-ok (lookup d U) key_error use_d) in
        let load_e = load-found e y (or_raise-eq-ok (lookup e U) key_error use_e) in
        let both = plus (load_on d F (zero_num N)) (load_on e F (zero_num N)) in
        (
          d,
          e,
          or_raise-eq-ok (lookup (l.0, l.1) links) key_error one,
          or_raise-eq-ok (lookup (l.1, l.0) links) key_error other,
          laws.le_trans both (a alpha) (one_num N)
              (subst (Le N both) (value-alpha N laws a)
                (subst (λ z. Le N z (value N a cap)) (λ i. plus (load_d i) (load_e i)) kept))
              below,
        )

    pub cap_links-All :
        (edges : List Link) (calls : List (Call N))
        → map_result (cap_link N links U) edges ≡ ok calls
        → IsFeasible N a calls
        → All (IsWithinBoth F) edges
    unfolding map_result
    cap_links-All [] calls h feasible = tt
    cap_links-All (l ∷ edges) calls h feasible =
        let (c, first, h1) = >>=-eq-ok (cap_link N links U l) _ h in
        let (cs, rest, h2) = >>=-eq-ok (map_result (cap_link N links U) edges) _ h1 in
        let both : IsFeasible N a (c ∷ cs) =
          subst (IsFeasible N a) (sym (ok_injective h2)) feasible in
        (cap_link-IsWithinBoth l c first both.0, cap_links-All edges cs rest both.1)

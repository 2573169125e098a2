-- ===== src/Allocation/Mcf/Conserved.antt =====
-- What the equations of `create_mcf_model` say: each node passes on what it receives.
use cpsc_of_testbed.Base.{
  Bool, ℕ, suc, List, [], ◌∷◌, ◌≡◌, sym, ap, ◌∙◌, subst, some, ok, key_error, or_raise-eq-ok,
  ok_injective, >>=-eq-ok, fold_result, map_result, All, All-split, if◌then◌else◌, eqb, nat_eq,
  pair_eq, triple_eq, inl, inr, true, false,
}
use cpsc_of_testbed.Base.Dict.{lookup, lookup-cons}
use cpsc_of_testbed.Base.Numbers.{Number, zero_num, one_num, IsOrdered}
use cpsc_of_testbed.Allocation.Flow.{Flow}
use cpsc_of_testbed.Allocation.Program.{
  Variable, carried, LinExpr, constant, value, Call, must_equal, take_away, Holds, IsFeasible,
  plus_var,
}
use cpsc_of_testbed.Allocation.Mcf.{
  Digraph, Key, flow_vars, flow_var, add_neighbor, balance, balance_node, balance_flows,
}

-- The variable of a key is named after it.
pub lookup-flow_vars :
    (N : Number) (k : Key) (ks : List Key) (x : Variable)
    → lookup k (flow_vars N ks) ≡ some x
    → x ≡ carried k.0 k.1.0 k.1.1
lookup-flow_vars N k [] x h = cc
lookup-flow_vars N k (j ∷ ks) x h =
    elim (lookup-cons j k (carried j.0 j.1.0 j.1.1) x (flow_vars N ks) h) [
      | inl same ↦ sym same.1 ∙ ap (λ (i : Key). carried i.0 i.1.0 i.1.1) same.0
      | inr later ↦ lookup-flow_vars N k ks x later
    ]

module _ (N : Number) (laws : IsOrdered N) (a : Variable → Number.Num N) where
  open N use {Num, plus, minus, times}

  abbrev pub sum_over : (ℕ → Num) → List ℕ → Num → Num
  sum_over g [] acc = acc
  sum_over g (v ∷ vs) acc = sum_over g vs (plus acc (g v))

  -- What flow `i` carries from the node to its neighbours, and back.
  abbrev pub out_of : ℕ → ℕ × List ℕ → Num
  out_of i n = sum_over (λ v. a (carried i n.0 v)) n.1 (zero_num N)

  abbrev pub into : ℕ → ℕ × List ℕ → Num
  into i n = sum_over (λ v. a (carried i v n.0)) n.1 (zero_num N)

  -- The source sends 1 more than it receives, the destination receives 1 more than it sends, and each
  -- other node sends what it receives.
  abbrev pub Balances : Flow N → ℕ → Num → Num → Type 0
  Balances f u sent received =
      if eqb u f.source_node
      then minus sent received ≡ one_num N
      else if eqb u f.destination_node
      then minus received sent ≡ one_num N
      else minus received sent ≡ zero_num N

  abbrev pub IsConserved : ℕ → Flow N → ℕ × List ℕ → Type 0
  IsConserved i f n = Balances f n.0 (out_of i n) (into i n)

  abbrev pub AllConserved : Digraph → ℕ → List (Flow N) → Type 0
  AllConserved g i [] = Unit
  AllConserved g i (f ∷ fs) = All (IsConserved i f) g × AllConserved g (suc i) fs

  value-plus_var :
      (e : LinExpr N) (v : Variable) → value N a (plus_var N e v) ≡ plus (value N a e) (a v)
  unfolding value
  value-plus_var e v = ap (plus (value N a e)) (laws.times_one (a v))

  module _ (ks : List Key) (i u : ℕ) where
    neighbors-sum :
        (vs : List ℕ) (s s' : LinExpr N × LinExpr N)
        → fold_result (add_neighbor N (flow_vars N ks) i u) s vs ≡ ok s'
        → (value N a s'.0 ≡ sum_over (λ v. a (carried i u v)) vs (value N a s.0))
          × (value N a s'.1 ≡ sum_over (λ v. a (carried i v u)) vs (value N a s.1))
    unfolding fold_result add_neighbor
    neighbors-sum [] s s' h =
        let same = ok_injective h in
        (
          ap (λ (e : LinExpr N × LinExpr N). value N a e.0) (sym same),
          ap (λ (e : LinExpr N × LinExpr N). value N a e.1) (sym same),
        )
    neighbors-sum (v ∷ vs) s s' h =
        let (s1, first, rest) = >>=-eq-ok (add_neighbor N (flow_vars N ks) i u s v) _ h in
        let (x, found_x, h1) = >>=-eq-ok (flow_var N (flow_vars N ks) (i, (u, v))) _ first in
        let (y, found_y, h2) = >>=-eq-ok (flow_var N (flow_vars N ks) (i, (v, u))) _ h1 in
        let is_x =
          lookup-flow_vars N (i, (u, v)) ks x
            (or_raise-eq-ok (lookup (i, (u, v)) (flow_vars N ks)) key_error found_x) in
        let is_y =
          lookup-flow_vars N (i, (v, u)) ks y
            (or_raise-eq-ok (lookup (i, (v, u)) (flow_vars N ks)) key_error found_y) in
        let now : (plus_var N s.0 x, plus_var N s.1 y) ≡ s1 = ok_injective h2 in
        let (outs, ins) = neighbors-sum vs s1 s' rest in
        (
          outs
              ∙ ap (sum_over (λ v. a (carried i u v)) vs) (
                  ap (λ (e : LinExpr N × LinExpr N). value N a e.0) (sym now)
                  ∙ value-plus_var s.0 x
                  ∙ ap (λ w. plus (value N a s.0) (a w)) is_x),
          ins
              ∙ ap (sum_over (λ v. a (carried i v u)) vs) (
                  ap (λ (e : LinExpr N × LinExpr N). value N a e.1) (sym now)
                  ∙ value-plus_var s.1 y
                  ∙ ap (λ w. plus (value N a s.1) (a w)) is_y),
        )

  balance-Holds :
      (f : Flow N) (u : ℕ) (sent received : LinExpr N)
      → Holds N a (balance N f u sent received)
      → Balances f u (value N a sent) (value N a received)
  unfolding value
  balance-Holds f u sent received = go (eqb u f.source_node) (eqb u f.destination_node)
    where
      go :
          (b c : Bool)
          → Holds N a (
              if b
              then must_equal (take_away sent received) (constant (one_num N))
              else if c
              then must_equal (take_away received sent) (constant (one_num N))
              else must_equal (take_away received sent) (constant (zero_num N)))
          → (if b
              then minus (value N a sent) (value N a received) ≡ one_num N
              else if c
              then minus (value N a received) (value N a sent) ≡ one_num N
              else minus (value N a received) (value N a sent) ≡ zero_num N)
      go true c h = h
      go false true h = h
      go false false h = h

  balance-IsConserved :
      (ks : List Key) (i : ℕ) (f : Flow N) (n : ℕ × List ℕ) (c : Call N)
      → balance_node N (flow_vars N ks) i f n ≡ ok c
      → Holds N a c
      → IsConserved i f n
  unfolding value
  balance-IsConserved ks i f n c h holds =
      let start : LinExpr N × LinExpr N = (constant (zero_num N), constant (zero_num N)) in
      let (s, summed, h1) =
        >>=-eq-ok (fold_result (add_neighbor N (flow_vars N ks) i n.0) start n.1) _ h in
      let (outs, ins) = neighbors-sum ks i n.0 n.1 start s summed in
      let kept = balance-Holds f n.0 s.0 s.1 (subst (Holds N a) (sym (ok_injective h1)) holds) in
      subst (λ x. Balances f n.0 x (into i n)) outs
        (subst (λ y. Balances f n.0 (value N a s.0) y) ins kept)

  balance_nodes-All :
      (ks : List Key) (i : ℕ) (f : Flow N) (g : Digraph) (calls : List (Call N))
      → map_result (balance_node N (flow_vars N ks) i f) g ≡ ok calls
      → IsFeasible N a calls
      → All (IsConserved i f) g
  unfolding map_result
  balance_nodes-All ks i f [] calls h feasible = tt
  balance_nodes-All ks i f (n ∷ g) calls h feasible =
      let (c, first, h1) = >>=-eq-ok (balance_node N (flow_vars N ks) i f n) _ h in
      let (cs, rest, h2) = >>=-eq-ok (map_result (balance_node N (flow_vars N ks) i f) g) _ h1 in
      let both : IsFeasible N a (c ∷ cs) =
        subst (IsFeasible N a) (sym (ok_injective h2)) feasible in
      (balance-IsConserved ks i f n c first both.0, balance_nodes-All ks i f g cs rest both.1)

  -- The equations of all flows.
  pub balance_flows-AllConserved :
      (ks : List Key) (g : Digraph) (i : ℕ) (fs : List (Flow N)) (calls : List (Call N))
      → balance_flows N g (flow_vars N ks) i fs ≡ ok calls
      → IsFeasible N a calls
      → AllConserved g i fs
  unfolding balance_flows
  balance_flows-AllConserved ks g i [] calls h feasible = tt
  balance_flows-AllConserved ks g i (f ∷ fs) calls h feasible =
      let (cs, first, h1) = >>=-eq-ok (map_result (balance_node N (flow_vars N ks) i f) g) _ h in
      let (rest, later, h2) = >>=-eq-ok (balance_flows N g (flow_vars N ks) (suc i) fs) _ h1 in
      let (own, others) =
        All-split (Holds N a) cs rest (subst (IsFeasible N a) (sym (ok_injective h2)) feasible) in
      (
        balance_nodes-All ks i f g cs first own,
        balance_flows-AllConserved ks g (suc i) fs rest later others,
      )

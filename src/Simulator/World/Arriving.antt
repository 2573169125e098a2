-- ===== src/Simulator/World/Arriving.antt =====
-- The shares of all nodes move, and are received where they go.
use cpsc_of_testbed.Base.{
  Bool, ℕ, suc, ◌+◌, ◌≤◌, ◌≡◌, refl, sym, subst, List, [], ◌∷◌, ok, nat_eq, arith, All, In,
  fold_result,
}
use cpsc_of_testbed.Base.Dict.{Dict, values}
use cpsc_of_testbed.Base.Dict.Totals.{total}
use cpsc_of_testbed.Simulator.Share.{Share, share_eq, share_eqb}
use cpsc_of_testbed.Simulator.Node.{Node}
use cpsc_of_testbed.Simulator.Flow.{Flow}
use cpsc_of_testbed.Simulator.World.{
  World, Moved, move_share, move_node, inject_moved, move_packets,
}
use cpsc_of_testbed.Simulator.World.Flight.{flight, flight-cons, flight_none}
use cpsc_of_testbed.Simulator.World.Located.{
  IsLocated, IsNode, AreNodes, at_nodes, deliver_all-AreNodes, cleared, cleared-AreNodes,
  cleared_none,
}
use cpsc_of_testbed.Simulator.World.Following.{IsOver, same-AreFlows, IsReady}
use cpsc_of_testbed.Simulator.World.Moving.{
  aside, aside_none, IsAside, IsMoving, same-IsMoving, move_share-IsMoving,
}

module _ (vs js : List ℕ) (start : ℕ → Flow) (bound : ℕ)
    (over : (j : ℕ) → In j js → IsOver vs bound j (start j)) (time : ℕ) (seqs : ℕ → ℕ) where
  -- So do all the shares of a node.
  move_shares-IsMoving :
      (X : (Share → Bool) → ℕ) (u : ℕ) (ss : List Share) (m : Moved)
      → All (IsLocated vs js start time u) ss
      → IsMoving vs js start bound over time seqs (λ p. flight p ss + X p) m
      → (m' : Moved) × (fold_result (move_share u) m ss ≡ ok m')
        × IsMoving vs js start bound over time seqs X m'
  unfolding fold_result
  move_shares-IsMoving X u [] m here h = (
    m,
    refl,
    same-IsMoving vs js start bound over time seqs (λ p. flight p [] + X p) X m
        (λ p. omega (arith, flight_none p)) h,
  )
  move_shares-IsMoving X u (s ∷ ss) m here h =
      let later = λ (p : Share → Bool). flight p ss + X p in
      let (m1, e1, h1) = move_share-IsMoving vs js start bound over time seqs later u s m here.0 (
        same-IsMoving vs js start bound over time seqs (λ p. flight p (s ∷ ss) + X p)
          (λ p. flight p (s ∷ []) + later p) m (λ p. omega (arith, flight-cons p s ss)) h) in
      let (m2, e2, h2) = move_shares-IsMoving X u ss m1 here.1 h1 in (m2, (rw e1 e2), h2)

  -- And those of all nodes, one node after the other.
  move_nodes-IsMoving :
      (d : Dict ℕ Node) (m : Moved)
      → All (λ e. IsNode vs js start time e.0 e.1) d
      → IsMoving vs js start bound over time seqs (λ p. at_nodes p d) m
      → (m' : Moved) × (fold_result move_node m (values d) ≡ ok m')
        × IsMoving vs js start bound over time seqs (λ p. 0) m'
  unfolding fold_result total move_node
  move_nodes-IsMoving [] m here h = (m, refl, h)
  move_nodes-IsMoving ((u, n) ∷ d) m here h =
      let (m1, e1, h1) =
        move_shares-IsMoving (λ p. at_nodes p d) n.node_id n.resident_shares m
          (subst (λ v. All (IsLocated vs js start time v) n.resident_shares) (sym here.0.0)
            here.0.1)
          h in
      let (m2, e2, h2) = move_nodes-IsMoving d m1 here.1 h1 in (m2, (rw e1 e2), h2)

  -- What is put aside for a node is received by it.
  inject_all-AreNodes :
      (moved : Dict ℕ (List Share)) (d : Dict ℕ Node)
      → IsAside vs js start bound over time seqs moved
      → ((t : Share) → at_nodes (share_eqb t) d + aside (share_eqb t) moved ≤ 1)
      → AreNodes vs js start (suc time) d
      → (d' : Dict ℕ Node) × (fold_result inject_moved d moved ≡ ok d')
        × AreNodes vs js start (suc time) d'
        × ((p : Share → Bool) → at_nodes p d' ≡ at_nodes p d + aside p moved)
  unfolding fold_result inject_moved total
  inject_all-AreNodes [] d waiting once h = (d, refl, h, λ p. omega arith)
  inject_all-AreNodes ((u, ss) ∷ moved) d waiting once h =
      let (d1, e1, h1, c1) =
        deliver_all-AreNodes vs js start (suc time) u ss d waiting.0.0 waiting.0.1
          (λ t. omega (arith, once t)) h in
      let (d2, e2, h2, c2) =
        inject_all-AreNodes moved d1 waiting.1 (λ t. omega (arith, once t, c1 (share_eqb t))) h1 in
      (d2, (rw e1 e2), h2, λ p. omega (arith, c1 p, c2 p))

  -- The packets move without an exception, and each is one hop further.
  pub move_packets-IsReady :
      (w : World)
      → IsReady vs js start bound time seqs w
      → (w' : World) × (move_packets w ≡ ok w') × IsReady vs js start bound (suc time) seqs w'
  unfolding move_packets
  move_packets-IsReady w h =
      let (m, moving, at) =
        move_nodes-IsMoving w.nodes (w.flows, []) h.nodes.located
          (record {
            flows =
                same-AreFlows vs js start bound (λ p. at_nodes p w.nodes)
                  (λ p. at_nodes p w.nodes + aside p []) seqs seqs w.flows
                  (λ p. omega (arith, aside_none p)) (λ j k. refl) h.flows;
            waiting = tt;
            once = λ t. omega (arith, aside_none (share_eqb t), h.once t);
          }) in
      let (nodes, injected, are, count) =
        inject_all-AreNodes m.1 (cleared w.nodes) at.waiting
          (λ t. omega (arith, at.once t, cleared_none (share_eqb t) w.nodes))
          (cleared-AreNodes vs js start time (suc time) w.nodes h.nodes) in
      (
        record w { nodes = nodes; flows = m.0 },
        (rw moving (rw injected refl)),
        record {
          nodes = are;
          flows =
              same-AreFlows vs js start bound (λ p. 0 + aside p m.1) (λ p. at_nodes p nodes) seqs
                seqs m.0 (λ p. omega (arith, count p, cleared_none p w.nodes)) (λ j k. refl)
                at.flows;
          once = λ t.
              omega (arith, at.once t, count (share_eqb t), cleared_none (share_eqb t) w.nodes);
          quiet = h.quiet;
        },
      )

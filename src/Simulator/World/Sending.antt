-- ===== src/Simulator/World/Sending.antt =====
-- A flow that sends a message, and a flow that hops.
use cpsc_of_testbed.Base.{
  true, eq_self, ℕ, suc, ◌+◌, ◌≤◌, ◌<◌, ◌≡◌, refl, sym, ap, subst, ◌∙◌, List, [], ◌∷◌, ok, nat_eq,
  eqb, arith, All, In, All-In, get_elem?-lt, get_elem?-In, Bool-cases, inl, inr, length, false,
}
use cpsc_of_testbed.Base.Dict.{Dict, insert}
use cpsc_of_testbed.Simulator.Share.{Share, share_eqb, share_eqb_iff, create_shares_for}
use cpsc_of_testbed.Simulator.Flow.{Flow, create_shares}
use cpsc_of_testbed.Simulator.Flow.Following.{
  fresh_none, create_shares-IsFollowing, hop-IsFollowing,
}
use cpsc_of_testbed.Simulator.Node.{Node}
use cpsc_of_testbed.Simulator.Random.{Random, IsRandom}
use cpsc_of_testbed.Simulator.World.{World, inject_flow, hop_flow}
use cpsc_of_testbed.Simulator.World.Flight.{
  flight, is_of, created, flight-created, created_other, created-le-one,
}
use cpsc_of_testbed.Simulator.World.Located.{IsLocated, at_nodes, at_nodes-le, deliver_all-AreNodes}
use cpsc_of_testbed.Simulator.World.Following.{IsPathFrom, IsOver, IsReady, insert-AreFlows}

-- The shares of a flow's next message.
shares_of :
    (f : Flow) (id source : ℕ)
    → f.flow_id ≡ id
    → f.source_node ≡ source
    → (create_shares f).0 ≡ created id source f.sink_node f.seq_num 0 f.active_paths
unfolding create_shares create_shares_for
shares_of f id source e1 e2 i = created (e1 i) (e2 i) f.sink_node f.seq_num 0 f.active_paths

created_seq : (f : Flow) → (create_shares f).1.seq_num ≡ suc f.seq_num
unfolding create_shares
created_seq f = refl

-- The shares of a new message are at no node, and differ from each other.
created-once :
    (d : Dict ℕ Node) (t : Share) (j source sink seq : ℕ) (paths : List ℕ)
    → at_nodes (share_eqb t) d ≤ 1
    → at_nodes (is_of j seq) d ≡ 0
    → at_nodes (share_eqb t) d + flight (share_eqb t) (created j source sink seq 0 paths) ≤ 1
created-once d t j source sink seq paths once new = elim (Bool-cases (is_of j seq t)) [
  | inl e ↦
      let fewer =
        at_nodes-le (share_eqb t) (is_of j seq) d
          (λ s same. subst (λ x. is_of j seq x ≡ true) ((share_eqb_iff t s).0 same) e) in
      omega (arith, created-le-one t j source sink seq paths)
  | inr e ↦ omega (arith, created_other t j source sink seq 0 paths e)
]

module _ (vs js : List ℕ) (start : ℕ → Flow) (bound : ℕ) where
  created-IsLocated :
      (j seq sink i : ℕ) (paths : List ℕ)
      → In j js
      → IsOver vs bound j (start j)
      → All (λ x. x < length (start j).paths) paths
      → All
          (IsLocated vs js start seq (start j).source_node)
          (created j (start j).source_node sink seq i paths)
  created-IsLocated j seq sink i [] known over active = tt
  created-IsLocated j seq sink i (x ∷ xs) known over active =
      let (p, at) = get_elem?-lt (start j).paths x active.0 in
      let route =
        All-In (IsPathFrom vs bound (start j).source_node) (start j).paths over.routes p
          (get_elem?-In (start j).paths x p at) in
      (
        (known, p, 0, at, route.0, omega arith),
        created-IsLocated j seq sink (suc i) xs known over active.1,
      )

  module _ (over : (j : ℕ) → In j js → IsOver vs bound j (start j)) where
    -- A flow sends a message: its shares are received at its source.
    pub inject_flow-IsReady :
        (time : ℕ) (seqs seqs' : ℕ → ℕ) (w : World) (j : ℕ)
        → In j js
        → seqs j ≡ time
        → seqs' j ≡ suc time
        → ((i : ℕ) → eqb j i ≡ false → seqs' i ≡ seqs i)
        → IsReady vs js start bound time seqs w
        → (w' : World) × (inject_flow w j ≡ ok w') × IsReady vs js start bound time seqs' w'
    unfolding inject_flow
    inject_flow-IsReady time seqs seqs' w j known now next others h =
        let (f, found, follows, number) = h.flows.following j known in
        let b : Flow = start j in
        let made = shares_of f j b.source_node (follows.id ∙ (over j known).named) follows.source in
        let u : ℕ = f.source_node in
        let shares : List Share = (create_shares f).0 in
        let located : All (IsLocated vs js start time u) shares =
          subst (λ v. All (IsLocated vs js start time v) shares) (sym follows.source)
            (subst (All (IsLocated vs js start time b.source_node)) (sym made) (
              subst
                (λ t.
                  All (IsLocated vs js start t b.source_node)
                    (created j b.source_node f.sink_node f.seq_num 0 f.active_paths))
                (number ∙ now)
                (created-IsLocated j f.seq_num f.sink_node 0 f.active_paths known (over j known)
                  follows.active))) in
        let once : (t : Share) → at_nodes (share_eqb t) w.nodes + flight (share_eqb t) shares ≤ 1 =
          λ t.
            subst (λ ss. at_nodes (share_eqb t) w.nodes + flight (share_eqb t) ss ≤ 1) (sym made)
              (created-once w.nodes t j b.source_node f.sink_node f.seq_num f.active_paths
                (h.once t)
                (fresh_none b (λ q. at_nodes (is_of j q) w.nodes) f f.seq_num follows
                  (omega arith))) in
        let count_of = λ (i q : ℕ).
          ap (flight (is_of i q)) made
          ∙ flight-created i q j b.source_node f.sink_node f.seq_num 0 f.active_paths in
        let (nodes, delivered, are, count) =
          deliver_all-AreNodes vs js start time u shares w.nodes
            (subst (λ v. In v vs) (sym follows.source) (over j known).known) located once h.nodes in
        (
          record w { nodes = nodes; flows = insert j (create_shares f).1 w.flows },
          (rw found (rw delivered refl)),
          record {
            nodes = are;
            flows =
                insert-AreFlows vs js start bound (λ p. at_nodes p w.nodes) (λ p. at_nodes p nodes)
                  seqs seqs' j (create_shares f).1 w.flows known
                  (create_shares-IsFollowing b (λ q. at_nodes (is_of j q) w.nodes)
                    (λ q. at_nodes (is_of j q) nodes) f follows
                    (λ q.
                      count (is_of j q)
                      ∙ ap (λ n. at_nodes (is_of j q) w.nodes + n)
                          (count_of j q ∙ (rw (eq_self j) refl))))
                  (created_seq f ∙ ap suc (number ∙ now) ∙ sym next)
                  (λ i e. (
                    others i e,
                    λ q.
                        let none_more : flight (is_of i q) shares ≡ 0 =
                          count_of i q ∙ (rw e refl) in
                        omega (arith, count (is_of i q)),
                  ))
                  h.flows;
            once = λ t. omega (arith, once t, count (share_eqb t));
            quiet = h.quiet;
          },
        )

  module _ (r : Random) (random : IsRandom r) where
    -- A flow hops.
    pub hop_flow-IsReady :
        (over : (j : ℕ) → In j js → IsOver vs bound j (start j)) (time : ℕ) (seqs : ℕ → ℕ)
        (w : World) (j : ℕ)
        → In j js
        → IsReady vs js start bound time seqs w
        → (w' : World) × (hop_flow r w j ≡ ok w') × IsReady vs js start bound time seqs w'
    unfolding hop_flow
    hop_flow-IsReady over time seqs w j known h =
        let (f, found, follows, number) = h.flows.following j known in
        let (f', next, hopped, same, after) =
          hop-IsFollowing r w.draws (start j) (λ q. at_nodes (is_of j q) w.nodes) f random follows
            (over j known).enough in
        (
          record w { flows = insert j f' w.flows; draws = next },
          (rw found (rw hopped refl)),
          record {
            nodes = h.nodes;
            flows =
                insert-AreFlows vs js start bound (λ p. at_nodes p w.nodes)
                  (λ p. at_nodes p w.nodes) seqs seqs j f' w.flows known after (same ∙ number)
                  (λ i e. (refl, λ q. refl)) h.flows;
            once = h.once;
            quiet = h.quiet;
          },
        )

-- ===== src/Simulator/World/Following.antt =====
-- The flows of a simulation, all of which follow their shares; and a flow that sends or hops.
use cpsc_of_testbed.Base.{
  Bool, Nodup, ℕ, ◌≤◌, ◌≡◌, sym, subst, ◌∙◌, List, [], some, nat_eq, eqb, arith, All, In, get_elem?,
  Bool-cases, inl, inr, length, false,
}
use cpsc_of_testbed.Base.Dict.{Dict, lookup, insert, keys, lookup-insert_self, lookup-insert_ne}
use cpsc_of_testbed.Base.Dict.Totals.{keys-insert_old}
use cpsc_of_testbed.Simulator.Share.{Share, share_eqb}
use cpsc_of_testbed.Simulator.Flow.{Flow}
use cpsc_of_testbed.Simulator.Flow.Following.{IsFollowing, same-IsFollowing}
use cpsc_of_testbed.Simulator.World.{World}
use cpsc_of_testbed.Simulator.World.Flight.{is_of}
use cpsc_of_testbed.Simulator.World.Located.{AreNodes, at_nodes}

-- A path over the nodes `vs`, of at most `bound` of them and none twice, from this one.
abbrev pub IsPathFrom : List ℕ → ℕ → ℕ → List ℕ → Type 0
IsPathFrom vs bound source p =
    (get_elem? p 0 ≡ some source) × Nodup p × (length p ≤ bound) × All (λ u. In u vs) p

-- A flow over the nodes `vs`: its paths start at its source, and it can choose K of them.
pub record IsOver (vs : List ℕ) (bound j : ℕ) (b : Flow) : Type 0 where
  pub named : b.flow_id ≡ j
  pub known : In b.source_node vs
  pub enough : b.k ≤ length b.paths
  pub routes : All (IsPathFrom vs bound b.source_node) b.paths

module _ (vs js : List ℕ) (start : ℕ → Flow) (bound : ℕ) where
  -- Of each kind, `X p` shares are on their way, and the flows have these sequence numbers.
  pub record AreFlows (X : (Share → Bool) → ℕ) (seqs : ℕ → ℕ) (d : Dict ℕ Flow) : Type 0 where
    pub keyed : keys d ≡ js
    pub following :
        (j : ℕ)
        → In j js
        → (f : Flow) × (lookup j d ≡ some f)
          × IsFollowing (start j) (λ q. X (is_of j q)) f
          × (f.seq_num ≡ seqs j)

  pub same-AreFlows :
      (X X' : (Share → Bool) → ℕ) (seqs seqs' : ℕ → ℕ) (d : Dict ℕ Flow)
      → ((p : Share → Bool) → X' p ≡ X p)
      → ((j : ℕ) → In j js → seqs' j ≡ seqs j)
      → AreFlows X seqs d
      → AreFlows X' seqs' d
  same-AreFlows X X' seqs seqs' d same numbers h = record {
    keyed = h.keyed;
    following = λ j m.
        let (f, at, follows, seq) = h.following j m in
        (
          f,
          at,
          same-IsFollowing (start j) (λ q. X (is_of j q)) (λ q. X' (is_of j q)) f follows
              (λ q. same (is_of j q)),
          seq ∙ sym (numbers j m),
        );
  }

  -- One flow has changed, and those on their way are the same of the others.
  pub insert-AreFlows :
      (X X' : (Share → Bool) → ℕ) (seqs seqs' : ℕ → ℕ) (j : ℕ) (f' : Flow) (d : Dict ℕ Flow)
      → In j js
      → IsFollowing (start j) (λ q. X' (is_of j q)) f'
      → f'.seq_num ≡ seqs' j
      → ((i : ℕ)
          → eqb j i ≡ false
          → (seqs' i ≡ seqs i) × ((q : ℕ) → X' (is_of i q) ≡ X (is_of i q)))
      → AreFlows X seqs d
      → AreFlows X' seqs' (insert j f' d)
  insert-AreFlows X X' seqs seqs' j f' d known follows seq same h =
      let (f, found, old, number) = h.following j known in
      record {
        keyed = keys-insert_old j f' f d found ∙ h.keyed;
        following = λ i m. elim (Bool-cases (eqb j i)) [
          | inl e ↦
              let here : j ≡ i = ground arith in
              subst
                (λ i.
                  (g : Flow) × (lookup i (insert j f' d) ≡ some g)
                  × IsFollowing (start i) (λ q. X' (is_of i q)) g
                  × (g.seq_num ≡ seqs' i))
                here (f', lookup-insert_self j f' d, follows, seq)
          | inr e ↦
              let (g, at, other, number) = h.following i m in
              (
                g,
                lookup-insert_ne j i f' d e ∙ at,
                same-IsFollowing (start i) (λ q. X (is_of i q)) (λ q. X' (is_of i q)) g other
                    (same i e).1,
                number ∙ sym (same i e).0,
              )
        ];
      }

  -- The state between the parts of a step: the shares that are on their way are at the nodes, each
  -- at one of them only.
  pub record IsReady (time : ℕ) (seqs : ℕ → ℕ) (w : World) : Type 0 where
    pub nodes : AreNodes vs js start time w.nodes
    pub flows : AreFlows (λ p. at_nodes p w.nodes) seqs w.flows
    pub once : (t : Share) → at_nodes (share_eqb t) w.nodes ≤ 1
    pub quiet : w.attackers ≡ []

-- ===== src/Simulator/World/Updates.antt =====
-- What each part of a step does to the flows: every change is an insertion of a flow that has
-- received a share, or has hopped, or has sent a message.
use mathlib.Core.Path.{subst}
use cpsc_of_testbed.Base.{
  sym, ◌∙◌, ℕ, suc, ◌≡◌, refl, List, [], some, nat_eq, ok, key_error, arith, ◌>>=◌, or_raise,
  fold_result, fold_result_inv, >>=-eq-ok, or_raise-eq-ok, Option-cases, inl, inr, ◌⊎◌,
}
use cpsc_of_testbed.Base.Dict.{Dict, lookup, insert, keys, values}
use cpsc_of_testbed.Simulator.Share.{Share}
use cpsc_of_testbed.Simulator.Node.{Node}
use cpsc_of_testbed.Simulator.Flow
use cpsc_of_testbed.Simulator.Flow.{Flow, create_shares, get_next_hop_for_share}
use cpsc_of_testbed.Simulator.Random.{Random}
use cpsc_of_testbed.Simulator.World.{
  World, Moved, inject_flow, move_share, move_node, move_packets, hop_flow, step, deliver,
  inject_moved, attack,
}

-- The flow that has this key was changed to another.
abbrev pub Updates : (Flow → Flow → Type 0) → Dict ℕ Flow → Dict ℕ Flow → Type 0
Updates R d d' =
    (k : ℕ) × (f : Flow) × (f' : Flow) × (lookup k d ≡ some f) × R f f' × (d' ≡ insert k f' d)

-- A flow is changed by a message sent, by a share received, or by a hop.
abbrev pub Sends : Flow → Flow → Type 0
Sends f f' = f' ≡ (create_shares f).1

abbrev pub Receives : Flow → Flow → Type 0
Receives f f' = (s : Share) × (Flow.receive_share f s ≡ ok f')

abbrev pub Hops : Random → Flow → Flow → Type 0
Hops r f f' = (draw : ℕ) × (next : ℕ) × (Flow.hop r draw f ≡ ok (f', next))

pub inject_flow-eq-ok :
    (w : World) (k : ℕ) (w' : World)
    → inject_flow w k ≡ ok w'
    → (f : Flow) × (lookup k w.flows ≡ some f)
      × (w'.flows ≡ insert k (create_shares f).1 w.flows)
      × (w'.ticks ≡ w.ticks)
unfolding inject_flow
inject_flow-eq-ok w k w' e =
    let (f, found, e1) = >>=-eq-ok (or_raise (lookup k w.flows) key_error) _ e in
    let (nodes, delivered, e2) =
      >>=-eq-ok (fold_result (deliver f.source_node) w.nodes (create_shares f).0) _ e1 in
    (f, or_raise-eq-ok (lookup k w.flows) key_error found, ground arith, ground arith)

pub move_share-eq-ok :
    (node_id : ℕ) (m : Moved) (s : Share) (m' : Moved)
    → move_share node_id m s ≡ ok m'
    → (m'.0 ≡ m.0) ⊎ Updates Receives m.0 m'.0
unfolding move_share
move_share-eq-ok node_id (flows, moved) s m' e =
    let (f, found, e1) = >>=-eq-ok (or_raise (lookup s.flow_id flows) key_error) _ e in
    let (hop, at, e2) = >>=-eq-ok (get_next_hop_for_share f s node_id) _ e1 in
    elim (Option-cases hop) [
      | inl arrived ↦
          let e3 : (Flow.receive_share f s >>= λ flow'. ok (insert s.flow_id flow' flows, moved))
              ≡ ok m' =
            rw arrived at e2 in
          let (f', received, e4) = >>=-eq-ok (Flow.receive_share f s) _ e3 in
          inr (
            s.flow_id,
            f,
            f',
            or_raise-eq-ok (lookup s.flow_id flows) key_error found,
            (s, received),
            ground arith,
          )
      | inr (next, onward) ↦ inl (ground arith)
    ]

pub hop_flow-eq-ok :
    (r : Random) (w : World) (k : ℕ) (w' : World)
    → hop_flow r w k ≡ ok w'
    → Updates (Hops r) w.flows w'.flows × (w'.ticks ≡ w.ticks)
unfolding hop_flow
hop_flow-eq-ok r w k w' e =
    let (f, found, e1) = >>=-eq-ok (or_raise (lookup k w.flows) key_error) _ e in
    let (hopped, hop, e2) = >>=-eq-ok (Flow.hop r w.draws f) _ e1 in
    (
      (
        k,
        f,
        hopped.0,
        or_raise-eq-ok (lookup k w.flows) key_error found,
        (w.draws, hopped.1, hop),
        ground arith,
      ),
      ground arith,
    )

-- A property of the flows that no update of a kind destroys.
abbrev pub IsKept : (Flow → Flow → Type 0) → (Dict ℕ Flow → Type 0) → Type 0
IsKept R Q = (d d' : Dict ℕ Flow) → Updates R d d' → Q d → Q d'

module _ (Q : Dict ℕ Flow → Type 0) where
  move_share-keeps :
      IsKept Receives Q
      → (node_id : ℕ) (m : Moved) (s : Share) (m' : Moved) → Q m.0
      → move_share node_id m s ≡ ok m'
      → Q m'.0
  move_share-keeps keep node_id m s m' h e = elim (move_share-eq-ok node_id m s m' e) [
    | inl same ↦ subst Q (sym same) h
    | inr updated ↦ keep m.0 m'.0 updated h
  ]

  move_node-keeps :
      IsKept Receives Q
      → (m : Moved) (n : Node) (m' : Moved) → Q m.0
      → move_node m n ≡ ok m'
      → Q m'.0
  unfolding move_node
  move_node-keeps keep m n m' h e =
      fold_result_inv (λ (m : Moved). Q m.0) (move_share n.node_id)
        (move_share-keeps keep n.node_id) m n.resident_shares m' h e

  pub move_packets-keeps :
      (w w' : World)
      → IsKept Receives Q
      → Q w.flows
      → move_packets w ≡ ok w'
      → Q w'.flows × (w'.ticks ≡ w.ticks)
  unfolding move_packets
  move_packets-keeps w w' keep h e =
      let (m, moving, e1) = >>=-eq-ok (fold_result move_node (w.flows, []) (values w.nodes)) _ e in
      let (nodes, injected, e2) = >>=-eq-ok (fold_result inject_moved _ m.1) _ e1 in
      let same : m.0 ≡ w'.flows = ground arith in
      (
        subst Q same (
            fold_result_inv (λ (m : Moved). Q m.0) move_node (move_node-keeps keep) (w.flows, [])
              (values w.nodes) m h moving),
        ground arith,
      )

  pub hop_flows-keep :
      (r : Random) (w : World) (ks : List ℕ) (w' : World)
      → IsKept (Hops r) Q
      → Q w.flows
      → fold_result (hop_flow r) w ks ≡ ok w'
      → Q w'.flows × (w'.ticks ≡ w.ticks)
  hop_flows-keep r w ks w' keep h e =
      fold_result_inv (λ (u : World). Q u.flows × (u.ticks ≡ w.ticks)) (hop_flow r)
        (λ u k u' kept e'.
          let (updated, ticks) = hop_flow-eq-ok r u k u' e' in
          (keep u.flows u'.flows updated kept.0, ticks ∙ kept.1))
        w ks w' (h, refl) e

  -- If the messages sent lead from Q to Q', and shares received and hops keep Q', then a step leads
  -- from Q to Q'.
  pub step-keeps :
      (r : Random) (w w' : World)
      → ((u : World)
          → fold_result inject_flow w (keys w.flows) ≡ ok u
          → Q u.flows × (u.ticks ≡ w.ticks))
      → IsKept Receives Q
      → IsKept (Hops r) Q
      → step r w ≡ ok w'
      → Q w'.flows × (w'.ticks ≡ suc w.ticks)
  unfolding step
  step-keeps r w w' sent received hopped e =
      let (u1, e1, t1) = >>=-eq-ok (fold_result inject_flow w (keys w.flows)) _ e in
      let (u2, e2, t2) = >>=-eq-ok (move_packets u1) _ t1 in
      let (u3, e3, t3) = >>=-eq-ok (fold_result (hop_flow r) u2 (keys u2.flows)) _ t2 in
      let (attacked, e4, t4) = >>=-eq-ok (attack r u3 u3.attackers) _ t3 in
      let q1 = sent u1 e1 in
      let q2 = move_packets-keeps u1 u2 received q1.0 e2 in
      let q3 = hop_flows-keep r u2 (keys u2.flows) u3 hopped q2.0 e3 in
      let same : u3.flows ≡ w'.flows = ground arith in
      (subst Q same q3.0, ground (arith, q1.1, q2.1, q3.1))

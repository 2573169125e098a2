-- ===== src/Simulator/World/Created.antt =====
-- A new simulation: its nodes are empty, and its flows can run.
use cpsc_of_testbed.Base.{
  Bool, Nodup, ◌⊎◌, false, ℕ, ◌<◌, ◌≤◌, ◌≡◌, refl, sym, ap, subst, List, [], ◌∷◌, none, some,
  nat_eq, eqb, arith, All, In, Bool-cases, inl, inr, length,
}
use cpsc_of_testbed.Base.Dict.{
  Dict, IsUnique, insert-IsUnique, lookup, insert, keys, lookup-insert_self, lookup-insert-some,
}
use cpsc_of_testbed.Base.Dict.Totals.{
  IsUnique-keys, total, total-insert, Entries-insert, Entries-lookup,
}
use cpsc_of_testbed.Simulator.Share.{Share, share_eqb}
use cpsc_of_testbed.Simulator.Node
use cpsc_of_testbed.Simulator.Node.{Node}
use cpsc_of_testbed.Simulator.Flow
use cpsc_of_testbed.Simulator.Flow.{Flow}
use cpsc_of_testbed.Simulator.Flow.Following.{IsFollowing, waiting-bounds}
use cpsc_of_testbed.Simulator.Flow.Accounting.{IsBalanced}
use cpsc_of_testbed.Simulator.World.{index_nodes, index_flows, create}
use cpsc_of_testbed.Simulator.World.Flight.{flight, flight_none, is_of}
use cpsc_of_testbed.Simulator.World.Located.{IsNode, AreNodes, at_nodes}
use cpsc_of_testbed.Simulator.World.Following.{IsOver, IsPathFrom, IsReady}

-- A new flow that can run over the nodes `vs`: its paths start at its source, repeat no node and have
-- at most `bound` of them, it has K of them at least, and has chosen K.
pub record CanRun (vs : List ℕ) (bound : ℕ) (f : Flow) : Type 0 where
  pub known : In f.source_node vs
  pub enough : f.k ≤ length f.paths
  pub routes : All (IsPathFrom vs bound f.source_node) f.paths
  pub active : All (λ i. i < length f.paths) f.active_paths
  pub full : length f.active_paths ≡ f.k
  pub balanced : IsBalanced f
  pub fresh : f.seq_num ≡ 0

nobody : Flow
unfolding Flow.make
nobody = Flow.make 0 0 0 [] 0 0 0

abbrev flow_at : Dict ℕ Flow → ℕ → Flow
flow_at d j = elim (lookup j d) [ none ↦ nobody | some f ↦ f ]

abbrev IsIndexed : List ℕ → ℕ → ℕ → Flow → Type 0
IsIndexed vs bound j f = (f.flow_id ≡ j) × CanRun vs bound f

index_flows-All :
    (vs : List ℕ) (bound : ℕ) (fs : List Flow) (d : Dict ℕ Flow)
    → All (CanRun vs bound) fs
    → All (λ e. IsIndexed vs bound e.0 e.1) d
    → All (λ e. IsIndexed vs bound e.0 e.1) (index_flows fs d)
index_flows-All vs bound [] d can h = h
index_flows-All vs bound (f ∷ fs) d can h =
    index_flows-All vs bound fs (insert f.flow_id f d) can.1
      (Entries-insert (IsIndexed vs bound) f.flow_id f d (refl, can.0) h)

index_flows-IsUnique : (fs : List Flow) (d : Dict ℕ Flow) → IsUnique d → IsUnique (index_flows fs d)
index_flows-IsUnique [] d h = h
index_flows-IsUnique (f ∷ fs) d h =
    index_flows-IsUnique fs (insert f.flow_id f d) (insert-IsUnique f.flow_id f d h)

In-keys : (j : ℕ) (d : Dict ℕ Flow) → In j (keys d) → (f : Flow) × (lookup j d ≡ some f)
In-keys j [] m = absurd m
In-keys j ((i, f) ∷ d) m = elim (Bool-cases (eqb i j)) [
  | inl e ↦ (f, (rw e refl))
  | inr e ↦ let (g, found) = In-keys j d (later e m) in (g, (rw e found))
]
  where
    later : eqb i j ≡ false → In j (keys ((i, f) ∷ d)) → In j (keys d)
    later e (inl same) = absurd (ground arith)
    later e (inr m) = m

flow_at_found : (j : ℕ) (f : Flow) (d : Dict ℕ Flow) → lookup j d ≡ some f → flow_at d j ≡ f
flow_at_found j f d found = ap (λ o. elim o [ none ↦ nobody | some g ↦ g ]) found

flight_new : (p : Share → Bool) (u : ℕ) → flight p (Node.make u).resident_shares ≡ 0
flight_new p u = flight_none p

index_nodes-AreNodes :
    (vs js us : List ℕ) (start : ℕ → Flow) (time : ℕ) (d : Dict ℕ Node)
    → All (λ e. IsNode vs js start time e.0 e.1) d
    → ((u : ℕ) → In u vs → In u us ⊎ ((n : Node) × (lookup u d ≡ some n)))
    → AreNodes vs js start time (index_nodes us d)
      × ((p : Share → Bool) → at_nodes p (index_nodes us d) ≤ at_nodes p d)
index_nodes-AreNodes vs js [] start time d h known = (
  record {
    located = h;
    there = λ u m. elim (known u m) [ inl none_left ↦ absurd none_left | inr found ↦ found ];
  },
  λ p. omega arith,
)
index_nodes-AreNodes vs js (u ∷ us) start time d h known =
    let node : Node = Node.make u in
    let (are, count) =
      index_nodes-AreNodes vs js us start time (insert u node d)
        (Entries-insert (IsNode vs js start time) u node d (refl, tt) h)
        (λ v m. elim (known v m) [
          | inl (inl same) ↦ inr (
            node,
            subst (λ i. lookup i (insert u node d) ≡ some node) (sym same)
                (lookup-insert_self u node d),
          )
          | inl (inr later) ↦ inl later
          | inr found ↦ inr (lookup-insert-some v u node d found)
        ]) in
    (
      are,
      λ p.
          let sum = total-insert (λ (n : Node). flight p n.resident_shares) u node d in
          omega (arith, sum, count p, flight_new p u),
    )

at_none : (p : Share → Bool) (d : Dict ℕ Node) → at_nodes p d ≤ at_nodes p [] → at_nodes p d ≡ 0
unfolding total
at_none p d h = omega arith

new-IsFollowing :
    (vs : List ℕ) (bound : ℕ) (f : Flow) (χ : ℕ → ℕ)
    → CanRun vs bound f
    → ((q : ℕ) → χ q ≡ 0)
    → IsFollowing f χ f
new-IsFollowing vs bound f χ can nothing = record {
  id = refl;
  source = refl;
  paths = refl;
  k = refl;
  active = can.active;
  full = can.full;
  balanced = can.balanced;
  missing = λ q c at.
      let (given, few) = waiting-bounds f q c can.balanced at in absurd (omega (arith, can.fresh));
  expected = λ q left. absurd (omega (arith, nothing q));
}

-- A new simulation is ready, whatever the flows are called.
pub create-IsReady :
    (vs : List ℕ) (bound : ℕ) (fs : List Flow) (draws : ℕ)
    → All (CanRun vs bound) fs
    → (start : ℕ → Flow) × ((j : ℕ) → In j (keys (index_flows fs [])) → IsOver vs bound j (start j))
      × IsReady vs (keys (index_flows fs [])) start bound 0 (λ j. 0) (create vs fs draws)
unfolding create
create-IsReady vs bound fs draws can =
    let d : Dict ℕ Flow = index_flows fs [] in
    let is = λ (j : ℕ) (f : Flow) (found : lookup j d ≡ some f).
      Entries-lookup (IsIndexed vs bound) j f d (index_flows-All vs bound fs [] can tt) found in
    let (are, count) = index_nodes-AreNodes vs (keys d) vs (flow_at d) 0 [] tt (λ u m. inl m) in
    let nothing = λ (p : Share → Bool). at_none p (index_nodes vs []) (count p) in
    (
      flow_at d,
      λ j m.
          let (f, found) = In-keys j d m in
          let (named, runs) = is j f found in
          subst (IsOver vs bound j) (sym (flow_at_found j f d found)) (record {
            named = named;
            known = runs.known;
            enough = runs.enough;
            routes = runs.routes;
          }),
      record {
        nodes = are;
        flows = record {
          keyed = refl;
          following = λ j m.
              let (f, found) = In-keys j d m in
              let (named, runs) = is j f found in
              (
                f,
                found,
                subst (λ b. IsFollowing b (λ q. at_nodes (is_of j q) (index_nodes vs [])) f)
                    (sym (flow_at_found j f d found))
                    (new-IsFollowing vs bound f (λ q. at_nodes (is_of j q) (index_nodes vs [])) runs
                      (λ q. nothing (is_of j q))),
                runs.fresh,
              );
        };
        once = λ t. omega (arith, nothing (share_eqb t));
        quiet = refl;
      },
    )

-- No two flows of a simulation have one identifier.
pub index_flows-Nodup : (fs : List Flow) → Nodup (keys (index_flows fs []))
index_flows-Nodup fs = IsUnique-keys (index_flows fs []) (index_flows-IsUnique fs [] tt)

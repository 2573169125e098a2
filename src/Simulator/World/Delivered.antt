-- ===== src/Simulator/World/Delivered.antt =====
-- What a simulation that runs on has delivered, and where its shares are.
use cpsc_of_testbed.Base.{
  In-map, get_elem?-lt, ℕ, zero, suc, ◌+◌, ◌-◌, ◌<◌, ◌≤◌, ◌≡◌, sym, ap, subst, ◌∙◌, List, [], ◌∷◌,
  some, ok, nat_eq, arith, All, All-imply, In, get_elem?, get_elem?-In, Bool-cases, inl, inr,
  length, length-map, All_of, All-In, All-map, Nodup, true, ltb, Bool,
}
use cpsc_of_testbed.Base.Lists.Distinct.{length-between}
use cpsc_of_testbed.Base.Dict.{Dict, lookup, keys, In-lookup, AllValues}
use cpsc_of_testbed.Base.Dict.Totals.{total, IsUnique-keys, keys-IsUnique}
use cpsc_of_testbed.Simulator.Share.{Share}
use cpsc_of_testbed.Simulator.Node.{Node}
use cpsc_of_testbed.Simulator.Flow.{Flow}
use cpsc_of_testbed.Simulator.Flow.Following.{IsFollowing, waiting-bounds}
use cpsc_of_testbed.Simulator.Random.{Random, IsRandom}
use cpsc_of_testbed.Simulator.World.{World, index_flows, create, run}
use cpsc_of_testbed.Simulator.World.Flight.{flight, flight-found, is_of}
use cpsc_of_testbed.Simulator.World.Located.{IsLocated, IsNode, at_nodes}
use cpsc_of_testbed.Simulator.World.Following.{IsOver, IsPathFrom, IsReady}
use cpsc_of_testbed.Simulator.World.Created.{CanRun, create-IsReady, index_flows-Nodup}
use cpsc_of_testbed.Simulator.World.Progress.{run-IsReady}

-- After `time` steps a flow has sent as many messages, those that are incomplete are of the last steps,
-- fewer than the bound, and all others are received.
pub record IsPunctual (time bound : ℕ) (f : Flow) : Type 0 where
  pub sent : f.messages_tx ≡ time
  pub recent : All (λ e. time < e.0 + bound) f.shares_received
  pub received : time < f.messages_rx + bound

-- After `time` steps a share of the message `q` has made `time - q` hops on its path.
abbrev pub IsOnPath : Dict ℕ Flow → ℕ → ℕ → Share → Type 0
IsOnPath flows time u s =
    (f : Flow) × (lookup s.flow_id flows ≡ some f)
    × (p : List ℕ) × (get_elem? f.paths s.path_idx ≡ some p)
    × (get_elem? p (time - s.seq_num) ≡ some u)

at_nodes-found :
    (vs js : List ℕ) (start : ℕ → Flow) (time : ℕ) (p : Share → Bool) (d : Dict ℕ Node)
    → All (λ e. IsNode vs js start time e.0 e.1) d
    → 0 < at_nodes p d
    → (u : ℕ) × (s : Share) × IsLocated vs js start time u s × (p s ≡ true)
unfolding total
at_nodes-found vs js start time p [] h pos = absurd (omega arith)
at_nodes-found vs js start time p ((u, n) ∷ d) h pos =
    elim (Bool-cases (ltb 0 (flight p n.resident_shares))) [
      | inl e ↦
          let (s, here, is) =
            flight-found (IsLocated vs js start time u) p n.resident_shares h.0.1 (ground arith) in
          (u, s, here, is)
      | inr e ↦ at_nodes-found vs js start time p d h.1 (ground arith)
    ]

index-lt : (p : List ℕ) (i u : ℕ) → get_elem? p i ≡ some u → i < length p
index-lt [] i u h = cc
index-lt (x ∷ p) zero u h = omega arith
index-lt (x ∷ p) (suc i) u h = omega (arith, index-lt p i u h)

module _ (vs js : List ℕ) (start : ℕ → Flow) (bound time : ℕ)
    (over : (j : ℕ) → In j js → IsOver vs bound j (start j)) (w : World)
    (h : IsReady vs js start bound time (λ j. time) w) where
  -- A message of which a share is on its way was sent lately.
  flight-recent : (j q : ℕ) → 0 < at_nodes (is_of j q) w.nodes → time < q + bound
  flight-recent j q pos =
      let (u, s, (known, p, i, at, here, position), is) =
        at_nodes-found vs js start time (is_of j q) w.nodes h.nodes.located pos in
      let route =
        All-In (IsPathFrom vs bound (start s.flow_id).source_node) (start s.flow_id).paths
          (over s.flow_id known).routes p (get_elem?-In (start s.flow_id).paths s.path_idx p at) in
      let number : s.seq_num ≡ q = ground arith in omega (arith, index-lt p i u here, route.2)

  -- A message that is incomplete has shares on their way.
  waiting-recent :
      (j : ℕ) (f : Flow)
      → IsFollowing (start j) (λ q. at_nodes (is_of j q) w.nodes) f
      → All (λ e. time < e.0 + bound) f.shares_received
  waiting-recent j f follows =
      All_of (λ e. time < e.0 + bound) f.shares_received
        (λ e m.
          let at = In-lookup e.0 e.1 f.shares_received follows.balanced.unique m in
          let (given, few) = waiting-bounds f e.0 e.1 follows.balanced at in
          flight-recent j e.0 (omega (arith, follows.missing e.0 e.1 at, follows.k)))

  bound_pos : (j : ℕ) → In j js → 0 < (start j).k → 0 < bound
  bound_pos j known some_paths =
      let (p, at) = get_elem?-lt (start j).paths 0 (omega (arith, (over j known).enough)) in
      let route =
        All-In (IsPathFrom vs bound (start j).source_node) (start j).paths (over j known).routes p
          (get_elem?-In (start j).paths 0 p at) in
      omega (arith, index-lt p 0 (start j).source_node route.0, route.2)

  following-IsPunctual :
      (j : ℕ) (f : Flow)
      → In j js
      → IsFollowing (start j) (λ q. at_nodes (is_of j q) w.nodes) f
      → f.seq_num ≡ time
      → IsPunctual time bound f
  following-IsPunctual j f known follows number =
      let recent = waiting-recent j f follows in
      let between =
        length-between (suc time - bound) (bound - 1) (keys f.shares_received)
          (IsUnique-keys f.shares_received follows.balanced.unique)
          (All-map (λ q. (suc time - bound ≤ q) × (q < (suc time - bound) + (bound - 1))) (λ e. e.0)
            f.shares_received (All-both f.shares_received recent follows.balanced.pending)) in
      record {
        sent = omega (arith, follows.balanced.numbered, number);
        recent = recent;
        received = omega (
          arith,
          between,
          follows.balanced.numbered,
          follows.balanced.counted,
          number,
          length-map (λ e. e.0) f.shares_received,
          bound_pos j known (omega (arith, follows.k, follows.balanced.threshold)),
        );
      }
    where
      All-both :
          (d : Dict ℕ ℕ)
          → All (λ e. time < e.0 + bound) d
          → All (λ e. (e.0 < f.seq_num) × (e.1 < f.k)) d
          → All (λ e. (suc time - bound ≤ e.0) × (e.0 < (suc time - bound) + (bound - 1))) d
      All-both [] l u = tt
      All-both (e ∷ d) l u = ((omega arith, omega (arith, number)), All-both d l.1 u.1)

  ready-AllPunctual : Nodup js → AllValues (IsPunctual time bound) w.flows
  ready-AllPunctual once =
      let unique = keys-IsUnique w.flows (subst Nodup (sym h.flows.keyed) once) in
      All_of (λ e. IsPunctual time bound e.1) w.flows
        (λ e m.
          let known : In e.0 js =
            subst (λ ks. In e.0 ks) h.flows.keyed (In-map (λ e. e.0) e w.flows m) in
          let (f, found, follows, number) = h.flows.following e.0 known in
          let same : f ≡ e.1 = some_injective (sym found ∙ In-lookup e.0 e.1 w.flows unique m) in
          subst (IsPunctual time bound) same (following-IsPunctual e.0 f known follows number))
    where
      some_injective : {f g : Flow} → some f ≡ some g → f ≡ g
      some_injective e = cc

  ready-AllOnPath : All (λ e. All (IsOnPath w.flows time e.0) e.1.resident_shares) w.nodes
  ready-AllOnPath =
      All-imply
        (λ e node.
          All-imply
            (λ s here.
              let (known, p, i, at, there, position) = here in
              let (f, found, follows, number) = h.flows.following s.flow_id known in
              (
                f,
                found,
                p,
                ap (λ ps. get_elem? ps s.path_idx) follows.paths ∙ at,
                subst (λ k. get_elem? p k ≡ some e.0) (omega arith) there,
              ))
            e.1.resident_shares node.1)
        w.nodes h.nodes.located

-- A new simulation of flows that can run, without attackers, can run for any number of steps: none
-- raises an exception. After `n` steps each share is at the node of its path that it must have reached,
-- each flow has sent `n` messages, and all but the last ones, fewer than the bound on the lengths of the
-- paths, are received.
pub run-delivers :
    (r : Random) (vs : List ℕ) (bound : ℕ) (fs : List Flow) (draws n : ℕ)
    → IsRandom r
    → All (CanRun vs bound) fs
    → (w : World) × (run r n (create vs fs draws) ≡ ok w)
      × AllValues (IsPunctual n bound) w.flows
      × All (λ e. All (IsOnPath w.flows n e.0) e.1.resident_shares) w.nodes
run-delivers r vs bound fs draws n random can =
    let (start, over, ready) = create-IsReady vs bound fs draws can in
    let js : List ℕ = keys (index_flows fs []) in
    let once = index_flows-Nodup fs in
    let (w, e, h) =
      run-IsReady vs js start bound over r random once n 0 (create vs fs draws) ready in
    let h' = subst (λ t. IsReady vs js start bound t (λ j. t) w) (omega arith) h in
    (
      w,
      e,
      ready-AllPunctual vs js start bound n over w h' once,
      ready-AllOnPath vs js start bound n over w h',
    )

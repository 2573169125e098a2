-- ===== src/Simulator/World/Located.antt =====
-- Where the shares are: each at a node of its path, and every node of the network has its entry.
use cpsc_of_testbed.Base.{
  true, Bool, ap, ℕ, ◌+◌, ◌≤◌, ◌≡◌, refl, List, [], ◌∷◌, map, some, ok, nat_eq, arith, All, In,
  get_elem?, Bool-cases, inl, inr, fold_result, contains, add, All-append, ◌==◌,
}
use cpsc_of_testbed.Base.Dict.{Dict, lookup, insert, lookup-insert-some}
use cpsc_of_testbed.Base.Dict.Totals.{
  total, weight-le-total, total-insert, Entries-insert, Entries-lookup, weight_of,
}
use cpsc_of_testbed.Simulator.Share.{Share, share_eq, share_eqb}
use cpsc_of_testbed.Simulator.Node.{Node, clear_resident_packets, receive_share}
use cpsc_of_testbed.Simulator.Flow.{Flow}
use cpsc_of_testbed.Simulator.World.{deliver}
use cpsc_of_testbed.Simulator.World.Flight.{
  flight, flight-le, flight-add, flight-cons, flight_none, flight_self,
}

-- The shares of a kind at all nodes.
abbrev pub at_nodes : (Share → Bool) → Dict ℕ Node → ℕ
at_nodes p d = total (λ (n : Node). flight p n.resident_shares) d

pub All-add : (P : Share → Type 0) (s : Share) (ss : List Share) → P s → All P ss → All P (add s ss)
All-add P s ss p h = elim (Bool-cases (contains s ss)) [
  | inl e ↦ rw e h
  | inr e ↦ rw e (All-append P ss (s ∷ []) h (p, tt))
]

-- Of a narrower kind there are not more.
pub at_nodes-le :
    (p q : Share → Bool) (d : Dict ℕ Node)
    → ((s : Share) → p s ≡ true → q s ≡ true)
    → at_nodes p d ≤ at_nodes q d
unfolding total
at_nodes-le p q [] h = omega arith
at_nodes-le p q ((u, n) ∷ d) h =
    omega (arith, flight-le p q n.resident_shares h, at_nodes-le p q d h)

abbrev pub cleared : Dict ℕ Node → Dict ℕ Node
cleared = map (λ e. (e.0, clear_resident_packets e.1))

pub cleared_none : (p : Share → Bool) (d : Dict ℕ Node) → at_nodes p (cleared d) ≡ 0
unfolding clear_resident_packets total flight
cleared_none p [] = refl
cleared_none p ((u, n) ∷ d) = omega (arith, cleared_none p d)

-- The nodes of the network, the identifiers of the flows, and the flows that had them at the start; a
-- share has made one hop in each of the steps since it was sent.
module _ (vs js : List ℕ) (start : ℕ → Flow) (time : ℕ) where
  -- The share is where it must be on its path at this time.
  abbrev pub IsLocated : ℕ → Share → Type 0
  IsLocated u s =
      In s.flow_id js
      × (p : List ℕ) × (i : ℕ) × (get_elem? (start s.flow_id).paths s.path_idx ≡ some p)
      × (get_elem? p i ≡ some u)
      × (i + s.seq_num ≡ time)

  abbrev pub IsNode : ℕ → Node → Type 0
  IsNode u n = (n.node_id ≡ u) × All (IsLocated u) n.resident_shares

  pub record AreNodes (d : Dict ℕ Node) : Type 0 where
    pub located : All (λ e. IsNode e.0 e.1) d
    pub there : (u : ℕ) → In u vs → (n : Node) × (lookup u d ≡ some n)

  -- A share that is at no node is received by one that is there.
  pub deliver-AreNodes :
      (u : ℕ) (s : Share) (d : Dict ℕ Node)
      → In u vs
      → IsLocated u s
      → at_nodes (share_eqb s) d ≡ 0
      → AreNodes d
      → (d' : Dict ℕ Node) × (deliver u d s ≡ ok d')
        × AreNodes d'
        × ((p : Share → Bool) → at_nodes p d' ≡ at_nodes p d + flight p (s ∷ []))
  unfolding deliver receive_share
  deliver-AreNodes u s d known here new h =
      let (n, found) = h.there u known in
      let (named, held) = Entries-lookup IsNode u n d h.located found in
      let n' : Node = record n { resident_shares = add s n.resident_shares } in
      let new_here =
        weight-le-total (λ (m : Node). flight (share_eqb s) m.resident_shares) u n d found in
      (
        insert u n' d,
        (rw found refl),
        record {
          located =
              Entries-insert IsNode u n' d
                (named, All-add (IsLocated u) s n.resident_shares here held) h.located;
          there = λ v m. lookup-insert-some v u n' d (h.there v m);
        },
        λ p.
            let sum = total-insert (λ (m : Node). flight p m.resident_shares) u n' d in
            let old = ap (weight_of (λ (m : Node). flight p m.resident_shares)) found in
            omega (arith, flight-add p s n.resident_shares (omega arith)),
      )

  -- So are the shares of a list, if they are at no node and differ from each other.
  pub deliver_all-AreNodes :
      (u : ℕ) (ss : List Share) (d : Dict ℕ Node)
      → In u vs
      → All (IsLocated u) ss
      → ((t : Share) → at_nodes (share_eqb t) d + flight (share_eqb t) ss ≤ 1)
      → AreNodes d
      → (d' : Dict ℕ Node) × (fold_result (deliver u) d ss ≡ ok d')
        × AreNodes d'
        × ((p : Share → Bool) → at_nodes p d' ≡ at_nodes p d + flight p ss)
  unfolding fold_result
  deliver_all-AreNodes u [] d known here once h = (d, refl, h, λ p. omega (arith, flight_none p))
  deliver_all-AreNodes u (s ∷ ss) d known here once h =
      let (d1, e1, h1, c1) =
        deliver-AreNodes u s d known here.0
          (omega (arith, once s, flight-cons (share_eqb s) s ss, flight_self s)) h in
      let (d2, e2, h2, c2) =
        deliver_all-AreNodes u ss d1 known here.1
          (λ t. omega (arith, once t, flight-cons (share_eqb t) s ss, c1 (share_eqb t))) h1 in
      (d2, (rw e1 e2), h2, λ p. omega (arith, c1 p, c2 p, flight-cons p s ss))

pub cleared-AreNodes :
    (vs js : List ℕ) (start : ℕ → Flow) (time later : ℕ) (d : Dict ℕ Node)
    → AreNodes vs js start time d
    → AreNodes vs js start later (cleared d)
unfolding clear_resident_packets
cleared-AreNodes vs js start time later d h = record {
  located = empty d h.located;
  there = λ u m. kept u d (h.there u m);
}
  where
    empty :
        (d : Dict ℕ Node)
        → All (λ e. IsNode vs js start time e.0 e.1) d
        → All (λ e. IsNode vs js start later e.0 e.1) (cleared d)
    empty [] l = tt
    empty ((u, n) ∷ d) l = ((l.0.0, tt), empty d l.1)

    kept :
        (u : ℕ) (d : Dict ℕ Node)
        → (n : Node) × (lookup u d ≡ some n)
        → (n : Node) × (lookup u (cleared d) ≡ some n)
    kept u [] (n, e) = (n, e)
    kept u ((v, m) ∷ d) (n, e) = elim (Bool-cases (v == u)) [
      | inl t ↦ (clear_resident_packets m, (rw t refl))
      | inr t ↦ let (n', e') = kept u d (n, (rw t at e)) in (n', (rw t e'))
    ]

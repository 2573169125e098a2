-- ===== src/Simulator/World/Moving.antt =====
-- The shares move: each is received by its flow, or is put aside for a node further on its path.
use cpsc_of_testbed.Base.{
  Bool, ℕ, suc, ◌+◌, ◌≤◌, ◌≡◌, refl, sym, ap, ◌∙◌, List, [], ◌∷◌, none, some, Option, ok, nat_eq,
  arith, All, In, All-In, get_elem?, get_elem?-In, Option-cases, inl, inr, add,
}
use cpsc_of_testbed.Base.Dict.{Dict, lookup, insert}
use cpsc_of_testbed.Base.Dict.Totals.{
  total, weight-le-total, total-insert, weight_of, Entries-insert, Entries-lookup,
}
use cpsc_of_testbed.Simulator.Share.{Share, share_eq, share_eqb}
use cpsc_of_testbed.Simulator.Flow.{Flow, get_next_hop_for_share}
use cpsc_of_testbed.Simulator.Flow.Receiving.{receive_share-IsFollowing}
use cpsc_of_testbed.Simulator.Flow.Route.{next_hop_along_path}
use cpsc_of_testbed.Simulator.World.{Moved, waiting_at, move_share}
use cpsc_of_testbed.Simulator.World.Flight.{
  flight, is_of, flight-add, flight_own, flight_foreign, flight_self,
}
use cpsc_of_testbed.Simulator.World.Located.{IsLocated, All-add}
use cpsc_of_testbed.Simulator.World.Following.{
  IsOver, IsPathFrom, AreFlows, same-AreFlows, insert-AreFlows,
}

-- The shares of a kind that are put aside.
abbrev pub aside : (Share → Bool) → Dict ℕ (List Share) → ℕ
aside p moved = total (flight p) moved

pub aside_none : (p : Share → Bool) → aside p [] ≡ 0
unfolding total
aside_none p = refl

weight-waiting :
    (p : Share → Bool) (v : ℕ) (moved : Dict ℕ (List Share))
    → weight_of (flight p) (lookup v moved) ≡ flight p (waiting_at v moved)
unfolding flight
weight-waiting p v moved =
    elim (lookup v moved)
      as (λ o. weight_of (flight p) o ≡ flight p (elim o [ none ↦ [] | some ss ↦ ss ])) [
        | none ↦ refl
        | some ss ↦ refl
      ]

waiting-le :
    (p : Share → Bool) (v : ℕ) (moved : Dict ℕ (List Share))
    → flight p (waiting_at v moved) ≤ aside p moved
waiting-le p v moved = elim (Option-cases (lookup v moved)) [
  | inl e ↦
      let nothing = sym (weight-waiting p v moved) ∙ ap (weight_of (flight p)) e in omega arith
  | inr (ss, e) ↦
      let these = sym (weight-waiting p v moved) ∙ ap (weight_of (flight p)) e in
      omega (arith, weight-le-total (flight p) v ss moved e)
]

-- A share that is not put aside yet.
aside-add :
    (p : Share → Bool) (v : ℕ) (s : Share) (moved : Dict ℕ (List Share))
    → aside (share_eqb s) moved ≡ 0
    → aside p (insert v (add s (waiting_at v moved)) moved) ≡ flight p (s ∷ []) + aside p moved
aside-add p v s moved new =
    let waiting : List Share = waiting_at v moved in
    let sum = total-insert (flight p) v (add s waiting) moved in
    omega (
      arith,
      sum,
      weight-waiting p v moved,
      flight-add p s waiting (omega (arith, waiting-le (share_eqb s) v moved)),
    )

module _ (vs js : List ℕ) (start : ℕ → Flow) (bound : ℕ)
    (over : (j : ℕ) → In j js → IsOver vs bound j (start j)) (time : ℕ) (seqs : ℕ → ℕ) where
  -- What is put aside for a node will be where it must be.
  abbrev pub IsAside : Dict ℕ (List Share) → Type 0
  IsAside moved = All (λ e. In e.0 vs × All (IsLocated vs js start (suc time) e.0) e.1) moved

  waiting-All :
      (v : ℕ) (moved : Dict ℕ (List Share))
      → IsAside moved
      → All (IsLocated vs js start (suc time) v) (waiting_at v moved)
  waiting-All v moved h = go (lookup v moved) refl
    where
      go :
          (o : Option (List Share))
          → lookup v moved ≡ o
          → All (IsLocated vs js start (suc time) v) (elim o [ none ↦ [] | some ss ↦ ss ])
      go none e = tt
      go (some ss) e =
          (Entries-lookup (λ u ss. In u vs × All (IsLocated vs js start (suc time) u) ss) v ss moved
            h e).1

  -- The flows, what is put aside, and the shares that have not moved yet, `X p` of each kind.
  pub record IsMoving (X : (Share → Bool) → ℕ) (m : Moved) : Type 0 where
    pub flows : AreFlows vs js start bound (λ p. X p + aside p m.1) seqs m.0
    pub waiting : IsAside m.1
    pub once : (t : Share) → X (share_eqb t) + aside (share_eqb t) m.1 ≤ 1

  pub same-IsMoving :
      (X X' : (Share → Bool) → ℕ) (m : Moved)
      → ((p : Share → Bool) → X' p ≡ X p)
      → IsMoving X m
      → IsMoving X' m
  same-IsMoving X X' m same h = record {
    flows =
        same-AreFlows vs js start bound (λ p. X p + aside p m.1) (λ p. X' p + aside p m.1) seqs seqs
          m.0 (λ p. omega (arith, same p)) (λ j k. refl) h.flows;
    waiting = h.waiting;
    once = λ t. omega (arith, same (share_eqb t), h.once t);
  }

  -- One share moves.
  pub move_share-IsMoving :
      (X : (Share → Bool) → ℕ) (u : ℕ) (s : Share) (m : Moved)
      → IsLocated vs js start time u s
      → IsMoving (λ p. flight p (s ∷ []) + X p) m
      → (m' : Moved) × (move_share u m s ≡ ok m') × IsMoving X m'
  unfolding move_share
  move_share-IsMoving X u s (flows, moved) (known, p, i, at, here, position) h =
      let (f, found, follows, number) = h.flows.following s.flow_id known in
      let route =
        All-In (IsPathFrom vs bound (start s.flow_id).source_node) (start s.flow_id).paths
          (over s.flow_id known).routes p (get_elem?-In (start s.flow_id).paths s.path_idx p at) in
      let next =
        next_hop_along_path f s p i u (ap (λ ps. get_elem? ps s.path_idx) follows.paths ∙ at)
          route.1 here in
      elim (Option-cases (get_elem? p (suc i))) [
        | inl last ↦
            let arrived : get_next_hop_for_share f s u ≡ ok none = next ∙ (rw last refl) in
            let (f', received, same, after) =
              receive_share-IsFollowing (start s.flow_id)
                (λ q.
                  flight (is_of s.flow_id q) (s ∷ [])
                  + X (is_of s.flow_id q)
                  + aside (is_of s.flow_id q) moved)
                f s follows (ground (arith, flight_own s.seq_num s)) in
            (
              (insert s.flow_id f' flows, moved),
              (rw found (rw arrived (rw received refl))),
              record {
                flows =
                    insert-AreFlows vs js start bound (λ p. flight p (s ∷ []) + X p + aside p moved)
                      (λ p. X p + aside p moved) seqs seqs s.flow_id f' flows known
                      (after (λ q. X (is_of s.flow_id q) + aside (is_of s.flow_id q) moved)
                        (λ q. omega (arith, flight_own q s)))
                      (same ∙ number) (λ j e. (refl, λ q. omega (arith, flight_foreign j q s e)))
                      h.flows;
                waiting = h.waiting;
                once = λ t. omega (arith, h.once t);
              },
            )
        | inr (v, onward) ↦
            let moves : get_next_hop_for_share f s u ≡ ok (some v) = next ∙ (rw onward refl) in
            let new : aside (share_eqb s) moved ≡ 0 = omega (arith, h.once s, flight_self s) in
            (
              (flows, insert v (add s (waiting_at v moved)) moved),
              (rw found (rw moves refl)),
              record {
                flows =
                    same-AreFlows vs js start bound (λ p. flight p (s ∷ []) + X p + aside p moved)
                      (λ p. X p + aside p (insert v (add s (waiting_at v moved)) moved)) seqs seqs
                      flows (λ p. omega (arith, aside-add p v s moved new)) (λ j k. refl) h.flows;
                waiting =
                    Entries-insert (λ u ss. In u vs × All (IsLocated vs js start (suc time) u) ss) v
                      (add s (waiting_at v moved)) moved
                      (
                        All-In (λ u. In u vs) p route.3 v (get_elem?-In p (suc i) v onward),
                        All-add (IsLocated vs js start (suc time) v) s (waiting_at v moved)
                            (known, p, suc i, at, onward, omega arith)
                            (waiting-All v moved h.waiting),
                      )
                      h.waiting;
                once = λ t. omega (arith, h.once t, aside-add (share_eqb t) v s moved new);
              },
            )
      ]

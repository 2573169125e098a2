-- ===== src/Simulator/World/Progress.antt =====
-- A simulation without attackers: no step raises, and each message is delivered in time.
use cpsc_of_testbed.Base.{
  ℕ, zero, suc, ◌+◌, ◌≡◌, refl, ap, subst, ◌∙◌, List, [], ◌∷◌, ok, nat_eq, eqb, arith, All, In,
  fold_result, fold_result_total, All_of, Nodup, contains, contains_iff, if◌then◌else◌, false,
  eq_self,
}
use cpsc_of_testbed.Base.Dict.{keys}
use cpsc_of_testbed.Simulator.Flow.{Flow}
use cpsc_of_testbed.Simulator.Random.{Random, IsRandom}
use cpsc_of_testbed.Simulator.World.{World, inject_flow, hop_flow, attack, step, run}
use cpsc_of_testbed.Simulator.World.Located.{at_nodes}
use cpsc_of_testbed.Simulator.World.Following.{IsOver, same-AreFlows, IsReady}
use cpsc_of_testbed.Simulator.World.Arriving.{move_packets-IsReady}
use cpsc_of_testbed.Simulator.World.Sending.{inject_flow-IsReady, hop_flow-IsReady}

-- The sequence numbers while the flows `ks` are still to send.
abbrev numbers_of : ℕ → List ℕ → ℕ → ℕ
numbers_of time ks j = if contains j ks then time else suc time

module _ (vs js : List ℕ) (start : ℕ → Flow) (bound : ℕ)
    (over : (j : ℕ) → In j js → IsOver vs bound j (start j)) where
  inject_flows-IsReady :
      (time : ℕ) (ks : List ℕ) (w : World)
      → Nodup ks
      → All (λ j. In j js) ks
      → IsReady vs js start bound time (numbers_of time ks) w
      → (w' : World) × (fold_result inject_flow w ks ≡ ok w')
        × IsReady vs js start bound time (λ j. suc time) w'
  unfolding fold_result
  inject_flows-IsReady time [] w once known h = (w, refl, h)
  inject_flows-IsReady time (j ∷ ks) w once known h =
      let (u, e, hu) =
        inject_flow-IsReady vs js start bound over time (numbers_of time (j ∷ ks))
          (numbers_of time ks) w j known.0 (rw (eq_self j) refl) (rw once.0 refl) (λ i e. other i e)
          h in
      let (w', e', h') = inject_flows-IsReady time ks u once.1 known.1 hu in (w', (rw e e'), h')
    where
      other : (i : ℕ) → eqb j i ≡ false → numbers_of time ks i ≡ numbers_of time (j ∷ ks) i
      other i e = ground arith

  module _ (r : Random) (random : IsRandom r) (once : Nodup js) where
    step-IsReady :
        (time : ℕ) (w : World)
        → IsReady vs js start bound time (λ j. time) w
        → (w' : World) × (step r w ≡ ok w')
          × IsReady vs js start bound (suc time) (λ j. suc time) w'
    unfolding step attack
    step-IsReady time w h =
        let (u1, e1, h1) =
          inject_flows-IsReady time js w once (All_of (λ j. In j js) js (λ j m. m)) (record {
            nodes = h.nodes;
            flows =
                same-AreFlows vs js start bound (λ p. at_nodes p w.nodes) (λ p. at_nodes p w.nodes)
                  (λ j. time) (numbers_of time js) w.flows (λ p. refl)
                  (λ j m. rw ((contains_iff j js).1 m) refl) h.flows;
            once = h.once;
            quiet = h.quiet;
          }) in
        let (u2, e2, h2) = move_packets-IsReady vs js start bound over time (λ j. suc time) u1 h1 in
        let (u3, e3, h3) =
          fold_result_total (IsReady vs js start bound (suc time) (λ j. suc time)) (hop_flow r) js
            (λ u j m. λ hu.
              hop_flow-IsReady vs js start bound r random over (suc time) (λ j. suc time) u j m hu)
            u2 h2 in
        let injected : fold_result inject_flow w (keys w.flows) ≡ ok u1 =
          ap (fold_result inject_flow w) h.flows.keyed ∙ e1 in
        let hopped : fold_result (hop_flow r) u2 (keys u2.flows) ≡ ok u3 =
          ap (fold_result (hop_flow r) u2) h2.flows.keyed ∙ e3 in
        (
          record u3 { attackers = []; draws = u3.draws; ticks = suc u3.ticks },
          (rw injected (rw e2 (rw hopped (rw h3.quiet refl)))),
          record { nodes = h3.nodes; flows = h3.flows; once = h3.once; quiet = refl },
        )

    pub run-IsReady :
        (n time : ℕ) (w : World)
        → IsReady vs js start bound time (λ j. time) w
        → (w' : World) × (run r n w ≡ ok w')
          × IsReady vs js start bound (time + n) (λ j. time + n) w'
    unfolding run
    run-IsReady zero time w h =
        (w, refl, subst (λ t. IsReady vs js start bound t (λ j. t) w) (omega arith) h)
    run-IsReady (suc n) time w h =
        let (u, e, hu) = step-IsReady time w h in
        let (w', e', h') = run-IsReady n (suc time) u hu in
        (w', (rw e e'), subst (λ t. IsReady vs js start bound t (λ j. t) w') (omega arith) h')

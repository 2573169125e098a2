-- ===== src/Simulator/World/Run.antt =====
-- The books of every flow over a whole run.
use mathlib.Core.Path.{subst}
use cpsc_of_testbed.Base.{
  ℕ, zero, suc, ◌+◌, ◌≡◌, refl, sym, ◌∙◌, List, ok, nat_eq, arith, fold_result, fold_result_inv,
  >>=-eq-ok,
}
use cpsc_of_testbed.Base.Dict.{Dict, keys, AllValues, AllValues-lookup, AllValues-insert}
use cpsc_of_testbed.Simulator.Flow.{Flow, create_shares}
use cpsc_of_testbed.Simulator.Flow.Accounting.{
  IsBalanced, create_shares-IsBalanced, receive_share-IsBalanced, hop-IsBalanced,
}
use cpsc_of_testbed.Simulator.Random.{Random}
use cpsc_of_testbed.Simulator.World.{World, inject_flow, step, run}
use cpsc_of_testbed.Simulator.World.Updates.{Receives, Hops, IsKept, inject_flow-eq-ok, step-keeps}

abbrev pub AllBalanced : Dict ℕ Flow → Type 0
AllBalanced = AllValues IsBalanced

updates-AllBalanced :
    (R : Flow → Flow → Type 0)
    → ((f f' : Flow) → R f f' → IsBalanced f → IsBalanced f')
    → IsKept R AllBalanced
updates-AllBalanced R keep d d' (k, f, f', found, change, e) h = subst AllBalanced (sym e) (
    AllValues-insert IsBalanced k f' d
      (keep f f' change (AllValues-lookup IsBalanced k f d h found)) h)

injected-AllBalanced :
    (w : World) (ks : List ℕ) (u : World)
    → AllBalanced w.flows
    → fold_result inject_flow w ks ≡ ok u
    → AllBalanced u.flows × (u.ticks ≡ w.ticks)
injected-AllBalanced w ks u h e =
    fold_result_inv (λ (v : World). AllBalanced v.flows × (v.ticks ≡ w.ticks)) inject_flow
      (λ v k v' kept e'.
        let (f, found, flows, ticks) = inject_flow-eq-ok v k v' e' in
        (
          subst AllBalanced (sym flows) (
              AllValues-insert IsBalanced k (create_shares f).1 v.flows
                (create_shares-IsBalanced f (AllValues-lookup IsBalanced k f v.flows kept.0 found))
                kept.0),
          ticks ∙ kept.1,
        ))
      w ks u (h, refl) e

module _ (r : Random) where
  -- A step keeps the books of every flow.
  pub step-AllBalanced :
      (w w' : World)
      → AllBalanced w.flows
      → step r w ≡ ok w'
      → AllBalanced w'.flows × (w'.ticks ≡ suc w.ticks)
  step-AllBalanced w w' h e =
      step-keeps AllBalanced r w w' (λ u. injected-AllBalanced w (keys w.flows) u h)
        (updates-AllBalanced Receives (λ f f' c b. receive_share-IsBalanced f f' c.0 b c.1))
        (updates-AllBalanced (Hops r) (λ f f' c b. hop-IsBalanced r c.0 f f' c.1 b c.2)) e

  -- However long the simulation runs, every message sent by a flow is either complete or waiting.
  pub run-AllBalanced :
      (n : ℕ) (w w' : World)
      → AllBalanced w.flows
      → run r n w ≡ ok w'
      → AllBalanced w'.flows × (w'.ticks ≡ w.ticks + n)
  unfolding run
  run-AllBalanced zero w w' h e =
      let same : w ≡ w' = ground arith in
      subst (λ u. AllBalanced u.flows × (u.ticks ≡ w.ticks + 0)) same (h, omega arith)
  run-AllBalanced (suc n) w w' h e =
      let (u, first, rest) = >>=-eq-ok (step r w) _ e in
      let (balanced, tick) = step-AllBalanced w u h first in
      let (last, ticks) = run-AllBalanced n u w' balanced rest in (last, omega arith)

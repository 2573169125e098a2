-- ===== src/Simulator/World/Sent.antt =====
-- How many messages each flow has sent.
use mathlib.Core.Path.{subst}
use cpsc_of_testbed.Base.{
  ℕ, zero, suc, ◌+◌, ◌≡◌, refl, sym, ◌∙◌, List, [], ◌∷◌, some, ok, nat_eq, eqb, arith, fold_result,
  ap, >>=-eq-ok, if◌then◌else◌, Bool-cases, inl, inr,
}
use cpsc_of_testbed.Base.Dict.{
  Dict, lookup, insert, keys, has_key, IsUnique, insert-IsUnique, lookup-insert,
}
use cpsc_of_testbed.Simulator.Flow.{Flow, create_shares, receive_share, hop}
use cpsc_of_testbed.Simulator.Share.{Share}
use cpsc_of_testbed.Simulator.Random.{Random}
use cpsc_of_testbed.Simulator.World.{World, inject_flow, step, run}
use cpsc_of_testbed.Simulator.World.Updates.{Receives, Hops, IsKept, inject_flow-eq-ok, step-keeps}

-- There is one flow with this identifier, and it has sent this many messages.
pub record HasSent (j count : ℕ) (d : Dict ℕ Flow) : Type 0 where
  pub unique : IsUnique d
  pub sent : (f : Flow) × (lookup j d ≡ some f) × (f.messages_tx ≡ count)

receive_share-tx :
    (f f' : Flow) (s : Share) → receive_share f s ≡ ok f' → f'.messages_tx ≡ f.messages_tx
unfolding receive_share
receive_share-tx f f' s e = ground arith

hop-tx :
    (r : Random) (draw : ℕ) (f f' : Flow) (next : ℕ)
    → hop r draw f ≡ ok (f', next)
    → f'.messages_tx ≡ f.messages_tx
unfolding hop
hop-tx r draw f f' next e = ground arith

create_shares-tx : (f : Flow) → (create_shares f).1.messages_tx ≡ suc f.messages_tx
unfolding create_shares
create_shares-tx f = refl

abbrev times : ℕ → ℕ → ℕ
times k j = if eqb k j then 1 else 0

insert-HasSent :
    (j count more k : ℕ) (f f' : Flow) (d : Dict ℕ Flow)
    → lookup k d ≡ some f
    → f'.messages_tx ≡ f.messages_tx + more
    → HasSent j count d
    → HasSent j (count + (if eqb k j then more else 0)) (insert k f' d)
insert-HasSent j count more k f f' d found tx h =
    let (g, at, n) = h.sent in
    elim (Bool-cases (eqb k j)) [
      | inl e ↦
          let same : k ≡ j = ground arith in
          let g_f : f ≡ g = some_injective f g (sym found ∙ (rw same at)) in
          record {
            unique = insert-IsUnique k f' d h.unique;
            sent = (
              f',
              ground (arith, lookup-insert k j f' d),
              ground (arith, tx, n, ap (λ (g : Flow). g.messages_tx) g_f),
            );
          }
      | inr e ↦ record {
        unique = insert-IsUnique k f' d h.unique;
        sent = (g, ground (arith, lookup-insert k j f' d), ground arith);
      }
    ]
  where
    some_injective : (f g : Flow) → some f ≡ some g → f ≡ g
    some_injective f g e = cc

updates-HasSent :
    (R : Flow → Flow → Type 0) (j count : ℕ)
    → ((f f' : Flow) → R f f' → f'.messages_tx ≡ f.messages_tx)
    → IsKept R (HasSent j count)
updates-HasSent R j count keep d d' (k, f, f', found, change, e) h =
    let moved = insert-HasSent j count 0 k f f' d found (omega (arith, keep f f' change)) h in
    subst (HasSent j count) (sym e) (subst (λ c. HasSent j c (insert k f' d)) (ground arith) moved)

abbrev occurrences : ℕ → List ℕ → ℕ
occurrences j [] = 0
occurrences j (k ∷ ks) = times k j + occurrences j ks

injected-HasSent :
    (j : ℕ) (ks : List ℕ) (count : ℕ) (w u : World)
    → HasSent j count w.flows
    → fold_result inject_flow w ks ≡ ok u
    → HasSent j (count + occurrences j ks) u.flows × (u.ticks ≡ w.ticks)
unfolding fold_result
injected-HasSent j [] count w u h e =
    let same : w ≡ u = ground arith in
    (
      subst (λ (v : World). HasSent j (count + 0) v.flows) same
          (subst (λ c. HasSent j c w.flows) (omega arith) h),
      ground arith,
    )
injected-HasSent j (k ∷ ks) count w u h e =
    let (v, first, rest) = >>=-eq-ok (inject_flow w k) _ e in
    let (f, found, flows, ticks) = inject_flow-eq-ok w k v first in
    let one =
      insert-HasSent j count 1 k f (create_shares f).1 w.flows found
        (omega (arith, create_shares-tx f)) h in
    let (all, later) =
      injected-HasSent j ks (count + times k j) v u (subst (HasSent j _) (sym flows) one) rest in
    (subst (λ c. HasSent j c u.flows) (omega arith) all, later ∙ ticks)

occurrences-keys :
    (j : ℕ) (d : Dict ℕ Flow) → IsUnique d → occurrences j (keys d) ≡ (if has_key j d then 1 else 0)
occurrences-keys j [] h = refl
occurrences-keys j ((k, f) ∷ d) h = ground (arith, h.0, occurrences-keys j d h.1)

module _ (r : Random) (j : ℕ) where
  -- In a step each flow sends one message.
  pub step-HasSent :
      (count : ℕ) (w w' : World)
      → HasSent j count w.flows
      → step r w ≡ ok w'
      → HasSent j (suc count) w'.flows
  step-HasSent count w w' h e =
      let (f, at, n) = h.sent in
      let once : occurrences j (keys w.flows) ≡ 1 =
        ground (arith, occurrences-keys j w.flows h.unique) in
      (step-keeps (HasSent j (suc count)) r w w'
        (λ u e'.
          let (sent, ticks) = injected-HasSent j (keys w.flows) count w u h e' in
          (subst (λ c. HasSent j c u.flows) (omega arith) sent, ticks))
        (updates-HasSent Receives j (suc count) (λ f f' c. receive_share-tx f f' c.0 c.1))
        (updates-HasSent (Hops r) j (suc count) (λ f f' c. hop-tx r c.0 f f' c.1 c.2)) e).0

  -- A run of `n` steps adds `n` to the messages that a flow has sent.
  pub run-HasSent :
      (n count : ℕ) (w w' : World)
      → HasSent j count w.flows
      → run r n w ≡ ok w'
      → HasSent j (count + n) w'.flows
  unfolding run
  run-HasSent zero count w w' h e =
      let same : w ≡ w' = ground arith in
      subst (λ (u : World). HasSent j (count + 0) u.flows) same
        (subst (λ c. HasSent j c w.flows) (omega arith) h)
  run-HasSent (suc n) count w w' h e =
      let (u, first, rest) = >>=-eq-ok (step r w) _ e in
      let later = run-HasSent n (suc count) u w' (step-HasSent count w u h first) rest in
      subst (λ c. HasSent j c w'.flows) (omega arith) later

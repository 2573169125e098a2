-- ===== src/Simulator/World/Drawn.antt =====
-- The flows that `create_random_flow` makes.
use cpsc_of_testbed.Base.{
  Bool, suc, ◌∙◌, ℕ, ◌<◌, ◌≤◌, ◌≡◌, refl, sym, ap, subst, List, nat_eq, arith, All, All_of, In,
  length, Bool-cases, inl, inr, true, false, not, ltb, contains, contains_iff, range, ok,
  value_error, raise_if, ok_injective, ◌>>◌, Result,
}
use cpsc_of_testbed.Base.Lists.Distinct.{length-range_from, In-range_from}
use cpsc_of_testbed.Simulator.Flow.{Flow, make, hop, create_random_flow}
use cpsc_of_testbed.Simulator.Flow.Accounting.{make-IsBalanced, hop-IsBalanced}
use cpsc_of_testbed.Simulator.Random.{Random, IsRandom, sample}
use cpsc_of_testbed.Simulator.World.Following.{IsPathFrom}
use cpsc_of_testbed.Simulator.World.Created.{CanRun}

raise_if-passes {ℓ} :
    {A : Type ℓ} (b : Bool) (rest : Result A) {a : A}
    → (raise_if b value_error >> rest) ≡ ok a
    → (b ≡ false) × (rest ≡ ok a)
raise_if-passes true rest h = cc
raise_if-passes false rest h = (refl, h)

module _ (r : Random) (random : IsRandom r) (draw bound n k volume source sink id : ℕ)
    (nodes : List ℕ) (paths : List (List ℕ)) where
  hop-CanRun :
      (f : Flow) (next : ℕ)
      → 0 < k
      → In source nodes
      → All (IsPathFrom nodes bound source) paths
      → hop r draw (make source sink volume paths n k id) ≡ ok (f, next)
      → CanRun nodes bound f
  unfolding hop sample make
  hop-CanRun f next pos known routes e =
      let population : List ℕ = range (length paths) in
      let size : length population ≡ length paths = length-range_from 0 (length paths) in
      elim (Bool-cases (ltb (length population) k)) [
        | inl small ↦ absurd (ground (arith, small))
        | inr enough ↦
            let fits : k ≤ length population = ground arith in
            let chosen : List ℕ = r.choice draw population k in
            let new = make source sink volume paths n k id in
            let f' : Flow = record new { active_paths = chosen } in
            let called : hop r draw new ≡ ok (f', suc draw) = rw enough refl in
            let same : f' ≡ f = ap (λ (c : Flow × ℕ). c.0) (ok_injective (sym called ∙ e)) in
            subst (CanRun nodes bound) same (record {
              known = known;
              enough = omega arith;
              routes = routes;
              active =
                  All_of (λ i. i < length paths) chosen
                    (λ x m. omega (
                      arith,
                      In-range_from x 0 (length paths) (random.drawn draw population k x fits m),
                    ));
              full = random.sized draw population k fits;
              balanced =
                  hop-IsBalanced r draw new f' (suc draw)
                    (make-IsBalanced source sink volume paths n k id pos) called;
              fresh = refl;
            })
      ]

-- A flow that `create_random_flow` returns can run over the nodes of the graph, if networkx's paths start
-- at the source, stay in the graph, repeat no node and have at most `bound` of them, and K is not 0.
pub create_random_flow-CanRun :
    (r : Random) (draw : ℕ) (nodes : List ℕ) (disjoint_paths : ℕ → ℕ → List (List ℕ))
    (n k volume source sink flow_id bound : ℕ) (f : Flow) (next : ℕ)
    → IsRandom r
    → 0 < k
    → All (IsPathFrom nodes bound source) (disjoint_paths source sink)
    → create_random_flow r draw nodes disjoint_paths n k volume source sink flow_id ≡ ok (f, next)
    → CanRun nodes bound f
unfolding create_random_flow
create_random_flow-CanRun r draw nodes disjoint_paths n k volume source sink flow_id bound f next
      random pos routes e =
    let (from, e1) = raise_if-passes (not (contains source nodes)) _ e in
    let (to, e2) = raise_if-passes (not (contains sink nodes)) _ e1 in
    let (many, e3) = raise_if-passes (ltb (length (disjoint_paths source sink)) n) _ e2 in
    hop-CanRun r random draw bound n k volume source sink flow_id nodes (disjoint_paths source sink)
      f next pos ((contains_iff source nodes).0 (ground (arith, from))) routes e3

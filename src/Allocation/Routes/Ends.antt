-- ===== src/Allocation/Routes/Ends.antt =====
-- What the routes of a flow are: paths from its source to its destination, over links that carry it.
use mathlib.Core.Path.{subst}
use cpsc_of_testbed.Base.{
  ap, ℕ, zero, suc, ◌≡◌, refl, ◌∙◌, List, [], ◌∷◌, ◌++◌, true, false, some, ok, arith, contains,
  Nodup, All, All-append, In, pairwise, nat_eq, eqb, eqb_iff, Bool-cases, inl, inr, >>=-eq-ok,
}
use cpsc_of_testbed.Base.Numbers.{Number, one_num, Le, IsOrdered}
use cpsc_of_testbed.Allocation.Routes.{
  Carried, Route, is_outgoing, get_paths_for_flow, last, smaller, extended, visit, traverse_from,
  traverse_graph_iterative, rounds,
}
use cpsc_of_testbed.Allocation.Routes.Paths.{
  Starts, Starts-append, Nodup-snoc, last-snoc, All-pairwise-snoc,
}

module _ (N : Number) where
  open N use {Num, ratio, gt}

  -- The link out of u has an entry in F, of more than 0.001.
  abbrev pub HasEntry : Carried N → ℕ → ℕ → ℕ × Num → Type 0
  HasEntry F f u hop = In ((f, (u, hop.0)), hop.1) F × (gt hop.1 (ratio 1 1000) ≡ true)

  abbrev HasEntries : Carried N → ℕ → ℕ → List (ℕ × Num) → Type 0
  HasEntries F f u hops = All (HasEntry F f u) hops

  later :
      (F : Carried N) (e : (ℕ × (ℕ × ℕ)) × Num) (f u : ℕ) (hops : List (ℕ × Num))
      → HasEntries F f u hops
      → HasEntries (e ∷ F) f u hops
  later F e f u [] h = tt
  later F e f u (hop ∷ hops) h = ((inr h.0.0, h.0.1), later F e f u hops h.1)

  outgoing_lem :
      (f u g v w : ℕ) (x : Num)
      → is_outgoing N f u ((g, (v, w)), x) ≡ true
      → (g ≡ f) × (v ≡ u) × (gt x (ratio 1 1000) ≡ true)
  outgoing_lem f u g v w x h = ground arith

  pub get_paths-HasEntries :
      (F : Carried N) (u f : ℕ) → HasEntries F f u (get_paths_for_flow N F u f)
  unfolding get_paths_for_flow
  get_paths-HasEntries [] u f = tt
  get_paths-HasEntries (((g, (v, w)), x) ∷ F) u f =
      let rest =
        later F ((g, (v, w)), x) f u (get_paths_for_flow N F u f) (get_paths-HasEntries F u f) in
      elim (Bool-cases (is_outgoing N f u ((g, (v, w)), x))) [
        | inl e ↦
            rw e ((let (a, b, c) = outgoing_lem f u g v w x e in (inl (rw (a, b) refl), c)), rest)
        | inr e ↦ rw e rest
      ]

  module _ (P Q : Route N → Type 0) (t : ℕ) (r : Route N) (Ok : ℕ × Num → Type 0)
      (extend : (hop : ℕ × Num) → Ok hop → contains hop.0 r.path ≡ false → P (extended N r hop))
      (complete : (hop : ℕ × Num)
        → P (extended N r hop)
        → eqb hop.0 t ≡ true
        → Q (extended N r hop)) where
    pub visit-keeps :
        (hops : List (ℕ × Num)) (s : List (Route N) × List (Route N))
        → All Ok hops
        → All Q s.0
        → All P s.1
        → All Q (visit N t r hops s).0 × All P (visit N t r hops s).1
    unfolding visit
    visit-keeps [] s h q p = (q, p)
    visit-keeps (hop ∷ hops) s h q p = elim (Bool-cases (contains hop.0 r.path)) [
      | inl e ↦ rw e (visit-keeps hops s h.1 q p)
      | inr e ↦
          let new = extend hop h.0 e in
          elim (Bool-cases (eqb hop.0 t)) [
            | inl d ↦
                rw (e, d)
                  (visit-keeps hops (s.0 ++ extended N r hop ∷ [], s.1) h.1
                    (All-append Q s.0 (extended N r hop ∷ []) q (complete hop new d, tt)) p)
            | inr d ↦
                rw (e, d)
                  (visit-keeps hops (s.0, s.1 ++ extended N r hop ∷ []) h.1 q
                    (All-append P s.1 (extended N r hop ∷ []) p (new, tt)))
          ]
    ]

  module _ (F : Carried N) (f s t : ℕ) where
    -- The link carries at least this part of the flow, and more than 0.001 of it.
    abbrev pub Carries : Num → ℕ × ℕ → Type 0
    Carries sr link = (x : Num) × In ((f, link), x) F × (gt x (ratio 1 1000) ≡ true) × Le N sr x

    -- A path from s, without a node twice, over links that carry its part of the flow.
    pub record IsPath (r : Route N) : Type 0 where
      pub starts : Starts s r.path
      pub simple : Nodup r.path
      pub carries : All (Carries r.sr) (pairwise r.path)

    -- One that ends at t.
    abbrev pub IsRoute : Route N → Type 0
    IsRoute r = IsPath r × (last N r.path ≡ ok t)

    module _ (laws : IsOrdered N) where
      smaller-Le : (a b : Num) → Le N (smaller N a b) a × Le N (smaller N a b) b
      smaller-Le a b = elim (Bool-cases (gt b a)) [
        | inl e ↦ rw e (laws.le_refl a, laws.gt_le b a e)
        | inr e ↦ rw e (e, laws.le_refl b)
      ]

      weaker : (a b : Num) (ls : List (ℕ × ℕ)) → Le N a b → All (Carries b) ls → All (Carries a) ls
      weaker a b [] h c = tt
      weaker a b (l ∷ ls) h ((x, entry, positive, le), c) =
          ((x, entry, positive, laws.le_trans a b x h le), weaker a b ls h c)

      extended-IsPath :
          (r : Route N) (u : ℕ) (hop : ℕ × Num)
          → IsPath r
          → last N r.path ≡ ok u
          → HasEntry F f u hop
          → contains hop.0 r.path ≡ false
          → IsPath (extended N r hop)
      extended-IsPath r u hop p e entry new =
          let le = smaller-Le hop.1 r.sr in
          record {
            starts = Starts-append s r.path (hop.0 ∷ []) p.starts;
            simple = Nodup-snoc hop.0 r.path p.simple new;
            carries =
                All-pairwise-snoc N (Carries (smaller N hop.1 r.sr)) u hop.0 r.path e
                  (weaker (smaller N hop.1 r.sr) r.sr (pairwise r.path) le.1 p.carries)
                  (hop.1, entry.0, entry.1, le.0);
          }

      returned : {a b : List (Route N)} → ok (some a) ≡ ok (some b) → a ≡ b
      returned h = cc

      completed :
          (r : Route N) (hop : ℕ × Num)
          → IsPath (extended N r hop)
          → eqb hop.0 t ≡ true
          → IsRoute (extended N r hop)
      completed r hop p e = (p, last-snoc N hop.0 r.path ∙ ap ok ((eqb_iff hop.0 t).0 e))

      traverse_from-IsRoute :
          (n : ℕ) (found queue routes : List (Route N))
          → All IsRoute found
          → All IsPath queue
          → traverse_from N F f t n found queue ≡ ok (some routes)
          → All IsRoute routes
      unfolding traverse_from
      traverse_from-IsRoute zero found [] routes q p h = subst (All IsRoute) (returned h) q
      traverse_from-IsRoute zero found (r ∷ rs) routes q p h = cc
      traverse_from-IsRoute (suc n) found [] routes q p h = subst (All IsRoute) (returned h) q
      traverse_from-IsRoute (suc n) found (r ∷ rs) routes q p h =
          let (u, e, rest) =
            >>=-eq-ok (last N r.path)
              (λ u.
                let s = visit N t r (get_paths_for_flow N F u f) (found, rs) in
                traverse_from N F f t n s.0 s.1)
              h in
          let kept =
            visit-keeps IsPath IsRoute t r (HasEntry F f u) (λ hop. extended-IsPath r u hop p.0 e)
              (completed r) (get_paths_for_flow N F u f) (found, rs) (get_paths-HasEntries F u f) q
              p.1 in
          let s = visit N t r (get_paths_for_flow N F u f) (found, rs) in
          traverse_from-IsRoute n s.0 s.1 routes kept.0 kept.1 rest

      -- Every route that the traversal finds is a path from s to t, without a node twice, over links
      -- that carry at least the route's part of the flow, and more than 0.001, if numbers are ordered.
      pub routes-IsRoute :
          (routes : List (Route N))
          → traverse_graph_iterative N F f s t ≡ ok (some routes)
          → All IsRoute routes
      unfolding traverse_graph_iterative
      routes-IsRoute routes h =
          traverse_from-IsRoute (rounds N F) [] (record { path = s ∷ []; sr = one_num N } ∷ [])
            routes tt (record { starts = refl; simple = (refl, tt); carries = tt }, tt) h

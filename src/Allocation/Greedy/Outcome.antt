-- ===== src/Allocation/Greedy/Outcome.antt =====
-- What the greedy allocation admits, and what it leaves on the links.
use mathlib.Core.Path.{subst}
use cpsc_of_testbed.Base.{
  ok_injective, ap, ◌≡◌, refl, sym, ◌∙◌, List, [], ◌∷◌, ◌++◌, map, Bool, true, false, ok, arith,
  if◌then◌else◌, >>=-eq-ok, pair_eq, Bool-cases, inl, inr, length,
}
use mathlib.Core.List.{append-nil, append_assoc}
use cpsc_of_testbed.Base.Dict.{AllValues-insert}
use cpsc_of_testbed.Base.Numbers.{Number, Le, zero_num}
use cpsc_of_testbed.Allocation.Flow.{Flow}
use cpsc_of_testbed.Allocation.Greedy.{
  Link, Utilization, link_capacity, no_utilization, place_links, place_paths, Request, Allocation,
  admitted, share_of, greedy_from, compute_greedy_flow_allocations, sorted_link,
}
use cpsc_of_testbed.Allocation.Greedy.Placing.{
  IsWithin, add_rate, Fits, Placed, place_links-Placed, place_links-IsWithin, all_links,
  place_paths-flat,
}

module _ (N : Number) where
  open N use {Num, plus, gt, divide}

  -- The rate that each path of a request takes.
  abbrev pub path_rate : Request N → Num
  path_rate r = divide r.flow_tx_rate (length r.connecting_paths)

  -- All links of all paths of the requests take the rates.
  abbrev pub charge_all : Utilization N → List (Request N) → Utilization N
  charge_all d [] = d
  charge_all d (r ∷ requests) =
      charge_all (add_rate N (path_rate r) d (all_links N r.connecting_paths)) requests

  -- Each request in turn fits: every link of its paths has room for its rate.
  abbrev pub AllFit : Utilization N → List (Request N) → Type 0
  AllFit d [] = Unit
  AllFit d (r ∷ requests) =
      Fits N (path_rate r) d (all_links N r.connecting_paths)
      × AllFit (add_rate N (path_rate r) d (all_links N r.connecting_paths)) requests

  -- The first request that does not fit ends the loop. The links before the full one have taken its
  -- rate all the same.
  abbrev pub Rejected : Utilization N → Utilization N → List (Request N) → Type 0
  Rejected d d' [] = ⊥
  Rejected d d' (r ∷ more) = Placed N (path_rate r) d (all_links N r.connecting_paths) true d'

  pub record Outcome (flows : List (Flow N)) (d : Utilization N) (requests : List (Request N))
      (a : Allocation N) : Type 0 where
    pub done : List (Request N)
    pub left : List (Request N)
    pub split : requests ≡ done ++ left
    pub flows_added : a.flows ≡ flows ++ map (admitted N) done
    pub all_fit : AllFit d done
    pub rejected : a.stopped ≡ true → Rejected (charge_all d done) a.link_utilization left
    pub all_done : a.stopped ≡ false → (left ≡ []) × (a.link_utilization ≡ charge_all d done)

  share_of-path_rate : (r : Request N) (s : Num) → share_of N r ≡ ok s → s ≡ path_rate r
  share_of-path_rate r s h = ground arith

  placing_links :
      (r : Request N) (s : Num) (d : Utilization N) (full : Bool) (d' : Utilization N)
      → share_of N r ≡ ok s
      → place_paths N s d r.connecting_paths ≡ ok (full, d')
      → place_links N (path_rate r) d (all_links N r.connecting_paths) ≡ ok (full, d')
  placing_links r s d full d' shared h =
      subst (λ t. place_links N t d (all_links N r.connecting_paths) ≡ ok (full, d'))
        (share_of-path_rate r s shared) (sym (place_paths-flat N s r.connecting_paths d) ∙ h)

  Placed-all :
      (rate : Num) (d : Utilization N) (ls : List Link) (d' : Utilization N)
      → Placed N rate d ls false d'
      → d' ≡ add_rate N rate d ls
  Placed-all rate d ls d' p =
      let whole : ls ≡ p.placed =
        p.split ∙ ap (λ t. p.placed ++ t) (p.finishes refl) ∙ append-nil _ in
      p.charged ∙ ap (add_rate N rate d) (sym whole)

  Placed-Fits :
      (rate : Num) (d : Utilization N) (ls : List Link) (d' : Utilization N)
      → Placed N rate d ls false d'
      → Fits N rate d ls
  Placed-Fits rate d ls d' p =
      let whole : ls ≡ p.placed =
        p.split ∙ ap (λ t. p.placed ++ t) (p.finishes refl) ∙ append-nil _ in
      subst (Fits N rate d) (sym whole) p.fits

  no_requests-Outcome :
      (flows : List (Flow N)) (d : Utilization N)
      → Outcome flows d [] (record { flows = flows; link_utilization = d; stopped = false })
  no_requests-Outcome flows d = record {
    done = [];
    left = [];
    split = refl;
    flows_added = sym (append-nil flows);
    all_fit = tt;
    rejected = λ e. absurd (ground arith);
    all_done = λ _. (refl, refl);
  }

  full-Outcome :
      (flows : List (Flow N)) (d : Utilization N) (r : Request N) (requests : List (Request N))
      (d' : Utilization N)
      → Placed N (path_rate r) d (all_links N r.connecting_paths) true d'
      → Outcome flows d
          (r ∷ requests)
          (record { flows = flows; link_utilization = d'; stopped = true })
  full-Outcome flows d r requests d' p = record {
    done = [];
    left = r ∷ requests;
    split = refl;
    flows_added = sym (append-nil flows);
    all_fit = tt;
    rejected = λ _. p;
    all_done = λ e. absurd (ground arith);
  }

  next-Outcome :
      (flows : List (Flow N)) (d : Utilization N) (r : Request N) (requests : List (Request N))
      (d' : Utilization N) (a : Allocation N)
      → d' ≡ add_rate N (path_rate r) d (all_links N r.connecting_paths)
      → Fits N (path_rate r) d (all_links N r.connecting_paths)
      → Outcome (flows ++ admitted N r ∷ []) d' requests a
      → Outcome flows d (r ∷ requests) a
  next-Outcome flows d r requests d' a charged room o =
      let moved = ap (λ u. charge_all u o.done) charged in
      record {
        done = r ∷ o.done;
        left = o.left;
        split = ap (λ t. r ∷ t) o.split;
        flows_added = o.flows_added ∙ simp append_assoc;
        all_fit = (room, subst (λ u. AllFit u o.done) charged o.all_fit);
        rejected = λ e. subst (λ u. Rejected u a.link_utilization o.left) moved (o.rejected e);
        all_done = λ e. let (none_left, last) = o.all_done e in (none_left, last ∙ moved);
      }

  round-Outcome :
      (flows : List (Flow N)) (d : Utilization N) (r : Request N) (requests : List (Request N))
      (a : Allocation N) (full : Bool) (d' : Utilization N)
      → Placed N (path_rate r) d (all_links N r.connecting_paths) full d'
      → (greedy_from N (flows ++ admitted N r ∷ []) d' requests ≡ ok a
          → Outcome (flows ++ admitted N r ∷ []) d' requests a)
      → (if full
          then ok (record { flows = flows; link_utilization = d'; stopped = true })
          else greedy_from N (flows ++ admitted N r ∷ []) d' requests)
        ≡ ok a
      → Outcome flows d (r ∷ requests) a
  round-Outcome flows d r requests a true d' p rest h =
      subst (Outcome flows d (r ∷ requests)) (ok_injective h) (full-Outcome flows d r requests d' p)
  round-Outcome flows d r requests a false d' p rest h =
      next-Outcome flows d r requests d' a
        (Placed-all (path_rate r) d (all_links N r.connecting_paths) d' p)
        (Placed-Fits (path_rate r) d (all_links N r.connecting_paths) d' p) (rest h)

  greedy_from-Outcome :
      (flows : List (Flow N)) (d : Utilization N) (requests : List (Request N)) (a : Allocation N)
      → greedy_from N flows d requests ≡ ok a
      → Outcome flows d requests a
  unfolding greedy_from
  greedy_from-Outcome flows d [] a h =
      subst (Outcome flows d []) (ok_injective h) (no_requests-Outcome flows d)
  greedy_from-Outcome flows d (r ∷ requests) a h =
      let (share, shared, h1) = >>=-eq-ok (share_of N r) _ h in
      let ((full, d'), placing, h2) = >>=-eq-ok (place_paths N share d r.connecting_paths) _ h1 in
      let links = placing_links r share d full d' shared placing in
      let p = place_links-Placed N (path_rate r) d (all_links N r.connecting_paths) full d' links in
      round-Outcome flows d r requests a full d' p
        (λ e. greedy_from-Outcome (flows ++ admitted N r ∷ []) d' requests a e) h2

  greedy_from-IsWithin :
      (flows : List (Flow N)) (d : Utilization N) (requests : List (Request N)) (a : Allocation N)
      → IsWithin N d
      → greedy_from N flows d requests ≡ ok a
      → IsWithin N a.link_utilization
  unfolding greedy_from
  greedy_from-IsWithin flows d [] a w h =
      let same : d ≡ a.link_utilization = ground arith in subst (IsWithin N) same w
  greedy_from-IsWithin flows d (r ∷ requests) a w h =
      let (share, shared, h1) = >>=-eq-ok (share_of N r) _ h in
      let ((full, d'), placing, h2) = >>=-eq-ok (place_paths N share d r.connecting_paths) _ h1 in
      let links = placing_links r share d full d' shared placing in
      let w' =
        place_links-IsWithin N (path_rate r) d (all_links N r.connecting_paths) full d' w links in
      elim (Bool-cases full) [
        | inl stop ↦ let same : d' ≡ a.link_utilization = ground arith in subst (IsWithin N) same w'
        | inr go ↦ greedy_from-IsWithin (flows ++ admitted N r ∷ []) d' requests a w' (ground arith)
      ]

  no_utilization-IsWithin :
      (edges : List Link)
      → Le N (zero_num N) (link_capacity N)
      → IsWithin N (no_utilization N edges)
  unfolding no_utilization
  no_utilization-IsWithin [] h = tt
  no_utilization-IsWithin (l ∷ edges) h =
      AllValues-insert (λ used. Le N used (link_capacity N)) (sorted_link l) (zero_num N)
        (no_utilization N edges) h (no_utilization-IsWithin edges h)

  -- Where 0 is not above the capacity, no link is ever used above its capacity, whatever the
  -- requests are.
  pub greedy-IsWithin :
      (edges : List Link) (requests : List (Request N)) (a : Allocation N)
      → Le N (zero_num N) (link_capacity N)
      → compute_greedy_flow_allocations N edges requests ≡ ok a
      → IsWithin N a.link_utilization
  unfolding compute_greedy_flow_allocations
  greedy-IsWithin edges requests a h e =
      greedy_from-IsWithin [] (no_utilization N edges) requests a (no_utilization-IsWithin edges h)
        e

  -- The flows admitted are those of the requests before the first that does not fit: with each of
  -- them, in their order, every link of its paths has room for its rate, and each link carries what
  -- they put on it. The request that does not fit is not admitted, but the links of its
  -- paths before the first full one have taken its rate and keep it.
  pub greedy-Outcome :
      (edges : List Link) (requests : List (Request N)) (a : Allocation N)
      → compute_greedy_flow_allocations N edges requests ≡ ok a
      → Outcome [] (no_utilization N edges) requests a
  unfolding compute_greedy_flow_allocations
  greedy-Outcome edges requests a e = greedy_from-Outcome [] (no_utilization N edges) requests a e

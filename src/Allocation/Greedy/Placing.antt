-- ===== src/Allocation/Greedy/Placing.antt =====
-- Placing one request: which links take its rate, and that none goes over its capacity.
use mathlib.Core.Path.{subst}
use cpsc_of_testbed.Base.{
  Option-cases, ap, ℕ, ◌≡◌, refl, sym, ◌∙◌, List, [], ◌∷◌, ◌++◌, Bool, true, false, some, none, ok,
  key_error, arith, or_raise, ◌>>=◌, if◌then◌else◌, >>=-eq-ok, or_raise-eq-ok, pair_eq, Bool-cases,
  inl, inr,
}
use cpsc_of_testbed.Base.Dict.{lookup, insert, AllValues, AllValues-insert}
use cpsc_of_testbed.Base.Numbers.{Number, Le}
use cpsc_of_testbed.Allocation.Greedy.{
  Link, links_of, Utilization, link_capacity, place_links, place_paths,
}

module _ (N : Number) where
  open N use {Num, plus, gt, divide}

  -- No link carries more than its capacity.
  abbrev pub IsWithin : Utilization N → Type 0
  IsWithin = AllValues (λ used. Le N used (link_capacity N))

  -- The rate is added to each of the links, where there is an entry.
  abbrev pub add_rate : Num → Utilization N → List Link → Utilization N
  add_rate rate d [] = d
  add_rate rate d (l ∷ ls) = elim (lookup l d) [
    | none ↦ d
    | some used ↦ add_rate rate (insert l (plus used rate) d) ls
  ]

  -- How far the placing came: the first links took the rate; if it stopped, the next link would be
  -- over its capacity with it, and that link and those after it took nothing.
  abbrev pub Stops : Num → Utilization N → List Link → Type 0
  Stops rate d [] = ⊥
  Stops rate d (l ∷ more) =
      (used : Num) × (lookup l d ≡ some used) × (gt (plus used rate) (link_capacity N) ≡ true)

  -- Each link in turn has room for the rate, and takes it.
  abbrev pub Fits : Num → Utilization N → List Link → Type 0
  Fits rate d [] = Unit
  Fits rate d (l ∷ ls) =
      (used : Num) × (lookup l d ≡ some used)
      × (gt (plus used rate) (link_capacity N) ≡ false)
      × Fits rate (insert l (plus used rate) d) ls

  pub record Placed (rate : Num) (d : Utilization N) (ls : List Link) (full : Bool)
      (d' : Utilization N) : Type 0 where
    pub placed : List Link
    pub rest : List Link
    pub split : ls ≡ placed ++ rest
    pub charged : d' ≡ add_rate rate d placed
    pub fits : Fits rate d placed
    pub stops : full ≡ true → Stops rate d' rest
    pub finishes : full ≡ false → rest ≡ []

  pub place_links-Placed :
      (rate : Num) (d : Utilization N) (ls : List Link) (full : Bool) (d' : Utilization N)
      → place_links N rate d ls ≡ ok (full, d')
      → Placed rate d ls full d'
  unfolding place_links
  place_links-Placed rate d [] full d' h = record {
    placed = [];
    rest = [];
    split = refl;
    charged = ground arith;
    fits = tt;
    stops = λ e. absurd (ground arith);
    finishes = λ _. refl;
  }
  place_links-Placed rate d (l ∷ ls) full d' h =
      let (used, looked, h1) = >>=-eq-ok (or_raise (lookup l d) key_error) _ h in
      let found = or_raise-eq-ok (lookup l d) key_error looked in
      elim (Bool-cases (gt (plus used rate) (link_capacity N))) [
        | inl over ↦
            let same : d ≡ d' = ground arith in
            record {
              placed = [];
              rest = l ∷ ls;
              split = refl;
              charged = sym same;
              fits = tt;
              stops = λ _. (used, subst (λ u. lookup l u ≡ some used) same found, over);
              finishes = λ e. absurd (ground arith);
            }
        | inr room ↦
            let more =
              place_links-Placed rate (insert l (plus used rate) d) ls full d' (ground arith) in
            record {
              placed = l ∷ more.placed;
              rest = more.rest;
              split = ap (λ t. l ∷ t) more.split;
              charged = more.charged ∙ ground (arith, found);
              fits = (used, found, room, more.fits);
              stops = more.stops;
              finishes = more.finishes;
            }
      ]

  pub place_links-IsWithin :
      (rate : Num) (d : Utilization N) (ls : List Link) (full : Bool) (d' : Utilization N)
      → IsWithin d
      → place_links N rate d ls ≡ ok (full, d')
      → IsWithin d'
  unfolding place_links
  place_links-IsWithin rate d [] full d' w h =
      let same : d ≡ d' = ground arith in subst IsWithin same w
  place_links-IsWithin rate d (l ∷ ls) full d' w h =
      let (used, looked, h1) = >>=-eq-ok (or_raise (lookup l d) key_error) _ h in
      elim (Bool-cases (gt (plus used rate) (link_capacity N))) [
        | inl over ↦ let same : d ≡ d' = ground arith in subst IsWithin same w
        | inr fits ↦
            place_links-IsWithin rate (insert l (plus used rate) d) ls full d'
              (AllValues-insert (λ used. Le N used (link_capacity N)) l (plus used rate) d fits w)
              (ground arith)
      ]

  -- The links of all the paths, in the order in which they are visited.
  abbrev pub all_links : List (List ℕ) → List Link
  all_links [] = []
  all_links (p ∷ ps) = links_of p ++ all_links ps

  place_links-append :
      (rate : Num) (d : Utilization N) (xs ys : List Link)
      → place_links N rate d (xs ++ ys) ≡ (
          place_links N rate d xs >>= λ placed.
          if placed.0 then ok (true, placed.1) else place_links N rate placed.1 ys)
  unfolding place_links
  place_links-append rate d [] ys = refl
  place_links-append rate d (x ∷ xs) ys = elim (Option-cases (lookup x d)) [
    | inl missing ↦ ground arith
    | inr (used, found) ↦ elim (Bool-cases (gt (plus used rate) (link_capacity N))) [
      | inl over ↦ rw (found, over)
      | inr fits ↦ rw (found, fits) (place_links-append rate (insert x (plus used rate) d) xs ys)
    ]
  ]

  pub place_paths-flat :
      (rate : Num) (ps : List (List ℕ)) (d : Utilization N)
      → place_paths N rate d ps ≡ place_links N rate d (all_links ps)
  unfolding place_paths place_links
  place_paths-flat rate [] d = refl
  place_paths-flat rate (p ∷ ps) d =
      (λ i. place_links N rate d (links_of p) >>= λ placed.
      if placed.0 then ok (true, placed.1) else place_paths-flat rate ps placed.1 i)
      ∙ sym (place_links-append rate d (links_of p) (all_links ps))

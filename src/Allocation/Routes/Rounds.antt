-- ===== src/Allocation/Routes/Rounds.antt =====
-- The traversal always ends within its fuel: the paths on the list weigh less in every round.
use native.Mathlib.Nat.{one-le-pow, pow-suc, mul-le-mul_right, suc-mul}
use cpsc_of_testbed.Base.Lists.Distinct.{length-Nodup}
use cpsc_of_testbed.Base.{
  ap, ℕ, zero, suc, ◌+◌, ◌-◌, ◌*◌, ◌^◌, ◌≤◌, ◌≡◌, refl, ◌∙◌, List, [], ◌∷◌, ◌++◌, map, Bool, true,
  false, some, ok, arith, contains, Nodup, All, All-append, In, length, nat_eq, eqb, filter,
  Bool-cases, inl, inr, length-append, length-map,
}
use cpsc_of_testbed.Base.Numbers.{Number, one_num}
use cpsc_of_testbed.Allocation.Routes.{
  Carried, Route, is_outgoing, get_paths_for_flow, extended, visit, traverse_from,
  traverse_graph_iterative, rounds,
}
use cpsc_of_testbed.Allocation.Routes.Paths.{Starts, Starts-append, Nodup-snoc, last-Starts}
use cpsc_of_testbed.Allocation.Routes.Ends.{HasEntry, get_paths-HasEntries, visit-keeps}

length-filter {ℓ} : {A : Type ℓ} (p : A → Bool) (xs : List A) → length (filter p xs) ≤ length xs
length-filter p [] = omega arith
length-filter p (x ∷ xs) = ground (arith, length-filter p xs)

-- One round: a weight of b c + c is replaced by one of at most b c.
smaller_sum :
    (b c rest h new n : ℕ) → new ≤ rest + h * c → h ≤ b → 1 ≤ c → rest + c * suc b ≤ suc n → new ≤ n
smaller_sum b c rest h new n le few positive before = grind (arith, mul-le-mul_right)

same_node : (v w : ℕ) (vs : List ℕ) → v ≡ w → contains v (w ∷ vs) ≡ true
same_node v w vs h = ground arith

trivial : {A : Type 0} (xs : List A) → All (λ _. Unit {0}) xs
trivial [] = tt
trivial (x ∷ xs) = (tt, trivial xs)

module _ (N : Number) where
  open N use {Num, ratio, gt}

  length-get_paths : (F : Carried N) (u f : ℕ) → length (get_paths_for_flow N F u f) ≤ length F
  unfolding get_paths_for_flow
  length-get_paths F u f = omega (
    arith,
    length-map {B = ℕ × Num} (λ (e : (ℕ × (ℕ × ℕ)) × Num). (e.0.1.1, e.1))
        (filter (is_outgoing N f u) F),
    length-filter (is_outgoing N f u) F,
  )

  module _ (F : Carried N) (f s t : ℕ) where
    -- The nodes that a path can have.
    abbrev known : List ℕ
    known = s ∷ map (λ e. e.0.1.1) F

    abbrev IsKnown : ℕ → Type 0
    IsKnown v = contains v known ≡ true

    record IsShort (r : Route N) : Type 0 where
      starts : Starts s r.path
      simple : Nodup r.path
      nodes : All IsKnown r.path

    abbrev weight : Route N → ℕ
    weight r = suc (length F) ^ (suc (suc (length F)) - length r.path)

    abbrev weights : List (Route N) → ℕ
    weights [] = 0
    weights (r ∷ rs) = weight r + weights rs

    weights-append : (rs ss : List (Route N)) → weights (rs ++ ss) ≡ weights rs + weights ss
    weights-append [] ss = omega arith
    weights-append (r ∷ rs) ss = omega (arith, weights-append rs ss)

    length-IsShort : (r : Route N) → IsShort r → length r.path ≤ suc (length F)
    length-IsShort r h = omega (
      arith,
      length-Nodup r.path known h.simple h.nodes,
      length-map (λ (e : (ℕ × (ℕ × ℕ)) × Num). e.0.1.1) F,
    )

    -- What each next hop of a path weighs.
    abbrev part : Route N → ℕ
    part r = suc (length F) ^ (suc (length F) - length r.path)

    one_less :
        (r : Route N)
        → IsShort r
        → suc (suc (length F)) - length r.path ≡ suc (suc (length F) - length r.path)
    one_less r h = omega (arith, length-IsShort r h)

    weight-part : (r : Route N) → IsShort r → weight r ≡ part r * suc (length F)
    weight-part r h =
        ap (λ n. suc (length F) ^ n) (one_less r h)
        ∙ pow-suc (suc (length F)) (suc (length F) - length r.path)

    weight-extended : (r : Route N) (hop : ℕ × Num) → weight (extended N r hop) ≡ part r
    weight-extended r hop =
        ap (λ n. suc (length F) ^ n) (omega (arith, length-append r.path (hop.0 ∷ [])))

    visit-weights :
        (r : Route N) (hops : List (ℕ × Num)) (q : List (Route N) × List (Route N))
        → weights (visit N t r hops q).1 ≤ weights q.1 + length hops * part r
    unfolding visit
    visit-weights r [] q = omega arith
    visit-weights r (hop ∷ hops) q = elim (Bool-cases (contains hop.0 r.path)) [
      | inl e ↦ rw e (omega (arith, visit-weights r hops q, suc-mul (length hops) (part r)))
      | inr e ↦ elim (Bool-cases (eqb hop.0 t)) [
        | inl d ↦
            rw (e, d)
              (omega (
                arith,
                suc-mul (length hops) (part r),
                visit-weights r hops (q.0 ++ extended N r hop ∷ [], q.1),
              ))
        | inr d ↦
            rw (e, d)
              (omega (
                arith,
                suc-mul (length hops) (part r),
                weights-append q.1 (extended N r hop ∷ []),
                weight-extended r hop,
                visit-weights r hops (q.0, q.1 ++ extended N r hop ∷ []),
              ))
      ]
    ]

    extended-IsShort :
        (r : Route N) (hop : ℕ × Num)
        → IsShort r
        → IsKnown hop.0
        → contains hop.0 r.path ≡ false
        → IsShort (extended N r hop)
    extended-IsShort r hop h node new = record {
      starts = Starts-append s r.path (hop.0 ∷ []) h.starts;
      simple = Nodup-snoc hop.0 r.path h.simple new;
      nodes = All-append IsKnown r.path (hop.0 ∷ []) h.nodes (node, tt);
    }

    entry-IsKnown :
        (u v : ℕ) (x : Num) (G : Carried N)
        → In ((f, (u, v)), x) G
        → contains v (map (λ e. e.0.1.1) G) ≡ true
    entry-IsKnown u v x [] m = absurd m
    entry-IsKnown u v x (e ∷ G) (inl same) =
        same_node v e.0.1.1 (map (λ e. e.0.1.1) G) (ap (λ (k : (ℕ × (ℕ × ℕ)) × Num). k.0.1.1) same)
    entry-IsKnown u v x (e ∷ G) (inr m) = ground (arith, entry-IsKnown u v x G m)

    hops-IsKnown :
        (u : ℕ) (hops : List (ℕ × Num))
        → All (HasEntry N F f u) hops
        → All (λ hop. IsKnown hop.0) hops
    hops-IsKnown u [] h = tt
    hops-IsKnown u (hop ∷ hops) h =
        (ground (arith, entry-IsKnown u hop.0 hop.1 F h.0.0), hops-IsKnown u hops h.1)

    part-positive : (r : Route N) → 1 ≤ part r
    part-positive r = one-le-pow (suc (length F) - length r.path) (suc (length F)) (omega arith)

    traverse_from-total :
        (n : ℕ) (found queue : List (Route N))
        → All IsShort queue
        → weights queue ≤ n
        → (routes : List (Route N)) × (traverse_from N F f t n found queue ≡ ok (some routes))
    unfolding traverse_from
    traverse_from-total zero found [] p le = (found, refl)
    traverse_from-total zero found (r ∷ rs) p le = absurd (
        omega (
          arith,
          le,
          one-le-pow (suc (suc (length F)) - length r.path) (suc (length F)) (omega arith),
        ))
    traverse_from-total (suc n) found [] p le = (found, refl)
    traverse_from-total (suc n) found (r ∷ rs) p le =
        let (u, e) = last-Starts N s r.path p.0.starts in
        let hops = get_paths_for_flow N F u f in
        let entries = hops-IsKnown u hops (get_paths-HasEntries N F u f) in
        let q = visit N t r hops (found, rs) in
        let kept =
          visit-keeps N IsShort (λ _. Unit {0}) t r (λ hop. IsKnown hop.0)
            (λ hop. extended-IsShort r hop p.0) (λ hop _ _. tt) hops (found, rs) entries
            (trivial found) p.1 in
        rw e (
          traverse_from-total n q.0 q.1 kept.1 (
            smaller_sum (length F) (part r) (weights rs) (length hops) (weights q.1) n
              (visit-weights r hops (found, rs)) (length-get_paths F u f) (part-positive r)
              (omega (arith, weight-part r p.0, le))))

    start_weight : suc (length F) ^ (suc (suc (length F)) - 1) ≡ suc (length F) ^ suc (length F)
    start_weight = ap (λ n. suc (length F) ^ n) (omega arith)

    -- The traversal always returns its routes: neither does the fuel end first, nor is a path empty.
    pub traverse_graph_iterative-total :
        (routes : List (Route N)) × (traverse_graph_iterative N F f s t ≡ ok (some routes))
    unfolding traverse_graph_iterative
    traverse_graph_iterative-total =
        let start : Route N = record { path = s ∷ []; sr = one_num N } in
        let start_is : IsShort start = record {
          starts = refl;
          simple = (refl, tt);
          nodes = (same_node s s (map (λ e. e.0.1.1) F) refl, tt);
        } in
        traverse_from-total (rounds N F) [] (start ∷ []) (start_is, tt)
          (omega (arith, start_weight))

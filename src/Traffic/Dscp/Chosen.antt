-- ===== src/Traffic/Dscp/Chosen.antt =====
-- Which path is chosen, and what its tag can be.
use cpsc_of_testbed.Base.{
  get_elem?-lt, ℕ, zero, suc, ◌+◌, ◌*◌, ◌<◌, ◌≤◌, List, [], ◌∷◌, ◌≡◌, refl, sym, ap, ◌∙◌, inl, inr,
  true, false, Option, some, ok, index_error, or_raise, or_raise-eq-ok, >>=-eq-ok, ok_injective,
  get_elem?, take, length, Bool-cases, arith,
}
use cpsc_of_testbed.Base.Numbers.{Number, zero_num, sum_from, Le}
use cpsc_of_testbed.Traffic.Dscp.{calc_dscp_val, select_from, select_dscp}

module _ (N : Number) where
  open N use {Num, plus, gt}

  -- The path `i` is the first whose proportion, added to those before it, reaches the number.
  pub record IsFirst (pick start : Num) (proportions : List Num) (i : ℕ) : Type 0 where
    pub within : i < length proportions
    pub reached : Le N pick (sum_from N start (take (suc i) proportions))
    pub not_before : (j : ℕ) → j < i → gt pick (sum_from N start (take (suc j) proportions)) ≡ true

  zero-IsFirst :
      (pick start p : Num) (ps : List Num)
      → gt pick (plus start p) ≡ false
      → IsFirst pick start (p ∷ ps) 0
  zero-IsFirst pick start p ps h = record {
    within = omega arith;
    reached = h;
    not_before = λ j lt. absurd (omega arith);
  }

  suc-IsFirst :
      (pick start p : Num) (ps : List Num) (i : ℕ)
      → gt pick (plus start p) ≡ true
      → IsFirst pick (plus start p) ps i
      → IsFirst pick start (p ∷ ps) (suc i)
  suc-IsFirst pick start p ps i h f = record {
    within = let w = f.within in omega arith;
    reached = f.reached;
    not_before = before;
  }
    where
      before : (j : ℕ) → j < suc i → gt pick (sum_from N start (take (suc j) (p ∷ ps))) ≡ true
      before zero lt = h
      before (suc j) lt = f.not_before j (omega arith)

  select_from_lem :
      (pick start : Num) (tags : Option (List ℕ)) (k : ℕ) (ps : List Num) (v : ℕ)
      → select_from N pick tags start k ps ≡ ok (some v)
      → (i : ℕ) × IsFirst pick start ps i × (calc_dscp_val (k + i) tags ≡ ok v)
  unfolding select_from
  select_from_lem pick start tags k [] v h = cc
  select_from_lem pick start tags k (p ∷ ps) v h = elim (Bool-cases (gt pick (plus start p))) [
    | inl e ↦
        let (i, f, c) = select_from_lem pick (plus start p) tags (suc k) ps v (rw e at h) in
        let shift : k + suc i ≡ suc k + i = omega arith in
        (suc i, suc-IsFirst pick start p ps i e f, ap (λ m. calc_dscp_val m tags) shift ∙ c)
    | inr e ↦
        let (w, c, same) = >>=-eq-ok (calc_dscp_val k tags) (λ w. ok (some w)) (rw e at h) in
        let start_here : k + 0 ≡ k = omega arith in
        (
          0,
          zero-IsFirst pick start p ps e,
          ap (λ m. calc_dscp_val m tags) start_here ∙ c ∙ ap ok (some_of (ok_injective same)),
        )
  ]
    where
      some_of : {a b : ℕ} → some a ≡ some b → a ≡ b
      some_of h = cc

  -- A packet whose choice succeeds gets the tag of the first path whose proportion, added to those
  -- before it, reaches the drawn number; the tag stands in the upper six bits.
  pub select_dscp_lem :
      (pick : Num) (prob_matrix : List Num) (tags : List ℕ) (v : ℕ)
      → select_dscp N pick prob_matrix (some tags) ≡ ok (some v)
      → (i : ℕ) × IsFirst pick (zero_num N) prob_matrix i
        × ((t : ℕ) × (get_elem? tags i ≡ some t) × (v ≡ t * 4))
  unfolding select_dscp calc_dscp_val
  select_dscp_lem pick prob_matrix tags v h =
      let (i, f, c) = select_from_lem pick (zero_num N) (some tags) 0 prob_matrix v h in
      let (t, found, same) =
        >>=-eq-ok (or_raise (get_elem? tags (0 + i)) index_error) (λ (t : ℕ). ok (t * 4)) c in
      let index : i ≡ 0 + i = omega arith in
      (
        i,
        f,
        (
          t,
          ap (get_elem? tags) index ∙ or_raise-eq-ok _ index_error found,
          sym (ok_injective same),
        ),
      )

  select_from-total :
      (pick start : Num) (tags : List ℕ) (k : ℕ) (ps : List Num)
      → 0 < length ps
      → k + length ps ≤ length tags
      → Le N pick (sum_from N start ps)
      → (v : ℕ) × (select_from N pick (some tags) start k ps ≡ ok (some v))
  unfolding select_from calc_dscp_val
  select_from-total pick start tags k [] some_path enough h = absurd (omega arith)
  select_from-total pick start tags k (p ∷ ps) some_path enough h =
      elim (Bool-cases (gt pick (plus start p))) [
        | inr e ↦
            let (t, found) = get_elem?-lt tags k (omega arith) in (t * 4, rw e (rw found refl))
        | inl e ↦
            let (v, r) =
              select_from-total pick (plus start p) tags (suc k) ps (more ps e h) (omega arith) h in
            (v, rw e r)
      ]
    where
      more :
          (ps : List Num)
          → gt pick (plus start p) ≡ true
          → Le N pick (sum_from N (plus start p) ps)
          → 0 < length ps
      more [] e h = absurd (true-ne-false (sym e ∙ h))
        where
          true-ne-false : true ≡ false → ⊥
          true-ne-false e = cc
      more (q ∷ qs) e h = omega arith

  -- A path is always chosen, if there is one, each has a tag, and the drawn number is not above the sum
  -- of the proportions.
  pub select_dscp-total :
      (pick : Num) (prob_matrix : List Num) (tags : List ℕ)
      → 0 < length prob_matrix
      → length prob_matrix ≤ length tags
      → Le N pick (sum_from N (zero_num N) prob_matrix)
      → (v : ℕ) × (select_dscp N pick prob_matrix (some tags) ≡ ok (some v))
  unfolding select_dscp
  select_dscp-total pick prob_matrix tags some_path enough h =
      select_from-total pick (zero_num N) tags 0 prob_matrix some_path (omega arith) h

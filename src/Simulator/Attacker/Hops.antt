-- ===== src/Simulator/Attacker/Hops.antt =====
-- When the attackers hop.
use native.Mathlib.Nat.{div-add-mod}
use cpsc_of_testbed.Base.{
  ℕ, zero, suc, ◌+◌, ◌/◌, ◌%◌, ◌≤◌, ◌≡◌, refl, arith, ◌≢◌, List, some, nat_eq, eqb, Result, ok,
  ◌>>=◌, length, Bool-cases, inl, inr, bit_and_low,
}
use cpsc_of_testbed.Base.Dict.{Dict, lookup}
use cpsc_of_testbed.Simulator.Flow.{Flow}
use cpsc_of_testbed.Simulator.Random.{Random}
use cpsc_of_testbed.Simulator.Attacker.{Attacker, random_node, one_node_per_path, hop_due}
use cpsc_of_testbed.Simulator.Attacker.Selection.{
  hop_to, select_random_node, select_one_node, select_monitored_nodes,
}

div_suc_next : (n p : ℕ) → suc n % suc p ≡ 0 → suc n / suc p ≡ suc (n / suc p)
div_suc_next n p h = grind (arith, div-add-mod n (suc p), div-add-mod (suc n) (suc p))

div_suc_same : (n p : ℕ) → suc n % suc p ≢ 0 → suc n / suc p ≡ n / suc p
div_suc_same n p h = grind (arith, div-add-mod n (suc p), div-add-mod (suc n) (suc p))

hop_count_suc :
    (before next last t n p : ℕ)
    → (suc t % suc p ≡ 0 → next ≡ suc before)
    → (suc t % suc p ≢ 0 → next ≡ before)
    → last + suc t / suc p ≡ next + (suc t + n) / suc p
    → last + t / suc p ≡ before + (t + suc n) / suc p
hop_count_suc before next last t n p due not_due later =
    let shift : suc t + n ≡ t + suc n = omega arith in
    let total : last + suc t / suc p ≡ next + (t + suc n) / suc p = rw shift at later in
    elim (Bool-cases (eqb (suc t % suc p) 0)) [
      | inl e ↦ omega (arith, div_suc_next t p (ground arith), due (ground arith))
      | inr e ↦ omega (arith, div_suc_same t p (ground arith), not_due (ground arith))
    ]

module _ (r : Random) (nodes : List ℕ) (flows : Dict ℕ Flow) where
  -- `select_monitored_nodes` at each of the times `start`, `start + 1`, …, `n` times.
  pub select_times : ℕ → Attacker → ℕ → ℕ → Result (Attacker × ℕ)
  select_times zero a start draw = ok (a, draw)
  select_times (suc n) a start draw = select_monitored_nodes r a nodes flows start draw >>= λ next.
      select_times n next.0 (suc start) next.1

  -- A random node hopping attacker that knows its candidates.
  pub record IsReady (a : Attacker) (candidates : List ℕ) (p : ℕ) : Type 0 where
    pub class : a.class ≡ random_node
    pub known : a.node_collection ≡ some candidates
    pub enough : a.k ≤ length candidates
    pub period : a.hop_period ≡ suc p

  select-IsReady :
      (a : Attacker) (c : List ℕ) (p time draw : ℕ)
      → IsReady a c p
      → (a' : Attacker) × (draw' : ℕ) × (select_monitored_nodes r a nodes flows time draw
          ≡ ok (a', draw'))
        × IsReady a' c p
        × ((time % suc p ≡ 0 → a'.hop_count ≡ suc a.hop_count)
            × (time % suc p ≢ 0 → a'.hop_count ≡ a.hop_count))
  unfolding select_monitored_nodes select_random_node hop_due
  select-IsReady a c p time draw h = elim (Bool-cases (eqb (time % suc p) 0)) [
    | inl due ↦ (
      hop_to (record a { node_collection = some c }) (r.choice draw c a.k),
      suc draw,
      ground arith,
      record { class = h.class; known = refl; enough = h.enough; period = h.period },
      (λ _. refl, λ odd. absurd (ground arith)),
    )
    | inr not_due ↦ (
      record a { node_collection = some c },
      draw,
      ground arith,
      record { class = h.class; known = refl; enough = h.enough; period = h.period },
      (λ even. absurd (ground arith), λ _. refl),
    )
  ]

  -- An attacker that chooses nodes at random, with candidates that it knows already and no fewer of
  -- them than it chooses, and a hop period that is not 0: called at the times t + 1, …, t + n it never
  -- raises, and it hops once for each of those times that the hop period divides.
  pub select_times_hops :
      (n : ℕ) (a : Attacker) (c : List ℕ) (p t draw : ℕ)
      → IsReady a c p
      → (a' : Attacker) × (draw' : ℕ) × (select_times n a (suc t) draw ≡ ok (a', draw'))
        × (a'.hop_count + t / suc p ≡ a.hop_count + (t + n) / suc p)
  unfolding select_times
  select_times_hops zero a c p t draw h = (a, draw, refl, ground arith)
  select_times_hops (suc n) a c p t draw h =
      let (b, next, first, ready, counted) = select-IsReady a c p (suc t) draw h in
      let (a', draw', rest, total) = select_times_hops n b c p (suc t) next ready in
      (
        a',
        draw',
        rw first rest,
        hop_count_suc a.hop_count b.hop_count a'.hop_count t n p counted.0 counted.1 total,
      )

-- The test of `OneNodePerPathAttacker` is `&`, not `%`: with a hop period of 1, which divides every
-- time, it chooses no nodes at an odd time.
pub one_node_misses_odd_times :
    (r : Random) (a : Attacker) (nodes : List ℕ) (flows : Dict ℕ Flow) (f : Flow)
    (paths : List (List ℕ)) (time draw : ℕ)
    → a.class ≡ one_node_per_path
    → a.hop_period ≡ 1
    → a.path_collection ≡ some paths
    → lookup 0 flows ≡ some f
    → time % 2 ≡ 1
    → select_monitored_nodes r a nodes flows time draw ≡ ok (a, draw)
unfolding select_monitored_nodes select_one_node
one_node_misses_odd_times r a nodes flows f paths time draw class period known target odd =
    ground (arith, bit_and_low time)

-- ===== src/Traffic/Rates/Cycle.antt =====
-- Given rates are used one after the other, and then from the start again.
use cpsc_of_testbed.Base.{
  get_elem?-lt, ℕ, zero, suc, ◌+◌, ◌%◌, ◌<◌, List, ◌≡◌, refl, ap, ◌∙◌, some, Result, ok, ◌>>=◌,
  length, get_elem?, arith,
}
use native.Mathlib.Nat.{mod-add-mod, mod-lt}
use cpsc_of_testbed.Base.Numbers.{Number}
use cpsc_of_testbed.Traffic.Rates.{PrecomputedTapDistribution, next_rate}

module _ (N : Number) where
  open N use {Num}

  -- The distribution after a number of calls of `__next__`.
  abbrev pub after_calls : ℕ → PrecomputedTapDistribution N → Result (PrecomputedTapDistribution N)
  after_calls zero d = ok d
  after_calls (suc n) d = next_rate d >>= λ r. after_calls n r.1

  abbrev at_index : List Num → ℕ → PrecomputedTapDistribution N
  at_index rates i = record { rates_list = rates; rate_idx = i }

  after_calls_lem :
      (n : ℕ) (rates : List Num) (i : ℕ)
      → i < length rates
      → after_calls n (at_index rates i) ≡ ok (at_index rates ((i + n) % length rates))
  unfolding next_rate
  after_calls_lem zero rates i h = ap (λ j. ok (at_index rates j)) (grind arith)
  after_calls_lem (suc n) rates i h =
      let (r, found) = get_elem?-lt rates i h in
      rw found (
        after_calls_lem n rates ((i + 1) % length rates) (grind arith)
        ∙ ap (λ j. ok (at_index rates j))
            (mod-add-mod (i + 1) (length rates) n ∙ ap (λ k. k % length rates) (omega arith)))

  -- Unless there are no rates, the calls return them in turn: the call after `n` others returns the
  -- rate at `n` modulo their number. None of them raises.
  pub next_rate-cycles :
      (n : ℕ) (rates : List Num)
      → 0 < length rates
      → (r : Num) × (get_elem? rates (n % length rates) ≡ some r)
        × ((do
          d ← after_calls n (record { rates_list = rates; rate_idx = 0 })
          called ← next_rate d
          ok called.0)
            ≡ ok r)
  unfolding next_rate
  next_rate-cycles n rates h =
      let (r, found) = get_elem?-lt rates (n % length rates) (mod-lt n h) in
      let zero_plus : (0 + n) % length rates ≡ n % length rates =
        ap (λ k. k % length rates) (omega arith) in
      (r, found, rw (after_calls_lem n rates 0 h) (rw zero_plus (rw found refl)))

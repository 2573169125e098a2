-- ===== src/Traffic/Rates.antt =====
-- The transmission rates of traffic_generation/traffic_gen.py. What scipy draws from is described by
-- its parameters, and a draw is an argument; division and roots of floats are parameters as well.
-- `create_distribution` and the list of given rates are also in rest_client/traffic_analysis/
-- (heterogeneous_links.py, core_taps.py).
pub mod Cycle
use cpsc_of_testbed.Base.{
  ℕ, ◌+◌, ◌%◌, List, [], ◌∷◌, Bool, true, false, Option, none, some, Result, ok, raise, value_error,
  index_error, attribute_error, type_error, ◌>>=◌, or_raise, length, get_elem?, if◌then◌else◌,
}
use cpsc_of_testbed.Base.Numbers.{Number, zero_num}
use cpsc_of_testbed.Traffic.Models.{
  TrafficModels, uniform, trunc_norm, random_sampling, trunc_norm_symmetric, gamma, precomputed,
  FlowParameters,
}

-- `BURST_COUNT`
abbrev pub burst_count : ℕ
burst_count = 10

module _ (N : Number) where
  open N use {Num}

  -- Division of floats raises ZeroDivisionError.
  pub record Division : Type 0 where
    pub quotient : Num → Num → Result Num
    pub sqrt : Num → Num

  pub record PrecomputedTapDistribution : Type 0 where
    pub rates_list : List Num
    pub rate_idx : ℕ

  -- `truncnorm(a, b, loc, scale)`, `uniform(loc, scale)`, `gamma(a, scale)`
  pub data Distribution : Type 0 where
    truncated_normal : Num → Num → Num → Num → Distribution
    uniform_between : Num → Num → Distribution
    gamma_shaped : Num → Num → Distribution
    given_rates : PrecomputedTapDistribution → Distribution

module _ {N : Number} where
  open N use {Num, ratio, plus, minus, times}

  -- `__next__`
  unfoldable pub next_rate :
      PrecomputedTapDistribution N → Result (Num × PrecomputedTapDistribution N)
  next_rate d = do
    rate_to_return ← or_raise (get_elem? d.rates_list d.rate_idx) index_error
    ok (rate_to_return, record d { rate_idx = (d.rate_idx + 1) % length d.rates_list })

  unfoldable pub uniform_paramaters : Division N → Num → Num → Result (Num × Num)
  uniform_paramaters D mu sigma2 = do
    b ← D.quotient (plus (D.sqrt (times (ratio 12 1) sigma2)) (times (ratio 2 1) mu)) (ratio 2 1)
    ok (minus (times (ratio 2 1) mu) b, b)

  -- The normal distribution between two bounds.
  abbrev pub truncated : Division N → Num → Num → Num → Num → Result (Distribution N)
  truncated D min_dist_val max_dist_val mu sigma = do
    a ← D.quotient (minus min_dist_val mu) sigma
    b ← D.quotient (minus max_dist_val mu) sigma
    ok (truncated_normal a b mu sigma)

  unfoldable pub create_distribution :
      Division N → Num → Num → TrafficModels → Option (List Num) → Result (Distribution N)
  unfolding uniform_paramaters
  create_distribution D mu sigma trunc_norm rates =
      truncated D (zero_num N) (ratio 4294967295 1) mu sigma
  create_distribution D mu sigma random_sampling rates =
      truncated D (zero_num N) (ratio 4294967295 1) mu sigma
  create_distribution D mu sigma trunc_norm_symmetric rates =
      truncated D (zero_num N) (times mu (ratio 2 1)) mu sigma
  create_distribution D mu sigma uniform rates = do
    bounds ← uniform_paramaters D mu sigma
    ok (uniform_between bounds.0 (minus bounds.1 bounds.0))
  create_distribution D mu sigma gamma rates = do
    theta ← D.quotient sigma mu
    a ← D.quotient sigma (times theta theta)
    ok (gamma_shaped a theta)
  create_distribution D mu sigma precomputed none = raise value_error
  create_distribution D mu sigma precomputed (some rates) =
      ok (given_rates (record { rates_list = rates; rate_idx = 0 }))

  -- `distr.rvs()`: a number that scipy draws; a list of given rates has no such method.
  unfoldable pub sample_distr : (Distribution N → Num) → Distribution N → Result Num
  sample_distr rvs (given_rates d) = raise attribute_error
  sample_distr rvs d = ok (rvs d)

  -- `next(distr)`, of the given rates.
  unfoldable pub next_of : Distribution N → Result (Num × Distribution N)
  unfolding next_rate
  next_of (given_rates d) = do r ← next_rate d; ok (r.0, given_rates r.1)
  next_of d = raise type_error

  -- The rate, and the distribution afterwards; `heads` is `random.choice([0, 1]) == 0`.
  unfoldable pub select_tx_rate :
      (Distribution N → Num)
      → Bool
      → FlowParameters N
      → Num
      → Distribution N
      → Result (Num × Distribution N)
  unfolding sample_distr next_of
  select_tx_rate rvs heads args old_rate distr = elim args.traffic_model [
    | uniform ↦ sample_distr rvs distr >>= λ r. ok (r, distr)
    | trunc_norm ↦ sample_distr rvs distr >>= λ r. ok (r, distr)
    | random_sampling ↦
        (if heads then (sample_distr rvs distr >>= λ r. ok (r, distr)) else ok (old_rate, distr))
    | trunc_norm_symmetric ↦ sample_distr rvs distr >>= λ r. ok (r, distr)
    | gamma ↦ sample_distr rvs distr >>= λ r. ok (r, distr)
    | precomputed ↦ next_of distr
  ]

  unfoldable pub compute_inter_pkt_delay : Division N → ℕ → Num → Num → Result Num
  compute_inter_pkt_delay D pkt_len tx_rate time_slice_duration =
      if N.same tx_rate (zero_num N)
      then ok time_slice_duration
      else (D.quotient (ratio pkt_len 1) tx_rate >>= λ t. ok (times t (ratio burst_count 1)))

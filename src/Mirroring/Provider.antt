-- ===== src/Mirroring/Provider.antt =====
-- `TrialProvider` of rest_client/port_mirroring/trial_provider.py: trials of either kind, each of which
-- is visited once for each of its types of solution.
pub mod Visits
use cpsc_of_testbed.Base.{ℕ, List, [], ◌∷◌, ◌++◌, map, Result, ok, raise, ◌>>=◌, map_result}
use cpsc_of_testbed.Base.Numbers.{Number}
use cpsc_of_testbed.Base.Text.{Text}
use cpsc_of_testbed.Mirroring.Trial
use cpsc_of_testbed.Mirroring.Trial.{PortMirroringTrial}
use cpsc_of_testbed.Mirroring.FlowTrial
use cpsc_of_testbed.Mirroring.FlowTrial.{FlowMirroringTrial}

module _ (N : Number) where
  pub data AnyTrial : Type 0 where
    port_trial : PortMirroringTrial N ℕ ℕ → AnyTrial
    flow_trial : FlowMirroringTrial N → AnyTrial

  pub record TrialProvider : Type 0 where
    pub provider_name : Text
    pub trials : List AnyTrial

module _ {N : Number} where
  unfoldable pub set_trial_type : AnyTrial N → Text → Result (AnyTrial N)
  set_trial_type (port_trial t) type = do u ← Trial.set_solution_type t type; ok (port_trial u)
  set_trial_type (flow_trial t) type = do u ← FlowTrial.set_solution_type t type; ok (flow_trial u)

  unfoldable pub types_of : AnyTrial N → List Text
  types_of (port_trial t) = t.solution_types
  types_of (flow_trial t) = FlowTrial.get_solution_types t

  unfoldable pub create_provider : Text → TrialProvider N
  create_provider provider_name = record { provider_name = provider_name; trials = [] }

  unfoldable pub add_trial : TrialProvider N → AnyTrial N → TrialProvider N
  add_trial p t = record p { trials = p.trials ++ t ∷ [] }

  unfoldable pub set_solution_type : TrialProvider N → Text → Result (TrialProvider N)
  unfolding set_trial_type
  set_solution_type p type = do
    trials ← map_result (λ t. set_trial_type t type) p.trials
    ok (record p { trials = trials })

  -- A trial as it is at each of its visits, and as it is afterwards.
  unfoldable pub visit : AnyTrial N → List Text → Result (List (AnyTrial N) × AnyTrial N)
  unfolding set_trial_type
  visit t [] = ok ([], t)
  visit t (type ∷ types) = do
    u ← set_trial_type t type
    rest ← visit u types
    ok (u ∷ rest.0, rest.1)

  -- `__iter__`, to its end, where the trials are not changed between the visits: the visits, and the
  -- trials afterwards.
  unfoldable pub visit_all : List (AnyTrial N) → Result (List (AnyTrial N) × List (AnyTrial N))
  unfolding visit types_of
  visit_all [] = ok ([], [])
  visit_all (t ∷ ts) = do
    one ← visit t (types_of t)
    rest ← visit_all ts
    ok (one.0 ++ rest.0, one.1 ∷ rest.1)

  unfoldable pub iterate : TrialProvider N → Result (List (AnyTrial N) × TrialProvider N)
  unfolding visit_all
  iterate p = do r ← visit_all p.trials; ok (r.0, record p { trials = r.1 })

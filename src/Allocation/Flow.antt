-- ===== src/Allocation/Flow.antt =====
-- `Flow` and `FlowSet` of rest_client/path_hopping/flow_allocation.py, which
-- rest_client/nw_control/trial_provider.py has once more.
use cpsc_of_testbed.Base.{ℕ, List, [], ◌∷◌, ◌++◌, Option}
use cpsc_of_testbed.Base.Numbers.{Number}

module _ (N : Number) where
  open N use {Num}

  -- `none` is None.
  pub record Flow : Type 0 where
    pub source_node : ℕ
    pub destination_node : ℕ
    pub flow_tx_rate : Num
    pub paths : Option (List (List ℕ))
    pub splitting_ratio : Option (List Num)

  pub record FlowSet : Type 0 where
    pub flows : List Flow

  abbrev pub empty : FlowSet
  empty = record { flows = [] }

  unfoldable pub add_flow : FlowSet → Flow → FlowSet
  add_flow s f = record { flows = s.flows ++ f ∷ [] }

  unfoldable pub add_flows : FlowSet → List Flow → FlowSet
  add_flows s fs = record { flows = s.flows ++ fs }

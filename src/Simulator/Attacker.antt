-- ===== src/Simulator/Attacker.antt =====
-- The attackers of rest_client/path_hopping_simulator/attackers.py: the base class and its
-- subclasses as one record with the class as a field. Sets are kept in the order of insertion.
-- `PlannedAttacker` keeps the simulation's own flow dictionary, which is the one passed here.
pub mod Selection
pub mod Captured
pub mod Hops
use Prim.Native.Nat.{bit_and}
use cpsc_of_testbed.Base.{
  ℕ, zero, suc, ◌+◌, ◌%◌, List, [], ◌∷◌, ◌++◌, map, Option, none, some, Bool, true, false, not,
  ◌&&◌, ◌||◌, eqb, leb, nat_eq, length, filter, contains, add_all, enumerate, get_elem?, Result, ok,
  raise, key_error, value_error, index_error, type_error, stop_iteration, zero_division, ◌>>=◌,
  ◌>>◌, or_raise, fold_result, map_result, if◌then◌else◌, range, add,
}
use cpsc_of_testbed.Base.Dict.{Dict, lookup, keys}
use cpsc_of_testbed.Base.Sorting.{sort_by, group_by}
use cpsc_of_testbed.Simulator.Share.{Share}
use cpsc_of_testbed.Simulator.Node.{Node, vulnerable_shares}
use cpsc_of_testbed.Simulator.Flow.{Flow}
use cpsc_of_testbed.Simulator.Random.{Random, sample, sample_one}

-- The subclasses of `Attacker`.
pub data Class : Type 0 where
  random_node random_path ideal_path one_node_per_path fixed planned total : Class

pub record Attacker : Type 0 where
  pub class : Class
  pub monitored_nodes : List ℕ
  pub n : ℕ
  pub k : ℕ
  pub captured_shares : List Share
  pub hop_period : ℕ
  pub hop_count : ℕ
  -- `None` until the first call of `select_monitored_nodes`.
  pub node_collection : Option (List ℕ)
  pub path_collection : Option (List (List ℕ))
  -- Of `PlannedAttacker`.
  pub active_paths : List ℕ
  pub monitored_paths : List ℕ
  pub hop_index : ℕ

-- `Attacker(N, K, hop_period)`, and what the subclasses add.
unfoldable pub make : Class → ℕ → ℕ → ℕ → Attacker
make class n k hop_period = record {
  class = class;
  monitored_nodes = [];
  n = n;
  k = k;
  captured_shares = [];
  hop_period = hop_period;
  hop_count = 0;
  node_collection = none;
  path_collection = none;
  active_paths = [];
  monitored_paths = [];
  hop_index = 1;
}

-- The set of the shares' numbers.
abbrev pub share_nums : List Share → List ℕ
share_nums shares = add_all [] (map (λ s. s.share_num) shares)

-- A message is recovered if its captured shares have K different numbers.
unfoldable pub reconstruct_captured_messages : Attacker → List ℕ
reconstruct_captured_messages a = keys (
    filter (λ e. eqb (length (share_nums e.1)) a.k)
      (group_by (λ s. s.seq_num) (sort_by (λ s. s.seq_num) a.captured_shares)))

-- The position of the first path with the node; `next` of nothing raises StopIteration.
unfoldable pub path_idx_for : ℕ → List (ℕ × List ℕ) → Result ℕ
path_idx_for node_id [] = raise stop_iteration
path_idx_for node_id ((i, p) ∷ paths) =
    if contains node_id p then ok i else path_idx_for node_id paths

-- `PlannedAttacker.capture_shares`
unfoldable pub capture_planned : Dict ℕ Flow → Attacker → Node → Result Attacker
unfolding path_idx_for
capture_planned flows a node = do
  let shares = vulnerable_shares node
  flow ← or_raise (lookup 0 flows) key_error
  path_idx ← path_idx_for node.node_id (enumerate flow.paths)
  ok (record a {
    monitored_paths = add path_idx a.monitored_paths;
    active_paths = (if eqb (length shares) 0 then a.active_paths else add path_idx a.active_paths);
    captured_shares = a.captured_shares ++ shares;
  })

-- `capture_shares`, which `PlannedAttacker` overrides.
unfoldable pub capture_shares : Dict ℕ Flow → Attacker → Node → Result Attacker
capture_shares flows a node = elim a.class [
  | planned ↦ capture_planned flows a node
  | _ ↦ ok (record a { captured_shares = a.captured_shares ++ vulnerable_shares node })
]

-- `self._monitored_nodes` is read once, before the loop.
unfoldable pub monitor : Dict ℕ Flow → Dict ℕ Node → Attacker → Result Attacker
unfolding fold_result
monitor flows nodes a =
    fold_result
      (λ b node_id.
        or_raise (lookup node_id nodes) key_error >>= λ node. capture_shares flows b node)
      a a.monitored_nodes

-- `simulation_time % hop_period == 0`
unfoldable pub hop_due : ℕ → ℕ → Result Bool
hop_due zero time = raise zero_division
hop_due (suc p) time = ok (eqb (time % suc p) 0)

-- `p[1:-1]`
unfoldable pub drop_last : List ℕ → List ℕ
drop_last [] = []
drop_last (x ∷ []) = []
drop_last (x ∷ y ∷ ys) = x ∷ drop_last (y ∷ ys)

unfoldable pub interior : List ℕ → List ℕ
unfolding drop_last
interior [] = []
interior (x ∷ xs) = drop_last xs

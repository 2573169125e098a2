-- ===== src/Traffic/Dscp.antt =====
-- The choice of a path for each packet: `select_dscp` of traffic_generation/traffic_gen.py.
pub mod Chosen
use cpsc_of_testbed.Base.{
  ℕ, zero, suc, ◌*◌, List, [], ◌∷◌, Option, none, some, Result, ok, raise, index_error, type_error,
  or_raise, ◌>>=◌, get_elem?, if◌then◌else◌,
}
use cpsc_of_testbed.Base.Numbers.{Number, zero_num}

-- `tag_values[flow_num] << 2`
unfoldable pub calc_dscp_val : ℕ → Option (List ℕ) → Result ℕ
calc_dscp_val flow_num none = raise type_error
calc_dscp_val flow_num (some tag_values) = do
  tag ← or_raise (get_elem? tag_values flow_num) index_error
  ok (tag * 4)

module _ (N : Number) where
  open N use {Num, plus, gt}

  -- The loop, from the path `flow_num` on; the method returns None at its end.
  unfoldable pub select_from : Num → Option (List ℕ) → Num → ℕ → List Num → Result (Option ℕ)
  unfolding calc_dscp_val
  select_from random_pick tag_values accumulator flow_num [] = ok none
  select_from random_pick tag_values accumulator flow_num (proportion ∷ proportions) =
      let rest =
        select_from random_pick tag_values (plus accumulator proportion) (suc flow_num)
          proportions in
      if gt random_pick (plus accumulator proportion)
      then rest
      else (calc_dscp_val flow_num tag_values >>= λ v. ok (some v))

  -- `random_pick` is drawn between 0 and 1.
  unfoldable pub select_dscp : Num → List Num → Option (List ℕ) → Result (Option ℕ)
  unfolding select_from
  select_dscp random_pick prob_matrix tag_values =
      select_from random_pick tag_values (zero_num N) zero prob_matrix

-- ===== src/Allocation/Tests.antt =====
-- The allocations on a small network, in thousandths.
use cpsc_of_testbed.Base.{ℕ, ◌≡◌, refl, List, [], ◌∷◌, ok, raise, Result, true, some, pair_eq}
use cpsc_of_testbed.Base.Dict.{lookup}
use cpsc_of_testbed.Base.Numbers.{thousandths}
use cpsc_of_testbed.Allocation.Greedy.{
  Link, Request, Allocation, compute_greedy_flow_allocations, sorted_link, no_utilization,
}
use cpsc_of_testbed.Allocation.Greedy.Placing.{IsWithin}
use cpsc_of_testbed.Allocation.Greedy.Outcome.{Outcome, greedy-IsWithin, greedy-Outcome}

-- A square 0-1-3-2-0.
abbrev square : List Link
square = (0, 1) ∷ (3, 1) ∷ (0, 2) ∷ (2, 3) ∷ []

abbrev request : ℕ → List (List ℕ) → Request thousandths
request rate paths = record {
  source_node = 0;
  destination_node = 3;
  flow_tx_rate = rate;
  connecting_paths = paths;
}

abbrev both : List (List ℕ)
both = (0 ∷ 1 ∷ 3 ∷ []) ∷ (0 ∷ 2 ∷ 3 ∷ []) ∷ []

-- The first two fit. The third does not: its first path does, its second does not.
abbrev requests : List (Request thousandths)
requests = request 400 both ∷ request 700 ((0 ∷ 2 ∷ 3 ∷ []) ∷ []) ∷ request 400 both ∷ []

abbrev allocation_of : Result (Allocation thousandths) → Allocation thousandths
allocation_of (ok a) = a
allocation_of (raise e) = record { flows = []; link_utilization = []; stopped = true }

program : Unit {0}
unfolding compute_greedy_flow_allocations sorted_link
program = tt

abbrev result : Allocation thousandths
result = allocation_of (compute_greedy_flow_allocations thousandths square requests)

-- The rejected request has left its 0.2 on the links of its first path.
rejected_rate_stays :
    (lookup (0, 1) result.link_utilization ≡ some 400)
    × (lookup (2, 3) result.link_utilization ≡ some 900)
unfolding program
rejected_rate_stays = (refl, refl)

greedy-IsWithin_example : IsWithin thousandths result.link_utilization
unfolding program
greedy-IsWithin_example = greedy-IsWithin thousandths square requests result refl refl

greedy-Outcome_example : Outcome thousandths [] (no_utilization thousandths square) requests result
unfolding program
greedy-Outcome_example = greedy-Outcome thousandths square requests result refl

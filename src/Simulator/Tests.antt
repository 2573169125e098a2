-- ===== src/Simulator/Tests.antt =====
-- The simulator on a network of two disjoint paths, 0-1-3 and 0-2-3, and the attackers on it.
use cpsc_of_testbed.Base.{
  ℕ, ◌+◌, ◌/◌, ◌≡◌, refl, [], ◌∷◌, none, some, ok, arith, Result, raise, length, fold_result,
  nat_eq, contains, eqb,
}
use cpsc_of_testbed.Base.Dict.{lookup}
use cpsc_of_testbed.Base.Sorting.{sort_by, group_by}
use cpsc_of_testbed.Simulator.Share.{Share, create_shares_for}
use cpsc_of_testbed.Simulator.Node.{receive_share, vulnerable_shares, clear_resident_packets}
use cpsc_of_testbed.Simulator.RunTests.{first_values}
use cpsc_of_testbed.Simulator.Flow
use cpsc_of_testbed.Simulator.Flow.{Flow, get_next_hop_for_share}
use cpsc_of_testbed.Simulator.Flow.Accounting.{IsBalanced}
use cpsc_of_testbed.Simulator.Flow.Delivery
use cpsc_of_testbed.Simulator.Attacker
use cpsc_of_testbed.Simulator.Attacker.{
  Attacker, random_node, one_node_per_path, total, reconstruct_captured_messages, share_nums,
}
use cpsc_of_testbed.Simulator.Attacker.Selection.{select_monitored_nodes, select_total}
use cpsc_of_testbed.Simulator.Attacker.Captured.{reconstruct_lem, shares_of}
use cpsc_of_testbed.Simulator.Attacker.Hops.{
  select_times, select_times_hops, one_node_misses_odd_times,
}
use cpsc_of_testbed.Simulator.World.{World, run, step}
use cpsc_of_testbed.Simulator.World.Run.{AllBalanced, run-AllBalanced}
use cpsc_of_testbed.Simulator.World.Sent.{HasSent, run-HasSent}

abbrev flow : Flow
flow = record {
  flow_id = 0;
  source_node = 0;
  sink_node = 3;
  paths = (0 ∷ 1 ∷ 3 ∷ []) ∷ (0 ∷ 2 ∷ 3 ∷ []) ∷ [];
  active_paths = 0 ∷ 1 ∷ [];
  data_volume = 1;
  n = 2;
  k = 2;
  seq_num = 0;
  shares_received = [];
  messages_tx = 0;
  messages_rx = 0;
}

abbrev everywhere : Attacker
everywhere = record {
  class = total;
  monitored_nodes = 1 ∷ 2 ∷ [];
  n = 2;
  k = 2;
  captured_shares = [];
  hop_period = 1;
  hop_count = 0;
  node_collection = none;
  path_collection = none;
  active_paths = [];
  monitored_paths = [];
  hop_index = 1;
}

abbrev world : World
world = record {
  ticks = 1;
  nodes =
      (0, record { node_id = 0; resident_shares = [] })
      ∷ (1, record { node_id = 1; resident_shares = [] })
      ∷ (2, record { node_id = 2; resident_shares = [] })
      ∷ (3, record { node_id = 3; resident_shares = [] })
      ∷ [];
  flows = (0, flow) ∷ [];
  attackers = everywhere ∷ [];
  draws = 0;
}

abbrev world_of : Result World → World
world_of (ok w) = w
world_of (raise e) = world

-- What the tests compute with.
program : Unit {0}
unfolding run step Flow.create_shares create_shares_for get_next_hop_for_share Flow.hop
    Attacker.monitor Attacker.capture_shares select_monitored_nodes select_total Flow.receive_share
    receive_share clear_resident_packets vulnerable_shares Flow.make reconstruct_captured_messages
    sort_by group_by
program = tt

abbrev finished : World
finished = world_of (run first_values 4 world)

-- After four steps four messages are sent and two have arrived.
four_steps :
    lookup 0 finished.flows
    ≡ some (record flow {
      seq_num = 4;
      messages_tx = 4;
      messages_rx = 2;
      shares_received = (2, 0) ∷ (3, 0) ∷ [];
    })
unfolding program
four_steps = refl

flow-IsBalanced : IsBalanced flow
flow-IsBalanced = record {
  threshold = omega arith;
  numbered = refl;
  counted = refl;
  pending = tt;
  unique = tt;
}

run-AllBalanced_example : AllBalanced finished.flows × (finished.ticks ≡ 1 + 4)
unfolding program
run-AllBalanced_example = run-AllBalanced first_values 4 world finished (flow-IsBalanced, tt) refl

run-HasSent_example : HasSent 0 (0 + 4) finished.flows
unfolding program
run-HasSent_example =
    run-HasSent first_values 0 4 0 world finished
      (record { unique = (refl, tt); sent = (flow, refl, refl) }) refl

abbrev share : ℕ → ℕ → Share
share path_idx seq_num = record {
  flow_id = 0;
  seq_num = seq_num;
  share_num = path_idx;
  path_idx = path_idx;
  source_node = 0;
  sink_node = 3;
}

abbrev sent : Flow
sent = record flow { seq_num = 1; messages_tx = 1; shares_received = (0, 0) ∷ [] }

sent-IsBalanced : IsBalanced sent
sent-IsBalanced = record {
  threshold = omega arith;
  numbered = refl;
  counted = refl;
  pending = ((omega arith, omega arith), tt);
  unique = (refl, tt);
}

receive_shares_complete_example :
    (f' : Flow) × (fold_result Flow.receive_share sent (share 0 0 ∷ share 1 0 ∷ []) ≡ ok f')
    × (f'.messages_rx ≡ 1)
    × (lookup 0 f'.shares_received ≡ none)
receive_shares_complete_example =
    Delivery.receive_shares_complete sent 0 0 (share 0 0 ∷ share 1 0 ∷ []) sent-IsBalanced refl
      (refl, (refl, tt)) (omega arith) refl

-- The shares of messages 4 and 5, of which only the second is complete.
abbrev listener : Attacker
listener = record everywhere {
  captured_shares = share 1 5 ∷ share 0 4 ∷ share 0 5 ∷ share 0 4 ∷ [];
}

reconstruct_lem_example :
    contains 5 (reconstruct_captured_messages listener)
    ≡ eqb (length (share_nums (shares_of 5 listener.captured_shares))) 2
reconstruct_lem_example = reconstruct_lem listener 5 (omega arith)

recovered : reconstruct_captured_messages listener ≡ 5 ∷ []
unfolding program
recovered = refl

abbrev hopper : Attacker
hopper = record everywhere {
  class = random_node;
  hop_period = 3;
  node_collection = some (1 ∷ 2 ∷ []);
}

select_times_hops_example :
    (a' : Attacker) × (draw' : ℕ) × (select_times first_values [] [] 7 hopper 1 0 ≡ ok (a', draw'))
    × (a'.hop_count + 0 / 3 ≡ 0 + (0 + 7) / 3)
select_times_hops_example =
    select_times_hops first_values [] [] 7 hopper (1 ∷ 2 ∷ []) 2 0 0
      (record { class = refl; known = refl; enough = omega arith; period = refl })

abbrev picker : Attacker
picker = record everywhere {
  class = one_node_per_path;
  path_collection = some ((1 ∷ []) ∷ (2 ∷ []) ∷ []);
}

one_node_misses_odd_times_example :
    select_monitored_nodes first_values picker [] ((0, flow) ∷ []) 5 0 ≡ ok (picker, 0)
one_node_misses_odd_times_example =
    one_node_misses_odd_times first_values picker [] ((0, flow) ∷ []) flow
      ((1 ∷ []) ∷ (2 ∷ []) ∷ []) 5 0 refl refl refl refl refl

-- ===== src/Statistics/Tests.antt =====
-- Statistics of a link between the switches `a` and `b`, of a port, and of a flow.
use cpsc_of_testbed.Base.{
  ℕ, ◌/◌, ◌≡◌, refl, List, [], ◌∷◌, true, false, none, some, ok, raise, zero_division, fold_result,
  map_result, nat_eq,
}
use cpsc_of_testbed.Base.Integers.{pos, integers, ◌-ℤ◌, integers-HasDifferences}
use cpsc_of_testbed.Base.Numbers.{whole}
use cpsc_of_testbed.Base.Text.{Text, codes, text_eq, text_pair_eq}
use cpsc_of_testbed.Statistics.Monitor.{
  Sample, make, start_monitor, stop_monitor, utilization_stats, get_monitor_statistics,
}
use cpsc_of_testbed.Statistics.Monitor.Runs.{Call, start, stop, after_all, view, monitor_refines}
use cpsc_of_testbed.Statistics.Samples.{IfaceStats, compute_tx_rate, rates_between}
use cpsc_of_testbed.Statistics.Utilization.{frames, mean}
use cpsc_of_testbed.Statistics.Utilization.Frames.{mean-frames}
use cpsc_of_testbed.Statistics.Loss.{Counts, Quotient, mk_loss_dict}
use cpsc_of_testbed.Statistics.Loss.Rates.{IsLossIn, mk_loss_dict-IsLossIn}

program : Unit {0}
unfolding fold_result map_result ◌-ℤ◌ start_monitor stop_monitor utilization_stats
    get_monitor_statistics compute_tx_rate rates_between frames mean mk_loss_dict
program = tt

abbrev sample : Sample ℕ
sample = (codes "netUtilStats", (codes "utilizationStats", 7) ∷ []) ∷ []

-- A start that the controller refuses, a run, a second start, and a stop.
abbrev calls : List (Call ℕ)
calls =
    start none
    ∷ start (some (codes "x"))
    ∷ start (some (codes "y"))
    ∷ stop (some (sample ∷ []))
    ∷ []

monitor_refines_example :
    (view make calls ≡ (none, (some (sample ∷ []), false ∷ true ∷ false ∷ true ∷ [])))
    × (get_monitor_statistics (after_all make calls) ≡ ok (7 ∷ []))
unfolding program
monitor_refines_example = monitor_refines calls

abbrev iface : Text → Text → ℕ → IfaceStats whole
iface source destination sent = record {
  source_id = source;
  destination_id = destination;
  bytes_sent = sent;
}

abbrev a : Text
a = codes "a"

abbrev b : Text
b = codes "b"

-- 13 MiB in one direction, and as much in the other.
abbrev first_sample : List (IfaceStats whole)
first_sample = iface a b 0 ∷ iface b a 1048576 ∷ []

abbrev second_sample : List (IfaceStats whole)
second_sample = iface a b 13631488 ∷ iface b a 14680064 ∷ []

mean-frames_example : mean integers (frames integers (pos 4 ∷ pos 10 ∷ pos 8 ∷ [])) ≡ ok (pos 2)
unfolding program
mean-frames_example = mean-frames integers (pos 4) (pos 10 ∷ pos 8 ∷ []) integers-HasDifferences

-- Quotients are rounded down.
abbrev rounded_down : Quotient whole
rounded_down = record { quotient = λ x y. x / y }

abbrev sent : Counts ℕ
sent = (a, (b, (5000, 10) ∷ (5001, 10) ∷ []) ∷ []) ∷ []

-- By receiver, sender and port; the second flow has not arrived.
abbrev received : Counts ℕ
received = (b, (a, (5000, 0) ∷ []) ∷ []) ∷ []

abbrev losses : Counts ℕ
losses = (a, (b, (5000, 1) ∷ []) ∷ []) ∷ []

no_packet_sent_raises :
    mk_loss_dict rounded_down received ((a, (b, (5000, 0) ∷ []) ∷ []) ∷ []) ≡ raise zero_division
unfolding program
no_packet_sent_raises = refl

mk_loss_dict-IsLossIn_example : IsLossIn rounded_down received sent a b 5000 1
unfolding program
mk_loss_dict-IsLossIn_example =
    mk_loss_dict-IsLossIn rounded_down received sent losses refl a b 5000 1 refl

-- ===== src/Traffic/Tests.antt =====
-- A sender of one flow over two paths, in thousandths of the proportions.
use cpsc_of_testbed.Base.{
  ℕ, ◌/◌, ◌*◌, ◌+◌, ◌≤◌, ◌≡◌, refl, List, [], ◌∷◌, true, none, some, Result, ok, raise, value_error,
  zero_division, ◌>>=◌, fold_result, nat_eq, eqb, arith, if◌then◌else◌, get_elem?,
}
use cpsc_of_testbed.Base.Dict.{Dict, lookup}
use cpsc_of_testbed.Base.Numbers.{whole}
use cpsc_of_testbed.Base.Text.{codes}
use cpsc_of_testbed.Traffic.Models.{FlowParameters, precomputed, from_str, gamma}
use cpsc_of_testbed.Traffic.Rates.{
  Division, burst_count, next_rate, select_tx_rate, compute_inter_pkt_delay, create_distribution,
}
use cpsc_of_testbed.Traffic.Rates.Cycle.{after_calls, next_rate-cycles}
use cpsc_of_testbed.Traffic.Dscp.{select_dscp}
use cpsc_of_testbed.Traffic.Dscp.Chosen.{IsFirst, select_dscp_lem, select_dscp-total}
use cpsc_of_testbed.Traffic.Transmit.{
  count_of, Slice, Sender, FlowInfo, Cut, transmit, generate_until, handle_sig_int,
}
use cpsc_of_testbed.Traffic.Transmit.Sent.{sent_of}
use cpsc_of_testbed.Traffic.Transmit.Counted.{handle_sig_int-counts}

program : Unit {0}
unfolding fold_result from_str next_rate create_distribution select_tx_rate compute_inter_pkt_delay
    select_dscp transmit generate_until handle_sig_int
program = tt

names_of_models :
    (from_str (codes "Gamma") ≡ ok gamma) × (from_str (codes "normal") ≡ raise value_error)
unfolding program
names_of_models = (refl, refl)

abbrev rates : List ℕ
rates = 10 ∷ 20 ∷ 30 ∷ []

next_rate-cycles_example :
    (r : ℕ) × (get_elem? rates 1 ≡ some r)
    × ((do
      d ← after_calls whole 4 (record { rates_list = rates; rate_idx = 0 })
      called ← next_rate d
      ok called.0)
        ≡ ok r)
next_rate-cycles_example = next_rate-cycles whole 4 rates (omega arith)

-- 600 of 1000 packets over the first path, whose tag is 1, and 400 over the second.
abbrev proportions : List ℕ
proportions = 600 ∷ 400 ∷ []

abbrev tags : List ℕ
tags = 1 ∷ 2 ∷ []

select_dscp_lem_example :
    (i : ℕ) × IsFirst whole 700 0 proportions i
    × ((t : ℕ) × (get_elem? tags i ≡ some t) × (8 ≡ t * 4))
unfolding program
select_dscp_lem_example = select_dscp_lem whole 700 proportions tags 8 refl

select_dscp-total_example : (v : ℕ) × (select_dscp whole 700 proportions (some tags) ≡ ok (some v))
unfolding program
select_dscp-total_example =
    select_dscp-total whole 700 proportions tags (omega arith) (omega arith) refl

abbrev division : Division whole
division = record {
  quotient = λ x y. if eqb y 0 then raise zero_division else ok (x / y);
  sqrt = λ x. x;
}

abbrev flow_params : Dict ℕ (FlowParameters whole)
flow_params =
    (
      0,
      record {
        dest_port = 5000;
        dest_addr = codes "10.0.0.2";
        prob_mat = proportions;
        tx_rate = 50;
        variance = 0;
        traffic_model = precomputed;
        packet_len = 1000;
        src_host = 1;
        time_slice = 5;
        tag_value = some tags;
        transmit_rates = some rates;
        source_addr = none;
        flow_id = 3;
      },
    )
    ∷ []

-- Two rounds in a slice: in the second the delay of the flow has passed.
abbrev slices : List (Slice whole)
slices = record { rvs = λ i d. 0; heads = λ i. true; waits = 1000 ∷ 1000 ∷ [] } ∷ []

-- In the next slice a round is complete; of the burst of the second, three packets have been sent.
abbrev cut : Cut whole
cut = record {
  slice = record { rvs = λ i d. 0; heads = λ i. true; waits = 1000 ∷ [] };
  bursts = 0;
  sent = 3;
}

abbrev draws : ℕ → ℕ
draws i = 300

abbrev sender_after : Result Sender → Sender
sender_after (ok s) = s
sender_after (raise e) = record { pkt_count = []; packets = [] }

abbrev sender : Sender
unfolding program
sender = sender_after (generate_until division draws flow_params slices cut)

interrupted_burst : (sent_of 0 sender.packets ≡ 13) × (count_of sender.pkt_count 0 ≡ 10)
unfolding program
interrupted_burst = (refl, refl)

handle_sig_int-counts_example :
    (i n : ℕ) × (n ≤ burst_count)
    × ((flow_num : ℕ) (info : FlowInfo)
        → lookup flow_num (handle_sig_int (λ i. 6000) sender flow_params).1 ≡ some info
        → sent_of flow_num sender.packets ≡ info.pkt_count + (if eqb i flow_num then n else 0))
unfolding program
handle_sig_int-counts_example =
    handle_sig_int-counts division draws (λ i. 6000) flow_params slices cut sender (omega arith)
      refl

-- ===== src/Traffic/Transmit.antt =====
-- The sending of packets: `transmit`, `generate_traffic` and `handle_sig_int` of
-- traffic_generation/traffic_gen.py. The clock, the random numbers and the sockets are arguments: a
-- round of the loop is given the time that it takes, and the loop ends with the list of rounds. The
-- generator runs until a signal comes, which can be inside of a burst.
pub mod Sent
pub mod Counted
use cpsc_of_testbed.Base.{
  ℕ, zero, suc, ◌+◌, List, [], ◌∷◌, ◌++◌, map, Bool, true, false, not, Option, none, some, Result,
  ok, raise, index_error, key_error, type_error, value_error, or_raise, ◌>>=◌, fold_result,
  get_elem?, filter, enumerate, range, length, take, drop, nat_eq,
}
use cpsc_of_testbed.Base.Dict.{Dict, lookup, insert, keys}
use cpsc_of_testbed.Base.Numbers.{Number, zero_num}
use cpsc_of_testbed.Base.Text.{Text}
use cpsc_of_testbed.Traffic.Models.{FlowParameters}
use cpsc_of_testbed.Traffic.Rates.{
  Division, Distribution, burst_count, create_distribution, select_tx_rate, compute_inter_pkt_delay,
}
use cpsc_of_testbed.Traffic.Dscp.{select_dscp}

-- A packet that was sent: its flow and the tag in its header.
pub record Packet : Type 0 where
  pub flow : ℕ
  pub dscp : ℕ

-- The global counters, and what has left through the sockets.
pub record Sender : Type 0 where
  pub pkt_count : Dict ℕ ℕ
  pub packets : List Packet

-- `pkt_count[flow_num]` of a `defaultdict(int)`.
abbrev pub count_of : Dict ℕ ℕ → ℕ → ℕ
count_of counts flow_num = elim (lookup flow_num counts) [ none ↦ 0 | some n ↦ n ]

unfoldable pub inc_pkt_count : Sender → ℕ → Sender
inc_pkt_count s flow_num = record s {
  pkt_count = insert flow_num (count_of s.pkt_count flow_num + burst_count) s.pkt_count;
}

-- `set_dscp` refuses None.
abbrev pub or_type_error : Option ℕ → Result ℕ
or_type_error o = or_raise o type_error

module _ {N : Number} (pick : ℕ → N.Num) (flow_params : Dict ℕ (FlowParameters N)) where
  open N use {Num, minus, gt}

  -- One packet of a burst; `pick` has the random number of each packet.
  unfoldable pub send_packet : ℕ → Sender → ℕ → Result Sender
  send_packet i s k = do
    p ← or_raise (lookup i flow_params) key_error
    choice ← select_dscp N (pick (length s.packets)) p.prob_mat p.tag_value
    dscp_val ← or_type_error choice
    ok (record s { packets = s.packets ++ record { flow = i; dscp = dscp_val } ∷ [] })

  unfoldable pub send_burst : ℕ → Sender → Result Sender
  unfolding send_packet
  send_burst i s = fold_result (send_packet i) s (range burst_count)

  -- A burst of a flow whose delay has passed; its delay begins again.
  unfoldable pub send_expired : List Num → Sender × Dict ℕ Num → ℕ → Result (Sender × Dict ℕ Num)
  unfolding send_burst inc_pkt_count
  send_expired ipd_list (s, ipds) i = do
    s' ← send_burst i s
    delay ← or_raise (get_elem? ipd_list i) index_error
    ok (inc_pkt_count s' i, insert i delay ipds)

  -- `[i for i, (_, t) in ipds.items() if t <= 0.0]`
  unfoldable pub expired : Dict ℕ Num → List ℕ
  expired ipds = keys (filter (λ (e : ℕ × Num). not (gt e.1 (zero_num N))) ipds)

  -- A round of the loop, which takes the time `actual_wait`.
  unfoldable pub transmit_round :
      List Num → Sender × Dict ℕ Num → Num → Result (Sender × Dict ℕ Num)
  unfolding send_expired expired
  transmit_round ipd_list (s, ipds) actual_wait = do
    r ← fold_result (send_expired ipd_list) (s, ipds) (expired ipds)
    ok (r.0, map (λ (e : ℕ × Num). (e.0, minus e.1 actual_wait)) r.1)

  -- `min` raises ValueError where there is no flow.
  unfoldable pub transmit : List Num → List Num → Sender → Result Sender
  unfolding transmit_round
  transmit [] waits s = raise value_error
  transmit (d ∷ ds) waits s = do
    r ← fold_result (transmit_round (d ∷ ds)) (s, enumerate (d ∷ ds)) waits
    ok r.0

-- A slice of time: what scipy and `random.choice` draw for each flow, and the rounds of the loop.
module _ (N : Number) where
  pub record Slice : Type 0 where
    pub rvs : ℕ → Distribution N → N.Num
    pub heads : ℕ → Bool
    pub waits : List N.Num

module _ {N : Number} (D : Division N) (pick : ℕ → N.Num)
    (flow_params : Dict ℕ (FlowParameters N)) where
  open N use {Num}

  unfoldable pub create_distributions : Result (Dict ℕ (Distribution N))
  create_distributions =
      fold_result
        (λ (d : Dict ℕ (Distribution N)) (e : ℕ × FlowParameters N).
          create_distribution D e.1.tx_rate e.1.variance e.1.traffic_model e.1.transmit_rates
          >>= λ distr. ok (insert e.0 distr d))
        [] flow_params

  -- The delay of a flow behind those of the flows before, and the distributions afterwards.
  unfoldable pub add_delay :
      Slice N
      → List Num × Dict ℕ (Distribution N)
      → ℕ × FlowParameters N
      → Result (List Num × Dict ℕ (Distribution N))
  add_delay slice (ipd_list, rvs) (i, fp) = do
    distr ← or_raise (lookup i rvs) key_error
    r ← select_tx_rate (slice.rvs i) (slice.heads i) fp fp.tx_rate distr
    delay ← compute_inter_pkt_delay D fp.packet_len r.0 fp.time_slice
    ok (ipd_list ++ delay ∷ [], insert i r.1 rvs)

  -- A round of the loop without end.
  unfoldable pub send_slice :
      Sender × Dict ℕ (Distribution N) → Slice N → Result (Sender × Dict ℕ (Distribution N))
  unfolding add_delay
  send_slice (s, rvs) slice = do
    r ← fold_result (add_delay slice) ([], rvs) flow_params
    first ← or_raise (lookup 0 flow_params) key_error
    s' ← transmit pick flow_params r.0 slice.waits s
    ok (s', r.1)

-- Where a signal comes inside of a slice: the slice, with the rounds of its loop that are complete;
-- the bursts of the next round that are complete and counted; and the packets of the burst after them
-- that have been sent and not counted.
module _ (N : Number) where
  pub record Cut : Type 0 where
    pub slice : Slice N
    pub bursts : ℕ
    pub sent : ℕ

module _ {N : Number} (D : Division N) (pick : ℕ → N.Num)
    (flow_params : Dict ℕ (FlowParameters N)) where
  open N use {Num}

  -- The packets of the burst that is interrupted; there is none where all flows have been served.
  unfoldable pub cut_burst : ℕ → Sender → List ℕ → Result Sender
  unfolding send_packet
  cut_burst sent s [] = ok s
  cut_burst sent s (i ∷ is) = fold_result (send_packet pick flow_params i) s (range sent)

  unfoldable pub cut_slice : Cut N → Sender × Dict ℕ (Distribution N) → Result Sender
  unfolding add_delay transmit_round cut_burst
  cut_slice cut (s, rvs) = do
    r ← fold_result (add_delay D pick flow_params cut.slice) ([], rvs) flow_params
    first ← or_raise (lookup 0 flow_params) key_error
    b ← fold_result (transmit_round pick flow_params r.0) (s, enumerate r.0) cut.slice.waits
    c ←
        fold_result (send_expired pick flow_params r.0) b
          (take cut.bursts (expired pick flow_params b.1))
    cut_burst cut.sent c.0 (drop cut.bursts (expired pick flow_params b.1))

  -- The generator, until a signal comes inside of the slice after a number of complete ones.
  unfoldable pub generate_until : List (Slice N) → Cut N → Result Sender
  unfolding create_distributions send_slice cut_slice
  generate_until slices cut = do
    rvs ← create_distributions D pick flow_params
    r ←
        fold_result (send_slice D pick flow_params) (record { pkt_count = []; packets = [] }, rvs)
          slices
    cut_slice cut r

pub record FlowInfo : Type 0 where
  pub pkt_count : ℕ
  pub src_port : ℕ
  pub src_host : ℕ
  pub dst_ip : Text
  pub flow_id : ℕ

module _ {N : Number} (src_port_of : ℕ → ℕ) where
  unfoldable pub flow_info_of : Sender → ℕ → FlowParameters N → FlowInfo
  flow_info_of s flow_num fp = record {
    pkt_count = count_of s.pkt_count flow_num;
    src_port = src_port_of flow_num;
    src_host = fp.src_host;
    dst_ip = fp.dest_addr;
    flow_id = fp.flow_id;
  }

  -- What is written at the end: the last source host, for the name of the file, and the flows.
  unfoldable pub handle_from :
      Sender → Option ℕ × Dict ℕ FlowInfo → Dict ℕ (FlowParameters N) → Option ℕ × Dict ℕ FlowInfo
  unfolding flow_info_of
  handle_from s r [] = r
  handle_from s r ((flow_num, fp) ∷ rest) =
      handle_from s (some fp.src_host, insert flow_num (flow_info_of s flow_num fp) r.1) rest

  unfoldable pub handle_sig_int : Sender → Dict ℕ (FlowParameters N) → Option ℕ × Dict ℕ FlowInfo
  unfolding handle_from
  handle_sig_int s flow_params = handle_from s (none, []) flow_params

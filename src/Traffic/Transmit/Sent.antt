-- ===== src/Traffic/Transmit/Sent.antt =====
-- What is sent between two signals: every packet is counted once its burst is complete.
use cpsc_of_testbed.Base.{
  ℕ, suc, ◌+◌, List, [], ◌∷◌, ◌++◌, Bool, true, false, ◌≡◌, refl, sym, ap, ◌∙◌, subst, ok,
  key_error, index_error, or_raise, >>=-eq-ok, ok_injective, fold_result, fold_result_inv, length,
  range, enumerate, if◌then◌else◌, eqb, eqb_iff, nat_eq, arith, get_elem?,
}
use cpsc_of_testbed.Base.Dict.{Dict, lookup, lookup-insert}
use cpsc_of_testbed.Base.Numbers.{Number}
use cpsc_of_testbed.Traffic.Models.{FlowParameters}
use cpsc_of_testbed.Traffic.Rates.{Division, Distribution, burst_count}
use cpsc_of_testbed.Traffic.Dscp.{select_dscp}
use cpsc_of_testbed.Traffic.Transmit.{
  Packet, Sender, count_of, inc_pkt_count, send_packet, send_burst, send_expired, transmit_round,
  transmit, Slice, send_slice, or_type_error, expired, add_delay,
}

-- The number of packets of a flow.
abbrev pub sent_of : ℕ → List Packet → ℕ
sent_of i [] = 0
sent_of i (p ∷ ps) = if eqb p.flow i then suc (sent_of i ps) else sent_of i ps

sent_of-append : (i : ℕ) (us vs : List Packet) → sent_of i (us ++ vs) ≡ sent_of i us + sent_of i vs
sent_of-append i [] vs = omega arith
sent_of-append i (u ∷ us) vs = ground (arith, sent_of-append i us vs)

-- Of each flow as many packets as are counted.
abbrev pub IsCounted : Sender → Type 0
IsCounted s = (i : ℕ) → count_of s.pkt_count i ≡ sent_of i s.packets

module _ {N : Number} (pick : ℕ → N.Num) (flow_params : Dict ℕ (FlowParameters N)) where
  -- A packet of the flow more, and nothing else.
  packet_sent :
      (i : ℕ) (s : Sender) (k : ℕ) (s' : Sender)
      → send_packet pick flow_params i s k ≡ ok s'
      → (s'.pkt_count ≡ s.pkt_count)
        × ((j : ℕ) → sent_of j s'.packets ≡ sent_of j s.packets + (if eqb i j then 1 else 0))
  unfolding send_packet
  packet_sent i s k s' h =
      let (p, found, h1) = >>=-eq-ok (or_raise (lookup i flow_params) key_error) _ h in
      let (choice, chosen, h2) =
        >>=-eq-ok (select_dscp N (pick (length s.packets)) p.prob_mat p.tag_value) _ h1 in
      let (v, tagged, h3) = >>=-eq-ok (or_type_error choice) _ h2 in
      let same = ok_injective h3 in
      (
        sym (ap (λ (r : Sender). r.pkt_count) same),
        λ j.
            ap (λ (r : Sender). sent_of j r.packets) (sym same)
            ∙ sent_of-append j s.packets (record { flow = i; dscp = v } ∷ [])
            ∙ ap (λ n. sent_of j s.packets + n) (one (eqb i j)),
      )
    where
      one : (b : Bool) → (if b then suc 0 else 0) ≡ (if b then 1 else 0)
      one true = refl
      one false = refl

  -- A burst adds a packet for each of its rounds.
  pub burst_sent :
      (i : ℕ) (ks : List ℕ) (s s' : Sender)
      → fold_result (send_packet pick flow_params i) s ks ≡ ok s'
      → (s'.pkt_count ≡ s.pkt_count)
        × ((j : ℕ)
            → sent_of j s'.packets ≡ sent_of j s.packets + (if eqb i j then length ks else 0))
  unfolding fold_result
  burst_sent i [] s s' h =
      let same = ok_injective h in
      (
        sym (ap (λ (r : Sender). r.pkt_count) same),
        λ j. ap (λ (r : Sender). sent_of j r.packets) (sym same) ∙ ground arith,
      )
  burst_sent i (k ∷ ks) s s' h =
      let (u, first, rest) =
        >>=-eq-ok (send_packet pick flow_params i s k)
          (λ u. fold_result (send_packet pick flow_params i) u ks) h in
      let (kept, one) = packet_sent i s k u first in
      let (kept', others) = burst_sent i ks u s' rest in
      (kept' ∙ kept, λ j. let a = one j in let b = others j in ground (arith, a, b))

  count_of-inc :
      (s : Sender) (i j : ℕ)
      → count_of (inc_pkt_count s i).pkt_count j
        ≡ count_of s.pkt_count j + (if eqb i j then 10 else 0)
  unfolding inc_pkt_count
  count_of-inc s i j =
      ground (arith, lookup-insert i j (count_of s.pkt_count i + 10) s.pkt_count, eqb_iff i j)

  pub send_expired-IsCounted :
      (ipd_list : List N.Num) (b : Sender × Dict ℕ N.Num) (i : ℕ) (b' : Sender × Dict ℕ N.Num)
      → IsCounted b.0
      → send_expired pick flow_params ipd_list b i ≡ ok b'
      → IsCounted b'.0
  unfolding send_expired send_burst
  send_expired-IsCounted ipd_list (s, ipds) i b' before h =
      let (s', sent, h1) =
        >>=-eq-ok (fold_result (send_packet pick flow_params i) s (range burst_count)) _ h in
      let (delay, found, h2) = >>=-eq-ok (or_raise (get_elem? ipd_list i) index_error) _ h1 in
      let (kept, more) = burst_sent i (range burst_count) s s' sent in
      subst (λ (r : Sender × Dict ℕ N.Num). IsCounted r.0) (ok_injective h2)
        (λ j.
          count_of-inc s' i j
          ∙ ap (λ c. count_of c j + (if eqb i j then 10 else 0)) kept
          ∙ ap (λ n. n + (if eqb i j then 10 else 0)) (before j)
          ∙ sym (more j))

  pub round-IsCounted :
      (ipd_list : List N.Num) (b : Sender × Dict ℕ N.Num) (wait : N.Num)
      (b' : Sender × Dict ℕ N.Num)
      → IsCounted b.0
      → transmit_round pick flow_params ipd_list b wait ≡ ok b'
      → IsCounted b'.0
  unfolding transmit_round
  round-IsCounted ipd_list (s, ipds) wait b' before h =
      let (r, sent, same) =
        >>=-eq-ok
          (fold_result (send_expired pick flow_params ipd_list) (s, ipds)
            (expired pick flow_params ipds))
          _ h in
      subst (λ (r : Sender × Dict ℕ N.Num). IsCounted r.0) (ok_injective same)
        (fold_result_inv (λ (b : Sender × Dict ℕ N.Num). IsCounted b.0)
          (send_expired pick flow_params ipd_list) (send_expired-IsCounted ipd_list) (s, ipds)
          (expired pick flow_params ipds) r before sent)

  transmit-IsCounted :
      (ipd_list waits : List N.Num) (s s' : Sender)
      → IsCounted s
      → transmit pick flow_params ipd_list waits s ≡ ok s'
      → IsCounted s'
  unfolding transmit
  transmit-IsCounted [] waits s s' before h = cc
  transmit-IsCounted (d ∷ ds) waits s s' before h =
      let (r, sent, same) =
        >>=-eq-ok
          (fold_result (transmit_round pick flow_params (d ∷ ds)) (s, enumerate (d ∷ ds)) waits) _
          h in
      subst IsCounted (ok_injective same) (
        fold_result_inv (λ (b : Sender × Dict ℕ N.Num). IsCounted b.0)
          (transmit_round pick flow_params (d ∷ ds)) (round-IsCounted (d ∷ ds))
          (s, enumerate (d ∷ ds)) waits r before sent)

module _ {N : Number} (D : Division N) (pick : ℕ → N.Num)
    (flow_params : Dict ℕ (FlowParameters N)) where
  slice-IsCounted :
      (b : Sender × Dict ℕ (Distribution N)) (slice : Slice N)
      (b' : Sender × Dict ℕ (Distribution N))
      → IsCounted b.0
      → send_slice D pick flow_params b slice ≡ ok b'
      → IsCounted b'.0
  unfolding send_slice
  slice-IsCounted (s, rvs) slice b' before h =
      let (r, delays, h1) =
        >>=-eq-ok (fold_result (add_delay D pick flow_params slice) ([], rvs) flow_params) _ h in
      let (first, found, h2) = >>=-eq-ok (or_raise (lookup 0 flow_params) key_error) _ h1 in
      let (s', sent, same) = >>=-eq-ok (transmit pick flow_params r.0 slice.waits s) _ h2 in
      subst (λ (r : Sender × Dict ℕ (Distribution N)). IsCounted r.0) (ok_injective same)
        (transmit-IsCounted pick flow_params r.0 slice.waits s s' before sent)

  pub slices-IsCounted :
      (slices : List (Slice N)) (rvs : Dict ℕ (Distribution N))
      (b : Sender × Dict ℕ (Distribution N))
      → fold_result
          (send_slice D pick flow_params)
          (record { pkt_count = []; packets = [] }, rvs)
          slices
        ≡ ok b
      → IsCounted b.0
  slices-IsCounted slices rvs b h =
      fold_result_inv (λ (b : Sender × Dict ℕ (Distribution N)). IsCounted b.0)
        (send_slice D pick flow_params) slice-IsCounted
        (record { pkt_count = []; packets = [] }, rvs) slices b (λ i. refl) h

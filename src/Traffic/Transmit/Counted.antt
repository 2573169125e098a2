-- ===== src/Traffic/Transmit/Counted.antt =====
-- What is written at the end, against what was sent.
use cpsc_of_testbed.Base.{
  ℕ, ◌+◌, List, [], ◌∷◌, Bool, true, false, ◌≡◌, sym, ap, ◌∙◌, subst, inl, inr, Option, none, some,
  ok, key_error, or_raise, >>=-eq-ok, ok_injective, fold_result, fold_result_inv, length, range,
  enumerate, if◌then◌else◌, eqb, eqb_iff, nat_eq, Bool-cases, arith, take, drop, ◌≤◌,
}
use cpsc_of_testbed.Base.Dict.{Dict, lookup, insert, lookup-insert}
use cpsc_of_testbed.Base.Lists.Distinct.{length-range_from}
use cpsc_of_testbed.Base.Numbers.{Number}
use cpsc_of_testbed.Traffic.Models.{FlowParameters}
use cpsc_of_testbed.Traffic.Rates.{Division, burst_count}
use cpsc_of_testbed.Traffic.Transmit.{
  Sender, count_of, send_expired, transmit_round, Slice, send_slice, Cut, cut_burst, cut_slice,
  generate_until, FlowInfo, flow_info_of, handle_from, handle_sig_int, expired,
  create_distributions, add_delay,
}
use cpsc_of_testbed.Traffic.Transmit.Sent.{
  sent_of, IsCounted, burst_sent, send_expired-IsCounted, round-IsCounted, slices-IsCounted,
}

-- What has been sent for a flow is what is counted, but for one flow, which can be ahead by some
-- packets.
abbrev pub IsAhead : ℕ → Sender → Type 0
IsAhead sent s =
    (i n : ℕ) × (n ≤ sent)
    × ((j : ℕ) → sent_of j s.packets ≡ count_of s.pkt_count j + (if eqb i j then n else 0))

module _ {N : Number} (D : Division N) (pick : ℕ → N.Num)
    (flow_params : Dict ℕ (FlowParameters N)) where
  -- The burst that is interrupted adds its packets, of one flow.
  cut_burst-IsAhead :
      (sent : ℕ) (s : Sender) (is : List ℕ) (s' : Sender)
      → IsCounted s
      → cut_burst D pick flow_params sent s is ≡ ok s'
      → IsAhead sent s'
  unfolding cut_burst
  cut_burst-IsAhead sent s [] s' before h =
      let same : s ≡ s' = ok_injective h in
      subst (IsAhead sent) same (0, 0, omega arith, λ j. before' j (eqb 0 j))
    where
      before' :
          (j : ℕ) (b : Bool) → sent_of j s.packets ≡ count_of s.pkt_count j + (if b then 0 else 0)
      before' j true = let e = before j in omega (arith, e)
      before' j false = let e = before j in omega (arith, e)
  cut_burst-IsAhead sent s (i ∷ is) s' before h =
      let (kept, more) = burst_sent pick flow_params i (range sent) s s' h in
      (
        i,
        sent,
        omega arith,
        λ j.
            more j
            ∙ ap (λ n. n + (if eqb i j then length (range sent) else 0))
                (sym (before j) ∙ ap (λ c. count_of c j) (sym kept))
            ∙ ap (λ n. count_of s'.pkt_count j + (if eqb i j then n else 0))
                (length-range_from 0 sent),
      )

  generate_until-IsAhead :
      (slices : List (Slice N)) (cut : Cut N) (s : Sender)
      → generate_until D pick flow_params slices cut ≡ ok s
      → IsAhead cut.sent s
  unfolding generate_until cut_slice
  generate_until-IsAhead slices cut s h =
      let (rvs, made, h1) = >>=-eq-ok (create_distributions D pick flow_params) _ h in
      let ((s0, rvs'), sent, h2) =
        >>=-eq-ok
          (fold_result (send_slice D pick flow_params)
            (record { pkt_count = []; packets = [] }, rvs) slices)
          _ h1 in
      let (r, delays, h3) =
        >>=-eq-ok (fold_result (add_delay D pick flow_params cut.slice) ([], rvs') flow_params) _
          h2 in
      let (first, there, h3') = >>=-eq-ok (or_raise (lookup 0 flow_params) key_error) _ h3 in
      let (b, rounds, h4) =
        >>=-eq-ok
          (fold_result (transmit_round pick flow_params r.0) (s0, enumerate r.0) cut.slice.waits) _
          h3' in
      let (c, bursts, h5) =
        >>=-eq-ok
          (fold_result (send_expired pick flow_params r.0) b
            (take cut.bursts (expired pick flow_params b.1)))
          _ h4 in
      let start = slices-IsCounted D pick flow_params slices rvs (s0, rvs') sent in
      let later =
        fold_result_inv (λ (b : Sender × Dict ℕ N.Num). IsCounted b.0)
          (transmit_round pick flow_params r.0) (round-IsCounted pick flow_params r.0)
          (s0, enumerate r.0) cut.slice.waits b start rounds in
      let last =
        fold_result_inv (λ (b : Sender × Dict ℕ N.Num). IsCounted b.0)
          (send_expired pick flow_params r.0) (send_expired-IsCounted pick flow_params r.0) b
          (take cut.bursts (expired pick flow_params b.1)) c later bursts in
      cut_burst-IsAhead cut.sent c.0 (drop cut.bursts (expired pick flow_params b.1)) s last h5

-- The infos have the counters of their flows.
abbrev ReportsCounts : Sender → Dict ℕ FlowInfo → Type 0
ReportsCounts s d =
    (i : ℕ) (info : FlowInfo) → lookup i d ≡ some info → info.pkt_count ≡ count_of s.pkt_count i

module _ {N : Number} (src_port_of : ℕ → ℕ) (s : Sender) where
  insert-ReportsCounts :
      (i : ℕ) (fp : FlowParameters N) (d : Dict ℕ FlowInfo)
      → ReportsCounts s d
      → ReportsCounts s (insert i (flow_info_of src_port_of s i fp) d)
  unfolding flow_info_of
  insert-ReportsCounts i fp d before j info h = elim (Bool-cases (eqb i j)) [
    | inl e ↦
        let here = sym (lookup-insert i j (flow_info_of src_port_of s i fp) d) ∙ h in
        let same : flow_info_of src_port_of s i fp ≡ info = some_of (rw e at here) in
        ap (λ (f : FlowInfo). f.pkt_count) (sym same)
        ∙ ap (count_of s.pkt_count) ((eqb_iff i j).0 e)
    | inr n ↦
        let here = sym (lookup-insert i j (flow_info_of src_port_of s i fp) d) ∙ h in
        before j info (rw n at here)
  ]
    where
      some_of : {a b : FlowInfo} → some a ≡ some b → a ≡ b
      some_of h = cc

  handle_from-ReportsCounts :
      (flow_params : Dict ℕ (FlowParameters N)) (r : Option ℕ × Dict ℕ FlowInfo)
      → ReportsCounts s r.1
      → ReportsCounts s (handle_from src_port_of s r flow_params).1
  unfolding handle_from
  handle_from-ReportsCounts [] r before = before
  handle_from-ReportsCounts ((i, fp) ∷ rest) r before =
      handle_from-ReportsCounts rest
        (some fp.src_host, insert i (flow_info_of src_port_of s i fp) r.1)
        (insert-ReportsCounts i fp r.1 before)

module _ {N : Number} (D : Division N) (pick : ℕ → N.Num) (src_port_of : ℕ → ℕ)
    (flow_params : Dict ℕ (FlowParameters N)) where
  -- The signal comes inside of a slice, when all bursts before are counted and at most a burst of a
  -- flow has been sent that is not: then the count that is written for a flow is the number of the
  -- packets that were sent for it, but for one flow at most, which has up to a burst more.
  pub handle_sig_int-counts :
      (slices : List (Slice N)) (cut : Cut N) (s : Sender)
      → cut.sent ≤ burst_count
      → generate_until D pick flow_params slices cut ≡ ok s
      → (i n : ℕ) × (n ≤ burst_count)
        × ((flow_num : ℕ) (info : FlowInfo)
            → lookup flow_num (handle_sig_int src_port_of s flow_params).1 ≡ some info
            → sent_of flow_num s.packets ≡ info.pkt_count + (if eqb i flow_num then n else 0))
  unfolding handle_sig_int
  handle_sig_int-counts slices cut s small h =
      let (i, n, most, ahead) = generate_until-IsAhead D pick flow_params slices cut s h in
      (
        i,
        n,
        omega (arith, most, small),
        λ flow_num info found.
            ahead flow_num
            ∙ ap (λ m. m + (if eqb i flow_num then n else 0))
                (sym (
                  handle_from-ReportsCounts src_port_of s flow_params (none, [])
                    (λ j other e. absurd (no_info e)) flow_num info found)),
      )
    where
      no_info : {info : FlowInfo} → none ≡ some info → ⊥
      no_info e = cc

-- ===== src/Statistics/Loss.antt =====
-- The loss of packets: `_mk_loss_dict` of rest_client/mp_routing/stats_processor.py, from the counts
-- that senders and receivers have written.
pub mod Rates
use cpsc_of_testbed.Base.{
  ℕ, List, [], ◌∷◌, Bool, true, false, Option, none, some, Result, ok, raise, zero_division, ◌>>=◌,
  fold_result, nat_eq,
}
use cpsc_of_testbed.Base.Dict.{Dict, lookup, insert}
use cpsc_of_testbed.Base.Numbers.{Number, zero_num}
use cpsc_of_testbed.Base.Text.{Text, text_eq}

-- Counts by source, destination and source port.
abbrev pub Counts : Type 0 → Type 0
Counts V = Dict Text (Dict Text (Dict ℕ V))

-- `d[key]` of a `defaultdict` of dictionaries.
abbrev pub row_of : {V : Type 0} → Text → Dict Text (Dict Text V) → Dict Text V
row_of key d = elim (lookup key d) [ none ↦ [] | some row ↦ row ]

abbrev pub flows_of : {V : Type 0} → Text → Dict Text (Dict ℕ V) → Dict ℕ V
flows_of key d = elim (lookup key d) [ none ↦ [] | some row ↦ row ]

-- The count of a flow, if there is one; `none` is the KeyError of the innermost dictionary.
abbrev pub count_at : {V : Type 0} → Counts V → Text → Text → ℕ → Option V
count_at d source destination port = lookup port (flows_of destination (row_of source d))

-- `d[source][destination][port] = v`
abbrev pub set_count : {V : Type 0} → Text → Text → ℕ → V → Counts V → Counts V
set_count source destination port v d =
    insert source
      (insert destination (insert port v (flows_of destination (row_of source d)))
        (row_of source d))
      d

module _ (N : Number) where
  open N use {Num, minus, same}

  -- Division by a float raises ZeroDivisionError at 0.
  pub record Quotient : Type 0 where
    pub quotient : Num → Num → Num

module _ {N : Number} (Q : Quotient N) where
  open N use {Num, minus, same}

  unfoldable pub calc_pkt_loss : Num → Num → Result Num
  calc_pkt_loss tx_pkts rx_pkts = elim (same tx_pkts (zero_num N)) [
    | true ↦ raise zero_division
    | false ↦ ok (Q.quotient (minus tx_pkts rx_pkts) tx_pkts)
  ]

  module _ (rx_dict : Counts Num) where
    -- A flow without a count of received packets is ignored.
    unfoldable pub add_loss : Text → Text → Counts Num → ℕ × Num → Result (Counts Num)
    unfolding calc_pkt_loss
    add_loss src_host dst_host loss_dict e = elim (count_at rx_dict dst_host src_host e.0) [
      | none ↦ ok loss_dict
      | some rx_pkts ↦
          calc_pkt_loss e.1 rx_pkts >>= λ loss. ok (set_count src_host dst_host e.0 loss loss_dict)
    ]

    unfoldable pub add_losses : Text → Counts Num → Text × Dict ℕ Num → Result (Counts Num)
    unfolding add_loss
    add_losses src_host loss_dict e = fold_result (add_loss src_host e.0) loss_dict e.1

    unfoldable pub add_source : Counts Num → Text × Dict Text (Dict ℕ Num) → Result (Counts Num)
    unfolding add_losses
    add_source loss_dict e = fold_result (add_losses e.0) loss_dict e.1

    unfoldable pub mk_loss_dict : Counts Num → Result (Counts Num)
    unfolding add_source
    mk_loss_dict tx_dict = fold_result add_source [] tx_dict

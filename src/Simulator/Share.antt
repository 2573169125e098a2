-- ===== src/Simulator/Share.antt =====
-- `PathHoppingShare` of rest_client/path_hopping_simulator/simulator.py. Shares are put into sets
-- by object identity; `create_shares` makes one object for each flow, sequence number and share
-- number, so here a share is the same as another when its fields are.
use cpsc_of_testbed.Base.{
  ℕ, true, ◌≡◌, ◌↔◌, Bool, ◌&&◌, List, map, arith, eqb, Comparable, enumerate,
}

pub record Share : Type 0 where
  pub flow_id : ℕ
  pub seq_num : ℕ
  pub share_num : ℕ
  pub path_idx : ℕ
  pub source_node : ℕ
  pub sink_node : ℕ

abbrev pub share_eqb : Share → Share → Bool
share_eqb s t =
    eqb s.flow_id t.flow_id
    && (eqb s.seq_num t.seq_num
        && (eqb s.share_num t.share_num
            && (eqb s.path_idx t.path_idx
                && (eqb s.source_node t.source_node && eqb s.sink_node t.sink_node))))

pub share_eqb_iff : (s t : Share) → (share_eqb s t ≡ true) ↔ (s ≡ t)
share_eqb_iff s t = ground arith

instance abbrev pub share_eq : Comparable Share
share_eq = record { equals = share_eqb; equals_iff = share_eqb_iff }

-- One share for each path of the message, numbered in the order of the paths.
unfoldable pub create_shares_for : ℕ → ℕ → ℕ → ℕ → List ℕ → List Share
create_shares_for flow_id source sink seq_num paths_for_message =
    map
      (λ numbered. record {
        flow_id = flow_id;
        seq_num = seq_num;
        share_num = numbered.0;
        path_idx = numbered.1;
        source_node = source;
        sink_node = sink;
      })
      (enumerate paths_for_message)

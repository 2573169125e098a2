-- ===== src/Statistics/Loss/Rates.antt =====
-- Every loss is that of a flow which was sent and received.
use cpsc_of_testbed.Base.{
  Option, ◌>>=◌, ℕ, [], Bool, true, false, ◌≡◌, refl, sym, ap, ◌∙◌, subst, inl, inr, ◌⊎◌, none,
  some, ok, >>=-eq-ok, ok_injective, fold_result_inv_in, In, if◌then◌else◌, ◌==◌, nat_eq,
  Bool-cases, eqb_iff,
}
use cpsc_of_testbed.Base.Dict.{Dict, lookup, insert, lookup-insert}
use cpsc_of_testbed.Base.Numbers.{Number}
use cpsc_of_testbed.Base.Text.{Text, text_eq, text_eqb_iff}
use cpsc_of_testbed.Statistics.Loss.{
  Counts, row_of, flows_of, count_at, set_count, Quotient, calc_pkt_loss, add_loss, add_losses,
  add_source, mk_loss_dict,
}

module _ {V : Type 0} where
  row_of-insert :
      (s t : Text) (row : Dict Text V) (d : Dict Text (Dict Text V))
      → row_of t (insert s row d) ≡ (if s == t then row else row_of t d)
  row_of-insert s t row d =
      ap (λ o. elim o [ none ↦ [] | some r ↦ r ]) (lookup-insert s t row d) ∙ go (s == t)
    where
      go :
          (b : Bool)
          → (elim (if b then some row else lookup t d) [ none ↦ [] | some r ↦ r ])
            ≡ (if b then row else row_of t d)
      go true = refl
      go false = refl

  flows_of-insert :
      (s t : Text) (row : Dict ℕ V) (d : Dict Text (Dict ℕ V))
      → flows_of t (insert s row d) ≡ (if s == t then row else flows_of t d)
  flows_of-insert s t row d =
      ap (λ o. elim o [ none ↦ [] | some r ↦ r ]) (lookup-insert s t row d) ∙ go (s == t)
    where
      go :
          (b : Bool)
          → (elim (if b then some row else lookup t d) [ none ↦ [] | some r ↦ r ])
            ≡ (if b then row else flows_of t d)
      go true = refl
      go false = refl

module _ {V : Type 0} where
  -- The count that was set, or that of before.
  count_at-set_count :
      (s d : Text) (p : ℕ) (v : V) (c : Counts V) (s' d' : Text) (p' : ℕ) (w : V)
      → count_at (set_count s d p v c) s' d' p' ≡ some w
      → ((s ≡ s') × (d ≡ d') × (p ≡ p') × (v ≡ w)) ⊎ (count_at c s' d' p' ≡ some w)
  count_at-set_count s d p v c s' d' p' w h = elim (Bool-cases (s == s')) [
    | inr n ↦ inr (rw n at (ap (λ r. lookup p' (flows_of d' r)) (sym (row_of-insert s s' _ c)) ∙ h))
    | inl e ↦
        let h1 = rw e at (ap (λ r. lookup p' (flows_of d' r)) (sym (row_of-insert s s' _ c)) ∙ h) in
        let same_source = (text_eqb_iff s s').0 e in
        elim (Bool-cases (d == d')) [
          | inr n ↦ inr (
              ap (λ t. lookup p' (flows_of d' (row_of t c))) (sym same_source)
              ∙ (rw n at (ap (lookup p') (sym (flows_of-insert d d' _ (row_of s c))) ∙ h1)))
          | inl f ↦
              let h2 = rw f at (ap (lookup p') (sym (flows_of-insert d d' _ (row_of s c))) ∙ h1) in
              let same_destination = (text_eqb_iff d d').0 f in
              elim (Bool-cases (p == p')) [
                | inr n ↦ inr (
                    ap (λ t. lookup p' (flows_of d' (row_of t c))) (sym same_source)
                    ∙ ap (λ t. lookup p' (flows_of t (row_of s c))) (sym same_destination)
                    ∙ (rw n at (sym (lookup-insert p p' v (flows_of d (row_of s c))) ∙ h2)))
                | inl g ↦ inl (
                  same_source,
                  same_destination,
                  (eqb_iff p p').0 g,
                  some_of (rw g at (sym (lookup-insert p p' v (flows_of d (row_of s c))) ∙ h2)),
                )
              ]
        ]
  ]
    where
      some_of : {a b : V} → some a ≡ some b → a ≡ b
      some_of h = cc

module _ {Num : Type 0} where
  -- Every loss is allowed by `P`.
  abbrev pub AllAllowed : (Text → Text → ℕ → Num → Type 0) → Counts Num → Type 0
  AllAllowed P c = (s d : Text) (p : ℕ) (w : Num) → count_at c s d p ≡ some w → P s d p w

module _ {N : Number} (Q : Quotient N) (rx_dict : Counts (Number.Num N)) where
  open N use {Num}

  -- A loss of the packets `sent` from `s` to `d` with the source port `p`, which are counted at `d`.
  abbrev pub IsLossOf : Text → Text → ℕ → Num → Num → Type 0
  IsLossOf s d p sent w =
      (received : Num) × (count_at rx_dict d s p ≡ some received)
      × (calc_pkt_loss Q sent received ≡ ok w)

  -- A loss that stands in the counts of senders.
  abbrev pub IsLossIn : Counts Num → Text → Text → ℕ → Num → Type 0
  IsLossIn tx s d p w =
      (row : Dict Text (Dict ℕ Num)) × In (s, row) tx
      × ((flows : Dict ℕ Num) × In (d, flows) row
          × ((sent : Num) × In (p, sent) flows × IsLossOf s d p sent w))

  module _ (P : Text → Text → ℕ → Num → Type 0) where
    add_loss-AllAllowed :
        (s d : Text) (e : ℕ × Num) (c c' : Counts Num)
        → ((w : Num) → IsLossOf s d e.0 e.1 w → P s d e.0 w)
        → AllAllowed P c
        → add_loss Q rx_dict s d c e ≡ ok c'
        → AllAllowed P c'
    unfolding add_loss
    add_loss-AllAllowed s d e c c' allowed before h s' d' p' w' found =
        go (count_at rx_dict d s e.0) refl h
      where
        go :
            (o : Option Num)
            → count_at rx_dict d s e.0 ≡ o
            → elim o [
              | none ↦ ok c
              | some rx_pkts ↦ calc_pkt_loss Q e.1 rx_pkts >>= λ loss. ok (set_count s d e.0 loss c)
            ]
              ≡ ok c'
            → P s' d' p' w'
        go none absent kept =
            before s' d' p' w' (ap (λ k. count_at k s' d' p') (ok_injective kept) ∙ found)
        go (some received) there h =
            let (loss, computed, kept) =
              >>=-eq-ok (calc_pkt_loss Q e.1 received) (λ loss. ok (set_count s d e.0 loss c)) h in
            elim (count_at-set_count s d e.0 loss c s' d' p' w'
              (ap (λ k. count_at k s' d' p') (ok_injective kept) ∙ found)) [
                | inr old ↦ before s' d' p' w' old
                | inl (source, dest, port, value) ↦
                    subst (λ t. P t d' p' w') source
                      (subst (λ t. P s t p' w') dest
                        (subst (λ t. P s d t w') port
                          (subst (P s d e.0) value (allowed loss (received, there, computed)))))
              ]

    add_losses-AllAllowed :
        (s : Text) (e : Text × Dict ℕ Num) (c c' : Counts Num)
        → ((p : ℕ) (t w : Num) → In (p, t) e.1 → IsLossOf s e.0 p t w → P s e.0 p w)
        → AllAllowed P c
        → add_losses Q rx_dict s c e ≡ ok c'
        → AllAllowed P c'
    unfolding add_losses
    add_losses-AllAllowed s e c c' allowed before h =
        fold_result_inv_in (AllAllowed P) (add_loss Q rx_dict s e.0) e.1
          (λ k x k' m. add_loss-AllAllowed s e.0 x k k' (λ w. allowed x.0 x.1 w m)) c c' before h

  -- Every loss in the result is that of a flow which the sender has counted, by the receiver's count
  -- of that flow.
  pub mk_loss_dict-IsLossIn :
      (tx_dict losses : Counts Num)
      → mk_loss_dict Q rx_dict tx_dict ≡ ok losses
      → (s d : Text) (p : ℕ) (w : Num) → count_at losses s d p ≡ some w
      → IsLossIn tx_dict s d p w
  unfolding mk_loss_dict add_source
  mk_loss_dict-IsLossIn tx_dict losses h =
      fold_result_inv_in (AllAllowed (IsLossIn tx_dict)) (add_source Q rx_dict) tx_dict
        (λ k x k' m.
          fold_result_inv_in (AllAllowed (IsLossIn tx_dict)) (add_losses Q rx_dict x.0) x.1
            (λ a y a' n.
              add_losses-AllAllowed (IsLossIn tx_dict) x.0 y a a'
                (λ p t w i loss. (x.1, m, (y.1, n, (t, i, loss)))))
            k k')
        [] losses (λ s d p w found. absurd_none found) h
    where
      absurd_none : {A : Type 0} {w : Num} → none ≡ some w → A
      absurd_none e = cc

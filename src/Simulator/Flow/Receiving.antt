-- ===== src/Simulator/Flow/Receiving.antt =====
-- The flow of a share that is on its way can receive it.
use cpsc_of_testbed.Base.{
  ℕ, suc, ◌+◌, ◌<◌, ◌≡◌, refl, sym, subst, ◌∙◌, none, some, ok, nat_eq, eqb, arith, if◌then◌else◌,
  Bool-cases, inl, inr, false, eq_self,
}
use cpsc_of_testbed.Base.Dict.{
  Dict, lookup, insert, erase, lookup-insert_self, lookup-insert_ne, lookup-erase_ne,
  lookup-erase_self, insert-IsUnique,
}
use cpsc_of_testbed.Simulator.Share.{Share}
use cpsc_of_testbed.Simulator.Flow.{Flow, receive_share}
use cpsc_of_testbed.Simulator.Flow.Accounting.{IsBalanced, receive_share-IsBalanced}
use cpsc_of_testbed.Simulator.Flow.Following.{IsFollowing, some_injective}

-- One share less is on its way, and one more is counted unless it was the last.
received-IsFollowing :
    (b : Flow) (χ χ' : ℕ → ℕ) (f : Flow) (seq c rx : ℕ) (d : Dict ℕ ℕ)
    → IsFollowing b χ f
    → c + χ seq ≡ b.k
    → IsBalanced (record f { messages_rx = rx; shares_received = d })
    → ((q : ℕ) → eqb seq q ≡ false → lookup q d ≡ lookup q f.shares_received)
    → ((c' : ℕ) → lookup seq d ≡ some c' → c' ≡ suc c)
    → (0 < χ' seq → lookup seq d ≡ some (suc c))
    → ((q : ℕ) → χ' q + (if eqb seq q then 1 else 0) ≡ χ q)
    → IsFollowing b χ' (record f { messages_rx = rx; shares_received = d })
received-IsFollowing b χ χ' f seq c rx d h sum balanced others counted left_over less = record {
  id = h.id;
  source = h.source;
  paths = h.paths;
  k = h.k;
  active = h.active;
  full = h.full;
  balanced = balanced;
  missing = λ q c' at. elim (Bool-cases (eqb seq q)) [
    | inl same ↦
        let here : q ≡ seq = ground arith in
        let one : χ' q + 1 ≡ χ q = rw same at (less q) in
        let old : c + χ q ≡ b.k = subst (λ i. c + χ i ≡ b.k) (sym here) sum in
        omega (arith, counted c' (subst (λ i. lookup i d ≡ some c') here at))
    | inr other ↦
        let none_less : χ' q + 0 ≡ χ q = rw other at (less q) in
        omega (arith, h.missing q c' (sym (others q other) ∙ at))
  ];
  expected = λ q left. elim (Bool-cases (eqb seq q)) [
    | inl same ↦
        let here : q ≡ seq = ground arith in
        let at = left_over (subst (λ i. 0 < χ' i) here left) in
        (suc c, subst (λ i. lookup i d ≡ some (suc c)) (sym here) at)
    | inr other ↦
        let none_less : χ' q + 0 ≡ χ q = rw other at (less q) in
        let (c', at) = h.expected q (omega arith) in (c', others q other ∙ at)
  ];
}

-- The flow of a share that is on its way can receive it.
pub receive_share-IsFollowing :
    (b : Flow) (χ : ℕ → ℕ) (f : Flow) (s : Share)
    → IsFollowing b χ f
    → 0 < χ s.seq_num
    → (f' : Flow) × (receive_share f s ≡ ok f')
      × (f'.seq_num ≡ f.seq_num)
      × ((χ' : ℕ → ℕ)
          → ((q : ℕ) → χ' q + (if eqb s.seq_num q then 1 else 0) ≡ χ q)
          → IsFollowing b χ' f')
unfolding receive_share
receive_share-IsFollowing b χ f s h pos =
    let seq = s.seq_num in
    let (c, at) = h.expected seq pos in
    let sum = h.missing seq c at in
    let counted : Dict ℕ ℕ = insert seq (suc c) f.shares_received in
    elim (Bool-cases (eqb (suc c) f.k)) [
      | inl e ↦
          let f' : Flow = record f {
            messages_rx = suc f.messages_rx;
            shares_received = erase seq counted;
          } in
          let received : receive_share f s ≡ ok f' = rw at (rw e refl) in
          let gone : lookup seq (erase seq counted) ≡ none =
            lookup-erase_self seq counted
              (insert-IsUnique seq (suc c) f.shares_received h.balanced.unique) in
          (
            f',
            received,
            refl,
            λ χ' less.
                received-IsFollowing b χ χ' f seq c (suc f.messages_rx) (erase seq counted) h sum
                  (receive_share-IsBalanced f f' s h.balanced received)
                  (λ q other.
                    lookup-erase_ne seq q counted other
                    ∙ lookup-insert_ne seq q (suc c) f.shares_received other)
                  (λ c' there. none_some c' (sym gone ∙ there))
                  (λ left.
                    let one : χ' seq + 1 ≡ χ seq = rw (eq_self seq) at (less seq) in
                    absurd (ground (arith, h.k)))
                  less,
          )
      | inr e ↦
          let f' : Flow = record f { shares_received = counted } in
          let received : receive_share f s ≡ ok f' = rw at (rw e refl) in
          let self = lookup-insert_self seq (suc c) f.shares_received in
          (
            f',
            received,
            refl,
            λ χ' less.
                received-IsFollowing b χ χ' f seq c f.messages_rx counted h sum
                  (receive_share-IsBalanced f f' s h.balanced received)
                  (λ q other. lookup-insert_ne seq q (suc c) f.shares_received other)
                  (λ c' there. some_injective (sym there ∙ self)) (λ left. self) less,
          )
    ]
  where
    none_some : {n : ℕ} (c : ℕ) → none ≡ some c → c ≡ n
    none_some c h = cc

-- ===== src/Simulator/Flow/Delivery.antt =====
-- When the shares of one message complete it.
use cpsc_of_testbed.Base.{
  sym, ℕ, suc, ◌+◌, ◌<◌, ◌≡◌, refl, ◌≢◌, List, [], ◌∷◌, some, none, ok, raise, key_error, length,
  nat_eq, arith, All, fold_result,
}
use cpsc_of_testbed.Base.Dict.{lookup, insert, lookup-insert, lookup-erase_self, insert-IsUnique}
use cpsc_of_testbed.Simulator.Share.{Share}
use cpsc_of_testbed.Simulator.Flow.{Flow, receive_share}
use cpsc_of_testbed.Simulator.Flow.Accounting.{IsBalanced, completed, waiting, waiting-IsBalanced}

abbrev pub IsOf : ℕ → Share → Type 0
IsOf j s = s.seq_num ≡ j

receive_share-waiting :
    (f : Flow) (s : Share) (v : ℕ)
    → lookup s.seq_num f.shares_received ≡ some v
    → suc v ≢ f.k
    → receive_share f s ≡ ok (waiting f s.seq_num v)
unfolding receive_share
receive_share-waiting f s v found more = ground arith

receive_share-completed :
    (f : Flow) (s : Share) (v : ℕ)
    → lookup s.seq_num f.shares_received ≡ some v
    → suc v ≡ f.k
    → receive_share f s ≡ ok (completed f s.seq_num v)
unfolding receive_share
receive_share-completed f s v found full = ground arith

at_share :
    (f : Flow) (s : Share) (j v : ℕ)
    → lookup j f.shares_received ≡ some v
    → s.seq_num ≡ j
    → lookup s.seq_num f.shares_received ≡ some v
at_share f s j v found same = rw same found

-- A share of a message that is not waiting, because it is complete or was never sent, raises
-- KeyError.
pub receive_share_unknown :
    (f : Flow) (s : Share)
    → lookup s.seq_num f.shares_received ≡ none
    → receive_share f s ≡ raise key_error
unfolding receive_share
receive_share_unknown f s h = ground arith

-- Shares that do not reach the threshold are counted, and complete nothing.
pub receive_shares_waiting :
    (f : Flow) (j v : ℕ) (shares : List Share)
    → IsBalanced f
    → lookup j f.shares_received ≡ some v
    → All (IsOf j) shares
    → v + length shares < f.k
    → (f' : Flow) × (fold_result receive_share f shares ≡ ok f')
      × IsBalanced f'
      × (f'.messages_rx ≡ f.messages_rx)
      × (lookup j f'.shares_received ≡ some (v + length shares))
      × (f'.k ≡ f.k)
unfolding fold_result
receive_shares_waiting f j v [] h found same few = (f, refl, h, refl, ground (arith, found), refl)
receive_shares_waiting f j v (s ∷ shares) h found same few =
    let here : lookup s.seq_num f.shares_received ≡ some v = at_share f s j v found same.0 in
    let (f', run, kept, rx, count, k) =
      receive_shares_waiting (waiting f s.seq_num v) j (suc v) shares
        (waiting-IsBalanced f s.seq_num v h here (omega arith))
        (ground (arith, same.0, lookup-insert s.seq_num j (suc v) f.shares_received)) same.1
        (omega arith) in
    (
      f',
      rw (receive_share-waiting f s v here (omega arith)) run,
      kept,
      rx,
      ground (arith, count),
      k,
    )

-- The shares that reach the threshold complete the message once: it is counted as received, and is
-- no longer waiting.
pub receive_shares_complete :
    (f : Flow) (j v : ℕ) (shares : List Share)
    → IsBalanced f
    → lookup j f.shares_received ≡ some v
    → All (IsOf j) shares
    → 0 < length shares
    → v + length shares ≡ f.k
    → (f' : Flow) × (fold_result receive_share f shares ≡ ok f')
      × (f'.messages_rx ≡ suc f.messages_rx)
      × (lookup j f'.shares_received ≡ none)
unfolding fold_result
receive_shares_complete f j v [] h found same some_shares few = absurd (omega arith)
receive_shares_complete f j v (s ∷ []) h found same some_shares few =
    let here : lookup s.seq_num f.shares_received ≡ some v = at_share f s j v found same.0 in
    (
      completed f s.seq_num v,
      rw (receive_share-completed f s v here (omega arith)),
      refl,
      rw (sym same.0) (
          lookup-erase_self s.seq_num (insert s.seq_num (suc v) f.shares_received)
            (insert-IsUnique s.seq_num (suc v) f.shares_received h.unique)),
    )
receive_shares_complete f j v (s ∷ t ∷ shares) h found same some_shares few =
    let here : lookup s.seq_num f.shares_received ≡ some v = at_share f s j v found same.0 in
    let (f', run, rx, gone) =
      receive_shares_complete (waiting f s.seq_num v) j (suc v) (t ∷ shares)
        (waiting-IsBalanced f s.seq_num v h here (omega arith))
        (ground (arith, same.0, lookup-insert s.seq_num j (suc v) f.shares_received)) same.1
        (omega arith) (omega arith) in
    (f', rw (receive_share-waiting f s v here (omega arith)) run, rx, gone)

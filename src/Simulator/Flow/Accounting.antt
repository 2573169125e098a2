-- ===== src/Simulator/Flow/Accounting.antt =====
-- What a flow counts: each message sent is complete, or is waiting for shares.
use cpsc_of_testbed.Base.{
  ℕ, suc, refl, ◌≢◌, ◌+◌, ◌<◌, ◌≡◌, List, [], ◌∷◌, some, none, ok, length, eqb, nat_eq, arith, All,
  inl, inr, Option-cases, Bool-cases,
}
use mathlib.Core.Path.{subst}
use cpsc_of_testbed.Base.Dict.{
  IsUnique, insert-IsUnique, erase-IsUnique, Dict, lookup, insert, erase, length-insert_new,
  length-insert_old, length-erase, lookup-insert,
}
use cpsc_of_testbed.Simulator.Share.{Share}
use cpsc_of_testbed.Simulator.Random.{Random}
use cpsc_of_testbed.Simulator.Flow.{Flow, make, create_shares, receive_share, hop}

-- A key below the next sequence number, with fewer shares than complete a message.
abbrev pub IsPending : ℕ → ℕ → ℕ × ℕ → Type 0
IsPending seq_num k e = (e.0 < seq_num) × (e.1 < k)

pub record IsBalanced (f : Flow) : Type 0 where
  pub threshold : 0 < f.k
  pub numbered : f.seq_num ≡ f.messages_tx
  pub counted : f.messages_rx + length f.shares_received ≡ f.messages_tx
  pub pending : All (IsPending f.seq_num f.k) f.shares_received
  pub unique : IsUnique f.shares_received

module _ (n k : ℕ) where
  IsPending-lookup_new : (d : Dict ℕ ℕ) → All (IsPending n k) d → lookup n d ≡ none
  IsPending-lookup_new [] h = refl
  IsPending-lookup_new ((j, v) ∷ d) h = ground (arith, IsPending-lookup_new d h.1)

  IsPending-insert :
      (j v : ℕ) (d : Dict ℕ ℕ)
      → j < n
      → v < k
      → All (IsPending n k) d
      → All (IsPending n k) (insert j v d)
  IsPending-insert j v [] p q h = ((p, q), tt)
  IsPending-insert j v ((i, w) ∷ d) p q h = elim (Bool-cases (eqb i j)) [
    | inl e ↦ rw e ((h.0.0, q), h.1)
    | inr e ↦ rw e (h.0, IsPending-insert j v d p q h.1)
  ]

  IsPending-erase-insert :
      (j v : ℕ) (d : Dict ℕ ℕ)
      → All (IsPending n k) d
      → All (IsPending n k) (erase j (insert j v d))
  IsPending-erase-insert j v [] h = ground arith
  IsPending-erase-insert j v ((i, w) ∷ d) h = elim (Bool-cases (eqb i j)) [
    | inl e ↦ rw (e, e) h.1
    | inr e ↦ rw (e, e) (h.0, IsPending-erase-insert j v d h.1)
  ]

IsPending-suc : (n k : ℕ) (d : Dict ℕ ℕ) → All (IsPending n k) d → All (IsPending (suc n) k) d
IsPending-suc n k [] h = tt
IsPending-suc n k (e ∷ d) h = ((omega arith, h.0.1), IsPending-suc n k d h.1)

pub make-IsBalanced :
    (source sink volume : ℕ) (paths : List (List ℕ)) (n k flow_id : ℕ)
    → 0 < k
    → IsBalanced (make source sink volume paths n k flow_id)
unfolding make
make-IsBalanced source sink volume paths n k flow_id h = record {
  threshold = h;
  numbered = refl;
  counted = refl;
  pending = tt;
  unique = tt;
}

pub create_shares-IsBalanced : (f : Flow) → IsBalanced f → IsBalanced (create_shares f).1
unfolding create_shares
create_shares-IsBalanced f h = record {
  threshold = h.threshold;
  numbered = omega arith;
  counted = omega (
    arith,
    length-insert_new f.seq_num 0 f.shares_received
        (IsPending-lookup_new f.seq_num f.k f.shares_received h.pending),
  );
  pending =
      IsPending-insert (suc f.seq_num) f.k f.seq_num 0 f.shares_received (omega arith) h.threshold
        (IsPending-suc f.seq_num f.k f.shares_received h.pending);
  unique = insert-IsUnique f.seq_num 0 f.shares_received h.unique;
}

IsPending-lookup :
    (n k j v : ℕ) (d : Dict ℕ ℕ) → All (IsPending n k) d → lookup j d ≡ some v → (j < n) × (v < k)
IsPending-lookup n k j v [] h e = cc
IsPending-lookup n k j v ((i, w) ∷ d) h e = ground (arith, IsPending-lookup n k j v d h.1)

-- The flow that a share leaves behind, where the message of the share is waiting with `v` shares.
abbrev pub completed : Flow → ℕ → ℕ → Flow
completed f j v = record f {
  messages_rx = suc f.messages_rx;
  shares_received = erase j (insert j (suc v) f.shares_received);
}

abbrev pub waiting : Flow → ℕ → ℕ → Flow
waiting f j v = record f { shares_received = insert j (suc v) f.shares_received }

module _ (f : Flow) (j v : ℕ) (h : IsBalanced f) (found : lookup j f.shares_received ≡ some v) where
  completed-IsBalanced : IsBalanced (completed f j v)
  completed-IsBalanced =
      let d = f.shares_received in
      let again : lookup j (insert j (suc v) d) ≡ some (suc v) =
        ground (arith, lookup-insert j j (suc v) d) in
      record {
        threshold = h.threshold;
        numbered = h.numbered;
        counted = omega (
          arith,
          length-erase j (suc v) (insert j (suc v) d) again,
          length-insert_old j (suc v) v d found,
        );
        pending = IsPending-erase-insert f.seq_num f.k j (suc v) d h.pending;
        unique = erase-IsUnique j (insert j (suc v) d) (insert-IsUnique j (suc v) d h.unique);
      }

  pub waiting-IsBalanced : suc v ≢ f.k → IsBalanced (waiting f j v)
  waiting-IsBalanced more =
      let (below, few) = IsPending-lookup f.seq_num f.k j v f.shares_received h.pending found in
      record {
        threshold = h.threshold;
        numbered = h.numbered;
        counted = omega (arith, length-insert_old j (suc v) v f.shares_received found);
        pending =
            IsPending-insert f.seq_num f.k j (suc v) f.shares_received below (omega arith)
              h.pending;
        unique = insert-IsUnique j (suc v) f.shares_received h.unique;
      }

pub receive_share-IsBalanced :
    (f f' : Flow) (s : Share) → IsBalanced f → receive_share f s ≡ ok f' → IsBalanced f'
unfolding receive_share
receive_share-IsBalanced f f' s h e = elim (Option-cases (lookup s.seq_num f.shares_received)) [
  | inl miss ↦ absurd (ground arith)
  | inr (v, found) ↦ elim (Bool-cases (eqb (suc v) f.k)) [
    | inl full ↦ subst IsBalanced (ground arith) (completed-IsBalanced f s.seq_num v h found)
    | inr more ↦
        subst IsBalanced (ground arith) (waiting-IsBalanced f s.seq_num v h found (ground arith))
  ]
]

-- Hopping changes only the paths that are active.
pub hop-IsBalanced :
    (r : Random) (draw : ℕ) (f f' : Flow) (next : ℕ)
    → IsBalanced f
    → hop r draw f ≡ ok (f', next)
    → IsBalanced f'
unfolding hop
hop-IsBalanced r draw f f' next h e = ground arith

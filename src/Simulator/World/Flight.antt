-- ===== src/Simulator/World/Flight.antt =====
-- How many of the shares on their way are of one kind.
use cpsc_of_testbed.Base.{
  ℕ, suc, ◌+◌, ◌≤◌, ◌<◌, ◌≡◌, refl, List, [], ◌∷◌, ◌++◌, map, Bool, nat_eq, eqb, arith, All, length,
  if◌then◌else◌, ◌&&◌, Bool-cases, inl, inr, true, false, contains, add, enumerate_from, eq_self,
}
use cpsc_of_testbed.Simulator.Share.{Share, share_eq, share_eqb}

unfoldable pub flight : (Share → Bool) → List Share → ℕ
flight p [] = 0
flight p (s ∷ ss) = (if p s then 1 else 0) + flight p ss

-- The shares of a message.
abbrev pub is_of : ℕ → ℕ → Share → Bool
is_of j q s = eqb s.flow_id j && eqb s.seq_num q

pub flight-append :
    (p : Share → Bool) (ss ts : List Share) → flight p (ss ++ ts) ≡ flight p ss + flight p ts
unfolding flight
flight-append p [] ts = omega arith
flight-append p (s ∷ ss) ts = omega (arith, flight-append p ss ts)

pub flight-cons :
    (p : Share → Bool) (s : Share) (ss : List Share)
    → flight p (s ∷ ss) ≡ flight p (s ∷ []) + flight p ss
flight-cons p s ss = flight-append p (s ∷ []) ss

pub flight_none : (p : Share → Bool) → flight p [] ≡ 0
unfolding flight
flight_none p = refl

pub flight_self : (s : Share) → flight (share_eqb s) (s ∷ []) ≡ 1
unfolding flight
flight_self s = rw (eq_self s) (omega arith)

-- A share alone, among those of its own flow.
pub flight_own :
    (q : ℕ) (s : Share) → flight (is_of s.flow_id q) (s ∷ []) ≡ (if eqb s.seq_num q then 1 else 0)
unfolding flight
flight_own q s = rw (eq_self s.flow_id) (omega arith)

-- A share alone, among those of another flow.
pub flight_foreign :
    (j q : ℕ) (s : Share) → eqb s.flow_id j ≡ false → flight (is_of j q) (s ∷ []) ≡ 0
unfolding flight
flight_foreign j q s e = rw e refl

flight-contains : (s : Share) (ss : List Share) → contains s ss ≡ true → 0 < flight (share_eqb s) ss
unfolding flight
flight-contains s [] h = cc
flight-contains s (t ∷ ss) h = elim (Bool-cases (share_eqb s t)) [
  | inl e ↦ rw e (omega arith)
  | inr e ↦ rw e (omega (arith, flight-contains s ss (rw e at h)))
]

-- A share that is not in the set is added to it.
pub flight-add :
    (p : Share → Bool) (s : Share) (ss : List Share)
    → flight (share_eqb s) ss ≡ 0
    → flight p (add s ss) ≡ flight p ss + flight p (s ∷ [])
flight-add p s ss new = elim (Bool-cases (contains s ss)) [
  | inl e ↦ absurd (omega (arith, flight-contains s ss e))
  | inr e ↦ rw e (flight-append p ss (s ∷ []))
]

-- Of a narrower kind there are not more.
pub flight-le :
    (p q : Share → Bool) (ss : List Share)
    → ((s : Share) → p s ≡ true → q s ≡ true)
    → flight p ss ≤ flight q ss
unfolding flight
flight-le p q [] h = omega arith
flight-le p q (s ∷ ss) h = elim (Bool-cases (p s)) [
  | inl e ↦ rw (e, h s e) (omega (arith, flight-le p q ss h))
  | inr e ↦ rw e (omega (arith, flight-le p q ss h))
]

-- If there is one of a kind, a list all of whose shares have a property has one with both.
pub flight-found {κ} :
    (P : Share → Type κ) (p : Share → Bool) (ss : List Share)
    → All P ss
    → 0 < flight p ss
    → (s : Share) × P s × (p s ≡ true)
unfolding flight
flight-found P p [] h pos = absurd (omega arith)
flight-found P p (s ∷ ss) h pos = elim (Bool-cases (p s)) [
  | inl e ↦ (s, h.0, e)
  | inr e ↦ flight-found P p ss h.1 (ground arith)
]

-- The shares of a new message.
abbrev pub created : ℕ → ℕ → ℕ → ℕ → ℕ → List ℕ → List Share
created id source sink seq i paths =
    map
      (λ numbered. record {
        flow_id = id;
        seq_num = seq;
        share_num = numbered.0;
        path_idx = numbered.1;
        source_node = source;
        sink_node = sink;
      })
      (enumerate_from i paths)

pub flight-created :
    (j q id source sink seq i : ℕ) (paths : List ℕ)
    → flight (is_of j q) (created id source sink seq i paths)
      ≡ (if eqb id j && eqb seq q then length paths else 0)
unfolding flight
flight-created j q id source sink seq i [] = ground arith
flight-created j q id source sink seq i (x ∷ xs) =
    ground (arith, flight-created j q id source sink seq (suc i) xs)

abbrev first_share : ℕ → ℕ → ℕ → ℕ → ℕ → ℕ → Share
first_share id source sink seq i x = record {
  flow_id = id;
  seq_num = seq;
  share_num = i;
  path_idx = x;
  source_node = source;
  sink_node = sink;
}

-- They differ in their numbers.
created_once :
    (t : Share) (id source sink seq i : ℕ) (paths : List ℕ)
    → (flight (share_eqb t) (created id source sink seq i paths) ≤ 1)
      × (t.share_num < i → flight (share_eqb t) (created id source sink seq i paths) ≡ 0)
unfolding flight
created_once t id source sink seq i [] = (omega arith, λ h. refl)
created_once t id source sink seq i (x ∷ xs) =
    let (once, later) = created_once t id source sink seq (suc i) xs in
    elim (Bool-cases (share_eqb t (first_share id source sink seq i x))) [
      | inl e ↦
          let at : t.share_num ≡ i = ground arith in
          let none_later = later (omega arith) in (rw e (omega arith), λ h. absurd (omega arith))
      | inr e ↦ (rw e (omega arith), λ h. rw e (omega (arith, later (omega arith))))
    ]

-- They are all of the message.
pub created_other :
    (t : Share) (id source sink seq i : ℕ) (paths : List ℕ)
    → is_of id seq t ≡ false
    → flight (share_eqb t) (created id source sink seq i paths) ≡ 0
unfolding flight
created_other t id source sink seq i [] other = refl
created_other t id source sink seq i (x ∷ xs) other =
    ground (arith, created_other t id source sink seq (suc i) xs other)

pub created-le-one :
    (t : Share) (id source sink seq : ℕ) (paths : List ℕ)
    → flight (share_eqb t) (created id source sink seq 0 paths) ≤ 1
created-le-one t id source sink seq paths = (created_once t id source sink seq 0 paths).0

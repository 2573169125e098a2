-- ===== src/Simulator/Flow/Following.antt =====
-- What a flow knows of the shares that are on their way, and that it never raises for one of them.
use cpsc_of_testbed.Base.Lists.Distinct.{length-range_from, In-range_from}
use cpsc_of_testbed.Base.{
  ℕ, suc, ◌+◌, ◌≤◌, ◌<◌, ◌≡◌, refl, sym, ap, subst, ◌∙◌, List, some, ok, nat_eq, eqb, arith, All,
  All_of, length, if◌then◌else◌, Bool-cases, inl, inr, false, range, ltb,
}
use cpsc_of_testbed.Base.Dict.{lookup, insert, lookup-insert_self, lookup-insert_ne}
use cpsc_of_testbed.Base.Dict.Totals.{Entries-lookup}
use cpsc_of_testbed.Simulator.Flow.{Flow, create_shares, hop}
use cpsc_of_testbed.Simulator.Flow.Accounting.{IsBalanced, create_shares-IsBalanced, hop-IsBalanced}
use cpsc_of_testbed.Simulator.Random.{Random, IsRandom, sample}

-- What a flow keeps of the flow `b` that it was at the start, and what it knows of the shares on their
-- way, of which there are `χ q` with the sequence number `q`: they are just those that it misses.
pub record IsFollowing (b : Flow) (χ : ℕ → ℕ) (f : Flow) : Type 0 where
  pub id : f.flow_id ≡ b.flow_id
  pub source : f.source_node ≡ b.source_node
  pub paths : f.paths ≡ b.paths
  pub k : f.k ≡ b.k
  pub active : All (λ i. i < length b.paths) f.active_paths
  pub full : length f.active_paths ≡ b.k
  pub balanced : IsBalanced f
  pub missing : (q c : ℕ) → lookup q f.shares_received ≡ some c → c + χ q ≡ b.k
  pub expected : (q : ℕ) → 0 < χ q → (c : ℕ) × (lookup q f.shares_received ≡ some c)

-- A message that is waiting has a number that was given, and fewer shares than complete it.
pub waiting-bounds :
    (f : Flow) (q c : ℕ)
    → IsBalanced f
    → lookup q f.shares_received ≡ some c
    → (q < f.seq_num) × (c < f.k)
waiting-bounds f q c h at =
    Entries-lookup (λ i v. (i < f.seq_num) × (v < f.k)) q c f.shares_received h.pending at

pub same-IsFollowing :
    (b : Flow) (χ χ' : ℕ → ℕ) (f : Flow)
    → IsFollowing b χ f
    → ((q : ℕ) → χ' q ≡ χ q)
    → IsFollowing b χ' f
same-IsFollowing b χ χ' f h same = record {
  id = h.id;
  source = h.source;
  paths = h.paths;
  k = h.k;
  active = h.active;
  full = h.full;
  balanced = h.balanced;
  missing = λ q c at. omega (arith, h.missing q c at, same q);
  expected = λ q left. h.expected q (omega (arith, same q));
}

-- No share is on its way with a number that is still to be given.
pub fresh_none :
    (b : Flow) (χ : ℕ → ℕ) (f : Flow) (q : ℕ) → IsFollowing b χ f → f.seq_num ≤ q → χ q ≡ 0
fresh_none b χ f q h new = elim (Bool-cases (ltb 0 (χ q))) [
  | inl e ↦
      let (c, at) = h.expected q (ground arith) in
      let bounds = waiting-bounds f q c h.balanced at in absurd (omega arith)
  | inr e ↦ ground arith
]

pub some_injective : {a b : ℕ} → some a ≡ some b → a ≡ b
some_injective h = cc

-- A new message has a number of its own, and all its shares are on their way.
pub create_shares-IsFollowing :
    (b : Flow) (χ χ' : ℕ → ℕ) (f : Flow)
    → IsFollowing b χ f
    → ((q : ℕ) → χ' q ≡ χ q + (if eqb f.seq_num q then length f.active_paths else 0))
    → IsFollowing b χ' (create_shares f).1
unfolding create_shares
create_shares-IsFollowing b χ χ' f h more = record {
  id = h.id;
  source = h.source;
  paths = h.paths;
  k = h.k;
  active = h.active;
  full = h.full;
  balanced = create_shares-IsBalanced f h.balanced;
  missing = λ q c at. elim (Bool-cases (eqb f.seq_num q)) [
    | inl e ↦
        let same : f.seq_num ≡ q = ground arith in
        let self =
          subst (λ i. lookup q (insert i 0 f.shares_received) ≡ some 0) (sym same)
            (lookup-insert_self q 0 f.shares_received) in
        let zero_yet : c ≡ 0 = some_injective (sym at ∙ self) in
        let none_yet = fresh_none b χ f q h (omega arith) in
        let bound = more q in ground (arith, h.full)
    | inr e ↦
        let old = lookup-insert_ne f.seq_num q 0 f.shares_received e in
        let bound = more q in let sum = h.missing q c (sym old ∙ at) in ground arith
  ];
  expected = λ q left. elim (Bool-cases (eqb f.seq_num q)) [
    | inl e ↦
        let same : f.seq_num ≡ q = ground arith in
        (
          0,
          subst (λ i. lookup q (insert i 0 f.shares_received) ≡ some 0) (sym same)
              (lookup-insert_self q 0 f.shares_received),
        )
    | inr e ↦
        let bound = more q in
        let (c, at) = h.expected q (ground arith) in
        (c, lookup-insert_ne f.seq_num q 0 f.shares_received e ∙ at)
  ];
}

-- A flow that has K paths at least can hop.
pub hop-IsFollowing :
    (r : Random) (draw : ℕ) (b : Flow) (χ : ℕ → ℕ) (f : Flow)
    → IsRandom r
    → IsFollowing b χ f
    → b.k ≤ length b.paths
    → (f' : Flow) × (next : ℕ) × (hop r draw f ≡ ok (f', next))
      × (f'.seq_num ≡ f.seq_num)
      × IsFollowing b χ f'
unfolding hop sample
hop-IsFollowing r draw b χ f random h enough =
    let population : List ℕ = range (length f.paths) in
    let size : length population ≡ length f.paths = length-range_from 0 (length f.paths) in
    let same : length f.paths ≡ length b.paths = ap length h.paths in
    let fits : f.k ≤ length population = omega (arith, h.k) in
    let few : ltb (length population) f.k ≡ false = ground arith in
    let f' : Flow = record f { active_paths = r.choice draw population f.k } in
    let hopped : hop r draw f ≡ ok (f', suc draw) = rw few refl in
    let sized = random.sized draw population f.k fits in
    (
      f',
      suc draw,
      hopped,
      refl,
      record {
        id = h.id;
        source = h.source;
        paths = h.paths;
        k = h.k;
        active =
            All_of (λ i. i < length b.paths) (r.choice draw population f.k)
              (λ x m. omega (
                arith,
                In-range_from x 0 (length f.paths) (random.drawn draw population f.k x fits m),
              ));
        full = omega (arith, h.k);
        balanced = hop-IsBalanced r draw f f' (suc draw) h.balanced hopped;
        missing = h.missing;
        expected = h.expected;
      },
    )

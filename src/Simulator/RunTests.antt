-- ===== src/Simulator/RunTests.antt =====
-- A run on the network of two disjoint paths, 0-1-3 and 0-2-3, of a flow that sends over both.
use cpsc_of_testbed.Base.{
  zero, ℕ, suc, ◌≤◌, ◌≡◌, refl, List, [], ◌∷◌, ok, take, arith, length, nat_eq, In, Nodup, contains,
  false, inl, inr, All,
}
use cpsc_of_testbed.Base.Dict.{AllValues}
use cpsc_of_testbed.Simulator.Random.{Random, IsRandom}
use cpsc_of_testbed.Simulator.Flow.{Flow, make, hop, create_random_flow}
use cpsc_of_testbed.Simulator.World.{World, create, run}
use cpsc_of_testbed.Simulator.World.Following.{IsPathFrom}
use cpsc_of_testbed.Simulator.World.Created.{CanRun}
use cpsc_of_testbed.Simulator.World.Delivered.{IsPunctual, IsOnPath, run-delivers}
use cpsc_of_testbed.Simulator.World.Drawn.{create_random_flow-CanRun}

-- The draws take the first values of the population.
abbrev pub first_values : Random
first_values = record { choice = λ i xs k. take k xs }

length-take : (xs : List ℕ) (k : ℕ) → k ≤ length xs → length (take k xs) ≡ k
length-take xs zero h = refl
length-take [] (suc k) h = absurd (omega arith)
length-take (x ∷ xs) (suc k) h = omega (arith, length-take xs k (omega arith))

In-take : (x : ℕ) (xs : List ℕ) (k : ℕ) → In x (take k xs) → In x xs
In-take x xs zero m = absurd m
In-take x [] (suc k) m = m
In-take x (y ∷ xs) (suc k) (inl e) = inl e
In-take x (y ∷ xs) (suc k) (inr m) = inr (In-take x xs k m)

contains-take :
    (x : ℕ) (xs : List ℕ) (k : ℕ) → contains x xs ≡ false → contains x (take k xs) ≡ false
contains-take x xs zero h = refl
contains-take x [] (suc k) h = refl
contains-take x (y ∷ xs) (suc k) h = ground (arith, contains-take x xs k)

Nodup-take : (xs : List ℕ) (k : ℕ) → Nodup xs → Nodup (take k xs)
Nodup-take xs zero h = tt
Nodup-take [] (suc k) h = tt
Nodup-take (x ∷ xs) (suc k) h = (contains-take x xs k h.0, Nodup-take xs k h.1)

first_values-IsRandom : IsRandom first_values
first_values-IsRandom = record {
  sized = λ i xs k h. length-take xs k h;
  drawn = λ i xs k x h m. In-take x xs k m;
  distinct = λ i xs k h. Nodup-take xs k h;
}

abbrev two_paths : List (List ℕ)
two_paths = (0 ∷ 1 ∷ 3 ∷ []) ∷ (0 ∷ 2 ∷ 3 ∷ []) ∷ []

abbrev nodes : List ℕ
nodes = 0 ∷ 1 ∷ 2 ∷ 3 ∷ []

abbrev flow : Flow
flow = record {
  flow_id = 7;
  source_node = 0;
  sink_node = 3;
  paths = two_paths;
  active_paths = 0 ∷ 1 ∷ [];
  data_volume = 1;
  n = 2;
  k = 2;
  seq_num = 0;
  shares_received = [];
  messages_tx = 0;
  messages_rx = 0;
}

-- What the tests compute with.
program : Unit {0}
unfolding make hop create_random_flow
program = tt

drawn : create_random_flow first_values 0 nodes (λ s t. two_paths) 2 2 1 0 3 7 ≡ ok (flow, 1)
unfolding program
drawn = refl

routes : All (IsPathFrom nodes 3 0) two_paths
routes = (
  (
    refl,
    (refl, (refl, (refl, tt))),
    omega arith,
    (inl refl, (inr (inl refl), (inr (inr (inr (inl refl))), tt))),
  ),
  (
    (
      refl,
      (refl, (refl, (refl, tt))),
      omega arith,
      (inl refl, (inr (inr (inl refl)), (inr (inr (inr (inl refl))), tt))),
    ),
    tt,
  ),
)

create_random_flow-CanRun_example : CanRun nodes 3 flow
create_random_flow-CanRun_example =
    create_random_flow-CanRun first_values 0 nodes (λ s t. two_paths) 2 2 1 0 3 7 3 flow 1
      first_values-IsRandom (omega arith) routes drawn

flow-CanRun : CanRun nodes 3 flow
flow-CanRun = record {
  known = inl refl;
  enough = omega arith;
  routes = routes;
  active = (omega arith, (omega arith, tt));
  full = refl;
  balanced = record {
    threshold = omega arith;
    numbered = refl;
    counted = refl;
    pending = tt;
    unique = tt;
  };
  fresh = refl;
}

run-delivers_example :
    (w : World) × (run first_values 9 (create nodes (flow ∷ []) 1) ≡ ok w)
    × AllValues (IsPunctual 9 3) w.flows
    × All (λ e. All (IsOnPath w.flows 9 e.0) e.1.resident_shares) w.nodes
run-delivers_example =
    run-delivers first_values nodes 3 (flow ∷ []) 1 9 first_values-IsRandom (flow-CanRun, tt)

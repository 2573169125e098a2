-- ===== src/Simulator/Random.antt =====
-- `np.random.choice(population, k, replace=False)`, which is numpy's and not the program's: the
-- draws are a parameter, numbered by their position in the stream of the seeded generator.
use cpsc_of_testbed.Base.{
  nat_eq, ℕ, suc, ◌≤◌, ◌≡◌, List, [], ◌∷◌, length, In, Nodup, ltb, if◌then◌else◌, Result, ok, raise,
  value_error,
}

pub record Random : Type 0 where
  -- The sample of the draw with this number, from the population, of this size.
  pub choice : ℕ → List ℕ → ℕ → List ℕ

-- What numpy documents of a sample without replacement.
pub record IsRandom (r : Random) : Type 0 where
  pub sized : (i : ℕ) (xs : List ℕ) (k : ℕ) → k ≤ length xs → length (r.choice i xs k) ≡ k
  pub drawn : (i : ℕ) (xs : List ℕ) (k x : ℕ) → k ≤ length xs → In x (r.choice i xs k) → In x xs
  pub distinct : (i : ℕ) (xs : List ℕ) (k : ℕ) → Nodup xs → Nodup (r.choice i xs k)

-- A sample larger than the population raises ValueError; each call takes the next draw.
unfoldable pub sample : Random → ℕ → List ℕ → ℕ → Result (List ℕ × ℕ)
sample r draw xs k =
    if ltb (length xs) k then raise value_error else ok (r.choice draw xs k, suc draw)

-- `np.random.choice(population)`: one value, of a population that is not empty.
unfoldable pub sample_one : Random → ℕ → List ℕ → Result (ℕ × ℕ)
sample_one r draw xs = elim (r.choice draw xs 1) [
  | [] ↦ raise value_error
  | x ∷ rest ↦ if ltb (length xs) 1 then raise value_error else ok (x, suc draw)
]

-- ===== src/Statistics/Utilization/Frames.antt =====
-- The mean of the counts between samples.
use cpsc_of_testbed.Base.{suc, List, [], ◌∷◌, ◌≡◌, refl, ap, ◌∙◌, ok, raise, value_error, length}
use cpsc_of_testbed.Base.Numbers.{Number, zero_num, sum_from}
use cpsc_of_testbed.Base.Integers.{HasDifferences}
use cpsc_of_testbed.Statistics.Utilization.{frames, mean}

module _ (N : Number) where
  open N use {Num, minus, plus, divide}

  -- The last of some samples, the first of which is given.
  abbrev pub last_sample : Num → List Num → Num
  last_sample x [] = x
  last_sample x (y ∷ ys) = last_sample y ys

  sum-frames :
      (x : Num) (acc y : Num) (ys : List Num)
      → HasDifferences N
      → acc ≡ minus y x
      → sum_from N acc (frames N (y ∷ ys)) ≡ minus (last_sample y ys) x
  unfolding frames
  sum-frames x acc y [] d h = h
  sum-frames x acc y (z ∷ zs) d h =
      sum-frames x (plus acc (minus z y)) z zs d
        (ap (λ a. plus a (minus z y)) h ∙ d.minus_plus x y z)

  length-frames : (x : Num) (ys : List Num) → length (frames N (x ∷ ys)) ≡ length ys
  unfolding frames
  length-frames x [] = refl
  length-frames x (y ∷ ys) = ap suc (length-frames y ys)

  -- The mean count between samples depends on the first and the last sample only: their difference
  -- by the number of steps between them. A single sample raises a ValueError.
  pub mean-frames :
      (x : Num) (ys : List Num)
      → HasDifferences N
      → mean N (frames N (x ∷ ys)) ≡ elim ys [
        | [] ↦ raise value_error
        | y ∷ zs ↦ ok (divide (minus (last_sample y zs) x) (length (y ∷ zs)))
      ]
  unfolding mean frames
  mean-frames x [] d = refl
  mean-frames x (y ∷ zs) d =
      ap (λ s. ok (divide s (length (frames N (x ∷ y ∷ zs)))))
        (sum-frames x (plus (zero_num N) (minus y x)) y zs d (d.zero_plus (minus y x)))
      ∙ ap (λ n. ok (divide (minus (last_sample y zs) x) n)) (length-frames x (y ∷ zs))

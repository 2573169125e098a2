-- ===== src/Statistics/Samples/Links.antt =====
-- The rate of a link is that of both its directions.
use cpsc_of_testbed.Base.{List, [], ◌∷◌, Option, some, filter, ◌==◌, Bool, ◌&&◌, ◌||◌}
use cpsc_of_testbed.Base.Dict.{Dict}
use cpsc_of_testbed.Base.Numbers.{Number, sum_from}
use cpsc_of_testbed.Base.Text.{Text, text_eq, text_pair_eq}
use cpsc_of_testbed.Statistics.Samples.{IfaceStats, or_zero, key_of}

module _ (N : Number) where
  open N use {Num, ratio, plus, minus, times, divide}

  abbrev with_key : Text × Text → List (IfaceStats N) → List (IfaceStats N)
  with_key key = filter (λ (i : IfaceStats N). key_of N i == key)

  abbrev is_between : Text → Text → IfaceStats N → Bool
  is_between a b i = (i.source_id == a) && (i.destination_id == b)

  -- The interfaces between two switches, in either direction.
  abbrev pub of_link : Text → Text → List (IfaceStats N) → List (IfaceStats N)
  of_link a b = filter (λ i. is_between a b i || is_between b a i)

  -- What an interface has sent until the next sample: nothing where that has not exactly one sample
  -- of it.
  abbrev pub sent_until : List (IfaceStats N) → IfaceStats N → Num
  sent_until t_1 i = elim (filter (is_between i.source_id i.destination_id) t_1) [
    | [] ↦ minus i.bytes_sent i.bytes_sent
    | j ∷ [] ↦ minus j.bytes_sent i.bytes_sent
    | j ∷ k ∷ more ↦ minus i.bytes_sent i.bytes_sent
  ]

  -- What a link has before, and what its interfaces add.
  abbrev sum_on : Option Num → List Num → Option Num
  sum_on o [] = o
  sum_on o (x ∷ xs) = some (sum_from N (plus (or_zero N o) x) xs)

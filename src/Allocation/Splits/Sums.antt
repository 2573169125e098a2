-- ===== src/Allocation/Splits/Sums.antt =====
-- The load that a splitting of the flows puts on a link: the sum, over the flows and their paths, of
-- the rate of a path for each time that it passes the link.
use mathlib.Core.Path.{subst}
use cpsc_of_testbed.Base.{
  ℕ, List, [], ◌∷◌, ◌≡◌, refl, sym, ◌∙◌, Bool, true, false, none, some, eqb, pairwise,
  enumerate_from, pair_eq, ap,
}
use cpsc_of_testbed.Base.Dict.{Dict, lookup}
use cpsc_of_testbed.Base.Numbers.{Number, zero_num, Le, IsOrdered}
use cpsc_of_testbed.Allocation.Flow.{Flow}
use cpsc_of_testbed.Allocation.Greedy.{Link, sorted_link}
use cpsc_of_testbed.Allocation.Program.{Variable, split}

module _ (N : Number) (links : Dict Link ℕ) (a : Variable → Number.Num N) (k : ℕ) where
  open N use {Num, plus, times}

  -- The link has the index k.
  abbrev pub is_at : Link → Bool
  is_at l = elim (lookup (sorted_link l) links) [ none ↦ false | some i ↦ eqb i k ]

  abbrev pub plus_if : Bool → Num → Num → Num
  plus_if true acc x = plus acc x
  plus_if false acc x = acc

  abbrev pub load_links : Num → List Link → Num → Num
  load_links x [] acc = acc
  load_links x (l ∷ ls) acc = load_links x ls (plus_if (is_at l) acc x)

  abbrev pub load_paths : ℕ → Num → List (ℕ × List ℕ) → Num → Num
  load_paths i rate [] acc = acc
  load_paths i rate (p ∷ ps) acc =
      load_paths i rate ps (load_links (times (a (split i p.0)) rate) (pairwise p.1) acc)

  abbrev pub paths_list : Flow N → List (List ℕ)
  paths_list f = elim f.paths [ none ↦ [] | some ps ↦ ps ]

  abbrev pub load_flow : ℕ × Flow N → Num → Num
  load_flow f acc = load_paths f.0 f.1.flow_tx_rate (enumerate_from 0 (paths_list f.1)) acc

  abbrev pub load_flows : List (ℕ × Flow N) → Num → Num
  load_flows [] acc = acc
  load_flows (f ∷ fs) acc = load_flows fs (load_flow f acc)

  module _ (laws : IsOrdered N) where
    -- A sum that starts from c + m is c and the sum that starts from m.
    plus_if-plus : (b : Bool) (c m x : Num) → plus_if b (plus c m) x ≡ plus c (plus_if b m x)
    plus_if-plus true c m x = laws.plus_assoc c m x
    plus_if-plus false c m x = refl

    load_links-plus :
        (x : Num) (ls : List Link) (c m : Num)
        → load_links x ls (plus c m) ≡ plus c (load_links x ls m)
    load_links-plus x [] c m = refl
    load_links-plus x (l ∷ ls) c m =
        ap (load_links x ls) (plus_if-plus (is_at l) c m x)
        ∙ load_links-plus x ls c (plus_if (is_at l) m x)

    load_paths-plus :
        (i : ℕ) (rate : Num) (ps : List (ℕ × List ℕ)) (c m : Num)
        → load_paths i rate ps (plus c m) ≡ plus c (load_paths i rate ps m)
    load_paths-plus i rate [] c m = refl
    load_paths-plus i rate (p ∷ ps) c m =
        let x = times (a (split i p.0)) rate in
        ap (load_paths i rate ps) (load_links-plus x (pairwise p.1) c m)
        ∙ load_paths-plus i rate ps c (load_links x (pairwise p.1) m)

    load_flow-plus : (f : ℕ × Flow N) (c : Num) → load_flow f c ≡ plus c (load_flow f (zero_num N))
    load_flow-plus f c =
        ap (load_flow f) (sym (laws.plus_zero c))
        ∙ load_paths-plus f.0 f.1.flow_tx_rate (enumerate_from 0 (paths_list f.1)) c (zero_num N)

    -- So a flow adds to acc no more than it adds to acc and a number that is not negative.
    pub load_flow-Le :
        (f : ℕ × Flow N) (acc y : Num)
        → Le N (zero_num N) y
        → Le N (load_flow f acc) (plus acc (load_flow f y))
    load_flow-Le f acc y h =
        let none_yet = load_flow f (zero_num N) in
        let more : Le N none_yet (plus y none_yet) =
          subst (λ z. Le N z (plus y none_yet)) (laws.zero_plus none_yet)
            (laws.plus_mono (zero_num N) y none_yet none_yet h (laws.le_refl none_yet)) in
        rw (load_flow-plus f acc, load_flow-plus f y)
          (laws.plus_mono acc acc none_yet (plus y none_yet) (laws.le_refl acc) more)

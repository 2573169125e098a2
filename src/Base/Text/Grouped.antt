-- ===== src/Base/Text/Grouped.antt =====
-- Lists under the keys of a dictionary, written with a line for each value, and read again.
use Prim.Native.Nat.{ℕ}
use mathlib.Core.Path.{◌≡◌, refl, ap, ◌∙◌, sym, subst}
use mathlib.Core.Logic.{◌≢◌}
use mathlib.Core.List.{List, [], ◌∷◌, ◌++◌, map, append_assoc, append-nil}
use cpsc_of_testbed.Base.Tests.{nat_eq}
use cpsc_of_testbed.Base.Lists.{All, All-append}
use cpsc_of_testbed.Base.Results.{Result, ok, ◌>>=◌, fold_result}
use cpsc_of_testbed.Base.Dict.{Dict, IsUnique}
use cpsc_of_testbed.Base.Dict.Groups.{append_to, append_all, append_all_new, IsUnique-middle}
use cpsc_of_testbed.Base.Text.{Text}
use cpsc_of_testbed.Base.Text.Parts.{IsLine}

module _ {V : Type 0} (parse : Text → Result (ℕ × V)) where
  -- `for line in lines: d[key].append(value)`, as the line describes them.
  abbrev pub read_grouped : Dict ℕ (List V) → Text → Result (Dict ℕ (List V))
  read_grouped d line = do r ← parse line; ok (append_to r.0 r.1 d)

module _ {V : Type 0} (write : ℕ → V → Text) where
  -- The lines of all values.
  abbrev pub group_lines : Dict ℕ (List V) → List Text
  group_lines [] = []
  group_lines ((k, vs) ∷ d) = map (write k) vs ++ group_lines d

  pub group_lines-IsLine :
      (d : Dict ℕ (List V))
      → All (λ (e : ℕ × List V). All (λ v. IsLine (write e.0 v)) e.1) d
      → All IsLine (group_lines d)
  group_lines-IsLine [] h = tt
  group_lines-IsLine ((k, vs) ∷ d) h =
      All-append IsLine (map (write k) vs) (group_lines d) (of_group vs h.0)
        (group_lines-IsLine d h.1)
    where
      of_group : (vs : List V) → All (λ v. IsLine (write k v)) vs → All IsLine (map (write k) vs)
      of_group [] h = tt
      of_group (v ∷ vs) h = (h.0, of_group vs h.1)

module _ {V : Type 0} (parse : Text → Result (ℕ × V)) (write : ℕ → V → Text) where
  -- A group with a value, each of which is read from its line.
  abbrev pub IsGroup : ℕ × List V → Type 0
  IsGroup e = (e.1 ≢ []) × All (λ (v : V). parse (write e.0 v) ≡ ok (e.0, v)) e.1

  one_group :
      (k : ℕ) (vs : List V) (rest : List Text) (before : Dict ℕ (List V))
      → All (λ (v : V). parse (write k v) ≡ ok (k, v)) vs
      → fold_result (read_grouped parse) before (map (write k) vs ++ rest)
        ≡ fold_result (read_grouped parse) (append_all k vs before) rest
  unfolding fold_result append_all
  one_group k [] rest before h = refl
  one_group k (v ∷ vs) rest before h = rw h.0 (one_group k vs rest (append_to k v before) h.1)

  -- All groups are read as they were written.
  pub read_grouped-group_lines :
      (d before : Dict ℕ (List V))
      → All IsGroup d
      → IsUnique (before ++ d)
      → fold_result (read_grouped parse) before (group_lines write d) ≡ ok (before ++ d)
  unfolding fold_result
  read_grouped-group_lines [] before h u = ap ok (sym (append-nil before))
  read_grouped-group_lines ((k, []) ∷ d) before h u = absurd (h.0.0 refl)
  read_grouped-group_lines ((k, v ∷ vs) ∷ d) before h u =
      one_group k (v ∷ vs) (group_lines write d) before h.0.1
      ∙ ap (λ b. fold_result (read_grouped parse) b (group_lines write d))
          (append_all_new k v vs before (IsUnique-middle k (v ∷ vs) before d u))
      ∙ read_grouped-group_lines d (before ++ (k, v ∷ vs) ∷ []) h.1
          (subst IsUnique (sym regrouped) u)
      ∙ ap ok regrouped
    where
      regrouped : (before ++ (k, v ∷ vs) ∷ []) ++ d ≡ before ++ (k, v ∷ vs) ∷ d
      regrouped = append_assoc before ((k, v ∷ vs) ∷ []) d

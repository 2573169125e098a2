-- ===== src/Base/Text/Entries.antt =====
-- A dictionary written with a line for each entry, and read again.
use Prim.Native.Nat.{ℕ}
use mathlib.Core.Path.{◌≡◌, refl, ap, ◌∙◌, sym, subst}
use mathlib.Core.List.{List, [], ◌∷◌, ◌++◌, map, append_assoc, append-nil}
use native.Mathlib.Omega.{arith}
use cpsc_of_testbed.Base.Tests.{nat_eq}
use cpsc_of_testbed.Base.Lists.{All}
use cpsc_of_testbed.Base.Results.{Result, ok, ◌>>=◌, fold_result}
use cpsc_of_testbed.Base.Dict.{Dict, insert, has_key, IsUnique}
use cpsc_of_testbed.Base.Dict.Groups.{insert_new, IsUnique-middle}
use cpsc_of_testbed.Base.Text.{Text}

module _ {W : Type 0} (parse : Text → Result W) (key : W → ℕ) where
  -- `for line in lines: d[x.key] = x`, with the `x` that the line describes.
  abbrev pub read_entry : Dict ℕ W → Text → Result (Dict ℕ W)
  read_entry d line = do x ← parse line; ok (insert (key x) x d)

  abbrev pub read_entries : Dict ℕ W → List Text → Result (Dict ℕ W)
  read_entries = fold_result read_entry

module _ {V W : Type 0} (parse : Text → Result W) (key : W → ℕ) (write : V → Text) (g : V → W) where
  abbrev pub read_as : Dict ℕ V → Dict ℕ W
  read_as = map (λ (e : ℕ × V). (e.0, g e.1))

  abbrev pub Reads : ℕ × V → Type 0
  Reads e = (parse (write e.1) ≡ ok (g e.1)) × (key (g e.1) ≡ e.0)

  -- If each line is read as what is expected of it, the whole is read as expected.
  pub read_entries-write :
      (d : Dict ℕ V) (before : Dict ℕ W)
      → All Reads d
      → IsUnique (before ++ read_as d)
      → read_entries parse key before (map (λ (e : ℕ × V). write e.1) d) ≡ ok (before ++ read_as d)
  unfolding fold_result
  read_entries-write [] before h u = ap ok (sym (append-nil before))
  read_entries-write ((k, v) ∷ d) before h u = rw h.0.0 (
      ap (λ b. read_entries parse key b (map (λ (e : ℕ × V). write e.1) d)) inserted
      ∙ read_entries-write d (before ++ (k, g v) ∷ []) h.1 (subst IsUnique (sym regrouped) u)
      ∙ ap ok regrouped)
    where
      inserted : insert (key (g v)) (g v) before ≡ before ++ (k, g v) ∷ []
      inserted =
          ap (λ j. insert j (g v) before) h.0.1
          ∙ insert_new k (g v) before (IsUnique-middle k (g v) before (read_as d) u)

      regrouped : (before ++ (k, g v) ∷ []) ++ read_as d ≡ before ++ (k, g v) ∷ read_as d
      regrouped = append_assoc before ((k, g v) ∷ []) (read_as d)

module _ {V W : Type 0} (g : V → W) where
  has_key-read_as :
      (k : ℕ) (d : Dict ℕ V) → has_key k (map (λ (e : ℕ × V). (e.0, g e.1)) d) ≡ has_key k d
  has_key-read_as k [] = refl
  has_key-read_as k ((j, v) ∷ d) = ground (arith, has_key-read_as k d)

  -- The keys stay as they are.
  pub IsUnique-read_as :
      (d : Dict ℕ V) → IsUnique d → IsUnique (map (λ (e : ℕ × V). (e.0, g e.1)) d)
  IsUnique-read_as [] h = tt
  IsUnique-read_as ((k, v) ∷ d) h = (has_key-read_as k d ∙ h.0, IsUnique-read_as d h.1)

-- Entries that are read as they were.
pub read_as_self : {V : Type 0} (d : Dict ℕ V) → map (λ (e : ℕ × V). (e.0, e.1)) d ≡ d
read_as_self [] = refl
read_as_self (e ∷ d) = ap (λ r. e ∷ r) (read_as_self d)

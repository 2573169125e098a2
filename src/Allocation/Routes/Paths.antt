-- ===== src/Allocation/Routes/Paths.antt =====
-- Lists as paths: their last node, their links, and how many different nodes they can have.
use mathlib.Core.Path.{subst}
use cpsc_of_testbed.Base.{
  ℕ, ◌≡◌, refl, sym, List, [], ◌∷◌, ◌++◌, false, ok, arith, ok_injective, contains, Nodup, All,
  pairwise, nat_eq, ◌||◌,
}
use cpsc_of_testbed.Allocation.Routes.{last}
use cpsc_of_testbed.Base.Numbers.{Number}

abbrev pub Starts : ℕ → List ℕ → Type 0
Starts s [] = ⊥
Starts s (x ∷ xs) = x ≡ s

pub Starts-append : (s : ℕ) (xs ys : List ℕ) → Starts s xs → Starts s (xs ++ ys)
Starts-append s [] ys h = absurd h
Starts-append s (x ∷ xs) ys h = h

pub contains-append :
    (a : ℕ) (xs ys : List ℕ) → contains a (xs ++ ys) ≡ (contains a xs || contains a ys)
contains-append a [] ys = refl
contains-append a (x ∷ xs) ys = ground (arith, contains-append a xs ys)

pub Nodup-snoc : (v : ℕ) (xs : List ℕ) → Nodup xs → contains v xs ≡ false → Nodup (xs ++ v ∷ [])
Nodup-snoc v [] h new = (refl, tt)
Nodup-snoc v (x ∷ xs) h new =
    (ground (arith, contains-append x xs (v ∷ [])), Nodup-snoc v xs h.1 (ground arith))

module _ (N : Number) where
  pub last-snoc : (v : ℕ) (xs : List ℕ) → last N (xs ++ v ∷ []) ≡ ok v
  last-snoc v [] = refl
  last-snoc v (x ∷ []) = refl
  last-snoc v (x ∷ y ∷ ys) = last-snoc v (y ∷ ys)

  pub last-Starts : (s : ℕ) (xs : List ℕ) → Starts s xs → (u : ℕ) × (last N xs ≡ ok u)
  last-Starts s [] h = absurd h
  last-Starts s (x ∷ []) h = (x, refl)
  last-Starts s (x ∷ y ∷ ys) h = last-Starts y (y ∷ ys) refl

  pub All-pairwise-snoc :
      (P : ℕ × ℕ → Type 0) (u v : ℕ) (xs : List ℕ)
      → last N xs ≡ ok u
      → All P (pairwise xs)
      → P (u, v)
      → All P (pairwise (xs ++ v ∷ []))
  All-pairwise-snoc P u v [] e h p = tt
  All-pairwise-snoc P u v (x ∷ []) e h p = (subst (λ y. P (y, v)) (sym (ok_injective e)) p, tt)
  All-pairwise-snoc P u v (x ∷ y ∷ ys) e h p = (h.0, All-pairwise-snoc P u v (y ∷ ys) e h.1 p)

-- ===== src/Base/Dict/Totals.antt =====
-- The sum of a weight over the values of a dictionary, and what holds of its entries and keys.
use Prim.Native.Nat.{ℕ, ◌+◌, ◌≤◌}
use mathlib.Core.Path.{◌≡◌, refl, sym, subst, ◌∙◌}
use mathlib.Core.Logic.{inl, inr}
use mathlib.Core.List.{[], ◌∷◌}
use mathlib.Core.Option.{Option, none, some}
use native.Mathlib.Omega.{arith}
use cpsc_of_testbed.Base.Tests.{Comparable, ◌==◌, Bool-cases}
use cpsc_of_testbed.Base.Lists.{All, Nodup, contains}
use cpsc_of_testbed.Base.Dict.{Dict, IsUnique, has_key, lookup, insert, keys}

module _ {ℓ κ} {K : Type ℓ} {V : Type κ} (weight : V → ℕ) where
  unfoldable pub total : Dict K V → ℕ
  total [] = 0
  total ((k, v) ∷ d) = weight v + total d

-- The weight of an entry, 0 where there is none.
abbrev pub weight_of {κ} : {V : Type κ} → (V → ℕ) → Option V → ℕ
weight_of weight none = 0
weight_of weight (some v) = weight v

module _ {ℓ κ} {K : Type ℓ} {V : Type κ} ⦃q : Comparable K⦄ where
  pub total-insert :
      (weight : V → ℕ) (k : K) (v : V) (d : Dict K V)
      → total weight (insert k v d) + weight_of weight (lookup k d) ≡ total weight d + weight v
  unfolding total
  total-insert weight k v [] = omega arith
  total-insert weight k v ((j, w) ∷ d) = ground (arith, total-insert weight k v d)

  pub weight-le-total :
      (weight : V → ℕ) (k : K) (v : V) (d : Dict K V)
      → lookup k d ≡ some v
      → weight v ≤ total weight d
  unfolding total
  weight-le-total weight k v [] h = cc
  weight-le-total weight k v ((j, w) ∷ d) h = ground (arith, weight-le-total weight k v d)

  -- An insertion under a key that is there.
  pub keys-insert_old :
      (k : K) (v w : V) (d : Dict K V) → lookup k d ≡ some w → keys (insert k v d) ≡ keys d
  keys-insert_old k v w [] h = cc
  keys-insert_old k v w ((j, u) ∷ d) h = ground (arith, keys-insert_old k v w d)

  -- Every entry of the dictionary has the property.
  pub Entries-lookup {μ} :
      (P : K → V → Type μ) (k : K) (v : V) (d : Dict K V)
      → All (λ e. P e.0 e.1) d
      → lookup k d ≡ some v
      → P k v
  Entries-lookup P k v [] h e = cc
  Entries-lookup P k v ((j, w) ∷ d) h e = elim (Bool-cases (j == k)) [
    | inl t ↦
        subst (λ i. P i v) ((q.equals_iff j k).0 t) (subst (λ u. P j u) (ground (arith, t)) h.0)
    | inr t ↦ Entries-lookup P k v d h.1 (ground (arith, t))
  ]

  pub Entries-insert {μ} :
      (P : K → V → Type μ) (k : K) (v : V) (d : Dict K V)
      → P k v
      → All (λ e. P e.0 e.1) d
      → All (λ e. P e.0 e.1) (insert k v d)
  Entries-insert P k v [] p h = (p, tt)
  Entries-insert P k v ((j, w) ∷ d) p h = elim (Bool-cases (j == k)) [
    | inl t ↦ rw t (subst (λ i. P i v) (sym ((q.equals_iff j k).0 t)) p, h.1)
    | inr t ↦ rw t (h.0, Entries-insert P k v d p h.1)
  ]

  pub has_key-keys : (k : K) (d : Dict K V) → has_key k d ≡ contains k (keys d)
  has_key-keys k [] = refl
  has_key-keys k ((j, v) ∷ d) = ground (arith, q.equals_iff k j, q.equals_iff j k, has_key-keys k d)

  -- A dictionary with one entry for each key has its keys once.
  pub IsUnique-keys : (d : Dict K V) → IsUnique d → Nodup (keys d)
  IsUnique-keys [] h = tt
  IsUnique-keys ((j, v) ∷ d) h = (sym (has_key-keys j d) ∙ h.0, IsUnique-keys d h.1)

  pub keys-IsUnique : (d : Dict K V) → Nodup (keys d) → IsUnique d
  keys-IsUnique [] h = tt
  keys-IsUnique ((j, v) ∷ d) h = (has_key-keys j d ∙ h.0, keys-IsUnique d h.1)

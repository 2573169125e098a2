-- ===== src/Base/Dict.antt =====
-- A Python dictionary: entries in the order of insertion, one for each key.
pub mod Groups
pub mod Totals
use Prim.Native.Nat.{suc}
use mathlib.Core.Path.{◌≡◌, refl, sym, ap, ◌∙◌, subst}
use mathlib.Core.Logic.{◌⊎◌, inl, inr}
use mathlib.Core.Bool.{Bool, true, false}
use mathlib.Core.List.{List, [], ◌∷◌, map}
use mathlib.Core.Option.{Option, none, some}
use native.Mathlib.Omega.{arith}
use cpsc_of_testbed.Base.Tests.{if◌then◌else◌, Comparable, ◌==◌, Bool-cases, eq_self}
use cpsc_of_testbed.Base.Lists.{length, All, In}

abbrev pub Dict {ℓ κ} : Type ℓ → Type κ → Type (ℓ ⊔ κ)
Dict K V = List (K × V)

module _ {ℓ κ} {K : Type ℓ} {V : Type κ} where
  abbrev pub keys : Dict K V → List K
  keys = map (λ e. e.0)

  abbrev pub values : Dict K V → List V
  values = map (λ e. e.1)

module _ {ℓ κ} {K : Type ℓ} {V : Type κ} ⦃q : Comparable K⦄ where
  -- `d.get(k)`; `d[k]` raises KeyError at `none`.
  abbrev pub lookup : K → Dict K V → Option V
  lookup k [] = none
  lookup k ((j, v) ∷ d) = if j == k then some v else lookup k d

  -- `k in d`
  abbrev pub has_key : K → Dict K V → Bool
  has_key k d = elim (lookup k d) [ none ↦ false | some _ ↦ true ]

  -- `d[k] = v`
  abbrev pub insert : K → V → Dict K V → Dict K V
  insert k v [] = (k, v) ∷ []
  insert k v ((j, w) ∷ d) = if j == k then (j, v) ∷ d else (j, w) ∷ insert k v d

  -- `del d[k]`
  abbrev pub erase : K → Dict K V → Dict K V
  erase k [] = []
  erase k ((j, w) ∷ d) = if j == k then d else (j, w) ∷ erase k d

  -- `d.update(e)`, `{**d, **e}`
  abbrev pub update : Dict K V → Dict K V → Dict K V
  update d [] = d
  update d ((k, v) ∷ rest) = update (insert k v d) rest

module _ {ℓ κ} {K : Type ℓ} {V : Type κ} ⦃q : Comparable K⦄ where
  pub lookup-insert :
      (k j : K) (v : V) (d : Dict K V)
      → lookup j (insert k v d) ≡ (if k == j then some v else lookup j d)
  lookup-insert k j v [] = refl
  lookup-insert k j v ((i, w) ∷ d) =
      ground (arith, q.equals_iff k j, q.equals_iff i k, q.equals_iff i j, lookup-insert k j v d)

  pub length-insert_new :
      (k : K) (v : V) (d : Dict K V) → lookup k d ≡ none → length (insert k v d) ≡ suc (length d)
  length-insert_new k v [] h = refl
  length-insert_new k v ((i, w) ∷ d) h = ground (arith, length-insert_new k v d)

  pub length-insert_old :
      (k : K) (v w : V) (d : Dict K V) → lookup k d ≡ some w → length (insert k v d) ≡ length d
  length-insert_old k v w [] h = cc
  length-insert_old k v w ((i, u) ∷ d) h = ground (arith, length-insert_old k v w d)

  pub length-erase :
      (k : K) (w : V) (d : Dict K V) → lookup k d ≡ some w → suc (length (erase k d)) ≡ length d
  length-erase k w [] h = cc
  length-erase k w ((i, u) ∷ d) h = ground (arith, length-erase k w d)

  -- No key has two entries.
  abbrev pub IsUnique : Dict K V → Type 0
  IsUnique [] = Unit
  IsUnique ((k, v) ∷ d) = (has_key k d ≡ false) × IsUnique d

  pub has_key-insert_ne :
      (i k : K) (v : V) (d : Dict K V) → (k == i) ≡ false → has_key i (insert k v d) ≡ has_key i d
  has_key-insert_ne i k v d h = ground (arith, lookup-insert k i v d)

  pub insert-IsUnique : (k : K) (v : V) (d : Dict K V) → IsUnique d → IsUnique (insert k v d)
  insert-IsUnique k v [] h = (refl, tt)
  insert-IsUnique k v ((i, w) ∷ d) h = elim (Bool-cases (i == k)) [
    | inl e ↦ rw e h
    | inr e ↦ rw e (
      has_key-insert_ne i k v d (ground (arith, q.equals_iff i k, q.equals_iff k i)) ∙ h.0,
      insert-IsUnique k v d h.1,
    )
  ]

  pub lookup-erase_ne :
      (k j : K) (d : Dict K V) → (k == j) ≡ false → lookup j (erase k d) ≡ lookup j d
  lookup-erase_ne k j [] h = refl
  lookup-erase_ne k j ((i, w) ∷ d) h =
      ground (arith, q.equals_iff k j, q.equals_iff i k, q.equals_iff i j, lookup-erase_ne k j d h)

  pub lookup-erase_self : (k : K) (d : Dict K V) → IsUnique d → lookup k (erase k d) ≡ none
  lookup-erase_self k [] h = refl
  lookup-erase_self k ((i, w) ∷ d) h = ground (arith, q.equals_iff i k, lookup-erase_self k d h.1)

  pub erase-IsUnique : (k : K) (d : Dict K V) → IsUnique d → IsUnique (erase k d)
  erase-IsUnique k [] h = tt
  erase-IsUnique k ((i, w) ∷ d) h = elim (Bool-cases (i == k)) [
    | inl e ↦ rw e h.1
    | inr e ↦ rw e (
      ground (arith, h.0, q.equals_iff k i, q.equals_iff i k, lookup-erase_ne k i d),
      erase-IsUnique k d h.1,
    )
  ]

  -- Every value of the dictionary has the property.
  abbrev pub AllValues {μ} : (V → Type μ) → Dict K V → Type μ
  AllValues P d = All (λ e. P e.1) d

  pub AllValues-lookup {μ} :
      (P : V → Type μ) (k : K) (v : V) (d : Dict K V) → AllValues P d → lookup k d ≡ some v → P v
  AllValues-lookup P k v [] h e = cc
  AllValues-lookup P k v ((i, w) ∷ d) h e = elim (Bool-cases (i == k)) [
    | inl t ↦ subst P (ground arith) h.0
    | inr t ↦ AllValues-lookup P k v d h.1 (ground arith)
  ]

  pub AllValues-insert {μ} :
      (P : V → Type μ) (k : K) (v : V) (d : Dict K V)
      → P v
      → AllValues P d
      → AllValues P (insert k v d)
  AllValues-insert P k v [] p h = (p, tt)
  AllValues-insert P k v ((i, w) ∷ d) p h = elim (Bool-cases (i == k)) [
    | inl t ↦ rw t (p, h.1)
    | inr t ↦ rw t (h.0, AllValues-insert P k v d p h.1)
  ]

module _ {K : Type 0} {V : Type 0} ⦃q : Comparable K⦄ where
  -- An entry of a dictionary made from its keys.
  pub lookup-map :
      (f : K → V) (k : K) (ks : List K) → In k ks → lookup k (map (λ j. (j, f j)) ks) ≡ some (f k)
  lookup-map f k [] m = absurd m
  lookup-map f k (j ∷ js) m = elim (Bool-cases (j == k)) [
    | inl e ↦ rw e (ap (λ i. some (f i)) ((q.equals_iff j k).0 e))
    | inr e ↦ rw e (lookup-map f k js (others e m))
  ]
    where
      others : (j == k) ≡ false → In k (j ∷ js) → In k js
      others e (inl same) = absurd (ground (arith, (q.equals_iff j k).1 (sym same)))
      others e (inr m) = m

  -- A key that has an entry keeps having one.
  pub lookup-insert-some :
      (j k : K) (x : V) (d : Dict K V)
      → (v : V) × (lookup j d ≡ some v)
      → (v : V) × (lookup j (insert k x d) ≡ some v)
  lookup-insert-some j k x d (v, h) = elim (Bool-cases (k == j)) [
    | inl e ↦ (x, lookup-insert k j x d ∙ (rw e refl))
    | inr e ↦ (v, lookup-insert k j x d ∙ (rw e h))
  ]

  -- Where an entry is found: at the head, or further on.
  pub lookup-cons :
      (j k : K) (w v : V) (d : Dict K V)
      → lookup k ((j, w) ∷ d) ≡ some v
      → ((j ≡ k) × (w ≡ v)) ⊎ (lookup k d ≡ some v)
  lookup-cons j k w v d h = ground (arith, q.equals_iff j k)

module _ {ℓ κ} {K : Type ℓ} {V : Type κ} ⦃q : Comparable K⦄ where
  pub lookup-insert_self : (k : K) (v : V) (d : Dict K V) → lookup k (insert k v d) ≡ some v
  lookup-insert_self k v d = lookup-insert k k v d ∙ (rw (eq_self k) refl)

  pub lookup-insert_ne :
      (k j : K) (v : V) (d : Dict K V) → (k == j) ≡ false → lookup j (insert k v d) ≡ lookup j d
  lookup-insert_ne k j v d ne = lookup-insert k j v d ∙ (rw ne refl)

module _ {K V : Type 0} ⦃q : Comparable K⦄ where
  -- What is found is an entry.
  pub lookup-In : (k : K) (v : V) (d : Dict K V) → lookup k d ≡ some v → In (k, v) d
  lookup-In k v [] h = cc
  lookup-In k v ((j, w) ∷ d) h = elim (lookup-cons j k w v d h) [
    | inl same ↦ inl (λ i. (sym same.0 i, sym same.1 i))
    | inr later ↦ inr (lookup-In k v d later)
  ]

  In-has_key : (k : K) (v : V) (d : Dict K V) → In (k, v) d → has_key k d ≡ true
  In-has_key k v [] m = absurd m
  In-has_key k v ((j, w) ∷ d) (inl e) =
      ground (arith, (q.equals_iff j k).1 (sym (ap (λ (e : K × V). e.0) e)))
  In-has_key k v ((j, w) ∷ d) (inr m) = ground (arith, In-has_key k v d m)

  -- An entry is found where no key has two.
  pub In-lookup : (k : K) (v : V) (d : Dict K V) → IsUnique d → In (k, v) d → lookup k d ≡ some v
  In-lookup k v [] u m = absurd m
  In-lookup k v ((j, w) ∷ d) u (inl e) =
      let same : (j == k) ≡ true = (q.equals_iff j k).1 (sym (ap (λ (e : K × V). e.0) e)) in
      rw same (ap (λ (e : K × V). some e.1) (sym e))
  In-lookup k v ((j, w) ∷ d) u (inr m) = elim (Bool-cases (j == k)) [
    | inl e ↦
        let there = In-has_key k v d m in
        absurd (ground (arith, (q.equals_iff j k).0 e, u.0, there))
    | inr e ↦ rw e (In-lookup k v d u.1 m)
  ]

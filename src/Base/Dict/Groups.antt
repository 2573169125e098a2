-- ===== src/Base/Dict/Groups.antt =====
-- `defaultdict(list)`: values collected by key.
use mathlib.Core.Path.{◌≡◌, refl, ap, ◌∙◌, sym}
use mathlib.Core.Logic.{inl, inr}
use mathlib.Core.Bool.{false}
use mathlib.Core.List.{List, [], ◌∷◌, ◌++◌, append_assoc, append-nil}
use native.Mathlib.Omega.{arith}
use cpsc_of_testbed.Base.Tests.{if◌then◌else◌, Comparable, ◌==◌, Bool-cases, eq_self}
use cpsc_of_testbed.Base.Dict.{IsUnique, insert, Dict, has_key}

module _ {ℓ κ} {K : Type ℓ} {V : Type κ} ⦃q : Comparable K⦄ where
  -- `d[k].append(v)`
  unfoldable pub append_to : K → V → Dict K (List V) → Dict K (List V)
  append_to k v [] = (k, v ∷ []) ∷ []
  append_to k v ((j, vs) ∷ d) = if j == k then (j, vs ++ v ∷ []) ∷ d else (j, vs) ∷ append_to k v d

  -- The same value after value, for one key.
  unfoldable pub append_all : K → List V → Dict K (List V) → Dict K (List V)
  append_all k [] d = d
  append_all k (v ∷ vs) d = append_all k vs (append_to k v d)

  -- A key that is new gets a group of its own at the end.
  append_to_new :
      (k : K) (v : V) (d : Dict K (List V))
      → has_key k d ≡ false
      → append_to k v d ≡ d ++ (k, v ∷ []) ∷ []
  unfolding append_to
  append_to_new k v [] h = refl
  append_to_new k v ((j, vs) ∷ d) h = elim (Bool-cases (j == k)) [
    | inl e ↦ absurd (ground (arith, e))
    | inr e ↦ rw e (ap (λ r. (j, vs) ∷ r) (append_to_new k v d (ground (arith, e))))
  ]

  append_to_last :
      (k : K) (v : V) (vs : List V) (d : Dict K (List V))
      → has_key k d ≡ false
      → append_to k v (d ++ (k, vs) ∷ []) ≡ d ++ (k, vs ++ v ∷ []) ∷ []
  unfolding append_to
  append_to_last k v vs [] h = rw (eq_self k) refl
  append_to_last k v vs ((j, ws) ∷ d) h = elim (Bool-cases (j == k)) [
    | inl e ↦ absurd (ground (arith, e))
    | inr e ↦ rw e (ap (λ r. (j, ws) ∷ r) (append_to_last k v vs d (ground (arith, e))))
  ]

  append_all_last :
      (k : K) (vs ws : List V) (d : Dict K (List V))
      → has_key k d ≡ false
      → append_all k ws (d ++ (k, vs) ∷ []) ≡ d ++ (k, vs ++ ws) ∷ []
  unfolding append_all
  append_all_last k vs [] d h = ap (λ us. d ++ (k, us) ∷ []) (sym (append-nil vs))
  append_all_last k vs (w ∷ ws) d h =
      ap (append_all k ws) (append_to_last k w vs d h)
      ∙ append_all_last k (vs ++ w ∷ []) ws d h
      ∙ ap (λ us. d ++ (k, us) ∷ []) (append_assoc vs (w ∷ []) ws)

  -- The values of a new key, appended one after the other, are its group.
  pub append_all_new :
      (k : K) (v : V) (vs : List V) (d : Dict K (List V))
      → has_key k d ≡ false
      → append_all k (v ∷ vs) d ≡ d ++ (k, v ∷ vs) ∷ []
  unfolding append_all
  append_all_new k v vs d h =
      ap (append_all k vs) (append_to_new k v d h) ∙ append_all_last k (v ∷ []) vs d h

module _ {ℓ κ} {K : Type ℓ} {V : Type κ} ⦃q : Comparable K⦄ where
  -- A key that is new is written at the end.
  pub insert_new :
      (k : K) (v : V) (d : Dict K V) → has_key k d ≡ false → insert k v d ≡ d ++ (k, v) ∷ []
  insert_new k v [] h = refl
  insert_new k v ((j, w) ∷ d) h = elim (Bool-cases (j == k)) [
    | inl e ↦ absurd (ground (arith, e))
    | inr e ↦ rw e (ap (λ r. (j, w) ∷ r) (insert_new k v d (ground (arith, e))))
  ]

  has_key-middle :
      (k j : K) (v : V) (us vs : Dict K V)
      → has_key j (us ++ (k, v) ∷ vs) ≡ false
      → (k == j) ≡ false
  has_key-middle k j v [] vs h = elim (Bool-cases (k == j)) [
    | inl e ↦ absurd (ground (arith, e))
    | inr e ↦ e
  ]
  has_key-middle k j v ((i, w) ∷ us) vs h = elim (Bool-cases (i == j)) [
    | inl e ↦ absurd (ground (arith, e))
    | inr e ↦ has_key-middle k j v us vs (ground (arith, e))
  ]

  -- A key with an entry further on has none before.
  pub IsUnique-middle :
      (k : K) (v : V) (us vs : Dict K V) → IsUnique (us ++ (k, v) ∷ vs) → has_key k us ≡ false
  IsUnique-middle k v [] vs h = refl
  IsUnique-middle k v ((i, w) ∷ us) vs h =
      let differ = has_key-middle k i v us vs h.0 in
      let rest = IsUnique-middle k v us vs h.1 in ground (arith, q.equals_iff i k, q.equals_iff k i)

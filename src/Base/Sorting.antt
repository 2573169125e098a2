-- ===== src/Base/Sorting.antt =====
-- Python's `sorted(xs, key=…)`, which keeps the order of equal keys, and `itertools.groupby`.
use Prim.Native.Nat.{ℕ, ◌≤◌, ◌<◌}
use mathlib.Core.Path.{◌≡◌, refl, ◌∙◌, subst}
use mathlib.Core.Bool.{Bool, false}
use mathlib.Core.Logic.{inl, inr}
use mathlib.Core.List.{List, [], ◌∷◌}
use mathlib.Core.Option.{Option, none, some}
use native.Mathlib.Omega.{arith}
use cpsc_of_testbed.Base.Tests.{if◌then◌else◌, leb, eqb, nat_eq, Bool-cases}
use cpsc_of_testbed.Base.Lists.{filter, All, contains}
use cpsc_of_testbed.Base.Dict.{Dict, lookup, keys}

module _ {A : Type 0} (key : A → ℕ) where
  abbrev pub insert_by : A → List A → List A
  insert_by x [] = x ∷ []
  insert_by x (y ∷ ys) = if leb (key x) (key y) then x ∷ y ∷ ys else y ∷ insert_by x ys

  unfoldable pub sort_by : List A → List A
  sort_by [] = []
  sort_by (x ∷ xs) = insert_by x (sort_by xs)

  -- An element joins the first group, or begins one before it.
  abbrev pub join : A → Dict ℕ (List A) → Dict ℕ (List A)
  join x [] = (key x, x ∷ []) ∷ []
  join x ((k, g) ∷ gs) = if eqb (key x) k then (k, x ∷ g) ∷ gs else (key x, x ∷ []) ∷ (k, g) ∷ gs

  unfoldable pub group_by : List A → Dict ℕ (List A)
  group_by [] = []
  group_by (x ∷ xs) = join x (group_by xs)

  abbrev pub having : ℕ → List A → List A
  having q = filter (λ x. eqb (key x) q)

  abbrev pub IsSorted : List A → Type 0
  IsSorted [] = Unit
  IsSorted (x ∷ xs) = All (λ y. key x ≤ key y) xs × IsSorted xs

  -- The keys of the groups rise.
  abbrev pub IsAscending : Dict ℕ (List A) → Type 0
  IsAscending [] = Unit
  IsAscending ((k, g) ∷ gs) = All (λ e. k < e.0) gs × IsAscending gs

module _ {A : Type 0} where
  -- The group of a key, if it has one.
  abbrev pub group : List A → Option (List A)
  group [] = none
  group (x ∷ xs) = some (x ∷ xs)

  abbrev members : Option (List A) → List A
  members none = []
  members (some g) = g

  abbrev pub passes : (List A → Bool) → Option (List A) → Bool
  passes p none = false
  passes p (some g) = p g

module _ {A : Type 0} (key : A → ℕ) where
  having-insert_by :
      (q : ℕ) (x : A) (xs : List A) → having key q (insert_by key x xs) ≡ having key q (x ∷ xs)
  having-insert_by q x [] = refl
  having-insert_by q x (y ∷ ys) = ground (arith, having-insert_by q x ys)

  -- Sorting keeps the elements of each key, in their order.
  pub having-sort_by : (q : ℕ) (xs : List A) → having key q (sort_by key xs) ≡ having key q xs
  unfolding sort_by
  having-sort_by q [] = refl
  having-sort_by q (x ∷ xs) =
      having-insert_by q x (sort_by key xs) ∙ ground (arith, having-sort_by q xs)

  All-le_trans : (a b : ℕ) (xs : List A) → a ≤ b → All (λ y. b ≤ key y) xs → All (λ y. a ≤ key y) xs
  All-le_trans a b [] h all = tt
  All-le_trans a b (x ∷ xs) h all = (omega arith, All-le_trans a b xs h all.1)

  All-insert_by :
      (a : ℕ) (x : A) (xs : List A)
      → a ≤ key x
      → All (λ y. a ≤ key y) xs
      → All (λ y. a ≤ key y) (insert_by key x xs)
  All-insert_by a x [] h all = (h, tt)
  All-insert_by a x (y ∷ ys) h all = elim (Bool-cases (leb (key x) (key y))) [
    | inl e ↦ rw e (h, all)
    | inr e ↦ rw e (all.0, All-insert_by a x ys h all.1)
  ]

  insert_by-IsSorted : (x : A) (xs : List A) → IsSorted key xs → IsSorted key (insert_by key x xs)
  insert_by-IsSorted x [] h = (tt, tt)
  insert_by-IsSorted x (y ∷ ys) h = elim (Bool-cases (leb (key x) (key y))) [
    | inl e ↦
        let le : key x ≤ key y = ground arith in
        rw e ((le, All-le_trans (key x) (key y) ys le h.0), h)
    | inr e ↦ rw e (All-insert_by (key y) x ys (ground arith) h.0, insert_by-IsSorted x ys h.1)
  ]

  pub sort_by-IsSorted : (xs : List A) → IsSorted key (sort_by key xs)
  unfolding sort_by
  sort_by-IsSorted [] = tt
  sort_by-IsSorted (x ∷ xs) = insert_by-IsSorted x (sort_by key xs) (sort_by-IsSorted xs)

  All-lt-group_by :
      (k : ℕ) (xs : List A) → All (λ y. k ≤ key y) xs → All (λ e. k ≤ e.0) (group_by key xs)
  unfolding group_by
  All-lt-group_by k [] all = tt
  All-lt-group_by k (x ∷ xs) all = go (group_by key xs) (All-lt-group_by k xs all.1)
    where
      go : (gs : Dict ℕ (List A)) → All (λ e. k ≤ e.0) gs → All (λ e. k ≤ e.0) (join key x gs)
      go [] h = (all.0, tt)
      go ((j, g) ∷ gs) h = elim (Bool-cases (eqb (key x) j)) [
        | inl e ↦ rw e h
        | inr e ↦ rw e (all.0, h)
      ]

  lookup_below : (q : ℕ) (gs : Dict ℕ (List A)) → All (λ e. q < e.0) gs → lookup q gs ≡ none
  lookup_below q [] h = refl
  lookup_below q ((k, g) ∷ gs) h = ground (arith, lookup_below q gs h.1)

  All-lt_trans :
      (a b : ℕ) (gs : Dict ℕ (List A)) → a < b → All (λ e. b ≤ e.0) gs → All (λ e. a < e.0) gs
  All-lt_trans a b [] h all = tt
  All-lt_trans a b (g ∷ gs) h all = (omega arith, All-lt_trans a b gs h all.1)

  All-lt-le : (b : ℕ) (gs : Dict ℕ (List A)) → All (λ e. b < e.0) gs → All (λ e. b ≤ e.0) gs
  All-lt-le b [] all = tt
  All-lt-le b (g ∷ gs) all = (omega arith, All-lt-le b gs all.1)

  join-IsAscending :
      (x : A) (gs : Dict ℕ (List A))
      → All (λ e. key x ≤ e.0) gs
      → IsAscending key gs
      → IsAscending key (join key x gs)
  join-IsAscending x [] all h = (tt, tt)
  join-IsAscending x ((k, g) ∷ gs) all h = elim (Bool-cases (eqb (key x) k)) [
    | inl e ↦ rw e h
    | inr e ↦
        let lt : key x < k = ground arith in
        rw e ((lt, All-lt_trans (key x) k gs lt (All-lt-le k gs h.0)), h)
  ]

  pub group_by-IsAscending : (xs : List A) → IsSorted key xs → IsAscending key (group_by key xs)
  unfolding group_by
  group_by-IsAscending [] h = tt
  group_by-IsAscending (x ∷ xs) h =
      join-IsAscending x (group_by key xs) (All-lt-group_by (key x) xs h.0)
        (group_by-IsAscending xs h.1)

  lookup-join :
      (q : ℕ) (x : A) (gs : Dict ℕ (List A))
      → All (λ e. key x ≤ e.0) gs
      → IsAscending key gs
      → lookup q (join key x gs)
        ≡ (if eqb (key x) q then some (x ∷ members (lookup q gs)) else lookup q gs)
  lookup-join q x [] all h = refl
  lookup-join q x ((k, g) ∷ gs) all h = elim (Bool-cases (eqb (key x) k)) [
    | inl e ↦ ground arith
    | inr e ↦
        let lt : key x < k = ground arith in
        ground (arith, lookup_below (key x) gs (All-lt_trans (key x) k gs lt (All-lt-le k gs h.0)))
  ]

  -- In a sorted list the groups are the elements of each key.
  pub lookup-group_by :
      (q : ℕ) (xs : List A) → IsSorted key xs → lookup q (group_by key xs) ≡ group (having key q xs)
  unfolding group_by
  lookup-group_by q [] h = refl
  lookup-group_by q (x ∷ xs) h =
      lookup-join q x (group_by key xs) (All-lt-group_by (key x) xs h.0)
        (group_by-IsAscending xs h.1)
      ∙ ground (arith, lookup-group_by q xs h.1)

  contains-keys-filter :
      (p : List A → Bool) (q : ℕ) (gs : Dict ℕ (List A))
      → IsAscending key gs
      → contains q (keys (filter (λ e. p e.1) gs)) ≡ passes p (lookup q gs)
  contains-keys-filter p q [] h = refl
  contains-keys-filter p q ((k, g) ∷ gs) h = elim (Bool-cases (eqb k q)) [
    | inl e ↦
        let same : k ≡ q = ground arith in
        let above : lookup q gs ≡ none =
          lookup_below q gs (subst (λ i. All (λ e. i < e.0) gs) same h.0) in
        ground (arith, contains-keys-filter p q gs h.1)
    | inr e ↦ ground (arith, contains-keys-filter p q gs h.1)
  ]

  -- The keys of the groups that pass a test are those whose elements, in the order of the list, are
  -- a group that passes it.
  pub contains-keys-groups :
      (p : List A → Bool) (q : ℕ) (xs : List A)
      → contains q (keys (filter (λ e. p e.1) (group_by key (sort_by key xs))))
        ≡ passes p (group (having key q xs))
  contains-keys-groups p q xs =
      contains-keys-filter p q (group_by key (sort_by key xs))
        (group_by-IsAscending (sort_by key xs) (sort_by-IsSorted xs))
      ∙ (rw (lookup-group_by q (sort_by key xs) (sort_by-IsSorted xs), having-sort_by q xs))

-- ===== src/Base/Lists.antt =====
-- Lists measured and indexed by native numbers, and the list idioms of Python.
pub mod Distinct
use Prim.Native.Nat.{ℕ, zero, suc, ◌+◌, ◌<◌}
use mathlib.Core.Path.{◌≡◌, refl, ap, ◌∙◌}
use mathlib.Core.Bool.{Bool, true, false, ◌||◌}
use mathlib.Core.List.{List, [], ◌∷◌, ◌++◌, map}
use mathlib.Core.Logic.{◌⊎◌, ◌↔◌, inl, inr}
use mathlib.Core.Option.{Option, none, some}
use native.Mathlib.Omega.{arith}
use cpsc_of_testbed.Base.Tests.{if◌then◌else◌, Comparable, ◌==◌, Bool-cases}

module _ {ℓ} {A : Type ℓ} where
  abbrev pub length : List A → ℕ
  length [] = 0
  length (x ∷ xs) = suc (length xs)

  abbrev pub get_elem? : List A → ℕ → Option A
  get_elem? [] i = none
  get_elem? (x ∷ xs) zero = some x
  get_elem? (x ∷ xs) (suc i) = get_elem? xs i

  abbrev pub take : ℕ → List A → List A
  take zero xs = []
  take (suc n) [] = []
  take (suc n) (x ∷ xs) = x ∷ take n xs

  abbrev pub drop : ℕ → List A → List A
  drop zero xs = xs
  drop (suc n) [] = []
  drop (suc n) (x ∷ xs) = drop n xs

  abbrev pub replicate : ℕ → A → List A
  replicate zero a = []
  replicate (suc n) a = a ∷ replicate n a

  -- `[x for x in xs if p(x)]`
  abbrev pub filter : (A → Bool) → List A → List A
  filter p [] = []
  filter p (x ∷ xs) = if p x then x ∷ filter p xs else filter p xs

  -- `nx.utils.pairwise(xs)` and `zip(xs, xs[1:])`
  abbrev pub pairwise : List A → List (A × A)
  pairwise [] = []
  pairwise (x ∷ []) = []
  pairwise (x ∷ y ∷ ys) = (x, y) ∷ pairwise (y ∷ ys)

  -- `enumerate(xs)`, from the given index.
  abbrev pub enumerate_from : ℕ → List A → List (ℕ × A)
  enumerate_from i [] = []
  enumerate_from i (x ∷ xs) = (i, x) ∷ enumerate_from (suc i) xs

  abbrev pub All {κ} : (A → Type κ) → List A → Type κ
  All P [] = Unit
  All P (x ∷ xs) = P x × All P xs

-- Membership as a computed type.
abbrev pub In : {A : Type 0} → A → List A → Type 0
In a [] = ⊥
In a (x ∷ xs) = (a ≡ x) ⊎ In a xs

module _ {ℓ} {A : Type ℓ} where
  pub length-append : (xs ys : List A) → length (xs ++ ys) ≡ length xs + length ys
  length-append [] ys = omega arith
  length-append (x ∷ xs) ys = omega (arith, length-append xs ys)

  pub length-enumerate_from : (i : ℕ) (xs : List A) → length (enumerate_from i xs) ≡ length xs
  length-enumerate_from i [] = refl
  length-enumerate_from i (x ∷ xs) = ap suc (length-enumerate_from (suc i) xs)

  pub All-append {κ} : (P : A → Type κ) (us vs : List A) → All P us → All P vs → All P (us ++ vs)
  All-append P [] vs left right = right
  All-append P (u ∷ us) vs left right = (left.0, All-append P us vs left.1 right)

  pub All-imply {κ μ} :
      {P : A → Type κ} {Q : A → Type μ} (imply : (x : A) → P x → Q x) (xs : List A)
      → All P xs
      → All Q xs
  All-imply imply [] h = tt
  All-imply imply (x ∷ xs) h = (imply x h.0, All-imply imply xs h.1)

  pub All-filter {κ} :
      (P : A → Type κ) (p : A → Bool) (xs : List A) → All P xs → All P (filter p xs)
  All-filter P p [] h = tt
  All-filter P p (x ∷ xs) h = go (p x) (All-filter P p xs h.1)
    where
      go : (b : Bool) → All P (filter p xs) → All P (if b then x ∷ filter p xs else filter p xs)
      go true rest = (h.0, rest)
      go false rest = rest

  pub All-map {κ μ} :
      {B : Type κ} (P : B → Type μ) (f : A → B) (xs : List A)
      → All (λ x. P (f x)) xs
      → All P (map f xs)
  All-map P f [] h = tt
  All-map P f (x ∷ xs) h = (h.0, All-map P f xs h.1)

  pub length-map {κ} : {B : Type κ} (f : A → B) (xs : List A) → length (map f xs) ≡ length xs
  length-map f [] = refl
  length-map f (x ∷ xs) = ap suc (length-map f xs)

-- `enumerate(xs)`
abbrev pub enumerate {ℓ} : {A : Type ℓ} → List A → List (ℕ × A)
enumerate xs = enumerate_from 0 xs

-- `range(n)` from the given start: `start, start + 1, …`, `n` numbers.
abbrev pub range_from : ℕ → ℕ → List ℕ
range_from i zero = []
range_from i (suc n) = i ∷ range_from (suc i) n

abbrev pub range : ℕ → List ℕ
range n = range_from 0 n

module _ {ℓ} {A : Type ℓ} ⦃e : Comparable A⦄ where
  -- `a in xs`
  abbrev pub contains : A → List A → Bool
  contains a [] = false
  contains a (x ∷ xs) = (a == x) || contains a xs

  -- `xs.index(a)`: the first position of the value.
  abbrev pub index : A → List A → Option ℕ
  index a [] = none
  index a (x ∷ xs) =
      let rest = index a xs in
      if a == x then some 0 else elim rest [ none ↦ none | some i ↦ some (suc i) ]

  -- `s.add(a)` of a set, kept in the order of insertion.
  abbrev pub add : A → List A → List A
  add a xs = if contains a xs then xs else xs ++ (a ∷ [])

  -- `xs.remove(a)`: without the first occurrence; the caller raises where there is none.
  abbrev pub remove : A → List A → List A
  remove a [] = []
  remove a (x ∷ xs) = if a == x then xs else x ∷ remove a xs

  -- `set(xs)`, in the order of the first occurrences.
  abbrev pub add_all : List A → List A → List A
  add_all s [] = s
  add_all s (x ∷ xs) = add_all (add x s) xs

  abbrev pub Nodup : List A → Type 0
  Nodup [] = Unit
  Nodup (x ∷ xs) = (contains x xs ≡ false) × Nodup xs

pub All-In {κ} : {A : Type 0} (P : A → Type κ) (xs : List A) → All P xs → (a : A) → In a xs → P a
All-In P [] h a m = absurd m
All-In P (x ∷ xs) h a (inl e) = rw e h.0
All-In P (x ∷ xs) h a (inr m) = All-In P xs h.1 a m

pub All_of {κ} : {A : Type 0} (P : A → Type κ) (xs : List A) → ((x : A) → In x xs → P x) → All P xs
All_of P [] h = tt
All_of P (x ∷ xs) h = (h x (inl refl), All_of P xs (λ y m. h y (inr m)))

module _ {A : Type 0} ⦃e : Comparable A⦄ where
  pub contains_iff : (a : A) (xs : List A) → (contains a xs ≡ true) ↔ In a xs
  contains_iff a [] = (λ h. cc, λ h. absurd h)
  contains_iff a (x ∷ xs) = (
    λ h. ground (arith, e.equals_iff a x, contains_iff a xs),
    λ h. ground (arith, e.equals_iff a x, contains_iff a xs),
  )

module _ {ℓ κ} {A : Type ℓ} (P : A → Type κ) where
  -- What holds of a list holds of its parts.
  pub All-split : (us vs : List A) → All P (us ++ vs) → All P us × All P vs
  All-split [] vs h = (tt, h)
  All-split (u ∷ us) vs h = let (left, right) = All-split us vs h.1 in ((h.0, left), right)

module _ {A : Type 0} where
  pub In-left : (a : A) (us vs : List A) → In a us → In a (us ++ vs)
  In-left a [] vs m = absurd m
  In-left a (u ∷ us) vs (inl e) = inl e
  In-left a (u ∷ us) vs (inr m) = inr (In-left a us vs m)

  pub In-right : (a : A) (us vs : List A) → In a vs → In a (us ++ vs)
  In-right a [] vs m = m
  In-right a (u ∷ us) vs m = inr (In-right a us vs m)

  pub In-map : {B : Type 0} (f : A → B) (a : A) (us : List A) → In a us → In (f a) (map f us)
  In-map f a [] m = absurd m
  In-map f a (u ∷ us) (inl e) = inl (ap f e)
  In-map f a (u ∷ us) (inr m) = inr (In-map f a us m)

  pub All-unmap {κ} :
      {B : Type 0} (P : B → Type κ) (f : A → B) (us : List A)
      → All P (map f us)
      → All (λ u. P (f u)) us
  All-unmap P f [] h = tt
  All-unmap P f (u ∷ us) h = (h.0, All-unmap P f us h.1)

-- Two ranges, one after the other.
pub range_from-append : (i n m : ℕ) → range_from i n ++ range_from (i + n) m ≡ range_from i (n + m)
range_from-append i zero m =
    let start : i + 0 ≡ i = omega arith in
    let count : m ≡ 0 + m = omega arith in ap (λ k. range_from k m) start ∙ ap (range_from i) count
range_from-append i (suc n) m =
    let start : i + suc n ≡ suc i + n = omega arith in
    let count : suc (n + m) ≡ suc n + m = omega arith in
    ap (λ xs. i ∷ xs)
      (ap (λ k. range_from (suc i) n ++ range_from k m) start ∙ range_from-append (suc i) n m)
    ∙ ap (range_from i) count

module _ {ℓ} {A : Type ℓ} where
  -- `xs[:-1]`
  abbrev pub init : List A → List A
  init [] = []
  init (x ∷ []) = []
  init (x ∷ y ∷ ys) = x ∷ init (y ∷ ys)

  pub init-append : (xs : List A) (x : A) → init (xs ++ x ∷ []) ≡ xs
  init-append [] x = refl
  init-append (y ∷ []) x = refl
  init-append (y ∷ z ∷ zs) x = ap (λ us. y ∷ us) (init-append (z ∷ zs) x)

-- There is an element at each index below the length.
pub get_elem?-lt {ℓ} :
    {A : Type ℓ} (xs : List A) (i : ℕ) → i < length xs → (x : A) × (get_elem? xs i ≡ some x)
get_elem?-lt [] i h = absurd (omega arith)
get_elem?-lt (x ∷ xs) zero h = (x, refl)
get_elem?-lt (x ∷ xs) (suc i) h = get_elem?-lt xs i (omega arith)

module _ {A : Type 0} where
  pub get_elem?-In : (xs : List A) (i : ℕ) (x : A) → get_elem? xs i ≡ some x → In x xs
  get_elem?-In [] i x h = cc
  get_elem?-In (y ∷ xs) zero x h = inl (cc)
  get_elem?-In (y ∷ xs) (suc i) x h = inr (get_elem?-In xs i x h)

-- A member is found at an index below the length.
pub In-index :
    {A : Type 0} ⦃e : Comparable A⦄ (a : A) (xs : List A)
    → In a xs
    → (i : ℕ) × (index a xs ≡ some i) × (i < length xs)
In-index a [] m = absurd m
In-index ⦃e⦄ a (x ∷ xs) m = elim (Bool-cases (a == x)) [
  | inl same ↦ (0, (rw same refl), omega arith)
  | inr other ↦
      let (i, at, below) = In-index a xs (later other m) in
      (suc i, (rw other (rw at refl)), omega arith)
]
  where
    later : (a == x) ≡ false → In a (x ∷ xs) → In a xs
    later other (inl same) = absurd (ground (arith, (e.equals_iff a x).1 same))
    later other (inr m) = m

-- The lists have the same length, and their elements stand in the relation in turn.
abbrev pub Each : {A B : Type 0} → (A → B → Type 0) → List A → List B → Type 0
Each R [] [] = Unit
Each R [] (y ∷ ys) = ⊥
Each R (x ∷ xs) [] = ⊥
Each R (x ∷ xs) (y ∷ ys) = R x y × Each R xs ys

pub Each-imply :
    {A B : Type 0} {R S : A → B → Type 0}
    → ((a : A) (b : B) → R a b → S a b)
    → (xs : List A) (ys : List B) → Each R xs ys
    → Each S xs ys
Each-imply imply [] [] h = tt
Each-imply imply [] (b ∷ ys) h = absurd h
Each-imply imply (a ∷ xs) [] h = absurd h
Each-imply imply (a ∷ xs) (b ∷ ys) h = (imply a b h.0, Each-imply imply xs ys h.1)

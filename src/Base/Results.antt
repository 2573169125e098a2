-- ===== src/Base/Results.antt =====
-- Python's exceptions as values.
use mathlib.Core.Path.{◌≡◌, refl, ap, ◌∙◌, subst}
use mathlib.Core.Logic.{inl, inr}
use mathlib.Core.Bool.{Bool, true, false}
use mathlib.Core.Option.{Option, none, some}
use mathlib.Core.List.{List, [], ◌∷◌, ◌++◌, map}
use cpsc_of_testbed.Base.Lists.{All, In}
use native.Mathlib.Omega.{arith}

pub data Error : Type 0 where
  value_error key_error index_error type_error attribute_error not_implemented stop_iteration
        zero_division name_error os_error :
      Error

pub data Result {ℓ} (A : Type ℓ) : Type ℓ where
  ok : A → Result A
  raise : Error → Result A

infixl 5 ◌>>=◌ ◌>>◌
abbrev pub ◌>>=◌ {ℓ κ} : {A : Type ℓ} {B : Type κ} → Result A → (A → Result B) → Result B
ok a >>= f = f a
raise e >>= f = raise e

abbrev pub ◌>>◌ {ℓ} : {B : Type ℓ} → Result (Unit {0}) → Result B → Result B
m >> k = m >>= λ _. k

-- The value, or an exception where there is none.
abbrev pub or_raise {ℓ} : {A : Type ℓ} → Option A → Error → Result A
or_raise none e = raise e
or_raise (some a) e = ok a

-- `if c: raise e`
abbrev pub raise_if : Bool → Error → Result (Unit {0})
raise_if true e = raise e
raise_if false e = ok tt

module _ {ℓ κ} {A : Type ℓ} {B : Type κ} where
  -- `for x in xs: b = f(b, x)`, where the body may raise.
  unfoldable pub fold_result : (B → A → Result B) → B → List A → Result B
  fold_result f b [] = ok b
  fold_result f b (x ∷ xs) = f b x >>= λ b'. fold_result f b' xs

  -- `[f(x) for x in xs]`, where `f` may raise.
  unfoldable pub map_result : (A → Result B) → List A → Result (List B)
  map_result f [] = ok []
  map_result f (x ∷ xs) = do y ← f x; ys ← map_result f xs; ok (y ∷ ys)

module _ {ℓ κ} {A : Type ℓ} {B : Type κ} where
  -- A chain that succeeds: its first call gives a value, and the rest succeeds on it.
  pub >>=-eq-ok :
      {y : B} (call : Result A) (rest : A → Result B)
      → (call >>= rest) ≡ ok y
      → (x : A) × (call ≡ ok x) × (rest x ≡ ok y)
  >>=-eq-ok (raise e) rest h = cc
  >>=-eq-ok (ok x) rest h = (x, refl, h)

module _ {ℓ κ} {A : Type ℓ} {B : Type κ} where
  -- A chain whose first call does not succeed.
  pub >>=-fails :
      (call : Result A) (rest : A → Result B) {y : B}
      → ((x : A) → ¬ (call ≡ ok x))
      → ¬ ((call >>= rest) ≡ ok y)
  >>=-fails (raise e) rest fails h = cc
  >>=-fails (ok x) rest fails h = fails x refl

  -- A chain that ends in an exception.
  pub >>=-raises : (call : Result A) (e : Error) {y : B} → ¬ ((call >>= λ _. raise e) ≡ ok y)
  >>=-raises (raise d) e h = cc
  >>=-raises (ok x) e h = cc

  -- An invariant that each round keeps holds after the loop.
  pub fold_result_inv {μ} :
      (P : B → Type μ) (f : B → A → Result B)
      → ((b : B) (x : A) (b' : B) → P b → f b x ≡ ok b' → P b')
      → (b : B) (xs : List A) (b' : B) → P b
      → fold_result f b xs ≡ ok b'
      → P b'
  unfolding fold_result
  fold_result_inv P f keep b [] b' p h = ground arith
  fold_result_inv P f keep b (x ∷ xs) b' p h =
      let (c, first, rest) = >>=-eq-ok (f b x) (λ c. fold_result f c xs) h in
      fold_result_inv P f keep c xs b' (keep b x c p first) rest

pub or_raise-eq-ok {ℓ} :
    {A : Type ℓ} (o : Option A) (e : Error) {a : A} → or_raise o e ≡ ok a → o ≡ some a
or_raise-eq-ok none e h = cc
or_raise-eq-ok (some a) e h = cc

pub ok_injective {ℓ} : {A : Type ℓ} {a b : A} → ok a ≡ ok b → a ≡ b
ok_injective h = cc

-- A guard that lets the rest pass.
pub raise_if-eq-ok {ℓ} :
    {A : Type ℓ} (b : Bool) (e : Error) {x y : A}
    → (raise_if b e >> ok x) ≡ ok y
    → (b ≡ false) × (x ≡ y)
raise_if-eq-ok true e h = cc
raise_if-eq-ok false e h = (refl, ok_injective h)

-- `s[-1]`
abbrev pub last_of {ℓ} : {A : Type ℓ} → List A → Result A
last_of [] = raise index_error
last_of (x ∷ []) = ok x
last_of (x ∷ y ∷ ys) = last_of (y ∷ ys)

pub last_of-append {ℓ} : {A : Type ℓ} (xs : List A) (x : A) → last_of (xs ++ x ∷ []) ≡ ok x
last_of-append [] x = refl
last_of-append (y ∷ []) x = refl
last_of-append (y ∷ z ∷ zs) x = last_of-append (z ∷ zs) x

module _ {ℓ κ} {A : Type ℓ} {B : Type κ} where
  -- Loops whose bodies do the same.
  pub fold_result-same :
      (f g : B → A → Result B)
      → ((b : B) (x : A) → f b x ≡ g b x)
      → (b : B) (xs : List A) → fold_result f b xs ≡ fold_result g b xs
  unfolding fold_result
  fold_result-same f g same b [] = refl
  fold_result-same f g same b (x ∷ xs) =
      ap (λ r. r >>= λ c. fold_result f c xs) (same b x)
      ∙ go (g b x) (λ c. fold_result-same f g same c xs)
    where
      go :
          (r : Result B)
          → ((c : B) → fold_result f c xs ≡ fold_result g c xs)
          → (r >>= λ c. fold_result f c xs) ≡ (r >>= λ c. fold_result g c xs)
      go (raise e) rest = refl
      go (ok c) rest = rest c

-- A value computed first, and then used.
pub >>=-map {ℓ κ μ} :
    {A : Type ℓ} {B : Type κ} {C : Type μ} (f : A → B) (g : B → Result C) (r : Result A)
    → (r >>= λ a. g (f a)) ≡ ((r >>= λ a. ok (f a)) >>= g)
>>=-map f g (raise e) = refl
>>=-map f g (ok a) = refl

module _ {ℓ κ} {A : Type ℓ} {B : Type κ} where
  -- A list of calls that all succeed.
  pub map_result-ok :
      (f : A → Result B) (g : A → B) (xs : List A)
      → All (λ x. f x ≡ ok (g x)) xs
      → map_result f xs ≡ ok (map g xs)
  unfolding map_result
  map_result-ok f g [] h = refl
  map_result-ok f g (x ∷ xs) h = rw h.0 (rw (map_result-ok f g xs h.1) refl)

pub raise-ne-ok {ℓ} : {A : Type ℓ} {e : Error} {a : A} → raise e ≡ ok a → ⊥
raise-ne-ok h = cc

-- The same for a body that keeps the invariant at the elements of the list.
pub fold_result_inv_in {κ μ} :
    {A : Type 0} {B : Type κ} (P : B → Type μ) (f : B → A → Result B) (xs : List A)
    → ((b : B) (x : A) (b' : B) → In x xs → P b → f b x ≡ ok b' → P b')
    → (b b' : B) → P b
    → fold_result f b xs ≡ ok b'
    → P b'
unfolding fold_result
fold_result_inv_in P f [] keep b b' p h = subst P (ok_injective h) p
fold_result_inv_in P f (x ∷ xs) keep b b' p h =
    let (c, first, rest) = >>=-eq-ok (f b x) (λ c. fold_result f c xs) h in
    fold_result_inv_in P f xs (λ d y d' m. keep d y d' (inr m)) c b' (keep b x c (inl refl) p first)
      rest

-- A loop whose body succeeds, and keeps the invariant, at the elements of the list.
pub fold_result_total {κ μ} :
    {A : Type 0} {B : Type κ} (P : B → Type μ) (f : B → A → Result B) (xs : List A)
    → ((b : B) (x : A) → In x xs → P b → (b' : B) × (f b x ≡ ok b') × P b')
    → (b : B) → P b
    → (b' : B) × (fold_result f b xs ≡ ok b') × P b'
unfolding fold_result
fold_result_total P f [] go b p = (b, refl, p)
fold_result_total P f (x ∷ xs) go b p =
    let (c, first, q) = go b x (inl refl) p in
    let (d, rest, r) = fold_result_total P f xs (λ e y m. go e y (inr m)) c q in
    (d, (rw first rest), r)

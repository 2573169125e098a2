-- ===== src/Base/Tests.antt =====
-- Boolean tests on the native numbers, the conditional, and Python's `==` as an interface.
use Prim.Native.Nat.{ℕ, ◌≤◌, ◌<◌, compare, Ordering}
use Prim.Native.String.{String}
use mathlib.Core.Path.{◌≡◌, refl}
use mathlib.Core.Logic.{◌↔◌, ◌⊎◌, inl, inr}
use mathlib.Core.Bool.{Bool, true, false, ◌&&◌}
use mathlib.Core.Option.{Option, none, some}
use native.Mathlib.Omega.{arith}
use text.Mathlib.Text.{◌==◌ as str_eq}
use text.Mathlib.TextEquality.{eq_iff}

abbrev pub ltb : ℕ → ℕ → Bool
ltb a b = elim (compare a b) [ Ordering.lt ↦ true | _ ↦ false ]

abbrev pub leb : ℕ → ℕ → Bool
leb a b = elim (compare a b) [ Ordering.gt ↦ false | _ ↦ true ]

abbrev pub eqb : ℕ → ℕ → Bool
eqb a b = elim (compare a b) [ Ordering.eq ↦ true | _ ↦ false ]

infix 1 if◌then◌else◌
abbrev pub if◌then◌else◌ {ℓ} : {A : Type ℓ} → Bool → A → A → A
if true then x else y = x
if false then x else y = y

pub ltb→lt : (a b : ℕ) → ltb a b ≡ true → a < b
ltb→lt a b h = ground arith

pub lt→ltb : (a b : ℕ) → a < b → ltb a b ≡ true
lt→ltb a b h = ground arith

pub leb→le : (a b : ℕ) → leb a b ≡ true → a ≤ b
leb→le a b h = ground arith

pub eqb_iff : (a b : ℕ) → (eqb a b ≡ true) ↔ (a ≡ b)
eqb_iff a b = ground arith

pub ruleset tests = (arith, ltb→lt, lt→ltb, leb→le)

pub Bool-cases : (b : Bool) → (b ≡ true) ⊎ (b ≡ false)
Bool-cases true = inl refl
Bool-cases false = inr refl

pub Option-cases {ℓ} : {A : Type ℓ} (o : Option A) → (o ≡ none) ⊎ ((a : A) × (o ≡ some a))
Option-cases none = inl refl
Option-cases (some a) = inr (a, refl)

-- A Python `==` that says whether two values are the same.
pub record Comparable {ℓ} (A : Type ℓ) : Type ℓ where
  pub equals : A → A → Bool
  pub equals_iff : (a b : A) → (equals a b ≡ true) ↔ (a ≡ b)

infix 50 ◌==◌
abbrev pub ◌==◌ {ℓ} : {A : Type ℓ} ⦃e : Comparable A⦄ → A → A → Bool
◌==◌ ⦃e⦄ = e.equals

instance abbrev pub nat_eq : Comparable ℕ
nat_eq = record { equals = eqb; equals_iff = eqb_iff }

instance abbrev pub string_eq : Comparable String
string_eq = record { equals = str_eq; equals_iff = eq_iff }

abbrev pub pair_eqb : ℕ × ℕ → ℕ × ℕ → Bool
pair_eqb p q = eqb p.0 q.0 && eqb p.1 q.1

pub pair_eqb_iff : (p q : ℕ × ℕ) → (pair_eqb p q ≡ true) ↔ (p ≡ q)
pair_eqb_iff (a, b) (c, d) = ground arith

instance abbrev pub pair_eq : Comparable (ℕ × ℕ)
pair_eq = record { equals = pair_eqb; equals_iff = pair_eqb_iff }

module _ {ℓ} {A : Type ℓ} ⦃e : Comparable A⦄ where
  pub eq_self : (a : A) → (a == a) ≡ true
  eq_self a = (e.equals_iff a a).1 refl

abbrev pub triple_eqb : ℕ × (ℕ × ℕ) → ℕ × (ℕ × ℕ) → Bool
triple_eqb p q = eqb p.0 q.0 && pair_eqb p.1 q.1

pub triple_eqb_iff : (p q : ℕ × (ℕ × ℕ)) → (triple_eqb p q ≡ true) ↔ (p ≡ q)
triple_eqb_iff (a, (b, c)) (d, (e, f)) = ground arith

instance abbrev pub triple_eq : Comparable (ℕ × (ℕ × ℕ))
triple_eq = record { equals = triple_eqb; equals_iff = triple_eqb_iff }

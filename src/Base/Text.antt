-- ===== src/Base/Text.antt =====
-- Python's texts as lists of code points: `split`, `splitlines`, `"%d"` and `int`. `int` reads
-- decimal digits; the signs, blanks and underscores that it would also take raise here.
pub mod Numerals
pub mod Parts
pub mod Floats
pub mod Words
pub mod Entries
pub mod Grouped
use Prim.Native.Nat.{ℕ, zero, suc, ◌+◌, ◌-◌, ◌*◌, ◌/◌, ◌%◌}
use Prim.Native.Char.{code}
use Prim.Native.String.{String}
use mathlib.Core.Path.{◌≡◌, refl}
use mathlib.Core.Logic.{◌↔◌}
use native.Mathlib.Omega.{arith}
use mathlib.Core.Bool.{Bool, true, false, ◌&&◌, ◌||◌}
use mathlib.Core.Option.{Option, none, some}
use mathlib.Core.List.{List, [], ◌∷◌, ◌++◌}
use cpsc_of_testbed.Base.Results.{Result, or_raise, value_error}
use cpsc_of_testbed.Base.Tests.{ltb, leb, eqb, if◌then◌else◌, Comparable}

abbrev pub Text : Type 0
Text = List ℕ

-- The code points of a literal.
abbrev pub codes : String → Text
codes String.[] = []
codes (String.◌∷◌ c s) = code c ∷ codes s

-- The first part is the one that the text before has begun.
unfoldable pub split_from : ℕ → Text → Text → List Text
split_from sep part [] = part ∷ []
split_from sep part (c ∷ s) =
    let longer = split_from sep (part ++ c ∷ []) s in
    let next = split_from sep [] s in if eqb c sep then part ∷ next else longer

-- `s.split(sep)`, at a single character.
unfoldable pub split : ℕ → Text → List Text
unfolding split_from
split sep s = split_from sep [] s

-- The characters that end a line.
abbrev pub is_break : ℕ → Bool
is_break c =
    (leb 10 c && leb c 13) || ((leb 28 c && leb c 30) || (eqb c 133 || (leb 8232 c && leb c 8233)))

-- A line feed behind a carriage return ends no line of its own.
unfoldable pub lines_from : Bool → Text → Text → List Text
lines_from after_return [] [] = []
lines_from after_return (d ∷ line) [] = (d ∷ line) ∷ []
lines_from after_return line (c ∷ s) =
    let same = lines_from false line s in
    let longer = lines_from false (line ++ c ∷ []) s in
    let next = lines_from (eqb c 13) [] s in
    if after_return && eqb c 10 then same else if is_break c then line ∷ next else longer

-- `s.splitlines()`
unfoldable pub split_lines : Text → List Text
unfolding lines_from
split_lines s = lines_from false [] s

-- `for line in lines: s += line + "\n"`
abbrev pub unlines : List Text → Text
unlines [] = []
unlines (line ∷ lines) = line ++ b'\n' ∷ unlines lines

-- The digits of a number before a text; the fuel counts them.
unfoldable pub digits : ℕ → ℕ → Text → Text
digits zero n out = out
digits (suc fuel) n out =
    let rest = digits fuel (n / 10) ((b'0' + n % 10) ∷ out) in
    if ltb n 10 then (b'0' + n) ∷ out else rest

-- `"%d" % n` and `str(n)`: a number has no more digits than its value, or one.
unfoldable pub show : ℕ → Text
unfolding digits
show n = digits (suc n) n []

unfoldable pub scan : Text → ℕ → Option ℕ
scan [] n = some n
scan (c ∷ s) n = if leb b'0' c && leb c b'9' then scan s (n * 10 + (c - b'0')) else none

-- The number of a text of digits.
unfoldable pub read_nat : Text → Option ℕ
unfolding scan
read_nat [] = none
read_nat (c ∷ s) = scan (c ∷ s) 0

abbrev pub text_eqb : Text → Text → Bool
text_eqb [] [] = true
text_eqb [] (d ∷ t) = false
text_eqb (c ∷ s) [] = false
text_eqb (c ∷ s) (d ∷ t) = eqb c d && text_eqb s t

pub text_eqb_iff : (s t : Text) → (text_eqb s t ≡ true) ↔ (s ≡ t)
text_eqb_iff [] [] = ground arith
text_eqb_iff [] (d ∷ t) = (λ h. cc, λ h. cc)
text_eqb_iff (c ∷ s) [] = (λ h. cc, λ h. cc)
text_eqb_iff (c ∷ s) (d ∷ t) = ground (arith, text_eqb_iff s t)

-- `s == t`
instance abbrev pub text_eq : Comparable Text
text_eq = record { equals = text_eqb; equals_iff = text_eqb_iff }

abbrev pub text_pair_eqb : Text × Text → Text × Text → Bool
text_pair_eqb p q = text_eqb p.0 q.0 && text_eqb p.1 q.1

pub text_pair_eqb_iff : (p q : Text × Text) → (text_pair_eqb p q ≡ true) ↔ (p ≡ q)
text_pair_eqb_iff (a, b) (c, d) = ground (arith, text_eqb_iff a c, text_eqb_iff b d)

instance abbrev pub text_pair_eq : Comparable (Text × Text)
text_pair_eq = record { equals = text_pair_eqb; equals_iff = text_pair_eqb_iff }

-- `s <= t`, by the first characters that differ.
abbrev pub text_leb : Text → Text → Bool
text_leb [] t = true
text_leb (c ∷ s) [] = false
text_leb (c ∷ s) (d ∷ t) = if eqb c d then text_leb s t else leb c d

pub text_leb_total : (s t : Text) → text_leb s t ≡ false → text_leb t s ≡ true
text_leb_total [] t h = ground arith
text_leb_total (c ∷ s) [] h = refl
text_leb_total (c ∷ s) (d ∷ t) h = ground (arith, text_leb_total s t)

pub text_leb_antisym : (s t : Text) → text_leb s t ≡ true → text_leb t s ≡ true → s ≡ t
text_leb_antisym [] [] h k = refl
text_leb_antisym [] (d ∷ t) h k = absurd (ground arith)
text_leb_antisym (c ∷ s) [] h k = absurd (ground arith)
text_leb_antisym (c ∷ s) (d ∷ t) h k = ground (arith, text_leb_antisym s t)

-- `s.lower()`, of ASCII letters.
abbrev pub lower : Text → Text
lower [] = []
lower (c ∷ s) = (if leb b'A' c && leb c b'Z' then c + 32 else c) ∷ lower s

-- `int(s)`
abbrev pub int : Text → Result ℕ
int s = or_raise (read_nat s) value_error

split_test : split b' ' (codes "1 20  3") ≡ codes "1" ∷ codes "20" ∷ [] ∷ codes "3" ∷ []
unfolding split
split_test = refl

split_lines_test : split_lines (codes "a b\nc\n\nd") ≡ codes "a b" ∷ codes "c" ∷ [] ∷ codes "d" ∷ []
unfolding split_lines
split_lines_test = refl

show_test : show 1024 ≡ codes "1024"
unfolding show
show_test = refl

read_nat_test : read_nat (codes "0730") ≡ some 730
unfolding read_nat
read_nat_test = refl

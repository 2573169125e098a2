-- ===== src/Routing/Tags/Effect.antt =====
-- What it does to the tags and their counters to tag some paths of a route.
use cpsc_of_testbed.Base.{
  ℕ, suc, ◌+◌, List, [], ◌∷◌, ◌++◌, ◌≡◌, refl, sym, ◌∙◌, some, range_from, eqb, pair_eqb, pair_eq,
  nat_eq, ap, arith, false,
}
use mathlib.Core.List.{append-nil, append_assoc}
use cpsc_of_testbed.Base.Dict.{lookup, lookup-insert_self, lookup-insert_ne}
use cpsc_of_testbed.Routing.Tags.{Pair, Adder, counter, counter_in, tagged}

pub some_injective : {A : Type 0} {a b : A} → some a ≡ some b → a ≡ b
some_injective h = cc

-- What tagging does: the route of the number has n tags more, counted from the counter of the pair; the
-- other routes and the other pairs keep theirs.
pub record Effect (route_id : ℕ) (q : Pair) (old : List ℕ) (n : ℕ) (s t : Adder) : Type 0 where
  pub tags : lookup route_id t.tag_values ≡ some (old ++ range_from (counter s q) n)
  pub counted : counter t q ≡ counter s q + n
  pub other_routes :
      (j : ℕ) → eqb route_id j ≡ false → lookup j t.tag_values ≡ lookup j s.tag_values
  pub other_pairs : (p : Pair) → pair_eqb q p ≡ false → counter t p ≡ counter s p

pub tagged-Effect :
    (s : Adder) (route_id : ℕ) (q : Pair) (old : List ℕ)
    → Effect route_id q old 1 s (tagged s route_id q old)
tagged-Effect s route_id q old =
    let next : suc (counter s q) ≡ counter s q + 1 = omega arith in
    record {
      tags = lookup-insert_self route_id (old ++ counter s q ∷ []) s.tag_values;
      counted = ap counter_in (lookup-insert_self q (suc (counter s q)) s.tag_counters) ∙ next;
      other_routes = λ j. lookup-insert_ne route_id j (old ++ counter s q ∷ []) s.tag_values;
      other_pairs =
          λ p ne. ap counter_in (lookup-insert_ne q p (suc (counter s q)) s.tag_counters ne);
    }

pub Effect-nothing :
    (s : Adder) (route_id : ℕ) (q : Pair) (old : List ℕ)
    → lookup route_id s.tag_values ≡ some old
    → Effect route_id q old 0 s s
Effect-nothing s route_id q old h = record {
  tags = h ∙ ap some (sym (append-nil old));
  counted = omega arith;
  other_routes = λ j ne. refl;
  other_pairs = λ p ne. refl;
}

pub Effect-step :
    (s u t : Adder) (route_id : ℕ) (q : Pair) (old : List ℕ) (n : ℕ)
    → Effect route_id q old 1 s u
    → Effect route_id q (old ++ counter s q ∷ []) n u t
    → Effect route_id q old (suc n) s t
Effect-step s u t route_id q old n one more =
    let next : counter u q ≡ suc (counter s q) = omega (arith, one.counted) in
    record {
      tags =
          more.tags
          ∙ ap (λ k. some ((old ++ counter s q ∷ []) ++ range_from k n)) next
          ∙ ap some (append_assoc old (counter s q ∷ []) (range_from (suc (counter s q)) n));
      counted = omega (arith, more.counted, one.counted);
      other_routes = λ j ne. more.other_routes j ne ∙ one.other_routes j ne;
      other_pairs = λ p ne. more.other_pairs p ne ∙ one.other_pairs p ne;
    }

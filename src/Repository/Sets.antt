-- ===== src/Repository/Sets.antt =====
-- What is in a set that was built by `add` and by a filter.
use cpsc_of_testbed.Base.{
  List, [], ◌∷◌, ◌++◌, Bool, true, ◌&&◌, ◌||◌, ◌≡◌, refl, ap, filter, contains, add, add_all, All,
  contains_iff, Comparable, ◌==◌, arith, nat_eq,
}
use cpsc_of_testbed.Repository.{value_eq}

module _ {A : Type 0} ⦃e : Comparable A⦄ where
  contains-snoc : (a x : A) (xs : List A) → contains a (xs ++ x ∷ []) ≡ (contains a xs || (a == x))
  contains-snoc a x [] = ground arith
  contains-snoc a x (y ∷ ys) = ground (arith, contains-snoc a x ys)

  contains-add :
      (a x : A) (xs : List A) → (contains a xs || (a == x)) ≡ true → contains a (add x xs) ≡ true
  contains-add a x xs h =
      ground (
        arith,
        h,
        contains-snoc a x xs,
        contains_iff x xs,
        contains_iff a xs,
        e.equals_iff a x,
        same,
      )
    where
      same : (a == x) ≡ true → contains a xs ≡ contains x xs
      same k = ap (λ y. contains y xs) ((e.equals_iff a x).0 k)

  pub contains-add_all :
      (a : A) (s us : List A)
      → (contains a s || contains a us) ≡ true
      → contains a (add_all s us) ≡ true
  contains-add_all a s [] h = ground (arith, h)
  contains-add_all a s (u ∷ us) h =
      contains-add_all a (add u s) us (ground (arith, h, contains-add a u s))

  pub contains-filter :
      (a : A) (f : A → Bool) (xs : List A) → contains a (filter f xs) ≡ (contains a xs && f a)
  contains-filter a f [] = refl
  contains-filter a f (x ∷ xs) = ground (arith, contains-filter a f xs, same)
    where
      same : (a == x) ≡ true → f a ≡ f x
      same k = ap f ((e.equals_iff a x).0 k)

module _ {A : Type 0} where
  pub filter-filter :
      (f g h : A → Bool) (xs : List A)
      → ((x : A) → (f x && g x) ≡ h x)
      → filter g (filter f xs) ≡ filter h xs
  filter-filter f g h [] same = refl
  filter-filter f g h (x ∷ xs) same = ground (arith, same x, filter-filter f g h xs same)

  pub filter_same :
      (f g : A → Bool) (xs : List A) → All (λ x. f x ≡ g x) xs → filter f xs ≡ filter g xs
  filter_same f g [] h = refl
  filter_same f g (x ∷ xs) h = ground (arith, h.0, filter_same f g xs h.1)

  pub filter_all : (f : A → Bool) (xs : List A) → ((x : A) → f x ≡ true) → filter f xs ≡ xs
  filter_all f [] h = refl
  filter_all f (x ∷ xs) h = rw (h x) (ap (λ ys. x ∷ ys) (filter_all f xs h))

-- ===== src/Allocation/Splits/Loads.antt =====
-- What the expressions Y of the model are worth: after the loops over the flows, their paths and
-- links, each has taken the load of its flow.
use mathlib.Core.Path.{subst}
use cpsc_of_testbed.Base.{
  ℕ, suc, List, [], ◌∷◌, ◌≡◌, refl, sym, ◌∙◌, Bool, true, false, Option, none, some, ok, key_error,
  type_error, or_raise, ◌>>=◌, fold_result, >>=-eq-ok, or_raise-eq-ok, eqb, pairwise,
  enumerate_from, pair_eq, nat_eq, Bool-cases, inl, inr, ap, ok_injective, eqb_iff, pair_eqb, arith,
  ◌<◌,
}
use cpsc_of_testbed.Base.Dict.{Dict, lookup, insert, lookup-insert}
use cpsc_of_testbed.Base.Numbers.{Number, zero_num}
use cpsc_of_testbed.Allocation.Flow.{Flow}
use cpsc_of_testbed.Allocation.Greedy.{Link, sorted_link}
use cpsc_of_testbed.Allocation.Program.{Variable, split, LinExpr, add, value}
use cpsc_of_testbed.Allocation.Splits.{Portions, add_link, add_path, add_flow_links, paths_of}
use cpsc_of_testbed.Allocation.Splits.Sums.{
  is_at, plus_if, load_links, load_paths, paths_list, load_flow,
}

module _ (N : Number) (links : Dict Link ℕ) (a : Variable → Number.Num N) (k : ℕ) where
  open N use {Num, plus, times}

  -- The worth of an entry.
  abbrev worth : Option (LinExpr N) → Num
  worth none = zero_num N
  worth (some e) = value N a e

  abbrev pub portion_of : Portions N → ℕ → Num
  portion_of d i = worth (lookup (i, k) d)

  pub portion_of-found :
      (d : Portions N) (i : ℕ) (e : LinExpr N)
      → lookup (i, k) d ≡ some e
      → portion_of d i ≡ value N a e
  portion_of-found d i e h = ap worth h

  -- A successful addition has found the link and the entry.
  add_link-eq-ok :
      (rate : Num) (i j : ℕ) (d d' : Portions N) (l : Link)
      → add_link N links rate i j d l ≡ ok d'
      → (m : ℕ) × (e : LinExpr N) × (lookup (sorted_link l) links ≡ some m)
        × (lookup (i, m) d ≡ some e)
        × (d' ≡ insert (i, m) (add e rate (split i j)) d)
  unfolding add_link
  add_link-eq-ok rate i j d d' l h =
      let (m, found, h2) =
        >>=-eq-ok (or_raise (lookup (sorted_link l) links) key_error)
          (λ m. or_raise (lookup (i, m) d) key_error >>= λ e.
            ok (insert (i, m) (add e rate (split i j)) d))
          h in
      let (e, old, h3) =
        >>=-eq-ok (or_raise (lookup (i, m) d) key_error)
          (λ e. ok (insert (i, m) (add e rate (split i j)) d)) h2 in
      (
        m,
        e,
        or_raise-eq-ok (lookup (sorted_link l) links) key_error found,
        or_raise-eq-ok (lookup (i, m) d) key_error old,
        sym (ok_injective h3),
      )

  inserted-portion :
      (rate : Num) (i j m : ℕ) (d : Portions N) (e : LinExpr N)
      → lookup (i, m) d ≡ some e
      → portion_of (insert (i, m) (add e rate (split i j)) d) i
        ≡ plus_if N links a k (eqb m k) (portion_of d i) (times (a (split i j)) rate)
  unfolding value
  inserted-portion rate i j m d e h =
      ap worth (lookup-insert (i, m) (i, k) (add e rate (split i j)) d)
      ∙ elim (Bool-cases (eqb m k)) [
        | inl same ↦
            let old : lookup (i, k) d ≡ some e =
              subst (λ q. lookup (i, q) d ≡ some e) ((eqb_iff m k).0 same) h in
            let test : pair_eqb (i, m) (i, k) ≡ true = ground arith in rw (test, same, old) refl
        | inr other ↦
            let test : pair_eqb (i, m) (i, k) ≡ false = ground arith in rw (test, other) refl
      ]

  inserted-other :
      (e : LinExpr N) (i m f : ℕ) (d : Portions N)
      → eqb i f ≡ false
      → lookup (f, k) (insert (i, m) e d) ≡ lookup (f, k) d
  inserted-other e i m f d h = lookup-insert (i, m) (f, k) e d ∙ ground (arith)

  is_at-found :
      (l : Link) (m : ℕ) → lookup (sorted_link l) links ≡ some m → is_at N links a k l ≡ eqb m k
  is_at-found l m h = ap (λ o. elim o as (λ x. Bool) [ none ↦ false | some i ↦ eqb i k ]) h

  add_link-portion :
      (rate : Num) (i j : ℕ) (d d' : Portions N) (l : Link)
      → add_link N links rate i j d l ≡ ok d'
      → (portion_of d' i
          ≡ plus_if N links a k (is_at N links a k l) (portion_of d i) (times (a (split i j)) rate))
        × ((f : ℕ) → eqb i f ≡ false → portion_of d' f ≡ portion_of d f)
  add_link-portion rate i j d d' l h =
      let (m, e, at, was, now) = add_link-eq-ok rate i j d d' l h in
      let x = times (a (split i j)) rate in
      rw now (
        inserted-portion rate i j m d e was
            ∙ ap (λ b. plus_if N links a k b (portion_of d i) x) (sym (is_at-found l m at)),
        λ f ne. ap worth (inserted-other (add e rate (split i j)) i m f d ne),
      )

  -- What the loops leave of the entries of the other flows.
  abbrev Others : Portions N → Portions N → ℕ → Type 0
  Others d d' i = (f : ℕ) → eqb i f ≡ false → portion_of d' f ≡ portion_of d f

  add_path-portion :
      (rate : Num) (i j : ℕ) (ls : List Link) (d d' : Portions N)
      → fold_result (add_link N links rate i j) d ls ≡ ok d'
      → (portion_of d' i ≡ load_links N links a k (times (a (split i j)) rate) ls (portion_of d i))
        × Others d d' i
  unfolding fold_result
  add_path-portion rate i j [] d d' h = rw (ok_injective h) (refl, λ f ne. refl)
  add_path-portion rate i j (l ∷ ls) d d' h =
      let (c, first, rest) =
        >>=-eq-ok (add_link N links rate i j d l)
          (λ c. fold_result (add_link N links rate i j) c ls) h in
      let one = add_link-portion rate i j d c l first in
      let more = add_path-portion rate i j ls c d' rest in
      let x = times (a (split i j)) rate in
      (more.0 ∙ ap (load_links N links a k x ls) one.0, λ f ne. more.1 f ne ∙ one.1 f ne)

  add_paths-portion :
      (rate : Num) (i : ℕ) (ps : List (ℕ × List ℕ)) (d d' : Portions N)
      → fold_result (add_path N links rate i) d ps ≡ ok d'
      → (portion_of d' i ≡ load_paths N links a k i rate ps (portion_of d i)) × Others d d' i
  unfolding fold_result
  add_paths-portion rate i [] d d' h = rw (ok_injective h) (refl, λ f ne. refl)
  add_paths-portion rate i (p ∷ ps) d d' h =
      let (c, first, rest) =
        >>=-eq-ok (add_path N links rate i d p) (λ c. fold_result (add_path N links rate i) c ps)
          h in
      let one = add_path-portion rate i p.0 (pairwise p.1) d c first in
      let more = add_paths-portion rate i ps c d' rest in
      (more.0 ∙ ap (load_paths N links a k i rate ps) one.0, λ f ne. more.1 f ne ∙ one.1 f ne)

  add_flow-portion :
      (f : ℕ × Flow N) (d d' : Portions N)
      → add_flow_links N links d f ≡ ok d'
      → (portion_of d' f.0 ≡ load_flow N links a k f (portion_of d f.0)) × Others d d' f.0
  add_flow-portion f d d' h =
      let (ps, some_paths, rest) =
        >>=-eq-ok (paths_of N f.1)
          (λ ps. fold_result (add_path N links f.1.flow_tx_rate f.0) d (enumerate_from 0 ps)) h in
      let is : f.1.paths ≡ some ps = or_raise-eq-ok f.1.paths type_error some_paths in
      let each = add_paths-portion f.1.flow_tx_rate f.0 (enumerate_from 0 ps) d d' rest in
      let same : paths_list N links a k f.1 ≡ ps =
        ap (λ o. elim o as (λ x. List (List ℕ)) [ none ↦ [] | some qs ↦ qs ]) is in
      (
        each.0
            ∙ ap
                (λ qs.
                  load_paths N links a k f.0 f.1.flow_tx_rate (enumerate_from 0 qs)
                    (portion_of d f.0))
                (sym same),
        each.1,
      )

  -- After all the loops, each flow has its load on top of what its entry was worth before.
  abbrev pub Loaded : Portions N → Portions N → ℕ → List (Flow N) → Type 0
  Loaded d d' i [] = Unit
  Loaded d d' i (f ∷ fs) =
      (portion_of d' i ≡ load_flow N links a k (i, f) (portion_of d i)) × Loaded d d' (suc i) fs

  abbrev Below : Portions N → Portions N → ℕ → Type 0
  Below d d' i = (f : ℕ) → f < i → portion_of d' f ≡ portion_of d f

  Loaded-later :
      (d c d' : Portions N) (i j : ℕ) (fs : List (Flow N))
      → Others d c i
      → i < j
      → Loaded c d' j fs
      → Loaded d d' j fs
  Loaded-later d c d' i j [] same le h = tt
  Loaded-later d c d' i j (f ∷ fs) same le h = (
    h.0 ∙ ap (load_flow N links a k (j, f)) (same j (ground arith)),
    Loaded-later d c d' i (suc j) fs same (omega arith) h.1,
  )

  pub add_flows-Loaded :
      (i : ℕ) (fs : List (Flow N)) (d d' : Portions N)
      → fold_result (add_flow_links N links) d (enumerate_from i fs) ≡ ok d'
      → Loaded d d' i fs × Below d d' i
  unfolding fold_result
  add_flows-Loaded i [] d d' h = rw (ok_injective h) (tt, λ f le. refl)
  add_flows-Loaded i (f ∷ fs) d d' h =
      let (c, first, rest) =
        >>=-eq-ok (add_flow_links N links d (i, f))
          (λ c. fold_result (add_flow_links N links) c (enumerate_from (suc i) fs)) h in
      let one = add_flow-portion (i, f) d c first in
      let more = add_flows-Loaded (suc i) fs c d' rest in
      (
        (
          more.1 i (omega arith) ∙ one.0,
          Loaded-later d c d' i (suc i) fs one.1 (omega arith) more.0,
        ),
        λ g le. more.1 g (omega arith) ∙ one.1 g (ground arith),
      )

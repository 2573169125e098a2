-- ===== src/Routing/Tags/Counted.antt =====
-- The tags of the paths between two nodes are counted without a gap.
use cpsc_of_testbed.Base.{
  ℕ, suc, ◌+◌, ◌<◌, List, [], ◌∷◌, ◌++◌, ◌≡◌, refl, sym, ◌∙◌, Option, none, some, Result, ok,
  key_error, type_error, or_raise, or_raise-eq-ok, >>=-eq-ok, ok_injective, fold_result, map_result,
  enumerate_from, length, range_from, range_from-append, pair_eqb, pair_eqb_iff, pair_eq, nat_eq,
  if◌then◌else◌, Bool-cases, inl, inr, ap, arith,
}
use mathlib.Core.Path.{subst}
use cpsc_of_testbed.Base.Dict.{Dict, lookup, lookup-insert_self, lookup-insert_ne}
use cpsc_of_testbed.Base.Numbers.{Number}
use cpsc_of_testbed.Routing.Trial.{FlowPath, Flow}
use cpsc_of_testbed.Routing.Tags.{
  Pair, Body, Adder, counter, with_tags, tagged, pair_of, tag_path, install_route, install_routes,
}
use cpsc_of_testbed.Routing.Tags.Effect.{
  some_injective, Effect, tagged-Effect, Effect-nothing, Effect-step,
}

module _ (N : Number) (map_sw_to_dpid : ℕ → Result ℕ) (answer : List Body → Body → Option ℕ) where
  tag_path-tagged :
      (route_id : ℕ) (q : Pair) (p : FlowPath N) (old : List ℕ) (s t : Adder × Body)
      → lookup route_id s.0.tag_values ≡ some old
      → tag_path N map_sw_to_dpid answer route_id q s p ≡ ok t
      → tagged s.0 route_id q old ≡ t.0
  unfolding tag_path
  tag_path-tagged route_id q p old s t before h =
      let (dpids, _, h1) = >>=-eq-ok (map_result map_sw_to_dpid p.nodes) _ h in
      let (was, found, h2) = >>=-eq-ok (or_raise (lookup route_id s.0.tag_values) key_error) _ h1 in
      let same : some old ≡ some was =
        sym before ∙ or_raise-eq-ok (lookup route_id s.0.tag_values) key_error found in
      ap (tagged s.0 route_id q) (some_injective same)
      ∙ ap (λ (r : Adder × Body). r.0) (ok_injective h2)

  tag_paths-Effect :
      (route_id : ℕ) (q : Pair) (ps : List (FlowPath N)) (old : List ℕ) (s t : Adder × Body)
      → lookup route_id s.0.tag_values ≡ some old
      → fold_result (tag_path N map_sw_to_dpid answer route_id q) s ps ≡ ok t
      → Effect route_id q old (length ps) s.0 t.0
  unfolding fold_result
  tag_paths-Effect route_id q [] old s t before h =
      subst (λ (r : Adder × Body). Effect route_id q old 0 s.0 r.0) (ok_injective h)
        (Effect-nothing s.0 route_id q old before)
  tag_paths-Effect route_id q (p ∷ ps) old s t before h =
      let (u, one, rest) =
        >>=-eq-ok (tag_path N map_sw_to_dpid answer route_id q s p)
          (λ u. fold_result (tag_path N map_sw_to_dpid answer route_id q) u ps) h in
      let first =
        subst (Effect route_id q old 1 s.0) (tag_path-tagged route_id q p old s u before one)
          (tagged-Effect s.0 route_id q old) in
      Effect-step s.0 u.0 t.0 route_id q old (length ps) first
        (tag_paths-Effect route_id q ps (old ++ counter s.0 q ∷ []) u t first.tags rest)

  install_route-Effect :
      (s : Adder) (f : ℕ × Flow N) (t : Adder)
      → install_route N map_sw_to_dpid answer s f ≡ ok t
      → Effect f.0
          (pair_of N map_sw_to_dpid answer f.1)
          []
          (length f.1.paths)
          (with_tags s f.0 [])
          t
  unfolding install_route
  install_route-Effect s f t h =
      let (u, tagging, h1) =
        >>=-eq-ok
          (fold_result (tag_path N map_sw_to_dpid answer f.0 (pair_of N map_sw_to_dpid answer f.1))
            (with_tags s f.0 [], []) f.1.paths)
          _ h in
      let (token, _, h2) = >>=-eq-ok (or_raise (answer u.0.posted u.1) type_error) _ h1 in
      let all =
        tag_paths-Effect f.0 (pair_of N map_sw_to_dpid answer f.1) f.1.paths []
          (with_tags s f.0 [], []) u (lookup-insert_self f.0 [] s.tag_values) tagging in
      subst
        (Effect f.0 (pair_of N map_sw_to_dpid answer f.1) [] (length f.1.paths)
          (with_tags s f.0 []))
        (ok_injective h2)
        (record {
          tags = all.tags;
          counted = all.counted;
          other_routes = all.other_routes;
          other_pairs = all.other_pairs;
        })

  abbrev pub tags_in : Option (List ℕ) → List ℕ
  tags_in none = []
  tags_in (some tags) = tags

  -- The tags of the routes of a pair, for the flows from the index i on, and how many paths those have.
  abbrev pub tags_of : Pair → ℕ → List (Flow N) → Dict ℕ (List ℕ) → List ℕ
  tags_of q i [] d = []
  tags_of q i (f ∷ fs) d =
      (if pair_eqb (pair_of N map_sw_to_dpid answer f) q then tags_in (lookup i d) else [])
      ++ tags_of q (suc i) fs d

  abbrev pub path_count : Pair → List (Flow N) → ℕ
  path_count q [] = 0
  path_count q (f ∷ fs) =
      (if pair_eqb (pair_of N map_sw_to_dpid answer f) q then length f.paths else 0)
      + path_count q fs

  record Counted (i : ℕ) (fs : List (Flow N)) (s t : Adder) : Type 0 where
    tags : (q : Pair) → tags_of q i fs t.tag_values ≡ range_from (counter s q) (path_count q fs)
    earlier : (j : ℕ) → j < i → lookup j t.tag_values ≡ lookup j s.tag_values

  head_tags :
      (i : ℕ) (f : Flow N) (fs : List (Flow N)) (s u t : Adder)
      → Effect i (pair_of N map_sw_to_dpid answer f) [] (length f.paths) (with_tags s i []) u
      → Counted (suc i) fs u t
      → (q : Pair)
      → tags_of q i (f ∷ fs) t.tag_values ≡ range_from (counter s q) (path_count q (f ∷ fs))
  head_tags i f fs s u t one rest q =
      elim (Bool-cases (pair_eqb (pair_of N map_sw_to_dpid answer f) q)) [
        | inl e ↦
            let same = (pair_eqb_iff (pair_of N map_sw_to_dpid answer f) q).0 e in
            let own : tags_in (lookup i t.tag_values) ≡ range_from (counter s q) (length f.paths) =
              ap tags_in (rest.earlier i (omega arith) ∙ one.tags)
              ∙ ap (λ p. range_from (counter s p) (length f.paths)) same in
            let next : counter u q ≡ counter s q + length f.paths =
              subst (λ p. counter u p ≡ counter s p + length f.paths) same one.counted in
            rw (e, own, rest.tags q, next)
              (range_from-append (counter s q) (length f.paths) (path_count q fs))
        | inr e ↦
            let count : path_count q fs ≡ 0 + path_count q fs = omega arith in
            rw e (
              rest.tags q
              ∙ ap (λ k. range_from k (path_count q fs)) (one.other_pairs q e)
              ∙ ap (range_from (counter s q)) count)
      ]

  install_from-Counted :
      (i : ℕ) (fs : List (Flow N)) (s t : Adder)
      → fold_result (install_route N map_sw_to_dpid answer) s (enumerate_from i fs) ≡ ok t
      → Counted i fs s t
  unfolding fold_result
  install_from-Counted i [] s t h =
      subst (Counted i [] s) (ok_injective h) (record { tags = λ q. refl; earlier = λ j le. refl })
  install_from-Counted i (f ∷ fs) s t h =
      let (u, first, later) =
        >>=-eq-ok (install_route N map_sw_to_dpid answer s (i, f))
          (λ u. fold_result (install_route N map_sw_to_dpid answer) u (enumerate_from (suc i) fs))
          h in
      let one = install_route-Effect s (i, f) u first in
      let rest = install_from-Counted (suc i) fs u t later in
      record {
        tags = head_tags i f fs s u t one rest;
        earlier = λ j le.
            rest.earlier j (omega arith)
            ∙ one.other_routes j (ground arith)
            ∙ lookup-insert_ne i j [] s.tag_values (ground arith);
      }

  -- If the routes are installed without an exception, the tags of the paths between a source and a
  -- destination are 1, 2, 3, … in the order of the flows and of their paths: none is used twice.
  pub install_routes-tags :
      (tokens : List ℕ) (posted : List Body) (flows : List (Flow N)) (t : Adder)
      → install_routes N map_sw_to_dpid answer tokens posted flows ≡ ok t
      → (q : Pair) → tags_of q 0 flows t.tag_values ≡ range_from 1 (path_count q flows)
  unfolding install_routes
  install_routes-tags tokens posted flows t h =
      (install_from-Counted 0 flows
        (record {
          tag_values = [];
          tag_counters = [];
          installed_route_tokens = tokens;
          posted = posted;
        })
        t h).tags

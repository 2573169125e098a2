-- ===== src/Routing/Orchestrator/Installed.antt =====
-- What is removed from the switches is what was installed on them.
use mathlib.Core.Path.{subst}
use mathlib.Core.List.{append-nil}
use cpsc_of_testbed.Base.{
  ℕ, List, [], ◌∷◌, ◌++◌, map, ◌≡◌, refl, sym, ◌∙◌, Option, none, some, ok, >>=-eq-ok,
  fold_result_inv, pairwise, String, nat_eq, eqb, eqb_iff, if◌then◌else◌, Bool-cases, inl, inr, ap,
  ok_injective, arith, false, Option-cases,
}
use cpsc_of_testbed.Base.Dict.{Dict, lookup, has_key, lookup-insert, IsUnique, insert-IsUnique}
use cpsc_of_testbed.Openflow.Flowmod.{Flowmod}
use cpsc_of_testbed.Routing.Orchestrator.{
  Mapper, RouteAdder, make, calculate_dscp_value, out_port, rule, or_empty, save, push_hop, first,
  last, install_hop, install_route, install_routes, rules_of, remove_routes,
}

-- The rules for one switch, in their order.
abbrev pub rules_at : ℕ → List (ℕ × Flowmod) → List Flowmod
rules_at d [] = []
rules_at d (x ∷ xs) = if eqb x.0 d then x.1 ∷ rules_at d xs else rules_at d xs

rules_at-append :
    (d : ℕ) (xs ys : List (ℕ × Flowmod)) → rules_at d (xs ++ ys) ≡ rules_at d xs ++ rules_at d ys
rules_at-append d [] ys = refl
rules_at-append d (x ∷ xs) ys = ground (arith, rules_at-append d xs ys)

rules_at-same : (d : ℕ) (rs : List Flowmod) → rules_at d (map (λ r. (d, r)) rs) ≡ rs
rules_at-same d [] = refl
rules_at-same d (r ∷ rs) = ground (arith, rules_at-same d rs)

rules_at-other :
    (d e : ℕ) (rs : List Flowmod) → eqb e d ≡ false → rules_at d (map (λ r. (e, r)) rs) ≡ []
rules_at-other d e [] h = refl
rules_at-other d e (r ∷ rs) h = rw h (rules_at-other d e rs h)

-- The dictionary has, for each switch, the rules that were pushed to it; nothing is removed yet.
record IsSaved (s : RouteAdder) : Type 0 where
  unique : IsUnique s.installed_routes
  saved : (d : ℕ) → or_empty (lookup d s.installed_routes) ≡ rules_at d s.pushed
  none_removed : s.removed ≡ []

saved_now :
    (s : RouteAdder) (dpid d : ℕ) (r : Flowmod)
    → ((d : ℕ) → or_empty (lookup d s.installed_routes) ≡ rules_at d s.pushed)
    → or_empty (
        if eqb dpid d
        then some (or_empty (lookup dpid s.installed_routes) ++ r ∷ [])
        else lookup d s.installed_routes)
      ≡ rules_at d s.pushed ++ rules_at d ((dpid, r) ∷ [])
saved_now s dpid d r h = elim (Bool-cases (eqb dpid d)) [
  | inl e ↦ rw e (
      ap (λ rs. rs ++ r ∷ [])
        (subst (λ q. or_empty (lookup dpid s.installed_routes) ≡ rules_at q s.pushed)
          ((eqb_iff dpid d).0 e) (h dpid)))
  | inr e ↦ rw e (h d ∙ sym (append-nil (rules_at d s.pushed)))
]

save-IsSaved : (s : RouteAdder) (dpid : ℕ) (r : Flowmod) → IsSaved s → IsSaved (save s dpid r)
save-IsSaved s dpid r h = record {
  unique =
      insert-IsUnique dpid (or_empty (lookup dpid s.installed_routes) ++ r ∷ []) s.installed_routes
        h.unique;
  saved = λ d.
      ap or_empty (
        lookup-insert dpid d (or_empty (lookup dpid s.installed_routes) ++ r ∷ [])
          s.installed_routes)
      ∙ saved_now s dpid d r h.saved
      ∙ sym (rules_at-append d s.pushed ((dpid, r) ∷ []));
  none_removed = h.none_removed;
}

no_rules : (k : ℕ) (t : Dict ℕ (List Flowmod)) → has_key k t ≡ false → or_empty (lookup k t) ≡ []
no_rules k t h = elim (Option-cases (lookup k t)) [
  | inl e ↦ ap or_empty e
  | inr (rs, e) ↦ absurd (ground (arith, h, e))
]

rules_at-rules_of :
    (d : ℕ) (t : Dict ℕ (List Flowmod))
    → IsUnique t
    → rules_at d (rules_of t) ≡ or_empty (lookup d t)
rules_at-rules_of d [] u = refl
rules_at-rules_of d ((e, rs) ∷ t) u =
    let rest = rules_at-rules_of d t u.1 in
    rules_at-append d (map (λ r. (e, r)) rs) (rules_of t) ∙ elim (Bool-cases (eqb e d)) [
      | inl h ↦
          let same = (eqb_iff e d).0 h in
          let own = subst (λ q. rules_at q (map (λ r. (e, r)) rs) ≡ rs) same (rules_at-same e rs) in
          let others = rest ∙ subst (λ q. or_empty (lookup q t) ≡ []) same (no_rules e t u.0) in
          rw (h, own, others) (append-nil rs)
      | inr h ↦ rw (h, rules_at-other d e rs h) rest
    ]

push_hop-IsSaved :
    (rule_for : ℕ → Flowmod) (s : RouteAdder) (dpid : ℕ) (port : Option ℕ)
    → IsSaved s
    → IsSaved (push_hop rule_for s dpid port)
push_hop-IsSaved rule_for s dpid none h = h
push_hop-IsSaved rule_for s dpid (some port) h = save-IsSaved s dpid (rule_for port) h

module _ (m : Mapper) (adj_mat : Dict ℕ (Dict ℕ ℕ)) where
  install_hop-IsSaved :
      (src_ip dst_ip : String) (dscp_val : ℕ) (s : RouteAdder) (hop : ℕ × ℕ) (t : RouteAdder)
      → IsSaved s
      → install_hop m adj_mat src_ip dst_ip dscp_val s hop ≡ ok t
      → IsSaved t
  unfolding install_hop
  install_hop-IsSaved src_ip dst_ip dscp_val s hop t h installed =
      let (src, _, h1) = >>=-eq-ok (m.map_sw_to_dpid hop.0) _ installed in
      let (dst, _, h2) = >>=-eq-ok (m.map_sw_to_dpid hop.1) _ h1 in
      subst IsSaved (ok_injective h2)
        (push_hop-IsSaved (rule src_ip dst_ip dscp_val src) s src (out_port adj_mat src dst) h)

  install_route-IsSaved :
      (s : RouteAdder) (r : ℕ × List ℕ) (t : RouteAdder)
      → IsSaved s
      → install_route m adj_mat s r.1 (calculate_dscp_value r.0) ≡ ok t
      → IsSaved t
  unfolding install_route
  install_route-IsSaved s r t h installed =
      let (src, _, h1) = >>=-eq-ok (first r.1) _ installed in
      let (dst, _, h2) = >>=-eq-ok (last r.1) _ h1 in
      let (src_ip, _, h3) = >>=-eq-ok (m.resolve src) _ h2 in
      let (dst_ip, _, h4) = >>=-eq-ok (m.resolve dst) _ h3 in
      let dscp_val = calculate_dscp_value r.0 in
      fold_result_inv IsSaved (install_hop m adj_mat src_ip dst_ip dscp_val)
        (install_hop-IsSaved src_ip dst_ip dscp_val) s (pairwise r.1) t h h4

  -- After any routes have been installed, remove_routes removes from each switch exactly the rules
  -- that were pushed to it, in the order in which they were pushed.
  pub remove_routes-install_routes :
      (routes : List (ℕ × List ℕ)) (s : RouteAdder)
      → install_routes m adj_mat make routes ≡ ok s
      → (d : ℕ) → rules_at d (remove_routes s).removed ≡ rules_at d s.pushed
  unfolding install_routes remove_routes
  remove_routes-install_routes routes s h d =
      let nothing : IsSaved make = record { unique = tt; saved = λ d. refl; none_removed = refl } in
      let saved =
        fold_result_inv IsSaved (λ t r. install_route m adj_mat t r.1 (calculate_dscp_value r.0))
          install_route-IsSaved make routes s nothing h in
      ap (λ xs. rules_at d (xs ++ rules_of s.installed_routes)) saved.none_removed
      ∙ rules_at-rules_of d s.installed_routes saved.unique
      ∙ saved.saved d

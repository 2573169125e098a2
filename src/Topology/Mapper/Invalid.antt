-- ===== src/Topology/Mapper/Invalid.antt =====
-- The edges that the check of flows reports.
use cpsc_of_testbed.Base.{
  ℕ, List, [], ◌∷◌, ◌++◌, true, false, ◌≡◌, ◌↔◌, ◌⊎◌, sym, ap, ◌∙◌, subst, inl, inr, Option, ok,
  ◌>>=◌, fold_result, >>=-eq-ok, ok_injective, pairwise, add, contains, In, contains_iff, nat_eq,
  pair_eq, Bool-cases, arith,
}
use cpsc_of_testbed.Base.Dict.{Dict}
use cpsc_of_testbed.Base.Text.{Text, text_eq}
use cpsc_of_testbed.Topology.Controller.{Link, Host}
use cpsc_of_testbed.Topology.Graph.{Graph, has_edge, build_graph_from_topo_string}
use cpsc_of_testbed.Topology.Mapper.{
  names_of, check_target_edge, check_paths, get_and_validate_onos_topo,
  verify_flows_against_target_topo,
}

-- All edges of the paths.
abbrev pub edges_of : Dict ℕ (List ℕ) → List (ℕ × ℕ)
edges_of [] = []
edges_of ((flow_id, path) ∷ paths) = pairwise path ++ edges_of paths

In-add : (a e : ℕ × ℕ) (xs : List (ℕ × ℕ)) → In a (add e xs) ↔ ((a ≡ e) ⊎ In a xs)
In-add a e xs = elim (Bool-cases (contains e xs)) [
  | inl c ↦
      rw c (λ h. inr h, λ h. elim h [ inl same ↦ rw same ((contains_iff e xs).0 c) | inr m ↦ m ])
  | inr c ↦ rw c (In-snoc a e xs)
]
  where
    In-snoc : (a e : ℕ × ℕ) (xs : List (ℕ × ℕ)) → In a (xs ++ e ∷ []) ↔ ((a ≡ e) ⊎ In a xs)
    In-snoc a e [] = (
      λ h. elim h [ inl same ↦ inl same | inr m ↦ absurd m ],
      λ h. elim h [ inl same ↦ inl same | inr m ↦ absurd m ],
    )
    In-snoc a e (x ∷ xs) = ground (arith, In-snoc a e xs)

module _ (g : Graph ℕ) (id_to_dpid : Dict ℕ Text) where
  -- Among the reported edges: reported before, or one of the edges and not in the graph.
  abbrev Reported : ℕ × ℕ → List (ℕ × ℕ) → List (ℕ × ℕ) → Type 0
  Reported a before es = In a before ⊎ (In a es × (has_edge g a.0 a.1 ≡ false))

  one_edge :
      (a e : ℕ × ℕ) (before after : List (ℕ × ℕ))
      → check_target_edge g id_to_dpid before e ≡ ok after
      → In a after ↔ Reported a before (e ∷ [])
  unfolding check_target_edge
  one_edge a e before after h = elim (Bool-cases (has_edge g e.0 e.1)) [
    | inl there ↦
        let same : before ≡ after = ok_injective (rw there at h) in
        (
          λ m. inl (subst (In a) (sym same) m),
          λ r. elim r [
            | inl m ↦ subst (In a) same m
            | inr n ↦ elim n.0 [
              | inl is ↦
                  absurd (in-both (there, ap (λ (b : ℕ × ℕ). has_edge g b.0 b.1) (sym is) ∙ n.1))
              | inr none_left ↦ absurd none_left
            ]
          ],
        )
    | inr absent ↦
        let (names, found, last) =
          >>=-eq-ok (names_of id_to_dpid e) (λ names. ok (add e before)) (rw absent at h) in
        let same : add e before ≡ after = ok_injective last in
        let (into, back) = In-add a e before in
        (
          λ m. elim (into (subst (In a) (sym same) m)) [
            | inl is ↦ inr (inl is, ap (λ (b : ℕ × ℕ). has_edge g b.0 b.1) is ∙ absent)
            | inr m' ↦ inl m'
          ],
          λ r. elim r [
            | inl m ↦ subst (In a) same (back (inr m))
            | inr n ↦ elim n.0 [
              | inl is ↦ subst (In a) same (back (inl is))
              | inr none_left ↦ absurd none_left
            ]
          ],
        )
  ]
    where
      in-both : (has_edge g e.0 e.1 ≡ true) × (has_edge g e.0 e.1 ≡ false) → ⊥
      in-both h = cc (h.0, h.1)

  -- One edge more.
  more :
      (a e : ℕ × ℕ) (before middle after : List (ℕ × ℕ)) (es : List (ℕ × ℕ))
      → In a middle ↔ Reported a before (e ∷ [])
      → In a after ↔ Reported a middle es
      → In a after ↔ Reported a before (e ∷ es)
  more a e before middle after es first rest = ground (arith, first, rest)

  many_edges :
      (a : ℕ × ℕ) (es before after : List (ℕ × ℕ))
      → fold_result (check_target_edge g id_to_dpid) before es ≡ ok after
      → In a after ↔ Reported a before es
  unfolding fold_result
  many_edges a [] before after h =
      let same : before ≡ after = ok_injective h in
      (
        λ m. inl (subst (In a) (sym same) m),
        λ r. elim r [ inl m ↦ subst (In a) same m | inr n ↦ absurd n.0 ],
      )
  many_edges a (e ∷ es) before after h =
      let (middle, first, rest) =
        >>=-eq-ok (check_target_edge g id_to_dpid before e)
          (λ b. fold_result (check_target_edge g id_to_dpid) b es) h in
      more a e before middle after es (one_edge a e before middle first)
        (many_edges a es middle after rest)

  In-append : (a : ℕ × ℕ) (us vs : List (ℕ × ℕ)) → In a (us ++ vs) ↔ (In a us ⊎ In a vs)
  In-append a [] vs = ground arith
  In-append a (u ∷ us) vs = ground (arith, In-append a us vs)

  many_paths :
      (a : ℕ × ℕ) (paths : Dict ℕ (List ℕ)) (before after : List (ℕ × ℕ))
      → fold_result
          (λ (invalid : List (ℕ × ℕ)) (e : ℕ × List ℕ).
            fold_result (check_target_edge g id_to_dpid) invalid (pairwise e.1))
          before
          paths
        ≡ ok after
      → In a after ↔ Reported a before (edges_of paths)
  unfolding fold_result
  many_paths a [] before after h =
      let same : before ≡ after = ok_injective h in
      (
        λ m. inl (subst (In a) (sym same) m),
        λ r. elim r [ inl m ↦ subst (In a) same m | inr n ↦ absurd n.0 ],
      )
  many_paths a ((flow_id, path) ∷ paths) before after h =
      let (middle, first, rest) =
        >>=-eq-ok (fold_result (check_target_edge g id_to_dpid) before (pairwise path))
          (λ b.
            fold_result
              (λ (invalid : List (ℕ × ℕ)) (e : ℕ × List ℕ).
                fold_result (check_target_edge g id_to_dpid) invalid (pairwise e.1))
              b paths)
          h in
      ground (
        arith,
        many_edges a (pairwise path) before middle first,
        many_paths a paths middle after rest,
        In-append a (pairwise path) (edges_of paths),
      )

module _ (isomorphism : Graph Text → Graph ℕ → Option (Dict Text ℕ)) where
  -- The edges that the check against the target topology reports are exactly those of the flows'
  -- paths that the topology does not have.
  pub verify_flows_against_target_topo_lem :
      (collector_host_ip : Text) (links : List Link) (hosts : List Host) (topo : Text)
      (paths : Dict ℕ (List ℕ)) (invalid : List (ℕ × ℕ))
      → verify_flows_against_target_topo isomorphism collector_host_ip links hosts topo paths
        ≡ ok invalid
      → (g : Graph ℕ) × (build_graph_from_topo_string topo ≡ ok g)
        × ((a : ℕ × ℕ) → In a invalid ↔ (In a (edges_of paths) × (has_edge g a.0 a.1 ≡ false)))
  unfolding verify_flows_against_target_topo check_paths
  verify_flows_against_target_topo_lem collector_host_ip links hosts topo paths invalid h =
      let (g, built, rest) =
        >>=-eq-ok (build_graph_from_topo_string topo)
          (λ g.
            get_and_validate_onos_topo isomorphism collector_host_ip links hosts topo
            >>= λ id_to_dpid. check_paths (check_target_edge g id_to_dpid) paths)
          h in
      let (id_to_dpid, named, checked) =
        >>=-eq-ok (get_and_validate_onos_topo isomorphism collector_host_ip links hosts topo)
          (λ id_to_dpid. check_paths (check_target_edge g id_to_dpid) paths) rest in
      (
        g,
        built,
        λ a.
            let (into, back) = many_paths g id_to_dpid a paths [] invalid checked in
            (λ m. elim (into m) [ inl b ↦ absurd b | inr r ↦ r ], λ r. back (inr r)),
      )

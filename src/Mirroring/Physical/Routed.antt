-- ===== src/Mirroring/Physical/Routed.antt =====
-- The ports of a mapped flow lead along its path.
use cpsc_of_testbed.Base.{
  ℕ, List, [], ◌∷◌, ◌++◌, map, ◌≡◌, refl, sym, ap, ◌∙◌, subst, some, ok, key_error, or_raise,
  or_raise-eq-ok, >>=-eq-ok, ok_injective, map_result, last_of, init, All, In, In-map, All-In,
  nat_eq,
}
use cpsc_of_testbed.Base.Dict.{Dict, lookup, IsUnique, lookup-In, In-lookup}
use cpsc_of_testbed.Base.Text.{Text}
use cpsc_of_testbed.Topology.Controller.{Link, Host, get_ports_that_connect, get_host_port}
use cpsc_of_testbed.Mirroring.Trial.{PortMirroringPorts, get_port_connecting}
use cpsc_of_testbed.Mirroring.Physical.{
  at_key, zip, map_port_ids_to_nw_ports, port_number, map_hops,
}
use cpsc_of_testbed.Mirroring.Physical.Ports.{some_injective, Leads, AllLead, map_port_ids-AllLead}

-- No switch has two entries, and no port of a switch leads to two switches.
abbrev pub swapped : Dict ℕ ℕ → Dict ℕ ℕ
swapped = map (λ (e : ℕ × ℕ). (e.1, e.0))

pub record HasOwnPorts (P : PortMirroringPorts) : Type 0 where
  pub switches_IsUnique : IsUnique P.port_map
  pub ports_IsUnique : All (λ (e : ℕ × Dict ℕ ℕ). IsUnique (swapped e.1)) P.port_map

-- The hops of a flow leave through the ports that connect them.
abbrev pub Follows : PortMirroringPorts → List (ℕ × ℕ) → Type 0
Follows P [] = Unit
Follows P (hop ∷ []) = Unit
Follows P (hop ∷ next ∷ hops) =
    (get_port_connecting P hop.0 next.0 ≡ ok hop.1) × Follows P (next ∷ hops)

-- The hops of a flow in the topology and in the network: as many, each with the name of its switch;
-- each port but the last is that of a link to the next switch, and the last is that of the host.
module _ (collector_ip_addr dns_server_ip : Text) (links : List Link) (hosts : List Host)
    (id_to_dpid : Dict ℕ Text) where
  abbrev pub IsRouted : List (ℕ × ℕ) → List (Text × ℕ) → Type 0
  IsRouted [] mapped = ⊥
  IsRouted (hop ∷ hops) [] = ⊥
  IsRouted (hop ∷ []) (m ∷ []) =
      (lookup hop.0 id_to_dpid ≡ some m.0)
      × (get_host_port collector_ip_addr dns_server_ip hosts m.0 ≡ ok m.1)
  IsRouted (hop ∷ []) (m ∷ n ∷ mapped) = ⊥
  IsRouted (hop ∷ next ∷ hops) (m ∷ []) = ⊥
  IsRouted (hop ∷ next ∷ hops) (m ∷ n ∷ mapped) =
      (lookup hop.0 id_to_dpid ≡ some m.0)
      × ((q : ℕ) × (get_ports_that_connect links m.0 n.0 ≡ ok (m.1, q)))
      × IsRouted (next ∷ hops) (n ∷ mapped)

module _ (links : List Link) (id_to_dpid : Dict ℕ Text) (P : PortMirroringPorts) where
  same_destination :
      (s d p : ℕ) (row : Dict ℕ ℕ) (e : ℕ)
      → HasOwnPorts P
      → In (s, row) P.port_map
      → In (e, p) row
      → get_port_connecting P s d ≡ ok p
      → e ≡ d
  unfolding get_port_connecting
  same_destination s d p row e own here there h =
      let (row', found, rest) =
        >>=-eq-ok (or_raise (lookup s P.port_map) key_error)
          (λ by_destination. or_raise (lookup d by_destination) key_error) h in
      let same : row ≡ row' = some_injective (
        sym (In-lookup s row P.port_map own.switches_IsUnique here)
        ∙ or_raise-eq-ok _ key_error found) in
      let also : In (d, p) row =
        subst (In (d, p)) (sym same) (lookup-In d p row' (or_raise-eq-ok _ key_error rest)) in
      let unique : IsUnique (swapped row) =
        All-In (λ (e : ℕ × Dict ℕ ℕ). IsUnique (swapped e.1)) P.port_map own.ports_IsUnique (s, row)
          here in
      some_injective (
        sym (In-lookup p e (swapped row) unique (In-map _ (e, p) row there))
        ∙ In-lookup p d (swapped row) unique (In-map _ (d, p) row also))

  connected :
      (s d p x : ℕ) (a b : Text)
      → HasOwnPorts P
      → Leads links id_to_dpid P s p x
      → get_port_connecting P s d ≡ ok p
      → lookup s id_to_dpid ≡ some a
      → lookup d id_to_dpid ≡ some b
      → (q : ℕ) × (get_ports_that_connect links a b ≡ ok (x, q))
  connected s d p x a b own l h na nb =
      let here = same_destination s d p l.row l.destination own l.of_switch l.of_port h in
      let first : a ≡ l.source_dpid = some_injective (sym na ∙ l.source_named) in
      let second : b ≡ l.destination_dpid =
        some_injective (sym nb ∙ ap (λ e. lookup e id_to_dpid) (sym here) ∙ l.destination_named) in
      (
        l.other_port,
        ap (λ u. get_ports_that_connect links u b) first
            ∙ ap (get_ports_that_connect links l.source_dpid) second
            ∙ l.connects,
      )

  module _ (c d : Text) (hosts : List Host) (m : Dict ℕ (Dict ℕ ℕ)) where
    -- The mapped hops from one on.
    abbrev Mapped : ℕ × ℕ → List (ℕ × ℕ) → List (Text × ℕ) → Type 0
    Mapped hop hops mapped =
        (first : Text × ℕ) × (rest : List (Text × ℕ)) × (mapped ≡ first ∷ rest)
        × (lookup hop.0 id_to_dpid ≡ some first.0)
        × IsRouted c d links hosts id_to_dpid (hop ∷ hops) (first ∷ rest)

    hops-Mapped :
        (hop : ℕ × ℕ) (hops : List (ℕ × ℕ)) (path : List Text) (ports : List ℕ) (last : ℕ × ℕ)
        (dpid : Text) (egress : ℕ)
        → HasOwnPorts P
        → AllLead links id_to_dpid P m
        → Follows P (hop ∷ hops)
        → map_result (λ (h : ℕ × ℕ). at_key id_to_dpid h.0) (hop ∷ hops) ≡ ok path
        → map_result (port_number m) (init (hop ∷ hops)) ≡ ok ports
        → last_of (hop ∷ hops) ≡ ok last
        → at_key id_to_dpid last.0 ≡ ok dpid
        → get_host_port c d hosts dpid ≡ ok egress
        → Mapped hop hops (zip path ports ++ (dpid, egress) ∷ [])
    unfolding map_result
    hops-Mapped hop [] path ports last dpid egress own all follows hp hq hl hd he =
        let (a, fa, hp') = >>=-eq-ok (at_key id_to_dpid hop.0) _ hp in
        let no_ports : [] ≡ ports = ok_injective hq in
        let is : hop ≡ last = ok_injective hl in
        let named = ap (λ (h : ℕ × ℕ). lookup h.0 id_to_dpid) is ∙ or_raise-eq-ok _ key_error hd in
        (
          (dpid, egress),
          [],
          ap (λ qs. zip path qs ++ (dpid, egress) ∷ []) (sym no_ports)
              ∙ ap (λ (ys : List (Text × ℕ)). ys ++ (dpid, egress) ∷ []) (zip-nil path),
          named,
          (named, he),
        )
      where
        zip-nil : (us : List Text) → ◌≡◌ {A = List (Text × ℕ)} (zip us []) []
        zip-nil [] = refl
        zip-nil (u ∷ us) = refl
    hops-Mapped hop (next ∷ hops) path ports last dpid egress own all follows hp hq hl hd he =
        let (a, fa, hp1) = >>=-eq-ok (at_key id_to_dpid hop.0) _ hp in
        let (path', fp, hp2) =
          >>=-eq-ok (map_result (λ (h : ℕ × ℕ). at_key id_to_dpid h.0) (next ∷ hops)) _ hp1 in
        let (x, fx, hq1) = >>=-eq-ok (port_number m hop) _ hq in
        let (ports', fq, hq2) = >>=-eq-ok (map_result (port_number m) (init (next ∷ hops))) _ hq1 in
        let (first, rest, shape, named, routed) =
          hops-Mapped next hops path' ports' last dpid egress own all follows.1 fp fq hl hd he in
        let lead = all hop.0 hop.1 x (or_raise-eq-ok _ key_error fx) in
        let here = or_raise-eq-ok _ key_error fa in
        (
          (a, x),
          first ∷ rest,
          ap (λ us. zip us ports ++ (dpid, egress) ∷ []) (sym (ok_injective hp2))
              ∙ ap (λ qs. zip (a ∷ path') qs ++ (dpid, egress) ∷ []) (sym (ok_injective hq2))
              ∙ ap (λ ys. (a, x) ∷ ys) shape,
          here,
          (here, connected hop.0 next.0 hop.1 x a first.0 own lead follows.0 here named, routed),
        )

  -- If no switch of the topology has two entries, no port of a switch leads to two switches, and the
  -- ports of a flow are those that connect its switches, then the flow is mapped to as many hops, each
  -- with the name of its switch. Each port but the last is that of a link of the network to the next
  -- switch; the last is that of the host.
  pub map_hops-IsRouted :
      (collector_ip_addr dns_server_ip : Text) (hosts : List Host) (m : Dict ℕ (Dict ℕ ℕ))
      (hop : ℕ × ℕ) (hops : List (ℕ × ℕ)) (mapped : List (Text × ℕ))
      → HasOwnPorts P
      → Follows P (hop ∷ hops)
      → map_port_ids_to_nw_ports links id_to_dpid P ≡ ok m
      → map_hops collector_ip_addr dns_server_ip hosts id_to_dpid m (hop ∷ hops) ≡ ok mapped
      → IsRouted collector_ip_addr dns_server_ip links hosts id_to_dpid (hop ∷ hops) mapped
  unfolding map_hops
  map_hops-IsRouted c d hosts m hop hops mapped own follows hm h =
      let (path, fp, h1) =
        >>=-eq-ok (map_result (λ (h : ℕ × ℕ). at_key id_to_dpid h.0) (hop ∷ hops)) _ h in
      let (ports, fq, h2) = >>=-eq-ok (map_result (port_number m) (init (hop ∷ hops))) _ h1 in
      let (last, fl, h3) = >>=-eq-ok (last_of (hop ∷ hops)) _ h2 in
      let (dpid, fd, h4) = >>=-eq-ok (at_key id_to_dpid last.0) _ h3 in
      let (egress, fe, h5) = >>=-eq-ok (get_host_port c d hosts dpid) _ h4 in
      let (first, rest, shape, named, routed) =
        hops-Mapped c d hosts m hop hops path ports last dpid egress own
          (map_port_ids-AllLead links id_to_dpid P m hm) follows fp fq fl fd fe in
      subst (IsRouted c d links hosts id_to_dpid (hop ∷ hops)) (sym shape ∙ ok_injective h5) routed

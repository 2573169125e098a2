-- ===== src/Mirroring/Requests/Bodies.antt =====
-- The body of a request names the hops to which its flow is mapped.
use cpsc_of_testbed.Base.{
  ℕ, List, [], ◌∷◌, ◌++◌, map, ◌≡◌, refl, sym, ap, ◌∙◌, subst, Result, ok, ◌>>=◌, >>=-eq-ok,
  ok_injective, map_result, last_of, init, raise-ne-ok, nat_eq, suc, length, length-map,
  length-append, arith,
}
use cpsc_of_testbed.Base.Dict.{Dict}
use cpsc_of_testbed.Base.Numbers.{Number}
use cpsc_of_testbed.Base.Text.{Text}
use cpsc_of_testbed.Topology.Controller.{Link, Host, get_host_port}
use cpsc_of_testbed.Mirroring.Flow.{PortMirroringFlow}
use cpsc_of_testbed.Mirroring.Trial.{PortMirroringPorts, Solutions}
use cpsc_of_testbed.Mirroring.Physical.{
  at_key, zip, port_number, map_hops, map_port_ids_to_nw_ports,
}
use cpsc_of_testbed.Mirroring.Physical.Routed.{HasOwnPorts, Follows, IsRouted, map_hops-IsRouted}
use cpsc_of_testbed.Mirroring.Requests.{
  PortsBody, create_path_json, create_port_numbers_json, create_mirrored_ports_json,
  create_add_port_mirroring_rules_request_json,
}

-- The keys of hops, first taken and then looked up.
map_result-map :
    {B : Type 0} (f : ℕ → Result B) (hops : List (ℕ × ℕ))
    → map_result f (map (λ (hop : ℕ × ℕ). hop.0) hops) ≡ map_result (λ (hop : ℕ × ℕ). f hop.0) hops
unfolding map_result
map_result-map f [] = refl
map_result-map f (hop ∷ hops) =
    ap (λ r. f hop.0 >>= λ y. r >>= λ ys. ok (y ∷ ys)) (map_result-map f hops)

length-map_result :
    {A B : Type 0} (f : A → Result B) (xs : List A) (ys : List B)
    → map_result f xs ≡ ok ys
    → length ys ≡ length xs
unfolding map_result
length-map_result f [] ys h = ap length (sym (ok_injective h))
length-map_result f (x ∷ xs) ys h =
    let (y, _, h1) = >>=-eq-ok (f x) _ h in
    let (zs, found, h2) = >>=-eq-ok (map_result f xs) _ h1 in
    ap length (sym (ok_injective h2)) ∙ ap suc (length-map_result f xs zs found)

length-init :
    (hop : ℕ × ℕ) (hops : List (ℕ × ℕ)) → length (hop ∷ hops) ≡ suc (length (init (hop ∷ hops)))
length-init hop [] = refl
length-init hop (next ∷ hops) = ap suc (length-init next hops)

module _ (id_to_dpid : Dict ℕ Text) (m : Dict ℕ (Dict ℕ ℕ)) where
  -- The last port belongs to the last switch.
  zip-last :
      (hop : ℕ × ℕ) (hops : List (ℕ × ℕ)) (path : List Text) (ports : List ℕ) (last : ℕ × ℕ)
      (dpid : Text) (egress : ℕ)
      → map_result (λ (h : ℕ × ℕ). at_key id_to_dpid h.0) (hop ∷ hops) ≡ ok path
      → map_result (port_number m) (init (hop ∷ hops)) ≡ ok ports
      → last_of (hop ∷ hops) ≡ ok last
      → at_key id_to_dpid last.0 ≡ ok dpid
      → zip path (ports ++ egress ∷ []) ≡ zip path ports ++ (dpid, egress) ∷ []
  unfolding map_result
  zip-last hop [] path ports last dpid egress hp hq hl hd =
      let (a, fa, hp1) = >>=-eq-ok (at_key id_to_dpid hop.0) _ hp in
      let is : hop ≡ last = ok_injective hl in
      let same : a ≡ dpid =
        ok_injective (sym fa ∙ ap (λ (h : ℕ × ℕ). at_key id_to_dpid h.0) is ∙ hd) in
      ap (λ qs. zip path (qs ++ egress ∷ [])) (sym (ok_injective hq))
      ∙ ap (λ us. zip us (egress ∷ [])) (sym (ok_injective hp1))
      ∙ ap (λ (t : Text). (t, egress) ∷ []) same
      ∙ ap (λ us. zip us [] ++ (dpid, egress) ∷ []) (ok_injective hp1)
      ∙ ap (λ qs. zip path qs ++ (dpid, egress) ∷ []) (ok_injective hq)
  zip-last hop (next ∷ hops) path ports last dpid egress hp hq hl hd =
      let (a, fa, hp1) = >>=-eq-ok (at_key id_to_dpid hop.0) _ hp in
      let (path', fp, hp2) =
        >>=-eq-ok (map_result (λ (h : ℕ × ℕ). at_key id_to_dpid h.0) (next ∷ hops)) _ hp1 in
      let (x, fx, hq1) = >>=-eq-ok (port_number m hop) _ hq in
      let (ports', fq, hq2) = >>=-eq-ok (map_result (port_number m) (init (next ∷ hops))) _ hq1 in
      ap (λ qs. zip path (qs ++ egress ∷ [])) (sym (ok_injective hq2))
      ∙ ap (λ us. zip us (x ∷ ports' ++ egress ∷ [])) (sym (ok_injective hp2))
      ∙ ap (λ zs. (a, x) ∷ zs) (zip-last next hops path' ports' last dpid egress fp fq hl hd)
      ∙ ap (λ us. zip us (x ∷ ports') ++ (dpid, egress) ∷ []) (ok_injective hp2)
      ∙ ap (λ qs. zip path qs ++ (dpid, egress) ∷ []) (ok_injective hq2)

-- The switches and ports of a request.
abbrev pub hops_of : PortsBody → List (Text × ℕ)
hops_of body = zip body.nodes body.port_numbers

module _ {N : Number} (collector_ip_addr dns_server_ip : Text) (hosts : List Host)
    (id_to_dpid : Dict ℕ Text) (m : Dict ℕ (Dict ℕ ℕ)) where
  -- They are those to which the flow is mapped.
  body-map_hops :
      (flow : PortMirroringFlow N ℕ ℕ) (hop : ℕ × ℕ) (hops : List (ℕ × ℕ))
      (solutions : Solutions N ℕ ℕ) (tag : ℕ) (body : PortsBody)
      → flow.hops ≡ hop ∷ hops
      → create_add_port_mirroring_rules_request_json collector_ip_addr dns_server_ip hosts
          id_to_dpid m flow solutions tag
        ≡ ok body
      → map_hops collector_ip_addr dns_server_ip hosts id_to_dpid m (hop ∷ hops) ≡ ok (hops_of body)
  unfolding create_add_port_mirroring_rules_request_json create_path_json create_port_numbers_json
      map_hops
  body-map_hops flow hop hops solutions tag body shape h =
      let (mirrored, f1, h1) = >>=-eq-ok (create_mirrored_ports_json id_to_dpid m solutions) _ h in
      let (nodes, f2, h2) =
        >>=-eq-ok (map_result (at_key id_to_dpid) (map (λ (hop : ℕ × ℕ). hop.0) flow.hops)) _ h1 in
      let (numbers, f3, h3) =
        >>=-eq-ok
          (create_port_numbers_json collector_ip_addr dns_server_ip hosts id_to_dpid m flow.hops) _
          h2 in
      let path_found =
        sym (ap (map_result (λ (h : ℕ × ℕ). at_key id_to_dpid h.0)) shape)
        ∙ sym (map_result-map (at_key id_to_dpid) flow.hops)
        ∙ f2 in
      let numbers_found =
        sym (ap (create_port_numbers_json collector_ip_addr dns_server_ip hosts id_to_dpid m) shape)
        ∙ f3 in
      let (ports, fq, h4) =
        >>=-eq-ok (map_result (port_number m) (init (hop ∷ hops))) _ numbers_found in
      let (last, fl, h5) = >>=-eq-ok (last_of (hop ∷ hops)) _ h4 in
      let (dpid, fd, h6) = >>=-eq-ok (at_key id_to_dpid last.0) _ h5 in
      let (egress, fe, h7) =
        >>=-eq-ok (get_host_port collector_ip_addr dns_server_ip hosts dpid) _ h6 in
      rw (path_found, fq, fl, fd, fe)
        (ap ok (
          sym (zip-last id_to_dpid m hop hops nodes ports last dpid egress path_found fq fl fd)
          ∙ ap (zip nodes) (ok_injective h7)
          ∙ ap hops_of (ok_injective h3)))

  -- A flow without hops has no request.
  no_hops :
      (flow : PortMirroringFlow N ℕ ℕ) (solutions : Solutions N ℕ ℕ) (tag : ℕ) (body : PortsBody)
      → flow.hops ≡ []
      → create_add_port_mirroring_rules_request_json collector_ip_addr dns_server_ip hosts
          id_to_dpid m flow solutions tag
        ≡ ok body
      → ⊥
  unfolding create_add_port_mirroring_rules_request_json create_path_json create_port_numbers_json
      map_result
  no_hops flow solutions tag body shape h =
      let (mirrored, f1, h1) = >>=-eq-ok (create_mirrored_ports_json id_to_dpid m solutions) _ h in
      let (nodes, f2, h2) =
        >>=-eq-ok (map_result (at_key id_to_dpid) (map (λ (hop : ℕ × ℕ). hop.0) flow.hops)) _ h1 in
      let (numbers, f3, h3) =
        >>=-eq-ok
          (create_port_numbers_json collector_ip_addr dns_server_ip hosts id_to_dpid m flow.hops) _
          h2 in
      raise-ne-ok (
        sym (ap (create_port_numbers_json collector_ip_addr dns_server_ip hosts id_to_dpid m) shape)
        ∙ f3)

  -- It has a port for each switch, and the tag is the number of the flow.
  body-lengths :
      (flow : PortMirroringFlow N ℕ ℕ) (hop : ℕ × ℕ) (hops : List (ℕ × ℕ))
      (solutions : Solutions N ℕ ℕ) (tag : ℕ) (body : PortsBody)
      → flow.hops ≡ hop ∷ hops
      → create_add_port_mirroring_rules_request_json collector_ip_addr dns_server_ip hosts
          id_to_dpid m flow solutions tag
        ≡ ok body
      → (body.tag_value ≡ tag) × (length body.nodes ≡ length body.port_numbers)
  unfolding create_add_port_mirroring_rules_request_json create_path_json create_port_numbers_json
  body-lengths flow hop hops solutions tag body shape h =
      let (mirrored, f1, h1) = >>=-eq-ok (create_mirrored_ports_json id_to_dpid m solutions) _ h in
      let (nodes, f2, h2) =
        >>=-eq-ok (map_result (at_key id_to_dpid) (map (λ (hop : ℕ × ℕ). hop.0) flow.hops)) _ h1 in
      let (numbers, f3, h3) =
        >>=-eq-ok
          (create_port_numbers_json collector_ip_addr dns_server_ip hosts id_to_dpid m flow.hops) _
          h2 in
      let (ports, fq, h4) = >>=-eq-ok (map_result (port_number m) (init flow.hops)) _ f3 in
      let (last, fl, h5) = >>=-eq-ok (last_of flow.hops) _ h4 in
      let (dpid, fd, h6) = >>=-eq-ok (at_key id_to_dpid last.0) _ h5 in
      let (egress, fe, h7) =
        >>=-eq-ok (get_host_port collector_ip_addr dns_server_ip hosts dpid) _ h6 in
      let enough : length flow.hops ≡ suc (length (init flow.hops)) =
        ap length shape ∙ length-init hop hops ∙ ap (λ hs. suc (length (init hs))) (sym shape) in
      let paths = length-map_result (at_key id_to_dpid) _ nodes f2 in
      let mapped = length-map (λ (hop : ℕ × ℕ). hop.0) flow.hops in
      let numbered = length-map_result (port_number m) (init flow.hops) ports fq in
      let appended = length-append ports (egress ∷ []) in
      let whole : length nodes ≡ length (ports ++ egress ∷ []) = omega arith in
      (
        sym (ap (λ (b : PortsBody). b.tag_value) (ok_injective h3)),
        ap (λ (b : PortsBody). length b.nodes) (sym (ok_injective h3))
            ∙ whole
            ∙ ap length (ok_injective h7)
            ∙ ap (λ (b : PortsBody). length b.port_numbers) (ok_injective h3),
      )

module _ {N : Number} (collector_ip_addr dns_server_ip : Text) (links : List Link)
    (hosts : List Host) (id_to_dpid : Dict ℕ Text) where
  -- The request for a flow: its number as the tag, as many switches as ports, and its route.
  pub record IsBodyOf (flow_id : ℕ) (flow : PortMirroringFlow N ℕ ℕ) (body : PortsBody)
      : Type 0 where
    pub tag_is_number : body.tag_value ≡ flow_id
    pub all_ports : length body.nodes ≡ length body.port_numbers
    pub routed :
        IsRouted collector_ip_addr dns_server_ip links hosts id_to_dpid flow.hops (hops_of body)

  -- The request for a flow that leaves through the ports of the topology.
  pub body-IsBodyOf :
      (P : PortMirroringPorts) (m : Dict ℕ (Dict ℕ ℕ)) (flow : PortMirroringFlow N ℕ ℕ)
      (solutions : Solutions N ℕ ℕ) (tag : ℕ) (body : PortsBody)
      → HasOwnPorts P
      → map_port_ids_to_nw_ports links id_to_dpid P ≡ ok m
      → Follows P flow.hops
      → create_add_port_mirroring_rules_request_json collector_ip_addr dns_server_ip hosts
          id_to_dpid m flow solutions tag
        ≡ ok body
      → IsBodyOf tag flow body
  body-IsBodyOf P m flow solutions tag body own hm follows h = go flow.hops refl
    where
      go : (hops : List (ℕ × ℕ)) → flow.hops ≡ hops → IsBodyOf tag flow body
      go [] shape = absurd (
          no_hops collector_ip_addr dns_server_ip hosts id_to_dpid m flow solutions tag body shape
            h)
      go (hop ∷ hops) shape =
          let (tagged, lengths) =
            body-lengths collector_ip_addr dns_server_ip hosts id_to_dpid m flow hop hops solutions
              tag body shape h in
          let routed =
            map_hops-IsRouted links id_to_dpid P collector_ip_addr dns_server_ip hosts m hop hops
              (hops_of body) own (subst (Follows P) shape follows) hm
              (body-map_hops collector_ip_addr dns_server_ip hosts id_to_dpid m flow hop hops
                solutions tag body shape h) in
          record {
            tag_is_number = tagged;
            all_ports = lengths;
            routed =
                subst
                  (λ hs.
                    IsRouted collector_ip_addr dns_server_ip links hosts id_to_dpid hs
                      (hops_of body))
                  (sym shape) routed;
          }

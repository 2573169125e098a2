-- ===== src/Mirroring/Requests/Routed.antt =====
-- What is requested for the flows leads along their paths.
use cpsc_of_testbed.Base.{
  ℕ, List, [], ◌∷◌, ◌++◌, Bool, ◌≡◌, refl, Option, none, some, Result, ok, raise, value_error,
  ◌>>=◌, All, All-append, All_of, All-In, In, nat_eq,
}
use cpsc_of_testbed.Base.Dict.{Dict, insert}
use cpsc_of_testbed.Base.Numbers.{Number}
use cpsc_of_testbed.Base.Text.{Text}
use cpsc_of_testbed.Topology.Controller.{Link, Host}
use cpsc_of_testbed.Mirroring.Flow.{PortMirroringFlow}
use cpsc_of_testbed.Mirroring.Trial.{PortMirroringPorts, Solutions}
use cpsc_of_testbed.Mirroring.Physical.{map_port_ids_to_nw_ports}
use cpsc_of_testbed.Mirroring.Physical.Routed.{HasOwnPorts, Follows}
use cpsc_of_testbed.Mirroring.Requests.{
  PortsBody, create_add_port_mirroring_rules_request_json, request_mirroring, request_all, go_on,
  after_checks, add_port_mirroring_flows, verify_that_all_flows_are_mirrored,
}
use cpsc_of_testbed.Mirroring.Requests.Bodies.{IsBodyOf, body-IsBodyOf}

-- What holds of every body that is made holds of everything that was posted.
module _ {F Body : Type 0} (body_of : ℕ → F → Result Body) (answer : List Body → Body → Option Text)
    (P : Body → Type 0) where
  request_all-All :
      (flows : Dict ℕ F) (posted : List Body) (flow_tokens : Dict ℕ Text)
      → All (λ (e : ℕ × F). (b : Body) → body_of e.0 e.1 ≡ ok b → P b) flows
      → All P posted
      → All P (request_all body_of answer posted flow_tokens flows).0
  unfolding request_all request_mirroring
  request_all-All [] posted flow_tokens made before = before
  request_all-All ((flow_id, flow) ∷ flows) posted flow_tokens made before =
      go (body_of flow_id flow) refl (λ p t before'. request_all-All flows p t made.1 before')
    where
      go :
          (r : Result Body)
          → body_of flow_id flow ≡ r
          → ((p : List Body) (t : Dict ℕ Text)
              → All P p
              → All P (request_all body_of answer p t flows).0)
          → All P
              (go_on body_of answer
                (λ p t. request_all body_of answer p t flows)
                (request_mirroring body_of answer posted flow_tokens flow_id r)).0
      go (raise e) h later = before
      go (ok body) h later = answered (answer posted body)
        where
          longer : All P (posted ++ body ∷ [])
          longer = All-append P posted (body ∷ []) before (made.0 body h, tt)

          answered :
              (o : Option Text)
              → All P
                  (go_on body_of answer
                    (λ p t. request_all body_of answer p t flows)
                    (elim o [
                      | none ↦ (posted ++ body ∷ [], raise value_error)
                      | some token ↦ (posted ++ body ∷ [], ok (insert flow_id token flow_tokens))
                    ])).0
          answered none = longer
          answered (some token) =
              later (posted ++ body ∷ []) (insert flow_id token flow_tokens) longer

module _ {N : Number} (answer : List PortsBody → PortsBody → Option Text)
    (collector_ip_addr dns_server_ip : Text) (links : List Link) (hosts : List Host) where
  -- A body is the request for one of the flows.
  abbrev pub IsRequest : Dict ℕ Text → Dict ℕ (PortMirroringFlow N ℕ ℕ) → PortsBody → Type 0
  IsRequest id_to_dpid flows body =
      (e : ℕ × PortMirroringFlow N ℕ ℕ) × In e flows
      × IsBodyOf collector_ip_addr dns_server_ip links hosts id_to_dpid e.0 e.1 body

  -- If no switch of the topology has two entries, no port of a switch leads to two switches, and the
  -- ports of the flows are those that connect their switches, then whatever is posted to the
  -- controller, also where it refuses a request or a later flow fails, is the request for one of the
  -- flows: the tag is its number; there is a port for each switch, and a switch for each of its hops,
  -- named as its own; each port but the last is that of a link of the network to the next switch, and
  -- the last is that of the host.
  pub add_port_mirroring_flows-IsRouted :
      (id_to_dpid : Dict ℕ Text) (flows : Dict ℕ (PortMirroringFlow N ℕ ℕ))
      (solutions : Solutions N ℕ ℕ) (P : PortMirroringPorts)
      → HasOwnPorts P
      → All (λ (e : ℕ × PortMirroringFlow N ℕ ℕ). Follows P e.1.hops) flows
      → All
          (IsRequest id_to_dpid flows)
          (add_port_mirroring_flows answer collector_ip_addr dns_server_ip links hosts id_to_dpid
            flows solutions P).0
  unfolding add_port_mirroring_flows
  add_port_mirroring_flows-IsRouted id_to_dpid flows solutions P own follow =
      go (map_port_ids_to_nw_ports links id_to_dpid P) refl
    where
      requests : Dict ℕ (Dict ℕ ℕ) → List PortsBody × Result (Dict ℕ Text)
      requests m =
          request_all
            (λ flow_id flow.
              create_add_port_mirroring_rules_request_json collector_ip_addr dns_server_ip hosts
                id_to_dpid m flow solutions flow_id)
            answer [] [] flows

      go :
          (r : Result (Dict ℕ (Dict ℕ ℕ)))
          → map_port_ids_to_nw_ports links id_to_dpid P ≡ r
          → All
              (IsRequest id_to_dpid flows)
              (after_checks
                (r >>= λ m.
                  verify_that_all_flows_are_mirrored id_to_dpid m flows solutions >>= λ said. ok m)
                requests).0
      go (raise e) h = tt
      go (ok m) h = said (verify_that_all_flows_are_mirrored id_to_dpid m flows solutions)
        where
          said :
              (b : Result Bool)
              → All (IsRequest id_to_dpid flows) (after_checks (b >>= λ said. ok m) requests).0
          said (raise e) = tt
          said (ok b) =
              request_all-All _ answer (IsRequest id_to_dpid flows) flows [] []
                (All_of _ flows (λ e here body made. (
                  e,
                  here,
                  body-IsBodyOf collector_ip_addr dns_server_ip links hosts id_to_dpid P m e.1
                      solutions e.0 body own h
                      (All-In (λ (f : ℕ × PortMirroringFlow N ℕ ℕ). Follows P f.1.hops) flows follow
                        e here)
                      made,
                )))
                tt

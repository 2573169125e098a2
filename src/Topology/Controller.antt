-- ===== src/Topology/Controller.antt =====
-- What rest_client/nw_control/topo_mapper.py reads from the controller: its links and its hosts. The
-- answers of the controller are arguments; ports are texts in them.
use cpsc_of_testbed.Base.{
  ℕ, List, [], ◌∷◌, not, ◌&&◌, Option, none, some, Result, ok, raise, value_error, index_error,
  stop_iteration, ◌>>=◌, filter, contains, if◌then◌else◌, ◌==◌,
}
use cpsc_of_testbed.Base.Text.{Text, codes, int, text_eq}

pub record Link : Type 0 where
  pub src_device : Text
  pub src_port : Text
  pub dst_device : Text
  pub dst_port : Text
  pub type : Text

pub record Host : Type 0 where
  pub ip_addresses : List Text
  -- `elementId` and `port`
  pub locations : List (Text × Text)

unfoldable pub get_nw_links : List Link → List Link
get_nw_links links = filter (λ (l : Link). not (l.type == codes "EDGE")) links

unfoldable pub find_ports : List Link → Text → Text → Result (ℕ × ℕ)
find_ports [] source_dpid destination_dpid = raise value_error
find_ports (l ∷ ls) source_dpid destination_dpid =
    if l.src_device == source_dpid && l.dst_device == destination_dpid
    then (do source_port ← int l.src_port; port ← int l.dst_port; ok (source_port, port))
    else find_ports ls source_dpid destination_dpid

unfoldable pub get_ports_that_connect : List Link → Text → Text → Result (ℕ × ℕ)
unfolding get_nw_links find_ports
get_ports_that_connect links source_dpid destination_dpid =
    find_ports (get_nw_links links) source_dpid destination_dpid

-- The addresses of the collector and of the name server are those of no traffic host.
module _ (collector_ip_addr dns_server_ip : Text) where
  unfoldable pub find_location : List Text → List (Text × Text) → Text → Option Text
  find_location ips [] switch_dpid = none
  find_location ips ((element_id, port) ∷ locations) switch_dpid =
      if (element_id == switch_dpid)
        && (not (contains collector_ip_addr ips) && not (contains dns_server_ip ips))
      then some port
      else find_location ips locations switch_dpid

  unfoldable pub get_host_port : List Host → Text → Result ℕ
  unfolding find_location
  get_host_port [] switch_dpid = raise value_error
  get_host_port (h ∷ hosts) switch_dpid =
      let rest = get_host_port hosts switch_dpid in
      elim (find_location h.ip_addresses h.locations switch_dpid) [
        | none ↦ rest
        | some port ↦ int port
      ]

-- `next` raises StopIteration where no host has the address.
unfoldable pub get_collector_switch_dpid : Text → List Host → Result Text
get_collector_switch_dpid collector_host_ip [] = raise stop_iteration
get_collector_switch_dpid collector_host_ip (h ∷ hosts) =
    if contains collector_host_ip h.ip_addresses
    then elim h.locations [ [] ↦ raise index_error | location ∷ rest ↦ ok location.0 ]
    else get_collector_switch_dpid collector_host_ip hosts

-- ===== src/Openflow/Flowmod.antt =====
-- The OpenFlow messages of rest_client/nw_control/flowmod.py.
use cpsc_of_testbed.Base.{ℕ, List, [], ◌∷◌, ◌++◌, Option, none, String, string_eq}
use cpsc_of_testbed.Base.Dict.{Dict, insert, update}

-- `MatchTypes`, the fields of a header that a rule can match on.
pub data MatchType : Type 0 where
  in_port eth_dst eth_src eth_type vlan_vid vlan_pcp ip_dscp ip_ecn ip_proto : MatchType
  ipv4_src ipv4_dst tcp_src tcp_dst udp_src udp_dst icmpv4_code icmpv4_type : MatchType
  arp_op arp_spa arp_tpa arp_sha arp_tha : MatchType

-- `MatchTypes.to_string`
abbrev pub to_string : MatchType → String
to_string in_port = "in_port"
to_string eth_dst = "eth_dst"
to_string eth_src = "eth_src"
to_string eth_type = "eth_type"
to_string vlan_vid = "vlan_vid"
to_string vlan_pcp = "vlan_pcp"
to_string ip_dscp = "ip_dscp"
to_string ip_ecn = "ip_ecn"
to_string ip_proto = "ip_proto"
to_string ipv4_src = "ipv4_src"
to_string ipv4_dst = "ipv4_dst"
to_string tcp_src = "tcp_src"
to_string tcp_dst = "tcp_dst"
to_string udp_src = "udp_src"
to_string udp_dst = "udp_dst"
to_string icmpv4_code = "icmpv4_code"
to_string icmpv4_type = "icmpv4_type"
to_string arp_op = "arp_op"
to_string arp_spa = "arp_spa"
to_string arp_tpa = "arp_tpa"
to_string arp_sha = "arp_sha"
to_string arp_tha = "arp_tha"

-- `ActionTypes`
pub data ActionType : Type 0 where
  output set_field goto_table : ActionType

-- `ActionTypes.to_string`
abbrev pub action_to_string : ActionType → String
action_to_string output = "OUTPUT"
action_to_string set_field = "SET_FIELD"
action_to_string goto_table = "GOTO_TABLE"

-- A number or a string, as a field of a message.
pub data Field : Type 0 where
  number : ℕ → Field
  text : String → Field

-- `Match`: the criteria by the name of the field.
pub record Match : Type 0 where
  pub match_dict : Dict String Field

-- `Match(match_type, match_value)`
abbrev pub make_match : MatchType → Field → Match
make_match t v = record { match_dict = insert (to_string t) v [] }

unfoldable pub add_criteria : Match → MatchType → Field → Match
add_criteria m t v = record { match_dict = insert (to_string t) v m.match_dict }

pub record Action : Type 0 where
  pub action_type : ActionType
  pub action_values : Dict String Field

-- The type and the values; a value under the key "type" would replace the type.
unfoldable pub get_dict : Action → Dict String Field
get_dict a = update (insert "type" (text (action_to_string a.action_type)) []) a.action_values

-- `Flowmod`; none is None.
pub record Flowmod : Type 0 where
  pub dpid : ℕ
  pub cookie : Option ℕ
  pub cookie_mask : Option ℕ
  pub table_id : Option ℕ
  pub idle_timeout : Option ℕ
  pub hard_timeout : Option ℕ
  pub priority : Option ℕ
  pub flags : Option ℕ
  pub match_criteria : Dict String Field
  pub actions : List (Dict String Field)

-- `Flowmod(dpid, idle_timeout=..., table_id=..., priority=...)`
abbrev pub make_flowmod : ℕ → Option ℕ → Option ℕ → Option ℕ → Flowmod
make_flowmod dpid idle_timeout table_id priority = record {
  dpid = dpid;
  cookie = none;
  cookie_mask = none;
  table_id = table_id;
  idle_timeout = idle_timeout;
  hard_timeout = none;
  priority = priority;
  flags = none;
  match_criteria = [];
  actions = [];
}

unfoldable pub add_match : Flowmod → Match → Flowmod
add_match f m = record f { match_criteria = update f.match_criteria m.match_dict }

unfoldable pub add_action : Flowmod → Action → Flowmod
unfolding get_dict
add_action f a = record f { actions = f.actions ++ get_dict a ∷ [] }

-- ===== src/Mirroring/Switch.antt =====
-- `SwitchPort` and `PortMirroringSwitch` of rest_client/trials/port_mirroring_trial.py: the ports of a
-- switch, each with its rate and the flows that leave through it.
pub mod Saved
use cpsc_of_testbed.Base.{
  ℕ, List, [], ◌∷◌, ◌++◌, map, filter, Bool, true, false, not, Result, ok, raise, value_error,
  ◌>>=◌, fold_result, map_result, nat_eq, eqb, if◌then◌else◌,
}
use cpsc_of_testbed.Base.Dict.{Dict, insert}
use cpsc_of_testbed.Base.Dict.Groups.{append_to}
use cpsc_of_testbed.Base.Numbers.{Number}
use cpsc_of_testbed.Base.Text.{Text, show, split, split_lines, unlines, int}
use cpsc_of_testbed.Base.Text.Floats.{FloatFormat, float}
use cpsc_of_testbed.Base.Text.Words.{undelimited}

module _ (N : Number) where
  open N use {Num}

  pub record SwitchPort : Type 0 where
    pub port_id : ℕ
    pub flow_rate : Num
    pub flow_list : List ℕ

  pub record PortMirroringSwitch : Type 0 where
    pub switch_id : ℕ
    pub ports : List SwitchPort

module _ {N : Number} where
  open N use {Num}

  unfoldable pub find_port : List (SwitchPort N) → ℕ → Result (SwitchPort N)
  find_port [] port_id = raise value_error
  find_port (p ∷ ps) port_id = if eqb p.port_id port_id then ok p else find_port ps port_id

  unfoldable pub get_port : PortMirroringSwitch N → ℕ → Result (SwitchPort N)
  unfolding find_port
  get_port s port_id = find_port s.ports port_id

  unfoldable pub find_rate : List (SwitchPort N) → ℕ → Result Num
  find_rate [] port_id = raise value_error
  find_rate (p ∷ ps) port_id =
      if eqb p.port_id port_id then ok p.flow_rate else find_rate ps port_id

  unfoldable pub rate_for_port : PortMirroringSwitch N → ℕ → Result Num
  unfolding find_rate
  rate_for_port s port_id = find_rate s.ports port_id

  -- `for switch_id, ports in ports.items()`
  unfoldable pub make_switches :
      Dict ℕ (PortMirroringSwitch N) → Dict ℕ (List (SwitchPort N)) → Dict ℕ (PortMirroringSwitch N)
  make_switches switches [] = switches
  make_switches switches ((switch_id, ports) ∷ rest) =
      make_switches (insert switch_id (record { switch_id = switch_id; ports = ports }) switches)
        rest

-- `flow != ""`
abbrev pub is_word : Text → Bool
is_word [] = false
is_word (c ∷ s) = true

module _ {N : Number} (F : FloatFormat N) where
  open F use {show_float}

  unfoldable pub port_line : ℕ → SwitchPort N → Text
  port_line switch_id p =
      show switch_id
      ++ b' '
        ∷ (show p.port_id ++ b' ' ∷ (show_float p.flow_rate ++ b' ' ∷ undelimited p.flow_list))

  unfoldable pub port_lines : Dict ℕ (PortMirroringSwitch N) → List Text
  unfolding port_line
  port_lines [] = []
  port_lines ((k, s) ∷ switches) = map (port_line s.switch_id) s.ports ++ port_lines switches

  unfoldable pub serialize : Dict ℕ (PortMirroringSwitch N) → Text
  unfolding port_lines
  serialize switches = unlines (port_lines switches)

  unfoldable pub parse_tokens : List Text → Result (ℕ × SwitchPort N)
  parse_tokens [] = raise value_error
  parse_tokens (a ∷ []) = raise value_error
  parse_tokens (a ∷ b ∷ []) = raise value_error
  parse_tokens (a ∷ b ∷ c ∷ flows) = do
    switch_id ← int a
    port_id ← int b
    port_rate ← float N F c
    flow_list ← map_result int (filter is_word flows)
    ok (switch_id, record { port_id = port_id; flow_rate = port_rate; flow_list = flow_list })

  unfoldable pub parse_line : Text → Result (ℕ × SwitchPort N)
  unfolding parse_tokens
  parse_line line = parse_tokens (split b' ' line)

  unfoldable pub add_port :
      Dict ℕ (List (SwitchPort N)) → Text → Result (Dict ℕ (List (SwitchPort N)))
  unfolding parse_line
  add_port ports line = do r ← parse_line line; ok (append_to r.0 r.1 ports)

  unfoldable pub deserialize : Text → Result (Dict ℕ (PortMirroringSwitch N))
  unfolding add_port make_switches
  deserialize text = do
    ports ← fold_result add_port [] (split_lines text)
    ok (make_switches [] ports)

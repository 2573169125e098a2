-- ===== src/Mirroring/Flow.antt =====
-- `PortMirroringFlow` of rest_client/trials/port_mirroring_trial.py: a flow with the switches of its
-- path and the ports through which it leaves them. A trial has numbers for both; mapped to the
-- network, it has the names that the controller gives them.
pub mod Saved
use cpsc_of_testbed.Base.{
  ℕ, List, [], ◌∷◌, ◌++◌, map, Result, ok, raise, last_of, value_error, ◌>>=◌, fold_result, nat_eq,
}
use cpsc_of_testbed.Base.Dict.{Dict, insert}
use cpsc_of_testbed.Base.Numbers.{Number}
use cpsc_of_testbed.Base.Text.{Text, show, split, split_lines, unlines, int}
use cpsc_of_testbed.Base.Text.Floats.{FloatFormat, float}

module _ (N : Number) where
  open N use {Num}

  pub record PortMirroringFlow (Node Port : Type 0) : Type 0 where
    pub flow_id : ℕ
    pub traffic_rate : Num
    pub hops : List (Node × Port)

module _ {N : Number} {Node Port : Type 0} where
  abbrev pub path : PortMirroringFlow N Node Port → List Node
  path f = map (λ h. h.0) f.hops

  abbrev pub ports : PortMirroringFlow N Node Port → List Port
  ports f = map (λ h. h.1) f.hops

-- The hops as text: every hop but the last has a blank behind it.
unfoldable pub path_to_str : List (ℕ × ℕ) → Text
path_to_str [] = []
path_to_str ((node, port) ∷ []) = show node ++ b' ' ∷ show port
path_to_str ((node, port) ∷ hop ∷ hops) =
    show node ++ b' ' ∷ (show port ++ b' ' ∷ path_to_str (hop ∷ hops))

-- `[(int(s[i]), int(s[i + 1])) for i in range(0, len(s) - 1, 2)]`
unfoldable pub parse_hops : List Text → Result (List (ℕ × ℕ))
parse_hops [] = ok []
parse_hops (a ∷ []) = ok []
parse_hops (a ∷ b ∷ rest) = do
  node ← int a
  port ← int b
  hops ← parse_hops rest
  ok ((node, port) ∷ hops)

module _ {N : Number} (F : FloatFormat N) where
  open F use {show_float}

  unfoldable pub flow_line : PortMirroringFlow N ℕ ℕ → Text
  unfolding path_to_str
  flow_line f = show f.flow_id ++ b' ' ∷ (show_float f.traffic_rate ++ b' ' ∷ path_to_str f.hops)

  -- The keys of the dictionary are not written.
  unfoldable pub serialize : Dict ℕ (PortMirroringFlow N ℕ ℕ) → Text
  unfolding flow_line
  serialize flows = unlines (map (λ (e : ℕ × PortMirroringFlow N ℕ ℕ). flow_line e.1) flows)

  -- The hops are the pairs of numbers, and then the last number with port 0.
  unfoldable pub parse_tokens : List Text → Result (PortMirroringFlow N ℕ ℕ)
  unfolding parse_hops
  parse_tokens [] = raise value_error
  parse_tokens (a ∷ []) = raise value_error
  parse_tokens (a ∷ b ∷ path_str) = do
    hops ← parse_hops path_str
    node ← last_of path_str >>= int
    flow_id ← int a
    traffic_rate ← float N F b
    ok (record { flow_id = flow_id; traffic_rate = traffic_rate; hops = hops ++ (node, 0) ∷ [] })

  unfoldable pub parse_line : Text → Result (PortMirroringFlow N ℕ ℕ)
  unfolding parse_tokens
  parse_line line = parse_tokens (split b' ' line)

  unfoldable pub add_line :
      Dict ℕ (PortMirroringFlow N ℕ ℕ) → Text → Result (Dict ℕ (PortMirroringFlow N ℕ ℕ))
  unfolding parse_line
  add_line flows line = do f ← parse_line line; ok (insert f.flow_id f flows)

  unfoldable pub deserialize : Text → Result (Dict ℕ (PortMirroringFlow N ℕ ℕ))
  unfolding add_line
  deserialize text = fold_result add_line [] (split_lines text)

-- ===== src/Mirroring/Switch/Saved.antt =====
-- Switches that were written are read again.
use cpsc_of_testbed.Base.{
  ℕ, List, [], ◌∷◌, ◌++◌, map, filter, ◌≡◌, refl, ap, ◌∙◌, sym, subst, ok, ◌>>=◌, fold_result,
  map_result, nat_eq, All, All-append, All-imply, All-map, ◌≢◌,
}
use mathlib.Core.List.{append_assoc, append-nil}
use cpsc_of_testbed.Base.Dict.{Dict, insert, IsUnique}
use cpsc_of_testbed.Base.Dict.Groups.{insert_new, IsUnique-middle}
use cpsc_of_testbed.Base.Numbers.{Number}
use cpsc_of_testbed.Base.Text.{Text, show, split, int}
use cpsc_of_testbed.Base.Text.Floats.{FloatFormat, IsPrinted}
use cpsc_of_testbed.Base.Text.Numerals.{read_nat-show, show-cons}
use cpsc_of_testbed.Base.Text.Parts.{IsLine, split-cut, split_whole, split_lines-unlines_all}
use cpsc_of_testbed.Base.Text.Words.{
  undelimited, undelimited-IsLine, split-undelimited, show-Lacks, show-IsLine, read_numbers,
}
use cpsc_of_testbed.Base.Text.Grouped.{
  group_lines, group_lines-IsLine, read_grouped, read_grouped-group_lines,
}
use cpsc_of_testbed.Base.Text.Entries.{IsUnique-read_as}
use cpsc_of_testbed.Mirroring.Switch.{
  SwitchPort, PortMirroringSwitch, make_switches, is_word, port_line, port_lines, serialize,
  parse_tokens, parse_line, add_port, deserialize,
}

is_word-show : (n : ℕ) (ns : List Text) → filter is_word (show n ∷ ns) ≡ show n ∷ filter is_word ns
is_word-show n ns = let (c, s, e) = show-cons n in rw e refl

filter-is_word : (ns : List ℕ) → filter is_word (map show ns) ≡ map show ns
filter-is_word [] = refl
filter-is_word (n ∷ ns) = is_word-show n (map show ns) ∙ ap (λ ws. show n ∷ ws) (filter-is_word ns)

-- The flows of a port, which may be none.
flow_words : (ns : List ℕ) → map_result int (filter is_word (split b' ' (undelimited ns))) ≡ ok ns
unfolding map_result undelimited
flow_words [] = ap (λ ws. map_result int (filter is_word ws)) (split_whole b' ' [] tt)
flow_words (n ∷ ns) =
    ap (λ ws. map_result int (filter is_word ws)) (split-undelimited n ns)
    ∙ ap (map_result int) (filter-is_word (n ∷ ns))
    ∙ read_numbers (n ∷ ns)

module _ {N : Number} (F : FloatFormat N) where
  open F use {show_float}

  abbrev pub HasPrintedRate : SwitchPort N → Type 0
  HasPrintedRate p = IsPrinted N F p.flow_rate

  split-port_line :
      (switch_id : ℕ) (p : SwitchPort N)
      → HasPrintedRate p
      → split b' ' (port_line F switch_id p)
        ≡ show switch_id
          ∷ show p.port_id
          ∷ show_float p.flow_rate
          ∷ split b' ' (undelimited p.flow_list)
  unfolding port_line
  split-port_line switch_id p h =
      split-cut b' ' (show switch_id) _ (show-Lacks switch_id)
      ∙ ap (λ ws. show switch_id ∷ ws)
          (split-cut b' ' (show p.port_id) _ (show-Lacks p.port_id)
            ∙ ap (λ ws. show p.port_id ∷ ws)
                (split-cut b' ' (show_float p.flow_rate) _ h.has_no_blank))

  parse_line-port_line :
      (switch_id : ℕ) (p : SwitchPort N)
      → HasPrintedRate p
      → parse_line F (port_line F switch_id p) ≡ ok (switch_id, p)
  unfolding parse_line
  parse_line-port_line switch_id p h = ap (parse_tokens F) (split-port_line switch_id p h) ∙ tokens
    where
      tokens :
          parse_tokens F (
            show switch_id
            ∷ show p.port_id
            ∷ show_float p.flow_rate
            ∷ split b' ' (undelimited p.flow_list))
          ≡ ok (switch_id, p)
      tokens =
          rw (read_nat-show switch_id)
            (rw (read_nat-show p.port_id) (rw h.reads_back (rw (flow_words p.flow_list) refl)))

  port_line-IsLine :
      (switch_id : ℕ) (p : SwitchPort N) → HasPrintedRate p → IsLine (port_line F switch_id p)
  unfolding port_line
  port_line-IsLine switch_id p h = All-append _ (show switch_id) _ (show-IsLine switch_id) (
    refl,
    All-append _ (show p.port_id) _ (show-IsLine p.port_id) (
      refl,
      All-append _ (show_float p.flow_rate) _ h.is_line (refl, undelimited-IsLine p.flow_list),
    ),
  )

module _ {N : Number} where
  abbrev pub groups : Dict ℕ (PortMirroringSwitch N) → Dict ℕ (List (SwitchPort N))
  groups = map (λ (e : ℕ × PortMirroringSwitch N). (e.0, e.1.ports))

  -- The switch stands under its number.
  abbrev pub HasOwnKey : ℕ × PortMirroringSwitch N → Type 0
  HasOwnKey e = e.0 ≡ e.1.switch_id

  make_switches-groups :
      (d before : Dict ℕ (PortMirroringSwitch N))
      → All HasOwnKey d
      → IsUnique (before ++ d)
      → make_switches before (groups d) ≡ before ++ d
  unfolding make_switches
  make_switches-groups [] before h u = sym (append-nil before)
  make_switches-groups ((k, s) ∷ d) before h u =
      ap (λ b. make_switches b (groups d)) inserted
      ∙ make_switches-groups d (before ++ (k, s) ∷ []) h.1 (subst IsUnique (sym regrouped) u)
      ∙ regrouped
    where
      same : ◌≡◌ {A = PortMirroringSwitch N} (record { switch_id = k; ports = s.ports }) s
      same = λ i. record { switch_id = h.0 i; ports = s.ports }

      inserted : insert k (record { switch_id = k; ports = s.ports }) before ≡ before ++ (k, s) ∷ []
      inserted =
          ap (λ t. insert k t before) same ∙ insert_new k s before (IsUnique-middle k s before d u)

      regrouped : (before ++ (k, s) ∷ []) ++ d ≡ before ++ (k, s) ∷ d
      regrouped = append_assoc before ((k, s) ∷ []) d

module _ {N : Number} (F : FloatFormat N) where
  -- A switch that can be written: it has a port, and the rates are printed exactly.
  abbrev pub IsSwitch : ℕ × PortMirroringSwitch N → Type 0
  IsSwitch e = (e.1.ports ≢ []) × All (HasPrintedRate F) e.1.ports × HasOwnKey e

  port_lines-groups :
      (d : Dict ℕ (PortMirroringSwitch N))
      → All IsSwitch d
      → port_lines F d ≡ group_lines (port_line F) (groups d)
  unfolding port_lines
  port_lines-groups [] h = refl
  port_lines-groups ((k, s) ∷ d) h =
      ap (λ i. map (port_line F i) s.ports ++ port_lines F d) (sym h.0.2)
      ∙ ap (λ ls. map (port_line F k) s.ports ++ ls) (port_lines-groups d h.1)

  -- Switches that each have a port are read as they were written.
  pub deserialize-serialize :
      (switches : Dict ℕ (PortMirroringSwitch N))
      → All IsSwitch switches
      → IsUnique switches
      → deserialize F (serialize F switches) ≡ ok switches
  unfolding deserialize serialize add_port
  deserialize-serialize switches h u =
      ap
        (λ ls.
          fold_result (read_grouped (parse_line F)) [] ls >>= λ ports. ok (make_switches [] ports))
        (split_lines-unlines_all (port_lines F switches) (
            subst (All IsLine) (sym (port_lines-groups switches h)) (
              group_lines-IsLine (port_line F) (groups switches) (
                All-map _ _ switches (
                  All-imply (λ e w. All-imply (λ p. port_line-IsLine F e.0 p) e.1.ports w.1)
                    switches h))))
          ∙ port_lines-groups switches h)
      ∙ ap (λ r. r >>= λ ports. ok (make_switches [] ports))
          (read_grouped-group_lines (parse_line F) (port_line F) (groups switches) []
            (All-map _ _ switches (
              All-imply (λ e w. (w.0, All-imply (λ p. parse_line-port_line F e.0 p) e.1.ports w.1))
                switches h))
            (IsUnique-read_as (λ (s : PortMirroringSwitch N). s.ports) switches u))
      ∙ ap ok (make_switches-groups switches [] (All-imply (λ e w. w.2) switches h) u)

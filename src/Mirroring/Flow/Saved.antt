-- ===== src/Mirroring/Flow/Saved.antt =====
-- What is read of flows that were written.
use cpsc_of_testbed.Base.{
  ℕ, List, [], ◌∷◌, ◌++◌, map, ◌≡◌, refl, ap, ◌∙◌, sym, ok, fold_result, nat_eq, All, All-append,
  ◌≢◌, subst, last_of, All-imply, All-map,
}
use cpsc_of_testbed.Base.Dict.{Dict, IsUnique}
use cpsc_of_testbed.Base.Numbers.{Number}
use cpsc_of_testbed.Base.Text.{show, split, int}
use cpsc_of_testbed.Base.Text.Floats.{FloatFormat, IsPrinted}
use cpsc_of_testbed.Base.Text.Numerals.{read_nat-show}
use cpsc_of_testbed.Base.Text.Parts.{IsLine, split-cut, split_lines-unlines_all}
use cpsc_of_testbed.Base.Text.Words.{
  undelimited, undelimited-IsLine, split-undelimited, show-Lacks, show-IsLine,
}
use cpsc_of_testbed.Base.Text.Entries.{read_entries-write, IsUnique-read_as}
use cpsc_of_testbed.Mirroring.Flow.{
  PortMirroringFlow, path_to_str, parse_hops, flow_line, serialize, parse_tokens, parse_line,
  add_line, deserialize,
}

-- The numbers of the hops, one after the other.
abbrev flat : List (ℕ × ℕ) → List ℕ
flat [] = []
flat ((node, port) ∷ hops) = node ∷ port ∷ flat hops

path_to_str-flat : (hops : List (ℕ × ℕ)) → path_to_str hops ≡ undelimited (flat hops)
unfolding path_to_str undelimited
path_to_str-flat [] = refl
path_to_str-flat ((node, port) ∷ []) = refl
path_to_str-flat ((node, port) ∷ hop ∷ hops) =
    ap (λ r. show node ++ b' ' ∷ (show port ++ b' ' ∷ r)) (path_to_str-flat (hop ∷ hops))

pub int-show : (n : ℕ) → int (show n) ≡ ok n
int-show n = rw (read_nat-show n) refl

parse_hops-flat : (hops : List (ℕ × ℕ)) → parse_hops (map show (flat hops)) ≡ ok hops
unfolding parse_hops
parse_hops-flat [] = refl
parse_hops-flat ((node, port) ∷ hops) =
    rw (read_nat-show node) (rw (read_nat-show port) (rw (parse_hops-flat hops) refl))

-- The port of the last hop.
abbrev pub last_port : ℕ × ℕ → List (ℕ × ℕ) → ℕ
last_port hop [] = hop.1
last_port hop (next ∷ hops) = last_port next hops

last_of-flat :
    (hop : ℕ × ℕ) (hops : List (ℕ × ℕ))
    → last_of (map show (flat (hop ∷ hops))) ≡ ok (show (last_port hop hops))
last_of-flat hop [] = refl
last_of-flat hop (next ∷ hops) = last_of-flat next hops

-- The hops that are read: a hop to the switch with the number of the last port is added.
abbrev pub reread_hops : List (ℕ × ℕ) → List (ℕ × ℕ)
reread_hops [] = []
reread_hops (hop ∷ hops) = (hop ∷ hops) ++ (last_port hop hops, 0) ∷ []

module _ {N : Number} (F : FloatFormat N) where
  open F use {show_float}

  abbrev pub reread : PortMirroringFlow N ℕ ℕ → PortMirroringFlow N ℕ ℕ
  reread f = record {
    flow_id = f.flow_id;
    traffic_rate = f.traffic_rate;
    hops = reread_hops f.hops;
  }

  -- A flow that can be written: it has a hop, and its rate is printed exactly.
  pub record IsWritable (f : PortMirroringFlow N ℕ ℕ) : Type 0 where
    pub has_hop : f.hops ≢ []
    pub rate_IsPrinted : IsPrinted N F f.traffic_rate

  parse_tokens-reread :
      (f : PortMirroringFlow N ℕ ℕ) (hop : ℕ × ℕ) (hops : List (ℕ × ℕ))
      → f.hops ≡ hop ∷ hops
      → IsPrinted N F f.traffic_rate
      → parse_tokens F (show f.flow_id ∷ show_float f.traffic_rate ∷ map show (flat (hop ∷ hops)))
        ≡ ok (record {
          flow_id = f.flow_id;
          traffic_rate = f.traffic_rate;
          hops = (hop ∷ hops) ++ (last_port hop hops, 0) ∷ [];
        })
  unfolding parse_tokens
  parse_tokens-reread f hop hops e p = rw (parse_hops-flat (hop ∷ hops)) (
      rw (last_of-flat hop hops) (
        rw (read_nat-show (last_port hop hops))
          (rw (read_nat-show f.flow_id) (rw p.reads_back refl))))

  split-flow_line :
      (f : PortMirroringFlow N ℕ ℕ) (hop : ℕ × ℕ) (hops : List (ℕ × ℕ))
      → f.hops ≡ hop ∷ hops
      → IsPrinted N F f.traffic_rate
      → split b' ' (flow_line F f)
        ≡ show f.flow_id ∷ show_float f.traffic_rate ∷ map show (flat (hop ∷ hops))
  unfolding flow_line
  split-flow_line f hop hops e p =
      split-cut b' ' (show f.flow_id) _ (show-Lacks f.flow_id)
      ∙ ap (λ ws. show f.flow_id ∷ ws)
          (split-cut b' ' (show_float f.traffic_rate) _ p.has_no_blank
            ∙ ap (λ ws. show_float f.traffic_rate ∷ ws)
                (ap (split b' ') (ap path_to_str e ∙ path_to_str-flat (hop ∷ hops))
                  ∙ split-undelimited hop.0 (hop.1 ∷ flat hops)))

  -- A line that was written is read with one hop more.
  pub parse_line-flow_line :
      (f : PortMirroringFlow N ℕ ℕ) → IsWritable f → parse_line F (flow_line F f) ≡ ok (reread f)
  unfolding parse_line
  parse_line-flow_line f w = go f.hops refl
    where
      go : (hops : List (ℕ × ℕ)) → f.hops ≡ hops → parse_line F (flow_line F f) ≡ ok (reread f)
      go [] e = absurd (w.has_hop e)
      go (hop ∷ hops) e =
          ap (parse_tokens F) (split-flow_line f hop hops e w.rate_IsPrinted)
          ∙ parse_tokens-reread f hop hops e w.rate_IsPrinted
          ∙ ap
              (λ (r : List (ℕ × ℕ)). ok (record {
                flow_id = f.flow_id;
                traffic_rate = f.traffic_rate;
                hops = reread_hops r;
              }))
              (sym e)

  flow_line-IsLine : (f : PortMirroringFlow N ℕ ℕ) → IsWritable f → IsLine (flow_line F f)
  unfolding flow_line
  flow_line-IsLine f w = All-append _ (show f.flow_id) _ (show-IsLine f.flow_id) (
    refl,
    All-append _ (show_float f.traffic_rate) _ (w.rate_IsPrinted.is_line)
        (refl, subst IsLine (sym (path_to_str-flat f.hops)) (undelimited-IsLine (flat f.hops))),
  )

  abbrev pub IsFlow : ℕ × PortMirroringFlow N ℕ ℕ → Type 0
  IsFlow e = IsWritable e.1 × (e.0 ≡ e.1.flow_id)

  -- The flows of a dictionary that was written are read, each with a hop more than it has.
  pub deserialize-serialize :
      (flows : Dict ℕ (PortMirroringFlow N ℕ ℕ))
      → All IsFlow flows
      → IsUnique flows
      → deserialize F (serialize F flows)
        ≡ ok (map (λ (e : ℕ × PortMirroringFlow N ℕ ℕ). (e.0, reread e.1)) flows)
  unfolding deserialize serialize add_line
  deserialize-serialize flows h u =
      ap (fold_result (add_line F) []) (
        split_lines-unlines_all (map (λ (e : ℕ × PortMirroringFlow N ℕ ℕ). flow_line F e.1) flows)
          (All-map IsLine _ flows (All-imply (λ e w. flow_line-IsLine e.1 w.0) flows h)))
      ∙ read_entries-write (parse_line F) (λ f. f.flow_id) (flow_line F) reread flows []
          (All-imply (λ e w. (parse_line-flow_line e.1 w.0, sym w.1)) flows h)
          (IsUnique-read_as reread flows u)

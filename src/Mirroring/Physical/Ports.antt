-- ===== src/Mirroring/Physical/Ports.antt =====
-- Where the mapped ports of the switches lead.
use cpsc_of_testbed.Base.{
  ℕ, List, [], Bool, true, false, ◌≡◌, refl, sym, ap, ◌∙◌, subst, inl, inr, none, some, ok,
  key_error, or_raise-eq-ok, >>=-eq-ok, ok_injective, fold_result_inv_in, In, if◌then◌else◌, ◌==◌,
  nat_eq, Bool-cases, eqb_iff,
}
use cpsc_of_testbed.Base.Dict.{Dict, lookup, insert, lookup-insert}
use cpsc_of_testbed.Base.Text.{Text}
use cpsc_of_testbed.Topology.Controller.{Link, get_ports_that_connect}
use cpsc_of_testbed.Mirroring.Trial.{PortMirroringPorts}
use cpsc_of_testbed.Mirroring.Physical.{
  at_key, row_of, map_port, map_switch_ports, map_port_ids_to_nw_ports,
}

pub some_injective : {A : Type 0} {a b : A} → some a ≡ some b → a ≡ b
some_injective h = cc

row_of-insert :
    (s t : ℕ) (row : Dict ℕ ℕ) (m : Dict ℕ (Dict ℕ ℕ))
    → row_of (insert s row m) t ≡ (if s == t then row else row_of m t)
row_of-insert s t row m =
    ap (λ o. elim o [ none ↦ [] | some r ↦ r ]) (lookup-insert s t row m) ∙ go (s == t)
  where
    go :
        (b : Bool)
        → (elim (if b then some row else lookup t m) [ none ↦ [] | some r ↦ r ])
          ≡ (if b then row else row_of m t)
    go true = refl
    go false = refl

module _ (links : List Link) (id_to_dpid : Dict ℕ Text) (P : PortMirroringPorts) where
  -- The port `x` of the network connects the switch `s` with one to which its port `p` leads.
  pub record Leads (s p x : ℕ) : Type 0 where
    pub row : Dict ℕ ℕ
    pub destination : ℕ
    pub of_switch : In (s, row) P.port_map
    pub of_port : In (destination, p) row
    pub source_dpid : Text
    pub destination_dpid : Text
    pub other_port : ℕ
    pub source_named : lookup s id_to_dpid ≡ some source_dpid
    pub destination_named : lookup destination id_to_dpid ≡ some destination_dpid
    pub connects : get_ports_that_connect links source_dpid destination_dpid ≡ ok (x, other_port)

  abbrev pub AllLead : Dict ℕ (Dict ℕ ℕ) → Type 0
  AllLead m = (s p x : ℕ) → lookup p (row_of m s) ≡ some x → Leads s p x

  -- A port that was just written, or one of before.
  one_port :
      (s : ℕ) (row : Dict ℕ ℕ) (d p : ℕ) (m : Dict ℕ (Dict ℕ ℕ)) (a b : Text) (c : ℕ × ℕ)
      → In (s, row) P.port_map
      → In (d, p) row
      → AllLead m
      → lookup s id_to_dpid ≡ some a
      → lookup d id_to_dpid ≡ some b
      → get_ports_that_connect links a b ≡ ok c
      → (r x : ℕ) → (if p == r then some c.0 else lookup r (row_of m s)) ≡ some x
      → Leads s r x
  one_port s row d p m a b c here there all fa fb fc r x found = elim (Bool-cases (p == r)) [
    | inr n ↦ all s r x (rw n at found)
    | inl e ↦
        subst (λ q. Leads s q x) ((eqb_iff p r).0 e)
          (record {
            row = row;
            destination = d;
            of_switch = here;
            of_port = there;
            source_dpid = a;
            destination_dpid = b;
            other_port = c.1;
            source_named = fa;
            destination_named = fb;
            connects = fc ∙ ap (λ (y : ℕ). ok (y, c.1)) (some_injective (rw e at found));
          })
  ]

  map_port-AllLead :
      (s : ℕ) (row : Dict ℕ ℕ)
      → In (s, row) P.port_map
      → (m : Dict ℕ (Dict ℕ ℕ)) (e : ℕ × ℕ) (m' : Dict ℕ (Dict ℕ ℕ)) → In e row
      → AllLead m
      → map_port links id_to_dpid s m e ≡ ok m'
      → AllLead m'
  unfolding map_port
  map_port-AllLead s row here m (d, p) m' there all h =
      let (a, fa, h1) = >>=-eq-ok (at_key id_to_dpid s) _ h in
      let (b, fb, h2) = >>=-eq-ok (at_key id_to_dpid d) _ h1 in
      let (c, fc, h3) = >>=-eq-ok (get_ports_that_connect links a b) _ h2 in
      subst AllLead (ok_injective h3) (λ t r x found.
        after a b c (or_raise-eq-ok _ key_error fa) (or_raise-eq-ok _ key_error fb) fc t r x
          (ap (λ (row' : Dict ℕ ℕ). lookup r row') (sym (row_of-insert s t _ m)) ∙ found))
    where
      after :
          (a b : Text) (c : ℕ × ℕ)
          → lookup s id_to_dpid ≡ some a
          → lookup d id_to_dpid ≡ some b
          → get_ports_that_connect links a b ≡ ok c
          → (t r x : ℕ)
          → lookup r (if s == t then insert p c.0 (row_of m s) else row_of m t) ≡ some x
          → Leads t r x
      after a b c fa fb fc t r x found = elim (Bool-cases (s == t)) [
        | inr n ↦ all t r x (rw n at found)
        | inl e ↦
            subst (λ u. Leads u r x) ((eqb_iff s t).0 e)
              (one_port s row d p m a b c here there all fa fb fc r x
                (sym (lookup-insert p r c.0 (row_of m s)) ∙ (rw e at found)))
      ]

  -- Every port that is mapped leads where the topology says.
  pub map_port_ids-AllLead :
      (m : Dict ℕ (Dict ℕ ℕ)) → map_port_ids_to_nw_ports links id_to_dpid P ≡ ok m → AllLead m
  unfolding map_port_ids_to_nw_ports map_switch_ports
  map_port_ids-AllLead m h =
      fold_result_inv_in AllLead (map_switch_ports links id_to_dpid) P.port_map
        (λ b e b' here all k.
          fold_result_inv_in AllLead (map_port links id_to_dpid e.0) e.1
            (λ c f c' there before l. map_port-AllLead e.0 e.1 here c f c' there before l) b b' all
            k)
        [] m (λ s p x found. absurd (none-ne-some found)) h
    where
      none-ne-some : {x : ℕ} → none ≡ some x → ⊥
      none-ne-some e = cc

-- ===== src/Simulator/Attacker/Captured.antt =====
-- The messages that an attacker recovers.
use cpsc_of_testbed.Base.{
  refl, ℕ, ◌<◌, ◌≡◌, ◌∙◌, List, [], ◌∷◌, eqb, nat_eq, length, contains, arith,
}
use cpsc_of_testbed.Base.Sorting.{contains-keys-groups, group, having, passes}
use cpsc_of_testbed.Simulator.Share.{Share}
use cpsc_of_testbed.Simulator.Attacker.{Attacker, reconstruct_captured_messages, share_nums}

-- The captured shares with this sequence number.
abbrev pub shares_of : ℕ → List Share → List Share
shares_of = having (λ s. s.seq_num)

passes-group :
    (k : ℕ) (shares : List Share)
    → 0 < k
    → passes (λ g. eqb (length (share_nums g)) k) (group shares)
      ≡ eqb (length (share_nums shares)) k
passes-group k [] h = ground arith
passes-group k (s ∷ shares) h = refl

-- A sequence number is among the recovered messages exactly when the captured shares with it, of
-- whatever flow and in whatever order they came, have K different share numbers. K is not 0.
pub reconstruct_lem :
    (a : Attacker) (q : ℕ)
    → 0 < a.k
    → contains q (reconstruct_captured_messages a)
      ≡ eqb (length (share_nums (shares_of q a.captured_shares))) a.k
unfolding reconstruct_captured_messages
reconstruct_lem a q h =
    contains-keys-groups (λ s. s.seq_num) (λ g. eqb (length (share_nums g)) a.k) q a.captured_shares
    ∙ passes-group a.k (shares_of q a.captured_shares) h

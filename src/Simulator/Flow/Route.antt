-- ===== src/Simulator/Flow/Route.antt =====
-- How a share moves along its path: from each node to the next, and at the last it has arrived.
use cpsc_of_testbed.Base.{
  ◌≢◌, ℕ, suc, zero, ◌≡◌, refl, List, [], ◌∷◌, some, none, ok, length, eqb, nat_eq, arith, inl, inr,
  Bool-cases, true, get_elem?, index, Nodup, contains,
}
use cpsc_of_testbed.Simulator.Share.{Share}
use cpsc_of_testbed.Simulator.Flow.{Flow, get_next_hop_for_share}

get_elem?-contains : (p : List ℕ) (i u : ℕ) → get_elem? p i ≡ some u → contains u p ≡ true
get_elem?-contains [] i u h = cc
get_elem?-contains (x ∷ p) zero u h = ground arith
get_elem?-contains (x ∷ p) (suc i) u h = ground (arith, get_elem?-contains p i u h)

-- In a path without repetitions a node is found where it stands.
pub index-get_elem? : (p : List ℕ) (i u : ℕ) → Nodup p → get_elem? p i ≡ some u → index u p ≡ some i
index-get_elem? [] i u d h = cc
index-get_elem? (x ∷ p) zero u d h = ground arith
index-get_elem? (x ∷ p) (suc i) u d h =
    ground (arith, get_elem?-contains p i u h, index-get_elem? p i u d.1 h)

get_elem?_end : (p : List ℕ) (i : ℕ) → i ≡ length p → get_elem? p i ≡ none
get_elem?_end [] i h = refl
get_elem?_end (x ∷ p) zero h = absurd (omega arith)
get_elem?_end (x ∷ p) (suc i) h = get_elem?_end p i (omega arith)

get_elem?_inside :
    (p : List ℕ) (i u : ℕ)
    → get_elem? p i ≡ some u
    → suc i ≢ length p
    → (v : ℕ) × (get_elem? p (suc i) ≡ some v)
get_elem?_inside [] i u here more = absurd (ground arith)
get_elem?_inside (x ∷ []) zero u here more = absurd (more refl)
get_elem?_inside (x ∷ []) (suc i) u here more = absurd (ground arith)
get_elem?_inside (x ∷ y ∷ p) zero u here more = (y, refl)
get_elem?_inside (x ∷ y ∷ p) (suc i) u here more = get_elem?_inside (y ∷ p) i u here (omega arith)

-- A share at position `i` of its path, which repeats no node, goes to the node at position `i + 1`;
-- at the last position it has arrived (`none`). No exception is raised.
pub next_hop_along_path :
    (f : Flow) (s : Share) (p : List ℕ) (i u : ℕ)
    → get_elem? f.paths s.path_idx ≡ some p
    → Nodup p
    → get_elem? p i ≡ some u
    → get_next_hop_for_share f s u ≡ ok (get_elem? p (suc i))
unfolding get_next_hop_for_share
next_hop_along_path f s p i u at_path d here = elim (Bool-cases (eqb (suc i) (length p))) [
  | inl last ↦ ground (arith, index-get_elem? p i u d here, get_elem?_end p (suc i) (ground arith))
  | inr more ↦
      let (v, next) = get_elem?_inside p i u here (ground arith) in
      ground (arith, index-get_elem? p i u d here)
]

-- ===== src/Mirroring/Trial/Saved.antt =====
-- A trial whose results were written, read again.
use cpsc_of_testbed.Base.{ℕ, [], map, true, ◌≡◌, refl, ◌≢◌, some, ok, ◌>>=◌, >>=-eq-ok, All, nat_eq}
use cpsc_of_testbed.Base.Dict.{IsUnique}
use cpsc_of_testbed.Base.Numbers.{Number}
use cpsc_of_testbed.Base.Text.{Text}
use cpsc_of_testbed.Base.Text.Floats.{FloatFormat, IsPrinted}
use cpsc_of_testbed.Mirroring.Flow.{PortMirroringFlow}
use cpsc_of_testbed.Mirroring.Flow.Saved.{IsFlow, reread, deserialize-serialize as flows_saved}
use cpsc_of_testbed.Mirroring.Switch.Saved.{IsSwitch, deserialize-serialize as switches_saved}
use cpsc_of_testbed.Mirroring.Solution
use cpsc_of_testbed.Mirroring.Solution.Saved.{IsSolved, deserialize-serialize as solutions_saved}
use cpsc_of_testbed.Mirroring.Trial.{
  PortMirroringTrial, PortMirroringPorts, PortsFormat, Solutions, serialize_ports,
  deserialize_ports, make, det, df, greedy, optimal, rnd, is_solution_type,
}
use cpsc_of_testbed.Mirroring.Trial.Files.{
  if_type, of_type, from_repository_files, build_results_files,
}

ports_read :
    (P : PortsFormat) (p : PortMirroringPorts)
    → P.read_ports (P.show_ports p.port_map) ≡ ok p.port_map
    → deserialize_ports P (serialize_ports P p) ≡ ok p
unfolding deserialize_ports serialize_ports
ports_read P p h = rw h refl

module _ {N : Number} (F : FloatFormat N) (P : PortsFormat) where
  open N use {Num}

  -- A trial whose parts can be written and read.
  pub record IsSavable (t : PortMirroringTrial N ℕ ℕ) (solutions : Solutions N ℕ ℕ)
      (objective : Num) : Type 0 where
    pub current : t.solutions ≡ some solutions
    pub flows_IsFlow : All (IsFlow F) t.flows
    pub flows_IsUnique : IsUnique t.flows
    pub switches_IsSwitch : All (IsSwitch F) t.switches
    pub switches_IsUnique : IsUnique t.switches
    pub objective_IsPrinted : IsPrinted N F objective
    pub has_solution : solutions ≢ []
    pub solutions_IsSolved : All (IsSolved objective) solutions
    pub solutions_IsUnique : IsUnique solutions
    pub ports_read_back :
        P.read_ports (P.show_ports t.mirroring_ports.port_map) ≡ ok t.mirroring_ports.port_map

  -- The results of a trial, read as those of a solver: the same topology, switches, ports and
  -- solutions, the latter under the name of the solver alone; but each flow has one hop more, to the
  -- switch whose number is that of its last port. That holds if the trial has current solutions, and at
  -- least one; if each flow has a hop, each switch a port and each list of solutions a solution; if all
  -- solutions have the same objective value; if flows, switches and solutions stand under their own
  -- numbers, none twice; if `%f` prints all rates and the objective value exactly; and if the ports of
  -- the topology are read from their text as they were.
  pub from_repository_files-build_results_files :
      (t : PortMirroringTrial N ℕ ℕ) (solutions : Solutions N ℕ ℕ) (objective : Num)
      (utilization_text : Text) (solution_type : Text) (duration : ℕ) (name : Text)
      → IsSavable t solutions objective
      → is_solution_type solution_type ≡ true
      → (build_results_files F P t utilization_text >>= λ files.
          from_repository_files F P files solution_type duration name)
        ≡ ok (
            of_type solution_type (
              make t.topology
                (map (λ (e : ℕ × PortMirroringFlow N ℕ ℕ). (e.0, reread F e.1)) t.flows)
                t.switches
                (if_type solution_type det solutions)
                (if_type solution_type df solutions)
                (if_type solution_type greedy solutions)
                (if_type solution_type optimal solutions)
                (if_type solution_type rnd solutions)
                duration
                name
                t.mirroring_ports))
  unfolding build_results_files from_repository_files
  from_repository_files-build_results_files t solutions objective u ty duration name h known =
      rw h.current (
        let (text, written, read) =
          >>=-eq-ok (Solution.serialize F solutions) (Solution.deserialize F) (
            solutions_saved F objective solutions h.objective_IsPrinted h.has_solution
              h.solutions_IsSolved h.solutions_IsUnique) in
        rw written (
          rw (flows_saved F t.flows h.flows_IsFlow h.flows_IsUnique) (
            rw read (
              rw (switches_saved F t.switches h.switches_IsSwitch h.switches_IsUnique)
                (rw ports_saved (rw known refl))))))
    where
      ports_saved : deserialize_ports P (serialize_ports P t.mirroring_ports) ≡ ok t.mirroring_ports
      ports_saved = ports_read P t.mirroring_ports h.ports_read_back

-- ===== src/Statistics/Monitor/Runs.antt =====
-- Calls of a monitor in any order.
use cpsc_of_testbed.Base.{
  List, [], ◌∷◌, Bool, true, false, ◌≡◌, refl, ap, Option, none, some, Result, ok, raise,
  value_error, map_result,
}
use cpsc_of_testbed.Base.Text.{Text}
use cpsc_of_testbed.Statistics.Monitor.{
  Sample, OnMonitor, make, start_monitor, stop_monitor, utilization_stats, get_monitor_statistics,
}

module _ (Statistics : Type 0) where
  -- A call with the answer of the controller.
  pub data Call : Type 0 where
    start : Option Text → Call
    stop : Option (List (Sample Statistics)) → Call

  -- What is seen of a monitor: the token of the run, the last statistics, and of each call whether it
  -- has returned.
  abbrev pub View : Type 0
  View = Option Text × (Option (List (Sample Statistics)) × List Bool)

module _ {Statistics : Type 0} where
  abbrev pub call : OnMonitor Statistics → Call Statistics → Result (OnMonitor Statistics)
  call m (start answer) = start_monitor answer m
  call m (stop answer) = stop_monitor answer m

  -- A call that raises leaves the monitor as it is; its caller goes on.
  abbrev pub kept_by : OnMonitor Statistics → Result (OnMonitor Statistics) → OnMonitor Statistics
  kept_by m (ok m') = m'
  kept_by m (raise e) = m

  abbrev pub has_returned : Result (OnMonitor Statistics) → Bool
  has_returned (ok m') = true
  has_returned (raise e) = false

  abbrev pub after_all : OnMonitor Statistics → List (Call Statistics) → OnMonitor Statistics
  after_all m [] = m
  after_all m (c ∷ cs) = after_all (kept_by m (call m c)) cs

  abbrev pub returned : OnMonitor Statistics → List (Call Statistics) → List Bool
  returned m [] = []
  returned m (c ∷ cs) = has_returned (call m c) ∷ returned (kept_by m (call m c)) cs

  abbrev pub and_then : Bool → View Statistics → View Statistics
  and_then b v = (v.0, (v.1.0, b ∷ v.1.1))

  -- The specification: two states, with the token of the run in one of them.
  abbrev pub spec :
      Option Text → Option (List (Sample Statistics)) → List (Call Statistics) → View Statistics
  spec token last [] = (token, (last, []))
  spec none last (start (some token) ∷ cs) = and_then true (spec (some token) last cs)
  spec none last (start none ∷ cs) = and_then false (spec none last cs)
  spec none last (stop answer ∷ cs) = and_then false (spec none last cs)
  spec (some token) last (start answer ∷ cs) = and_then false (spec (some token) last cs)
  spec (some token) last (stop (some response) ∷ cs) = and_then true (spec none (some response) cs)
  spec (some token) last (stop none ∷ cs) = and_then false (spec (some token) last cs)

  abbrev pub view : OnMonitor Statistics → List (Call Statistics) → View Statistics
  view m cs =
      ((after_all m cs).monitor_token, ((after_all m cs).stop_monitor_response, returned m cs))

  refines :
      (token : Option Text) (last : Option (List (Sample Statistics))) (cs : List (Call Statistics))
      → view (record { monitor_token = token; stop_monitor_response = last }) cs
        ≡ spec token last cs
  unfolding start_monitor stop_monitor
  refines none last [] = refl
  refines (some token) last [] = refl
  refines none last (start none ∷ cs) = ap (and_then false) (refines none last cs)
  refines none last (start (some token) ∷ cs) = ap (and_then true) (refines (some token) last cs)
  refines none last (stop answer ∷ cs) = ap (and_then false) (refines none last cs)
  refines (some token) last (start answer ∷ cs) = ap (and_then false) (refines (some token) last cs)
  refines (some token) last (stop none ∷ cs) = ap (and_then false) (refines (some token) last cs)
  refines (some token) last (stop (some response) ∷ cs) =
      ap (and_then true) (refines none (some response) cs)

  -- After any calls of a new monitor, those that raise included: a start returns exactly if no run is
  -- on and the controller answers, and its token is then that of the run; a stop returns exactly if a
  -- run is on and the controller answers, and ends it. The statistics are those of each sample of the
  -- last stop that returned, or ValueError where none has.
  pub monitor_refines :
      (cs : List (Call Statistics))
      → (view make cs ≡ spec none none cs)
        × (get_monitor_statistics (after_all make cs) ≡ elim (spec none none cs).1.0 [
          | none ↦ raise value_error
          | some response ↦ map_result utilization_stats response
        ])
  unfolding get_monitor_statistics
  monitor_refines cs =
      let same = refines none none cs in
      (
        same,
        ap
            (λ (v : View Statistics). elim v.1.0 [
              | none ↦ raise value_error
              | some response ↦ map_result utilization_stats response
            ])
            same,
      )

-- ===== src/Statistics/Monitor.antt =====
-- `OnMonitor` of rest_client/nw_control/stat_monitor.py. What the controller answers to a request is an
-- argument: the token or the statistics, or none for another status than 200.
pub mod Runs
use cpsc_of_testbed.Base.{
  ℕ, List, [], ◌∷◌, map, Option, none, some, Result, ok, raise, key_error, value_error, or_raise,
  ◌>>=◌, map_result,
}
use cpsc_of_testbed.Base.Dict.{Dict, lookup}
use cpsc_of_testbed.Base.Text.{Text, codes, text_eq}

module _ (Statistics : Type 0) where
  -- What a stop is answered: a list of dictionaries of dictionaries.
  abbrev pub Sample : Type 0
  Sample = Dict Text (Dict Text Statistics)

  -- The token of the running monitor, and the answer to the last stop.
  pub record OnMonitor : Type 0 where
    pub monitor_token : Option Text
    pub stop_monitor_response : Option (List Sample)

module _ {Statistics : Type 0} where
  abbrev pub make : OnMonitor Statistics
  make = record { monitor_token = none; stop_monitor_response = none }

  unfoldable pub start_monitor : Option Text → OnMonitor Statistics → Result (OnMonitor Statistics)
  start_monitor answer m = elim m.monitor_token [
    | some token ↦ raise value_error
    | none ↦ elim answer [
      | none ↦ raise value_error
      | some token ↦ ok (record m { monitor_token = some token })
    ]
  ]

  unfoldable pub stop_monitor :
      Option (List (Sample Statistics)) → OnMonitor Statistics → Result (OnMonitor Statistics)
  stop_monitor answer m = elim m.monitor_token [
    | none ↦ raise value_error
    | some token ↦ elim answer [
      | none ↦ raise value_error
      | some response ↦ ok (record { monitor_token = none; stop_monitor_response = some response })
    ]
  ]

  -- `d["netUtilStats"]["utilizationStats"]`
  unfoldable pub utilization_stats : Sample Statistics → Result Statistics
  utilization_stats d = or_raise (lookup (codes "netUtilStats") d) key_error >>= λ net_util_stats.
      or_raise (lookup (codes "utilizationStats") net_util_stats) key_error

  unfoldable pub get_monitor_statistics : OnMonitor Statistics → Result (List Statistics)
  unfolding utilization_stats
  get_monitor_statistics m = elim m.stop_monitor_response [
    | none ↦ raise value_error
    | some response ↦ map_result utilization_stats response
  ]

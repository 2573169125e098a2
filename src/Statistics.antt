-- ===== src/Statistics.antt =====
-- The statistics of the experiments: rest_client/nw_control/stat_monitor.py and `StatsProcessor` of
-- rest_client/mp_routing/stats_processor.py.
pub mod Monitor
pub mod Samples
pub mod Utilization
pub mod Loss
mod Tests

-- ===== src/Traffic.antt =====
-- The traffic generator, traffic_generation/traffic_gen.py.
pub mod Models
pub mod Rates
pub mod Dscp
pub mod Transmit
mod Tests
